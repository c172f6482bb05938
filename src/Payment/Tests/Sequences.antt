-- ===== src/Payment/Tests/Sequences.antt =====
-- The theorems on the ledger of invoices at work: an invoice is created, paid or left to lapse.
use tugas_akhir.Common.{◌⊎◌, ℕ, ◌≡◌, refl, List, [], ◌∷◌, map, ok, some, arith}
use tugas_akhir.Common.Text.{show}
use tugas_akhir.Payment.Entity.{
  invoice_json, invoice_schema, create_invoice_schema, Invoice, success, id_params_schema,
  pay_invoice_schema,
}
use tugas_akhir.Payment.Invoice.Ledger.{
  Ledger, Command, Moment, shows, makes, pays, lapses, serve, replay, InOrder,
}
use tugas_akhir.Payment.Invoice.Ledger.Represents.{Represents, call, calls}
use tugas_akhir.Payment.Invoice.Ledger.Tracks.{Tracks}
use tugas_akhir.Payment.Invoice.Ledger.Refines.{command_of, calls-replay, call-serve}
use tugas_akhir.Payment.Json.{num, Json, obj, str}
use tugas_akhir.Payment.App.{Response, create_route, get_route, pay_route}
use tugas_akhir.Payment.App.Server.{
  get_method, post_method, Request, pay_responses, dispatch, create_app,
}
use tugas_akhir.Payment.App.Requests.{Asks, asks_show, asks_make, asks_pay, gateway_timeout}
use tugas_akhir.Payment.App.Serves.{AskAll, ShowAll, GeneratedAll, serve_all, serve_all-replay}
use tugas_akhir.Payment.App.Documented.{IsDeclared, create_app-IsDeclared}
use tugas_akhir.Payment.World.Server.{
  time, no_invoices, queue-Quiet, matches, matched, pages, duration, limit, limits,
}
use tugas_akhir.Payment.Notifier.{process_job}
use tugas_akhir.Payment.Notifier.Settles.{IsSettledAt, Accepts, lapsed, process_job-settles}
use tugas_akhir.Payment.Invoice.{create_invoice, get_invoice, pay_invoice}
use tugas_akhir.Payment.Tests.{empty_world, request}
use tugas_akhir.Payment.World.{
  World, contents, platform, platform-Faithful, platform-Reliable, zod, zod-ZodLaws, sender, queue,
  rejected,
}

nothing_stored : Represents contents empty_world no_invoices
nothing_stored = record { texts = λ id. refl; positive = λ id inv e. cc e }

abbrev commands : List Command
commands = makes request ∷ shows "inv1" ∷ pays "inv1" success ∷ lapses "inv1" ∷ []

calls-replay_example :
    (ms : List (Command × Moment)) × (map command_of ms ≡ commands)
    × ((calls platform zod commands empty_world).0 ≡ (replay ms no_invoices).0)
    × Represents contents (calls platform zod commands empty_world).1 (replay ms no_invoices).1
    × InOrder 1000 ms
calls-replay_example =
    calls-replay platform zod contents time platform-Faithful zod-ZodLaws platform-Reliable commands
      empty_world no_invoices (omega arith, (tt, (tt, (tt, tt)))) nothing_stored

created :
    Tracks contents time empty_world
      (λ m. serve (makes request) m no_invoices)
      (call platform zod (makes request) empty_world)
created =
    call-serve platform zod contents time platform-Faithful zod-ZodLaws platform-Reliable
      (makes request) empty_world no_invoices (omega arith) nothing_stored

abbrev created_world : World
created_world = (call platform zod (makes request) empty_world).1

abbrev created_ledger : Ledger
created_ledger = (serve (makes request) created.0 no_invoices).1

process_job-settles_example :
    Represents contents
      (process_job platform zod sender "inv1" created_world).1
      (lapsed created_ledger "inv1")
    × IsSettledAt (lapsed created_ledger "inv1") "inv1"
    × (Accepts sender
        → (inv : Invoice) → created_ledger "inv1" ≡ some inv
        → (process_job platform zod sender "inv1" created_world).0 ≡ ok tt)
process_job-settles_example =
    process_job-settles platform zod contents time platform-Faithful zod-ZodLaws platform-Reliable
      sender created_world created_ledger "inv1" (λ t h s. refl) created.1.1

abbrev pub pay_json : Json
pay_json = obj (("mode", str "success") ∷ [])

abbrev pub create_json : Json
create_json =
    obj (("amount", num 50) ∷ ("description", str "A ticket") ∷ ("externalId", str "order-7") ∷ [])

-- An invoice is made, shown and paid, and a second payment is refused.
abbrev requests : List Request
requests =
    record { method = post_method; path = "invoices" ∷ []; body = create_json }
    ∷ record { method = get_method; path = "invoices" ∷ "inv1" ∷ []; body = obj [] }
    ∷ record { method = post_method; path = "invoices" ∷ "inv1" ∷ "payment" ∷ []; body = pay_json }
    ∷ record { method = post_method; path = "invoices" ∷ "inv1" ∷ "payment" ∷ []; body = pay_json }
    ∷ []

abbrev asked : List Command
asked = makes request ∷ shows "inv1" ∷ pays "inv1" success ∷ pays "inv1" success ∷ []

asks :
    AskAll platform zod queue rejected pages matches matched limit duration limits contents time
      platform-Faithful zod-ZodLaws platform-Reliable queue-Quiet requests asked
unfolding create_invoice_schema id_params_schema pay_invoice_schema
asks = (asks_make refl, (asks_show refl, (asks_pay refl refl, (asks_pay refl refl, tt))))

abbrev run_all : List Response × World
run_all =
    serve_all platform zod queue rejected pages matches matched limit duration limits contents time
      platform-Faithful zod-ZodLaws platform-Reliable queue-Quiet requests empty_world

serve_all-replay_example :
    (ms : List (Command × Moment)) × (map command_of ms ≡ asked)
    × ShowAll platform zod queue rejected pages matches matched limit duration limits contents time
        platform-Faithful zod-ZodLaws platform-Reliable queue-Quiet run_all.0
        (replay ms no_invoices).0
    × Represents contents run_all.1 (replay ms no_invoices).1
    × InOrder 1000 ms
    × GeneratedAll platform zod queue rejected pages matches matched limit duration limits contents
        time platform-Faithful zod-ZodLaws platform-Reliable queue-Quiet 1000 ms
serve_all-replay_example =
    serve_all-replay platform zod queue rejected pages matches matched limit duration limits
      contents time platform-Faithful zod-ZodLaws platform-Reliable queue-Quiet requests asked
      empty_world no_invoices asks nothing_stored

abbrev statuses : List ℕ
statuses = map (λ r. r.status) run_all.0

-- The four answers of that run.
statuses_seen : statuses ≡ 200 ∷ 200 ∷ 200 ∷ 400 ∷ []
unfolding serve_all create_app dispatch create_route get_route pay_route create_invoice get_invoice
    pay_invoice create_invoice_schema id_params_schema pay_invoice_schema invoice_schema
    invoice_json show
statuses_seen = refl

abbrev pay_request : Request
pay_request = record {
  method = post_method;
  path = "invoices" ∷ "inv1" ∷ "payment" ∷ [];
  body = pay_json;
}

pay_asked : Asks zod pay_request (pays "inv1" success)
unfolding id_params_schema pay_invoice_schema
pay_asked = asks_pay refl refl

abbrev pay_response : Response
pay_response =
    (create_app platform zod queue rejected pages matches limit pay_request created_world).0

create_app-IsDeclared_example :
    IsDeclared zod zod-ZodLaws pay_responses pay_response ⊎ (pay_response ≡ gateway_timeout)
create_app-IsDeclared_example =
    create_app-IsDeclared platform zod queue rejected pages matches matched limit duration limits
      contents time platform-Faithful zod-ZodLaws platform-Reliable queue-Quiet created_world
      created_ledger pay_asked created.1.1
