-- ===== src/Payment/Tests/Posts.antt =====
-- The webhook job of a paid invoice at work, after more requests to the server.
use Prim.Native.String
use Prim.Native.String.append
use tugas_akhir.Common.Text.{show}
use Prim.Native.Char.{code}
use tugas_akhir.Common.{ℕ, ap, sym, ◌∙◌, String, some, ◌≡◌, ◌≢◌, refl, List, [], ◌∷◌, map, arith}
use tugas_akhir.Payment.Entity.{
  Invoice, paid, pending, success, create_invoice_schema, id_params_schema, pay_invoice_schema,
}
use tugas_akhir.Payment.Invoice.{key, stringify}
use tugas_akhir.Payment.Invoice.Ledger.{Ledger, update, Command, Moment, shows, makes, pays, replay}
use tugas_akhir.Payment.Invoice.Ledger.Represents.{Represents, Holds-setex}
use tugas_akhir.Payment.Invoice.Ledger.Refines.{command_of}
use tugas_akhir.Payment.Json.{obj}
use tugas_akhir.Payment.App.Server.{get_method, post_method, Request}
use tugas_akhir.Payment.App.Requests.{asks_show, asks_make, asks_pay}
use tugas_akhir.Payment.App.Serves.{AskAll, serve_all}
use tugas_akhir.Payment.Notifier.Tells.{NeverAgain, Posts, process_job-tells}
use tugas_akhir.Payment.World.Server.{
  time, no_invoices, queue-Quiet, matches, matched, pages, duration, limit, limits,
}
use tugas_akhir.Payment.Tests.{paid_invoice, open_world, request}
use tugas_akhir.Payment.Tests.Sequences.{pay_json, create_json}
use tugas_akhir.Payment.World.{
  World, contents, platform, platform-Faithful, platform-Reliable, zod, zod-ZodLaws, sender, queue,
  rejected,
}

abbrev bare_world : World
bare_world = record open_world { store = [] }

-- An invoice whose id the numbering of this world does not give.
abbrev old_invoice : Invoice
old_invoice = record paid_invoice { id = "first" }

abbrev paid_world : World
paid_world = (platform.setex (key "first") 3600 (stringify old_invoice) bare_world).1

abbrev paid_ledger : Ledger
paid_ledger = update no_invoices "first" old_invoice

paid_world-Represents : Represents contents paid_world paid_ledger
paid_world-Represents =
    Holds-setex platform zod contents time platform-Faithful zod-ZodLaws platform-Reliable
      bare_world no_invoices "first" old_invoice (omega arith)
      (record { texts = λ id. refl; positive = λ id inv e. cc e })

-- A second payment, another invoice and a look.
abbrev requests : List Request
requests =
    record { method = post_method; path = "invoices" ∷ "first" ∷ "payment" ∷ []; body = pay_json }
    ∷ record { method = post_method; path = "invoices" ∷ []; body = create_json }
    ∷ record { method = get_method; path = "invoices" ∷ "first" ∷ []; body = obj [] }
    ∷ []

abbrev asked : List Command
asked = pays "first" success ∷ makes request ∷ shows "first" ∷ []

asks :
    AskAll platform zod queue rejected pages matches matched limit duration limits contents time
      platform-Faithful zod-ZodLaws platform-Reliable queue-Quiet requests asked
unfolding create_invoice_schema id_params_schema pay_invoice_schema
asks = (asks_pay refl refl, (asks_make refl, (asks_show refl, tt)))

abbrev later_world : World
later_world =
    (serve_all platform zod queue rejected pages matches matched limit duration limits contents time
      platform-Faithful zod-ZodLaws platform-Reliable queue-Quiet requests paid_world).1

paid_not_pending : paid ≢ pending
paid_not_pending e = cc e

abbrev initial : String → ℕ
initial String.[] = 0
initial (String.◌∷◌ c s) = code c

-- A numbered id begins with another letter.
numbered_apart : (t : String) → String.◌++◌ "inv" t ≢ "first"
numbered_apart t e =
    let same : 105 ≡ 102 = ap initial (sym (String.append.cons "i" "nv" t) ∙ e) in
    absurd (omega (arith, same))

never_again :
    NeverAgain platform zod contents time platform-Faithful zod-ZodLaws platform-Reliable sender
      queue rejected pages matches matched limit duration limits queue-Quiet "first"
      (time paid_world)
never_again w late e = numbered_apart (show w.count) e

process_job-tells_example :
    (ms : List (Command × Moment)) × (map command_of ms ≡ asked)
    × ((replay ms paid_ledger).1 "first" ≡ some old_invoice)
    × Posts platform zod contents time platform-Faithful zod-ZodLaws platform-Reliable sender
        (replay ms paid_ledger).1
        "first"
        old_invoice
        later_world
process_job-tells_example =
    process_job-tells platform zod contents time platform-Faithful zod-ZodLaws platform-Reliable
      sender queue rejected pages matches matched limit duration limits queue-Quiet requests asked
      paid_world paid_ledger "first" old_invoice asks paid_world-Represents refl paid_not_pending
      never_again
