-- ===== src/Payment/App/Requests.antt =====
-- Requests for the invoice routes of implementation/payment/src/cmd/server/app.ts, and what the
-- service relies on of the framework: how it matches their paths, and its time limit.
use tugas_akhir.Common.{ℕ, ◌<◌, String, ◌≡◌, ◌⊎◌, Option, none, some, [], ◌∷◌, All, ok, throw}
use tugas_akhir.Payment.Json.{Json, http_exception, obj, str}
use tugas_akhir.Payment.Entity.{
  CreateInvoice, Mode, Zod, id_params_schema, create_invoice_schema, pay_invoice_schema,
}
use tugas_akhir.Payment.Invoice.Ledger.{Command, makes, pays}
use tugas_akhir.Payment.App.{Response, respond, message}
use tugas_akhir.Payment.App.Server.{get_method, post_method, Request, Matches, Limit}

-- How the framework matches the paths of the invoice routes.
pub record MatchesInvoices (matches : Matches) : Type 0 where
  pub show_differs :
      (id : String)
      → All
          (λ pattern. matches pattern ("invoices" ∷ id ∷ []) ≡ none)
          ("/" ∷ "/metrics" ∷ "/metrics-queue" ∷ "/health" ∷ [])
  pub show_matches :
      (id : String) → matches "/invoices/{id}" ("invoices" ∷ id ∷ []) ≡ some (("id", str id) ∷ [])
  pub create_matches : matches "/invoices" ("invoices" ∷ []) ≡ some []
  pub pay_differs : (id : String) → matches "/invoices" ("invoices" ∷ id ∷ "payment" ∷ []) ≡ none
  pub pay_matches :
      (id : String)
      → matches "/invoices/{id}/payment" ("invoices" ∷ id ∷ "payment" ∷ [])
        ≡ some (("id", str id) ∷ [])

abbrev pub path_params : String → Json
path_params id = obj (("id", str id) ∷ [])

-- A request that meets the schemas of its route, and the command that it stands for.
pub data Asks (z : Zod) : Request → Command → Type 0 where
  asks_show :
      {given id : String} {body : Json}
      → id_params_schema z (path_params given) ≡ some id
      → Asks z
          (record { method = get_method; path = "invoices" ∷ given ∷ []; body = body })
          (Command.shows id)
  asks_make :
      {body : Json} {payload : CreateInvoice}
      → create_invoice_schema z body ≡ some payload
      → Asks z
          (record { method = post_method; path = "invoices" ∷ []; body = body })
          (makes payload)
  asks_pay :
      {given id : String} {body : Json} {mode : Mode}
      → id_params_schema z (path_params given) ≡ some id
      → pay_invoice_schema z body ≡ some mode
      → Asks z
          (record { method = post_method; path = "invoices" ∷ given ∷ "payment" ∷ []; body = body })
          (pays id mode)

abbrev pub gateway_timeout : Response
gateway_timeout = respond 504 (message "Gateway Timeout")

-- The documented behaviour of the limit, where `duration run s` is the time that `run` takes in the
-- world `s`: what runs is not stopped, and its answer or the exception of the limit comes first.
pub record Limits {S : Type 0} (limit : Limit S) (duration : (S → Response × S) → S → Option ℕ)
    : Type 0 where
  pub in_time :
      (ms : ℕ) (run : S → Response × S) (s : S) (t : ℕ)
      → duration run s ≡ some t
      → t < ms
      → limit ms run s ≡ (ok (run s).0, (run s).1)
  pub answers_or_throws :
      (ms : ℕ) (run : S → Response × S) (s : S)
      → (limit ms run s ≡ (ok (run s).0, (run s).1))
        ⊎ (limit ms run s ≡ (throw (http_exception 504 "Gateway Timeout"), (run s).1))
