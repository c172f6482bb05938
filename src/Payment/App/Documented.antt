-- ===== src/Payment/App/Documented.antt =====
-- The responses of the invoice routes against those that createRoute declares for them.
use tugas_akhir.Common.{
  ℕ, ◌<◌, String, ◌≡◌, refl, ◌⊎◌, inl, inr, Option, none, some, List, [], ◌∷◌, ok, Bool-cases, ltb,
}
use tugas_akhir.Payment.Json.{Json, Text, obj, str}
use tugas_akhir.Payment.Entity.{
  Status, pending, Invoice, Mode, success, Zod, ZodLaws, invoice_json, invoice_schema, error_schema,
  schema-json, create_schema-positive,
}
use tugas_akhir.Payment.Platform.{Platform, Faithful}
use tugas_akhir.Payment.Invoice.Pay.{settled}
use tugas_akhir.Payment.Invoice.Ledger.{
  not_payable, Ledger, Command, Moment, makes, pays, lapses, pay, pay_entry, serve,
}
use tugas_akhir.Payment.Invoice.Ledger.Represents.{Reliable, Represents}
use tugas_akhir.Payment.App.{WebhookQueue, Response, Body, invoice, message}
use tugas_akhir.Payment.App.Server.{
  Declared, invoice_body, error_body, show_responses, create_responses, pay_responses, Request,
  Matches, Pages, Limit, create_app,
}
use tugas_akhir.Payment.App.Requests.{
  MatchesInvoices, Asks, asks_show, asks_make, asks_pay, gateway_timeout, Limits,
}
use tugas_akhir.Payment.App.Refines.{Quiet, shown}
use tugas_akhir.Payment.App.Serves.{create_app-Answered}

module _ (z : Zod) (laws : ZodLaws z) where
  -- The body is a JSON value that the declared schema accepts.
  abbrev pub Fits : Declared → Body → Type 0
  Fits invoice_body b =
      (j : Json) × (inv : Invoice) × (b ≡ invoice j) × (invoice_schema z j ≡ some inv)
  Fits error_body b =
      (text : String) × (b ≡ message text)
      × (error_schema z (obj (("message", str text) ∷ [])) ≡ some text)

  -- The status is declared, and the body fits the schema that is declared for it.
  abbrev pub IsDeclared : List (ℕ × Declared) → Response → Type 0
  IsDeclared [] r = ⊥
  IsDeclared ((status, declared) ∷ rest) r =
      ((r.status ≡ status) × Fits declared r.body) ⊎ IsDeclared rest r

  -- What the route of a command declares.
  abbrev pub declared : Command → List (ℕ × Declared)
  declared (Command.shows id) = show_responses
  declared (makes payload) = create_responses
  declared (pays id mode) = pay_responses
  declared (lapses id) = []

  message-Fits : (text : String) → Fits error_body (message text)
  unfolding error_schema
  message-Fits text = (text, refl, laws.string-str text)

  invoice-Fits : (inv : Invoice) → 0 < inv.amount → Fits invoice_body (invoice (invoice_json inv))
  invoice-Fits inv h = (invoice_json inv, inv, refl, schema-json z laws inv h)

  settled_positive :
      (mode : Mode) (t : ℕ) (inv : Invoice) → 0 < inv.amount → 0 < (settled mode t inv).amount
  settled_positive success t inv h = h
  settled_positive Mode.failed t inv h = h

  found-IsDeclared :
      (found : Option Invoice)
      → ((inv : Invoice) → found ≡ some inv → 0 < inv.amount)
      → IsDeclared show_responses (shown (ok found))
  found-IsDeclared none h = inr (inl (refl, message-Fits "Invoice not found"))
  found-IsDeclared (some inv) h = inl (refl, invoice-Fits inv (h inv refl))

  refused-IsDeclared : IsDeclared pay_responses (shown not_payable)
  refused-IsDeclared = inr (inl (refl, message-Fits _))

  entry-IsDeclared :
      (m : Moment) (l : Ledger) (id : String) (mode : Mode) (st : Status) (inv : Invoice)
      → 0 < inv.amount
      → IsDeclared pay_responses (shown (pay_entry m l id mode st inv).0)
  entry-IsDeclared m l id mode pending inv h = elim (Bool-cases (ltb inv.expired_at m.first)) [
    | inl late ↦ rw late refused-IsDeclared
    | inr early ↦ rw early (
        inl (refl, invoice-Fits (settled mode m.second inv) (settled_positive mode m.second inv h)))
  ]
  entry-IsDeclared m l id mode _ inv h = refused-IsDeclared

  pay-IsDeclared :
      (m : Moment) (l : Ledger) (id : String) (mode : Mode) (found : Option Invoice)
      → ((inv : Invoice) → found ≡ some inv → 0 < inv.amount)
      → IsDeclared pay_responses (shown (pay m l id mode found).0)
  pay-IsDeclared m l id mode none h = inr (inr (inl (refl, message-Fits "Invoice not found")))
  pay-IsDeclared m l id mode (some inv) h = entry-IsDeclared m l id mode inv.status inv (h inv refl)

  serve-IsDeclared :
      {request : Request} {c : Command} (m : Moment) (l : Ledger)
      → Asks z request c
      → ((id : String) (inv : Invoice) → l id ≡ some inv → 0 < inv.amount)
      → IsDeclared (declared c) (shown (serve c m l).0)
  unfolding serve
  serve-IsDeclared m l (asks_show {given} {id} e) h = found-IsDeclared (l id) (h id)
  serve-IsDeclared m l (asks_make {body} {payload} e) h =
      inl (refl, invoice-Fits _ (create_schema-positive z laws body payload e))
  serve-IsDeclared m l (asks_pay {given} {id} {body} {mode} ei em) h =
      pay-IsDeclared m l id mode (l id) (h id)

module _ {S : Type 0} (p : Platform S) (z : Zod) (queue : WebhookQueue S) (rejected : Response)
    (pages : Pages S) (matches : Matches) (routed : MatchesInvoices matches) (limit : Limit S)
    (duration : (S → Response × S) → S → Option ℕ) (limits : Limits limit duration)
    (contents : S → String → Option Text) (time : S → ℕ) (env : Faithful p contents)
    (laws : ZodLaws z) (up : Reliable p time) (quiet : Quiet queue contents time) where
  -- Where Redis and the queue answer every call and Redis holds what some ledger says, the response
  -- to a request that meets the schemas of its invoice route has a status that the route declares
  -- and a body that the schema declared for this status accepts, or it is that of the time limit.
  pub create_app-IsDeclared :
      {request : Request} {c : Command} (s : S) (l : Ledger)
      → Asks z request c
      → Represents contents s l
      → let r = (create_app p z queue rejected pages matches limit request s).0 in
        IsDeclared z laws (declared z laws c) r ⊎ (r ≡ gateway_timeout)
  create_app-IsDeclared {request} {c} s l asks h =
      let (m, (answer, world, before, order, after, id)) =
        create_app-Answered p z queue rejected pages matches routed limit duration limits contents
          time env laws up quiet s l asks h in
      elim answer [
        | inl e ↦ inl (rw e (serve-IsDeclared z laws m l asks h.positive))
        | inr late ↦ inr late.0
      ]
