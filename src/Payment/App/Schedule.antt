-- ===== src/Payment/App/Schedule.antt =====
-- When the webhook job of a new invoice is due.
use mathlib.Core.Path.{subst}
use tugas_akhir.Common.{
  ℕ, ◌+◌, ◌*◌, String, ◌≡◌, refl, ap, Option, some, Outcome, ok, throw, bind_post, arith, pure,
  ◌>>◌,
}
use tugas_akhir.Common.Int.{ℤ, pos, sub_ℕ, ◌+ℤ◌}
use tugas_akhir.Payment.Json.{Json, Text, Failure, http_exception, error, http_error}
use tugas_akhir.Payment.Entity.{Invoice, CreateInvoice, Zod, invoice_json, create_invoice_schema}
use tugas_akhir.Payment.Platform.{Platform, Faithful}
use tugas_akhir.Payment.Invoice.{create_invoice}
use tugas_akhir.Payment.Invoice.Create.{made_at, CreatePost, create_invoice_post}
use tugas_akhir.Payment.App.{
  WebhookQueue, Response, respond, invoice, on_error, recover, create_handler, create_route,
}

due_at :
    (t made_t : ℕ) → pos t +ℤ (sub_ℕ (made_t + 15 * 60000) t +ℤ pos 1000) ≡ pos (made_t + 901000)
due_at t made_t = ground arith

module _ {S : Type 0} (p : Platform S) (z : Zod) (contents : S → String → Option Text)
    (env : Faithful p contents) (queue : WebhookQueue S) (rejected : Response) where
  -- The job that calls for the expiry of `inv` was queued under its id, with a delay after the
  -- reading `t` of the clock that ends one second after the invoice expires.
  abbrev pub Scheduled : Invoice → S → Type 0
  Scheduled inv s =
      (delay : ℤ) × ((queue.add inv.id inv.id delay (p.clock s).1).0 ≡ ok tt)
      × (pos (p.clock s).0 +ℤ delay ≡ pos (inv.created_at + 901000))

  -- The JSON value of the invoice that a request made, whose job was queued.
  abbrev pub ShowsNew : CreateInvoice → S → Json → Type 0
  ShowsNew payload s j =
      (inv : Invoice) × (j ≡ invoice_json inv)
      × (inv ≡ made_at p z contents env payload s)
      × ((create_invoice p z payload s).0 ≡ ok inv)
      × Scheduled inv (create_invoice p z payload s).1

  abbrev CreateAnswer : CreateInvoice → S → Response → Type 0
  CreateAnswer payload s r =
      (j : Json) → r.body ≡ invoice j → (r.status ≡ 200) × ShowsNew payload s j

  abbrev OnAnswer : CreateInvoice → S → Outcome Failure Response → S → Type 0
  OnAnswer payload s (ok r) s' = CreateAnswer payload s r
  OnAnswer payload s (throw e) s' = Unit {0}

  schedule_post :
      (payload : CreateInvoice) (s : S) (inv : Invoice)
      → (create_invoice p z payload s).0 ≡ ok inv
      → inv ≡ made_at p z contents env payload s
      → let s1 = (create_invoice p z payload s).1 in
        let run =
          (queue.add inv.id inv.id (p.diff inv.expired_at (p.clock s1).0 +ℤ pos 1000)
              >> pure (respond 200 (invoice (invoice_json inv))))
            (p.clock s1).1 in
        OnAnswer payload s run.0 run.1
  schedule_post payload s inv created e =
      bind_post (OnAnswer payload s)
        (queue.add inv.id inv.id
          (p.diff inv.expired_at (p.clock (create_invoice p z payload s).1).0 +ℤ pos 1000))
        (λ _. pure (respond 200 (invoice (invoice_json inv)))) _
        (λ u added j q. (
          refl,
          (inv, cc q, e, created, (_, added, due (p.clock (create_invoice p z payload s).1).0)),
        ))
        (λ _ _. tt)
    where
      due : (t : ℕ) → pos t +ℤ (p.diff inv.expired_at t +ℤ pos 1000) ≡ pos (inv.created_at + 901000)
      due t = rw (env.diff_lem inv.expired_at t) (
          rw (ap (λ (i : Invoice). i.expired_at) e)
            (rw (ap (λ (i : Invoice). i.created_at) e) (due_at t (p.clock (p.generate s).1).0)))

  on_error_body :
      (payload : CreateInvoice) (s : S) (e : Failure) → CreateAnswer payload s (on_error e)
  on_error_body payload s (http_exception status text) j e = cc e
  on_error_body payload s (error text) j e = cc e
  on_error_body payload s (http_error status text b) j e = cc e

  recover_post :
      (payload : CreateInvoice) (s : S) (r : Outcome Failure Response) (s' : S)
      → OnAnswer payload s r s'
      → CreateAnswer payload s (recover (r, s')).0
  recover_post payload s (ok r) s' h = h
  recover_post payload s (throw e) s' h = on_error_body payload s e

  handler_post :
      (payload : CreateInvoice) (s : S)
      → OnAnswer payload s
          (create_handler p z queue rejected payload s).0
          (create_handler p z queue rejected payload s).1
  handler_post payload s =
      bind_post (OnAnswer payload s) (create_invoice p z payload) _ s
        (λ inv created.
          schedule_post payload s inv created
            (subst (λ r. CreatePost p z contents env payload s r (create_invoice p z payload s).1)
              created (create_invoice_post p z contents env payload s)).0)
        (λ _ _. tt)

  -- An answer of POST /invoices that shows an invoice has status 200; the invoice is the pending
  -- one that createInvoice made of the request, and a webhook job for its id has been queued that
  -- becomes due one second after the invoice expires.
  pub create_route-answer :
      (body : Json) (payload : CreateInvoice) (s : S) (j : Json)
      → create_invoice_schema z body ≡ some payload
      → (create_route p z queue rejected body s).0.body ≡ invoice j
      → ((create_route p z queue rejected body s).0.status ≡ 200) × ShowsNew payload s j
  unfolding create_route
  create_route-answer body payload s j e =
      rw e (recover_post payload s _ _ (handler_post payload s) j)
