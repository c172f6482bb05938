-- ===== src/Payment/App/Routes.antt =====
-- What the routes of the payment service answer.
use mathlib.Core.Path.{subst}
use tugas_akhir.Common.{
  String, ◌≡◌, ◌⊎◌, inl, inr, refl, Bool, true, false, Option, none, some, Outcome, ok, throw,
  bind_post, pure, ◌>>=◌, ◌>>◌,
}
use tugas_akhir.Payment.Json.{Json, Text, Failure, http_exception, error, http_error}
use tugas_akhir.Payment.Entity.{
  Invoice, Mode, Zod, invoice_json, id_params_schema, pay_invoice_schema,
}
use tugas_akhir.Payment.Platform.{Platform, Faithful}
use tugas_akhir.Payment.Invoice.{pay_invoice}
use tugas_akhir.Payment.Invoice.Pay.{PayWrites, PayPost, pay_invoice_post}
use tugas_akhir.Payment.App.{
  WebhookQueue, Response, respond, invoice, on_error, recover, delayed_job, promote_if, notify_paid,
  paid_response, pay_handler, pay_route,
}

module _ {S : Type 0} (p : Platform S) (z : Zod) (contents : S → String → Option Text)
    (env : Faithful p contents) (queue : WebhookQueue S) (rejected : Response) where
  -- No job of the invoice was found, or one that was not waiting, or the waiting job was promoted.
  abbrev pub Promoted : Invoice → S → Type 0
  Promoted inv s =
      ((queue.get_job inv.id s).0 ≡ ok none)
      ⊎ ((job : String) × ((queue.get_job inv.id s).0 ≡ ok (some job))
          × (((queue.is_delayed job (queue.get_job inv.id s).1).0 ≡ ok false)
              ⊎ (((queue.is_delayed job (queue.get_job inv.id s).1).0 ≡ ok true)
                  × ((queue.promote job (queue.is_delayed job (queue.get_job inv.id s).1).1).0
                      ≡ ok tt))))

  -- The JSON value of an invoice whose payment was written to Redis and announced.
  abbrev pub ShowsPayment : String → Mode → S → Json → Type 0
  ShowsPayment id mode s j =
      (new : Invoice) × (j ≡ invoice_json new)
      × PayWrites p z contents env id mode s new (pay_invoice p z id mode s).1
      × Promoted new (pay_invoice p z id mode s).1

  abbrev PayAnswer : String → Mode → S → Response → Type 0
  PayAnswer id mode s r =
      (j : Json) → r.body ≡ invoice j → (r.status ≡ 200) × ShowsPayment id mode s j

  abbrev OnAnswer : (Response → Type 0) → Outcome Failure Response → S → Type 0
  OnAnswer P (ok r) s = P r
  OnAnswer P (throw e) s = Unit {0}

  module _ (id : String) (mode : Mode) (s : S) (new : Invoice)
      (writes : PayWrites p z contents env id mode s new (pay_invoice p z id mode s).1) where
    abbrev after_pay : S
    after_pay = (pay_invoice p z id mode s).1

    answer : Promoted new after_pay → PayAnswer id mode s (respond 200 (invoice (invoice_json new)))
    answer promoted j e = (refl, (new, body_json e, writes, promoted))
      where
        body_json : invoice (invoice_json new) ≡ invoice j → j ≡ invoice_json new
        body_json h = cc h

    promote_post :
        (job : String)
        → (queue.get_job new.id after_pay).0 ≡ ok (some job)
        → (waiting : Bool)
        → (queue.is_delayed job (queue.get_job new.id after_pay).1).0 ≡ ok waiting
        → (s2 : S) → s2 ≡ (queue.is_delayed job (queue.get_job new.id after_pay).1).1
        → let run =
            (promote_if p z queue rejected waiting (some job)
                >> pure (respond 200 (invoice (invoice_json new))))
              s2 in
          OnAnswer (PayAnswer id mode s) run.0 run.1
    promote_post job got true delayed s2 at =
        bind_post (OnAnswer (PayAnswer id mode s)) (queue.promote job)
          (λ _. pure (respond 200 (invoice (invoice_json new)))) s2
          (λ u done. answer (
            inr (
              job,
              got,
              inr (delayed, subst (λ (w : S). (queue.promote job w).0 ≡ ok tt) at done),
            )))
          (λ _ _. tt)
    promote_post job got false delayed s2 at = answer (inr (job, got, inl delayed))

    job_post :
        (job : Option String)
        → (queue.get_job new.id after_pay).0 ≡ ok job
        → let run =
            (delayed_job p z queue rejected job >>= λ waiting.
            promote_if p z queue rejected waiting job
            >> pure (respond 200 (invoice (invoice_json new))))
              (queue.get_job new.id after_pay).1 in
          OnAnswer (PayAnswer id mode s) run.0 run.1
    job_post none got = answer (inl got)
    job_post (some job) got =
        bind_post (OnAnswer (PayAnswer id mode s)) (queue.is_delayed job) _ _
          (λ waiting e. promote_post job got waiting e _ refl) (λ _ _. tt)

    notify_post :
        OnAnswer
          (PayAnswer id mode s)
          (notify_paid p z queue rejected new after_pay).0
          (notify_paid p z queue rejected new after_pay).1
    notify_post =
        bind_post (OnAnswer (PayAnswer id mode s)) (queue.get_job new.id) _ _ job_post (λ _ _. tt)

  paid_post :
      (id : String) (mode : Mode) (s : S) (found : Option Invoice)
      → PayPost p z contents env id mode s (ok found) (pay_invoice p z id mode s).1
      → let run = paid_response p z queue rejected found (pay_invoice p z id mode s).1 in
        OnAnswer (PayAnswer id mode s) run.0 run.1
  paid_post id mode s none h = λ j e. cc e
  paid_post id mode s (some new) writes = notify_post id mode s new writes

  handler_post :
      (id : String) (mode : Mode) (s : S)
      → OnAnswer
          (PayAnswer id mode s)
          (pay_handler p z queue rejected id mode s).0
          (pay_handler p z queue rejected id mode s).1
  handler_post id mode s =
      bind_post (OnAnswer (PayAnswer id mode s)) (pay_invoice p z id mode)
        (paid_response p z queue rejected) s
        (λ found e. paid_post id mode s found (
          subst (λ r. PayPost p z contents env id mode s r (pay_invoice p z id mode s).1) e
            (pay_invoice_post p z contents env id mode s)))
        (λ _ _. tt)

  recover_post :
      (P : Response → Type 0)
      → ((e : Failure) → P (on_error e))
      → (r : Outcome Failure Response) (s : S) → OnAnswer P r s
      → P (recover (r, s)).0
  recover_post P thrown_case (ok r) s h = h
  recover_post P thrown_case (throw e) s h = thrown_case e

  on_error_body :
      (id : String) (mode : Mode) (s : S) (e : Failure) → PayAnswer id mode s (on_error e)
  on_error_body id mode s (http_exception status text) j e = cc e
  on_error_body id mode s (error text) j e = cc e
  on_error_body id mode s (http_error status text b) j e = cc e

  -- An answer of POST /invoices/{id}/payment that shows an invoice has status 200, and it shows a
  -- payment that was written to Redis, of an invoice that was pending and had not expired; if a
  -- delayed webhook job of that invoice was found, it has been promoted.
  pub pay_route-answer :
      (params body : Json) (id : String) (mode : Mode) (s : S) (j : Json)
      → id_params_schema z params ≡ some id
      → pay_invoice_schema z body ≡ some mode
      → (pay_route p z queue rejected params body s).0.body ≡ invoice j
      → ((pay_route p z queue rejected params body s).0.status ≡ 200) × ShowsPayment id mode s j
  unfolding pay_route
  pay_route-answer params body id mode s j ei em =
      rw (ei, em)
        (recover_post (PayAnswer id mode s) (on_error_body id mode s) _ _ (handler_post id mode s)
          j)
