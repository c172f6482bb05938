-- ===== src/Payment/App.antt =====
-- implementation/payment/src/cmd/server/app.ts: the routes of the payment service. The server
-- framework (hono) and the job queue (bullmq) are not part of the program: a request arrives with
-- its path parameters and its body as JSON values, which it has where its content type is JSON (the
-- framework does not validate a body of another type, and passes an empty object), `rejected` is the response that the framework
-- gives to a request that does not meet its schema, and the queue is the record `WebhookQueue`.
pub mod Routes
pub mod Shown
pub mod Schedule
pub mod Server
pub mod Refines
pub mod Requests
pub mod Serves
pub mod Documented
use tugas_akhir.Common.{
  ℕ, ◌+◌, String, Bool, true, false, Option, none, some, Exec, Outcome, pure, ok, throw, ◌>>=◌,
  ◌>>◌,
}
use tugas_akhir.Common.Int.{ℤ, pos, ◌+ℤ◌}
use tugas_akhir.Payment.Json.{Json, scalar, str, Failure, http_exception, error, http_error, obj}
use tugas_akhir.Payment.Entity.{
  Invoice, CreateInvoice, Mode, Zod, invoice_json, create_invoice_schema, pay_invoice_schema,
  id_params_schema,
}
use tugas_akhir.Payment.Platform.{Platform}
use tugas_akhir.Payment.Invoice.{now, get_invoice, create_invoice, pay_invoice}

-- The queue of webhook jobs. A job is named by its id.
pub record WebhookQueue (S : Type 0) : Type 0 where
  -- `webhookQueue.add("webhook", { id }, { jobId, delay })`
  pub add : String → String → ℤ → Exec S Failure (Unit {0})
  -- `webhookQueue.getJob(id)`
  pub get_job : String → Exec S Failure (Option String)
  -- `job.isDelayed()`
  pub is_delayed : String → Exec S Failure Bool
  -- `job.promote()`
  pub promote : String → Exec S Failure (Unit {0})

pub data Body : Type 0 where
  invoice : Json → Body
  message : String → Body
  thrown : Failure → Body
  plain : String → Body
  health_data : String → String → Body
  -- a message with the member `ok`
  refusal : String → Bool → Body

pub record Response : Type 0 where
  pub status : ℕ
  pub body : Body

abbrev pub respond : ℕ → Body → Response
respond status body = record { status = status; body = body }

-- The handler given to app.onError.
abbrev pub on_error : Failure → Response
on_error (http_exception status text) = respond status (message text)
on_error e = respond 500 (thrown e)

-- A request is answered by its handler, or by app.onError where the handler throws.
abbrev pub recover : {S : Type 0} → Outcome Failure Response × S → Response × S
recover (ok r, s) = (r, s)
recover (throw e, s) = (on_error e, s)

module _ {S : Type 0} (p : Platform S) (z : Zod) (queue : WebhookQueue S)
    (rejected : Response) where
  abbrev found_response : Option Invoice → Response
  found_response none = respond 404 (message "Invoice not found")
  found_response (some inv) = respond 200 (invoice (invoice_json inv))

  -- GET /invoices/{id}
  abbrev get_handler : String → Exec S Failure Response
  get_handler id = do found ← get_invoice p z id; pure (found_response found)

  abbrev get_validated : Option String → S → Response × S
  get_validated none s = (rejected, s)
  get_validated (some id) s = recover (get_handler id s)

  unfoldable pub get_route : Json → S → Response × S
  get_route params = get_validated (id_params_schema z params)

  -- The rest of the handler of POST /invoices once the invoice has been made.
  abbrev announce : Invoice → Exec S Failure Response
  announce inv = do
    t ← now p z
    queue.add inv.id inv.id (p.diff inv.expired_at t +ℤ pos 1000)
    pure (respond 200 (invoice (invoice_json inv)))

  -- POST /invoices
  abbrev create_handler : CreateInvoice → Exec S Failure Response
  create_handler payload = do inv ← create_invoice p z payload; announce inv

  abbrev create_validated : Option CreateInvoice → S → Response × S
  create_validated none s = (rejected, s)
  create_validated (some payload) s = recover (create_handler payload s)

  unfoldable pub create_route : Json → S → Response × S
  create_route body = create_validated (create_invoice_schema z body)

  -- `job && (await job.isDelayed())`
  abbrev delayed_job : Option String → Exec S Failure Bool
  delayed_job none = pure false
  delayed_job (some job) = queue.is_delayed job

  abbrev promote_if : Bool → Option String → Exec S Failure (Unit {0})
  promote_if true (some job) = queue.promote job
  promote_if _ _ = pure tt

  -- The rest of the handler once the payment has been made.
  abbrev notify_paid : Invoice → Exec S Failure Response
  notify_paid inv = do
    job ← queue.get_job inv.id
    waiting ← delayed_job job
    promote_if waiting job
    pure (respond 200 (invoice (invoice_json inv)))

  abbrev paid_response : Option Invoice → Exec S Failure Response
  paid_response none = pure (respond 404 (message "Invoice not found"))
  paid_response (some inv) = notify_paid inv

  -- POST /invoices/{id}/payment
  abbrev pay_handler : String → Mode → Exec S Failure Response
  pay_handler id mode = do found ← pay_invoice p z id mode; paid_response found

  abbrev pay_validated : Option String → Option Mode → S → Response × S
  pay_validated (some id) (some mode) s = recover (pay_handler id mode s)
  pay_validated _ _ s = (rejected, s)

  unfoldable pub pay_route : Json → Json → S → Response × S
  pay_route params body = pay_validated (id_params_schema z params) (pay_invoice_schema z body)
