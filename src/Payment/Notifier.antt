-- ===== src/Payment/Notifier.antt =====
-- implementation/payment/src/cmd/notifier/index.ts: the worker that handles one webhook job. The
-- HTTP client (got) and the HMAC are not part of the program: `Sender` has their calls.
pub mod Delivery
pub mod Settles
pub mod Tells
use tugas_akhir.Common.{
  ℕ, String, Bool, true, false, Option, none, some, Exec, pure, raise, ◌>>=◌, if◌then◌else◌, leb,
  ◌==◌,
}
use tugas_akhir.Payment.Json.{
  Json, Text, json, scalar, null, other, Scalar, field, Failure, error, http_error, ErrorBody,
  message, quoted, unreadable,
}
use tugas_akhir.Payment.Entity.{Status, pending, Invoice, Zod}
use tugas_akhir.Payment.Platform.{Platform}
use tugas_akhir.Payment.Invoice.{stringify, get_invoice, expire_invoice}

pub record WebhookResponse : Type 0 where
  pub ok : Bool
  pub status_code : ℕ
  pub status_message : String
  pub body : Text

pub record Sender (S : Type 0) : Type 0 where
  -- `computeHMACSHA256(env.WEBHOOK_SECRET, payload)`
  pub hmac : Text → String
  -- `got.post(env.WEBHOOK_URL, …)` with the body and the header `x-webhook-verify`
  pub post : Text → String → Exec S Failure WebhookResponse

-- `Object.hasOwn(body, "message")`
abbrev message_of : Text → Option Scalar → ErrorBody
message_of whole none = quoted whole
message_of whole (some m) = message m

-- The error body, with the catch of JSON.parse and of Object.hasOwn, which throws on null.
error_body : Text → ErrorBody
error_body (other s) = unreadable
error_body (json (scalar null)) = unreadable
error_body (json j) = message_of (json j) (field "message" j)

-- The ladder on the response.
unfoldable pub judge : {S : Type 0} → WebhookResponse → Exec S Failure (Unit {0})
unfolding error_body
judge r =
    if r.ok
    then pure tt
    else if r.status_code == 404
    then pure tt
    else if leb 400 r.status_code
    then raise (http_error r.status_code r.status_message (error_body r.body))
    else pure tt

module _ {S : Type 0} (p : Platform S) (z : Zod) (sender : Sender S) where
  abbrev expired_result : Option Invoice → Exec S Failure Invoice
  expired_result none = raise (error "Expire invoice result must not be null")
  expired_result (some inv) = pure inv

  -- A pending invoice is expired first.
  abbrev settle_first : Status → String → Invoice → Exec S Failure Invoice
  settle_first pending id inv = do result ← expire_invoice p z id; expired_result result
  settle_first _ id inv = pure inv

  abbrev found_invoice : String → Option Invoice → Exec S Failure Invoice
  found_invoice id none = raise (error "Invoice Not Found")
  found_invoice id (some inv) = settle_first inv.status id inv

  -- The invoice whose state is sent.
  unfoldable pub load_invoice : String → Exec S Failure Invoice
  load_invoice id = do found ← get_invoice p z id; found_invoice id found

  abbrev deliver : Invoice → Exec S Failure (Unit {0})
  deliver inv = do
    response ← sender.post (stringify inv) (sender.hmac (stringify inv))
    judge response

  -- The handler of a job. An error makes the queue try again.
  unfoldable pub process_job : String → Exec S Failure (Unit {0})
  process_job id = do inv ← load_invoice id; deliver inv
