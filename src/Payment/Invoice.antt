-- ===== src/Payment/Invoice.antt =====
-- implementation/payment/src/service/invoice.ts: the class InvoiceService, over an outside world
-- `S`. Each method is a run that may throw; the invoices are stored in Redis as JSON text.
pub mod Reads
pub mod Pay
pub mod Expire
pub mod Create
pub mod Frame
pub mod Store
pub mod Interleave
pub mod Ledger
use Prim.Native.String
use tugas_akhir.Common.{
  ℕ, ◌*◌, String, Option, none, some, Exec, pure, raise, ok, ◌>>=◌, ◌>>◌, if◌then◌else◌,
}
use tugas_akhir.Payment.Json.{Json, Text, json, other, Failure, http_exception, error}
use tugas_akhir.Payment.Entity.{
  Status, pending, expired, paid, failed, Invoice, CreateInvoice, Mode, success, Zod,
  invoice_schema, invoice_json,
}
use tugas_akhir.Payment.Platform.{Platform}

-- `invoices:${id}`
abbrev pub key : String → String
key id = String.◌++◌ "invoices:" id

-- The third of SETEX's arguments is seconds.
abbrev pub ttl : ℕ
ttl = 5 * 60 * 60 * 1000

-- JSON.stringify(invoice)
abbrev pub stringify : Invoice → Text
stringify inv = json (invoice_json inv)

-- JSON.parse, which throws a SyntaxError
abbrev pub json_parse : {S : Type 0} → Text → Exec S Failure Json
json_parse (json j) = pure j
json_parse (other s) = raise (error "SyntaxError")

module _ {S : Type 0} (p : Platform S) (z : Zod) where
  abbrev pub now : Exec S Failure ℕ
  now s = (ok (p.clock s).0, (p.clock s).1)

  abbrev pub fresh_id : Exec S Failure String
  fresh_id s = (ok (p.generate s).0, (p.generate s).1)

  abbrev checked : Option Invoice → Exec S Failure (Option Invoice)
  checked none = raise (http_exception 500 "Cannot parse invoice data from redis")
  checked (some inv) = pure (some inv)

  abbrev decode : Option Text → Exec S Failure (Option Invoice)
  decode none = pure none
  decode (some text) = do j ← json_parse text; checked (invoice_schema z j)

  unfoldable pub get_invoice : String → Exec S Failure (Option Invoice)
  get_invoice id = do text ← p.get (key id); decode text

  unfoldable pub create_invoice : CreateInvoice → Exec S Failure Invoice
  create_invoice payload = do
    id ← fresh_id
    created ← now
    let inv : Invoice = record {
      id = id;
      amount = payload.amount;
      description = payload.description;
      external_id = payload.external_id;
      created_at = created;
      expired_at = p.add_minutes created 15;
      paid_at = none;
      paid_amount = none;
      status = pending;
    }
    p.setex (key id) ttl (stringify inv)
    pure inv

  -- The rest of expireInvoice, by the status of the invoice that was read.
  abbrev expire_read : Status → String → Invoice → Exec S Failure (Option Invoice)
  expire_read pending id invoice = do
    let invoice' : Invoice = record invoice { status = expired }
    p.setex (key id) ttl (stringify invoice')
    pure (some invoice')
  expire_read _ id invoice = raise (http_exception 400 "Invoice must not be not be pending")

  abbrev expire_found : String → Option Invoice → Exec S Failure (Option Invoice)
  expire_found id none = pure none
  expire_found id (some invoice) = expire_read invoice.status id invoice

  unfoldable pub expire_invoice : String → Exec S Failure (Option Invoice)
  expire_invoice id = do found ← get_invoice id; expire_found id found

  abbrev not_payable : Exec S Failure (Option Invoice)
  not_payable = raise (http_exception 400 "Invoice must not be expired and must not be pending")

  -- The assignments to the invoice, by the mode of the request.
  abbrev settle : Mode → Invoice → Exec S Failure Invoice
  settle success invoice = do
    t ← now
    pure (record invoice { paid_at = some t; paid_amount = some invoice.amount; status = paid })
  settle Mode.failed invoice = pure (record invoice { status = failed })

  abbrev pay_read : Status → String → Mode → Invoice → Exec S Failure (Option Invoice)
  pay_read pending id mode invoice = do
    t ← now
    if p.is_before invoice.expired_at t then not_payable else do
      invoice' ← settle mode invoice
      p.setex (key id) ttl (stringify invoice')
      pure (some invoice')
  pay_read _ id mode invoice = not_payable

  abbrev pay_found : String → Mode → Option Invoice → Exec S Failure (Option Invoice)
  pay_found id mode none = pure none
  pay_found id mode (some invoice) = pay_read invoice.status id mode invoice

  unfoldable pub pay_invoice : String → Mode → Exec S Failure (Option Invoice)
  pay_invoice id mode = do found ← get_invoice id; pay_found id mode found
