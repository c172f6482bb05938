-- ===== src/Payment/Invoice/Ledger.antt =====
-- What the invoice service of implementation/payment/src/service/invoice.ts promises: a ledger of
-- invoices by id, and each method as a function on it. The readings of the clock and the generated
-- id that a call used come with it.
pub mod Represents
pub mod Tracks
pub mod Calls
pub mod Refines
pub mod Keeps
use text.Mathlib.Text.{◌==◌ as str_eq}
use tugas_akhir.Common.{
  ℕ, ◌≤◌, String, Option, none, some, List, [], ◌∷◌, Outcome, ok, throw, if◌then◌else◌, ltb, ◌<◌,
}
use tugas_akhir.Payment.Json.{Failure, http_exception}
use tugas_akhir.Payment.Entity.{Status, pending, expired, Invoice, CreateInvoice, Mode}
use tugas_akhir.Payment.Invoice.Create.{made}
use tugas_akhir.Payment.Invoice.Pay.{settled}

abbrev pub Ledger : Type 0
Ledger = String → Option Invoice

abbrev pub update : Ledger → String → Invoice → Ledger
update l id inv j = if str_eq id j then some inv else l j

pub data Command : Type 0 where
  shows : String → Command
  makes : CreateInvoice → Command
  pays : String → Mode → Command
  lapses : String → Command

-- What a call took from outside: an id, and the two times at which it may read the clock.
pub record Moment : Type 0 where
  pub fresh : String
  pub first : ℕ
  pub second : ℕ

abbrev pub Answer : Type 0
Answer = Outcome Failure (Option Invoice)

abbrev pub not_payable : Answer
not_payable = throw (http_exception 400 "Invoice must not be expired and must not be pending")

abbrev pub not_pending : Answer
not_pending = throw (http_exception 400 "Invoice must not be not be pending")

abbrev pub store : Ledger → String → Invoice → Answer × Ledger
store l id inv = (ok (some inv), update l id inv)

abbrev pub pay_entry : Moment → Ledger → String → Mode → Status → Invoice → Answer × Ledger
pay_entry m l id mode pending inv =
    if ltb inv.expired_at m.first then (not_payable, l) else store l id (settled mode m.second inv)
pay_entry m l id mode _ inv = (not_payable, l)

abbrev pub pay : Moment → Ledger → String → Mode → Option Invoice → Answer × Ledger
pay m l id mode none = (ok none, l)
pay m l id mode (some inv) = pay_entry m l id mode inv.status inv

abbrev pub lapse_entry : Ledger → String → Status → Invoice → Answer × Ledger
lapse_entry l id pending inv = store l id (record inv { status = expired })
lapse_entry l id _ inv = (not_pending, l)

abbrev pub lapse : Ledger → String → Option Invoice → Answer × Ledger
lapse l id none = (ok none, l)
lapse l id (some inv) = lapse_entry l id inv.status inv

-- One command on the ledger.
unfoldable pub serve : Command → Moment → Ledger → Answer × Ledger
serve (shows id) m l = (ok (l id), l)
serve (makes payload) m l = store l m.fresh (made payload m.fresh m.first)
serve (pays id mode) m l = pay m l id mode (l id)
serve (lapses id) m l = lapse l id (l id)

-- The commands of a list, one after the other.
unfoldable pub replay : List (Command × Moment) → Ledger → List Answer × Ledger
unfolding serve
replay [] l = ([], l)
replay ((c, m) ∷ cs) l =
    let here = serve c m l in let rest = replay cs here.1 in (here.0 ∷ rest.0, rest.1)

-- The times of the calls are in order: each reads the clock after the one before it.
abbrev pub InOrder : ℕ → List (Command × Moment) → Type 0
InOrder t [] = Unit {0}
InOrder t ((c, m) ∷ cs) = (t ≤ m.first) × (m.first ≤ m.second) × InOrder m.second cs

-- The payload of a create request is one that its schema accepts.
abbrev pub IsRequest : Command → Type 0
IsRequest (makes payload) = 0 < payload.amount
IsRequest _ = Unit {0}
