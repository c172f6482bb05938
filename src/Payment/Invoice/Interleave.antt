-- ===== src/Payment/Invoice/Interleave.antt =====
-- Calls of InvoiceService that interleave: the server and the notifier are two programs on one
-- Redis, and between the read and the write of a call other calls may run. A call that has decided
-- what to write waits for its SETEX.
pub mod Sound
pub mod Lost
use mathlib.Core.Path.{subst}
use tugas_akhir.Common.{
  ℕ, String, ◌≡◌, refl, sym, ap, ◌∙◌, Bool, true, false, Option, none, some, List, [], ◌∷◌, ◌++◌,
  Exec, continue, Outcome, ok, throw, raise, pure, ◌>>=◌, ◌>>◌, if◌then◌else◌, Bool-cases, inl, inr,
  bind_post,
}
use tugas_akhir.Payment.Json.{Text, Failure, http_exception}
use tugas_akhir.Payment.Entity.{Status, pending, expired, Invoice, Mode, success, Zod}
use tugas_akhir.Payment.Platform.{Platform}
use tugas_akhir.Payment.Invoice.{
  key, ttl, stringify, now, settle, not_payable, get_invoice, pay_read, pay_found, pay_invoice,
  expire_read, expire_found, expire_invoice,
}
use tugas_akhir.Payment.Invoice.Store.{Step}

module _ {S : Type 0} (p : Platform S) (z : Zod) where
  -- payInvoice up to its SETEX: the invoice to write.
  abbrev pay_decide_read : Status → Mode → Invoice → Exec S Failure (Option Invoice)
  pay_decide_read pending mode invoice = do
    t ← now p z
    if p.is_before invoice.expired_at t
        then not_payable p z
        else do invoice' ← settle p z mode invoice; pure (some invoice')
  pay_decide_read _ mode invoice = not_payable p z

  abbrev pay_decide_found : Mode → Option Invoice → Exec S Failure (Option Invoice)
  pay_decide_found mode none = pure none
  pay_decide_found mode (some invoice) = pay_decide_read invoice.status mode invoice

  unfoldable pub pay_decide : String → Mode → Exec S Failure (Option Invoice)
  pay_decide id mode = do found ← get_invoice p z id; pay_decide_found mode found

  -- expireInvoice up to its SETEX.
  abbrev expire_decide_read : Status → Invoice → Exec S Failure (Option Invoice)
  expire_decide_read pending invoice = pure (some (record invoice { status = expired }))
  expire_decide_read _ invoice = raise (http_exception 400 "Invoice must not be not be pending")

  abbrev expire_decide_found : Option Invoice → Exec S Failure (Option Invoice)
  expire_decide_found none = pure none
  expire_decide_found (some invoice) = expire_decide_read invoice.status invoice

  unfoldable pub expire_decide : String → Exec S Failure (Option Invoice)
  expire_decide id = do found ← get_invoice p z id; expire_decide_found found

  -- The SETEX of both, and what they return.
  abbrev pub write_back : String → Option Invoice → Exec S Failure (Option Invoice)
  write_back id none = pure none
  write_back id (some invoice) = do p.setex (key id) ttl (stringify invoice); pure (some invoice)

  pay_read-decide :
      (st : Status) (id : String) (mode : Mode) (invoice : Invoice) (s : S)
      → pay_read p z st id mode invoice s ≡ (pay_decide_read st mode invoice >>= write_back id) s
  pay_read-decide pending id mode invoice s =
      elim (Bool-cases (p.is_before invoice.expired_at (p.clock s).0)) [
        | inl late ↦ rw late refl
        | inr early ↦ rw early (by_mode mode)
      ]
    where
      by_mode :
          (m : Mode)
          → (settle p z m invoice >>= λ new.
                p.setex (key id) ttl (stringify new) >> pure (some new))
              (p.clock s).1
            ≡ ((settle p z m invoice >>= λ new. pure (some new)) >>= write_back id) (p.clock s).1
      by_mode success = refl
      by_mode Mode.failed = refl
  pay_read-decide _ id mode invoice s = refl

  expire_read-decide :
      (st : Status) (id : String) (invoice : Invoice) (s : S)
      → expire_read p z st id invoice s ≡ (expire_decide_read st invoice >>= write_back id) s
  expire_read-decide pending id invoice s = refl
  expire_read-decide _ id invoice s = refl

  pay_found-decide :
      (id : String) (mode : Mode) (r : Outcome Failure (Option Invoice)) (s : S)
      → continue (pay_found p z id mode) r s
        ≡ continue
            (write_back id)
            (continue (pay_decide_found mode) r s).0
            (continue (pay_decide_found mode) r s).1
  pay_found-decide id mode (ok none) s = refl
  pay_found-decide id mode (ok (some inv)) s = pay_read-decide inv.status id mode inv s
  pay_found-decide id mode (throw e) s = refl

  expire_found-decide :
      (id : String) (r : Outcome Failure (Option Invoice)) (s : S)
      → continue (expire_found p z id) r s
        ≡ continue
            (write_back id)
            (continue expire_decide_found r s).0
            (continue expire_decide_found r s).1
  expire_found-decide id (ok none) s = refl
  expire_found-decide id (ok (some inv)) s = expire_read-decide inv.status id inv s
  expire_found-decide id (throw e) s = refl

  -- A call of payInvoice or of expireInvoice that nothing interrupts is its decision, and then the
  -- write of what was decided.
  pay_invoice-decide :
      ((id : String) (mode : Mode) (s : S)
        → pay_invoice p z id mode s ≡ (pay_decide id mode >>= write_back id) s)
      × ((id : String) (s : S) → expire_invoice p z id s ≡ (expire_decide id >>= write_back id) s)
  unfolding pay_invoice expire_invoice pay_decide expire_decide
  pay_invoice-decide = (
    (λ id mode s. pay_found-decide id mode (get_invoice p z id s).0 (get_invoice p z id s).1),
    (λ id s. expire_found-decide id (get_invoice p z id s).0 (get_invoice p z id s).1),
  )

-- What has been decided and waits for its SETEX, with the ids.
abbrev pub Waiting : Type 0
Waiting = List (String × Invoice)

module _ {S : Type 0} (p : Platform S) (z : Zod) (contents : S → String → Option Text) where
  -- One turn of one of the programs, or a change of the world around them: a whole call or a loss of
  -- entries, the first part of a call, or the write of a call that has waited. An expiry may be
  -- decided at any time here, while the notifier does so only in a job that is due after the expiry
  -- of the invoice, so the runs of the programs are among the turns.
  pub data Turn : S × Waiting → S × Waiting → Type 0 where
    whole : {s s' : S} {l : Waiting} → Step p z contents (λ id. Unit {0}) s s' → Turn (s, l) (s', l)
    pay_decides :
        (id : String) (mode : Mode) (s : S) (new : Invoice) (l : Waiting)
        → (pay_decide p z id mode s).0 ≡ ok (some new)
        → Turn (s, l) ((pay_decide p z id mode s).1, (id, new) ∷ l)
    expire_decides :
        (id : String) (s : S) (new : Invoice) (l : Waiting)
        → (expire_decide p z id s).0 ≡ ok (some new)
        → Turn (s, l) ((expire_decide p z id s).1, (id, new) ∷ l)
    writes :
        (id : String) (new : Invoice) (s : S) (l m : Waiting)
        → Turn (s, l ++ (id, new) ∷ m) ((p.setex (key id) ttl (stringify new) s).1, l ++ m)

  pub data Turns (a : S × Waiting) : S × Waiting → Type 0 where
    start : Turns a a
    turn : {b c : S × Waiting} → Turns a b → Turn b c → Turns a c
