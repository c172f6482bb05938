-- ===== src/Payment/Invoice/Ledger/Calls.antt =====
-- Each method of InvoiceService against the ledger, on a Redis whose calls do not throw.
use tugas_akhir.Common.{
  ℕ, ◌≤◌, ◌<◌, String, ◌≡◌, refl, sym, Option, none, some, ok, pure, ◌>>=◌, ◌>>◌, false, Bool-cases,
  inl, inr, arith,
}
use tugas_akhir.Payment.Json.{Text}
use tugas_akhir.Payment.Entity.{
  Status, pending, expired, paid, failed, Invoice, CreateInvoice, Mode, success, Zod, ZodLaws,
}
use tugas_akhir.Payment.Platform.{Platform, Faithful}
use tugas_akhir.Payment.Invoice.{
  key, ttl, stringify, settle, get_invoice, create_invoice, pay_read, pay_found, pay_invoice,
  expire_read, expire_found, expire_invoice,
}
use tugas_akhir.Payment.Invoice.Reads.{get_invoice_world}
use tugas_akhir.Payment.Invoice.Create.{made}
use tugas_akhir.Payment.Invoice.Pay.{settled}
use tugas_akhir.Payment.Invoice.Ledger.{
  Ledger, shows, makes, pays, lapses, Moment, Answer, not_payable, not_pending, pay_entry, lapse,
  serve,
}
use tugas_akhir.Payment.Invoice.Ledger.Represents.{
  call, Reliable, Represents, Holds-same, get_invoice-Holds,
}
use tugas_akhir.Payment.Invoice.Ledger.Tracks.{
  Tracks, stamped, instant, read, Holds-read, Holds-clock, Follows-still, Follows-stored,
}

module _ {S : Type 0} (p : Platform S) (z : Zod) (contents : S → String → Option Text)
    (time : S → ℕ) (env : Faithful p contents) (laws : ZodLaws z) (up : Reliable p time) where
  abbrev Holds : S → Ledger → Type 0
  Holds = Represents contents

  abbrev Follows : S → (Moment → Answer × Ledger) → Answer × S → Type 0
  Follows = Tracks contents time

  module _ (s : S) (l : Ledger) (h : Holds s l) (id : String) where
    get_later : time s ≤ time (read p id s)
    get_later = up.get_later (key id) s

    read_eq : get_invoice p z id s ≡ (ok (l id), read p id s)
    read_eq =
        rw
          (
            sym (get_invoice-Holds p z contents time env laws up s l id h),
            sym (get_invoice_world p z contents env id s),
          )
          refl

    pub Follows-shows : Follows s (λ m. serve (shows id) m l) (get_invoice p z id s)
    unfolding serve
    Follows-shows = rw read_eq (
        Follows-still p z contents time env laws up s (read p id s) l (ok (l id))
          (time (read p id s)) _ (Holds-read p z contents time env laws up s l id h) get_later
          (omega arith) refl)

    lapse_still :
        (found : Option Invoice) (a : Answer)
        → l id ≡ found
        → lapse l id found ≡ (a, l)
        → Follows s (λ m. serve (lapses id) m l) (a, read p id s)
    unfolding serve
    lapse_still found a e q =
        Follows-still p z contents time env laws up s (read p id s) l a (time (read p id s)) _
          (Holds-read p z contents time env laws up s l id h) get_later (omega arith) (rw e q)

    lapse_entry-Follows :
        (inv : Invoice) (st : Status)
        → l id ≡ some inv
        → inv.status ≡ st
        → Follows s (λ m. serve (lapses id) m l) (expire_read p z st id inv (read p id s))
    unfolding serve
    lapse_entry-Follows inv pending e st =
        Follows-stored p z contents time env laws up s (read p id s) l id
          (record inv { status = expired }) (instant (time (read p id s))) _
          (Holds-read p z contents time env laws up s l id h) (h.positive id inv e) get_later
          (omega arith) (omega arith) (rw (e, st) refl)
    lapse_entry-Follows inv expired e st = lapse_still (some inv) not_pending e (rw st refl)
    lapse_entry-Follows inv paid e st = lapse_still (some inv) not_pending e (rw st refl)
    lapse_entry-Follows inv failed e st = lapse_still (some inv) not_pending e (rw st refl)

    lapse-Follows :
        (found : Option Invoice)
        → l id ≡ found
        → Follows s (λ m. serve (lapses id) m l) (expire_found p z id found (read p id s))
    lapse-Follows none e = lapse_still none (ok none) e refl
    lapse-Follows (some inv) e = lapse_entry-Follows inv inv.status e refl

    pub Follows-lapses : Follows s (λ m. serve (lapses id) m l) (expire_invoice p z id s)
    unfolding expire_invoice
    Follows-lapses = rw read_eq (lapse-Follows (l id) refl)

    clock_first : time s ≤ (p.clock (read p id s)).0
    clock_first = omega (arith, get_later, up.clock_reads (read p id s))

    refused-Follows :
        (inv : Invoice) (mode : Mode) (s1 : S) (t : ℕ)
        → l id ≡ some inv
        → ((m : Moment) → m.first ≡ t → pay_entry m l id mode inv.status inv ≡ (not_payable, l))
        → Holds s1 l
        → time s ≤ t
        → t ≤ time s1
        → Follows s (λ m. serve (pays id mode) m l) (not_payable, s1)
    unfolding serve
    refused-Follows inv mode s1 t e q h1 before after =
        Follows-still p z contents time env laws up s s1 l not_payable t _ h1 before after
          (rw e (q (instant t) refl))

    settle-Follows :
        (inv : Invoice) (mode : Mode)
        → l id ≡ some inv
        → inv.status ≡ pending
        → p.is_before inv.expired_at (p.clock (read p id s)).0 ≡ false
        → Follows s
            (λ m. serve (pays id mode) m l)
            ((settle p z mode inv >>= λ new.
                p.setex (key id) ttl (stringify new) >> pure (some new))
              (p.clock (read p id s)).1)
    unfolding serve
    settle-Follows inv success e st early =
        let s1 : S = (p.clock (read p id s)).1 in
        Follows-stored p z contents time env laws up s (p.clock s1).1 l id
          (settled success (p.clock s1).0 inv)
          (record { fresh = ""; first = (p.clock (read p id s)).0; second = (p.clock s1).0 }) _
          (Holds-clock p z contents time env laws up s1 l (
            Holds-clock p z contents time env laws up (read p id s) l
              (Holds-read p z contents time env laws up s l id h)))
          (h.positive id inv e) clock_first
          (omega (arith, up.clock_later (read p id s), up.clock_reads s1)) (up.clock_later s1)
          (rw (e, st, sym (env.is_before_lem inv.expired_at (p.clock (read p id s)).0), early) refl)
    settle-Follows inv Mode.failed e st early =
        let s1 : S = (p.clock (read p id s)).1 in
        Follows-stored p z contents time env laws up s s1 l id (settled Mode.failed 0 inv)
          (instant (p.clock (read p id s)).0) _
          (Holds-clock p z contents time env laws up (read p id s) l
            (Holds-read p z contents time env laws up s l id h))
          (h.positive id inv e) clock_first (omega arith) (up.clock_later (read p id s))
          (rw (e, st, sym (env.is_before_lem inv.expired_at (p.clock (read p id s)).0), early) refl)

    pay_entry-Follows :
        (inv : Invoice) (mode : Mode) (st : Status)
        → l id ≡ some inv
        → inv.status ≡ st
        → Follows s (λ m. serve (pays id mode) m l) (pay_read p z st id mode inv (read p id s))
    pay_entry-Follows inv mode pending e st =
        elim (Bool-cases (p.is_before inv.expired_at (p.clock (read p id s)).0)) [
          | inl late ↦ rw late (
              refused-Follows inv mode (p.clock (read p id s)).1 (p.clock (read p id s)).0 e
                (λ m q.
                  rw (st, q, sym (env.is_before_lem inv.expired_at (p.clock (read p id s)).0), late)
                    refl)
                (Holds-clock p z contents time env laws up (read p id s) l
                  (Holds-read p z contents time env laws up s l id h))
                clock_first (up.clock_later (read p id s)))
          | inr early ↦ rw early (settle-Follows inv mode e st early)
        ]
    pay_entry-Follows inv mode expired e st =
        refused-Follows inv mode (read p id s) (time (read p id s)) e (λ m q. rw st refl)
          (Holds-read p z contents time env laws up s l id h) get_later (omega arith)
    pay_entry-Follows inv mode paid e st =
        refused-Follows inv mode (read p id s) (time (read p id s)) e (λ m q. rw st refl)
          (Holds-read p z contents time env laws up s l id h) get_later (omega arith)
    pay_entry-Follows inv mode failed e st =
        refused-Follows inv mode (read p id s) (time (read p id s)) e (λ m q. rw st refl)
          (Holds-read p z contents time env laws up s l id h) get_later (omega arith)

    pay-Follows :
        (mode : Mode) (found : Option Invoice)
        → l id ≡ found
        → Follows s (λ m. serve (pays id mode) m l) (pay_found p z id mode found (read p id s))
    unfolding serve
    pay-Follows mode none e =
        Follows-still p z contents time env laws up s (read p id s) l (ok none) (time (read p id s))
          _ (Holds-read p z contents time env laws up s l id h) get_later (omega arith) (rw e refl)
    pay-Follows mode (some inv) e = pay_entry-Follows inv mode inv.status e refl

    pub Follows-pays :
        (mode : Mode) → Follows s (λ m. serve (pays id mode) m l) (pay_invoice p z id mode s)
    unfolding pay_invoice
    Follows-pays mode = rw read_eq (pay-Follows mode (l id) refl)

  pub Follows-makes :
      (s : S) (l : Ledger) (payload : CreateInvoice)
      → Holds s l
      → 0 < payload.amount
      → Follows s (λ m. serve (makes payload) (stamped p s m) l) (call p z (makes payload) s)
  unfolding call serve create_invoice
  Follows-makes s l payload h pos =
      let s1 : S = (p.generate s).1 in
      let new : Invoice = made payload (p.generate s).0 (p.clock s1).0 in
      let run =
        Follows-stored p z contents time env laws up s (p.clock s1).1 l (p.generate s).0 new
          (record { fresh = (p.generate s).0; first = (p.clock s1).0; second = (p.clock s1).0 })
          (λ m. serve (makes payload) (stamped p s m) l)
          (Holds-clock p z contents time env laws up s1 l
            (Holds-same p z contents time env laws up s s1 l (env.generate_keeps s) h))
          pos (omega (arith, up.generate_later s, up.clock_reads s1)) (omega arith)
          (up.clock_later s1) refl in
      let set = up.setex_answers (key (p.generate s).0) ttl (stringify new) (p.clock s1).1 in
      rw (env.add_minutes_lem (p.clock s1).0 15, set) (rw set at run)
