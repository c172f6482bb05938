-- ===== src/Payment/Invoice/Interleave/Lost.antt =====
-- The payment that another one overwrites: two calls of payInvoice by the server, for two requests
-- that it handles at the same time, both decided on one pending invoice before either writes.
use mathlib.Core.Path.{subst}
use tugas_akhir.Common.{ap, ℕ, ◌≤◌, String, ◌≡◌, refl, sym, false, Option, some, [], ◌∷◌, ok, arith}
use tugas_akhir.Payment.Json.{Text}
use tugas_akhir.Payment.Entity.{pending, failed, Invoice, Mode, success, Zod, ZodLaws}
use tugas_akhir.Payment.Platform.{Platform, Faithful}
use tugas_akhir.Payment.Invoice.{key, ttl, stringify, get_invoice}
use tugas_akhir.Payment.Invoice.Reads.{get_invoice_world}
use tugas_akhir.Payment.Invoice.Pay.{settled}
use tugas_akhir.Payment.Invoice.Ledger.{Ledger, update}
use tugas_akhir.Payment.Invoice.Ledger.Represents.{
  Reliable, Represents, get_invoice-Holds, Holds-setex,
}
use tugas_akhir.Payment.Invoice.Ledger.Tracks.{read, Holds-read, Holds-clock}
use tugas_akhir.Payment.Invoice.Interleave.{
  pay_decide, Waiting, Turn, Turns, start, turn, pay_decides, writes,
}

module _ {S : Type 0} (p : Platform S) (z : Zod) (contents : S → String → Option Text)
    (time : S → ℕ) (env : Faithful p contents) (laws : ZodLaws z) (up : Reliable p time)
    (id : String) (inv : Invoice) (s : S) (l : Ledger) (h : Represents contents s l)
    (found : l id ≡ some inv) (unpaid : inv.status ≡ pending)
    (in_time : (p.clock (read p id s)).0 ≤ inv.expired_at) where
  abbrev pub payment : Invoice
  payment = settled success (p.clock (p.clock (read p id s)).1).0 inv

  -- The world once the first call has decided.
  abbrev pub decided : S
  decided = (p.clock (p.clock (read p id s)).1).1

  found_in :
      (s' : S) → Represents contents s' l → get_invoice p z id s' ≡ (ok (some inv), read p id s')
  found_in s' k =
      rw
        (
          sym found,
          sym (get_invoice-Holds p z contents time env laws up s' l id k),
          sym (get_invoice_world p z contents env id s'),
        )
        refl

  fresh :
      (s' : S)
      → (p.clock (read p id s')).0 ≤ inv.expired_at
      → p.is_before inv.expired_at (p.clock (read p id s')).0 ≡ false
  fresh s' soon = rw (env.is_before_lem inv.expired_at (p.clock (read p id s')).0) (ground arith)

  decides : pay_decide p z id success s ≡ (ok (some payment), decided)
  unfolding pay_decide
  decides = rw (found_in s h, unpaid, fresh s in_time) refl

  decided-Represents : Represents contents decided l
  decided-Represents = Holds-clock p z contents time env laws up _ l (
      Holds-clock p z contents time env laws up _ l
        (Holds-read p z contents time env laws up s l id h))

  module _ (still : (p.clock (read p id decided)).0 ≤ inv.expired_at) where
    abbrev pub refusal : Invoice
    refusal = record inv { status = failed }

    -- The world once both calls have decided, and after the two writes.
    abbrev both_decided : S
    both_decided = (p.clock (read p id decided)).1

    abbrev pub after_payment : S
    after_payment = (p.setex (key id) ttl (stringify payment) both_decided).1

    abbrev pub after_refusal : S
    after_refusal = (p.setex (key id) ttl (stringify refusal) after_payment).1

    decides_again : pay_decide p z id Mode.failed decided ≡ (ok (some refusal), both_decided)
    unfolding pay_decide
    decides_again = rw (found_in decided decided-Represents, unpaid, fresh decided still) refl

    abbrev Reaches : S × Waiting → Type 0
    Reaches = Turns p z contents (s, [])

    both_decide : Reaches (both_decided, (id, refusal) ∷ (id, payment) ∷ [])
    both_decide =
        turn
          (turn start (
            subst (λ w. Turn p z contents (s, []) (w, (id, payment) ∷ [])) (ap (λ r. r.1) decides)
              (pay_decides id success s payment [] (ap (λ r. r.0) decides))))
          (subst
            (λ w.
              Turn p z contents (decided, (id, payment) ∷ [])
                (w, (id, refusal) ∷ (id, payment) ∷ []))
            (ap (λ r. r.1) decides_again)
            (pay_decides id Mode.failed decided refusal ((id, payment) ∷ [])
              (ap (λ r. r.0) decides_again)))

    payment_written : Reaches (after_payment, (id, refusal) ∷ [])
    payment_written = turn both_decide (writes id payment both_decided ((id, refusal) ∷ []) [])

    both_decided-Represents : Represents contents both_decided l
    both_decided-Represents =
        Holds-clock p z contents time env laws up _ l
          (Holds-read p z contents time env laws up decided l id decided-Represents)

    -- Where Redis answers every call and holds a pending invoice, and the server reads its clock for
    -- two requests to pay it, one with the mode success and one with failed, before the invoice
    -- expires: the two calls can run so that the first payment is written while the second call,
    -- which found the invoice pending too, waits for its write, and then that is written over it.
    -- The invoice that was paid is failed at the end, though each call succeeded.
    pub lost_update :
        Reaches (after_payment, (id, refusal) ∷ [])
        × Represents contents after_payment (update l id payment)
        × Reaches (after_refusal, [])
        × Represents contents after_refusal (update (update l id payment) id refusal)
    lost_update =
        let pos = h.positive id inv found in
        let paid =
          Holds-setex p z contents time env laws up both_decided l id payment pos
            both_decided-Represents in
        (
          payment_written,
          paid,
          turn payment_written (writes id refusal after_payment [] []),
          Holds-setex p z contents time env laws up after_payment (update l id payment) id refusal
              pos paid,
        )
