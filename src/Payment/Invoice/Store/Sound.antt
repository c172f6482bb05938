-- ===== src/Payment/Invoice/Store/Sound.antt =====
-- The consistency of what is stored, under sequences of steps.
use mathlib.Core.Path.{subst}
use tugas_akhir.Common.{ℕ, ◌+◌, ◌*◌, ◌<◌, String, ◌≡◌, ◌⊎◌, refl, sym, Option, none, some, inl, inr}
use tugas_akhir.Payment.Json.{Text}
use tugas_akhir.Payment.Entity.{
  Status, pending, expired, paid, Invoice, CreateInvoice, Mode, success, Zod, ZodLaws,
  invoice_schema, invoice_json, schema-json,
}
use tugas_akhir.Payment.Platform.{Platform, Faithful}
use tugas_akhir.Payment.Invoice.{key, stringify}
use tugas_akhir.Payment.Invoice.Reads.{Stored}
use tugas_akhir.Payment.Invoice.Create.{made}
use tugas_akhir.Payment.Invoice.Pay.{settled}
use tugas_akhir.Payment.Invoice.Store.{
  Reach, here, next, Change, same, gone, born, moved, Moves, Step-Change,
}

-- What the payment fields say, by the status: a paid invoice was paid in full.
abbrev pub PaidAs : Status → Invoice → Type 0
PaidAs paid inv = ((t : ℕ) × (inv.paid_at ≡ some t)) × (inv.paid_amount ≡ some inv.amount)
PaidAs _ inv = (inv.paid_at ≡ none) × (inv.paid_amount ≡ none)

pub record IsConsistent (id : String) (inv : Invoice) : Type 0 where
  pub positive : 0 < inv.amount
  pub own_id : inv.id ≡ id
  pub quarter_hour : inv.expired_at ≡ inv.created_at + 15 * 60000
  pub payment : PaidAs inv.status inv

made-IsConsistent :
    (payload : CreateInvoice) (id : String) (t : ℕ)
    → 0 < payload.amount
    → IsConsistent id (made payload id t)
made-IsConsistent payload id t h = record {
  positive = h;
  own_id = refl;
  quarter_hour = refl;
  payment = (refl, refl);
}

expired-IsConsistent :
    (id : String) (old : Invoice)
    → old.status ≡ pending
    → IsConsistent id old
    → IsConsistent id (record old { status = expired })
expired-IsConsistent id old pe c = record {
  positive = c.positive;
  own_id = c.own_id;
  quarter_hour = c.quarter_hour;
  payment = subst (λ st. PaidAs st old) pe c.payment;
}

settled-IsConsistent :
    (id : String) (mode : Mode) (t : ℕ) (old : Invoice)
    → old.status ≡ pending
    → IsConsistent id old
    → IsConsistent id (settled mode t old)
settled-IsConsistent id success t old pe c = record {
  positive = c.positive;
  own_id = c.own_id;
  quarter_hour = c.quarter_hour;
  payment = ((t, refl), refl);
}
settled-IsConsistent id Mode.failed t old pe c = record {
  positive = c.positive;
  own_id = c.own_id;
  quarter_hour = c.quarter_hour;
  payment = subst (λ st. PaidAs st old) pe c.payment;
}

pub Moves-IsConsistent :
    (id : String) (old new : Invoice)
    → old.status ≡ pending
    → Moves old new
    → IsConsistent id old
    → IsConsistent id new
Moves-IsConsistent id old new pe (inl e) c =
    subst (IsConsistent id) (sym e) (expired-IsConsistent id old pe c)
Moves-IsConsistent id old new pe (inr (mode, t, e)) c =
    subst (IsConsistent id) (sym e) (settled-IsConsistent id mode t old pe c)

module _ {S : Type 0} (p : Platform S) (z : Zod) (contents : S → String → Option Text)
    (env : Faithful p contents) (laws : ZodLaws z) (allowed : String → Type 0) where
  -- Under every id there is nothing, or the text of a consistent invoice.
  abbrev pub IsSound : S → Type 0
  IsSound s =
      (id : String)
      → (contents s (key id) ≡ none)
        ⊎ ((inv : Invoice) × (contents s (key id) ≡ some (stringify inv)) × IsConsistent id inv)

  -- The invoice that is read from a sound store is the consistent one that was written.
  pub Stored-IsConsistent :
      (s : S) (id : String) (old : Invoice)
      → IsSound s
      → Stored z contents s id old
      → IsConsistent id old
  Stored-IsConsistent s id old sound (j, at, parsed) = elim (sound id) [
    | inl nothing ↦ cc (nothing, at)
    | inr (inv, text, c) ↦
        let back : invoice_schema z (invoice_json inv) ≡ some inv =
          schema-json z laws inv c.positive in
        subst (IsConsistent id) (cc (text, at, back, parsed)) c
  ]

  pub Change-IsSound :
      (s s' : S) → IsSound s → ((id : String) → Change p z contents allowed id s s') → IsSound s'
  Change-IsSound s s' sound change id = by_change (change id)
    where
      by_change :
          Change p z contents allowed id s s'
          → (contents s' (key id) ≡ none)
            ⊎ ((inv : Invoice) × (contents s' (key id) ≡ some (stringify inv))
                × IsConsistent id inv)
      by_change (same e) =
          subst
            (λ v. (v ≡ none) ⊎ ((inv : Invoice) × (v ≡ some (stringify inv)) × IsConsistent id inv))
            (sym e) (sound id)
      by_change (gone e) = inl e
      by_change (born payload b h a e) =
          inr (made payload id b, e, made-IsConsistent payload id b h)
      by_change (moved old new st pe m e) =
          inr (new, e, Moves-IsConsistent id old new pe m (Stored-IsConsistent s id old sound st))

  -- Whatever methods are called, in whatever order and with whatever errors, on requests with a
  -- positive amount: every invoice in Redis stands under its own id, has a positive amount and
  -- expires 15 minutes after it was made; it carries a payment, of its whole amount, exactly if
  -- its status is paid.
  pub Reach-IsSound : {s s' : S} → IsSound s → Reach p z contents allowed s s' → IsSound s'
  Reach-IsSound sound here = sound
  Reach-IsSound sound (next r st) =
      Change-IsSound _ _ (Reach-IsSound sound r) (λ id. Step-Change p z contents env allowed id st)
