-- ===== src/Payment/Invoice/Ledger/Keeps.antt =====
-- What commands on the ledger leave alone: an invoice that is not pending.
use text.Mathlib.Text.{◌==◌ as str_eq}
use text.Mathlib.TextEquality.{eq_iff}
use tugas_akhir.Common.{
  String, ◌≡◌, ◌≢◌, refl, ◌⊎◌, inl, inr, Option, none, some, List, [], ◌∷◌, Any, Bool-cases, ltb,
}
use tugas_akhir.Payment.Entity.{Status, pending, expired, paid, failed, Invoice, Mode}
use tugas_akhir.Payment.Invoice.Pay.{settled}
use tugas_akhir.Payment.Invoice.Ledger.{
  Ledger, update, Command, shows, makes, pays, lapses, Moment, pay, pay_entry, lapse, lapse_entry,
  serve, replay,
}

-- The command makes an invoice, and the id that was generated for it is `id`.
abbrev pub Remakes : String → Command × Moment → Type 0
Remakes id (makes payload, m) = m.fresh ≡ id
Remakes id _ = ⊥

module _ (id : String) (inv : Invoice) (settled_before : inv.status ≢ pending) where
  update_other :
      (l : Ledger) (j : String) (new : Invoice)
      → l id ≡ some inv
      → (j ≡ id) ⊎ (update l j new id ≡ some inv)
  update_other l j new h = elim (Bool-cases (str_eq j id)) [
    | inl e ↦ inl ((eq_iff j id).0 e)
    | inr ne ↦ inr (rw ne h)
  ]

  -- A change of a pending invoice is not one of this invoice.
  update_pending :
      (l : Ledger) (j : String) (old new : Invoice)
      → l id ≡ some inv
      → l j ≡ some old
      → old.status ≡ pending
      → update l j new id ≡ some inv
  update_pending l j old new h there unpaid = elim (Bool-cases (str_eq j id)) [
    | inl e ↦ absurd (settled_before (same_status old j ((eq_iff j id).0 e) there unpaid))
    | inr ne ↦ rw ne h
  ]
    where
      same_status :
          (old : Invoice) (j : String)
          → j ≡ id
          → l j ≡ some old
          → old.status ≡ pending
          → inv.status ≡ pending
      same_status old j e there unpaid = cc (e, there, unpaid, h)

  pay_keeps :
      (m : Moment) (l : Ledger) (j : String) (mode : Mode) (st : Status) (old : Invoice)
      → l id ≡ some inv
      → l j ≡ some old
      → old.status ≡ st
      → (pay_entry m l j mode st old).1 id ≡ some inv
  pay_keeps m l j mode pending old h there e = elim (Bool-cases (ltb old.expired_at m.first)) [
    | inl late ↦ rw late h
    | inr early ↦ rw early (update_pending l j old (settled mode m.second old) h there e)
  ]
  pay_keeps m l j mode expired old h there e = h
  pay_keeps m l j mode paid old h there e = h
  pay_keeps m l j mode failed old h there e = h

  lapse_keeps :
      (l : Ledger) (j : String) (st : Status) (old : Invoice)
      → l id ≡ some inv
      → l j ≡ some old
      → old.status ≡ st
      → (lapse_entry l j st old).1 id ≡ some inv
  lapse_keeps l j pending old h there e =
      update_pending l j old (record old { status = expired }) h there e
  lapse_keeps l j expired old h there e = h
  lapse_keeps l j paid old h there e = h
  lapse_keeps l j failed old h there e = h

  pay_found_keeps :
      (m : Moment) (l : Ledger) (j : String) (mode : Mode) (found : Option Invoice)
      → l id ≡ some inv
      → l j ≡ found
      → (pay m l j mode found).1 id ≡ some inv
  pay_found_keeps m l j mode none h there = h
  pay_found_keeps m l j mode (some old) h there = pay_keeps m l j mode old.status old h there refl

  lapse_found_keeps :
      (l : Ledger) (j : String) (found : Option Invoice)
      → l id ≡ some inv
      → l j ≡ found
      → (lapse l j found).1 id ≡ some inv
  lapse_found_keeps l j none h there = h
  lapse_found_keeps l j (some old) h there = lapse_keeps l j old.status old h there refl

  serve_keeps :
      (c : Command) (m : Moment) (l : Ledger)
      → l id ≡ some inv
      → Remakes id (c, m) ⊎ ((serve c m l).1 id ≡ some inv)
  unfolding serve
  serve_keeps (shows j) m l h = inr h
  serve_keeps (makes payload) m l h = update_other l m.fresh _ h
  serve_keeps (pays j mode) m l h = inr (pay_found_keeps m l j mode (l j) h refl)
  serve_keeps (lapses j) m l h = inr (lapse_found_keeps l j (l j) h refl)

  -- Any commands leave the invoice as it is, if none of them makes one under its id.
  pub replay_keeps :
      (ms : List (Command × Moment)) (l : Ledger)
      → l id ≡ some inv
      → Any (Remakes id) ms ⊎ ((replay ms l).1 id ≡ some inv)
  unfolding replay
  replay_keeps [] l h = inr h
  replay_keeps ((c, m) ∷ ms) l h = elim (serve_keeps c m l h) [
    | inl remade ↦ inl (inl remade)
    | inr kept ↦ elim (replay_keeps ms (serve c m l).1 kept) [
      | inl later ↦ inl (inr later)
      | inr last ↦ inr last
    ]
  ]
