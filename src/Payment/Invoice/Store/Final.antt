-- ===== src/Payment/Invoice/Store/Final.antt =====
-- What the steps do to an invoice that has been settled.
use tugas_akhir.Common.{◌<◌, String, ◌≡◌, ◌≢◌, ◌⊎◌, refl, ap, ◌∙◌, Option, none, some, inl, inr}
use tugas_akhir.Payment.Json.{Text}
use tugas_akhir.Payment.Entity.{
  pending, Invoice, Zod, ZodLaws, invoice_schema, invoice_json, schema-json,
}
use tugas_akhir.Payment.Platform.{Platform, Faithful}
use tugas_akhir.Payment.Invoice.{key, stringify}
use tugas_akhir.Payment.Invoice.Reads.{Stored}
use tugas_akhir.Payment.Invoice.Store.{
  Reach, here, next, Change, same, gone, born, moved, Step-Change,
}

module _ {S : Type 0} (p : Platform S) (z : Zod) (contents : S → String → Option Text)
    (env : Faithful p contents) (laws : ZodLaws z) (id : String) (inv : Invoice) where
  -- Redis holds the invoice as it was settled, or nothing any more.
  abbrev pub HoldsAtMost : S → Type 0
  HoldsAtMost s = (contents s (key id) ≡ some (stringify inv)) ⊎ (contents s (key id) ≡ none)

  read_again :
      (s : S) (old : Invoice)
      → 0 < inv.amount
      → contents s (key id) ≡ some (stringify inv)
      → Stored z contents s id old
      → inv ≡ old
  read_again s old h at (j, there, parsed) =
      let back : invoice_schema z (invoice_json inv) ≡ some inv = schema-json z laws inv h in
      cc (at, there, back, parsed)

  Change-HoldsAtMost :
      (s s' : S)
      → 0 < inv.amount
      → inv.status ≢ pending
      → HoldsAtMost s
      → Change p z contents (λ i. i ≢ id) id s s'
      → HoldsAtMost s'
  Change-HoldsAtMost s s' h np (inl at) (same e) = inl (e ∙ at)
  Change-HoldsAtMost s s' h np (inr no_more) (same e) = inr (e ∙ no_more)
  Change-HoldsAtMost s s' h np _ (gone e) = inr e
  Change-HoldsAtMost s s' h np _ (born payload t q a e) = absurd (a refl)
  Change-HoldsAtMost s s' h np (inl at) (moved old new st pe m e) =
      absurd (np (ap (λ (i : Invoice). i.status) (read_again s old h at st) ∙ pe))
  Change-HoldsAtMost s s' h np (inr no_more) (moved old new (j, there, _) pe m e) =
      cc (no_more, there)

  -- An invoice that is stored with a status other than pending stays stored as it is, or leaves
  -- Redis for good, whatever payments, expiries, reads and creations under other ids follow.
  pub Reach-HoldsAtMost :
      {s s' : S}
      → 0 < inv.amount
      → inv.status ≢ pending
      → HoldsAtMost s
      → Reach p z contents (λ i. i ≢ id) s s'
      → HoldsAtMost s'
  Reach-HoldsAtMost h np start here = start
  Reach-HoldsAtMost h np start (next r st) =
      Change-HoldsAtMost _ _ h np (Reach-HoldsAtMost h np start r)
        (Step-Change p z contents env (λ i. i ≢ id) id st)
