-- ===== src/Payment/Invoice/Store.antt =====
-- The steps of the program and of the world around it on the invoices in Redis: calls of
-- InvoiceService, throwing or not, and entries that leave Redis. Each id changes in one of four ways.
pub mod Sound
pub mod Final
use mathlib.Core.Path.{subst}
use text.Mathlib.Text.{◌==◌ as str_eq}
use text.Mathlib.TextEquality.{eq_iff}
use tugas_akhir.Common.{
  ℕ, ◌+◌, ◌*◌, ◌<◌, String, ◌≡◌, ◌≢◌, ◌⊎◌, refl, sym, ap, ◌∙◌, Bool, true, false, Option, none,
  some, Outcome, ok, throw, inl, inr, Bool-cases, arith,
}
use tugas_akhir.Payment.Json.{Json, Text, json, Failure}
use tugas_akhir.Payment.Entity.{
  Status, pending, expired, paid, failed, Invoice, CreateInvoice, Mode, success, Zod, ZodLaws,
  invoice_schema, invoice_json, schema-json,
}
use tugas_akhir.Payment.Platform.{Platform, Faithful}
use tugas_akhir.Payment.Invoice.{
  key, stringify, get_invoice, create_invoice, expire_invoice, pay_invoice,
}
use tugas_akhir.Payment.Invoice.Reads.{Stored, get_invoice_world}
use tugas_akhir.Payment.Invoice.Create.{made, CreatePost, create_invoice_post}
use tugas_akhir.Payment.Invoice.Expire.{ExpireWrites, ExpirePost, expire_invoice_post}
use tugas_akhir.Payment.Invoice.Pay.{settled, PayWrites, PayPost, pay_invoice_post}
use tugas_akhir.Payment.Invoice.Frame.{
  key_injective, Keeps-get_invoice, Keeps-create_invoice, Keeps-expire_invoice, Keeps-pay_invoice,
}

-- The two ways in which a pending invoice is settled.
abbrev pub Moves : Invoice → Invoice → Type 0
Moves old new =
    (new ≡ record old { status = expired }) ⊎ ((mode : Mode) × (t : ℕ) × (new ≡ settled mode t old))

module _ {S : Type 0} (p : Platform S) (z : Zod) (contents : S → String → Option Text) where
  -- A change of the world by a step of the program. The ids that createInvoice generates are
  -- among `allowed`. Around the calls entries may leave Redis, when their time is over.
  pub data Step (allowed : String → Type 0) : S → S → Type 0 where
    reads : (id : String) (s : S) → Step allowed s (get_invoice p z id s).1
    creates :
        (payload : CreateInvoice) (s : S)
        → 0 < payload.amount
        → allowed (p.generate s).0
        → Step allowed s (create_invoice p z payload s).1
    expires : (id : String) (s : S) → Step allowed s (expire_invoice p z id s).1
    pays : (id : String) (mode : Mode) (s : S) → Step allowed s (pay_invoice p z id mode s).1
    outside :
        {s s' : S}
        → ((id : String)
            → (contents s' (key id) ≡ contents s (key id)) ⊎ (contents s' (key id) ≡ none))
        → Step allowed s s'

  pub data Reach (allowed : String → Type 0) (s : S) : S → Type 0 where
    here : Reach allowed s s
    next : {t u : S} → Reach allowed s t → Step allowed t u → Reach allowed s u

  -- What one step does to the text under one id.
  pub data Change (allowed : String → Type 0) (id : String) (s s' : S) : Type 0 where
    same : contents s' (key id) ≡ contents s (key id) → Change allowed id s s'
    gone : contents s' (key id) ≡ none → Change allowed id s s'
    born :
        (payload : CreateInvoice) (t : ℕ)
        → 0 < payload.amount
        → allowed id
        → contents s' (key id) ≡ some (stringify (made payload id t))
        → Change allowed id s s'
    moved :
        (old new : Invoice)
        → Stored z contents s id old
        → old.status ≡ pending
        → Moves old new
        → contents s' (key id) ≡ some (stringify new)
        → Change allowed id s s'

  module _ (env : Faithful p contents) (allowed : String → Type 0) where
    by_pay :
        (id : String) (mode : Mode) (s : S) (r : Outcome Failure (Option Invoice)) (s' : S)
        → PayPost p z contents env id mode s r s'
        → Change allowed id s s'
    by_pay id mode s (ok none) s' h = same h.1
    by_pay id mode s (ok (some new)) s' (old, st, pe, fresh, e, w) =
        moved old new st pe (inr (mode, _, e)) w
    by_pay id mode s (throw e) s' (inl h) = same h
    by_pay id mode s (throw _) s' (inr (new, (old, st, pe, fresh, e, w))) =
        moved old new st pe (inr (mode, _, e)) w

    by_expire :
        (id : String) (s : S) (r : Outcome Failure (Option Invoice)) (s' : S)
        → ExpirePost p z contents env id s r s'
        → Change allowed id s s'
    by_expire id s (ok none) s' h = same h.1
    by_expire id s (ok (some new)) s' (old, st, pe, e, w) = moved old new st pe (inl e) w
    by_expire id s (throw e) s' (inl h) = same h
    by_expire id s (throw _) s' (inr (new, (old, st, pe, e, w))) = moved old new st pe (inl e) w

    by_create :
        (payload : CreateInvoice) (s : S) (r : Outcome Failure Invoice) (s' : S)
        → 0 < payload.amount
        → allowed (p.generate s).0
        → CreatePost p z contents env payload s r s'
        → Change allowed (p.generate s).0 s s'
    by_create payload s (ok inv) s' h a (e, w) =
        born payload _ h a
          (subst (λ i. contents s' (key (p.generate s).0) ≡ some (stringify i)) e w)
    by_create payload s (throw e) s' h a (inl w) = same w
    by_create payload s (throw e) s' h a (inr w) = born payload _ h a w

    -- An effect on the id `j` of a call that is about the id `id`.
    at_or_apart :
        (id j : String) (s s' : S)
        → Change allowed id s s'
        → (key j ≢ key id → contents s' (key j) ≡ contents s (key j))
        → Change allowed j s s'
    at_or_apart id j s s' there apart = elim (Bool-cases (str_eq id j)) [
      | inl e ↦ subst (λ i. Change allowed i s s') ((eq_iff id j).0 e) there
      | inr ne ↦ same (apart (λ e. differ (key_injective j id e) ne))
    ]
      where
        differ : j ≡ id → str_eq id j ≡ false → ⊥
        differ e ne' = cc ((eq_iff id j).1 (sym e), ne')

    pub Step-Change : {s s' : S} (j : String) → Step allowed s s' → Change allowed j s s'
    Step-Change j (reads id s) = same (Keeps-get_invoice p z contents env (key j) id s)
    Step-Change j (creates payload s h a) =
        at_or_apart (p.generate s).0 j s _
          (by_create payload s _ _ h a (create_invoice_post p z contents env payload s))
          (Keeps-create_invoice p z contents env (key j) payload s)
    Step-Change j (expires id s) =
        at_or_apart id j s _ (by_expire id s _ _ (expire_invoice_post p z contents env id s))
          (λ ne. Keeps-expire_invoice p z contents env (key j) id ne s)
    Step-Change j (pays id mode s) =
        at_or_apart id j s _ (by_pay id mode s _ _ (pay_invoice_post p z contents env id mode s))
          (λ ne. Keeps-pay_invoice p z contents env (key j) id ne mode s)
    Step-Change j (outside h) = elim (h j) [ inl e ↦ same e | inr e ↦ gone e ]
