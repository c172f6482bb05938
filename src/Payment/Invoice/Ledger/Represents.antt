-- ===== src/Payment/Invoice/Ledger/Represents.antt =====
-- A Redis whose calls do not throw, and the ledger that its contents stand for.
use mathlib.Core.Path.{subst}
use mathlib.Core.Option
use text.Mathlib.Text.{◌==◌ as str_eq}
use text.Mathlib.TextEquality.{eq_iff}
use tugas_akhir.Common.{
  ◌>>=◌, [], pure, ◌∷◌, Exec, List, ℕ, ◌≤◌, ◌<◌, String, ◌≡◌, refl, sym, ap, ◌∙◌, Option, some, ok,
  Bool-cases, Option-cases, inl, inr, arith,
}
use tugas_akhir.Payment.Json.{Text, Failure}
use tugas_akhir.Payment.Entity.{Invoice, Zod, ZodLaws, schema-json}
use tugas_akhir.Payment.Platform.{Platform, Faithful}
use tugas_akhir.Payment.Invoice.{
  create_invoice, pay_invoice, expire_invoice, key, ttl, stringify, get_invoice,
}
use tugas_akhir.Payment.Invoice.Frame.{key_injective}
use tugas_akhir.Payment.Invoice.Ledger.{pays, lapses, makes, shows, Answer, Command, Ledger, update}

-- Redis answers every call, and `time s` is a clock that does not go back.
pub record Reliable {S : Type 0} (p : Platform S) (time : S → ℕ) : Type 0 where
  pub get_answers : (k : String) (s : S) → (v : Option Text) × ((p.get k s).0 ≡ ok v)
  pub setex_answers : (k : String) (n : ℕ) (t : Text) (s : S) → (p.setex k n t s).0 ≡ ok tt
  pub get_later : (k : String) (s : S) → time s ≤ time (p.get k s).1
  pub setex_later : (k : String) (n : ℕ) (t : Text) (s : S) → time s ≤ time (p.setex k n t s).1
  pub generate_later : (s : S) → time s ≤ time (p.generate s).1
  pub clock_reads : (s : S) → time s ≤ (p.clock s).0
  pub clock_later : (s : S) → (p.clock s).0 ≤ time (p.clock s).1

module _ {S : Type 0} (p : Platform S) (z : Zod) where
  -- A command as a call of the service.
  unfoldable pub call : Command → Exec S Failure (Option Invoice)
  call (shows id) = get_invoice p z id
  call (makes payload) = do inv ← create_invoice p z payload; pure (some inv)
  call (pays id mode) = pay_invoice p z id mode
  call (lapses id) = expire_invoice p z id

  unfoldable pub calls : List Command → S → List Answer × S
  calls [] s = ([], s)
  calls (c ∷ cs) s = let here = call c s in let rest = calls cs here.1 in (here.0 ∷ rest.0, rest.1)

module _ {S : Type 0} (contents : S → String → Option Text) where
  -- Redis holds, under the key of each id, the text of the ledger's invoice or nothing.
  pub record Represents (s : S) (l : Ledger) : Type 0 where
    pub texts : (id : String) → contents s (key id) ≡ Option.map stringify (l id)
    pub positive : (id : String) (inv : Invoice) → l id ≡ some inv → 0 < inv.amount

module _ {S : Type 0} (p : Platform S) (z : Zod) (contents : S → String → Option Text)
    (time : S → ℕ) (env : Faithful p contents) (laws : ZodLaws z) (up : Reliable p time) where
  abbrev Holds : S → Ledger → Type 0
  Holds = Represents contents

  pub Holds-same : (s s' : S) (l : Ledger) → contents s' ≡ contents s → Holds s l → Holds s' l
  Holds-same s s' l e h = record {
    texts = λ id. ap (λ (c : String → Option Text). c (key id)) e ∙ h.texts id;
    positive = h.positive;
  }

  get_ok : (k : String) (s : S) → (p.get k s).0 ≡ ok (contents s k)
  get_ok k s =
      let (v, e) = up.get_answers k s in e ∙ ap (λ (v : Option Text). ok v) (env.get_reads k s v e)

  pub get_invoice-Holds :
      (s : S) (l : Ledger) (id : String) → Holds s l → (get_invoice p z id s).0 ≡ ok (l id)
  unfolding get_invoice
  get_invoice-Holds s l id h = elim (Option-cases (l id)) [
    | inl e ↦ rw (get_ok (key id) s, h.texts id, e) refl
    | inr (inv, e) ↦
        rw (get_ok (key id) s, h.texts id, e, schema-json z laws inv (h.positive id inv e)) refl
  ]

  written : (k : String) (t : Text) (s : S) → contents (p.setex k ttl t s).1 k ≡ some t
  written k t s = elim (env.setex_at k ttl t s) [
    | inl h ↦ h
    | inr h ↦ cc (h.0.1, up.setex_answers k ttl t s)
  ]

  some_positive : (a b : Invoice) → some a ≡ some b → 0 < a.amount → 0 < b.amount
  some_positive a b e h = ground (arith, e)

  pub Holds-setex :
      (s : S) (l : Ledger) (id : String) (inv : Invoice)
      → 0 < inv.amount
      → Holds s l
      → Holds (p.setex (key id) ttl (stringify inv) s).1 (update l id inv)
  Holds-setex s l id inv pos h = record {
    texts = λ j. elim (Bool-cases (str_eq id j)) [
      | inl e ↦ rw e (
          subst
            (λ i.
              contents (p.setex (key id) ttl (stringify inv) s).1 (key i) ≡ some (stringify inv))
            ((eq_iff id j).0 e) (written (key id) (stringify inv) s))
      | inr ne ↦ rw ne (
          env.setex_ne (key id) (key j) ttl (stringify inv) s
            (λ e. cc ((eq_iff id j).1 (sym (key_injective j id e)), ne))
          ∙ h.texts j)
    ];
    positive = λ j old. elim (Bool-cases (str_eq id j)) [
      | inl e ↦ rw e (λ q. some_positive inv old q pos)
      | inr ne ↦ rw ne (h.positive j old)
    ];
  }
