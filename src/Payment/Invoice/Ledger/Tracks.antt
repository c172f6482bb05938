-- ===== src/Payment/Invoice/Ledger/Tracks.antt =====
-- Runs that do what the ledger does at some moment, and the two ways in which a call ends.
use tugas_akhir.Common.{ℕ, ◌≤◌, ◌<◌, String, ◌≡◌, refl, Option, some, pure, ◌>>◌, arith}
use tugas_akhir.Payment.Json.{Text}
use tugas_akhir.Payment.Entity.{Invoice, Zod, ZodLaws}
use tugas_akhir.Payment.Platform.{Platform, Faithful}
use tugas_akhir.Payment.Invoice.{key, ttl, stringify}
use tugas_akhir.Payment.Invoice.Ledger.{Ledger, Moment, Answer, store}
use tugas_akhir.Payment.Invoice.Ledger.Represents.{Reliable, Represents, Holds-same, Holds-setex}

module _ {S : Type 0} (contents : S → String → Option Text) (time : S → ℕ) where
  abbrev pub Agrees : Answer × S → Answer × Ledger → Type 0
  Agrees run spec = (run.0 ≡ spec.0) × Represents contents run.1 spec.1

  -- A run that started in `s` does what `spec` does at some moment of the run.
  abbrev pub Tracks : S → (Moment → Answer × Ledger) → Answer × S → Type 0
  Tracks s spec run =
      (m : Moment) × Agrees run (spec m)
      × (time s ≤ m.first)
      × (m.first ≤ m.second)
      × (m.second ≤ time run.1)

abbrev pub instant : ℕ → Moment
instant t = record { fresh = ""; first = t; second = t }

-- The moment, with the id that is generated in a world.
abbrev pub stamped : {S : Type 0} → Platform S → S → Moment → Moment
stamped p s m = record m { fresh = (p.generate s).0 }

-- The world after the read that each call starts with.
abbrev pub read : {S : Type 0} → Platform S → String → S → S
read p id s = (p.get (key id) s).1

module _ {S : Type 0} (p : Platform S) (z : Zod) (contents : S → String → Option Text)
    (time : S → ℕ) (env : Faithful p contents) (laws : ZodLaws z) (up : Reliable p time) where
  abbrev Holds : S → Ledger → Type 0
  Holds = Represents contents

  abbrev Follows : S → (Moment → Answer × Ledger) → Answer × S → Type 0
  Follows = Tracks contents time

  pub Holds-read : (s : S) (l : Ledger) (id : String) → Holds s l → Holds (read p id s) l
  Holds-read s l id = Holds-same p z contents time env laws up s _ l (env.get_keeps (key id) s)

  pub Holds-clock : (s : S) (l : Ledger) → Holds s l → Holds (p.clock s).1 l
  Holds-clock s l = Holds-same p z contents time env laws up s _ l (env.clock_keeps s)

  -- A call that wrote nothing.
  pub Follows-still :
      (s s1 : S) (l : Ledger) (a : Answer) (t : ℕ) (spec : Moment → Answer × Ledger)
      → Holds s1 l
      → time s ≤ t
      → t ≤ time s1
      → spec (instant t) ≡ (a, l)
      → Follows s spec (a, s1)
  Follows-still s s1 l a t spec h before after e =
      (instant t, rw e (refl, h), before, omega arith, after)

  -- A call that ended with SETEX.
  pub Follows-stored :
      (s s1 : S) (l : Ledger) (id : String) (inv : Invoice) (m : Moment)
      (spec : Moment → Answer × Ledger)
      → Holds s1 l
      → 0 < inv.amount
      → time s ≤ m.first
      → m.first ≤ m.second
      → m.second ≤ time s1
      → spec m ≡ store l id inv
      → Follows s spec ((p.setex (key id) ttl (stringify inv) >> pure (some inv)) s1)
  Follows-stored s s1 l id inv m spec h pos before order after e =
      rw (up.setex_answers (key id) ttl (stringify inv) s1) (
        m,
        rw e (refl, Holds-setex p z contents time env laws up s1 l id inv pos h),
        before,
        order,
        omega (arith, up.setex_later (key id) ttl (stringify inv) s1),
      )
