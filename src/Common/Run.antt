-- ===== src/Common/Run.antt =====
-- Calls that use the outside world and may throw. What was done before a throw stays done, so the
-- world comes back beside the error too.

use mathlib.Core.Path.{◌≡◌, refl}

pub data Outcome (E : Type 0) (A : Type 0) : Type 0 where
  ok : A → Outcome E A
  throw : E → Outcome E A

abbrev pub Exec : Type 0 → Type 0 → Type 0 → Type 0
Exec S E A = S → Outcome E A × S

abbrev pub pure : {S E A : Type 0} → A → Exec S E A
pure a s = (ok a, s)

abbrev pub raise : {S E A : Type 0} → E → Exec S E A
raise e s = (throw e, s)

abbrev pub continue : {S E A B : Type 0} → (A → Exec S E B) → Outcome E A → S → Outcome E B × S
continue f (ok a) s = f a s
continue f (throw e) s = (throw e, s)

infixl 5 ◌>>=◌ ◌>>◌
abbrev pub ◌>>=◌ : {S E A B : Type 0} → Exec S E A → (A → Exec S E B) → Exec S E B
◌>>=◌ m f s = continue f (m s).0 (m s).1

abbrev pub ◌>>◌ : {S E B : Type 0} → Exec S E (Unit {0}) → Exec S E B → Exec S E B
m >> k = m >>= λ _. k

module _ {S E A B : Type 0} (Q : Outcome E B → S → Type 0) where
  bind_from :
      (f : A → Exec S E B) (r : Outcome E A) (s : S)
      → ((a : A) → r ≡ ok a → Q (f a s).0 (f a s).1)
      → ((e : E) → r ≡ throw e → Q (throw e) s)
      → Q (continue f r s).0 (continue f r s).1
  bind_from f (ok a) s returns throws = returns a refl
  bind_from f (throw e) s returns throws = throws e refl

  -- What holds after the rest, whichever way the first call ended, holds after the whole.
  pub bind_post :
      (m : Exec S E A) (f : A → Exec S E B) (s : S)
      → ((a : A) → (m s).0 ≡ ok a → Q (f a (m s).1).0 (f a (m s).1).1)
      → ((e : E) → (m s).0 ≡ throw e → Q (throw e) (m s).1)
      → Q ((m >>= f) s).0 ((m >>= f) s).1
  bind_post m f s returns throws = bind_from f (m s).0 (m s).1 returns throws
