-- ===== src/Payment/Platform.antt =====
-- What the payment service calls and does not implement: the Redis cluster (ioredis), the clock and
-- dayjs, and the id generator (cuid2). Each is an operation on a state `S` of the outside world.
use tugas_akhir.Common.{
  ℕ, ◌+◌, ◌*◌, String, ◌≡◌, ◌≢◌, ◌⊎◌, Bool, Option, some, Exec, Outcome, ok, throw, pure, ◌>>◌, ltb,
  bind_post, inl, inr,
}
use tugas_akhir.Common.Int.{ℤ, sub_ℕ}
use tugas_akhir.Payment.Json.{Text, Failure}

pub record Platform (S : Type 0) : Type 0 where
  -- `redis.get(key)`
  pub get : String → Exec S Failure (Option Text)
  -- `redis.setex(key, seconds, value)`
  pub setex : String → ℕ → Text → Exec S Failure (Unit {0})
  -- a reading of the clock, in milliseconds
  pub clock : S → ℕ × S
  -- `dayjs(t).add(n, "minute")`
  pub add_minutes : ℕ → ℕ → ℕ
  -- `dayjs(a).isBefore(dayjs(b))`
  pub is_before : ℕ → ℕ → Bool
  -- `dayjs(a).diff(dayjs(b))`, in milliseconds
  pub diff : ℕ → ℕ → ℤ
  -- `idGenerator.generate()`
  pub generate : S → String × S

-- The documented behaviour of these calls, where `contents s` is what Redis holds in the world `s`.
-- A SETEX that throws may have been carried out or not.
pub record Faithful {S : Type 0} (p : Platform S) (contents : S → String → Option Text)
    : Type 0 where
  pub get_keeps : (k : String) (s : S) → contents (p.get k s).1 ≡ contents s
  pub get_reads : (k : String) (s : S) (v : Option Text) → (p.get k s).0 ≡ ok v → v ≡ contents s k
  pub setex_at :
      (k : String) (ttl : ℕ) (t : Text) (s : S)
      → (contents (p.setex k ttl t s).1 k ≡ some t)
        ⊎ (((e : Failure) × ((p.setex k ttl t s).0 ≡ throw e))
            × (contents (p.setex k ttl t s).1 k ≡ contents s k))
  pub setex_ne :
      (k j : String) (ttl : ℕ) (t : Text) (s : S)
      → j ≢ k
      → contents (p.setex k ttl t s).1 j ≡ contents s j
  pub clock_keeps : (s : S) → contents (p.clock s).1 ≡ contents s
  pub generate_keeps : (s : S) → contents (p.generate s).1 ≡ contents s
  pub add_minutes_lem : (t n : ℕ) → p.add_minutes t n ≡ t + n * 60000
  pub is_before_lem : (a b : ℕ) → p.is_before a b ≡ ltb a b
  pub diff_lem : (a b : ℕ) → p.diff a b ≡ sub_ℕ a b

module _ {S : Type 0} (p : Platform S) (contents : S → String → Option Text)
    (env : Faithful p contents) {B : Type 0} (Q : Outcome Failure B → S → Type 0) where
  -- A SETEX whose result is dropped: it was carried out, or it threw and was not.
  pub setex_post :
      (k : String) (seconds : ℕ) (t : Text) (x : B) (s : S)
      → ((s' : S) → contents s' k ≡ some t → Q (ok x) s')
      → ((e : Failure) (s' : S)
          → (contents s' k ≡ some t) ⊎ (contents s' k ≡ contents s k)
          → Q (throw e) s')
      → Q ((p.setex k seconds t >> pure x) s).0 ((p.setex k seconds t >> pure x) s).1
  setex_post k seconds t x s written refused =
      bind_post Q (p.setex k seconds t) (λ _. pure x) s
        (λ u e. elim (env.setex_at k seconds t s) [ inl h ↦ written _ h | inr h ↦ cc (e, h.0.1) ])
        (λ e _. elim (env.setex_at k seconds t s) [
          | inl h ↦ refused e _ (inl h)
          | inr h ↦ refused e _ (inr h.1)
        ])
