-- ===== src/Payment/Health.antt =====
-- implementation/payment/src/service/health.ts and utils/timeout.ts: the health check, and the race
-- of a promise against a timeout.
use tugas_akhir.Common.{
  ℕ, ◌<◌, String, ◌≡◌, ◌≢◌, ◌↔◌, ◌⊎◌, if◌then◌else◌, ltb, ltb→lt, ltb_false→le, Bool-cases, inl,
  inr, refl, arith,
}
use text.Mathlib.Text.{◌==◌ as str_eq}
use text.Mathlib.TextEquality.{eq_iff}

-- When a promise settles, in milliseconds from the call, and how.
pub data Settles (A : Type 0) : Type 0 where
  resolves : ℕ → A → Settles A
  rejects : ℕ → Settles A
  never : Settles A

pub data Raced (A : Type 0) : Type 0 where
  value : A → Raced A
  rejected : Raced A
  timeout_error : String → Raced A

-- Promise.race of the promise and the timer.
unfoldable pub with_timeout : {A : Type 0} → Settles A → ℕ → String → Raced A
with_timeout (resolves t a) ms text = if ltb t ms then value a else timeout_error text
with_timeout (rejects t) ms text = if ltb t ms then rejected else timeout_error text
with_timeout never ms text = timeout_error text

pub record HealthStatus : Type 0 where
  pub status : String
  pub message : String
  pub code : ℕ

abbrev pong : Raced String → HealthStatus
pong (value v) =
    if str_eq v "PONG"
    then record { status = "healthy"; message = "Node healthy"; code = 200 }
    else record {
      status = "unhealthy";
      message = "Redis cluster returned unexpected response";
      code = 500;
    }
pong _ = record { status = "unhealthy"; message = "Redis cluster connection failed"; code = 503 }

-- HealthService.check, by what `redis.ping()` does.
pub check : Settles String → HealthStatus
unfolding with_timeout
check ping = pong (with_timeout ping 7000 "Redis cluster ping timed out")

-- Redis answers within 7 seconds, and with a text of which `P` holds.
abbrev pub InTime : (String → Type 0) → Settles String → Type 0
InTime P (resolves t v) = (t < 7000) × P v
InTime P _ = ⊥

rejected_code : (t : ℕ) → (check (rejects t)).code ≡ 503
unfolding check
rejected_code t = ground arith

by_time :
    (t : ℕ) (v : String)
    → ((t < 7000) × (v ≡ "PONG") × ((check (resolves t v)).code ≡ 200))
      ⊎ ((t < 7000) × (v ≢ "PONG") × ((check (resolves t v)).code ≡ 500))
      ⊎ (¬ (t < 7000) × ((check (resolves t v)).code ≡ 503))
unfolding check
by_time t v = elim (Bool-cases (ltb t 7000)) [
  | inl soon ↦ elim (Bool-cases (str_eq v "PONG")) [
    | inl same ↦ inl (ltb→lt t 7000 soon, (eq_iff v "PONG").0 same, rw (soon, same))
    | inr other ↦
        inr (inl (ltb→lt t 7000 soon, (λ e. cc ((eq_iff v "PONG").1 e, other)), rw (soon, other)))
  ]
  | inr late ↦ inr (inr ((λ h. omega (arith, ltb_false→le t 7000 late)), rw late))
]

-- The check reports 200 exactly if Redis answers PONG within 7 seconds, 500 exactly if it answers
-- something else in that time, and 503 exactly if it does neither, also when it never answers.
pub check-code :
    (ping : Settles String)
    → (((check ping).code ≡ 200) ↔ InTime (λ v. v ≡ "PONG") ping)
      × (((check ping).code ≡ 500) ↔ InTime (λ v. v ≢ "PONG") ping)
      × (((check ping).code ≡ 503) ↔ (¬ InTime (λ v. Unit {0}) ping))
check-code (resolves t v) = elim (by_time t v) [
  | inl (soon, same, e) ↦ (
    ((λ _. (soon, same)), (λ _. e)),
    ((λ q. absurd (omega (arith, e, q))), (λ h. absurd (h.1 same))),
    ((λ q. absurd (omega (arith, e, q))), (λ h. absurd (h (soon, tt)))),
  )
  | inr (inl (soon, other, e)) ↦ (
    ((λ q. absurd (omega (arith, e, q))), (λ h. absurd (other h.1))),
    ((λ _. (soon, other)), (λ _. e)),
    ((λ q. absurd (omega (arith, e, q))), (λ h. absurd (h (soon, tt)))),
  )
  | inr (inr (late, e)) ↦ (
    ((λ q. absurd (omega (arith, e, q))), (λ h. absurd (late h.0))),
    ((λ q. absurd (omega (arith, e, q))), (λ h. absurd (late h.0))),
    ((λ _ h. late h.0), (λ _. e)),
  )
]
check-code (rejects t) =
    let e : (check (rejects t)).code ≡ 503 = rejected_code t in
    (
      ((λ q. absurd (omega (arith, e, q))), (λ h. absurd h)),
      ((λ q. absurd (omega (arith, e, q))), (λ h. absurd h)),
      ((λ _ h. h), (λ _. e)),
    )
check-code never =
    let e : (check never).code ≡ 503 = unfold check in refl in
    (
      ((λ q. absurd (omega (arith, e, q))), (λ h. absurd h)),
      ((λ q. absurd (omega (arith, e, q))), (λ h. absurd h)),
      ((λ _ h. h), (λ _. e)),
    )
