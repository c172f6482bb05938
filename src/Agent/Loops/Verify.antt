-- ===== src/Agent/Loops/Verify.antt =====
-- The loop that verifies an order after its payment.
use mathlib.Core.Path.{subst}
use tugas_akhir.Common.{
  not, ℕ, zero, suc, ◌+◌, ◌<◌, ◌≤◌, ◌≡◌, ◌≢◌, ◌⊎◌, refl, Bool, true, false, Option, none, some,
  Exec, Outcome, ok, raise, ltb, ltb→lt, ltb_false→le, inl, inr, arith,
}
use tugas_akhir.Common.Int.{pos}
use tugas_akhir.Agent.Kit.{Stop, spinning, pause}
use tugas_akhir.Agent.Types.{OrderStatus, waiting_for_payment, unlisted, Order}
use tugas_akhir.Agent.Backend.{Backend}
use tugas_akhir.Agent.Order.{get_order}
use tugas_akhir.Agent.Loops.{
  Verified, confirmed, unexpected, unverified, order_key, verify_status, verify_round, verify_loop,
}

-- The status that an order has after a payment, by whether the payment was to succeed.
abbrev pub settled_status : Bool → OrderStatus
settled_status true = OrderStatus.success
settled_status false = OrderStatus.failed

module _ {W J : Type 0} (b : Backend W J) (order : Order) where
  abbrev pub poll : Exec W Stop (Option (Option Order))
  poll = get_order b (order_key order)

  -- The order could not be read, or is still waiting for its payment.
  abbrev pub Undecided : Outcome Stop (Option (Option Order)) → Type 0
  Undecided r =
      (r ≡ ok none) ⊎ ((o : Order) × (r ≡ ok (some (some o))) × (o.status ≡ waiting_for_payment))

  -- From the first world to the second a number of polls has decided nothing, with a pause after
  -- each.
  pub data Polls (w : W) : ℕ → W → Type 0 where
    no_poll : Polls w 0 w
    one_more :
        {n : ℕ} {w1 : W}
        → Polls w n w1
        → Undecided (poll w1).0
        → Polls w (n + 1) (pause b.kit (pos 5) (pos 15) (poll w1).1)

  -- The statuses that the loop has a branch for, of an order that could be read.
  abbrev pub IsListed : Outcome Stop (Option (Option Order)) → Type 0
  IsListed r = (r ≡ ok none) ⊎ ((o : Order) × (r ≡ ok (some (some o))) × (o.status ≢ unlisted))

  -- The verdict on an order of a status.
  abbrev pub Judges : Bool → OrderStatus → Verified → Type 0
  Judges should_success status v =
      ((status ≡ settled_status should_success) × (v ≡ confirmed))
      ⊎ ((status ≡ settled_status (not should_success)) × (v ≡ unexpected))

  -- Up to two polls decided nothing and the next one decided, or three decided nothing.
  abbrev pub Settled : Bool → W → Verified → W → Type 0
  Settled should_success w v w' =
      ((n : ℕ) × (w1 : W) × (o : Order) × (n < 3)
        × Polls w n w1
        × ((poll w1).0 ≡ ok (some (some o)))
        × Judges should_success o.status v
        × (w' ≡ (poll w1).1))
      ⊎ (Polls w 3 w' × (v ≡ unverified))

  abbrev pub Verifies : Bool → W → Outcome Stop Verified → W → Type 0
  Verifies should_success w r w' = (v : Verified) × (r ≡ ok v) × Settled should_success w v w'

  abbrev GoesOn : (ℕ → Exec W Stop Verified) → ℕ → Bool → W → Type 0
  GoesOn go_on tries should_success w =
      (w2 : W)
      → Polls w (tries + 1) w2
      → Verifies should_success w (go_on (tries + 1) w2).0 (go_on (tries + 1) w2).1

  verify_status_post :
      (go_on : ℕ → Exec W Stop Verified) (tries : ℕ) (should_success : Bool) (w w1 : W) (o : Order)
      (status : OrderStatus)
      → tries < 3
      → Polls w tries w1
      → GoesOn go_on tries should_success w
      → (poll w1).0 ≡ ok (some (some o))
      → o.status ≡ status
      → status ≢ unlisted
      → let run = verify_status b go_on tries should_success status (poll w1).1 in
        Verifies should_success w run.0 run.1
  verify_status_post go_on tries s w w1 o waiting_for_payment lt a ih e st ne =
      ih _ (one_more a (inr (o, e, st)))
  verify_status_post go_on tries true w w1 o OrderStatus.success lt a ih e st ne =
      (confirmed, refl, inl (tries, w1, o, lt, a, e, inl (st, refl), refl))
  verify_status_post go_on tries true w w1 o OrderStatus.failed lt a ih e st ne =
      (unexpected, refl, inl (tries, w1, o, lt, a, e, inr (st, refl), refl))
  verify_status_post go_on tries false w w1 o OrderStatus.success lt a ih e st ne =
      (unexpected, refl, inl (tries, w1, o, lt, a, e, inr (st, refl), refl))
  verify_status_post go_on tries false w w1 o OrderStatus.failed lt a ih e st ne =
      (confirmed, refl, inl (tries, w1, o, lt, a, e, inl (st, refl), refl))
  verify_status_post go_on tries s w w1 o unlisted lt a ih e st ne = absurd (ne refl)

  verify_round_post :
      (go_on : ℕ → Exec W Stop Verified) (tries : ℕ) (should_success : Bool) (w w1 : W)
      (more : Bool)
      → tries ≤ 3
      → ltb tries 3 ≡ more
      → Polls w tries w1
      → (tries < 3 → GoesOn go_on tries should_success w)
      → IsListed (poll w1).0
      → let run = verify_round b go_on order should_success tries more w1 in
        Verifies should_success w run.0 run.1
  verify_round_post go_on tries s w w1 false le e a ih h = (
    unverified,
    refl,
    inr (subst (λ n. Polls w n w1) (omega (arith, le, ltb_false→le _ _ e)) a, refl),
  )
  verify_round_post go_on tries s w w1 true le e a ih (inl nothing) =
      rw nothing (ih (ltb→lt _ _ e) _ (one_more a (inl nothing)))
  verify_round_post go_on tries s w w1 true le e a ih (inr (o, got, ne)) = rw got (
      verify_status_post go_on tries s w w1 o o.status (ltb→lt _ _ e) a (ih (ltb→lt _ _ e)) got refl
        ne)

  verify_loop_post :
      (rounds tries : ℕ) (should_success : Bool) (w w1 : W)
      → 3 ≤ rounds + tries
      → tries ≤ 3
      → Polls w tries w1
      → ((w2 : W) → IsListed (poll w2).0)
      → let run = verify_loop b rounds order should_success tries w1 in
        Verifies should_success w run.0 run.1
  unfolding verify_loop
  verify_loop_post zero tries s w w1 enough le a h =
      verify_round_post (λ _. raise spinning) tries s w w1 (ltb tries 3) le refl a
        (λ lt. absurd (omega (arith, enough, lt))) (h w1)
  verify_loop_post (suc rounds) tries s w w1 enough le a h =
      verify_round_post (verify_loop b rounds order s) tries s w w1 (ltb tries 3) le refl a
        (λ lt w2 a2.
          verify_loop_post rounds (tries + 1) s w w2 (omega (arith, enough)) (omega (arith, lt)) a2
            h)
        (h w1)

  -- Where each poll of the order gives null or an order of a listed status, three rounds are enough
  -- for the verification after a payment: it polls the order three times at most, with a pause after
  -- each poll that decides nothing. It confirms the order if its status is success after a payment
  -- that was to succeed, or failed after one that was to fail; the opposite is unexpected; after
  -- three polls without a decision the order is not verified.
  pub verify_loop-Verifies :
      (rounds : ℕ) (should_success : Bool) (w : W)
      → 3 ≤ rounds
      → ((w1 : W) → IsListed (poll w1).0)
      → Verifies should_success w
          (verify_loop b rounds order should_success 0 w).0
          (verify_loop b rounds order should_success 0 w).1
  verify_loop-Verifies rounds s w enough h =
      verify_loop_post rounds 0 s w w (omega (arith, enough)) (omega arith) no_poll h
