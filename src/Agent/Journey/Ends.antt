-- ===== src/Agent/Journey/Ends.antt =====
-- When an iteration of a virtual user ends.
use mathlib.Core.Path.{subst}
use tugas_akhir.Common.{
  ℕ, ◌≤◌, ◌≡◌, refl, Bool, true, false, String, Option, none, some, Outcome, ok, throw, arith,
}
use tugas_akhir.Agent.Kit.{Kit, Stop, exception, spinning}
use tugas_akhir.Agent.Types.{Event, Order}
use tugas_akhir.Agent.Client.{HttpRequest, HttpResponse}
use tugas_akhir.Agent.Profile.Table.{Persistence, UserProfile}
use tugas_akhir.Agent.Profile.{ProfileState, max_order, get_user_profile, get_profile_state}
use tugas_akhir.Agent.Backend.{Views, Backend}
use tugas_akhir.Agent.Browse.Calm.{Ends, Ends-ok, Ends-bind}
use tugas_akhir.Agent.Jwt.{Crypto}
use tugas_akhir.Agent.Vu.{Vu, submit_metric}
use tugas_akhir.Agent.Loops.{Phase, returned, ordered, Verified, confirmed, unexpected, unverified}
use tugas_akhir.Agent.Loops.Calm.{Calm-read, Calm-find_event, Calm-pay_loop, Calm-issue_loop}
use tugas_akhir.Agent.Loops.Ends.{Responds, order_loop-Ends, verify_loop-Ends}
use tugas_akhir.Agent.Journey.Metric.{TestPost, test_post}
use tugas_akhir.Agent.Journey.{
  after_issue, after_verify, after_payment, pay_phase, after_order, with_event, visit, backend_of,
  draw_token, draw_profile, attempt, caught, started, test,
}

module _ {W J : Type 0} (b : Backend W J) (responds : Responds b) (rounds : ℕ)
    (enough : 9 ≤ rounds) where
  after_issue-Ends : (issued : Bool) (v : Vu W) → Ends (after_issue b issued v).0
  unfolding submit_metric
  after_issue-Ends true v = Ends-ok _
  after_issue-Ends false v = Ends-ok _

  after_verify-Ends :
      (verified : Verified) (order : Order) (count : ℕ) (should_success : Bool) (v : Vu W)
      → Ends (after_verify b verified order count should_success v).0
  unfolding submit_metric
  after_verify-Ends unexpected order count s v = Ends-ok _
  after_verify-Ends unverified order count s v = Ends-ok _
  after_verify-Ends confirmed order count false v = Ends-ok _
  after_verify-Ends confirmed order count true v =
      Ends-bind (after_issue b) _ _ (Calm-issue_loop b 3 order count v.world)
        (λ issued. after_issue-Ends issued _)

  after_payment-Ends :
      (paid : Bool) (order : Order) (count : ℕ) (should_success : Bool) (v : Vu W)
      → Ends (after_payment b rounds paid order count should_success v).0
  unfolding submit_metric
  after_payment-Ends false order count s v = Ends-ok _
  after_payment-Ends true order count s v =
      Ends-bind (λ verified. after_verify b verified order count s) _ _
        (verify_loop-Ends b responds rounds (omega (arith, enough)) order s _)
        (λ verified. after_verify-Ends verified order count s _)

  pay_phase-Ends :
      (order : Order) (count : ℕ) (should_success : Bool) (v : Vu W)
      → Ends (pay_phase b rounds order count should_success v).0
  pay_phase-Ends order count s v =
      Ends-bind (λ paid. after_payment b rounds paid order count s) _ _
        (Calm-pay_loop b 3 order s _) (λ paid. after_payment-Ends paid order count s _)

  after_order-Ends :
      (phase : Phase) (state : ProfileState) (v : Vu W)
      → Ends (after_order b rounds (phase, state) v).0
  unfolding submit_metric
  after_order-Ends returned state v = Ends-ok _
  after_order-Ends (ordered none) state v = Ends-ok _
  after_order-Ends (ordered (some order)) state v = pay_phase-Ends order state.ticket_count _ _

  max_order-le : (p : Persistence) → max_order p ≤ 9
  max_order-le Persistence.low = omega arith
  max_order-le _ = omega arith

  with_event-Ends :
      (profile : UserProfile) (event : Option Event) (v : Vu W)
      → Ends (with_event b rounds profile event v).0
  unfolding submit_metric get_profile_state
  with_event-Ends profile none v = Ends-ok _
  with_event-Ends profile (some event) v =
      Ends-bind (after_order b rounds) _ _
        (order_loop-Ends b responds rounds (omega (arith, enough)) rounds
          (get_profile_state b.kit profile event v.world).0 _
          (omega (arith, enough, max_order-le profile.persistence)))
        (λ phase. after_order-Ends phase.0 phase.1 _)

  visit-Ends : (profile : UserProfile) (v : Vu W) → Ends (visit b rounds profile v).0
  unfolding visit
  visit-Ends profile v =
      Ends-bind (with_event b rounds profile) _ _ (Calm-find_event b 3 v.world)
        (λ event. with_event-Ends profile event _)

module _ {W J : Type 0} (kit : Kit W) (crypto : Crypto W) (to_url : String → String)
    (http : HttpRequest → W → HttpResponse J × W) (views : Views J) where
  attempt-Ends :
      (rounds : ℕ) (v : Vu W)
      → 9 ≤ rounds
      → ((token : String) → Responds (backend_of kit crypto to_url http views token))
      → Ends (attempt kit crypto to_url http views rounds v).0
  unfolding attempt
  attempt-Ends rounds v enough responds =
      let w = (draw_token kit crypto to_url http views v.world).1 in
      Ends-bind _ (draw_profile kit crypto to_url http views w).0 _
        (Calm-read (get_user_profile kit w).0 (get_user_profile kit w).1)
        (λ profile. visit-Ends _ (responds _) rounds enough profile _)

  caught_returns :
      (r : Outcome Stop (Unit {0})) (v : Vu W)
      → Ends r
      → (caught kit crypto to_url http views (r, v)).0 ≡ ok tt
  unfolding submit_metric
  caught_returns (ok u) v h = refl
  caught_returns (throw spinning) v h = absurd (h.not_spinning refl)
  caught_returns (throw (exception e)) v h = refl

  test_returns :
      (rounds : ℕ) (v : Vu W)
      → 9 ≤ rounds
      → ((token : String) → Responds (backend_of kit crypto to_url http views token))
      → (test kit crypto to_url http views rounds v).0 ≡ ok tt
  unfolding test
  test_returns rounds v enough responds =
      caught_returns _ _
        (attempt-Ends rounds (started kit crypto to_url http views v) enough responds)

  -- Where the ticket backend answers each order with a status that placeOrder has a branch for,
  -- each poll of an order gives null or an order of a listed status, and no request for seats gives
  -- null: nine rounds are enough for every loop of an iteration. It returns, and has submitted the
  -- metric once, with an end state other than NOT_SET, or twice, with FAIL_SEAT_NOT_FOUND and then
  -- FAIL_ORDER_ATTEMPTS_EXCEEDED.
  pub test_ends :
      (rounds : ℕ) (v : Vu W)
      → 9 ≤ rounds
      → ((token : String) → Responds (backend_of kit crypto to_url http views token))
      → let run = test kit crypto to_url http views rounds v in
        (run.0 ≡ ok tt) × TestPost kit crypto to_url http views v (ok tt) run.1
  test_ends rounds v enough responds =
      let e = test_returns rounds v enough responds in
      (
        e,
        subst
            (λ r.
              TestPost kit crypto to_url http views v r
                (test kit crypto to_url http views rounds v).1)
            e (test_post kit crypto to_url http views rounds v),
      )
