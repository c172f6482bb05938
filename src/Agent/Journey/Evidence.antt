-- ===== src/Agent/Journey/Evidence.antt =====
-- What the end state of an iteration says of the order, from the payment on.
use mathlib.Core.Path.{subst}
use tugas_akhir.Common.{
  not, ℕ, ◌≤◌, ◌≡◌, refl, Bool, true, false, [], ◌∷◌, Outcome, ok, throw, bind_post,
}
use tugas_akhir.Common.Int.{pos}
use tugas_akhir.Agent.Kit.{Stop, pause}
use tugas_akhir.Agent.Types.{Order, OrderStatus}
use tugas_akhir.Agent.Backend.{Backend}
use tugas_akhir.Agent.Vu.Counter.{Adds, Adds-finish}
use tugas_akhir.Agent.Vu.{
  Vu, EndState, submit_metric, finish, on_world, success_purchased, fail_ticket_issuance,
  error_unexpected_order_state, fail_order_verification, success_payment_failed_expected,
  fail_payment_system_error,
}
use tugas_akhir.Agent.Loops.{
  Verified, confirmed, unexpected, unverified, verify_loop, pay_loop, issue_loop,
}
use tugas_akhir.Agent.Journey.{after_issue, after_verify, after_payment, pay_phase}
use tugas_akhir.Agent.Loops.Verify.{settled_status}
use tugas_akhir.Agent.Loops.Evidence.{
  Unpaid, Paid, PayPost, pay_loop-PayPost, Polled, Seen, VerifyPost, verify_loop-VerifyPost,
  Unissued, Issued, IssuePost, issue_loop-IssuePost,
}

module _ {W J : Type 0} (b : Backend W J) (order : Order) (count : ℕ) where
  -- The waits before the payment and before the verification.
  abbrev pub first_wait : W → W
  first_wait = pause b.kit (pos 4) (pos 8)

  abbrev pub second_wait : W → W
  second_wait = pause b.kit (pos 5) (pos 15)

  -- The payment was answered, and then the order was read with a status.
  abbrev pub PaidSeen : Bool → OrderStatus → W → W → Type 0
  PaidSeen s status w w' =
      (w1 : W) × Paid b order s (first_wait w) w1 × Seen b order status (second_wait w1) w'

  -- What was done for the order from one world to another, in an iteration with this end state, where
  -- the payment was to succeed or not. The other end states do not occur from the payment on.
  abbrev pub EndEvidence : Bool → W → W → EndState → Type 0
  EndEvidence s w w' success_purchased =
      (s ≡ true) × ((w1 : W) × PaidSeen s OrderStatus.success w w1 × Issued b order count w1 w')
  EndEvidence s w w' success_payment_failed_expected =
      (s ≡ false) × PaidSeen s OrderStatus.failed w w'
  EndEvidence s w w' fail_ticket_issuance =
      (s ≡ true) × ((w1 : W) × PaidSeen s OrderStatus.success w w1 × Unissued b order w1 3 w')
  EndEvidence s w w' error_unexpected_order_state = PaidSeen s (settled_status (not s)) w w'
  EndEvidence s w w' fail_order_verification =
      (w1 : W) × Paid b order s (first_wait w) w1
      × ((n : ℕ) × (3 ≤ n) × Polled b order (second_wait w1) n w')
  EndEvidence s w w' fail_payment_system_error = Unpaid b order s (first_wait w) 3 w'
  EndEvidence s w w' _ = ⊥

  -- From the payment on an iteration adds one end state, or stops and adds none. The world in which
  -- it starts is given.
  abbrev pub PhaseEvidence : Vu W → W → Bool → Outcome Stop (Unit {0}) → Vu W → Type 0
  PhaseEvidence v0 w s (ok u) v = (e : EndState) × EndEvidence s w v.world e × Adds (e ∷ []) v0 v
  PhaseEvidence v0 w s (throw e) v = v.submitted ≡ v0.submitted

  module _ (v0 : Vu W) (w : W) (should_success : Bool) where
    abbrev Post : Outcome Stop (Unit {0}) → Vu W → Type 0
    Post = PhaseEvidence v0 w should_success

    finish_evidence :
        (e : EndState) (v : Vu W)
        → EndEvidence should_success w v.world e
        → v.submitted ≡ v0.submitted
        → Post (finish e v).0 (finish e v).1
    unfolding submit_metric
    finish_evidence e v ev h = (e, ev, Adds-finish e v0 v h)

    issue_evidence :
        (issued : Bool) (w1 : W) (v : Vu W)
        → should_success ≡ true
        → PaidSeen should_success OrderStatus.success w w1
        → IssuePost b order 3 count w1 (ok issued) v.world
        → v.submitted ≡ v0.submitted
        → Post (after_issue b issued v).0 (after_issue b issued v).1
    issue_evidence true w1 v s seen issued h =
        finish_evidence success_purchased v (s, (w1, seen, issued)) h
    issue_evidence false w1 v s seen unissued h =
        finish_evidence fail_ticket_issuance v (s, (w1, seen, unissued)) h

    confirmed_evidence :
        (s : Bool) (v : Vu W)
        → should_success ≡ s
        → PaidSeen should_success (settled_status should_success) w v.world
        → v.submitted ≡ v0.submitted
        → Post
            (after_verify b confirmed order count s v).0
            (after_verify b confirmed order count s v).1
    confirmed_evidence false v s seen h =
        finish_evidence success_payment_failed_expected v
          (s, subst (λ m. PaidSeen should_success (settled_status m) w v.world) s seen) h
    confirmed_evidence true v s seen h =
        let post = issue_loop-IssuePost b order 3 count v.world in
        bind_post Post (on_world (issue_loop b 3 order count)) (after_issue b) v
          (λ issued q.
            issue_evidence issued v.world _ s
              (subst (λ m. PaidSeen should_success (settled_status m) w v.world) s seen)
              (subst
                (λ o. IssuePost b order 3 count v.world o (issue_loop b 3 order count v.world).1) q
                post)
              h)
          (λ e q. h)

    verify_evidence :
        (verified : Verified) (w1 : W) (v : Vu W)
        → Paid b order should_success (first_wait w) w1
        → VerifyPost b order should_success (second_wait w1) (ok verified) v.world
        → v.submitted ≡ v0.submitted
        → Post
            (after_verify b verified order count should_success v).0
            (after_verify b verified order count should_success v).1
    verify_evidence unexpected w1 v paid seen h =
        finish_evidence error_unexpected_order_state v (w1, paid, seen) h
    verify_evidence unverified w1 v paid polled h =
        finish_evidence fail_order_verification v (w1, paid, polled) h
    verify_evidence confirmed w1 v paid seen h =
        confirmed_evidence should_success v refl (w1, paid, seen) h

    payment_evidence :
        (rounds : ℕ) (paid : Bool) (v : Vu W)
        → PayPost b order should_success 3 (first_wait w) (ok paid) v.world
        → v.submitted ≡ v0.submitted
        → Post
            (after_payment b rounds paid order count should_success v).0
            (after_payment b rounds paid order count should_success v).1
    payment_evidence rounds false v unpaid h = finish_evidence fail_payment_system_error v unpaid h
    payment_evidence rounds true v paid h =
        let here = second_wait v.world in
        let run = verify_loop b rounds order should_success 0 in
        let post = verify_loop-VerifyPost b order should_success here rounds in
        bind_post Post (on_world run)
          (λ verified. after_verify b verified order count should_success)
          (record v { world = here })
          (λ verified q.
            verify_evidence verified v.world _ paid
              (subst (λ o. VerifyPost b order should_success here o (run here).1) q post) h)
          (λ e q. h)

  -- The end state that is counted from the payment on says which calls were made for the order, each
  -- in the world that the one before it left, from the world at the start to the one at the end. A
  -- purchase is counted after a payment that was to succeed was answered, then the order read as a
  -- success, then its tickets read; an expected failure after an answered payment that was to fail,
  -- and the order then read as failed; a missing ticket after the payment, the success, and three
  -- requests for the tickets without an answer; an unexpected state after an answered payment and
  -- then the opposite status; an unverified order after an answered payment and three polls or more
  -- that decided nothing; a failure of the payment system after three payments without an answer.
  pub pay_phase-evidence :
      (v0 : Vu W) (rounds : ℕ) (should_success : Bool) (v : Vu W)
      → v.submitted ≡ v0.submitted
      → PhaseEvidence v0 v.world should_success
          (pay_phase b rounds order count should_success v).0
          (pay_phase b rounds order count should_success v).1
  pay_phase-evidence v0 rounds should_success v h =
      let here = first_wait v.world in
      let run = pay_loop b 3 order should_success in
      let post = pay_loop-PayPost b order should_success 3 here in
      bind_post (PhaseEvidence v0 v.world should_success) (on_world run)
        (λ paid. after_payment b rounds paid order count should_success) _
        (λ paid q.
          payment_evidence v0 v.world should_success rounds paid _
            (subst (λ o. PayPost b order should_success 3 here o (run here).1) q post) h)
        (λ e q. h)
