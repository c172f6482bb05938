-- ===== src/Agent/Loops/Evidence.antt =====
-- What the payment, verification and ticket loops have done when they end: the calls that they made,
-- each in the world that the one before it left.
use mathlib.Core.Path.{subst}
use tugas_akhir.Common.{
  not, ℕ, zero, suc, ◌+◌, ◌≡◌, refl, Bool, true, false, Option, none, some, List, [], ◌∷◌, Exec,
  Outcome, ok, throw, raise, pure, ltb, ltb_false→le, ◌≤◌, bind_post, inl, inr, arith,
}
use tugas_akhir.Common.Int.{pos}
use tugas_akhir.Agent.Kit.{Stop, spinning, pause, run_check}
use tugas_akhir.Agent.Types.{OrderStatus, waiting_for_payment, unlisted, Order, IssuedTicket}
use tugas_akhir.Agent.Backend.{Backend}
use tugas_akhir.Agent.Order.{pay_order, get_issued_tickets}
use tugas_akhir.Agent.Loops.{
  Verified, confirmed, unexpected, unverified, order_key, pay_loop, paid_or_wait, issued_or_wait,
  count_test, verify_status, verify_order, verify_round, verify_loop, issue_loop,
}
use tugas_akhir.Agent.Loops.Verify.{settled_status, poll, Undecided}

module _ {W J : Type 0} (b : Backend W J) (order : Order) where
  module _ (should_success : Bool) where
    -- From the first world to the second a number of payments was not answered, with a pause after
    -- each.
    pub data Unpaid (w : W) : ℕ → W → Type 0 where
      no_payment : Unpaid w 0 w
      one_more :
          {n : ℕ} {w1 : W}
          → Unpaid w n w1
          → (pay_order b order should_success w1).0 ≡ ok none
          → Unpaid w (n + 1) (pause b.kit (pos 2) (pos 6) (pay_order b order should_success w1).1)

    -- After such payments one was answered, at the end.
    abbrev pub Paid : W → W → Type 0
    Paid w w' =
        (n : ℕ) × (w1 : W) × (j : J) × Unpaid w n w1
        × ((pay_order b order should_success w1).0 ≡ ok (some j))
        × (w' ≡ (pay_order b order should_success w1).1)

    -- The payment loop has got an answer, or all its payments were without one.
    abbrev pub PayPost : ℕ → W → Outcome Stop Bool → W → Type 0
    PayPost n w (ok true) w' = Paid w w'
    PayPost n w (ok false) w' = Unpaid w n w'
    PayPost n w (throw e) w' = Unit {0}

    paid_post :
        (go_on : Exec W Stop Bool) (n k : ℕ) (w w1 : W) (found : Option J)
        → Unpaid w k w1
        → ((w2 : W) → Unpaid w (k + 1) w2 → PayPost n w (go_on w2).0 (go_on w2).1)
        → (pay_order b order should_success w1).0 ≡ ok found
        → let run = paid_or_wait b go_on found (pay_order b order should_success w1).1 in
          PayPost n w run.0 run.1
    paid_post go_on n k w w1 (some j) tried ih e = (k, w1, j, tried, e, refl)
    paid_post go_on n k w w1 none tried ih e = ih _ (one_more tried e)

    pay_loop_post :
        (n left k : ℕ) (w w1 : W)
        → n ≡ left + k
        → Unpaid w k w1
        → let run = pay_loop b left order should_success w1 in PayPost n w run.0 run.1
    unfolding pay_loop
    pay_loop_post n zero k w w1 e tried = subst (λ m. Unpaid w m w1) (omega (arith, e)) tried
    pay_loop_post n (suc left) k w w1 e tried =
        bind_post (PayPost n w) (pay_order b order should_success)
          (paid_or_wait b (pay_loop b left order should_success)) w1
          (λ found q.
            paid_post (pay_loop b left order should_success) n k w w1 found tried
              (λ w2. pay_loop_post n left (k + 1) w w2 (omega (arith, e))) q)
          (λ stop q. tt)

    pub pay_loop-PayPost :
        (n : ℕ) (w : W) → let run = pay_loop b n order should_success w in PayPost n w run.0 run.1
    pay_loop-PayPost n w = pay_loop_post n n 0 w w (omega arith) no_payment

  -- From the first world to the second a number of polls of the order decided nothing, with a pause
  -- after each; the number does not count the polls where the order had a status that the loop has no branch for.
  pub data Polled (w : W) : ℕ → W → Type 0 where
    no_poll : Polled w 0 w
    undecided :
        {n : ℕ} {w1 : W}
        → Polled w n w1
        → Undecided b order (poll b order w1).0
        → Polled w (n + 1) (pause b.kit (pos 5) (pos 15) (poll b order w1).1)
    skipped :
        {n : ℕ} {w1 : W} {o : Order}
        → Polled w n w1
        → (poll b order w1).0 ≡ ok (some (some o))
        → o.status ≡ unlisted
        → Polled w n (poll b order w1).1

  -- After such polls one read the order with this status, at the end.
  abbrev pub Seen : OrderStatus → W → W → Type 0
  Seen status w w' =
      (n : ℕ) × (w1 : W) × (o : Order) × Polled w n w1
      × ((poll b order w1).0 ≡ ok (some (some o)))
      × (o.status ≡ status)
      × (w' ≡ (poll b order w1).1)

  abbrev pub VerifyPost : Bool → W → Outcome Stop Verified → W → Type 0
  VerifyPost should_success w (ok confirmed) w' = Seen (settled_status should_success) w w'
  VerifyPost should_success w (ok unexpected) w' = Seen (settled_status (not should_success)) w w'
  VerifyPost should_success w (ok unverified) w' = (n : ℕ) × (3 ≤ n) × Polled w n w'
  VerifyPost should_success w (throw e) w' = Unit {0}

  module _ (should_success : Bool) (w : W) where
    abbrev GoesOn : (ℕ → Exec W Stop Verified) → Type 0
    GoesOn go_on =
        (tries : ℕ) (w1 : W)
        → Polled w tries w1
        → VerifyPost should_success w (go_on tries w1).0 (go_on tries w1).1

    -- By the mode of the payment and the status that was read last.
    status_post :
        (go_on : ℕ → Exec W Stop Verified) (tries : ℕ) (mode : Bool) (w1 : W) (o : Order)
        (status : OrderStatus)
        → mode ≡ should_success
        → GoesOn go_on
        → Polled w tries w1
        → (poll b order w1).0 ≡ ok (some (some o))
        → o.status ≡ status
        → let run = verify_status b go_on tries mode status (poll b order w1).1 in
          VerifyPost should_success w run.0 run.1
    status_post go_on tries mode w1 o waiting_for_payment m ih polled e st =
        ih _ _ (undecided polled (inr (o, e, st)))
    status_post go_on tries true w1 o OrderStatus.success m ih polled e st =
        rw⁻¹ m (tries, w1, o, polled, e, st, refl)
    status_post go_on tries true w1 o OrderStatus.failed m ih polled e st =
        rw⁻¹ m (tries, w1, o, polled, e, st, refl)
    status_post go_on tries false w1 o OrderStatus.success m ih polled e st =
        rw⁻¹ m (tries, w1, o, polled, e, st, refl)
    status_post go_on tries false w1 o OrderStatus.failed m ih polled e st =
        rw⁻¹ m (tries, w1, o, polled, e, st, refl)
    status_post go_on tries mode w1 o unlisted m ih polled e st = ih _ _ (skipped polled e st)

    order_post :
        (go_on : ℕ → Exec W Stop Verified) (tries : ℕ) (w1 : W) (found : Option (Option Order))
        → GoesOn go_on
        → Polled w tries w1
        → (poll b order w1).0 ≡ ok found
        → let run = verify_order b go_on tries should_success found (poll b order w1).1 in
          VerifyPost should_success w run.0 run.1
    order_post go_on tries w1 none ih polled e = ih _ _ (undecided polled (inl e))
    order_post go_on tries w1 (some none) ih polled e = tt
    order_post go_on tries w1 (some (some o)) ih polled e =
        status_post go_on tries should_success w1 o o.status refl ih polled e refl

    round_post :
        (go_on : ℕ → Exec W Stop Verified) (tries : ℕ) (more : Bool) (w1 : W)
        → GoesOn go_on
        → ltb tries 3 ≡ more
        → Polled w tries w1
        → let run = verify_round b go_on order should_success tries more w1 in
          VerifyPost should_success w run.0 run.1
    round_post go_on tries false w1 ih e polled = (tries, ltb_false→le _ _ e, polled)
    round_post go_on tries true w1 ih m polled =
        bind_post (VerifyPost should_success w) (poll b order)
          (verify_order b go_on tries should_success) w1
          (λ found e. order_post go_on tries w1 found ih polled e) (λ stop q. tt)

    verify_loop_post : (rounds : ℕ) → GoesOn (verify_loop b rounds order should_success)
    unfolding verify_loop
    verify_loop_post zero tries w1 polled =
        round_post (λ _. raise spinning) tries (ltb tries 3) w1 (λ t w2 p. tt) refl polled
    verify_loop_post (suc n) tries w1 polled =
        round_post (verify_loop b n order should_success) tries (ltb tries 3) w1
          (verify_loop_post n) refl polled

    pub verify_loop-VerifyPost :
        (rounds : ℕ)
        → let run = verify_loop b rounds order should_success 0 w in
          VerifyPost should_success w run.0 run.1
    verify_loop-VerifyPost rounds = verify_loop_post rounds 0 w no_poll

  -- From the first world to the second a number of requests for the tickets was not answered, with a
  -- pause after each.
  pub data Unissued (w : W) : ℕ → W → Type 0 where
    no_request : Unissued w 0 w
    one_request :
        {n : ℕ} {w1 : W}
        → Unissued w n w1
        → (get_issued_tickets b (order_key order) w1).0 ≡ ok none
        → Unissued w
            (n + 1)
            (pause b.kit (pos 5) (pos 15) (get_issued_tickets b (order_key order) w1).1)

  -- After such requests the tickets were read; their number is checked at the end.
  abbrev pub Issued : ℕ → W → W → Type 0
  Issued count w w' =
      (n : ℕ) × (w1 : W) × (tickets : Option (List IssuedTicket)) × Unissued w n w1
      × ((get_issued_tickets b (order_key order) w1).0 ≡ ok (some tickets))
      × (w'
          ≡ (run_check b.kit (count_test b count tickets ∷ [])
              (get_issued_tickets b (order_key order) w1).1).1)

  abbrev pub IssuePost : ℕ → ℕ → W → Outcome Stop Bool → W → Type 0
  IssuePost n count w (ok true) w' = Issued count w w'
  IssuePost n count w (ok false) w' = Unissued w n w'
  IssuePost n count w (throw e) w' = Unit {0}

  issued_post :
      (go_on : Exec W Stop Bool) (n count k : ℕ) (w w1 : W)
      (found : Option (Option (List IssuedTicket)))
      → Unissued w k w1
      → ((w2 : W) → Unissued w (k + 1) w2 → IssuePost n count w (go_on w2).0 (go_on w2).1)
      → (get_issued_tickets b (order_key order) w1).0 ≡ ok found
      → let run =
          issued_or_wait b go_on count found (get_issued_tickets b (order_key order) w1).1 in
        IssuePost n count w run.0 run.1
  issued_post go_on n count k w w1 none tried ih e = ih _ (one_request tried e)
  issued_post go_on n count k w w1 (some tickets) tried ih e =
      bind_post (IssuePost n count w) (run_check b.kit (count_test b count tickets ∷ []))
        (λ p. pure true) _ (λ p q. (k, w1, tickets, tried, e, refl)) (λ stop q. tt)

  issue_loop_post :
      (n count left k : ℕ) (w w1 : W)
      → n ≡ left + k
      → Unissued w k w1
      → let run = issue_loop b left order count w1 in IssuePost n count w run.0 run.1
  unfolding issue_loop
  issue_loop_post n count zero k w w1 e tried =
      subst (λ m. Unissued w m w1) (omega (arith, e)) tried
  issue_loop_post n count (suc left) k w w1 e tried =
      bind_post (IssuePost n count w) (get_issued_tickets b (order_key order))
        (issued_or_wait b (issue_loop b left order count) count) w1
        (λ found q.
          issued_post (issue_loop b left order count) n count k w w1 found tried
            (λ w2. issue_loop_post n count left (k + 1) w w2 (omega (arith, e))) q)
        (λ stop q. tt)

  pub issue_loop-IssuePost :
      (n count : ℕ) (w : W)
      → let run = issue_loop b n order count w in IssuePost n count w run.0 run.1
  issue_loop-IssuePost n count w = issue_loop_post n count n 0 w w (omega arith) no_request
