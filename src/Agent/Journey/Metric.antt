-- ===== src/Agent/Journey/Metric.antt =====
-- What an iteration of a virtual user adds to the counter of end states.
use mathlib.Core.Path.{subst}
use tugas_akhir.Common.{
  ℕ, ◌≡◌, ◌≢◌, ◌⊎◌, refl, Bool, String, Option, none, some, [], ◌∷◌, Outcome, ok, throw, ◌>>=◌, inl,
  inr, bind_post,
}
use tugas_akhir.Agent.Kit.{Kit, Stop, exception, spinning}
use tugas_akhir.Agent.Types.{Event, Order}
use tugas_akhir.Agent.Client.{HttpRequest, HttpResponse}
use tugas_akhir.Agent.Profile.Table.{UserProfile}
use tugas_akhir.Agent.Profile.{ProfileState, get_profile_state}
use tugas_akhir.Agent.Backend.{Views, Backend}
use tugas_akhir.Agent.Seats.{act, wait}
use tugas_akhir.Common.Int.{pos}
use tugas_akhir.Agent.Vu.Counter.{Adds, Adds-trans, Adds-finish, world_step}
use tugas_akhir.Agent.Vu.{
  Vu, EndState, submit_metric, finish, not_set, unknown, fail_event_not_found, fail_seat_not_found,
  fail_order_attempts_exceeded,
}
use tugas_akhir.Agent.Jwt.{Crypto}
use tugas_akhir.Agent.Loops.{Phase, returned, ordered, order_loop, order_loop, find_event}
use tugas_akhir.Agent.Loops.Ordering.{PhasePost, order_loop_post}
use tugas_akhir.Agent.Journey.Evidence.{EndEvidence, PhaseEvidence, pay_phase-evidence}
use tugas_akhir.Agent.Journey.{
  after_order, draw_success, draw_token, draw_profile, pay_phase, order_phase, with_event, visit,
  backend_of, attempt, caught, started, test,
}

module _ {W : Type 0} (v0 : Vu W) where
  -- What the iteration has added to the counter at its end, or when it throws.
  abbrev VisitPost : Outcome Stop (Unit {0}) → Vu W → Type 0
  VisitPost (ok u) v =
      ((e : EndState) × (e ≢ not_set) × Adds (e ∷ []) v0 v)
      ⊎ Adds (fail_seat_not_found ∷ fail_order_attempts_exceeded ∷ []) v0 v
  VisitPost (throw e) v = v.submitted ≡ v0.submitted

  finish_post :
      (e : EndState) (v : Vu W)
      → e ≢ not_set
      → v.submitted ≡ v0.submitted
      → VisitPost (finish e v).0 (finish e v).1
  unfolding submit_metric
  finish_post e v ne h = inl (e, ne, Adds-finish e v0 v h)

module _ {W J : Type 0} (b : Backend W J) (v0 : Vu W) where
  named :
      (order : Order) (count : ℕ) (should_success : Bool) (w w' : W) (e : EndState)
      → EndEvidence b order count should_success w w' e
      → e ≢ not_set
  named order count s w w' e h q = subst (EndEvidence b order count s w w') q h

  phase_named :
      (order : Order) (count : ℕ) (should_success : Bool) (w : W) (r : Outcome Stop (Unit {0}))
      (v : Vu W)
      → PhaseEvidence b order count v0 w should_success r v
      → VisitPost v0 r v
  phase_named order count s w (ok u) v (e, h, a) = inl (e, named order count s w v.world e h, a)
  phase_named order count s w (throw e) v h = h

  after_order_post :
      (rounds : ℕ) (phase : Phase) (state : ProfileState) (v : Vu W)
      → PhasePost b v0 (ok (phase, state)) v
      → VisitPost v0
          (after_order b rounds (phase, state) v).0
          (after_order b rounds (phase, state) v).1
  unfolding submit_metric
  after_order_post rounds returned state v h = inl h
  after_order_post rounds (ordered none) state v (inl h) =
      finish_post v0 fail_order_attempts_exceeded v (λ e. cc e) h
  after_order_post rounds (ordered none) state v (inr a) =
      inr (Adds-trans _ _ v0 v _ a (Adds-finish fail_order_attempts_exceeded v v refl))
  after_order_post rounds (ordered (some order)) state v h =
      world_step (VisitPost v0) v0 (act b (draw_success b))
        (pay_phase b rounds order state.ticket_count) v h
        (λ should_success v1 h1.
          phase_named order state.ticket_count should_success v1.world _ _
            (pay_phase-evidence b order state.ticket_count v0 rounds should_success v1 h1))
        (λ e v1 h1. h1)

  order_post :
      (rounds : ℕ) (state : ProfileState) (v : Vu W)
      → v.submitted ≡ v0.submitted
      → VisitPost v0
          ((order_loop b rounds rounds state >>= after_order b rounds) v).0
          ((order_loop b rounds rounds state >>= after_order b rounds) v).1
  order_post rounds state v h =
      let post = order_loop_post b v0 rounds rounds state v h in
      bind_post (VisitPost v0) (order_loop b rounds rounds state) (after_order b rounds) v
        (λ r q.
          after_order_post rounds r.0 r.1 _
            (subst (λ o. PhasePost b v0 o (order_loop b rounds rounds state v).1) q post))
        (λ e q. subst (λ o. PhasePost b v0 o (order_loop b rounds rounds state v).1) q post)

  with_event_post :
      (rounds : ℕ) (profile : UserProfile) (event : Option Event) (v : Vu W)
      → v.submitted ≡ v0.submitted
      → VisitPost v0 (with_event b rounds profile event v).0 (with_event b rounds profile event v).1
  unfolding submit_metric
  with_event_post rounds profile none v h =
      finish_post v0 fail_event_not_found (record v { world = (wait b (pos 8) (pos 12) v.world).1 })
        (λ e. cc e) h
  with_event_post rounds profile (some event) v h =
      world_step (VisitPost v0) v0 (act b (get_profile_state b.kit profile event))
        (order_phase b rounds profile) v h (λ state v1 h1. order_post rounds state _ h1)
        (λ e v1 h1. h1)

  visit_post :
      (rounds : ℕ) (profile : UserProfile) (v : Vu W)
      → v.submitted ≡ v0.submitted
      → VisitPost v0 (visit b rounds profile v).0 (visit b rounds profile v).1
  unfolding visit
  visit_post rounds profile v h =
      world_step (VisitPost v0) v0 (find_event b 3) (with_event b rounds profile) v h
        (λ event v1 h1. with_event_post rounds profile event v1 h1) (λ e v1 h1. h1)

module _ {W J : Type 0} (kit : Kit W) (crypto : Crypto W) (to_url : String → String)
    (http : HttpRequest → W → HttpResponse J × W) (views : Views J) where
  attempt_post :
      (rounds : ℕ) (v0 v : Vu W)
      → v.submitted ≡ v0.submitted
      → VisitPost v0
          (attempt kit crypto to_url http views rounds v).0
          (attempt kit crypto to_url http views rounds v).1
  unfolding attempt
  attempt_post rounds v0 v h =
      world_step (VisitPost v0) v0 (draw_token kit crypto to_url http views) _ v h
        (λ token v1 h1.
          world_step (VisitPost v0) v0 (draw_profile kit crypto to_url http views)
            (λ profile. visit (backend_of kit crypto to_url http views token) rounds profile) v1 h1
            (λ profile v2 h2.
              visit_post (backend_of kit crypto to_url http views token) v0 rounds profile v2 h2)
            (λ e v2 h2. h2))
        (λ e v1 h1. h1)

  -- What an iteration has added to the counter, or it is still in a loop and has added nothing.
  abbrev pub TestPost : Vu W → Outcome Stop (Unit {0}) → Vu W → Type 0
  TestPost v0 (ok u) v =
      ((e : EndState) × (e ≢ not_set) × Adds (e ∷ []) v0 v)
      ⊎ Adds (fail_seat_not_found ∷ fail_order_attempts_exceeded ∷ []) v0 v
  TestPost v0 (throw e) v = (e ≡ spinning) × (v.submitted ≡ v0.submitted)

  caught_post :
      (v0 v : Vu W) (r : Outcome Stop (Unit {0}))
      → VisitPost v0 r v
      → TestPost v0
          (caught kit crypto to_url http views (r, v)).0
          (caught kit crypto to_url http views (r, v)).1
  unfolding submit_metric
  caught_post v0 v (ok u) h = h
  caught_post v0 v (throw spinning) h = (refl, h)
  caught_post v0 v (throw (exception e)) h = finish_post v0 unknown v (λ q. cc q) h

  -- An iteration that ends, also by an exception, has submitted the metric once, with one of the end
  -- states other than NOT_SET as the tag `state`; or it has submitted it twice, first with
  -- FAIL_SEAT_NOT_FOUND and then with FAIL_ORDER_ATTEMPTS_EXCEEDED. No exception leaves it.
  pub test_post :
      (rounds : ℕ) (v : Vu W)
      → TestPost v
          (test kit crypto to_url http views rounds v).0
          (test kit crypto to_url http views rounds v).1
  unfolding test
  test_post rounds v =
      caught_post v _ _ (attempt_post rounds v (started kit crypto to_url http views v) refl)
