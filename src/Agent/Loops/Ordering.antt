-- ===== src/Agent/Loops/Ordering.antt =====
-- What the place order phase adds to the counter of end states.
use tugas_akhir.Common.{
  ℕ, zero, suc, ◌≡◌, ◌≢◌, ◌⊎◌, Bool, true, false, Option, none, some, [], ◌∷◌, Exec, Outcome, ok,
  throw, raise, inl, inr,
}
use tugas_akhir.Agent.Kit.{Stop, spinning}
use tugas_akhir.Agent.Types.{Order}
use tugas_akhir.Agent.Profile.{ProfileState}
use tugas_akhir.Agent.Backend.{Backend}
use tugas_akhir.Agent.Seats.{OrderItemSale}
use tugas_akhir.Agent.Items.{get_seat}
use tugas_akhir.Agent.Order.{place_order, PlaceOrderState, placed, bad_request, retry}
use tugas_akhir.Agent.Vu.Counter.{Adds, Adds-finish, world_step}
use tugas_akhir.Agent.Vu.{
  Vu, EndState, submit_metric, not_set, unknown, fail_seat_not_found, fail_order_bad_request,
}
use tugas_akhir.Agent.Loops.{
  Phase, returned, ordered, order_answer, no_items, order_items, order_round, order_loop,
  order_loop,
}

module _ {W J : Type 0} (b : Backend W J) (v0 : Vu W) where
  -- What the place order phase has added to the counter.
  abbrev pub PhasePost : Outcome Stop (Phase × ProfileState) → Vu W → Type 0
  PhasePost (ok (returned, s)) v = (e : EndState) × (e ≢ not_set) × Adds (e ∷ []) v0 v
  PhasePost (ok (ordered none, s)) v =
      (v.submitted ≡ v0.submitted) ⊎ Adds (fail_seat_not_found ∷ []) v0 v
  PhasePost (ok (ordered (some o), s)) v = v.submitted ≡ v0.submitted
  PhasePost (throw e) v = v.submitted ≡ v0.submitted

  abbrev GoesOn : (ProfileState → Exec (Vu W) Stop (Phase × ProfileState)) → Type 0
  GoesOn go_on =
      (state : ProfileState) (v : Vu W)
      → v.submitted ≡ v0.submitted
      → PhasePost (go_on state v).0 (go_on state v).1

  ordered_post :
      (o : Option Order) (state : ProfileState) (v : Vu W)
      → v.submitted ≡ v0.submitted
      → PhasePost (ok (ordered o, state)) v
  ordered_post none state v h = inl h
  ordered_post (some o) state v h = h

  order_answer_post :
      (go_on : ProfileState → Exec (Vu W) Stop (Phase × ProfileState)) (state : ProfileState)
      (answer : PlaceOrderState) (order : Option (Option Order)) (v : Vu W)
      → GoesOn go_on
      → v.submitted ≡ v0.submitted
      → PhasePost
          (order_answer b go_on state answer order v).0
          (order_answer b go_on state answer order v).1
  unfolding submit_metric
  order_answer_post go_on state bad_request order v ih h =
      (fail_order_bad_request, (λ e. cc e), Adds-finish _ v0 v h)
  order_answer_post go_on state retry order v ih h = ih _ _ h
  order_answer_post go_on state placed none v ih h = (unknown, (λ e. cc e), Adds-finish _ v0 v h)
  order_answer_post go_on state placed (some order) v ih h = ordered_post order state v h

  no_items_post :
      (go_on : ProfileState → Exec (Vu W) Stop (Phase × ProfileState)) (state : ProfileState)
      (over : Bool) (v : Vu W)
      → GoesOn go_on
      → v.submitted ≡ v0.submitted
      → PhasePost (no_items b go_on state over v).0 (no_items b go_on state over v).1
  unfolding submit_metric
  no_items_post go_on state true v ih h = inr (Adds-finish _ v0 v h)
  no_items_post go_on state false v ih h = ih _ _ h

  order_items_post :
      (rounds : ℕ) (go_on : ProfileState → Exec (Vu W) Stop (Phase × ProfileState))
      (items : Option OrderItemSale × ProfileState) (v : Vu W)
      → GoesOn go_on
      → v.submitted ≡ v0.submitted
      → PhasePost (order_items b rounds go_on items v).0 (order_items b rounds go_on items v).1
  order_items_post rounds go_on (none, state) v ih h = no_items_post go_on state _ v ih h
  order_items_post rounds go_on (some chosen, state) v ih h =
      world_step PhasePost v0 (place_order b rounds state chosen.items chosen.sale)
        (λ response. order_answer b go_on state response.state response.order) v h
        (λ response v1 h1. order_answer_post go_on state response.state response.order v1 ih h1)
        (λ e v1 h1. h1)

  order_round_post :
      (rounds : ℕ) (go_on : ProfileState → Exec (Vu W) Stop (Phase × ProfileState))
      (state : ProfileState) (more : Bool) (v : Vu W)
      → GoesOn go_on
      → v.submitted ≡ v0.submitted
      → PhasePost
          (order_round b rounds go_on state more v).0
          (order_round b rounds go_on state more v).1
  order_round_post rounds go_on state false v ih h = inl h
  order_round_post rounds go_on state true v ih h =
      world_step PhasePost v0 (get_seat b state) (order_items b rounds go_on) v h
        (λ items v1 h1. order_items_post rounds go_on items v1 ih h1) (λ e v1 h1. h1)

  pub order_loop_post :
      (rounds n : ℕ) (state : ProfileState) (v : Vu W)
      → v.submitted ≡ v0.submitted
      → PhasePost (order_loop b rounds n state v).0 (order_loop b rounds n state v).1
  unfolding order_loop
  order_loop_post rounds zero state v h =
      order_round_post rounds (λ _. raise spinning) state _ v (λ s v1 h1. h1) h
  order_loop_post rounds (suc n) state v h =
      order_round_post rounds (order_loop b rounds n) state _ v (order_loop_post rounds n) h
