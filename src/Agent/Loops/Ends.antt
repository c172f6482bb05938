-- ===== src/Agent/Loops/Ends.antt =====
-- The loops of an iteration that have no bound of their own: when they end.
use mathlib.Core.Path.{subst}
use tugas_akhir.Common.{
  ℕ, zero, suc, ◌+◌, ◌≤◌, ◌≡◌, refl, sym, ap, Bool, true, false, Option, none, some, List, Exec,
  Outcome, ok, raise, ltb, le→leb, ltb→lt, Option-cases, inl, inr, arith, bind_post,
}
use tugas_akhir.Agent.Kit.{Stop, spinning}
use tugas_akhir.Agent.Types.{TicketSale, OrderItemDto, PlaceOrderDto, Order}
use tugas_akhir.Agent.Client.{Fields}
use tugas_akhir.Agent.Profile.{ProfileState}
use tugas_akhir.Agent.Backend.{Backend}
use tugas_akhir.Agent.Seats.{OrderItemSale}
use tugas_akhir.Agent.Browse.Calm.{Ends, Ends-ok, Ends-exception, Ends-bind}
use tugas_akhir.Agent.Browse.Exhausts.{Exhausts, ShowsSeats}
use tugas_akhir.Agent.Items.{get_seat}
use tugas_akhir.Agent.Items.Complete.{ItemsPost, get_seat-ItemsPost}
use tugas_akhir.Agent.Items.Exhausts.{get_seat-Exhausts}
use tugas_akhir.Agent.Order.{
  PlaceOrderState, placed, bad_request, retry, place_payload, place_order,
}
use tugas_akhir.Agent.Order.Place.{Handled, request, place_order-Returns}
use tugas_akhir.Agent.Vu.{Vu, on_world, submit_metric}
use tugas_akhir.Agent.Loops.{
  Phase, order_answer, no_items, order_items, order_round, order_loop, verify_loop,
}
use tugas_akhir.Agent.Loops.Verify.{IsListed, poll, verify_loop-Verifies}

-- The ticket backend answers an order with a status that placeOrder has a branch for; a poll of an
-- order gives null or an order of a listed status; and a request for seats does not give null.
pub record Responds {W J : Type 0} (b : Backend W J) : Type 0 where
  pub orders :
      (payload : PlaceOrderDto) (headers : Fields) (w : W)
      → Handled (request b payload headers w).0.response.status
  pub polls : (order : Order) (w : W) → IsListed b order (poll b order w).0
  pub seats : ShowsSeats b

ok-Ends : {A : Type 0} (r : Outcome Stop A) (a : A) → r ≡ ok a → Ends r
ok-Ends r a e = subst Ends (sym e) (Ends-ok a)

module _ {W J : Type 0} (b : Backend W J) (responds : Responds b) (rounds : ℕ)
    (enough : 3 ≤ rounds) where
  place_order-Ends :
      (state : ProfileState) (items : List OrderItemDto) (sale : TicketSale) (w : W)
      → Ends (place_order b rounds state items sale w).0
  unfolding place_order
  place_order-Ends state items sale w =
      elim (Option-cases (place_payload state.sale_selection items sale)) [
        | inl e ↦ rw e (Ends-exception _)
        | inr (payload, e) ↦
            let (r, q, post) =
              place_order-Returns b rounds state items sale w payload enough e
                (responds.orders payload _) in
            ok-Ends _ r q
      ]

  pub verify_loop-Ends :
      (order : Order) (should_success : Bool) (w : W)
      → Ends (verify_loop b rounds order should_success 0 w).0
  verify_loop-Ends order s w =
      let (v, q, post) = verify_loop-Verifies b order rounds s w enough (responds.polls order) in
      ok-Ends _ v q

  -- The rounds `n` are enough for a loop, where as many order attempts are left at most.
  abbrev EndsIn : ℕ → (ProfileState → Exec (Vu W) Stop (Phase × ProfileState)) → Type 0
  EndsIn n go_on =
      (state : ProfileState) (v : Vu W)
      → state.max_order_attempt ≤ state.current_order_attempt + n
      → Ends (go_on state v).0

  order_answer-Ends :
      (n : ℕ) (go_on : ProfileState → Exec (Vu W) Stop (Phase × ProfileState))
      (state : ProfileState) (answer : PlaceOrderState) (order : Option (Option Order)) (v : Vu W)
      → EndsIn n go_on
      → state.max_order_attempt ≤ state.current_order_attempt + suc n
      → Ends (order_answer b go_on state answer order v).0
  unfolding submit_metric
  order_answer-Ends n go_on state bad_request order v ih h = Ends-ok _
  order_answer-Ends n go_on state retry order v ih h = ih _ _ (omega (arith, h))
  order_answer-Ends n go_on state placed none v ih h = Ends-ok _
  order_answer-Ends n go_on state placed (some order) v ih h = Ends-ok _

  no_items-Ends :
      (go_on : ProfileState → Exec (Vu W) Stop (Phase × ProfileState)) (state : ProfileState)
      (over : Bool) (v : Vu W)
      → over ≡ true
      → Ends (no_items b go_on state over v).0
  unfolding submit_metric
  no_items-Ends go_on state true v e = Ends-ok _
  no_items-Ends go_on state false v e = cc e

  order_items-Ends :
      (n : ℕ) (go_on : ProfileState → Exec (Vu W) Stop (Phase × ProfileState))
      (state : ProfileState) (items : Option OrderItemSale × ProfileState) (v : Vu W)
      → EndsIn n go_on
      → state.max_order_attempt ≤ state.current_order_attempt + suc n
      → ItemsPost state (ok items)
      → Exhausts (ok items)
      → Ends (order_items b rounds go_on items v).0
  order_items-Ends n go_on state (none, t) v ih h post over =
      no_items-Ends go_on t _ v (le→leb _ _ over)
  order_items-Ends n go_on state (some chosen, t) v ih h post over =
      Ends-bind (λ response. order_answer b go_on t response.state response.order)
        (place_order b rounds t chosen.items chosen.sale v.world).0 _
        (place_order-Ends t chosen.items chosen.sale v.world)
        (λ response. order_answer-Ends n go_on t response.state response.order _ ih left)
    where
      left : t.max_order_attempt ≤ t.current_order_attempt + suc n
      left = omega (
        arith,
        h,
        ap (λ (u : ProfileState). u.max_order_attempt) post.0.0,
        ap (λ (u : ProfileState). u.current_order_attempt) post.0.0,
      )

  order_round-Ends :
      (n : ℕ) (go_on : ProfileState → Exec (Vu W) Stop (Phase × ProfileState))
      (state : ProfileState) (more : Bool) (v : Vu W)
      → EndsIn n go_on
      → state.max_order_attempt ≤ state.current_order_attempt + suc n
      → Ends (order_round b rounds go_on state more v).0
  order_round-Ends n go_on state false v ih h = Ends-ok _
  order_round-Ends n go_on state true v ih h =
      let post = get_seat-ItemsPost b state v.world in
      let over = get_seat-Exhausts b responds.seats state v.world in
      bind_post (λ r _. Ends r) (on_world (get_seat b state)) (order_items b rounds go_on) v
        (λ items q.
          order_items-Ends n go_on state items _ ih h (subst (ItemsPost state) q post)
            (subst Exhausts q over))
        (λ e q. record { not_spinning = λ s. subst (ItemsPost state) q post (cc s) })

  order_stop-Ends :
      (state : ProfileState) (more : Bool) (v : Vu W)
      → state.max_order_attempt ≤ state.current_order_attempt
      → ltb state.current_order_attempt state.max_order_attempt ≡ more
      → Ends (order_round b rounds (λ _. raise spinning) state more v).0
  order_stop-Ends state false v h e = Ends-ok _
  order_stop-Ends state true v h e = absurd (omega (arith, h, ltb→lt _ _ e))

  -- As many rounds as order attempts are left are enough for the place order phase.
  pub order_loop-Ends :
      (n : ℕ) (state : ProfileState) (v : Vu W)
      → state.max_order_attempt ≤ state.current_order_attempt + n
      → Ends (order_loop b rounds n state v).0
  unfolding order_loop
  order_loop-Ends zero state v h = order_stop-Ends state _ v (omega (arith, h)) refl
  order_loop-Ends (suc n) state v h =
      order_round-Ends n (order_loop b rounds n) state _ v (order_loop-Ends n) h
