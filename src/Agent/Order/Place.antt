-- ===== src/Agent/Order/Place.antt =====
-- The loop of placeOrder: which requests it sends, and what it makes of the answers.
use tugas_akhir.Common.{
  ℕ, zero, suc, ◌+◌, ◌<◌, ◌≤◌, ◌≡◌, ◌≢◌, ◌⊎◌, refl, Bool, true, false, some, List, Exec, Outcome,
  ok, raise, ltb, ltb→lt, ltb_false→le, inl, inr, arith,
}
use mathlib.Core.Path.{subst}
use tugas_akhir.Common.Int.{pos}
use tugas_akhir.Agent.Kit.{Stop, spinning, pause}
use tugas_akhir.Agent.Types.{TicketSale, OrderItemDto, PlaceOrderDto}
use tugas_akhir.Agent.Client.{Fields, Reply}
use tugas_akhir.Agent.Profile.{ProfileState}
use tugas_akhir.Agent.Backend.{Backend}
use tugas_akhir.Agent.Order.{
  PlaceOrderResponse, placed, bad_request, retry, without_order, Verdict, again, refused, taken,
  created, unheard, verdict, place_payload, place_request, place_answer, place_round, place_loop,
  idempotency, place_order,
}

-- A failure of the server, or of its deadline.
abbrev pub Failed : ℕ → Type 0
Failed status = (500 ≤ status) ⊎ (status ≡ 408)

-- The statuses that the loop has a branch for.
abbrev pub Handled : ℕ → Type 0
Handled status = Failed status ⊎ (status ≡ 400) ⊎ (status ≡ 409) ⊎ (status ≡ 200)

verdict-heard : (s : ℕ) → Handled s → verdict s ≢ unheard
unfolding verdict
verdict-heard s h = λ e. ground (arith, h, e)

again-Failed : (s : ℕ) → verdict s ≡ again → Failed s
unfolding verdict
again-Failed s h = ground arith

refused-400 : (s : ℕ) → verdict s ≡ refused → s ≡ 400
unfolding verdict
refused-400 s h = ground arith

taken-409 : (s : ℕ) → verdict s ≡ taken → s ≡ 409
unfolding verdict
taken-409 s h = ground arith

created-200 : (s : ℕ) → verdict s ≡ created → s ≡ 200
unfolding verdict
created-200 s h = ground arith

module _ {W J : Type 0} (b : Backend W J) (payload : PlaceOrderDto) (headers : Fields) where
  abbrev pub request : W → Reply J × W
  request = place_request b payload headers

  -- From the first world to the second a number of requests has failed, with a pause after each.
  pub data Attempts (w : W) : ℕ → W → Type 0 where
    no_attempt : Attempts w 0 w
    one_more :
        {n : ℕ} {w1 : W}
        → Attempts w n w1
        → Failed (request w1).0.response.status
        → Attempts w (n + 1) (pause b.kit (pos 3) (pos 10) (request w1).1)

  -- The result that an answer of the server gives.
  abbrev pub Answers : Reply J → PlaceOrderResponse → Type 0
  Answers reply r =
      ((reply.response.status ≡ 400) × (r ≡ without_order bad_request))
      ⊎ ((reply.response.status ≡ 409) × (r ≡ without_order retry))
      ⊎ ((reply.response.status ≡ 200)
          × (r ≡ record { state = placed; order = some (b.views.order reply.data_value) }))

  -- Up to two requests failed and the next one was answered, or three failed.
  abbrev pub Placed : W → PlaceOrderResponse → W → Type 0
  Placed w r w' =
      ((n : ℕ) × (w1 : W) × (n < 3)
        × Attempts w n w1
        × Answers (request w1).0 r
        × (w' ≡ (request w1).1))
      ⊎ (Attempts w 3 w' × (r ≡ without_order retry))

  abbrev pub Returns : W → Outcome Stop PlaceOrderResponse → W → Type 0
  Returns w o w' = (r : PlaceOrderResponse) × (o ≡ ok r) × Placed w r w'

  place_answer_post :
      (go_on : ℕ → Exec W Stop PlaceOrderResponse) (tries : ℕ) (w w1 : W) (v : Verdict)
      → tries < 3
      → Attempts w tries w1
      → ((w2 : W)
          → Attempts w (tries + 1) w2
          → Returns w (go_on (tries + 1) w2).0 (go_on (tries + 1) w2).1)
      → Handled (request w1).0.response.status
      → verdict (request w1).0.response.status ≡ v
      → let run = place_answer b go_on tries v (request w1).0 (request w1).1 in
        Returns w run.0 run.1
  place_answer_post go_on tries w w1 again lt a ih h e = ih _ (one_more a (again-Failed _ e))
  place_answer_post go_on tries w w1 refused lt a ih h e =
      (_, refl, inl (tries, w1, lt, a, inl (refused-400 _ e, refl), refl))
  place_answer_post go_on tries w w1 taken lt a ih h e =
      (_, refl, inl (tries, w1, lt, a, inr (inl (taken-409 _ e, refl)), refl))
  place_answer_post go_on tries w w1 created lt a ih h e =
      (_, refl, inl (tries, w1, lt, a, inr (inr (created-200 _ e, refl)), refl))
  place_answer_post go_on tries w w1 unheard lt a ih h e = absurd (verdict-heard _ h e)

  place_round_post :
      (go_on : ℕ → Exec W Stop PlaceOrderResponse) (tries : ℕ) (w w1 : W) (more : Bool)
      → tries ≤ 3
      → ltb tries 3 ≡ more
      → Attempts w tries w1
      → (tries < 3
          → (w2 : W) → Attempts w (tries + 1) w2
          → Returns w (go_on (tries + 1) w2).0 (go_on (tries + 1) w2).1)
      → Handled (request w1).0.response.status
      → let run = place_round b go_on payload headers tries more w1 in Returns w run.0 run.1
  place_round_post go_on tries w w1 false le e a ih h =
      (_, refl, inr (subst (λ n. Attempts w n w1) (omega (arith, le, ltb_false→le _ _ e)) a, refl))
  place_round_post go_on tries w w1 true le e a ih h =
      place_answer_post go_on tries w w1 _ (ltb→lt _ _ e) a (ih (ltb→lt _ _ e)) h refl

  place_loop_post :
      (rounds tries : ℕ) (w w1 : W)
      → 3 ≤ rounds + tries
      → tries ≤ 3
      → Attempts w tries w1
      → ((w2 : W) → Handled (request w2).0.response.status)
      → let run = place_loop b rounds payload headers tries w1 in Returns w run.0 run.1
  unfolding place_loop
  place_loop_post zero tries w w1 enough le a h =
      place_round_post (λ _. raise spinning) tries w w1 _ le refl a
        (λ lt w2 _. absurd (omega (arith, enough, lt))) (h w1)
  place_loop_post (suc rounds) tries w w1 enough le a h =
      place_round_post (place_loop b rounds payload headers) tries w w1 _ le refl a
        (λ lt w2 a2.
          place_loop_post rounds (tries + 1) w w2 (omega (arith, enough)) (omega (arith, lt)) a2 h)
        (h w1)

module _ {W J : Type 0} (b : Backend W J) where
  -- Where the server answers with a status that the loop has a branch for, three rounds are enough
  -- for placeOrder: it returns. Each of its requests, three at most, carries the same order and the
  -- same idempotency key. The answer 400 gives Bad Request, 409 and a third failure give Retry, and
  -- 200 gives Ok with the order of the answer; no other answer ends it.
  pub place_order-Returns :
      (rounds : ℕ) (state : ProfileState) (items : List OrderItemDto) (sale : TicketSale) (w : W)
      (payload : PlaceOrderDto)
      → 3 ≤ rounds
      → place_payload state.sale_selection items sale ≡ some payload
      → ((w1 : W) → Handled (request b payload (idempotency (b.kit.uuid w).0) w1).0.response.status)
      → Returns b payload
          (idempotency (b.kit.uuid w).0)
          (b.kit.uuid w).1
          (place_order b rounds state items sale w).0
          (place_order b rounds state items sale w).1
  unfolding place_order
  place_order-Returns rounds state items sale w payload enough e h = rw e (
      place_loop_post b payload (idempotency (b.kit.uuid w).0) rounds 0 (b.kit.uuid w).1
        (b.kit.uuid w).1 (omega (arith, enough)) (omega arith) no_attempt h)
