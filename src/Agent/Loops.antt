-- ===== src/Agent/Loops.antt =====
-- implementation/agent/src/tests/ticket.ts: the loops of an iteration, which look for the event, place
-- the order, pay it, verify it and fetch the tickets. A loop without a bound is given a number of
-- rounds; `spinning` says that these were not enough.
pub mod Verify
pub mod Calm
pub mod Ends
pub mod Ordering
pub mod Evidence
use Prim.Native.String
use tugas_akhir.Common.{
  ℕ, zero, suc, ◌+◌, ◌*◌, Bool, true, false, String, Option, none, some, List, [], ◌∷◌, length,
  Exec, Outcome, ok, throw, pure, raise, ◌>>=◌, ◌>>◌, ltb, leb, ◌==◌,
}
use tugas_akhir.Common.Int.{pos}
use tugas_akhir.Common.Text.{show}
use tugas_akhir.Agent.Kit.{Kit, Stop, exception, spinning, run_check, denominator}
use tugas_akhir.Agent.Types.{Event, OrderStatus, waiting_for_payment, unlisted, Order, IssuedTicket}
use tugas_akhir.Agent.Client.{HttpRequest, HttpResponse, no_params, new_client}
use tugas_akhir.Agent.Profile.Table.{UserProfile}
use tugas_akhir.Agent.Profile.{ProfileState, FallbackType, get_user_profile, get_profile_state}
use tugas_akhir.Agent.Vu.{
  Vu, end_text, on_world, set_tag, submit_metric, finish, tier_text, day_text, quantity_text,
  persistence_text, fallback_text, bool_text, success_purchased, success_payment_failed_expected,
  fail_event_not_found, fail_seat_not_found, fail_order_bad_request, fail_order_attempts_exceeded,
  fail_payment_system_error, fail_order_verification, fail_ticket_issuance,
  error_unexpected_order_state, not_set, unknown,
}
use tugas_akhir.Agent.Jwt.{Crypto, forge_jwt}
use tugas_akhir.Agent.Backend.{Views, Backend, read}
use tugas_akhir.Agent.Seats.{OrderItemSale, act, wait}
use tugas_akhir.Agent.Items.{get_seat}
use tugas_akhir.Agent.Order.{
  PlaceOrderState, placed, bad_request, retry, get_event, place_order, pay_order, get_order,
  get_issued_tickets,
}

-- How the place order phase ends: by the `return` of the iteration, or with an order or without.
pub data Phase : Type 0 where
  returned : Phase
  ordered : Option Order → Phase

-- `${order.id}-${order.ticketAreaId}`
abbrev pub order_key : Order → String
order_key order = String.◌++◌ (show order.id) (String.◌++◌ "-" (show order.ticket_area_id))

-- How the loop that verifies the order ends; `unexpected` is a `return` of the iteration.
pub data Verified : Type 0 where
  confirmed unexpected unverified : Verified

module _ {W J : Type 0} (b : Backend W J) where
  abbrev event_or_wait : Exec W Stop (Option Event) → Option Event → Exec W Stop (Option Event)
  event_or_wait go_on (some event) = pure (some event)
  event_or_wait go_on none = do wait b (pos 4) (pos 8); go_on

  unfoldable pub find_event : ℕ → Exec W Stop (Option Event)
  find_event zero = pure none
  find_event (suc n) = do event ← get_event b; event_or_wait (find_event n) event

  abbrev pub order_answer :
      (ProfileState → Exec (Vu W) Stop (Phase × ProfileState))
      → ProfileState
      → PlaceOrderState
      → Option (Option Order)
      → Exec (Vu W) Stop (Phase × ProfileState)
  order_answer go_on state bad_request order = do
    finish fail_order_bad_request
    pure (returned, state)
  order_answer go_on state retry order = do
    on_world (wait b (pos 3) (pos 8))
    go_on (record state { current_order_attempt = state.current_order_attempt + 1 })
  order_answer go_on state placed none = do finish unknown; pure (returned, state)
  order_answer go_on state placed (some order) = pure (ordered order, state)

  abbrev pub no_items :
      (ProfileState → Exec (Vu W) Stop (Phase × ProfileState))
      → ProfileState
      → Bool
      → Exec (Vu W) Stop (Phase × ProfileState)
  no_items go_on state true = do finish fail_seat_not_found; pure (ordered none, state)
  no_items go_on state false = do on_world (wait b (pos 2) (pos 8)); go_on state

  abbrev pub order_items :
      ℕ
      → (ProfileState → Exec (Vu W) Stop (Phase × ProfileState))
      → Option OrderItemSale × ProfileState
      → Exec (Vu W) Stop (Phase × ProfileState)
  order_items rounds go_on (none, state) =
      no_items go_on state (leb state.max_browse_attempt state.current_browse_attempt)
  order_items rounds go_on (some chosen, state) = do
    response ← on_world (place_order b rounds state chosen.items chosen.sale)
    order_answer go_on state response.state response.order

  -- One round of the place order phase, by the condition of its loop.
  abbrev pub order_round :
      ℕ
      → (ProfileState → Exec (Vu W) Stop (Phase × ProfileState))
      → ProfileState
      → Bool
      → Exec (Vu W) Stop (Phase × ProfileState)
  order_round rounds go_on state false = pure (ordered none, state)
  order_round rounds go_on state true = do
    items ← on_world (get_seat b state)
    order_items rounds go_on items

  unfoldable pub order_loop : ℕ → ℕ → ProfileState → Exec (Vu W) Stop (Phase × ProfileState)
  order_loop rounds zero state =
      order_round rounds (λ _. raise spinning) state
        (ltb state.current_order_attempt state.max_order_attempt)
  order_loop rounds (suc n) state =
      order_round rounds (order_loop rounds n) state
        (ltb state.current_order_attempt state.max_order_attempt)

  abbrev pub paid_or_wait : Exec W Stop Bool → Option J → Exec W Stop Bool
  paid_or_wait go_on (some paid_invoice) = pure true
  paid_or_wait go_on none = do wait b (pos 2) (pos 6); go_on

  -- The payment loop, for the tries that are left.
  unfoldable pub pay_loop : ℕ → Order → Bool → Exec W Stop Bool
  pay_loop zero order should_success = pure false
  pay_loop (suc n) order should_success = do
    invoice ← pay_order b order should_success
    paid_or_wait (pay_loop n order should_success) invoice

  abbrev pub verify_status :
      (ℕ → Exec W Stop Verified) → ℕ → Bool → OrderStatus → Exec W Stop Verified
  verify_status go_on tries should_success waiting_for_payment = do
    wait b (pos 5) (pos 15)
    go_on (tries + 1)
  verify_status go_on tries true OrderStatus.success = pure confirmed
  verify_status go_on tries true OrderStatus.failed = pure unexpected
  verify_status go_on tries false OrderStatus.success = pure unexpected
  verify_status go_on tries false OrderStatus.failed = pure confirmed
  verify_status go_on tries should_success unlisted = go_on tries

  abbrev pub verify_order :
      (ℕ → Exec W Stop Verified) → ℕ → Bool → Option (Option Order) → Exec W Stop Verified
  verify_order go_on tries should_success none = do wait b (pos 5) (pos 15); go_on (tries + 1)
  verify_order go_on tries should_success (some order) = do
    found ← read order
    verify_status go_on tries should_success found.status

  -- One round of the loop that verifies the order, by its condition.
  abbrev pub verify_round :
      (ℕ → Exec W Stop Verified) → Order → Bool → ℕ → Bool → Exec W Stop Verified
  verify_round go_on order should_success tries false = pure unverified
  verify_round go_on order should_success tries true = do
    found ← get_order b (order_key order)
    verify_order go_on tries should_success found

  unfoldable pub verify_loop : ℕ → Order → Bool → ℕ → Exec W Stop Verified
  verify_loop zero order should_success tries =
      verify_round (λ _. raise spinning) order should_success tries (ltb tries 3)
  verify_loop (suc n) order should_success tries =
      verify_round (verify_loop n order should_success) order should_success tries (ltb tries 3)

  abbrev count_test : ℕ → Option (List IssuedTicket) → Option Bool
  count_test count none = none
  count_test count (some tickets) = some (length tickets == count)

  abbrev issued_or_wait :
      Exec W Stop Bool → ℕ → Option (Option (List IssuedTicket)) → Exec W Stop Bool
  issued_or_wait go_on count none = do wait b (pos 5) (pos 15); go_on
  issued_or_wait go_on count (some tickets) = do
    published ← run_check b.kit (count_test count tickets ∷ [])
    pure true

  -- The loop that fetches the issued tickets, for the tries that are left.
  unfoldable pub issue_loop : ℕ → Order → ℕ → Exec W Stop Bool
  issue_loop zero order count = pure false
  issue_loop (suc n) order count = do
    tickets ← get_issued_tickets b (order_key order)
    issued_or_wait (issue_loop n order count) count tickets
