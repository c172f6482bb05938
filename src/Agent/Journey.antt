-- ===== src/Agent/Journey.antt =====
-- implementation/agent/src/tests/ticket.ts: one iteration of a virtual user, from the choice of a
-- profile to the tickets. The loops are given a number of rounds; `spinning` says that these were
-- not enough.
pub mod Metric
pub mod Ends
pub mod Evidence
use Prim.Native.String
use tugas_akhir.Common.{
  ℕ, zero, suc, ◌+◌, ◌*◌, Bool, true, false, String, Option, none, some, List, [], ◌∷◌, length,
  Exec, Outcome, ok, throw, pure, raise, ◌>>=◌, ◌>>◌, ltb, leb, ◌==◌,
}
use tugas_akhir.Common.Int.{pos}
use tugas_akhir.Common.Text.{show}
use tugas_akhir.Agent.Kit.{Kit, Stop, exception, spinning, run_check, denominator}
use tugas_akhir.Agent.Types.{Event, OrderStatus, waiting_for_payment, unlisted, Order, IssuedTicket}
use tugas_akhir.Agent.Client.{HttpRequest, HttpResponse, no_params, new_client}
use tugas_akhir.Agent.Profile.Table.{UserProfile}
use tugas_akhir.Agent.Profile.{ProfileState, FallbackType, get_user_profile, get_profile_state}
use tugas_akhir.Agent.Vu.{
  Vu, end_text, on_world, set_tag, submit_metric, finish, tier_text, day_text, quantity_text,
  persistence_text, fallback_text, bool_text, success_purchased, success_payment_failed_expected,
  fail_event_not_found, fail_seat_not_found, fail_order_bad_request, fail_order_attempts_exceeded,
  fail_payment_system_error, fail_order_verification, fail_ticket_issuance,
  error_unexpected_order_state, not_set, unknown,
}
use tugas_akhir.Agent.Jwt.{Crypto, forge_jwt}
use tugas_akhir.Agent.Backend.{Views, Backend, read}
use tugas_akhir.Agent.Seats.{OrderItemSale, act, wait}
use tugas_akhir.Agent.Items.{get_seat}
use tugas_akhir.Agent.Order.{
  PlaceOrderState, placed, bad_request, retry, get_event, place_order, pay_order, get_order,
  get_issued_tickets,
}
use tugas_akhir.Agent.Loops.{
  Phase, returned, ordered, Verified, confirmed, unexpected, unverified, order_key, find_event,
  order_answer, no_items, order_items, order_round, order_loop, pay_loop, verify_status,
  verify_order, verify_round, verify_loop, issue_loop,
}

module _ {W J : Type 0} (b : Backend W J) where
  -- From the tickets to the end.
  abbrev pub after_issue : Bool → Exec (Vu W) Stop (Unit {0})
  after_issue true = finish success_purchased
  after_issue false = finish fail_ticket_issuance

  abbrev after_verify : Verified → Order → ℕ → Bool → Exec (Vu W) Stop (Unit {0})
  after_verify unexpected order count should_success = finish error_unexpected_order_state
  after_verify unverified order count should_success = finish fail_order_verification
  after_verify confirmed order count false = finish success_payment_failed_expected
  after_verify confirmed order count true = do
    issued ← on_world (issue_loop b 3 order count)
    after_issue issued

  abbrev after_payment : ℕ → Bool → Order → ℕ → Bool → Exec (Vu W) Stop (Unit {0})
  after_payment rounds false order count should_success = finish fail_payment_system_error
  after_payment rounds true order count should_success = do
    on_world (wait b (pos 5) (pos 15))
    verified ← on_world (verify_loop b rounds order should_success 0)
    after_verify verified order count should_success

  -- `Math.random() <= 0.95`
  abbrev draw_success : W → Bool × W
  draw_success w = (leb ((b.kit.random w).0 * 100) (95 * denominator), (b.kit.random w).1)

  -- From the payment of an order on.
  abbrev pub pay_phase : ℕ → Order → ℕ → Bool → Exec (Vu W) Stop (Unit {0})
  pay_phase rounds order count should_success = do
    set_tag "profile_payment_success" (bool_text should_success)
    on_world (wait b (pos 4) (pos 8))
    paid ← on_world (pay_loop b 3 order should_success)
    after_payment rounds paid order count should_success

  abbrev after_order : ℕ → Phase × ProfileState → Exec (Vu W) Stop (Unit {0})
  after_order rounds (returned, state) = pure tt
  after_order rounds (ordered none, state) = finish fail_order_attempts_exceeded
  after_order rounds (ordered (some order), state) = do
    should_success ← on_world (act b draw_success)
    pay_phase rounds order state.ticket_count should_success

  abbrev tag_profile : UserProfile → FallbackType → Exec (Vu W) Stop (Unit {0})
  tag_profile profile fallback = do
    set_tag "profile_tier" (tier_text profile.seating_tier)
    set_tag "profile_day_preference" (day_text profile.day_preference)
    set_tag "profile_quantity" (quantity_text profile.quantity)
    set_tag "profile_persistence" (persistence_text profile.persistence)
    set_tag "profile_fallback_type" (fallback_text fallback)

  -- From the state of the profile on.
  abbrev order_phase : ℕ → UserProfile → ProfileState → Exec (Vu W) Stop (Unit {0})
  order_phase rounds profile state = do
    tag_profile profile state.fallback_type
    phase ← order_loop b rounds rounds state
    after_order rounds phase

  abbrev with_event : ℕ → UserProfile → Option Event → Exec (Vu W) Stop (Unit {0})
  with_event rounds profile none = do
    set_tag "state" (end_text fail_event_not_found)
    on_world (wait b (pos 8) (pos 12))
    submit_metric
  with_event rounds profile (some event) = do
    state ← on_world (act b (get_profile_state b.kit profile event))
    order_phase rounds profile state

  -- From the search for the event on, once the clients are there.
  unfoldable pub visit : ℕ → UserProfile → Exec (Vu W) Stop (Unit {0})
  unfolding find_event order_loop pay_loop verify_loop issue_loop
  visit rounds profile = do event ← on_world (find_event b 3); with_event rounds profile event

module _ {W J : Type 0} (kit : Kit W) (crypto : Crypto W) (to_url : String → String)
    (http : HttpRequest → W → HttpResponse J × W) (views : Views J) where
  abbrev pub backend_of : String → Backend W J
  backend_of token = record {
    kit = kit;
    to_url = to_url;
    http = http;
    views = views;
    ticket_client =
        new_client "https://ticket.tugas-akhir.local" (
          some
            (record no_params { headers = ("Authorization", String.◌++◌ "Bearer " token) ∷ [] }));
    payment_client = new_client "https://payment.tugas-akhir.local" none;
  }

  abbrev draw_profile : Exec W Stop UserProfile
  draw_profile w = read (get_user_profile kit w).0 (get_user_profile kit w).1

  abbrev draw_token : Exec W Stop String
  draw_token w = (ok (forge_jwt kit crypto w).0, (forge_jwt kit crypto w).1)

  -- The body of the `try`.
  unfoldable pub attempt : ℕ → Exec (Vu W) Stop (Unit {0})
  attempt rounds = do
    token ← on_world draw_token
    profile ← on_world draw_profile
    visit (backend_of token) rounds profile

  -- The `catch`.
  abbrev pub caught : Outcome Stop (Unit {0}) × Vu W → Outcome Stop (Unit {0}) × Vu W
  caught (ok u, v) = (ok u, v)
  caught (throw spinning, v) = (throw spinning, v)
  caught (throw (exception e), v) = finish unknown v

  abbrev pub started : Vu W → Vu W
  started v = (set_tag "state" (end_text not_set) v).1

  unfoldable pub test : ℕ → Exec (Vu W) Stop (Unit {0})
  test rounds v = caught (attempt rounds (started v))
