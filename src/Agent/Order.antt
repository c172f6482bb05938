-- ===== src/Agent/Order.antt =====
-- implementation/agent/src/actions/event.ts, order-action.ts and order-query.ts: the event, and the
-- orders of a virtual user. A value that is `undefined` where the script goes on with it is the
-- inner `none` of two options; the outer one is `null`.
pub mod Place
pub mod Answers
use tugas_akhir.Common.{
  ℕ, zero, suc, ◌+◌, Bool, true, false, String, Option, none, some, List, [], ◌∷◌, get_elem?, Exec,
  pure, raise, ◌>>=◌, ◌>>◌, if◌then◌else◌, ltb, leb, ◌==◌,
}
use tugas_akhir.Common.Int.{pos}
use tugas_akhir.Agent.Kit.{Stop, exception, spinning, run_check}
use tugas_akhir.Agent.Types.{Event, TicketSale, OrderItemDto, PlaceOrderDto, Order, IssuedTicket}
use tugas_akhir.Agent.Client.{
  Fields, Reply, event_routes_get_events, event_routes_get_event, order_routes_place_order,
  order_routes_get_order, order_routes_get_issued_tickets, post_invoices_id_payment,
}
use tugas_akhir.Agent.Profile.{ProfileState}
use tugas_akhir.Agent.Backend.{Backend, tagged, read, is_200}
use tugas_akhir.Agent.Seats.{act, wait}

pub data PlaceOrderState : Type 0 where
  placed bad_request retry : PlaceOrderState

pub record PlaceOrderResponse : Type 0 where
  pub state : PlaceOrderState
  pub order : Option (Option Order)

-- The branches of placeOrder on the status of a response.
pub data Verdict : Type 0 where
  again refused taken created unheard : Verdict

pub verdict : ℕ → Verdict
verdict status =
    if leb 500 status
    then again
    else if status == 408
    then again
    else if status == 400
    then refused
    else if status == 409
    then taken
    else if status == 200
    then created
    else unheard

abbrev pub without_order : PlaceOrderState → PlaceOrderResponse
without_order s = record { state = s; order = none }

-- The payload; `none` is a TypeError, on a first sale or item that is missing.
abbrev pub place_payload : List TicketSale → List OrderItemDto → TicketSale → Option PlaceOrderDto
place_payload (first ∷ selection) (item ∷ items) sale = some (record {
  event_id = first.event_id;
  ticket_sale_id = sale.id;
  ticket_area_id = item.ticket_area_id;
  items = item ∷ items;
})
place_payload _ _ sale = none

abbrev pub idempotency : String → Fields
idempotency uuid = ("idempotency-key", uuid) ∷ []

module _ {W J : Type 0} (b : Backend W J) where
  abbrev pub second_request : Bool → Reply J → Exec W Stop (Option Event)
  second_request false r = pure none
  second_request true r = pure (b.views.event r.data_value)

  abbrev pub event_of : ℕ → Exec W Stop (Option Event)
  event_of id = do
    r ← act b (event_routes_get_event b.to_url b.http b.ticket_client id (tagged "GetEvent"))
    fine ← run_check b.kit (is_200 r ∷ [])
    second_request fine r

  abbrev pub first_event : Bool → Reply J → Exec W Stop (Option Event)
  first_event false r = pure none
  first_event true r = do
    events ← read (b.views.events r.data_value)
    event ← read (get_elem? events 0)
    event_of event.id

  unfoldable pub get_event : Exec W Stop (Option Event)
  get_event = do
    r ← act b (event_routes_get_events b.to_url b.http b.ticket_client (tagged "GetEvents"))
    fine ← run_check b.kit (is_200 r ∷ [])
    first_event fine r

  abbrev pub place_request : PlaceOrderDto → Fields → W → Reply J × W
  place_request payload headers =
      order_routes_place_order b.to_url b.http b.ticket_client payload headers (tagged "PlaceOrder")

  abbrev pub place_answer :
      (ℕ → Exec W Stop PlaceOrderResponse) → ℕ → Verdict → Reply J → Exec W Stop PlaceOrderResponse
  place_answer go_on tries again r = do wait b (pos 3) (pos 10); go_on (tries + 1)
  place_answer go_on tries refused r = pure (without_order bad_request)
  place_answer go_on tries taken r = pure (without_order retry)
  place_answer go_on tries created r =
      pure (record { state = placed; order = some (b.views.order r.data_value) })
  place_answer go_on tries unheard r = go_on tries

  -- One round of the loop of placeOrder, by its condition.
  abbrev pub place_round :
      (ℕ → Exec W Stop PlaceOrderResponse)
      → PlaceOrderDto
      → Fields
      → ℕ
      → Bool
      → Exec W Stop PlaceOrderResponse
  place_round go_on payload headers tries false = pure (without_order retry)
  place_round go_on payload headers tries true = do
    r ← act b (place_request payload headers)
    place_answer go_on tries (verdict r.response.status) r

  -- The loop of placeOrder, for a number of rounds after the first.
  pub place_loop : ℕ → PlaceOrderDto → Fields → ℕ → Exec W Stop PlaceOrderResponse
  place_loop zero payload headers tries =
      place_round (λ _. raise spinning) payload headers tries (ltb tries 3)
  place_loop (suc rounds) payload headers tries =
      place_round (place_loop rounds payload headers) payload headers tries (ltb tries 3)

  unfoldable pub place_order :
      ℕ → ProfileState → List OrderItemDto → TicketSale → Exec W Stop PlaceOrderResponse
  unfolding place_loop verdict
  place_order rounds state items sale = do
    payload ← read (place_payload state.sale_selection items sale)
    uuid ← act b b.kit.uuid
    place_loop rounds payload (idempotency uuid) 0

  -- A failed request is logged with its `response.json()`, which throws where that is no JSON.
  abbrev pub logged_json : {A : Type 0} → Option J → Exec W Stop (Option A)
  logged_json none = raise (exception "SyntaxError")
  logged_json (some j) = pure none

  abbrev pub value_or_log : {A : Type 0} → Bool → Reply J → A → Exec W Stop (Option A)
  value_or_log false r a = logged_json r.response.json
  value_or_log true r a = pure (some a)

  unfoldable pub pay_order : Order → Bool → Exec W Stop (Option J)
  pay_order order payment_success = do
    external_id ← read order.invoice_external_id
    r ← act b (
        post_invoices_id_payment b.to_url b.http b.payment_client external_id payment_success
          (tagged "PayInvoice"))
    fine ← run_check b.kit (is_200 r ∷ [])
    value_or_log fine r r.data_value

  unfoldable pub get_order : String → Exec W Stop (Option (Option Order))
  get_order id = do
    r ← act b (order_routes_get_order b.to_url b.http b.ticket_client id (tagged "GetOrder"))
    fine ← run_check b.kit (is_200 r ∷ [])
    value_or_log fine r (b.views.order r.data_value)

  unfoldable pub get_issued_tickets : String → Exec W Stop (Option (Option (List IssuedTicket)))
  get_issued_tickets id = do
    r ← act b (
        order_routes_get_issued_tickets b.to_url b.http b.ticket_client id
          (tagged "GetIssuedTickets"))
    fine ← run_check b.kit (is_200 r ∷ [])
    value_or_log fine r (b.views.issued_tickets r.data_value)
