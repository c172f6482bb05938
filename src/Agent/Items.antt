-- ===== src/Agent/Items.antt =====
-- implementation/agent/src/actions/seats.ts: the items of an order, and getSeat.
pub mod Complete
pub mod Chosen
pub mod Exhausts
use mathlib.Core.Option
use tugas_akhir.Common.{ℕ, zero, suc, Option, none, some, List, [], ◌∷◌, Exec, pure, ◌>>=◌}
use tugas_akhir.Agent.Kit.{Stop}
use tugas_akhir.Agent.Types.{AreaAvailability, TicketSeat, OrderItemDto}
use tugas_akhir.Agent.Profile.{Customer, ProfileState, AreaType, area, seated}
use tugas_akhir.Agent.Backend.{Backend, read}
use tugas_akhir.Agent.Seats.{AreaSale, SeatSale, OrderItemSale}
use tugas_akhir.Agent.Browse.{get_seat_case_area, get_seat_case_numbered}

abbrev pub area_item : Customer → AreaAvailability → OrderItemDto
area_item c a = record {
  customer_email = c.email;
  customer_name = c.name;
  ticket_seat_id = none;
  ticket_area_id = a.ticket_area_id;
}

abbrev pub seat_item : Customer → TicketSeat → OrderItemDto
seat_item c s = record {
  customer_email = c.email;
  customer_name = c.name;
  ticket_seat_id = some s.id;
  ticket_area_id = s.ticket_area_id;
}

-- The loop over customers, for an area; `none` is a TypeError.
pub area_items : ℕ → List Customer → AreaAvailability → Option (List OrderItemDto)
area_items zero customers a = some []
area_items (suc n) [] a = none
area_items (suc n) (c ∷ customers) a =
    Option.map (λ items. area_item c a ∷ items) (area_items n customers a)

-- The loop over customers and seats; `none` is a TypeError, on a customer or a seat that is missing.
pub seat_items : ℕ → List Customer → List TicketSeat → Option (List OrderItemDto)
seat_items zero customers seats = some []
seat_items (suc n) (c ∷ customers) (s ∷ seats) =
    Option.map (λ items. seat_item c s ∷ items) (seat_items n customers seats)
seat_items (suc n) _ _ = none

module _ {W J : Type 0} (b : Backend W J) where
  abbrev order_area :
      Option AreaSale × ProfileState → Exec W Stop (Option OrderItemSale × ProfileState)
  order_area (none, state) = pure (none, state)
  order_area (some found, state) = do
    items ← read (area_items state.ticket_count state.customers found.chosen_area)
    pure (some (record { items = items; sale = found.sale }), state)

  abbrev order_seats :
      Option SeatSale × ProfileState → Exec W Stop (Option OrderItemSale × ProfileState)
  order_seats (none, state) = pure (none, state)
  order_seats (some found, state) = do
    items ← read (seat_items state.ticket_count state.customers found.seats)
    pure (some (record { items = items; sale = found.sale }), state)

  abbrev seat_by_type : AreaType → ProfileState → Exec W Stop (Option OrderItemSale × ProfileState)
  seat_by_type area state = do found ← get_seat_case_area b state; order_area found
  seat_by_type seated state = do found ← get_seat_case_numbered b state; order_seats found

  unfoldable pub get_seat : ProfileState → Exec W Stop (Option OrderItemSale × ProfileState)
  unfolding area_items seat_items
  get_seat state = seat_by_type state.area_type state
