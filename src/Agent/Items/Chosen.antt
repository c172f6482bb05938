-- ===== src/Agent/Items/Chosen.antt =====
-- Which areas and seats getSeat orders.
use mathlib.Core.Option
use tugas_akhir.Common.{◌≡◌, Option, none, some, List, All, Outcome, ok, throw}
use tugas_akhir.Agent.Kit.{Stop}
use tugas_akhir.Agent.Types.{AreaAvailability, TicketSeat, OrderItemDto}
use tugas_akhir.Agent.Profile.{ProfileState, AreaType, area, seated}
use tugas_akhir.Agent.Backend.{Backend}
use tugas_akhir.Agent.Seats.{AreaSale, OrderItemSale}
use tugas_akhir.Agent.Browse.Searches.{IsWanted, IsSelected}

-- An order of the area, without a seat.
abbrev pub InArea : AreaAvailability → OrderItemDto → Type 0
InArea a item = (item.ticket_seat_id ≡ none) × (item.ticket_area_id ≡ a.ticket_area_id)

-- An order of a seat with a property.
abbrev pub OnSeat : (TicketSeat → Type 0) → OrderItemDto → Type 0
OnSeat P item =
    (s : TicketSeat) × P s
    × (item.ticket_seat_id ≡ some s.id)
    × (item.ticket_area_id ≡ s.ticket_area_id)

-- What the user orders, by the type of the area.
abbrev pub IsChosen : (TicketSeat → Type 0) → AreaType → ProfileState → OrderItemSale → Type 0
IsChosen P area state chosen =
    (found : AreaSale) × IsWanted state found
    × (chosen.sale ≡ found.sale)
    × All (InArea found.chosen_area) chosen.items
IsChosen P seated state chosen = IsSelected state chosen.sale × All (OnSeat P) chosen.items

abbrev pub ChosenPost :
    (TicketSeat → Type 0)
    → AreaType
    → ProfileState
    → Outcome Stop (Option OrderItemSale × ProfileState)
    → Type 0
ChosenPost P kind state (ok (some chosen, t)) = IsChosen P kind state chosen
ChosenPost P kind state (ok (none, t)) = Unit {0}
ChosenPost P kind state (throw e) = Unit {0}

abbrev AllIf : (OrderItemDto → Type 0) → Option (List OrderItemDto) → Type 0
AllIf P none = Unit {0}
AllIf P (some items) = All P items
