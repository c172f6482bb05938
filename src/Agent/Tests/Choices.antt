-- ===== src/Agent/Tests/Choices.antt =====
-- The theorems on what a virtual user finds and orders, in the small world of the agent.
use tugas_akhir.Common.{Any, ◌≡◌, refl, ℕ, some, Option, List, [], ◌∷◌, map, ok, Outcome}
use tugas_akhir.Agent.Kit.{Stop}
use tugas_akhir.Agent.Profile.{ProfileState}
use tugas_akhir.Agent.Seats.{OrderItemSale, select_seats, get_seats, get_availability}
use tugas_akhir.Agent.Client.{event_routes_get_availability, event_routes_get_seats}
use tugas_akhir.Agent.Items.{get_seat}
use tugas_akhir.Agent.Items.Complete.{ItemsPost, get_seat-ItemsPost}
use tugas_akhir.Agent.Browse.{
  get_seat_case_area, get_seat_case_numbered, get_area_prefer_same_day, select_ticket_sale,
}
use tugas_akhir.Agent.Browse.Wanted.{AreaPost, get_seat_case_area-AreaPost}
use tugas_akhir.Agent.World.{page, backend}
use tugas_akhir.Agent.Types.{TicketSeat}
use tugas_akhir.Agent.Tests.{fan_state}

abbrev pair : ProfileState
pair = record fan_state {
  customers =
      record { name = "Ann"; email = "ann@example.org" }
      ∷ record { name = "Bob"; email = "bob@example.org" }
      ∷ [];
}

get_seat_case_area-AreaPost_example : AreaPost pair (get_seat_case_area backend pair 0).0
get_seat_case_area-AreaPost_example = get_seat_case_area-AreaPost backend pair 0

-- The seats that the backend offers.
abbrev IsListed : TicketSeat → Type 0
IsListed s = Any (λ t. t ≡ s) page.seats

get_seat-ItemsPost_example : ItemsPost pair (get_seat backend pair 0).0
get_seat-ItemsPost_example = get_seat-ItemsPost backend pair 0

abbrev seats_of : Outcome Stop (Option OrderItemSale × ProfileState) → List (Option ℕ)
seats_of (ok (some chosen, t)) = map (λ i. i.ticket_seat_id) chosen.items
seats_of _ = []

-- The two seats with the lowest numbers.
ordered_seats : seats_of (get_seat backend pair 0).0 ≡ some 102 ∷ some 101 ∷ []
unfolding get_seat get_seat_case_numbered get_seat_case_area get_area_prefer_same_day
    select_ticket_sale get_availability get_seats select_seats event_routes_get_availability
    event_routes_get_seats
ordered_seats = refl
