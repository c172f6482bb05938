-- ===== src/Agent/Tests.antt =====
-- The theorems on the agent at work, in a small world.
mod Outcomes
mod Choices
mod Endings
use mathlib.Core.List.{Perm}
use tugas_akhir.Common.{
  true, map, filter, ok, ℕ, ◌≤◌, ◌/◌, ◌*◌, ◌≡◌, refl, String, none, some, List, [], ◌∷◌, length,
  arith, inr, if◌then◌else◌,
}
use text.Mathlib.Text.{◌==◌ as str_eq}
use tugas_akhir.Agent.Types.{TicketSeat, OrderItemDto, PlaceOrderDto}
use tugas_akhir.Agent.Random.{shuffle}
use tugas_akhir.Agent.Random.Permutes.{Shuffles, shuffle-Shuffles}
use tugas_akhir.Agent.Client.{
  lookup, Client, get_request, post_request, place_order, no_params, order_routes_place_order,
  order_routes_get_order,
}
use tugas_akhir.Agent.Client.Headers.{or_else, last_of, get_request-headers, post_request-headers}
use tugas_akhir.Agent.Profile.Table.{
  UserProfile, specific, seated_low, couple, medium, user_profiles_data,
}
use tugas_akhir.Agent.Profile.{
  ProfileState, same_day, seated, choose, total_probability, get_profile_state, sales_of,
}
use tugas_akhir.Agent.Profile.Choice.{Selected, choose-Selected}
use tugas_akhir.Agent.Profile.State.{IsFresh, get_profile_state-IsFresh, get_profile_state-specific}
use tugas_akhir.Agent.Browse.{get_seat_case_area, get_seat_case_numbered}
use tugas_akhir.Agent.Browse.Ends.{
  BrowsePost, SeatsPost, get_seat_case_area-BrowsePost, get_seat_case_numbered-SeatsPost,
}
use tugas_akhir.Common.Text.{split, parse_int}
use tugas_akhir.Agent.Seats.{
  is_available, parse_seat, insert_seat, sort_seats, available_seats, select_seats,
}
use tugas_akhir.Agent.Seats.Selection.{
  IsAscending, available_seats-IsAscending, IsBlock, select_seats-IsBlock,
}
use tugas_akhir.Agent.Order.{idempotency, get_order, place_order as place}
use tugas_akhir.Agent.Order.Place.{Returns, place_order-Returns}
use tugas_akhir.Agent.Items.{get_seat}
use tugas_akhir.Agent.Items.Complete.{ItemsPost, get_seat-ItemsPost}
use tugas_akhir.Agent.Loops.Verify.{Verifies, verify_loop-Verifies}
use tugas_akhir.Agent.Vu.{Vu}
use tugas_akhir.Agent.Loops.{verify_loop}
use tugas_akhir.Agent.Journey.{test}
use tugas_akhir.Agent.Journey.Metric.{TestPost, test_post}
use tugas_akhir.Agent.World.{
  kit, kit-KitLaws, seat, page, sale, concert, views, http, to_url, backend, crypto,
}

abbrev fan : UserProfile
fan = record {
  day_preference = specific;
  seating_tier = seated_low;
  quantity = couple;
  persistence = medium;
}

abbrev fan_state : ProfileState
fan_state = record {
  sale_selection = sale 5 ∷ [];
  ticket_count = 2;
  tier_order = "Bronze" ∷ "Silver" ∷ [];
  customers = [];
  current_browse_attempt = 0;
  max_browse_attempt = 18;
  current_order_attempt = 0;
  max_order_attempt = 6;
  fallback_type = same_day;
  area_type = seated;
  sale_skip = [];
  seat_skip = [];
  area_skip = [];
}

abbrev item : OrderItemDto
item = record {
  customer_name = "Ann";
  customer_email = "ann@example.org";
  ticket_seat_id = some 101;
  ticket_area_id = 30;
}

abbrev order_request : PlaceOrderDto
order_request = record { event_id = 1; ticket_sale_id = 5; ticket_area_id = 30; items = item ∷ [] }

abbrev user : Vu ℕ
user = record { world = 0; tags = ("scenario", "smoke_1") ∷ []; submitted = [] }

choose-Selected_example :
    Selected user_profiles_data 0
      (5 * total_probability user_profiles_data)
      (choose user_profiles_data 5)
choose-Selected_example = choose-Selected user_profiles_data 5 (omega arith) (omega arith)

abbrev letters : List String
letters = "a" ∷ "b" ∷ "c" ∷ []

shuffle-Shuffles_example : Shuffles kit 3 letters 0 (shuffle kit (map some letters) 0)
shuffle-Shuffles_example = shuffle-Shuffles kit kit-KitLaws letters 0

get_profile_state-IsFresh_example : IsFresh fan concert (get_profile_state kit fan concert 0).0
get_profile_state-IsFresh_example = get_profile_state-IsFresh kit kit-KitLaws fan concert 0

abbrev client : Client
client = record {
  clean_base_url = "https://ticket.local";
  common = record no_params { headers = ("Authorization", "Bearer x") ∷ [] };
}

place_order-Returns_example :
    Returns backend order_request
      (idempotency "0f8c")
      1
      (place backend 3 fan_state (item ∷ []) (sale 5) 0).0
      (place backend 3 fan_state (item ∷ []) (sale 5) 0).1
unfolding order_routes_place_order
place_order-Returns_example =
    place_order-Returns backend 3 fan_state (item ∷ []) (sale 5) 0 order_request (omega arith) refl
      (λ w. inr (inr (inr refl)))

test_post_example :
    TestPost kit crypto to_url http views user
      (test kit crypto to_url http views 20 user).0
      (test kit crypto to_url http views 20 user).1
test_post_example = test_post kit crypto to_url http views 20 user

abbrev seats : List TicketSeat
seats = seat 101 "A-2" ∷ seat 102 "A-1" ∷ seat 103 "A-3" ∷ []

available_seats-IsAscending_example :
    Perm (available_seats seats) (map parse_seat (filter is_available seats))
    × IsAscending (available_seats seats)
unfolding parse_seat split parse_int
available_seats-IsAscending_example =
    available_seats-IsAscending seats ((2, refl), ((1, refl), ((3, refl), tt)))

select_seats-IsBlock_example :
    (l : List TicketSeat) × ((select_seats backend fan_state seats 0).0 ≡ ok l)
    × IsBlock fan_state seats l
unfolding available_seats sort_seats insert_seat parse_seat split parse_int
select_seats-IsBlock_example =
    select_seats-IsBlock backend kit-KitLaws fan_state seats 0 (omega arith)

verify_loop-Verifies_example :
    Verifies backend page.order true 0
      (verify_loop backend 3 page.order true 0 0).0
      (verify_loop backend 3 page.order true 0 0).1
unfolding get_order order_routes_get_order
verify_loop-Verifies_example =
    verify_loop-Verifies backend page.order 3 true 0 (omega arith)
      (λ w. inr (page.order, refl, (λ e. cc e)))
