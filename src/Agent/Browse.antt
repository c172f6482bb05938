-- ===== src/Agent/Browse.antt =====
-- implementation/agent/src/actions/seats.ts: the loops that browse for an area and for seats. The
-- state object is passed and returned; a loop is given a number of rounds, and `spinning` says that
-- these were not enough. An element that an array does not have is a TypeError where it is used.
pub mod Calm
pub mod Ends
pub mod Searches
pub mod Wanted
pub mod Found
pub mod Exhausts
use tugas_akhir.Common.{
  ℕ, zero, suc, ◌+◌, ◌-◌, Bool, true, false, not, Option, none, some, List, [], ◌∷◌, ◌++◌, filter,
  get_elem?, length, Exec, ok, throw, String, pure, raise, ◌>>=◌, ◌>>◌, if◌then◌else◌, ltb,
}
use tugas_akhir.Common.Int.{pos}
use tugas_akhir.Agent.Kit.{Stop, spinning}
use tugas_akhir.Agent.Types.{AreaAvailability, TicketSale, TicketSeat, OrderItemDto}
use tugas_akhir.Agent.Profile.{
  Customer, ProfileState, FallbackType, same_day, same_category, AreaType, area, seated,
}
use tugas_akhir.Agent.Backend.{Backend, read, type_error}
use tugas_akhir.Agent.Seats.{
  AreaSale, SeatSale, OrderItemSale, has, random_item, wait, get_availability, get_seats,
}

-- The rows of areas, by preference, or null.
abbrev Rows : Type 0
Rows = Option (List (List AreaAvailability))

abbrev more_browsing : ProfileState → Bool
more_browsing state = ltb state.current_browse_attempt state.max_browse_attempt

-- `state.currentBrowseAttempt++`
abbrev pub browsed : ProfileState → ProfileState
browsed state = record state { current_browse_attempt = state.current_browse_attempt + 1 }

module _ {W J : Type 0} (b : Backend W J) where
  abbrev sale_options : ProfileState → List TicketSale
  sale_options state = filter (λ s. not (has state.area_skip s.id)) state.sale_selection

  abbrev random_sale : List TicketSale → Exec W Stop (Option TicketSale)
  random_sale [] = pure none
  random_sale (s ∷ options) = random_item b (s ∷ options)

  unfoldable pub select_ticket_sale : ProfileState → Exec W Stop (Option TicketSale)
  select_ticket_sale state = random_sale (sale_options state)

  abbrev area_result : TicketSale → Option AreaAvailability → Exec W Stop (Option AreaSale)
  area_result sale none = raise type_error
  area_result sale (some a) = pure (some (record { chosen_area = a; sale = sale }))

  abbrev random_area : TicketSale → List AreaAvailability → Exec W Stop (Option AreaSale)
  random_area sale areas = do item ← random_item b areas; area_result sale item

  -- The loop over the rows in getAreaPreferSameDay.
  first_area : TicketSale → List (List AreaAvailability) → Exec W Stop (Option AreaSale)
  first_area sale [] = pure none
  first_area sale ([] ∷ rows) = first_area sale rows
  first_area sale ((a ∷ areas) ∷ rows) = random_area sale (a ∷ areas)

  abbrev first_of_rows : TicketSale → Rows → Exec W Stop (Option AreaSale)
  first_of_rows sale none = pure none
  first_of_rows sale (some rows) = first_area sale rows

  abbrev area_of_sale : ProfileState → Option TicketSale → Exec W Stop (Option AreaSale)
  area_of_sale state none = pure none
  area_of_sale state (some sale) = do rows ← get_availability b sale state; first_of_rows sale rows

  unfoldable pub get_area_prefer_same_day : ProfileState → Exec W Stop (Option AreaSale)
  unfolding select_ticket_sale first_area
  get_area_prefer_same_day state = do sale ← select_ticket_sale state; area_of_sale state sale

  abbrev none_there : Exec W Stop (Option AreaSale)
  none_there = do wait b (pos 2) (pos 6); pure none

  abbrev inspect_row : TicketSale → Option (List AreaAvailability) → Exec W Stop (Option AreaSale)
  inspect_row sale none = raise type_error
  inspect_row sale (some []) = none_there
  inspect_row sale (some (a ∷ areas)) = random_area sale (a ∷ areas)

  -- The body of the inner loop of getAreaPreferSameCategory, once the availability is there.
  abbrev inspect : ℕ → TicketSale → Rows → Exec W Stop (Option AreaSale)
  inspect cat sale none = none_there
  inspect cat sale (some []) = none_there
  inspect cat sale (some (row ∷ rows)) = inspect_row sale (get_elem? (row ∷ rows) cat)

  -- A loop goes on with `rest` where its body found nothing.
  abbrev or_go_on : {A : Type 0} → Exec W Stop (Option A) → Option A → Exec W Stop (Option A)
  or_go_on rest none = rest
  or_go_on rest (some a) = pure (some a)

  -- A pass of the inner loop over availabilities that are there already.
  later_pass : ℕ → List TicketSale → List Rows → Exec W Stop (Option AreaSale)
  later_pass cat [] fetched = pure none
  later_pass cat (sale ∷ sales) [] = raise type_error
  later_pass cat (sale ∷ sales) (rows ∷ fetched) = do
    found ← inspect cat sale rows
    or_go_on (later_pass cat sales fetched) found

  -- The outer loop from the category `cat` on, for a number of categories.
  pub later_passes : ℕ → ℕ → List TicketSale → List Rows → Exec W Stop (Option AreaSale)
  unfolding later_pass
  later_passes zero cat sales fetched = pure none
  later_passes (suc n) cat sales fetched = do
    found ← later_pass cat sales fetched
    or_go_on (later_passes n (suc cat) sales fetched) found

  -- The first pass, which fetches; at its end the outer loop goes on with what has been fetched.
  pub first_pass :
      ProfileState
      → (List Rows → Exec W Stop (Option AreaSale))
      → List TicketSale
      → List Rows
      → Exec W Stop (Option AreaSale)
  first_pass state go_on [] fetched = go_on fetched
  first_pass state go_on (sale ∷ sales) fetched = do
    rows ← get_availability b sale state
    found ← inspect 0 sale rows
    or_go_on (first_pass state go_on sales (fetched ++ rows ∷ [])) found

  abbrev by_category : ProfileState → List String → Exec W Stop (Option AreaSale)
  by_category state [] = pure none
  by_category state (tier ∷ tiers) =
      first_pass state (later_passes (length tiers) 1 state.sale_selection) state.sale_selection []

  unfoldable pub get_area_prefer_same_category : ProfileState → Exec W Stop (Option AreaSale)
  unfolding first_pass later_passes
  get_area_prefer_same_category state = by_category state state.tier_order

  abbrev look : FallbackType → ProfileState → Exec W Stop (Option AreaSale)
  look same_category state = get_area_prefer_same_category state
  look same_day state = get_area_prefer_same_day state

  -- What the loop of getSeatCaseArea does with the area of one attempt.
  abbrev keep_or_retry :
      (ProfileState → Exec W Stop (Option AreaSale × ProfileState))
      → ProfileState
      → Option AreaSale
      → Exec W Stop (Option AreaSale × ProfileState)
  keep_or_retry retry state (some found) = pure (some found, state)
  keep_or_retry retry state none = do wait b (pos 2) (pos 6); retry (browsed state)

  -- One round of the loop of getSeatCaseArea, by its condition.
  abbrev area_round :
      (ProfileState → Exec W Stop (Option AreaSale × ProfileState))
      → ProfileState
      → Bool
      → Exec W Stop (Option AreaSale × ProfileState)
  area_round retry state false = pure (none, state)
  area_round retry state true = look state.fallback_type state >>= keep_or_retry retry state

  -- The loop of getSeatCaseArea, for a number of rounds.
  pub case_area : ℕ → ProfileState → Exec W Stop (Option AreaSale × ProfileState)
  case_area zero state = area_round (λ _. raise spinning) state (more_browsing state)
  case_area (suc rounds) state = area_round (case_area rounds) state (more_browsing state)

  -- The attempts that are left are as many rounds as the loop can take.
  unfoldable pub get_seat_case_area : ProfileState → Exec W Stop (Option AreaSale × ProfileState)
  unfolding case_area
  get_seat_case_area state =
      case_area (state.max_browse_attempt - state.current_browse_attempt) state

  abbrev keep_seats :
      Exec W Stop (Option SeatSale)
      → AreaSale
      → Option (List TicketSeat)
      → Exec W Stop (Option SeatSale)
  keep_seats retry found (some l) = pure (some (record { sale = found.sale; seats = l }))
  keep_seats retry found none = do wait b (pos 2) (pos 6); retry

  -- The loop that asks for seats a number of times.
  pub try_seats : ℕ → ProfileState → AreaSale → Exec W Stop (Option SeatSale)
  try_seats zero state found = pure none
  try_seats (suc n) state found = do
    seats ← get_seats b state found.chosen_area
    keep_seats (try_seats n state found) found seats

  abbrev seats_or_retry :
      (ProfileState → Exec W Stop (Option SeatSale × ProfileState))
      → Option AreaSale × ProfileState
      → Exec W Stop (Option SeatSale × ProfileState)
  seats_or_retry retry (some found, state) = do seats ← try_seats 3 state found; pure (seats, state)
  seats_or_retry retry (none, state) = do wait b (pos 2) (pos 6); retry (browsed state)

  abbrev numbered_round :
      (ProfileState → Exec W Stop (Option SeatSale × ProfileState))
      → ProfileState
      → Bool
      → Exec W Stop (Option SeatSale × ProfileState)
  numbered_round retry state false = pure (none, state)
  numbered_round retry state true = get_seat_case_area state >>= seats_or_retry retry

  -- The loop of getSeatCaseNumbered, for a number of rounds.
  pub case_numbered : ℕ → ProfileState → Exec W Stop (Option SeatSale × ProfileState)
  case_numbered zero state = numbered_round (λ _. raise spinning) state (more_browsing state)
  case_numbered (suc rounds) state =
      numbered_round (case_numbered rounds) state (more_browsing state)

  unfoldable pub get_seat_case_numbered :
      ProfileState → Exec W Stop (Option SeatSale × ProfileState)
  unfolding case_numbered try_seats
  get_seat_case_numbered state =
      case_numbered (state.max_browse_attempt - state.current_browse_attempt) state
