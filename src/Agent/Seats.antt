-- ===== src/Agent/Seats.antt =====
-- implementation/agent/src/actions/seats.ts: how a virtual user looks for seats. The state object is
-- passed and returned. A loop is given its number of rounds; `spinning` says that it needs more.
pub mod Selection
pub mod Suits
pub mod Available
use tugas_akhir.Common.{
  ℕ, String, Bool, true, false, not, ◌&&◌, Option, none, some, List, [], ◌∷◌, map, filter, length,
  get_elem?, Exec, ok, pure, raise, ◌>>=◌, if◌then◌else◌, leb, ◌==◌,
}
use tugas_akhir.Common.Int.{ℤ, pos, sub_ℕ, ◌+ℤ◌}
use tugas_akhir.Common.Slice.{slice}
use tugas_akhir.Common.Text.{split, last, parse_int, includes}
use tugas_akhir.Agent.Kit.{Kit, Stop, pause, run_check}
use tugas_akhir.Agent.Types.{
  available, AreaAvailability, TicketPackage, TicketSale, TicketSeat, OrderItemDto,
}
use tugas_akhir.Agent.Client.{event_routes_get_availability, event_routes_get_seats}
use tugas_akhir.Agent.Profile.{ProfileState}
use tugas_akhir.Agent.Backend.{Backend, tagged, type_error, is_200, not_empty}

pub record AreaSale : Type 0 where
  pub chosen_area : AreaAvailability
  pub sale : TicketSale

pub record SeatSale : Type 0 where
  pub sale : TicketSale
  pub seats : List TicketSeat

pub record OrderItemSale : Type 0 where
  pub items : List OrderItemDto
  pub sale : TicketSale

-- `set.has(id)`
abbrev pub has : List ℕ → ℕ → Bool
has [] id = false
has (x ∷ xs) id = if x == id then true else has xs id

-- `packageMap[id]`: of two packages with one id the later one counts.
pub package_of : List TicketPackage → ℕ → Option TicketPackage
package_of [] id = none
package_of (q ∷ qs) id = elim (package_of qs id) [
  | some later ↦ some later
  | none ↦ if q.id == id then some q else none
]

abbrev category_fits : Option TicketPackage → String → Bool
category_fits none category = false
category_fits (some q) category = includes q.category_name category

-- The filter of getAvailability, for one category.
pub fits : TicketSale → ProfileState → String → AreaAvailability → Bool
unfolding package_of includes
fits sale state category e = elim (package_of sale.ticket_packages e.ticket_package_id) [
  | none ↦ false
  | some q ↦
      not (has state.area_skip e.ticket_area_id)
      && leb state.ticket_count e.available_seats
      && includes q.category_name category
]

-- The loop over state.tierOrder.
pub by_preference :
    TicketSale → ProfileState → List AreaAvailability → List String → List (List AreaAvailability)
by_preference sale state areas [] = []
by_preference sale state areas (category ∷ categories) =
    filter (fits sale state category) areas ∷ by_preference sale state areas categories

pub record ParsedSeat : Type 0 where
  pub seat : TicketSeat
  pub parsed_number : Option ℕ

abbrev pub is_available : TicketSeat → Bool
is_available s = elim s.status [ available ↦ true | _ ↦ false ]

unfoldable pub parse_seat : TicketSeat → ParsedSeat
unfolding split parse_int
parse_seat s = record { seat = s; parsed_number = parse_int (last (split b'-' s.seat_number)) }

-- `a.parsedNumber - b.parsedNumber` is not above 0; NaN counts as 0.
abbrev pub not_after : Option ℕ → Option ℕ → Bool
not_after (some a) (some b) = leb a b
not_after _ _ = true

-- The stable sort by that comparison.
unfoldable pub insert_seat : ParsedSeat → List ParsedSeat → List ParsedSeat
insert_seat s [] = s ∷ []
insert_seat s (t ∷ ts) =
    let rest = insert_seat s ts in
    if not_after s.parsed_number t.parsed_number then s ∷ t ∷ ts else t ∷ rest

unfoldable pub sort_seats : List ParsedSeat → List ParsedSeat
unfolding insert_seat
sort_seats [] = []
sort_seats (s ∷ ss) = insert_seat s (sort_seats ss)

unfoldable pub available_seats : List TicketSeat → List ParsedSeat
unfolding parse_seat sort_seats
available_seats seats = sort_seats (map parse_seat (filter is_available seats))

module _ {W J : Type 0} (b : Backend W J) where
  abbrev kit : Kit W
  kit = b.kit

  abbrev pub act : {A : Type 0} → (W → A × W) → Exec W Stop A
  act f w = (ok (f w).0, (f w).1)

  abbrev pub wait : ℤ → ℤ → Exec W Stop (Unit {0})
  wait lo hi w = (ok tt, pause b.kit lo hi w)

  -- `randomItem(array)`
  abbrev pub random_item : {A : Type 0} → List A → Exec W Stop (Option A)
  random_item xs w =
      (ok (get_elem? xs (b.kit.random_index (length xs) w).0), (b.kit.random_index (length xs) w).1)

  abbrev pub preferred :
      TicketSale
      → ProfileState
      → Bool
      → Option (List AreaAvailability)
      → Exec W Stop (Option (List (List AreaAvailability)))
  preferred sale state false areas = pure none
  preferred sale state true none = raise type_error
  preferred sale state true (some []) = pure none
  preferred sale state true (some (a ∷ areas)) =
      pure (some (by_preference sale state (a ∷ areas) state.tier_order))

  unfoldable pub get_availability :
      TicketSale → ProfileState → Exec W Stop (Option (List (List AreaAvailability)))
  unfolding by_preference fits
  get_availability sale state = do
    r ← act (
        event_routes_get_availability b.to_url b.http b.ticket_client sale.id
          (tagged "GetAvailability"))
    fine ← run_check b.kit (is_200 r ∷ not_empty (b.views.availability r.data_value) ∷ [])
    preferred sale state fine (b.views.availability r.data_value)

  -- The rest of getSeats, from the seats of a response.
  unfoldable pub select_seats : ProfileState → List TicketSeat → Exec W Stop (List TicketSeat)
  unfolding available_seats
  select_seats state seats = do
    let choices = available_seats seats
    start ← act (b.kit.random_int (pos 0) (sub_ℕ (length choices) state.ticket_count))
    let selected = slice choices start (start +ℤ pos state.ticket_count)
    fine ← run_check b.kit (some (length selected == state.ticket_count) ∷ [])
    pure (map (λ s. s.seat) selected)

  abbrev pub chosen_seats :
      ProfileState → Bool → Option (List TicketSeat) → Exec W Stop (Option (List TicketSeat))
  chosen_seats state false seats = pure none
  chosen_seats state true none = raise type_error
  chosen_seats state true (some []) = pure none
  chosen_seats state true (some (s ∷ seats)) = do
    selected ← select_seats state (s ∷ seats)
    pure (some selected)

  unfoldable pub get_seats :
      ProfileState → AreaAvailability → Exec W Stop (Option (List TicketSeat))
  get_seats state chosen = do
    r ← act (
        event_routes_get_seats b.to_url b.http b.ticket_client chosen.ticket_area_id
          (tagged "GetSeat"))
    fine ← run_check b.kit (is_200 r ∷ not_empty (b.views.seats r.data_value) ∷ [])
    chosen_seats state fine (b.views.seats r.data_value)
