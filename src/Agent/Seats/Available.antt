-- ===== src/Agent/Seats/Available.antt =====
-- The seats that getSeats returns are among the available ones of a reply.
use tugas_akhir.Common.{
  ◌≡◌, true, Bool, false, Option, none, some, List, [], ◌∷◌, map, All, All-filter_given, All-take,
  All-drop, Outcome, ok, throw, continue,
}
use tugas_akhir.Common.Int.{ℤ}
use tugas_akhir.Common.Slice.{slice}
use tugas_akhir.Agent.Kit.{Stop}
use tugas_akhir.Agent.Types.{AreaAvailability, TicketSeat}
use tugas_akhir.Agent.Profile.{ProfileState}
use tugas_akhir.Agent.Backend.{Backend, tagged}
use tugas_akhir.Agent.Client.{Reply, event_routes_get_seats}
use tugas_akhir.Agent.Seats.{
  ParsedSeat, is_available, parse_seat, sort_seats, available_seats, select_seats, chosen_seats,
  get_seats,
}
use tugas_akhir.Agent.Seats.Selection.{insert_seat-All}

abbrev pub IsOpen : TicketSeat → Type 0
IsOpen s = is_available s ≡ true

-- The seats of a reply that are available have a property.
abbrev pub OpenHave : (TicketSeat → Type 0) → Option (List TicketSeat) → Type 0
OpenHave P none = Unit {0}
OpenHave P (some seats) = All (λ s. IsOpen s → P s) seats

module _ (P : TicketSeat → Type 0) where
  abbrev Has : ParsedSeat → Type 0
  Has s = P s.seat

  parsed-All : (seats : List TicketSeat) → All P seats → All Has (map parse_seat seats)
  unfolding parse_seat
  parsed-All [] h = tt
  parsed-All (s ∷ seats) (p, h) = (p, parsed-All seats h)

  seats-All : (parsed : List ParsedSeat) → All Has parsed → All P (map (λ s. s.seat) parsed)
  seats-All [] h = tt
  seats-All (s ∷ parsed) (p, h) = (p, seats-All parsed h)

  sort_seats-All : (ss : List ParsedSeat) → All Has ss → All Has (sort_seats ss)
  unfolding sort_seats
  sort_seats-All [] h = tt
  sort_seats-All (s ∷ ss) (p, h) = insert_seat-All Has s (sort_seats ss) p (sort_seats-All ss h)

  available_seats-All :
      (seats : List TicketSeat) → OpenHave P (some seats) → All Has (available_seats seats)
  unfolding available_seats
  available_seats-All seats h =
      sort_seats-All _ (parsed-All _ (All-filter_given P is_available seats h))

  slice-All : (xs : List ParsedSeat) (i j : ℤ) → All Has xs → All Has (slice xs i j)
  slice-All xs i j h = All-take Has _ _ (All-drop Has _ xs h)

  abbrev pub HaveIf : Outcome Stop (Option (List TicketSeat)) → Type 0
  HaveIf (ok (some seats)) = All P seats
  HaveIf (ok none) = Unit {0}
  HaveIf (throw e) = Unit {0}

module _ {W J : Type 0} (b : Backend W J) (P : TicketSeat → Type 0) where
  -- The reply to a request for the seats of an area.
  abbrev pub seats_reply : AreaAvailability → W → Reply J × W
  seats_reply chosen =
      event_routes_get_seats b.to_url b.http b.ticket_client chosen.ticket_area_id
        (tagged "GetSeat")

  -- Each seat that a reply shows as available has the property.
  abbrev pub Offers : Type 0
  Offers =
      (chosen : AreaAvailability) (w : W)
      → OpenHave P (b.views.seats (seats_reply chosen w).0.data_value)

  abbrev HaveSelection : Outcome Stop (List TicketSeat) → Type 0
  HaveSelection (ok seats) = All P seats
  HaveSelection (throw e) = Unit {0}

  selected_post :
      (seats : List TicketSeat) (r : Outcome Stop Bool) (w : W)
      → All P seats
      → HaveSelection (continue (λ fine s. (ok seats, s)) r w).0
  selected_post seats (ok fine) w h = h
  selected_post seats (throw e) w h = tt

  select_seats_post :
      (state : ProfileState) (seats : List TicketSeat) (w : W)
      → OpenHave P (some seats)
      → HaveSelection (select_seats b state seats w).0
  unfolding select_seats
  select_seats_post state seats w h =
      selected_post _ _ _
        (seats-All P _ (slice-All P (available_seats seats) _ _ (available_seats-All P seats h)))

  found_post :
      (r : Outcome Stop (List TicketSeat)) (w : W)
      → HaveSelection r
      → HaveIf P (continue (λ selected s. (ok (some selected), s)) r w).0
  found_post (ok seats) w h = h
  found_post (throw e) w h = tt

  chosen_post :
      (state : ProfileState) (fine : Bool) (seats : Option (List TicketSeat)) (w : W)
      → OpenHave P seats
      → HaveIf P (chosen_seats b state fine seats w).0
  chosen_post state false seats w h = tt
  chosen_post state true none w h = tt
  chosen_post state true (some []) w h = tt
  chosen_post state true (some (s ∷ seats)) w h =
      found_post (select_seats b state (s ∷ seats) w).0 _ (select_seats_post state (s ∷ seats) w h)

  checked_post :
      (state : ProfileState) (seats : Option (List TicketSeat)) (r : Outcome Stop Bool) (w : W)
      → OpenHave P seats
      → HaveIf P (continue (λ fine. chosen_seats b state fine seats) r w).0
  checked_post state seats (ok fine) w h = chosen_post state fine seats w h
  checked_post state seats (throw e) w h = tt

  pub get_seats-HaveIf :
      Offers
      → (state : ProfileState) (a : AreaAvailability) (w : W) → HaveIf P (get_seats b state a w).0
  unfolding get_seats
  get_seats-HaveIf offers state a w = checked_post state _ _ _ (offers a w)
