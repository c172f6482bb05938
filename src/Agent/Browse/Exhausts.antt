-- ===== src/Agent/Browse/Exhausts.antt =====
-- When the browsing loops find nothing.
use tugas_akhir.Common.{
  ℕ, zero, suc, ◌≤◌, ◌≡◌, ◌≢◌, refl, Bool, true, false, Option, none, some, List, Exec, Outcome, ok,
  throw, continue, pure, raise, ltb_false→le, bind_post,
}
use tugas_akhir.Agent.Kit.{Stop, spinning}
use tugas_akhir.Agent.Types.{AreaAvailability, TicketSeat}
use tugas_akhir.Agent.Profile.{ProfileState}
use tugas_akhir.Agent.Backend.{Backend}
use tugas_akhir.Agent.Seats.{AreaSale, SeatSale, get_seats}
use tugas_akhir.Agent.Browse.{
  browsed, more_browsing, get_seat_case_area, keep_seats, try_seats, seats_or_retry, numbered_round,
  case_numbered, get_seat_case_numbered,
}
use tugas_akhir.Agent.Browse.Ends.{BrowsePost}

-- Nothing comes back only where no browse attempt is left.
abbrev pub Exhausts : {A : Type 0} → Outcome Stop (Option A × ProfileState) → Type 0
Exhausts (ok (none, t)) = t.max_browse_attempt ≤ t.current_browse_attempt
Exhausts _ = Unit {0}

pub BrowsePost-Exhausts :
    {A : Type 0} (s : ProfileState) (r : Outcome Stop (Option A × ProfileState))
    → BrowsePost s r
    → Exhausts r
BrowsePost-Exhausts s (ok (none, t)) h = h.1
BrowsePost-Exhausts s (ok (some a, t)) h = tt
BrowsePost-Exhausts s (throw e) h = tt

-- A run that gives some value, or throws.
abbrev Shows : {A : Type 0} → Outcome Stop (Option A) → Type 0
Shows (ok none) = ⊥
Shows _ = Unit {0}

module _ {W J : Type 0} (b : Backend W J) where
  -- Each request for the seats of an area gives some, or getSeats throws.
  abbrev pub ShowsSeats : Type 0
  ShowsSeats =
      (state : ProfileState) (chosen : AreaAvailability) (w : W)
      → (get_seats b state chosen w).0 ≢ ok none

  module _ (shows : ShowsSeats) where
    try_seats-Shows :
        (n : ℕ) (state : ProfileState) (found : AreaSale) (w : W)
        → Shows (try_seats b (suc n) state found w).0
    unfolding try_seats
    try_seats-Shows n state found w =
        bind_post (λ r _. Shows r) (get_seats b state found.chosen_area)
          (keep_seats b (try_seats b n state found) found) w (λ seats q. kept seats q) (λ e _. tt)
      where
        kept :
            (seats : Option (List TicketSeat))
            → (get_seats b state found.chosen_area w).0 ≡ ok seats
            → Shows
                (keep_seats b
                  (try_seats b n state found)
                  found
                  seats
                  (get_seats b state found.chosen_area w).1).0
        kept none q = absurd (shows state found.chosen_area w q)
        kept (some l) q = tt

    seats_or_retry-Exhausts :
        (retry : ProfileState → Exec W Stop (Option SeatSale × ProfileState))
        (r : Option AreaSale × ProfileState) (w : W)
        → ((state : ProfileState) (w1 : W) → Exhausts (retry state w1).0)
        → Exhausts (seats_or_retry b retry r w).0
    seats_or_retry-Exhausts retry (none, t) w ih = ih (browsed t) _
    seats_or_retry-Exhausts retry (some found, t) w ih =
        with_seats (try_seats b 3 t found w).0 (try_seats-Shows 2 t found w)
      where
        with_seats :
            (o : Outcome Stop (Option SeatSale))
            → Shows o
            → Exhausts (continue (λ seats. pure (seats, t)) o (try_seats b 3 t found w).1).0
        with_seats (ok none) h = absurd h
        with_seats (ok (some l)) h = tt
        with_seats (throw e) h = tt

    numbered_round-Exhausts :
        (retry : ProfileState → Exec W Stop (Option SeatSale × ProfileState)) (state : ProfileState)
        (more : Bool) (w : W)
        → ((state : ProfileState) (w1 : W) → Exhausts (retry state w1).0)
        → more_browsing state ≡ more
        → Exhausts (numbered_round b retry state more w).0
    numbered_round-Exhausts retry state false w ih e = ltb_false→le _ _ e
    numbered_round-Exhausts retry state true w ih e =
        bind_post (λ r _. Exhausts r) (get_seat_case_area b state) (seats_or_retry b retry) w
          (λ r _. seats_or_retry-Exhausts retry r _ ih) (λ stop _. tt)

    case_numbered-Exhausts :
        (rounds : ℕ) (state : ProfileState) (w : W) → Exhausts (case_numbered b rounds state w).0
    unfolding case_numbered
    case_numbered-Exhausts zero state w =
        numbered_round-Exhausts (λ _. raise spinning) state (more_browsing state) w (λ _ _. tt) refl
    case_numbered-Exhausts (suc rounds) state w =
        numbered_round-Exhausts (case_numbered b rounds) state (more_browsing state) w
          (case_numbered-Exhausts rounds) refl

    pub numbered-Exhausts :
        (state : ProfileState) (w : W) → Exhausts (get_seat_case_numbered b state w).0
    unfolding get_seat_case_numbered
    numbered-Exhausts state w = case_numbered-Exhausts _ state w
