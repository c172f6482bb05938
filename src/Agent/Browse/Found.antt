-- ===== src/Agent/Browse/Found.antt =====
-- What getSeatCaseNumbered returns.
use mathlib.Core.Path.{subst}
use tugas_akhir.Common.{
  ℕ, zero, suc, Bool, true, false, Option, none, some, List, All, Exec, Outcome, ok, throw, raise,
  continue,
}
use tugas_akhir.Agent.Kit.{Stop, spinning}
use tugas_akhir.Agent.Types.{TicketSeat}
use tugas_akhir.Agent.Profile.{ProfileState}
use tugas_akhir.Agent.Backend.{Backend}
use tugas_akhir.Agent.Seats.{AreaSale, SeatSale, get_seats}
use tugas_akhir.Agent.Seats.Available.{HaveIf, Offers, get_seats-HaveIf}
use tugas_akhir.Agent.Browse.{
  browsed, more_browsing, keep_seats, try_seats, seats_or_retry, numbered_round, case_numbered,
  get_seat_case_area, get_seat_case_numbered,
}
use tugas_akhir.Agent.Browse.Ends.{Browsed, BrowsePost, get_seat_case_area-BrowsePost}
use tugas_akhir.Agent.Browse.Searches.{IsSelected}
use tugas_akhir.Agent.Browse.Wanted.{AreaPost, get_seat_case_area-AreaPost}

module _ (P : TicketSeat → Type 0) where
  -- The seats have the property, and the sale is one that the user chose from.
  abbrev pub IsFound : ProfileState → SeatSale → Type 0
  IsFound state found = IsSelected state found.sale × All P found.seats

  abbrev FoundIf : ProfileState → Outcome Stop (Option SeatSale) → Type 0
  FoundIf state (ok (some found)) = IsFound state found
  FoundIf state (ok none) = Unit {0}
  FoundIf state (throw e) = Unit {0}

  abbrev pub NumberedPost : ProfileState → Outcome Stop (Option SeatSale × ProfileState) → Type 0
  NumberedPost state (ok (some found, t)) = IsFound state found
  NumberedPost state (ok (none, t)) = Unit {0}
  NumberedPost state (throw e) = Unit {0}

module _ {W J : Type 0} (b : Backend W J) (P : TicketSeat → Type 0) (offers : Offers b P) where
  kept_post :
      (state : ProfileState) (retry : Exec W Stop (Option SeatSale)) (found : AreaSale)
      (r : Outcome Stop (Option (List TicketSeat))) (w : W)
      → IsSelected state found.sale
      → HaveIf P r
      → ((w' : W) → FoundIf P state (retry w').0)
      → FoundIf P state (continue (keep_seats b retry found) r w).0
  kept_post state retry found (ok (some seats)) w sold h ih = (sold, h)
  kept_post state retry found (ok none) w sold h ih = ih _
  kept_post state retry found (throw e) w sold h ih = tt

  try_seats_post :
      (n : ℕ) (state t : ProfileState) (found : AreaSale) (w : W)
      → IsSelected state found.sale
      → FoundIf P state (try_seats b n t found w).0
  unfolding try_seats
  try_seats_post zero state t found w sold = tt
  try_seats_post (suc n) state t found w sold =
      kept_post state (try_seats b n t found) found (get_seats b t found.chosen_area w).0 _ sold
        (get_seats-HaveIf b P offers t found.chosen_area w)
        (λ w'. try_seats_post n state t found w' sold)

  tried_post :
      (state t : ProfileState) (r : Outcome Stop (Option SeatSale)) (w : W)
      → FoundIf P state r
      → NumberedPost P state (continue (λ seats s. (ok (seats, t), s)) r w).0
  tried_post state t (ok (some found)) w h = h
  tried_post state t (ok none) w h = tt
  tried_post state t (throw e) w h = tt

  abbrev Retries : (ProfileState → Exec W Stop (Option SeatSale × ProfileState)) → Type 0
  Retries retry = (state : ProfileState) (w : W) → NumberedPost P state (retry state w).0

  -- The state after some attempts selects from the same sales.
  same_sales :
      (state t : ProfileState) (r : Outcome Stop (Option SeatSale × ProfileState))
      → Browsed state t
      → NumberedPost P (browsed t) r
      → NumberedPost P state r
  same_sales state t (ok (some found, u)) (e, later) (sold, h) =
      (subst (λ (s : ProfileState). IsSelected s found.sale) e sold, h)
  same_sales state t (ok (none, u)) h k = tt
  same_sales state t (throw e) h k = tt

  retry_post :
      (state : ProfileState) (retry : ProfileState → Exec W Stop (Option SeatSale × ProfileState))
      (r : Outcome Stop (Option AreaSale × ProfileState)) (w : W)
      → Retries retry
      → AreaPost state r
      → BrowsePost state r
      → NumberedPost P state (continue (seats_or_retry b retry) r w).0
  retry_post state retry (ok (some found, t)) w ih wanted ends =
      tried_post state t (try_seats b 3 t found w).0 _ (try_seats_post 3 state t found w wanted.0)
  retry_post state retry (ok (none, t)) w ih wanted ends =
      same_sales state t _ ends.0 (ih (browsed t) _)
  retry_post state retry (throw e) w ih wanted ends = tt

  round_post :
      (retry : ProfileState → Exec W Stop (Option SeatSale × ProfileState)) (state : ProfileState)
      (more : Bool) (w : W)
      → Retries retry
      → NumberedPost P state (numbered_round b retry state more w).0
  round_post retry state false w ih = tt
  round_post retry state true w ih =
      retry_post state retry (get_seat_case_area b state w).0 _ ih
        (get_seat_case_area-AreaPost b state w) (get_seat_case_area-BrowsePost b state w)

  case_numbered-NumberedPost :
      (rounds : ℕ) (state : ProfileState) (w : W)
      → NumberedPost P state (case_numbered b rounds state w).0
  unfolding case_numbered
  case_numbered-NumberedPost zero state w =
      round_post (λ _. raise spinning) state (more_browsing state) w (λ s w'. tt)
  case_numbered-NumberedPost (suc rounds) state w =
      round_post (case_numbered b rounds) state (more_browsing state) w
        (case_numbered-NumberedPost rounds)

  -- The seats that getSeatCaseNumbered returns have the property, and their sale is one of those that
  -- the user chose from.
  pub get_seat_case_numbered-NumberedPost :
      (state : ProfileState) (w : W) → NumberedPost P state (get_seat_case_numbered b state w).0
  unfolding get_seat_case_numbered
  get_seat_case_numbered-NumberedPost state w = case_numbered-NumberedPost _ state w
