-- ===== src/Agent/Items/Exhausts.antt =====
-- When getSeat returns null.
use mathlib.Core.Path.{subst}
use tugas_akhir.Common.{Option, none, some, List, ok, pure, ◌>>=◌, bind_post}
use tugas_akhir.Agent.Types.{OrderItemDto}
use tugas_akhir.Agent.Profile.{ProfileState, AreaType, area, seated}
use tugas_akhir.Agent.Backend.{Backend, read}
use tugas_akhir.Agent.Seats.{AreaSale, SeatSale, OrderItemSale}
use tugas_akhir.Agent.Browse.{get_seat_case_area, get_seat_case_numbered}
use tugas_akhir.Agent.Browse.Ends.{get_seat_case_area-BrowsePost}
use tugas_akhir.Agent.Browse.Exhausts.{Exhausts, BrowsePost-Exhausts, ShowsSeats, numbered-Exhausts}
use tugas_akhir.Agent.Items.{
  area_items, seat_items, order_area, order_seats, seat_by_type, get_seat,
}

module _ {W J : Type 0} (b : Backend W J) (shows : ShowsSeats b) where
  ordered-Exhausts :
      (o : Option (List OrderItemDto)) (f : List OrderItemDto → OrderItemSale) (t : ProfileState)
      (w : W)
      → Exhausts ((read o >>= λ items. pure (some (f items), t)) w).0
  ordered-Exhausts none f t w = tt
  ordered-Exhausts (some items) f t w = tt

  order_area-Exhausts :
      (r : Option AreaSale × ProfileState) (w : W) → Exhausts (ok r) → Exhausts (order_area b r w).0
  order_area-Exhausts (none, t) w h = h
  order_area-Exhausts (some found, t) w h =
      ordered-Exhausts (area_items t.ticket_count t.customers found.chosen_area) _ t w

  order_seats-Exhausts :
      (r : Option SeatSale × ProfileState) (w : W)
      → Exhausts (ok r)
      → Exhausts (order_seats b r w).0
  order_seats-Exhausts (none, t) w h = h
  order_seats-Exhausts (some found, t) w h =
      ordered-Exhausts (seat_items t.ticket_count t.customers found.seats) _ t w

  by_type-Exhausts :
      (kind : AreaType) (state : ProfileState) (w : W) → Exhausts (seat_by_type b kind state w).0
  by_type-Exhausts area state w =
      bind_post (λ r _. Exhausts r) (get_seat_case_area b state) (order_area b) w
        (λ r q. order_area-Exhausts r _ (subst Exhausts q there)) (λ stop _. tt)
    where
      there : Exhausts (get_seat_case_area b state w).0
      there = BrowsePost-Exhausts state _ (get_seat_case_area-BrowsePost b state w)
  by_type-Exhausts seated state w =
      bind_post (λ r _. Exhausts r) (get_seat_case_numbered b state) (order_seats b) w
        (λ r q. order_seats-Exhausts r _ (subst Exhausts q (numbered-Exhausts b shows state w)))
        (λ stop _. tt)

  -- Where the seats of each area can be read, getSeat returns null only when no browse attempt is
  -- left.
  pub get_seat-Exhausts : (state : ProfileState) (w : W) → Exhausts (get_seat b state w).0
  unfolding get_seat
  get_seat-Exhausts state w = by_type-Exhausts state.area_type state w
