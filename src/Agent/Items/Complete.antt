-- ===== src/Agent/Items/Complete.antt =====
-- The items that getSeat returns.
use mathlib.Core.Option
use mathlib.Core.Path.{subst}
use tugas_akhir.Common.{
  ℕ, zero, suc, ◌≡◌, ◌≢◌, refl, sym, ap, String, Option, none, some, List, [], ◌∷◌, map, length,
  take, Outcome, ok, throw, pure, ◌>>=◌, bind_post,
}
use tugas_akhir.Agent.Kit.{Stop, spinning}
use tugas_akhir.Agent.Types.{AreaAvailability, TicketSeat, OrderItemDto}
use tugas_akhir.Agent.Profile.{Customer, ProfileState, AreaType, area, seated}
use tugas_akhir.Agent.Backend.{Backend, read}
use tugas_akhir.Agent.Seats.{AreaSale, SeatSale, OrderItemSale}
use tugas_akhir.Agent.Browse.{get_seat_case_area, get_seat_case_numbered}
use tugas_akhir.Agent.Browse.Ends.{
  Browsed, BrowsePost, SeatsPost, get_seat_case_area-BrowsePost, get_seat_case_numbered-SeatsPost,
}
use tugas_akhir.Agent.Items.{
  area_item, seat_item, area_items, seat_items, order_area, order_seats, seat_by_type, get_seat,
}

abbrev pub named : OrderItemDto → String × String
named i = (i.customer_name, i.customer_email)

abbrev pub customer_names : Customer → String × String
customer_names c = (c.name, c.email)

-- There are `n` items, the k-th in the name of the k-th customer.
abbrev pub IsComplete : ℕ → List Customer → List OrderItemDto → Type 0
IsComplete n customers items =
    (length items ≡ n) × (map named items ≡ map customer_names (take n customers))

abbrev CompleteIf : ℕ → List Customer → Option (List OrderItemDto) → Type 0
CompleteIf n customers none = Unit
CompleteIf n customers (some items) = IsComplete n customers items

one_more :
    (n : ℕ) (c : Customer) (customers : List Customer) (item : OrderItemDto)
    (o : Option (List OrderItemDto))
    → named item ≡ customer_names c
    → CompleteIf n customers o
    → CompleteIf (suc n) (c ∷ customers) (Option.map (λ items. item ∷ items) o)
one_more n c customers item none e h = tt
one_more n c customers item (some items) e (l, m) = (ap suc l, cc (e, m))

area_items-CompleteIf :
    (n : ℕ) (customers : List Customer) (a : AreaAvailability)
    → CompleteIf n customers (area_items n customers a)
unfolding area_items
area_items-CompleteIf zero customers a = (refl, refl)
area_items-CompleteIf (suc n) [] a = tt
area_items-CompleteIf (suc n) (c ∷ customers) a =
    one_more n c customers (area_item c a) (area_items n customers a) refl
      (area_items-CompleteIf n customers a)

seat_items-CompleteIf :
    (n : ℕ) (customers : List Customer) (seats : List TicketSeat)
    → CompleteIf n customers (seat_items n customers seats)
unfolding seat_items
seat_items-CompleteIf zero customers seats = (refl, refl)
seat_items-CompleteIf (suc n) [] seats = tt
seat_items-CompleteIf (suc n) (c ∷ customers) [] = tt
seat_items-CompleteIf (suc n) (c ∷ customers) (s ∷ seats) =
    one_more n c customers (seat_item c s) (seat_items n customers seats) refl
      (seat_items-CompleteIf n customers seats)

-- What getSeat says of the items that it returns, and of the state.
abbrev pub ItemsPost : ProfileState → Outcome Stop (Option OrderItemSale × ProfileState) → Type 0
ItemsPost s (ok (none, t)) = Browsed s t
ItemsPost s (ok (some chosen, t)) = Browsed s t × IsComplete s.ticket_count s.customers chosen.items
ItemsPost s (throw e) = e ≢ spinning

module _ {W J : Type 0} (b : Backend W J) where
  items_read_post :
      (s t : ProfileState) (o : Option (List OrderItemDto)) (f : List OrderItemDto → OrderItemSale)
      (w : W)
      → ((items : List OrderItemDto) → (f items).items ≡ items)
      → Browsed s t
      → CompleteIf t.ticket_count t.customers o
      → ItemsPost s ((read o >>= λ items. pure (some (f items), t)) w).0
  items_read_post s t none f w e h k = λ q. cc q
  items_read_post s t (some items) f w e h k = (
    h,
    subst (IsComplete s.ticket_count s.customers) (sym (e items))
        (subst (λ (u : ProfileState). IsComplete u.ticket_count u.customers items) (h.0) k),
  )

  order_area_post :
      (s : ProfileState) (r : Option AreaSale × ProfileState) (w : W)
      → BrowsePost s (ok r)
      → ItemsPost s (order_area b r w).0
  order_area_post s (none, t) w h = h.0
  order_area_post s (some found, t) w h =
      items_read_post s t (area_items t.ticket_count t.customers found.chosen_area)
        (λ items. record { items = items; sale = found.sale }) w (λ items. refl) h.0
        (area_items-CompleteIf t.ticket_count t.customers found.chosen_area)

  order_seats_post :
      (s : ProfileState) (r : Option SeatSale × ProfileState) (w : W)
      → SeatsPost s (ok r)
      → ItemsPost s (order_seats b r w).0
  order_seats_post s (none, t) w h = h
  order_seats_post s (some found, t) w h =
      items_read_post s t (seat_items t.ticket_count t.customers found.seats)
        (λ items. record { items = items; sale = found.sale }) w (λ items. refl) h
        (seat_items-CompleteIf t.ticket_count t.customers found.seats)

  seat_by_type_post :
      (kind : AreaType) (s : ProfileState) (w : W) → ItemsPost s (seat_by_type b kind s w).0
  seat_by_type_post area s w =
      let post = get_seat_case_area-BrowsePost b s w in
      bind_post (λ o _. ItemsPost s o) (get_seat_case_area b s) (order_area b) w
        (λ r q. order_area_post s r _ (subst (BrowsePost s) q post))
        (λ e q. subst (BrowsePost s) q post)
  seat_by_type_post seated s w =
      let post = get_seat_case_numbered-SeatsPost b s w in
      bind_post (λ o _. ItemsPost s o) (get_seat_case_numbered b s) (order_seats b) w
        (λ r q. order_seats_post s r _ (subst (SeatsPost s) q post))
        (λ e q. subst (SeatsPost s) q post)

  -- getSeat returns or throws, within the browse attempts that are left. What it returns is null or
  -- as many items as the user wants tickets, the k-th in the name and email of the user's k-th
  -- customer; of the state it changes the counter of browse attempts only.
  pub get_seat-ItemsPost : (state : ProfileState) (w : W) → ItemsPost state (get_seat b state w).0
  unfolding get_seat
  get_seat-ItemsPost state w = seat_by_type_post state.area_type state w
