-- ===== src/Agent/Browse/Searches.antt =====
-- What the searches of getSeatCaseArea find, by the rows of areas that they go through.
use tugas_akhir.Common.{
  ℕ, zero, suc, ◌≡◌, refl, ap, Option, none, some, List, [], ◌∷◌, ◌++◌, length, get_elem?, All,
  All-get_elem?, Any, Any-filter, Any-get_elem?, Exec, Outcome, ok, throw, continue,
}
use tugas_akhir.Agent.Kit.{Stop}
use tugas_akhir.Agent.Types.{AreaAvailability, TicketSale}
use tugas_akhir.Agent.Profile.{ProfileState}
use tugas_akhir.Agent.Backend.{Backend}
use tugas_akhir.Agent.Seats.{AreaSale, get_availability}
use tugas_akhir.Agent.Seats.Suits.{Suits, SuitRows, RowsPost, get_availability-RowsPost}
use tugas_akhir.Agent.Browse.{
  Rows, area_result, random_area, first_area, first_of_rows, area_of_sale, sale_options,
  random_sale, select_ticket_sale, get_area_prefer_same_day, inspect_row, inspect, or_go_on,
  later_pass, later_passes,
}

-- An area that suits the user, in one of the sales that the user chose from.
abbrev pub IsWanted : ProfileState → AreaSale → Type 0
IsWanted state found =
    Any (λ s. s ≡ found.sale) state.sale_selection
    × Suits state.tier_order state found.sale found.chosen_area

-- If an area was found, it is a wanted one.
abbrev pub Finds : ProfileState → Outcome Stop (Option AreaSale) → Type 0
Finds state (ok (some found)) = IsWanted state found
Finds state (ok none) = Unit {0}
Finds state (throw e) = Unit {0}

abbrev pub IsSelected : ProfileState → TicketSale → Type 0
IsSelected state sale = Any (λ s. s ≡ sale) state.sale_selection

-- The rows that were fetched for sales, in their order.
abbrev pub Fetched : ProfileState → List TicketSale → List Rows → Type 0
Fetched state [] [] = Unit {0}
Fetched state (sale ∷ sales) (rows ∷ fetched) =
    RowsPost state sale rows × Fetched state sales fetched
Fetched state _ _ = ⊥

pub Fetched-append :
    (state : ProfileState) (sales : List TicketSale) (fetched : List Rows) (sale : TicketSale)
    (rows : Rows)
    → Fetched state sales fetched
    → RowsPost state sale rows
    → Fetched state (sales ++ sale ∷ []) (fetched ++ rows ∷ [])
Fetched-append state [] [] sale rows h p = (p, tt)
Fetched-append state [] (r ∷ rs) sale rows h p = absurd h
Fetched-append state (s ∷ ss) [] sale rows h p = absurd h
Fetched-append state (s ∷ ss) (r ∷ rs) sale rows (q, h) p =
    (q, Fetched-append state ss rs sale rows h p)

module _ {W J : Type 0} (b : Backend W J) where
  pub Finds-continue :
      {A : Type 0} (state : ProfileState) (f : A → Exec W Stop (Option AreaSale))
      (r : Outcome Stop A) (w : W)
      → ((a : A) → r ≡ ok a → Finds state (f a w).0)
      → Finds state (continue f r w).0
  Finds-continue state f (ok a) w h = h a refl
  Finds-continue state f (throw e) w h = tt

  area_result-Finds :
      (state : ProfileState) (sale : TicketSale) (areas : List AreaAvailability) (i : ℕ)
      (item : Option AreaAvailability) (w : W)
      → get_elem? areas i ≡ item
      → IsSelected state sale
      → All (Suits state.tier_order state sale) areas
      → Finds state (area_result b sale item w).0
  area_result-Finds state sale areas i none w e sold h = tt
  area_result-Finds state sale areas i (some a) w e sold h =
      (sold, All-get_elem? (Suits state.tier_order state sale) areas i a h e)

  random_area-Finds :
      (state : ProfileState) (sale : TicketSale) (areas : List AreaAvailability) (w : W)
      → IsSelected state sale
      → All (Suits state.tier_order state sale) areas
      → Finds state (random_area b sale areas w).0
  random_area-Finds state sale areas w = area_result-Finds state sale areas _ _ _ refl

  first_area-Finds :
      (state : ProfileState) (sale : TicketSale) (rows : List (List AreaAvailability)) (w : W)
      → IsSelected state sale
      → SuitRows state.tier_order state sale rows
      → Finds state (first_area b sale rows w).0
  unfolding first_area
  first_area-Finds state sale [] w sold h = tt
  first_area-Finds state sale ([] ∷ rows) w sold (p, h) = first_area-Finds state sale rows w sold h
  first_area-Finds state sale ((a ∷ areas) ∷ rows) w sold (p, h) =
      random_area-Finds state sale (a ∷ areas) w sold p

  first_of_rows-Finds :
      (state : ProfileState) (sale : TicketSale) (rows : Rows) (w : W)
      → IsSelected state sale
      → RowsPost state sale rows
      → Finds state (first_of_rows b sale rows w).0
  first_of_rows-Finds state sale none w sold h = tt
  first_of_rows-Finds state sale (some rows) w sold h = first_area-Finds state sale rows w sold h

  abbrev SelectedIf : ProfileState → Option TicketSale → Type 0
  SelectedIf state none = Unit {0}
  SelectedIf state (some sale) = IsSelected state sale

  area_of_sale-Finds :
      (state : ProfileState) (sale : Option TicketSale) (w : W)
      → SelectedIf state sale
      → Finds state (area_of_sale b state sale w).0
  area_of_sale-Finds state none w sold = tt
  area_of_sale-Finds state (some sale) w sold =
      Finds-continue state (first_of_rows b sale) (get_availability b sale state w).0 _ (λ rows e.
        first_of_rows-Finds state sale rows _ sold
          (get_availability-RowsPost b sale state w rows e))

  drawn-SelectedIf :
      (state : ProfileState) (i : ℕ) (o : Option TicketSale)
      → get_elem? (sale_options b state) i ≡ o
      → SelectedIf state o
  drawn-SelectedIf state i none e = tt
  drawn-SelectedIf state i (some sale) e =
      Any-filter (λ s. s ≡ sale) _ state.sale_selection
        (Any-get_elem? (sale_options b state) i sale e)

  random_sale-Finds :
      (state : ProfileState) (options : List TicketSale) (w : W)
      → sale_options b state ≡ options
      → Finds state
          (continue
            (area_of_sale b state)
            (random_sale b options w).0
            (random_sale b options w).1).0
  random_sale-Finds state [] w e = tt
  random_sale-Finds state (s ∷ options) w e = area_of_sale-Finds state _ _ (
      drawn-SelectedIf state _ _ (
        ap (λ (l : List TicketSale). get_elem? l (b.kit.random_index (length (s ∷ options)) w).0)
          e))

  pub same_day-Finds :
      (state : ProfileState) (w : W) → Finds state (get_area_prefer_same_day b state w).0
  unfolding get_area_prefer_same_day select_ticket_sale
  same_day-Finds state w = random_sale-Finds state (sale_options b state) w refl

  row-Finds :
      (state : ProfileState) (sale : TicketSale) (rows : List (List AreaAvailability)) (cat : ℕ)
      (row : Option (List AreaAvailability)) (w : W)
      → get_elem? rows cat ≡ row
      → IsSelected state sale
      → SuitRows state.tier_order state sale rows
      → Finds state (inspect_row b sale row w).0
  row-Finds state sale rows cat none w e sold h = tt
  row-Finds state sale rows cat (some []) w e sold h = tt
  row-Finds state sale rows cat (some (a ∷ areas)) w e sold h =
      random_area-Finds state sale (a ∷ areas) w sold (
        All-get_elem? (λ row. All (Suits state.tier_order state sale) row) rows cat (a ∷ areas) h e)

  pub inspect-Finds :
      (state : ProfileState) (cat : ℕ) (sale : TicketSale) (rows : Rows) (w : W)
      → IsSelected state sale
      → RowsPost state sale rows
      → Finds state (inspect b cat sale rows w).0
  inspect-Finds state cat sale none w sold h = tt
  inspect-Finds state cat sale (some []) w sold h = tt
  inspect-Finds state cat sale (some (row ∷ rows)) w sold h =
      row-Finds state sale (row ∷ rows) cat _ w refl sold h

  -- A loop goes on after a body that found nothing, or returns what it found.
  pub or_go_on-Finds :
      (state : ProfileState) (rest : Exec W Stop (Option AreaSale))
      (r : Outcome Stop (Option AreaSale)) (w : W)
      → Finds state r
      → ((w' : W) → Finds state (rest w').0)
      → Finds state (continue (or_go_on b rest) r w).0
  or_go_on-Finds state rest (ok none) w h k = k w
  or_go_on-Finds state rest (ok (some found)) w h k = h
  or_go_on-Finds state rest (throw e) w h k = tt

  later_pass-Finds :
      (state : ProfileState) (cat : ℕ) (sales : List TicketSale) (fetched : List Rows) (w : W)
      → All (IsSelected state) sales
      → Fetched state sales fetched
      → Finds state (later_pass b cat sales fetched w).0
  unfolding later_pass
  later_pass-Finds state cat [] fetched w sold h = tt
  later_pass-Finds state cat (sale ∷ sales) [] w sold h = tt
  later_pass-Finds state cat (sale ∷ sales) (rows ∷ fetched) w (here, sold) (p, h) =
      or_go_on-Finds state (later_pass b cat sales fetched) (inspect b cat sale rows w).0 _
        (inspect-Finds state cat sale rows w here p)
        (λ w'. later_pass-Finds state cat sales fetched w' sold h)

  pub later_passes-Finds :
      (state : ProfileState) (n cat : ℕ) (sales : List TicketSale) (fetched : List Rows) (w : W)
      → All (IsSelected state) sales
      → Fetched state sales fetched
      → Finds state (later_passes b n cat sales fetched w).0
  unfolding later_passes
  later_passes-Finds state zero cat sales fetched w sold h = tt
  later_passes-Finds state (suc n) cat sales fetched w sold h =
      or_go_on-Finds state (later_passes b n (suc cat) sales fetched)
        (later_pass b cat sales fetched w).0 _ (later_pass-Finds state cat sales fetched w sold h)
        (λ w'. later_passes-Finds state n (suc cat) sales fetched w' sold h)
