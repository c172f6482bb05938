-- ===== src/Agent/Browse/Wanted.antt =====
-- What getSeatCaseArea returns.
use mathlib.Core.Path.{subst}
use mathlib.Core.List.{append_assoc, append-nil}
use tugas_akhir.Common.{
  ℕ, zero, suc, ◌≡◌, refl, sym, ◌∙◌, inl, inr, Bool, true, false, String, Option, none, some, List,
  [], ◌∷◌, ◌++◌, length, All, All-map, Any, Exec, Outcome, ok, throw, raise, continue,
}
use tugas_akhir.Agent.Kit.{Stop, spinning}
use tugas_akhir.Agent.Types.{TicketSale}
use tugas_akhir.Agent.Profile.{ProfileState, FallbackType, same_day, same_category}
use tugas_akhir.Agent.Backend.{Backend}
use tugas_akhir.Agent.Seats.{AreaSale, get_availability}
use tugas_akhir.Agent.Seats.Suits.{get_availability-RowsPost}
use tugas_akhir.Agent.Browse.{
  Rows, inspect, later_passes, first_pass, by_category, get_area_prefer_same_category, look,
  browsed, more_browsing, keep_or_retry, area_round, case_area, get_seat_case_area,
}
use tugas_akhir.Agent.Browse.Searches.{
  IsWanted, Finds, IsSelected, Fetched, Fetched-append, Finds-continue, same_day-Finds,
  inspect-Finds, or_go_on-Finds, later_passes-Finds,
}

Any-self : {A : Type 0} (xs : List A) → All (λ x. Any (λ y. y ≡ x) xs) xs
Any-self [] = tt
Any-self (x ∷ xs) = (inl refl, All-map (λ y h. inr h) xs (Any-self xs))

-- An area that comes back is a wanted one.
abbrev pub AreaPost : ProfileState → Outcome Stop (Option AreaSale × ProfileState) → Type 0
AreaPost state (ok (some found, t)) = IsWanted state found
AreaPost state (ok (none, t)) = Unit {0}
AreaPost state (throw e) = Unit {0}

module _ {W J : Type 0} (b : Backend W J) where
  first_pass-Finds :
      (state : ProfileState) (go_on : List Rows → Exec W Stop (Option AreaSale))
      (before sales : List TicketSale) (fetched : List Rows) (w : W)
      → before ++ sales ≡ state.sale_selection
      → All (IsSelected state) sales
      → Fetched state before fetched
      → ((l : List Rows) (w' : W)
          → Fetched state state.sale_selection l
          → Finds state (go_on l w').0)
      → Finds state (first_pass b state go_on sales fetched w).0
  unfolding first_pass
  first_pass-Finds state go_on before [] fetched w e sold h k =
      k fetched w (subst (λ l. Fetched state l fetched) (sym (append-nil before) ∙ e) h)
  first_pass-Finds state go_on before (sale ∷ sales) fetched w e (here, sold) h k =
      Finds-continue b state _ (get_availability b sale state w).0 _ (λ rows answered.
        let p = get_availability-RowsPost b sale state w rows answered in
        or_go_on-Finds b state (first_pass b state go_on sales (fetched ++ rows ∷ []))
          (inspect b 0 sale rows _).0 _ (inspect-Finds b state 0 sale rows _ here p)
          (λ w'.
            first_pass-Finds state go_on (before ++ sale ∷ []) sales (fetched ++ rows ∷ []) w'
              (append_assoc before (sale ∷ []) sales ∙ e) sold
              (Fetched-append state before fetched sale rows h p) k))

  by_category-Finds :
      (state : ProfileState) (tiers : List String) (w : W)
      → Finds state (by_category b state tiers w).0
  by_category-Finds state [] w = tt
  by_category-Finds state (tier ∷ tiers) w =
      first_pass-Finds state (later_passes b (length tiers) 1 state.sale_selection) []
        state.sale_selection [] w refl (Any-self state.sale_selection) tt
        (λ l w'.
          later_passes-Finds b state (length tiers) 1 state.sale_selection l w'
            (Any-self state.sale_selection))

  look-Finds :
      (fallback : FallbackType) (state : ProfileState) (w : W)
      → Finds state (look b fallback state w).0
  unfolding get_area_prefer_same_category
  look-Finds same_category state w = by_category-Finds state state.tier_order w
  look-Finds same_day state w = same_day-Finds b state w

  abbrev Retries : (ProfileState → Exec W Stop (Option AreaSale × ProfileState)) → Type 0
  Retries retry = (state : ProfileState) (w : W) → AreaPost state (retry state w).0

  kept-AreaPost :
      (retry : ProfileState → Exec W Stop (Option AreaSale × ProfileState)) (state : ProfileState)
      (r : Outcome Stop (Option AreaSale)) (w : W)
      → Retries retry
      → Finds state r
      → AreaPost state (continue (keep_or_retry b retry state) r w).0
  kept-AreaPost retry state (ok (some found)) w ih h = h
  kept-AreaPost retry state (throw e) w ih h = tt
  kept-AreaPost retry state (ok none) w ih h = browsed-AreaPost state _ (ih (browsed state) _)
    where
      browsed-AreaPost :
          (state : ProfileState) (r : Outcome Stop (Option AreaSale × ProfileState))
          → AreaPost (browsed state) r
          → AreaPost state r
      browsed-AreaPost state (ok (some found, t)) h = h
      browsed-AreaPost state (ok (none, t)) h = tt
      browsed-AreaPost state (throw e) h = tt

  round-AreaPost :
      (retry : ProfileState → Exec W Stop (Option AreaSale × ProfileState)) (state : ProfileState)
      (more : Bool) (w : W)
      → Retries retry
      → AreaPost state (area_round b retry state more w).0
  round-AreaPost retry state false w ih = tt
  round-AreaPost retry state true w ih =
      kept-AreaPost retry state (look b state.fallback_type state w).0 _ ih
        (look-Finds state.fallback_type state w)

  case_area-AreaPost :
      (rounds : ℕ) (state : ProfileState) (w : W) → AreaPost state (case_area b rounds state w).0
  unfolding case_area
  case_area-AreaPost zero state w =
      round-AreaPost (λ _. raise spinning) state (more_browsing state) w (λ s w'. tt)
  case_area-AreaPost (suc rounds) state w =
      round-AreaPost (case_area b rounds) state (more_browsing state) w (case_area-AreaPost rounds)

  -- An area that getSeatCaseArea returns stands in one of the sales that the user chose from. It is
  -- not one to skip, has at least as many seats available as the user wants, and a package of its
  -- sale under its package id belongs to a category of the user's tiers.
  pub get_seat_case_area-AreaPost :
      (state : ProfileState) (w : W) → AreaPost state (get_seat_case_area b state w).0
  unfolding get_seat_case_area
  get_seat_case_area-AreaPost state w = case_area-AreaPost _ state w
