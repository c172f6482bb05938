-- ===== src/Agent/Profile/State.antt =====
-- What holds of a fresh ProfileState.
use mathlib.Core.List.{Perm, append-nil}
use mathlib.Core.Path.{subst}
use tugas_akhir.Common.{
  ℕ, zero, suc, ◌*◌, ◌/◌, ◌≤◌, String, ◌≡◌, refl, sym, ap, List, [], ◌∷◌, ◌++◌, length,
  take-append-drop, arith,
}
use tugas_akhir.Common.Int.{ℤ, pos, between_pos}
use tugas_akhir.Common.Slice.{slice, clamp_index, length-slice}
use tugas_akhir.Agent.Kit.{Kit, KitLaws}
use tugas_akhir.Agent.Random.{shuffled}
use tugas_akhir.Agent.Random.Permutes.{shuffled-perm, length-shuffled}
use tugas_akhir.Agent.Types.{TicketSale, Event}
use tugas_akhir.Agent.Profile.Table.{
  DayPreference, specific, any_day, SeatingTier, seated_low, seated_mid, seated_high, area_mid,
  area_high, Quantity, solo, couple, group, Persistence, UserProfile,
}
use tugas_akhir.Agent.Profile.{
  ProfileState, choose_fallback, choose_sales, choose_count, choose_tiers, generate_customers,
  max_browse, max_order, area_of, sales_of, get_profile_state,
}

clamp_start : (n : ℕ) → clamp_index n (pos 0) ≡ 0
clamp_start n = omega arith

-- A slice from the start and what is left of it make up the array.
slice_rest :
    {A : Type 0} (xs : List A) (end : ℤ) → (rest : List A) × (slice xs (pos 0) end ++ rest ≡ xs)
slice_rest xs end = rw (clamp_start (length xs)) (_, take-append-drop _ xs)

module _ {W : Type 0} (kit : Kit W) (laws : KitLaws kit) where
  choose_sales_rest :
      (d : DayPreference) (sales : List TicketSale) (w : W)
      → (rest : List TicketSale) × ((choose_sales kit d sales w).0 ++ rest ≡ sales)
  unfolding choose_sales
  choose_sales_rest any_day sales w = ([], append-nil sales)
  choose_sales_rest specific sales w = slice_rest sales _

  -- Of at least two days, a user with a specific preference takes from one to half of them.
  specific_length :
      (sales : List TicketSale) (w : W)
      → 2 ≤ length sales
      → (1 ≤ length (choose_sales kit specific sales w).0)
        × (length (choose_sales kit specific sales w).0 ≤ length sales / 2)
  unfolding choose_sales
  specific_length sales w h =
      let (lo, hi) = laws.random_int-between (pos 1) (pos (length sales / 2)) w (omega arith) in
      let (n, e, l, u) = between_pos 1 (length sales / 2) _ lo hi in
      rw e (omega (arith, l, u, length-slice sales 0 n (omega arith) (omega (arith, u))))

  choose_count_bounds :
      (q : Quantity) (w : W) → (1 ≤ (choose_count kit q w).0) × ((choose_count kit q w).0 ≤ 5)
  unfolding choose_count
  choose_count_bounds solo w = omega arith
  choose_count_bounds couple w = omega arith
  choose_count_bounds group w =
      let (lo, hi) = laws.random_int-between (pos 3) (pos 5) w (omega arith) in
      let (n, e, l, u) = between_pos 3 5 _ lo hi in rw e (omega (arith, l, u))

  length-generate_customers : (n : ℕ) (w : W) → length (generate_customers kit n w).0 ≡ n
  unfolding generate_customers
  length-generate_customers zero w = refl
  length-generate_customers (suc n) w = ap suc (length-generate_customers n _)

  choose_tiers-ne-nil : (t : SeatingTier) (w : W) → 2 ≤ length (choose_tiers kit t w).0
  unfolding choose_tiers
  choose_tiers-ne-nil seated_low w = omega arith
  choose_tiers-ne-nil seated_mid w =
      omega (arith, length-shuffled kit laws {T = String} ("Gold" ∷ "Bronze" ∷ []) w)
  choose_tiers-ne-nil seated_high w =
      omega (arith, length-shuffled kit laws {T = String} ("Platinum" ∷ "Gold" ∷ []) w)
  choose_tiers-ne-nil area_mid w = omega arith
  choose_tiers-ne-nil area_high w =
      omega (arith, length-shuffled kit laws {T = String} ("Zone A" ∷ "Zone B" ∷ []) w)

  attempts : (s : Persistence) → (max_browse s ≡ 3 * max_order s) × (3 ≤ max_order s)
  attempts Persistence.low = omega arith
  attempts _ = omega arith

-- What a user starts with: some of the days on sale, each once; from 1 to 5 tickets with a customer
-- for each; no attempt made, three times as many browse attempts as order attempts to make, which
-- are 3 at least; two or three tiers, of a free area exactly for a tier of areas.
pub record IsFresh (profile : UserProfile) (event : Event) (s : ProfileState) : Type 0 where
  pub unseen : List TicketSale
  pub offered : Perm (s.sale_selection ++ unseen) (sales_of event.ticket_sales)
  pub few_tickets : (1 ≤ s.ticket_count) × (s.ticket_count ≤ 5)
  pub all_named : length s.customers ≡ s.ticket_count
  pub no_attempt : (s.current_browse_attempt ≡ 0) × (s.current_order_attempt ≡ 0)
  pub patience : (s.max_browse_attempt ≡ 3 * s.max_order_attempt) × (3 ≤ s.max_order_attempt)
  pub tiers : 2 ≤ length s.tier_order
  pub kind : s.area_type ≡ area_of profile.seating_tier

module _ {W : Type 0} (kit : Kit W) (laws : KitLaws kit) where
  -- Whatever is drawn, getProfileState gives a fresh state.
  pub get_profile_state-IsFresh :
      (profile : UserProfile) (event : Event) (w : W)
      → IsFresh profile event (get_profile_state kit profile event w).0
  unfolding get_profile_state
  get_profile_state-IsFresh profile event w =
      let w1 = (choose_fallback kit w).1 in
      let w2 = (shuffled kit (sales_of event.ticket_sales) w1).1 in
      let w3 =
        (choose_sales kit profile.day_preference (shuffled kit (sales_of event.ticket_sales) w1).0
          w2).1 in
      let w4 = (choose_count kit profile.quantity w3).1 in
      let (rest, e) =
        choose_sales_rest kit laws profile.day_preference
          (shuffled kit (sales_of event.ticket_sales) w1).0 w2 in
      record {
        unseen = rest;
        offered =
            subst (λ l. Perm l (sales_of event.ticket_sales)) (sym e)
              (shuffled-perm kit laws (sales_of event.ticket_sales) w1);
        few_tickets = choose_count_bounds kit laws profile.quantity w3;
        all_named = length-generate_customers kit laws _ w4;
        no_attempt = (refl, refl);
        patience = attempts kit laws profile.persistence;
        tiers = choose_tiers-ne-nil kit laws profile.seating_tier _;
        kind = refl;
      }

  -- A user with a specific day, if there are two days at least, takes from one to half of them.
  pub get_profile_state-specific :
      (profile : UserProfile) (event : Event) (w : W)
      → profile.day_preference ≡ specific
      → 2 ≤ length (sales_of event.ticket_sales)
      → (1 ≤ length (get_profile_state kit profile event w).0.sale_selection)
        × (length (get_profile_state kit profile event w).0.sale_selection
            ≤ length (sales_of event.ticket_sales) / 2)
  unfolding get_profile_state
  get_profile_state-specific profile event w e h =
      let w1 = (choose_fallback kit w).1 in
      let same = length-shuffled kit laws (sales_of event.ticket_sales) w1 in
      let (lo, hi) =
        specific_length kit laws (shuffled kit (sales_of event.ticket_sales) w1).0
          (shuffled kit (sales_of event.ticket_sales) w1).1 (omega (arith, same, h)) in
      rw e (
        lo,
        subst
            (λ (n : ℕ).
              length
                (choose_sales kit specific (shuffled kit (sales_of event.ticket_sales) w1).0
                  (shuffled kit (sales_of event.ticket_sales) w1).1).0
              ≤ n / 2)
            same hi,
      )
