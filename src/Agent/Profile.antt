-- ===== src/Agent/Profile.antt =====
-- implementation/agent/src/utils/profile.ts and faker.ts: the choice of a profile, and the state of
-- a virtual user that it gives. Sets of ids are lists.
pub mod Table
pub mod Choice
pub mod State
use tugas_akhir.Common.{
  ℕ, zero, suc, ◌+◌, ◌*◌, ◌/◌, String, Option, none, some, List, [], ◌∷◌, length, if◌then◌else◌,
  leb,
}
use tugas_akhir.Common.Int.{ℤ, pos, pos_part}
use tugas_akhir.Common.Slice.{slice}
use tugas_akhir.Agent.Kit.{Kit, denominator}
use tugas_akhir.Agent.Random.{shuffled}
use tugas_akhir.Agent.Types.{TicketSale, Event}
use Table.{
  DayPreference, specific, any_day, SeatingTier, seated_low, seated_mid, seated_high, area_mid,
  area_high, Quantity, solo, couple, group, Persistence, medium, UserProfile, Weighted,
  user_profiles_data,
}

pub record Cumulative : Type 0 where
  pub profile : UserProfile
  pub cumulative : ℕ

-- profilesWithCumulative, from a sum so far.
pub with_cumulative : ℕ → List Weighted → List Cumulative
with_cumulative sum [] = []
with_cumulative sum (e ∷ es) =
    (record { profile = e.profile; cumulative = sum + e.probability })
    ∷ with_cumulative (sum + e.probability) es

-- totalProbability
pub total_probability : List Weighted → ℕ
total_probability [] = 0
total_probability (e ∷ es) = e.probability + total_probability es

-- The loop of getUserProfile: `value` is `Math.random() * totalProbability`, times the denominator.
pub find_profile : ℕ → List Cumulative → Option UserProfile
find_profile value [] = none
find_profile value (e ∷ es) =
    let rest = find_profile value es in
    if leb value (e.cumulative * denominator) then some e.profile else rest

abbrev last_profile : List Cumulative → Option UserProfile
last_profile [] = none
last_profile (e ∷ []) = some e.profile
last_profile (e ∷ f ∷ es) = last_profile (f ∷ es)

abbrev or_last : Option UserProfile → List Cumulative → Option UserProfile
or_last (some p) table = some p
or_last none table = last_profile table

-- getUserProfile over a table, by the draw r of Math.random().
unfoldable pub choose : List Weighted → ℕ → Option UserProfile
unfolding find_profile with_cumulative total_probability
choose table r =
    or_last (find_profile (r * total_probability table) (with_cumulative 0 table))
      (with_cumulative 0 table)

pub record Customer : Type 0 where
  pub name : String
  pub email : String

pub data FallbackType : Type 0 where
  same_day same_category : FallbackType

pub data AreaType : Type 0 where
  area seated : AreaType

pub record ProfileState : Type 0 where
  pub sale_selection : List TicketSale
  pub ticket_count : ℕ
  pub tier_order : List String
  pub customers : List Customer
  pub current_browse_attempt : ℕ
  pub max_browse_attempt : ℕ
  pub current_order_attempt : ℕ
  pub max_order_attempt : ℕ
  pub fallback_type : FallbackType
  pub area_type : AreaType
  pub sale_skip : List ℕ
  pub seat_skip : List ℕ
  pub area_skip : List ℕ

abbrev pub max_browse : Persistence → ℕ
max_browse Persistence.high = 27
max_browse medium = 18
max_browse Persistence.low = 9

abbrev pub max_order : Persistence → ℕ
max_order Persistence.high = 9
max_order medium = 6
max_order Persistence.low = 3

abbrev pub area_of : SeatingTier → AreaType
area_of area_mid = area
area_of area_high = area
area_of _ = seated

-- `event.ticketSales || []`
abbrev pub sales_of : Option (List TicketSale) → List TicketSale
sales_of none = []
sales_of (some sales) = sales

-- `randomItem(["Same Day", "Same Category"])`
abbrev fallback_of : ℕ → FallbackType
fallback_of zero = same_day
fallback_of _ = same_category

module _ {W : Type 0} (kit : Kit W) where
  unfoldable pub get_user_profile : W → Option UserProfile × W
  unfolding choose
  get_user_profile w = (choose user_profiles_data (kit.random w).0, (kit.random w).1)

  pub generate_customer : W → Customer × W
  generate_customer w = (
    record { email = (kit.email w).0; name = (kit.name (kit.email w).1).0 },
    (kit.name (kit.email w).1).1,
  )

  -- The loop that fills state.customers.
  pub generate_customers : ℕ → W → List Customer × W
  unfolding generate_customer
  generate_customers zero w = ([], w)
  generate_customers (suc n) w =
      let (c, w1) = generate_customer w in let (cs, w2) = generate_customers n w1 in (c ∷ cs, w2)

  pub choose_fallback : W → FallbackType × W
  choose_fallback w = (fallback_of (kit.random_index 2 w).0, (kit.random_index 2 w).1)

  -- From the shuffled sales.
  pub choose_sales : DayPreference → List TicketSale → W → List TicketSale × W
  choose_sales any_day sales w = (sales, w)
  choose_sales specific sales w =
      let (count, w1) = kit.random_int (pos 1) (pos (length sales / 2)) w in
      (slice sales (pos 0) count, w1)

  pub choose_count : Quantity → W → ℕ × W
  choose_count solo w = (1, w)
  choose_count couple w = (2, w)
  choose_count group w =
      (pos_part (kit.random_int (pos 3) (pos 5) w).0, (kit.random_int (pos 3) (pos 5) w).1)

  pub choose_tiers : SeatingTier → W → List String × W
  choose_tiers seated_low w = ("Bronze" ∷ "Silver" ∷ [], w)
  choose_tiers seated_mid w =
      let (second, w1) = shuffled kit ("Gold" ∷ "Bronze" ∷ []) w in ("Silver" ∷ second, w1)
  choose_tiers seated_high w = shuffled kit ("Platinum" ∷ "Gold" ∷ []) w
  choose_tiers area_mid w = ("VIP" ∷ "Zone A" ∷ [], w)
  choose_tiers area_high w = shuffled kit ("Zone A" ∷ "Zone B" ∷ []) w

  unfoldable pub get_profile_state : UserProfile → Event → W → ProfileState × W
  get_profile_state profile event w =
      let (fallback, w1) = choose_fallback w in
      let (all_sales, w2) = shuffled kit (sales_of event.ticket_sales) w1 in
      let (selection, w3) = choose_sales profile.day_preference all_sales w2 in
      let (count, w4) = choose_count profile.quantity w3 in
      let (people, w5) = generate_customers count w4 in
      let (tiers, w6) = choose_tiers profile.seating_tier w5 in
      (
        record {
          sale_selection = selection;
          ticket_count = count;
          tier_order = tiers;
          customers = people;
          current_browse_attempt = 0;
          max_browse_attempt = max_browse profile.persistence;
          current_order_attempt = 0;
          max_order_attempt = max_order profile.persistence;
          fallback_type = fallback;
          area_type = area_of profile.seating_tier;
          sale_skip = [];
          seat_skip = [];
          area_skip = [];
        },
        w6,
      )
