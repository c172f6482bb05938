-- ===== src/Agent/Profile/Choice.antt =====
-- Which profile a draw selects.
use tugas_akhir.Common.{
  ℕ, ◌+◌, ◌*◌, ◌<◌, ◌≤◌, ◌≡◌, ◌⊎◌, refl, ap, Option, some, List, [], ◌∷◌, ◌++◌, inl, inr, arith,
  Bool-cases, leb, leb→le, leb_false→lt, Bool, true, false, if◌then◌else◌, ◌∙◌, length,
}
use tugas_akhir.Agent.Kit.{denominator}
use tugas_akhir.Agent.Profile.Table.{
  DayPreference, specific, any_day, Quantity, solo, couple, group, Persistence, medium, SeatingTier,
  seated_low, seated_mid, seated_high, area_mid, area_high, UserProfile, Weighted,
  user_profiles_data,
}
use tugas_akhir.Agent.Profile.{
  Cumulative, or_last, with_cumulative, total_probability, find_profile, choose,
}

-- The row of the table in whose interval the value falls.
pub record Selected (table : List Weighted) (sum value : ℕ) (p : Option UserProfile) : Type 0 where
  pub before : List Weighted
  pub row : Weighted
  pub after : List Weighted
  pub listed : table ≡ before ++ row ∷ after
  pub chosen : p ≡ some row.profile
  pub above : (before ≡ []) ⊎ ((sum + total_probability before) * denominator < value)
  pub below : value ≤ (sum + total_probability before + row.probability) * denominator

find_profile-Selected :
    (table : List Weighted) (sum value : ℕ)
    → (sum * denominator < value) ⊎ (0 < length table)
    → value ≤ (sum + total_probability table) * denominator
    → Selected table sum value (find_profile value (with_cumulative sum table))
unfolding find_profile with_cumulative total_probability
find_profile-Selected [] sum value (inl low) high = absurd (omega arith)
find_profile-Selected [] sum value (inr low) high = absurd (omega arith)
find_profile-Selected (e ∷ es) sum value low high =
    elim (Bool-cases (leb value ((sum + e.probability) * denominator))) [
      | inl hit ↦ record {
        before = [];
        row = e;
        after = es;
        listed = refl;
        chosen = rw hit;
        above = inl refl;
        below = omega (arith, leb→le _ _ hit);
      }
      | inr miss ↦
          later (leb_false→lt _ _ miss)
            (find_profile-Selected es (sum + e.probability) value (inl (leb_false→lt _ _ miss))
              (omega arith))
            (rw miss)
    ]
  where
    later :
        (sum + e.probability) * denominator < value
        → {r q : Option UserProfile} → Selected es (sum + e.probability) value r
        → q ≡ r
        → Selected (e ∷ es) sum value q
    later past s same = record {
      before = e ∷ s.before;
      row = s.row;
      after = s.after;
      listed = ap (λ (l : List Weighted). e ∷ l) s.listed;
      chosen = same ∙ s.chosen;
      above = elim s.above [
        | inl none_before ↦ inr (omega (arith, past, ap total_probability none_before))
        | inr h ↦ inr (omega (arith, h))
      ];
      below = omega (arith, s.below);
    }

or_last-some :
    {p : Option UserProfile} {q : UserProfile} (l : List Cumulative)
    → p ≡ some q
    → or_last p l ≡ some q
or_last-some l h = rw h

value-le-total : (r total : ℕ) → r < denominator → r * total ≤ (0 + total) * denominator
value-le-total r total h = grind arith

-- A draw r below 2 ^ 53 selects a row of the table, the one in whose interval r * total falls when
-- the probabilities are laid end to end: the fallback behind the loop is never taken, and every row
-- is chosen by a share of the draws that is its probability over the total.
pub choose-Selected :
    (table : List Weighted) (r : ℕ)
    → 0 < length table
    → r < denominator
    → Selected table 0 (r * total_probability table) (choose table r)
unfolding choose
choose-Selected table r h k =
    let s =
      find_profile-Selected table 0 (r * total_probability table) (inr h)
        (value-le-total r (total_probability table) k) in
    record {
      before = s.before;
      row = s.row;
      after = s.after;
      listed = s.listed;
      chosen = or_last-some (with_cumulative 0 table) s.chosen;
      above = s.above;
      below = s.below;
    }

-- The sum of the probabilities of the rows that a test picks.
pub share : (UserProfile → Bool) → List Weighted → ℕ
share test [] = 0
share test (e ∷ es) = (if test e.profile then e.probability else 0) + share test es

abbrev pub is_tier : SeatingTier → SeatingTier → Bool
is_tier seated_low seated_low = true
is_tier seated_mid seated_mid = true
is_tier seated_high seated_high = true
is_tier area_mid area_mid = true
is_tier area_high area_high = true
is_tier _ _ = false

abbrev pub is_day : DayPreference → DayPreference → Bool
is_day specific specific = true
is_day any_day any_day = true
is_day _ _ = false

abbrev pub is_quantity : Quantity → Quantity → Bool
is_quantity solo solo = true
is_quantity couple couple = true
is_quantity group group = true
is_quantity _ _ = false

abbrev pub is_persistence : Persistence → Persistence → Bool
is_persistence Persistence.low Persistence.low = true
is_persistence medium medium = true
is_persistence Persistence.high Persistence.high = true
is_persistence _ _ = false

-- The percentages that the README of the agent lists.
abbrev pub listed_tier : SeatingTier → ℕ
listed_tier seated_low = 27
listed_tier seated_mid = 26
listed_tier seated_high = 19
listed_tier area_mid = 17
listed_tier area_high = 11

abbrev pub listed_day : DayPreference → ℕ
listed_day specific = 52
listed_day any_day = 48

abbrev pub listed_quantity : Quantity → ℕ
listed_quantity solo = 28
listed_quantity couple = 48
listed_quantity group = 24

abbrev pub listed_persistence : Persistence → ℕ
listed_persistence Persistence.low = 19
listed_persistence medium = 51
listed_persistence Persistence.high = 30

tier_share :
    (t : SeatingTier) → share (λ p. is_tier t p.seating_tier) user_profiles_data ≡ listed_tier t
unfolding share
tier_share seated_low = refl
tier_share _ = refl

persistence_share :
    (s : Persistence)
    → share (λ p. is_persistence s p.persistence) user_profiles_data ≡ listed_persistence s
unfolding share
persistence_share medium = refl
persistence_share _ = refl

quantity_share :
    (q : Quantity) → share (λ p. is_quantity q p.quantity) user_profiles_data ≡ listed_quantity q
unfolding share
quantity_share solo = refl
quantity_share _ = refl

day_share :
    (d : DayPreference) → share (λ p. is_day d p.day_preference) user_profiles_data ≡ listed_day d
unfolding share
day_share specific = refl
day_share _ = refl

-- The table distributes tiers, days, quantities and persistences as the README lists them, in
-- hundredths.
pub shares-listed :
    ((t : SeatingTier) → share (λ p. is_tier t p.seating_tier) user_profiles_data ≡ listed_tier t)
    × ((d : DayPreference)
        → share (λ p. is_day d p.day_preference) user_profiles_data ≡ listed_day d)
    × ((q : Quantity)
        → share (λ p. is_quantity q p.quantity) user_profiles_data ≡ listed_quantity q)
    × ((s : Persistence)
        → share (λ p. is_persistence s p.persistence) user_profiles_data ≡ listed_persistence s)
shares-listed = (tier_share, day_share, quantity_share, persistence_share)
