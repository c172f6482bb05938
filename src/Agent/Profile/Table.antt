-- ===== src/Agent/Profile/Table.antt =====
-- implementation/agent/src/utils/profile.ts: the table of user profiles. A probability is in
-- hundredths, as all of the table are.
use tugas_akhir.Common.{ℕ, List, [], ◌∷◌, ◌++◌}

pub data DayPreference : Type 0 where
  specific any_day : DayPreference

pub data SeatingTier : Type 0 where
  seated_low seated_mid seated_high area_mid area_high : SeatingTier

pub data Quantity : Type 0 where
  solo couple group : Quantity

pub data Persistence : Type 0 where
  low medium high : Persistence

pub record UserProfile : Type 0 where
  pub day_preference : DayPreference
  pub seating_tier : SeatingTier
  pub quantity : Quantity
  pub persistence : Persistence

pub record Weighted : Type 0 where
  pub profile : UserProfile
  pub probability : ℕ

abbrev weighted : DayPreference → SeatingTier → Quantity → Persistence → ℕ → Weighted
weighted d t q s n = record {
  profile = record { day_preference = d; seating_tier = t; quantity = q; persistence = s };
  probability = n;
}

abbrev pub specific_seated_low_mid : List Weighted
specific_seated_low_mid =
    weighted specific seated_low solo medium 1
    ∷ weighted specific seated_low solo Persistence.high 2
    ∷ weighted specific seated_low couple Persistence.low 2
    ∷ weighted specific seated_low couple medium 3
    ∷ weighted specific seated_low couple Persistence.high 2
    ∷ weighted specific seated_low group Persistence.low 2
    ∷ weighted specific seated_low group medium 2
    ∷ weighted specific seated_mid solo medium 1
    ∷ weighted specific seated_mid solo Persistence.high 2
    ∷ weighted specific seated_mid couple Persistence.low 2
    ∷ weighted specific seated_mid couple medium 2
    ∷ weighted specific seated_mid couple Persistence.high 2
    ∷ weighted specific seated_mid group Persistence.low 3
    ∷ weighted specific seated_mid group medium 2
    ∷ []

abbrev pub specific_others : List Weighted
specific_others =
    weighted specific seated_high solo medium 2
    ∷ weighted specific seated_high solo Persistence.high 2
    ∷ weighted specific seated_high couple medium 2
    ∷ weighted specific seated_high couple Persistence.high 2
    ∷ weighted specific seated_high group medium 2
    ∷ weighted specific area_mid solo Persistence.low 1
    ∷ weighted specific area_mid solo medium 2
    ∷ weighted specific area_mid couple Persistence.low 1
    ∷ weighted specific area_mid couple medium 2
    ∷ weighted specific area_mid couple Persistence.high 1
    ∷ weighted specific area_mid group medium 2
    ∷ weighted specific area_high solo medium 2
    ∷ weighted specific area_high solo Persistence.high 1
    ∷ weighted specific area_high couple medium 1
    ∷ weighted specific area_high couple Persistence.high 1
    ∷ []

abbrev pub any_day_seated : List Weighted
any_day_seated =
    weighted any_day seated_low solo medium 2
    ∷ weighted any_day seated_low couple Persistence.low 3
    ∷ weighted any_day seated_low couple medium 3
    ∷ weighted any_day seated_low couple Persistence.high 3
    ∷ weighted any_day seated_low group medium 2
    ∷ weighted any_day seated_mid solo medium 2
    ∷ weighted any_day seated_mid couple Persistence.low 3
    ∷ weighted any_day seated_mid couple medium 1
    ∷ weighted any_day seated_mid couple Persistence.high 2
    ∷ weighted any_day seated_mid group medium 4
    ∷ weighted any_day seated_high solo medium 2
    ∷ weighted any_day seated_high solo Persistence.high 2
    ∷ weighted any_day seated_high group medium 3
    ∷ weighted any_day seated_high couple Persistence.high 2
    ∷ []

abbrev pub any_day_area : List Weighted
any_day_area =
    weighted any_day area_mid solo medium 2
    ∷ weighted any_day area_mid couple Persistence.low 2
    ∷ weighted any_day area_mid couple Persistence.high 2
    ∷ weighted any_day area_mid group medium 2
    ∷ weighted any_day area_high solo Persistence.high 2
    ∷ weighted any_day area_high couple medium 2
    ∷ weighted any_day area_high couple Persistence.high 2
    ∷ []

-- userProfilesData
abbrev pub user_profiles_data : List Weighted
user_profiles_data = specific_seated_low_mid ++ specific_others ++ any_day_seated ++ any_day_area
