-- ===== src/Agent/Random.antt =====
-- implementation/agent/src/utils/random.ts: the in-place shuffle. An array is a list of slots; `none`
-- is the value `undefined`, which a read beyond the end gives and a write beyond the end leaves in
-- the slots that it adds.
pub mod Permutes
use tugas_akhir.Common.{ℕ, zero, suc, List, [], ◌∷◌, Option, none, some, length, map}
use tugas_akhir.Agent.Kit.{Kit, random_below}

-- `array[i]`
pub slot {ℓ} : {T : Type ℓ} → List (Option T) → ℕ → Option T
slot [] i = none
slot (x ∷ xs) zero = x
slot (x ∷ xs) (suc i) = slot xs i

-- `array[i] = v`
pub put {ℓ} : {T : Type ℓ} → List (Option T) → ℕ → Option T → List (Option T)
put [] zero v = v ∷ []
put [] (suc i) v = none ∷ put [] i v
put (x ∷ xs) zero v = v ∷ xs
put (x ∷ xs) (suc i) v = x ∷ put xs i v

-- `[array[i], array[j]] = [array[j], array[i]]`
pub swap_elems {ℓ} : {T : Type ℓ} → List (Option T) → ℕ → ℕ → List (Option T)
unfolding slot put
swap_elems array i j = put (put array i (slot array j)) j (slot array i)

-- The elements of an array, without the slots that are undefined.
pub defined {ℓ} : {T : Type ℓ} → List (Option T) → List T
defined [] = []
defined (none ∷ xs) = defined xs
defined (some x ∷ xs) = x ∷ defined xs

module _ {W : Type 0} (kit : Kit W) where
  -- The loop, with `currentIndex` as the number of rounds left.
  unfoldable pub shuffle_from : {T : Type 0} → ℕ → List (Option T) → W → List (Option T) × W
  unfolding swap_elems
  shuffle_from zero array w = (array, w)
  shuffle_from (suc current) array w =
      shuffle_from current (swap_elems array current (random_below kit (suc current) w).0)
        (random_below kit (suc current) w).1

  unfoldable pub shuffle : {T : Type 0} → List (Option T) → W → List (Option T) × W
  unfolding shuffle_from
  shuffle array w = shuffle_from (length array) array w

  -- The array of a caller after `shuffle`.
  unfoldable pub shuffled : {T : Type 0} → List T → W → List T × W
  unfolding shuffle defined
  shuffled array w = (defined (shuffle (map some array) w).0, (shuffle (map some array) w).1)
