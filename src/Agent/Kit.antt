-- ===== src/Agent/Kit.antt =====
-- What the agent calls and does not implement: the k6 runtime, k6-utils and the faker, as operations
-- on a state `W` of the world. `Math.random()` is n / 2 ^ 53 for the number n that `random` draws,
-- and products with it are taken exactly, where the program rounds them to a double.
use tugas_akhir.Common.{
  ℕ, ◌*◌, ◌/◌, ◌<◌, String, ◌≡◌, Bool, true, ◌&&◌, List, [], ◌∷◌, Option, some, Exec, Outcome, ok,
  throw, map, arith,
}
use tugas_akhir.Common.Int.{ℤ, ◌≤ℤ◌}

-- How a run of the script stops: by an exception, or not at all within the rounds that its loops
-- are given.
pub data Stop : Type 0 where
  exception : String → Stop
  spinning : Stop

abbrev pub denominator : ℕ
denominator = 9007199254740992

pub record Kit (W : Type 0) : Type 0 where
  -- `Math.random()`
  pub random : W → ℕ × W
  -- `randomIntBetween(min, max)`
  pub random_int : ℤ → ℤ → W → ℤ × W
  -- the index that `randomItem` takes in an array of a length
  pub random_index : ℕ → W → ℕ × W
  -- `uuidv4()`
  pub uuid : W → String × W
  -- `faker.person.email()` and `faker.person.name()`
  pub email : W → String × W
  pub name : W → String × W
  -- `sleep(seconds)`
  pub sleep : ℤ → W → W
  -- `check(value, { … })`, by what its tests return; `none` is a test that throws
  pub check : List (Option Bool) → W → Outcome String Bool × W

abbrev pub conjunction : List Bool → Bool
conjunction [] = true
conjunction (b ∷ bs) = b && conjunction bs

-- The documented behaviour of these calls.
pub record KitLaws {W : Type 0} (kit : Kit W) : Type 0 where
  pub random-lt : (w : W) → (kit.random w).0 < denominator
  pub random_int-between :
      (lo hi : ℤ) (w : W)
      → lo ≤ℤ hi
      → (lo ≤ℤ (kit.random_int lo hi w).0) × ((kit.random_int lo hi w).0 ≤ℤ hi)
  pub random_index-lt : (n : ℕ) (w : W) → 0 < n → (kit.random_index n w).0 < n
  pub check-conjunction :
      (bs : List Bool) (w : W) → (kit.check (map some bs) w).0 ≡ ok (conjunction bs)

abbrev pub thrown : Outcome String Bool → Outcome Stop Bool
thrown (ok b) = ok b
thrown (throw e) = throw (exception e)

module _ {W : Type 0} (kit : Kit W) where
  -- A call of `check`, with what it throws.
  abbrev pub run_check : List (Option Bool) → Exec W Stop Bool
  run_check tests w = (thrown (kit.check tests w).0, (kit.check tests w).1)

  -- `Math.floor(Math.random() * n)`
  abbrev pub random_below : ℕ → W → ℕ × W
  random_below n w = ((kit.random w).0 * n / denominator, (kit.random w).1)

  -- `sleep(randomIntBetween(min, max))`
  abbrev pub pause : ℤ → ℤ → W → W
  pause lo hi w = kit.sleep (kit.random_int lo hi w).0 (kit.random_int lo hi w).1

-- `Math.floor(Math.random() * n)` is less than n.
pub floor-lt : (r n : ℕ) → r < denominator → 0 < n → r * n / denominator < n
floor-lt r n h k = grind arith
