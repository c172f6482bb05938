-- ===== src/Common/Slice.antt =====
-- `Array.prototype.slice(start, end)`: a negative index counts from the end.
use Prim.Native.Nat.{ℕ, suc, ◌-◌, ◌≤◌, min}
use mathlib.Core.Path.{◌≡◌}
use mathlib.Core.List.{List}
use native.Mathlib.Omega.{arith}
use tugas_akhir.Common.Lists.{length, take, drop, length-take, length-drop}
use tugas_akhir.Common.Int.{ℤ, pos, negsuc}

abbrev pub clamp_index : ℕ → ℤ → ℕ
clamp_index len (pos n) = min n len
clamp_index len (negsuc n) = len - suc n

abbrev pub slice {ℓ} : {A : Type ℓ} → List A → ℤ → ℤ → List A
slice xs start end =
    take (clamp_index (length xs) end - clamp_index (length xs) start)
      (drop (clamp_index (length xs) start) xs)

-- A slice between two positions inside the array has the length between them.
pub length-slice {ℓ} :
    {A : Type ℓ} (xs : List A) (i j : ℕ)
    → i ≤ j
    → j ≤ length xs
    → length (slice xs (pos i) (pos j)) ≡ j - i
length-slice xs i j h k = omega (
  arith,
  length-take (min j (length xs) - min i (length xs)) (drop (min i (length xs)) xs),
  length-drop (min i (length xs)) xs,
)
