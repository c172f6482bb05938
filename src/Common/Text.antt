-- ===== src/Common/Text.antt =====
-- Text as the programs use it: decimal printing, splitting, searching and `parseInt`.
use Prim.Native.Char.{Char, code}
use Prim.Native.String
use Prim.Native.String.{String}
use Prim.Native.Nat.{ℕ, zero, suc, ◌+◌, ◌-◌, ◌*◌, ◌/◌, ◌%◌}
use mathlib.Core.Path.{◌≡◌, refl}
use mathlib.Core.Bool.{Bool, true, false, ◌&&◌, ◌||◌}
use mathlib.Core.Option.{Option, none, some}
use mathlib.Core.List.{List, [], ◌∷◌}
use text.Mathlib.Text.{◌==◌ as str_eq, find?}
use tugas_akhir.Common.Tests.{leb, ltb, ◌==◌, if◌then◌else◌}

abbrev pub digit : ℕ → String
digit zero = "0"
digit (suc zero) = "1"
digit (suc (suc zero)) = "2"
digit (suc (suc (suc zero))) = "3"
digit (suc (suc (suc (suc zero)))) = "4"
digit (suc (suc (suc (suc (suc zero))))) = "5"
digit (suc (suc (suc (suc (suc (suc zero)))))) = "6"
digit (suc (suc (suc (suc (suc (suc (suc zero))))))) = "7"
digit (suc (suc (suc (suc (suc (suc (suc (suc zero)))))))) = "8"
digit _ = "9"

show_from : ℕ → ℕ → String
show_from zero n = digit (n % 10)
show_from (suc fuel) n =
    let rest = show_from fuel (n / 10) in
    if ltb n 10 then digit n else String.◌++◌ rest (digit (n % 10))

-- `${n}` of a number
unfoldable pub show : ℕ → String
unfolding show_from
show n = show_from n n

abbrev prepend : Char → List String → List String
prepend c [] = String.◌∷◌ c "" ∷ []
prepend c (s ∷ ss) = String.◌∷◌ c s ∷ ss

-- `text.split(c)` at one character, given by its code
unfoldable pub split : ℕ → String → List String
split c String.[] = "" ∷ []
split c (String.◌∷◌ ch s) =
    let rest = split c s in if code ch == c then "" ∷ rest else prepend ch rest

abbrev pub last : List String → String
last [] = ""
last (s ∷ []) = s
last (s ∷ t ∷ ss) = last (t ∷ ss)

-- the white space and line terminators that `parseInt` skips
is_space : ℕ → Bool
is_space c =
    (leb 9 c && leb c 13)
    || c == 32
    || c == 160
    || c == 0x1680
    || (leb 0x2000 c && leb c 0x200a)
    || c == 0x2028
    || c == 0x2029
    || c == 0x202f
    || c == 0x205f
    || c == 0x3000
    || c == 0xfeff

trim_start : String → String
unfolding is_space
trim_start String.[] = ""
trim_start (String.◌∷◌ c s) =
    let rest = trim_start s in if is_space (code c) then rest else String.◌∷◌ c s

-- the value of a digit in a radix up to 16
digit_value : ℕ → ℕ → Option ℕ
digit_value radix c =
    if leb 48 c && leb c 57 && ltb (c - 48) radix
    then some (c - 48)
    else if leb 97 c && leb c 102 && ltb (c - 87) radix
    then some (c - 87)
    else if leb 65 c && leb c 70 && ltb (c - 55) radix
    then some (c - 55)
    else none

abbrev value_or_zero : Option ℕ → ℕ
value_or_zero none = 0
value_or_zero (some n) = n

-- the longest prefix of digits, from a value so far
digits_from : ℕ → Option ℕ → String → Option ℕ
unfolding digit_value
digits_from radix acc String.[] = acc
digits_from radix acc (String.◌∷◌ c s) = elim (digit_value radix (code c)) [
  | none ↦ acc
  | some d ↦ digits_from radix (some (value_or_zero acc * radix + d)) s
]

hex_or_decimal : String → Option ℕ
unfolding digits_from
hex_or_decimal (String.◌∷◌ c (String.◌∷◌ d s)) =
    if code c == b'0' && (code d == b'x' || code d == b'X')
    then digits_from 16 none s
    else digits_from 10 none (String.◌∷◌ c (String.◌∷◌ d s))
hex_or_decimal s = digits_from 10 none s

skip_plus : String → String
skip_plus (String.◌∷◌ c s) = if code c == b'+' then s else String.◌∷◌ c s
skip_plus s = s

-- `parseInt(text)` of a text without a minus sign; `none` is NaN
unfoldable pub parse_int : String → Option ℕ
unfolding trim_start skip_plus hex_or_decimal
parse_int s = hex_or_decimal (skip_plus (trim_start s))

-- `text.replace(/\/+$/, "")`
unfoldable pub strip_slashes : String → String
strip_slashes String.[] = ""
strip_slashes (String.◌∷◌ c s) =
    let rest = strip_slashes s in if code c == b'/' && str_eq rest "" then "" else String.◌∷◌ c rest

-- `text.includes(part)`
unfoldable pub includes : String → String → Bool
includes s part = elim (find? s part) [ none ↦ false | some i ↦ true ]

texts :
    (show 4207 ≡ "4207")
    × (split b'-' "A-12-7" ≡ "A" ∷ "12" ∷ "7" ∷ [])
    × (parse_int " 042a" ≡ some 42)
    × (parse_int "0x1f" ≡ some 31)
    × (parse_int "x" ≡ none)
    × (strip_slashes "http://a//" ≡ "http://a")
    × (includes "Seated Gold" "Gold" ≡ true)
    × (includes "Zone A" "Zone B" ≡ false)
unfolding show split parse_int strip_slashes includes
texts = (refl, refl, refl, refl, refl, refl, refl, refl)
