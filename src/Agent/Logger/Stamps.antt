-- ===== src/Agent/Logger/Stamps.antt =====
-- The times of the log, read back.
use Prim.Native.String
use Prim.Native.Char.{Char, code}
use text.Mathlib.Text.{◌==◌ as str_eq}
use text.Mathlib.TextEquality.{eq_iff}
use text.Mathlib.TextLemmas.{cons-append, nil-append}
use tugas_akhir.Common.{
  ℕ, zero, suc, ◌+◌, ◌*◌, ◌-◌, ◌/◌, ◌%◌, ◌<◌, ◌≡◌, refl, String, Bool, true, false, ◌&&◌, Option,
  none, some, arith, Bool-cases, inl, inr, ==_iff, ◌==◌,
}
use tugas_akhir.Common.Text.{show}
use tugas_akhir.Agent.Logger.{TimeOfDay, padded, get_timestamp}

-- A test of all numbers below a bound, by evaluation.
abbrev all_below : ℕ → (ℕ → Bool) → Bool
all_below zero f = true
all_below (suc n) f = f n && all_below n f

first_part : (b c : Bool) → (b && c) ≡ true → b ≡ true
first_part true c h = refl
first_part false c h = h

second_part : (b c : Bool) → (b && c) ≡ true → c ≡ true
second_part true c h = h
second_part false c h = cc h

below : (n : ℕ) (f : ℕ → Bool) (i : ℕ) → all_below n f ≡ true → i < n → f i ≡ true
below zero f i h lt = absurd (omega (arith, lt))
below (suc n) f i h lt = elim (Bool-cases (i == n)) [
  | inl e ↦ rw ((==_iff i n).0 e) (first_part (f n) (all_below n f) h)
  | inr ne ↦ below n f i (second_part (f n) (all_below n f) h) (ground (arith, lt, ne))
]

abbrev digit_char : ℕ → Char
digit_char zero = "0"
digit_char (suc zero) = "1"
digit_char (suc (suc zero)) = "2"
digit_char (suc (suc (suc zero))) = "3"
digit_char (suc (suc (suc (suc zero)))) = "4"
digit_char (suc (suc (suc (suc (suc zero))))) = "5"
digit_char (suc (suc (suc (suc (suc (suc zero)))))) = "6"
digit_char (suc (suc (suc (suc (suc (suc (suc zero))))))) = "7"
digit_char (suc (suc (suc (suc (suc (suc (suc (suc zero)))))))) = "8"
digit_char _ = "9"

abbrev value : Char → ℕ
value c = code c - 48

value-char : (d : ℕ) → d < 10 → value (digit_char d) ≡ d
value-char zero lt = refl
value-char (suc zero) lt = refl
value-char (suc (suc zero)) lt = refl
value-char (suc (suc (suc zero))) lt = refl
value-char (suc (suc (suc (suc zero)))) lt = refl
value-char (suc (suc (suc (suc (suc zero))))) lt = refl
value-char (suc (suc (suc (suc (suc (suc zero)))))) lt = refl
value-char (suc (suc (suc (suc (suc (suc (suc zero))))))) lt = refl
value-char (suc (suc (suc (suc (suc (suc (suc (suc zero)))))))) lt = refl
value-char (suc (suc (suc (suc (suc (suc (suc (suc (suc zero))))))))) lt = refl
value-char (suc (suc (suc (suc (suc (suc (suc (suc (suc (suc d)))))))))) lt =
    absurd (omega (arith, lt))

abbrev two_digits : ℕ → String
two_digits n = String.◌∷◌ (digit_char (n / 10)) (String.◌∷◌ (digit_char (n % 10)) "")

abbrev three_digits : ℕ → String
three_digits n = String.◌∷◌ (digit_char (n / 100)) (two_digits (n % 100))

two_padded : all_below 60 (λ n. str_eq (padded 2 n) (two_digits n)) ≡ true
unfolding padded show
two_padded = refl

three_padded : all_below 1000 (λ n. str_eq (padded 3 n) (three_digits n)) ≡ true
unfolding padded show
three_padded = refl

padded_two : (n : ℕ) → n < 60 → padded 2 n ≡ two_digits n
padded_two n lt =
    (eq_iff (padded 2 n) (two_digits n)).0
      (below 60 (λ n. str_eq (padded 2 n) (two_digits n)) n two_padded lt)

padded_three : (n : ℕ) → n < 1000 → padded 3 n ≡ three_digits n
padded_three n lt =
    (eq_iff (padded 3 n) (three_digits n)).0
      (below 1000 (λ n. str_eq (padded 3 n) (three_digits n)) n three_padded lt)

-- A time of day as `Date` gives it.
pub record IsTime (t : TimeOfDay) : Type 0 where
  pub hours : t.hours < 24
  pub minutes : t.minutes < 60
  pub seconds : t.seconds < 60
  pub milliseconds : t.milliseconds < 1000

-- The digits at the places of a stamp, where it has twelve characters.
abbrev pub read_stamp : String → Option TimeOfDay
read_stamp
      (String.◌∷◌ a (
        String.◌∷◌ b (
          String.◌∷◌ x (
            String.◌∷◌ c (
              String.◌∷◌ d (
                String.◌∷◌ y (
                  String.◌∷◌ e (
                    String.◌∷◌ f (
                      String.◌∷◌ z (String.◌∷◌ g (String.◌∷◌ h (String.◌∷◌ i String.[])))))))))))) =
    some (record {
      hours = value a * 10 + value b;
      minutes = value c * 10 + value d;
      seconds = value e * 10 + value f;
      milliseconds = value g * 100 + (value h * 10 + value i);
    })
read_stamp _ = none

two_value : (n : ℕ) → n < 60 → value (digit_char (n / 10)) * 10 + value (digit_char (n % 10)) ≡ n
two_value n lt =
    rw (value-char (n / 10) (omega (arith, lt)), value-char (n % 10) (omega arith)) (omega arith)

three_value :
    (n : ℕ)
    → n < 1000
    → value (digit_char (n / 100)) * 100
        + (value (digit_char (n % 100 / 10)) * 10 + value (digit_char (n % 100 % 10)))
      ≡ n
three_value n lt =
    rw
      (
        value-char (n / 100) (omega (arith, lt)),
        value-char (n % 100 / 10) (omega arith),
        value-char (n % 100 % 10) (omega arith),
      )
      (omega arith)

two_digits_append :
    (n : ℕ) (rest : String)
    → String.◌++◌ (two_digits n) rest
      ≡ String.◌∷◌ (digit_char (n / 10)) (String.◌∷◌ (digit_char (n % 10)) rest)
two_digits_append n rest =
    rw
      (
        cons-append (digit_char (n / 10)) (String.◌∷◌ (digit_char (n % 10)) "") rest,
        cons-append (digit_char (n % 10)) "" rest,
        nil-append rest,
      )
      refl

mark_append : (c : Char) (rest : String) → String.◌++◌ (String.◌∷◌ c "") rest ≡ String.◌∷◌ c rest
mark_append c rest = rw (cons-append c "" rest, nil-append rest) refl

abbrev two_read : ℕ → ℕ
two_read n = value (digit_char (n / 10)) * 10 + value (digit_char (n % 10))

abbrev three_read : ℕ → ℕ
three_read n = value (digit_char (n / 100)) * 100 + two_read (n % 100)

digits_read :
    (t : TimeOfDay)
    → IsTime t
    → ◌≡◌ {A = Option TimeOfDay}
        (some (record {
          hours = two_read t.hours;
          minutes = two_read t.minutes;
          seconds = two_read t.seconds;
          milliseconds = three_read t.milliseconds;
        }))
        (some t)
digits_read t h =
    rw
      (
        two_value t.hours (omega (arith, h.hours)),
        two_value t.minutes h.minutes,
        two_value t.seconds h.seconds,
        three_value t.milliseconds h.milliseconds,
      )
      refl

-- The stamp of a time of day has twelve characters, from which the time can be read back: two times
-- with the same stamp are the same.
pub read-get_timestamp : (t : TimeOfDay) → IsTime t → read_stamp (get_timestamp t) ≡ some t
unfolding get_timestamp
read-get_timestamp t h =
    rw
      (
        padded_two t.hours (omega (arith, h.hours)),
        padded_two t.minutes h.minutes,
        padded_two t.seconds h.seconds,
        padded_three t.milliseconds h.milliseconds,
        mark_append "." (three_digits t.milliseconds),
        two_digits_append t.seconds _,
        mark_append ":" _,
        two_digits_append t.minutes _,
        mark_append ":" _,
        two_digits_append t.hours _,
      )
      (digits_read t h)
