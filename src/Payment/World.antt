-- ===== src/Payment/World.antt =====
-- A small world in which the payment service runs: Redis as an association list, a clock that ticks
-- at each reading, ids that are numbered, and zod on the values of this model.
pub mod Server
use text.Mathlib.Text.{◌==◌ as str_eq}
use text.Mathlib.TextEquality.{eq_iff}
use Prim.Native.String
use tugas_akhir.Common.{
  ℕ, ◌+◌, ◌*◌, ◌<◌, String, ◌≡◌, ◌≢◌, refl, true, false, Option, none, some, List, [], ◌∷◌, ok,
  if◌then◌else◌, ltb, inl, arith,
}
use tugas_akhir.Common.Text.{show}
use tugas_akhir.Common.Int.{sub_ℕ}
use tugas_akhir.Payment.Json.{Scalar, null, num, str, iso, Text, other, lookup}
use tugas_akhir.Payment.Entity.{pending, expired, paid, failed, Parser, Zod, ZodLaws}
use tugas_akhir.Payment.Platform.{Platform, Faithful}
use tugas_akhir.Payment.Invoice.Ledger.Represents.{Reliable}
use tugas_akhir.Payment.App.{WebhookQueue, Response, respond, message}
use tugas_akhir.Payment.Notifier.{Sender}

pub record World : Type 0 where
  pub store : List (String × Text)
  pub time : ℕ
  pub count : ℕ

abbrev pub contents : World → String → Option Text
contents w k = lookup k w.store

abbrev pub platform : Platform World
platform = record {
  get = λ k w. (ok (lookup k w.store), w);
  setex = λ k seconds t w. (ok tt, record w { store = (k, t) ∷ w.store });
  clock = λ w. (w.time, record w { time = w.time + 1 });
  add_minutes = λ t n. t + n * 60000;
  is_before = ltb;
  diff = sub_ℕ;
  generate = λ w. (String.◌++◌ "inv" (show w.count), record w { count = w.count + 1 });
}

same_key : (k : String) → str_eq k k ≡ true
same_key k = (eq_iff k k).1 refl

other_key : (k j : String) → j ≢ k → str_eq k j ≡ false
other_key k j ne = ground (arith, eq_iff k j)

pub platform-Faithful : Faithful platform contents
platform-Faithful = record {
  get_keeps = λ k s. refl;
  get_reads = λ k s v h. cc h;
  setex_at = λ k seconds t s. inl (rw (same_key k) refl);
  setex_ne = λ k j seconds t s ne. rw (other_key k j ne) refl;
  clock_keeps = λ s. refl;
  generate_keeps = λ s. refl;
  add_minutes_lem = λ t n. refl;
  is_before_lem = λ a b. refl;
  diff_lem = λ a b. refl;
}

pub platform-Reliable : Reliable platform (λ w. w.time)
platform-Reliable = record {
  get_answers = λ k s. (lookup k s.store, refl);
  setex_answers = λ k n t s. refl;
  get_later = λ k s. omega arith;
  setex_later = λ k n t s. omega arith;
  generate_later = λ s. omega arith;
  clock_reads = λ s. omega arith;
  clock_later = λ s. omega arith;
}

abbrev as_string : Parser String
as_string (some (str s)) = some s
as_string _ = none

abbrev as_number : Parser ℕ
as_number (some (num n)) = some n
as_number _ = none

abbrev as_date : Parser ℕ
as_date (some (iso t)) = some t
as_date (some (num t)) = some t
as_date _ = none

abbrev above : ℕ → Option ℕ → Option ℕ
above lo none = none
above lo (some n) = if ltb lo n then some n else none

abbrev defaulted : String → Parser String → Parser String
defaulted d p none = some d
defaulted d p (some v) = p (some v)

abbrev wrapped : Option ℕ → Option (Option ℕ)
wrapped none = none
wrapped (some n) = some (some n)

abbrev or_null : Parser ℕ → Parser (Option ℕ)
or_null p (some null) = some none
or_null p v = wrapped (p v)

abbrev find_text : {A : Type 0} → (A → String) → List A → Option String → Option A
find_text f l none = none
find_text f [] (some s) = none
find_text f (a ∷ l) (some s) = if str_eq (f a) s then some a else find_text f l (some s)

abbrev pub zod : Zod
zod = record {
  string = as_string;
  number = as_number;
  coerce_date = as_date;
  gt = λ lo p v. above lo (p v);
  default_to = defaulted;
  nullable = or_null;
  enum_status = λ f l v. find_text f l (as_string v);
  enum_mode = λ f l v. find_text f l (as_string v);
  min_length = λ n p v. p v;
}

above_pass : (lo n : ℕ) (o : Option ℕ) → lo < n → o ≡ some n → above lo o ≡ some n
above_pass lo n none h e = cc e
above_pass lo n (some m) h e = ground (arith, e)

above_sound : (lo n : ℕ) (o : Option ℕ) → above lo o ≡ some n → lo < n
above_sound lo n none e = cc e
above_sound lo n (some m) e = ground arith

or_null_given :
    (p : Parser ℕ) (v : Scalar) (n : ℕ)
    → v ≢ null
    → p (some v) ≡ some n
    → or_null p (some v) ≡ some (some n)
or_null_given p null n ne h = absurd (ne refl)
or_null_given p v n ne h = rw h refl

pub zod-ZodLaws : ZodLaws zod
zod-ZodLaws = record {
  string-str = λ s. refl;
  number-num = λ n. refl;
  coerce_date-iso = λ t. refl;
  gt_pass = λ lo n p v h e. above_pass lo n (p v) h e;
  gt_sound = λ lo n p v e. above_sound lo n (p v) e;
  default_to_given = λ d s p v e. e;
  nullable-null = λ p. refl;
  nullable_given = or_null_given;
  enum_status-text = elim [ pending ↦ refl | expired ↦ refl | paid ↦ refl | failed ↦ refl ];
}

-- A queue in which every job is there and waits.
abbrev pub queue : WebhookQueue World
queue = record {
  add = λ id job delay w. (ok tt, w);
  get_job = λ id w. (ok (some id), w);
  is_delayed = λ job w. (ok true, w);
  promote = λ job w. (ok tt, w);
}

abbrev pub rejected : Response
rejected = respond 400 (message "invalid")

-- A receiver that takes every webhook.
abbrev pub sender : Sender World
sender = record {
  hmac = λ t. "0a1b";
  post = λ t h w.
      (ok (record { ok = true; status_code = 200; status_message = "OK"; body = other "" }), w);
}
