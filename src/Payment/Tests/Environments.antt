-- ===== src/Payment/Tests/Environments.antt =====
-- The theorem on the environment at work: a production environment that gives no port.
mod Starts
use mathlib.Core.Option
use tugas_akhir.Payment.Config.{redis_hosts, redis_host_maps}
use text.Mathlib.Text.{◌==◌ as str_eq}
use text.Mathlib.TextEquality.{eq_iff}
use tugas_akhir.Common.{
  ℕ, ◌≤◌, String, ◌≡◌, ◌≢◌, refl, Option, none, some, List, [], ◌∷◌, length, if◌then◌else◌, leb,
  inl, ◌⊎◌, arith,
}
use tugas_akhir.Common.Text.{parse_int}
use tugas_akhir.Payment.Json.{lookup}
use tugas_akhir.Payment.Env.{EnvZod, EnvLaws, Variable, Among, Env, create_env}
use tugas_akhir.Payment.Env.Accepted.{map-some, IsAccepted, create_env-IsAccepted}

abbrev filled : Option String → Option String
filled none = none
filled (some s) = if str_eq s "" then none else some s

abbrev at_least : {A : Type 0} → ℕ → Option (List A) → Option (List A)
at_least n none = none
at_least n (some l) = if leb n (length l) then some l else none

abbrev number_from : ℕ → Option ℕ → Option ℕ
number_from n none = none
number_from n (some m) = if leb n m then some m else none

abbrev text_number : Option String → Option ℕ
text_number none = none
text_number (some s) = parse_int s

abbrev listed : List String → Option String → Option String
listed l none = none
listed [] (some s) = none
listed (t ∷ ts) (some s) = if str_eq t s then some s else listed ts (some s)

abbrev or_default : {A : Type 0} → A → Variable A → Variable A
or_default d p none = some d
or_default d p (some s) = p (some s)

abbrev if_given : {A : Type 0} → Variable A → Variable (Option A)
if_given p none = some none
if_given p (some s) = Option.map some (p (some s))

abbrev schemas : EnvZod
schemas = record {
  string = λ v. v;
  url = λ v. v;
  default_to = or_default;
  optional = if_given;
  transform = λ f p v. Option.map f (p v);
  array = λ n p v. at_least n (p v);
  coerce_int = λ n v. number_from n (text_number v);
  enum_of = listed;
  runtime = λ vars k. filled (vars k);
}

if_given-some :
    {A : Type 0} (p : Variable A) (v : Option String) (a : A)
    → if_given p v ≡ some (some a)
    → p v ≡ some a
if_given-some p none a h = cc h
if_given-some p (some s) a h = let (b, e, q) = map-some some (p (some s)) (some a) h in cc (e, q)

at_least-some :
    {A : Type 0} (n : ℕ) (o : Option (List A)) (l : List A)
    → at_least n o ≡ some l
    → (o ≡ some l) × (n ≤ length l)
at_least-some n none l h = cc h
at_least-some n (some m) l h = ground arith

number_from-some : (n m : ℕ) (o : Option ℕ) → number_from n o ≡ some m → n ≤ m
number_from-some n m none h = cc h
number_from-some n m (some k) h = ground arith

listed-Among :
    (l : List String) (v : Option String) (s : String)
    → listed l v ≡ some s
    → (v ≡ some s) × Among s l
listed-Among l none s h = cc h
listed-Among [] (some t) s h = cc h
listed-Among (u ∷ us) (some t) s h = ground (arith, h, eq_iff u t, listed-Among us (some t) s)

filled-some : (v : Option String) (s : String) → filled v ≡ some s → (v ≡ some s) × (s ≢ "")
filled-some none s h = cc h
filled-some (some t) s h = ground (arith, h, eq_iff t "")

filled-none : (v : Option String) → filled v ≡ none → (v ≡ none) ⊎ (v ≡ some "")
filled-none none h = inl refl
filled-none (some t) h = ground (arith, h, eq_iff t "")

schemas-EnvLaws : EnvLaws schemas
schemas-EnvLaws = record {
  string_given = λ v. refl;
  url_given = λ v s h. h;
  default_to_none = λ d p. refl;
  default_to_some = λ d p s. refl;
  optional_some = if_given-some;
  transform_lem = λ f p v. refl;
  array_sound = λ n p v. at_least-some n (p v);
  coerce_int_sound = λ n m v. number_from-some n m (text_number v);
  enum_of_sound = listed-Among;
  runtime_given = λ vars k. filled-some (vars k);
  runtime_undefined = λ vars k. filled-none (vars k);
}

abbrev variables : String → Option String
variables k = lookup k (
    ("REDIS_HOSTS", "10.0.0.1:7001,10.0.0.2:7001")
    ∷ ("PORT", "")
    ∷ ("NODE_ENV", "production")
    ∷ ("WEBHOOK_URL", "https://ticket.tugas-akhir.local/webhook")
    ∷ ("WEBHOOK_SECRET", "s3cret")
    ∷ ("KEY_PATH", "/cert/key.pem")
    ∷ ("CERT_PATH", "/cert/cert.pem")
    ∷ [])

abbrev production : Env
production = record {
  redis_hosts = "10.0.0.1:7001" ∷ "10.0.0.2:7001" ∷ [];
  redis_host_maps = [];
  redis_password = none;
  port = 3000;
  node_env = "production";
  webhook_url = "https://ticket.tugas-akhir.local/webhook";
  webhook_secret = "s3cret";
  key_path = "/cert/key.pem";
  cert_path = "/cert/cert.pem";
}

created : create_env schemas variables ≡ some production
unfolding create_env redis_hosts redis_host_maps
created = refl

create_env-IsAccepted_example : IsAccepted schemas schemas-EnvLaws variables parse_int production
create_env-IsAccepted_example =
    create_env-IsAccepted schemas schemas-EnvLaws variables parse_int production created
