-- ===== src/Payment/Env.antt =====
-- implementation/payment/src/infrastructure/env.ts: the environment of the payment service. Zod and
-- createEnv are parameters. A variable has a text or is `undefined`.
pub mod Accepted
use mathlib.Core.Option
use tugas_akhir.Common.{
  ℕ, ◌≤◌, ◌<◌, String, ◌≡◌, ◌≢◌, Option, none, some, List, [], ◌∷◌, length, All, ◌⊎◌, if◌then◌else◌,
}
use tugas_akhir.Payment.Config.{redis_hosts, redis_host_maps}

-- A schema of a variable.
abbrev pub Variable : Type 0 → Type 0
Variable A = Option String → Option A

pub record EnvZod : Type 1 where
  -- `z.string()` and `z.string().url()`
  pub string : Variable String
  pub url : Variable String
  -- `schema.default(d)` and `schema.optional()`
  pub default_to : {A : Type 0} → A → Variable A → Variable A
  pub optional : {A : Type 0} → Variable A → Variable (Option A)
  -- `schema.transform(f)`
  pub transform : {A B : Type 0} → (A → B) → Variable A → Variable B
  -- `schema.pipe(z.string().array().min(n))`, where 0 sets no bound
  pub array : ℕ → Variable (List String) → Variable (List String)
  -- `z.coerce.number().int().min(n)`
  pub coerce_int : ℕ → Variable ℕ
  -- `z.enum(texts)`
  pub enum_of : List String → Variable String
  -- what createEnv reads of `runtimeEnv` with `emptyStringAsUndefined`
  pub runtime : (String → Option String) → String → Option String

-- `s` is one of the texts.
abbrev pub Among : String → List String → Type 0
Among s [] = ⊥
Among s (t ∷ ts) = (s ≡ t) ⊎ Among s ts

-- The documented behaviour of these schemas on what they accept.
pub record EnvLaws (z : EnvZod) : Type 1 where
  pub string_given : (v : Option String) → z.string v ≡ v
  pub url_given : (v : Option String) (s : String) → z.url v ≡ some s → v ≡ some s
  pub default_to_none : {A : Type 0} (d : A) (p : Variable A) → z.default_to d p none ≡ some d
  pub default_to_some :
      {A : Type 0} (d : A) (p : Variable A) (s : String) → z.default_to d p (some s) ≡ p (some s)
  pub optional_some :
      {A : Type 0} (p : Variable A) (v : Option String) (a : A)
      → z.optional p v ≡ some (some a)
      → p v ≡ some a
  pub transform_lem :
      {A B : Type 0} (f : A → B) (p : Variable A) (v : Option String)
      → z.transform f p v ≡ Option.map f (p v)
  pub array_sound :
      (n : ℕ) (p : Variable (List String)) (v : Option String) (l : List String)
      → z.array n p v ≡ some l
      → (p v ≡ some l) × (n ≤ length l)
  pub coerce_int_sound : (n m : ℕ) (v : Option String) → z.coerce_int n v ≡ some m → n ≤ m
  pub enum_of_sound :
      (l : List String) (v : Option String) (s : String)
      → z.enum_of l v ≡ some s
      → (v ≡ some s) × Among s l
  pub runtime_given :
      (vars : String → Option String) (k s : String)
      → z.runtime vars k ≡ some s
      → (vars k ≡ some s) × (s ≢ "")
  pub runtime_undefined :
      (vars : String → Option String) (k : String)
      → z.runtime vars k ≡ none
      → (vars k ≡ none) ⊎ (vars k ≡ some "")

pub record Env : Type 0 where
  pub redis_hosts : List String
  pub redis_host_maps : List String
  pub redis_password : Option String
  pub port : ℕ
  pub node_env : String
  pub webhook_url : String
  pub webhook_secret : String
  pub key_path : String
  pub cert_path : String

infixl 5 ◌>>=◌
abbrev ◌>>=◌ : {A B : Type 0} → Option A → (A → Option B) → Option B
none >>= k = none
some a >>= k = k a

abbrev node_envs : List String
node_envs = "development" ∷ "production" ∷ "test" ∷ []

module _ (z : EnvZod) where
  abbrev hosts_schema : Variable (List String)
  hosts_schema = z.array 1 (z.transform redis_hosts z.string)

  abbrev maps_schema : Variable (List String)
  maps_schema = z.array 0 (z.transform redis_host_maps (z.default_to "" z.string))

  abbrev port_schema : Variable ℕ
  port_schema = z.default_to 3000 (z.coerce_int 50)

  abbrev node_env_schema : Variable String
  node_env_schema = z.default_to "development" (z.enum_of node_envs)

  -- createEnv, where `none` is an exception on variables that are not accepted
  unfoldable pub create_env : (String → Option String) → Option Env
  create_env vars = do
    hosts ← hosts_schema (z.runtime vars "REDIS_HOSTS")
    maps ← maps_schema (z.runtime vars "REDIS_HOST_MAPS")
    password ← z.optional z.string (z.runtime vars "REDIS_PASSWORD")
    port ← port_schema (z.runtime vars "PORT")
    node_env ← node_env_schema (z.runtime vars "NODE_ENV")
    webhook_url ← z.url (z.runtime vars "WEBHOOK_URL")
    webhook_secret ← z.string (z.runtime vars "WEBHOOK_SECRET")
    key_path ← z.string (z.runtime vars "KEY_PATH")
    cert_path ← z.string (z.runtime vars "CERT_PATH")
    some (record {
      redis_hosts = hosts;
      redis_host_maps = maps;
      redis_password = password;
      port = port;
      node_env = node_env;
      webhook_url = webhook_url;
      webhook_secret = webhook_secret;
      key_path = key_path;
      cert_path = cert_path;
    })
