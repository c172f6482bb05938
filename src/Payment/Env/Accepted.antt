-- ===== src/Payment/Env/Accepted.antt =====
-- What an accepted environment holds.
use mathlib.Core.Option
use mathlib.Core.Path.{ap}
use tugas_akhir.Common.{
  ℕ, ◌≤◌, String, ◌≡◌, ◌≢◌, refl, sym, ◌∙◌, Option, none, some, List, [], length, ◌⊎◌, inl, inr, ok,
  arith,
}
use tugas_akhir.Payment.Config.{redis_hosts, redis_host_maps, new_redis_cluster, ClusterSetup}
use tugas_akhir.Payment.Env.{
  EnvZod, EnvLaws, Variable, Env, Among, node_envs, hosts_schema, maps_schema, port_schema,
  node_env_schema, create_env,
}

pub map-some :
    {A B : Type 0} (f : A → B) (o : Option A) (b : B)
    → Option.map f o ≡ some b
    → (a : A) × (o ≡ some a) × (b ≡ f a)
map-some f none b h = cc h
map-some f (some a) b h = (a, refl, cc h)

-- The variable has this text, which is not empty.
abbrev pub Given : (String → Option String) → String → String → Type 0
Given vars k s = (vars k ≡ some s) × (s ≢ "")

-- The variable is `undefined` or empty.
abbrev pub Missing : (String → Option String) → String → Type 0
Missing vars k = (vars k ≡ none) ⊎ (vars k ≡ some "")

module _ (z : EnvZod) (laws : EnvLaws z) (vars : String → Option String) where
  string_given : (k s : String) → z.string (z.runtime vars k) ≡ some s → Given vars k s
  string_given k s h = laws.runtime_given vars k s (sym (laws.string_given _) ∙ h)

  not_both : (k s : String) → Given vars k s → ¬ Missing vars k
  not_both k s (e, ne) (inl q) = cc (e, q)
  not_both k s (e, ne) (inr q) = ne (cc (e, q))

  -- A variable with a default: it is given, or it is missing and has the default.
  default_given :
      {A : Type 0} (k : String) (d : A) (p : Variable A) (a : A)
      → z.default_to d p (z.runtime vars k) ≡ some a
      → (Missing vars k × (a ≡ d)) ⊎ ((s : String) × Given vars k s × (p (some s) ≡ some a))
  default_given {A} k d p a h = given (z.runtime vars k) refl h
    where
      given :
          (v : Option String)
          → z.runtime vars k ≡ v
          → z.default_to d p v ≡ some a
          → (Missing vars k × (a ≡ d)) ⊎ ((s : String) × Given vars k s × (p (some s) ≡ some a))
      given none e q = inl (laws.runtime_undefined vars k e, cc (q, laws.default_to_none d p))
      given (some s) e q =
          inr (s, laws.runtime_given vars k s e, sym (laws.default_to_some d p s) ∙ q)

  hosts_given :
      (l : List String)
      → hosts_schema z (z.runtime vars "REDIS_HOSTS") ≡ some l
      → ((t : String) × Given vars "REDIS_HOSTS" t × (l ≡ redis_hosts t)) × (1 ≤ length l)
  hosts_given l h =
      let (piped, enough) = laws.array_sound 1 (z.transform redis_hosts z.string) _ l h in
      let (t, e, q) =
        map-some redis_hosts (z.string (z.runtime vars "REDIS_HOSTS")) l
          (sym (laws.transform_lem redis_hosts z.string _) ∙ piped) in
      ((t, string_given "REDIS_HOSTS" t e, q), enough)

  maps_given :
      (l : List String)
      → maps_schema z (z.runtime vars "REDIS_HOST_MAPS") ≡ some l
      → (Missing vars "REDIS_HOST_MAPS" × (l ≡ []))
        ⊎ ((t : String) × Given vars "REDIS_HOST_MAPS" t × (l ≡ redis_host_maps t))
  unfolding redis_host_maps
  maps_given l h =
      let (piped, enough) =
        laws.array_sound 0 (z.transform redis_host_maps (z.default_to "" z.string)) _ l h in
      let (t, e, q) =
        map-some redis_host_maps (z.default_to "" z.string (z.runtime vars "REDIS_HOST_MAPS")) l
          (sym (laws.transform_lem redis_host_maps (z.default_to "" z.string) _) ∙ piped) in
      elim (default_given "REDIS_HOST_MAPS" "" z.string t e) [
        | inl missing ↦ inl (missing.0, q ∙ ap redis_host_maps missing.1)
        | inr (s, given, same) ↦ inr (s, given, cc (q, same, laws.string_given (some s)))
      ]

  port_given :
      (n : ℕ)
      → port_schema z (z.runtime vars "PORT") ≡ some n
      → (50 ≤ n) × (Missing vars "PORT" → n ≡ 3000)
  port_given n h = elim (default_given "PORT" 3000 (z.coerce_int 50) n h) [
    | inl missing ↦ (omega (arith, missing.1), λ _. missing.1)
    | inr (s, given, e) ↦
        (laws.coerce_int_sound 50 n (some s) e, λ m. absurd (not_both "PORT" s given m))
  ]

  node_env_given :
      (s : String)
      → node_env_schema z (z.runtime vars "NODE_ENV") ≡ some s
      → Among s node_envs × (Missing vars "NODE_ENV" → s ≡ "development")
  node_env_given t h = elim (default_given "NODE_ENV" "development" (z.enum_of node_envs) t h) [
    | inl missing ↦ (inl missing.1, λ _. missing.1)
    | inr (s, given, e) ↦
        ((laws.enum_of_sound node_envs (some s) t e).1, λ m. absurd (not_both "NODE_ENV" s given m))
  ]

  -- What an accepted environment holds, by the variables.
  pub record IsAccepted (number : String → Option ℕ) (env : Env) : Type 0 where
    pub hosts : (t : String) × Given vars "REDIS_HOSTS" t × (env.redis_hosts ≡ redis_hosts t)
    pub some_host : 1 ≤ length env.redis_hosts
    pub maps :
        (Missing vars "REDIS_HOST_MAPS" × (env.redis_host_maps ≡ []))
        ⊎ ((t : String) × Given vars "REDIS_HOST_MAPS" t
            × (env.redis_host_maps ≡ redis_host_maps t))
    pub lowest_port : 50 ≤ env.port
    pub default_port : Missing vars "PORT" → env.port ≡ 3000
    pub node_env : Among env.node_env node_envs
    pub default_node_env : Missing vars "NODE_ENV" → env.node_env ≡ "development"
    pub webhook_url : Given vars "WEBHOOK_URL" env.webhook_url
    pub webhook_secret : Given vars "WEBHOOK_SECRET" env.webhook_secret
    pub key_path : Given vars "KEY_PATH" env.key_path
    pub cert_path : Given vars "CERT_PATH" env.cert_path
    pub password : (s : String) → env.redis_password ≡ some s → Given vars "REDIS_PASSWORD" s
    -- Without maps the set-up of the cluster does not throw.
    pub cluster :
        Missing vars "REDIS_HOST_MAPS"
        → (setup : ClusterSetup) × (new_redis_cluster number env.redis_hosts env.redis_host_maps
            ≡ ok setup)

  -- What each variable was read as.
  fields :
      (env : Env)
      → create_env z vars ≡ some env
      → (hosts_schema z (z.runtime vars "REDIS_HOSTS") ≡ some env.redis_hosts)
        × (maps_schema z (z.runtime vars "REDIS_HOST_MAPS") ≡ some env.redis_host_maps)
        × (port_schema z (z.runtime vars "PORT") ≡ some env.port)
        × (node_env_schema z (z.runtime vars "NODE_ENV") ≡ some env.node_env)
        × (z.url (z.runtime vars "WEBHOOK_URL") ≡ some env.webhook_url)
        × (z.string (z.runtime vars "WEBHOOK_SECRET") ≡ some env.webhook_secret)
        × (z.string (z.runtime vars "KEY_PATH") ≡ some env.key_path)
        × (z.string (z.runtime vars "CERT_PATH") ≡ some env.cert_path)
        × (z.optional z.string (z.runtime vars "REDIS_PASSWORD") ≡ some env.redis_password)
  unfolding create_env
  fields env h = ground arith

  cluster_made :
      (number : String → Option ℕ) (hosts maps : List String)
      → maps ≡ []
      → (setup : ClusterSetup) × (new_redis_cluster number hosts maps ≡ ok setup)
  unfolding new_redis_cluster
  cluster_made number hosts maps e = rw e (_, refl)

  no_maps :
      (l : List String)
      → maps_schema z (z.runtime vars "REDIS_HOST_MAPS") ≡ some l
      → Missing vars "REDIS_HOST_MAPS"
      → l ≡ []
  no_maps l h missing = elim (maps_given l h) [
    | inl none_given ↦ none_given.1
    | inr (t, given, e) ↦ absurd (not_both "REDIS_HOST_MAPS" t given missing)
  ]

  -- An environment that is accepted has REDIS_HOSTS, WEBHOOK_URL, WEBHOOK_SECRET, KEY_PATH and
  -- CERT_PATH, none of them empty, and at least one host. Its port is 50 or more, and 3000 where PORT
  -- is missing or empty; its mode is one of three, and development where NODE_ENV is missing or
  -- empty; a password is that of REDIS_PASSWORD. Where REDIS_HOST_MAPS is missing or empty there are no maps, and newRedisCluster does not
  -- throw.
  pub create_env-IsAccepted :
      (number : String → Option ℕ) (env : Env)
      → create_env z vars ≡ some env
      → IsAccepted number env
  create_env-IsAccepted number env h =
      let (hosts, maps, port, mode, url, secret, key, cert, password) = fields env h in
      record {
        hosts = (hosts_given env.redis_hosts hosts).0;
        some_host = (hosts_given env.redis_hosts hosts).1;
        maps = maps_given env.redis_host_maps maps;
        lowest_port = (port_given env.port port).0;
        default_port = (port_given env.port port).1;
        node_env = (node_env_given env.node_env mode).0;
        default_node_env = (node_env_given env.node_env mode).1;
        webhook_url = laws.runtime_given vars _ _ (laws.url_given _ env.webhook_url url);
        webhook_secret = string_given "WEBHOOK_SECRET" env.webhook_secret secret;
        key_path = string_given "KEY_PATH" env.key_path key;
        cert_path = string_given "CERT_PATH" env.cert_path cert;
        password = λ s e.
            string_given "REDIS_PASSWORD" s (laws.optional_some z.string _ s (rw e at password));
        cluster = λ missing. cluster_made number _ _ (no_maps env.redis_host_maps maps missing);
      }
