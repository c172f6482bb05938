-- ===== src/Payment/Config.antt =====
-- implementation/payment/src/infrastructure: the host lists of env.ts, queue.ts, and redis.ts, which
-- makes of the lists the start-up nodes of the Redis cluster and its map of internal to external addresses.
use text.Mathlib.Text.{◌==◌ as str_eq}
use text.Mathlib.TextEquality.{eq_iff}
use tugas_akhir.Common.{
  ℕ, ◌<◌, ◌≡◌, ◌≢◌, ◌⊎◌, refl, ◌∙◌, String, Bool, not, ◌&&◌, Option, none, some, List, [], ◌∷◌, map,
  filter, length, Outcome, ok, throw, if◌then◌else◌, ltb, ◌==◌, Bool-cases, inl, inr, arith,
}
use tugas_akhir.Common.Text.{split}
use tugas_akhir.Payment.Json.{Failure, error, lookup}

pub record Node : Type 0 where
  pub host : Option String
  pub port : Option ℕ

abbrev pub NatMap : Type 0
NatMap = List (String × Node)

pub record ClusterSetup : Type 0 where
  pub nodes : List Node
  pub nat_map : NatMap

-- The queue of webhooks, queue.ts: its name, and how often and how late a job is tried again.
pub record QueueOptions : Type 0 where
  pub name : String
  pub backoff : String
  pub delay : ℕ
  pub attempts : ℕ

abbrev pub webhook_queue : QueueOptions
webhook_queue = record { name = "{webhook}"; backoff = "exponential"; delay = 5000; attempts = 10 }

-- REDIS_HOSTS and REDIS_HOST_MAPS, from their texts.
unfoldable pub redis_hosts : String → List String
unfolding split
redis_hosts text = split b',' text

abbrev filled : String → Bool
filled e = not (str_eq e "")

unfoldable pub redis_host_maps : String → List String
unfolding split
redis_host_maps text = filter filled (split b',' text)

-- `natMap[k] = node`
put : String → Node → NatMap → NatMap
put k node [] = (k, node) ∷ []
put k node ((j, other) ∷ m) = if str_eq j k then (k, node) ∷ m else (j, other) ∷ put k node m

-- The entries that the loop over the hosts adds. Where there are maps they are as many as the hosts.
fill : List String → List Node → NatMap → NatMap
unfolding put
fill [] nodes m = m
fill (k ∷ ks) [] m = m
fill (k ∷ ks) (node ∷ nodes) m = fill ks nodes (put k node m)

-- `Number(port)`, where NaN is `none`; of a port that is missing it is NaN.
module _ (number : String → Option ℕ) where
  abbrev port_of : Option String → Option ℕ
  port_of none = none
  port_of (some text) = number text

  abbrev node_of : List String → Node
  node_of [] = record { host = none; port = none }
  node_of (host ∷ []) = record { host = some host; port = none }
  node_of (host ∷ port ∷ rest) = record { host = some host; port = port_of (some port) }

  pub parse_node : String → Node
  unfolding split
  parse_node e = node_of (split b':' e)

  -- The test at the start of newRedisCluster.
  abbrev pub mismatched : List String → List String → Bool
  mismatched hosts maps = ltb 0 (length maps) && not (length hosts == length maps)

  unfoldable pub new_redis_cluster : List String → List String → Outcome Failure ClusterSetup
  unfolding parse_node fill
  new_redis_cluster hosts maps =
      if mismatched hosts maps
      then throw (error "Length of redis host maps and redis hosts does not match")
      else ok
          (record { nodes = map parse_node hosts; nat_map = fill maps (map parse_node hosts) [] })

-- The node of the last host whose map is `k`.
abbrev or_else : Option Node → Option Node → Option Node
or_else none b = b
or_else (some a) b = some a

abbrev pub last_node : String → List String → List Node → Option Node
last_node k [] nodes = none
last_node k (j ∷ ks) [] = none
last_node k (j ∷ ks) (node ∷ nodes) =
    or_else (last_node k ks nodes) (if str_eq j k then some node else none)

lookup-put :
    (k j : String) (node : Node) (m : NatMap)
    → lookup j (put k node m) ≡ (if str_eq k j then some node else lookup j m)
unfolding put
lookup-put k j node [] = refl
lookup-put k j node ((i, other) ∷ m) =
    ground (arith, eq_iff k j, eq_iff i k, eq_iff i j, lookup-put k j node m)

lookup-fill :
    (k : String) (ks : List String) (nodes : List Node) (m : NatMap)
    → lookup k (fill ks nodes m) ≡ or_else (last_node k ks nodes) (lookup k m)
unfolding fill
lookup-fill k [] nodes m = refl
lookup-fill k (j ∷ ks) [] m = refl
lookup-fill k (j ∷ ks) (node ∷ nodes) m =
    rw (lookup-fill k ks nodes (put j node m), lookup-put j k node m) (ground arith)

or_else-none : (o : Option Node) → or_else o none ≡ o
or_else-none none = refl
or_else-none (some a) = refl

module _ (number : String → Option ℕ) (hosts maps : List String) where
  -- A configuration with maps that are not as many as the hosts is refused. Any other gives one node
  -- for each host, in their order, and an address map in which the name of a map stands for the last
  -- of the hosts that it is paired with, and no other name is there.
  pub new_redis_cluster-maps :
      (k : String)
      → ((0 < length maps)
          × (length hosts ≢ length maps)
          × ((e : Failure) × (new_redis_cluster number hosts maps ≡ throw e)))
        ⊎ ((setup : ClusterSetup) × (new_redis_cluster number hosts maps ≡ ok setup)
            × (setup.nodes ≡ map (parse_node number) hosts)
            × (lookup k setup.nat_map ≡ last_node k maps setup.nodes))
  unfolding new_redis_cluster
  new_redis_cluster-maps k = elim (Bool-cases (mismatched number hosts maps)) [
    | inl bad ↦ inl (
      ground (arith, bad),
      ground (arith, bad),
      (error "Length of redis host maps and redis hosts does not match", rw bad refl),
    )
    | inr good ↦ inr (
      record {
        nodes = map (parse_node number) hosts;
        nat_map = fill maps (map (parse_node number) hosts) [];
      },
      rw good refl,
      refl,
      lookup-fill k maps (map (parse_node number) hosts) [] ∙ or_else-none _,
    )
  ]
