-- ===== src/Agent/Scenario.antt =====
-- implementation/agent/src/tests/ticket.ts: the scenario that a variant selects, and the options
-- that k6 reads when it loads the script. `__ENV` has a text or nothing under each name.
pub mod Bounds
use Prim.Native.String
use text.Mathlib.Text.{◌==◌ as str_eq}
use tugas_akhir.Common.{
  ℕ, String, Bool, true, false, Option, none, some, List, [], ◌∷◌, Outcome, ok, throw,
  if◌then◌else◌,
}

pub record Stage : Type 0 where
  pub target : ℕ
  pub duration : String

-- The executors of k6, with their parameters.
pub data Scenario : Type 0 where
  shared_iterations : (vus iterations : ℕ) → (max_duration : String) → Scenario
  constant_vus : (vus : ℕ) → (duration : String) → Scenario
  ramping_arrival_rate : (pre_allocated_vus : ℕ) → (stages : List Stage) → Scenario

abbrev stage : ℕ → String → Stage
stage target duration = record { target = target; duration = duration }

abbrev pub sim_1_stages : List Stage
sim_1_stages =
    stage 2976 "30s"
    ∷ stage 9653 "30s"
    ∷ stage 9293 "30s"
    ∷ stage 6662 "30s"
    ∷ stage 4149 "30s"
    ∷ stage 2618 "30s"
    ∷ stage 1690 "30s"
    ∷ stage 1020 "30s"
    ∷ stage 624 "30s"
    ∷ stage 423 "30s"
    ∷ stage 308 "30s"
    ∷ stage 196 "30s"
    ∷ stage 129 "30s"
    ∷ stage 67 "30s"
    ∷ stage 55 "30s"
    ∷ stage 41 "30s"
    ∷ stage 30 "30s"
    ∷ stage 17 "30s"
    ∷ stage 14 "30s"
    ∷ stage 7 "30s"
    ∷ []

abbrev pub sim_2_stages : List Stage
sim_2_stages =
    stage 6606 "30s"
    ∷ stage 23664 "30s"
    ∷ stage 23777 "30s"
    ∷ stage 16826 "30s"
    ∷ stage 10861 "30s"
    ∷ stage 6789 "30s"
    ∷ stage 4138 "30s"
    ∷ stage 2559 "30s"
    ∷ stage 1622 "30s"
    ∷ stage 1069 "30s"
    ∷ stage 682 "30s"
    ∷ stage 446 "30s"
    ∷ stage 283 "30s"
    ∷ stage 193 "30s"
    ∷ stage 122 "30s"
    ∷ stage 102 "30s"
    ∷ stage 71 "30s"
    ∷ stage 61 "30s"
    ∷ stage 34 "30s"
    ∷ stage 22 "30s"
    ∷ []

abbrev pub sim_test_stages : List Stage
sim_test_stages =
    stage 1118 "30s"
    ∷ stage 2918 "30s"
    ∷ stage 2696 "30s"
    ∷ stage 1955 "30s"
    ∷ stage 1210 "30s"
    ∷ stage 726 "30s"
    ∷ stage 507 "30s"
    ∷ stage 304 "30s"
    ∷ stage 168 "30s"
    ∷ stage 135 "30s"
    ∷ stage 88 "30s"
    ∷ stage 53 "30s"
    ∷ stage 40 "30s"
    ∷ stage 28 "30s"
    ∷ stage 22 "30s"
    ∷ stage 9 "30s"
    ∷ stage 4 "30s"
    ∷ stage 5 "30s"
    ∷ stage 5 "30s"
    ∷ stage 2 "30s"
    ∷ []

-- `VARIANT === name`
abbrev pub is : Option String → String → Bool
is none name = false
is (some variant) name = str_eq variant name

unfoldable pub generate_scenario : Option String → Outcome String Scenario
generate_scenario variant =
    if is variant "debug"
    then ok (shared_iterations 2 10 "5m")
    else if is variant "smoke"
    then ok (constant_vus 50 "5m")
    else if is variant "smokey"
    then ok (constant_vus 200 "10m")
    else if is variant "sim-1"
    then ok (ramping_arrival_rate 12000 sim_1_stages)
    else if is variant "sim-2"
    then ok (ramping_arrival_rate 50000 sim_2_stages)
    else if is variant "sim-test"
    then ok (ramping_arrival_rate 5000 sim_test_stages)
    else if is variant "stress-0"
    then ok (shared_iterations 15000 350000 "10m")
    else if is variant "stress-1"
    then ok (shared_iterations 12000 350000 "15m")
    else if is variant "stress-2"
    then ok (shared_iterations 10000 350000 "15m")
    else if is variant "stress-3"
    then ok (shared_iterations 8000 350000 "15m")
    else if is variant "stress-4"
    then ok (shared_iterations 4000 200000 "15m")
    else if is variant "stress-5"
    then ok (shared_iterations 2000 200000 "15m")
    else throw "Invalid variant"

-- The text of `${value}`.
abbrev text_of : Option String → String
text_of none = "undefined"
text_of (some s) = s

-- `__ENV.HOST_FORWARD || "127.0.0.1"`
abbrev host_of : Option String → String
host_of none = "127.0.0.1"
host_of (some s) = if str_eq s "" then "127.0.0.1" else s

pub record Environment : Type 0 where
  pub run_id : Option String
  pub variant : Option String
  pub host_forward : Option String

pub record Options : Type 0 where
  pub insecure_skip_tls_verify : Bool
  pub testid : Option String
  pub variant : Option String
  pub scenarios : List (String × Scenario)
  pub hosts : List (String × String)

-- `${VARIANT}_${RUN_ID}`
abbrev scenario_name : Environment → String
scenario_name env = String.◌++◌ (text_of env.variant) (String.◌++◌ "_" (text_of env.run_id))

abbrev options_with : Environment → Outcome String Scenario → Outcome String Options
options_with env (throw e) = throw e
options_with env (ok scenario) = ok (record {
  insecure_skip_tls_verify = true;
  testid = env.run_id;
  variant = env.variant;
  scenarios = (scenario_name env, scenario) ∷ [];
  hosts =
      ("payment.tugas-akhir.local", host_of env.host_forward)
      ∷ ("ticket.tugas-akhir.local", host_of env.host_forward)
      ∷ [];
})

unfoldable pub options : Environment → Outcome String Options
unfolding generate_scenario
options env = options_with env (generate_scenario env.variant)
