-- ===== src/Agent/Scenario/Bounds.antt =====
-- Which variants there are, and the load that their scenarios put on the services.
use tugas_akhir.Common.{
  ℕ, ◌≤◌, ◌<◌, ◌≡◌, refl, String, Bool, true, false, ◌||◌, Option, List, [], ◌∷◌, Outcome, ok,
  throw, if◌then◌else◌, length, All, arith,
}
use tugas_akhir.Agent.Scenario.{
  Stage, Scenario, shared_iterations, constant_vus, ramping_arrival_rate, sim_1_stages,
  sim_2_stages, sim_test_stages, is, generate_scenario, Environment, Options, options_with, options,
}

abbrev pub variants : List String
variants =
    "debug" ∷ "smoke" ∷ "smokey" ∷ "sim-1" ∷ "sim-2" ∷ "sim-test" ∷ "stress-0" ∷ "stress-1"
    ∷ "stress-2" ∷ "stress-3" ∷ "stress-4" ∷ "stress-5" ∷ []

abbrev pub known : Option String → List String → Bool
known variant [] = false
known variant (name ∷ names) = is variant name || known variant names

-- Each user of shared iterations has work, and a ramp is ten minutes whose rate stays positive and
-- below the number of the users that are prepared.
abbrev pub IsSound : Scenario → Type 0
IsSound (shared_iterations vus iterations max_duration) = (0 < vus) × (vus ≤ iterations)
IsSound (constant_vus vus duration) = 0 < vus
IsSound (ramping_arrival_rate vus stages) =
    (length stages ≡ 20)
    × All (λ (s : Stage). (0 < s.target) × (s.target ≤ vus) × (s.duration ≡ "30s")) stages

abbrev pub ScenarioPost : Option String → Outcome String Scenario → Type 0
ScenarioPost variant (ok scenario) = (known variant variants ≡ true) × IsSound scenario
ScenarioPost variant (throw e) = (known variant variants ≡ false) × (e ≡ "Invalid variant")

if_post :
    {A : Type 0} (P : A → Type 0) (b : Bool) (x y : A)
    → (b ≡ true → P x)
    → (b ≡ false → P y)
    → P (if b then x else y)
if_post P true x y holds fails = holds refl
if_post P false x y holds fails = fails refl

abbrev IsRamp : ℕ → List Stage → Type 0
IsRamp vus stages = IsSound (ramping_arrival_rate vus stages)

sim_1-IsRamp : IsRamp 12000 sim_1_stages
sim_1-IsRamp = ground arith

sim_2-IsRamp : IsRamp 50000 sim_2_stages
sim_2-IsRamp = ground arith

sim_test-IsRamp : IsRamp 5000 sim_test_stages
sim_test-IsRamp = ground arith

generate_scenario-IsSound :
    (variant : Option String) → ScenarioPost variant (generate_scenario variant)
unfolding generate_scenario
generate_scenario-IsSound v =
    if_post (ScenarioPost v) (is v "debug") _ _ (λ e. (rw (e) refl, omega arith))
      λ n0.
        if_post (ScenarioPost v) (is v "smoke") _ _ (λ e. (rw (n0, e) refl, omega arith))
          λ n1.
            if_post (ScenarioPost v) (is v "smokey") _ _ (λ e. (rw (n0, n1, e) refl, omega arith))
              λ n2.
                if_post (ScenarioPost v) (is v "sim-1") _ _
                  (λ e. (rw (n0, n1, n2, e) refl, sim_1-IsRamp))
                  λ n3.
                    if_post (ScenarioPost v) (is v "sim-2") _ _
                      (λ e. (rw (n0, n1, n2, n3, e) refl, sim_2-IsRamp))
                      λ n4.
                        if_post (ScenarioPost v) (is v "sim-test") _ _
                          (λ e. (rw (n0, n1, n2, n3, n4, e) refl, sim_test-IsRamp))
                          λ n5.
                            if_post (ScenarioPost v) (is v "stress-0") _ _
                              (λ e. (rw (n0, n1, n2, n3, n4, n5, e) refl, omega arith))
                              λ n6.
                                if_post (ScenarioPost v) (is v "stress-1") _ _
                                  (λ e. (rw (n0, n1, n2, n3, n4, n5, n6, e) refl, omega arith))
                                  λ n7.
                                    if_post (ScenarioPost v) (is v "stress-2") _ _
                                      (λ e.
                                        (rw (n0, n1, n2, n3, n4, n5, n6, n7, e) refl, omega arith))
                                      λ n8.
                                        if_post (ScenarioPost v) (is v "stress-3") _ _
                                          (λ e. (
                                            rw (n0, n1, n2, n3, n4, n5, n6, n7, n8, e) refl,
                                            omega arith,
                                          ))
                                          λ n9.
                                            if_post (ScenarioPost v) (is v "stress-4") _ _
                                              (λ e. (
                                                rw (n0, n1, n2, n3, n4, n5, n6, n7, n8, n9, e) refl,
                                                omega arith,
                                              ))
                                              λ n10.
                                                if_post (ScenarioPost v) (is v "stress-5") _ _
                                                  (λ e. (
                                                    rw
                                                        (
                                                          n0, n1, n2, n3, n4, n5, n6, n7, n8, n9,
                                                          n10, e,
                                                        )
                                                        refl,
                                                    omega arith,
                                                  ))
                                                  λ n11. (
                                                    rw
                                                        (
                                                          n0, n1, n2, n3, n4, n5, n6, n7, n8, n9,
                                                          n10, n11,
                                                        )
                                                        refl,
                                                    refl,
                                                  )

abbrev pub OptionsPost : Environment → Outcome String Options → Type 0
OptionsPost env (throw e) = (known env.variant variants ≡ false) × (e ≡ "Invalid variant")
OptionsPost env (ok o) =
    (known env.variant variants ≡ true)
    × ((name : String) × (scenario : Scenario) × (o.scenarios ≡ (name, scenario) ∷ [])
        × IsSound scenario)
    × (o.variant ≡ env.variant)

options_with-IsSound :
    (env : Environment) (r : Outcome String Scenario)
    → ScenarioPost env.variant r
    → OptionsPost env (options_with env r)
options_with-IsSound env (throw e) h = h
options_with-IsSound env (ok scenario) (k, h) = (k, (_, scenario, refl, h), refl)

-- The script loads for exactly the twelve variants, with one scenario, and throws for any other text
-- or none. Shared iterations are as many as their users at least; a ramp has 20 stages of 30
-- seconds, with rates above 0 and up to the number of the users that are prepared.
pub options-IsSound : (env : Environment) → OptionsPost env (options env)
unfolding options
options-IsSound env =
    options_with-IsSound env (generate_scenario env.variant) (generate_scenario-IsSound env.variant)
