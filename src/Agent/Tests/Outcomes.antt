-- ===== src/Agent/Tests/Outcomes.antt =====
-- The theorems on the variants the end states and the log at work: a ramp, an order that is paid, a stamp.
use tugas_akhir.Common.{◌≡◌, refl, true, some, none, [], ◌∷◌}
use tugas_akhir.Common.Text.{show}
use tugas_akhir.Agent.Scenario.{Environment, options}
use tugas_akhir.Agent.Scenario.Bounds.{OptionsPost, options-IsSound}
use tugas_akhir.Agent.Journey.{pay_phase}
use tugas_akhir.Agent.Journey.Evidence.{PhaseEvidence, pay_phase-evidence}
use tugas_akhir.Agent.Logger.{padded, TimeOfDay, get_timestamp, log_waiting_time}
use tugas_akhir.Agent.Tests.{user}
use tugas_akhir.Agent.World.{page, backend}

abbrev smoke_run : Environment
smoke_run = record { run_id = some "7"; variant = some "sim-1"; host_forward = none }

options-IsSound_example : OptionsPost smoke_run (options smoke_run)
options-IsSound_example = options-IsSound smoke_run

pay_phase-evidence_example :
    PhaseEvidence backend page.order 2 user user.world true
      (pay_phase backend 20 page.order 2 true user).0
      (pay_phase backend 20 page.order 2 true user).1
pay_phase-evidence_example = pay_phase-evidence backend page.order 2 user 20 true user refl

abbrev noon : TimeOfDay
noon = record { hours = 12; minutes = 5; seconds = 0; milliseconds = 42 }

noon_stamp : get_timestamp noon ≡ "12:05:00.042"
unfolding get_timestamp padded show
noon_stamp = refl

slow_response :
    log_waiting_time 5001 (some none) "GetSeats" (record { warnings = []; metric = 7 ∷ [] })
    ≡ record {
      warnings = "GetSeats with correlationId 'undefined' took longer than 5000" ∷ [];
      metric = 7 ∷ 5001 ∷ [];
    }
unfolding log_waiting_time
slow_response = refl
