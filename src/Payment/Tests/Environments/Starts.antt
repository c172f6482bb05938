-- ===== src/Payment/Tests/Environments/Starts.antt =====
-- The start of the server and of the notifier at work, with the variables of a production server.
use text.Mathlib.Text.{◌==◌ as str_eq}
use tugas_akhir.Common.{String, ◌≡◌, refl, ℕ, Outcome, ok, throw, if◌then◌else◌}
use tugas_akhir.Common.Text.{parse_int}
use tugas_akhir.Payment.Json.{Failure, error}
use tugas_akhir.Payment.Config.{redis_hosts, redis_host_maps, new_redis_cluster}
use tugas_akhir.Payment.Env.{create_env}
use tugas_akhir.Payment.Start.{Started, running, exited, printed, ServerSetup, server_main}
use tugas_akhir.Payment.Start.Agrees.{StartPost, server_main-StartPost}
use tugas_akhir.Payment.Tests.Environments.{schemas, schemas-EnvLaws, variables}

abbrev read_file : String → Outcome Failure String
read_file path = if str_eq path "" then throw (error "ENOENT") else ok path

server_main-StartPost_example :
    StartPost schemas schemas-EnvLaws parse_int read_file variables
      (server_main schemas parse_int read_file variables)
server_main-StartPost_example =
    server_main-StartPost schemas schemas-EnvLaws parse_int read_file variables

abbrev port_of : Started ServerSetup → ℕ
port_of (running a) = a.port
port_of (exited n) = 0
port_of (printed e) = 0

port_test : port_of (server_main schemas parse_int read_file variables) ≡ 3000
unfolding server_main create_env redis_hosts redis_host_maps new_redis_cluster
port_test = refl
