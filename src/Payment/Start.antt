-- ===== src/Payment/Start.antt =====
-- How the programs of implementation/payment/src/cmd start: server/index.ts, notifier/index.ts,
-- echo/index.ts and reset/index.ts, up to what they have set up when main returns. The environment
-- is read when env.ts is imported; `readFileSync` and Redis are parameters.
pub mod Agrees
use tugas_akhir.Common.{
  ℕ, String, Option, none, some, Exec, Outcome, ok, throw, pure, continue, ◌>>=◌,
}
use tugas_akhir.Payment.Json.{Failure}
use tugas_akhir.Payment.Config.{ClusterSetup, QueueOptions, webhook_queue, new_redis_cluster}
use tugas_akhir.Payment.Env.{EnvZod, Env, create_env}

-- What is left of a program when its main function has ended: it goes on with what it has set up, it
-- has left by `process.exit` or by an exception that nothing catches, or an error was printed and
-- nothing was set up.
pub data Started (A : Type 0) : Type 0 where
  running : A → Started A
  exited : ℕ → Started A
  printed : Failure → Started A

-- `await` and `throw` in main, where no world is needed.
abbrev and_then : {A B : Type 0} → Outcome Failure A → (A → Outcome Failure B) → Outcome Failure B
and_then (ok a) f = f a
and_then (throw e) f = throw e

-- `main().catch` of the server, which leaves with the code 1.
abbrev or_exit : {A : Type 0} → Outcome Failure A → Started A
or_exit (ok a) = running a
or_exit (throw e) = exited 1

-- `main().catch` of the notifier, which prints the error.
abbrev or_print : {A : Type 0} → Outcome Failure A → Started A
or_print (ok a) = running a
or_print (throw e) = printed e

-- A program imports env.ts first. What createEnv throws ends it with the code 1.
abbrev with_env : {A : Type 0} → Option Env → (Env → Started A) → Started A
with_env none main = exited 1
with_env (some config) main = main config

-- The server: its connections, and the options of `serve`.
pub record ServerSetup : Type 0 where
  pub cluster : ClusterSetup
  pub password : Option String
  pub queue : QueueOptions
  pub port : ℕ
  pub key : String
  pub cert : String

-- The worker of the notifier.
pub record WorkerSetup : Type 0 where
  pub cluster : ClusterSetup
  pub password : Option String
  pub queue_name : String
  pub concurrency : ℕ

pub record EchoSetup : Type 0 where
  pub port : ℕ

module _ (z : EnvZod) (number : String → Option ℕ)
    (read_file : String → Outcome Failure String) where
  abbrev connect : Env → Outcome Failure ClusterSetup
  connect config = new_redis_cluster number config.redis_hosts config.redis_host_maps

  abbrev server_setup : Env → Outcome Failure ServerSetup
  server_setup config = and_then (connect config) (λ cluster.
      and_then (read_file config.key_path) (λ key. and_then (read_file config.cert_path) (λ cert.
        ok (record {
          cluster = cluster;
          password = config.redis_password;
          queue = webhook_queue;
          port = config.port;
          key = key;
          cert = cert;
        }))))

  -- cmd/server/index.ts
  unfoldable pub server_main : (String → Option String) → Started ServerSetup
  server_main vars = with_env (create_env z vars) (λ config. or_exit (server_setup config))

  abbrev worker_setup : Env → Outcome Failure WorkerSetup
  worker_setup config = and_then (connect config) (λ cluster. ok (record {
    cluster = cluster;
    password = config.redis_password;
    queue_name = "{webhook}";
    concurrency = 500;
  }))

  -- cmd/notifier/index.ts
  unfoldable pub notifier_main : (String → Option String) → Started WorkerSetup
  notifier_main vars = with_env (create_env z vars) (λ config. or_print (worker_setup config))

  -- cmd/echo/index.ts
  unfoldable pub echo_main : (String → Option String) → Started EchoSetup
  echo_main vars = with_env (create_env z vars) (λ config. running (record { port = 3005 }))

  -- `redis.flushall()`, of the cluster that the set-up connects to.
  module _ {S : Type 0} (flush_all : ClusterSetup → Exec S Failure (Unit {0})) where
    abbrev flushed : Outcome Failure (Unit {0}) → S → ℕ × S
    flushed (ok u) s = (0, s)
    flushed (throw e) s = (1, s)

    abbrev flush : Outcome Failure ClusterSetup → S → ℕ × S
    flush (ok cluster) s = flushed (flush_all cluster s).0 (flush_all cluster s).1
    flush (throw e) s = (1, s)

    abbrev reset : Option Env → S → ℕ × S
    reset none s = (1, s)
    reset (some config) s = flush (connect config) s

    -- cmd/reset/index.ts, by its exit code.
    unfoldable pub reset_main : (String → Option String) → S → ℕ × S
    reset_main vars = reset (create_env z vars)
