-- ===== src/Payment/Start/Agrees.antt =====
-- When the server of the payment service starts, and what it shares with the notifier.
use tugas_akhir.Common.{
  ℕ, ◌<◌, ◌≤◌, String, ◌≡◌, ◌≢◌, refl, ◌⊎◌, inl, inr, Option, none, some, length, map, Outcome, ok,
  throw, Option-cases,
}
use tugas_akhir.Payment.Json.{Failure}
use tugas_akhir.Payment.Config.{ClusterSetup, webhook_queue, parse_node, new_redis_cluster-maps}
use tugas_akhir.Payment.Env.{EnvZod, EnvLaws, Env, create_env}
use tugas_akhir.Payment.Env.Accepted.{Missing, IsAccepted, create_env-IsAccepted}
use tugas_akhir.Payment.Start.{
  Started, running, exited, printed, ServerSetup, WorkerSetup, connect, server_main, notifier_main,
}

Outcome-cases :
    {E A : Type 0} (r : Outcome E A) → ((a : A) × (r ≡ ok a)) ⊎ ((e : E) × (r ≡ throw e))
Outcome-cases (ok a) = inl (a, refl)
Outcome-cases (throw e) = inr (e, refl)

module _ (z : EnvZod) (laws : EnvLaws z) (number : String → Option ℕ)
    (read_file : String → Outcome Failure String) (vars : String → Option String) where
  -- Why a server whose environment is accepted does not start.
  abbrev pub Blocked : Env → Type 0
  Blocked config =
      ((0 < length config.redis_host_maps)
        × (length config.redis_hosts ≢ length config.redis_host_maps))
      ⊎ ((e : Failure) × (read_file config.key_path ≡ throw e))
      ⊎ ((e : Failure) × (read_file config.cert_path ≡ throw e))

  -- The worker of the notifier that is started with the same variables, on the same Redis and queue.
  abbrev pub Shares : ServerSetup → Type 0
  Shares a =
      (w : WorkerSetup) × (notifier_main z number read_file vars ≡ running w)
      × (w.cluster ≡ a.cluster)
      × (w.password ≡ a.password)
      × (w.queue_name ≡ a.queue.name)

  -- The set-up is that of the environment.
  abbrev pub Serves : Env → ServerSetup → Type 0
  Serves config a =
      (a.port ≡ config.port)
      × (a.cluster.nodes ≡ map (parse_node number) config.redis_hosts)
      × (read_file config.key_path ≡ ok a.key)
      × (read_file config.cert_path ≡ ok a.cert)

  abbrev pub StartPost : Started ServerSetup → Type 0
  StartPost (running a) =
      (config : Env) × (create_env z vars ≡ some config)
      × (50 ≤ a.port)
      × (Missing vars "PORT" → a.port ≡ 3000)
      × Serves config a
      × Shares a
  StartPost (exited n) =
      (n ≡ 1)
      × ((create_env z vars ≡ none)
          ⊎ ((config : Env) × (create_env z vars ≡ some config) × Blocked config))
  StartPost (printed e) = ⊥

  module _ (config : Env) (accepted : create_env z vars ≡ some config) where
    holds : IsAccepted z laws vars number config
    holds = create_env-IsAccepted z laws vars number config accepted

    abbrev worker : ClusterSetup → WorkerSetup
    worker cluster = record {
      cluster = cluster;
      password = config.redis_password;
      queue_name = webhook_queue.name;
      concurrency = 500;
    }

    notifier_runs :
        (cluster : ClusterSetup)
        → connect z number read_file config ≡ ok cluster
        → notifier_main z number read_file vars ≡ running (worker cluster)
    unfolding notifier_main
    notifier_runs cluster connected = rw (accepted, connected) refl

    blocked : (e : Failure) → Blocked config → StartPost (exited 1)
    blocked e why = (refl, inr (config, accepted, why))

    main_post : StartPost (server_main z number read_file vars)
    unfolding server_main
    main_post = elim (new_redis_cluster-maps number config.redis_hosts config.redis_host_maps "") [
      | inl (some_map, differ, (e, refused)) ↦
          rw (accepted, refused) (blocked e (inl (some_map, differ)))
      | inr (cluster, made, nodes, names) ↦ elim (Outcome-cases (read_file config.key_path)) [
        | inr (e, no_key) ↦ rw (accepted, made, no_key) (blocked e (inr (inl (e, no_key))))
        | inl (key, has_key) ↦ elim (Outcome-cases (read_file config.cert_path)) [
          | inr (e, no_cert) ↦
              rw (accepted, made, has_key, no_cert) (blocked e (inr (inr (e, no_cert))))
          | inl (cert, has_cert) ↦
              rw (accepted, made, has_key, has_cert)
                (
                  config,
                  accepted,
                  holds.lowest_port,
                  holds.default_port,
                  (refl, nodes, has_key, has_cert),
                  (worker cluster, notifier_runs cluster made, refl, refl, refl),
                )
        ]
      ]
    ]

  refused_post : create_env z vars ≡ none → StartPost (server_main z number read_file vars)
  unfolding server_main
  refused_post refused = rw refused (refl, inl refused)

  -- A server that starts has read an environment that is accepted, listens on its port, which is 50
  -- or more and 3000 where PORT is missing or empty, connects to a node for each host, and has read
  -- the two files; the notifier starts with the same variables, too, with the same nodes, address map
  -- and password of Redis, on the queue of the same name. A server that does not start leaves with
  -- the code 1, and the environment was refused, or its maps are not as many as the hosts, or one of
  -- the files could not be read.
  pub server_main-StartPost : StartPost (server_main z number read_file vars)
  server_main-StartPost = elim (Option-cases (create_env z vars)) [
    | inl refused ↦ refused_post refused
    | inr (config, accepted) ↦ main_post config accepted
  ]
