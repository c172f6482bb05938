-- ===== src/Payment/Shutdown.antt =====
-- How the processes of the payment service end: handleShutdown of implementation/payment/src/
-- cmd/server/index.ts and cmd/echo/index.ts, and shutdown of cmd/notifier/index.ts. Each function is
-- a callback that the program registers; a step runs one of them, or lets a millisecond pass.
pub mod Ends
pub mod Deadline
use tugas_akhir.Common.{
  ℕ, ◌+◌, zero, suc, ◌≡◌, Bool, true, false, ◌||◌, Option, none, some, List, [], ◌∷◌, leb,
}

pub data Program : Type 0 where
  server : Program
  echo : Program
  notifier : Program

pub record Process : Type 0 where
  pub now : ℕ
  -- when SIGINT or SIGTERM came
  pub signals : List ℕ
  -- the callbacks of `server.close`, or of `worker.close`, that wait
  pub closing : ℕ
  pub closed : Bool
  -- the promises of `webhookQueue.close` that wait
  pub queue_closing : ℕ
  -- a promise of `webhookQueue.close` was resolved, or was resolved or rejected
  pub queue_closed : Bool
  pub queue_settled : Bool
  pub disconnected : Bool
  -- a promise was rejected that no `catch` waits for
  pub rejected : Bool
  -- when the callbacks of `setTimeout` are due
  pub timers : List ℕ
  -- the argument of `process.exit`
  pub exit : Option ℕ

abbrev pub started : ℕ → Process
started t = record {
  now = t;
  signals = [];
  closing = 0;
  closed = false;
  queue_closing = 0;
  queue_closed = false;
  queue_settled = false;
  rejected = false;
  disconnected = false;
  timers = [];
  exit = none;
}

abbrev pub grace : ℕ
grace = 5000

abbrev pub force_later : Process → Process
force_later s = record s { timers = (s.now + grace) ∷ s.timers }

abbrev server_shutdown : Process → Process
server_shutdown s = force_later (record s { closing = suc s.closing })

abbrev echo_shutdown : Process → Process
echo_shutdown s = force_later (record s { closing = suc s.closing })

abbrev notifier_shutdown : Process → Process
notifier_shutdown s = record s { closing = suc s.closing }

-- The handler that a program gives to `process.on`, for both signals.
unfoldable pub handle_shutdown : Program → Process → Process
handle_shutdown server s = server_shutdown s
handle_shutdown echo s = echo_shutdown s
handle_shutdown notifier s = notifier_shutdown s

abbrev server_closed : Process → Process
server_closed s = record s { queue_closing = suc s.queue_closing }

abbrev echo_closed : Process → Process
echo_closed s = record s { exit = some 0 }

abbrev notifier_closed : Process → Process
notifier_closed s = record s { exit = some 0 }

-- The callback of `server.close`, or what follows `await worker.close()`.
unfoldable pub on_closed : Program → Process → Process
on_closed server s = server_closed s
on_closed echo s = echo_closed s
on_closed notifier s = notifier_closed s

-- The callback of `finally`, whether the queue was closed or not.
unfoldable pub on_queue_closed : Process → Process
on_queue_closed s = record s { disconnected = true; exit = some 0 }

-- `await worker.close()` throws in a handler of the notifier: the rejection of its promise is not
-- handled, and ends the process with the code 1.
unfoldable pub on_rejected : Process → Process
on_rejected s = record s { rejected = true; exit = some 1 }

-- The callback of `setTimeout`.
unfoldable pub on_timeout : Process → Process
on_timeout s = record s { exit = some 1 }

abbrev pub due : List ℕ → ℕ → Bool
due [] now = false
due (d ∷ ds) now = leb d now || due ds now

-- A step of a process that still runs. No time passes while a timer is due.
pub data Step (prog : Program) : Process → Process → Type 0 where
  signalled :
      (s : Process)
      → s.exit ≡ none
      → Step prog s (handle_shutdown prog (record s { signals = s.now ∷ s.signals }))
  closes :
      (s : Process) (n : ℕ)
      → s.exit ≡ none
      → s.closing ≡ suc n
      → Step prog s (on_closed prog (record s { closing = n; closed = true }))
  rejects :
      (s : Process) (n : ℕ)
      → prog ≡ notifier
      → s.exit ≡ none
      → s.closing ≡ suc n
      → Step prog s (on_rejected (record s { closing = n }))
  queue_closes :
      (s : Process) (n : ℕ)
      → s.exit ≡ none
      → s.queue_closing ≡ suc n
      → Step prog s (
          on_queue_closed
            (record s { queue_closing = n; queue_closed = true; queue_settled = true }))
  queue_rejects :
      (s : Process) (n : ℕ)
      → s.exit ≡ none
      → s.queue_closing ≡ suc n
      → Step prog s (on_queue_closed (record s { queue_closing = n; queue_settled = true }))
  fires : (s : Process) → s.exit ≡ none → due s.timers s.now ≡ true → Step prog s (on_timeout s)
  passes :
      (s : Process)
      → s.exit ≡ none
      → due s.timers s.now ≡ false
      → Step prog s (record s { now = s.now + 1 })

pub data Reach (prog : Program) : Process → Process → Type 0 where
  here : {s : Process} → Reach prog s s
  next : {s s' s'' : Process} → Reach prog s s' → Step prog s' s'' → Reach prog s s''
