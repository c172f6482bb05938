-- ===== src/Payment/Tests/Processes.antt =====
-- The theorems on the end of a process at work: a server that gets a signal.
use tugas_akhir.Common.{[], ◌∷◌, ◌+◌, ◌≤◌, ◌≢◌, refl, true, some}
use tugas_akhir.Payment.Shutdown.{
  server, echo, notifier, Process, started, handle_shutdown, on_closed, on_queue_closed, Reach,
  here, next, signalled, closes, queue_closes,
}
use tugas_akhir.Payment.Shutdown.Ends.{EndPost, Reach-ends}
use tugas_akhir.Payment.Shutdown.Deadline.{Forced, Reach-deadline}

-- A server that got SIGTERM at 100, and then closed all that it has.
abbrev ending : Process
ending = record (started 100) { signals = 100 ∷ []; closing = 1; timers = 5100 ∷ [] }

abbrev drained : Process
drained = record ending { closing = 0; closed = true; queue_closing = 1 }

abbrev ended : Process
ended = record drained {
  queue_closing = 0;
  queue_closed = true;
  queue_settled = true;
  disconnected = true;
  exit = some 0;
}

ending_reached : Reach server (started 100) ending
unfolding handle_shutdown
ending_reached = next here (signalled (started 100) refl)

ended_reached : Reach server (started 100) ended
unfolding on_closed on_queue_closed
ended_reached =
    next (next ending_reached (closes ending 0 refl refl)) (queue_closes drained 0 refl refl)

Reach-ends_example : EndPost server ended (some 0)
Reach-ends_example = Reach-ends server 100 ended ended_reached

different : echo ≢ notifier
different e = cc e

Reach-deadline_example :
    (100 ≤ 100 + 5000)
    × Forced echo (100 + 5000) (handle_shutdown echo (record (started 100) { signals = 100 ∷ [] }))
unfolding handle_shutdown
Reach-deadline_example =
    Reach-deadline echo 100 (started 100)
      (handle_shutdown echo (record (started 100) { signals = 100 ∷ [] })) different here refl here
      refl
