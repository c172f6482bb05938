-- ===== src/Payment/Shutdown/Ends.antt =====
-- What holds of a process while it runs and when it has ended.
use tugas_akhir.Common.{
  sym, ◌⊎◌, inl, inr, ℕ, ◌+◌, ◌≤◌, ◌<◌, zero, suc, ◌≡◌, refl, true, false, Option, none, some, List,
  [], ◌∷◌, All, map, arith,
}
use tugas_akhir.Payment.Shutdown.{
  Program, server, echo, notifier, Process, started, grace, handle_shutdown, on_closed,
  on_queue_closed, on_rejected, on_timeout, due, Step, signalled, closes, rejects, queue_closes,
  queue_rejects, fires, passes, Reach, here, next,
}

-- When a process that gets these signals is to be ended by force.
abbrev pub deadlines : Program → List ℕ → List ℕ
deadlines notifier signals = []
deadlines _ signals = map (λ t. t + grace) signals

-- What was done before `process.exit(0)`.
abbrev pub IsClean : Program → Process → Type 0
IsClean server s = (s.closed ≡ true) × (s.queue_settled ≡ true) × (s.disconnected ≡ true)
IsClean _ s = s.closed ≡ true

-- A process that runs is not past a deadline; one that has ended closed what it had to close, with
-- the code 0, or was at a deadline, with the code 1, which is also that of a rejected close of the
-- notifier.
abbrev pub EndPost : Program → Process → Option ℕ → Type 0
EndPost prog s none = All (λ d. s.now ≤ d) (deadlines prog s.signals)
EndPost prog s (some zero) = IsClean prog s
EndPost prog s (some (suc zero)) =
    (due (deadlines prog s.signals) s.now ≡ true) ⊎ ((prog ≡ notifier) × (s.rejected ≡ true))
EndPost prog s (some (suc (suc n))) = ⊥

pub record Inv (prog : Program) (s : Process) : Type 0 where
  pub timed : s.timers ≡ deadlines prog s.signals
  pub queue_last : 0 < s.queue_closing → s.closed ≡ true
  pub ends : EndPost prog s s.exit

pub All-passes :
    (ds : List ℕ) (now : ℕ) → due ds now ≡ false → All (λ d. now ≤ d) ds → All (λ d. now + 1 ≤ d) ds
All-passes [] now h a = tt
All-passes (d ∷ ds) now h (le, a) = (ground arith, All-passes ds now (ground arith) a)

pub running : (prog : Program) (s : Process) → s.exit ≡ none → Inv prog s → EndPost prog s none
running prog s e h = rw e at h.ends

-- A process that runs on is consistent if it is on time.
alive-Inv :
    (prog : Program) (s : Process)
    → s.exit ≡ none
    → s.timers ≡ deadlines prog s.signals
    → (0 < s.queue_closing → s.closed ≡ true)
    → EndPost prog s none
    → Inv prog s
alive-Inv prog s e t q h = record { timed = t; queue_last = q; ends = rw e h }

pub signalled-Inv :
    (prog : Program) (s : Process)
    → s.exit ≡ none
    → Inv prog s
    → Inv prog (handle_shutdown prog (record s { signals = s.now ∷ s.signals }))
unfolding handle_shutdown
signalled-Inv server s e h =
    alive-Inv server _ e (rw h.timed refl) h.queue_last (omega arith, running server s e h)
signalled-Inv echo s e h =
    alive-Inv echo _ e (rw h.timed refl) h.queue_last (omega arith, running echo s e h)
signalled-Inv notifier s e h = alive-Inv notifier _ e h.timed h.queue_last tt

closes-Inv :
    (prog : Program) (s : Process) (n : ℕ)
    → s.exit ≡ none
    → Inv prog s
    → Inv prog (on_closed prog (record s { closing = n; closed = true }))
unfolding on_closed
closes-Inv server s n e h = alive-Inv server _ e h.timed (λ _. refl) (running server s e h)
closes-Inv echo s n e h = record { timed = h.timed; queue_last = λ _. refl; ends = refl }
closes-Inv notifier s n e h = record { timed = h.timed; queue_last = λ _. refl; ends = refl }

queue-IsClean :
    (prog : Program) (s : Process)
    → s.closed ≡ true
    → s.queue_settled ≡ true
    → s.disconnected ≡ true
    → IsClean prog s
queue-IsClean server s c q d = (c, q, d)
queue-IsClean echo s c q d = c
queue-IsClean notifier s c q d = c

queue_closes-Inv :
    (prog : Program) (s : Process) (n : ℕ)
    → s.queue_closing ≡ suc n
    → Inv prog s
    → Inv prog (
        on_queue_closed (record s { queue_closing = n; queue_closed = true; queue_settled = true }))
unfolding on_queue_closed
queue_closes-Inv prog s n e h =
    let c = h.queue_last (omega (arith, e)) in
    record { timed = h.timed; queue_last = λ _. c; ends = queue-IsClean prog _ c refl refl }

queue_rejects-Inv :
    (prog : Program) (s : Process) (n : ℕ)
    → s.queue_closing ≡ suc n
    → Inv prog s
    → Inv prog (on_queue_closed (record s { queue_closing = n; queue_settled = true }))
unfolding on_queue_closed
queue_rejects-Inv prog s n e h =
    let c = h.queue_last (omega (arith, e)) in
    record { timed = h.timed; queue_last = λ _. c; ends = queue-IsClean prog _ c refl refl }

pub Step-Inv : (prog : Program) {s s' : Process} → Inv prog s → Step prog s s' → Inv prog s'
unfolding on_timeout on_rejected
Step-Inv prog h (signalled s e) = signalled-Inv prog s e h
Step-Inv prog h (closes s n e c) = closes-Inv prog s n e h
Step-Inv prog h (queue_closes s n e q) = queue_closes-Inv prog s n q h
Step-Inv prog h (queue_rejects s n e q) = queue_rejects-Inv prog s n q h
Step-Inv prog h (rejects s n is e c) = record {
  timed = h.timed;
  queue_last = h.queue_last;
  ends = inr (is, refl);
}
Step-Inv prog h (fires s e d) = record {
  timed = h.timed;
  queue_last = h.queue_last;
  ends = inl (rw (sym h.timed) d);
}
Step-Inv prog h (passes s e d) =
    alive-Inv prog _ e h.timed h.queue_last
      (All-passes (deadlines prog s.signals) s.now (rw (sym h.timed) d) (running prog s e h))

positive_zero : {A : Type 0} → 0 < 0 → A
positive_zero q = absurd (omega (arith, q))

pub started-Inv : (prog : Program) (t : ℕ) → Inv prog (started t)
started-Inv server t = record { timed = refl; queue_last = λ q. positive_zero q; ends = tt }
started-Inv echo t = record { timed = refl; queue_last = λ q. positive_zero q; ends = tt }
started-Inv notifier t = record { timed = refl; queue_last = λ q. positive_zero q; ends = tt }

pub Reach-Inv : (prog : Program) {s s' : Process} → Inv prog s → Reach prog s s' → Inv prog s'
Reach-Inv prog h here = h
Reach-Inv prog h (next r st) = Step-Inv prog (Reach-Inv prog h r) st

-- A process that ended with the code 0 closed its server, or its worker, first; the payment server
-- had also waited until the close of its queue was resolved or rejected, and had disconnected from
-- Redis. With the code 1 it was at the deadline of a signal that it had got, 5 seconds after it, or
-- it is the notifier and the close of its worker was rejected. No other code occurs. While it runs,
-- no such deadline is over.
pub Reach-ends :
    (prog : Program) (t : ℕ) (s : Process) → Reach prog (started t) s → EndPost prog s s.exit
Reach-ends prog t s r = (Reach-Inv prog (started-Inv prog t) r).ends
