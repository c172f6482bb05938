-- ===== src/Payment/Shutdown/Deadline.antt =====
-- How long a process can run after a signal.
use tugas_akhir.Common.{
  ℕ, ◌+◌, ◌≤◌, zero, suc, ◌≡◌, ◌≢◌, refl, true, false, none, some, ◌∷◌, All, arith, Bool-cases, inl,
  inr,
}
use tugas_akhir.Payment.Shutdown.{
  Program, server, echo, notifier, Process, started, grace, handle_shutdown, on_closed,
  on_queue_closed, on_rejected, on_timeout, due, Step, signalled, closes, rejects, queue_closes,
  queue_rejects, fires, passes, Reach, here, next,
}
use tugas_akhir.Payment.Shutdown.Ends.{
  Inv, running, Reach-Inv, started-Inv, signalled-Inv, All-passes, Step-Inv,
}

-- `d` is among the timers.
abbrev Has : ℕ → Process → Type 0
Has d s = (n : ℕ) → All (λ x. n ≤ x) s.timers → n ≤ d

Step-Has : (prog : Program) (d : ℕ) {s s' : Process} → Has d s → Step prog s s' → Has d s'
unfolding handle_shutdown on_closed on_queue_closed on_rejected on_timeout
Step-Has server d h (signalled s e) = λ n a. h n a.1
Step-Has echo d h (signalled s e) = λ n a. h n a.1
Step-Has notifier d h (signalled s e) = h
Step-Has server d h (closes s n e c) = h
Step-Has echo d h (closes s n e c) = h
Step-Has notifier d h (closes s n e c) = h
Step-Has prog d h (queue_closes s n e q) = h
Step-Has prog d h (queue_rejects s n e q) = h
Step-Has prog d h (rejects s n is e c) = h
Step-Has prog d h (fires s e q) = h
Step-Has prog d h (passes s e q) = h

Reach-Has : (prog : Program) (d : ℕ) {s s' : Process} → Has d s → Reach prog s s' → Has d s'
Reach-Has prog d h here = h
Reach-Has prog d h (next r st) = Step-Has prog d (Reach-Has prog d h r) st

handle-Has :
    (prog : Program) (s : Process)
    → prog ≢ notifier
    → Has (s.now + grace) (handle_shutdown prog (record s { signals = s.now ∷ s.signals }))
unfolding handle_shutdown
handle-Has server s ne n a = a.0
handle-Has echo s ne n a = a.0
handle-Has notifier s ne n a = absurd (ne refl)

Reach-trans :
    (prog : Program) {s s' s'' : Process} → Reach prog s s' → Reach prog s' s'' → Reach prog s s''
Reach-trans prog r here = r
Reach-trans prog r (next q st) = next (Reach-trans prog r q) st

on_time :
    (prog : Program) (s : Process) → s.exit ≡ none → Inv prog s → All (λ d. s.now ≤ d) s.timers
on_time prog s e h = rw h.timed (running prog s e h)

timeout_exit : (s : Process) → (on_timeout s).exit ≡ some 1
unfolding on_timeout
timeout_exit s = refl

timeout_now : (s : Process) → (on_timeout s).now ≡ s.now
unfolding on_timeout
timeout_now s = refl

abbrev pub Forced : Program → ℕ → Process → Type 0
Forced prog d s = (s' : Process) × Reach prog s s' × (s'.exit ≡ some 1) × (s'.now ≤ d)

fire :
    (prog : Program) (d : ℕ) (s : Process)
    → s.exit ≡ none
    → Inv prog s
    → Has d s
    → due s.timers s.now ≡ true
    → Forced prog d s
fire prog d s e h has q = (
  on_timeout s,
  next here (fires s e q),
  timeout_exit s,
  omega (arith, timeout_now s, has s.now (on_time prog s e h)),
)

not_late :
    (prog : Program) (d : ℕ) (s : Process)
    → s.exit ≡ none
    → Inv prog s
    → Has d s
    → due s.timers s.now ≡ false
    → s.now + 1 ≤ d
not_late prog d s e h has q = has (s.now + 1) (All-passes s.timers s.now q (on_time prog s e h))

-- The run in which nothing happens but that time passes, until the timer fires.
wait :
    (prog : Program) (d n : ℕ) (s : Process)
    → s.exit ≡ none
    → Inv prog s
    → Has d s
    → d ≤ s.now + n
    → Forced prog d s
wait prog d zero s e h has le = elim (Bool-cases (due s.timers s.now)) [
  | inl q ↦ fire prog d s e h has q
  | inr q ↦ absurd (omega (arith, not_late prog d s e h has q))
]
wait prog d (suc n) s e h has le = elim (Bool-cases (due s.timers s.now)) [
  | inl q ↦ fire prog d s e h has q
  | inr q ↦
      let (s', r, x, t) =
        wait prog d n (record s { now = s.now + 1 }) e (Step-Inv prog h (passes s e q)) has
          (omega arith) in
      (s', Reach-trans prog (next here (passes s e q)) r, x, t)
]

-- A signal ends the server and the echo server within 5 seconds. From a state that they reach after
-- a signal, in which they still run, the 5 seconds are not over, and even if no callback of a close
-- comes any more, time passes until the timer ends the process with the code 1, in these 5 seconds.
pub Reach-deadline :
    (prog : Program) (t : ℕ) (s s' : Process)
    → prog ≢ notifier
    → Reach prog (started t) s
    → s.exit ≡ none
    → Reach prog (handle_shutdown prog (record s { signals = s.now ∷ s.signals })) s'
    → s'.exit ≡ none
    → (s'.now ≤ s.now + 5000) × Forced prog (s.now + 5000) s'
Reach-deadline prog t s s' ne r e r' e' =
    let h = signalled-Inv prog s e (Reach-Inv prog (started-Inv prog t) r) in
    let h' = Reach-Inv prog h r' in
    let has = Reach-Has prog (s.now + grace) (handle-Has prog s ne) r' in
    (
      has s'.now (on_time prog s' e' h'),
      wait prog (s.now + 5000) (s.now + 5000) s' e' h' has (omega arith),
    )
