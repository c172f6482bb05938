-- ===== src/Payment/World/Server.antt =====
-- The server of the payment service in the small world: how paths match, the pages of libraries, and
-- a time limit by the ticks of the clock.
use text.Mathlib.Text.{◌==◌ as str_eq}
use tugas_akhir.Common.{
  true, ℕ, ◌-◌, ◌≡◌, String, refl, Option, none, some, List, [], ◌∷◌, ok, throw, if◌then◌else◌, ltb,
  Bool-cases, inl, inr, arith,
}
use tugas_akhir.Payment.Json.{Scalar, str, http_exception}
use tugas_akhir.Payment.Health.{resolves}
use tugas_akhir.Payment.Invoice.Ledger.{Ledger}
use tugas_akhir.Payment.App.{Response, respond, plain}
use tugas_akhir.Payment.App.Server.{Matches, Pages, Limit}
use tugas_akhir.Payment.App.Requests.{MatchesInvoices, Limits}
use tugas_akhir.Payment.App.Refines.{Quiet}
use tugas_akhir.Payment.World.{World, contents, queue}

abbrev pub time : World → ℕ
time w = w.time

abbrev pub no_invoices : Ledger
no_invoices id = none

pub queue-Quiet : Quiet queue contents time
queue-Quiet = record {
  add_answers = λ id job delay s. refl;
  get_job_answers = λ id s. (some id, refl);
  is_delayed_answers = λ job s. (true, refl);
  promote_answers = λ job s. refl;
  add_keeps = λ id job delay s. refl;
  get_job_keeps = λ id s. refl;
  is_delayed_keeps = λ job s. refl;
  promote_keeps = λ job s. refl;
  add_later = λ id job delay s. omega arith;
  get_job_later = λ id s. omega arith;
  is_delayed_later = λ job s. omega arith;
  promote_later = λ job s. omega arith;
}

abbrev id_of : List String → Option (List (String × Scalar))
id_of (first ∷ id ∷ []) = some (("id", str id) ∷ [])
id_of _ = none

abbrev payment_id_of : List String → Option (List (String × Scalar))
payment_id_of (first ∷ id ∷ last ∷ []) = some (("id", str id) ∷ [])
payment_id_of _ = none

abbrev nothing_of : List String → Option (List (String × Scalar))
nothing_of (first ∷ []) = some []
nothing_of _ = none

abbrev pub matches : Matches
matches pattern path =
    if str_eq pattern "/invoices/{id}/payment"
    then payment_id_of path
    else if str_eq pattern "/invoices/{id}"
    then id_of path
    else if str_eq pattern "/invoices"
    then nothing_of path
    else none

pub matched : MatchesInvoices matches
matched = record {
  show_differs = λ id. (refl, (refl, (refl, (refl, tt))));
  show_matches = λ id. refl;
  create_matches = refl;
  pay_differs = λ id. refl;
  pay_matches = λ id. refl;
}

abbrev pub pages : Pages World
pages = record {
  metrics = λ w. (respond 200 (plain ""), w);
  queue_metrics = λ w. (ok "", w);
  doc = λ w. (respond 200 (plain ""), w);
  ping = λ w. resolves 1 "PONG";
}

-- The ticks of the clock during a run.
abbrev ticks : (World → Response × World) → World → ℕ
ticks run w = (run w).1.time - w.time

abbrev pub duration : (World → Response × World) → World → Option ℕ
duration run w = some (ticks run w)

abbrev pub limit : Limit World
limit ms run w =
    if ltb (ticks run w) ms
    then (ok (run w).0, (run w).1)
    else (throw (http_exception 504 "Gateway Timeout"), (run w).1)

pub limits : Limits limit duration
limits = record {
  in_time = λ ms run w t e h.
      let soon : ltb (ticks run w) ms ≡ true = ground (arith, e, h) in rw soon refl;
  answers_or_throws = λ ms run w. elim (Bool-cases (ltb (ticks run w) ms)) [
    | inl soon ↦ rw soon (inl refl)
    | inr late ↦ rw late (inr refl)
  ];
}
