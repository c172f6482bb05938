-- ===== src/Agent/Loops/Calm.antt =====
-- The parts of an iteration that end whatever the server answers.
use tugas_akhir.Common.{
  ℕ, zero, suc, Bool, true, false, String, Option, none, some, List, [], ◌∷◌, Exec, get_elem?,
}
use tugas_akhir.Agent.Kit.{Stop}
use tugas_akhir.Agent.Types.{Event, Order, IssuedTicket}
use tugas_akhir.Agent.Client.{Reply}
use tugas_akhir.Agent.Backend.{Backend, read}
use tugas_akhir.Agent.Browse.Calm.{Calm, Ends-ok, Ends-exception, Ends-bind, Calm-check}
use tugas_akhir.Agent.Order.{
  logged_json, value_or_log, event_of, second_request, first_event, get_event, pay_order,
  get_issued_tickets,
}
use tugas_akhir.Agent.Loops.{
  order_key, event_or_wait, find_event, paid_or_wait, pay_loop, count_test, issued_or_wait,
  issue_loop,
}

pub Calm-read : {W A : Type 0} (o : Option A) → Calm {W = W} (read o)
Calm-read none w = Ends-exception _
Calm-read (some a) w = Ends-ok _

module _ {W J : Type 0} (b : Backend W J) where
  Calm-logged : {A : Type 0} (j : Option J) → Calm (logged_json b {A = A} j)
  Calm-logged none w = Ends-exception _
  Calm-logged (some j) w = Ends-ok _

  Calm-value : {A : Type 0} (fine : Bool) (r : Reply J) (a : A) → Calm (value_or_log b fine r a)
  Calm-value false r a w = Calm-logged r.response.json w
  Calm-value true r a w = Ends-ok _

  Calm-second_request : (fine : Bool) (r : Reply J) → Calm (second_request b fine r)
  Calm-second_request false r w = Ends-ok _
  Calm-second_request true r w = Ends-ok _

  Calm-event_of : (id : ℕ) → Calm (event_of b id)
  Calm-event_of id w = Ends-bind _ _ _ (Calm-check b _ _) (λ fine. Calm-second_request fine _ _)

  Calm-first_event : (fine : Bool) (r : Reply J) → Calm (first_event b fine r)
  Calm-first_event false r w = Ends-ok _
  Calm-first_event true r w = Ends-bind _ _ _ (Calm-read (b.views.events r.data_value) w) (λ events.
      Ends-bind _ _ _ (Calm-read (get_elem? events 0) _) (λ event. Calm-event_of event.id _))

  Calm-get_event : Calm (get_event b)
  unfolding get_event
  Calm-get_event w = Ends-bind _ _ _ (Calm-check b _ _) (λ fine. Calm-first_event fine _ _)

  Calm-event_or_wait :
      (go_on : Exec W Stop (Option Event)) (o : Option Event)
      → Calm go_on
      → Calm (event_or_wait b go_on o)
  Calm-event_or_wait go_on none h w = h _
  Calm-event_or_wait go_on (some event) h w = Ends-ok _

  pub Calm-find_event : (n : ℕ) → Calm (find_event b n)
  unfolding find_event
  Calm-find_event zero w = Ends-ok _
  Calm-find_event (suc n) w =
      Ends-bind _ _ _ (Calm-get_event w)
        (λ event. Calm-event_or_wait (find_event b n) event (Calm-find_event n) _)

  Calm-pay_order : (order : Order) (should_success : Bool) → Calm (pay_order b order should_success)
  unfolding pay_order
  Calm-pay_order order s w =
      Ends-bind _ _ _ (Calm-read order.invoice_external_id w)
        (λ id. Ends-bind _ _ _ (Calm-check b _ _) (λ fine. Calm-value fine _ _ _))

  Calm-paid_or_wait :
      (go_on : Exec W Stop Bool) (o : Option J) → Calm go_on → Calm (paid_or_wait b go_on o)
  Calm-paid_or_wait go_on none h w = h _
  Calm-paid_or_wait go_on (some invoice) h w = Ends-ok _

  pub Calm-pay_loop :
      (n : ℕ) (order : Order) (should_success : Bool) → Calm (pay_loop b n order should_success)
  unfolding pay_loop
  Calm-pay_loop zero order s w = Ends-ok _
  Calm-pay_loop (suc n) order s w =
      Ends-bind _ _ _ (Calm-pay_order order s w)
        (λ invoice. Calm-paid_or_wait (pay_loop b n order s) invoice (Calm-pay_loop n order s) _)

  Calm-tickets : (id : String) → Calm (get_issued_tickets b id)
  unfolding get_issued_tickets
  Calm-tickets id w = Ends-bind _ _ _ (Calm-check b _ _) (λ fine. Calm-value fine _ _ _)

  Calm-issued_or_wait :
      (go_on : Exec W Stop Bool) (count : ℕ) (o : Option (Option (List IssuedTicket)))
      → Calm go_on
      → Calm (issued_or_wait b go_on count o)
  Calm-issued_or_wait go_on count none h w = h _
  Calm-issued_or_wait go_on count (some tickets) h w =
      Ends-bind _ _ _ (Calm-check b (count_test b count tickets ∷ []) w) (λ published. Ends-ok _)

  pub Calm-issue_loop : (n : ℕ) (order : Order) (count : ℕ) → Calm (issue_loop b n order count)
  unfolding issue_loop
  Calm-issue_loop zero order count w = Ends-ok _
  Calm-issue_loop (suc n) order count w =
      Ends-bind _ _ _ (Calm-tickets (order_key order) w) (λ tickets.
        Calm-issued_or_wait (issue_loop b n order count) count tickets
          (Calm-issue_loop n order count) _)
