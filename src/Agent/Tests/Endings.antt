-- ===== src/Agent/Tests/Endings.antt =====
-- A whole iteration of a virtual user at work, from its start to the counter.
use tugas_akhir.Common.{ℕ, ◌≡◌, ◌≢◌, refl, inr, Option, some, none, String, Outcome, ok, arith}
use tugas_akhir.Agent.Kit.{Stop}
use tugas_akhir.Agent.Client.{
  event_routes_get_seats, order_routes_get_order, order_routes_place_order,
}
use tugas_akhir.Agent.Seats.{get_seats, select_seats}
use tugas_akhir.Agent.Order.{get_order}
use tugas_akhir.Agent.Vu.{Vu}
use tugas_akhir.Agent.Loops.Ends.{Responds}
use tugas_akhir.Agent.Journey.{backend_of, test}
use tugas_akhir.Agent.Journey.Metric.{TestPost}
use tugas_akhir.Agent.Journey.Ends.{test_ends}
use tugas_akhir.Agent.Tests.{user}
use tugas_akhir.Agent.World.{page, kit, views, http, to_url, crypto}

given : {A : Type 0} (r : Outcome Stop (Option A)) (a : A) → r ≡ ok (some a) → r ≢ ok none
given r a e q = cc (e, q)

responds : (token : String) → Responds (backend_of kit crypto to_url http views token)
unfolding get_order get_seats select_seats event_routes_get_seats order_routes_get_order
    order_routes_place_order
responds token = record {
  orders = λ payload headers w. inr (inr (inr refl));
  polls = λ order w. inr (page.order, refl, λ e. cc e);
  seats = λ state chosen w. given _ _ refl;
}

abbrev run : Outcome Stop (Unit {0}) × Vu ℕ
run = test kit crypto to_url http views 9 user

test_ends_example : (run.0 ≡ ok tt) × TestPost kit crypto to_url http views user (ok tt) run.1
test_ends_example = test_ends kit crypto to_url http views 9 user (omega arith) responds
