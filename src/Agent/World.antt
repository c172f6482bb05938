-- ===== src/Agent/World.antt =====
-- A small world in which the agent runs: every draw gives the least value, and one server answers
-- every request with the same body, from which each method reads its part.
use tugas_akhir.Common.{
  ℕ, ◌+◌, ◌≡◌, refl, Bool, true, ◌&&◌, String, Option, none, some, List, [], ◌∷◌, map, Outcome, ok,
  throw, arith,
}
use tugas_akhir.Agent.Kit.{Kit, KitLaws, conjunction}
use tugas_akhir.Agent.Types.{
  available, AreaAvailability, TicketSale, Event, TicketSeat, OrderStatus, Order, IssuedTicket,
}
use tugas_akhir.Agent.Client.{HttpRequest, HttpResponse, no_params}
use tugas_akhir.Agent.Jwt.{Crypto}
use tugas_akhir.Agent.Backend.{Views, Backend}

abbrev and_then : Bool → Outcome String Bool → Outcome String Bool
and_then b (ok c) = ok (b && c)
and_then b (throw e) = throw e

abbrev pub check_result : List (Option Bool) → Outcome String Bool
check_result [] = ok true
check_result (none ∷ tests) = throw "TypeError"
check_result (some b ∷ tests) = and_then b (check_result tests)

-- The world counts the draws.
abbrev pub kit : Kit ℕ
kit = record {
  random = λ w. (0, w + 1);
  random_int = λ lo hi w. (lo, w + 1);
  random_index = λ n w. (0, w + 1);
  uuid = λ w. ("0f8c", w + 1);
  email = λ w. ("ann@example.org", w + 1);
  name = λ w. ("Ann", w + 1);
  sleep = λ s w. w;
  check = λ tests w. (check_result tests, w);
}

pub conjunction_lem : (bs : List Bool) → check_result (map some bs) ≡ ok (conjunction bs)
conjunction_lem [] = refl
conjunction_lem (b ∷ bs) = rw (conjunction_lem bs) refl

pub kit-KitLaws : KitLaws kit
kit-KitLaws = record {
  random-lt = λ w. omega arith;
  random_int-between = λ lo hi w h. omega (arith, h);
  random_index-lt = λ n w h. h;
  check-conjunction = λ bs w. conjunction_lem bs;
}

pub record Page : Type 0 where
  pub event : Event
  pub availability : List AreaAvailability
  pub seats : List TicketSeat
  pub order : Order
  pub tickets : List IssuedTicket

abbrev pub sale : ℕ → TicketSale
sale n = record {
  id = n;
  event_id = 1;
  ticket_packages = (record { id = 10; category_name = "Bronze" }) ∷ [];
}

abbrev pub concert : Event
concert = record { id = 1; ticket_sales = some (sale 5 ∷ sale 6 ∷ sale 7 ∷ sale 8 ∷ []) }

abbrev pub seat : ℕ → String → TicketSeat
seat n number = record { id = n; seat_number = number; status = available; ticket_area_id = 30 }

abbrev pub page : Page
page = record {
  event = concert;
  availability =
      (record {
        ticket_package_id = 10;
        ticket_area_id = 30;
        total_seats = 40;
        available_seats = 12;
      })
      ∷ [];
  seats = seat 101 "A-2" ∷ seat 102 "A-1" ∷ seat 103 "A-3" ∷ [];
  order = record {
    id = 77;
    status = OrderStatus.success;
    ticket_area_id = 30;
    invoice_external_id = some "inv1";
  };
  tickets = (record { id = 1; serial_number = "S-1" }) ∷ [];
}

abbrev pub views : Views Page
views = record {
  events = λ p. some (p.event ∷ []);
  event = λ p. some p.event;
  availability = λ p. some p.availability;
  seats = λ p. some p.seats;
  order = λ p. some p.order;
  issued_tickets = λ p. some p.tickets;
}

abbrev pub http : HttpRequest → ℕ → HttpResponse Page × ℕ
http request w = (record { status = 200; json = some page; body = page }, w + 1)

abbrev pub to_url : String → String
to_url s = s

abbrev pub backend : Backend ℕ Page
backend = record {
  kit = kit;
  to_url = to_url;
  http = http;
  views = views;
  ticket_client = record { clean_base_url = "https://ticket.local"; common = no_params };
  payment_client = record { clean_base_url = "https://payment.local"; common = no_params };
}

abbrev pub crypto : Crypto ℕ
crypto = record {
  now = λ w. (1700000000000, w);
  encode_text = λ s. s;
  encode_binary = λ l. "signature";
  hmac = λ secret data_text. [];
  quote = λ s. s;
}
