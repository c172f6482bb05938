-- ===== src/System/Tests.antt =====
-- The agent pays an invoice in the small world of the payment service.
use text.Mathlib.Text.{◌==◌ as str_eq}
use tugas_akhir.Common.{
  ◌≤◌, Outcome, String, ◌≡◌, refl, true, Option, none, some, [], ◌∷◌, if◌then◌else◌, arith,
}
use tugas_akhir.Payment.Json.{Json, obj, str}
use tugas_akhir.Payment.Entity.{CreateInvoice, success, id_params_schema, pay_invoice_schema}
use tugas_akhir.Payment.Invoice.Ledger.{Ledger, Moment, makes, pays, serve}
use tugas_akhir.Payment.Invoice.Ledger.Represents.{Represents, call}
use tugas_akhir.Payment.Invoice.Ledger.Tracks.{Tracks}
use tugas_akhir.Payment.Invoice.Ledger.Refines.{call-serve}
use tugas_akhir.Payment.App.Server.{get_method, post_method}
use tugas_akhir.Payment.World.Server.{
  time, no_invoices, queue-Quiet, matches, matched, pages, duration, limit, limits,
}
use tugas_akhir.Payment.World.{
  World, contents, platform, platform-Faithful, platform-Reliable, zod, zod-ZodLaws, queue,
  rejected,
}
use tugas_akhir.Agent.Kit.{Stop, Kit, KitLaws}
use tugas_akhir.Agent.Client.{Payload, pay_invoice, no_params}
use tugas_akhir.Agent.Backend.{Backend, Views}
use tugas_akhir.Agent.Order.{pay_order}
use tugas_akhir.Agent.World.{check_result, conjunction_lem, page}
use tugas_akhir.System.{Network, payment_json, Delivers, http}
use tugas_akhir.Agent.Loops.{pay_loop}
use tugas_akhir.System.Loop.{LeavesInvoices, LoopPost, pay_loop-IsPaidAt}
use tugas_akhir.System.Payments.{Sees, server_run, pay_order-serve}

abbrev empty_world : World
empty_world = record { store = []; time = 1000; count = 1 }

abbrev request : CreateInvoice
request = record { amount = 50; description = "A ticket"; external_id = "order-7" }

created :
    Tracks contents time empty_world
      (λ m. serve (makes request) m no_invoices)
      (call platform zod (makes request) empty_world)
created =
    call-serve platform zod contents time platform-Faithful zod-ZodLaws platform-Reliable
      (makes request) empty_world no_invoices (omega arith)
      (record { texts = λ id. refl; positive = λ id inv e. cc e })

abbrev created_world : World
created_world = (call platform zod (makes request) empty_world).1

abbrev created_ledger : Ledger
created_ledger = (serve (makes request) created.0 no_invoices).1

abbrev kit : Kit World
kit = record {
  random = λ w. (0, w);
  random_int = λ lo hi w. (lo, w);
  random_index = λ n w. (0, w);
  uuid = λ w. ("0f8c", w);
  email = λ w. ("ann@example.org", w);
  name = λ w. ("Ann", w);
  sleep = λ s w. w;
  check = λ tests w. (check_result tests, w);
}

kit-KitLaws : KitLaws kit
kit-KitLaws = record {
  random-lt = λ w. omega arith;
  random_int-between = λ lo hi w h. omega (arith, h);
  random_index-lt = λ n w h. h;
  check-conjunction = λ bs w. conjunction_lem bs;
}

abbrev url : String
url = "https://payment.local/invoices/inv1/payment"

abbrev body_of : Option Payload → Json
body_of (some (pay_invoice succeeds)) = payment_json succeeds
body_of _ = obj []

abbrev network : Network
network = record {
  request_of = λ r. record {
    method = if str_eq r.method "POST" then post_method else get_method;
    path = if str_eq r.url url then "invoices" ∷ "inv1" ∷ "payment" ∷ [] else [];
    body = body_of r.body;
  };
  message_of = λ e. "error";
}

delivers : Delivers network url "inv1"
delivers r succeeds m u b = rw (m, u, b) refl

abbrev views : Views Json
views = record {
  events = λ j. none;
  event = λ j. none;
  availability = λ j. none;
  seats = λ j. none;
  order = λ j. none;
  issued_tickets = λ j. none;
}

abbrev backend : Backend World Json
backend = record {
  kit = kit;
  to_url = λ s. s;
  http = http platform zod queue rejected pages matches limit network;
  views = views;
  ticket_client = record { clean_base_url = "https://ticket.local"; common = no_params };
  payment_client = record { clean_base_url = "https://payment.local"; common = no_params };
}

id_accepted : id_params_schema zod (obj (("id", str "inv1") ∷ [])) ≡ some "inv1"
unfolding id_params_schema
id_accepted = refl

mode_accepted : pay_invoice_schema zod (payment_json true) ≡ some success
unfolding pay_invoice_schema
mode_accepted = refl

abbrev paid_order : Outcome Stop (Option Json) × World
paid_order = pay_order backend page.order true created_world

pay_order-serve_example :
    (m : Moment) × Sees platform zod contents queue rejected pages matches matched limit duration
      limits network backend kit-KitLaws "inv1" true created_world
      (serve (pays "inv1" success) m created_ledger).0
      paid_order.0
    × Represents contents paid_order.1 (serve (pays "inv1" success) m created_ledger).1
    × (time created_world ≤ m.first)
    × (m.first ≤ m.second)
    × (m.second
        ≤ time
            (server_run platform zod contents queue rejected pages matches matched limit duration
              limits network backend kit-KitLaws "inv1" true created_world).1)
pay_order-serve_example =
    pay_order-serve platform zod contents queue rejected pages matches matched limit duration limits
      network backend kit-KitLaws time platform-Faithful zod-ZodLaws platform-Reliable queue-Quiet
      page.order "inv1" true created_world created_ledger (λ tests w. refl) refl delivers refl
      id_accepted mode_accepted created.1.1

kit-LeavesInvoices : LeavesInvoices kit contents
kit-LeavesInvoices = record {
  check_keeps = λ tests s. refl;
  random_int_keeps = λ lo hi s. refl;
  sleep_keeps = λ t s. refl;
}

pay_loop-IsPaidAt_example :
    LoopPost platform zod contents queue rejected pages matches matched limit duration limits
      network backend kit-KitLaws time platform-Faithful zod-ZodLaws platform-Reliable queue-Quiet
      kit-LeavesInvoices page.order "inv1" true
      (pay_loop backend 3 page.order true created_world).0
      (pay_loop backend 3 page.order true created_world).1
pay_loop-IsPaidAt_example =
    pay_loop-IsPaidAt platform zod contents queue rejected pages matches matched limit duration
      limits network backend kit-KitLaws time platform-Faithful zod-ZodLaws platform-Reliable
      queue-Quiet kit-LeavesInvoices page.order "inv1" true 3 created_world created_ledger refl
      delivers refl id_accepted mode_accepted created.1.1
