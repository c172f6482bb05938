-- ===== src/Payment/Tests.antt =====
-- The theorems on the payment service at work: one run of the service in a small world, from an
-- empty Redis to a paid invoice and its webhook.
mod Sequences
mod Posts
mod Processes
mod Environments
mod Race
use mathlib.Core.Path.{subst}
use text.Mathlib.Text.{◌==◌ as str_eq}
use text.Mathlib.TextEquality.{eq_iff}
use tugas_akhir.Payment.Invoice.Frame.{key_injective}
use tugas_akhir.Common.{
  List, ℕ, ◌<◌, length, map, throw, String, Bool-cases, ◌≡◌, refl, ◌≢◌, Option, ◌↔◌, ◌⊎◌, none,
  some, [], ◌∷◌, ok, ◌>>=◌, inl, inr, arith,
}
use tugas_akhir.Common.Text.{show}
use tugas_akhir.Payment.Json.{Failure, lookup, Json, obj, num, str, Text}
use tugas_akhir.Payment.Entity.{
  expired, Mode, Invoice, CreateInvoice, paid, pending, success, invoice_json, invoice_schema,
  create_invoice_schema, id_params_schema, pay_invoice_schema,
}
use tugas_akhir.Payment.Invoice.{
  key, ttl, stringify, get_invoice, create_invoice, pay_invoice, expire_invoice,
}
use tugas_akhir.Payment.Invoice.Create.{CreatePost, create_invoice_post, get-create}
use tugas_akhir.Payment.Invoice.Pay.{PayPost, pay_invoice_post}
use tugas_akhir.Payment.Invoice.Expire.{ExpirePost, expire_invoice_post}
use tugas_akhir.Payment.Invoice.Reads.{Stored}
use tugas_akhir.Payment.Invoice.Store.{here, next, creates, pays, expires}
use tugas_akhir.Payment.Invoice.Store.Sound.{IsConsistent, Reach-IsSound}
use tugas_akhir.Payment.Invoice.Interleave.{
  pay_decide, expire_decide, Turns, start, turn, pay_decides, expire_decides, writes,
}
use tugas_akhir.Payment.Invoice.Interleave.Sound.{IsReady, Turns-IsReady}
use tugas_akhir.Payment.Invoice.Store.Final.{HoldsAtMost, Reach-HoldsAtMost}
use tugas_akhir.Payment.App.{get_route, create_route, pay_route}
use tugas_akhir.Payment.App.Routes.{ShowsPayment, pay_route-answer}
use tugas_akhir.Payment.App.Shown.{ShowAnswer, get_route-answer}
use tugas_akhir.Payment.App.Schedule.{ShowsNew, create_route-answer}
use tugas_akhir.Payment.Notifier.{judge, load_invoice, process_job}
use tugas_akhir.Payment.Notifier.Delivery.{Delivered, process_job-ok}
use tugas_akhir.Payment.Health.{check, resolves, InTime, check-code}
use tugas_akhir.Payment.Config.{
  ClusterSetup, parse_node, new_redis_cluster, last_node, new_redis_cluster-maps,
}
use tugas_akhir.Payment.World.{
  World, contents, platform, platform-Faithful, zod, zod-ZodLaws, queue, rejected, sender,
}

abbrev empty_world : World
empty_world = record { store = []; time = 1000; count = 1 }

abbrev request : CreateInvoice
request = record { amount = 50; description = "A ticket"; external_id = "order-7" }

abbrev request_json : Json
request_json =
    obj (("amount", num 50) ∷ ("description", str "A ticket") ∷ ("externalId", str "order-7") ∷ [])

abbrev world_of : Option Text → World
world_of none = empty_world
world_of (some t) = record { store = (key "inv1", t) ∷ []; time = 2000; count = 2 }

abbrev open_invoice : Invoice
open_invoice = record {
  id = "inv1";
  amount = 50;
  description = "A ticket";
  external_id = "order-7";
  created_at = 1000;
  expired_at = 901000;
  paid_at = none;
  paid_amount = none;
  status = pending;
}

abbrev paid_invoice : Invoice
paid_invoice = record open_invoice { paid_at = some 1500; paid_amount = some 50; status = paid }

abbrev open_world : World
open_world = world_of (some (stringify open_invoice))

abbrev paid_world : World
paid_world = world_of (some (stringify paid_invoice))

create_test : (create_invoice platform zod request empty_world).0 ≡ ok open_invoice
unfolding create_invoice show
create_test = refl

pay_test :
    (pay_invoice platform zod "inv1" success open_world).0
    ≡ ok (some (record open_invoice { paid_at = some 2001; paid_amount = some 50; status = paid }))
unfolding pay_invoice get_invoice invoice_schema invoice_json
pay_test = refl

abbrev after_payment : World
after_payment =
    (pay_invoice platform zod "inv1" success (create_invoice platform zod request empty_world).1).1

Reach-IsSound_example :
    (contents after_payment (key "inv1") ≡ none)
    ⊎ ((inv : Invoice) × (contents after_payment (key "inv1") ≡ some (stringify inv))
        × IsConsistent "inv1" inv)
Reach-IsSound_example =
    Reach-IsSound platform zod contents platform-Faithful zod-ZodLaws (λ id. Unit {0})
      (λ id. inl refl)
      (next (next here (creates request empty_world (omega arith) tt)) (pays "inv1" success _))
      "inv1"

Reach-HoldsAtMost_example :
    HoldsAtMost platform zod contents platform-Faithful zod-ZodLaws "inv1" paid_invoice
      (expire_invoice platform zod "inv1" (pay_invoice platform zod "inv1" success paid_world).1).1
Reach-HoldsAtMost_example =
    Reach-HoldsAtMost platform zod contents platform-Faithful zod-ZodLaws "inv1" paid_invoice
      (omega arith) (λ e. cc e) (inl refl)
      (next (next here (pays "inv1" success paid_world)) (expires "inv1" _))

pay_invoice_post_example :
    PayPost platform zod contents platform-Faithful "inv1" success open_world
      (pay_invoice platform zod "inv1" success open_world).0
      (pay_invoice platform zod "inv1" success open_world).1
pay_invoice_post_example =
    pay_invoice_post platform zod contents platform-Faithful "inv1" success open_world

expire_invoice_post_example :
    ExpirePost platform zod contents platform-Faithful "inv1" open_world
      (expire_invoice platform zod "inv1" open_world).0
      (expire_invoice platform zod "inv1" open_world).1
expire_invoice_post_example =
    expire_invoice_post platform zod contents platform-Faithful "inv1" open_world

create_invoice_post_example :
    CreatePost platform zod contents platform-Faithful request empty_world
      (create_invoice platform zod request empty_world).0
      (create_invoice platform zod request empty_world).1
create_invoice_post_example =
    create_invoice_post platform zod contents platform-Faithful request empty_world

get-create_example :
    (get_invoice platform zod "inv1" (create_invoice platform zod request empty_world).1).0
    ≡ ok (some open_invoice)
unfolding create_invoice show invoice_json
get-create_example =
    get-create platform zod contents platform-Faithful zod-ZodLaws request empty_world open_invoice
      (some (stringify open_invoice)) (omega arith) refl refl

abbrev id_json : Json
id_json = obj (("id", str "inv1") ∷ [])

pay_route-answer_example :
    ((pay_route platform zod queue rejected id_json
        (obj (("mode", str "success") ∷ []))
        open_world).0.status
      ≡ 200)
    × ShowsPayment platform zod contents platform-Faithful queue rejected "inv1" success open_world
        (invoice_json
          (record open_invoice { paid_at = some 2001; paid_amount = some 50; status = paid }))
unfolding pay_route pay_invoice get_invoice id_params_schema pay_invoice_schema invoice_schema
    invoice_json
pay_route-answer_example =
    pay_route-answer platform zod contents platform-Faithful queue rejected id_json
      (obj (("mode", str "success") ∷ [])) "inv1" success open_world _ refl refl refl

create_route-answer_example :
    ((create_route platform zod queue rejected request_json empty_world).0.status ≡ 200)
    × ShowsNew platform zod contents platform-Faithful queue rejected request empty_world
        (invoice_json open_invoice)
unfolding create_route create_invoice show invoice_json create_invoice_schema
create_route-answer_example =
    create_route-answer platform zod contents platform-Faithful queue rejected request_json request
      empty_world _ refl refl

process_job-ok_example :
    (inv : Invoice) × ((load_invoice platform zod sender "inv1" open_world).0 ≡ ok inv)
    × (inv.status ≢ pending)
    × Stored zod contents (load_invoice platform zod sender "inv1" open_world).1 "inv1" inv
    × Delivered platform zod contents platform-Faithful zod-ZodLaws sender inv
        (load_invoice platform zod sender "inv1" open_world).1
unfolding process_job load_invoice expire_invoice get_invoice invoice_schema invoice_json judge
process_job-ok_example =
    process_job-ok platform zod contents platform-Faithful zod-ZodLaws sender "inv1" open_world refl

check-code_example :
    (((check (resolves 12 "PONG")).code ≡ 200) ↔ InTime (λ v. v ≡ "PONG") (resolves 12 "PONG"))
    × (((check (resolves 12 "PONG")).code ≡ 500) ↔ InTime (λ v. v ≢ "PONG") (resolves 12 "PONG"))
    × (((check (resolves 12 "PONG")).code ≡ 503) ↔ (¬ InTime (λ v. Unit {0}) (resolves 12 "PONG")))
check-code_example = check-code (resolves 12 "PONG")

get_route-answer_example :
    ShowAnswer platform zod contents platform-Faithful queue rejected "inv1" open_world
      (get_route platform zod queue rejected id_json open_world).0
    × (contents (get_route platform zod queue rejected id_json open_world).1 ≡ contents open_world)
unfolding id_params_schema
get_route-answer_example =
    get_route-answer platform zod contents platform-Faithful queue rejected id_json "inv1"
      open_world refl

abbrev any_number : String → Option ℕ
any_number text = some 6379

abbrev hosts : List String
hosts = "r1:6379" ∷ "r2:6379" ∷ []

abbrev names : List String
names = "node-1" ∷ "node-2" ∷ []

new_redis_cluster-maps_example :
    ((0 < length names)
      × (length hosts ≢ length names)
      × ((e : Failure) × (new_redis_cluster any_number hosts names ≡ throw e)))
    ⊎ ((setup : ClusterSetup) × (new_redis_cluster any_number hosts names ≡ ok setup)
        × (setup.nodes ≡ map (parse_node any_number) hosts)
        × (lookup "node-2" setup.nat_map ≡ last_node "node-2" names setup.nodes))
new_redis_cluster-maps_example = new_redis_cluster-maps any_number hosts names "node-2"
