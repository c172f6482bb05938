-- ===== src/System/Payments.antt =====
-- A payment by the agent, as the ledger of the payment service sees it.
use Prim.Native.String
use mathlib.Core.Path.{subst}
use tugas_akhir.Common.{
  ◌≤◌, ◌⊎◌, ℕ, String, ◌≡◌, ◌≢◌, refl, ap, ◌∙◌, Bool, Option, none, some, List, [], ◌∷◌, Outcome,
  ok, throw, arith, Bool-cases, inl, inr, ltb,
}
use tugas_akhir.Payment.Json.{Json, Text, obj, str}
use tugas_akhir.Payment.Entity.{
  Status, pending, Invoice, Mode, Zod, ZodLaws, invoice_json, id_params_schema, pay_invoice_schema,
}
use tugas_akhir.Payment.Platform.{Platform, Faithful}
use tugas_akhir.Payment.Invoice.Ledger.{Ledger, Answer, Moment, pays, serve, pay, pay_entry}
use tugas_akhir.Payment.Invoice.Ledger.Represents.{Reliable, Represents, Holds-same}
use tugas_akhir.Payment.App.{WebhookQueue, Response}
use tugas_akhir.Payment.App.Server.{
  post_method, Request, Matches, Pages, Limit, routes, dispatch, create_app,
}
use tugas_akhir.Payment.App.Requests.{MatchesInvoices, asks_pay, gateway_timeout, Limits}
use tugas_akhir.Payment.App.Serves.{create_app-Answered}
use tugas_akhir.Payment.App.Refines.{Quiet, shown}
use tugas_akhir.Agent.Kit.{KitLaws, Stop}
use tugas_akhir.Agent.Types.{Order}
use tugas_akhir.Agent.Client.{
  pay_invoice, post_request, HttpRequest, Reply, data_of, post_invoices_id_payment,
}
use tugas_akhir.Agent.Backend.{Backend, tagged}
use tugas_akhir.Agent.Order.{pay_order}
use tugas_akhir.Agent.Order.Answers.{ReplyPost, pay_reply, pay_order-reply}
use tugas_akhir.System.{Network, mode_of, payment_json, Delivers, json_of, received, http}

-- What the agent is to get of an answer of the ledger: the invoice, or nothing.
abbrev pub seen : Answer → Option Json
seen (ok (some inv)) = some (invoice_json inv)
seen _ = none

-- An answer that is no invoice has another status than 200, and a JSON body.
abbrev IsHonest : Network → Answer → Type 0
IsHonest net (ok (some inv)) = Unit {0}
IsHonest net a = ((shown a).status ≢ 200) × ((j : Json) × (json_of net (shown a).body ≡ some j))

module _ (net : Network) where
  entry-IsHonest :
      (m : Moment) (l : Ledger) (id : String) (mode : Mode) (st : Status) (inv : Invoice)
      → IsHonest net (pay_entry m l id mode st inv).0
  entry-IsHonest m l id mode pending inv = elim (Bool-cases (ltb inv.expired_at m.first)) [
    | inl late ↦ rw late ((λ e. omega (arith, e)), (_, refl))
    | inr early ↦ rw early tt
  ]
  entry-IsHonest m l id mode _ inv = ((λ e. omega (arith, e)), (_, refl))

  pay-IsHonest :
      (m : Moment) (l : Ledger) (id : String) (mode : Mode) (found : Option Invoice)
      → IsHonest net (pay m l id mode found).0
  pay-IsHonest m l id mode none = ((λ e. omega (arith, e)), (_, refl))
  pay-IsHonest m l id mode (some inv) = entry-IsHonest m l id mode inv.status inv

-- Where the agent sends the payment of the invoice `id`.
abbrev pub payment_url : {S : Type 0} → Backend S Json → String → String
payment_url b id = b.to_url (
    String.◌++◌ b.payment_client.clean_base_url
      (String.◌++◌ "/invoices/" (String.◌++◌ id "/payment")))

module _ {S : Type 0} (p : Platform S) (z : Zod) (contents : S → String → Option Text)
    (queue : WebhookQueue S) (rejected : Response) (pages : Pages S) (matches : Matches)
    (routed : MatchesInvoices matches) (limit : Limit S)
    (duration : (S → Response × S) → S → Option ℕ) (limits : Limits limit duration) (net : Network)
    (b : Backend S Json) (kit_laws : KitLaws b.kit) where
  abbrev reply_of : Response → Reply Json
  reply_of r = record {
    response = received net r;
    data_value = data_of b.to_url b.http (received net r).json (received net r).body;
  }

  -- The payment as it arrives at the server.
  abbrev arrived : String → Bool → Request
  arrived id succeeds = record {
    method = post_method;
    path = "invoices" ∷ id ∷ "payment" ∷ [];
    body = payment_json succeeds;
  }

  abbrev pub server_run : String → Bool → S → Response × S
  server_run id succeeds = create_app p z queue rejected pages matches limit (arrived id succeeds)

  abbrev payment_request : String → Bool → HttpRequest
  payment_request id succeeds =
      post_request b.to_url b.http b.payment_client
        (String.◌++◌ "/invoices/" (String.◌++◌ id "/payment")) (pay_invoice succeeds) []
        (tagged "PayInvoice")

  -- The reply that the agent gets is the response of the server.
  reply-server :
      (id : String) (succeeds : Bool) (s : S)
      → b.http ≡ http p z queue rejected pages matches limit net
      → Delivers net (payment_url b id) id
      → pay_reply b kit_laws id succeeds s
        ≡ (reply_of (server_run id succeeds s).0, (server_run id succeeds s).1)
  unfolding post_invoices_id_payment
  reply-server id succeeds s wired delivers =
      rw (wired, delivers (payment_request id succeeds) succeeds refl refl refl) refl

  concluded :
      (a : Answer) (w w' : S) (out : Outcome Stop (Option Json))
      → IsHonest net a
      → ReplyPost b kit_laws (reply_of (shown a)) (reply_of (shown a)).data_value w out w'
      → out ≡ ok (seen a)
  concluded (ok (some inv)) w w' out honest post = post.0 refl
  concluded (ok none) w w' out (ne, (j, e)) post = post.1 ne j e
  concluded (throw x) w w' out (ne, (j, e)) post = post.1 ne j e

  -- The server took 30 seconds or more for the payment.
  abbrev pub IsLate : String → Bool → S → Type 0
  IsLate id succeeds s =
      (t : ℕ)
      → duration (dispatch matches (routes p z queue rejected pages) (arrived id succeeds)) s
        ≡ some t
      → 30000 ≤ t

  -- What payOrder returns of an answer: what is to be seen of it, or null where it came too late.
  abbrev pub Sees : String → Bool → S → Answer → Outcome Stop (Option Json) → Type 0
  Sees id succeeds s a out = (out ≡ ok (seen a)) ⊎ ((out ≡ ok none) × IsLate id succeeds s)

  sees :
      (id : String) (succeeds : Bool) (s w w' : S) (a : Answer) (r : Response)
      (out : Outcome Stop (Option Json))
      → IsHonest net a
      → (r ≡ shown a) ⊎ ((r ≡ gateway_timeout) × IsLate id succeeds s)
      → ReplyPost b kit_laws (reply_of r) (reply_of r).data_value w out w'
      → Sees id succeeds s a out
  sees id succeeds s w w' a r out honest (inl e) post = inl (
      concluded a w w' out honest
        (subst (λ x. ReplyPost b kit_laws (reply_of x) (reply_of x).data_value w out w') e post))
  sees id succeeds s w w' a r out honest (inr (e, late)) post =
      let timed =
        subst (λ x. ReplyPost b kit_laws (reply_of x) (reply_of x).data_value w out w') e post in
      inr (timed.1 (λ q. omega (arith, q)) _ refl, late)

  -- The agent's payment of an order reaches the ledger of the payment service. In a world that
  -- represents a ledger, where Redis and the queue answer every call, the request arrives, and the
  -- check of the reply leaves Redis alone, payOrder leaves a world that represents the ledger after
  -- the payment, at a moment between the arrival of the request and the end of the server's work on
  -- it. It returns the invoice after the payment exactly where the ledger makes it at that moment, and null where the ledger has no such invoice or refuses the payment; or it returns null
  -- since the server took 30 seconds or more, whatever the ledger answered.
  pub pay_order-serve :
      (time : S → ℕ) (env : Faithful p contents) (laws : ZodLaws z) (up : Reliable p time)
      (quiet : Quiet queue contents time) (order : Order) (id : String) (succeeds : Bool) (s : S)
      (l : Ledger)
      → ((tests : List (Option Bool)) (w : S) → contents (b.kit.check tests w).1 ≡ contents w)
      → b.http ≡ http p z queue rejected pages matches limit net
      → Delivers net (payment_url b id) id
      → order.invoice_external_id ≡ some id
      → id_params_schema z (obj (("id", str id) ∷ [])) ≡ some id
      → pay_invoice_schema z (payment_json succeeds) ≡ some (mode_of succeeds)
      → Represents contents s l
      → (m : Moment) × Sees id succeeds s
          (serve (pays id (mode_of succeeds)) m l).0
          (pay_order b order succeeds s).0
        × Represents contents
            (pay_order b order succeeds s).1
            (serve (pays id (mode_of succeeds)) m l).1
        × (time s ≤ m.first)
        × (m.first ≤ m.second)
        × (m.second ≤ time (server_run id succeeds s).1)
  unfolding serve
  pay_order-serve time env laws up quiet order id succeeds s l checks wired delivers external ei em
        h =
      let (m, (answer, world, before, order_of, later, given)) =
        create_app-Answered p z queue rejected pages matches routed limit duration limits contents
          time env laws up quiet s l (asks_pay ei em) h in
      let out = pay_order b order succeeds s in
      let reply =
        subst (λ r. ReplyPost b kit_laws r.0 r.0.data_value r.1 out.0 out.1)
          (reply-server id succeeds s wired delivers)
          (pay_order-reply b kit_laws order id succeeds s external) in
      let after : S = (server_run id succeeds s).1 in
      (
        m,
        sees id succeeds s after out.1 _ _ out.0 (pay-IsHonest net m l id (mode_of succeeds) (l id))
            answer reply,
        Holds-same p z contents time env laws up after out.1 _ (ap contents reply.2 ∙ checks _ _)
            world,
        before,
        order_of,
        later,
      )
