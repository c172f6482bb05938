-- ===== src/System.antt =====
-- The agent and the payment service together: the HTTP layer of the agent is the server of
-- implementation/payment/src/cmd/server/app.ts, in one world.
pub mod Payments
pub mod Loop
mod Tests
use Prim.Native.String
use tugas_akhir.Common.{
  ℕ, String, ◌≡◌, Bool, true, false, Option, none, some, List, [], ◌∷◌, Outcome, ok,
}
use tugas_akhir.Payment.Json.{Json, scalar, obj, str, Scalar, bool, Failure}
use tugas_akhir.Payment.Entity.{Mode, success, mode_text, Zod}
use tugas_akhir.Payment.Platform.{Platform}
use tugas_akhir.Payment.App.{
  WebhookQueue, Response, Body, invoice, message, thrown, plain, health_data, refusal,
}
use tugas_akhir.Payment.App.Server.{Method, post_method, Request, Matches, Pages, Limit, create_app}
use tugas_akhir.Agent.Client.{HttpRequest, HttpResponse, Payload, pay_invoice}

-- What lies between the two programs: the request that arrives at the server, and the message of an
-- error that is not the server's own.
pub record Network : Type 0 where
  pub request_of : HttpRequest → Request
  pub message_of : Failure → String

abbrev pub mode_of : Bool → Mode
mode_of true = success
mode_of false = Mode.failed

-- The body of a payment request.
abbrev pub payment_json : Bool → Json
payment_json succeeds = obj (("mode", str (mode_text (mode_of succeeds))) ∷ [])

-- A payment of the invoice `id` that is sent to `url` arrives as a POST of its path.
abbrev pub Delivers : Network → String → String → Type 0
Delivers net url id =
    (request : HttpRequest) (succeeds : Bool)
    → request.method ≡ "POST"
    → request.url ≡ url
    → request.body ≡ some (pay_invoice succeeds)
    → net.request_of request ≡ record {
      method = post_method;
      path = "invoices" ∷ id ∷ "payment" ∷ [];
      body = payment_json succeeds;
    }

module _ (net : Network) where
  -- What `response.json()` gives of an answer, or nothing where it is no JSON.
  abbrev pub json_of : Body → Option Json
  json_of (invoice j) = some j
  json_of (message text) = some (obj (("message", str text) ∷ []))
  json_of (thrown e) = some (obj (("message", str (net.message_of e)) ∷ []))
  json_of (plain text) = none
  json_of (health_data status text) =
      some (obj (("status", str status) ∷ ("message", str text) ∷ []))
  json_of (refusal text is_ok) = some (obj (("message", str text) ∷ ("ok", bool is_ok) ∷ []))

  -- The body as a text, where it is no JSON.
  abbrev raw_of : Body → Json
  raw_of (plain text) = scalar (str text)
  raw_of _ = scalar (str "")

  abbrev pub received : Response → HttpResponse Json
  received r = record { status = r.status; json = json_of r.body; body = raw_of r.body }

module _ {S : Type 0} (p : Platform S) (z : Zod) (queue : WebhookQueue S) (rejected : Response)
    (pages : Pages S) (matches : Matches) (limit : Limit S) (net : Network) where
  -- k6's `http.request`, answered by the payment server.
  abbrev pub http : HttpRequest → S → HttpResponse Json × S
  http request s =
      let (r, s') = create_app p z queue rejected pages matches limit (net.request_of request) s in
      (received net r, s')
