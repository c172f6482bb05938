-- ===== src/Payment/App/Server.antt =====
-- implementation/payment/src/cmd/server/app.ts: the routes that createApp registers, in their order,
-- and the answer to a request. How a pattern matches a path is the framework's: `matches` gives the
-- parameters of a path that matches. A path arrives as its segments, a body as a JSON value.
use tugas_akhir.Common.{
  ℕ, String, Bool, true, false, Option, none, some, List, [], ◌∷◌, Exec, pure, ◌>>=◌, if◌then◌else◌,
}
use tugas_akhir.Payment.Json.{Scalar, Json, obj, Failure}
use tugas_akhir.Payment.Entity.{Zod}
use tugas_akhir.Payment.Platform.{Platform}
use tugas_akhir.Payment.Health.{Settles, HealthStatus, check}
use tugas_akhir.Payment.App.{
  WebhookQueue, Response, respond, plain, health_data, refusal, recover, get_route, create_route,
  pay_route,
}

pub data Method : Type 0 where
  get_method post_method other_method : Method

-- A request; one with a body has a JSON content type.
pub record Request : Type 0 where
  pub method : Method
  pub path : List String
  pub body : Json

abbrev pub Matches : Type 0
Matches = String → List String → Option (List (String × Scalar))

-- The pages that libraries make, and the ping of Redis.
pub record Pages (S : Type 0) : Type 0 where
  -- `printMetrics`
  pub metrics : S → Response × S
  -- `webhookQueue.exportPrometheusMetrics()`
  pub queue_metrics : Exec S Failure String
  -- the page of `app.doc`
  pub doc : S → Response × S
  -- `redis.ping()`
  pub ping : S → Settles String

abbrev pub same_method : Method → Method → Bool
same_method get_method get_method = true
same_method post_method post_method = true
same_method _ _ = false

-- A handler, by the parameters of the path and the body.
abbrev pub Handler : Type 0 → Type 0
Handler S = Json → Json → S → Response × S

-- The schema of a response in createRoute: InvoiceSchema or ErrorSchema.
pub data Declared : Type 0 where
  invoice_body error_body : Declared

-- The responses that createRoute declares, by their status; other routes declare none.
abbrev pub show_responses : List (ℕ × Declared)
show_responses = (200, invoice_body) ∷ (404, error_body) ∷ []

abbrev pub create_responses : List (ℕ × Declared)
create_responses = (200, invoice_body) ∷ []

abbrev pub pay_responses : List (ℕ × Declared)
pay_responses = (200, invoice_body) ∷ (400, error_body) ∷ (404, error_body) ∷ []

pub record Route (S : Type 0) : Type 0 where
  pub method : Method
  pub pattern : String
  pub responses : List (ℕ × Declared)
  pub handler : Handler S

-- `timeout(ms)` of the framework, round what answers a request. The handler goes on where the limit
-- answers first; the world that comes back is the one at the end of its work.
abbrev pub Limit : Type 0 → Type 0
Limit S = ℕ → (S → Response × S) → Exec S Failure Response

-- The handler given to app.notFound.
abbrev pub not_found : Response
not_found = respond 404 (refusal "Not Found" false)

module _ {S : Type 0} (p : Platform S) (z : Zod) (queue : WebhookQueue S) (rejected : Response)
    (pages : Pages S) where
  abbrev root_page : Handler S
  root_page params body s = (respond 200 (plain "Payment Service"), s)

  abbrev metrics_page : Handler S
  metrics_page params body = pages.metrics

  abbrev queue_metrics_handler : Exec S Failure Response
  queue_metrics_handler = do metrics ← pages.queue_metrics; pure (respond 200 (plain metrics))

  abbrev queue_metrics_page : Handler S
  queue_metrics_page params body s = recover (queue_metrics_handler s)

  abbrev health_response : HealthStatus → Response
  health_response h = respond h.code (health_data h.status h.message)

  abbrev health_page : Handler S
  health_page params body s = (health_response (check (pages.ping s)), s)

  abbrev show_page : Handler S
  show_page params body = get_route p z queue rejected params

  abbrev create_page : Handler S
  create_page params body = create_route p z queue rejected body

  abbrev pay_page : Handler S
  pay_page = pay_route p z queue rejected

  abbrev doc_page : Handler S
  doc_page params body = pages.doc

  abbrev page : Method → String → List (ℕ × Declared) → Handler S → Route S
  page method pattern responses handler = record {
    method = method;
    pattern = pattern;
    responses = responses;
    handler = handler;
  }

  -- The routes of createApp.
  abbrev pub routes : List (Route S)
  routes =
      page get_method "/" [] root_page
      ∷ page get_method "/metrics" [] metrics_page
      ∷ page get_method "/metrics-queue" [] queue_metrics_page
      ∷ page get_method "/health" [] health_page
      ∷ page get_method "/invoices/{id}" show_responses show_page
      ∷ page post_method "/invoices" create_responses create_page
      ∷ page post_method "/invoices/{id}/payment" pay_responses pay_page
      ∷ page get_method "/doc" [] doc_page
      ∷ []

module _ {S : Type 0} (matches : Matches) where
  abbrev answer_or :
      Option (List (String × Scalar)) → Handler S → Json → S → Response × S → Response × S
  answer_or none handler body s later = later
  answer_or (some params) handler body s later = handler (obj params) body s

  -- The first route whose method and pattern match answers.
  unfoldable pub dispatch : List (Route S) → Request → S → Response × S
  dispatch [] request s = (not_found, s)
  dispatch (route ∷ rest) request s =
      let later = dispatch rest request s in
      if same_method route.method request.method
      then answer_or (matches route.pattern request.path) route.handler request.body s later
      else later

module _ {S : Type 0} (p : Platform S) (z : Zod) (queue : WebhookQueue S) (rejected : Response)
    (pages : Pages S) (matches : Matches) (limit : Limit S) where
  -- createApp: every request is under the time limit, and app.onError answers what it throws.
  unfoldable pub create_app : Request → S → Response × S
  create_app request s =
      recover (limit 30000 (dispatch matches (routes p z queue rejected pages) request) s)
