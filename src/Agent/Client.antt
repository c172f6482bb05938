-- ===== src/Agent/Client.antt =====
-- The HTTP clients of the agent, implementation/agent/src/client: the requests that their methods
-- send. `JSON.stringify` of a request body is represented by the value that it prints, and the URL
-- library, which normalises a URL, and k6's `http.request` are parameters.
pub mod Headers
use Prim.Native.String
use Prim.Native.Char.{code}
use text.Mathlib.Text.{◌==◌ as str_eq}
use tugas_akhir.Common.{ℕ, String, Bool, Option, none, some, List, [], ◌∷◌, Outcome, if◌then◌else◌}
use tugas_akhir.Common.Text.{show, strip_slashes}
use tugas_akhir.Agent.Types.{PlaceOrderDto}

-- A JavaScript object with string values.
abbrev pub Fields : Type 0
Fields = List (String × String)

abbrev pub lookup : String → Fields → Option String
lookup k [] = none
lookup k ((j, v) ∷ m) = if str_eq j k then some v else lookup k m

-- `object[k] = v`
pub assign : String → String → Fields → Fields
assign k v [] = (k, v) ∷ []
assign k v ((j, w) ∷ m) = if str_eq j k then (k, v) ∷ m else (j, w) ∷ assign k v m

-- `{ ...under, ...over }`
unfoldable pub spread : Fields → Fields → Fields
unfolding assign
spread under [] = under
spread under ((k, v) ∷ over) = spread (assign k v under) over

-- k6's Params, as far as the clients set them. A member that is left out is an empty object.
pub record Params : Type 0 where
  pub headers : Fields
  pub cookies : Fields
  pub tags : Fields

abbrev pub no_params : Params
no_params = record { headers = []; cookies = []; tags = [] }

pub data Payload : Type 0 where
  place_order : PlaceOrderDto → Payload
  create_invoice : ℕ → Option String → String → Payload
  pay_invoice : Bool → Payload

pub record HttpRequest : Type 0 where
  pub method : String
  pub url : String
  pub body : Option Payload
  pub params : Params

-- A response, by its status, what `response.json()` returns unless it throws, and its body.
pub record HttpResponse (J : Type 0) : Type 0 where
  pub status : ℕ
  pub json : Option J
  pub body : J

pub record Reply (J : Type 0) : Type 0 where
  pub response : HttpResponse J
  pub data_value : J

pub record Client : Type 0 where
  pub clean_base_url : String
  pub common : Params

-- The constructors of TicketBackendServiceClient and PaymentServiceClient.
unfoldable pub new_client : String → Option Params → Client
new_client base_url none = record { clean_base_url = strip_slashes base_url; common = no_params }
new_client base_url (some common) = record {
  clean_base_url = strip_slashes base_url;
  common = common;
}

-- _mergeRequestParameters
unfoldable pub merge_request_parameters : Params → Params → Params
unfolding spread
merge_request_parameters request common = record {
  headers = spread common.headers request.headers;
  cookies = spread common.cookies request.cookies;
  tags = spread common.tags request.tags;
}

infixr 60 ◌⧺◌
abbrev ◌⧺◌ : String → String → String
◌⧺◌ = String.◌++◌

module _ {W J : Type 0} (to_url : String → String)
    (http : HttpRequest → W → HttpResponse J × W) where
  -- `data = response.json()`, or the body where that throws
  abbrev pub data_of : Option J → J → J
  data_of none body = body
  data_of (some j) body = j

  abbrev pub send : HttpRequest → W → Reply J × W
  send request w =
      let (r, w1) = http request w in
      (record { response = r; data_value = data_of r.json r.body }, w1)

  abbrev pub get_request : Client → String → Params → HttpRequest
  get_request client path params = record {
    method = "GET";
    url = to_url (client.clean_base_url ⧺ path);
    body = none;
    params = merge_request_parameters params client.common;
  }

  -- The ticket backend.
  unfoldable pub event_routes_get_events : Client → Params → W → Reply J × W
  event_routes_get_events client params = send (get_request client "/events/" params)

  unfoldable pub event_routes_get_availability : Client → ℕ → Params → W → Reply J × W
  event_routes_get_availability client ticket_sale_id params =
      send (get_request client ("/events/availability/" ⧺ show ticket_sale_id) params)

  unfoldable pub event_routes_get_seats : Client → ℕ → Params → W → Reply J × W
  event_routes_get_seats client ticket_area_id params =
      send (get_request client ("/events/seats/" ⧺ show ticket_area_id) params)

  unfoldable pub event_routes_get_event : Client → ℕ → Params → W → Reply J × W
  event_routes_get_event client event_id params =
      send (get_request client ("/events/" ⧺ show event_id) params)

  unfoldable pub order_routes_get_order : Client → String → Params → W → Reply J × W
  order_routes_get_order client id params = send (get_request client ("/orders/" ⧺ id) params)

  unfoldable pub order_routes_get_issued_tickets : Client → String → Params → W → Reply J × W
  order_routes_get_issued_tickets client id params =
      send (get_request client ("/orders/" ⧺ id ⧺ "/tickets") params)

  -- The headers of a POST: those of the parameters, then the content type, then `headers`.
  abbrev pub post_request : Client → String → Payload → Fields → Params → HttpRequest
  post_request client path payload headers params =
      let merged = merge_request_parameters params client.common in
      record {
        method = "POST";
        url = to_url (client.clean_base_url ⧺ path);
        body = some payload;
        params = record merged {
          headers =
              spread (spread merged.headers (("Content-Type", "application/json") ∷ [])) headers;
        };
      }

  unfoldable pub order_routes_place_order :
      Client → PlaceOrderDto → Fields → Params → W → Reply J × W
  order_routes_place_order client dto headers params =
      send (post_request client "/orders/" (place_order dto) headers params)

  -- The payment service.
  unfoldable pub get_invoices_id : Client → String → Params → W → Reply J × W
  get_invoices_id client id params = send (get_request client ("/invoices/" ⧺ id) params)

  unfoldable pub post_invoices : Client → ℕ → Option String → String → Params → W → Reply J × W
  post_invoices client amount description external_id params =
      send
        (post_request client "/invoices" (create_invoice amount description external_id) [] params)

  unfoldable pub post_invoices_id_payment : Client → String → Bool → Params → W → Reply J × W
  post_invoices_id_payment client id success params =
      send (post_request client ("/invoices/" ⧺ id ⧺ "/payment") (pay_invoice success) [] params)
