-- ===== src/Agent/Client/Headers.antt =====
-- Which value a header of a request has.
use text.Mathlib.Text.{◌==◌ as str_eq}
use text.Mathlib.TextEquality.{eq_iff}
use tugas_akhir.Common.{String, ◌≡◌, refl, Option, none, some, [], ◌∷◌, if◌then◌else◌, arith}
use tugas_akhir.Agent.Client.{
  Fields, lookup, assign, spread, Params, Payload, Client, HttpRequest, HttpResponse,
  merge_request_parameters, get_request, post_request,
}

-- The first of two that is there.
abbrev pub or_else : Option String → Option String → Option String
or_else none b = b
or_else (some a) b = some a

-- The last binding of a key, where one key is bound twice.
abbrev pub last_of : String → Fields → Option String
last_of k [] = none
last_of k ((j, v) ∷ m) = or_else (last_of k m) (if str_eq j k then some v else none)

pub lookup-assign :
    (k j v : String) (m : Fields)
    → lookup j (assign k v m) ≡ (if str_eq k j then some v else lookup j m)
unfolding assign
lookup-assign k j v [] = refl
lookup-assign k j v ((i, w) ∷ m) =
    ground (arith, eq_iff k j, eq_iff i k, eq_iff i j, lookup-assign k j v m)

-- An object literal has the value of the last spread that has the key.
pub lookup-spread :
    (k : String) (under over : Fields)
    → lookup k (spread under over) ≡ or_else (last_of k over) (lookup k under)
unfolding spread
lookup-spread k under [] = refl
lookup-spread k under ((j, v) ∷ over) =
    rw (lookup-spread k (assign j v under) over, lookup-assign j k v under) (ground arith)

module _ {W J : Type 0} (to_url : String → String)
    (http : HttpRequest → W → HttpResponse J × W) where
  -- A header of a GET is that of the request's parameters, or else the one common to the client.
  pub get_request-headers :
      (client : Client) (path : String) (params : Params) (k : String)
      → lookup k (get_request to_url http client path params).params.headers
        ≡ or_else (last_of k params.headers) (lookup k client.common.headers)
  unfolding merge_request_parameters
  get_request-headers client path params k = lookup-spread k client.common.headers params.headers

  -- A header of a POST is the one that the call names; or else the content type is JSON; or else it
  -- is that of the request's parameters, or else the one common to the client.
  pub post_request-headers :
      (client : Client) (path : String) (payload : Payload) (headers : Fields) (params : Params)
      (k : String)
      → lookup k (post_request to_url http client path payload headers params).params.headers
        ≡ or_else (last_of k headers) (
            or_else
              (if str_eq "Content-Type" k then some "application/json" else none)
              (or_else (last_of k params.headers) (lookup k client.common.headers)))
  unfolding merge_request_parameters
  post_request-headers client path payload headers params k =
      rw
        (
          lookup-spread k
              (spread (spread client.common.headers params.headers)
                (("Content-Type", "application/json") ∷ []))
              headers,
          lookup-spread k (spread client.common.headers params.headers)
              (("Content-Type", "application/json") ∷ []),
          lookup-spread k client.common.headers params.headers,
        )
        refl
