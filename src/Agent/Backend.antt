-- ===== src/Agent/Backend.antt =====
-- What the actions of the agent share: the two clients, and the values of a response at the types
-- that the clients declare for it. A response has a `.data` of that type, or none, as an error body
-- has; `none` is then `undefined`, and reading its fields throws a TypeError.
use tugas_akhir.Common.{
  String, Bool, Option, none, some, List, [], ◌∷◌, length, Exec, raise, pure, ◌==◌, not,
}
use tugas_akhir.Agent.Kit.{Kit, Stop, exception}
use tugas_akhir.Agent.Types.{Event, AreaAvailability, TicketSeat, Order, IssuedTicket}
use tugas_akhir.Agent.Client.{HttpRequest, HttpResponse, Client, Reply, Params}

pub record Views (J : Type 0) : Type 0 where
  pub events : J → Option (List Event)
  pub event : J → Option Event
  pub availability : J → Option (List AreaAvailability)
  pub seats : J → Option (List TicketSeat)
  pub order : J → Option Order
  pub issued_tickets : J → Option (List IssuedTicket)

pub record Backend (W J : Type 0) : Type 0 where
  pub kit : Kit W
  pub to_url : String → String
  pub http : HttpRequest → W → HttpResponse J × W
  pub views : Views J
  pub ticket_client : Client
  pub payment_client : Client

-- `{ tags: { name } }`
abbrev pub tagged : String → Params
tagged name = record { headers = []; cookies = []; tags = ("name", name) ∷ [] }

abbrev pub type_error : Stop
type_error = exception "TypeError"

-- A value that the script reads without a test.
abbrev pub read : {W A : Type 0} → Option A → Exec W Stop A
read none = raise type_error
read (some a) = pure a

-- `r.response.status === 200`
abbrev pub is_200 : {J : Type 0} → Reply J → Option Bool
is_200 r = some (r.response.status == 200)

-- `r.data.data.length !== 0`
abbrev pub not_empty : {A : Type 0} → Option (List A) → Option Bool
not_empty none = none
not_empty (some l) = some (not (length l == 0))
