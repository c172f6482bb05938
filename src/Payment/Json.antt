-- ===== src/Payment/Json.antt =====
-- JSON.stringify and JSON.parse as the payment service uses them, and the errors that it throws.
-- Stored strings are represented by what they are: the text of a JSON value, or some other string.
-- The objects are flat, as all objects of the service are; a date is the number of milliseconds
-- since the epoch, and `iso t` is the string that `Date.prototype.toISOString` prints for it.
use tugas_akhir.Common.{ℕ, String, Bool, Option, none, some, List, [], ◌∷◌, if◌then◌else◌}
use text.Mathlib.Text.{◌==◌ as str_eq}

pub data Scalar : Type 0 where
  null : Scalar
  bool : Bool → Scalar
  num : ℕ → Scalar
  str : String → Scalar
  iso : ℕ → Scalar

pub data Json : Type 0 where
  obj : List (String × Scalar) → Json
  scalar : Scalar → Json

-- A string in Redis or in a request body.
pub data Text : Type 0 where
  json : Json → Text
  other : String → Text

abbrev pub lookup {ℓ} : {V : Type ℓ} → String → List (String × V) → Option V
lookup k [] = none
lookup k ((j, v) ∷ m) = if str_eq j k then some v else lookup k m

-- `value[k]`, where a value that is no object has no fields.
abbrev pub field : String → Json → Option Scalar
field k (obj fields) = lookup k fields
field k (scalar v) = none

-- What is known of the body of a refused webhook.
pub data ErrorBody : Type 0 where
  message : Scalar → ErrorBody
  quoted : Text → ErrorBody
  unreadable : ErrorBody

-- What the service throws: `new HTTPException(status, { message })`, an error with a fixed message,
-- or the notifier's error, whose message prints a status, its text and what was read of the body.
pub data Failure : Type 0 where
  http_exception : ℕ → String → Failure
  error : String → Failure
  http_error : ℕ → String → ErrorBody → Failure
