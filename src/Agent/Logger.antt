-- ===== src/Agent/Logger.antt =====
-- implementation/agent/src/utils/logger.ts: the time that stands before each line of the log, and
-- logWaitingTime. `new Date()` is given by its local time of day; the console is a list of lines.
pub mod Stamps
use Prim.Native.String
use Prim.Native.Char.{Char}
use tugas_akhir.Common.{
  ℕ, zero, suc, ◌+◌, ◌-◌, ◌<◌, String, Option, none, some, List, [], ◌∷◌, ◌++◌, if◌then◌else◌, ltb,
}
use tugas_akhir.Common.Text.{show}

-- getHours, getMinutes, getSeconds and getMilliseconds.
pub record TimeOfDay : Type 0 where
  pub hours : ℕ
  pub minutes : ℕ
  pub seconds : ℕ
  pub milliseconds : ℕ

infixr 60 ◌⧺◌
abbrev ◌⧺◌ : String → String → String
◌⧺◌ = String.◌++◌

text_length : String → ℕ
text_length String.[] = 0
text_length (String.◌∷◌ c s) = text_length s + 1

zeros : ℕ → String
zeros zero = ""
zeros (suc n) = "0" ⧺ zeros n

-- `n.toString().padStart(width, "0")`
unfoldable pub padded : ℕ → ℕ → String
unfolding text_length zeros
padded width n = zeros (width - text_length (show n)) ⧺ show n

unfoldable pub get_timestamp : TimeOfDay → String
unfolding padded
get_timestamp date =
    padded 2 date.hours
    ⧺ ":"
    ⧺ padded 2 date.minutes
    ⧺ ":"
    ⧺ padded 2 date.seconds
    ⧺ "."
    ⧺ padded 3 date.milliseconds

-- `${json.correlationId}`, where `none` is a response that is no JSON, or no object.
abbrev correlation_id : Option (Option String) → String
correlation_id none = ""
correlation_id (some none) = "undefined"
correlation_id (some (some id)) = id

-- What logWaitingTime adds to the log and to the metric.
pub record Waiting : Type 0 where
  pub warnings : List String
  pub metric : List ℕ

unfoldable pub log_waiting_time : ℕ → Option (Option String) → String → Waiting → Waiting
log_waiting_time response_time json message_type w = record {
  warnings =
      if ltb 5000 response_time
      then w.warnings
        ++ (message_type
            ⧺ " with correlationId '"
            ⧺ correlation_id json
            ⧺ "' took longer than 5000")
          ∷ []
      else w.warnings;
  metric = w.metric ++ response_time ∷ [];
}
