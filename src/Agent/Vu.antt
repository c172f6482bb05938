-- ===== src/Agent/Vu.antt =====
-- implementation/agent/src/tests/ticket.ts: the end states of a virtual user, its tags and its
-- metric. The counter `vu_end_state` is the list of the tags that were submitted to it.
pub mod Counter
use text.Mathlib.Text.{◌==◌ as str_eq}
use tugas_akhir.Common.{Bool, true, false, not, String, List, [], ◌∷◌, ◌++◌, filter, Exec, ok, ◌>>◌}
use tugas_akhir.Agent.Kit.{Stop}
use tugas_akhir.Agent.Client.{Fields, assign}
use tugas_akhir.Agent.Profile.Table.{
  DayPreference, specific, any_day, SeatingTier, seated_low, seated_mid, seated_high, area_mid,
  area_high, Quantity, solo, couple, group, Persistence, medium,
}
use tugas_akhir.Agent.Profile.{FallbackType, same_day, same_category}

-- END_STATES
pub data EndState : Type 0 where
  success_purchased : EndState
  success_payment_failed_expected : EndState
  fail_event_not_found : EndState
  fail_seat_not_found : EndState
  fail_order_bad_request : EndState
  fail_order_attempts_exceeded : EndState
  fail_payment_system_error : EndState
  fail_order_verification : EndState
  fail_ticket_issuance : EndState
  error_unexpected_order_state : EndState
  not_set : EndState
  unknown : EndState

abbrev pub end_text : EndState → String
end_text success_purchased = "SUCCESS_PURCHASED"
end_text success_payment_failed_expected = "SUCCESS_PAYMENT_FAILED_EXPECTED"
end_text fail_event_not_found = "FAIL_EVENT_NOT_FOUND"
end_text fail_seat_not_found = "FAIL_SEAT_NOT_FOUND"
end_text fail_order_bad_request = "FAIL_ORDER_BAD_REQUEST"
end_text fail_order_attempts_exceeded = "FAIL_ORDER_ATTEMPTS_EXCEEDED"
end_text fail_payment_system_error = "FAIL_PAYMENT_SYSTEM_ERROR"
end_text fail_order_verification = "FAIL_ORDER_VERIFICATION"
end_text fail_ticket_issuance = "FAIL_TICKET_ISSUANCE"
end_text error_unexpected_order_state = "ERROR_UNEXPECTED_ORDER_STATE"
end_text not_set = "NOT_SET"
end_text unknown = "UNKNOWN_EXIT"

abbrev pub tier_text : SeatingTier → String
tier_text seated_low = "Seated-Low"
tier_text seated_mid = "Seated-Mid"
tier_text seated_high = "Seated-High"
tier_text area_mid = "Area-Mid"
tier_text area_high = "Area-High"

abbrev pub day_text : DayPreference → String
day_text specific = "Specific"
day_text any_day = "Any Day"

abbrev pub quantity_text : Quantity → String
quantity_text solo = "Solo"
quantity_text couple = "Couple"
quantity_text group = "Group"

abbrev pub persistence_text : Persistence → String
persistence_text Persistence.low = "Low"
persistence_text medium = "Medium"
persistence_text Persistence.high = "High"

abbrev pub fallback_text : FallbackType → String
fallback_text same_day = "Same Day"
fallback_text same_category = "Same Category"

abbrev pub bool_text : Bool → String
bool_text true = "true"
bool_text false = "false"

-- A virtual user: the world, `vu.metrics.tags`, and what was added to the counter.
pub record Vu (W : Type 0) : Type 0 where
  pub world : W
  pub tags : Fields
  pub submitted : List Fields

abbrev pub tag_given : String × String → Bool
tag_given tag = not (str_eq tag.1 "")

module _ {W : Type 0} where
  -- A part of the script that uses the world only.
  abbrev pub on_world : {A : Type 0} → Exec W Stop A → Exec (Vu W) Stop A
  on_world m v = ((m v.world).0, record v { world = (m v.world).1 })

  abbrev pub set_tag : String → String → Exec (Vu W) Stop (Unit {0})
  set_tag k value v = (ok tt, record v { tags = assign k value v.tags })

  unfoldable pub submit_metric : Exec (Vu W) Stop (Unit {0})
  submit_metric v = (ok tt, record v { submitted = v.submitted ++ filter tag_given v.tags ∷ [] })

  -- `tags.state = …; submitMetric();`
  abbrev pub finish : EndState → Exec (Vu W) Stop (Unit {0})
  finish e = do set_tag "state" (end_text e); submit_metric
