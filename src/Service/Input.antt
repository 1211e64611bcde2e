-- ===== src/Service/Input.antt =====
-- internal/service/ingest.go: the request, and its validation.
pub mod Accepted
use alertloop.Base.{ℕ, ltb, Bool, true, false, not, ◌&&◌, Text, runes, is_empty, if◌then◌else◌}
use alertloop.Domain.Errors.{Result, ok, err, validation}
use alertloop.Domain.Event.{
  EventType, Severity, IngestStatus, omitted, firing, valid_ingest_status, valid_event_type,
}
use alertloop.Domain.Severity.{valid_severity}
use alertloop.Strings.{trim_space}

pub record EventInput : Type 0 where
  pub status : IngestStatus
  pub event_type : EventType
  pub severity : Severity
  pub source : Text
  pub category : Text
  pub message : Text
  pub entity_type : Text
  pub entity_id : Text
  pub trace_id : Text
  pub dedupe_key : Text
  pub payload : Text

abbrev pub max_payload_bytes : ℕ
max_payload_bytes = 262144

is_omitted : IngestStatus → Bool
is_omitted omitted = true
is_omitted _ = false

unfoldable pub is_firing : IngestStatus → Bool
is_firing firing = true
is_firing _ = false

unfoldable pub is_resolving : IngestStatus → Bool
is_resolving IngestStatus.resolved = true
is_resolving _ = false

or_info : Severity → Severity
or_info Severity.unset = Severity.info
or_info s = s

-- encoding/json's Valid is a parameter, and `byte_length` is len on the payload.
module _ (json_valid : Text → Bool) (byte_length : Text → ℕ) where
  -- The checks on a report to store, in their order.
  validate_report : EventInput → Result EventInput
  unfolding is_firing trim_space is_empty valid_event_type valid_severity or_info
  validate_report i =
      let j = record i { severity = or_info i.severity } in
      if is_firing i.status && is_empty (trim_space i.dedupe_key)
      then err validation
      else if not (valid_event_type i.event_type)
      then err validation
      else if not (valid_severity j.severity)
      then err validation
      else if is_empty (trim_space i.source)
      then err validation
      else if is_empty (trim_space i.message)
      then err validation
      else if ltb max_payload_bytes (byte_length i.payload)
      then err validation
      else if ltb 0 (byte_length i.payload) && not (json_valid i.payload)
      then err validation
      else ok j

  -- The input comes back, since its severity is filled in.
  unfoldable pub validate_input : EventInput → Result EventInput
  unfolding is_omitted valid_ingest_status is_resolving trim_space is_empty validate_report
  validate_input i =
      if not (is_omitted i.status) && not (valid_ingest_status i.status)
      then err validation
      else if is_resolving i.status
      then (if is_empty (trim_space i.dedupe_key) then err validation else ok i)
      else validate_report i

unfoldable pub normalize_payload : Text → Text
unfolding is_empty
normalize_payload p = if is_empty p then runes "{}" else p
