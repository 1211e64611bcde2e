-- ===== src/Domain/Event.antt =====
-- internal/domain/event.go: the event record and its enumerations. A Go string type is a data type
-- with the package's constants, and `unknown` for any other text where the code meets one.
use alertloop.Base.{runes, ℕ, Text, Bool, true, false, Option, text_eq, if◌then◌else◌}

pub data EventType : Type 0 where
  incident business_event audit : EventType
  unknown : Text → EventType

unfoldable pub valid_event_type : EventType → Bool
valid_event_type (EventType.unknown _) = false
valid_event_type _ = true

-- string(t)
unfoldable pub event_type_text : EventType → Text
event_type_text incident = runes "incident"
event_type_text business_event = runes "business_event"
event_type_text audit = runes "audit"
event_type_text (EventType.unknown t) = t

-- EventType(s)
unfoldable pub to_event_type : Text → EventType
unfolding text_eq
to_event_type t =
    if text_eq t (runes "incident")
    then incident
    else if text_eq t (runes "business_event")
    then business_event
    else if text_eq t (runes "audit")
    then audit
    else EventType.unknown t

pub data Severity : Type 0 where
  unset info success warning error critical : Severity
  unknown : Text → Severity

pub data IngestStatus : Type 0 where
  omitted firing resolved : IngestStatus
  unknown : Text → IngestStatus

unfoldable pub valid_ingest_status : IngestStatus → Bool
valid_ingest_status IngestStatus.firing = true
valid_ingest_status IngestStatus.resolved = true
valid_ingest_status _ = false

pub data EventState : Type 0 where
  new acknowledged resolved muted escalated : EventState

-- `==` on states.
unfoldable pub is_resolved : EventState → Bool
is_resolved EventState.resolved = true
is_resolved _ = false

unfoldable pub is_muted : EventState → Bool
is_muted EventState.muted = true
is_muted _ = false

unfoldable pub state_eq : EventState → EventState → Bool
state_eq new new = true
state_eq acknowledged acknowledged = true
state_eq EventState.resolved EventState.resolved = true
state_eq muted muted = true
state_eq escalated escalated = true
state_eq _ _ = false

unfoldable pub is_incident : EventType → Bool
is_incident incident = true
is_incident _ = false

-- An id is the 128-bit value of a UUID, a time is its number of nanoseconds, 0 for Go's zero time.
pub record Event : Type 0 where
  pub id : ℕ
  pub event_type : EventType
  pub severity : Severity
  pub state : EventState
  pub source : Text
  pub category : Text
  pub message : Text
  pub entity_type : Text
  pub entity_id : Text
  pub trace_id : Text
  pub dedupe_key : Text
  pub payload : Text
  pub created_at : ℕ
  pub updated_at : ℕ
  pub last_seen_at : ℕ
  pub resolved_at : Option ℕ
