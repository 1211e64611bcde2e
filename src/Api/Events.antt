-- ===== src/Api/Events.antt =====
-- internal/api/handlers.go: the handlers that report an event, change it or read it, and that replay an
-- attempt. What json.Unmarshal makes of a body is a parameter.
pub mod Shown
mod Examples
use alertloop.Base.{
  ℕ, ◌-◌, ◌/◌, ◌*◌, ltb, leb, ◌==◌, Bool, true, false, not, ◌&&◌, ◌||◌, Option, none, some, List,
  [], ◌∷◌, map, Text, text_eq, runes, is_empty, length, if◌then◌else◌,
}
use alertloop.Domain.Errors.{
  Error, Result, ok, err, not_found, invalid_transition, invalid_action, validation, not_replayable,
  source_not_allowed, state_changed, unique_violation, database,
}
use alertloop.Domain.Event.{Event, EventState, EventType, Severity, valid_event_type, to_event_type}
use alertloop.Domain.Severity.{to_severity, valid_severity}
use alertloop.Domain.Action.{parse_action}
use alertloop.Domain.Delivery.{DeliveryAttempt}
use alertloop.Routing.Matcher.{text_in}
use alertloop.Routing.Router.{Router, target_names, route}
use alertloop.Store.Session.{M, Session, ◌>>=◌, ◌>>◌, pure, now}
use alertloop.Store.Listing.{EventFilter, DeliveryFilter, Page, list_events, list_delivery_attempts}
use alertloop.Store.Listing.Pages.{Key}
use alertloop.Store.Events.{get_event}
use alertloop.Store.Queue.{replay}
use alertloop.Store.Monitoring.{
  Signals, monitoring, count_events_by_state, count_deliveries_by_state,
}
use alertloop.Service.Transition.{apply, RecoveryNotifier}
use alertloop.Service.Input.{EventInput, max_payload_bytes}
use alertloop.Service.Ingest.{IngestOutcome, created, IngestResult, IngestService, ingest_for}
use alertloop.Api.Access.{Caller}
use alertloop.Api.Respond.{
  Incoming, too_large, unread, malformed, arrived, Stats, Body, nothing, says, exceeds, event_body,
  ingest_response, ingest_summary, events_body, attempts_body, attempt_body, preview_body,
  stats_body, Response, error_response, write_domain_error, respond, shown,
}

scope_ingest : Text
scope_ingest = runes "ingest"

abbrev pub max_ingest_body : ℕ
max_ingest_body = max_payload_bytes * 2

unfoldable pub is_created : IngestOutcome → Bool
is_created created = true
is_created _ = false

-- handleIngest from the result on
unfoldable pub ingest_answer : Caller → IngestResult → Response
unfolding is_created scope_ingest text_eq
ingest_answer who r = elim r.event [
  | none ↦ record { status = 204; body = nothing }
  | some e ↦ record {
    status = if is_created r.outcome then 201 else 200;
    body =
        if text_eq who.scope scope_ingest
        then ingest_summary e.id e.state r.outcome
        else ingest_response e r.outcome;
  }
]

unfoldable pub handle_get_event : ℕ → Session → Response × Session
unfolding respond shown get_event
handle_get_event id s = respond (λ e. shown (event_body e)) (get_event id s)

replay_now : ℕ → M DeliveryAttempt
replay_now id = do at ← now; replay id at

-- handleReplay with DeliveryService.Replay
unfoldable pub handle_replay : ℕ → Session → Response × Session
unfolding respond shown replay_now
handle_replay id s = respond (λ a. shown (attempt_body a)) (replay_now id s)

module _ (table : ℕ → ℕ) (svc : IngestService) (json_valid : Text → Bool)
    (byte_length : Text → ℕ) where
  unfoldable pub handle_ingest : Incoming EventInput → Caller → Session → Response × Session
  unfolding error_response respond ingest_answer ingest_for
  handle_ingest too_large who s =
      (error_response 413 (runes "request_too_large") (exceeds max_ingest_body), s)
  handle_ingest unread who s =
      (error_response 400 (runes "bad_request") (says (runes "could not read request body")), s)
  handle_ingest malformed who s =
      (error_response 400 (runes "bad_request") (says (runes "invalid JSON body")), s)
  handle_ingest (arrived input) who s =
      respond (ingest_answer who) (ingest_for table svc json_valid byte_length input who.sources s)

-- handleEventAction
unfoldable pub handle_event_action : RecoveryNotifier → ℕ → Text → Session → Response × Session
unfolding error_response respond shown apply parse_action
handle_event_action rec id action s = elim (parse_action action) [
  | none ↦ (error_response 404 (runes "not_found") (says (runes "unknown event action")), s)
  | some a ↦ respond (λ e. shown (event_body e)) (apply rec id a s)
]
