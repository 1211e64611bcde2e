-- ===== src/Api/Status.antt =====
-- internal/api/handlers.go: the statistics and the preview of the routing table.
use alertloop.Base.{
  ℕ, ◌-◌, ◌/◌, ◌*◌, not, ◌&&◌, Option, none, some, [], Text, runes, is_empty, if◌then◌else◌,
}
use alertloop.Domain.Event.{Event, EventState, Severity, valid_event_type, to_event_type}
use alertloop.Domain.Severity.{to_severity, valid_severity}
use alertloop.Routing.Router.{Router, target_names, route}
use alertloop.Store.Session.{M, Session, ◌>>=◌, pure, now}
use alertloop.Store.Monitoring.{monitoring, count_events_by_state, count_deliveries_by_state}
use alertloop.Api.Respond.{
  Incoming, too_large, unread, malformed, arrived, says, exceeds, Stats, preview_body, stats_body,
  Response, error_response, respond, shown,
}

abbrev second : ℕ
second = 1000000000

abbrev max_preview_body : ℕ
max_preview_body = 64 * 1024

abbrev dead_letter_window : ℕ
dead_letter_window = 86400 * second

age_of : ℕ → Option ℕ → Option ℕ
age_of at none = none
age_of at (some t) = some ((at - t) / second)

whole_second : Option ℕ → Option ℕ
whole_second none = none
whole_second (some t) = some ((t / second) * second)

read_stats : Option ℕ → M Stats
unfolding monitoring count_events_by_state count_deliveries_by_state age_of whole_second
read_stats heartbeat = do
  at ← now
  m ← monitoring heartbeat at (at - dead_letter_window)
  events ← count_events_by_state
  deliveries ← count_deliveries_by_state
  pure (record {
    events = events;
    deliveries = deliveries;
    open_incidents = m.open_incidents;
    oldest_due_age = age_of at m.oldest_due_since;
    dead_letters = m.dead_letters;
    worker_last_tick = whole_second m.last_worker_tick;
  })

unfoldable pub handle_stats : Option ℕ → Session → Response × Session
unfolding read_stats respond shown
handle_stats heartbeat s = respond (λ r. shown (stats_body r)) (read_stats heartbeat s)

-- routingPreviewRequest; an empty body is one with no field set
pub record PreviewRequest : Type 0 where
  pub event_type : Text
  pub severity : Text
  pub source : Text
  pub category : Text

-- the event that the preview routes
abbrev preview_event : PreviewRequest → Severity → Event
preview_event i severity = record {
  id = 0;
  event_type = to_event_type i.event_type;
  severity = severity;
  state = EventState.new;
  source = i.source;
  category = i.category;
  message = [];
  entity_type = [];
  entity_id = [];
  trace_id = [];
  dedupe_key = [];
  payload = [];
  created_at = 0;
  updated_at = 0;
  last_seen_at = 0;
  resolved_at = none;
}

unfoldable pub preview : (ℕ → ℕ) → Router → PreviewRequest → Response
unfolding is_empty valid_event_type to_event_type to_severity valid_severity error_response shown
    route target_names
preview table r i =
    let severity = (if is_empty i.severity then Severity.info else to_severity i.severity) in
    if not (is_empty i.event_type) && not (valid_event_type (to_event_type i.event_type))
    then error_response 400 (runes "validation_failed") (says (runes "invalid type"))
    else if not (valid_severity severity)
    then error_response 400 (runes "validation_failed") (says (runes "invalid severity"))
    else let d = route table r (preview_event i severity) in
      shown (preview_body d.rule (target_names d.channels))

unfoldable pub handle_routing_preview : (ℕ → ℕ) → Router → Incoming PreviewRequest → Response
unfolding preview error_response
handle_routing_preview table r too_large =
    error_response 413 (runes "request_too_large") (exceeds max_preview_body)
handle_routing_preview table r unread =
    error_response 400 (runes "bad_request") (says (runes "could not read request body"))
handle_routing_preview table r malformed =
    error_response 400 (runes "bad_request") (says (runes "invalid JSON body"))
handle_routing_preview table r (arrived i) = preview table r i
