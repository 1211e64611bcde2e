-- ===== src/Api/Events/Examples.antt =====
-- A report whose row cannot be inserted, one that is stored, and an action that is not allowed.
use alertloop.Base.{◌≤◌, ◌≡◌, refl, true, none, some, [], ◌==◌, length, runes, arith, ◌∷◌}
use alertloop.Domain.Event.{EventState}
use alertloop.Domain.Action.{apply_action, parse_action, check_action_allowed}
use alertloop.Routing.Matcher.{event_values}
use alertloop.Routing.Router.{Router, new_all_channels, route, route_by}
use alertloop.Store.Session.{Session, session_code}
use alertloop.Store.Session.Spares.{Untouched}
use alertloop.Store.Events.{create_event_with_deliveries, get_event}
use alertloop.Store.Examples.{store_code, quiet, down}
use alertloop.Service.Transition.{apply, transition, round, after_try, attempts_for}
use alertloop.Service.Ingest.{IngestService, ingest_for, build_deliveries}
use alertloop.Service.Examples.{open_incident, report}
use alertloop.Api.Access.{Caller}
use alertloop.Api.Respond.{arrived, respond}
use alertloop.Api.Events.{handle_ingest, handle_event_action}
use alertloop.Api.Events.Shown.{handle_ingest-refused, handle_event_action-refused}

abbrev direct : Router
direct = new_all_channels []

abbrev service : IngestService
service = record { router = direct; max_attempts = 3; recovery = some 3 }

abbrev source : Caller
source = record { scope = runes "ingest"; sources = none }

-- the insert of the event's row fails
abbrev failing : Session
failing = record open_incident { db = record { events = []; attempts = [] }; faults = λ n. n == 2 }

insert_fails :
    (handle_ingest (λ c. c) service (λ t. true) length (arrived report) source failing).0.status
    ≡ 500
unfolding handle_ingest respond ingest_for build_deliveries create_event_with_deliveries route
    route_by event_values store_code session_code new_all_channels
insert_fails = refl

refused :
    400
    ≤ (handle_ingest (λ c. c) service (λ t. true) length (arrived report) source failing).0.status
refused = omega (arith, insert_fails)

handle_ingest-refused_example :
    Untouched failing
      (handle_ingest (λ c. c) service (λ t. true) length (arrived report) source failing).1
handle_ingest-refused_example =
    handle_ingest-refused (λ c. c) service (λ t. true) length (arrived report) source failing
      refused

-- an incident that is closed
abbrev closed : Session
closed = quiet (record { events = record down { state = EventState.resolved } ∷ []; attempts = [] })

not_allowed : (handle_event_action (some 3) 1 (runes "ack") closed).0.status ≡ 409
unfolding handle_event_action respond apply parse_action check_action_allowed apply_action
    transition round after_try attempts_for store_code session_code get_event
not_allowed = refl

conflict : 400 ≤ (handle_event_action (some 3) 1 (runes "ack") closed).0.status
conflict = omega (arith, not_allowed)

handle_event_action-refused_example :
    Untouched closed (handle_event_action (some 3) 1 (runes "ack") closed).1
handle_event_action-refused_example =
    handle_event_action-refused (some 3) 1 (runes "ack") closed conflict
