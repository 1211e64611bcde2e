-- ===== src/Store/Examples.antt =====
-- Runs of the store on small tables.
mod Transition
mod Accounts
mod Listing
mod Claim
mod Retention
mod Results
mod Events
use alertloop.Base.{ℕ, false, none, [], ◌∷◌, ◌≡◌, refl, runes, ◌+◌, map, find, Text}
use alertloop.Domain.Event.{Event, incident, critical, new, EventState}
use alertloop.Domain.Delivery.{DeliveryAttempt, telegram, alert, pending}
use alertloop.Store.Schema.{Db}
use alertloop.Store.Claim.{claim_due}
use alertloop.Store.MarkResult.{
  mark_result, record_result, after_update, update_result, as_stored, result_time, queue_fallback,
  held,
}
use alertloop.Store.Session.{Session, session_code}
use alertloop.Store.Events.{
  store_new, insert_all, insert_deliveries, insert_delivery, open_by_dedupe,
  create_event_with_deliveries,
}
use alertloop.Store.Transition.{
  change_rows, change_attempts, cancel_alerts_of, queue_recoveries, update_state, insert_recoveries,
  transition_event, StateChange,
}

abbrev pub empty_db : Db
empty_db = record { events = []; attempts = [] }

abbrev pub quiet : Db → Session
quiet d = record {
  db = d;
  faults = λ n. false;
  others = λ n d'. d';
  uuids = λ n. 100 + n;
  clock = λ n. 1000 + n;
}

abbrev pub down : Event
down = record {
  id = 1;
  event_type = incident;
  severity = critical;
  state = new;
  source = runes "db";
  category = [];
  message = runes "down";
  entity_type = [];
  entity_id = [];
  trace_id = [];
  dedupe_key = runes "k";
  payload = [];
  created_at = 5;
  updated_at = 5;
  last_seen_at = 5;
  resolved_at = none;
}

abbrev pub alert_to : ℕ → Text → DeliveryAttempt
alert_to id name = record {
  id = id;
  event_id = 1;
  channel = telegram;
  channel_name = name;
  kind = alert;
  state = pending;
  attempts = 0;
  max_attempts = 5;
  next_retry_at = none;
  last_error = [];
  created_at = 5;
  updated_at = 5;
  fallback_of = none;
  recovery_for = none;
}

abbrev pub stored : Session
stored =
    (create_event_with_deliveries down (alert_to 10 (runes "a") ∷ alert_to 11 (runes "b") ∷ [])
      (quiet empty_db)).1

abbrev pub close_it : StateChange
close_it = record {
  from = new;
  to = EventState.resolved;
  at = 9;
  recovery_max_attempts = 3;
  cancel_alerts = false;
}

-- Opens the store's code, for runs.
unfoldable pub store_code : Unit {0}
unfolding change_rows change_attempts cancel_alerts_of queue_recoveries update_state
    insert_recoveries transition_event create_event_with_deliveries store_new insert_all
    insert_deliveries insert_delivery open_by_dedupe claim_due mark_result record_result
    after_update update_result as_stored result_time queue_fallback held find session_code
store_code = tt

closed_ids :
    map (λ (a : DeliveryAttempt). a.id) (transition_event 1 close_it stored).1.db.attempts
    ≡ 101 ∷ 100 ∷ 11 ∷ 10 ∷ []
unfolding store_code
closed_ids = refl
