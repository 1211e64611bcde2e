-- ===== src/Store/Examples/Events.antt =====
-- A report of a new problem, and a second one under the same key.
use alertloop.Base.{true, false, [], ◌∷◌, ◌≡◌, refl, runes, List, find, some, map, is_empty}
use alertloop.Domain.Errors.{ok}
use alertloop.Domain.Event.{Event, critical, warning}
use alertloop.Domain.Delivery.{DeliveryAttempt}
use mathlib.Core.Option
use alertloop.Store.Session.{Session}
use alertloop.Store.Rows.{event_by_id}
use alertloop.Store.Refresh.{
  read_open, write_refresh, alert_rise, EventUpdate, open_with_id, insert_missing_alerts,
  refresh_row, refresh_open_event,
}
use alertloop.Store.Refresh.Effect.{renewed, with_rise, with_refresh, refresh_open_event-ok}
use alertloop.Store.Events.{create_event_with_deliveries}
use alertloop.Store.Events.Create.{with_event, create-stored}
use alertloop.Store.Examples.{store_code, empty_db, quiet, down, alert_to, stored}

abbrev two_alerts : List DeliveryAttempt
two_alerts = alert_to 10 (runes "a") ∷ alert_to 11 (runes "b") ∷ []

creates : (create_event_with_deliveries down two_alerts (quiet empty_db)).0 ≡ ok (down, true)
unfolding store_code
creates = refl

create-stored_example :
    (down ≡ down)
    × ((create_event_with_deliveries down two_alerts (quiet empty_db)).1.db
        ≡ with_event down two_alerts empty_db)
unfolding is_empty
create-stored_example = create-stored down down two_alerts (quiet empty_db) creates

abbrev again : Event
again = record down { id = 2; message = runes "still down" }

abbrev first_report : Event
first_report = record down { payload = runes "{}" }

finds : (create_event_with_deliveries again [] stored).0 ≡ ok (first_report, false)
unfolding store_code
finds = refl

-- an open incident of severity warning, with an alert on channel a
abbrev warned : Session
warned = quiet (record {
  events = record down { severity = warning } ∷ [];
  attempts = alert_to 10 (runes "a") ∷ [];
})

abbrev risen : EventUpdate
risen = record {
  severity = critical;
  message = runes "worse";
  payload = [];
  last_seen_at = 7;
  alerts_on_rise = alert_to 20 (runes "a") ∷ alert_to 21 (runes "b") ∷ [];
}

abbrev worse : Event
worse = record down {
  message = runes "worse";
  payload = runes "{}";
  last_seen_at = 7;
  updated_at = 7;
}

refreshes : (refresh_open_event 1 risen warned).0 ≡ ok worse
unfolding refresh_open_event refresh_row read_open write_refresh alert_rise insert_missing_alerts
    store_code
refreshes = refl

one_more_alert :
    map (λ (a : DeliveryAttempt). a.id) (refresh_open_event 1 risen warned).1.db.attempts
    ≡ 21 ∷ 10 ∷ []
unfolding refresh_open_event refresh_row read_open write_refresh alert_rise insert_missing_alerts
    store_code
one_more_alert = refl

refresh_open_event-ok_example :
    (old : Event) × (find (open_with_id 1) (warned.others 0 warned.db).events ≡ some old)
    × (Option.map (renewed risen) (event_by_id 1 (warned.others 0 warned.db)) ≡ some worse)
    × ((refresh_open_event 1 risen warned).1.db
        ≡ with_rise 1 risen old (with_refresh 1 risen (warned.others 0 warned.db)))
refresh_open_event-ok_example = refresh_open_event-ok 1 risen warned worse refreshes
