-- ===== src/Store/Examples/Transition.antt =====
-- A close and a mute of an incident with two alerts that wait.
use alertloop.Base.{true, some, ◌≡◌, refl, runes, arith, find, ◌+◌}
use alertloop.Domain.Errors.{ok, err, state_changed}
use alertloop.Domain.Event.{Event, EventState, new, muted, acknowledged}
use alertloop.Store.Transition.{transition_event, StateChange, moves, moved}
use alertloop.Store.Transition.Effect.{changed, transition_event-ok, transition_event-err}
use alertloop.Store.Transition.Mute.{NoneWaiting, mute_cancels}
use alertloop.Store.Transition.Close.{recoveries_for, owed, close_recovers}
use alertloop.Store.Examples.{store_code, down, stored, close_it}

abbrev closed : Event
closed = record down {
  state = EventState.resolved;
  payload = runes "{}";
  updated_at = 9;
  resolved_at = some 9;
}

closes : (transition_event 1 close_it stored).0 ≡ ok closed
unfolding store_code
closes = refl

transition_event-ok_example :
    (old : Event) × (find (moves 1 close_it) (stored.others 0 stored.db).events ≡ some old)
    × (closed ≡ moved close_it old)
    × ((transition_event 1 close_it stored).1.db
        ≡ changed stored.uuids 1 close_it (stored.others 0 stored.db))
transition_event-ok_example = transition_event-ok 1 close_it stored closed closes

close_recovers_example :
    recoveries_for 10 (transition_event 1 close_it stored).1.db.attempts
    ≡ recoveries_for 10 (stored.others 0 stored.db).attempts
      + owed 1 10 (stored.others 0 stored.db).attempts
close_recovers_example = close_recovers 1 close_it stored closed 10 (omega arith) refl closes

abbrev mute_it : StateChange
mute_it = record { from = new; to = muted; at = 9; recovery_max_attempts = 0; cancel_alerts = true }

abbrev silenced : Event
silenced = record down { state = muted; payload = runes "{}"; updated_at = 9 }

mutes : (transition_event 1 mute_it stored).0 ≡ ok silenced
unfolding store_code
mutes = refl

mute_cancels_example : NoneWaiting 1 (transition_event 1 mute_it stored).1.db
mute_cancels_example = mute_cancels 1 mute_it stored silenced refl mutes

abbrev stale_close : StateChange
stale_close = record close_it { from = acknowledged }

too_late : (transition_event 1 stale_close stored).0 ≡ err state_changed
unfolding store_code
too_late = refl

transition_event-err_example :
    (transition_event 1 stale_close stored).1.db ≡ stored.others 0 stored.db
transition_event-err_example = transition_event-err 1 stale_close stored state_changed too_late
