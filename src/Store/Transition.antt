-- ===== src/Store/Transition.antt =====
-- internal/storage/sql_store.go: TransitionEvent, the one write path of an event's state.
pub mod Effect
pub mod Mute
pub mod Close
use mathlib.Core.Option
use alertloop.Base.{
  ℕ, ◌==◌, ltb, Bool, ◌&&◌, none, some, List, [], ◌∷◌, find, select, update, if◌then◌else◌,
}
use alertloop.Domain.Errors.{ok, state_changed}
use alertloop.Domain.Event.{Event, EventState, is_resolved, state_eq}
use alertloop.Domain.Delivery.{DeliveryAttempt}
use alertloop.Store.Session.{M, pure, raise, ◌>>=◌, ◌>>◌, new_uuid, write, read, transaction}
use alertloop.Store.Rows.{waiting_alert_of, cancel_row, owed_recovery, recovery_of, order}
use alertloop.Store.Events.{insert_delivery}

pub record StateChange : Type 0 where
  pub from : EventState
  pub to : EventState
  pub at : ℕ
  pub recovery_max_attempts : ℕ
  pub cancel_alerts : Bool

-- UPDATE events SET state, updated_at, resolved_at WHERE id = ? AND state = ?
unfoldable pub moves : ℕ → StateChange → Event → Bool
unfolding state_eq
moves id c e = e.id == id && state_eq e.state c.from

unfoldable pub moved : StateChange → Event → Event
unfolding is_resolved
moved c e = record e {
  state = c.to;
  updated_at = c.at;
  resolved_at = if is_resolved c.to then some c.at else none;
}

unfoldable pub update_state : ℕ → StateChange → M Event
unfolding moves moved find update
update_state id c = do
  row ← write (λ d. (
    Option.map (moved c) (find (moves id c) d.events),
    record d { events = update (moves id c) (moved c) d.events },
  ))
  elim row [ none ↦ raise state_changed | some e ↦ pure e ]

unfoldable pub cancel_waiting : ℕ → ℕ → M (Unit {0})
unfolding waiting_alert_of cancel_row update
cancel_waiting id at =
    write
      (λ d. (tt, record d { attempts = update (waiting_alert_of id) (cancel_row at) d.attempts }))

unfoldable pub alerts_to_recover : ℕ → M (List DeliveryAttempt)
unfolding owed_recovery order select
alerts_to_recover id = read (λ d. ok (order (select (owed_recovery id) d.attempts)))

unfoldable pub insert_recoveries : ℕ → ℕ → List DeliveryAttempt → M (Unit {0})
unfolding recovery_of
insert_recoveries max_attempts at [] = pure tt
insert_recoveries max_attempts at (a ∷ rest) = do
  id ← new_uuid
  insert_delivery (recovery_of id a max_attempts at)
  insert_recoveries max_attempts at rest

unfoldable pub cancel_alerts_of : ℕ → StateChange → M (Unit {0})
unfolding cancel_waiting
cancel_alerts_of id c = if c.cancel_alerts then cancel_waiting id c.at else pure tt

unfoldable pub queue_recoveries : ℕ → StateChange → M (Unit {0})
unfolding alerts_to_recover
queue_recoveries id c =
    if ltb 0 c.recovery_max_attempts
    then (do alerts ← alerts_to_recover id; insert_recoveries c.recovery_max_attempts c.at alerts)
    else pure tt

-- what follows the update of the event's row
unfoldable pub change_attempts : ℕ → StateChange → Event → M Event
change_attempts id c e = do cancel_alerts_of id c; queue_recoveries id c; pure e

-- what TransitionEvent does between BeginTx and Commit
unfoldable pub change_rows : ℕ → StateChange → M Event
change_rows id c = do e ← update_state id c; change_attempts id c e

unfoldable pub transition_event : ℕ → StateChange → M Event
transition_event id c = transaction (change_rows id c)
