-- ===== src/Store/Transition/Mute.antt =====
-- Muting an incident cancels the alerts that still wait.
use alertloop.Base.{
  if◌then◌else◌, select, sym, subst, ℕ, suc, ltb, true, false, List, [], ◌∷◌, ◌≡◌, arith, All,
  All-update_none,
}
use alertloop.Domain.Errors.{ok}
use alertloop.Domain.Event.{Event}
use alertloop.Domain.Delivery.{DeliveryAttempt}
use alertloop.Store.Schema.{Db}
use alertloop.Store.Session.{Session}
use alertloop.Store.Rows.{
  waiting_alert_of, cancel_row, delivery_row, recovery_of, order, owed_recovery,
}
use alertloop.Store.Transition.{StateChange, transition_event}
use alertloop.Store.Transition.Effect.{
  with_recoveries, with_alerts_cancelled, with_recoveries_queued, changed, transition_event-ok,
}

abbrev pub NoneWaiting : ℕ → Db → Type 0
NoneWaiting id d = All (λ a. waiting_alert_of id a ≡ false) d.attempts

cancelled-not_waiting :
    (id at : ℕ) (a : DeliveryAttempt) → waiting_alert_of id (cancel_row at a) ≡ false
unfolding waiting_alert_of cancel_row
cancelled-not_waiting id at a = ground arith

recovery-not_waiting :
    (id n : ℕ) (a : DeliveryAttempt) (m at : ℕ)
    → waiting_alert_of id (delivery_row (recovery_of n a m at)) ≡ false
unfolding waiting_alert_of delivery_row recovery_of
recovery-not_waiting id n a m at = ground arith

with_recoveries-NoneWaiting :
    (id : ℕ) (uuids : ℕ → ℕ) (m at : ℕ) (l : List DeliveryAttempt) (d : Db)
    → NoneWaiting id d
    → NoneWaiting id (with_recoveries uuids m at l d)
unfolding with_recoveries
with_recoveries-NoneWaiting id uuids m at [] d h = h
with_recoveries-NoneWaiting id uuids m at (a ∷ l) d h =
    with_recoveries-NoneWaiting id (λ n. uuids (suc n)) m at l
      (record d { attempts = delivery_row (recovery_of (uuids 0) a m at) ∷ d.attempts })
      (recovery-not_waiting id (uuids 0) a m at, h)

queued-NoneWaiting :
    (uuids : ℕ → ℕ) (id : ℕ) (c : StateChange) (d : Db)
    → NoneWaiting id d
    → NoneWaiting id (with_recoveries_queued uuids id c d)
unfolding with_recoveries_queued
queued-NoneWaiting uuids id c d h =
    elim (ltb 0 c.recovery_max_attempts)
      as (λ b. NoneWaiting id (
        if b
        then (with_recoveries uuids c.recovery_max_attempts c.at
            (order (select (owed_recovery id) d.attempts)) d)
        else d)) [
          | true ↦
              with_recoveries-NoneWaiting id uuids c.recovery_max_attempts c.at
                (order (select (owed_recovery id) d.attempts)) d h
          | false ↦ h
        ]

cancelled-NoneWaiting :
    (id : ℕ) (c : StateChange) (d : Db)
    → c.cancel_alerts ≡ true
    → NoneWaiting id (with_alerts_cancelled id c d)
unfolding with_alerts_cancelled
cancelled-NoneWaiting id c d cancels = rw cancels (
    All-update_none (waiting_alert_of id) (cancel_row c.at) d.attempts
      (cancelled-not_waiting id c.at))

-- After a TransitionEvent that cancels alerts, no alert of the event is pending or failed.
pub mute_cancels :
    (id : ℕ) (c : StateChange) (s : Session) (e : Event)
    → c.cancel_alerts ≡ true
    → (transition_event id c s).0 ≡ ok e
    → NoneWaiting id (transition_event id c s).1.db
unfolding changed
mute_cancels id c s e cancels h =
    let (old, found, is_moved, stored) = transition_event-ok id c s e h in
    subst (NoneWaiting id) (sym stored)
      (queued-NoneWaiting s.uuids id c _ (cancelled-NoneWaiting id c _ cancels))
