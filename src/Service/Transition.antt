-- ===== src/Service/Transition.antt =====
-- internal/service/recovery.go and events.go: who gets a recovery notice, and the loop by which
-- every state change is made.
pub mod Applied
pub mod Spared
use alertloop.Base.{ℕ, zero, suc, ◌==◌, Bool, true, false, not, Option, none, some, if◌then◌else◌}
use alertloop.Domain.Errors.{Result, ok, err, state_changed, invalid_transition}
use alertloop.Domain.Event.{Event, EventState, is_resolved, is_muted, is_incident, state_eq}
use alertloop.Domain.Action.{EventAction, apply_action, check_action_allowed}
use alertloop.Domain.Delivery.{default_max_attempts}
use alertloop.Store.Session.{M, pure, raise, ◌>>=◌, ◌>>◌, try, now}
use alertloop.Store.Events.{get_event}
use alertloop.Store.Transition.{StateChange, transition_event}

-- A notifier is its number of attempts; `none` is the nil notifier.
abbrev pub RecoveryNotifier : Type 0
RecoveryNotifier = Option ℕ

unfoldable pub new_recovery_notifier : Bool → ℕ → RecoveryNotifier
new_recovery_notifier enabled max_attempts =
    if enabled
    then some (if max_attempts == 0 then default_max_attempts else max_attempts)
    else none

unfoldable pub attempts_for : RecoveryNotifier → Event → ℕ
unfolding is_incident is_muted
attempts_for none e = 0
attempts_for (some n) e =
    if not (is_incident e.event_type) then 0 else if is_muted e.state then 0 else n

abbrev pub max_transition_tries : ℕ
max_transition_tries = 3

abbrev pub change : RecoveryNotifier → Event → ℕ → EventState → StateChange
change rec e at to = record {
  from = e.state;
  to = to;
  at = at;
  recovery_max_attempts = if is_resolved to then attempts_for rec e else 0;
  cancel_alerts = is_muted to;
}

-- TransitionEvent's answer: done, or another request came first and the loop goes on
unfoldable pub after_try : M (Event × Bool) → Result Event → M (Event × Bool)
after_try again (ok updated) = pure (updated, true)
after_try again (err state_changed) = again
after_try again (err x) = raise x

-- one round, for the state that `next` gave
unfoldable pub round :
    M (Event × Bool) → RecoveryNotifier → Event → ℕ → Result EventState → M (Event × Bool)
unfolding state_eq is_resolved is_muted attempts_for
round again rec e at (err x) = raise x
round again rec e at (ok to) =
    if state_eq to e.state
    then pure (e, false)
    else (do r ← try (transition_event e.id (change rec e at to)); after_try again r)

unfoldable pub transition :
    ℕ → RecoveryNotifier → Event → ℕ → (EventState → Result EventState) → M (Event × Bool)
transition zero rec e at next = raise invalid_transition
transition (suc tries) rec e at next =
    round (do fresh ← get_event e.id; transition tries rec fresh at next) rec e at (next e.state)

lift : {A : Type 0} → Result A → M A
lift (ok a) = pure a
lift (err x) = raise x

-- EventService.Apply
unfoldable pub apply : RecoveryNotifier → ℕ → EventAction → M Event
unfolding lift transition check_action_allowed apply_action get_event
apply rec id action = do
  e ← get_event id
  lift (check_action_allowed e.event_type)
  at ← now
  r ← transition max_transition_tries rec e at (λ current. apply_action current action)
  pure r.0
