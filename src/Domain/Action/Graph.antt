-- ===== src/Domain/Action/Graph.antt =====
-- The transition diagram that manual actions walk, without the function that decides them.
use alertloop.Base.{◌≡◌, ◌≢◌, ◌↔◌, ◌⊎◌, refl, arith}
use alertloop.Domain.Errors.{ok}
use alertloop.Domain.Event.{EventState, new, acknowledged, muted, escalated}
use alertloop.Domain.Action.{EventAction, ack, resolve, mute, unmute, escalate, apply_action}

pub data IsOpen : EventState → Type 0 where
  open_new : IsOpen new
  open_acknowledged : IsOpen acknowledged
  open_muted : IsOpen muted
  open_escalated : IsOpen escalated

pub data Step : EventState → EventAction → EventState → Type 0 where
  acknowledge : {s : EventState} → IsOpen s → Step s ack acknowledged
  close : {s : EventState} → IsOpen s → Step s resolve EventState.resolved
  silence : {s : EventState} → IsOpen s → Step s mute muted
  unsilence : Step muted unmute new
  raise : {s : EventState} → IsOpen s → Step s escalate escalated

ruleset edges = (
  acknowledge, close, silence, unsilence, raise, open_new, open_acknowledged, open_muted,
  open_escalated,
)

apply_action→Step : (s t : EventState) (a : EventAction) → apply_action s a ≡ ok t → Step s a t
unfolding apply_action
apply_action→Step s t a h = grind (arith, edges)

apply_action←Step : {s t : EventState} {a : EventAction} → Step s a t → apply_action s a ≡ ok t
unfolding apply_action
apply_action←Step (acknowledge open_new) = refl
apply_action←Step (acknowledge _) = refl
apply_action←Step (close open_new) = refl
apply_action←Step (close _) = refl
apply_action←Step (silence open_new) = refl
apply_action←Step (silence _) = refl
apply_action←Step unsilence = refl
apply_action←Step (raise open_new) = refl
apply_action←Step (raise _) = refl

-- ApplyAction allows an action, with the state it leads to, exactly along an edge of the
-- transition diagram.
pub apply_action_iff : (s t : EventState) (a : EventAction) → (apply_action s a ≡ ok t) ↔ Step s a t
apply_action_iff s t a = (apply_action→Step s t a, apply_action←Step)

-- An action that is allowed is on an event that is not resolved, and it leads to `resolved` only
-- if it is `resolve`.
pub resolved-is_terminal :
    (s t : EventState) (a : EventAction)
    → apply_action s a ≡ ok t
    → (s ≢ EventState.resolved) × ((t ≢ EventState.resolved) ⊎ (a ≡ resolve))
unfolding apply_action
resolved-is_terminal s t a h = grind arith
