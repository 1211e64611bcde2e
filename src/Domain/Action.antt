-- ===== src/Domain/Action.antt =====
-- internal/domain/event.go: manual actions and the state machine of an event.
pub mod Graph
use alertloop.Base.{Text, Bool, true, false, Option, none, some, runes, text_eq, if◌then◌else◌}
use alertloop.Domain.Errors.{Error, Result, ok, err, invalid_transition, invalid_action}
use alertloop.Domain.Event.{
  EventType, incident, EventState, new, acknowledged, muted, escalated, is_resolved, is_muted,
  is_incident,
}

pub data EventAction : Type 0 where
  ack resolve mute unmute escalate : EventAction
  unknown : Text → EventAction

unfoldable pub apply_action : EventState → EventAction → Result EventState
unfolding is_resolved is_muted
apply_action current ack = if is_resolved current then err invalid_transition else ok acknowledged
apply_action current resolve =
    if is_resolved current then err invalid_transition else ok EventState.resolved
apply_action current mute = if is_resolved current then err invalid_transition else ok muted
apply_action current unmute = if is_muted current then ok new else err invalid_transition
apply_action current escalate = if is_resolved current then err invalid_transition else ok escalated
apply_action current (unknown _) = err invalid_action

unfoldable pub check_action_allowed : EventType → Result (Unit {0})
unfolding is_incident
check_action_allowed t = if is_incident t then ok tt else err invalid_transition

unfoldable pub parse_action : Text → Option EventAction
unfolding text_eq
parse_action s =
    if text_eq s (runes "ack")
    then some ack
    else if text_eq s (runes "resolve")
    then some resolve
    else if text_eq s (runes "mute")
    then some mute
    else if text_eq s (runes "unmute")
    then some unmute
    else if text_eq s (runes "escalate")
    then some escalate
    else none
