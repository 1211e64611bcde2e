-- ===== src/Service/Examples.antt =====
-- An acknowledgement by way of the transition loop.
use alertloop.Base.{◌≡◌, refl, some, true, [], ◌∷◌, length, runes}
use alertloop.Domain.Errors.{ok}
use alertloop.Domain.Event.{Event, acknowledged, firing, incident, critical}
use alertloop.Domain.Action.{ack, apply_action}
use alertloop.Store.Session.{Session}
use alertloop.Store.Examples.{store_code, quiet, down}
use alertloop.Service.Input.{EventInput, validate_input}
use alertloop.Service.Transition.{transition, round, after_try, attempts_for}
use alertloop.Service.Transition.Applied.{Applied, transition-Applied}

abbrev pub open_incident : Session
open_incident = quiet (record { events = down ∷ []; attempts = [] })

abbrev acked : Event
acked = record down { state = acknowledged; updated_at = 9 }

acks :
    (transition 3 (some 5) down 9 (λ current. apply_action current ack) open_incident).0
    ≡ ok (acked, true)
unfolding store_code transition round after_try attempts_for apply_action
acks = refl

transition-Applied_example :
    Applied
      (some 5)
      9
      (λ current. apply_action current ack)
      3
      down
      open_incident
      acked
      (transition 3 (some 5) down 9 (λ current. apply_action current ack) open_incident).1.db
transition-Applied_example =
    transition-Applied (some 5) 9 (λ current. apply_action current ack) 3 down open_incident acked
      acks

abbrev pub report : EventInput
report = record {
  status = firing;
  event_type = incident;
  severity = critical;
  source = runes "db";
  category = [];
  message = runes "down";
  entity_type = [];
  entity_id = [];
  trace_id = [];
  dedupe_key = runes "k";
  payload = [];
}

accepted : validate_input (λ t. true) length report ≡ ok report
unfolding validate_input
accepted = refl
