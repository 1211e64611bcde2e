-- ===== src/Store/Examples/Results.antt =====
-- Results of sends: of an attempt that was taken back, and of one whose incident was muted.
use alertloop.Base.{true, false, none, some, [], ◌∷◌, ◌≡◌, refl, runes, find, Option, Has}
use alertloop.Domain.Errors.{ok}
use alertloop.Domain.Event.{muted}
use alertloop.Domain.Delivery.{DeliveryAttempt, sending, failed, cancelled, is_sent}
use alertloop.Store.Session.{Session, session_code}
use alertloop.Store.Rows.{muted_alert}
use alertloop.Store.MarkResult.{held, mark_result, queue_fallback}
use alertloop.Store.MarkResult.Fallback.{Redirection, queue_fallback-Redirection}
use alertloop.Store.MarkResult.Outcome.{marked, taken_back, muted_result_cancelled}
use alertloop.Store.Queue.{stuck, requeue_stuck_sending}
use alertloop.Store.Examples.{store_code, quiet, down, alert_to, stored}

-- what the worker reports of the alert 10
abbrev failure : DeliveryAttempt
failure = record (alert_to 10 (runes "a")) {
  state = failed;
  attempts = 1;
  next_retry_at = some 90;
  last_error = runes "refused";
  updated_at = 60;
}

not_held : find (held failure.id) (stored.others 0 stored.db).attempts ≡ none
unfolding store_code
not_held = refl

abbrev in_send : DeliveryAttempt
in_send = record (alert_to 10 (runes "a")) { state = sending }

abbrev muted_meanwhile : Session
muted_meanwhile =
    quiet (record { events = record down { state = muted } ∷ []; attempts = in_send ∷ [] })

is_held :
    find (held failure.id) (muted_meanwhile.others 0 muted_meanwhile.db).attempts ≡ some in_send
unfolding store_code
is_held = refl

is_muted_alert : muted_alert (muted_meanwhile.others 0 muted_meanwhile.db) in_send ≡ true
unfolding store_code muted_alert
is_muted_alert = refl

unsent : is_sent failure.state ≡ false
unfolding is_sent
unsent = refl

abbrev answered : DeliveryAttempt × Option DeliveryAttempt
answered = (record failure { state = cancelled; next_retry_at = none }, none)

marks : (mark_result failure none muted_meanwhile).0 ≡ ok answered
unfolding store_code
marks = refl

muted_result_cancelled_example :
    (answered.0.state ≡ cancelled)
    × (answered.0.next_retry_at ≡ none)
    × Has (taken_back 60 failure in_send) (mark_result failure none muted_meanwhile).1.db.attempts
    × ((mark_result failure none muted_meanwhile).1.db
        ≡ marked 60 failure (muted_meanwhile.others 0 muted_meanwhile.db))
muted_result_cancelled_example =
    muted_result_cancelled failure none muted_meanwhile in_send answered is_held is_muted_alert
      unsent marks

sends : (requeue_stuck_sending 50 muted_meanwhile).0 ≡ ok 1
unfolding requeue_stuck_sending stuck session_code
sends = refl

abbrev redirects : DeliveryAttempt
redirects = record (alert_to 30 (runes "mail")) { fallback_of = some 10 }

queues : (queue_fallback 10 (alert_to 30 (runes "mail")) muted_meanwhile).0 ≡ ok redirects
unfolding queue_fallback session_code
queues = refl

queue_fallback-Redirection_example :
    Redirection 10
      (alert_to 30 (runes "mail"))
      muted_meanwhile.db
      (queue_fallback 10 (alert_to 30 (runes "mail")) muted_meanwhile).1.db
      redirects
queue_fallback-Redirection_example =
    queue_fallback-Redirection 10 (alert_to 30 (runes "mail")) redirects muted_meanwhile queues
