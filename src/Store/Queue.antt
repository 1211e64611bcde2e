-- ===== src/Store/Queue.antt =====
-- internal/storage/sql_store.go: reading, replaying and requeueing attempts.
pub mod Requeue
use alertloop.Base.{
  ℕ, ◌==◌, ltb, Bool, ◌&&◌, none, some, [], select, update, any, if◌then◌else◌, length,
}
use alertloop.Domain.Errors.{ok, err, not_found, not_replayable}
use alertloop.Domain.Delivery.{DeliveryAttempt, is_sending, is_dead_letter, pending, cancelled}
use alertloop.Store.Schema.{Db}
use alertloop.Store.Session.{M, now, raise, ◌>>=◌, write, read, autocommit, pure, ◌>>◌}
use alertloop.Store.Rows.{attempt_by_id, muted_alert}

-- the query of linkAttempts for one attempt, but for what it adds to the answer
link_attempts : M (Unit {0})
link_attempts = autocommit (read (λ d. ok tt))

unfoldable pub get_delivery_attempt : ℕ → M DeliveryAttempt
unfolding attempt_by_id link_attempts
get_delivery_attempt id = do
  a ← autocommit (read (λ d. elim (attempt_by_id id d) [ none ↦ err not_found | some a ↦ ok a ]))
  link_attempts
  pure a

dead : ℕ → DeliveryAttempt → Bool
unfolding is_dead_letter
dead id a = a.id == id && is_dead_letter a.state

unfoldable pub replayed_row : ℕ → DeliveryAttempt → DeliveryAttempt
replayed_row at a = record a {
  state = pending;
  attempts = 0;
  next_retry_at = some at;
  last_error = [];
  updated_at = at;
}

unfoldable pub replay : ℕ → ℕ → M DeliveryAttempt
unfolding dead replayed_row get_delivery_attempt is_dead_letter any update
replay id at = do
  current ← get_delivery_attempt id
  if is_dead_letter current.state
      then (do
        changed ← autocommit (
            write (λ d. (
              any (dead id) d.attempts,
              record d { attempts = update (dead id) (replayed_row at) d.attempts },
            )))
        if changed then get_delivery_attempt id else raise not_replayable)
      else raise not_replayable

-- WHERE state = 'sending' AND updated_at < ?
unfoldable pub stuck : ℕ → DeliveryAttempt → Bool
unfolding is_sending
stuck stale_before a = is_sending a.state && ltb a.updated_at stale_before

unfoldable pub requeued_row : ℕ → Db → DeliveryAttempt → DeliveryAttempt
unfolding muted_alert
requeued_row at d a = record a {
  state = if muted_alert d a then cancelled else pending;
  next_retry_at = if muted_alert d a then none else a.next_retry_at;
  updated_at = at;
}

unfoldable pub requeue_stuck_sending : ℕ → M ℕ
unfolding stuck requeued_row select update now
requeue_stuck_sending stale_before = do
  at ← now
  autocommit (
      write (λ d. (
        length (select (stuck stale_before) d.attempts),
        record d { attempts = update (stuck stale_before) (requeued_row at d) d.attempts },
      )))
