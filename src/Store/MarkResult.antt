-- ===== src/Store/MarkResult.antt =====
-- internal/storage/sql_store.go: MarkResult, which records the outcome of a claimed attempt, and
-- queueFallback.
pub mod Outcome
pub mod Fallback
use mathlib.Core.Option
use alertloop.Base.{
  ℕ, ◌==◌, Bool, true, false, ◌&&◌, Option, none, some, ◌∷◌, find, update, any, if◌then◌else◌,
}
use alertloop.Domain.Errors.{ok, err, not_found, database}
use alertloop.Domain.Event.{is_resolved}
use alertloop.Domain.Delivery.{
  DeliveryAttempt, DeliveryState, is_recovery, is_sending, is_sent, is_dead_letter, is_cancelled,
  cancelled,
}
use alertloop.Domain.Truncate.{truncate_runes, max_last_error_runes}
use alertloop.Store.Schema.{Db}
use alertloop.Store.Session.{
  M, pure, raise, ◌>>=◌, ◌>>◌, new_uuid, now, write, read, autocommit, transaction,
}
use alertloop.Store.Rows.{delivery_row, event_by_id, recovery_of, muted_alert}
use alertloop.Store.Events.{insert_delivery}

-- WHERE id = ? AND state = 'sending'
unfoldable pub held : ℕ → DeliveryAttempt → Bool
unfolding is_sending
held id a = a.id == id && is_sending a.state

-- the CASE expressions of MarkResult: the state to store in a row
unfoldable pub stored_state : Db → DeliveryAttempt → DeliveryAttempt → DeliveryState
unfolding is_sent muted_alert
stored_state d result row =
    if is_sent result.state
    then result.state
    else if muted_alert d row
    then cancelled
    else result.state

unfoldable pub result_row : ℕ → Db → DeliveryAttempt → DeliveryAttempt → DeliveryAttempt
unfolding stored_state is_sent muted_alert
result_row at d result row = record row {
  state = stored_state d result row;
  next_retry_at =
      if is_sent result.state
      then result.next_retry_at
      else if muted_alert d row
      then none
      else result.next_retry_at;
  attempts = result.attempts;
  last_error = truncate_runes result.last_error max_last_error_runes;
  updated_at = at;
}

same_source : ℕ → Option ℕ → Bool
same_source id none = false
same_source id (some x) = x == id

unfoldable pub redirected : ℕ → Db → Bool
unfolding same_source any
redirected source d = any (λ a. same_source source a.fallback_of) d.attempts

-- WHERE event_id = ? AND kind = 'recovery'
unfoldable pub has_recovery : ℕ → Db → Bool
unfolding any is_recovery
has_recovery id d = any (λ a. a.event_id == id && is_recovery a.kind) d.attempts

recover_copy : DeliveryAttempt → M (Unit {0})
unfolding recovery_of insert_delivery
recover_copy f = do id ← new_uuid; insert_delivery (recovery_of id f f.max_attempts f.created_at)

copy_recovery : DeliveryAttempt → M (Unit {0})
unfolding recover_copy has_recovery
copy_recovery f = do
  counted ← read (λ d. ok (has_recovery f.event_id d))
  if counted then recover_copy f else pure tt

-- INSERT … ON CONFLICT (fallback_of) DO NOTHING, and RowsAffected
insert_copy : ℕ → DeliveryAttempt → M Bool
unfolding redirected delivery_row
insert_copy source copy = write (λ d.
    if redirected source d
    then (false, d)
    else (true, record d { attempts = delivery_row copy ∷ d.attempts }))

-- The event may have been closed before the copy was queued: then it owes the copy a recovery.
after_copy : DeliveryAttempt → M (Unit {0})
unfolding copy_recovery event_by_id is_resolved
after_copy f = do
  state ← read (λ d. elim (event_by_id f.event_id d) [ none ↦ err database | some e ↦ ok e.state ])
  if is_resolved state then copy_recovery f else pure tt

-- what follows the insert, by whether a row was inserted
after_insert_copy : ℕ → DeliveryAttempt → Bool → M DeliveryAttempt
unfolding after_copy
after_insert_copy source f true = do after_copy f; pure (record f { fallback_of = some source })
after_insert_copy source f false = pure (record f { fallback_of = none })

-- A copy is queued exactly if `fallback_of` is set in the result.
unfoldable pub queue_fallback : ℕ → DeliveryAttempt → M DeliveryAttempt
unfolding insert_copy after_insert_copy
queue_fallback source f = do
  queued ← insert_copy source (record f { fallback_of = some source })
  after_insert_copy source f queued

unfoldable pub update_result : ℕ → DeliveryAttempt → M DeliveryState
unfolding held result_row stored_state find update
update_result at result = do
  row ← write (λ d. (
    Option.map (stored_state d result) (find (held result.id) d.attempts),
    record d { attempts = update (held result.id) (result_row at d result) d.attempts },
  ))
  elim row [ none ↦ raise not_found | some state ↦ pure state ]

unfoldable pub as_stored : DeliveryAttempt → DeliveryState → DeliveryAttempt
unfolding is_cancelled
as_stored d state = record d {
  state = state;
  next_retry_at = if is_cancelled state then none else d.next_retry_at;
}

-- time.Now(), for a result that carries no time
unfoldable pub result_time : DeliveryAttempt → M ℕ
result_time d = if d.updated_at == 0 then now else pure d.updated_at

-- what follows the update when a fallback came with the result
unfoldable pub after_update :
    DeliveryAttempt → DeliveryAttempt → DeliveryState → M (DeliveryAttempt × Option DeliveryAttempt)
unfolding as_stored is_dead_letter
after_update d f state =
    if is_dead_letter state
    then (do f' ← queue_fallback d.id f; pure (as_stored d state, some f'))
    else pure (as_stored d state, some f)

unfoldable pub record_result :
    DeliveryAttempt → Option DeliveryAttempt → ℕ → M (DeliveryAttempt × Option DeliveryAttempt)
unfolding as_stored
record_result d none at = do state ← autocommit (update_result at d); pure (as_stored d state, none)
record_result d (some f) at = transaction (update_result at d >>= after_update d f)

-- The second result is the fallback.
unfoldable pub mark_result :
    DeliveryAttempt → Option DeliveryAttempt → M (DeliveryAttempt × Option DeliveryAttempt)
mark_result d fallback = do at ← result_time d; record_result d fallback at
