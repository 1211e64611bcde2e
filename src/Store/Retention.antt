-- ===== src/Store/Retention.antt =====
-- internal/storage/sql_store.go: the batched deletion of what is old. A DELETE checks no constraint,
-- and the rows of attempts follow the event that they refer to (ON DELETE CASCADE).
pub mod Sweep
pub mod Kept
use alertloop.Base.{
  ℕ, zero, suc, ◌+◌, ◌==◌, ltb, Bool, true, false, not, ◌&&◌, Option, none, some, List, [], ◌∷◌,
  any, select, if◌then◌else◌, length,
}
use alertloop.Domain.Errors.{Error, Result, ok, err}
use alertloop.Domain.Event.{Event}
use alertloop.Domain.Delivery.{DeliveryAttempt}
use alertloop.Store.Schema.{Db, has_event}
use alertloop.Store.Session.{Session, statement, autocommit}

-- At most `n` of the rows that pass the test, which the table has first, and the other rows.
unfoldable pub cut {ℓ} : {A : Type ℓ} → ℕ → (A → Bool) → List A → List A × List A
cut n p [] = ([], [])
cut zero p (x ∷ l) = ([], x ∷ l)
cut (suc n) p (x ∷ l) =
    let (removed, kept) = cut (if p x then n else suc n) p l in
    if p x then (x ∷ removed, kept) else (removed, x ∷ kept)

abbrev pub batch : ℕ
batch = 1000

-- COALESCE(resolved_at, last_seen_at)
ended_at : Event → ℕ
ended_at e = elim e.resolved_at [ none ↦ e.last_seen_at | some t ↦ t ]

unfoldable pub outdated : ℕ → Event → Bool
unfolding ended_at
outdated cutoff e = ltb (ended_at e) cutoff

-- whether the event of an attempt is among some rows
unfoldable pub refers_to : List Event → DeliveryAttempt → Bool
unfolding any
refers_to l a = any (λ e. e.id == a.event_id) l

unfoldable pub delete_events : ℕ → ℕ → Db → ℕ × Db
unfolding cut outdated refers_to select
delete_events n cutoff d =
    let (removed, kept) = cut n (outdated cutoff) d.events in
    (
      length removed,
      record d { events = kept; attempts = select (λ a. not (refers_to removed a)) d.attempts },
    )

unfoldable pub orphan : ℕ → Db → DeliveryAttempt → Bool
unfolding has_event
orphan cutoff d a = ltb a.created_at cutoff && not (has_event d a.event_id)

unfoldable pub delete_orphans : ℕ → ℕ → Db → ℕ × Db
unfolding cut orphan
delete_orphans n cutoff d =
    let (removed, kept) = cut n (orphan cutoff d) d.attempts in
    (length removed, record d { attempts = kept })

-- What a sweep answers: how many rows went, and the error. `none` is a sweep that is out of fuel.
abbrev pub Answer : Type 0
Answer = Option (ℕ × Option Error)

-- one statement, for itself
unfoldable pub delete_batch : (Db → ℕ × Db) → Session → Result ℕ × Session
unfolding statement autocommit
delete_batch f = autocommit (statement (λ d. (ok (f d).0, (f d).1)))

-- `done` is whether the context is over, at each time that it is asked.
module _ (f : Db → ℕ × Db) (done : ℕ → Bool) where
  -- after a statement
  unfoldable pub after_batch :
      (ℕ → Session → Answer × Session) → ℕ → ℕ → Result ℕ × Session → Answer × Session
  after_batch rest k total (err e, s) = (some (total, some e), s)
  after_batch rest k total (ok n, s) =
      if ltb n batch
      then (some (total + n, none), s)
      else if done k
      then (some (total + n, none), s)
      else rest (total + n) s

  unfoldable pub sweep : ℕ → ℕ → ℕ → Session → Answer × Session
  unfolding after_batch delete_batch
  sweep zero k total s = (none, s)
  sweep (suc fuel) k total s =
      if done k
      then (some (total, none), s)
      else after_batch (sweep fuel (suc (suc k))) (suc k) total (delete_batch f s)

unfoldable pub delete_events_before : ℕ → (ℕ → Bool) → ℕ → Session → Answer × Session
unfolding sweep delete_events
delete_events_before cutoff done fuel = sweep (delete_events batch cutoff) done fuel 0 0

unfoldable pub delete_delivery_attempts_before : ℕ → (ℕ → Bool) → ℕ → Session → Answer × Session
unfolding sweep delete_orphans
delete_delivery_attempts_before cutoff done fuel = sweep (delete_orphans batch cutoff) done fuel 0 0
