-- ===== src/Store/Monitoring.antt =====
-- internal/storage/sql_store.go: the counts, the signals of Monitoring and the tick of the workers.
-- The row of worker_heartbeat, which the other tables do not refer to, is a value of its own.
pub mod Claims
use alertloop.Base.{
  ℕ, ◌+◌, ltb, leb, Bool, true, false, not, ◌&&◌, Option, none, some, List, [], ◌∷◌, Text, text_eq,
  count, if◌then◌else◌, map,
}
use alertloop.Domain.Errors.{ok}
use alertloop.Domain.Event.{Event, is_incident, is_resolved}
use alertloop.Domain.Delivery.{DeliveryAttempt, is_dead_letter}
use alertloop.Store.Schema.{Db}
use alertloop.Store.Session.{M, read, autocommit, ◌>>=◌, pure}
use alertloop.Store.Rows.{deliverable}
use alertloop.Store.Listing.{state_text, delivery_state_text}

-- GROUP BY of texts: each with how often it stands
add_one : Text → List (Text × ℕ) → List (Text × ℕ)
unfolding text_eq
add_one k [] = (k, 1) ∷ []
add_one k ((j, n) ∷ l) = if text_eq j k then (j, n + 1) ∷ l else (j, n) ∷ add_one k l

unfoldable pub grouped : List Text → List (Text × ℕ)
unfolding add_one
grouped [] = []
grouped (k ∷ l) = add_one k (grouped l)

-- countByColumn
unfoldable pub count_by_column : (Db → List Text) → M (List (Text × ℕ))
unfolding grouped
count_by_column column = autocommit (read (λ d. ok (grouped (column d))))

unfoldable pub count_events_by_state : M (List (Text × ℕ))
unfolding count_by_column state_text
count_events_by_state = count_by_column (λ d. map (λ (e : Event). state_text e.state) d.events)

unfoldable pub count_deliveries_by_state : M (List (Text × ℕ))
unfolding count_by_column delivery_state_text
count_deliveries_by_state =
    count_by_column (λ d. map (λ (a : DeliveryAttempt). delivery_state_text a.state) d.attempts)

pub record Signals : Type 0 where
  pub open_incidents : ℕ
  pub oldest_due_since : Option ℕ
  pub dead_letters : ℕ
  pub last_worker_tick : Option ℕ

-- COALESCE(c.next_retry_at, c.created_at)
unfoldable pub due_since : DeliveryAttempt → ℕ
due_since a = elim a.next_retry_at [ none ↦ a.created_at | some t ↦ t ]

earlier_of : ℕ → Option ℕ → ℕ
earlier_of t none = t
earlier_of t (some u) = if ltb u t then u else t

-- MIN over the rows that are deliverable
unfoldable pub oldest_due : ℕ → List DeliveryAttempt → List DeliveryAttempt → Option ℕ
unfolding deliverable due_since earlier_of
oldest_due now all [] = none
oldest_due now all (a ∷ l) =
    let rest = oldest_due now all l in
    if deliverable now all a then some (earlier_of (due_since a) rest) else rest

open_incident : Event → Bool
unfolding is_incident is_resolved
open_incident e = is_incident e.event_type && not (is_resolved e.state)

recent_dead_letter : ℕ → DeliveryAttempt → Bool
unfolding is_dead_letter
recent_dead_letter since a = is_dead_letter a.state && leb since a.updated_at

unfoldable pub signals : Option ℕ → ℕ → ℕ → Db → Signals
unfolding open_incident oldest_due recent_dead_letter count
signals heartbeat now since d = record {
  open_incidents = count open_incident d.events;
  oldest_due_since = oldest_due now d.attempts d.attempts;
  dead_letters = count (recent_dead_letter since) d.attempts;
  last_worker_tick = heartbeat;
}

unfoldable pub monitoring : Option ℕ → ℕ → ℕ → M Signals
unfolding signals
monitoring heartbeat now since = autocommit (read (λ d. ok (signals heartbeat now since d)))

-- The row of the heartbeat after a tick.
unfoldable pub record_worker_tick : ℕ → Option ℕ → Option ℕ
record_worker_tick at none = some at
record_worker_tick at (some t) = if ltb t at then some at else some t
