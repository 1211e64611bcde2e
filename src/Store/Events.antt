-- ===== src/Store/Events.antt =====
-- internal/storage/sql_store.go: reading and creating events.
pub mod Inserts
pub mod Create
use alertloop.Base.{
  ℕ, Bool, true, false, Option, none, some, List, [], ◌∷◌, find, select, Text, text_eq, is_empty,
  if◌then◌else◌,
}
use alertloop.Domain.Errors.{Result, ok, err, not_found, unique_violation, database}
use alertloop.Domain.Event.{Event}
use alertloop.Domain.Delivery.{DeliveryAttempt}
use alertloop.Store.Session.{M, pure, raise, ◌>>=◌, ◌>>◌, try, write, read, autocommit, transaction}
use alertloop.Store.Rows.{event_row, delivery_row, event_by_id, open_with_key, newest}

unfoldable pub found : Option Event → Result Event
found none = err not_found
found (some e) = ok e

unfoldable pub get_event : ℕ → M Event
unfolding found event_by_id
get_event id = autocommit (read (λ d. found (event_by_id id d)))

-- the unexported eventByDedupe: the open incident with the key
unfoldable pub open_by_dedupe : Text → M Event
unfolding found open_with_key find
open_by_dedupe key = autocommit (read (λ d. found (find (open_with_key key) d.events)))

unfoldable pub latest_by_dedupe : Text → M Event
unfolding found newest select
latest_by_dedupe key =
    autocommit (read (λ d. found (newest (select (λ e. text_eq e.dedupe_key key) d.events))))

unfoldable pub after_open : Text → Result Event → M Event
after_open key (ok e) = pure e
after_open key (err not_found) = latest_by_dedupe key
after_open key (err x) = raise x

unfoldable pub event_by_dedupe : Text → M Event
unfolding after_open
event_by_dedupe key =
    if is_empty key then raise not_found else do r ← try (open_by_dedupe key); after_open key r

unfoldable pub insert_event : Event → M (Unit {0})
unfolding event_row
insert_event e = write (λ d. (tt, record d { events = event_row e ∷ d.events }))

-- Its callers only pass a failure on, so a broken constraint is one more database error.
unfoldable pub insert_delivery : DeliveryAttempt → M (Unit {0})
unfolding delivery_row
insert_delivery a = do
  r ← try (write (λ d. (tt, record d { attempts = delivery_row a ∷ d.attempts })))
  elim r [ ok _ ↦ pure tt | err _ ↦ raise database ]

unfoldable pub insert_deliveries : List DeliveryAttempt → M (Unit {0})
insert_deliveries [] = pure tt
insert_deliveries (a ∷ rest) = do insert_delivery a; insert_deliveries rest

-- the fast path: no transaction for a key that an open incident carries
unfoldable pub known : Event → M (Option Event)
known e = if is_empty e.dedupe_key then pure none else do
  r ← try (open_by_dedupe e.dedupe_key)
  elim r [ ok found ↦ pure (some found) | err not_found ↦ pure none | err x ↦ raise x ]

-- a concurrent insert with the same key can race the fast path
unfoldable pub after_insert : Event → Result (Unit {0}) → M (Event × Bool)
after_insert e (ok _) = pure (e, true)
after_insert e (err unique_violation) = if is_empty e.dedupe_key then raise unique_violation else do
  r ← try (open_by_dedupe e.dedupe_key)
  elim r [ ok existing ↦ pure (existing, false) | err _ ↦ raise unique_violation ]
after_insert e (err x) = raise x

unfoldable pub insert_all : Event → List DeliveryAttempt → M (Unit {0})
unfolding insert_event insert_deliveries
insert_all e deliveries = transaction (do insert_event e; insert_deliveries deliveries)

-- what follows the fast path
unfoldable pub store_new : Event → List DeliveryAttempt → Option Event → M (Event × Bool)
unfolding insert_all after_insert
store_new e deliveries (some existing) = pure (existing, false)
store_new e deliveries none = do r ← try (insert_all e deliveries); after_insert e r

unfoldable pub create_event_with_deliveries : Event → List DeliveryAttempt → M (Event × Bool)
unfolding known store_new
create_event_with_deliveries e deliveries = do hit ← known e; store_new e deliveries hit
