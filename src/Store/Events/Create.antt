-- ===== src/Store/Events/Create.antt =====
-- What CreateEventWithDeliveries answers and stores.
use alertloop.Store.Events.Inserts.{put_rows, insert_deliveries-ok}
use alertloop.Store.Schema.{Db}
use alertloop.Base.{
  Bool, true, false, Option, none, some, List, ◌∷◌, ◌≡◌, ◌∙◌, ap, arith, find, is_empty, Text, inl,
  inr, ◌⊎◌, sym, refl, if◌then◌else◌, find-Has,
}
use alertloop.Domain.Errors.{Result, ok, err, unique_violation}
use alertloop.Domain.Event.{Event}
use alertloop.Domain.Delivery.{DeliveryAttempt}
use alertloop.Store.Session.{
  Session, pure, raise, ◌>>=◌, try, autocommit, read, ◌>>◌, tick, turn, write,
}
use alertloop.Store.Session.Laws.{>>=-ok, ok-injective, same_result, transaction-ok}
use alertloop.Store.Rows.{open_with_key, event_row}
use alertloop.Store.Events.{
  found, open_by_dedupe, known, after_insert, store_new, insert_all, create_event_with_deliveries,
  insert_event, insert_deliveries,
}

find-holds : (p : Event → Bool) (l : List Event) (e : Event) → find p l ≡ some e → p e ≡ true
find-holds p l e h = (find-Has p l e h).1

open_by_dedupe-ok :
    (key : Text) (s : Session) (e : Event)
    → (open_by_dedupe key s).0 ≡ ok e
    → open_with_key key e ≡ true
unfolding open_by_dedupe autocommit read found
open_by_dedupe-ok key s e h =
    ground (arith, find-holds (open_with_key key) (s.others 0 s.db).events e)

known-ok :
    (e f : Event) (s : Session)
    → (known e s).0 ≡ ok (some f)
    → (is_empty e.dedupe_key ≡ false) × (open_with_key e.dedupe_key f ≡ true)
unfolding known ◌>>=◌ try pure raise
known-ok e f s h = ground (arith, open_by_dedupe-ok e.dedupe_key s f)

after_insert-known :
    (e f : Event) (r : Result (Unit {0})) (s : Session)
    → (after_insert e r s).0 ≡ ok (f, false)
    → (is_empty e.dedupe_key ≡ false) × (open_with_key e.dedupe_key f ≡ true)
unfolding after_insert ◌>>=◌ try pure raise
after_insert-known e f (ok u) s h = ground arith
after_insert-known e f (err unique_violation) s h =
    ground (arith, open_by_dedupe-ok e.dedupe_key s f)
after_insert-known e f (err _) s h = ground arith

store_new-known :
    (e f : Event) (deliveries : List DeliveryAttempt) (hit : Option Event) (s : Session)
    → (store_new e deliveries hit s).0 ≡ ok (f, false)
    → (hit ≡ some f) ⊎ ((is_empty e.dedupe_key ≡ false) × (open_with_key e.dedupe_key f ≡ true))
unfolding store_new pure
store_new-known e f deliveries (some g) s h = inl (ap some (ap (λ t. t.0) (ok-injective h)))
store_new-known e f deliveries none s h =
    let (r, first, p) = >>=-ok (try (insert_all e deliveries)) (after_insert e) s (f, false) h in
    inr (after_insert-known e f r (try (insert_all e deliveries) s).1 (same_result p h))

-- A create that reports a known event was given a dedupe key, and returns an event that was open
-- with that key.
pub create-known :
    (e f : Event) (deliveries : List DeliveryAttempt) (s : Session)
    → (create_event_with_deliveries e deliveries s).0 ≡ ok (f, false)
    → (is_empty e.dedupe_key ≡ false) × (open_with_key e.dedupe_key f ≡ true)
unfolding create_event_with_deliveries
create-known e f deliveries s h =
    let (hit, first, p) = >>=-ok (known e) (store_new e deliveries) s (f, false) h in
    elim (store_new-known e f deliveries hit (known e s).1 (same_result p h)) [
      | inl same ↦ known-ok e f s (first ∙ ap ok same)
      | inr found' ↦ found'
    ]

-- The tables with a new event and its attempts.
abbrev pub with_event : Event → List DeliveryAttempt → Db → Db
with_event e deliveries d = put_rows deliveries (record d { events = event_row e ∷ d.events })

insert_event-ok :
    (e : Event) (s : Session)
    → (insert_event e s).0 ≡ ok tt
    → (insert_event e s).1
      ≡ record (tick s) { db = record s.db { events = event_row e ∷ s.db.events } }
unfolding insert_event write
insert_event-ok e s h = ground arith

insert_all-ok :
    (e : Event) (deliveries : List DeliveryAttempt) (s : Session)
    → (insert_all e deliveries s).0 ≡ ok tt
    → (insert_all e deliveries s).1.db ≡ with_event e deliveries (s.others 0 s.db)
unfolding insert_all
insert_all-ok e deliveries s h =
    let (body, stored) = transaction-ok (insert_event e >> insert_deliveries deliveries) s tt h in
    let t = tick (turn s) in
    let (u, first, p) = >>=-ok (insert_event e) (λ _. insert_deliveries deliveries) t tt body in
    stored
    ∙ ap (λ r. r.1.db) p
    ∙ insert_deliveries-ok deliveries (insert_event e t).1 (same_result p body)
    ∙ ap (λ (x : Session). put_rows deliveries x.db) (insert_event-ok e t first)

after_insert-new :
    (e f : Event) (r : Result (Unit {0})) (s : Session)
    → (after_insert e r s).0 ≡ ok (f, true)
    → (r ≡ ok tt) × (f ≡ e) × ((after_insert e r s).1 ≡ s)
unfolding after_insert ◌>>=◌ try pure raise
after_insert-new e f (ok u) s h = (refl, ap (λ t. t.0) (sym (ok-injective h)), refl)
after_insert-new e f (err unique_violation) s h = ground arith
after_insert-new e f (err _) s h = ground arith

store_new-new :
    (e f : Event) (deliveries : List DeliveryAttempt) (hit : Option Event) (s : Session)
    → (store_new e deliveries hit s).0 ≡ ok (f, true)
    → (f ≡ e) × ((store_new e deliveries hit s).1.db ≡ with_event e deliveries (s.others 0 s.db))
unfolding store_new pure
store_new-new e f deliveries (some g) s h = ground arith
store_new-new e f deliveries none s h =
    let (r, first, p) = >>=-ok (try (insert_all e deliveries)) (after_insert e) s (f, true) h in
    let (done, same, rest) =
      after_insert-new e f r (try (insert_all e deliveries) s).1 (same_result p h) in
    let inserted : (insert_all e deliveries s).0 ≡ ok tt =
      unfold try in (ok-injective first ∙ done) in
    (
      same,
      ap (λ t. t.1.db) p
          ∙ ap (λ (x : Session). x.db) rest
          ∙ unfold try in insert_all-ok e deliveries s inserted,
    )

-- The tables on which a create opens its transaction: what the others left of those that it was
-- called on, after one more turn of theirs if a dedupe key had to be looked up first.
abbrev pub tables_found : Event → Session → Db
tables_found e s = if is_empty e.dedupe_key then s.others 0 s.db else s.others 1 (s.others 0 s.db)

known-tables_found :
    (e : Event) (s : Session) → (known e s).1.others 0 (known e s).1.db ≡ tables_found e s
unfolding known open_by_dedupe autocommit read ◌>>=◌ try pure raise
known-tables_found e s = ground arith

-- A create that reports a new event returns it as it was given, and has put its row and those of
-- its attempts, all of them, in front of the tables as its transaction found them.
pub create-stored :
    (e f : Event) (deliveries : List DeliveryAttempt) (s : Session)
    → (create_event_with_deliveries e deliveries s).0 ≡ ok (f, true)
    → (f ≡ e)
      × ((create_event_with_deliveries e deliveries s).1.db
          ≡ with_event e deliveries (tables_found e s))
unfolding create_event_with_deliveries
create-stored e f deliveries s h =
    let (hit, first, p) = >>=-ok (known e) (store_new e deliveries) s (f, true) h in
    let (same, stored) = store_new-new e f deliveries hit (known e s).1 (same_result p h) in
    (same, ap (λ t. t.1.db) p ∙ stored ∙ ap (with_event e deliveries) (known-tables_found e s))
