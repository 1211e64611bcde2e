-- ===== src/Store/Spared.antt =====
-- internal/storage/sql_store.go: what the operations on events leave alone, when nobody else writes.
use alertloop.Base.{
  ℕ, Bool, true, false, not, ◌≡◌, refl, Option, none, some, List, [], ◌∷◌, Text, is_empty,
  if◌then◌else◌, Bool-cases, inl, inr,
}
use alertloop.Domain.Errors.{Error, Result, ok, err, unique_violation, not_found}
use alertloop.Domain.Event.{Event}
use alertloop.Domain.Delivery.{DeliveryAttempt}
use alertloop.Store.Schema.{Db}
use alertloop.Store.Session.{M, Session, pure, raise, try, read, statement, new_uuid, write}
use alertloop.Store.Session.Spares.{
  KeepsOthers, Spares, is_err, any_result, as_value, pure-Spares, raise-Spares, if-Spares,
  read-Spares, weaken-Spares, bind-others, bind-Spares, then-Spares, transaction-Spares, try-Spares,
  try_any-Spares,
}
use alertloop.Store.Events.{
  get_event, open_by_dedupe, latest_by_dedupe, after_open, event_by_dedupe, insert_event,
  insert_delivery, insert_deliveries, known, after_insert, insert_all, store_new,
  create_event_with_deliveries,
}
use alertloop.Store.Transition.{
  StateChange, update_state, cancel_waiting, alerts_to_recover, insert_recoveries, cancel_alerts_of,
  queue_recoveries, change_attempts, change_rows, transition_event,
}
use alertloop.Store.Refresh.{
  EventUpdate, insert_missing_alerts, missing_alerts, or_raise, read_open, write_refresh,
  alert_rise, refresh_row, refresh_open_event,
}

pure-others : {A : Type 0} (a : A) → KeepsOthers (pure a)
unfolding pure
pure-others a s = refl

raise-others : (A : Type 0) (x : Error) → KeepsOthers {A = A} (raise x)
unfolding raise
raise-others A x s = refl

read-others : {A : Type 0} (f : Db → Result A) → KeepsOthers (read f)
unfolding read statement
read-others f s = elim (Bool-cases (s.faults 0)) [ inl e ↦ rw e refl | inr e ↦ rw e refl ]

write-others : {A : Type 0} (f : Db → A × Db) → KeepsOthers (write f)
unfolding write statement
write-others f s = elim (Bool-cases (s.faults 0)) [ inl e ↦ rw e refl | inr e ↦ rw e refl ]

if-others :
    {A : Type 0} (b : Bool) (m k : M A)
    → KeepsOthers m
    → KeepsOthers k
    → KeepsOthers (if b then m else k)
if-others true m k u v = u
if-others false m k u v = v

try-others : {A : Type 0} (m : M A) → KeepsOthers m → KeepsOthers (try m)
unfolding try
try-others m u s = u s

new_uuid-others : KeepsOthers new_uuid
unfolding new_uuid
new_uuid-others s = refl

insert_delivery-others : (a : DeliveryAttempt) → KeepsOthers (insert_delivery a)
unfolding insert_delivery
insert_delivery-others a = bind-others _ _ (try-others _ (write-others _)) after
  where
    after :
        (r : Result (Unit {0}))
        → KeepsOthers
            (elim r as (λ _. M (Unit {0})) [ ok _ ↦ pure tt | err _ ↦ raise Error.database ])
    after (ok u) = pure-others tt
    after (err x) = raise-others (Unit {0}) Error.database

insert_deliveries-others : (l : List DeliveryAttempt) → KeepsOthers (insert_deliveries l)
unfolding insert_deliveries
insert_deliveries-others [] = pure-others tt
insert_deliveries-others (a ∷ l) =
    bind-others _ _ (insert_delivery-others a) (λ _. insert_deliveries-others l)

update_state-others : (id : ℕ) (c : StateChange) → KeepsOthers (update_state id c)
unfolding update_state
update_state-others id c = bind-others _ _ (write-others _) after
  where
    after :
        (row : Option Event)
        → KeepsOthers
            (elim row as (λ _. M Event) [ none ↦ raise Error.state_changed | some e ↦ pure e ])
    after none = raise-others Event Error.state_changed
    after (some e) = pure-others e

insert_recoveries-others :
    (n at : ℕ) (l : List DeliveryAttempt) → KeepsOthers (insert_recoveries n at l)
unfolding insert_recoveries
insert_recoveries-others n at [] = pure-others tt
insert_recoveries-others n at (a ∷ l) =
    bind-others _ _ new_uuid-others
      (λ id. bind-others _ _ (insert_delivery-others _) (λ _. insert_recoveries-others n at l))

cancel_alerts_of-others : (id : ℕ) (c : StateChange) → KeepsOthers (cancel_alerts_of id c)
unfolding cancel_alerts_of cancel_waiting
cancel_alerts_of-others id c = if-others c.cancel_alerts _ _ (write-others _) (pure-others tt)

queue_recoveries-others : (id : ℕ) (c : StateChange) → KeepsOthers (queue_recoveries id c)
unfolding queue_recoveries alerts_to_recover
queue_recoveries-others id c =
    if-others _ _ _
      (bind-others _ _ (read-others _)
        (λ alerts. insert_recoveries-others c.recovery_max_attempts c.at alerts))
      (pure-others tt)

-- A transition that fails spares the tables.
pub transition_event-Spares : (id : ℕ) (c : StateChange) → Spares is_err (transition_event id c)
unfolding transition_event change_rows change_attempts
transition_event-Spares id c = transaction-Spares _ (
    bind-others _ _ (update_state-others id c) (λ e.
      bind-others _ _ (cancel_alerts_of-others id c)
        (λ _. bind-others _ _ (queue_recoveries-others id c) (λ _. pure-others e))))

or_raise-others : {A : Type 0} (x : Error) (o : Option A) → KeepsOthers (or_raise x o)
unfolding or_raise
or_raise-others {A} x none = raise-others A x
or_raise-others x (some a) = pure-others a

alert_rise-others : (id : ℕ) (u : EventUpdate) (old : Event) → KeepsOthers (alert_rise id u old)
unfolding alert_rise insert_missing_alerts
alert_rise-others id u old =
    if-others _ _ _
      (bind-others _ _ (read-others _)
        (λ has. insert_deliveries-others (missing_alerts has u.alerts_on_rise)))
      (pure-others tt)

-- A refresh that fails spares the tables.
pub refresh_open_event-Spares : (id : ℕ) (u : EventUpdate) → Spares is_err (refresh_open_event id u)
unfolding refresh_open_event refresh_row read_open write_refresh
refresh_open_event-Spares id u = transaction-Spares _ (
    bind-others _ _ (bind-others _ _ (read-others _) (or_raise-others not_found)) (λ old.
      bind-others _ _ (bind-others _ _ (write-others _) (or_raise-others Error.database))
        (λ e. bind-others _ _ (alert_rise-others id u old) (λ _. pure-others e))))

-- Reads spare them in any case.
pub get_event-Spares : (id : ℕ) → Spares any_result (get_event id)
unfolding get_event
get_event-Spares id = read-Spares any_result _

pub event_by_dedupe-Spares : (key : Text) → Spares any_result (event_by_dedupe key)
unfolding event_by_dedupe open_by_dedupe
event_by_dedupe-Spares key =
    if-Spares any_result (is_empty key) _ _ (raise-Spares any_result not_found)
      (then-Spares _ _ any_result (try_any-Spares _ (read-Spares any_result _)) after)
  where
    after : (r : Result Event) → Spares any_result (after_open key r)
    after (ok e) = unfold after_open in pure-Spares any_result e
    after (err not_found) = unfold after_open in unfold latest_by_dedupe in read-Spares any_result _
    after (err x) = unfold after_open in raise-Spares any_result x

-- whether a create stored nothing: it failed, or found the event known
abbrev pub stored_none : Result (Event × Bool) → Bool
stored_none (ok (e, new)) = not new
stored_none (err x) = true

known-Spares : (e : Event) → Spares any_result (known e)
unfolding known open_by_dedupe
known-Spares e =
    if-Spares any_result (is_empty e.dedupe_key) _ _ (pure-Spares any_result none)
      (then-Spares _ _ any_result (try_any-Spares _ (read-Spares any_result _)) after)
  where
    after :
        (r : Result Event)
        → Spares any_result (elim r as (λ _. M (Option Event)) [
          | ok found ↦ pure (some found)
          | err not_found ↦ pure none
          | err x ↦ raise x
        ])
    after (ok e) = pure-Spares any_result (some e)
    after (err not_found) = pure-Spares any_result none
    after (err x) = raise-Spares any_result x

after_insert-Spares : (e : Event) (x : Error) → Spares any_result (after_insert e (err x))
unfolding after_insert open_by_dedupe
after_insert-Spares e unique_violation =
    if-Spares any_result (is_empty e.dedupe_key) _ _ (raise-Spares any_result unique_violation)
      (then-Spares _ _ any_result (try_any-Spares _ (read-Spares any_result _)) after)
  where
    after :
        (r : Result Event)
        → Spares any_result (elim r as (λ _. M (Event × Bool)) [
          | ok existing ↦ pure (existing, false)
          | err _ ↦ raise unique_violation
        ])
    after (ok f) = pure-Spares any_result (f, false)
    after (err x) = raise-Spares any_result unique_violation
after_insert-Spares e x = raise-Spares any_result x

insert_all-Spares : (e : Event) (l : List DeliveryAttempt) → Spares is_err (insert_all e l)
unfolding insert_all insert_event
insert_all-Spares e l =
    transaction-Spares _ (bind-others _ _ (write-others _) (λ _. insert_deliveries-others l))

store_new-Spares :
    (e : Event) (l : List DeliveryAttempt) (hit : Option Event)
    → Spares stored_none (store_new e l hit)
unfolding store_new
store_new-Spares e l (some f) = pure-Spares stored_none (f, false)
store_new-Spares e l none =
    bind-Spares _ _ (as_value is_err) stored_none (try-Spares is_err _ (insert_all-Spares e l))
      (λ x q. refl) second other
  where
    second : (r : Result (Unit {0})) → is_err r ≡ true → Spares stored_none (after_insert e r)
    second (ok u) p = cc
    second (err x) p = weaken-Spares stored_none (after_insert e (err x)) (after_insert-Spares e x)

    other :
        (r : Result (Unit {0}))
        → is_err r ≡ false
        → (t : Session) → stored_none (after_insert e r t).0 ≡ false
    other (ok u) p t = unfold after_insert in unfold pure in refl
    other (err x) p t = cc

-- A create that fails, or finds the event known, spares the tables.
pub create-Spares :
    (e : Event) (l : List DeliveryAttempt) → Spares stored_none (create_event_with_deliveries e l)
unfolding create_event_with_deliveries
create-Spares e l = then-Spares _ _ stored_none (known-Spares e) (store_new-Spares e l)
