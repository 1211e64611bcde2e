-- ===== src/Service/Ingest/Unchanged.antt =====
-- internal/service/ingest.go: a report that fails leaves nothing behind.
use alertloop.Base.{ℕ, Bool, true, false, ◌≡◌, refl, Option, List, [], ◌∷◌, Text, if◌then◌else◌, ap}
use alertloop.Domain.Errors.{Error, Result, ok, err, not_found, source_not_allowed}
use alertloop.Domain.Event.{Event, EventState}
use alertloop.Domain.Delivery.{DeliveryAttempt, ChannelTarget}
use alertloop.Strings.{trim_space}
use alertloop.Store.Session.{M, Session, pure, ◌>>=◌, try}
use alertloop.Store.Session.Spares.{
  Untouched, Spares, is_err, any_result, as_value, pure-Spares, raise-Spares, if-Spares,
  new_uuid-Spares, now-Spares, bind-Spares, then-Spares, try-Spares, try_any-Spares,
}
use alertloop.Store.Events.{create_event_with_deliveries}
use alertloop.Store.Spared.{
  refresh_open_event-Spares, event_by_dedupe-Spares, stored_none, create-Spares,
}
use alertloop.Service.Transition.Spared.{transition-Spares}
use alertloop.Service.Transition.{RecoveryNotifier, max_transition_tries}
use alertloop.Service.Input.{EventInput, validate_input, is_resolving, is_firing}
use alertloop.Service.Ingest.{
  IngestService, IngestResult, build_deliveries, check_owner, close_outcome, resolve, event_of,
  refresh, retry, after_refresh, repeated, store_report, ingest_for, after_lookup, after_validation,
}

check_owner-Spares :
    (e : Event) (allowed : Option (List Text)) → Spares any_result (check_owner e allowed)
unfolding check_owner
check_owner-Spares e allowed =
    if-Spares any_result _ _ _ (pure-Spares any_result tt)
      (raise-Spares any_result source_not_allowed)

close-Spares : (m : M (Event × Bool)) → Spares is_err m → Spares is_err (try m >>= close_outcome)
close-Spares m u =
    bind-Spares _ _ (as_value is_err) is_err (try-Spares is_err m u) (λ x q. refl) second other
  where
    second : (r : Result (Event × Bool)) → is_err r ≡ true → Spares is_err (close_outcome r)
    second (ok a) p = cc
    second (err not_found) p = unfold close_outcome in pure-Spares is_err _
    second (err x) p = unfold close_outcome in raise-Spares is_err x

    other :
        (r : Result (Event × Bool))
        → is_err r ≡ false
        → (t : Session) → is_err (close_outcome r t).0 ≡ false
    other (ok a) p t = unfold close_outcome in unfold pure in refl
    other (err x) p t = cc

after_lookup-Spares :
    (rec : RecoveryNotifier) (allowed : Option (List Text)) (at : ℕ) (r : Result Event)
    → Spares is_err (after_lookup rec allowed at r)
unfolding after_lookup
after_lookup-Spares rec allowed at (err not_found) = pure-Spares is_err _
after_lookup-Spares rec allowed at (err x) = raise-Spares is_err x
after_lookup-Spares rec allowed at (ok e) =
    then-Spares _ _ is_err (check_owner-Spares e allowed) (λ _.
      close-Spares _
        (transition-Spares max_transition_tries rec e at (λ _. ok EventState.resolved)))

resolve-Spares :
    (rec : RecoveryNotifier) (key : Text) (allowed : Option (List Text)) (at : ℕ)
    → Spares is_err (resolve rec key allowed at)
unfolding resolve
resolve-Spares rec key allowed at =
    then-Spares _ _ is_err (try_any-Spares _ (event_by_dedupe-Spares key))
      (after_lookup-Spares rec allowed at)

build_deliveries-Spares :
    (n id : ℕ) (l : List ChannelTarget) (at : ℕ) → Spares any_result (build_deliveries n id l at)
unfolding build_deliveries
build_deliveries-Spares n id [] at = pure-Spares any_result []
build_deliveries-Spares n id (t ∷ l) at = then-Spares _ _ any_result new_uuid-Spares (λ i.
    then-Spares _ _ any_result (build_deliveries-Spares n id l at)
      (λ rest. pure-Spares any_result _))

module _ (table : ℕ → ℕ) (svc : IngestService) where
  refresh-Spares :
      (stored report : Event) (at : ℕ) → Spares is_err (refresh table svc stored report at)
  unfolding refresh
  refresh-Spares stored report at =
      then-Spares _ _ is_err
        (if-Spares any_result _ _ _ (build_deliveries-Spares _ _ _ at) (pure-Spares any_result []))
        (λ alerts. refresh_open_event-Spares stored.id _)

  -- a create, after which nothing fails if it stored the event
  create_then-Spares :
      (e : Event) (l : List DeliveryAttempt) (new known : Event × Bool → M IngestResult)
      → ((r : Event × Bool) (t : Session) → is_err (new r t).0 ≡ false)
      → ((r : Event × Bool) → Spares is_err (known r))
      → Spares is_err (create_event_with_deliveries e l >>= λ r. if r.1 then new r else known r)
  create_then-Spares e l new known fine u =
      bind-Spares _ _ stored_none is_err (create-Spares e l) (λ x q. refl) second other
    where
      second :
          (r : Event × Bool)
          → stored_none (ok r) ≡ true
          → Spares is_err (if r.1 then new r else known r)
      second (f, true) p = cc
      second (f, false) p = u (f, false)

      other :
          (r : Event × Bool)
          → stored_none (ok r) ≡ false
          → (t : Session) → is_err ((if r.1 then new r else known r) t).0 ≡ false
      other (f, true) p t = fine (f, true) t
      other (f, false) p t = cc

  fine_pure : (r : IngestResult) (t : Session) → is_err (pure r t).0 ≡ false
  unfolding pure
  fine_pure r t = refl

  retry-Spares :
      (e : Event) (allowed : Option (List Text)) (at : ℕ)
      → Spares is_err (retry table svc e allowed at)
  unfolding retry
  retry-Spares e allowed at = then-Spares _ _ is_err new_uuid-Spares (λ id.
      then-Spares _ _ is_err (build_deliveries-Spares _ _ _ at) (λ l.
        create_then-Spares (record e { id = id }) l _ _ (λ r t. fine_pure _ t)
          (λ r.
            then-Spares _ _ is_err (check_owner-Spares r.0 allowed) (λ _. pure-Spares is_err _))))

  after_refresh-Spares :
      (e : Event) (allowed : Option (List Text)) (at : ℕ) (x : Error)
      → Spares is_err (after_refresh table svc e allowed at (err x))
  unfolding after_refresh
  after_refresh-Spares e allowed at not_found = retry-Spares e allowed at
  after_refresh-Spares e allowed at x = raise-Spares is_err x

  refreshed-Spares :
      (m : M Event) (e : Event) (allowed : Option (List Text)) (at : ℕ)
      → Spares is_err m
      → Spares is_err (try m >>= after_refresh table svc e allowed at)
  refreshed-Spares m e allowed at u =
      bind-Spares _ _ (as_value is_err) is_err (try-Spares is_err m u) (λ x q. refl) second other
    where
      second :
          (r : Result Event)
          → is_err r ≡ true
          → Spares is_err (after_refresh table svc e allowed at r)
      second (ok a) p = cc
      second (err x) p = after_refresh-Spares e allowed at x

      other :
          (r : Result Event)
          → is_err r ≡ false
          → (t : Session) → is_err (after_refresh table svc e allowed at r t).0 ≡ false
      other (ok a) p t = unfold after_refresh in fine_pure _ t
      other (err x) p t = cc

  repeated-Spares :
      (i : EventInput) (stored e : Event) (allowed : Option (List Text)) (at : ℕ)
      → Spares is_err (repeated table svc i stored e allowed at)
  unfolding repeated
  repeated-Spares i stored e allowed at =
      then-Spares _ _ is_err (check_owner-Spares stored allowed) (λ _.
        if-Spares is_err (is_firing i.status) _ _
          (refreshed-Spares _ e allowed at (refresh-Spares stored e at)) (pure-Spares is_err _))

  store_report-Spares :
      (i : EventInput) (allowed : Option (List Text)) (at : ℕ)
      → Spares is_err (store_report table svc i allowed at)
  unfolding store_report
  store_report-Spares i allowed at = then-Spares _ _ is_err new_uuid-Spares (λ id.
      then-Spares _ _ is_err (build_deliveries-Spares _ _ _ at) (λ l.
        create_then-Spares (event_of id i at) l _ _ (λ r t. fine_pure _ t)
          (λ r. repeated-Spares i r.0 (event_of id i at) allowed at)))

  after_validation-Spares :
      (allowed : Option (List Text)) (r : Result EventInput)
      → Spares is_err (after_validation table svc allowed r)
  unfolding after_validation
  after_validation-Spares allowed (err x) = raise-Spares is_err x
  after_validation-Spares allowed (ok i) =
      if-Spares is_err _ _ _ (raise-Spares is_err source_not_allowed) (
        then-Spares _ _ is_err now-Spares (λ at.
          if-Spares is_err (is_resolving i.status) _ _
            (resolve-Spares svc.recovery (trim_space i.dedupe_key) allowed at)
            (store_report-Spares i allowed at)))

  pub ingest_for-err :
      (json_valid : Text → Bool) (byte_length : Text → ℕ) (input : EventInput)
      (allowed : Option (List Text)) (s : Session) (x : Error)
      → (ingest_for table svc json_valid byte_length input allowed s).0 ≡ err x
      → Untouched s (ingest_for table svc json_valid byte_length input allowed s).1
  unfolding ingest_for
  ingest_for-err json_valid byte_length input allowed s x h =
      after_validation-Spares allowed (validate_input json_valid byte_length input) s (ap is_err h)
