-- ===== src/Service/Ingest.antt =====
-- internal/service/ingest.go: IngestFor, from a request to the stored event and its alerts.
pub mod Unchanged
use alertloop.Base.{
  ℕ, ltb, Bool, true, not, ◌&&◌, Option, none, some, List, [], ◌∷◌, Text, is_empty, if◌then◌else◌,
}
use alertloop.Domain.Errors.{Result, ok, err, not_found, source_not_allowed}
use alertloop.Domain.Event.{Event, EventState, new, is_incident}
use alertloop.Domain.Severity.{severity_rank}
use alertloop.Domain.Delivery.{DeliveryAttempt, DeliveryKind, ChannelTarget, pending}
use alertloop.Strings.{trim_space}
use alertloop.Routing.Router.{Router, route}
use alertloop.Store.Rows.{contains}
use alertloop.Store.Session.{M, pure, raise, ◌>>=◌, ◌>>◌, try, new_uuid, now}
use alertloop.Store.Events.{create_event_with_deliveries, event_by_dedupe}
use alertloop.Store.Refresh.{refresh_open_event}
use alertloop.Service.Transition.{RecoveryNotifier, max_transition_tries, transition}
use alertloop.Service.Input.{EventInput, is_firing, is_resolving, validate_input, normalize_payload}

pub data IngestOutcome : Type 0 where
  created deduplicated refreshed resolved already_resolved nothing_to_resolve : IngestOutcome

pub record IngestResult : Type 0 where
  pub event : Option Event
  pub outcome : IngestOutcome

pub record IngestService : Type 0 where
  pub router : Router
  pub max_attempts : ℕ
  pub recovery : RecoveryNotifier

unfoldable pub new_delivery : ℕ → ℕ → ℕ → ChannelTarget → ℕ → DeliveryAttempt
new_delivery id event_id max_attempts t at = record {
  id = id;
  event_id = event_id;
  channel = t.channel;
  channel_name = t.name;
  kind = DeliveryKind.unset;
  state = pending;
  attempts = 0;
  max_attempts = max_attempts;
  next_retry_at = none;
  last_error = [];
  created_at = at;
  updated_at = at;
  fallback_of = none;
  recovery_for = none;
}

unfoldable pub build_deliveries : ℕ → ℕ → List ChannelTarget → ℕ → M (List DeliveryAttempt)
unfolding new_delivery
build_deliveries max_attempts event_id [] at = pure []
build_deliveries max_attempts event_id (t ∷ l) at = do
  id ← new_uuid
  rest ← build_deliveries max_attempts event_id l at
  pure (new_delivery id event_id max_attempts t at ∷ rest)

-- whether a caller limited to `allowed` may touch a source; nil allows every source
unfoldable pub may_report : Option (List Text) → Text → Bool
unfolding contains
may_report none source = true
may_report (some l) source = contains l source

check_owner : Event → Option (List Text) → M (Unit {0})
unfolding may_report
check_owner e allowed = if may_report allowed e.source then pure tt else raise source_not_allowed

-- the two ends of resolve: Retention may have removed the incident before the close
close_outcome : Result (Event × Bool) → M IngestResult
close_outcome (ok (e, closed)) =
    pure (record { event = some e; outcome = if closed then resolved else already_resolved })
close_outcome (err not_found) = pure (record { event = none; outcome = nothing_to_resolve })
close_outcome (err x) = raise x

-- what follows the lookup of the key
after_lookup : RecoveryNotifier → Option (List Text) → ℕ → Result Event → M IngestResult
unfolding check_owner close_outcome transition
after_lookup rec allowed at (err not_found) =
    pure (record { event = none; outcome = nothing_to_resolve })
after_lookup rec allowed at (err x) = raise x
after_lookup rec allowed at (ok e) = do
  check_owner e allowed
  closed ← try (transition max_transition_tries rec e at (λ _. ok EventState.resolved))
  close_outcome closed

unfoldable pub resolve : RecoveryNotifier → Text → Option (List Text) → ℕ → M IngestResult
unfolding after_lookup event_by_dedupe
resolve rec key allowed at = do r ← try (event_by_dedupe key); after_lookup rec allowed at r

abbrev pub event_of : ℕ → EventInput → ℕ → Event
event_of id i at = record {
  id = id;
  event_type = i.event_type;
  severity = i.severity;
  state = new;
  source = trim_space i.source;
  category = trim_space i.category;
  message = trim_space i.message;
  entity_type = trim_space i.entity_type;
  entity_id = trim_space i.entity_id;
  trace_id = trim_space i.trace_id;
  dedupe_key = trim_space i.dedupe_key;
  payload = normalize_payload i.payload;
  created_at = at;
  updated_at = at;
  last_seen_at = at;
  resolved_at = none;
}

module _ (table : ℕ → ℕ) (svc : IngestService) where
  unfoldable pub refresh : Event → Event → ℕ → M Event
  unfolding route build_deliveries severity_rank is_incident refresh_open_event
  refresh stored report at = do
    alerts ←
        (if is_incident stored.event_type
            && ltb (severity_rank stored.severity) (severity_rank report.severity)
          then build_deliveries svc.max_attempts stored.id
              (route table svc.router (record stored { severity = report.severity })).channels at
          else pure [])
    refresh_open_event stored.id (record {
      severity = report.severity;
      message = report.message;
      payload = report.payload;
      last_seen_at = at;
      alerts_on_rise = alerts;
    })

  -- the incident was resolved between the lookup and the update: one more create
  retry : Event → Option (List Text) → ℕ → M IngestResult
  unfolding create_event_with_deliveries build_deliveries check_owner route
  retry e allowed at = do
    id ← new_uuid
    deliveries ← build_deliveries svc.max_attempts id (route table svc.router e).channels at
    r ← create_event_with_deliveries (record e { id = id }) deliveries
    if r.1 then pure (record { event = some r.0; outcome = created }) else (do
      check_owner r.0 allowed
      pure (record { event = some r.0; outcome = deduplicated }))

  after_refresh : Event → Option (List Text) → ℕ → Result Event → M IngestResult
  unfolding retry
  after_refresh e allowed at (ok r) = pure (record { event = some r; outcome = refreshed })
  after_refresh e allowed at (err not_found) = retry e allowed at
  after_refresh e allowed at (err x) = raise x

  -- a report whose key found a stored event
  repeated : EventInput → Event → Event → Option (List Text) → ℕ → M IngestResult
  unfolding check_owner refresh after_refresh is_firing
  repeated i stored e allowed at = do
    check_owner stored allowed
    if is_firing i.status
        then (do r ← try (refresh stored e at); after_refresh e allowed at r)
        else pure (record { event = some stored; outcome = deduplicated })

  unfoldable pub store_report : EventInput → Option (List Text) → ℕ → M IngestResult
  unfolding route build_deliveries create_event_with_deliveries repeated normalize_payload
      trim_space
  store_report i allowed at = do
    id ← new_uuid
    let e = event_of id i at
    deliveries ← build_deliveries svc.max_attempts id (route table svc.router e).channels at
    r ← create_event_with_deliveries e deliveries
    if r.1
        then pure (record { event = some r.0; outcome = created })
        else repeated i r.0 e allowed at

  -- what follows the validation
  after_validation : Option (List Text) → Result EventInput → M IngestResult
  unfolding resolve store_report may_report trim_space is_empty is_resolving
  after_validation allowed (err x) = raise x
  after_validation allowed (ok i) =
      if not (is_empty (trim_space i.source)) && not (may_report allowed (trim_space i.source))
      then raise source_not_allowed
      else do
        at ← now
        if is_resolving i.status
            then resolve svc.recovery (trim_space i.dedupe_key) allowed at
            else store_report i allowed at

  module _ (json_valid : Text → Bool) (byte_length : Text → ℕ) where
    unfoldable pub ingest_for : EventInput → Option (List Text) → M IngestResult
    unfolding validate_input after_validation
    ingest_for input allowed =
        after_validation allowed (validate_input json_valid byte_length input)
