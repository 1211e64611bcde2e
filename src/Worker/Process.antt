-- ===== src/Worker/Process.antt =====
-- internal/delivery/worker.go: one claimed attempt, from the send to the stored outcome.
pub mod Outcome
use alertloop.Base.{
  ℕ, ◌+◌, ◌-◌, ◌++◌, is_empty, runes, leb, Bool, false, not, ◌&&◌, Option, none, some, [], Text,
  if◌then◌else◌,
}
use alertloop.Domain.Errors.{Error, ok, err}
use alertloop.Domain.Event.{Event}
use alertloop.Domain.Truncate.{truncate_runes, max_last_error_runes}
use alertloop.Domain.Delivery.{
  DeliveryAttempt, DeliveryKind, alert, pending, sent, failed, dead_letter, or_alert, is_alert,
  is_fallback,
}
use alertloop.Store.Session.{M, pure, ◌>>=◌, ◌>>◌, try, new_uuid, now}
use alertloop.Store.Events.{get_event}
use alertloop.Store.Queue.{get_delivery_attempt, requeue_stuck_sending}
use alertloop.Store.MarkResult.{mark_result}
use alertloop.Worker.Options.{Options, Registry, Channel, get, backoff}

pub record FallbackOrigin : Type 0 where
  pub channel : Text
  pub error : Text
  pub attempt : ℕ

pub record Notification : Type 0 where
  pub event : Event
  pub kind : DeliveryKind
  pub event_url : Text
  pub fallback : Option FallbackOrigin

-- An error of a send, and whether it is context.Canceled.
pub record SendError : Type 0 where
  pub text : Text
  pub canceled : Bool

-- What the worker meets: the channels' Send, the errors of the store as a send's, url.PathEscape of an
-- event's id, whether the stop has cancelled the sends by the time this one returns, and the draw of
-- rand.Float64.
pub record Surroundings : Type 0 where
  pub send : Channel → Notification → Option SendError
  pub store_error : Error → SendError
  pub escaped_id : ℕ → Text
  pub stopped : Bool
  pub draw : ℕ

module _ (opts : Options) (registry : Registry) (w : Surroundings) where
  event_url : ℕ → Text
  unfolding is_empty
  event_url id =
      if is_empty opts.public_url
      then []
      else opts.public_url ++ (runes "/admin/#/events/" ++ w.escaped_id id)

  notification : Event → DeliveryAttempt → Option FallbackOrigin → Notification
  unfolding event_url or_alert
  notification event att origin = record {
    event = event;
    kind = or_alert att.kind;
    event_url = event_url event.id;
    fallback = origin;
  }

  origin_of : DeliveryAttempt → FallbackOrigin
  origin_of src = record { channel = src.channel_name; error = src.last_error; attempt = src.id }

  unread_origin : Error → SendError
  unread_origin x = record (w.store_error x) {
    text = runes "read the attempt this fallback redirects: " ++ (w.store_error x).text;
  }

  -- what is sent once the event is read
  send_event : Channel → DeliveryAttempt → Event → Option ℕ → M (Option SendError)
  unfolding notification unread_origin origin_of get_delivery_attempt
  send_event ch att event none = pure (w.send ch (notification event att none))
  send_event ch att event (some source) = do
    r ← try (get_delivery_attempt source)
    elim r [
      | err x ↦ pure (some (unread_origin x))
      | ok src ↦ pure (w.send ch (notification event att (some (origin_of src))))
    ]

  no_channel : Text → SendError
  no_channel name = record {
    text = runes "no channel configured with name " ++ name;
    canceled = false;
  }

  -- `none` is a nil error
  unfoldable pub deliver : DeliveryAttempt → M (Option SendError)
  unfolding no_channel send_event get get_event
  deliver att = elim (get registry att.channel_name) [
    | none ↦ pure (some (no_channel att.channel_name))
    | some ch ↦ do
      r ← try (get_event att.event_id)
      elim r [
        | err x ↦ pure (some (w.store_error x))
        | ok event ↦ send_event ch att event att.fallback_of
      ]
  ]

  -- Whatever MarkResult answers is logged, and the worker goes on.
  unfoldable pub save : DeliveryAttempt → Option DeliveryAttempt → M (Unit {0})
  unfolding mark_result
  save att fallback = do
    at ← now
    try (mark_result (record att { updated_at = at }) fallback)
    pure tt

  unfoldable pub fallback_for : DeliveryAttempt → M (Option DeliveryAttempt)
  unfolding is_alert or_alert is_fallback get
  fallback_for att =
      if not (is_alert (or_alert att.kind))
      then pure none
      else if is_fallback att
      then pure none
      else elim (get registry (opts.fallbacks att.channel_name)) [
        | none ↦ pure none
        | some ch ↦ do
          at ← now
          id ← new_uuid
          pure (
              some (record {
                id = id;
                event_id = att.event_id;
                channel = ch.target.channel;
                channel_name = ch.target.name;
                kind = alert;
                state = pending;
                attempts = 0;
                max_attempts = att.max_attempts;
                next_retry_at = none;
                last_error = [];
                created_at = at;
                updated_at = at;
                fallback_of = none;
                recovery_for = none;
              }))
      ]

  -- the outcome of a send as the attempt to store, and the fallback that goes with it
  unfoldable pub outcome :
      DeliveryAttempt → Option SendError → M (DeliveryAttempt × Option DeliveryAttempt)
  unfolding fallback_for
  outcome att none = pure (
    record att { attempts = att.attempts + 1; state = sent; next_retry_at = none; last_error = [] },
    none,
  )
  outcome att (some e) =
      if w.stopped && e.canceled
      then pure (record att { state = pending }, none)
      else (let counted = record att {
        attempts = att.attempts + 1;
        last_error = truncate_runes e.text max_last_error_runes;
      } in
          if leb att.max_attempts counted.attempts
          then (let lost = record counted { state = dead_letter; next_retry_at = none } in
              do f ← fallback_for lost; pure (lost, f))
          else (do
            at ← now
            pure (
              record counted {
                state = failed;
                next_retry_at = some (at + backoff opts counted.attempts w.draw);
              },
              none,
            )))

  unfoldable pub process : DeliveryAttempt → M (Unit {0})
  unfolding deliver outcome save
  process att = do
    e ← deliver (record att { attempts = att.attempts + 1 })
    (result, fallback) ← outcome att e
    save result fallback

  -- A failure of the reaper is logged.
  unfoldable pub reap : M (Unit {0})
  unfolding requeue_stuck_sending
  reap = do at ← now; try (requeue_stuck_sending (at - opts.stale_after)); pure tt
