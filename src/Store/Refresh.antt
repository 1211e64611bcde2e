-- ===== src/Store/Refresh.antt =====
-- internal/storage/sql_store.go: RefreshOpenEvent, a repeated `firing`.
pub mod Effect
use mathlib.Core.Option
use alertloop.Base.{
  ℕ, ◌==◌, ltb, Bool, true, false, not, ◌&&◌, Option, none, some, List, [], ◌∷◌, find, select,
  update, any, Text, is_empty, if◌then◌else◌, runes, text_eq,
}
use alertloop.Domain.Errors.{Error, ok, not_found, database}
use alertloop.Domain.Event.{Event, Severity, is_resolved, is_muted}
use alertloop.Domain.Severity.{severity_rank}
use alertloop.Domain.Delivery.{DeliveryAttempt, is_alert}
use alertloop.Store.Schema.{Db}
use alertloop.Store.Session.{M, pure, raise, ◌>>=◌, ◌>>◌, write, read, transaction}
use alertloop.Store.Rows.{event_by_id}
use alertloop.Store.Events.{insert_deliveries}

pub record EventUpdate : Type 0 where
  pub severity : Severity
  pub message : Text
  pub payload : Text
  pub last_seen_at : ℕ
  pub alerts_on_rise : List DeliveryAttempt

-- UPDATE events SET severity, message, payload, last_seen_at, updated_at
unfoldable pub refreshed : EventUpdate → Event → Event
unfolding is_empty
refreshed u e = record e {
  severity = u.severity;
  message = u.message;
  payload = if is_empty u.payload then runes "{}" else u.payload;
  last_seen_at = u.last_seen_at;
  updated_at = u.last_seen_at;
}

-- SELECT DISTINCT channel_name … WHERE event_id = ? AND kind = 'alert'
unfoldable pub alerted : ℕ → Db → Text → Bool
unfolding any text_eq is_alert
alerted id d name =
    any (λ a. a.event_id == id && (is_alert a.kind && text_eq a.channel_name name)) d.attempts

-- the loop of insertMissingAlerts: channels that had an alert before the loop are passed over
unfoldable pub missing_alerts : (Text → Bool) → List DeliveryAttempt → List DeliveryAttempt
unfolding select
missing_alerts has = select (λ a. not (has a.channel_name))

unfoldable pub insert_missing_alerts : ℕ → List DeliveryAttempt → M (Unit {0})
unfolding insert_deliveries missing_alerts alerted
insert_missing_alerts id alerts = do
  has ← read (λ d. ok (alerted id d))
  insert_deliveries (missing_alerts has alerts)

abbrev pub some_left : {A : Type 0} → List A → Bool
some_left [] = false
some_left (_ ∷ _) = true

unfoldable pub rises : EventUpdate → Event → Bool
unfolding is_muted severity_rank
rises u old =
    some_left u.alerts_on_rise
    && not (is_muted old.state)
    && ltb (severity_rank old.severity) (severity_rank u.severity)

-- WHERE id = ? AND state <> 'resolved'
unfoldable pub open_with_id : ℕ → Event → Bool
unfolding is_resolved
open_with_id id e = e.id == id && not (is_resolved e.state)

unfoldable pub or_raise : {A : Type 0} → Error → Option A → M A
or_raise x none = raise x
or_raise x (some a) = pure a

-- the row to refresh, as it stands under the transaction's lock
unfoldable pub read_open : ℕ → M Event
unfolding open_with_id or_raise find
read_open id = do row ← read (λ d. ok (find (open_with_id id) d.events)); or_raise not_found row

unfoldable pub write_refresh : ℕ → EventUpdate → M Event
unfolding refreshed or_raise update event_by_id
write_refresh id u = do
  row ← write (λ d. (
    Option.map (refreshed u) (event_by_id id d),
    record d { events = update (λ e. e.id == id) (refreshed u) d.events },
  ))
  or_raise database row

unfoldable pub alert_rise : ℕ → EventUpdate → Event → M (Unit {0})
unfolding rises insert_missing_alerts
alert_rise id u old = if rises u old then insert_missing_alerts id u.alerts_on_rise else pure tt

unfoldable pub refresh_row : ℕ → EventUpdate → Event → M Event
refresh_row id u old = do e ← write_refresh id u; alert_rise id u old; pure e

unfoldable pub refresh_open_event : ℕ → EventUpdate → M Event
refresh_open_event id u = transaction (do old ← read_open id; refresh_row id u old)
