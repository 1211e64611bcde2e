-- ===== src/Store/Refresh/Effect.antt =====
-- RefreshOpenEvent as one change of the tables.
use alertloop.Domain.Severity.{severity_rank}
use alertloop.Base.{
  ℕ, ◌==◌, Bool, some, List, ◌≡◌, ◌∙◌, ap, sym, arith, find, update, if◌then◌else◌, Text, leb, not,
  any, select, text_eq, is_empty, runes, ◌&&◌, [], ◌∷◌, ltb, true, false, refl,
}
use mathlib.Core.Option
use alertloop.Domain.Errors.{ok}
use alertloop.Domain.Event.{Event, is_muted}
use alertloop.Domain.Delivery.{DeliveryAttempt, is_alert}
use alertloop.Store.Schema.{Db}
use alertloop.Store.Session.{Session, pure, raise, ◌>>=◌, ◌>>◌, read, write, tick, turn}
use alertloop.Store.Session.Laws.{>>=-ok, ok-injective, same_result, transaction-ok, read-ok}
use alertloop.Store.Rows.{event_by_id}
use alertloop.Store.Events.{insert_deliveries}
use alertloop.Store.Events.Inserts.{put_rows, insert_deliveries-ok}
use alertloop.Store.Refresh.{
  EventUpdate, refreshed, alerted, missing_alerts, insert_missing_alerts, or_raise, rises,
  open_with_id, read_open, write_refresh, alert_rise, refresh_row, refresh_open_event, some_left,
}

-- The alerts that a repeated report owes: none while the incident is muted, none unless the severity
-- rises, and else those for the channels that no alert of the event was for.
unfoldable pub owed_alerts : ℕ → EventUpdate → Event → Db → List DeliveryAttempt
unfolding is_muted severity_rank is_alert text_eq any select
owed_alerts id u old d =
    if is_muted old.state
    then []
    else if leb (severity_rank u.severity) (severity_rank old.severity)
    then []
    else select
        (λ a. not (
          any (λ b. b.event_id == id && (is_alert b.kind && text_eq b.channel_name a.channel_name))
            d.attempts))
        u.alerts_on_rise

-- The tables with those alerts.
unfoldable pub with_rise : ℕ → EventUpdate → Event → Db → Db
unfolding owed_alerts
with_rise id u old d = put_rows (owed_alerts id u old d) d

-- What a report says anew of an event: how bad it is, what happened and when it was seen last.
unfoldable pub renewed : EventUpdate → Event → Event
unfolding is_empty
renewed u e = record e {
  severity = u.severity;
  message = u.message;
  payload = if is_empty u.payload then runes "{}" else u.payload;
  last_seen_at = u.last_seen_at;
  updated_at = u.last_seen_at;
}

-- The tables with the event refreshed.
unfoldable pub with_refresh : ℕ → EventUpdate → Db → Db
unfolding renewed
with_refresh id u d = record d { events = update (λ e. e.id == id) (renewed u) d.events }

rise_split :
    (m : Bool) (a b : ℕ) (p : DeliveryAttempt → Bool) (l : List DeliveryAttempt) (d : Db)
    → (if some_left l && not m && ltb a b then put_rows (select p l) d else d)
      ≡ put_rows (if m then [] else if leb b a then [] else select p l) d
unfolding select
rise_split true a b p [] d = refl
rise_split true a b p (x ∷ l) d = refl
rise_split false a b p [] d = ground arith
rise_split false a b p (x ∷ l) d = ground arith

-- The alerts of the code are the owed ones.
rises-owed_alerts :
    (id : ℕ) (u : EventUpdate) (old : Event) (d : Db)
    → (if rises u old then put_rows (missing_alerts (alerted id d) u.alerts_on_rise) d else d)
      ≡ put_rows (owed_alerts id u old d) d
unfolding rises missing_alerts alerted owed_alerts
rises-owed_alerts id u old d =
    rise_split (is_muted old.state) (severity_rank old.severity) (severity_rank u.severity)
      (λ a. not (alerted id d a.channel_name)) u.alerts_on_rise d

read_open-ok :
    (id : ℕ) (s : Session) (old : Event)
    → (read_open id s).0 ≡ ok old
    → (find (open_with_id id) s.db.events ≡ some old) × ((read_open id s).1 ≡ tick s)
unfolding read_open ◌>>=◌ read or_raise pure raise
read_open-ok id s old h = ground arith

write_refresh-ok :
    (id : ℕ) (u : EventUpdate) (s : Session) (e : Event)
    → (write_refresh id u s).0 ≡ ok e
    → (Option.map (renewed u) (event_by_id id s.db) ≡ some e)
      × ((write_refresh id u s).1 ≡ record (tick s) { db = with_refresh id u s.db })
unfolding write_refresh with_refresh refreshed ◌>>=◌ write or_raise pure raise
write_refresh-ok id u s e h = ground arith

insert_missing_alerts-ok :
    (id : ℕ) (l : List DeliveryAttempt) (s : Session)
    → (insert_missing_alerts id l s).0 ≡ ok tt
    → (insert_missing_alerts id l s).1.db ≡ put_rows (missing_alerts (alerted id s.db) l) s.db
unfolding insert_missing_alerts
insert_missing_alerts-ok id l s h =
    let next = λ (has : Text → Bool). insert_deliveries (missing_alerts has l) in
    let (has, first, p) = >>=-ok (read (λ d. ok (alerted id d))) next s tt h in
    let (same, after) = read-ok (λ d. ok (alerted id d)) s has first in
    let had : alerted id s.db ≡ has = ok-injective same in
    ap (λ r. r.1.db) p
    ∙ insert_deliveries-ok (missing_alerts has l) (read (λ d. ok (alerted id d)) s).1
        (same_result p h)
    ∙ ap (λ (x : Session). put_rows (missing_alerts has l) x.db) after
    ∙ ap (λ (t : Text → Bool). put_rows (missing_alerts t l) s.db) (sym had)

alert_rise-ok :
    (id : ℕ) (u : EventUpdate) (old : Event) (s : Session)
    → (alert_rise id u old s).0 ≡ ok tt
    → (alert_rise id u old s).1.db ≡ with_rise id u old s.db
unfolding alert_rise with_rise pure
alert_rise-ok id u old s h =
    ground (arith, insert_missing_alerts-ok id u.alerts_on_rise s) ∙ rises-owed_alerts id u old s.db

refresh_row-ok :
    (id : ℕ) (u : EventUpdate) (old : Event) (s : Session) (e : Event)
    → (refresh_row id u old s).0 ≡ ok e
    → (Option.map (renewed u) (event_by_id id s.db) ≡ some e)
      × ((refresh_row id u old s).1.db ≡ with_rise id u old (with_refresh id u s.db))
unfolding refresh_row
refresh_row-ok id u old s e h =
    let (e', first, p) = >>=-ok (write_refresh id u) (λ e. alert_rise id u old >> pure e) s e h in
    let (row, s1) = write_refresh-ok id u s e' first in
    let t = (write_refresh id u s).1 in
    let (v, second, q) = >>=-ok (alert_rise id u old) (λ _. pure e') t e (same_result p h) in
    let path = p ∙ q in
    let returned : e' ≡ e = unfold pure in ok-injective (same_result path h) in
    (
      row ∙ ap some returned,
      ap (λ r. r.1.db) path
          ∙ unfold pure in
            alert_rise-ok id u old t second ∙ ap (λ (x : Session). with_rise id u old x.db) s1,
    )

-- A RefreshOpenEvent that succeeds found the event open, returns it refreshed, and has changed the
-- tables by exactly the refreshed row and, if the severity rises on an incident that is not muted,
-- the alerts for the channels that no alert of the event was for.
pub refresh_open_event-ok :
    (id : ℕ) (u : EventUpdate) (s : Session) (e : Event)
    → (refresh_open_event id u s).0 ≡ ok e
    → (old : Event) × (find (open_with_id id) (s.others 0 s.db).events ≡ some old)
      × (Option.map (renewed u) (event_by_id id (s.others 0 s.db)) ≡ some e)
      × ((refresh_open_event id u s).1.db
          ≡ with_rise id u old (with_refresh id u (s.others 0 s.db)))
unfolding refresh_open_event
refresh_open_event-ok id u s e h =
    let (body, stored) = transaction-ok (read_open id >>= refresh_row id u) s e h in
    let t = tick (turn s) in
    let (old, first, p) = >>=-ok (read_open id) (refresh_row id u) t e body in
    let (found, t1) = read_open-ok id t old first in
    let (row, db1) = refresh_row-ok id u old (read_open id t).1 e (same_result p body) in
    (
      old,
      found,
      ap (λ (x : Session). Option.map (renewed u) (event_by_id id x.db)) (sym t1) ∙ row,
      stored
          ∙ ap (λ r. r.1.db) p
          ∙ db1
          ∙ ap (λ (x : Session). with_rise id u old (with_refresh id u x.db)) t1,
    )
