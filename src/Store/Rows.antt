-- ===== src/Store/Rows.antt =====
-- internal/storage/sql_store.go, claim.go: what each statement computes on the tables.
use alertloop.Base.{
  ℕ, ◌==◌, ltb, leb, Bool, true, false, not, ◌&&◌, ◌||◌, Option, none, some, List, [], ◌∷◌, any,
  find, Text, is_empty, text_eq, runes, if◌then◌else◌,
}
use alertloop.Domain.Event.{Event, is_resolved, is_muted}
use alertloop.Domain.Delivery.{
  DeliveryAttempt, recovery, pending, cancelled, or_alert, is_alert, is_recovery, is_pending,
  is_failed, is_sent, is_cancelled,
}
use alertloop.Store.Schema.{Db}

-- the row that insertEvent writes
unfoldable pub event_row : Event → Event
unfolding is_empty
event_row e = record e {
  payload = if is_empty e.payload then runes "{}" else e.payload;
  last_seen_at = if e.last_seen_at == 0 then e.created_at else e.last_seen_at;
}

-- the row that deliveryArgs writes
unfoldable pub delivery_row : DeliveryAttempt → DeliveryAttempt
unfolding or_alert
delivery_row d = record d { kind = or_alert d.kind }

unfoldable pub event_by_id : ℕ → Db → Option Event
unfolding find
event_by_id id d = find (λ e. e.id == id) d.events

unfoldable pub attempt_by_id : ℕ → Db → Option DeliveryAttempt
unfolding find
attempt_by_id id d = find (λ a. a.id == id) d.attempts

-- WHERE dedupe_key = ? AND state <> 'resolved'
unfoldable pub open_with_key : Text → Event → Bool
unfolding is_resolved text_eq
open_with_key key e = text_eq e.dedupe_key key && not (is_resolved e.state)

-- ORDER BY created_at DESC, id DESC
unfoldable pub newer : ℕ → ℕ → ℕ → ℕ → Bool
newer at id at' id' = ltb at' at || (at == at' && ltb id' id)

newest_of : Event → Option Event → Event
unfolding newer
newest_of e none = e
newest_of e (some f) = if newer e.created_at e.id f.created_at f.id then e else f

-- LIMIT 1 of that order
unfoldable pub newest : List Event → Option Event
unfolding newest_of
newest [] = none
newest (e ∷ es) = some (newest_of e (newest es))

-- WHERE event_id = ? AND kind = 'alert' AND state IN ('pending', 'failed')
unfoldable pub waiting_alert_of : ℕ → DeliveryAttempt → Bool
unfolding is_alert is_pending is_failed
waiting_alert_of id a =
    a.event_id == id && is_alert a.kind && (is_pending a.state || is_failed a.state)

unfoldable pub cancel_row : ℕ → DeliveryAttempt → DeliveryAttempt
cancel_row at a = record a { state = cancelled; next_retry_at = none; updated_at = at }

-- WHERE event_id = ? AND kind = 'alert' AND state <> 'cancelled'
unfoldable pub owed_recovery : ℕ → DeliveryAttempt → Bool
unfolding is_alert is_cancelled
owed_recovery id a = a.event_id == id && is_alert a.kind && not (is_cancelled a.state)

-- recoveryOf, but for its id, which uuid.NewString gives
unfoldable pub recovery_of : ℕ → DeliveryAttempt → ℕ → ℕ → DeliveryAttempt
recovery_of id a max_attempts at = record {
  id = id;
  event_id = a.event_id;
  channel = a.channel;
  channel_name = a.channel_name;
  kind = recovery;
  state = pending;
  attempts = 0;
  max_attempts = max_attempts;
  next_retry_at = none;
  last_error = [];
  created_at = at;
  updated_at = at;
  fallback_of = none;
  recovery_for = some a.id;
}

-- ORDER BY created_at, id
unfoldable pub earlier : DeliveryAttempt → DeliveryAttempt → Bool
earlier a b = ltb a.created_at b.created_at || (a.created_at == b.created_at && leb a.id b.id)

unfoldable pub insert_ordered : DeliveryAttempt → List DeliveryAttempt → List DeliveryAttempt
unfolding earlier
insert_ordered a [] = a ∷ []
insert_ordered a (b ∷ bs) =
    let rest = insert_ordered a bs in if earlier a b then a ∷ b ∷ bs else b ∷ rest

unfoldable pub order : List DeliveryAttempt → List DeliveryAttempt
unfolding insert_ordered
order [] = []
order (a ∷ l) = insert_ordered a (order l)

retry_due : ℕ → Option ℕ → Bool
retry_due now none = true
retry_due now (some at) = leb at now

unfoldable pub is_sent_in : List DeliveryAttempt → ℕ → Bool
unfolding any is_sent
is_sent_in l id = any (λ a. a.id == id && is_sent a.state) l

alert_sent : List DeliveryAttempt → Option ℕ → Bool
unfolding is_sent_in
alert_sent l none = true
alert_sent l (some id) = is_sent_in l id

-- deliverableCond
unfoldable pub deliverable : ℕ → List DeliveryAttempt → DeliveryAttempt → Bool
unfolding is_pending is_failed retry_due alert_sent is_recovery
deliverable now l c =
    (is_pending c.state || is_failed c.state)
    && retry_due now c.next_retry_at
    && (not (is_recovery c.kind) || alert_sent l c.recovery_for)

unfoldable pub contains : List Text → Text → Bool
unfolding text_eq
contains [] t = false
contains (s ∷ l) t = text_eq s t || contains l t

-- mutedAlertCond
unfoldable pub muted_alert : Db → DeliveryAttempt → Bool
unfolding is_alert event_by_id is_muted
muted_alert d a =
    is_alert a.kind && elim (event_by_id a.event_id d) [ none ↦ false | some e ↦ is_muted e.state ]
