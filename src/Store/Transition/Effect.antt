-- ===== src/Store/Transition/Effect.antt =====
-- TransitionEvent as one change of the tables.
use alertloop.Base.{
  ℕ, suc, ltb, List, [], ◌∷◌, ◌≡◌, ◌∙◌, refl, ap, arith, inl, inr, ap₂, Option-cases, sym, find,
  update, select, if◌then◌else◌, some,
}
use alertloop.Domain.Errors.{Error, ok, err}
use alertloop.Domain.Event.{Event}
use alertloop.Domain.Delivery.{DeliveryAttempt}
use alertloop.Store.Schema.{Db}
use alertloop.Store.Session.{◌>>◌, Session, pure, ◌>>=◌, write, tick, turn}
use alertloop.Store.Session.Laws.{
  transaction-err, >>=-ok, transaction-ok, new_uuid-bind, same_result, read-ok,
}
use alertloop.Store.Rows.{
  delivery_row, recovery_of, waiting_alert_of, cancel_row, owed_recovery, order,
}
use alertloop.Store.Events.{insert_delivery}
use alertloop.Store.Events.Inserts.{insert_delivery-ok}
use alertloop.Store.Transition.{
  StateChange, moves, moved, update_state, alerts_to_recover, insert_recoveries, cancel_alerts_of,
  queue_recoveries, change_rows, change_attempts, transition_event,
}

-- one recovery in front of the table for each alert, under the ids that uuid.NewString gives
unfoldable pub with_recoveries : (ℕ → ℕ) → ℕ → ℕ → List DeliveryAttempt → Db → Db
with_recoveries uuids max_attempts at [] d = d
with_recoveries uuids max_attempts at (a ∷ l) d =
    with_recoveries (λ n. uuids (suc n)) max_attempts at l
      (record d { attempts = delivery_row (recovery_of (uuids 0) a max_attempts at) ∷ d.attempts })

insert_recoveries-ok :
    (max_attempts at : ℕ) (l : List DeliveryAttempt) (s : Session)
    → (insert_recoveries max_attempts at l s).0 ≡ ok tt
    → (insert_recoveries max_attempts at l s).1.db ≡ with_recoveries s.uuids max_attempts at l s.db
unfolding insert_recoveries with_recoveries pure
insert_recoveries-ok m at [] s h = refl
insert_recoveries-ok m at (a ∷ l) s h =
    let next = insert_delivery (recovery_of (s.uuids 0) a m at) in
    let s' : Session = record s { uuids = λ n. s.uuids (suc n) } in
    let id_given =
      new_uuid-bind (λ id. insert_delivery (recovery_of id a m at) >> insert_recoveries m at l) s in
    let (u, first, e) =
      >>=-ok next (λ _. insert_recoveries m at l) s' tt (same_result id_given h) in
    let path = id_given ∙ e in
    ap (λ r. r.1.db) path
    ∙ insert_recoveries-ok m at l (next s').1 (same_result path h)
    ∙ ap (λ (x : Session). with_recoveries x.uuids m at l x.db)
        (insert_delivery-ok (recovery_of (s.uuids 0) a m at) s' first)

-- The alerts of a muted incident that still wait are cancelled.
unfoldable pub with_alerts_cancelled : ℕ → StateChange → Db → Db
with_alerts_cancelled id c d =
    if c.cancel_alerts
    then record d { attempts = update (waiting_alert_of id) (cancel_row c.at) d.attempts }
    else d

-- Every alert that is owed a recovery gets one.
unfoldable pub with_recoveries_queued : (ℕ → ℕ) → ℕ → StateChange → Db → Db
unfolding with_recoveries
with_recoveries_queued uuids id c d =
    if ltb 0 c.recovery_max_attempts
    then with_recoveries uuids c.recovery_max_attempts c.at
        (order (select (owed_recovery id) d.attempts)) d
    else d

-- The whole change.
unfoldable pub changed : (ℕ → ℕ) → ℕ → StateChange → Db → Db
changed uuids id c d =
    with_recoveries_queued uuids id c
      (with_alerts_cancelled id c (record d { events = update (moves id c) (moved c) d.events }))

update_state-ok :
    (id : ℕ) (c : StateChange) (s : Session) (e : Event)
    → (update_state id c s).0 ≡ ok e
    → (old : Event) × (find (moves id c) s.db.events ≡ some old)
      × (e ≡ moved c old)
      × ((update_state id c s).1 ≡ record (tick s) {
        db = record s.db { events = update (moves id c) (moved c) s.db.events };
      })
unfolding update_state ◌>>=◌ write
update_state-ok id c s e h = elim (Option-cases (find (moves id c) s.db.events)) [
  | inl missing ↦ absurd (ground arith)
  | inr (old, found) ↦ (old, found, ground arith, ground arith)
]

cancel_alerts_of-ok :
    (id : ℕ) (c : StateChange) (s : Session)
    → (cancel_alerts_of id c s).0 ≡ ok tt
    → ((cancel_alerts_of id c s).1.db ≡ with_alerts_cancelled id c s.db)
      × ((cancel_alerts_of id c s).1.uuids ≡ s.uuids)
unfolding cancel_alerts_of with_alerts_cancelled write pure
cancel_alerts_of-ok id c s h = (ground arith, ground arith)

recover_all-ok :
    (id max_attempts at : ℕ) (s : Session)
    → ((alerts_to_recover id >>= insert_recoveries max_attempts at) s).0 ≡ ok tt
    → ((alerts_to_recover id >>= insert_recoveries max_attempts at) s).1.db
      ≡ with_recoveries s.uuids max_attempts at
          (order (select (owed_recovery id) s.db.attempts))
          s.db
unfolding alerts_to_recover
recover_all-ok id m at s h =
    let (l, listed, e) = >>=-ok (alerts_to_recover id) (insert_recoveries m at) s tt h in
    let (same, after) =
      read-ok (λ d. ok (order (select (owed_recovery id) d.attempts))) s l listed in
    let list : order (select (owed_recovery id) s.db.attempts) ≡ l = cc same in
    rw (e, list)
      (insert_recoveries-ok m at l (alerts_to_recover id s).1 (same_result e h)
        ∙ ap (λ (x : Session). with_recoveries x.uuids m at l x.db) after)

queue_recoveries-ok :
    (id : ℕ) (c : StateChange) (s : Session)
    → (queue_recoveries id c s).0 ≡ ok tt
    → (queue_recoveries id c s).1.db ≡ with_recoveries_queued s.uuids id c s.db
unfolding queue_recoveries with_recoveries_queued pure
queue_recoveries-ok id c s h = ground (arith, recover_all-ok id c.recovery_max_attempts c.at s)

change_attempts-ok :
    (id : ℕ) (c : StateChange) (e e' : Event) (s : Session)
    → (change_attempts id c e s).0 ≡ ok e'
    → (e ≡ e')
      × ((change_attempts id c e s).1.db
          ≡ with_recoveries_queued s.uuids id c (with_alerts_cancelled id c s.db))
unfolding change_attempts pure
change_attempts-ok id c e e' s h =
    let (u, first, p) =
      >>=-ok (cancel_alerts_of id c) (λ _. queue_recoveries id c >> pure e) s e' h in
    let (db1, uuids1) = cancel_alerts_of-ok id c s first in
    let s1 = (cancel_alerts_of id c s).1 in
    let (v, second, q) = >>=-ok (queue_recoveries id c) (λ _. pure e) s1 e' (same_result p h) in
    let path = p ∙ q in
    let returned = same_result path h in
    (
      unfold pure in cc returned,
      ap (λ r. r.1.db) path
          ∙ queue_recoveries-ok id c s1 second
          ∙ ap₂ (λ u d. with_recoveries_queued u id c d) uuids1 db1,
    )

-- A TransitionEvent that succeeds found the event in the state that the caller read, returns it
-- moved, and has changed the tables by exactly the whole change: the event, the cancelled alerts,
-- the queued recoveries.
pub transition_event-ok :
    (id : ℕ) (c : StateChange) (s : Session) (e : Event)
    → (transition_event id c s).0 ≡ ok e
    → (old : Event) × (find (moves id c) (s.others 0 s.db).events ≡ some old)
      × (e ≡ moved c old)
      × ((transition_event id c s).1.db ≡ changed s.uuids id c (s.others 0 s.db))
unfolding transition_event change_rows changed
transition_event-ok id c s e h =
    let (body, stored) = transaction-ok (change_rows id c) s e h in
    let t = tick (turn s) in
    let (e', updated, p) = >>=-ok (update_state id c) (change_attempts id c) t e body in
    let (old, found, is_moved, t1) = update_state-ok id c t e' updated in
    let (same, db1) = change_attempts-ok id c e' e (update_state id c t).1 (same_result p body) in
    (
      old,
      found,
      sym same ∙ is_moved,
      stored
          ∙ ap (λ r. r.1.db) p
          ∙ db1
          ∙ ap
              (λ (x : Session).
                with_recoveries_queued x.uuids id c (with_alerts_cancelled id c x.db))
              t1,
    )

-- A failure of the store's one write path is a failed transaction.
pub transition_event-err :
    (id : ℕ) (c : StateChange) (s : Session) (x : Error)
    → (transition_event id c s).0 ≡ err x
    → (transition_event id c s).1.db ≡ s.others 0 s.db
unfolding transition_event
transition_event-err id c s x h = transaction-err (change_rows id c) s x h
