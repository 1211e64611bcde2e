-- ===== src/Store/Transition/Close.antt =====
-- Closing an incident queues one recovery for each alert that went out or may still go out.
use alertloop.Base.{
  update, ℕ, suc, ◌+◌, ◌<◌, ◌==◌, Bool, false, Option, none, some, List, [], ◌∷◌, ◌≡◌, ◌∙◌, refl,
  ap, arith, count, select,
}
use alertloop.Domain.Errors.{ok}
use alertloop.Domain.Event.{Event}
use alertloop.Domain.Delivery.{DeliveryAttempt}
use alertloop.Store.Schema.{Db}
use alertloop.Store.Session.{Session}
use alertloop.Store.Rows.{delivery_row, recovery_of, owed_recovery, order, insert_ordered}
use alertloop.Store.Transition.{moves, moved, StateChange, transition_event}
use alertloop.Store.Transition.Effect.{
  with_recoveries, with_alerts_cancelled, with_recoveries_queued, changed, transition_event-ok,
}

abbrev pub follows : ℕ → Option ℕ → Bool
follows x none = false
follows x (some y) = y == x

-- How many attempts are the recovery of the alert `x`.
unfoldable pub recoveries_for : ℕ → List DeliveryAttempt → ℕ
recoveries_for x = count (λ a. follows x a.recovery_for)

-- How many alerts with the id `x` are owed a recovery when the event `id` closes.
unfoldable pub owed : ℕ → ℕ → List DeliveryAttempt → ℕ
owed id x l = count (λ a. a.id == x) (select (owed_recovery id) l)

count-insert_ordered :
    (p : DeliveryAttempt → Bool) (a : DeliveryAttempt) (l : List DeliveryAttempt)
    → count p (insert_ordered a l) ≡ count p (a ∷ l)
unfolding count insert_ordered
count-insert_ordered p a [] = refl
count-insert_ordered p a (b ∷ l) = ground (arith, count-insert_ordered p a l)

pub count-order :
    (p : DeliveryAttempt → Bool) (l : List DeliveryAttempt) → count p (order l) ≡ count p l
unfolding order count
count-order p [] = refl
count-order p (a ∷ l) = omega (arith, count-insert_ordered p a (order l), count-order p l)

recoveries_for-with_recoveries :
    (x : ℕ) (uuids : ℕ → ℕ) (m at : ℕ) (l : List DeliveryAttempt) (d : Db)
    → recoveries_for x (with_recoveries uuids m at l d).attempts
      ≡ recoveries_for x d.attempts + count (λ a. a.id == x) l
unfolding with_recoveries recoveries_for count delivery_row recovery_of
recoveries_for-with_recoveries x uuids m at [] d = omega arith
recoveries_for-with_recoveries x uuids m at (a ∷ l) d = omega (
  arith,
  recoveries_for-with_recoveries x (λ n. uuids (suc n)) m at l
      (record d { attempts = delivery_row (recovery_of (uuids 0) a m at) ∷ d.attempts }),
)

queued_recoveries :
    (uuids : ℕ → ℕ) (id : ℕ) (c : StateChange) (d : Db) (x : ℕ)
    → 0 < c.recovery_max_attempts
    → recoveries_for x (with_recoveries_queued uuids id c d).attempts
      ≡ recoveries_for x d.attempts + owed id x d.attempts
unfolding with_recoveries_queued owed
queued_recoveries uuids id c d x positive =
    let l = select (owed_recovery id) d.attempts in
    ground (
      arith,
      recoveries_for-with_recoveries x uuids c.recovery_max_attempts c.at (order l) d,
      count-order (λ a. a.id == x) l,
    )

-- A TransitionEvent that queues recoveries and cancels nothing adds exactly one recovery for each
-- alert of the event that was not cancelled, and none for any other attempt.
pub close_recovers :
    (id : ℕ) (c : StateChange) (s : Session) (e : Event) (x : ℕ)
    → 0 < c.recovery_max_attempts
    → c.cancel_alerts ≡ false
    → (transition_event id c s).0 ≡ ok e
    → recoveries_for x (transition_event id c s).1.db.attempts
      ≡ recoveries_for x (s.others 0 s.db).attempts + owed id x (s.others 0 s.db).attempts
unfolding changed with_alerts_cancelled
close_recovers id c s e x positive kept h =
    let (old, found, is_moved, stored) = transition_event-ok id c s e h in
    let queued =
      queued_recoveries s.uuids id c
        (with_alerts_cancelled id c (record (s.others 0 s.db) {
          events = update (moves id c) (moved c) (s.others 0 s.db).events;
        }))
        x positive in
    ap (λ d. recoveries_for x d.attempts) stored ∙ queued ∙ rw kept
