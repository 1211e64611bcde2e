-- ===== src/Store/Queue/Requeue.antt =====
-- What the reaper leaves behind.
use alertloop.Base.{ℕ, false, ◌≡◌, arith, All, All-update_none, length, select, subst, sym, update}
use alertloop.Domain.Errors.{ok}
use alertloop.Domain.Delivery.{DeliveryAttempt, is_sending}
use alertloop.Store.Schema.{Db}
use alertloop.Store.Session.{Session, now, ◌>>=◌, autocommit, write}
use alertloop.Store.Queue.{stuck, requeued_row, requeue_stuck_sending}

requeued-not_stuck :
    (stale_before at : ℕ) (d : Db) (a : DeliveryAttempt)
    → stuck stale_before (requeued_row at d a) ≡ false
unfolding stuck requeued_row is_sending
requeued-not_stuck stale_before at d a = ground arith

requeue_stuck_sending-ok :
    (stale_before : ℕ) (s : Session) (n : ℕ)
    → (requeue_stuck_sending stale_before s).0 ≡ ok n
    → (n ≡ length (select (stuck stale_before) (s.others 0 s.db).attempts))
      × ((requeue_stuck_sending stale_before s).1.db ≡ record (s.others 0 s.db) {
        attempts =
            update
              (stuck stale_before)
              (requeued_row (s.clock 0) (s.others 0 s.db))
              (s.others 0 s.db).attempts;
      })
unfolding requeue_stuck_sending now ◌>>=◌ autocommit write
requeue_stuck_sending-ok stale_before s n h = (ground arith, ground arith)

-- A RequeueStuckSending that succeeds leaves no attempt stuck, and reports how many were.
pub requeue_clears :
    (stale_before : ℕ) (s : Session) (n : ℕ)
    → (requeue_stuck_sending stale_before s).0 ≡ ok n
    → (n ≡ length (select (stuck stale_before) (s.others 0 s.db).attempts))
      × All (λ a. stuck stale_before a ≡ false) (requeue_stuck_sending stale_before s).1.db.attempts
requeue_clears stale_before s n h =
    let (counted, stored) = requeue_stuck_sending-ok stale_before s n h in
    (
      counted,
      subst (λ (d : Db). All (λ a. stuck stale_before a ≡ false) d.attempts) (sym stored)
          (All-update_none (stuck stale_before) (requeued_row (s.clock 0) (s.others 0 s.db))
            (s.others 0 s.db).attempts
            (requeued-not_stuck stale_before (s.clock 0) (s.others 0 s.db))),
    )
