-- ===== src/Store/Examples/Retention.antt =====
-- Sweeps of one old event, and the signals of a table with one due attempt.
use alertloop.Base.{
  true, false, none, some, List, [], ◌∷◌, ◌≡◌, ◌↔◌, refl, runes, Has, inl, arith, inr, count, ◌==◌,
}
use alertloop.Domain.Errors.{ok}
use alertloop.Domain.Event.{Event}
use alertloop.Domain.Delivery.{DeliveryAttempt}
use alertloop.Store.Schema.{Db}
use alertloop.Store.Session.{session_code}
use alertloop.Store.Claim.{claim_due, sending_row}
use alertloop.Store.Retention.{outdated, delete_events_before}
use alertloop.Store.Retention.Sweep.{delete_events_before-all}
use alertloop.Store.Retention.Kept.{Current, delete_events_before-Current}
use alertloop.Store.Monitoring.{Signals, monitoring}
use alertloop.Store.Monitoring.Claims.{monitoring-claim_due}
use alertloop.Store.Examples.{store_code, quiet, down, alert_to}

abbrev later : Event
later = record down { id = 2; dedupe_key = runes "l"; last_seen_at = 50 }

abbrev alert_of_later : DeliveryAttempt
alert_of_later = record (alert_to 12 (runes "a")) { event_id = 2 }

abbrev two : Db
two = record {
  events = down ∷ later ∷ [];
  attempts = alert_to 10 (runes "a") ∷ alert_of_later ∷ [];
}

one_old : count (outdated 20) two.events ≡ 1
unfolding count outdated
one_old = refl

swept :
    (delete_events_before 20 (λ k. false) 2 (quiet two)).1.db
    ≡ record { events = later ∷ []; attempts = alert_of_later ∷ [] }
unfolding delete_events_before session_code
swept = refl

delete_events_before-all_example :
    ((delete_events_before 20 (λ k. false) 2 (quiet two)).0
      ≡ some (count (outdated 20) two.events, none))
    × (count (outdated 20) (delete_events_before 20 (λ k. false) 2 (quiet two)).1.db.events ≡ 0)
delete_events_before-all_example =
    delete_events_before-all 20 (λ k. false) 2 (quiet two) (λ k. refl) (λ n. refl, λ n d. refl)
      (omega (arith, one_old))

still_young : Current 20 later alert_of_later two
unfolding outdated
still_young = (inr (inl refl), inr (inl refl), current)
  where
    current :
        (other : Event)
        → Has other two.events
        → (other.id == later.id) ≡ true
        → outdated 20 other ≡ false
    current other (inl e) same = cc
    current other (inr (inl e)) same = rw e refl
    current other (inr (inr h)) same = absurd h

delete_events_before-Current_example :
    Current 20 later alert_of_later (delete_events_before 20 (λ k. false) 1 (quiet two)).1.db
delete_events_before-Current_example =
    delete_events_before-Current 20 later alert_of_later refl (λ k. false) 1 (quiet two) still_young
      (λ n d h. h)

abbrev told : Signals
told = record {
  open_incidents = 2;
  oldest_due_since = some 5;
  dead_letters = 0;
  last_worker_tick = none;
}

told_so : (monitoring none 60 0 (quiet two)).0 ≡ ok told
unfolding monitoring session_code
told_so = refl

claimed_so : (claim_due 60 1 [] (quiet two)).0 ≡ ok (sending_row 60 (alert_to 10 (runes "a")) ∷ [])
unfolding store_code claim_due sending_row
claimed_so = refl

monitoring-claim_due_example :
    (told.oldest_due_since ≡ none)
    ↔ (◌≡◌ {A = List DeliveryAttempt} (sending_row 60 (alert_to 10 (runes "a")) ∷ []) [])
monitoring-claim_due_example =
    monitoring-claim_due none 60 0 1 (quiet two) told
      (sending_row 60 (alert_to 10 (runes "a")) ∷ []) told_so claimed_so
