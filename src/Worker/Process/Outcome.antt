-- ===== src/Worker/Process/Outcome.antt =====
-- What a send leads to: the state, the count and the retry of the attempt, and its fallback.
use alertloop.Store.Session.Laws.{ok-injective, same_result, >>=-ok}
use alertloop.Base.{
  ℕ, ◌+◌, ◌≤◌, ◌<◌, leb, true, false, ◌&&◌, Option, some, none, ◌≡◌, ◌≢◌, refl, sym, ◌∙◌, arith,
  Bool-cases, inl, inr, length, ◌⊎◌,
}
use alertloop.Domain.Errors.{ok}
use alertloop.Domain.Truncate.{truncate_runes, max_last_error_runes, length-truncate_runes}
use alertloop.Domain.Delivery.{
  DeliveryAttempt, pending, failed, dead_letter, or_alert, is_alert, is_fallback,
}
use alertloop.Store.Session.{Session, pure, ◌>>=◌, now}
use alertloop.Worker.Options.{Options, Registry, backoff}
use alertloop.Worker.Process.{SendError, Surroundings, fallback_for, outcome}

module _ (opts : Options) (registry : Registry) (w : Surroundings) where
  -- The attempt `r` to store, and the fallback `f`, after a send of `att` at the time `at`.
  pub record Settled (att : DeliveryAttempt) (at : ℕ) (r : DeliveryAttempt)
      (f : Option DeliveryAttempt) : Type 0 where
    pub within_budget : r.attempts ≤ r.max_attempts
    pub lost_at_maximum :
        (r.state ≢ dead_letter) ⊎ ((r.attempts ≡ r.max_attempts) × (r.next_retry_at ≡ none))
    pub retried_below_maximum :
        (r.state ≢ failed)
        ⊎ ((r.attempts < r.max_attempts)
            × (r.next_retry_at ≡ some (at + backoff opts r.attempts w.draw)))
    pub counted_but_at_stop :
        (r.attempts ≡ att.attempts + 1)
        ⊎ ((r.attempts ≡ att.attempts) × (r.state ≡ pending) × (w.stopped ≡ true))
    pub error_bounded : r.state ≡ pending ⊎ (length r.last_error ≤ max_last_error_runes)
    pub same_attempt :
        (r.id ≡ att.id) × (r.event_id ≡ att.event_id) × (r.max_attempts ≡ att.max_attempts)
    pub fallback_of_lost_alert :
        (f ≡ none)
        ⊎ ((r.state ≡ dead_letter)
            × (is_alert (or_alert att.kind) ≡ true)
            × (is_fallback att ≡ false))

  -- A fallback is offered for an alert that is no fallback itself, and for nothing else.
  fallback_for_lem :
      (att : DeliveryAttempt) (s : Session) (f : Option DeliveryAttempt)
      → (fallback_for opts registry w att s).0 ≡ ok f
      → (f ≡ none) ⊎ ((is_alert (or_alert att.kind) ≡ true) × (is_fallback att ≡ false))
  unfolding fallback_for pure
  fallback_for_lem att s f h = ground arith

  counted : DeliveryAttempt → SendError → DeliveryAttempt
  counted att e = record att {
    attempts = att.attempts + 1;
    last_error = truncate_runes e.text max_last_error_runes;
  }

  lost : DeliveryAttempt → SendError → DeliveryAttempt
  unfolding counted
  lost att e = record (counted att e) { state = dead_letter; next_retry_at = none }

  -- A send that a stop cancelled.
  stopped-Settled :
      (att : DeliveryAttempt) (e : SendError) (s : Session) (r : DeliveryAttempt)
      (f : Option DeliveryAttempt)
      → att.attempts < att.max_attempts
      → (w.stopped && e.canceled) ≡ true
      → (outcome opts registry w att (some e) s).0 ≡ ok (r, f)
      → Settled att (s.clock 0) r f
  unfolding outcome pure
  stopped-Settled att e s r f left k h =
      let form : (outcome opts registry w att (some e) s).0
          ≡ ok (record att { state = pending }, none) =
        rw k refl in
      let p = ok-injective (sym form ∙ h) in
      record {
        within_budget = ground arith;
        lost_at_maximum = ground arith;
        retried_below_maximum = ground arith;
        counted_but_at_stop = ground arith;
        error_bounded = ground arith;
        same_attempt = ground arith;
        fallback_of_lost_alert = ground arith;
      }

  -- A failure on the last try.
  lost-Settled :
      (att : DeliveryAttempt) (e : SendError) (s : Session) (r : DeliveryAttempt)
      (f : Option DeliveryAttempt)
      → att.attempts < att.max_attempts
      → (w.stopped && e.canceled) ≡ false
      → leb att.max_attempts (att.attempts + 1) ≡ true
      → (outcome opts registry w att (some e) s).0 ≡ ok (r, f)
      → Settled att (s.clock 0) r f
  unfolding outcome lost counted pure
  lost-Settled att e s r f left k over h =
      let form : outcome opts registry w att (some e) s
          ≡ (fallback_for opts registry w (lost att e) >>= λ g. pure (lost att e, g)) s =
        rw (k, over) refl in
      let h' = same_result form h in
      let (g, hg, step) =
        >>=-ok (fallback_for opts registry w (lost att e)) (λ g. pure (lost att e, g)) s (r, f)
          h' in
      let p = ok-injective (same_result step h') in
      let bound = length-truncate_runes e.text max_last_error_runes in
      let of_alert = fallback_for_lem (lost att e) s g hg in
      record {
        within_budget = ground arith;
        lost_at_maximum = ground arith;
        retried_below_maximum = ground arith;
        counted_but_at_stop = ground arith;
        error_bounded = ground arith;
        same_attempt = ground arith;
        fallback_of_lost_alert = ground arith;
      }

  -- A failure with tries left.
  failed-Settled :
      (att : DeliveryAttempt) (e : SendError) (s : Session) (r : DeliveryAttempt)
      (f : Option DeliveryAttempt)
      → att.attempts < att.max_attempts
      → (w.stopped && e.canceled) ≡ false
      → leb att.max_attempts (att.attempts + 1) ≡ false
      → (outcome opts registry w att (some e) s).0 ≡ ok (r, f)
      → Settled att (s.clock 0) r f
  unfolding outcome counted pure ◌>>=◌ now
  failed-Settled att e s r f left k below h =
      let form : (outcome opts registry w att (some e) s).0
          ≡ ok (
            record (counted att e) {
              state = failed;
              next_retry_at = some (s.clock 0 + backoff opts (att.attempts + 1) w.draw);
            },
            none,
          ) =
        rw (k, below) refl in
      let p = ok-injective (sym form ∙ h) in
      let bound = length-truncate_runes e.text max_last_error_runes in
      record {
        within_budget = ground arith;
        lost_at_maximum = ground arith;
        retried_below_maximum = ground arith;
        counted_but_at_stop = ground arith;
        error_bounded = ground arith;
        same_attempt = ground arith;
        fallback_of_lost_alert = ground arith;
      }

  -- What a send leads to, of an attempt with tries left: the count stays within the maximum, a
  -- dead letter is at the maximum with no retry, a failure is below it with the retry that the
  -- backoff gives, only a stop leaves the try uncounted, the error fits its bound, the attempt
  -- stays the same one, and a fallback comes only with a lost alert that is none itself.
  pub outcome-Settled :
      (att : DeliveryAttempt) (e : Option SendError) (s : Session) (r : DeliveryAttempt)
      (f : Option DeliveryAttempt)
      → att.attempts < att.max_attempts
      → (outcome opts registry w att e s).0 ≡ ok (r, f)
      → Settled att (s.clock 0) r f
  unfolding outcome pure
  outcome-Settled att none s r f left h =
      let p = ok-injective h in
      record {
        within_budget = ground arith;
        lost_at_maximum = ground arith;
        retried_below_maximum = ground arith;
        counted_but_at_stop = ground arith;
        error_bounded = ground arith;
        same_attempt = ground arith;
        fallback_of_lost_alert = ground arith;
      }
  outcome-Settled att (some e) s r f left h = elim (Bool-cases (w.stopped && e.canceled)) [
    | inl stopping ↦ stopped-Settled att e s r f left stopping h
    | inr going ↦ elim (Bool-cases (leb att.max_attempts (att.attempts + 1))) [
      | inl over ↦ lost-Settled att e s r f left going over h
      | inr below ↦ failed-Settled att e s r f left going below h
    ]
  ]
