-- ===== src/Store/Examples/Claim.antt =====
-- Claims of the two alerts that wait, and of a recovery behind an alert that was sent.
use alertloop.Base.{true, some, [], ◌∷◌, ◌≡◌, ◌≢◌, refl, inl, runes, List}
use alertloop.Domain.Errors.{ok}
use alertloop.Domain.Delivery.{DeliveryAttempt, sent, recovery, is_recovery}
use alertloop.Store.Schema.{uniques_hold}
use alertloop.Store.Session.{Session}
use alertloop.Store.Rows.{is_sent_in}
use alertloop.Store.Claim.{claim_due, sending_row}
use alertloop.Store.Claim.Due.{Origin, claim_due-IsDue}
use alertloop.Store.Claim.Safety.{recovery_after_alert, claims_disjoint}
use alertloop.Store.Examples.{store_code, quiet, down, alert_to}

abbrev waiting : Session
waiting = quiet (record {
  events = down ∷ [];
  attempts = alert_to 10 (runes "a") ∷ alert_to 11 (runes "b") ∷ [];
})

-- one attempt at a time
abbrev one_row : List DeliveryAttempt
one_row = sending_row 50 (alert_to 10 (runes "a")) ∷ []

abbrev next_row : List DeliveryAttempt
next_row = sending_row 60 (alert_to 11 (runes "b")) ∷ []

one_claimed : (claim_due 50 1 [] waiting).0 ≡ ok one_row
unfolding store_code
one_claimed = refl

next_claimed : (claim_due 60 1 [] (claim_due 50 1 [] waiting).1).0 ≡ ok next_row
unfolding store_code
next_claimed = refl

waiting_valid : uniques_hold (waiting.others 0 waiting.db) ≡ true
unfolding store_code
waiting_valid = refl

alone : waiting.others 1 (claim_due 50 1 [] waiting).1.db ≡ (claim_due 50 1 [] waiting).1.db
alone = refl

claim_due-IsDue_example :
    (a : DeliveryAttempt) × Origin 50 []
      (waiting.others 0 waiting.db).attempts
      (sending_row 50 (alert_to 10 (runes "a")))
      a
claim_due-IsDue_example =
    claim_due-IsDue 50 1 [] waiting one_row (sending_row 50 (alert_to 10 (runes "a"))) waiting_valid
      one_claimed (inl refl)

claims_disjoint_example :
    (sending_row 50 (alert_to 10 (runes "a"))).id ≢ (sending_row 60 (alert_to 11 (runes "b"))).id
claims_disjoint_example =
    claims_disjoint 50 1 [] 60 1 [] waiting one_row next_row
      (sending_row 50 (alert_to 10 (runes "a"))) (sending_row 60 (alert_to 11 (runes "b")))
      waiting_valid one_claimed alone next_claimed (inl refl) (inl refl)

abbrev sent_alert : DeliveryAttempt
sent_alert = record (alert_to 10 (runes "a")) { state = sent }

abbrev notice : DeliveryAttempt
notice = record (alert_to 20 (runes "a")) { kind = recovery; recovery_for = some 10 }

abbrev after_close : Session
after_close = quiet (record { events = down ∷ []; attempts = notice ∷ sent_alert ∷ [] })

after_close_valid : uniques_hold (after_close.others 0 after_close.db) ≡ true
unfolding store_code
after_close_valid = refl

notice_claimed : (claim_due 50 0 [] after_close).0 ≡ ok (sending_row 50 notice ∷ [])
unfolding store_code
notice_claimed = refl

recovery_after_alert_example : is_sent_in (after_close.others 0 after_close.db).attempts 10 ≡ true
unfolding is_recovery sending_row
recovery_after_alert_example =
    recovery_after_alert 50 0 [] after_close (sending_row 50 notice ∷ []) (sending_row 50 notice) 10
      after_close_valid notice_claimed (inl refl) refl refl
