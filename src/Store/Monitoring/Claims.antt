-- ===== src/Store/Monitoring/Claims.antt =====
-- internal/storage/sql_store.go, claim.go: Monitoring tells of a due attempt when ClaimDue takes one.
use alertloop.Base.{
  ℕ, zero, suc, ◌≤◌, ◌≡◌, ◌≢◌, ◌↔◌, refl, ap, ◌∙◌, sym, Bool, not, ◌&&◌, Option, none, List, [],
  ◌∷◌, map, take, select, any, Has, select-Has, arith, inl, ==_refl,
}
use alertloop.Domain.Errors.{ok}
use alertloop.Domain.Delivery.{DeliveryAttempt}
use alertloop.Store.Session.{Session, read, autocommit, statement}
use alertloop.Store.Rows.{deliverable, contains, order, insert_ordered}
use alertloop.Store.Claim.{picked, id_in, sending_row, claim_limit, claim_due}
use alertloop.Store.Claim.Due.{picked-IsDue, claim_due-ok}
use alertloop.Store.Monitoring.{Signals, oldest_due, signals, monitoring}

insert_ordered-ne-nil : (a : DeliveryAttempt) (l : List DeliveryAttempt) → insert_ordered a l ≢ []
unfolding insert_ordered
insert_ordered-ne-nil a [] h = cc
insert_ordered-ne-nil a (b ∷ l) h = ground arith

take-ne-nil : (n : ℕ) (l : List DeliveryAttempt) → 1 ≤ n → l ≢ [] → take n l ≢ []
take-ne-nil zero l h ne e = absurd (omega arith)
take-ne-nil (suc n) [] h ne e = ne refl
take-ne-nil (suc n) (a ∷ l) h ne e = cc

-- no skipped channel
abbrev eligible : ℕ → List DeliveryAttempt → DeliveryAttempt → Bool
eligible now all c = deliverable now all c && not (contains [] c.channel_name)

-- None is due exactly if none is eligible.
oldest-nil :
    (now : ℕ) (all l : List DeliveryAttempt)
    → oldest_due now all l ≡ none
    → select (eligible now all) l ≡ []
unfolding oldest_due select contains
oldest-nil now all [] h = refl
oldest-nil now all (a ∷ l) h = ground (arith, oldest-nil now all l)

nil-oldest :
    (now : ℕ) (all l : List DeliveryAttempt)
    → select (eligible now all) l ≡ []
    → oldest_due now all l ≡ none
unfolding oldest_due select contains
nil-oldest now all [] h = refl
nil-oldest now all (a ∷ l) h = ground (arith, nil-oldest now all l)

picked-nil :
    (now limit : ℕ) (l : List DeliveryAttempt)
    → 1 ≤ limit
    → picked now limit [] l ≡ []
    → select (eligible now l) l ≡ []
unfolding picked order
picked-nil now limit l h e = nil (select (eligible now l) l) e
  where
    nil : (k : List DeliveryAttempt) → take limit (order k) ≡ [] → k ≡ []
    nil [] e = refl
    nil (a ∷ k) e =
        absurd
          (take-ne-nil limit (insert_ordered a (order k)) h (insert_ordered-ne-nil a (order k)) e)

nil-picked :
    (now limit : ℕ) (l : List DeliveryAttempt)
    → select (eligible now l) l ≡ []
    → picked now limit [] l ≡ []
unfolding picked order
nil-picked now zero l e = refl
nil-picked now (suc limit) l e = ap (λ k. take (suc limit) (order k)) e

-- the rows that a claim of some ids returns
claimed-nil :
    (now : ℕ) (l : List DeliveryAttempt)
    → map (sending_row now) (select (λ a. id_in [] a.id) l) ≡ []
unfolding select id_in any
claimed-nil now [] = refl
claimed-nil now (a ∷ l) = claimed-nil now l

nil-claimed :
    (now : ℕ) (taken l : List DeliveryAttempt)
    → ((b : DeliveryAttempt) → Has b taken → Has b l)
    → map (sending_row now) (select (λ a. id_in taken a.id) l) ≡ []
    → taken ≡ []
unfolding id_in any
nil-claimed now [] l stored e = refl
nil-claimed now (b ∷ t) l stored e =
    let found =
      select-Has (λ a. id_in (b ∷ t) a.id) b l (stored b (inl refl)) (rw (==_refl b.id) refl) in
    absurd (none_left (select (λ a. id_in (b ∷ t) a.id) l) found e)
  where
    none_left : (k : List DeliveryAttempt) → Has b k → map (sending_row now) k ≡ [] → ⊥
    none_left [] h e = h
    none_left (a ∷ k) h e = cc

monitoring-ok :
    (heartbeat : Option ℕ) (now since : ℕ) (s : Session) (m : Signals)
    → (monitoring heartbeat now since s).0 ≡ ok m
    → m.oldest_due_since ≡ oldest_due now (s.others 0 s.db).attempts (s.others 0 s.db).attempts
unfolding monitoring autocommit read statement signals
monitoring-ok heartbeat now since s m h = ground arith

-- On the same tables, Monitoring tells of no due attempt exactly if a ClaimDue that skips no
-- channel takes none.
pub monitoring-claim_due :
    (heartbeat : Option ℕ) (now since limit : ℕ) (s : Session) (m : Signals)
    (rows : List DeliveryAttempt)
    → (monitoring heartbeat now since s).0 ≡ ok m
    → (claim_due now limit [] s).0 ≡ ok rows
    → (m.oldest_due_since ≡ none) ↔ (rows ≡ [])
monitoring-claim_due heartbeat now since limit s m rows h k =
    let l = (s.others 0 s.db).attempts in
    let taken = picked now (claim_limit limit) [] l in
    let seen = monitoring-ok heartbeat now since s m h in
    let returned = (claim_due-ok now limit [] s rows k).returned in
    (
      λ e.
          returned
          ∙ ap (λ (t : List DeliveryAttempt). map (sending_row now) (select (λ a. id_in t a.id) l))
              (nil-picked now (claim_limit limit) l (oldest-nil now l l (sym seen ∙ e)))
          ∙ claimed-nil now l,
      λ e.
          seen
          ∙ nil-oldest now l l (
              picked-nil now (claim_limit limit) l (ground arith) (
                nil-claimed now taken l
                  (λ b i. (picked-IsDue now (claim_limit limit) [] l b i).stored)
                  (sym returned ∙ e))),
    )
