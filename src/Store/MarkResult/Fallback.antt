-- ===== src/Store/MarkResult/Fallback.antt =====
-- The alert that a lost one is redirected to.
use alertloop.Base.{
  ℕ, Bool, true, false, none, some, ◌∷◌, ◌≡◌, ◌∙◌, ◌⊎◌, suc, ap, sym, subst, arith, inr, Has,
  if◌then◌else◌, refl, inl,
}
use alertloop.Domain.Errors.{Result, ok, err, database}
use alertloop.Domain.Event.{EventState, is_resolved}
use alertloop.Domain.Delivery.{DeliveryAttempt}
use alertloop.Store.Schema.{Db}
use alertloop.Store.Session.{M, Session, pure, read, write}
use alertloop.Store.Session.Laws.{>>=-ok, same_result, read-ok, new_uuid-bind, ok-injective}
use alertloop.Store.Rows.{delivery_row, event_by_id, recovery_of}
use alertloop.Store.Events.{insert_delivery}
use alertloop.Store.Events.Inserts.{insert_delivery-ok}
use alertloop.Store.MarkResult.{
  redirected, has_recovery, recover_copy, after_copy, copy_recovery, insert_copy, queue_fallback,
  after_insert_copy,
}

insert_copy-ok :
    (source : ℕ) (copy : DeliveryAttempt) (s : Session) (queued : Bool)
    → (insert_copy source copy s).0 ≡ ok queued
    → ((queued ≡ false)
        × (redirected source s.db ≡ true)
        × ((insert_copy source copy s).1.db ≡ s.db))
      ⊎ ((queued ≡ true)
          × (redirected source s.db ≡ false)
          × ((insert_copy source copy s).1.db
              ≡ record s.db { attempts = delivery_row copy ∷ s.db.attempts }))
unfolding insert_copy write
insert_copy-ok source copy s queued h = ground arith

recover_copy-Has :
    (f a : DeliveryAttempt) (s : Session)
    → (recover_copy f s).0 ≡ ok tt
    → Has a s.db.attempts
    → Has a (recover_copy f s).1.db.attempts
unfolding recover_copy
recover_copy-Has f a s h m =
    let ins = λ (id : ℕ). insert_delivery (recovery_of id f f.max_attempts f.created_at) in
    let given = new_uuid-bind ins s in
    let t : Session = record s { uuids = λ n. s.uuids (suc n) } in
    let row = recovery_of (s.uuids 0) f f.max_attempts f.created_at in
    let done = insert_delivery-ok row t (same_result given h) in
    subst (λ (x : Session). Has a x.db.attempts) (sym (ap (λ r. r.1) given ∙ done)) (inr m)

optional-Has :
    (a : DeliveryAttempt) (b : Bool) (m : M (Unit {0})) (s : Session)
    → ((m s).0 ≡ ok tt → Has a (m s).1.db.attempts)
    → ((if b then m else pure tt) s).0 ≡ ok tt
    → Has a s.db.attempts
    → Has a ((if b then m else pure tt) s).1.db.attempts
unfolding pure
optional-Has a true m s keeps h k = keeps h
optional-Has a false m s keeps h k = k

copy_recovery-Has :
    (f a : DeliveryAttempt) (s : Session)
    → (copy_recovery f s).0 ≡ ok tt
    → Has a s.db.attempts
    → Has a (copy_recovery f s).1.db.attempts
unfolding copy_recovery
copy_recovery-Has f a s h m =
    let look = λ (d : Db). ok (has_recovery f.event_id d) in
    let next = λ (b : Bool). if b then recover_copy f else pure tt in
    let (b, first, p) = >>=-ok (read look) next s tt h in
    let (r, after) = read-ok look s b first in
    let m' : Has a (read look s).1.db.attempts =
      subst (λ (x : Session). Has a x.db.attempts) (sym after) m in
    subst (λ (t : Result (Unit {0}) × Session). Has a t.1.db.attempts) (sym p)
      (optional-Has a b (recover_copy f) (read look s).1
        (λ k. recover_copy-Has f a (read look s).1 k m') (same_result p h) m')

after_copy-Has :
    (f a : DeliveryAttempt) (s : Session)
    → (after_copy f s).0 ≡ ok tt
    → Has a s.db.attempts
    → Has a (after_copy f s).1.db.attempts
unfolding after_copy
after_copy-Has f a s h m =
    let look = λ (d : Db). elim (event_by_id f.event_id d) as (λ _. Result EventState) [
      | none ↦ err database
      | some e ↦ ok e.state
    ] in
    let next = λ (state : EventState). if is_resolved state then copy_recovery f else pure tt in
    let (state, first, p) = >>=-ok (read look) next s tt h in
    let (r, after) = read-ok look s state first in
    let m' : Has a (read look s).1.db.attempts =
      subst (λ (x : Session). Has a x.db.attempts) (sym after) m in
    subst (λ (t : Result (Unit {0}) × Session). Has a t.1.db.attempts) (sym p)
      (optional-Has a (is_resolved state) (copy_recovery f) (read look s).1
        (λ k. copy_recovery-Has f a (read look s).1 k m') (same_result p h) m')

-- What a call of queueFallback came to: `before` and `after` are the tables around it.
pub data Redirection (source : ℕ) (f : DeliveryAttempt) (before after : Db)
    : DeliveryAttempt → Type 0 where
  already :
      redirected source before ≡ true
      → after ≡ before
      → Redirection source f before after (record f { fallback_of = none })
  now_queued :
      redirected source before ≡ false
      → Has (delivery_row (record f { fallback_of = some source })) after.attempts
      → Redirection source f before after (record f { fallback_of = some source })

after_insert_copy-Redirection :
    (source : ℕ) (f r : DeliveryAttempt) (queued : Bool) (s s' : Session)
    → (insert_copy source (record f { fallback_of = some source }) s).0 ≡ ok queued
    → (insert_copy source (record f { fallback_of = some source }) s).1 ≡ s'
    → (after_insert_copy source f queued s').0 ≡ ok r
    → Redirection source f s.db (after_insert_copy source f queued s').1.db r
unfolding after_insert_copy pure
after_insert_copy-Redirection source f r false s s' i e h =
    let copy = record f { fallback_of = some source } in
    elim (insert_copy-ok source copy s false i) [
      | inl (b, was, same) ↦
          subst (λ (x : DeliveryAttempt). Redirection source f s.db s'.db x) (ok-injective h)
            (Redirection.already was (ap (λ (x : Session). x.db) (sym e) ∙ same))
      | inr (b, was, stored) ↦ absurd (ground arith)
    ]
after_insert_copy-Redirection source f r true s s' i e h =
    let copy = record f { fallback_of = some source } in
    let (u, first, p) = >>=-ok (after_copy f) (λ _. pure copy) s' r h in
    let end = (after_insert_copy source f true s').1.db in
    elim (insert_copy-ok source copy s true i) [
      | inl (b, was, same) ↦ absurd (ground arith)
      | inr (b, was, stored) ↦
          let there : Has (delivery_row copy) s'.db.attempts =
            subst (λ (x : Session). Has (delivery_row copy) x.db.attempts) e
              (subst (λ (x : Db). Has (delivery_row copy) x.attempts) (sym stored) (inl refl)) in
          let kept = after_copy-Has f (delivery_row copy) s' first there in
          let path : end ≡ (after_copy f s').1.db = ap (λ t. t.1.db) p in
          subst (λ (x : DeliveryAttempt). Redirection source f s.db end x)
            (ok-injective (same_result p h))
            (Redirection.now_queued was
              (subst (λ (x : Db). Has (delivery_row copy) x.attempts) (sym path) kept))
    ]

-- A queueFallback that succeeds either found a redirection of the attempt, answers without a link
-- and changes nothing, or found none, answers the copy linked to the attempt, and that copy is
-- stored.
pub queue_fallback-Redirection :
    (source : ℕ) (f r : DeliveryAttempt) (s : Session)
    → (queue_fallback source f s).0 ≡ ok r
    → Redirection source f s.db (queue_fallback source f s).1.db r
unfolding queue_fallback
queue_fallback-Redirection source f r s h =
    let copy = record f { fallback_of = some source } in
    let (queued, first, p) = >>=-ok (insert_copy source copy) (after_insert_copy source f) s r h in
    subst (λ (x : Result DeliveryAttempt × Session). Redirection source f s.db x.1.db r) (sym p)
      (after_insert_copy-Redirection source f r queued s (insert_copy source copy s).1 first refl
        (same_result p h))
