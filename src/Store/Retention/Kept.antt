-- ===== src/Store/Retention/Kept.antt =====
-- internal/storage/sql_store.go: what a sweep of events leaves alone.
use alertloop.Domain.Delivery.{DeliveryAttempt}
use alertloop.Domain.Event.{Event}
use alertloop.Domain.Errors.{Result, ok, err}
use alertloop.Base.{
  ℕ, zero, suc, ◌≡◌, refl, Bool, true, false, List, [], ◌∷◌, Has, Bool-cases, inl, inr, ap, sym,
  ◌∙◌, Has-any, ◌==◌, ltb, ◌+◌, not, subst, arith, select-Has,
}
use alertloop.Store.Schema.{Db}
use alertloop.Store.Session.{Session, statement, autocommit}
use alertloop.Store.Retention.{
  cut, delete_batch, Answer, after_batch, sweep, batch, outdated, refers_to, delete_events,
  delete_events_before,
}

module _ {A : Type 0} (p : A → Bool) where
  Has-cut_removed : (n : ℕ) (x : A) (l : List A) → Has x (cut n p l).0 → Has x l × (p x ≡ true)
  unfolding cut
  Has-cut_removed n x [] h = absurd h
  Has-cut_removed zero x (y ∷ l) h = absurd h
  Has-cut_removed (suc n) x (y ∷ l) h = elim (Bool-cases (p y)) [
    | inl t ↦ elim (let k : Has x (y ∷ (cut n p l).0) = rw t at h in k) [
      | inl e ↦ (inl e, ap p e ∙ t)
      | inr m ↦ let (k, r) = Has-cut_removed n x l m in (inr k, r)
    ]
    | inr f ↦ let (k, r) = Has-cut_removed (suc n) x l (rw f at h) in (inr k, r)
  ]

  Has-cut_kept : (n : ℕ) (x : A) (l : List A) → Has x (cut n p l).1 → Has x l
  unfolding cut
  Has-cut_kept n x [] h = absurd h
  Has-cut_kept zero x (y ∷ l) h = h
  Has-cut_kept (suc n) x (y ∷ l) h = elim (Bool-cases (p y)) [
    | inl t ↦ inr (Has-cut_kept n x l (rw t at h))
    | inr f ↦ elim (let k : Has x (y ∷ (cut (suc n) p l).1) = rw f at h in k) [
      | inl e ↦ inl e
      | inr m ↦ inr (Has-cut_kept (suc n) x l m)
    ]
  ]

  cut_kept-Has : (n : ℕ) (x : A) (l : List A) → Has x l → p x ≡ false → Has x (cut n p l).1
  unfolding cut
  cut_kept-Has n x [] h f = absurd h
  cut_kept-Has zero x (y ∷ l) h f = h
  cut_kept-Has (suc n) x (y ∷ l) (inl e) f = rw (sym (ap p e) ∙ f) (inl e)
  cut_kept-Has (suc n) x (y ∷ l) (inr m) f = elim (Bool-cases (p y)) [
    | inl t ↦ rw t (cut_kept-Has n x l m f)
    | inr g ↦ rw g (inr (cut_kept-Has (suc n) x l m f))
  ]

-- What each statement and the others keep, a sweep keeps, whatever fails and whenever it stops.
module _ (P : Db → Type 0) (f : Db → ℕ × Db) (kept : (d : Db) → P d → P (f d).1) where
  delete_batch-keeps :
      (s : Session)
      → P (s.others 0 s.db)
      → (P (delete_batch f s).1.db) × ((delete_batch f s).1.others ≡ (λ n. s.others (suc n)))
  unfolding delete_batch statement autocommit
  delete_batch-keeps s h = elim (Bool-cases (s.faults 0)) [
    | inl e ↦ rw e (h, refl)
    | inr e ↦ rw e (kept (s.others 0 s.db) h, refl)
  ]

  abbrev OthersKeep : Session → Type 0
  OthersKeep s = (n : ℕ) (d : Db) → P d → P (s.others n d)

  module _ (done : ℕ → Bool) where
    after_batch-keeps :
        (rest : ℕ → Session → Answer × Session) (k total : ℕ) (r : Result ℕ) (s : Session)
        → P s.db
        → ((n : ℕ) → P (rest n s).1.db)
        → P (after_batch f done rest k total (r, s)).1.db
    unfolding after_batch
    after_batch-keeps rest k total (err e) s h go = h
    after_batch-keeps rest k total (ok n) s h go = elim (Bool-cases (ltb n batch)) [
      | inl e ↦ rw e h
      | inr e ↦ elim (Bool-cases (done k)) [
        | inl o ↦ rw (e, o) h
        | inr o ↦ rw (e, o) (go (total + n))
      ]
    ]

    sweep-keeps :
        (fuel k total : ℕ) (s : Session)
        → P s.db
        → OthersKeep s
        → P (sweep f done fuel k total s).1.db
    unfolding sweep
    sweep-keeps zero k total s h others = h
    sweep-keeps (suc fuel) k total s h others = elim (Bool-cases (done k)) [
      | inl o ↦ rw o h
      | inr o ↦
          let (p, e) = delete_batch-keeps s (others 0 s.db h) in
          let (r, s') = delete_batch f s in
          let then_kept : OthersKeep s' =
            subst (λ (g : ℕ → Db → Db). (n : ℕ) (d : Db) → P d → P (g n d)) (sym e)
              (λ n. others (suc n)) in
          rw o (
            after_batch-keeps (sweep f done fuel (suc (suc k))) (suc k) total r s' p
              (λ n. sweep-keeps fuel (suc (suc k)) n s' p then_kept))
    ]

-- An event that is stored and, with all rows of its id, not outdated, and one of its attempts.
abbrev pub Current : ℕ → Event → DeliveryAttempt → Db → Type 0
Current cutoff e a d =
    Has e d.events
    × Has a d.attempts
    × ((other : Event)
        → Has other d.events
        → (other.id == e.id) ≡ true
        → outdated cutoff other ≡ false)

module _ (cutoff : ℕ) (e : Event) (a : DeliveryAttempt) (of : a.event_id ≡ e.id) where
  refers_to-removed :
      (d : Db) → Current cutoff e a d → refers_to (cut batch (outdated cutoff) d.events).0 a ≡ false
  unfolding refers_to
  refers_to-removed d c = elim (Bool-cases (refers_to (cut batch (outdated cutoff) d.events).0 a)) [
    | inl t ↦
        let (other, m, same) =
          Has-any (λ (x : Event). x.id == a.event_id) (cut batch (outdated cutoff) d.events).0 t in
        let (stored, old) = Has-cut_removed (outdated cutoff) batch other d.events m in
        cc (c.2 other stored (rw (sym of) same))
    | inr f ↦ f
  ]

  delete_events-Current :
      (d : Db) → Current cutoff e a d → Current cutoff e a (delete_events batch cutoff d).1
  unfolding delete_events
  delete_events-Current d c = (
    cut_kept-Has (outdated cutoff) batch e d.events c.0 (c.2 e c.0 (ground arith)),
    select-Has (λ x. not (refers_to (cut batch (outdated cutoff) d.events).0 x)) a d.attempts c.1
        (rw (refers_to-removed d c) refl),
    λ other m same. c.2 other (Has-cut_kept (outdated cutoff) batch other d.events m) same,
  )

  -- A DeleteEventsBefore, whatever statement fails and whenever it stops, keeps an event that is
  -- not older than the cutoff and its attempts, if the others do and no stored row of its id is
  -- older.
  pub delete_events_before-Current :
      (done : ℕ → Bool) (fuel : ℕ) (s : Session)
      → Current cutoff e a s.db
      → ((n : ℕ) (d : Db) → Current cutoff e a d → Current cutoff e a (s.others n d))
      → Current cutoff e a (delete_events_before cutoff done fuel s).1.db
  unfolding delete_events_before
  delete_events_before-Current done fuel s h others =
      sweep-keeps (Current cutoff e a) (delete_events batch cutoff) delete_events-Current done fuel
        0 0 s h others
