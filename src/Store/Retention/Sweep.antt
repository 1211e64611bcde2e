-- ===== src/Store/Retention/Sweep.antt =====
-- internal/storage/sql_store.go: a sweep of which nothing stops a batch takes all that is old.
use alertloop.Base.{
  ℕ, zero, suc, ◌+◌, ◌<◌, ltb, ◌≡◌, refl, Bool, false, none, some, List, [], ◌∷◌, length, count,
  arith, Bool-cases, inl, inr, ◌∙◌, ap,
}
use alertloop.Domain.Errors.{ok}
use alertloop.Store.Schema.{Db, has_event}
use alertloop.Store.Session.{Session, statement, autocommit, turn, tick}
use alertloop.Store.Retention.{
  cut, batch, outdated, orphan, delete_events, delete_orphans, delete_batch, after_batch, sweep,
  delete_events_before, delete_delivery_attempts_before,
}

module _ {A : Type 0} (p : A → Bool) where
  -- What is cut off and what is left are all rows that pass.
  cut-count : (n : ℕ) (l : List A) → length (cut n p l).0 + count p (cut n p l).1 ≡ count p l
  unfolding cut count
  cut-count n [] = omega arith
  cut-count zero (x ∷ l) = omega arith
  cut-count (suc n) (x ∷ l) = elim (Bool-cases (p x)) [
    | inl t ↦ rw t (omega (arith, cut-count n l))
    | inr f ↦ rw f (ground (arith, f, cut-count (suc n) l))
  ]

  -- A batch that is not full leaves none that passes.
  cut_short : (n : ℕ) (l : List A) → length (cut n p l).0 < n → count p (cut n p l).1 ≡ 0
  unfolding cut count
  cut_short n [] h = refl
  cut_short zero (x ∷ l) h = absurd (omega arith)
  cut_short (suc n) (x ∷ l) h = elim (Bool-cases (p x)) [
    | inl t ↦
        rw t (cut_short n l (let k : suc (length (cut n p l).0) < suc n = rw t at h in omega arith))
    | inr f ↦ rw f (ground (arith, f, cut_short (suc n) l (rw f at h)))
  ]

-- A session of this process alone, in which every statement runs.
abbrev pub Undisturbed : Session → Type 0
Undisturbed s = ((n : ℕ) → s.faults n ≡ false) × ((n : ℕ) (d : Db) → s.others n d ≡ d)

module _ (f : Db → ℕ × Db) (left : Db → ℕ) where
  -- `f` takes a batch of the rows that `left` counts.
  record TakesBatch : Type 0 where
    taken : (d : Db) → (f d).0 + left (f d).1 ≡ left d
    short : (d : Db) → (f d).0 < batch → left (f d).1 ≡ 0

  delete_batch-eq :
      (s : Session)
      → Undisturbed s
      → delete_batch f s ≡ (ok (f s.db).0, record (tick (turn s)) { db = (f s.db).1 })
  unfolding delete_batch statement autocommit
  delete_batch-eq s q = rw (q.0 0, q.1 0 s.db) refl

  sweep-all :
      TakesBatch
      → (done : ℕ → Bool) → ((k : ℕ) → done k ≡ false)
      → (fuel k total : ℕ) (s : Session) → Undisturbed s
      → left s.db < fuel
      → ((sweep f done fuel k total s).0 ≡ some (total + left s.db, none))
        × (left (sweep f done fuel k total s).1.db ≡ 0)
  unfolding sweep after_batch
  sweep-all t done on zero k total s q h = absurd (omega arith)
  sweep-all t done on (suc fuel) k total s q h =
      rw (on k, delete_batch-eq s q)
        (elim (Bool-cases (ltb (f s.db).0 batch)) [
          | inl e ↦ rw e (
            ap (λ n. some (n, none)) (omega (arith, t.taken s.db, t.short s.db (ground arith))),
            t.short s.db (ground arith),
          )
          | inr e ↦
              let s' : Session = record (tick (turn s)) { db = (f s.db).1 } in
              let (a, b) =
                sweep-all t done on fuel (suc (suc k)) (total + (f s.db).0) s'
                  (λ n. q.0 (suc n), λ n. q.1 (suc n)) (ground (arith, t.taken s.db)) in
              rw (e, on (suc k)) (a ∙ ap (λ n. some (n, none)) (omega (arith, t.taken s.db)), b)
        ])

  sweep_from_zero :
      TakesBatch
      → (done : ℕ → Bool) → ((k : ℕ) → done k ≡ false)
      → (fuel : ℕ) (s : Session) → Undisturbed s
      → left s.db < fuel
      → ((sweep f done fuel 0 0 s).0 ≡ some (left s.db, none))
        × (left (sweep f done fuel 0 0 s).1.db ≡ 0)
  sweep_from_zero t done on fuel s q h =
      let (a, b) = sweep-all t done on fuel 0 0 s q h in
      (a ∙ ap (λ n. some (n, none)) (omega arith), b)

old_events : ℕ → Db → ℕ
old_events cutoff d = count (outdated cutoff) d.events

delete_events-TakesBatch :
    (cutoff : ℕ) → TakesBatch (delete_events batch cutoff) (old_events cutoff)
unfolding delete_events old_events
delete_events-TakesBatch cutoff = record {
  taken = λ d. cut-count (outdated cutoff) batch d.events;
  short = λ d h. cut_short (outdated cutoff) batch d.events h;
}

old_orphans : ℕ → Db → ℕ
old_orphans cutoff d = count (orphan cutoff d) d.attempts

delete_orphans-TakesBatch :
    (cutoff : ℕ) → TakesBatch (delete_orphans batch cutoff) (old_orphans cutoff)
unfolding delete_orphans old_orphans orphan has_event
delete_orphans-TakesBatch cutoff = record {
  taken = λ d. cut-count (orphan cutoff d) batch d.attempts;
  short = λ d h. cut_short (orphan cutoff d) batch d.attempts h;
}

-- A DeleteEventsBefore that runs alone, with no failing statement and no end of its context,
-- returns once its fuel is more than the events older than the cutoff, reports how many these were
-- and leaves none.
pub delete_events_before-all :
    (cutoff : ℕ) (done : ℕ → Bool) (fuel : ℕ) (s : Session)
    → ((k : ℕ) → done k ≡ false)
    → Undisturbed s
    → count (outdated cutoff) s.db.events < fuel
    → ((delete_events_before cutoff done fuel s).0
        ≡ some (count (outdated cutoff) s.db.events, none))
      × (count (outdated cutoff) (delete_events_before cutoff done fuel s).1.db.events ≡ 0)
unfolding delete_events_before old_events
delete_events_before-all cutoff done fuel s on q h =
    sweep_from_zero (delete_events batch cutoff) (old_events cutoff)
      (delete_events-TakesBatch cutoff) done on fuel s q h

pub delete_delivery_attempts_before-all :
    (cutoff : ℕ) (done : ℕ → Bool) (fuel : ℕ) (s : Session)
    → ((k : ℕ) → done k ≡ false)
    → Undisturbed s
    → count (orphan cutoff s.db) s.db.attempts < fuel
    → ((delete_delivery_attempts_before cutoff done fuel s).0
        ≡ some (count (orphan cutoff s.db) s.db.attempts, none))
      × (count
            (orphan cutoff (delete_delivery_attempts_before cutoff done fuel s).1.db)
            (delete_delivery_attempts_before cutoff done fuel s).1.db.attempts
          ≡ 0)
unfolding delete_delivery_attempts_before old_orphans
delete_delivery_attempts_before-all cutoff done fuel s on q h =
    sweep_from_zero (delete_orphans batch cutoff) (old_orphans cutoff)
      (delete_orphans-TakesBatch cutoff) done on fuel s q h
