-- ===== src/Store/Session/Spares.antt =====
-- Operations that, when they give certain results, leave the tables to the others: these hold what
-- the commits of the others made of them.
use alertloop.Base.{
  ℕ, suc, Bool, true, false, ◌≡◌, refl, ◌∙◌, sym, if◌then◌else◌, Bool-cases, inl, inr,
}
use alertloop.Domain.Errors.{Error, Result, ok, err}
use alertloop.Store.Schema.{Db}
use alertloop.Store.Session.{
  M, Session, pure, raise, continue, ◌>>=◌, try, new_uuid, now, turn, tick, statement, read,
  autocommit, settle, transaction,
}
use alertloop.Store.Session.Laws.{transaction-err}

-- Some turns of the others have passed, and nothing else.
pub data Passed : (ℕ → Db → Db) → Db → (ℕ → Db → Db) → Db → Type 0 where
  here : {o : ℕ → Db → Db} {d : Db} → Passed o d o d
  next : {o o' : ℕ → Db → Db} {d d' : Db} → Passed (λ n. o (suc n)) (o 0 d) o' d' → Passed o d o' d'

Passed_trans :
    {o o' o'' : ℕ → Db → Db} {d d' d'' : Db}
    → Passed o d o' d'
    → Passed o' d' o'' d''
    → Passed o d o'' d''
Passed_trans here q = q
Passed_trans (next p) q = next (Passed_trans p q)

one_turn : (o o' : ℕ → Db → Db) (d d' : Db) → o' ≡ (λ n. o (suc n)) → d' ≡ o 0 d → Passed o d o' d'
one_turn o o' d d' e f = rw (e, f) (next here)

abbrev pub Untouched : Session → Session → Type 0
Untouched s t = Passed s.others s.db t.others t.db

-- What the others will do is not changed.
abbrev pub KeepsOthers : {A : Type 0} → M A → Type 0
KeepsOthers m = (s : Session) → (m s).1.others ≡ s.others

abbrev pub is_err : {A : Type 0} → Result A → Bool
is_err (ok a) = false
is_err (err x) = true

-- whatever the result
abbrev pub any_result : {A : Type 0} → Result A → Bool
any_result r = true

abbrev pub Spares : {A : Type 0} → (Result A → Bool) → M A → Type 0
Spares P m = (s : Session) → P (m s).0 ≡ true → Untouched s (m s).1

module _ {A : Type 0} (P : Result A → Bool) where
  pub pure-Spares : (a : A) → Spares P (pure a)
  unfolding pure
  pure-Spares a s h = here

  pub raise-Spares : (x : Error) → Spares P (raise x)
  unfolding raise
  raise-Spares x s h = here

  pub if-Spares : (b : Bool) (m k : M A) → Spares P m → Spares P k → Spares P (if b then m else k)
  if-Spares true m k u v = u
  if-Spares false m k u v = v

  pub read-Spares : (f : Db → Result A) → Spares P (autocommit (read f))
  unfolding autocommit read statement
  read-Spares f s h = elim (Bool-cases (s.faults 0)) [
    | inl e ↦ rw e (next here)
    | inr e ↦ rw e (next here)
  ]

  pub weaken-Spares : (m : M A) → Spares any_result m → Spares P m
  weaken-Spares m u s h = u s refl

pub new_uuid-Spares : Spares any_result new_uuid
unfolding new_uuid
new_uuid-Spares s h = here

pub now-Spares : Spares any_result now
unfolding now
now-Spares s h = here

module _ {A B : Type 0} (m : M A) (f : A → M B) where
  continue-others :
      (r : Result A) (s : Session)
      → ((a : A) → KeepsOthers (f a))
      → (continue r f s).1.others ≡ s.others
  continue-others (ok a) s g = g a s
  continue-others (err x) s g = refl

  pub bind-others : KeepsOthers m → ((a : A) → KeepsOthers (f a)) → KeepsOthers (m >>= f)
  unfolding ◌>>=◌
  bind-others u v s = continue-others (m s).0 (m s).1 v ∙ u s

  -- The first part spares them, or the second gives none of the results in question.
  module _ (P : Result A → Bool) (Q : Result B → Bool) (first : Spares P m)
      (errors : (x : Error) → Q (err x) ≡ true → P (err x) ≡ true)
      (second : (a : A) → P (ok a) ≡ true → Spares Q (f a))
      (other : (a : A) → P (ok a) ≡ false → (t : Session) → Q (f a t).0 ≡ false) where
    continue-Untouched :
        (r : Result A) (s t : Session)
        → (P r ≡ true → Untouched s t)
        → Q (continue r f t).0 ≡ true
        → Untouched s (continue r f t).1
    continue-Untouched (ok a) s t k q = elim (Bool-cases (P (ok a))) [
      | inl p ↦ Passed_trans (k p) (second a p t q)
      | inr p ↦ absurd (let e : true ≡ false = sym q ∙ other a p t in cc)
    ]
    continue-Untouched (err x) s t k q = k (errors x q)

    pub bind-Spares : Spares Q (m >>= f)
    unfolding ◌>>=◌
    bind-Spares s q = continue-Untouched (m s).0 s (m s).1 (first s) q

  -- The first part spares them in any case.
  pub then-Spares :
      (Q : Result B → Bool) → Spares any_result m → ((a : A) → Spares Q (f a)) → Spares Q (m >>= f)
  then-Spares Q u v = bind-Spares any_result Q u (λ x q. refl) (λ a p. v a) (λ a p. cc)

settle-others :
    {A : Type 0} (d : Db) (r : Result A) (s : Session) → (settle d (r, s)).1.others ≡ s.others
unfolding settle
settle-others d (err e) s = refl
settle-others d (ok a) s = elim (Bool-cases (s.faults 0)) [ inl e ↦ rw e refl | inr e ↦ rw e refl ]

transaction-others :
    {A : Type 0} (m : M A)
    → KeepsOthers m
    → (s : Session) → (transaction m s).1.others ≡ (λ n. s.others (suc n))
unfolding transaction
transaction-others m u s = elim (Bool-cases ((turn s).faults 0)) [
  | inl e ↦ rw e refl
  | inr e ↦
      rw e
        (settle-others (turn s).db (m (tick (turn s))).0 (m (tick (turn s))).1 ∙ u (tick (turn s)))
]

-- A transaction spares the tables when it fails.
pub transaction-Spares : {A : Type 0} (m : M A) → KeepsOthers m → Spares is_err (transaction m)
transaction-Spares {A} m u s p = failed (transaction m s).0 refl p
  where
    failed :
        (r : Result A) → (transaction m s).0 ≡ r → is_err r ≡ true → Untouched s (transaction m s).1
    failed (ok a) e q = cc
    failed (err x) e q =
        one_turn s.others (transaction m s).1.others s.db (transaction m s).1.db
          (transaction-others m u s) (transaction-err m s x e)

-- The error as a value.
abbrev pub as_value : {A : Type 0} → (Result A → Bool) → Result (Result A) → Bool
as_value P (ok r) = P r
as_value P (err x) = true

pub try-Spares :
    {A : Type 0} (P : Result A → Bool) (m : M A) → Spares P m → Spares (as_value P) (try m)
unfolding try
try-Spares P m u s p = u s p

pub try_any-Spares : {A : Type 0} (m : M A) → Spares any_result m → Spares any_result (try m)
unfolding try
try_any-Spares m u s p = u s refl
