-- ===== src/Store/Session/Laws.antt =====
-- What holds of every transaction and of every statement.
use alertloop.Base.{◌⊎◌, inl, inr, refl, ap, sym, ◌∙◌, suc, ℕ, true, ◌≡◌, arith}
use alertloop.Domain.Errors.{Error, Result, ok, err}
use alertloop.Store.Schema.{Db, uniques_hold}
use alertloop.Store.Session.{
  new_uuid, read, M, Session, ◌>>=◌, continue, write, settle, transaction, turn, tick,
}

settle-err :
    {A : Type 0} (d : Db) (r : Result A) (s : Session) (x : Error)
    → (settle d (r, s)).0 ≡ err x
    → (settle d (r, s)).1.db ≡ d
unfolding settle
settle-err d (ok a) s x h = ground arith
settle-err d (err e) s x h = refl

-- A transaction that fails, at any statement or at the commit, leaves the database as it found it.
pub transaction-err :
    {A : Type 0} (m : M A) (s : Session) (x : Error)
    → (transaction m s).0 ≡ err x
    → (transaction m s).1.db ≡ s.others 0 s.db
unfolding transaction
transaction-err m s x h =
    ground (arith, settle-err (turn s).db (m (tick (turn s))).0 (m (tick (turn s))).1 x)

settle-ok :
    {A : Type 0} (d : Db) (r : Result A) (s : Session) (a : A)
    → (settle d (r, s)).0 ≡ ok a
    → (r ≡ ok a) × ((settle d (r, s)).1.db ≡ s.db)
unfolding settle
settle-ok d (ok b) s a h = ground arith
settle-ok d (err e) s a h = ground arith

-- A transaction that succeeds has run its body on what the others left.
pub transaction-ok :
    {A : Type 0} (m : M A) (s : Session) (a : A)
    → (transaction m s).0 ≡ ok a
    → ((m (tick (turn s))).0 ≡ ok a) × ((transaction m s).1.db ≡ (m (tick (turn s))).1.db)
unfolding transaction
transaction-ok m s a h =
    ground (arith, settle-ok (turn s).db (m (tick (turn s))).0 (m (tick (turn s))).1 a)

-- A write that succeeds stores its rows, and they meet the constraints.
pub record Wrote {A : Type 0} (f : Db → A × Db) (a : A) (s : Session) : Type 0 where
  pub result : (f s.db).0 ≡ a
  pub stored : (write f s).1 ≡ record (tick s) { db = (f s.db).1 }
  pub valid : uniques_hold (f s.db).1 ≡ true

pub write-ok :
    {A : Type 0} (f : Db → A × Db) (s : Session) (a : A) → (write f s).0 ≡ ok a → Wrote f a s
unfolding write
write-ok f s a h = record { result = ground arith; stored = ground arith; valid = ground arith }

continue-ok :
    {A B : Type 0} (r : Result A) (f : A → M B) (s : Session) (b : B)
    → (continue r f s).0 ≡ ok b
    → (a : A) × (r ≡ ok a) × (continue r f s ≡ f a s)
continue-ok (ok a) f s b h = (a, refl, refl)
continue-ok (err x) f s b h = cc

-- Inversion of a `do` block that succeeds.
pub >>=-ok :
    {A B : Type 0} (m : M A) (f : A → M B) (s : Session) (b : B)
    → ((m >>= f) s).0 ≡ ok b
    → (a : A) × ((m s).0 ≡ ok a) × ((m >>= f) s ≡ f a (m s).1)
unfolding ◌>>=◌
>>=-ok m f s b h = continue-ok (m s).0 f (m s).1 b h

pub new_uuid-bind :
    {B : Type 0} (f : ℕ → M B) (s : Session)
    → (new_uuid >>= f) s ≡ f (s.uuids 0) (record s { uuids = λ n. s.uuids (suc n) })
unfolding ◌>>=◌ new_uuid
new_uuid-bind f s = refl

-- The same result, reached by another call.
pub same_result : {A : Type 0} {p q : Result A × Session} {r : Result A} → p ≡ q → p.0 ≡ r → q.0 ≡ r
same_result e h = ap (λ t. t.0) (sym e) ∙ h

pub statement_keeps :
    {A : Type 0} (f : Db → A × Db) (s : Session)
    → ((write f s).1.others ≡ s.others) × ((write f s).1.uuids ≡ s.uuids)
unfolding write
statement_keeps f s = (ground arith, ground arith)

pub read-ok :
    {A : Type 0} (f : Db → Result A) (s : Session) (a : A)
    → (read f s).0 ≡ ok a
    → (f s.db ≡ ok a) × ((read f s).1 ≡ tick s)
unfolding read
read-ok f s a h = ground arith

pub Result-cases :
    {A : Type 0} (r : Result A) → ((a : A) × (r ≡ ok a)) ⊎ ((x : Error) × (r ≡ err x))
Result-cases (ok a) = inl (a, refl)
Result-cases (err x) = inr (x, refl)

pub ok-injective : {A : Type 0} {a b : A} → ok a ≡ ok b → a ≡ b
ok-injective e = cc
