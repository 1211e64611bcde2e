-- ===== src/Store/Session.antt =====
-- What a store method runs in: the database, which other processes write between this one's
-- transactions, a schedule of statements that fail, and the supply of UUIDs. A transaction is
-- serial, as on SQLite's single connection and under PostgreSQL's row locks.
pub mod Laws
pub mod Spares
use alertloop.Base.{ℕ, suc, Bool, if◌then◌else◌}
use alertloop.Domain.Errors.{Error, Result, ok, err, unique_violation, database}
use alertloop.Store.Schema.{Db, uniques_hold, foreign_keys_hold}

pub record Session : Type 0 where
  pub db : Db
  -- whether the statement that is n statements ahead fails
  pub faults : ℕ → Bool
  -- what others commit before the turn that is n turns ahead
  pub others : ℕ → Db → Db
  -- what uuid.NewString returns n calls ahead
  pub uuids : ℕ → ℕ
  -- the clock, n readings ahead
  pub clock : ℕ → ℕ

abbrev pub M : Type 0 → Type 0
M A = Session → Result A × Session

unfoldable pub pure : {A : Type 0} → A → M A
pure a s = (ok a, s)

unfoldable pub raise : {A : Type 0} → Error → M A
raise e s = (err e, s)

abbrev pub continue : {A B : Type 0} → Result A → (A → M B) → M B
continue (ok a) f s = f a s
continue (err e) f s = (err e, s)

infixl 5 ◌>>=◌ ◌>>◌
unfoldable pub ◌>>=◌ : {A B : Type 0} → M A → (A → M B) → M B
unfolding pure raise
◌>>=◌ m f s = let (r, s') = m s in continue r f s'

abbrev pub ◌>>◌ : {A B : Type 0} → M A → M B → M B
m >> k = m >>= λ _. k

-- The error as a value, for the callers that test it.
unfoldable pub try : {A : Type 0} → M A → M (Result A)
try m s = let (r, s') = m s in (ok r, s')

unfoldable pub new_uuid : M ℕ
new_uuid s = (ok (s.uuids 0), record s { uuids = λ n. s.uuids (suc n) })

unfoldable pub now : M ℕ
now s = (ok (s.clock 0), record s { clock = λ n. s.clock (suc n) })

-- the next statement's place in the schedule of faults is used up
abbrev pub tick : Session → Session
tick s = record s { faults = λ n. s.faults (suc n) }

-- Others commit before this process's next transaction.
abbrev pub turn : Session → Session
turn s = record s { db = s.others 0 s.db; others = λ n. s.others (suc n) }

-- One statement: it fails as a whole and changes nothing, or computes its rows and its result.
unfoldable pub statement : {A : Type 0} → (Db → Result A × Db) → M A
statement f s =
    if s.faults 0
    then (err database, tick s)
    else let (r, d) = f s.db in (r, record (tick s) { db = d })

-- The engine refuses a write that breaks a constraint. A clash of primary keys is a unique violation
-- as on PostgreSQL; isUniqueViolation does not take SQLite's error for one, but ids are fresh UUIDs.
unfoldable pub checked : {A : Type 0} → A × Db → Db → Result A × Db
checked (a, d') d =
    if uniques_hold d'
    then (if foreign_keys_hold d' then (ok a, d') else (err database, d))
    else (err unique_violation, d)

unfoldable pub write : {A : Type 0} → (Db → A × Db) → M A
unfolding statement checked
write f = statement (λ d. checked (f d) d)

unfoldable pub read : {A : Type 0} → (Db → Result A) → M A
unfolding statement
read f = statement (λ d. (f d, d))

-- A statement outside any transaction commits by itself.
unfoldable pub autocommit : {A : Type 0} → M A → M A
autocommit m s = m (turn s)

unfoldable pub settle : {A : Type 0} → Db → Result A × Session → Result A × Session
settle before (err e, s) = (err e, record s { db = before })
settle before (ok a, s) =
    if s.faults 0 then (err database, record (tick s) { db = before }) else (ok a, tick s)

-- BeginTx, the body, Commit. An error of the body or of the commit rolls back.
unfoldable pub transaction : {A : Type 0} → M A → M A
unfolding settle
transaction body s =
    let t = turn s in if t.faults 0 then (err database, tick t) else settle t.db (body (tick t))

-- Opens all of the above, for runs.
unfoldable pub session_code : Unit {0}
unfolding transaction ◌>>=◌ try autocommit read write uniques_hold foreign_keys_hold new_uuid now
session_code = tt
