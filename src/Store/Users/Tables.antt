-- ===== src/Store/Users/Tables.antt =====
-- internal/storage/users.go: the tables of accounts and sessions, and what a statement and a
-- transaction do to them. An id is its text.
use alertloop.Base.{ℕ, suc, Bool, Option, List, Text, if◌then◌else◌}

pub record User : Type 0 where
  pub id : Text
  pub login : Text
  pub password_hash : Text
  pub created_at : ℕ
  pub disabled_at : Option ℕ
  pub last_login_at : Option ℕ

-- Session of this file
pub record SignIn : Type 0 where
  pub id : Text
  pub user_id : Text
  pub created_at : ℕ
  pub last_seen_at : ℕ
  pub expires_at : ℕ
  pub ip : Text
  pub user_agent : Text

-- the tables users and sessions
pub record Accounts : Type 0 where
  pub users : List User
  pub sessions : List SignIn

-- `database` is an error of the driver.
pub data UserError : Type 0 where
  login_taken users_exist no_user : UserError
  database : UserError

pub data Reply (A : Type 0) : Type 0 where
  done : A → Reply A
  failed : UserError → Reply A

-- The tables, the schedule of statements that fail, and whether the engine is PostgreSQL, which
-- reports a clash of primary keys as it does one of logins; SQLite does not.
pub record Conn : Type 0 where
  pub accounts : Accounts
  pub faults : ℕ → Bool
  pub postgres : Bool

abbrev pub Call : Type 0 → Type 0
Call A = Conn → Reply A × Conn

abbrev pub next : Conn → Conn
next c = record c { faults = λ n. c.faults (suc n) }

-- One statement: it fails as a whole, or gives its result and the tables after it.
unfoldable pub statement : {A : Type 0} → (Accounts → Reply A × Accounts) → Call A
statement f c =
    if c.faults 0
    then (failed database, next c)
    else let (r, a) = f c.accounts in (r, record (next c) { accounts = a })

abbrev pub follow : {A B : Type 0} → Reply A × Conn → (A → Call B) → Reply B × Conn
follow (done a, c) f = f a c
follow (failed e, c) f = (failed e, c)

-- the end of inTx: an error of the body or of the commit rolls back
unfoldable pub commit : {A : Type 0} → Accounts → Reply A × Conn → Reply A × Conn
commit before (failed e, c) = (failed e, record c { accounts = before })
commit before (done a, c) =
    if c.faults 0
    then (failed database, record (next c) { accounts = before })
    else (done a, next c)

unfoldable pub in_tx : {A : Type 0} → Call A → Call A
unfolding commit
in_tx body c = if c.faults 0 then (failed database, next c) else commit c.accounts (body (next c))
