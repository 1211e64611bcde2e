-- ===== src/Store/Users.antt =====
-- internal/storage/users.go: the operations on the console's accounts and their sessions.
pub mod Tables
pub mod Atomic
pub mod Steps
pub mod Disabled
pub mod First
use alertloop.Base.{
  ℕ, suc, ◌+◌, leb, ltb, Bool, true, false, not, ◌&&◌, ◌||◌, Option, none, some, List, [], ◌∷◌,
  Text, text_eq, select, find, any, update, if◌then◌else◌, length,
}
use alertloop.Store.Users.Tables.{
  User, SignIn, Accounts, UserError, login_taken, users_exist, no_user, database, Reply, done,
  failed, Conn, Call, statement, follow, in_tx,
}

unfoldable pub has_id : Text → User → Bool
unfolding text_eq
has_id i u = text_eq u.id i

unfoldable pub has_login : Text → User → Bool
unfolding text_eq
has_login l u = text_eq u.login l

unfoldable pub is_session : Text → SignIn → Bool
unfolding text_eq
is_session i s = text_eq s.id i

unfoldable pub is_of : Text → SignIn → Bool
unfolding text_eq
is_of i s = text_eq s.user_id i

-- INSERT INTO users; `clash` is what the caller makes of a unique violation
unfoldable pub insert_user : UserError → Bool → User → Accounts → Reply Unit × Accounts
unfolding has_id has_login any
insert_user clash postgres u a =
    if any (has_login u.login) a.users
    then (failed clash, a)
    else if any (has_id u.id) a.users
    then (failed (if postgres then clash else database), a)
    else (done tt, record a { users = u ∷ a.users })

-- the row as INSERT writes it
unfoldable pub new_row : User → User
new_row u = record u { disabled_at = none; last_login_at = none }

unfoldable pub create_user : User → Call Unit
unfolding statement insert_user new_row
create_user u c = statement (insert_user login_taken c.postgres (new_row u)) c

unfoldable pub no_users : List User → Bool
no_users [] = true
no_users (_ ∷ _) = false

unfoldable pub insert_first : Bool → User → Accounts → Reply Unit × Accounts
unfolding insert_user new_row no_users
insert_first postgres u a =
    if no_users a.users
    then insert_user users_exist postgres (new_row u) a
    else (failed users_exist, a)

-- the advisory lock is one more statement
unfoldable pub lock_users : Call Unit
unfolding statement
lock_users c = if c.postgres then statement (λ a. (done tt, a)) c else (done tt, c)

-- the statements of create_first_user
unfoldable pub first_user_tx : User → Call Unit
unfolding lock_users statement insert_first
first_user_tx u c = follow (lock_users c) (λ _. statement (insert_first c.postgres u))

unfoldable pub create_first_user : User → Call Unit
unfolding in_tx first_user_tx
create_first_user u = in_tx (first_user_tx u)

-- execOne of an UPDATE of the users with one id
unfoldable pub update_one : Text → (User → User) → Accounts → Reply Unit × Accounts
unfolding any has_id update
update_one i f a =
    if any (has_id i) a.users
    then (done tt, record a { users = update (has_id i) f a.users })
    else (failed no_user, a)

unfoldable pub delete_sessions : (SignIn → Bool) → Accounts → Reply Unit × Accounts
unfolding select
delete_sessions p a = (done tt, record a { sessions = select (λ s. not (p s)) a.sessions })

-- the statements of set_user_password
unfoldable pub password_tx : Text → Text → Text → Call Unit
unfolding statement update_one delete_sessions is_of is_session
password_tx i hash keep c =
    follow (statement (update_one i (λ u. record u { password_hash = hash })) c)
      (λ _. statement (delete_sessions (λ s. is_of i s && not (is_session keep s))))

unfoldable pub set_user_password : Text → Text → Text → Call Unit
unfolding in_tx password_tx
set_user_password i hash keep = in_tx (password_tx i hash keep)

unfoldable pub disabled : ℕ → User → User
disabled at u = record u { disabled_at = elim u.disabled_at [ none ↦ some at | some t ↦ some t ] }

-- the statements of disable_user
unfoldable pub disable_tx : Text → ℕ → Call Unit
unfolding statement update_one disabled delete_sessions is_of
disable_tx i at c =
    follow (statement (update_one i (disabled at)) c) (λ _. statement (delete_sessions (is_of i)))

unfoldable pub disable_user : Text → ℕ → Call Unit
unfolding in_tx disable_tx
disable_user i at = in_tx (disable_tx i at)

unfoldable pub enable_user : Text → Call Unit
unfolding statement update_one
enable_user i = statement (update_one i (λ u. record u { disabled_at = none }))

-- a clash of ids, or a user that is not there, is the driver's error
unfoldable pub insert_session : SignIn → Accounts → Reply Unit × Accounts
unfolding any is_session has_id
insert_session s a =
    if any (is_session s.id) a.sessions || not (any (has_id s.user_id) a.users)
    then (failed database, a)
    else (done tt, record a { sessions = s ∷ a.sessions })

-- the statements of create_session
unfoldable pub sign_in_tx : SignIn → Call Unit
unfolding statement insert_session update_one
sign_in_tx s c =
    follow (statement (insert_session s) c)
      (λ _. statement (update_one s.user_id (λ u. record u { last_login_at = some s.created_at })))

unfoldable pub create_session : SignIn → Call Unit
unfolding in_tx sign_in_tx
create_session s = in_tx (sign_in_tx s)

abbrev pub touch_every : ℕ
touch_every = 60000000000

unfoldable pub enabled : User → Bool
enabled u = elim u.disabled_at [ none ↦ true | some t ↦ false ]

-- the join of the query: the first row of the session with an enabled user
unfoldable pub join : List User → ℕ → ℕ → Text → List SignIn → Option (SignIn × User)
unfolding find has_id enabled is_session
join users now idle_since i [] = none
join users now idle_since i (s ∷ l) =
    let rest = join users now idle_since i l in
    if is_session i s && ltb now s.expires_at && ltb idle_since s.last_seen_at
    then elim (find (λ u. has_id s.user_id u && enabled u) users) [
      | none ↦ rest
      | some u ↦ some (s, u)
    ]
    else rest

unfoldable pub read_session : Text → ℕ → ℕ → Accounts → Reply (SignIn × User) × Accounts
unfolding join
read_session i now idle_since a = elim (join a.users now idle_since i a.sessions) [
  | none ↦ (failed no_user, a)
  | some found ↦ (done found, a)
]

unfoldable pub touch : Text → ℕ → Accounts → Reply Unit × Accounts
unfolding update is_session
touch i now a = (
  done tt,
  record a { sessions = update (is_session i) (λ s. record s { last_seen_at = now }) a.sessions },
)

-- what follows the query: a session that was last seen long ago is touched
unfoldable pub touched : Text → ℕ → SignIn × User → Call User
unfolding statement touch
touched i now (s, u) c =
    if leb (s.last_seen_at + touch_every) now
    then follow (statement (touch i now) c) (λ _ d. (done u, d))
    else (done u, c)

unfoldable pub session_user : Text → ℕ → ℕ → Call User
unfolding statement read_session touched
session_user i now idle_since c =
    follow (statement (read_session i now idle_since) c) (touched i now)

unfoldable pub delete_session : Text → Call Unit
unfolding statement delete_sessions is_session
delete_session i = statement (delete_sessions (is_session i))

unfoldable pub delete_user_sessions : Text → Call Unit
unfolding statement delete_sessions is_of
delete_user_sessions i = statement (delete_sessions (is_of i))

-- the count of the rows is left out
unfoldable pub delete_expired_sessions : ℕ → ℕ → Call Unit
unfolding statement delete_sessions
delete_expired_sessions now idle_since =
    statement (delete_sessions (λ s. leb s.expires_at now || leb s.last_seen_at idle_since))

unfoldable pub found_user : Option User → Accounts → Reply User × Accounts
found_user none a = (failed no_user, a)
found_user (some u) a = (done u, a)

unfoldable pub get_user : Text → Call User
unfolding statement found_user find has_id
get_user i = statement (λ a. found_user (find (has_id i) a.users) a)

unfoldable pub user_by_login : Text → Call User
unfolding statement found_user find has_login
user_by_login l = statement (λ a. found_user (find (has_login l) a.users) a)

unfoldable pub count_users : Call ℕ
unfolding statement
count_users = statement (λ a. (done (length a.users), a))
