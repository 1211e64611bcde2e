-- ===== src/Store/Users/Atomic.antt =====
-- internal/storage/users.go: the operations as data, and what a failed one leaves.
use alertloop.Base.{ℕ, Text, ◌≡◌, refl, arith, Bool-cases, inl, inr}
use alertloop.Store.Users.Tables.{
  User, SignIn, Accounts, UserError, Reply, done, failed, Conn, Call, statement, follow, commit,
  in_tx, next,
}
use alertloop.Store.Users.{
  insert_user, create_user, create_first_user, update_one, set_user_password, disable_user,
  enable_user, create_session, session_user, first_user_tx, password_tx, disable_tx, sign_in_tx,
  delete_session, delete_user_sessions, delete_expired_sessions, delete_sessions, read_session,
  touch, touched,
}

-- a call of UserStore that may change the tables
pub data Op : Type 0 where
  create create_first : User → Op
  set_password : (id hash keep : Text) → Op
  disable : (id : Text) (at : ℕ) → Op
  enable : (id : Text) → Op
  sign_in : SignIn → Op
  look_up : (id : Text) (now idle_since : ℕ) → Op
  end_session end_sessions : (id : Text) → Op
  expire : (now idle_since : ℕ) → Op

unfoldable pub run : Op → Call Unit
unfolding create_user create_first_user set_user_password disable_user enable_user create_session
    session_user delete_session delete_user_sessions delete_expired_sessions
run (create u) = create_user u
run (create_first u) = create_first_user u
run (set_password i hash keep) = set_user_password i hash keep
run (disable i at) = disable_user i at
run (enable i) = enable_user i
run (sign_in s) = create_session s
run (look_up i now idle_since) = λ c. follow (session_user i now idle_since c) (λ _ d. (done tt, d))
run (end_session i) = delete_session i
run (end_sessions i) = delete_user_sessions i
run (expire now idle_since) = delete_expired_sessions now idle_since

commit-failed :
    {A : Type 0} (before : Accounts) (r : Reply A × Conn) (e : UserError)
    → (commit before r).0 ≡ failed e
    → (commit before r).1.accounts ≡ before
unfolding commit
commit-failed before (done a, c) e h = ground arith
commit-failed before (failed b, c) e h = refl

in_tx-failed :
    {A : Type 0} (body : Call A) (c : Conn) (e : UserError)
    → (in_tx body c).0 ≡ failed e
    → (in_tx body c).1.accounts ≡ c.accounts
unfolding in_tx
in_tx-failed body c e h = elim (Bool-cases (c.faults 0)) [
  | inl broken ↦ rw broken refl
  | inr fine ↦ rw fine (commit-failed c.accounts (body (next c)) e (rw fine at h))
]

-- An operation on the accounts that fails, at any statement or at the commit, leaves the tables as
-- they were.
pub failed_op-unchanged :
    (o : Op) (c : Conn) (e : UserError) → (run o c).0 ≡ failed e → (run o c).1.accounts ≡ c.accounts
unfolding run create_user statement insert_user update_one enable_user session_user touched
    delete_session delete_user_sessions delete_expired_sessions delete_sessions read_session touch
failed_op-unchanged (create u) c e h = ground arith
failed_op-unchanged (create_first u) c e h = in_tx-failed (first_user_tx u) c e h
failed_op-unchanged (set_password i hash keep) c e h = in_tx-failed (password_tx i hash keep) c e h
failed_op-unchanged (disable i at) c e h = in_tx-failed (disable_tx i at) c e h
failed_op-unchanged (enable i) c e h = ground arith
failed_op-unchanged (sign_in s) c e h = in_tx-failed (sign_in_tx s) c e h
failed_op-unchanged (look_up i now idle_since) c e h = ground arith
failed_op-unchanged (end_session i) c e h = ground arith
failed_op-unchanged (end_sessions i) c e h = ground arith
failed_op-unchanged (expire now idle_since) c e h = ground arith
