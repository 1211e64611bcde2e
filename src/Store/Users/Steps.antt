-- ===== src/Store/Users/Steps.antt =====
-- internal/storage/users.go: what every operation keeps if each statement keeps it.
use alertloop.Base.{
  ℕ, Bool, true, false, ◌&&◌, none, some, List, [], ◌∷◌, Text, ◌≡◌, arith, if◌then◌else◌,
  Bool-cases, Option-cases, inl, inr, leb, ◌+◌, not, ◌||◌,
}
use alertloop.Store.Users.Tables.{
  User, SignIn, Accounts, UserError, login_taken, users_exist, Reply, done, failed, Conn, Call,
  next, statement, follow, commit, in_tx,
}
use alertloop.Store.Users.{
  insert_user, new_row, insert_first, lock_users, create_user, create_first_user, update_one,
  disabled, set_user_password, disable_user, enable_user, insert_session, create_session,
  session_user, first_user_tx, password_tx, disable_tx, sign_in_tx, delete_session,
  delete_user_sessions, delete_expired_sessions, delete_sessions, read_session, touch, touched,
  touch_every, join, no_users, is_of, is_session,
}
use alertloop.Store.Users.Atomic.{
  Op, create, create_first, set_password, disable, enable, sign_in, look_up, end_session,
  end_sessions, expire, run,
}

-- an operation enables no user but those that `allowed` accepts
unfoldable pub enables_only : (Text → Bool) → Op → Bool
enables_only allowed (enable i) = allowed i
enables_only allowed (create u) = true
enables_only allowed (create_first u) = true
enables_only allowed (set_password i hash keep) = true
enables_only allowed (disable i at) = true
enables_only allowed (sign_in s) = true
enables_only allowed (look_up i now idle_since) = true
enables_only allowed (end_session i) = true
enables_only allowed (end_sessions i) = true
enables_only allowed (expire now idle_since) = true

unfoldable pub all_enable_only : (Text → Bool) → List Op → Bool
unfolding enables_only
all_enable_only allowed [] = true
all_enable_only allowed (o ∷ l) = enables_only allowed o && all_enable_only allowed l

-- the operations one after another
unfoldable pub run_all : List Op → Conn → Conn
unfolding run
run_all [] c = c
run_all (o ∷ l) c = run_all l (run o c).1

module _ (P : Accounts → Type 0) where
  statement-keeps :
      {A : Type 0} (f : Accounts → Reply A × Accounts) (c : Conn)
      → ((a : Accounts) → P a → P (f a).1)
      → P c.accounts
      → P (statement f c).1.accounts
  unfolding statement
  statement-keeps f c keeps p = elim (Bool-cases (c.faults 0)) [
    | inl broken ↦ rw broken p
    | inr fine ↦ rw fine (keeps c.accounts p)
  ]

  choose-keeps :
      {A : Type 0} (b : Bool) (x y : Reply A × Conn)
      → P x.1.accounts
      → P y.1.accounts
      → P (if b then x else y).1.accounts
  choose-keeps true x y p q = p
  choose-keeps false x y p q = q

  follow-keeps :
      {A B : Type 0} (r : Reply A × Conn) (f : A → Call B)
      → ((a : A) (c : Conn) → P c.accounts → P (f a c).1.accounts)
      → P r.1.accounts
      → P (follow r f).1.accounts
  follow-keeps (done a, c) f keeps p = keeps a c p
  follow-keeps (failed e, c) f keeps p = p

  commit-keeps :
      {A : Type 0} (before : Accounts) (r : Reply A × Conn)
      → P before
      → P r.1.accounts
      → P (commit before r).1.accounts
  unfolding commit
  commit-keeps before (failed e, c) q p = q
  commit-keeps before (done a, c) q p = elim (Bool-cases (c.faults 0)) [
    | inl broken ↦ rw broken q
    | inr fine ↦ rw fine p
  ]

  in_tx-keeps :
      {A : Type 0} (body : Call A) (c : Conn)
      → ((d : Conn) → P d.accounts → P (body d).1.accounts)
      → P c.accounts
      → P (in_tx body c).1.accounts
  unfolding in_tx
  in_tx-keeps body c keeps p = elim (Bool-cases (c.faults 0)) [
    | inl broken ↦ rw broken p
    | inr fine ↦ rw fine (commit-keeps c.accounts (body (next c)) p (keeps (next c) p))
  ]

  two-keeps :
      (f g : Accounts → Reply Unit × Accounts) (c : Conn)
      → ((a : Accounts) → P a → P (f a).1)
      → ((a : Accounts) → P a → P (g a).1)
      → P c.accounts
      → P (in_tx (λ d. follow (statement f d) (λ _. statement g)) c).1.accounts
  two-keeps f g c kf kg p =
      in_tx-keeps (λ d. follow (statement f d) (λ _. statement g)) c
        (λ d q.
          follow-keeps (statement f d) (λ _. statement g) (λ _ e r. statement-keeps g e kg r)
            (statement-keeps f d kf q))
        p

  -- each statement of the operations keeps P
  pub record Kept (allowed : Text → Bool) : Type 0 where
    pub inserts :
        (e : UserError) (b : Bool) (u : User) (a : Accounts)
        → P a
        → P (insert_user e b (new_row u) a).1
    pub passwords :
        (i hash : Text) (a : Accounts)
        → P a
        → P (update_one i (λ u. record u { password_hash = hash }) a).1
    pub disables : (i : Text) (at : ℕ) (a : Accounts) → P a → P (update_one i (disabled at) a).1
    pub enables :
        (i : Text) (a : Accounts)
        → allowed i ≡ true
        → P a
        → P (update_one i (λ u. record u { disabled_at = none }) a).1
    pub logins :
        (i : Text) (at : ℕ) (a : Accounts)
        → P a
        → P (update_one i (λ u. record u { last_login_at = some at }) a).1
    pub deletes : (p : SignIn → Bool) (a : Accounts) → P a → P (delete_sessions p a).1
    pub signs_in : (s : SignIn) (a : Accounts) → P a → P (insert_session s a).1
    pub touches : (i : Text) (now : ℕ) (a : Accounts) → P a → P (touch i now a).1

  module _ (allowed : Text → Bool) (k : Kept allowed) where
    first-keeps : (b : Bool) (u : User) (a : Accounts) → P a → P (insert_first b u a).1
    unfolding insert_first
    first-keeps b u a p = elim (Bool-cases (no_users a.users)) [
      | inl empty ↦ rw empty (k.inserts users_exist b u a p)
      | inr full ↦ rw full p
    ]

    locked-keeps : (c : Conn) → P c.accounts → P (lock_users c).1.accounts
    unfolding lock_users
    locked-keeps c p =
        choose-keeps c.postgres (statement (λ a. (done tt, a)) c) (done tt, c)
          (statement-keeps (λ a. (done tt, a)) c (λ a q. q) p) p

    read-keeps :
        (i : Text) (now idle_since : ℕ) (a : Accounts) → P a → P (read_session i now idle_since a).1
    unfolding read_session
    read-keeps i now idle_since a p =
        elim (Option-cases (join a.users now idle_since i a.sessions)) [
          | inl missing ↦ rw (missing, read_session) p
          | inr (found, e) ↦ rw (e, read_session) p
        ]

    touch-keeps :
        (i : Text) (now : ℕ) (found : SignIn × User) (c : Conn)
        → P c.accounts
        → P (touched i now found c).1.accounts
    unfolding touched
    touch-keeps i now (s, u) c p = elim (Bool-cases (leb (s.last_seen_at + touch_every) now)) [
      | inl old ↦ rw old (
          follow-keeps (statement (touch i now) c) (λ _ d. (done u, d)) (λ _ d q. q)
            (statement-keeps (touch i now) c (k.touches i now) p))
      | inr recent ↦ rw recent p
    ]

    lookup-keeps :
        (i : Text) (now idle_since : ℕ) (c : Conn)
        → P c.accounts
        → P (session_user i now idle_since c).1.accounts
    unfolding session_user
    lookup-keeps i now idle_since c p =
        follow-keeps (statement (read_session i now idle_since) c) (touched i now)
          (touch-keeps i now)
          (statement-keeps (read_session i now idle_since) c (read-keeps i now idle_since) p)

    pub run-keeps :
        (o : Op) (c : Conn) → enables_only allowed o ≡ true → P c.accounts → P (run o c).1.accounts
    unfolding run enables_only create_user create_first_user set_user_password disable_user
        enable_user create_session delete_session delete_user_sessions delete_expired_sessions
        first_user_tx password_tx disable_tx sign_in_tx
    run-keeps (create u) c h p =
        statement-keeps (insert_user login_taken c.postgres (new_row u)) c
          (k.inserts login_taken c.postgres u) p
    run-keeps (create_first u) c h p =
        in_tx-keeps (first_user_tx u) c
          (λ d q.
            follow-keeps (lock_users d) (λ _. statement (insert_first d.postgres u))
              (λ _ e r. statement-keeps (insert_first d.postgres u) e (first-keeps d.postgres u) r)
              (locked-keeps d q))
          p
    run-keeps (set_password i hash keep) c h p =
        two-keeps (update_one i (λ u. record u { password_hash = hash }))
          (delete_sessions (λ s. is_of i s && not (is_session keep s))) c (k.passwords i hash)
          (k.deletes _) p
    run-keeps (disable i at) c h p =
        two-keeps (update_one i (disabled at)) (delete_sessions (is_of i)) c (k.disables i at)
          (k.deletes _) p
    run-keeps (enable i) c h p =
        statement-keeps (update_one i (λ u. record u { disabled_at = none })) c
          (λ a q. k.enables i a h q) p
    run-keeps (sign_in s) c h p =
        two-keeps (insert_session s)
          (update_one s.user_id (λ u. record u { last_login_at = some s.created_at })) c
          (k.signs_in s) (k.logins s.user_id s.created_at) p
    run-keeps (look_up i now idle_since) c h p =
        follow-keeps (session_user i now idle_since c) (λ _ d. (done tt, d)) (λ _ d q. q)
          (lookup-keeps i now idle_since c p)
    run-keeps (end_session i) c h p =
        statement-keeps (delete_sessions (is_session i)) c (k.deletes _) p
    run-keeps (end_sessions i) c h p = statement-keeps (delete_sessions (is_of i)) c (k.deletes _) p
    run-keeps (expire now idle_since) c h p =
        statement-keeps
          (delete_sessions (λ s. leb s.expires_at now || leb s.last_seen_at idle_since)) c
          (k.deletes _) p

    pub run_all-keeps :
        (l : List Op) (c : Conn)
        → all_enable_only allowed l ≡ true
        → P c.accounts
        → P (run_all l c).accounts
    unfolding run_all all_enable_only
    run_all-keeps [] c h p = p
    run_all-keeps (o ∷ l) c h p =
        run_all-keeps l (run o c).1 (ground (arith, h)) (run-keeps o c (ground (arith, h)) p)
