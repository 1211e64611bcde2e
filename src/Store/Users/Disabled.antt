-- ===== src/Store/Users/Disabled.antt =====
-- internal/storage/users.go: a disabled user stays signed out.
use alertloop.Base.{
  ℕ, Bool, true, false, not, ◌&&◌, none, some, List, [], ◌∷◌, Text, ◌≡◌, refl, arith, text_eq,
  text_eq_iff, update, any, find,
}
use alertloop.Store.Users.Tables.{
  User, SignIn, Accounts, Conn, Reply, done, failed, statement, follow, in_tx, commit, UserError,
  next, Call,
}
use alertloop.Store.Users.{
  has_id, insert_user, new_row, update_one, delete_sessions, insert_session, touch, enabled,
  disabled, disable_user, disable_tx, join, session_user, read_session, touched,
}
use alertloop.Store.Users.Atomic.{Op}
use alertloop.Store.Users.Steps.{Kept, run_all, all_enable_only, run_all-keeps}

is_open : Text → User → Bool
unfolding has_id enabled
is_open i u = has_id i u && enabled u

-- the user is there, and no row of it is enabled
locked : Text → List User → Bool
unfolding any is_open
locked i l = any (has_id i) l && not (any (is_open i) l)

Locked : Text → Accounts → Type 0
Locked i a = locked i a.users ≡ true

any-update_back :
    (p q : User → Bool) (f : User → User) (l : List User)
    → ((u : User) → q u ≡ true → p (f u) ≡ true → p u ≡ true)
    → any p l ≡ false
    → any p (update q f l) ≡ false
unfolding any update
any-update_back p q f [] back h = refl
any-update_back p q f (u ∷ l) back h = ground (arith, any-update_back p q f l back, back u)

any-update_on :
    (p q : User → Bool) (f : User → User) (l : List User)
    → ((u : User) → p u ≡ true → p (f u) ≡ true)
    → any p l ≡ true
    → any p (update q f l) ≡ true
unfolding any update
any-update_on p q f [] on h = cc
any-update_on p q f (u ∷ l) on h = ground (arith, any-update_on p q f l on, on u)

any-find :
    (p q : User → Bool) (l : List User) (u : User)
    → find p l ≡ some u
    → (p u ≡ true) × (q u ≡ true → any q l ≡ true)
unfolding find any
any-find p q [] u h = cc
any-find p q (x ∷ l) u h = ground (arith, any-find p q l u)

-- an update that keeps the ids and opens no row of the user
update_one-Locked :
    (i j : Text) (f : User → User) (a : Accounts)
    → ((u : User) → has_id i u ≡ true → has_id i (f u) ≡ true)
    → ((u : User) → has_id j u ≡ true → is_open i (f u) ≡ true → is_open i u ≡ true)
    → Locked i a
    → Locked i (update_one j f a).1
unfolding Locked locked update_one
update_one-Locked i j f a keeps shuts h = ground (
  arith,
  any-update_on (has_id i) (has_id j) f a.users keeps,
  any-update_back (is_open i) (has_id j) f a.users shuts,
)

insert_user-Locked :
    (i : Text) (e : UserError) (b : Bool) (u : User) (a : Accounts)
    → Locked i a
    → Locked i (insert_user e b (new_row u) a).1
unfolding Locked locked insert_user new_row any is_open has_id
insert_user-Locked i e b u a h = ground (arith, text_eq_iff u.id i)

unfoldable pub other : Text → Text → Bool
unfolding text_eq
other i j = not (text_eq j i)

elsewhere :
    (i j : Text) (u : User)
    → other i j ≡ true
    → has_id j u ≡ true
    → is_open i (record u { disabled_at = none }) ≡ true
    → is_open i u ≡ true
unfolding other has_id is_open
elsewhere i j u h k w = ground (arith, text_eq_iff u.id j, text_eq_iff j i, text_eq_iff u.id i)

kept-Locked : (i : Text) → Kept (Locked i) (other i)
unfolding Locked delete_sessions insert_session touch is_open has_id enabled disabled other
kept-Locked i = record {
  inserts = insert_user-Locked i;
  passwords = λ j hash a p. update_one-Locked i j _ a (λ u h. h) (λ u _ h. h) p;
  disables = λ j at a p. update_one-Locked i j (disabled at) a (λ u h. h) (λ u _ h. ground arith) p;
  enables = λ j a h p.
      update_one-Locked i j (λ u. record u { disabled_at = none }) a (λ u k. k)
        (λ u k w. elsewhere i j u h k w) p;
  logins = λ j at a p. update_one-Locked i j _ a (λ u h. h) (λ u _ h. h) p;
  deletes = λ p a q. q;
  signs_in = λ s a p. ground arith;
  touches = λ j now a p. p;
}

any-update_shut :
    (p q : User → Bool) (f : User → User) (l : List User)
    → ((u : User) → q u ≡ true → p (f u) ≡ false)
    → ((u : User) → q u ≡ false → p u ≡ false)
    → any p (update q f l) ≡ false
unfolding any update
any-update_shut p q f [] there else_where = refl
any-update_shut p q f (u ∷ l) there else_where =
    ground (arith, any-update_shut p q f l there else_where, there u, else_where u)

disabled-shut : (i : Text) (at : ℕ) (u : User) → is_open i (disabled at u) ≡ false
unfolding is_open enabled disabled
disabled-shut i at u = ground arith

disable_tx-Locked :
    (i : Text) (at : ℕ) (c : Conn)
    → (disable_tx i at c).0 ≡ done tt
    → Locked i (disable_tx i at c).1.accounts
unfolding disable_tx statement update_one delete_sessions Locked locked is_open
disable_tx-Locked i at c h = ground (
  arith,
  any-update_on (has_id i) (has_id i) (disabled at) c.accounts.users (λ u k. k),
  any-update_shut (is_open i) (has_id i) (disabled at) c.accounts.users
      (λ u _. disabled-shut i at u) (λ u k. ground arith),
)

in_tx-done :
    (body : Call Unit) (c : Conn)
    → (in_tx body c).0 ≡ done tt
    → ((body (next c)).0 ≡ done tt) × ((in_tx body c).1.accounts ≡ (body (next c)).1.accounts)
unfolding in_tx commit
in_tx-done body c h = ground arith

disable_user-Locked :
    (i : Text) (at : ℕ) (c : Conn)
    → (disable_user i at c).0 ≡ done tt
    → Locked i (disable_user i at c).1.accounts
unfolding disable_user Locked
disable_user-Locked i at c h =
    let (ran, same) = in_tx-done (disable_tx i at) c h in
    rw same (disable_tx-Locked i at (next c) ran)

join-Locked :
    (i : Text) (users : List User) (now idle_since : ℕ) (k : Text) (l : List SignIn) (s : SignIn)
    (u : User)
    → locked i users ≡ true
    → join users now idle_since k l ≡ some (s, u)
    → has_id i u ≡ false
unfolding join locked is_open
join-Locked i users now idle_since k [] s u h found = cc
join-Locked i users now idle_since k (x ∷ l) s u h found = ground (
  arith,
  join-Locked i users now idle_since k l s u h,
  any-find (λ v. has_id x.user_id v && enabled v) (is_open i) users u,
)

follow-done :
    {A B : Type 0} (r : Reply A × Conn) (f : A → Call B) (b : B)
    → (follow r f).0 ≡ done b
    → (x : A) × (r.0 ≡ done x) × ((f x r.1).0 ≡ done b)
follow-done (done x, c) f b h = (x, refl, h)
follow-done (failed e, c) f b h = cc

touched-done :
    (k : Text) (now : ℕ) (s : SignIn) (x u : User) (c : Conn)
    → (touched k now (s, x) c).0 ≡ done u
    → x ≡ u
unfolding touched statement touch
touched-done k now s x u c h = ground arith

read-done :
    (k : Text) (now idle_since : ℕ) (c : Conn) (s : SignIn) (u : User)
    → (statement (read_session k now idle_since) c).0 ≡ done (s, u)
    → join c.accounts.users now idle_since k c.accounts.sessions ≡ some (s, u)
unfolding statement read_session
read-done k now idle_since c s u h = ground arith

session_user-Locked :
    (i k : Text) (now idle_since : ℕ) (c : Conn) (u : User)
    → Locked i c.accounts
    → (session_user k now idle_since c).0 ≡ done u
    → has_id i u ≡ false
unfolding session_user Locked
session_user-Locked i k now idle_since c u h found =
    let r = statement (read_session k now idle_since) c in
    let ((s, x), read, rest) = follow-done r (touched k now) u found in
    let same = touched-done k now s x u r.1 rest in
    rw⁻¹ same (
      join-Locked i c.accounts.users now idle_since k c.accounts.sessions s x h
        (read-done k now idle_since c s x read))

-- After a DisableUser that succeeds, and any operations that do not enable the user, no session
-- gives that user.
pub disabled_stays_out :
    (i : Text) (at : ℕ) (c : Conn) (l : List Op) (k : Text) (now idle_since : ℕ) (u : User)
    → (disable_user i at c).0 ≡ done tt
    → all_enable_only (other i) l ≡ true
    → (session_user k now idle_since (run_all l (disable_user i at c).1)).0 ≡ done u
    → has_id i u ≡ false
disabled_stays_out i at c l k now idle_since u h allowed found =
    session_user-Locked i k now idle_since (run_all l (disable_user i at c).1) u
      (run_all-keeps (Locked i) (other i) (kept-Locked i) l (disable_user i at c).1 allowed
        (disable_user-Locked i at c h))
      found
