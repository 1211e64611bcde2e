-- ===== src/Store/Users/First.antt =====
-- internal/storage/users.go: the first administrator is created once.
use alertloop.Base.{Bool, true, false, List, [], ◌∷◌, Text, ◌≡◌, ◌≢◌, refl, arith, update}
use alertloop.Store.Users.Tables.{User, Accounts, Conn, done, statement, in_tx, commit}
use alertloop.Store.Users.{
  has_id, insert_user, insert_first, create_first_user, first_user_tx, lock_users, update_one,
  delete_sessions, insert_session, touch, no_users,
}
use alertloop.Store.Users.Atomic.{
  Op, create, create_first, set_password, disable, enable, sign_in, look_up, end_session,
  end_sessions, expire,
}
use alertloop.Store.Users.Steps.{Kept, run_all, all_enable_only, run_all-keeps, enables_only}

-- the users table has a row
unfoldable pub Started : Accounts → Type 0
Started a = no_users a.users ≡ false

update-Started :
    (p : User → Bool) (f : User → User) (l : List User)
    → no_users l ≡ false
    → no_users (update p f l) ≡ false
unfolding update no_users
update-Started p f [] h = cc
update-Started p f (u ∷ l) h = refl

update_one-Started :
    (i : Text) (f : User → User) (a : Accounts) → Started a → Started (update_one i f a).1
unfolding Started update_one
update_one-Started i f a h = ground (arith, update-Started (has_id i) f a.users)

started : Kept Started (λ _. true)
unfolding Started insert_user delete_sessions insert_session touch no_users
started = record {
  inserts = λ e b u a p. ground arith;
  passwords = λ i hash a p. update_one-Started i _ a p;
  disables = λ i at a p. update_one-Started i _ a p;
  enables = λ i a h p. update_one-Started i _ a p;
  logins = λ i at a p. update_one-Started i _ a p;
  deletes = λ p a q. q;
  signs_in = λ s a p. ground arith;
  touches = λ i now a p. p;
}

any_enable : (o : Op) → enables_only (λ _. true) o ≡ true
unfolding enables_only
any_enable (create u) = refl
any_enable (create_first u) = refl
any_enable (set_password i hash keep) = refl
any_enable (disable i at) = refl
any_enable (enable i) = refl
any_enable (sign_in s) = refl
any_enable (look_up i now idle_since) = refl
any_enable (end_session i) = refl
any_enable (end_sessions i) = refl
any_enable (expire now idle_since) = refl

any_op : (l : List Op) → all_enable_only (λ _. true) l ≡ true
unfolding all_enable_only
any_op [] = refl
any_op (o ∷ l) = ground (arith, any_enable o, any_op l)

pub first_done :
    (u : User) (c : Conn)
    → (create_first_user u c).0 ≡ done tt
    → (no_users c.accounts.users ≡ true) × Started (create_first_user u c).1.accounts
unfolding create_first_user first_user_tx in_tx commit lock_users statement insert_first insert_user
    no_users Started
first_done u c h = ground arith

-- After a CreateFirstUser that succeeds, and any operations, no CreateFirstUser succeeds.
pub first_user_once :
    (l : List Op) (c : Conn) (u v : User)
    → (create_first_user u c).0 ≡ done tt
    → (create_first_user v (run_all l (create_first_user u c).1)).0 ≢ done tt
unfolding Started
first_user_once l c u v h again =
    let d = (create_first_user u c).1 in
    let still : Started (run_all l d).accounts =
      run_all-keeps Started (λ _. true) started l d (any_op l) (first_done u c h).1 in
    let empty : no_users (run_all l d).accounts.users ≡ true =
      (first_done v (run_all l d) again).0 in
    cc
