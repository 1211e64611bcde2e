-- ===== src/Store/Examples/Accounts.antt =====
-- Two accounts, of which one is disabled.
use alertloop.Base.{true, false, none, List, [], ◌∷◌, ◌≡◌, ◌≢◌, refl, runes, Text}
use alertloop.Store.Users.Tables.{User, SignIn, Accounts, Conn, login_taken, done, failed}
use alertloop.Store.Users.{create_first_user, disable_user, session_user, has_id}
use alertloop.Store.Users.Atomic.{Op, create, set_password, look_up, enable, run}
use alertloop.Store.Users.Steps.{all_enable_only, run_all}
use alertloop.Store.Users.First.{first_user_once}
use alertloop.Store.Users.Disabled.{other, disabled_stays_out}

abbrev account : Text → User
account i = record {
  id = i;
  login = i;
  password_hash = runes "hash";
  created_at = 1;
  disabled_at = none;
  last_login_at = none;
}

abbrev ann : User
ann = account (runes "ann")

abbrev bob : User
bob = account (runes "bob")

abbrev bobs : SignIn
bobs = record {
  id = runes "s";
  user_id = runes "bob";
  created_at = 5;
  last_seen_at = 5;
  expires_at = 100;
  ip = [];
  user_agent = [];
}

abbrev conn : Accounts → Conn
conn a = record { accounts = a; faults = λ n. false; postgres = false }

abbrev nobody : Conn
nobody = conn (record { users = []; sessions = [] })

abbrev two : Conn
two = conn (record { users = ann ∷ bob ∷ []; sessions = bobs ∷ [] })

abbrev after : List Op
after =
    set_password (runes "ann") (runes "new") []
    ∷ look_up (runes "s") 6 1
    ∷ enable (runes "bob")
    ∷ []

taken : (run (create ann) two).0 ≡ failed login_taken
unfolding run
taken = refl

first : (create_first_user ann nobody).0 ≡ done tt
unfolding create_first_user
first = refl

first_user_once_example :
    (create_first_user bob (run_all after (create_first_user ann nobody).1)).0 ≢ done tt
first_user_once_example = first_user_once after nobody ann bob first

ann_disabled : (disable_user (runes "ann") 7 two).0 ≡ done tt
unfolding disable_user
ann_disabled = refl

after_allowed : all_enable_only (other (runes "ann")) after ≡ true
unfolding all_enable_only other
after_allowed = refl

bob_found :
    (session_user (runes "s") 20 1 (run_all after (disable_user (runes "ann") 7 two).1)).0
    ≡ done bob
unfolding session_user run_all disable_user
bob_found = refl

disabled_stays_out_example : has_id (runes "ann") bob ≡ false
disabled_stays_out_example =
    disabled_stays_out (runes "ann") 7 two after (runes "s") 20 1 bob ann_disabled after_allowed
      bob_found
