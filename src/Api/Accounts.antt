-- ===== src/Api/Accounts.antt =====
-- internal/api/auth.go: the handlers of the accounts. The body is what json.Unmarshal made of it, and
-- `none` a body that it refuses; the hash functions, the random source and the free slots for password
-- checks are parameters.
pub mod Login
pub mod Handlers
pub mod Setup
use alertloop.Base.{
  ℕ, ◌+◌, ◌-◌, ltb, ◌==◌, Bool, true, false, not, ◌&&◌, ◌||◌, Option, none, some, List, [], ◌∷◌,
  Text, text_eq, runes, take, is_empty, if◌then◌else◌,
}
use alertloop.Strings.{trim_space, to_lower}
use alertloop.Config.Checks.{Ip, IpNet, Url}
use alertloop.Auth.Login.{
  idle_timeout, max_lifetime, check_password, hash_password, new_user, Checked, invalid, broken,
  fine,
}
use alertloop.Auth.Throttle.{Throttle, wait, fail, succeed}
use alertloop.Store.Users.Tables.{
  User, SignIn, Conn, Reply, done, failed, UserError, no_user, database, login_taken, users_exist,
}
use alertloop.Store.Users.{
  user_by_login, create_session, enabled, create_first_user, create_user, disable_user, enable_user,
  get_user, session_user, set_user_password, delete_session, delete_user_sessions, count_users,
}
use alertloop.Api.Proxies.{Request, client_ip}
use alertloop.Api.RateLimit.{limiter_key}
use alertloop.Api.Console.{sign_in_allowed, demo_token_allowed}
use alertloop.Api.Access.{demo_admin_token}

-- a response: its status, the code of an error, the user that it shows, the cookie that it sets, and
-- whether it clears the cookie
pub record Answer : Type 0 where
  pub status : ℕ
  pub code : Text
  pub user : Option User
  pub cookie : Option Text
  pub cleared : Bool

unfoldable pub error_answer : ℕ → Text → Answer
error_answer status code = record {
  status = status;
  code = code;
  user = none;
  cookie = none;
  cleared = false;
}

unfoldable pub view : ℕ → User → Answer
view status u = record { status = status; code = []; user = some u; cookie = none; cleared = false }

unfoldable pub no_content : Answer
unfolding error_answer
no_content = error_answer 204 []

-- writeDomainError on an error of the account store
unfoldable pub domain_error : UserError → Answer
unfolding error_answer
domain_error no_user = error_answer 404 (runes "not_found")
domain_error login_taken = error_answer 500 (runes "internal_error")
domain_error users_exist = error_answer 500 (runes "internal_error")
domain_error database = error_answer 500 (runes "internal_error")

-- writeAccountError
unfoldable pub account_error : UserError → Answer
unfolding domain_error error_answer
account_error login_taken = error_answer 409 (runes "login_taken")
account_error no_user = domain_error no_user
account_error users_exist = domain_error users_exist
account_error database = domain_error database

-- what the process keeps between requests
pub record Server : Type 0 where
  pub conn : Conn
  pub throttle : Throttle

pub record LoginRequest : Type 0 where
  pub login : Text
  pub password : Text

-- the switch of handleLogin: the hash to check, or an error that is not ErrNotFound
unfoldable pub hash_of : Reply User → Option Text
unfolding enabled
hash_of (done u) = if enabled u then some u.password_hash else some []
hash_of (failed no_user) = some []
hash_of (failed login_taken) = none
hash_of (failed users_exist) = none
hash_of (failed database) = none

abbrev pub max_user_agent : ℕ
max_user_agent = 256

-- the times that a sign-in reads, one after another
pub record Times : Type 0 where
  pub waited : ℕ
  pub failed_at : ℕ
  pub started : ℕ

module _ (table : ℕ → ℕ) (parse_ip : Text → Option Ip) (ip_text : Ip → Text)
    (split_host_port : Text → Option (Text × Text)) (parse_url : Text → Option Url)
    (equal_fold : Text → Text → Bool) (sha256 : Text → Text) where
  unfoldable pub new_session : List IpNet → ℕ → Text → Request → User → SignIn
  unfolding client_ip
  new_session nets now token r u = record {
    id = sha256 token;
    user_id = u.id;
    created_at = now;
    last_seen_at = now;
    expires_at = now + max_lifetime;
    ip = client_ip parse_ip ip_text split_host_port nets r;
    user_agent = take max_user_agent r.user_agent;
  }

  -- startSession and the answer; `none` is a token that the random source does not give
  unfoldable pub start_session :
      List IpNet → ℕ → ℕ → Option Text → Request → User → Conn → Answer × Conn
  unfolding create_session new_session domain_error error_answer
  start_session nets status now none r u c = (error_answer 500 (runes "internal_error"), c)
  start_session nets status now (some token) r u c =
      let (reply, d) = create_session (new_session nets now token r u) c in
      elim reply [
        | failed e ↦ (domain_error e, d)
        | done _ ↦ (
          record {
            status = status;
            code = [];
            user = some (record u { last_login_at = some now });
            cookie = some token;
            cleared = false;
          },
          d,
        )
      ]

  -- handleLogin after the hash is read: the slot, the check, and what follows
  unfoldable pub after_hash :
      (Throttle → Throttle)
      → (Text → Text → Bool)
      → Times
      → Bool
      → Option Text
      → List IpNet
      → Request
      → LoginRequest
      → Text
      → Reply User
      → Server
      → Answer × Server
  unfolding hash_of check_password domain_error error_answer fail succeed start_session to_lower
      trim_space
  after_hash order check times busy token nets r body ip found s =
      let login = to_lower table (trim_space body.login) in
      elim (hash_of found) [
        | none ↦ (error_answer 500 (runes "internal_error"), s)
        | some hash ↦
            if busy
            then (error_answer 429 (runes "rate_limited"), s)
            else if not (check_password check hash body.password)
            then (
              error_answer 401 (runes "unauthorized"),
              record s { throttle = fail order times.failed_at login ip s.throttle },
            )
            else elim found [
              | failed e ↦ (error_answer 500 (runes "internal_error"), s)
              | done u ↦
                  let (a, d) = start_session nets 200 times.started token r u s.conn in
                  (a, record { conn = d; throttle = succeed login ip s.throttle })
            ]
      ]

  unfoldable pub handle_login :
      (Throttle → Throttle)
      → (Text → Text → Bool)
      → Times
      → Bool
      → Option Text
      → List IpNet
      → Request
      → Option LoginRequest
      → Server
      → Answer × Server
  unfolding sign_in_allowed error_answer to_lower trim_space limiter_key client_ip wait
      user_by_login after_hash
  handle_login order check times busy token nets r body s =
      if not (sign_in_allowed table parse_ip ip_text split_host_port parse_url equal_fold nets r)
      then (error_answer 403 (runes "https_required"), s)
      else elim body [
        | none ↦ (error_answer 400 (runes "bad_request"), s)
        | some b ↦
            let login = to_lower table (trim_space b.login) in
            let ip =
              limiter_key parse_ip ip_text (client_ip parse_ip ip_text split_host_port nets r) in
            if ltb 0 (wait times.waited login ip s.throttle)
            then (error_answer 429 (runes "rate_limited"), s)
            else let (found, c) = user_by_login login s.conn in
              after_hash order check times busy token nets r b ip found (record s { conn = c })
      ]
