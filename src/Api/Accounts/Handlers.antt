-- ===== src/Api/Accounts/Handlers.antt =====
-- internal/api/auth.go: the handlers of the accounts besides handleLogin, after the body is read; the
-- answer to a body that json.Unmarshal refuses is `bad_body`; readBody's own refusals are left out.
use alertloop.Base.{
  ℕ, ◌-◌, ◌==◌, Bool, true, false, not, ◌&&◌, Option, none, some, List, [], Text, text_eq, runes,
  is_empty, if◌then◌else◌,
}
use alertloop.Config.Checks.{Ip, IpNet, Url}
use alertloop.Auth.Login.{
  idle_timeout, check_password, hash_password, new_user, invalid, broken, fine,
}
use alertloop.Store.Users.Tables.{
  User, Conn, Reply, done, failed, no_user, database, login_taken, users_exist,
}
use alertloop.Store.Users.{
  create_first_user, create_user, disable_user, enable_user, get_user, session_user,
  set_user_password, delete_session, delete_user_sessions, count_users,
}
use alertloop.Api.Proxies.{Request}
use alertloop.Api.Console.{sign_in_allowed, demo_token_allowed}
use alertloop.Api.Access.{demo_admin_token}
use alertloop.Api.Accounts.{
  Answer, error_answer, view, no_content, domain_error, account_error, LoginRequest, start_session,
}

unfoldable pub bad_body : Answer
unfolding error_answer
bad_body = error_answer 400 (runes "bad_request")

unfoldable pub internal_error : Answer
unfolding error_answer
internal_error = error_answer 500 (runes "internal_error")

unfoldable pub validation_failed : Answer
unfolding error_answer
validation_failed = error_answer 400 (runes "validation_failed")

unfoldable pub own_account : Answer
unfolding error_answer
own_account = error_answer 409 (runes "own_account")

-- 204, or writeAccountError
unfoldable pub changed : Reply Unit → Answer
unfolding account_error no_content
changed (done _) = no_content
changed (failed e) = account_error e

unfoldable pub shown : Reply User → Answer
unfolding account_error view
shown (done u) = view 200 u
shown (failed e) = account_error e

-- a change of a user, and then the user as it is stored
unfoldable pub change_and_show : Text → Reply Unit × Conn → Answer × Conn
unfolding account_error get_user shown
change_and_show i (failed e, c) = (account_error e, c)
change_and_show i (done _, c) = let (reply, d) = get_user i c in (shown reply, d)

-- `own` is the id of the user that is signed in
unfoldable pub handle_disable_user : Text → ℕ → Text → Conn → Answer × Conn
unfolding text_eq own_account disable_user change_and_show
handle_disable_user own now i c =
    if text_eq i own then (own_account, c) else change_and_show i (disable_user i now c)

unfoldable pub handle_enable_user : Text → Conn → Answer × Conn
unfolding enable_user change_and_show
handle_enable_user i c = change_and_show i (enable_user i c)

unfoldable pub handle_reset_password :
    (Text → Option Text) → Text → Text → Option Text → Conn → Answer × Conn
unfolding text_eq own_account bad_body hash_password validation_failed internal_error
    set_user_password changed
handle_reset_password derive own i body c = if text_eq i own then (own_account, c) else elim body [
  | none ↦ (bad_body, c)
  | some password ↦ elim (hash_password derive password) [
    | invalid ↦ (validation_failed, c)
    | broken ↦ (internal_error, c)
    | fine hash ↦ let (reply, d) = set_user_password i hash [] c in (changed reply, d)
  ]
]

pub record PasswordChange : Type 0 where
  pub current : Text
  pub new : Text

unfoldable pub busy_answer : Answer
unfolding error_answer
busy_answer = error_answer 429 (runes "rate_limited")

-- `user` and `session` are those that withUser found
unfoldable pub handle_change_password :
    (Text → Text → Bool)
    → (Text → Option Text)
    → Bool
    → User
    → Text
    → Option PasswordChange
    → Conn
    → Answer × Conn
unfolding bad_body busy_answer check_password validation_failed internal_error hash_password
    set_user_password changed
handle_change_password check derive busy user session none c = (bad_body, c)
handle_change_password check derive busy user session (some b) c =
    if busy
    then (busy_answer, c)
    else if not (check_password check user.password_hash b.current)
    then (validation_failed, c)
    else elim (hash_password derive b.new) [
      | invalid ↦ (validation_failed, c)
      | broken ↦ (internal_error, c)
      | fine hash ↦ let (reply, d) = set_user_password user.id hash session c in (changed reply, d)
    ]

pub record SetupRequest : Type 0 where
  pub admin_token : Text
  pub login : Text
  pub password : Text

-- handleLogout: what follows the sessions' deletion
unfoldable pub log_out : Text → Reply Unit × Conn → Reply Unit × Conn
unfolding delete_session
log_out session (done _, c) = delete_session session c
log_out session (failed no_user, c) = delete_session session c
log_out session (failed login_taken, c) = (failed login_taken, c)
log_out session (failed users_exist, c) = (failed users_exist, c)
log_out session (failed database, c) = (failed database, c)

unfoldable pub end_all : Reply User × Conn → Reply Unit × Conn
unfolding delete_user_sessions
end_all (done u, c) = delete_user_sessions u.id c
end_all (failed e, c) = (failed e, c)

unfoldable pub logged_out : Reply Unit → Answer
unfolding domain_error no_content
logged_out (done _) = record no_content { cleared = true }
logged_out (failed e) = domain_error e

module _ (table : ℕ → ℕ) (parse_ip : Text → Option Ip) (ip_text : Ip → Text)
    (split_host_port : Text → Option (Text × Text)) (parse_url : Text → Option Url)
    (equal_fold : Text → Text → Bool) (sha256 : Text → Text) where
  -- the body says whether to end every session of the user
  unfoldable pub handle_logout : ℕ → Request → Option Bool → Conn → Answer × Conn
  unfolding bad_body is_empty log_out end_all session_user logged_out no_content
  handle_logout now r none c = (bad_body, c)
  handle_logout now r (some everywhere) c =
      let i = sha256 r.cookie in
      if is_empty r.cookie
      then (record no_content { cleared = true }, c)
      else let (reply, d) = log_out i (
          if everywhere
          then end_all (session_user i now (now - idle_timeout) c)
          else (done tt, c)) in
        (logged_out reply, d)

  -- handleMe without a session
  unfoldable pub signed_out : Bool → Conn → Answer × Conn
  unfolding count_users domain_error error_answer
  signed_out cleared c =
      let (reply, d) = count_users c in
      elim reply [
        | failed e ↦ (record (domain_error e) { cleared = cleared }, d)
        | done n ↦ (
          record (error_answer 401
              (if n == 0 then runes "setup_required" else runes "unauthorized")) {
                cleared = cleared;
              },
          d,
        )
      ]

  unfoldable pub me_answer : Reply User × Conn → Answer × Conn
  unfolding view signed_out domain_error
  me_answer (done u, c) = (view 200 u, c)
  me_answer (failed no_user, c) = signed_out true c
  me_answer (failed login_taken, c) = (domain_error login_taken, c)
  me_answer (failed users_exist, c) = (domain_error users_exist, c)
  me_answer (failed database, c) = (domain_error database, c)

  unfoldable pub handle_me : ℕ → Request → Conn → Answer × Conn
  unfolding is_empty signed_out me_answer session_user
  handle_me now r c =
      if is_empty r.cookie
      then signed_out false c
      else me_answer (session_user (sha256 r.cookie) now (now - idle_timeout) c)

  -- handleCreateUser; `i` is the new user's id
  unfoldable pub handle_create_user :
      (Text → Option Text) → Text → ℕ → Option LoginRequest → Conn → Answer × Conn
  unfolding bad_body new_user validation_failed internal_error create_user account_error view
  handle_create_user derive i now none c = (bad_body, c)
  handle_create_user derive i now (some b) c =
      elim (new_user table derive i now b.login b.password) [
        | invalid ↦ (validation_failed, c)
        | broken ↦ (internal_error, c)
        | fine u ↦
            let (reply, d) = create_user u c in
            elim reply [ done _ ↦ (view 201 u, d) | failed e ↦ (account_error e, d) ]
      ]

  unfoldable pub after_first :
      List IpNet → ℕ → Option Text → Request → User → Reply Unit × Conn → Answer × Conn
  unfolding start_session error_answer account_error
  after_first nets now token r u (done _, c) =
      start_session table parse_ip ip_text split_host_port parse_url equal_fold sha256 nets 201 now
        token r u c
  after_first nets now token r u (failed users_exist, c) =
      (error_answer 409 (runes "setup_done"), c)
  after_first nets now token r u (failed login_taken, c) = (account_error login_taken, c)
  after_first nets now token r u (failed no_user, c) = (account_error no_user, c)
  after_first nets now token r u (failed database, c) = (account_error database, c)

  -- whether handleSetup takes the admin token of the request
  unfoldable pub setup_admitted : Text → Request → SetupRequest → Bool
  unfolding is_empty text_eq demo_token_allowed
  setup_admitted admin r b =
      not (is_empty admin)
      && text_eq b.admin_token admin
      && not (
          text_eq admin demo_admin_token
          && not (demo_token_allowed table parse_ip ip_text split_host_port parse_url equal_fold r))

  unfoldable pub setup_refusal : Text → SetupRequest → Answer
  unfolding is_empty text_eq error_answer
  setup_refusal admin b =
      if not (is_empty admin) && not (text_eq b.admin_token admin)
      then error_answer 401 (runes "unauthorized")
      else error_answer 403 (runes "forbidden")

  unfoldable pub handle_setup :
      Text
      → (Text → Option Text)
      → Text
      → ℕ
      → ℕ
      → Option Text
      → List IpNet
      → Request
      → Option SetupRequest
      → Conn
      → Answer × Conn
  unfolding sign_in_allowed error_answer bad_body setup_admitted setup_refusal new_user
      validation_failed internal_error create_first_user after_first
  handle_setup admin derive i created started token nets r body c =
      if not (sign_in_allowed table parse_ip ip_text split_host_port parse_url equal_fold nets r)
      then (error_answer 403 (runes "https_required"), c)
      else elim body [
        | none ↦ (bad_body, c)
        | some b ↦
            if not (setup_admitted admin r b)
            then (setup_refusal admin b, c)
            else elim (new_user table derive i created b.login b.password) [
              | invalid ↦ (validation_failed, c)
              | broken ↦ (internal_error, c)
              | fine u ↦ after_first nets started token r u (create_first_user u c)
            ]
      ]
