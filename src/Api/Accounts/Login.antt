-- ===== src/Api/Accounts/Login.antt =====
-- internal/api/auth.go: what a sign-in that succeeds has shown, and what a throttled one changes.
use alertloop.Base.{
  ℕ, ◌≤◌, ltb, Bool, true, Option, none, some, List, Text, is_empty, runes, ◌≡◌, refl, arith, inl,
  inr, Bool-cases,
}
use alertloop.Strings.{trim_space, to_lower}
use alertloop.Config.Checks.{Ip, IpNet, Url}
use alertloop.Auth.Login.{check_password}
use alertloop.Auth.Throttle.{Throttle, wait}
use alertloop.Store.Users.Tables.{
  User, Reply, done, failed, no_user, database, login_taken, users_exist,
}
use alertloop.Store.Users.{user_by_login, enabled}
use alertloop.Api.Proxies.{Request, client_ip}
use alertloop.Api.RateLimit.{limiter_key}
use alertloop.Api.Console.{sign_in_allowed}
use alertloop.Api.Accounts.{
  error_answer, Server, LoginRequest, Times, hash_of, after_hash, handle_login,
}

module _ (table : ℕ → ℕ) (parse_ip : Text → Option Ip) (ip_text : Ip → Text)
    (split_host_port : Text → Option (Text × Text)) (parse_url : Text → Option Url)
    (equal_fold : Text → Text → Bool) (sha256 : Text → Text) where
  after_hash-ok :
      (order : Throttle → Throttle) (check : Text → Text → Bool) (times : Times) (busy : Bool)
      (token : Option Text) (nets : List IpNet) (r : Request) (b : LoginRequest) (ip : Text)
      (found : Reply User) (s : Server) (cookie : Text)
      → (after_hash table parse_ip ip_text split_host_port parse_url equal_fold sha256 order check
          times busy token nets r b ip found s).0.cookie
        ≡ some cookie
      → (u : User) × (found ≡ done u)
        × (enabled u ≡ true)
        × (check u.password_hash b.password ≡ true)
  unfolding after_hash hash_of check_password error_answer is_empty
  after_hash-ok order check times busy token nets r b ip (done u) s cookie h =
      (u, refl, ground arith, ground arith)
  after_hash-ok order check times busy token nets r b ip (failed no_user) s cookie h = ground arith
  after_hash-ok order check times busy token nets r b ip (failed login_taken) s cookie h =
      ground arith
  after_hash-ok order check times busy token nets r b ip (failed users_exist) s cookie h =
      ground arith
  after_hash-ok order check times busy token nets r b ip (failed database) s cookie h = ground arith

  -- the pair that Throttle counts a request with this body under
  unfoldable pub login_of : LoginRequest → Text
  unfolding to_lower trim_space
  login_of b = to_lower table (trim_space b.login)

  unfoldable pub address_of : List IpNet → Request → Text
  unfolding limiter_key client_ip
  address_of nets r =
      limiter_key parse_ip ip_text (client_ip parse_ip ip_text split_host_port nets r)

  -- a sign-in that opens a session: the connection is allowed, the body was read, the pair does not
  -- wait, and the login is an enabled user's whose hash accepts the password
  pub record SignedIn (check : Text → Text → Bool) (times : Times) (nets : List IpNet) (r : Request)
      (body : Option LoginRequest) (s : Server) : Type 0 where
    pub input : LoginRequest
    pub was_read : body ≡ some input
    pub connection :
        sign_in_allowed table parse_ip ip_text split_host_port parse_url equal_fold nets r ≡ true
    pub no_wait : wait times.waited (login_of input) (address_of nets r) s.throttle ≡ 0
    pub who : User
    pub is_stored : (user_by_login (login_of input) s.conn).0 ≡ done who
    pub is_enabled : enabled who ≡ true
    pub password_accepted : check who.password_hash input.password ≡ true

  -- A login that sets a cookie came over a connection that is allowed, its login and address do
  -- not wait, the login is that of a stored user who is enabled, and the stored hash accepts the
  -- password.
  pub handle_login-SignedIn :
      (order : Throttle → Throttle) (check : Text → Text → Bool) (times : Times) (busy : Bool)
      (token : Option Text) (nets : List IpNet) (r : Request) (body : Option LoginRequest)
      (s : Server) (cookie : Text)
      → (handle_login table parse_ip ip_text split_host_port parse_url equal_fold sha256 order check
          times busy token nets r body s).0.cookie
        ≡ some cookie
      → SignedIn check times nets r body s
  unfolding handle_login error_answer login_of address_of
  handle_login-SignedIn order check times busy token nets r none s cookie h = ground arith
  handle_login-SignedIn order check times busy token nets r (some b) s cookie h =
      let allowed =
        sign_in_allowed table parse_ip ip_text split_host_port parse_url equal_fold nets r in
      elim (Bool-cases allowed) [
        | inr closed ↦ ground (arith, closed)
        | inl safe ↦
            elim (Bool-cases
              (ltb 0 (wait times.waited (login_of b) (address_of nets r) s.throttle))) [
                | inl waits ↦ ground (arith, safe, waits)
                | inr free ↦
                    let found = user_by_login (login_of b) s.conn in
                    let (u, stored, en, ok) =
                      after_hash-ok order check times busy token nets r b (address_of nets r)
                        found.0 (record s { conn = found.1 }) cookie
                        (rw (safe, free, handle_login) at h) in
                    record {
                      input = b;
                      was_read = refl;
                      connection = safe;
                      no_wait = ground (arith, free);
                      who = u;
                      is_stored = stored;
                      is_enabled = en;
                      password_accepted = ok;
                    }
              ]
      ]

  -- A login over a connection that is allowed, while its login and address wait, is answered 429
  -- and changes neither the tables nor Throttle, whatever the password.
  pub throttled-unchanged :
      (order : Throttle → Throttle) (check : Text → Text → Bool) (times : Times) (busy : Bool)
      (token : Option Text) (nets : List IpNet) (r : Request) (b : LoginRequest) (s : Server)
      → sign_in_allowed table parse_ip ip_text split_host_port parse_url equal_fold nets r ≡ true
      → 1 ≤ wait times.waited (login_of b) (address_of nets r) s.throttle
      → handle_login table parse_ip ip_text split_host_port parse_url equal_fold sha256 order check
          times busy token nets r
          (some b)
          s
        ≡ (error_answer 429 (runes "rate_limited"), s)
  unfolding handle_login login_of address_of
  throttled-unchanged order check times busy token nets r b s safe waits =
      let waits' : ltb 0 (wait times.waited (login_of b) (address_of nets r) s.throttle) ≡ true =
        ground arith in
      rw (safe, waits', handle_login) refl
