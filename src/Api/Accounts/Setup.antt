-- ===== src/Api/Accounts/Setup.antt =====
-- internal/api/auth.go: what the creation of the first administrator has shown.
use alertloop.Base.{
  ℕ, Bool, true, false, not, Option, none, some, List, Text, text_eq, is_empty, ◌≡◌, refl, arith,
  inl, inr, Bool-cases, ◌||◌,
}
use alertloop.Config.Checks.{Ip, IpNet, Url}
use alertloop.Auth.Login.{new_user, Checked, invalid, broken, fine}
use alertloop.Store.Users.Tables.{
  User, Conn, Reply, done, failed, no_user, database, login_taken, users_exist,
}
use alertloop.Store.Users.{create_first_user, no_users}
use alertloop.Store.Users.First.{first_done}
use alertloop.Api.Proxies.{Request}
use alertloop.Api.Console.{sign_in_allowed, demo_token_allowed}
use alertloop.Api.Access.{demo_admin_token}
use alertloop.Api.Accounts.{Answer, error_answer, domain_error, account_error}
use alertloop.Api.Accounts.Handlers.{
  SetupRequest, after_first, setup_admitted, setup_refusal, handle_setup, bad_body,
  validation_failed, internal_error,
}

module _ (table : ℕ → ℕ) (parse_ip : Text → Option Ip) (ip_text : Ip → Text)
    (split_host_port : Text → Option (Text × Text)) (parse_url : Text → Option Url)
    (equal_fold : Text → Text → Bool) (sha256 : Text → Text) where
  after_first-done :
      (nets : List IpNet) (now : ℕ) (token : Option Text) (r : Request) (u : User)
      (result : Reply Unit × Conn) (cookie : Text)
      → (after_first table parse_ip ip_text split_host_port parse_url equal_fold sha256 nets now
          token r u result).0.cookie
        ≡ some cookie
      → result.0 ≡ done tt
  unfolding after_first error_answer account_error domain_error
  after_first-done nets now token r u (done _, c) cookie h = refl
  after_first-done nets now token r u (failed users_exist, c) cookie h = ground arith
  after_first-done nets now token r u (failed login_taken, c) cookie h = ground arith
  after_first-done nets now token r u (failed no_user, c) cookie h = ground arith
  after_first-done nets now token r u (failed database, c) cookie h = ground arith

  created-Started :
      (derive : Text → Option Text) (i : Text) (created started : ℕ) (token : Option Text)
      (nets : List IpNet) (r : Request) (c : Conn) (cookie : Text) (checked : Checked User)
      → (elim checked as (λ _. Answer × Conn) [
        | invalid ↦ (validation_failed, c)
        | broken ↦ (internal_error, c)
        | fine u ↦
            after_first table parse_ip ip_text split_host_port parse_url equal_fold sha256 nets
              started token r u
              (create_first_user u c)
      ]).0.cookie
        ≡ some cookie
      → no_users c.accounts.users ≡ true
  unfolding validation_failed internal_error error_answer
  created-Started derive i created started token nets r c cookie invalid h = ground arith
  created-Started derive i created started token nets r c cookie broken h = ground arith
  created-Started derive i created started token nets r c cookie (fine u) h =
      (first_done u c (after_first-done nets started token r u (create_first_user u c) cookie h)).0

  setup_admitted-parts :
      (admin : Text) (r : Request) (b : SetupRequest)
      → setup_admitted table parse_ip ip_text split_host_port parse_url equal_fold sha256 admin r b
        ≡ true
      → (is_empty admin ≡ false)
        × (text_eq b.admin_token admin ≡ true)
        × ((not (text_eq admin demo_admin_token)
              || demo_token_allowed table parse_ip ip_text split_host_port parse_url equal_fold r)
            ≡ true)
  unfolding setup_admitted
  setup_admitted-parts admin r b h = (ground arith, ground arith, ground arith)

  refused-no_cookie :
      (admin : Text) (b : SetupRequest)
      → (setup_refusal table parse_ip ip_text split_host_port parse_url equal_fold sha256 admin
          b).cookie
        ≡ none
  unfolding setup_refusal error_answer
  refused-no_cookie admin b = ground arith

  -- a setup that opens a session: nobody had an account, and the request has the admin token, which
  -- is set, and is not the public demo token of a request from elsewhere
  pub record SetUp (admin : Text) (r : Request) (body : Option SetupRequest) (c : Conn)
      : Type 0 where
    pub input : SetupRequest
    pub was_read : body ≡ some input
    pub is_set : is_empty admin ≡ false
    pub has_token : text_eq input.admin_token admin ≡ true
    pub not_demo :
        (not (text_eq admin demo_admin_token)
          || demo_token_allowed table parse_ip ip_text split_host_port parse_url equal_fold r)
        ≡ true
    pub nobody : no_users c.accounts.users ≡ true

  -- A setup that sets a cookie found no account, and the request has the admin token, which is set
  -- and is not the public demo token of a request from elsewhere.
  pub handle_setup-SetUp :
      (admin : Text) (derive : Text → Option Text) (i : Text) (created started : ℕ)
      (token : Option Text) (nets : List IpNet) (r : Request) (body : Option SetupRequest)
      (c : Conn) (cookie : Text)
      → (handle_setup table parse_ip ip_text split_host_port parse_url equal_fold sha256 admin
          derive i created started token nets r body c).0.cookie
        ≡ some cookie
      → SetUp admin r body c
  unfolding handle_setup error_answer bad_body
  handle_setup-SetUp admin derive i created started token nets r none c cookie h = ground arith
  handle_setup-SetUp admin derive i created started token nets r (some b) c cookie h =
      let allowed =
        sign_in_allowed table parse_ip ip_text split_host_port parse_url equal_fold nets r in
      let takes =
        setup_admitted table parse_ip ip_text split_host_port parse_url equal_fold sha256 admin r
          b in
      elim (Bool-cases allowed) [
        | inr closed ↦ ground (arith, closed)
        | inl safe ↦ elim (Bool-cases takes) [
          | inr refused ↦
              let opened : (setup_refusal table parse_ip ip_text split_host_port parse_url
                    equal_fold sha256 admin b).cookie
                  ≡ some cookie =
                rw (safe, refused, handle_setup) at h in
              ground (arith, refused-no_cookie admin b, opened)
          | inl taken ↦
              let (set, same, fit) = setup_admitted-parts admin r b taken in
              record {
                input = b;
                was_read = refl;
                is_set = set;
                has_token = same;
                not_demo = fit;
                nobody =
                    created-Started derive i created started token nets r c cookie
                      (new_user table derive i created b.login b.password)
                      (rw (safe, taken, handle_setup) at h);
              }
        ]
      ]
