-- ===== src/Api/Access.antt =====
-- internal/api/middleware.go and auth.go: which requests the JSON API admits, and with which scope.
-- crypto/sha256 is a parameter.
pub mod Admitted
use alertloop.Base.{
  ℕ, ◌-◌, Bool, true, false, not, ◌&&◌, ◌||◌, Option, none, some, List, [], ◌∷◌, Text, text_eq,
  runes, is_empty, if◌then◌else◌,
}
use alertloop.Strings.{trim_space, has_prefix}
use alertloop.Config.Types.{ApiKey}
use alertloop.Config.Checks.{Ip, IpNet, Url}
use alertloop.Auth.Login.{idle_timeout}
use alertloop.Store.Users.Tables.{User, Conn, Reply, done, failed, UserError, no_user, database}
use alertloop.Store.Users.{session_user}
use alertloop.Api.Proxies.{Request}
use alertloop.Api.Console.{safe_method, from_console, demo_token_allowed}

-- `none` in `sources` is nil: every source
pub record Caller : Type 0 where
  pub scope : Text
  pub sources : Option (List Text)

-- the answer: a status and an error code, or the call of the next handler
pub data Access : Type 0 where
  refused : (status : ℕ) (code : Text) → Access
  admitted : Caller → Access

after_prefix : Text → Text → Text
after_prefix [] s = s
after_prefix (_ ∷ p) [] = []
after_prefix (_ ∷ p) (_ ∷ s) = after_prefix p s

unfoldable pub extract_api_key : Request → Text
unfolding after_prefix has_prefix trim_space
extract_api_key r =
    if has_prefix r.authorization (runes "Bearer ")
    then trim_space (after_prefix (runes "Bearer ") r.authorization)
    else trim_space r.api_key

abbrev pub demo_admin_token : Text
demo_admin_token = runes "change-me-admin"

abbrev pub full_caller : Caller
full_caller = record { scope = runes "full"; sources = none }

unfoldable pub unauthorized : Access
unauthorized = refused 401 (runes "unauthorized")

unfoldable pub forbidden : Access
forbidden = refused 403 (runes "forbidden")

-- requireScope
unfoldable pub scope_allows : Text → Caller → Bool
unfolding text_eq
scope_allows needed c = text_eq c.scope (runes "full") || text_eq c.scope needed

module _ (sha256 : Text → Text) where
  -- the loop of lookupKey: the last key of the map with the digest
  unfoldable pub lookup_key : List ApiKey → Text → Option ApiKey
  unfolding text_eq
  lookup_key [] presented = none
  lookup_key (k ∷ l) presented = elim (lookup_key l presented) [
    | some later ↦ some later
    | none ↦ if text_eq (sha256 presented) (sha256 k.key) then some k else none
  ]

  module _ (table : ℕ → ℕ) (parse_ip : Text → Option Ip) (ip_text : Ip → Text)
      (split_host_port : Text → Option (Text × Text)) (parse_url : Text → Option Url)
      (equal_fold : Text → Text → Bool) where
    unfoldable pub admin_access : Text → Request → Access
    unfolding forbidden demo_token_allowed text_eq
    admin_access admin r =
        if text_eq admin demo_admin_token
          && not (demo_token_allowed table parse_ip ip_text split_host_port parse_url equal_fold r)
        then forbidden
        else admitted full_caller

    -- apiKeyAuth
    unfoldable pub api_key_auth : List ApiKey → Text → Request → Access
    unfolding extract_api_key is_empty text_eq lookup_key unauthorized admin_access
    api_key_auth keys admin r =
        let presented = extract_api_key r in
        if is_empty presented then unauthorized else elim (lookup_key keys presented) [
          | some k ↦ admitted (record { scope = k.scope; sources = k.sources })
          | none ↦
              if not (is_empty admin) && text_eq presented admin
              then admin_access admin r
              else unauthorized
        ]

    -- what a signed-in user may do
    unfoldable pub session_access : List IpNet → Request → Access
    unfolding safe_method from_console forbidden
    session_access nets r =
        if safe_method r.method
          || from_console table parse_ip ip_text split_host_port parse_url equal_fold nets r
        then admitted full_caller
        else forbidden

    -- authenticateSession's answer, and the next handler's
    unfoldable pub with_session : List IpNet → Request → Reply User → Access
    unfolding session_access unauthorized
    with_session nets r (done u) = session_access nets r
    with_session nets r (failed e) = elim e [
      | no_user ↦ unauthorized
      | _ ↦ refused 500 (runes "internal_error")
    ]

    -- sessionOrKey at the time `now`
    unfoldable pub session_or_key :
        List ApiKey → Text → List IpNet → ℕ → Request → Conn → Access × Conn
    unfolding extract_api_key is_empty api_key_auth session_user with_session
    session_or_key keys admin nets now r c =
        if not (is_empty (extract_api_key r)) || is_empty r.cookie
        then (api_key_auth keys admin r, c)
        else let (reply, d) = session_user (sha256 r.cookie) now (now - idle_timeout) c in
          (with_session nets r reply, d)
