-- ===== src/Api/Access/Admitted.antt =====
-- internal/api: what a request that the JSON API admits has shown.
use alertloop.Base.{
  ℕ, ◌-◌, Bool, true, false, not, ◌||◌, Option, some, List, [], ◌∷◌, Has, Text, text_eq,
  text_eq_iff, is_empty, ◌≡◌, refl, sym, arith, inl, inr, Bool-cases, Option-cases,
}
use alertloop.Config.Types.{ApiKey}
use alertloop.Config.Checks.{Ip, IpNet, Url}
use alertloop.Auth.Login.{idle_timeout}
use alertloop.Store.Users.Tables.{User, Conn, Reply, done, failed}
use alertloop.Store.Users.{session_user}
use alertloop.Api.Proxies.{Request}
use alertloop.Api.Console.{safe_method, from_console, demo_token_allowed}
use alertloop.Api.Access.{
  Caller, admitted, extract_api_key, demo_admin_token, full_caller, unauthorized, forbidden,
  lookup_key, admin_access, api_key_auth, session_access, with_session, session_or_key,
}

module _ (sha256 : Text → Text) where
  lookup_key-Has :
      (l : List ApiKey) (presented : Text) (k : ApiKey)
      → lookup_key sha256 l presented ≡ some k
      → Has k l × (sha256 presented ≡ sha256 k.key)
  unfolding lookup_key
  lookup_key-Has [] presented k h = cc
  lookup_key-Has (x ∷ l) presented k h = elim (Option-cases (lookup_key sha256 l presented)) [
    | inr (later, e) ↦
        let (has, same) = lookup_key-Has l presented k (ground (arith, e)) in (inr has, same)
    | inl missing ↦
        let found : (text_eq (sha256 presented) (sha256 x.key) ≡ true) × (x ≡ k) =
          ground (arith, missing) in
        (
          inl (sym found.1),
          rw⁻¹ found.1 ((text_eq_iff (sha256 presented) (sha256 x.key)).0 found.0),
        )
  ]

  module _ (table : ℕ → ℕ) (parse_ip : Text → Option Ip) (ip_text : Ip → Text)
      (split_host_port : Text → Option (Text × Text)) (parse_url : Text → Option Url)
      (equal_fold : Text → Text → Bool) where
    -- what admits a caller: a configured key, the admin token, or the session of a user
    pub data Admits (keys : List ApiKey) (admin : Text) (nets : List IpNet) (now : ℕ) (r : Request)
        (c : Conn) (caller : Caller) : Type 0 where
      by_key :
          (k : ApiKey)
          → Has k keys
          → sha256 (extract_api_key r) ≡ sha256 k.key
          → caller ≡ record { scope = k.scope; sources = k.sources }
          → Admits keys admin nets now r c caller
      by_admin :
          extract_api_key r ≡ admin
          → is_empty admin ≡ false
          → (not (text_eq admin demo_admin_token)
              || demo_token_allowed table parse_ip ip_text split_host_port parse_url equal_fold r)
            ≡ true
          → caller ≡ full_caller
          → Admits keys admin nets now r c caller
      by_session :
          (u : User)
          → (session_user (sha256 r.cookie) now (now - idle_timeout) c).0 ≡ done u
          → (safe_method r.method
              || from_console table parse_ip ip_text split_host_port parse_url equal_fold nets r)
            ≡ true
          → caller ≡ full_caller
          → Admits keys admin nets now r c caller

    with_session-done :
        (nets : List IpNet) (r : Request) (reply : Reply User) (caller : Caller)
        → with_session sha256 table parse_ip ip_text split_host_port parse_url equal_fold nets r
            reply
          ≡ admitted caller
        → (u : User) × (reply ≡ done u)
          × ((safe_method r.method
                || from_console table parse_ip ip_text split_host_port parse_url equal_fold nets r)
              ≡ true)
          × (caller ≡ full_caller)
    unfolding with_session session_access unauthorized forbidden
    with_session-done nets r (done u) caller h = (u, refl, ground arith, ground arith)
    with_session-done nets r (failed e) caller h = ground arith

    api_key_auth-Admits :
        (keys : List ApiKey) (admin : Text) (nets : List IpNet) (now : ℕ) (r : Request) (c : Conn)
        (caller : Caller)
        → api_key_auth sha256 table parse_ip ip_text split_host_port parse_url equal_fold keys admin
            r
          ≡ admitted caller
        → Admits keys admin nets now r c caller
    unfolding api_key_auth admin_access unauthorized forbidden
    api_key_auth-Admits keys admin nets now r c caller h =
        elim (Option-cases (lookup_key sha256 keys (extract_api_key r))) [
          | inr (k, e) ↦
              let (has, same) = lookup_key-Has keys (extract_api_key r) k e in
              by_key k has same (ground (arith, e))
          | inl missing ↦
              by_admin (ground (arith, missing, text_eq_iff (extract_api_key r) admin))
                (ground (arith, missing, text_eq_iff (extract_api_key r) admin))
                (ground (arith, missing, text_eq_iff (extract_api_key r) admin))
                (ground (arith, missing, text_eq_iff (extract_api_key r) admin))
        ]

    -- A request that /v1 admits has the digest of a configured key and gets its scope and sources,
    -- or it has the admin token, which is set and is not the public demo token of a request from
    -- elsewhere, or it has the cookie of a session whose user the store gives, and then its method
    -- is safe or it comes from the console.
    pub session_or_key-Admits :
        (keys : List ApiKey) (admin : Text) (nets : List IpNet) (now : ℕ) (r : Request) (c : Conn)
        (caller : Caller)
        → (session_or_key sha256 table parse_ip ip_text split_host_port parse_url equal_fold keys
            admin nets now r c).0
          ≡ admitted caller
        → Admits keys admin nets now r c caller
    unfolding session_or_key
    session_or_key-Admits keys admin nets now r c caller h =
        elim (Bool-cases (not (is_empty (extract_api_key r)) || is_empty r.cookie)) [
          | inl keyed ↦
              api_key_auth-Admits keys admin nets now r c caller (rw (keyed, session_or_key) at h)
          | inr cookie ↦
              let (u, found, may, full) =
                with_session-done nets r
                  (session_user (sha256 r.cookie) now (now - idle_timeout) c).0 caller
                  (rw (cookie, session_or_key) at h) in
              by_session u found may full
        ]
