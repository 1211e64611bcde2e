-- ===== src/Api/Proxies.antt =====
-- internal/api/trustedproxy.go. A header or a cookie that is not there reads as "". net's ParseIP,
-- IP.String and SplitHostPort are parameters.
pub mod Forged
use alertloop.Base.{
  ℕ, ◌==◌, ◌++◌, Bool, true, false, not, ◌&&◌, ◌||◌, Option, none, some, List, [], ◌∷◌, Text,
  text_eq, runes, is_empty, if◌then◌else◌,
}
use alertloop.Strings.{trim_space, to_lower}
use alertloop.Config.Checks.{Ip, IpNet, Url, net_contains}

-- what internal/api reads of http.Request besides the body
pub record Request : Type 0 where
  pub remote_addr : Text
  pub host : Text
  pub tls : Bool
  pub forwarded_for : Text
  pub real_ip : Text
  pub forwarded_host : Text
  pub forwarded_proto : Text
  pub console_header : Text
  pub origin : Text
  pub method : Text
  pub forwarded : Text
  pub authorization : Text
  pub api_key : Text
  pub cookie : Text
  -- the bytes of the header, of which a session keeps 256
  pub user_agent : Text

-- the part before the first rune `c`, or the whole
unfoldable pub before : ℕ → Text → Text
before c [] = []
before c (d ∷ s) = let rest = before c s in if d == c then [] else d ∷ rest

-- `s` at the head of the first part
in_first : ℕ → List Text → List Text
in_first d [] = (d ∷ []) ∷ []
in_first d (p ∷ l) = (d ∷ p) ∷ l

-- strings.Split at one rune
unfoldable pub split : ℕ → Text → List Text
unfolding in_first
split c [] = [] ∷ []
split c (d ∷ s) = let rest = split c s in if d == c then [] ∷ rest else in_first d rest

unfoldable pub backwards : List Text → List Text
backwards [] = []
backwards (p ∷ l) = backwards l ++ (p ∷ [])

unfoldable pub contained : List IpNet → Ip → Bool
unfolding net_contains
contained [] ip = false
contained (n ∷ l) ip = net_contains n ip || contained l ip

-- TrustedProxies; a nil one trusts nobody, as one without nets
unfoldable pub trusts : List IpNet → Option Ip → Bool
unfolding contained
trusts nets none = false
trusts nets (some ip) = contained nets ip

no_nets : List IpNet → Bool
no_nets [] = true
no_nets (_ ∷ _) = false

module _ (parse_ip : Text → Option Ip) (ip_text : Ip → Text)
    (split_host_port : Text → Option (Text × Text)) where
  unfoldable pub host_only : Text → Text
  unfolding before
  host_only addr = before b'%' (elim (split_host_port addr) [ none ↦ addr | some hp ↦ hp.0 ])

  -- the loop of ClientIP over the parts, from the right
  unfoldable pub walk : List IpNet → Text → List Text → Text
  unfolding trusts trim_space
  walk nets peer [] = peer
  walk nets peer (p ∷ l) =
      let rest = walk nets peer l in
      elim (parse_ip (trim_space p)) [
        | none ↦ peer
        | some c ↦ if trusts nets (some c) then rest else ip_text c
      ]

  unfoldable pub from_real_ip : Text → Text → Text
  unfolding trim_space is_empty
  from_real_ip peer real_ip =
      let real = trim_space real_ip in
      if is_empty real then peer else elim (parse_ip real) [ none ↦ peer | some ip ↦ ip_text ip ]

  unfoldable pub peer_trusted : List IpNet → Request → Bool
  unfolding trusts host_only
  peer_trusted nets r = trusts nets (parse_ip (host_only r.remote_addr))

  unfoldable pub client_ip : List IpNet → Request → Text
  unfolding no_nets peer_trusted host_only is_empty walk from_real_ip split backwards
  client_ip nets r =
      let peer = host_only r.remote_addr in
      if no_nets nets
      then peer
      else if not (peer_trusted nets r)
      then peer
      else if is_empty r.forwarded_for
      then from_real_ip peer r.real_ip
      else walk nets peer (backwards (split b',' r.forwarded_for))
