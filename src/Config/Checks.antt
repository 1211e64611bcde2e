-- ===== src/Config/Checks.antt =====
-- internal/config/config.go: the checks of single settings. net/url's Parse, net's ParseIP and
-- ParseCIDR are parameters.
use alertloop.Base.{
  ℕ, ◌-◌, ◌/◌, ◌++◌, ◌^◌, ◌==◌, Bool, true, false, not, ◌&&◌, ◌||◌, Option, none, some, List, [],
  ◌∷◌, Text, text_eq, runes, is_empty, if◌then◌else◌,
}
use alertloop.Strings.{trim_space, trim_right_of, has_prefix, has_suffix, to_lower}
use alertloop.Routing.Matcher.{text_in}
use alertloop.Config.Types.{Logging}

-- what the code reads of url.URL
pub record Url : Type 0 where
  pub scheme : Text
  pub host : Text
  pub hostname : Text
  pub port : Text
  pub path : Text
  pub raw_query : Text
  pub force_query : Bool
  pub fragment : Text

-- net.IP: an IPv4 address, mapped or not, and any other, each by its value
pub data Ip : Type 0 where
  v4 v6 : ℕ → Ip

-- net.IPNet: an address and the number of ones in its mask
pub record IpNet : Type 0 where
  pub ip : Ip
  pub ones : ℕ

unfoldable pub same_prefix : ℕ → ℕ → ℕ → ℕ → Bool
same_prefix bits ones a b = a / 2 ^ (bits - ones) == b / 2 ^ (bits - ones)

-- IPNet.Contains
unfoldable pub net_contains : IpNet → Ip → Bool
unfolding same_prefix
net_contains n ip = elim n.ip [
  | v4 a ↦ elim ip [ v4 b ↦ same_prefix 32 n.ones a b | v6 b ↦ false ]
  | v6 a ↦ elim ip [ v4 b ↦ false | v6 b ↦ same_prefix 128 n.ones a b ]
]

pub data Level : Type 0 where
  debug info warn error : Level

unfoldable pub http_scheme : Text → Bool
unfolding text_eq
http_scheme s = text_eq s (runes "http") || text_eq s (runes "https")

unfoldable pub absolute_http : Url → Bool
unfolding http_scheme is_empty
absolute_http u = http_scheme u.scheme && not (is_empty u.host)

-- Each check is true for a nil error.
module _ (table : ℕ → ℕ) (parse_url : Text → Option Url) where
  unfoldable pub check_http_url : Text → Bool
  unfolding absolute_http
  check_http_url raw = elim (parse_url raw) [ none ↦ false | some u ↦ absolute_http u ]

  unfoldable pub check_public_url : Text → Bool
  unfolding absolute_http is_empty has_suffix trim_right_of
  check_public_url raw = if is_empty raw then true else elim (parse_url raw) [
    | none ↦ false
    | some u ↦
        absolute_http u
        && is_empty u.raw_query
        && not u.force_query
        && is_empty u.fragment
        && not (has_suffix (trim_right_of b'/' u.path) (runes "/admin"))
  ]

  unfoldable pub proxy_schemes : List Text
  proxy_schemes = runes "http" ∷ runes "https" ∷ runes "socks5" ∷ runes "socks5h" ∷ []

  proxy_url_ok : Url → Bool
  unfolding proxy_schemes text_in to_lower is_empty has_prefix
  proxy_url_ok u =
      let scheme = to_lower table u.scheme in
      text_in proxy_schemes scheme
      && not (is_empty u.hostname)
      && not (is_empty u.port && has_prefix scheme (runes "socks5"))

  -- ParseProxyURL: `some none` is (nil, nil), and `none` is an error
  unfoldable pub parse_proxy_url : Text → Option (Option Url)
  unfolding proxy_url_ok trim_space is_empty
  parse_proxy_url raw =
      let s = trim_space raw in
      if is_empty s then some none else elim (parse_url s) [
        | none ↦ none
        | some u ↦ if proxy_url_ok u then some (some u) else none
      ]

  -- SafeProxyURL; `none` is a nil URL
  unfoldable pub safe_proxy_url : Option Url → Text
  safe_proxy_url none = []
  safe_proxy_url (some u) = u.scheme ++ (runes "://" ++ u.host)

  unfoldable pub slog_level : Logging → Option Level
  unfolding to_lower text_eq is_empty
  slog_level l =
      let s = to_lower table l.level in
      if text_eq s (runes "debug")
      then some debug
      else if is_empty s || text_eq s (runes "info")
      then some info
      else if text_eq s (runes "warn") || text_eq s (runes "warning")
      then some warn
      else if text_eq s (runes "error")
      then some error
      else none

  unfoldable pub json_format : Logging → Option Bool
  unfolding to_lower text_eq is_empty
  json_format l =
      let s = to_lower table l.format in
      if is_empty s || text_eq s (runes "text")
      then some false
      else if text_eq s (runes "json")
      then some true
      else none

module _ (parse_cidr : Text → Option IpNet) (parse_ip : Text → Option Ip) where
  single : Ip → IpNet
  single (v4 n) = record { ip = v4 n; ones = 32 }
  single (v6 n) = record { ip = v6 n; ones = 128 }

  -- one entry that is not blank
  parse_proxy : Text → Option IpNet
  unfolding single
  parse_proxy raw = elim (parse_cidr raw) [
    | some block ↦ some block
    | none ↦ elim (parse_ip raw) [ none ↦ none | some ip ↦ some (single ip) ]
  ]

  also_net : Option IpNet → Option (List IpNet) → Option (List IpNet)
  also_net (some n) (some l) = some (n ∷ l)
  also_net _ _ = none

  -- ParseTrustedProxies; `none` is its error
  unfoldable pub parse_trusted_proxies : List Text → Option (List IpNet)
  unfolding parse_proxy also_net trim_space is_empty
  parse_trusted_proxies [] = some []
  parse_trusted_proxies (raw ∷ l) =
      let rest = parse_trusted_proxies l in
      let s = trim_space raw in if is_empty s then rest else also_net (parse_proxy s) rest
