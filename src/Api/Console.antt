-- ===== src/Api/Console.antt =====
-- internal/api/auth.go and middleware.go: whether a request comes from the console itself, over which
-- connection, and from where. net/url's Parse and strings.EqualFold are parameters too.
use alertloop.Base.{
  ℕ, ◌/◌, ◌^◌, ◌==◌, Bool, false, not, ◌&&◌, ◌||◌, Option, none, some, List, [], ◌∷◌, Text, text_eq,
  runes, is_empty, if◌then◌else◌,
}
use alertloop.Strings.{trim_space, to_lower}
use alertloop.Config.Checks.{Ip, v4, v6, IpNet, Url}
use alertloop.Api.Proxies.{Request, before, host_only, peer_trusted}

unfoldable pub safe_method : Text → Bool
unfolding text_eq
safe_method m = text_eq m (runes "GET") || text_eq m (runes "HEAD") || text_eq m (runes "OPTIONS")

is_bracket : ℕ → Bool
is_bracket c = c == b'[' || c == b']'

trim_left_brackets : Text → Text
unfolding is_bracket
trim_left_brackets [] = []
trim_left_brackets (c ∷ s) = let rest = trim_left_brackets s in if is_bracket c then rest else c ∷ s

keep_rune : ℕ → Text → Text
unfolding is_bracket
keep_rune c [] = if is_bracket c then [] else c ∷ []
keep_rune c (d ∷ t) = c ∷ d ∷ t

trim_right_brackets : Text → Text
unfolding keep_rune
trim_right_brackets [] = []
trim_right_brackets (c ∷ s) = keep_rune c (trim_right_brackets s)

-- the port of a scheme
unfoldable pub default_port : Text → Text
unfolding text_eq
default_port scheme =
    if text_eq scheme (runes "https")
    then runes "443"
    else if text_eq scheme (runes "http")
    then runes "80"
    else []

-- IsLoopback, IsPrivate or IsLinkLocalUnicast
unfoldable pub is_local : Ip → Bool
is_local (v4 n) =
    n / 2 ^ 24 == 127
    || n / 2 ^ 24 == 10
    || n / 2 ^ 20 == 2753
    || n / 2 ^ 16 == 49320
    || n / 2 ^ 16 == 43518
is_local (v6 n) = n == 1 || n / 2 ^ 121 == 126 || n / 2 ^ 118 == 1018

module _ (table : ℕ → ℕ) (parse_ip : Text → Option Ip) (ip_text : Ip → Text)
    (split_host_port : Text → Option (Text × Text)) (parse_url : Text → Option Url)
    (equal_fold : Text → Text → Bool) where
  unfoldable pub reached_host : List IpNet → Request → Text
  unfolding peer_trusted before trim_space is_empty
  reached_host nets r =
      if not (is_empty r.forwarded_host) && peer_trusted parse_ip ip_text split_host_port nets r
      then trim_space (before b',' r.forwarded_host)
      else r.host

  unfoldable pub host_and_port : Text → Text × Text
  unfolding trim_left_brackets trim_right_brackets
  host_and_port host = elim (split_host_port host) [
    | some hp ↦ hp
    | none ↦ (trim_right_brackets (trim_left_brackets host), [])
  ]

  unfoldable pub same_host : Url → Text → Bool
  unfolding host_and_port default_port to_lower text_eq is_empty
  same_host o host =
      let (h, port) = host_and_port host in
      let op = if is_empty o.port then default_port (to_lower table o.scheme) else o.port in
      equal_fold o.hostname h && (is_empty port || text_eq op port)

  -- notFromConsole answers ""
  unfoldable pub from_console : List IpNet → Request → Bool
  unfolding text_eq is_empty same_host reached_host
  from_console nets r =
      text_eq r.console_header (runes "1")
      && (is_empty r.origin || elim (parse_url r.origin) [
        | none ↦ false
        | some u ↦ not (is_empty u.host) && same_host u (reached_host nets r)
      ])

  unfoldable pub is_https : List IpNet → Request → Bool
  unfolding peer_trusted trim_space
  is_https nets r =
      r.tls
      || (peer_trusted parse_ip ip_text split_host_port nets r
          && equal_fold (trim_space r.forwarded_proto) (runes "https"))

  unfoldable pub demo_token_allowed : Request → Bool
  unfolding is_empty host_only is_local
  demo_token_allowed r =
      is_empty r.forwarded_for
      && is_empty r.forwarded
      && is_empty r.real_ip
      && elim (parse_ip (host_only parse_ip ip_text split_host_port r.remote_addr)) [
        | none ↦ false
        | some ip ↦ is_local ip
      ]

  unfoldable pub sign_in_allowed : List IpNet → Request → Bool
  unfolding is_https demo_token_allowed
  sign_in_allowed nets r = is_https nets r || demo_token_allowed r
