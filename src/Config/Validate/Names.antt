-- ===== src/Config/Validate/Names.antt =====
-- Validate on the names of the channels: what the loops see, and where a fallback leads.
use alertloop.Base.{
  ℕ, ◌≤◌, Bool, true, false, ◌&&◌, Option, none, some, List, [], ◌∷◌, Has, ◌≡◌, ◌≢◌, refl, sym, ◌∙◌,
  arith, Text, text_eq, is_empty,
}
use alertloop.Strings.{trim_space}
use alertloop.Domain.Delivery.{ChannelTarget}
use alertloop.Routing.Matcher.{text_in}
use alertloop.Routing.Router.{RoutingRule, RoutingConfig, Router, target_names, new}
use alertloop.Config.Types.{Config, Channels}
use alertloop.Config.Checks.{Url, Ip, IpNet}
use alertloop.Config.Table.{all_of, all_known, rules_valid, routing_valid}
use alertloop.Config.Table.Builds.{new-some}
use alertloop.Config.Validate.{
  fallbacks, fallback_name, check_names, fallbacks_ok, entries, rest_ok, settings_ok, routing_ok,
  others_ok, validate, channel_names, named_fallbacks,
}
use mathlib.Core.List.{map-map}
use alertloop.Config.Validate.Seen.{
  names_of, distinct, map-append, check_names-seen, check_names-distinct, fallback_name-own,
  fallbacks_ok-name,
}

and_left : (a b : Bool) → (a && b) ≡ true → a ≡ true
and_left true b h = refl
and_left false b h = cc

and_right : (a b : Bool) → (a && b) ≡ true → b ≡ true
and_right true b h = h
and_right false b h = cc

there :
    (x : Option (List Text)) (f : List Text → Bool)
    → (elim x [ none ↦ false | some seen ↦ f seen ]) ≡ true
    → (seen : List Text) × (x ≡ some seen) × (f seen ≡ true)
there none f h = cc
there (some seen) f h = (seen, refl, h)

all_known-names :
    (l m names : List Text)
    → ((n : Text) → text_in l n ≡ text_in m n)
    → all_known l names ≡ all_known m names
unfolding all_known all_of
all_known-names l m [] e = refl
all_known-names l m (n ∷ names) e = rw (e (trim_space n), all_known-names l m names e) refl

module _ (table : ℕ → ℕ) (parse_url : Text → Option Url) (parse_cidr : Text → Option IpNet)
    (parse_ip : Text → Option Ip) where
  -- the loops' names are the channels'
  pub names-entries :
      (c : Channels) → names_of (entries table parse_url parse_cidr parse_ip c) ≡ channel_names c
  unfolding names_of entries channel_names named_fallbacks
  names-entries c = simp (map-append, map-map)

  pub validate-seen :
      (c : Config)
      → validate table parse_url parse_cidr parse_ip c ≡ true
      → (seen : List Text) × (check_names
            (entries table parse_url parse_cidr parse_ip c.channels)
            []
          ≡ some seen)
        × (rest_ok table parse_url parse_cidr parse_ip c seen ≡ true)
  unfolding validate
  validate-seen c h =
      there (check_names (entries table parse_url parse_cidr parse_ip c.channels) [])
        (rest_ok table parse_url parse_cidr parse_ip c) (and_right (settings_ok c) _ h)

  -- In a configuration that passes Validate, no two channels have the same name.
  pub validate-distinct :
      (c : Config)
      → validate table parse_url parse_cidr parse_ip c ≡ true
      → distinct (channel_names c.channels) ≡ true
  validate-distinct c h =
      let (seen, e, ok) = validate-seen c h in
      rw (sym (names-entries c.channels))
        (check_names-distinct (entries table parse_url parse_cidr parse_ip c.channels) [] seen e)

  rest_ok-parts :
      (c : Config) (seen : List Text)
      → rest_ok table parse_url parse_cidr parse_ip c seen ≡ true
      → (fallbacks_ok seen (fallbacks c.channels) ≡ true)
        × (routing_ok table parse_url parse_cidr parse_ip c seen ≡ true)
  unfolding rest_ok
  rest_ok-parts c seen h =
      let both =
        and_left
          (fallbacks_ok seen (fallbacks c.channels)
            && routing_ok table parse_url parse_cidr parse_ip c seen)
          (others_ok table parse_url parse_cidr parse_ip c) h in
      (
        and_left (fallbacks_ok seen (fallbacks c.channels))
            (routing_ok table parse_url parse_cidr parse_ip c seen) both,
        and_right (fallbacks_ok seen (fallbacks c.channels))
            (routing_ok table parse_url parse_cidr parse_ip c seen) both,
      )

  seen-names :
      (c : Channels) (seen : List Text) (n : Text)
      → check_names (entries table parse_url parse_cidr parse_ip c) [] ≡ some seen
      → text_in (channel_names c) n ≡ text_in seen n
  unfolding text_in
  seen-names c seen n e =
      let there = check_names-seen (entries table parse_url parse_cidr parse_ip c) [] seen n e in
      rw (sym (names-entries c)) (ground (arith, there))

  -- In a configuration that passes Validate, the fallback that a channel names is the one that
  -- Fallbacks gives for it, and is another configured channel.
  pub validate-fallback :
      (c : Config) (n fb : Text)
      → validate table parse_url parse_cidr parse_ip c ≡ true
      → Has (n, fb) (named_fallbacks c.channels)
      → is_empty fb ≡ false
      → (fallback_name (fallbacks c.channels) n ≡ fb)
        × (text_in (channel_names c.channels) fb ≡ true)
        × (text_eq fb n ≡ false)
  unfolding fallbacks channel_names names_of
  validate-fallback c n fb h has given =
      let (seen, e, ok) = validate-seen c h in
      let own : fallback_name (fallbacks c.channels) n ≡ fb =
        fallback_name-own (named_fallbacks c.channels) [] n fb (validate-distinct c h) has given in
      let (other, known) =
        fallbacks_ok-name seen (fallbacks c.channels) n (rest_ok-parts c seen ok).0
          (rw own given) in
      (own, seen-names c.channels seen fb e ∙ rw own at known, rw own at other)

  rules_valid-names :
      (l m names : List Text) (rules : List RoutingRule)
      → ((n : Text) → text_in l n ≡ text_in m n)
      → rules_valid table l names rules ≡ rules_valid table m names rules
  unfolding rules_valid
  rules_valid-names l m names [] e = refl
  rules_valid-names l m names (r ∷ rules) e =
      rw
        (
          all_known-names l m r.channels e,
          rules_valid-names l m (trim_space r.name ∷ names) rules e,
        )
        refl

  routing_valid-names :
      (r : RoutingConfig) (l m : List Text)
      → ((n : Text) → text_in l n ≡ text_in m n)
      → routing_valid table l r ≡ routing_valid table m r
  unfolding routing_valid
  routing_valid-names r l m e =
      rw (rules_valid-names l m [] r.rules e, all_known-names l m r.default e) refl

  -- A configuration that passes Validate and has a routing section gives routing.New a router,
  -- when its targets are the configured channels, if Unicode lower-casing maps no other rune to a
  -- star.
  pub validate-router :
      (keeps_star : (k : ℕ) → 128 ≤ k → table k ≢ b'*') (c : Config) (r : RoutingConfig)
      (targets : List ChannelTarget)
      → validate table parse_url parse_cidr parse_ip c ≡ true
      → c.routing ≡ some r
      → target_names targets ≡ channel_names c.channels
      → (router : Router) × (new table r targets ≡ some router)
  unfolding routing_ok
  validate-router keeps_star c r targets h given names =
      let (seen, e, ok) = validate-seen c h in
      let valid : routing_valid table seen r ≡ true = rw given at (rest_ok-parts c seen ok).1 in
      new-some table keeps_star r targets (
        rw names (
          routing_valid-names r (channel_names c.channels) seen
            (λ n. seen-names c.channels seen n e)
          ∙ valid))
