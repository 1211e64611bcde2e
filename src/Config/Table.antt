-- ===== src/Config/Table.antt =====
-- internal/config/config.go: the checks of the routing section.
pub mod Builds
use alertloop.Base.{ℕ, Bool, true, false, not, ◌&&◌, ◌||◌, List, [], ◌∷◌, Text, is_empty}
use alertloop.Strings.{trim_space}
use alertloop.Domain.Event.{valid_event_type, to_event_type}
use alertloop.Domain.Severity.{valid_severity, to_severity}
use alertloop.Routing.Matcher.{RoutingMatch, Star, no_star, star, find_star, text_in, normalize}
use alertloop.Routing.Router.{RoutingRule, RoutingConfig}

-- a '*' stands nowhere, or last
unfoldable pub star_last : Star → Bool
star_last no_star = true
star_last (star before []) = true
star_last (star before (_ ∷ _)) = false

unfoldable pub valid_pattern : Text → Bool
unfolding star_last find_star trim_space
valid_pattern v = star_last (find_star (trim_space v))

unfoldable pub all_of : (Text → Bool) → List Text → Bool
all_of p [] = true
all_of p (v ∷ l) = p v && all_of p l

-- the names of the channels, looked up as they stand trimmed in the file
unfoldable pub all_known : List Text → List Text → Bool
unfolding all_of text_in trim_space
all_known channels = all_of (λ ch. text_in channels (trim_space ch))

-- Each check is true for a nil error.
module _ (table : ℕ → ℕ) where
  unfoldable pub valid_routing_type : Text → Bool
  unfolding valid_event_type to_event_type normalize
  valid_routing_type s = valid_event_type (to_event_type (normalize table s))

  unfoldable pub valid_routing_severity : Text → Bool
  unfolding valid_severity to_severity normalize
  valid_routing_severity s = valid_severity (to_severity (normalize table s))

  unfoldable pub match_valid : RoutingMatch → Bool
  unfolding all_of valid_routing_type valid_routing_severity valid_pattern trim_space is_empty
  match_valid m =
      all_of valid_routing_type m.types
      && all_of valid_routing_severity m.severities
      && (is_empty (trim_space m.min_severity) || valid_routing_severity m.min_severity)
      && all_of valid_pattern m.sources
      && all_of valid_pattern m.categories

  -- the loop over the rules, with the names that it has met
  unfoldable pub rules_valid : List Text → List Text → List RoutingRule → Bool
  unfolding match_valid all_known text_in trim_space is_empty
  rules_valid channels names [] = true
  rules_valid channels names (r ∷ l) =
      let name = trim_space r.name in
      let rest = rules_valid channels (name ∷ names) l in
      not (is_empty name)
      && not (text_in names name)
      && match_valid r.match
      && all_known channels r.channels
      && rest

  unfoldable pub routing_valid : List Text → RoutingConfig → Bool
  unfolding rules_valid all_known
  routing_valid channels c = rules_valid channels [] c.rules && all_known channels c.default
