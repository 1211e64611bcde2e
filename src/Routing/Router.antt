-- ===== src/Routing/Router.antt =====
-- internal/routing/routing.go: the router, its decision, and its startup diagnostics.
pub mod First
pub mod Unused
use alertloop.Base.{
  ℕ, Bool, true, false, not, ◌&&◌, ◌||◌, Option, none, some, List, [], ◌∷◌, Text, text_eq, map,
  select, if◌then◌else◌,
}
use alertloop.Strings.{trim_space}
use alertloop.Domain.Event.{Event}
use alertloop.Domain.Delivery.{ChannelTarget}
use alertloop.Routing.Matcher.{
  RoutingMatch, Matcher, EventValues, matches, catch_all, compile, event_values, text_in,
  no_elements,
}

pub record Decision : Type 0 where
  pub rule : Text
  pub matched : Bool
  pub channels : List ChannelTarget

pub record Rule : Type 0 where
  pub name : Text
  pub matcher : Matcher
  pub channels : List ChannelTarget
  pub names : List Text

pub record Router : Type 0 where
  pub configured : Bool
  pub rules : List Rule
  pub def : List ChannelTarget
  pub def_names : List Text
  pub known : List ChannelTarget

-- config.RoutingRule and config.Routing (internal/config/config.go)
pub record RoutingRule : Type 0 where
  pub name : Text
  pub match : RoutingMatch
  pub channels : List Text

pub record RoutingConfig : Type 0 where
  pub rules : List RoutingRule
  pub default : List Text

unfoldable pub target_names : List ChannelTarget → List Text
target_names [] = []
target_names (t ∷ l) = t.name ∷ target_names l

unfoldable pub new_all_channels : List ChannelTarget → Router
unfolding target_names
new_all_channels targets = record {
  configured = false;
  rules = [];
  def = targets;
  def_names = target_names targets;
  known = targets;
}

-- the map `byName`: the last target of a name wins
unfoldable pub by_name : List ChannelTarget → Text → Option ChannelTarget
unfolding text_eq
by_name [] name = none
by_name (t ∷ l) name = elim (by_name l name) [
  | some later ↦ some later
  | none ↦ if text_eq t.name name then some t else none
]

unfoldable pub also :
    ChannelTarget
    → Text
    → Option (List ChannelTarget × List Text)
    → Option (List ChannelTarget × List Text)
also t name none = none
also t name (some (targets, names)) = some (t ∷ targets, name ∷ names)

-- `none` is the error of an unknown channel
unfoldable pub resolve : List ChannelTarget → List Text → Option (List ChannelTarget × List Text)
unfolding by_name also trim_space
resolve targets [] = some ([], [])
resolve targets (n ∷ l) =
    let name = trim_space n in
    let rest = resolve targets l in
    elim (by_name targets name) [ none ↦ none | some t ↦ also t name rest ]

-- the loop of Route: the first rule that matches
unfoldable pub route_by : List Rule → List ChannelTarget → EventValues → Decision
unfolding matches
route_by [] def v = record { rule = []; matched = false; channels = def }
route_by (r ∷ l) def v =
    let rest = route_by l def v in
    if matches r.matcher v
    then record { rule = r.name; matched = true; channels = r.channels }
    else rest

-- The first catch-all rule that is not last, and the names of the rules below it.
unfoldable pub unreachable_rules : List Rule → Text × List Text
unfolding catch_all no_elements
unreachable_rules [] = ([], [])
unreachable_rules (r ∷ l) =
    let rest = unreachable_rules l in
    if catch_all r.matcher && not (no_elements l) then (r.name, map (λ x. x.name) l) else rest

named_by : List Rule → Text → Bool
unfolding text_in
named_by [] name = false
named_by (r ∷ l) name = text_in r.names name || named_by l name

-- the map `used`
unfoldable pub used : Router → Text → Bool
unfolding named_by text_in
used r name = text_in r.def_names name || named_by r.rules name

unfoldable pub unused_channels : Router → List Text
unfolding used target_names select
unused_channels r =
    if r.configured then target_names (select (λ t. not (used r t.name)) r.known) else []

module _ (table : ℕ → ℕ) where
  unfoldable pub route : Router → Event → Decision
  unfolding route_by event_values
  route r e = route_by r.rules r.def (event_values table e)

  unfoldable pub rule_of :
      RoutingRule → Option (List ChannelTarget × List Text) → Option Matcher → Option Rule
  unfolding trim_space
  rule_of rc (some (channels, names)) (some m) =
      some (record { name = trim_space rc.name; matcher = m; channels = channels; names = names })
  rule_of rc _ _ = none

  unfoldable pub one_more : Option Rule → Option (List Rule) → Option (List Rule)
  one_more (some r) (some l) = some (r ∷ l)
  one_more _ _ = none

  unfoldable pub compile_rules : List ChannelTarget → List RoutingRule → Option (List Rule)
  unfolding rule_of one_more resolve compile
  compile_rules targets [] = some []
  compile_rules targets (rc ∷ l) =
      one_more (rule_of rc (resolve targets rc.channels) (compile table rc.match))
        (compile_rules targets l)

  unfoldable pub with_default :
      List ChannelTarget
      → Option (List Rule)
      → Option (List ChannelTarget × List Text)
      → Option Router
  with_default targets (some rules) (some (def, names)) =
      some
        (record { configured = true; rules = rules; def = def; def_names = names; known = targets })
  with_default targets _ _ = none

  -- New; `none` is any of its errors
  unfoldable pub new : RoutingConfig → List ChannelTarget → Option Router
  unfolding with_default compile_rules resolve
  new cfg targets =
      with_default targets (compile_rules targets cfg.rules) (resolve targets cfg.default)
