-- ===== src/Routing/Router/Unused.antt =====
-- The channels that UnusedChannels names.
use mathlib.Core.Option.{some-injective}
use alertloop.Base.{
  ℕ, Bool, true, false, not, Option, some, none, List, [], ◌∷◌, ◌≡◌, refl, ap, ◌∙◌, arith, All, Has,
  Has-select, Text, text_eq_iff, inl, inr, select, subst, if◌then◌else◌,
}
use alertloop.Strings.{trim_space}
use alertloop.Domain.Event.{Event}
use alertloop.Domain.Delivery.{ChannelTarget}
use alertloop.Routing.Matcher.{EventValues, Matcher, text_in, event_values, compile}
use alertloop.Routing.Router.{
  Rule, Router, RoutingRule, RoutingConfig, target_names, by_name, also, resolve, named_by, used,
  unused_channels, route_by, route, compile_rules, new, rule_of, one_more, with_default,
}

-- The names kept for the diagnostics are those of the targets that events go to.
pub record Consistent (r : Router) : Type 0 where
  pub rules_named : All (λ x. target_names x.channels ≡ x.names) r.rules
  pub default_named : target_names r.def ≡ r.def_names

by_name-name :
    (l : List ChannelTarget) (name : Text) (t : ChannelTarget)
    → by_name l name ≡ some t
    → t.name ≡ name
unfolding by_name
by_name-name [] name t h = cc
by_name-name (u ∷ l) name t h = ground (arith, by_name-name l name t, text_eq_iff u.name name)

abbrev IsNamed : Option (List ChannelTarget × List Text) → Type 0
IsNamed none = Unit
IsNamed (some (targets, names)) = target_names targets ≡ names

also-IsNamed :
    (t : ChannelTarget) (name : Text) (o : Option (List ChannelTarget × List Text))
    → t.name ≡ name
    → IsNamed o
    → IsNamed (also t name o)
unfolding also target_names
also-IsNamed t name none e h = tt
also-IsNamed t name (some (targets, names)) e h = cc (e, h)

found-IsNamed :
    (o : Option ChannelTarget) (name : Text) (rest : Option (List ChannelTarget × List Text))
    → ((t : ChannelTarget) → o ≡ some t → t.name ≡ name)
    → IsNamed rest
    → IsNamed (elim o [ none ↦ none | some t ↦ also t name rest ])
found-IsNamed none name rest f h = tt
found-IsNamed (some t) name rest f h = also-IsNamed t name rest (f t refl) h

resolve-IsNamed : (targets : List ChannelTarget) (l : List Text) → IsNamed (resolve targets l)
unfolding resolve target_names
resolve-IsNamed targets [] = refl
resolve-IsNamed targets (n ∷ l) =
    found-IsNamed (by_name targets (trim_space n)) (trim_space n) (resolve targets l)
      (λ t e. by_name-name targets (trim_space n) t e) (resolve-IsNamed targets l)

abbrev RuleNamed : Option Rule → Type 0
RuleNamed none = Unit
RuleNamed (some r) = target_names r.channels ≡ r.names

abbrev RulesNamed : Option (List Rule) → Type 0
RulesNamed none = Unit
RulesNamed (some l) = All (λ x. target_names x.channels ≡ x.names) l

rule_of-RuleNamed :
    (table : ℕ → ℕ) (rc : RoutingRule) (o : Option (List ChannelTarget × List Text))
    (m : Option Matcher)
    → IsNamed o
    → RuleNamed (rule_of table rc o m)
unfolding rule_of
rule_of-RuleNamed table rc (some (channels, names)) (some m) h = h
rule_of-RuleNamed table rc (some (channels, names)) none h = tt
rule_of-RuleNamed table rc none m h = tt

one_more-RulesNamed :
    (table : ℕ → ℕ) (r : Option Rule) (l : Option (List Rule))
    → RuleNamed r
    → RulesNamed l
    → RulesNamed (one_more table r l)
unfolding one_more
one_more-RulesNamed table (some r) (some l) h k = (h, k)
one_more-RulesNamed table (some r) none h k = tt
one_more-RulesNamed table none l h k = tt

compile_rules-RulesNamed :
    (table : ℕ → ℕ) (targets : List ChannelTarget) (l : List RoutingRule)
    → RulesNamed (compile_rules table targets l)
unfolding compile_rules
compile_rules-RulesNamed table targets [] = tt
compile_rules-RulesNamed table targets (rc ∷ l) =
    one_more-RulesNamed table
      (rule_of table rc (resolve targets rc.channels) (compile table rc.match))
      (compile_rules table targets l)
      (rule_of-RuleNamed table rc (resolve targets rc.channels) (compile table rc.match)
        (resolve-IsNamed targets rc.channels))
      (compile_rules-RulesNamed table targets l)

with_default-Consistent :
    (table : ℕ → ℕ) (targets : List ChannelTarget) (rules : Option (List Rule))
    (def : Option (List ChannelTarget × List Text)) (r : Router)
    → RulesNamed rules
    → IsNamed def
    → with_default table targets rules def ≡ some r
    → Consistent r
unfolding with_default
with_default-Consistent table targets (some rules) (some (d, names)) r h k e =
    subst Consistent (some-injective _ _ e) (record { rules_named = h; default_named = k })
with_default-Consistent table targets (some rules) none r h k e = cc
with_default-Consistent table targets none def r h k e = cc

-- A router that New built keeps the names of its targets.
new-Consistent :
    (table : ℕ → ℕ) (cfg : RoutingConfig) (targets : List ChannelTarget) (r : Router)
    → new table cfg targets ≡ some r
    → Consistent r
unfolding new
new-Consistent table cfg targets r e =
    with_default-Consistent table targets (compile_rules table targets cfg.rules)
      (resolve targets cfg.default) r (compile_rules-RulesNamed table targets cfg.rules)
      (resolve-IsNamed targets cfg.default) e

route_unused :
    (n : Text) (rules : List Rule) (def : List ChannelTarget) (v : EventValues)
    → All (λ x. target_names x.channels ≡ x.names) rules
    → named_by rules n ≡ false
    → text_in (target_names def) n ≡ false
    → text_in (target_names (route_by rules def v).channels) n ≡ false
unfolding route_by named_by
route_unused n [] def v h u d = d
route_unused n (r ∷ l) def v h u d =
    ground (arith, route_unused n l def v h.1, ap (λ ns. text_in ns n) h.0)

target_names-Has :
    (n : Text) (l : List ChannelTarget)
    → Has n (target_names l)
    → (t : ChannelTarget) × Has t l × (n ≡ t.name)
unfolding target_names
target_names-Has n [] h = elim h [ ]
target_names-Has n (t ∷ l) (inl e) = (t, inl refl, e)
target_names-Has n (t ∷ l) (inr m) = let (u, k, e) = target_names-Has n l m in (u, inr k, e)

not-false : (b : Bool) → not b ≡ true → b ≡ false
not-false b h = ground arith

listed_unused :
    (r : Router) (n : Text) (b : Bool)
    → Has n (if b then target_names (select (λ t. not (used r t.name)) r.known) else [])
    → used r n ≡ false
listed_unused r n true h =
    let (t, k, e) = target_names-Has n (select (λ t. not (used r t.name)) r.known) h in
    let (m, u) = Has-select (λ t. not (used r t.name)) t r.known k in
    ap (used r) e ∙ not-false (used r t.name) u
listed_unused r n false h = elim h [ ]

unused-not_used : (r : Router) (n : Text) → Has n (unused_channels r) → used r n ≡ false
unfolding unused_channels
unused-not_used r n h = listed_unused r n r.configured h

-- A router that New builds sends no event to a channel that UnusedChannels names.
pub unused_never_routed :
    (table : ℕ → ℕ) (cfg : RoutingConfig) (targets : List ChannelTarget) (r : Router) (n : Text)
    (e : Event)
    → new table cfg targets ≡ some r
    → Has n (unused_channels r)
    → text_in (target_names (route table r e).channels) n ≡ false
unfolding route used
unused_never_routed table cfg targets r n e built unused =
    let c = new-Consistent table cfg targets r built in
    let free = unused-not_used r n unused in
    route_unused n r.rules r.def (event_values table e) c.rules_named (ground arith)
      (ap (λ ns. text_in ns n) c.default_named ∙ ground arith)
