-- ===== src/Routing/Router/First.antt =====
-- The first rule that matches decides alone.
use alertloop.Base.{
  ℕ, true, false, not, ◌&&◌, List, [], ◌∷◌, ◌++◌, ◌≡◌, refl, ap, arith, All, map, Bool-cases, inl,
  inr,
}
use alertloop.Domain.Event.{Event}
use alertloop.Domain.Delivery.{ChannelTarget}
use alertloop.Routing.Matcher.{Matcher, EventValues, matches, catch_all, no_elements, event_values}
use alertloop.Routing.Router.{Decision, Rule, Router, route_by, route, unreachable_rules}

-- `r` matches, and no rule above it does.
pub data FirstMatch (v : EventValues) (r : Rule) : List Rule → Type 0 where
  top : {l : List Rule} → matches r.matcher v ≡ true → FirstMatch v r (r ∷ l)
  below :
      {q : Rule} {l : List Rule}
      → matches q.matcher v ≡ false
      → FirstMatch v r l
      → FirstMatch v r (q ∷ l)

abbrev pub NoMatch : EventValues → List Rule → Type 0
NoMatch v = All (λ r. matches r.matcher v ≡ false)

abbrev pub decided_by : Rule → Decision
decided_by r = record { rule = r.name; matched = true; channels = r.channels }

abbrev pub by_default : List ChannelTarget → Decision
by_default def = record { rule = []; matched = false; channels = def }

first :
    (v : EventValues) (def : List ChannelTarget) (r : Rule) (l : List Rule)
    → FirstMatch v r l
    → route_by l def v ≡ decided_by r
unfolding route_by
first v def r (q ∷ l) (top h) = rw h
first v def r (q ∷ l) (below h m) = rw h (first v def r l m)
first v def r [] m = elim m [ ]

no_match :
    (v : EventValues) (def : List ChannelTarget) (l : List Rule)
    → NoMatch v l
    → route_by l def v ≡ by_default def
unfolding route_by
no_match v def [] h = refl
no_match v def (q ∷ l) h = rw h.0 (no_match v def l h.1)

-- The first rule that matches decides an event alone, by its name and its own channels.
pub route_first :
    (table : ℕ → ℕ) (router : Router) (e : Event) (r : Rule)
    → FirstMatch (event_values table e) r router.rules
    → route table router e ≡ decided_by r
unfolding route
route_first table router e r m = first (event_values table e) router.def r router.rules m

-- An event that no rule matches goes to the routing default.
pub route_default :
    (table : ℕ → ℕ) (router : Router) (e : Event)
    → NoMatch (event_values table e) router.rules
    → route table router e ≡ by_default router.def
unfolding route
route_default table router e h = no_match (event_values table e) router.def router.rules h

-- A rule without conditions matches every event.
catch_all-matches : (m : Matcher) (v : EventValues) → catch_all m ≡ true → matches m v ≡ true
unfolding catch_all matches
catch_all-matches m v h = ground arith

cut_below :
    (c : Rule) (l : List Rule) (def : List ChannelTarget) (v : EventValues)
    → catch_all c.matcher ≡ true
    → route_by (c ∷ l) def v ≡ route_by (c ∷ []) [] v
unfolding route_by
cut_below c l def v h = rw (catch_all-matches c.matcher v h)

-- The rules that UnreachableRules names: they stand below a catch-all rule, and no event's decision
-- depends on them or on the routing default.
pub record Unreachable (rules : List Rule) : Type 0 where
  pub above : List Rule
  pub catching : Rule
  pub under : List Rule
  pub split : rules ≡ above ++ (catching ∷ under)
  pub catches_all : catch_all catching.matcher ≡ true
  pub named : unreachable_rules rules ≡ (catching.name, map (λ r. r.name) under)
  pub never :
      (def : List ChannelTarget) (v : EventValues)
      → route_by rules def v ≡ route_by (above ++ (catching ∷ [])) [] v

route_under :
    (q : Rule) (l l' : List Rule) (def def' : List ChannelTarget) (v : EventValues)
    → route_by l def v ≡ route_by l' def' v
    → route_by (q ∷ l) def v ≡ route_by (q ∷ l') def' v
unfolding route_by
route_under q l l' def def' v h = rw h

-- When UnreachableRules names a rule, those that it names stand below a catch-all rule, and no
-- event reaches them or the routing default.
pub unreachable_rules-Unreachable :
    (rules : List Rule) → no_elements (unreachable_rules rules).1 ≡ false → Unreachable rules
unfolding unreachable_rules no_elements
unreachable_rules-Unreachable [] h = cc
unreachable_rules-Unreachable (r ∷ l) h =
    elim (Bool-cases (catch_all r.matcher && not (no_elements l))) [
      | inl here ↦ record {
        above = [];
        catching = r;
        under = l;
        split = refl;
        catches_all = ground arith;
        named = rw here;
        never = λ def v. cut_below r l def v (ground arith);
      }
      | inr further ↦
          let u = unreachable_rules-Unreachable l (rw further at h) in
          record {
            above = r ∷ u.above;
            catching = u.catching;
            under = u.under;
            split = ap (λ (x : List Rule). r ∷ x) u.split;
            catches_all = u.catches_all;
            named = rw further u.named;
            never =
                λ def v. route_under r l (u.above ++ (u.catching ∷ [])) def [] v (u.never def v);
          }
    ]
