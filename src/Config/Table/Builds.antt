-- ===== src/Config/Table/Builds.antt =====
-- A routing section that passes the checks is one that internal/routing can build its router from.
use alertloop.Base.{
  ℕ, ◌≤◌, ◌==◌, true, ◌||◌, Option, some, List, [], ◌∷◌, ◌≡◌, ◌≢◌, refl, sym, ◌∙◌, arith, Text,
  text_eq, is_empty, Option-cases, inl, inr, Bool-cases,
}
use alertloop.Strings.{trim_space, lower_rune, to_lower}
use alertloop.Domain.Severity.{valid_severity, severity_rank, to_severity, valid_severity_iff}
use alertloop.Domain.Delivery.{ChannelTarget}
use alertloop.Routing.Matcher.{
  RoutingMatch, Matcher, Pattern, Star, no_star, star, at_star, find_star, pattern_of, cons_some,
  text_in, normalize, compile_patterns, min_rank, build, compile,
}
use alertloop.Routing.Router.{
  Rule, Router, RoutingRule, RoutingConfig, target_names, by_name, also, resolve, rule_of, one_more,
  with_default, compile_rules, new,
}
use alertloop.Config.Table.{
  star_last, valid_pattern, all_of, valid_routing_severity, match_valid, all_known, rules_valid,
  routing_valid,
}

star_last-at_star : (c : ℕ) (x : Star) → star_last (at_star c x) ≡ star_last x
unfolding star_last at_star
star_last-at_star c no_star = refl
star_last-at_star c (star before []) = refl
star_last-at_star c (star before (d ∷ after)) = refl

pattern_of-some :
    (s : Text) (x : Star) → star_last x ≡ true → (p : Pattern) × (pattern_of s x ≡ some p)
unfolding star_last pattern_of
pattern_of-some s no_star h = (_, refl)
pattern_of-some s (star before []) h = (_, refl)
pattern_of-some s (star before (d ∷ after)) h = cc

by_name-found :
    (l : List ChannelTarget) (n : Text)
    → text_in (target_names l) n ≡ true
    → (t : ChannelTarget) × (by_name l n ≡ some t)
unfolding text_in target_names by_name
by_name-found [] n h = cc
by_name-found (t ∷ l) n h = elim (Option-cases (by_name l n)) [
  | inr (later, e) ↦ (later, rw e)
  | inl missing ↦ elim (Bool-cases (text_eq t.name n)) [
    | inl same ↦ (t, rw (missing, same))
    | inr other ↦
        let (u, found) = by_name-found l n (rw other at h) in (u, ground (arith, missing, found))
  ]
]

-- the result is there
abbrev Gives : {A : Type 0} → Option A → Type 0
Gives {A} x = (v : A) × (x ≡ some v)

resolve-cons :
    (targets : List ChannelTarget) (n : Text) (l : List Text)
    → Gives (by_name targets (trim_space n))
    → Gives (resolve targets l)
    → Gives (resolve targets (n ∷ l))
unfolding resolve also trim_space
resolve-cons targets n l (t, e) ((ts, ns), d) = ((t ∷ ts, trim_space n ∷ ns), cc)

resolve-found :
    (targets : List ChannelTarget) (names : List Text)
    → all_known (target_names targets) names ≡ true
    → Gives (resolve targets names)
unfolding all_known all_of resolve
resolve-found targets [] h = (([], []), refl)
resolve-found targets (n ∷ l) h =
    resolve-cons targets n l (by_name-found targets (trim_space n) (ground arith))
      (resolve-found targets l (ground arith))

module _ (table : ℕ → ℕ) (keeps_star : (c : ℕ) → 128 ≤ c → table c ≢ b'*') where
  lower_star : (c : ℕ) → (lower_rune table c == b'*') ≡ (c == b'*')
  unfolding lower_rune
  lower_star c = ground (arith, keeps_star c)

  star_last_nil : (s : Text) → star_last (star [] (to_lower table s)) ≡ star_last (star [] s)
  unfolding star_last to_lower
  star_last_nil [] = refl
  star_last_nil (c ∷ s) = refl

  star_last-to_lower :
      (s : Text) → star_last (find_star (to_lower table s)) ≡ star_last (find_star s)
  unfolding find_star to_lower star_last
  star_last-to_lower [] = refl
  star_last-to_lower (c ∷ s) = elim (Bool-cases (c == b'*')) [
    | inl here ↦ rw (lower_star c ∙ here, here) (star_last_nil s)
    | inr further ↦
        rw (lower_star c ∙ further, further)
          (star_last-at_star (lower_rune table c) (find_star (to_lower table s))
            ∙ star_last-to_lower s
            ∙ sym (star_last-at_star c (find_star s)))
  ]

  compile_patterns-some :
      (l : List Text) → all_of valid_pattern l ≡ true → Gives (compile_patterns table l)
  unfolding all_of valid_pattern compile_patterns normalize cons_some
  compile_patterns-some [] h = ([], refl)
  compile_patterns-some (v ∷ l) h =
      let s = to_lower table (trim_space v) in
      let ok : star_last (find_star (trim_space v)) ≡ true = ground arith in
      let (p, one) = pattern_of-some s (find_star s) (star_last-to_lower (trim_space v) ∙ ok) in
      let (ps, rest) = compile_patterns-some l (ground arith) in (p ∷ ps, rw (one, rest) refl)

  is_empty-to_lower : (s : Text) → is_empty (to_lower table s) ≡ is_empty s
  unfolding to_lower is_empty
  is_empty-to_lower [] = refl
  is_empty-to_lower (c ∷ s) = refl

  min_rank-some :
      (m : Text)
      → (is_empty (trim_space m) || valid_routing_severity table m) ≡ true
      → Gives (min_rank table (normalize table m))
  unfolding min_rank valid_routing_severity normalize
  min_rank-some m h =
      let s = to_lower table (trim_space m) in
      elim (Bool-cases (is_empty s)) [
        | inl blank ↦ (0, rw blank)
        | inr given ↦
            let valid : valid_severity (to_severity s) ≡ true =
              ground (arith, is_empty-to_lower (trim_space m)) in
            (
              severity_rank (to_severity s),
              ground (arith, (valid_severity_iff (to_severity s)).0 valid),
            )
      ]

  build-some :
      (m : RoutingMatch) {rank : Option ℕ} {sources categories : Option (List Pattern)}
      → Gives rank
      → Gives sources
      → Gives categories
      → Gives (build table m rank sources categories)
  unfolding build
  build-some m (_, a) (_, b) (_, d) = rw (a, b, d) (_, refl)

  compile-some : (m : RoutingMatch) → match_valid table m ≡ true → Gives (compile table m)
  unfolding match_valid compile
  compile-some m h =
      build-some m (min_rank-some m.min_severity (ground arith))
        (compile_patterns-some m.sources (ground arith))
        (compile_patterns-some m.categories (ground arith))

  one_more-some :
      (rc : RoutingRule) {channels : Option (List ChannelTarget × List Text)} {m : Option Matcher}
      {rest : Option (List Rule)}
      → Gives channels
      → Gives m
      → Gives rest
      → Gives (one_more table (rule_of table rc channels m) rest)
  unfolding one_more rule_of
  one_more-some rc ((_, _), a) (_, b) (_, d) = rw (a, b, d) (_, refl)

  compile_rules-some :
      (targets : List ChannelTarget) (names : List Text) (l : List RoutingRule)
      → rules_valid table (target_names targets) names l ≡ true
      → Gives (compile_rules table targets l)
  unfolding rules_valid compile_rules
  compile_rules-some targets names [] h = ([], refl)
  compile_rules-some targets names (rc ∷ l) h =
      one_more-some rc (resolve-found targets rc.channels (ground arith))
        (compile-some rc.match (ground arith))
        (compile_rules-some targets (trim_space rc.name ∷ names) l (ground arith))

  with_default-some :
      (targets : List ChannelTarget) {rules : Option (List Rule)}
      {def : Option (List ChannelTarget × List Text)}
      → Gives rules
      → Gives def
      → Gives (with_default table targets rules def)
  unfolding with_default
  with_default-some targets (_, a) ((_, _), b) = rw (a, b) (_, refl)

  pub new-some :
      (c : RoutingConfig) (targets : List ChannelTarget)
      → routing_valid table (target_names targets) c ≡ true
      → (r : Router) × (new table c targets ≡ some r)
  unfolding routing_valid new
  new-some c targets h =
      with_default-some targets (compile_rules-some targets [] c.rules (ground arith))
        (resolve-found targets c.default (ground arith))
