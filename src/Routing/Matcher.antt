-- ===== src/Routing/Matcher.antt =====
-- internal/routing/routing.go: the compiled conditions of a rule.
use alertloop.Base.{
  ℕ, ◌==◌, ltb, Bool, true, false, not, ◌&&◌, ◌||◌, Option, none, some, List, [], ◌∷◌, Text,
  is_empty, text_eq, if◌then◌else◌, map,
}
use alertloop.Strings.{trim_space, to_lower, has_prefix}
use alertloop.Domain.Event.{Event, event_type_text}
use alertloop.Domain.Severity.{severity_text, to_severity, severity_rank}

-- config.RoutingMatch (internal/config/config.go)
pub record RoutingMatch : Type 0 where
  pub types : List Text
  pub severities : List Text
  pub min_severity : Text
  pub sources : List Text
  pub categories : List Text

pub record Pattern : Type 0 where
  pub value : Text
  pub prefix : Bool

pub record Matcher : Type 0 where
  pub types : List Text
  pub severities : List Text
  pub min_severity : ℕ
  pub sources : List Pattern
  pub categories : List Pattern

pub record EventValues : Type 0 where
  pub event_type : Text
  pub severity : Text
  pub source : Text
  pub category : Text

-- a text up to its first '*', if it has one, and what stands behind that
pub data Star : Type 0 where
  no_star : Star
  star : Text → Text → Star

unfoldable pub at_star : ℕ → Star → Star
at_star c no_star = no_star
at_star c (star before after) = star (c ∷ before) after

unfoldable pub find_star : Text → Star
unfolding at_star
find_star [] = no_star
find_star (c ∷ s) = let rest = find_star s in if c == b'*' then star [] s else at_star c rest

unfoldable pub pattern_of : Text → Star → Option Pattern
pattern_of s no_star = some (record { value = s; prefix = false })
pattern_of s (star before []) = some (record { value = before; prefix = true })
pattern_of s (star before (_ ∷ _)) = none

unfoldable pub cons_some : {A : Type 0} → Option A → Option (List A) → Option (List A)
cons_some (some a) (some l) = some (a ∷ l)
cons_some _ _ = none

unfoldable pub no_elements : {A : Type 0} → List A → Bool
no_elements [] = true
no_elements (_ ∷ _) = false

unfoldable pub text_in : List Text → Text → Bool
unfolding text_eq
text_in [] v = false
text_in (s ∷ l) v = text_eq s v || text_in l v

unfoldable pub matches_pattern : Pattern → Text → Bool
unfolding has_prefix text_eq
matches_pattern p v = if p.prefix then has_prefix v p.value else text_eq v p.value

unfoldable pub matches_any : List Pattern → Text → Bool
unfolding matches_pattern
matches_any [] v = false
matches_any (p ∷ l) v = matches_pattern p v || matches_any l v

-- An empty field constrains nothing.
unfoldable pub matches : Matcher → EventValues → Bool
unfolding no_elements text_in matches_any severity_rank to_severity
matches m e =
    if not (no_elements m.types) && not (text_in m.types e.event_type)
    then false
    else if not (no_elements m.severities) && not (text_in m.severities e.severity)
    then false
    else if ltb 0 m.min_severity && ltb (severity_rank (to_severity e.severity)) m.min_severity
    then false
    else if not (no_elements m.sources) && not (matches_any m.sources e.source)
    then false
    else not (not (no_elements m.categories) && not (matches_any m.categories e.category))

unfoldable pub catch_all : Matcher → Bool
unfolding no_elements
catch_all m =
    no_elements m.types
    && no_elements m.severities
    && m.min_severity == 0
    && no_elements m.sources
    && no_elements m.categories

-- `table` is Unicode's lower-case mapping beyond ASCII.
module _ (table : ℕ → ℕ) where
  unfoldable pub normalize : Text → Text
  unfolding to_lower trim_space
  normalize s = to_lower table (trim_space s)

  -- `none` is the error of a `*` that is not the last rune
  unfoldable pub compile_patterns : List Text → Option (List Pattern)
  unfolding normalize find_star pattern_of cons_some
  compile_patterns [] = some []
  compile_patterns (v ∷ l) =
      let s = normalize v in cons_some (pattern_of s (find_star s)) (compile_patterns l)

  unfoldable pub min_rank : Text → Option ℕ
  unfolding severity_rank to_severity is_empty
  min_rank s =
      if is_empty s
      then some 0
      else let rank = severity_rank (to_severity s) in if rank == 0 then none else some rank

  unfoldable pub build :
      RoutingMatch → Option ℕ → Option (List Pattern) → Option (List Pattern) → Option Matcher
  unfolding normalize
  build m (some rank) (some sources) (some categories) = some (record {
    types = map normalize m.types;
    severities = map normalize m.severities;
    min_severity = rank;
    sources = sources;
    categories = categories;
  })
  build m _ _ _ = none

  unfoldable pub compile : RoutingMatch → Option Matcher
  unfolding build min_rank normalize compile_patterns
  compile m =
      build m (min_rank (normalize m.min_severity)) (compile_patterns m.sources)
        (compile_patterns m.categories)

  unfoldable pub event_values : Event → EventValues
  unfolding normalize event_type_text severity_text
  event_values e = record {
    event_type = normalize (event_type_text e.event_type);
    severity = normalize (severity_text e.severity);
    source = normalize e.source;
    category = normalize e.category;
  }
