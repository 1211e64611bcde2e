-- ===== src/Config/Env/Keys.antt =====
-- internal/config/env.go: the walk over the keys of the file, and the refusal of unknown ones.
-- config.go: the refusal of sources with no value.
pub mod Known
use alertloop.Base.{
  ℕ, ◌-◌, ltb, ◌==◌, Bool, true, false, not, ◌&&◌, ◌||◌, Option, none, some, List, [], ◌∷◌, ◌++◌,
  Text, runes, text_eq, is_empty, take, if◌then◌else◌, length,
}
use alertloop.Strings.{has_prefix}
use alertloop.Routing.Matcher.{text_in}
use alertloop.Config.Env.Node.{
  Mark, Node, Nodes, Pairs, scalar, mapping, sequence, alias, nil, cons, end, pair, mark_of,
  is_merge, is_scalar, has_dot, key_name, join_path,
}
use alertloop.Config.Env.Suggest.{suggest_key}

-- every path that the settings know, and those with keys below them
pub record Schema : Type 0 where
  pub known : List Text
  pub containers : List Text

-- A visitor says whether to walk below a key; `S` is what it collects.
module _ {S : Type 0} (visit : Text → Node → Node → Bool → S → Bool × S) where
  unfoldable mutual
    unfolding is_merge key_name join_path

    pub walk_keys : Node → Text → Bool → S → S
    walk_keys (scalar v m) prefix plain s = s
    walk_keys (sequence m ns) prefix plain s = walk_keys_of ns prefix plain s
    walk_keys (alias m n) prefix plain s = walk_keys n prefix plain s
    walk_keys (mapping m ps) prefix plain s = walk_pairs ps prefix plain s

    pub walk_keys_of : Nodes → Text → Bool → S → S
    walk_keys_of nil prefix plain s = s
    walk_keys_of (cons n ns) prefix plain s =
        walk_keys_of ns prefix plain (walk_keys n prefix plain s)

    pub walk_pairs : Pairs → Text → Bool → S → S
    walk_pairs end prefix plain s = s
    walk_pairs (pair key value ps) prefix plain s =
        let merged = walk_keys value prefix plain s in
        let (name, key_plain) = key_name key in
        let path = join_path prefix name in
        let (below, t) = visit path key value (plain && key_plain) s in
        let walked = walk_keys value path (plain && key_plain) t in
        walk_pairs ps prefix plain (if is_merge key then merged else if below then walked else t)

unfoldable pub is_extension : Text → Bool
unfolding has_prefix
is_extension path = has_prefix path (runes "x-")

unfoldable pub descend : Schema → Text → Bool → Bool
unfolding is_extension text_in
descend s path plain =
    if is_extension path then false else plain && text_in s.known path && text_in s.containers path

pub record Unknown : Type 0 where
  pub path : Text
  pub hint : Text
  pub line : ℕ
  pub dotted : Bool

abbrev max_reported_keys : ℕ
max_reported_keys = 50

-- An index out of range in editDistance, which there is none of, gives no hint.
hint_for : Text → List Text → Text
unfolding suggest_key
hint_for path known = elim (suggest_key path known) [ none ↦ [] | some k ↦ k ]

unfoldable pub unknown_key : Schema → Text → Node → Bool → Unknown
unfolding hint_for mark_of is_scalar has_dot key_name
unknown_key s path key plain = record {
  path = path;
  hint = if plain then hint_for path s.known else [];
  line = (mark_of key).line;
  dotted = if plain then false else is_scalar key && has_dot (key_name key).0;
}

-- the visitor of checkUnknownKeys
unfoldable pub note_unknown :
    Schema → Text → Node → Node → Bool → List Unknown → Bool × List Unknown
unfolding descend is_extension unknown_key text_in
note_unknown s path key value plain found =
    if descend s path plain
    then (true, found)
    else if is_extension path
    then (false, found)
    else if plain && text_in s.known path
    then (false, found)
    else (false, found ++ (unknown_key s path key plain ∷ []))

unfoldable pub unknown_keys : Schema → Node → List Unknown
unfolding walk_keys note_unknown
unknown_keys s doc = walk_keys (note_unknown s) doc [] true []

module _ (decimal : ℕ → Text) where
  unknown_line : Unknown → Text
  unfolding is_empty
  unknown_line u =
      runes "  line "
      ++ (decimal u.line
          ++ (runes ": "
              ++ (u.path
                  ++ ((if not (is_empty u.hint)
                        then runes " — did you mean " ++ (u.hint ++ runes "?")
                        else if u.dotted
                        then runes " — a key name is not a path; write one key per line, nested"
                        else [])
                      ++ (10 ∷ [])))))

  unknown_lines : List Unknown → Text
  unfolding unknown_line
  unknown_lines [] = []
  unknown_lines (u ∷ l) = unknown_line u ++ unknown_lines l

  and_more : ℕ → Text
  and_more n =
      if ltb max_reported_keys n
      then runes "  ... and " ++ (decimal (n - max_reported_keys) ++ (runes " more" ++ (10 ∷ [])))
      else []

  unknown_error : List Unknown → Option Text
  unfolding unknown_lines and_more
  unknown_error [] = none
  unknown_error (u ∷ l) = some (
      runes "these keys in the config file are not AlertLoop settings:"
      ++ (10
          ∷ (unknown_lines (take max_reported_keys (u ∷ l))
              ++ (and_more (length (u ∷ l)) ++ runes "Correct the spelling or remove the key."))))

  -- The error, none for nil.
  unfoldable pub check_unknown_keys : Schema → Node → Option Text
  unfolding unknown_keys unknown_error
  check_unknown_keys s doc = unknown_error (unknown_keys s doc)

-- the visitor of checkNullSources: the lines that it complains of. `short_tag` is yaml.v3's ShortTag.
module _ (short_tag : Node → Text) where
  unfoldable pub note_null : Schema → Text → Node → Node → Bool → List ℕ → Bool × List ℕ
  unfolding descend mark_of is_scalar text_eq
  note_null s path key value plain found = (
    descend s path plain,
    if plain
          && text_eq path (runes "api_keys.sources")
          && is_scalar value
          && text_eq (short_tag value) (runes "!!null")
        then found ++ ((mark_of key).line ∷ [])
        else found,
  )

  unfoldable pub null_sources : Schema → Node → List ℕ
  unfolding walk_keys note_null
  null_sources s doc = walk_keys (note_null s) doc [] true []
