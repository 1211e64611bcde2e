-- ===== src/Config/Env/Substitute.antt =====
-- internal/config/env.go: substituteEnv. The environment of the process and the decimal print of a
-- number are parameters.
pub mod Unmet
pub mod Secret
pub mod Filled
use alertloop.Base.{
  ℕ, Bool, true, false, Option, none, some, is_some, List, [], ◌∷◌, ◌++◌, Text, runes, text_eq,
  is_empty, any, if◌then◌else◌, ◌&&◌, not, ◌||◌, leb,
}
use alertloop.Config.Env.Reference.{env_ref}
use alertloop.Config.Env.Node.{
  Mark, Node, Nodes, Pairs, scalar, mapping, sequence, alias, nil, cons, end, pair, is_merge,
  key_name, join_path, resolve_scalar,
}

-- ref
pub record Missing : Type 0 where
  pub field : Text
  pub name : Text
  pub line : ℕ

-- what the walk has noted so far
pub record Noted : Type 0 where
  pub warnings : List Text
  pub missing : List Missing

abbrev no_fallback_field : Text
no_fallback_field = runes "admin_token"

-- sort.SliceStable by the line
insert_by_line : Missing → List Missing → List Missing
insert_by_line r [] = r ∷ []
insert_by_line r (s ∷ l) = if leb r.line s.line then r ∷ s ∷ l else s ∷ insert_by_line r l

unfoldable pub by_line : List Missing → List Missing
unfolding insert_by_line
by_line [] = []
by_line (r ∷ l) = insert_by_line r (by_line l)

module _ (decimal : ℕ → Text) where
  unfoldable pub fallback_warning : Text → Text → ℕ → Text
  unfolding is_empty
  fallback_warning field name line =
      runes "line "
      ++ (decimal line
          ++ (runes ": "
              ++ ((if is_empty field then runes "a value in the config file" else field)
                  ++ (runes " — "
                      ++ (name
                          ++ runes
                              " is set but empty, so the fallback written in the config file is what runs (open the file at that line to see it)")))))

  -- one line of the error
  missing_line : Missing → Text
  unfolding is_empty
  missing_line r =
      runes "  line "
      ++ (decimal r.line
          ++ (runes ": "
              ++ ((if is_empty r.field then [] else r.field ++ runes " — ")
                  ++ (runes "${" ++ (r.name ++ (runes "}" ++ (10 ∷ [])))))))

  missing_lines : List Missing → Text
  unfolding missing_line
  missing_lines [] = []
  missing_lines (r ∷ l) = missing_line r ++ missing_lines l

  is_admin_token : Missing → Bool
  unfolding text_eq
  is_admin_token r = text_eq r.field no_fallback_field

  advice : Bool → Bool → Text
  advice may_fall_back no_fallback =
      (if may_fall_back
        then runes
            "Set them in the environment, or write ${VAR:-default} in the config file to allow a fallback."
        else [])
      ++ (if no_fallback
          then (if may_fall_back then 10 ∷ [] else [])
            ++ runes
                "admin_token has no fallback: put a value (openssl rand -hex 32) in the environment this process reads."
          else [])

  -- The error, none for nil.
  unfoldable pub missing_error : List Missing → Option Text
  unfolding missing_lines is_admin_token advice by_line any
  missing_error [] = none
  missing_error (r ∷ l) =
      let missing = by_line (r ∷ l) in
      some (
        runes
          "config references environment variable(s) that are unset or empty and have no default:"
        ++ (10
            ∷ (missing_lines missing
                ++ advice (any (λ m. not (is_admin_token m)) missing)
                    (any is_admin_token missing))))

  module _ (lookup_env : Text → Option Text) where
    unfoldable pub fill_reference :
        Text → Text → Mark → Noted → Text → Option Text → Option Text → Node × Noted
    unfolding resolve_scalar fallback_warning is_empty
    fill_reference path value m r name (some (c ∷ v)) default = (resolve_scalar m (c ∷ v) true, r)
    fill_reference path value m r name v (some t) = (
      resolve_scalar m t false,
      if is_some v && not (is_empty t)
          then record r { warnings = r.warnings ++ (fallback_warning path name m.line ∷ []) }
          else r,
    )
    fill_reference path value m r name v none = (
      scalar value m,
      record r {
        missing = r.missing ++ (record { field = path; name = name; line = m.line } ∷ []);
      },
    )

    unfoldable pub walk_scalar : Text → Text → Mark → Noted → Node × Noted
    unfolding fill_reference env_ref
    walk_scalar path value m r = elim (env_ref value) [
      | none ↦ (scalar value m, r)
      | some (name, default) ↦ fill_reference path value m r name (lookup_env name) default
    ]

    -- An alias has no content of its own: what stands behind it is filled where its anchor is, also
    -- in a key and behind a merge key, where nothing else is.
    unfoldable mutual
      unfolding walk_scalar is_merge key_name join_path

      pub walk : Text → Node → Noted → Node × Noted
      walk path (scalar value m) r = walk_scalar path value m r
      walk path (mapping m ps) r = let (qs, s) = walk_pairs path ps r in (mapping m qs, s)
      walk path (sequence m ns) r = let (ks, s) = walk_nodes path ns r in (sequence m ks, s)
      walk path (alias m n) r = (alias m (walk path n r).0, r)

      pub walk_nodes : Text → Nodes → Noted → Nodes × Noted
      walk_nodes path nil r = (nil, r)
      walk_nodes path (cons n ns) r =
          let (k, s) = walk path n r in let (ks, t) = walk_nodes path ns s in (cons k ks, t)

      pub walk_pairs : Text → Pairs → Noted → Pairs × Noted
      walk_pairs path end r = (end, r)
      walk_pairs path (pair key value ps) r =
          let (v, s) =
            (if is_merge key
              then (shared value, r)
              else walk (join_path path (key_name key).0) value r) in
          let (qs, t) = walk_pairs path ps s in (pair (shared key) v qs, t)

      pub shared : Node → Node
      shared (scalar value m) = scalar value m
      shared (mapping m ps) = mapping m (shared_pairs ps)
      shared (sequence m ns) = sequence m (shared_nodes ns)
      shared (alias m n) = alias m (walk [] n (record { warnings = []; missing = [] })).0

      pub shared_nodes : Nodes → Nodes
      shared_nodes nil = nil
      shared_nodes (cons n ns) = cons (shared n) (shared_nodes ns)

      pub shared_pairs : Pairs → Pairs
      shared_pairs end = end
      shared_pairs (pair key value ps) = pair (shared key) (shared value) (shared_pairs ps)

    -- the tree after the substitution, the warnings and the error
    unfoldable pub substitute_env : Node → Node × List Text × Option Text
    unfolding walk missing_error
    substitute_env n =
        let (k, r) = walk [] n (record { warnings = []; missing = [] }) in
        (k, r.warnings, missing_error r.missing)
