-- ===== src/Config/Env/Substitute/Unmet.antt =====
-- internal/config/env.go: substituteEnv against the references that nothing fills.
use alertloop.Base.{
  ℕ, ◌+◌, ◌≡◌, ◌↔◌, refl, Option, none, some, List, [], ◌∷◌, Text, length, if◌then◌else◌, arith,
  Option-cases, Bool-cases, inl, inr, length-snoc,
}
use alertloop.Config.Env.Reference.{env_ref}
use alertloop.Config.Env.Node.{
  Mark, Node, Nodes, Pairs, scalar, mapping, sequence, alias, nil, cons, end, pair, is_merge,
  key_name, join_path,
}
use alertloop.Config.Env.Substitute.{
  Missing, Noted, missing_error, fill_reference, walk_scalar, walk, walk_nodes, walk_pairs,
  substitute_env,
}

-- A reference that its variable does not fill, unset or empty, and that has no default.
abbrev pub unfilled : Option Text → Option Text → ℕ
unfilled (some (c ∷ v)) default = 0
unfilled v (some t) = 0
unfilled v none = 1

module _ (lookup_env : Text → Option Text) where
  abbrev pub unmet_scalar : Text → ℕ
  unmet_scalar value = elim (env_ref value) [
    | none ↦ 0
    | some (name, default) ↦ unfilled (lookup_env name) default
  ]

  -- The references of a tree that nothing fills: in values, outside what a merge key brings in.
  unfoldable mutual
    pub unmet : Node → ℕ
    unmet (scalar value m) = unmet_scalar value
    unmet (mapping m ps) = unmet_pairs ps
    unmet (sequence m ns) = unmet_nodes ns
    unmet (alias m n) = 0

    pub unmet_nodes : Nodes → ℕ
    unmet_nodes nil = 0
    unmet_nodes (cons n ns) = unmet n + unmet_nodes ns

    pub unmet_pairs : Pairs → ℕ
    unmet_pairs end = 0
    unmet_pairs (pair key value ps) = (if is_merge key then 0 else unmet value) + unmet_pairs ps

  module _ (decimal : ℕ → Text) where
    fill_reference-unfilled :
        (p value : Text) (m : Mark) (r : Noted) (name : Text) (v d : Option Text)
        → length (fill_reference decimal lookup_env p value m r name v d).1.missing
          ≡ length r.missing + unfilled v d
    unfolding fill_reference
    fill_reference-unfilled p value m r name (some (c ∷ v)) d = omega arith
    fill_reference-unfilled p value m r name (some []) (some t) = ground arith
    fill_reference-unfilled p value m r name none (some t) = ground arith
    fill_reference-unfilled p value m r name (some []) none = length-snoc r.missing _
    fill_reference-unfilled p value m r name none none = length-snoc r.missing _

    walk_scalar-unmet :
        (p value : Text) (m : Mark) (r : Noted)
        → length (walk_scalar decimal lookup_env p value m r).1.missing
          ≡ length r.missing + unmet_scalar value
    unfolding walk_scalar
    walk_scalar-unmet p value m r = elim (Option-cases (env_ref value)) [
      | inl e ↦ rw (e, walk_scalar, unmet_scalar) (omega arith)
      | inr (v, e) ↦
          rw (e, walk_scalar, unmet_scalar)
            (fill_reference-unfilled p value m r v.0 (lookup_env v.0) v.1)
    ]

    mutual
      unfolding walk unmet

      walk-unmet :
          (p : Text) (n : Node) (r : Noted)
          → length (walk decimal lookup_env p n r).1.missing ≡ length r.missing + unmet n
      walk-unmet p (scalar value m) r = walk_scalar-unmet p value m r
      walk-unmet p (mapping m ps) r = walk_pairs-unmet p ps r
      walk-unmet p (sequence m ns) r = walk_nodes-unmet p ns r
      walk-unmet p (alias m n) r = omega arith

      walk_nodes-unmet :
          (p : Text) (ns : Nodes) (r : Noted)
          → length (walk_nodes decimal lookup_env p ns r).1.missing
            ≡ length r.missing + unmet_nodes ns
      walk_nodes-unmet p nil r = omega arith
      walk_nodes-unmet p (cons n ns) r =
          omega (arith, walk-unmet p n r, walk_nodes-unmet p ns (walk decimal lookup_env p n r).1)

      walk_pairs-unmet :
          (p : Text) (ps : Pairs) (r : Noted)
          → length (walk_pairs decimal lookup_env p ps r).1.missing
            ≡ length r.missing + unmet_pairs ps
      walk_pairs-unmet p end r = omega arith
      walk_pairs-unmet p (pair key value ps) r = elim (Bool-cases (is_merge key)) [
        | inl e ↦ rw e (omega (arith, walk_pairs-unmet p ps r))
        | inr e ↦ rw e (
            omega (
              arith,
              walk-unmet (join_path p (key_name key).0) value r,
              walk_pairs-unmet p ps
                  (walk decimal lookup_env (join_path p (key_name key).0) value r).1,
            ))
      ]

    missing_error-none : (l : List Missing) → (missing_error decimal l ≡ none) ↔ (length l ≡ 0)
    unfolding missing_error
    missing_error-none [] = (λ e. refl, λ e. refl)
    missing_error-none (r ∷ l) = (λ e. cc, λ e. absurd (omega arith))

    -- A substitution gives no error exactly if every reference among the values, outside what a
    -- merge key brings in, has a variable with some text or a default.
    pub substitute_env-unmet :
        (n : Node) → ((substitute_env decimal lookup_env n).2 ≡ none) ↔ (unmet n ≡ 0)
    unfolding substitute_env
    substitute_env-unmet n =
        let first : Noted = record { warnings = []; missing = [] } in
        let (to, back) = missing_error-none (walk decimal lookup_env [] n first).1.missing in
        (
          λ e. omega (arith, to e, walk-unmet [] n first),
          λ e. back (omega (arith, walk-unmet [] n first)),
        )
