-- ===== src/Config/Env/Substitute/Filled.antt =====
-- internal/config/env.go: the tree that substituteEnv leaves, value by value.
use alertloop.Base.{
  ℕ, ◌≡◌, ◌⊎◌, refl, Option, none, some, [], ◌∷◌, Text, runes, if◌then◌else◌, arith, Option-cases,
  Bool-cases, inl, inr,
}
use alertloop.Config.Env.Reference.{env_ref}
use alertloop.Config.Env.Node.{
  Mark, Node, Nodes, Pairs, scalar, mapping, sequence, alias, nil, cons, end, pair, is_merge,
  is_yaml_null, key_name, join_path,
}
use alertloop.Config.Env.Substitute.{
  Noted, fill_reference, walk_scalar, walk, walk_nodes, walk_pairs, substitute_env, shared,
  shared_nodes, shared_pairs,
}
use alertloop.Config.Env.Substitute.Unmet.{
  substitute_env-unmet, unmet, unmet_nodes, unmet_pairs, unmet_scalar, unfilled,
}

-- Where a value of a tag comes from: the variable, and then a spelling of null is pinned as text, or
-- the default, of a variable that is unset or empty.
abbrev pub ComesFrom : Option Text → Option Text → Text → Text → Type 0
ComesFrom (some (c ∷ w)) default v tag =
    (v ≡ c ∷ w) × (tag ≡ (if is_yaml_null v then runes "!!str" else []))
ComesFrom held default v tag = (default ≡ some v) × (tag ≡ [])

-- The same tree; nothing is said of what stands behind an alias.
abbrev mutual
  pub Shared : Node → Node → Type 0
  Shared (scalar value m) k = k ≡ scalar value m
  Shared (mapping m ps) (mapping m' qs) = (m ≡ m') × SharedPairs ps qs
  Shared (sequence m ns) (sequence m' ks) = (m ≡ m') × SharedNodes ns ks
  Shared (alias m n) (alias m' k) = m ≡ m'
  Shared _ _ = ⊥

  pub SharedNodes : Nodes → Nodes → Type 0
  SharedNodes nil nil = Unit
  SharedNodes (cons n ns) (cons k ks) = Shared n k × SharedNodes ns ks
  SharedNodes _ _ = ⊥

  pub SharedPairs : Pairs → Pairs → Type 0
  SharedPairs end end = Unit
  SharedPairs (pair key value ps) (pair key' value' qs) =
      Shared key key' × Shared value value' × SharedPairs ps qs
  SharedPairs _ _ = ⊥

module _ (lookup_env : Text → Option Text) where
  -- What stands for a value: itself, if it is no reference, or the value of its variable or default, in
  -- the same line and with no style.
  abbrev pub FilledScalar : Text → Mark → Node → Type 0
  FilledScalar value m k =
      ((env_ref value ≡ none) × (k ≡ scalar value m))
      ⊎ ((r : Text × Option Text) × (v : Text) × (tag : Text) × (env_ref value ≡ some r)
          × (k ≡ scalar v (record { tag = tag; line = m.line; style = 0 }))
          × ComesFrom (lookup_env r.0) r.1 v tag)

  -- The same tree but for values, outside keys and what a merge key brings in; nothing is said of
  -- what stands behind an alias.
  abbrev mutual
    pub Filled : Node → Node → Type 0
    Filled (scalar value m) k = FilledScalar value m k
    Filled (mapping m ps) (mapping m' qs) = (m ≡ m') × FilledPairs ps qs
    Filled (sequence m ns) (sequence m' ks) = (m ≡ m') × FilledNodes ns ks
    Filled (alias m n) (alias m' k) = m ≡ m'
    Filled _ _ = ⊥

    pub FilledNodes : Nodes → Nodes → Type 0
    FilledNodes nil nil = Unit
    FilledNodes (cons n ns) (cons k ks) = Filled n k × FilledNodes ns ks
    FilledNodes _ _ = ⊥

    pub FilledPairs : Pairs → Pairs → Type 0
    FilledPairs end end = Unit
    FilledPairs (pair key value ps) (pair key' value' qs) =
        Shared key key'
        × (if is_merge key then Shared value value' else Filled value value')
        × FilledPairs ps qs
    FilledPairs _ _ = ⊥

  module _ (decimal : ℕ → Text) where
    fill_reference-ComesFrom :
        (p value : Text) (m : Mark) (r : Noted) (name : Text) (held default : Option Text)
        → unfilled held default ≡ 0
        → (v : Text) × (tag : Text) × ((fill_reference decimal lookup_env p value m r name held
              default).0
            ≡ scalar v (record { tag = tag; line = m.line; style = 0 }))
          × ComesFrom held default v tag
    unfolding fill_reference
    fill_reference-ComesFrom p value m r name (some (c ∷ w)) d h =
        (c ∷ w, (if is_yaml_null (c ∷ w) then runes "!!str" else []), refl, (refl, refl))
    fill_reference-ComesFrom p value m r name (some []) (some t) h = (t, [], refl, (refl, refl))
    fill_reference-ComesFrom p value m r name none (some t) h = (t, [], refl, (refl, refl))
    fill_reference-ComesFrom p value m r name (some []) none h = absurd (omega arith)
    fill_reference-ComesFrom p value m r name none none h = absurd (omega arith)

    walk_scalar-Filled :
        (p value : Text) (m : Mark) (r : Noted)
        → unmet_scalar lookup_env value ≡ 0
        → FilledScalar value m (walk_scalar decimal lookup_env p value m r).0
    unfolding walk_scalar
    walk_scalar-Filled p value m r h = elim (Option-cases (env_ref value)) [
      | inl e ↦ inl (e, rw (e, walk_scalar) refl)
      | inr (v, e) ↦
          let (w, tag, k, c) =
            fill_reference-ComesFrom p value m r v.0 (lookup_env v.0) v.1
              (rw (e, unmet_scalar) at h) in
          inr (v, w, tag, e, rw (e, walk_scalar) k, c)
    ]

    mutual
      unfolding walk

      shared-Shared : (n : Node) → Shared n (shared decimal lookup_env n)
      shared-Shared (scalar value m) = refl
      shared-Shared (mapping m ps) = (refl, shared_pairs-Shared ps)
      shared-Shared (sequence m ns) = (refl, shared_nodes-Shared ns)
      shared-Shared (alias m n) = refl

      shared_nodes-Shared : (ns : Nodes) → SharedNodes ns (shared_nodes decimal lookup_env ns)
      shared_nodes-Shared nil = tt
      shared_nodes-Shared (cons n ns) = (shared-Shared n, shared_nodes-Shared ns)

      shared_pairs-Shared : (ps : Pairs) → SharedPairs ps (shared_pairs decimal lookup_env ps)
      shared_pairs-Shared end = tt
      shared_pairs-Shared (pair key value ps) =
          (shared-Shared key, shared-Shared value, shared_pairs-Shared ps)

    mutual
      unfolding walk unmet

      walk-Filled :
          (p : Text) (n : Node) (r : Noted)
          → unmet lookup_env n ≡ 0
          → Filled n (walk decimal lookup_env p n r).0
      walk-Filled p (scalar value m) r h = walk_scalar-Filled p value m r h
      walk-Filled p (mapping m ps) r h = (refl, walk_pairs-Filled p ps r h)
      walk-Filled p (sequence m ns) r h = (refl, walk_nodes-Filled p ns r h)
      walk-Filled p (alias m n) r h = refl

      walk_nodes-Filled :
          (p : Text) (ns : Nodes) (r : Noted)
          → unmet_nodes lookup_env ns ≡ 0
          → FilledNodes ns (walk_nodes decimal lookup_env p ns r).0
      walk_nodes-Filled p nil r h = tt
      walk_nodes-Filled p (cons n ns) r h = (
        walk-Filled p n r (omega arith),
        walk_nodes-Filled p ns (walk decimal lookup_env p n r).1 (omega arith),
      )

      walk_pairs-Filled :
          (p : Text) (ps : Pairs) (r : Noted)
          → unmet_pairs lookup_env ps ≡ 0
          → FilledPairs ps (walk_pairs decimal lookup_env p ps r).0
      walk_pairs-Filled p end r h = tt
      walk_pairs-Filled p (pair key value ps) r h = elim (Bool-cases (is_merge key)) [
        | inl e ↦
            rw e (shared-Shared key, shared-Shared value, walk_pairs-Filled p ps r (omega arith))
        | inr e ↦
            let k : (if is_merge key then 0 else unmet lookup_env value) ≡ unmet lookup_env value =
              rw e refl in
            rw e (
              shared-Shared key,
              walk-Filled (join_path p (key_name key).0) value r (omega arith),
              walk_pairs-Filled p ps
                  (walk decimal lookup_env (join_path p (key_name key).0) value r).1 (omega arith),
            )
      ]

    -- A substitution without an error leaves each value as it was if it is no reference, and else
    -- puts there the text of its variable, with a spelling of null pinned as text, or the default
    -- of a variable that is unset or empty; lines, keys and what a merge key brings in stay, but
    -- for what stands behind an alias, of which nothing is said.
    pub substitute_env-Filled :
        (n : Node)
        → (substitute_env decimal lookup_env n).2 ≡ none
        → Filled n (substitute_env decimal lookup_env n).0
    unfolding substitute_env
    substitute_env-Filled n h =
        walk-Filled [] n (record { warnings = []; missing = [] })
          ((substitute_env-unmet lookup_env decimal n).0 h)
