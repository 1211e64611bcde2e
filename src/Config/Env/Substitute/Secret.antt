-- ===== src/Config/Env/Substitute/Secret.antt =====
-- internal/config/env.go: what substituteEnv reports does not depend on what the variables hold.
use alertloop.Base.{
  ℕ, ◌≡◌, refl, ap, Option, none, some, [], ◌∷◌, Text, Option-cases, Bool-cases, inl, inr,
}
use alertloop.Config.Env.Reference.{env_ref}
use alertloop.Config.Env.Node.{
  Mark, Node, Nodes, Pairs, scalar, mapping, sequence, alias, nil, cons, end, pair, is_merge,
  key_name, join_path,
}
use alertloop.Config.Env.Substitute.{
  Noted, missing_error, fill_reference, walk_scalar, walk, walk_nodes, walk_pairs, substitute_env,
}

-- Both unset, both empty, or both with some text.
abbrev pub BothSet : Option Text → Option Text → Type 0
BothSet none none = Unit
BothSet (some []) (some []) = Unit
BothSet (some (c ∷ v)) (some (d ∷ w)) = Unit
BothSet v w = ⊥

module _ (decimal : ℕ → Text) (one other : Text → Option Text)
    (same : (name : Text) → BothSet (one name) (other name)) where
  fill_reference-noted :
      (p value : Text) (m : Mark) (r : Noted) (name : Text) (d v w : Option Text)
      → BothSet v w
      → (fill_reference decimal one p value m r name v d).1
        ≡ (fill_reference decimal other p value m r name w d).1
  unfolding fill_reference
  fill_reference-noted p value m r name none none none h = refl
  fill_reference-noted p value m r name (some t) none none h = refl
  fill_reference-noted p value m r name none (some []) (some []) h = refl
  fill_reference-noted p value m r name (some t) (some []) (some []) h = refl
  fill_reference-noted p value m r name d (some (c ∷ v)) (some (e ∷ w)) h = refl
  fill_reference-noted p value m r name d none (some w) h = absurd h
  fill_reference-noted p value m r name d (some []) none h = absurd h
  fill_reference-noted p value m r name d (some []) (some (e ∷ w)) h = absurd h
  fill_reference-noted p value m r name d (some (c ∷ v)) none h = absurd h
  fill_reference-noted p value m r name d (some (c ∷ v)) (some []) h = absurd h

  walk_scalar-noted :
      (p value : Text) (m : Mark) (r : Noted)
      → (walk_scalar decimal one p value m r).1 ≡ (walk_scalar decimal other p value m r).1
  unfolding walk_scalar
  walk_scalar-noted p value m r = elim (Option-cases (env_ref value)) [
    | inl e ↦ rw (e, walk_scalar) refl
    | inr (v, e) ↦
        rw (e, walk_scalar)
          (fill_reference-noted p value m r v.0 v.1 (one v.0) (other v.0) (same v.0))
  ]

  mutual
    unfolding walk

    walk-noted :
        (p : Text) (n : Node) (r : Noted)
        → (walk decimal one p n r).1 ≡ (walk decimal other p n r).1
    walk-noted p (scalar value m) r = walk_scalar-noted p value m r
    walk-noted p (mapping m ps) r = walk_pairs-noted p ps r
    walk-noted p (sequence m ns) r = walk_nodes-noted p ns r
    walk-noted p (alias m n) r = refl

    walk_nodes-noted :
        (p : Text) (ns : Nodes) (r : Noted)
        → (walk_nodes decimal one p ns r).1 ≡ (walk_nodes decimal other p ns r).1
    walk_nodes-noted p nil r = refl
    walk_nodes-noted p (cons n ns) r =
        cc (walk-noted p n r, walk_nodes-noted p ns (walk decimal one p n r).1)

    walk_pairs-noted :
        (p : Text) (ps : Pairs) (r : Noted)
        → (walk_pairs decimal one p ps r).1 ≡ (walk_pairs decimal other p ps r).1
    walk_pairs-noted p end r = refl
    walk_pairs-noted p (pair key value ps) r = elim (Bool-cases (is_merge key)) [
      | inl e ↦ rw e (walk_pairs-noted p ps r)
      | inr e ↦ rw e (
          cc (
            walk-noted (join_path p (key_name key).0) value r,
            walk_pairs-noted p ps (walk decimal one (join_path p (key_name key).0) value r).1,
          ))
    ]

  -- The warnings and the error of a substitution are the same in any two environments in which the
  -- same variables are unset and the same are empty.
  pub substitute_env-secret :
      (n : Node)
      → ((substitute_env decimal one n).1 ≡ (substitute_env decimal other n).1)
        × ((substitute_env decimal one n).2 ≡ (substitute_env decimal other n).2)
  unfolding substitute_env
  substitute_env-secret n =
      let first : Noted = record { warnings = []; missing = [] } in
      let e = walk-noted [] n first in
      (ap (λ r. r.warnings) e, ap (λ (r : Noted). missing_error decimal r.missing) e)
