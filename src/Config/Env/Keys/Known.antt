-- ===== src/Config/Env/Keys/Known.antt =====
-- internal/config/env.go: the keys that checkUnknownKeys lets pass.
use alertloop.Base.{
  ℕ, ◌≡◌, refl, Bool, true, false, ◌&&◌, List, [], ◌∷◌, ◌++◌, Text, if◌then◌else◌, length, arith,
  Bool-cases, inl, inr, ◌⊎◌, ◌≤◌, ◌↔◌, ap, none, length-snoc,
}
use alertloop.Routing.Matcher.{text_in}
use alertloop.Config.Env.Node.{
  Node, Nodes, Pairs, scalar, mapping, sequence, alias, nil, cons, end, pair, is_merge, key_name,
  join_path,
}
use alertloop.Config.Env.Keys.{
  Schema, Unknown, walk_keys, walk_keys_of, walk_pairs, is_extension, descend, note_unknown,
  unknown_key, unknown_keys, check_unknown_keys, unknown_error,
}

module _ (s : Schema) where
  -- What a path with its key may be: below an extension anything, else a known setting.
  abbrev pub IsKnown : Text → Bool → Type 0
  IsKnown path plain = (is_extension path ≡ true) ⊎ ((plain ≡ true) × (text_in s.known path ≡ true))

  -- Whether the keys below one are looked at: those of a known setting with parts of its own.
  unfoldable pub leads_below : Text → Bool → Bool
  unfolding is_extension text_in
  leads_below path plain =
      if is_extension path
      then false
      else plain && text_in s.known path && text_in s.containers path

  -- Every key of a tree is known, those below an alias and those that a merge key brings in included,
  -- down to where a key has no known ones below it.
  abbrev mutual
    pub AllKnown : Node → Text → Bool → Type 0
    AllKnown (scalar v m) prefix plain = Unit
    AllKnown (mapping m ps) prefix plain = AllKnownPairs ps prefix plain
    AllKnown (sequence m ns) prefix plain = AllKnownNodes ns prefix plain
    AllKnown (alias m n) prefix plain = AllKnown n prefix plain

    pub AllKnownNodes : Nodes → Text → Bool → Type 0
    AllKnownNodes nil prefix plain = Unit
    AllKnownNodes (cons n ns) prefix plain = AllKnown n prefix plain × AllKnownNodes ns prefix plain

    pub AllKnownPairs : Pairs → Text → Bool → Type 0
    AllKnownPairs end prefix plain = Unit
    AllKnownPairs (pair key value ps) prefix plain =
        (if is_merge key
          then AllKnown value prefix plain
          else IsKnown (join_path prefix (key_name key).0) (plain && (key_name key).1)
            × (if leads_below (join_path prefix (key_name key).0) (plain && (key_name key).1)
                then AllKnown value (join_path prefix (key_name key).0) (plain && (key_name key).1)
                else Unit))
        × AllKnownPairs ps prefix plain

  walked : Node → Text → Bool → List Unknown → ℕ
  walked n prefix plain found = length (walk_keys (note_unknown s) n prefix plain found)

  -- What the visitor notes: nothing of a known key, one key more of any other, below which it stays out.
  note-known :
      (path : Text) (key value : Node) (plain : Bool) (found : List Unknown)
      → IsKnown path plain
      → note_unknown s path key value plain found ≡ (leads_below path plain, found)
  unfolding note_unknown descend leads_below
  note-known path key value plain found (inl e) = ground (arith)
  note-known path key value plain found (inr h) = ground (arith)

  note-cases :
      (path : Text) (key value : Node) (plain : Bool) (found : List Unknown)
      → IsKnown path plain
        ⊎ (note_unknown s path key value plain found
            ≡ (false, found ++ (unknown_key s path key plain ∷ [])))
  unfolding note_unknown descend leads_below
  note-cases path key value plain found = elim (Bool-cases (is_extension path)) [
    | inl e ↦ inl (inl e)
    | inr f ↦ elim (Bool-cases (plain && text_in s.known path)) [
      | inl e ↦ inl (inr (ground arith, ground arith))
      | inr g ↦ inr (ground arith)
    ]
  ]

  mutual
    unfolding walk_keys

    walk-known :
        (n : Node) (prefix : Text) (plain : Bool) (found : List Unknown)
        → AllKnown n prefix plain
        → walk_keys (note_unknown s) n prefix plain found ≡ found
    walk-known (scalar v m) prefix plain found h = refl
    walk-known (mapping m ps) prefix plain found h = walk_pairs-known ps prefix plain found h
    walk-known (sequence m ns) prefix plain found h = walk_nodes-known ns prefix plain found h
    walk-known (alias m n) prefix plain found h = walk-known n prefix plain found h

    walk_nodes-known :
        (ns : Nodes) (prefix : Text) (plain : Bool) (found : List Unknown)
        → AllKnownNodes ns prefix plain
        → walk_keys_of (note_unknown s) ns prefix plain found ≡ found
    walk_nodes-known nil prefix plain found h = refl
    walk_nodes-known (cons n ns) prefix plain found h =
        rw (walk-known n prefix plain found h.0) (walk_nodes-known ns prefix plain found h.1)

    walk_pairs-known :
        (ps : Pairs) (prefix : Text) (plain : Bool) (found : List Unknown)
        → AllKnownPairs ps prefix plain
        → walk_pairs (note_unknown s) ps prefix plain found ≡ found
    walk_pairs-known end prefix plain found h = refl
    walk_pairs-known (pair key value ps) prefix plain found h =
        let path = join_path prefix (key_name key).0 in
        let b = plain && (key_name key).1 in
        elim (Bool-cases (is_merge key)) [
          | inl e ↦
              rw (e, walk-known value prefix plain found (rw e at h.0))
                (walk_pairs-known ps prefix plain found h.1)
          | inr e ↦
              let k : IsKnown path b
                  × (if leads_below path b then AllKnown value path b else Unit) =
                rw e at h.0 in
              rw (e, note-known path key value b found k.0)
                (elim (Bool-cases (leads_below path b)) [
                  | inl d ↦
                      rw (d, walk-known value path b found (rw d at k.1))
                        (walk_pairs-known ps prefix plain found h.1)
                  | inr d ↦ rw d (walk_pairs-known ps prefix plain found h.1)
                ])
        ]

  note-le :
      (path : Text) (key value : Node) (plain : Bool) (found : List Unknown)
      → length found ≤ length (note_unknown s path key value plain found).1
  note-le path key value plain found = elim (note-cases path key value plain found) [
    | inl k ↦ rw (note-known path key value plain found k) (omega arith)
    | inr e ↦ rw e (omega (arith, length-snoc found (unknown_key s path key plain)))
  ]

  mutual
    unfolding walk_keys

    walk-le :
        (n : Node) (prefix : Text) (plain : Bool) (found : List Unknown)
        → length found ≤ length (walk_keys (note_unknown s) n prefix plain found)
    walk-le (scalar v m) prefix plain found = omega arith
    walk-le (mapping m ps) prefix plain found = walk_pairs-le ps prefix plain found
    walk-le (sequence m ns) prefix plain found = walk_nodes-le ns prefix plain found
    walk-le (alias m n) prefix plain found = walk-le n prefix plain found

    walk_nodes-le :
        (ns : Nodes) (prefix : Text) (plain : Bool) (found : List Unknown)
        → length found ≤ length (walk_keys_of (note_unknown s) ns prefix plain found)
    walk_nodes-le nil prefix plain found = omega arith
    walk_nodes-le (cons n ns) prefix plain found = omega (
      arith,
      walk-le n prefix plain found,
      walk_nodes-le ns prefix plain (walk_keys (note_unknown s) n prefix plain found),
    )

    walk_pairs-le :
        (ps : Pairs) (prefix : Text) (plain : Bool) (found : List Unknown)
        → length found ≤ length (walk_pairs (note_unknown s) ps prefix plain found)
    walk_pairs-le end prefix plain found = omega arith
    walk_pairs-le (pair key value ps) prefix plain found =
        let path = join_path prefix (key_name key).0 in
        let b = plain && (key_name key).1 in
        let noted = note_unknown s path key value b found in
        elim (Bool-cases (is_merge key)) [
          | inl e ↦ rw e (
              omega (
                arith,
                walk-le value prefix plain found,
                walk_pairs-le ps prefix plain (walk_keys (note_unknown s) value prefix plain found),
              ))
          | inr e ↦ rw e (elim (Bool-cases noted.0) [
            | inl d ↦ rw d (
                omega (
                  arith,
                  note-le path key value b found,
                  walk-le value path b noted.1,
                  walk_pairs-le ps prefix plain (walk_keys (note_unknown s) value path b noted.1),
                ))
            | inr d ↦ rw d (
                omega
                  (arith, note-le path key value b found, walk_pairs-le ps prefix plain noted.1))
          ])
        ]

  mutual
    unfolding walk_keys

    walk-all :
        (n : Node) (prefix : Text) (plain : Bool) (found : List Unknown)
        → length (walk_keys (note_unknown s) n prefix plain found) ≤ length found
        → AllKnown n prefix plain
    walk-all (scalar v m) prefix plain found h = tt
    walk-all (mapping m ps) prefix plain found h = walk_pairs-all ps prefix plain found h
    walk-all (sequence m ns) prefix plain found h = walk_nodes-all ns prefix plain found h
    walk-all (alias m n) prefix plain found h = walk-all n prefix plain found h

    walk_nodes-all :
        (ns : Nodes) (prefix : Text) (plain : Bool) (found : List Unknown)
        → length (walk_keys_of (note_unknown s) ns prefix plain found) ≤ length found
        → AllKnownNodes ns prefix plain
    walk_nodes-all nil prefix plain found h = tt
    walk_nodes-all (cons n ns) prefix plain found h =
        let after = walk_keys (note_unknown s) n prefix plain found in
        let rest = walk_nodes-le ns prefix plain after in
        (
          walk-all n prefix plain found (omega arith),
          walk_nodes-all ns prefix plain after (omega (arith, walk-le n prefix plain found)),
        )

    walk_pairs-all :
        (ps : Pairs) (prefix : Text) (plain : Bool) (found : List Unknown)
        → length (walk_pairs (note_unknown s) ps prefix plain found) ≤ length found
        → AllKnownPairs ps prefix plain
    walk_pairs-all end prefix plain found h = tt
    walk_pairs-all (pair key value ps) prefix plain found h =
        let path = join_path prefix (key_name key).0 in
        let b = plain && (key_name key).1 in
        elim (Bool-cases (is_merge key)) [
          | inl e ↦
              let after = walk_keys (note_unknown s) value prefix plain found in
              let k : length (walk_pairs (note_unknown s) ps prefix plain after) ≤ length found =
                rw e at h in
              rw e (
                walk-all value prefix plain found
                    (omega (arith, walk_pairs-le ps prefix plain after)),
                walk_pairs-all ps prefix plain after
                    (omega (arith, walk-le value prefix plain found)),
              )
          | inr e ↦ elim (note-cases path key value b found) [
            | inl known ↦ elim (Bool-cases (leads_below path b)) [
              | inl d ↦
                  let after = walk_keys (note_unknown s) value path b found in
                  let k : length (walk_pairs (note_unknown s) ps prefix plain after)
                      ≤ length found =
                    rw (e, note-known path key value b found known, d) at h in
                  rw (e, d)
                    (
                      (
                        known,
                        walk-all value path b found
                            (omega (arith, walk_pairs-le ps prefix plain after)),
                      ),
                      walk_pairs-all ps prefix plain after
                          (omega (arith, walk-le value path b found)),
                    )
              | inr d ↦
                  let k : length (walk_pairs (note_unknown s) ps prefix plain found)
                      ≤ length found =
                    rw (e, note-known path key value b found known, d) at h in
                  rw (e, d) ((known, tt), walk_pairs-all ps prefix plain found k)
            ]
            | inr noted ↦
                let after = found ++ (unknown_key s path key b ∷ []) in
                let k : length (walk_pairs (note_unknown s) ps prefix plain after) ≤ length found =
                  rw (e, noted) at h in
                absurd (
                  omega (
                    arith,
                    walk_pairs-le ps prefix plain after,
                    length-snoc found (unknown_key s path key b),
                  ))
          ]
        ]

  module _ (decimal : ℕ → Text) where
    unknown_error-none : (l : List Unknown) → (unknown_error decimal l ≡ none) ↔ (length l ≡ 0)
    unfolding unknown_error
    unknown_error-none [] = (λ e. refl, λ e. refl)
    unknown_error-none (u ∷ l) = (λ e. cc, λ e. absurd (omega arith))

    -- checkUnknownKeys gives no error exactly if each key of the file is a known setting or stands
    -- under an extension, down to where a key has no known ones below it, those behind an alias
    -- and a merge key included.
    pub check_unknown_keys_iff :
        (doc : Node) → (check_unknown_keys decimal s doc ≡ none) ↔ AllKnown doc [] true
    unfolding check_unknown_keys unknown_keys
    check_unknown_keys_iff doc =
        let (to, back) = unknown_error-none (unknown_keys s doc) in
        (
          λ e. walk-all doc [] true [] (omega (arith, to e)),
          λ h. back (ap length (walk-known doc [] true [] h)),
        )
