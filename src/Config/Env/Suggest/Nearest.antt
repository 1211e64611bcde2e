-- ===== src/Config/Env/Suggest/Nearest.antt =====
-- internal/config/env.go: what suggestNearby finds, and that suggestKey names known keys only.
use alertloop.Config.Env.Distance.Osa.{osa}
use alertloop.Config.Env.Distance.Rows.{edit_distance-eq-osa}
use alertloop.Config.Env.Suggest.{
  split_path, edit_budget, sorted_keys, nearer, nearest, suggest_nearby, suggest_key, same_name,
  or_elsewhere,
}
use alertloop.Config.Env.Suggest.Sorted.{Has-sorted_keys, sorted_keys-Has}
use alertloop.Base.{
  ℕ, ◌+◌, ◌≤◌, ◌<◌, ◌≡◌, ◌⊎◌, inl, inr, refl, ap, Bool, some, List, [], ◌∷◌, Text, text_eq,
  text_eq_iff, if◌then◌else◌, length, Has, arith, Bool-cases, Option-cases, ltb, find, ◌∙◌, subst,
  sym,
}

-- the distance of a name from that of a key
abbrev pub distance_to : Text → Text → ℕ
distance_to name k = osa name (split_path k).1 (length name) (length (split_path k).1)

module _ (parent name : Text) where
  -- what the loop makes of a best key and its distance, over some keys
  record Narrowed (l : List Text) (start end : Text × ℕ) : Type 0 where
    from :
        (end ≡ start)
        ⊎ (Has end.0 l
            × ((split_path end.0).0 ≡ parent)
            × (end.1 ≡ distance_to name end.0)
            × (end.1 < start.1))
    least : (k : Text) → Has k l → (split_path k).0 ≡ parent → end.1 ≤ distance_to name k
    less : end.1 ≤ start.1

  nearer-eq :
      (k : Text) (best : Text × ℕ)
      → nearer parent name k best
        ≡ some (
            if text_eq (split_path k).0 parent
            then (if ltb (distance_to name k) best.1 then (k, distance_to name k) else best)
            else best)
  unfolding nearer
  nearer-eq k best =
      rw (edit_distance-eq-osa name (split_path k).1)
        (elim (Bool-cases (text_eq (split_path k).0 parent)) [
          | inl e ↦ rw e refl
          | inr e ↦ rw e refl
        ])

  Narrowed-one :
      (k : Text) (start : Text × ℕ)
      → ((split_path k).0 ≡ parent → start.1 ≤ distance_to name k)
      → Narrowed (k ∷ []) start start
  Narrowed-one k start h = record { from = inl refl; least = least; less = omega arith }
    where
      least : (j : Text) → Has j (k ∷ []) → (split_path j).0 ≡ parent → start.1 ≤ distance_to name j
      least j (inl same) at =
          subst (λ i. (split_path i).0 ≡ parent → start.1 ≤ distance_to name i) (sym same) h at
      least j (inr m) at = absurd m

  Narrowed-taken :
      (k : Text) (start : Text × ℕ)
      → (split_path k).0 ≡ parent
      → distance_to name k < start.1
      → Narrowed (k ∷ []) start (k, distance_to name k)
  Narrowed-taken k start here t = record {
    from = inr (inl refl, here, refl, t);
    least = least;
    less = omega arith;
  }
    where
      least :
          (j : Text)
          → Has j (k ∷ [])
          → (split_path j).0 ≡ parent
          → distance_to name k ≤ distance_to name j
      least j (inl same) at = rw same (omega arith)
      least j (inr m) at = absurd m

  nearer-Narrowed :
      (k : Text) (start : Text × ℕ)
      → (mid : Text × ℕ) × (nearer parent name k start ≡ some mid) × Narrowed (k ∷ []) start mid
  nearer-Narrowed k start = elim (Bool-cases (text_eq (split_path k).0 parent)) [
    | inl e ↦ elim (Bool-cases (ltb (distance_to name k) start.1)) [
      | inl t ↦ (
        _,
        nearer-eq k start ∙ rw (e, t) refl,
        Narrowed-taken k start ((text_eq_iff _ _).0 e) (ground arith),
      )
      | inr f ↦
          (start, nearer-eq k start ∙ rw (e, f) refl, Narrowed-one k start (λ h. ground arith))
    ]
    | inr e ↦ (
      start,
      nearer-eq k start ∙ rw e refl,
      Narrowed-one k start (λ h. cc ((text_eq_iff (split_path k).0 parent).1 h)),
    )
  ]

  Narrowed-cons :
      (k : Text) (l : List Text) (start mid end : Text × ℕ)
      → Narrowed (k ∷ []) start mid
      → Narrowed l mid end
      → Narrowed (k ∷ l) start end
  Narrowed-cons k l start mid end first rest = record {
    from = elim rest.from [
      | inl e ↦ elim first.from [
        | inl d ↦ inl (e ∙ d)
        | inr o ↦
            subst
              (λ (z : Text × ℕ).
                (z ≡ start)
                ⊎ (Has z.0 (k ∷ l)
                    × ((split_path z.0).0 ≡ parent)
                    × (z.1 ≡ distance_to name z.0)
                    × (z.1 < start.1)))
              (sym e) (inr (alone o.0, o.1, o.2, o.3))
      ]
      | inr o ↦ inr (inr o.0, o.1, o.2, omega (arith, first.less, o.3))
    ];
    least = λ j m at. below j m at;
    less = omega (arith, first.less, rest.less);
  }
    where
      alone : Has mid.0 (k ∷ []) → Has mid.0 (k ∷ l)
      alone (inl e) = inl e
      alone (inr h) = absurd h

      below : (j : Text) → Has j (k ∷ l) → (split_path j).0 ≡ parent → end.1 ≤ distance_to name j
      below j (inl e) at = omega (arith, first.least j (inl e) at, rest.less)
      below j (inr m) at = rest.least j m at

  nearest-Narrowed :
      (l : List Text) (start : Text × ℕ)
      → (end : Text × ℕ) × (nearest parent name l start ≡ some end) × Narrowed l start end
  unfolding nearest
  nearest-Narrowed [] start =
      (start, refl, record { from = inl refl; least = λ k h. absurd h; less = omega arith })
  nearest-Narrowed (k ∷ l) start =
      let (mid, e, n) = nearer-Narrowed k start in
      let (end, f, m) = nearest-Narrowed l mid in (end, rw e f, Narrowed-cons k l start mid end n m)

-- A key that stands where the path does, within the budget and with none nearer, or none within it.
abbrev pub IsNearest : Text → List Text → Text → Type 0
IsNearest path known k =
    ((k ≡ [])
      × ((j : Text)
          → Has j known
          → (split_path j).0 ≡ (split_path path).0
          → edit_budget (split_path path).1 < distance_to (split_path path).1 j))
    ⊎ (Has k known
        × ((split_path k).0 ≡ (split_path path).0)
        × (distance_to (split_path path).1 k ≤ edit_budget (split_path path).1)
        × ((j : Text)
            → Has j known
            → (split_path j).0 ≡ (split_path path).0
            → distance_to (split_path path).1 k ≤ distance_to (split_path path).1 j))

-- suggestNearby stays within its arrays and names a known key of the same place within the edit
-- budget, with no known key of that place nearer, or none if every one is beyond the budget.
pub suggest_nearby-IsNearest :
    (path : Text) (known : List Text)
    → (k : Text) × (suggest_nearby path known ≡ some k) × IsNearest path known k
unfolding suggest_nearby
suggest_nearby-IsNearest path known =
    let (parent, name) = split_path path in
    let (end, e, n) = nearest-Narrowed parent name (sorted_keys known) ([], edit_budget name + 1) in
    (
      end.0,
      rw e refl,
      elim n.from [
        | inl s ↦ inl (
          ap (λ (z : Text × ℕ). z.0) s,
          λ j m at.
              omega (arith, n.least j (sorted_keys-Has j known m) at, ap (λ (z : Text × ℕ). z.1) s),
        )
        | inr o ↦ inr (
          Has-sorted_keys end.0 known o.0,
          o.1,
          omega (arith, o.2, o.3),
          λ j m at. omega (arith, o.2, n.least j (sorted_keys-Has j known m) at),
        )
      ],
    )

Has-find : (p : Text → Bool) (k : Text) (l : List Text) → find p l ≡ some k → Has k l
unfolding find
Has-find p k [] h = cc
Has-find p k (j ∷ l) h = elim (Bool-cases (p j)) [
  | inl t ↦ inl (cc (rw t at h))
  | inr f ↦ inr (Has-find p k l (rw f at h))
]

or_elsewhere-known :
    (path : Text) (known : List Text) (best : Text)
    → (best ≡ []) ⊎ Has best known
    → (or_elsewhere path known best ≡ []) ⊎ Has (or_elsewhere path known best) known
unfolding or_elsewhere
or_elsewhere-known path known [] h =
    elim (Option-cases (find (same_name path known) (sorted_keys known))) [
      | inl e ↦ inl (rw (e, or_elsewhere) refl)
      | inr (k, e) ↦
          let named : or_elsewhere path known [] ≡ k = rw (e, or_elsewhere) refl in
          inr (
            subst (λ z. Has z known) (sym named)
              (Has-sorted_keys k known (Has-find (same_name path known) k (sorted_keys known) e)))
    ]
or_elsewhere-known path known (c ∷ best) h = h

-- The key that is suggested is none or a known one.
pub suggest_key-known :
    (path : Text) (known : List Text)
    → (k : Text) × (suggest_key path known ≡ some k) × ((k ≡ []) ⊎ Has k known)
unfolding suggest_key
suggest_key-known path known =
    let (best, e, n) = suggest_nearby-IsNearest path known in
    let here : (best ≡ []) ⊎ Has best known = elim n [ inl z ↦ inl z.0 | inr o ↦ inr o.0 ] in
    (or_elsewhere path known best, rw e refl, or_elsewhere-known path known best here)
