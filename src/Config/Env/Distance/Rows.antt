-- ===== src/Config/Env/Distance/Rows.antt =====
-- internal/config/env.go: the three rolling rows of editDistance hold the distances of prefixes.
use alertloop.Config.Env.Distance.{least, crosses, swap_cell, fill_cell, fill_row, edit_distance}
use native.Mathlib.Numerals.{sub-one}
use alertloop.Config.Env.Distance.Holds.{count_up-keeps, Holds, extend, store-Holds}
use alertloop.Config.Env.Distance.Osa.{osa, swapped}
use alertloop.Base.{
  ℕ, zero, suc, ◌+◌, ◌-◌, ◌<◌, ◌≤◌, min, ◌≡◌, refl, ap, subst, ◌∙◌, some, List, Text, if◌then◌else◌,
  length, get_elem?, store, get_or, arith, Bool-cases, inl, inr, store_inside, get_elem?-eq-get_or,
  replicate, length-replicate, true, sym,
}

module _ (a b : Text) where
  abbrev IsRow : ℕ → ℕ → List ℕ → Type 0
  IsRow i = Holds (length b + 1) (osa a b i)

  -- the row before the last one, from the second round on
  abbrev IsBefore : ℕ → List ℕ → Type 0
  IsBefore zero row = Unit
  IsBefore (suc i) row = IsRow i (length b + 1) row

  abbrev before : ℕ → ℕ → ℕ
  before (suc i) (suc j) = osa a b i j
  before _ _ = 0

  abbrev plain : ℕ → ℕ → ℕ
  plain i j =
      least (get_or a i 0) (get_or b j 0) (osa a b i (suc j)) (osa a b (suc i) j) (osa a b i j)

  osa-zero : (i : ℕ) → suc i ≡ osa a b (suc i) 0
  unfolding osa
  osa-zero zero = refl
  osa-zero (suc i) = refl

  osa-step :
      (i j : ℕ)
      → osa a b (suc i) (suc j)
        ≡ (if swapped a b i j then min (plain i j) (before i j + 1) else plain i j)
  unfolding osa
  osa-step zero zero = refl
  osa-step zero (suc j) = refl
  osa-step (suc i) zero = refl
  osa-step (suc i) (suc j) = refl

  crosses-swapped :
      (i j : ℕ)
      → i < length a
      → j < length b
      → crosses a b (suc i) (suc j) (get_or a i 0) (get_or b j 0) ≡ some (swapped a b i j)
  unfolding crosses
  crosses-swapped zero j hi hj = ground arith
  crosses-swapped (suc i) zero hi hj = ground arith
  crosses-swapped (suc i) (suc j) hi hj =
      let ei : suc (suc i) - 2 ≡ i = omega arith in
      let ej : suc (suc j) - 2 ≡ j = omega arith in
      rw (ei, ej, get_elem?-eq-get_or b j 0 (omega arith), get_elem?-eq-get_or a i 0 (omega arith))
        (ground arith)

  -- the second write of a cell, where two bytes are swapped
  swap_cell-IsRow :
      (i j : ℕ) (prev2 filled : List ℕ)
      → j < length b
      → IsBefore i prev2
      → IsRow (suc i) (suc j) filled
      → get_elem? filled (suc j) ≡ some (plain i j)
      → swapped a b i j ≡ true
      → (row : List ℕ) × (swap_cell a b prev2 (suc j) filled ≡ some row)
        × IsRow (suc i) (suc (suc j)) row
  unfolding swap_cell
  swap_cell-IsRow zero j prev2 filled hj p h at s = cc
  swap_cell-IsRow (suc i) zero prev2 filled hj p h at s = cc
  swap_cell-IsRow (suc i) (suc j) prev2 filled hj p h at s =
      let ej : suc (suc j) - 2 ≡ j = omega arith in
      let step : min (plain (suc i) (suc j)) (osa a b i j + 1)
          ≡ osa a b (suc (suc i)) (suc (suc j)) =
        sym (osa-step (suc i) (suc j) ∙ (rw s refl)) in
      rw (at, ej, p.cells j (omega arith))
        (store-Holds (length b + 1) (osa a b (suc (suc i))) (suc (suc j)) filled _ h (omega arith)
          step)

  fill_cell-IsRow :
      (i j : ℕ) (prev2 prev cur : List ℕ)
      → i < length a
      → j < length b
      → IsBefore i prev2
      → IsRow i (length b + 1) prev
      → IsRow (suc i) (suc j) cur
      → (row : List ℕ) × (fill_cell a b (suc i) prev2 prev (suc j) cur ≡ some row)
        × IsRow (suc i) (suc (suc j)) row
  unfolding fill_cell
  fill_cell-IsRow i j prev2 prev cur hi hj p2 p c =
      let (filled, stored, n, at, keep) =
        store_inside cur (suc j) (plain i j) (omega (arith, c.size)) in
      let kept : IsRow (suc i) (suc j) filled = record {
        size = n ∙ c.size;
        cells = λ k h. keep k (omega arith) ∙ c.cells k h;
      } in
      simp
        (
          sub-one,
          get_elem?-eq-get_or a i 0 hi,
          get_elem?-eq-get_or b j 0 hj,
          p.cells (suc j) (omega arith),
          c.cells j (omega arith),
          p.cells j (omega arith),
          stored,
          crosses-swapped i j hi hj,
        )
        (elim (Bool-cases (swapped a b i j)) [
          | inl s ↦ rw s (swap_cell-IsRow i j prev2 filled hj p2 kept at s)
          | inr f ↦ rw f (
            filled,
            refl,
            extend (length b + 1) (osa a b (suc i)) (suc j) filled kept
                (at ∙ ap some (sym (osa-step i j ∙ rw f refl))),
          )
        ])

  fill_row-IsRow :
      (i : ℕ) (prev2 prev cur : List ℕ)
      → i < length a
      → IsBefore i prev2
      → IsRow i (length b + 1) prev
      → length cur ≡ length b + 1
      → (row : List ℕ) × (fill_row a b (suc i) (prev2, prev, cur) ≡ some (prev, row, prev2))
        × IsRow (suc i) (length b + 1) row
  unfolding fill_row
  fill_row-IsRow i prev2 prev cur hi p2 p size =
      let blank : IsRow (suc i) 0 cur = record {
        size = size;
        cells = λ j h. absurd (omega arith);
      } in
      let (started, e, s) =
        store-Holds (length b + 1) (osa a b (suc i)) 0 cur (suc i) blank (omega arith)
          (osa-zero i) in
      let (row, r, q) =
        count_up-keeps (IsRow (suc i)) (fill_cell a b (suc i) prev2 prev) (length b) 1 started step
          s in
      (row, rw (e, r) refl, subst (λ k. IsRow (suc i) k row) (omega arith) q)
    where
      step :
          (k : ℕ) (t : List ℕ)
          → 1 ≤ k
          → k < 1 + length b
          → IsRow (suc i) k t
          → (u : List ℕ) × (fill_cell a b (suc i) prev2 prev k t ≡ some u) × IsRow (suc i) (suc k) u
      step zero t lo inside c = absurd (omega arith)
      step (suc j) t lo inside c = fill_cell-IsRow i j prev2 prev t hi (omega arith) p2 p c

  -- before round `k`
  abbrev Inv : ℕ → List ℕ × List ℕ × List ℕ → Type 0
  Inv zero s = ⊥
  Inv (suc i) s =
      IsBefore i s.0
      × (length s.0 ≡ length b + 1)
      × IsRow i (length b + 1) s.1
      × (length s.2 ≡ length b + 1)

  rounds-Inv :
      (k : ℕ) (s : List ℕ × List ℕ × List ℕ)
      → 1 ≤ k
      → k < 1 + length a
      → Inv k s
      → (t : List ℕ × List ℕ × List ℕ) × (fill_row a b k s ≡ some t) × Inv (suc k) t
  rounds-Inv zero s lo hi v = absurd v
  rounds-Inv (suc i) s lo hi v =
      let (row, e, q) = fill_row-IsRow i s.0 s.1 s.2 (omega arith) v.0 v.2 v.3 in
      ((s.1, row, s.0), e, (v.2, v.2.size, q, v.1))

  -- editDistance, which rolls three rows, stays within its arrays and gives the optimal string
  -- alignment distance that the recursion on prefixes defines.
  pub edit_distance-eq-osa : edit_distance a b ≡ some (osa a b (length a) (length b))
  unfolding edit_distance osa
  edit_distance-eq-osa =
      let blank = replicate {A = ℕ} (length b + 1) 0 in
      let size : length blank ≡ length b + 1 = length-replicate (length b + 1) 0 in
      let (first, e, p) =
        count_up-keeps (IsRow 0) (λ j row. store row j j) (length b + 1) 0 blank
          (λ k t lo inside h. store-Holds (length b + 1) (osa a b 0) k t k h (omega arith) refl)
          (record { size = size; cells = λ j h. absurd (omega arith) }) in
      let (rows, r, q) =
        count_up-keeps Inv (fill_row a b) (length a) 1 (blank, first, blank) rounds-Inv
          (tt, size, subst (λ k. IsRow 0 k first) (omega arith) p, size) in
      rw (e, r) (last rows q)
    where
      last :
          (rows : List ℕ × List ℕ × List ℕ)
          → Inv (1 + length a) rows
          → get_elem? rows.1 (length b) ≡ some (osa a b (length a) (length b))
      last rows v =
          let w : Inv (suc (length a)) rows =
            subst (λ k. Inv k rows) {y = suc (length a)} (omega arith) v in
          w.2.cells (length b) (omega arith)
