-- ===== src/Config/Env/Distance.antt =====
-- internal/config/env.go: editDistance, on the bytes of two texts. An index outside a slice, which
-- panics in Go, is `none`.
pub mod Osa
pub mod Holds
pub mod Rows
use alertloop.Base.{
  ℕ, zero, suc, ◌+◌, ◌-◌, min, ltb, ◌==◌, Bool, true, false, ◌&&◌, Option, none, some, List, Text,
  if◌then◌else◌, length, get_elem?, store, replicate,
}

infixl 1 ◌>>=◌
abbrev pub ◌>>=◌ : {A B : Type 0} → Option A → (A → Option B) → Option B
none >>= f = none
some a >>= f = f a

-- `rounds` rounds of a loop whose counter starts at `i`
unfoldable pub count_up : {S : Type 0} → ℕ → ℕ → (ℕ → S → Option S) → S → Option S
count_up zero i body s = some s
count_up (suc n) i body s = body i s >>= count_up n (suc i) body

abbrev pub least : ℕ → ℕ → ℕ → ℕ → ℕ → ℕ
least x y above left diagonal =
    min (above + 1) (min (left + 1) (diagonal + (if x == y then 0 else 1)))

module _ (a b : Text) where
  -- whether the last two bytes are the last two of the other, swapped
  unfoldable pub crosses : ℕ → ℕ → ℕ → ℕ → Option Bool
  crosses i j x y =
      if ltb 1 i && ltb 1 j
      then (do
        v ← get_elem? b (j - 2)
        if x == v then (do w ← get_elem? a (i - 2); some (w == y)) else some false)
      else some false

  unfoldable pub swap_cell : List ℕ → ℕ → List ℕ → Option (List ℕ)
  swap_cell prev2 j cur = do
    here ← get_elem? cur j
    before ← get_elem? prev2 (j - 2)
    store cur j (min here (before + 1))

  -- the body of the inner loop
  unfoldable pub fill_cell : ℕ → List ℕ → List ℕ → ℕ → List ℕ → Option (List ℕ)
  unfolding crosses swap_cell
  fill_cell i prev2 prev j cur = do
    x ← get_elem? a (i - 1)
    y ← get_elem? b (j - 1)
    above ← get_elem? prev j
    left ← get_elem? cur (j - 1)
    diagonal ← get_elem? prev (j - 1)
    filled ← store cur j (least x y above left diagonal)
    crossed ← crosses i j x y
    if crossed then swap_cell prev2 j filled else some filled

  -- the body of the outer loop, on prev2, prev and cur
  unfoldable pub fill_row : ℕ → List ℕ × List ℕ × List ℕ → Option (List ℕ × List ℕ × List ℕ)
  unfolding fill_cell count_up
  fill_row i (prev2, prev, cur) = do
    started ← store cur 0 i
    row ← count_up (length b) 1 (fill_cell i prev2 prev) started
    some (prev, row, prev2)

  unfoldable pub edit_distance : Option ℕ
  unfolding fill_row count_up
  edit_distance = do
    let blank = replicate {A = ℕ} (length b + 1) 0
    first ← count_up (length b + 1) 0 (λ j row. store row j j) blank
    rows ← count_up (length a) 1 fill_row (blank, first, blank)
    get_elem? rows.1 (length b)
