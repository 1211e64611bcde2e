-- ===== src/Base/Arrays.antt =====
-- Arrays as lists with native indices; what lies outside is no value.
use Prim.Native.Nat.{ℕ, zero, suc, ◌<◌}
use mathlib.Core.Path.{◌≡◌, refl, ap}
use mathlib.Core.Logic.{◌≢◌}
use mathlib.Core.Option.{Option, none, some}
use mathlib.Core.List.{List, [], ◌∷◌}
use native.Mathlib.Omega.{arith}
use alertloop.Base.Lists.{length}

module _ {ℓ} {A : Type ℓ} where
  abbrev pub get_elem? : List A → ℕ → Option A
  get_elem? [] i = none
  get_elem? (x ∷ xs) zero = some x
  get_elem? (x ∷ xs) (suc i) = get_elem? xs i

  -- a write, none outside
  abbrev pub store : List A → ℕ → A → Option (List A)
  store [] i v = none
  store (x ∷ xs) zero v = some (v ∷ xs)
  store (x ∷ xs) (suc i) v = elim (store xs i v) [ none ↦ none | some ys ↦ some (x ∷ ys) ]

  abbrev pub replicate : ℕ → A → List A
  replicate zero x = []
  replicate (suc n) x = x ∷ replicate n x

  pub length-replicate : (n : ℕ) (x : A) → length (replicate n x) ≡ n
  length-replicate zero x = refl
  length-replicate (suc n) x = ap suc (length-replicate n x)

  -- A write inside leaves an array of the same length, with the value at its place and the others kept.
  pub store_inside :
      (xs : List A) (i : ℕ) (v : A)
      → i < length xs
      → (ys : List A) × (store xs i v ≡ some ys)
        × (length ys ≡ length xs)
        × (get_elem? ys i ≡ some v)
        × ((j : ℕ) → j ≢ i → get_elem? ys j ≡ get_elem? xs j)
  store_inside [] i v h = absurd (omega arith)
  store_inside (x ∷ xs) zero v h = (v ∷ xs, refl, refl, refl, keep)
    where
      keep : (j : ℕ) → j ≢ 0 → get_elem? (v ∷ xs) j ≡ get_elem? (x ∷ xs) j
      keep zero ne = absurd (ne refl)
      keep (suc j) ne = refl
  store_inside (x ∷ xs) (suc i) v h =
      let (ys, e, n, g, k) = store_inside xs i v (omega arith) in
      (x ∷ ys, rw e refl, ap suc n, g, keep ys k)
    where
      keep :
          (ys : List A)
          → ((j : ℕ) → j ≢ i → get_elem? ys j ≡ get_elem? xs j)
          → (j : ℕ) → j ≢ suc i
          → get_elem? (x ∷ ys) j ≡ get_elem? (x ∷ xs) j
      keep ys k zero ne = refl
      keep ys k (suc j) ne = k j (λ e. ne (ap suc e))

  pub get_elem?_inside : (xs : List A) (i : ℕ) → i < length xs → (x : A) × (get_elem? xs i ≡ some x)
  get_elem?_inside [] i h = absurd (omega arith)
  get_elem?_inside (x ∷ xs) zero h = (x, refl)
  get_elem?_inside (x ∷ xs) (suc i) h = get_elem?_inside xs i (omega arith)

  abbrev pub get_or : List A → ℕ → A → A
  get_or [] i d = d
  get_or (x ∷ xs) zero d = x
  get_or (x ∷ xs) (suc i) d = get_or xs i d

  pub get_elem?-eq-get_or :
      (xs : List A) (i : ℕ) (d : A) → i < length xs → get_elem? xs i ≡ some (get_or xs i d)
  get_elem?-eq-get_or [] i d h = absurd (omega arith)
  get_elem?-eq-get_or (x ∷ xs) zero d h = refl
  get_elem?-eq-get_or (x ∷ xs) (suc i) d h = get_elem?-eq-get_or xs i d (omega arith)
