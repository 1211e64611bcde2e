-- ===== src/Config/Env/Distance/Holds.antt =====
-- internal/config/env.go: the loops of editDistance, and rows of which the first cells are known.
use alertloop.Config.Env.Distance.{count_up}
use alertloop.Base.{
  ℕ, zero, suc, ◌+◌, ◌<◌, ◌≤◌, ◌==◌, ◌≡◌, refl, ap, subst, ◌∙◌, Option, some, List, length,
  get_elem?, store, arith, Bool-cases, inl, inr, store_inside,
}

-- A loop that keeps an invariant returns, and with it.
pub count_up-keeps :
    {S : Type 0} (P : ℕ → S → Type 0) (body : ℕ → S → Option S) (n i : ℕ) (s : S)
    → ((k : ℕ) (t : S) → i ≤ k → k < i + n → P k t → (u : S) × (body k t ≡ some u) × P (suc k) u)
    → P i s
    → (u : S) × (count_up n i body s ≡ some u) × P (i + n) u
unfolding count_up
count_up-keeps P body zero i s keep p = (s, refl, subst (λ k. P k s) (omega arith) p)
count_up-keeps P body (suc n) i s keep p =
    let (t, e, q) = keep i s (omega arith) (omega arith) p in
    let (u, r, k) =
      count_up-keeps P body n (suc i) t (λ k v lo hi. keep k v (omega arith) (omega arith)) q in
    (u, rw e r, subst (λ k. P k u) (omega arith) k)

-- `width` cells, of which those below `upto` hold the values of `f`
pub record Holds (width : ℕ) (f : ℕ → ℕ) (upto : ℕ) (row : List ℕ) : Type 0 where
  pub size : length row ≡ width
  pub cells : (j : ℕ) → j < upto → get_elem? row j ≡ some (f j)

-- One more cell is known.
pub extend :
    (width : ℕ) (f : ℕ → ℕ) (k : ℕ) (row : List ℕ)
    → Holds width f k row
    → get_elem? row k ≡ some (f k)
    → Holds width f (suc k) row
extend width f k row h at = record { size = h.size; cells = cells }
  where
    cells : (j : ℕ) → j < suc k → get_elem? row j ≡ some (f j)
    cells j below = elim (Bool-cases (j == k)) [
      | inl same ↦ let s : j ≡ k = ground arith in rw s at
      | inr other ↦ h.cells j (ground arith)
    ]

pub store-Holds :
    (width : ℕ) (f : ℕ → ℕ) (k : ℕ) (row : List ℕ) (v : ℕ)
    → Holds width f k row
    → k < width
    → v ≡ f k
    → (filled : List ℕ) × (store row k v ≡ some filled) × Holds width f (suc k) filled
store-Holds width f k row v h inside e =
    let (filled, stored, n, at, keep) = store_inside row k v (omega (arith, h.size)) in
    let kept : Holds width f k filled = record {
      size = n ∙ h.size;
      cells = λ j below. keep j (omega arith) ∙ h.cells j below;
    } in
    (filled, stored, extend width f k filled kept (at ∙ ap some e))
