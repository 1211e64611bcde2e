-- ===== src/Base/Counts.antt =====
-- Counting the elements that pass a test, and what update and select do to a predicate.
use Prim.Native.Nat.{ℕ, ◌+◌}
use mathlib.Core.Path.{◌≡◌, refl}
use mathlib.Core.Bool.{Bool, true, false}
use mathlib.Core.List.{List, [], ◌∷◌}
use native.Mathlib.Omega.{arith}
use alertloop.Base.Tests.{if◌then◌else◌}
use mathlib.Core.Option.{none}
use alertloop.Base.Lists.{find, select, update, All, length}

module _ {ℓ} {A : Type ℓ} where
  unfoldable pub count : (A → Bool) → List A → ℕ
  count p [] = 0
  count p (x ∷ xs) = (if p x then 1 else 0) + count p xs

  -- After an update, no row passes its test, if no updated row does.
  pub All-update_none :
      (p : A → Bool) (f : A → A) (l : List A)
      → ((x : A) → p (f x) ≡ false)
      → All (λ x. p x ≡ false) (update p f l)
  unfolding update
  All-update_none p f [] h = tt
  All-update_none p f (x ∷ l) h = (ground (arith, h x), All-update_none p f l h)

  -- An update that keeps the test's answer keeps the count.
  pub count-update :
      (q p : A → Bool) (f : A → A) (l : List A)
      → ((x : A) → q (f x) ≡ q x)
      → count q (update p f l) ≡ count q l
  unfolding count update
  count-update q p f [] h = refl
  count-update q p f (x ∷ l) h = ground (arith, h x, count-update q p f l h)

  pub All-select : (p : A → Bool) (l : List A) → All (λ x. p x ≡ true) (select p l)
  unfolding select
  All-select p [] = tt
  All-select p (x ∷ l) = ground (arith, All-select p l)

  pub length-select : (p : A → Bool) (l : List A) → length (select p l) ≡ count p l
  unfolding select count
  length-select p [] = refl
  length-select p (x ∷ l) = ground (arith, length-select p l)

  pub count-none : (l : List A) → count (λ _. false) l ≡ 0
  unfolding count
  count-none [] = refl
  count-none (x ∷ l) = omega (arith, count-none l)

  -- An update that finds no row changes none.
  pub update-none : (p : A → Bool) (f : A → A) (l : List A) → find p l ≡ none → update p f l ≡ l
  unfolding update find
  update-none p f [] h = refl
  update-none p f (x ∷ l) h = ground (arith, update-none p f l)
