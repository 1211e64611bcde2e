-- ===== src/Base/Members.antt =====
-- Members of lists that map, select, take and any make or test.
use mathlib.Core.Option.{some}
use Prim.Native.Nat.{ℕ, zero, suc, ◌+◌, ◌≤◌}
use mathlib.Core.Path.{◌≡◌, refl, ap, subst, ◌∙◌, sym}
use mathlib.Core.Logic.{inl, inr}
use mathlib.Core.Bool.{Bool, true, false, ◌||◌}
use mathlib.Core.List.{List, [], ◌∷◌, map, ◌++◌}
use native.Mathlib.Omega.{arith}
use alertloop.Base.Tests.{if◌then◌else◌, Bool-cases}
use alertloop.Base.Lists.{update, select, any, take, length, Has, find}
use alertloop.Base.Counts.{count}

module _ {A : Type 0} where
  pub Has-select : (p : A → Bool) (x : A) (l : List A) → Has x (select p l) → Has x l × (p x ≡ true)
  unfolding select
  Has-select p x (y ∷ l) h =
      elim (p y)
          as (λ b.
            p y ≡ b
            → Has x (if b then y ∷ select p l else select p l)
            → Has x (y ∷ l) × (p x ≡ true)) [
              | true ↦ λ e m. elim m [
                | inl same ↦ (inl same, ap p same ∙ e)
                | inr later ↦ let (k, t) = Has-select p x l later in (inr k, t)
              ]
              | false ↦ λ e m. let (k, t) = Has-select p x l m in (inr k, t)
            ]
        refl h
  Has-select p x [] h = elim h [ ]

  pub Has-take : (n : ℕ) (x : A) (l : List A) → Has x (take n l) → Has x l
  Has-take zero x l h = elim h [ ]
  Has-take (suc n) x [] h = elim h [ ]
  Has-take (suc n) x (y ∷ l) (inl e) = inl e
  Has-take (suc n) x (y ∷ l) (inr h) = inr (Has-take n x l h)

  pub length-take : (n : ℕ) (l : List A) → length (take n l) ≤ n
  length-take zero l = omega arith
  length-take (suc n) [] = omega arith
  length-take (suc n) (y ∷ l) = omega (arith, length-take n l)

  pub Has-any : (p : A → Bool) (l : List A) → any p l ≡ true → (x : A) × Has x l × (p x ≡ true)
  unfolding any
  Has-any p [] h = cc
  Has-any p (y ∷ l) h = elim (Bool-cases (p y)) [
    | inl e ↦ (y, inl refl, e)
    | inr e ↦ let (x, m, t) = Has-any p l (rw e at h) in (x, inr m, t)
  ]

  pub any-Has : (p : A → Bool) (x : A) (l : List A) → Has x l → p x ≡ true → any p l ≡ true
  unfolding any
  any-Has p x (y ∷ l) (inl e) t = ground (arith, ap p e)
  any-Has p x (y ∷ l) (inr m) t = ground (arith, any-Has p x l m t)
  any-Has p x [] h t = elim h [ ]

  pub count-or-le :
      (p q : A → Bool) (l : List A) → count (λ x. p x || q x) l ≤ count p l + count q l
  unfolding count
  count-or-le p q [] = omega arith
  count-or-le p q (y ∷ l) = ground (arith, count-or-le p q l)

  pub count-any : (p : A → Bool) (l : List A) → any p l ≡ false → count p l ≡ 0
  unfolding count any
  count-any p [] h = refl
  count-any p (y ∷ l) h = ground (arith, count-any p l)

module _ {A B : Type 0} where
  pub Has-map : (f : A → B) (y : B) (l : List A) → Has y (map f l) → (x : A) × Has x l × (y ≡ f x)
  Has-map f y [] h = elim h [ ]
  Has-map f y (x ∷ l) (inl e) = (x, inl refl, e)
  Has-map f y (x ∷ l) (inr m) = let (z, k, e) = Has-map f y l m in (z, inr k, e)

  pub length-map : (f : A → B) (l : List A) → length (map f l) ≡ length l
  length-map f [] = refl
  length-map f (x ∷ l) = ap suc (length-map f l)

module _ {A : Type 0} where
  pub Has-update :
      (p : A → Bool) (f : A → A) (x : A) (l : List A)
      → Has x l
      → p x ≡ true
      → Has (f x) (update p f l)
  unfolding update
  Has-update p f x (y ∷ l) (inl e) t = inl (subst (λ z. f x ≡ (if p z then f z else z)) e (rw t))
  Has-update p f x (y ∷ l) (inr m) t = inr (Has-update p f x l m t)
  Has-update p f x [] h t = elim h [ ]

  -- A row of an updated table is an updated row, or one that the update passed over.
  pub Has-of-update :
      (p : A → Bool) (f : A → A) (x : A) (l : List A)
      → Has x (update p f l)
      → (y : A) × Has y l × (x ≡ (if p y then f y else y))
  unfolding update
  Has-of-update p f x (y ∷ l) (inl e) = (y, inl refl, e)
  Has-of-update p f x (y ∷ l) (inr m) = let (z, k, e) = Has-of-update p f x l m in (z, inr k, e)
  Has-of-update p f x [] h = elim h [ ]

  pub length-snoc : (l : List A) (x : A) → length (l ++ (x ∷ [])) ≡ length l + 1
  length-snoc [] x = refl
  length-snoc (y ∷ l) x = omega (arith, length-snoc l x)

  pub select-Has : (p : A → Bool) (x : A) (l : List A) → Has x l → p x ≡ true → Has x (select p l)
  unfolding select
  select-Has p x [] h t = absurd h
  select-Has p x (y ∷ l) (inl e) t = rw (sym (ap p e) ∙ t) (inl e)
  select-Has p x (y ∷ l) (inr m) t = elim (Bool-cases (p y)) [
    | inl u ↦ rw u (inr (select-Has p x l m t))
    | inr g ↦ rw g (select-Has p x l m t)
  ]

  pub find-Has : (p : A → Bool) (l : List A) (x : A) → find p l ≡ some x → Has x l × (p x ≡ true)
  unfolding find
  find-Has p [] x h = cc
  find-Has p (y ∷ l) x h = elim (Bool-cases (p y)) [
    | inl e ↦
        let same : y ≡ x = cc (rw (e, find) at h) in
        (inl (sym same), subst (λ z. p z ≡ true) same e)
    | inr e ↦ let (m, t) = find-Has p l x (rw (e, find) at h) in (inr m, t)
  ]
