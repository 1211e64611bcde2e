-- ===== src/Store/Listing/Order.antt =====
-- internal/storage/sql_store.go: ORDER BY on keys that differ, and a condition before or after it.
use alertloop.Base.{
  ◌==◌, Bool, true, false, not, ◌&&◌, ◌||◌, List, [], ◌∷◌, select, any, ◌≡◌, refl, ap, ◌∙◌, arith,
  if◌then◌else◌, Bool-cases, inl, inr,
}
use alertloop.Store.Listing.Pages.{Key, below, place, newest_first}

pub below_trans : (a b c : Key) → below a b ≡ true → below b c ≡ true → below a c ≡ true
unfolding below
below_trans (t, i) (u, j) (v, k) h g = ground arith

pub below_asym : (a b : Key) → below a b ≡ true → below b a ≡ false
unfolding below
below_asym (t, i) (u, j) h = ground arith

pub below_irrefl : (a : Key) → below a a ≡ false
unfolding below
below_irrefl (t, i) = ground arith

unfoldable pub same_key : Key → Key → Bool
same_key (t, i) (u, j) = t == u && i == j

below-total : (a b : Key) → same_key a b ≡ false → below a b ≡ false → below b a ≡ true
unfolding below same_key
below-total (t, i) (u, j) h g = ground arith

module _ {A : Type 0} (key : A → Key) where
  unfoldable pub all_below : Key → List A → Bool
  all_below k [] = true
  all_below k (x ∷ l) = below k (key x) && all_below k l

  -- each row is below those in front of it
  unfoldable pub sorted : List A → Bool
  unfolding all_below
  sorted [] = true
  sorted (x ∷ l) = all_below (key x) l && sorted l

  unfoldable pub has_key : Key → A → Bool
  unfolding same_key
  has_key k x = same_key k (key x)

  -- no two rows have the same key
  unfoldable pub keys_differ : List A → Bool
  unfolding any has_key
  keys_differ [] = true
  keys_differ (x ∷ l) = not (any (has_key (key x)) l) && keys_differ l

  all_below_trans :
      (a b : Key) (l : List A) → below a b ≡ true → all_below b l ≡ true → all_below a l ≡ true
  unfolding all_below
  all_below_trans a b [] h g = refl
  all_below_trans a b (x ∷ l) h g = ground (arith, below_trans a b (key x), all_below_trans a b l)

  all_below-place :
      (k : Key) (x : A) (l : List A)
      → below k (key x) ≡ true
      → all_below k l ≡ true
      → all_below k (place key x l) ≡ true
  unfolding all_below place
  all_below-place k x [] h g = ground (arith, h)
  all_below-place k x (y ∷ l) h g = ground (arith, h, all_below-place k x l)

  sorted-place :
      (x : A) (l : List A)
      → any (has_key (key x)) l ≡ false
      → sorted l ≡ true
      → sorted (place key x l) ≡ true
  unfolding sorted place any has_key
  sorted-place x [] h g = refl
  sorted-place x (y ∷ l) h g = elim (Bool-cases (below (key x) (key y))) [
    | inl first ↦ ground (arith, first, all_below_trans (key x) (key y) l)
    | inr later ↦
        ground
          (arith, later, below-total (key x) (key y), all_below-place (key y) x l, sorted-place x l)
  ]

  all_below-select :
      (k : Key) (q : A → Bool) (l : List A) → all_below k l ≡ true → all_below k (select q l) ≡ true
  unfolding all_below select
  all_below-select k q [] h = refl
  all_below-select k q (x ∷ l) h = ground (arith, all_below-select k q l)

  pub sorted-select : (q : A → Bool) (l : List A) → sorted l ≡ true → sorted (select q l) ≡ true
  unfolding sorted select
  sorted-select q [] h = refl
  sorted-select q (x ∷ l) h = ground (arith, sorted-select q l, all_below-select (key x) q l)

  place-top : (x : A) (l : List A) → all_below (key x) l ≡ true → place key x l ≡ x ∷ l
  unfolding all_below place
  place-top x [] h = refl
  place-top x (y ∷ l) h = ground arith

  select-place :
      (q : A → Bool) (x : A) (l : List A)
      → sorted l ≡ true
      → select q (place key x l) ≡ (if q x then place key x (select q l) else select q l)
  unfolding select sorted place
  select-place q x [] h = ground arith
  select-place q x (y ∷ l) h = elim (Bool-cases (below (key x) (key y))) [
    | inl first ↦
        let below_rest : all_below (key x) (y ∷ l) ≡ true =
          ground (arith, first, all_below_trans (key x) (key y) l) in
        let top = place-top x (select q (y ∷ l)) (all_below-select (key x) q (y ∷ l) below_rest) in
        ground (arith, first, top)
    | inr later ↦ ground (arith, later, select-place q x l)
  ]

  any-select : (p q : A → Bool) (l : List A) → any p l ≡ false → any p (select q l) ≡ false
  unfolding any select
  any-select p q [] h = refl
  any-select p q (x ∷ l) h = ground (arith, any-select p q l)

  any-place : (p : A → Bool) (x : A) (l : List A) → any p (place key x l) ≡ (p x || any p l)
  unfolding any place
  any-place p x [] = refl
  any-place p x (y ∷ l) = ground (arith, any-place p x l)

  any-newest_first : (p : A → Bool) (l : List A) → any p (newest_first key l) ≡ any p l
  unfolding any newest_first
  any-newest_first p [] = refl
  any-newest_first p (x ∷ l) =
      any-place p x (newest_first key l) ∙ ap (λ b. p x || b) (any-newest_first p l)

  pub keys_differ-select :
      (q : A → Bool) (l : List A) → keys_differ l ≡ true → keys_differ (select q l) ≡ true
  unfolding keys_differ select
  keys_differ-select q [] h = refl
  keys_differ-select q (x ∷ l) h =
      ground (arith, keys_differ-select q l, any-select (has_key (key x)) q l)

  pub newest_first-sorted : (l : List A) → keys_differ l ≡ true → sorted (newest_first key l) ≡ true
  unfolding newest_first keys_differ sorted
  newest_first-sorted [] h = refl
  newest_first-sorted (x ∷ l) h =
      sorted-place x (newest_first key l) (any-newest_first (has_key (key x)) l ∙ ground (arith, h))
        (newest_first-sorted l (ground (arith, h)))

  pub select-newest_first :
      (q : A → Bool) (l : List A)
      → keys_differ l ≡ true
      → newest_first key (select q l) ≡ select q (newest_first key l)
  unfolding newest_first select keys_differ
  select-newest_first q [] h = refl
  select-newest_first q (x ∷ l) h =
      let rest = select-newest_first q l (ground (arith, h)) in
      let put = select-place q x (newest_first key l) (newest_first-sorted l (ground (arith, h))) in
      ground (arith, rest, put)
