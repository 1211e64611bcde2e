-- ===== src/Store/Listing/Walk.antt =====
-- internal/storage/sql_store.go: the cursors of a listing lead through all its rows.
use alertloop.Base.{
  ℕ, zero, suc, ◌≤◌, ◌<◌, ltb, Bool, true, ◌&&◌, Option, none, some, List, [], ◌∷◌, ◌++◌, length,
  take, select, ◌≡◌, refl, sym, ap, ◌∙◌, arith, if◌then◌else◌, Bool-cases, inl, inr,
}
use alertloop.Store.Listing.Pages.{
  Key, below, newest_first, last_key, after_cursor, fetched, page_of, follow, with_rest,
}
use alertloop.Store.Listing.Order.{
  below_trans, below_asym, below_irrefl, all_below, sorted, keys_differ, sorted-select,
  newest_first-sorted, select-newest_first, keys_differ-select,
}

drop : {A : Type 0} → ℕ → List A → List A
drop zero l = l
drop (suc n) [] = []
drop (suc n) (x ∷ l) = drop n l

take-drop : {A : Type 0} (n : ℕ) (l : List A) → take n l ++ drop n l ≡ l
unfolding drop
take-drop zero l = refl
take-drop (suc n) [] = refl
take-drop (suc n) (x ∷ l) = ap (λ r. x ∷ r) (take-drop n l)

take-take-suc : {A : Type 0} (n : ℕ) (l : List A) → take n (take (suc n) l) ≡ take n l
take-take-suc zero l = refl
take-take-suc (suc n) [] = refl
take-take-suc (suc n) (x ∷ l) = ap (λ r. x ∷ r) (take-take-suc n l)

take-all : {A : Type 0} (n : ℕ) (l : List A) → length l ≤ n → take n l ≡ l
take-all zero [] h = refl
take-all zero (x ∷ l) h = ground arith
take-all (suc n) [] h = refl
take-all (suc n) (x ∷ l) h = ap (λ r. x ∷ r) (take-all n l (omega arith))

length-take-suc :
    {A : Type 0} (n : ℕ) (l : List A) → ltb n (length (take (suc n) l)) ≡ ltb n (length l)
length-take-suc zero [] = refl
length-take-suc zero (x ∷ l) = ground arith
length-take-suc (suc n) [] = refl
length-take-suc (suc n) (x ∷ l) = ground (arith, length-take-suc n l)

length-drop_le :
    {A : Type 0} (n : ℕ) (x : A) (l : List A) → length (drop (suc n) (x ∷ l)) ≤ length l
unfolding drop
length-drop_le zero x l = omega arith
length-drop_le (suc n) x [] = omega arith
length-drop_le (suc n) x (y ∷ l) = omega (arith, length-drop_le n y l)

shrinks : {A : Type 0} (n : ℕ) (l : List A) → suc n < length l → length (drop (suc n) l) < length l
shrinks n [] h = omega arith
shrinks n (x ∷ l) h = omega (arith, length-drop_le n x l)

select-select :
    {A : Type 0} (p q : A → Bool) (l : List A)
    → ((x : A) → p x ≡ true → q x ≡ true)
    → select p (select q l) ≡ select p l
unfolding select
select-select p q [] h = refl
select-select p q (x ∷ l) h = ground (arith, select-select p q l h, h x)

select-and :
    {A : Type 0} (p q : A → Bool) (l : List A) → select (λ x. p x && q x) l ≡ select q (select p l)
unfolding select
select-and p q [] = refl
select-and p q (x ∷ l) = ground (arith, select-and p q l)

module _ {A : Type 0} (key : A → Key) where
  select-all_below :
      (k : Key) (l : List A) → all_below key k l ≡ true → select (after_cursor key (some k)) l ≡ l
  unfolding select all_below after_cursor
  select-all_below k [] h = refl
  select-all_below k (x ∷ l) h = ground (arith, select-all_below k l)

  last_key-below :
      (n : ℕ) (k a : Key) (l : List A)
      → all_below key a l ≡ true
      → last_key key (suc n) l ≡ some k
      → below a k ≡ true
  unfolding all_below last_key
  last_key-below n k a [] h e = cc
  last_key-below zero k a (x ∷ l) h e = ground (arith, h, e)
  last_key-below (suc n) k a (x ∷ l) h e = last_key-below n k a l (ground (arith, h)) e

  -- what is below the last of the first n rows is the rest
  select-last_key :
      (n : ℕ) (k : Key) (l : List A)
      → sorted key l ≡ true
      → last_key key (suc n) l ≡ some k
      → select (after_cursor key (some k)) l ≡ drop (suc n) l
  unfolding select sorted last_key after_cursor drop
  select-last_key n k [] s e = cc
  select-last_key zero k (x ∷ l) s e = ground (arith, e, select-all_below k l, below_irrefl (key x))
  select-last_key (suc n) k (x ∷ l) s e =
      ground (arith, e, select-last_key n k l, below_asym (key x) k, last_key-below n k (key x) l)

  last_key-some :
      (n : ℕ) (l : List A) → n < length l → (k : Key) × (last_key key (suc n) l ≡ some k)
  unfolding last_key
  last_key-some n [] h = ground arith
  last_key-some zero (x ∷ l) h = (key x, refl)
  last_key-some (suc n) (x ∷ l) h = last_key-some n l (omega arith)

  last_key-take :
      (n : ℕ) (l : List A) → last_key key (suc n) (take (suc (suc n)) l) ≡ last_key key (suc n) l
  unfolding last_key
  last_key-take n [] = refl
  last_key-take zero (x ∷ l) = refl
  last_key-take (suc n) (x ∷ l) = last_key-take n l

  all_below-after :
      (c : Key) (l : List A) → all_below key c (select (after_cursor key (some c)) l) ≡ true
  unfolding all_below select after_cursor
  all_below-after c [] = refl
  all_below-after c (x ∷ l) = ground (arith, all_below-after c l)

  -- what is below the last row of a page was left when the page was read
  after-last :
      (n : ℕ) (k : Key) (cursor : Option Key) (l : List A)
      → last_key key (suc n) (select (after_cursor key cursor) l) ≡ some k
      → (x : A) → after_cursor key (some k) x ≡ true
      → after_cursor key cursor x ≡ true
  unfolding after_cursor
  after-last n k none l e x h = refl
  after-last n k (some c) l e x h =
      below_trans c k (key x)
        (last_key-below n k c (select (after_cursor key (some c)) l) (all_below-after c l) e) h

  -- all rows that pass the filter, in the order of the listing
  unfoldable pub listed : (A → Bool) → List A → List A
  unfolding newest_first select
  listed p rows = newest_first key (select p rows)

  left : (A → Bool) → Option Key → List A → List A
  left p cursor rows = select (after_cursor key cursor) (listed p rows)

  fetched-left :
      (p : A → Bool) (limit : ℕ) (cursor : Option Key) (rows : List A)
      → keys_differ key rows ≡ true
      → fetched key p limit cursor rows ≡ take (suc limit) (left p cursor rows)
  unfolding fetched left listed
  fetched-left p limit cursor rows h =
      ap (λ l. take (suc limit) l)
        (ap (newest_first key) (select-and p (after_cursor key cursor) rows)
          ∙ select-newest_first key (after_cursor key cursor) (select p rows)
              (keys_differ-select key p rows h))

  left-last :
      (n : ℕ) (k : Key) (p : A → Bool) (cursor : Option Key) (rows : List A)
      → keys_differ key rows ≡ true
      → last_key key (suc n) (left p cursor rows) ≡ some k
      → left p (some k) rows ≡ drop (suc n) (left p cursor rows)
  unfolding left listed
  left-last n k p cursor rows h e =
      let s = newest_first key (select p rows) in
      let order = newest_first-sorted key (select p rows) (keys_differ-select key p rows h) in
      sym (
        select-select (after_cursor key (some k)) (after_cursor key cursor) s
          (after-last n k cursor s e))
      ∙ select-last_key n k (select (after_cursor key cursor) s)
          (sorted-select key (after_cursor key cursor) s order) e

  page_of-take :
      (n : ℕ) (l : List A)
      → page_of key (suc n) (take (suc (suc n)) l)
        ≡ (if ltb (suc n) (length l) then (take (suc n) l, last_key key (suc n) l) else (l, none))
  unfolding page_of
  page_of-take n l = elim (Bool-cases (ltb (suc n) (length l))) [
    | inl more ↦
        rw (length-take-suc (suc n) l, more, take-take-suc (suc n) l, last_key-take n l) refl
    | inr last ↦
        rw (length-take-suc (suc n) l, last, take-all (suc (suc n)) l (ground (arith, last))) refl
  ]

  follow-left :
      (n fuel : ℕ) (p : A → Bool) (cursor : Option Key) (rows : List A)
      → keys_differ key rows ≡ true
      → length (left p cursor rows) < fuel
      → follow key fuel p (suc n) cursor rows ≡ left p cursor rows
  unfolding follow with_rest
  follow-left n zero p cursor rows h f = ground arith
  follow-left n (suc fuel) p cursor rows h f =
      let l = left p cursor rows in
      let page =
        ap (page_of key (suc n)) (fetched-left p (suc n) cursor rows h) ∙ page_of-take n l in
      let next : Key → List A = λ k. follow key fuel p (suc n) (some k) rows in
      ap (λ q. with_rest key q next) page ∙ elim (Bool-cases (ltb (suc n) (length l))) [
        | inr last ↦ rw last refl
        | inl more ↦
            let (k, e) = last_key-some n l (ground (arith, more)) in
            let rest = left-last n k p cursor rows h e in
            let shorter : length (left p (some k) rows) < fuel =
              rw rest (omega (arith, shrinks n l (ground (arith, more)), f)) in
            let tail = follow-left n fuel p (some k) rows h shorter ∙ rest in
            rw (more, e) (ap (λ r. take (suc n) l ++ r) tail ∙ take-drop (suc n) l)
      ]

  select-every : (l : List A) → select (after_cursor key none) l ≡ l
  unfolding select after_cursor
  select-every [] = refl
  select-every (x ∷ l) = ap (λ r. x ∷ r) (select-every l)

  -- Following the cursors from the first page, in pages of one row or more, shows every row that
  -- passes the filter, each once and newest first, if no two rows have the same time of creation
  -- and id, and as many pages are read as there are rows, and one more.
  pub follow-listed :
      (limit fuel : ℕ) (p : A → Bool) (rows : List A)
      → 1 ≤ limit
      → keys_differ key rows ≡ true
      → length (listed p rows) < fuel
      → follow key fuel p limit none rows ≡ listed p rows
  unfolding left
  follow-listed zero fuel p rows some_limit h f = ground arith
  follow-listed (suc n) fuel p rows some_limit h f =
      let same = select-every (listed p rows) in follow-left n fuel p none rows h (rw same f) ∙ same
