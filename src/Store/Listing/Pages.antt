-- ===== src/Store/Listing/Pages.antt =====
-- internal/storage/sql_store.go: the pages of a listing, newest first, and what following their
-- cursors shows. A row's key is the time of its creation and its id.
use alertloop.Base.{
  ℕ, zero, suc, ◌==◌, ltb, Bool, true, ◌&&◌, ◌||◌, Option, none, some, List, [], ◌∷◌, ◌++◌, length,
  take, select, if◌then◌else◌,
}

abbrev pub Key : Type 0
Key = ℕ × ℕ

-- (created_at < ? OR (created_at = ? AND id < ?))
unfoldable pub below : Key → Key → Bool
below (t, i) (u, j) = ltb u t || (u == t && ltb j i)

module _ {A : Type 0} (key : A → Key) where
  -- ORDER BY created_at DESC, id DESC
  unfoldable pub place : A → List A → List A
  unfolding below
  place x [] = x ∷ []
  place x (y ∷ l) = let rest = place x l in if below (key x) (key y) then x ∷ y ∷ l else y ∷ rest

  unfoldable pub newest_first : List A → List A
  unfolding place
  newest_first [] = []
  newest_first (x ∷ l) = place x (newest_first l)

  -- the key of the last of the first n rows
  unfoldable pub last_key : ℕ → List A → Option Key
  last_key n [] = none
  last_key zero (x ∷ l) = none
  last_key (suc zero) (x ∷ l) = some (key x)
  last_key (suc (suc n)) (x ∷ l) = last_key (suc n) l

  unfoldable pub after_cursor : Option Key → A → Bool
  unfolding below
  after_cursor none x = true
  after_cursor (some k) x = below k (key x)

  -- the rows of the query, of which there is one more than the page shows if more are left
  unfoldable pub fetched : (A → Bool) → ℕ → Option Key → List A → List A
  unfolding select newest_first after_cursor
  fetched p limit cursor rows =
      take (suc limit) (newest_first (select (λ x. p x && after_cursor cursor x) rows))

  -- the page and its next cursor
  unfoldable pub page_of : ℕ → List A → List A × Option Key
  unfolding last_key
  page_of limit items =
      if ltb limit (length items) then (take limit items, last_key limit items) else (items, none)

  -- the page, and what its cursor leads to
  unfoldable pub with_rest : List A × Option Key → (Key → List A) → List A
  with_rest (items, none) f = items
  with_rest (items, some k) f = items ++ f k

  -- the pages that the cursors lead through
  unfoldable pub follow : ℕ → (A → Bool) → ℕ → Option Key → List A → List A
  unfolding page_of fetched with_rest
  follow zero p limit cursor rows = []
  follow (suc n) p limit cursor rows =
      with_rest (page_of limit (fetched p limit cursor rows)) (λ k. follow n p limit (some k) rows)
