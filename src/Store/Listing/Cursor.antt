-- ===== src/Store/Listing/Cursor.antt =====
-- internal/storage/sql_store.go: the cursor of a page, as text.
use alertloop.Base.{
  ℕ, ◌==◌, Bool, true, not, ◌&&◌, Option, none, some, List, [], ◌∷◌, ◌++◌, Text, ◌≡◌, refl, arith,
  if◌then◌else◌,
}
use alertloop.Store.Listing.Base64.{encode, decode, all_bytes, decode-encode}

unfoldable pub encode_cursor : List ℕ → List ℕ → Text
unfolding encode
encode_cursor created_at id = encode (created_at ++ (0 ∷ id))

unfoldable pub before_zero : ℕ → Option (List ℕ × List ℕ) → Option (List ℕ × List ℕ)
before_zero c none = none
before_zero c (some (s, t)) = some (c ∷ s, t)

-- strings.SplitN at the first zero byte; `none` if there is none
unfoldable pub cut_zero : List ℕ → Option (List ℕ × List ℕ)
unfolding before_zero
cut_zero [] = none
cut_zero (c ∷ s) = let rest = cut_zero s in if c == 0 then some ([], s) else before_zero c rest

-- `none` is ErrValidation
unfoldable pub decode_cursor : Text → Option (List ℕ × List ℕ)
unfolding decode cut_zero
decode_cursor cursor = elim (decode cursor) [ none ↦ none | some raw ↦ cut_zero raw ]

unfoldable pub no_zero : List ℕ → Bool
no_zero [] = true
no_zero (c ∷ s) = not (c == 0) && no_zero s

cut_zero-append : (s t : List ℕ) → no_zero s ≡ true → cut_zero (s ++ (0 ∷ t)) ≡ some (s, t)
unfolding cut_zero no_zero before_zero
cut_zero-append [] t h = refl
cut_zero-append (c ∷ s) t h = ground (arith, h, cut_zero-append s t)

bytes_append :
    (s t : List ℕ) → all_bytes s ≡ true → all_bytes t ≡ true → all_bytes (s ++ (0 ∷ t)) ≡ true
unfolding all_bytes
bytes_append [] t h g = ground (arith, g)
bytes_append (c ∷ s) t h g = ground (arith, h, bytes_append s t)

-- A cursor that is written from the bytes of a time, with no zero among them, and of an id is read
-- as these.
pub decode_cursor-encode_cursor :
    (created_at id : List ℕ)
    → all_bytes created_at ≡ true
    → all_bytes id ≡ true
    → no_zero created_at ≡ true
    → decode_cursor (encode_cursor created_at id) ≡ some (created_at, id)
unfolding decode_cursor encode_cursor
decode_cursor-encode_cursor created_at id h g z =
    rw (decode-encode (created_at ++ (0 ∷ id)) (bytes_append created_at id h g), decode_cursor)
      (cut_zero-append created_at id z)
