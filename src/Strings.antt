-- ===== src/Strings.antt =====
-- What the code uses of Go's strings package, over runes.
use alertloop.Base.{
  ℕ, ◌+◌, ltb, leb, ◌==◌, Bool, true, false, ◌&&◌, ◌||◌, [], ◌∷◌, Text, text_eq, if◌then◌else◌,
}

-- unicode.IsSpace
unfoldable pub is_space : ℕ → Bool
is_space c =
    (leb 9 c && leb c 13)
    || c == 32
    || c == 0x85
    || c == 0xa0
    || c == 0x1680
    || (leb 0x2000 c && leb c 0x200a)
    || c == 0x2028
    || c == 0x2029
    || c == 0x202f
    || c == 0x205f
    || c == 0x3000

unfoldable pub trim_left : Text → Text
unfolding is_space
trim_left [] = []
trim_left (c ∷ s) = let rest = trim_left s in if is_space c then rest else c ∷ s

-- `s`, already trimmed on the right, behind the rune `c`
keep_last : ℕ → Text → Text
unfolding is_space
keep_last c [] = if is_space c then [] else c ∷ []
keep_last c (d ∷ t) = c ∷ d ∷ t

unfoldable pub trim_right : Text → Text
unfolding keep_last
trim_right [] = []
trim_right (c ∷ s) = keep_last c (trim_right s)

unfoldable pub trim_space : Text → Text
unfolding trim_left trim_right
trim_space s = trim_right (trim_left s)

-- strings.TrimRight with a cutset of one rune
keep_unless : ℕ → ℕ → Text → Text
keep_unless cut c [] = if c == cut then [] else c ∷ []
keep_unless cut c (d ∷ t) = c ∷ d ∷ t

unfoldable pub trim_right_of : ℕ → Text → Text
unfolding keep_unless
trim_right_of cut [] = []
trim_right_of cut (c ∷ s) = keep_unless cut c (trim_right_of cut s)

unfoldable pub has_prefix : Text → Text → Bool
has_prefix s [] = true
has_prefix [] (d ∷ t) = false
has_prefix (c ∷ s) (d ∷ t) = c == d && has_prefix s t

-- strings.Contains
unfoldable pub contains_text : Text → Text → Bool
unfolding has_prefix
contains_text [] t = has_prefix [] t
contains_text (c ∷ s) t = has_prefix (c ∷ s) t || contains_text s t

-- strings.HasSuffix
unfoldable pub has_suffix : Text → Text → Bool
unfolding text_eq
has_suffix [] t = text_eq [] t
has_suffix (c ∷ s) t = text_eq (c ∷ s) t || has_suffix s t

-- unicode.ToLower; `table` is Unicode's lower-case mapping, which is read for runes beyond ASCII alone.
unfoldable pub lower_rune : (ℕ → ℕ) → ℕ → ℕ
lower_rune table c = if ltb c 128 then (if leb 65 c && leb c 90 then c + 32 else c) else table c

unfoldable pub to_lower : (ℕ → ℕ) → Text → Text
unfolding lower_rune
to_lower table [] = []
to_lower table (c ∷ s) = lower_rune table c ∷ to_lower table s
