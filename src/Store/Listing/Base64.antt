-- ===== src/Store/Listing/Base64.antt =====
-- encoding/base64's RawURLEncoding, which the cursors are written in.
use alertloop.Base.{
  ℕ, ◌+◌, ◌-◌, ◌*◌, ◌/◌, ◌%◌, ◌<◌, ltb, leb, ◌==◌, Bool, true, false, ◌&&◌, ◌||◌, Option, none,
  some, List, [], ◌∷◌, Text, ◌≡◌, refl, arith, ap, if◌then◌else◌,
}

-- six bits as a character
unfoldable pub to_char : ℕ → ℕ
to_char n =
    if ltb n 26
    then n + 65
    else if ltb n 52
    then n + 71
    else if ltb n 62
    then n - 4
    else if n == 62
    then b'-'
    else b'_'

unfoldable pub from_char : ℕ → Option ℕ
from_char c =
    if leb 65 c && leb c 90
    then some (c - 65)
    else if leb 97 c && leb c 122
    then some (c - 71)
    else if leb 48 c && leb c 57
    then some (c + 4)
    else if c == b'-'
    then some 62
    else if c == b'_'
    then some 63
    else none

-- the bytes in groups of six bits
unfoldable pub split_octets : List ℕ → List ℕ
split_octets [] = []
split_octets (a ∷ []) = (a / 4) ∷ (a % 4 * 16) ∷ []
split_octets (a ∷ b ∷ []) = (a / 4) ∷ (a % 4 * 16 + b / 16) ∷ (b % 16 * 4) ∷ []
split_octets (a ∷ b ∷ c ∷ l) =
    (a / 4) ∷ (a % 4 * 16 + b / 16) ∷ (b % 16 * 4 + c / 64) ∷ (c % 64) ∷ split_octets l

unfoldable pub characters : List ℕ → Text
unfolding to_char
characters [] = []
characters (n ∷ l) = to_char n ∷ characters l

unfoldable pub encode : List ℕ → Text
unfolding characters split_octets
encode l = characters (split_octets l)

unfoldable pub cons_some : Option ℕ → Option (List ℕ) → Option (List ℕ)
cons_some (some x) (some l) = some (x ∷ l)
cons_some _ _ = none

-- the six bits of the characters; line breaks are skipped
unfoldable pub sextets : Text → Option (List ℕ)
unfolding from_char cons_some
sextets [] = some []
sextets (c ∷ s) =
    let rest = sextets s in if c == 10 || c == 13 then rest else cons_some (from_char c) rest

unfoldable pub join_two : ℕ → ℕ → Option (List ℕ) → Option (List ℕ)
join_two a b none = none
join_two a b (some l) = some (a ∷ b ∷ l)

unfoldable pub join_three : ℕ → ℕ → ℕ → Option (List ℕ) → Option (List ℕ)
join_three a b c none = none
join_three a b c (some l) = some (a ∷ b ∷ c ∷ l)

unfoldable pub octets : List ℕ → Option (List ℕ)
unfolding join_three
octets [] = some []
octets (x ∷ []) = none
octets (x ∷ y ∷ []) = some ((x * 4 + y / 16) ∷ [])
octets (x ∷ y ∷ z ∷ []) = some ((x * 4 + y / 16) ∷ (y % 16 * 16 + z / 4) ∷ [])
octets (x ∷ y ∷ z ∷ w ∷ l) =
    join_three (x * 4 + y / 16) (y % 16 * 16 + z / 4) (z % 4 * 64 + w) (octets l)

unfoldable pub decode : Text → Option (List ℕ)
unfolding sextets octets
decode s = elim (sextets s) [ none ↦ none | some l ↦ octets l ]

unfoldable pub all_bytes : List ℕ → Bool
all_bytes [] = true
all_bytes (a ∷ l) = ltb a 256 && all_bytes l

unfoldable pub all_sextets : List ℕ → Bool
all_sextets [] = true
all_sextets (n ∷ l) = ltb n 64 && all_sextets l

from_char-to_char : (n : ℕ) → n < 64 → from_char (to_char n) ≡ some n
unfolding from_char to_char
from_char-to_char n h = ground arith

no_break : (n : ℕ) → n < 64 → (to_char n == 10 || to_char n == 13) ≡ false
unfolding to_char
no_break n h = ground arith

sextets-characters : (l : List ℕ) → all_sextets l ≡ true → sextets (characters l) ≡ some l
unfolding sextets characters cons_some all_sextets
sextets-characters [] h = refl
sextets-characters (n ∷ l) h =
    let small : n < 64 = ground (arith, h) in
    ground (arith, h, no_break n small, from_char-to_char n small, sextets-characters l)

split_octets-small : (l : List ℕ) → all_bytes l ≡ true → all_sextets (split_octets l) ≡ true
unfolding split_octets all_bytes all_sextets
split_octets-small [] h = refl
split_octets-small (a ∷ []) h = ground (arith, h)
split_octets-small (a ∷ b ∷ []) h = ground (arith, h)
split_octets-small (a ∷ b ∷ c ∷ l) h = ground (arith, h, split_octets-small l)

first_octet : (a b : ℕ) → b < 256 → a / 4 * 4 + (a % 4 * 16 + b / 16) / 16 ≡ a
first_octet a b h = omega arith

second_octet :
    (a b c : ℕ)
    → b < 256
    → c < 256
    → (a % 4 * 16 + b / 16) % 16 * 16 + (b % 16 * 4 + c / 64) / 4 ≡ b
second_octet a b c h g = omega arith

third_octet : (b c : ℕ) → c < 256 → (b % 16 * 4 + c / 64) % 4 * 64 + c % 64 ≡ c
third_octet b c h = omega arith

octets-split : (l : List ℕ) → all_bytes l ≡ true → octets (split_octets l) ≡ some l
unfolding octets split_octets all_bytes join_three
octets-split [] h = refl
octets-split (a ∷ []) h = ap (λ x. some (x ∷ [])) (omega arith)
octets-split (a ∷ b ∷ []) h =
    let small : b < 256 = ground (arith, h) in
    let second : (a % 4 * 16 + b / 16) % 16 * 16 + b % 16 * 4 / 4 ≡ b = omega arith in
    simp (first_octet a b small, second)
octets-split (a ∷ b ∷ c ∷ l) h =
    let b_small : b < 256 = ground (arith, h) in
    let c_small : c < 256 = ground (arith, h) in
    simp (
      octets-split l (ground (arith, h)),
      first_octet a b b_small,
      second_octet a b c b_small c_small,
      third_octet b c c_small,
    )

pub decode-encode : (l : List ℕ) → all_bytes l ≡ true → decode (encode l) ≡ some l
unfolding decode encode
decode-encode l h =
    rw (sextets-characters (split_octets l) (split_octets-small l h), decode) (octets-split l h)
