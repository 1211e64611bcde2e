-- ===== src/Config/Env/Reference.antt =====
-- internal/config/env.go: `envRef`, the expression of a reference, written out as the parser that
-- it is: "${", a name, perhaps ":-" and a default with no brace, "}", and nothing else.
pub mod Spells
use alertloop.Base.{
  ℕ, leb, ◌==◌, Bool, true, false, ◌&&◌, ◌||◌, Option, none, some, [], ◌∷◌, ◌++◌, Text, runes,
  if◌then◌else◌,
}

abbrev dollar : ℕ
dollar = 36

abbrev opening : ℕ
opening = 123

abbrev closing : ℕ
closing = 125

abbrev colon : ℕ
colon = 58

abbrev hyphen : ℕ
hyphen = 45

-- [A-Za-z_]
unfoldable pub starts_name : ℕ → Bool
starts_name c = (leb 65 c && leb c 90) || (leb 97 c && leb c 122) || c == 95

-- [A-Za-z0-9_]
unfoldable pub in_name : ℕ → Bool
unfolding starts_name
in_name c = starts_name c || (leb 48 c && leb c 57)

-- the longest run of runes of a name, and what follows it
unfoldable pub name_run : Text → Text × Text
unfolding in_name
name_run [] = ([], [])
name_run (c ∷ s) = let (n, r) = name_run s in if in_name c then (c ∷ n, r) else ([], c ∷ s)

-- the runes up to a brace that ends the text
unfoldable pub up_to_brace : Text → Option Text
up_to_brace [] = none
up_to_brace (c ∷ []) = if c == closing then some [] else none
up_to_brace (c ∷ d ∷ s) =
    let rest = up_to_brace (d ∷ s) in
    if c == closing then none else elim rest [ none ↦ none | some t ↦ some (c ∷ t) ]

-- what follows the name
unfoldable pub after_name : Text → Text → Option (Text × Option Text)
unfolding up_to_brace
after_name name [] = none
after_name name (c ∷ []) = if c == closing then some (name, none) else none
after_name name (c ∷ d ∷ s) =
    if c == colon && d == hyphen
    then elim (up_to_brace s) [ none ↦ none | some t ↦ some (name, some t) ]
    else none

unfoldable pub named : Text → Option (Text × Option Text)
unfolding starts_name name_run after_name
named [] = none
named (c ∷ s) = if starts_name c then (let (n, r) = name_run s in after_name (c ∷ n) r) else none

-- The name and the default, if there is one, of a text that is a reference.
unfoldable pub env_ref : Text → Option (Text × Option Text)
unfolding named
env_ref (c ∷ d ∷ s) = if c == dollar && d == opening then named s else none
env_ref _ = none
