-- ===== src/Config/Env/Examples.antt =====
-- A file with a reference, an alias and a key that is misspelt, and the theorems on it.
use alertloop.Base.{
  ℕ, ◌≡◌, ◌↔◌, refl, true, Option, none, some, [], ◌∷◌, Text, runes, text_eq, if◌then◌else◌, arith,
  replicate,
}
use alertloop.Config.Env.Reference.{env_ref}
use alertloop.Config.Env.Reference.Spells.{print_ref, IsName, IsDefault, env_ref_iff}
use alertloop.Config.Env.Node.{Mark, Node, scalar, mapping, sequence, nil, cons, end, pair}
use alertloop.Config.Env.Substitute.{substitute_env}
use alertloop.Config.Env.Substitute.Unmet.{unmet, substitute_env-unmet}
use alertloop.Config.Env.Substitute.Filled.{Filled, substitute_env-Filled}
use alertloop.Config.Env.Substitute.Secret.{BothSet, substitute_env-secret}
use alertloop.Config.Env.Distance.{edit_distance}
use alertloop.Config.Env.Distance.Osa.{osa}
use alertloop.Config.Env.Distance.Rows.{edit_distance-eq-osa}
use alertloop.Config.Env.Suggest.{suggest_nearby}
use alertloop.Config.Env.Suggest.Nearest.{IsNearest, suggest_nearby-IsNearest}
use alertloop.Config.Env.Keys.{Schema, check_unknown_keys}
use alertloop.Config.Env.Keys.Known.{AllKnown, check_unknown_keys_iff}

abbrev tally : ℕ → Text
tally n = replicate n b'i'

abbrev at : ℕ → Mark
at n = record { tag = []; line = n; style = 0 }

abbrev word : ℕ → Text → Node
word n s = scalar s (at n)

abbrev token : Node
token = word 1 (runes "${TOKEN:-none}")

abbrev file : Node
file = sequence (at 1) (
    cons
      (mapping (at 1) (
        pair (word 1 (runes "addr")) (word 1 (runes "${ADDR}")) (
          pair (word 2 (runes "log")) (mapping (at 3) (pair (word 3 (runes "levle")) token end))
            end)))
      nil)

abbrev only_addr : Text → Text → Option Text
only_addr v name = if text_eq name (runes "ADDR") then some v else none

abbrev paths : Schema
paths = record {
  known = runes "addr" ∷ runes "log" ∷ runes "log.level" ∷ [];
  containers = runes "log" ∷ [];
}

-- the reference of the file is one, and its variable fills it
read : env_ref (runes "${TOKEN:-none}") ≡ some (runes "TOKEN", some (runes "none"))
unfolding env_ref
read = refl

filled : (substitute_env tally (only_addr (runes "h")) file).2 ≡ none
unfolding substitute_env text_eq
filled = refl

swap : edit_distance (runes "tsl") (runes "tls") ≡ some 1
unfolding edit_distance
swap = refl

guess : suggest_nearby (runes "log.levle") paths.known ≡ some (runes "log.level")
unfolding suggest_nearby
guess = refl

env_ref_iff_example : (env_ref (runes "${A:-b}") ≡ some (runes "A", some (runes "b"))) ↔ (
    (runes "${A:-b}" ≡ print_ref (runes "A", some (runes "b")))
    × IsName (runes "A")
    × IsDefault (some (runes "b")))
env_ref_iff_example = env_ref_iff (runes "${A:-b}") (runes "A") (some (runes "b"))

substitute_env-unmet_example :
    ((substitute_env tally (only_addr (runes "h")) file).2 ≡ none)
    ↔ (unmet (only_addr (runes "h")) file ≡ 0)
substitute_env-unmet_example = substitute_env-unmet (only_addr (runes "h")) tally file

substitute_env-Filled_example :
    Filled (only_addr (runes "h")) file (substitute_env tally (only_addr (runes "h")) file).0
substitute_env-Filled_example = substitute_env-Filled (only_addr (runes "h")) tally file filled

same : (name : Text) → BothSet (only_addr (runes "one") name) (only_addr (runes "other") name)
same name = ground arith

substitute_env-secret_example :
    ((substitute_env tally (only_addr (runes "one")) file).1
      ≡ (substitute_env tally (only_addr (runes "other")) file).1)
    × ((substitute_env tally (only_addr (runes "one")) file).2
        ≡ (substitute_env tally (only_addr (runes "other")) file).2)
substitute_env-secret_example =
    substitute_env-secret tally (only_addr (runes "one")) (only_addr (runes "other")) same file

edit_distance-eq-osa_example :
    edit_distance (runes "tsl") (runes "tls") ≡ some (osa (runes "tsl") (runes "tls") 3 3)
edit_distance-eq-osa_example = edit_distance-eq-osa (runes "tsl") (runes "tls")

suggest_nearby-IsNearest_example :
    (k : Text) × (suggest_nearby (runes "log.levle") paths.known ≡ some k)
    × IsNearest (runes "log.levle") paths.known k
suggest_nearby-IsNearest_example = suggest_nearby-IsNearest (runes "log.levle") paths.known

check_unknown_keys_iff_example :
    (check_unknown_keys tally paths file ≡ none) ↔ AllKnown paths file [] true
check_unknown_keys_iff_example = check_unknown_keys_iff paths tally file
