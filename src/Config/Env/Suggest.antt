-- ===== src/Config/Env/Suggest.antt =====
-- internal/config/env.go: suggestKey, on bytes. The map of the known keys is the list of its keys.
pub mod Sorted
pub mod Nearest
use alertloop.Base.{
  ℕ, ◌+◌, ◌/◌, ltb, ◌==◌, Bool, true, false, ◌&&◌, ◌||◌, Option, none, some, List, [], ◌∷◌, Text,
  text_eq, is_empty, find, if◌then◌else◌, length,
}
use alertloop.Config.Env.Node.{has_dot}
use alertloop.Config.Env.Distance.{◌>>=◌, edit_distance}

-- the text before the last dot, and the one after it
unfoldable pub split_path : Text → Text × Text
unfolding has_dot
split_path [] = ([], [])
split_path (c ∷ s) =
    let (parent, name) = split_path s in
    if has_dot s then (c ∷ parent, name) else if c == 46 then ([], s) else ([], c ∷ s)

unfoldable pub edit_budget : Text → ℕ
edit_budget name =
    let budget = length name / 4 in if ltb budget 1 then 1 else if ltb 3 budget then 3 else budget

-- Go's `<` on strings
unfoldable pub text_before : Text → Text → Bool
text_before s [] = false
text_before [] (d ∷ t) = true
text_before (c ∷ s) (d ∷ t) = ltb c d || (c == d && text_before s t)

insert_key : Text → List Text → List Text
unfolding text_before
insert_key k [] = k ∷ []
insert_key k (j ∷ l) = if text_before j k then j ∷ insert_key k l else k ∷ j ∷ l

unfoldable pub sorted_keys : List Text → List Text
unfolding insert_key
sorted_keys [] = []
sorted_keys (k ∷ l) = insert_key k (sorted_keys l)

module _ (parent name : Text) where
  -- the body of the loop: the best key so far and its distance
  unfoldable pub nearer : Text → Text × ℕ → Option (Text × ℕ)
  unfolding split_path edit_distance text_eq
  nearer k (best, distance) =
      if text_eq (split_path k).0 parent
      then (do
        d ← edit_distance name (split_path k).1
        some (if ltb d distance then (k, d) else (best, distance)))
      else some (best, distance)

  unfoldable pub nearest : List Text → Text × ℕ → Option (Text × ℕ)
  unfolding nearer
  nearest [] best = some best
  nearest (k ∷ l) best = nearer k best >>= nearest l

module _ (path : Text) (known : List Text) where
  -- No guess is the empty text.
  unfoldable pub suggest_nearby : Option Text
  unfolding split_path edit_budget nearest sorted_keys
  suggest_nearby = do
    let name = (split_path path).1
    best ← nearest (split_path path).0 name (sorted_keys known) ([], edit_budget name + 1)
    some best.0

  same_name : Text → Bool
  unfolding split_path text_eq
  same_name k = text_eq (split_path k).1 (split_path path).1

  -- the same name in another place, if the nearby search found nothing
  or_elsewhere : Text → Text
  unfolding same_name find sorted_keys
  or_elsewhere [] = elim (find same_name (sorted_keys known)) [ none ↦ [] | some k ↦ k ]
  or_elsewhere (c ∷ best) = c ∷ best

  unfoldable pub suggest_key : Option Text
  unfolding suggest_nearby or_elsewhere
  suggest_key = do best ← suggest_nearby; some (or_elsewhere best)
