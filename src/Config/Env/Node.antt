-- ===== src/Config/Env/Node.antt =====
-- internal/config/env.go: what the code reads of a yaml.Node, and the names of keys. An alias stands
-- for the node of its anchor; an anchor that leads back into itself is left out, and one that stands
-- in a key or in what a merge key brings in.
use alertloop.Base.{
  ℕ, ◌==◌, Bool, true, false, [], ◌∷◌, ◌++◌, Text, runes, text_eq, any, if◌then◌else◌, ◌||◌, ◌&&◌,
}

-- Tag, Line and Style
pub record Mark : Type 0 where
  pub tag : Text
  pub line : ℕ
  pub style : ℕ

-- A document is a sequence of one node: the code treats them alike.
mutual
  pub data Node : Type 0 where
    scalar : Text → Mark → Node
    mapping : Mark → Pairs → Node
    sequence : Mark → Nodes → Node
    alias : Mark → Node → Node

  pub data Nodes : Type 0 where
    nil : Nodes
    cons : Node → Nodes → Nodes

  pub data Pairs : Type 0 where
    end : Pairs
    pair : Node → Node → Pairs → Pairs

unfoldable pub mark_of : Node → Mark
mark_of (scalar v m) = m
mark_of (mapping m ps) = m
mark_of (sequence m ns) = m
mark_of (alias m n) = m

unfoldable pub is_merge : Node → Bool
unfolding mark_of text_eq
is_merge key = text_eq (mark_of key).tag (runes "!!merge")

unfoldable pub is_scalar : Node → Bool
is_scalar (scalar v m) = true
is_scalar _ = false

unfoldable pub has_dot : Text → Bool
unfolding any
has_dot s = any (λ c. c == 46) s

-- The text of a key, and whether it is a plain name.
unfoldable pub key_name : Node → Text × Bool
unfolding has_dot
key_name (scalar [] m) = (34 ∷ 34 ∷ [], false)
key_name (scalar (c ∷ s) m) = if has_dot (c ∷ s) then (c ∷ s, false) else (c ∷ s, true)
key_name _ = (runes "<non-scalar key>", false)

unfoldable pub join_path : Text → Text → Text
join_path [] name = name
join_path (c ∷ prefix) name = (c ∷ prefix) ++ (46 ∷ name)

unfoldable pub is_yaml_null : Text → Bool
unfolding text_eq
is_yaml_null s =
    text_eq s (runes "~")
    || text_eq s (runes "null")
    || text_eq s (runes "Null")
    || text_eq s (runes "NULL")

-- resolveScalar
unfoldable pub resolve_scalar : Mark → Text → Bool → Node
unfolding is_yaml_null
resolve_scalar m v from_variable =
    scalar v
      (record m { tag = if from_variable && is_yaml_null v then runes "!!str" else []; style = 0 })
