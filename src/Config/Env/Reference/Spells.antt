-- ===== src/Config/Env/Reference/Spells.antt =====
-- internal/config/env.go: a text is read as a reference exactly if it is the text of one.
use alertloop.Config.Env.Reference.{
  starts_name, in_name, name_run, up_to_brace, after_name, named, env_ref,
}
use alertloop.Base.{
  ℕ, ◌≡◌, ◌≢◌, ◌↔◌, inl, inr, refl, ap, ◌∙◌, true, false, Option, none, some, [], ◌∷◌, ◌++◌, Text,
  runes, All, arith, Bool-cases,
}

-- what follows the name, and the text of a reference
abbrev pub print_default : Option Text → Text
print_default none = runes "}"
print_default (some t) = runes ":-" ++ (t ++ runes "}")

abbrev pub print_ref : Text × Option Text → Text
print_ref (name, d) = runes "${" ++ (name ++ print_default d)

-- a name of the shape [A-Za-z_][A-Za-z0-9_]*
abbrev pub IsName : Text → Type 0
IsName [] = ⊥
IsName (c ∷ s) = (starts_name c ≡ true) × All (λ d. in_name d ≡ true) s

abbrev pub IsDefault : Option Text → Type 0
IsDefault none = Unit
IsDefault (some t) = All (λ c. c ≢ 125) t

name_run-split :
    (s : Text) → (s ≡ (name_run s).0 ++ (name_run s).1) × All (λ d. in_name d ≡ true) (name_run s).0
unfolding name_run
name_run-split [] = (refl, tt)
name_run-split (c ∷ s) =
    let (e, h) = name_run-split s in
    elim (Bool-cases (in_name c)) [
      | inl t ↦ rw t (ap (λ r. c ∷ r) e, (t, h))
      | inr f ↦ rw f (refl, tt)
    ]

up_to_brace-split :
    (s t : Text) → up_to_brace s ≡ some t → (s ≡ t ++ runes "}") × All (λ c. c ≢ 125) t
unfolding up_to_brace
up_to_brace-split [] t h = cc
up_to_brace-split (c ∷ []) [] h = ground arith
up_to_brace-split (c ∷ []) (d ∷ t) h = ground arith
up_to_brace-split (c ∷ d ∷ s) [] h = ground (arith)
up_to_brace-split (c ∷ d ∷ s) (e ∷ t) h = ground (arith, up_to_brace-split (d ∷ s) t)

-- the other way
up_to_brace-print : (t : Text) → All (λ c. c ≢ 125) t → up_to_brace (t ++ runes "}") ≡ some t
unfolding up_to_brace
up_to_brace-print [] h = refl
up_to_brace-print (c ∷ []) h = ground arith
up_to_brace-print (c ∷ d ∷ s) h = ground (arith, up_to_brace-print (d ∷ s) h.1)

-- a name ends where a rune stands that no name has
name_run-append :
    (n : Text) (c : ℕ) (r : Text)
    → All (λ d. in_name d ≡ true) n
    → in_name c ≡ false
    → name_run (n ++ (c ∷ r)) ≡ (n, c ∷ r)
unfolding name_run
name_run-append [] c r h f = rw f
name_run-append (d ∷ n) c r h f = rw (h.0, name_run-append n c r h.1 f)

after_name-split :
    (n r : Text) (m : Text) (d : Option Text)
    → after_name n r ≡ some (m, d)
    → (m ≡ n) × (r ≡ print_default d) × IsDefault d
unfolding after_name
after_name-split n [] m d h = cc
after_name-split n (c ∷ []) m none h = ground arith
after_name-split n (c ∷ []) m (some t) h = ground arith
after_name-split n (c ∷ e ∷ s) m none h = ground arith
after_name-split n (c ∷ e ∷ s) m (some t) h = ground (arith, up_to_brace-split s t)

after_name-print :
    (n : Text) (d : Option Text) → IsDefault d → after_name n (print_default d) ≡ some (n, d)
unfolding after_name
after_name-print n none h = refl
after_name-print n (some t) h = rw (up_to_brace-print t h)

in_name_closing : in_name 125 ≡ false
unfolding in_name
in_name_closing = refl

in_name_colon : in_name 58 ≡ false
unfolding in_name
in_name_colon = refl

named-split :
    (s n : Text) (d : Option Text)
    → named s ≡ some (n, d)
    → (s ≡ n ++ print_default d) × IsName n × IsDefault d
unfolding named
named-split [] n d h = cc
named-split (c ∷ s) n d h = elim (Bool-cases (starts_name c)) [
  | inl t ↦
      let (e, run) = name_run-split s in
      let (m, r, k) = after_name-split (c ∷ (name_run s).0) (name_run s).1 n d (rw t at h) in
      rw m (ap (λ z. c ∷ z) (e ∙ ap (λ z. (name_run s).0 ++ z) r), (t, run), k)
  | inr f ↦ cc
]

named-print :
    (n : Text) (d : Option Text)
    → IsName n
    → IsDefault d
    → named (n ++ print_default d) ≡ some (n, d)
unfolding named
named-print [] d h k = absurd h
named-print (c ∷ n) none h k = rw (h.0, name_run-append n 125 [] h.1 (in_name_closing)) refl
named-print (c ∷ n) (some t) h k =
    rw (h.0, name_run-append n 58 _ h.1 in_name_colon) (after_name-print (c ∷ n) (some t) k)

sound :
    (s n : Text) (d : Option Text)
    → env_ref s ≡ some (n, d)
    → (s ≡ print_ref (n, d)) × IsName n × IsDefault d
unfolding env_ref
sound [] n d h = cc
sound (c ∷ []) n d h = cc
sound (c ∷ e ∷ s) n d h = ground (arith, named-split s n d)

-- A text is read as a reference to a name with a default, or none, exactly if it is the text of
-- that reference, the name has the shape of one and the default has no closing brace.
pub env_ref_iff :
    (s n : Text) (d : Option Text)
    → (env_ref s ≡ some (n, d)) ↔ ((s ≡ print_ref (n, d)) × IsName n × IsDefault d)
unfolding env_ref
env_ref_iff s n d = (sound s n d, λ h. rw h.0 (named-print n d h.1 h.2))
