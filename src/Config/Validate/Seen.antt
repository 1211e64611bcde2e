-- ===== src/Config/Validate/Seen.antt =====
-- internal/config/config.go: lists of names, and the loops of Validate over them.
use alertloop.Base.{
  Bool, true, false, not, ◌&&◌, ◌||◌, some, List, [], ◌∷◌, ◌++◌, map, Has, ◌≡◌, refl, ap, arith,
  Text, text_eq, text_eq_refl, text_eq_iff, is_empty, if◌then◌else◌, inl, inr,
}
use alertloop.Routing.Matcher.{text_in}
use alertloop.Config.Validate.{
  fallback_name, check_names, fallbacks_ok, put_fallback, add_fallback, add_all,
}

unfoldable pub names_of : {A : Type 0} → List (Text × A) → List Text
names_of {A} l = map (λ (p : Text × A). p.0) l

-- no name comes twice
unfoldable pub distinct : List Text → Bool
unfolding text_in
distinct [] = true
distinct (n ∷ l) = not (text_in l n) && distinct l

pub map-append : {A B : Type 0} (f : A → B) (l m : List A) → map f (l ++ m) ≡ map f l ++ map f m
map-append f [] m = refl
map-append f (x ∷ l) m = ap (λ r. f x ∷ r) (map-append f l m)

pub Has-text_in :
    {A : Type 0} (n : Text) (v : A) (l : List (Text × A))
    → Has (n, v) l
    → text_in (names_of l) n ≡ true
unfolding text_in names_of
Has-text_in n v [] h = elim h [ ]
Has-text_in n v ((m, w) ∷ l) (inl e) = ground (arith, ap (λ p. p.0) e, text_eq_refl n)
Has-text_in n v ((m, w) ∷ l) (inr h) = ground (arith, Has-text_in n v l h)

-- what the loops see: the names, besides those that they started with
pub check_names-seen :
    (l : List (Text × Bool)) (seen out : List Text) (n : Text)
    → check_names l seen ≡ some out
    → text_in out n ≡ (text_in (names_of l) n || text_in seen n)
unfolding check_names names_of text_in
check_names-seen [] seen out n h = cc
check_names-seen ((name, complete) ∷ l) seen out n h =
    ground (arith, check_names-seen l (name ∷ seen) out n)

pub check_names-fresh :
    (l : List (Text × Bool)) (seen out : List Text) (n : Text)
    → check_names l seen ≡ some out
    → text_in seen n ≡ true
    → text_in (names_of l) n ≡ false
unfolding check_names names_of text_in
check_names-fresh [] seen out n h k = refl
check_names-fresh ((name, complete) ∷ l) seen out n h k =
    ground (arith, check_names-fresh l (name ∷ seen) out n, text_eq_iff name n)

pub check_names-distinct :
    (l : List (Text × Bool)) (seen out : List Text)
    → check_names l seen ≡ some out
    → distinct (names_of l) ≡ true
unfolding check_names names_of distinct text_in
check_names-distinct [] seen out h = refl
check_names-distinct ((name, complete) ∷ l) seen out h = ground (
  arith,
  check_names-fresh l (name ∷ seen) out name,
  check_names-distinct l (name ∷ seen) out,
  text_eq_refl name,
)

pub fallback_name-put :
    (name fb n : Text) (m : List (Text × Text))
    → fallback_name (put_fallback name fb m) n ≡ (if text_eq name n then fb else fallback_name m n)
unfolding fallback_name put_fallback
fallback_name-put name fb n [] = refl
fallback_name-put name fb n ((k, f) ∷ m) =
    ground (
      arith,
      fallback_name-put name fb n m,
      text_eq_iff name n,
      text_eq_iff k n,
      text_eq_iff k name,
    )

pub fallback_name-add :
    (p : Text × Text) (n : Text) (m : List (Text × Text))
    → text_eq p.0 n ≡ false
    → fallback_name (add_fallback p m) n ≡ fallback_name m n
unfolding add_fallback
fallback_name-add (name, fb) n m h = ground (arith, fallback_name-put name fb n m)

pub fallback_name-add_all :
    (l m : List (Text × Text)) (n : Text)
    → text_in (names_of l) n ≡ false
    → fallback_name (add_all l m) n ≡ fallback_name m n
unfolding add_all names_of text_in
fallback_name-add_all [] m n h = refl
fallback_name-add_all (p ∷ l) m n h =
    ground (arith, fallback_name-add_all l (add_fallback p m) n, fallback_name-add p n m)

pub fallback_name-own :
    (l m : List (Text × Text)) (n fb : Text)
    → distinct (names_of l) ≡ true
    → Has (n, fb) l
    → is_empty fb ≡ false
    → fallback_name (add_all l m) n ≡ fb
unfolding add_all names_of text_in distinct add_fallback
fallback_name-own [] m n fb d h given = elim h [ ]
fallback_name-own ((k, f) ∷ l) m n fb d (inl e) given = ground (
  arith,
  ap (λ p. p.0) e,
  ap (λ p. p.1) e,
  fallback_name-add_all l (add_fallback (k, f) m) n,
  fallback_name-put k f n m,
  text_eq_refl n,
)
fallback_name-own ((k, f) ∷ l) m n fb d (inr h) given =
    ground (arith, fallback_name-own l (add_fallback (k, f) m) n fb, h)

pub fallbacks_ok-name :
    (seen : List Text) (m : List (Text × Text)) (n : Text)
    → fallbacks_ok seen m ≡ true
    → is_empty (fallback_name m n) ≡ false
    → (text_eq (fallback_name m n) n ≡ false) × (text_in seen (fallback_name m n) ≡ true)
unfolding fallbacks_ok fallback_name is_empty
fallbacks_ok-name seen [] n h k = cc
fallbacks_ok-name seen ((name, fb) ∷ m) n h k =
    ground (arith, fallbacks_ok-name seen m n, text_eq_iff name n)
