-- ===== src/Config/Env/Suggest/Sorted.antt =====
-- internal/config/env.go: sortedKeys keeps the keys.
use alertloop.Config.Env.Suggest.{text_before, sorted_keys, insert_key}
use alertloop.Base.{◌≡◌, ◌⊎◌, inl, inr, List, [], ◌∷◌, Text, Has, Bool-cases}

Has-insert_key : (k x : Text) (l : List Text) → Has x (insert_key k l) → (x ≡ k) ⊎ Has x l
unfolding insert_key
Has-insert_key k x [] (inl e) = inl e
Has-insert_key k x [] (inr h) = absurd h
Has-insert_key k x (j ∷ l) h = elim (Bool-cases (text_before j k)) [
  | inl t ↦ later (Has-insert_key k x l) (rw (t) at h)
  | inr f ↦ elim (rw f at h) [ inl e ↦ inl e | inr m ↦ inr m ]
]
  where
    later :
        (Has x (insert_key k l) → (x ≡ k) ⊎ Has x l)
        → (x ≡ j) ⊎ Has x (insert_key k l)
        → (x ≡ k) ⊎ ((x ≡ j) ⊎ Has x l)
    later call (inl e) = inr (inl e)
    later call (inr m) = elim (call m) [ inl e ↦ inl e | inr i ↦ inr (inr i) ]

insert_key-Has : (k x : Text) (l : List Text) → (x ≡ k) ⊎ Has x l → Has x (insert_key k l)
unfolding insert_key
insert_key-Has k x [] h = h
insert_key-Has k x (j ∷ l) h = elim (Bool-cases (text_before j k)) [
  | inl t ↦ rw t (later (insert_key-Has k x l) h)
  | inr f ↦ rw f h
]
  where
    later :
        ((x ≡ k) ⊎ Has x l → Has x (insert_key k l))
        → (x ≡ k) ⊎ ((x ≡ j) ⊎ Has x l)
        → (x ≡ j) ⊎ Has x (insert_key k l)
    later call (inl e) = inr (call (inl e))
    later call (inr (inl e)) = inl e
    later call (inr (inr m)) = inr (call (inr m))

pub Has-sorted_keys : (x : Text) (l : List Text) → Has x (sorted_keys l) → Has x l
unfolding sorted_keys
Has-sorted_keys x [] h = h
Has-sorted_keys x (k ∷ l) h = elim (Has-insert_key k x (sorted_keys l) h) [
  | inl e ↦ inl e
  | inr m ↦ inr (Has-sorted_keys x l m)
]

pub sorted_keys-Has : (x : Text) (l : List Text) → Has x l → Has x (sorted_keys l)
unfolding sorted_keys
sorted_keys-Has x (k ∷ l) (inl e) = insert_key-Has k x (sorted_keys l) (inl e)
sorted_keys-Has x (k ∷ l) (inr m) = insert_key-Has k x (sorted_keys l) (inr (sorted_keys-Has x l m))
sorted_keys-Has x [] h = absurd h
