-- ===== src/Store/Schema/Keys.antt =====
-- What the constraints of the tables give: an id names one attempt.
use alertloop.Base.{
  ==_iff, ℕ, ◌≤◌, ◌==◌, true, false, List, [], ◌∷◌, ◌≡◌, refl, sym, ap, ◌∙◌, arith, any, Has,
  any-Has, count, count-any, inl, inr, Bool-cases,
}
use alertloop.Domain.Delivery.{DeliveryAttempt}
use alertloop.Store.Schema.{Db, attempts_clash, no_clash, uniques_hold}

-- The attempts of a table whose unique indexes hold.
abbrev pub Distinct : List DeliveryAttempt → Type 0
Distinct l = no_clash attempts_clash l ≡ true

pub uniques_hold-Distinct : (d : Db) → uniques_hold d ≡ true → Distinct d.attempts
unfolding uniques_hold
uniques_hold-Distinct d h = ground arith

same_id_clash :
    (a b : DeliveryAttempt)
    → a.id ≡ b.id
    → (attempts_clash a b ≡ true) × (attempts_clash b a ≡ true)
unfolding attempts_clash
same_id_clash a b e = ground arith

Distinct-head :
    (a : DeliveryAttempt) (l : List DeliveryAttempt)
    → Distinct (a ∷ l)
    → (any (attempts_clash a) l ≡ false) × Distinct l
unfolding no_clash
Distinct-head a l h = ground arith

-- Two members with one id are one row.
pub same_row :
    (a b : DeliveryAttempt) (l : List DeliveryAttempt)
    → Distinct l
    → Has a l
    → Has b l
    → a.id ≡ b.id
    → a ≡ b
same_row a b (x ∷ l) d (inl p) (inl q) e = p ∙ sym q
same_row a b (x ∷ l) d (inl p) (inr k) e =
    let clash =
      any-Has (attempts_clash x) b l k
        (same_id_clash x b (ap (λ (r : DeliveryAttempt). r.id) (sym p) ∙ e)).0 in
    cc (clash, (Distinct-head x l d).0)
same_row a b (x ∷ l) d (inr k) (inl q) e =
    let clash =
      any-Has (attempts_clash x) a l k
        (same_id_clash a x (e ∙ ap (λ (r : DeliveryAttempt). r.id) q)).1 in
    cc (clash, (Distinct-head x l d).0)
same_row a b (x ∷ l) d (inr k) (inr k') e = same_row a b l (Distinct-head x l d).1 k k' e
same_row a b [] d h k e = elim h [ ]

no_more :
    (n : ℕ) (a : DeliveryAttempt) (l : List DeliveryAttempt)
    → a.id ≡ n
    → any (attempts_clash a) l ≡ false
    → any (λ b. b.id == n) l ≡ false
unfolding any attempts_clash
no_more n a [] e h = refl
no_more n a (b ∷ l) e h = ground (arith, no_more n a l e)

-- At most one row has a given id.
pub count-id-le : (n : ℕ) (l : List DeliveryAttempt) → Distinct l → count (λ a. a.id == n) l ≤ 1
unfolding count
count-id-le n [] d = omega arith
count-id-le n (a ∷ l) d =
    let (apart, rest) = Distinct-head a l d in
    elim (Bool-cases (a.id == n)) [
      | inl e ↦
          let one = count-any (λ b. b.id == n) l (no_more n a l ((==_iff a.id n).0 e) apart) in
          ground (arith, one)
      | inr e ↦ ground (arith, count-id-le n l rest)
    ]
