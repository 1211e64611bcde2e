-- ===== src/Domain/Truncate.antt =====
-- internal/domain/text.go: TruncateRunes over the runes of a text.
use alertloop.Base.{
  ℕ, zero, suc, ◌+◌, ◌≤◌, min, ◌≡◌, refl, ap, [], ◌∷◌, Text, length, take, arith, leb, ◌==◌,
  if◌then◌else◌,
}

-- the loop `for i := range s`: `before` is the count of runes passed
cut_at : ℕ → ℕ → Text → Text
cut_at n count [] = []
cut_at n count (c ∷ s) = let rest = cut_at n (suc count) s in if count == n then [] else c ∷ rest

unfoldable pub truncate_runes : Text → ℕ → Text
unfolding cut_at
truncate_runes s n = if n == 0 then [] else if leb (length s) n then s else cut_at n 0 s

abbrev pub max_last_error_runes : ℕ
max_last_error_runes = 1000

take_all : (s : Text) (n : ℕ) → length s ≤ n → take n s ≡ s
take_all [] zero h = refl
take_all [] (suc n) h = refl
take_all (c ∷ s) zero h = absurd (omega arith)
take_all (c ∷ s) (suc n) h = ap (λ (t : Text). c ∷ t) (take_all s n (omega arith))

cut_at-eq-take : (k count n : ℕ) (s : Text) → n ≡ k + count → cut_at n count s ≡ take k s
unfolding cut_at
cut_at-eq-take zero count n [] e = refl
cut_at-eq-take (suc k) count n [] e = refl
cut_at-eq-take zero count n (c ∷ s) e = ground arith
cut_at-eq-take (suc k) count n (c ∷ s) e = ground (arith, cut_at-eq-take k (suc count) n s)

-- TruncateRunes keeps exactly the first n runes, whichever of its three exits it takes.
pub truncate_runes-eq-take : (s : Text) (n : ℕ) → truncate_runes s n ≡ take n s
unfolding truncate_runes
truncate_runes-eq-take s zero = refl
truncate_runes-eq-take s (suc n) =
    ground (arith, take_all s (suc n), cut_at-eq-take (suc n) 0 (suc n) s)

length-take : (n : ℕ) (s : Text) → length (take n s) ≡ min n (length s)
length-take zero s = omega arith
length-take (suc n) [] = omega arith
length-take (suc n) (c ∷ s) = omega (arith, length-take n s)

-- The result holds at most n runes.
pub length-truncate_runes : (s : Text) (n : ℕ) → length (truncate_runes s n) ≤ n
length-truncate_runes s n = rw truncate_runes-eq-take (omega (arith, length-take n s))
