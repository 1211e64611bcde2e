-- ===== src/Auth/Examples.antt =====
-- Failed sign-ins of one pair.
use alertloop.Base.{ℕ, true, none, List, [], ◌∷◌, length, ◌≡◌, refl, runes, find}
use alertloop.Auth.Throttle.{Throttle, wait, is_pair, new_throttle}
use alertloop.Auth.Throttle.Delay.{penalty, in_row, last_of, fails, fails-wait}

abbrev as_is : Throttle → Throttle
as_is t = t

abbrev times : List ℕ
times = 11 ∷ 12 ∷ 13 ∷ 14 ∷ 15 ∷ 16 ∷ []

nothing_yet : find (is_pair (runes "ann") (runes "10.0.0.1")) new_throttle ≡ none
unfolding find
nothing_yet = refl

row_of_times : in_row 10 times ≡ true
unfolding in_row
row_of_times = refl

penalty_7 : penalty 7 ≡ 2000000000
unfolding penalty
penalty_7 = refl

fails-wait_example :
    wait
      (last_of 10 times)
      (runes "ann")
      (runes "10.0.0.1")
      (fails as_is (runes "ann") (runes "10.0.0.1") (10 ∷ times) new_throttle)
    ≡ penalty (length (10 ∷ times))
fails-wait_example =
    fails-wait as_is (runes "ann") (runes "10.0.0.1") 10 times new_throttle nothing_yet row_of_times
