-- ===== src/Config/Env/Distance/Osa.antt =====
-- internal/config/env.go: the optimal string alignment distance by its recursion on prefixes.
use alertloop.Config.Env.Distance.{least}
use alertloop.Base.{ℕ, zero, suc, ◌+◌, min, ◌==◌, Bool, false, ◌&&◌, Text, if◌then◌else◌, get_or}

module _ (a b : Text) where
  -- whether the bytes before `i + 1` and `j + 1` are the same two, swapped
  abbrev pub swapped : ℕ → ℕ → Bool
  swapped (suc i) (suc j) =
      (get_or a (suc i) 0 == get_or b j 0) && (get_or a i 0 == get_or b (suc j) 0)
  swapped _ _ = false

  -- The distance of the first `i` bytes of `a` from the first `j` bytes of `b`. The default of
  -- `get_or` is not reached up to the lengths.
  unfoldable pub osa : ℕ → ℕ → ℕ
  osa zero j = j
  osa (suc i) zero = suc i
  osa (suc (suc i)) (suc (suc j)) =
      let plain =
        least (get_or a (suc i) 0) (get_or b (suc j) 0) (osa (suc i) (suc (suc j)))
          (osa (suc (suc i)) (suc j)) (osa (suc i) (suc j)) in
      if swapped (suc i) (suc j) then min plain (osa i j + 1) else plain
  osa (suc i) (suc j) =
      least (get_or a i 0) (get_or b j 0) (osa i (suc j)) (osa (suc i) j) (osa i j)
