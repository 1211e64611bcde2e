-- ===== src/Auth/Throttle/Bound.antt =====
-- internal/auth/auth.go: how many pairs Throttle holds.
use alertloop.Base.{
  ℕ, ◌≤◌, ◌<◌, Bool, List, [], ◌∷◌, Text, length, ◌≡◌, refl, arith, select, update, not,
}
use alertloop.Auth.Throttle.{
  Entry, Throttle, max_tracked, new_throttle, is_pair, drop_first, make_room, count_failure, forget,
  fail, succeed, idle,
}

-- an attempt to sign in, as Throttle is told of it
pub data Attempt : Type 0 where
  failure : (now : ℕ) (login ip : Text) → Attempt
  success : (login ip : Text) → Attempt

unfoldable pub attempts : (Throttle → Throttle) → List Attempt → Throttle → Throttle
unfolding fail succeed
attempts order [] t = t
attempts order (failure now login ip ∷ l) t = attempts order l (fail order now login ip t)
attempts order (success login ip ∷ l) t = attempts order l (succeed login ip t)

length-drop_first : (t : Throttle) → length (drop_first t) < max_tracked
unfolding drop_first
length-drop_first [] = omega arith
length-drop_first (e ∷ t) = ground (arith, length-drop_first t)

length-make_room :
    (order : Throttle → Throttle) (now : ℕ) (t : Throttle)
    → length (make_room order now t) < max_tracked
unfolding make_room
length-make_room order now t =
    ground (arith, length-drop_first (order (select (λ e. not (idle now e)) t)))

length-update :
    (p : Entry → Bool) (f : Entry → Entry) (t : Throttle) → length (update p f t) ≡ length t
unfolding update
length-update p f [] = refl
length-update p f (e ∷ t) = ground (arith, length-update p f t)

length-select_le : (p : Entry → Bool) (t : Throttle) → length (select p t) ≤ length t
unfolding select
length-select_le p [] = omega arith
length-select_le p (e ∷ t) = ground (arith, length-select_le p t)

length-fail :
    (order : Throttle → Throttle) (now : ℕ) (login ip : Text) (t : Throttle)
    → length t ≤ max_tracked
    → length (fail order now login ip t) ≤ max_tracked
unfolding fail
length-fail order now login ip t h = ground (
  arith,
  length-make_room order now t,
  length-update (is_pair login ip) (λ x. count_failure now (forget now x)) t,
)

length-attempts :
    (order : Throttle → Throttle) (l : List Attempt) (t : Throttle)
    → length t ≤ max_tracked
    → length (attempts order l t) ≤ max_tracked
unfolding attempts succeed
length-attempts order [] t h = h
length-attempts order (failure now login ip ∷ l) t h =
    length-attempts order l (fail order now login ip t) (length-fail order now login ip t h)
length-attempts order (success login ip ∷ l) t h =
    length-attempts order l (succeed login ip t)
      (ground (arith, length-select_le (λ e. not (is_pair login ip e)) t))

-- From the start, and after any attempts, Throttle holds at most 10000 pairs, in whatever order
-- the map is visited.
pub tracked_bounded :
    (order : Throttle → Throttle) (l : List Attempt)
    → length (attempts order l new_throttle) ≤ max_tracked
tracked_bounded order l = length-attempts order l new_throttle (omega arith)
