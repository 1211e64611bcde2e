-- ===== src/Auth/Throttle/Delay.antt =====
-- internal/auth/auth.go: the delay that failures in a row lead to.
use alertloop.Base.{
  ℕ, suc, ◌+◌, ◌-◌, ◌*◌, ◌^◌, ◌≤◌, leb, Bool, true, ◌&&◌, none, some, List, [], ◌∷◌, Text, length,
  ◌≡◌, refl, ap, arith, find, update, Bool-cases, inl, inr, if◌then◌else◌, text_eq_refl,
}
use native.Mathlib.Nat.{pow-le-pow_right}
use alertloop.Auth.Throttle.{
  Entry, Throttle, is_pair, delay, min, count_failure, forget, fail, idle, fresh, wait,
  free_failures, base_delay, max_delay, forget_after,
}

-- the delay after n failures in a row: none for the first five, then doubling from one second up to
-- five minutes
unfoldable pub penalty : ℕ → ℕ
unfolding min
penalty n = if leb n free_failures then 0 else min (base_delay * 2 ^ (n - 6)) max_delay

-- each time is at or after the one before, and no more than an hour after it
unfoldable pub in_row : ℕ → List ℕ → Bool
in_row t [] = true
in_row t (u ∷ l) = leb t u && leb u (t + forget_after) && in_row u l

unfoldable pub last_of : ℕ → List ℕ → ℕ
last_of t [] = t
last_of t (u ∷ l) = last_of u l

-- failures of one pair at these times
unfoldable pub fails : (Throttle → Throttle) → Text → Text → List ℕ → Throttle → Throttle
unfolding fail
fails order login ip [] t = t
fails order login ip (now ∷ l) t = fails order login ip l (fail order now login ip t)

counted : List ℕ → Entry → Entry
unfolding count_failure forget
counted [] e = e
counted (now ∷ l) e = counted l (count_failure now (forget now e))

delay_lem : (n : ℕ) → 6 ≤ n → delay (n - free_failures) ≡ min (base_delay * 2 ^ (n - 6)) max_delay
unfolding delay min
delay_lem n h =
    let same : 2 ^ (n - 5 - 1) ≡ 2 ^ (n - 6) = ap (λ k. 2 ^ k) (omega arith) in
    elim (Bool-cases (leb (n - 5) 20)) [
      | inl early ↦ ground (arith, same, early)
      | inr late ↦
          let big : 2 ^ 20 ≤ 2 ^ (n - 6) =
            pow-le-pow_right {n = 2} (omega arith) {i = 20} {j = n - 6} (ground (arith, late)) in
          ground (arith, big, late)
    ]

-- the entry of a pair while its failures are in a row
Steady : Entry → Type 0
unfolding penalty
Steady e = e.until ≡ (if leb e.failures free_failures then 0 else e.last + penalty e.failures)

step-Steady : (now : ℕ) (e : Entry) → Steady e → Steady (count_failure now e)
unfolding Steady count_failure penalty
step-Steady now e s = ground (arith, delay_lem (suc e.failures))

forget-recent : (now : ℕ) (e : Entry) → now ≤ e.last + forget_after → forget now e ≡ e
unfolding forget idle
forget-recent now e h = ground arith

counted-Steady :
    (l : List ℕ) (e : Entry)
    → in_row e.last l ≡ true
    → Steady e
    → Steady (counted l e)
      × ((counted l e).failures ≡ length l + e.failures)
      × ((counted l e).last ≡ last_of e.last l)
unfolding counted in_row last_of Steady
counted-Steady [] e h s = (s, omega arith, refl)
counted-Steady (now ∷ l) e h s =
    rw (forget-recent now e (ground (arith, h)), counted)
      (let f = count_failure now e in
        let (steady, n, t) = counted-Steady l f (ground (arith, h)) (step-Steady now e s) in
        (steady, omega (arith, n), t))

find-update :
    (login ip : Text) (f : Entry → Entry) (t : Throttle) (e : Entry)
    → ((x : Entry) → is_pair login ip (f x) ≡ is_pair login ip x)
    → find (is_pair login ip) t ≡ some e
    → find (is_pair login ip) (update (is_pair login ip) f t) ≡ some (f e)
unfolding find update
find-update login ip f [] e keeps h = cc
find-update login ip f (x ∷ t) e keeps h =
    ground (arith, keeps x, find-update login ip f t e keeps, ap f)

pair_kept :
    (now : ℕ) (login ip : Text) (x : Entry)
    → is_pair login ip (count_failure now (forget now x)) ≡ is_pair login ip x
unfolding is_pair count_failure forget
pair_kept now login ip x = ground arith

fail-new :
    (order : Throttle → Throttle) (now : ℕ) (login ip : Text) (t : Throttle)
    → find (is_pair login ip) t ≡ none
    → find (is_pair login ip) (fail order now login ip t)
      ≡ some (count_failure now (fresh login ip))
unfolding fail find is_pair count_failure fresh
fail-new order now login ip t h = ground (arith, h, text_eq_refl login, text_eq_refl ip)

fail-known :
    (order : Throttle → Throttle) (now : ℕ) (login ip : Text) (t : Throttle) (e : Entry)
    → find (is_pair login ip) t ≡ some e
    → find (is_pair login ip) (fail order now login ip t) ≡ some (count_failure now (forget now e))
unfolding fail
fail-known order now login ip t e h =
    rw (h, fail)
      (find-update login ip (λ x. count_failure now (forget now x)) t e
        (λ x. pair_kept now login ip x) h)

fails-known :
    (order : Throttle → Throttle) (login ip : Text) (l : List ℕ) (t : Throttle) (e : Entry)
    → find (is_pair login ip) t ≡ some e
    → find (is_pair login ip) (fails order login ip l t) ≡ some (counted l e)
unfolding fails counted
fails-known order login ip [] t e h = h
fails-known order login ip (now ∷ l) t e h =
    fails-known order login ip l (fail order now login ip t) (count_failure now (forget now e))
      (fail-known order now login ip t e h)

wait-Steady :
    (n now : ℕ) (login ip : Text) (t : Throttle) (e : Entry)
    → Steady e
    → e.failures ≡ n
    → e.last ≡ now
    → find (is_pair login ip) t ≡ some e
    → wait now login ip t ≡ penalty n
unfolding Steady wait penalty
wait-Steady n now login ip t e steady fails time known = ground (arith, known)

-- Failures of a pair that is new, each at most an hour after the one before, leave it to wait for
-- nothing up to the fifth, then for a time that doubles from one second up to five minutes.
pub fails-wait :
    (order : Throttle → Throttle) (login ip : Text) (now : ℕ) (l : List ℕ) (t : Throttle)
    → find (is_pair login ip) t ≡ none
    → in_row now l ≡ true
    → wait (last_of now l) login ip (fails order login ip (now ∷ l) t) ≡ penalty (length (now ∷ l))
unfolding wait fails fresh count_failure Steady
fails-wait order login ip now l t new row =
    let first = count_failure now (fresh login ip) in
    let known =
      fails-known order login ip l (fail order now login ip t) first
        (fail-new order now login ip t new) in
    let (steady, n, time) = counted-Steady l first row refl in
    wait-Steady (length (now ∷ l)) (last_of now l) login ip (fails order login ip (now ∷ l) t)
      (counted l first) steady (omega (arith, n)) time known
