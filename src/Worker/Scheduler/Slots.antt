-- ===== src/Worker/Scheduler/Slots.antt =====
-- The slots: what a claim may add keeps every channel within its limit and the worker within its
-- concurrency.
use alertloop.Base.{
  ℕ, suc, ◌+◌, ◌-◌, ◌≤◌, leb, true, false, List, [], ◌∷◌, ◌≡◌, ap, ◌∙◌, arith, All, length, ◌⊎◌,
  inl, inr, Text, text_eq, text_eq_iff, text_eq_refl, Bool-cases, max,
}
use alertloop.Domain.Delivery.{DeliveryAttempt}
use alertloop.Store.Rows.{contains}
use alertloop.Worker.Scheduler.{InFlight, Scheduler, increment, skipped, busiest, start, wanted}

unfoldable pub running : InFlight → ℕ
running [] = 0
running ((n, k) ∷ l) = k + running l

abbrev pub WithinLimit : ℕ → InFlight → Type 0
WithinLimit limit = All (λ p. (1 ≤ p.1) × (p.1 ≤ limit))

-- What holds of the scheduler between two of its steps.
pub record Slots (concurrency limit : ℕ) (s : Scheduler) : Type 0 where
  pub within_concurrency : s.total ≤ concurrency
  pub within_limit : WithinLimit limit s.in_flight
  pub counted : running s.in_flight ≡ s.total

-- a channel that may take k more, or that no claim may touch
abbrev Fits : ℕ → ℕ → List Text → (Text × ℕ) → Type 0
Fits k limit skip p = (1 ≤ p.1) × ((p.1 + k ≤ limit) ⊎ ((contains skip p.0 ≡ true) × (p.1 ≤ limit)))

Room : ℕ → ℕ → List Text → InFlight → Type 0
Room k limit skip = All (Fits k limit skip)

weaken :
    (k j limit : ℕ) (skip : List Text) (l : InFlight)
    → j ≤ k
    → Room k limit skip l
    → Room j limit skip l
unfolding Room
weaken k j limit skip [] h r = tt
weaken k j limit skip ((n, m) ∷ l) h r =
    ((ground arith, ground arith), weaken k j limit skip l h r.1)

increment-Room :
    (k limit : ℕ) (skip : List Text) (name : Text) (l : InFlight)
    → suc k ≤ limit
    → contains skip name ≡ false
    → Room (suc k) limit skip l
    → Room k limit skip (increment name l)
unfolding increment Room
increment-Room k limit skip name [] h c r = ground arith
increment-Room k limit skip name ((n, m) ∷ l) h c r = elim (Bool-cases (text_eq n name)) [
  | inl same ↦
      let open_channel = ap (contains skip) ((text_eq_iff n name).0 same) ∙ c in
      rw same ((omega arith, ground arith), weaken (suc k) k limit skip l (omega arith) r.1)
  | inr other ↦ rw other ((ground arith, ground arith), increment-Room k limit skip name l h c r.1)
]

running-increment : (name : Text) (l : InFlight) → running (increment name l) ≡ suc (running l)
unfolding running increment
running-increment name [] = omega arith
running-increment name ((n, m) ∷ l) = ground (arith, running-increment name l)

Room-WithinLimit :
    (k limit : ℕ) (skip : List Text) (l : InFlight) → Room k limit skip l → WithinLimit limit l
unfolding Room
Room-WithinLimit k limit skip [] r = tt
Room-WithinLimit k limit skip ((n, m) ∷ l) r =
    ((ground arith, ground arith), Room-WithinLimit k limit skip l r.1)

-- A row of a channel that the claim may touch.
abbrev pub Allowed : List Text → List DeliveryAttempt → Type 0
Allowed skip = All (λ a. contains skip a.channel_name ≡ false)

start-Room :
    (limit : ℕ) (skip : List Text) (rows : List DeliveryAttempt) (s : Scheduler) (k : ℕ)
    → k + length rows ≤ limit
    → Allowed skip rows
    → Room (k + length rows) limit skip s.in_flight
    → Room k limit skip (start rows s).in_flight
unfolding start
start-Room limit skip [] s k h c r = weaken (k + 0) k limit skip s.in_flight (omega arith) r
start-Room limit skip (a ∷ rows) s k h c r =
    let more : k + suc (length rows) ≡ suc (k + length rows) = omega arith in
    start-Room limit skip rows
      (record s { in_flight = increment a.channel_name s.in_flight; total = suc s.total }) k
      (omega arith) c.1
      (increment-Room (k + length rows) limit skip a.channel_name s.in_flight (omega arith) c.0
        (rw more at r))

start-counts :
    (rows : List DeliveryAttempt) (s : Scheduler)
    → running s.in_flight ≡ s.total
    → ((start rows s).total ≡ s.total + length rows)
      × (running (start rows s).in_flight ≡ s.total + length rows)
unfolding start
start-counts [] s h = omega arith
start-counts (a ∷ rows) s h = omega (
  arith,
  running-increment a.channel_name s.in_flight,
  start-counts rows
      (record s { in_flight = increment a.channel_name s.in_flight; total = suc s.total })
      (omega (arith, running-increment a.channel_name s.in_flight)),
)

contains-here : (n : Text) (l : List Text) → contains (n ∷ l) n ≡ true
unfolding contains
contains-here n l = ground (arith, text_eq_refl n)

contains-there : (m n : Text) (l : List Text) → contains l n ≡ true → contains (m ∷ l) n ≡ true
unfolding contains
contains-there m n l h = ground arith

-- The room that the busiest channel leaves, for every channel that is not skipped.
skipped-Room :
    (limit b : ℕ) (skip : List Text) (l : InFlight)
    → busiest limit l ≤ b
    → ((n : Text) → contains (skipped limit l) n ≡ true → contains skip n ≡ true)
    → WithinLimit limit l
    → b ≤ limit
    → Room (limit - b) limit skip l
unfolding skipped busiest Room
skipped-Room limit b skip [] h c w le = tt
skipped-Room limit b skip ((n, k) ∷ l) h c w le = elim (Bool-cases (leb limit k)) [
  | inl full ↦
      let c' = rw full at c in
      (
        (w.0.0, inr (c' n (contains-here n (skipped limit l)), w.0.1)),
        skipped-Room limit b skip l (rw full at h)
            (λ m t. c' m (contains-there n m (skipped limit l) t)) w.1 le,
      )
  | inr free ↦
      let h' : max k (busiest limit l) ≤ b = rw free at h in
      ((w.0.0, inl (omega arith)), skipped-Room limit b skip l (omega arith) (rw free at c) w.1 le)
]

busiest-le : (limit : ℕ) (l : InFlight) → busiest limit l ≤ limit
unfolding busiest
busiest-le limit [] = omega arith
busiest-le limit ((n, k) ∷ l) = ground (arith, busiest-le limit l)

-- Starting at most the attempts that a claim asks for, on the channels that it does not skip,
-- keeps the bounds on the running sends.
pub start-Slots :
    (concurrency limit : ℕ) (s : Scheduler) (rows : List DeliveryAttempt)
    → Slots concurrency limit s
    → length rows ≤ wanted concurrency limit s
    → Allowed (skipped limit s.in_flight) rows
    → Slots concurrency limit (start rows s)
unfolding wanted
start-Slots concurrency limit s rows v few allowed =
    let b = busiest limit s.in_flight in
    let skip = skipped limit s.in_flight in
    let room =
      skipped-Room limit b skip s.in_flight (omega arith) (λ n t. t) v.within_limit
        (busiest-le limit s.in_flight) in
    let room' = weaken (limit - b) (0 + length rows) limit skip s.in_flight (omega arith) room in
    let counts = start-counts rows s v.counted in
    record {
      within_concurrency = omega arith;
      within_limit = Room-WithinLimit 0 limit skip (start rows s).in_flight (
          start-Room limit skip rows s 0 (omega (arith, busiest-le limit s.in_flight)) allowed
            room');
      counted = omega arith;
    }
