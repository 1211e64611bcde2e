-- ===== src/Worker/Scheduler.antt =====
-- internal/delivery/worker.go: the slots of the worker.
pub mod Slots
pub mod Fill
pub mod Enough
use alertloop.Domain.Errors.{Result, ok, err}
use alertloop.Base.{
  Bool, not, ◌&&◌, ◌++◌, ℕ, zero, suc, ◌-◌, ltb, leb, true, false, List, [], ◌∷◌, Text, text_eq,
  length, min, max, if◌then◌else◌,
}
use alertloop.Domain.Delivery.{DeliveryAttempt}
use alertloop.Store.Session.{try, M, pure, ◌>>=◌, now}
use alertloop.Store.Claim.{claim_due}

-- inFlight: the sends running on each channel
abbrev pub InFlight : Type 0
InFlight = List (Text × ℕ)

pub record Scheduler : Type 0 where
  pub in_flight : InFlight
  pub total : ℕ

-- inFlight[name]++
unfoldable pub increment : Text → InFlight → InFlight
unfolding text_eq
increment name [] = (name, 1) ∷ []
increment name ((n, k) ∷ l) =
    let rest = increment name l in if text_eq n name then (n, suc k) ∷ l else (n, k) ∷ rest

-- inFlight[name]--, and the delete of a channel with none left
unfoldable pub decrement : Text → InFlight → InFlight
unfolding text_eq
decrement name [] = []
decrement name ((n, k) ∷ l) =
    let rest = decrement name l in
    if text_eq n name then (if leb k 1 then l else (n, k - 1) ∷ l) else (n, k) ∷ rest

-- the channels at their limit
unfoldable pub skipped : ℕ → InFlight → List Text
skipped limit [] = []
skipped limit ((n, k) ∷ l) = let rest = skipped limit l in if leb limit k then n ∷ rest else rest

-- the most sends on a channel below the limit
unfoldable pub busiest : ℕ → InFlight → ℕ
busiest limit [] = 0
busiest limit ((n, k) ∷ l) = let rest = busiest limit l in if leb limit k then rest else max k rest

-- the loop over the claimed attempts
unfoldable pub start : List DeliveryAttempt → Scheduler → Scheduler
unfolding increment
start [] s = s
start (a ∷ l) s =
    start l (record s { in_flight = increment a.channel_name s.in_flight; total = suc s.total })

unfoldable pub finished : Text → Scheduler → Scheduler
unfolding decrement
finished name s = record s { in_flight = decrement name s.in_flight; total = s.total - 1 }

-- how many attempts a claim asks for
unfoldable pub wanted : ℕ → ℕ → Scheduler → ℕ
unfolding busiest
wanted concurrency limit s = min (concurrency - s.total) (limit - busiest limit s.in_flight)

-- How a call of `fill` ends: the scheduler, the attempts started, and whether a claim failed.
pub record Filled : Type 0 where
  pub scheduler : Scheduler
  pub started : List DeliveryAttempt
  pub claim_failed : Bool

abbrev pub ended : Scheduler → List DeliveryAttempt → Bool → M Filled
ended s started failed = pure (record { scheduler = s; started = started; claim_failed = failed })

-- one ClaimDue, for the free slots and the channels below their limit
unfoldable pub claim : ℕ → ℕ → Scheduler → M (Result (List DeliveryAttempt))
unfolding wanted skipped
claim concurrency limit s = do
  at ← now
  try (claim_due at (wanted concurrency limit s) (skipped limit s.in_flight))

-- what a claim's answer leads to: the end of the loop, or `again`
unfoldable pub after_claim :
    (Scheduler → List DeliveryAttempt → M Filled)
    → ℕ
    → ℕ
    → Scheduler
    → List DeliveryAttempt
    → Result (List DeliveryAttempt)
    → M Filled
after_claim again concurrency limit s started (err _) = ended s started true
after_claim again concurrency limit s started (ok claimed) =
    elim (ltb (length claimed) (wanted concurrency limit s)) [
      | true ↦ ended (start claimed s) (started ++ claimed) false
      | false ↦ again (start claimed s) (started ++ claimed)
    ]

-- `stopped` is whether the worker was told to stop, by the number of attempts started. Each round
-- claims at least one attempt, or ends the loop, so `concurrency` rounds are enough fuel.
unfoldable pub fill : ℕ → ℕ → ℕ → (ℕ → Bool) → Scheduler → List DeliveryAttempt → M Filled
fill zero concurrency limit stopped s started = ended s started false
fill (suc fuel) concurrency limit stopped s started =
    elim (ltb s.total concurrency && not (stopped (length started))) [
      | false ↦ ended s started false
      | true ↦ do
        r ← claim concurrency limit s
        after_claim (fill fuel concurrency limit stopped) concurrency limit s started r
    ]
