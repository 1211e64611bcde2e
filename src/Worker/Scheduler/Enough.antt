-- ===== src/Worker/Scheduler/Enough.antt =====
-- The fuel of the loop that fills the slots.
use alertloop.Base.{
  ℕ, zero, suc, ◌+◌, ◌≤◌, ◌<◌, ltb, Bool, false, not, ◌&&◌, List, [], ◌∷◌, ◌++◌, ◌≡◌, refl, arith,
  Bool-cases, inl, inr, length,
}
use alertloop.Domain.Errors.{Result, ok, err}
use alertloop.Domain.Delivery.{DeliveryAttempt}
use alertloop.Store.Session.{M, Session, ◌>>=◌}
use alertloop.Worker.Scheduler.{increment, Scheduler, Filled, start, wanted, after_claim, fill}
use alertloop.Worker.Scheduler.Fill.{claimed, claim_lem, wanted-pos}

start-total :
    (rows : List DeliveryAttempt) (s : Scheduler) → (start rows s).total ≡ s.total + length rows
unfolding start
start-total [] s = omega arith
start-total (a ∷ rows) s = omega (
  arith,
  start-total rows
      (record s { in_flight = increment a.channel_name s.in_flight; total = suc s.total }),
)

-- Two ways on that agree on every scheduler with more sends agree after a claim.
after_claim-same :
    (again again' : Scheduler → List DeliveryAttempt → M Filled) (concurrency limit : ℕ)
    (s : Scheduler) (started : List DeliveryAttempt) (r : Result (List DeliveryAttempt))
    (x : Session)
    → 1 ≤ wanted concurrency limit s
    → ((s' : Scheduler) (started' : List DeliveryAttempt) (x' : Session)
        → s.total < s'.total
        → again s' started' x' ≡ again' s' started' x')
    → after_claim again concurrency limit s started r x
      ≡ after_claim again' concurrency limit s started r x
unfolding after_claim
after_claim-same again again' concurrency limit s started (err e) x pos same = refl
after_claim-same again again' concurrency limit s started (ok rows) x pos same =
    elim (Bool-cases (ltb (length rows) (wanted concurrency limit s))) [
      | inl fewer ↦ rw (fewer, after_claim) refl
      | inr all ↦
          let on = same (start rows s) (started ++ rows) x (ground (arith, start-total rows s)) in
          rw (all, after_claim) on
    ]

-- Any two amounts of fuel that cover the free slots, counted in rounds, give the same call of
-- fill, if one channel may take a send.
pub fill-enough :
    (m n concurrency limit : ℕ) (stopped : ℕ → Bool) (s : Scheduler)
    (started : List DeliveryAttempt) (x : Session)
    → 1 ≤ limit
    → concurrency ≤ s.total + m
    → concurrency ≤ s.total + n
    → fill m concurrency limit stopped s started x ≡ fill n concurrency limit stopped s started x
unfolding fill ◌>>=◌
fill-enough zero zero concurrency limit stopped s started x pos hm hn = refl
fill-enough zero (suc n) concurrency limit stopped s started x pos hm hn =
    let full : (ltb s.total concurrency && not (stopped (length started))) ≡ false = ground arith in
    rw (full, fill) refl
fill-enough (suc m) zero concurrency limit stopped s started x pos hm hn =
    let full : (ltb s.total concurrency && not (stopped (length started))) ≡ false = ground arith in
    rw (full, fill) refl
fill-enough (suc m) (suc n) concurrency limit stopped s started x pos hm hn =
    elim (Bool-cases (ltb s.total concurrency && not (stopped (length started)))) [
      | inr stop ↦ rw (stop, fill) refl
      | inl go ↦
          rw (go, fill, claim_lem)
            (after_claim-same (fill m concurrency limit stopped) (fill n concurrency limit stopped)
              concurrency limit s started (claimed concurrency limit s x).0
              (claimed concurrency limit s x).1 (wanted-pos concurrency limit s pos (ground arith))
              λ s' started' x' more.
                fill-enough m n concurrency limit stopped s' started' x' pos (omega arith)
                  (omega arith))
    ]
