-- ===== src/Worker/Scheduler/Fill.antt =====
-- The loop of `fill`: it never takes more than the free slots, and its fuel is enough.
use alertloop.Base.{
  ℕ, zero, suc, ◌≤◌, ◌<◌, ltb, Bool, true, false, not, ◌&&◌, List, [], ◌∷◌, ◌++◌, ◌≡◌, refl, sym,
  arith, All, Has, length, inl, inr, Text, Bool-cases, subst,
}
use alertloop.Domain.Errors.{Result, ok, err}
use alertloop.Domain.Delivery.{DeliveryAttempt}
use alertloop.Store.Schema.{Db, uniques_hold}
use alertloop.Store.Session.{M, Session, ◌>>=◌, try, now, pure}
use alertloop.Store.Rows.{contains}
use alertloop.Store.Claim.{claim_due, sending_row}
use alertloop.Store.Claim.Due.{claim_due-IsDue, length-claim_due, Origin}
use alertloop.Store.Claim.Safety.{claim_next}
use alertloop.Worker.Scheduler.{
  InFlight, Scheduler, Filled, skipped, busiest, start, wanted, claim, after_claim, fill,
}
use alertloop.Worker.Scheduler.Slots.{Slots, Allowed, start-Slots}

-- Whatever other processes commit meets the constraints of the tables.
abbrev pub Enforced : Session → Type 0
Enforced x = (n : ℕ) (d : Db) → uniques_hold (x.others n d) ≡ true

-- the session in which a claim runs, and the claim
at_claim : Session → Session
at_claim x = record x { clock = λ n. x.clock (suc n) }

pub claimed : ℕ → ℕ → Scheduler → Session → Result (List DeliveryAttempt) × Session
claimed concurrency limit s x =
    claim_due (x.clock 0) (wanted concurrency limit s) (skipped limit s.in_flight) (at_claim x)

pub claim_lem :
    (concurrency limit : ℕ) (s : Scheduler) (x : Session)
    → claim concurrency limit s x
      ≡ (ok (claimed concurrency limit s x).0, (claimed concurrency limit s x).1)
unfolding claim claimed at_claim now try ◌>>=◌
claim_lem concurrency limit s x = refl

claimed-Enforced :
    (concurrency limit : ℕ) (s : Scheduler) (x : Session)
    → Enforced x
    → Enforced (claimed concurrency limit s x).1
unfolding claimed at_claim
claimed-Enforced concurrency limit s x h n d =
    subst (λ (o : ℕ → Db → Db). uniques_hold (o n d) ≡ true)
      (sym (
        claim_next (x.clock 0) (wanted concurrency limit s) (skipped limit s.in_flight)
          (at_claim x)))
      (h (suc n) d)

All-of-Has :
    (P : DeliveryAttempt → Type 0) (l : List DeliveryAttempt)
    → ((a : DeliveryAttempt) → Has a l → P a)
    → All P l
All-of-Has P [] h = tt
All-of-Has P (a ∷ l) h = (h a (inl refl), All-of-Has P l (λ b m. h b (inr m)))

same_channel :
    (at : ℕ) (skip : List Text) (l : List DeliveryAttempt) (c a : DeliveryAttempt)
    → Origin at skip l c a
    → contains skip c.channel_name ≡ false
unfolding sending_row
same_channel at skip l c a o =
    subst (λ (x : DeliveryAttempt). contains skip x.channel_name ≡ false) (sym o.sent_out)
      o.row.not_skipped

busiest-lt : (limit : ℕ) (l : InFlight) → 1 ≤ limit → busiest limit l < limit
unfolding busiest
busiest-lt limit [] h = omega arith
busiest-lt limit ((n, k) ∷ l) h = ground (arith, busiest-lt limit l h)

pub wanted-pos :
    (concurrency limit : ℕ) (s : Scheduler)
    → 1 ≤ limit
    → s.total < concurrency
    → 1 ≤ wanted concurrency limit s
unfolding wanted
wanted-pos concurrency limit s h lt = omega (arith, busiest-lt limit s.in_flight h)

-- What a successful claim may start.
claimed_rows :
    (concurrency limit : ℕ) (s : Scheduler) (x : Session) (rows : List DeliveryAttempt)
    → Enforced x
    → 1 ≤ wanted concurrency limit s
    → (claimed concurrency limit s x).0 ≡ ok rows
    → (length rows ≤ wanted concurrency limit s) × Allowed (skipped limit s.in_flight) rows
unfolding claimed
claimed_rows concurrency limit s x rows h pos e =
    let w = wanted concurrency limit s in
    let skip = skipped limit s.in_flight in
    let valid : uniques_hold (x.others 0 x.db) ≡ true = h 0 x.db in
    (
      ground (
        arith,
        length-claim_due (x.clock 0) w skip (at_claim x) rows (unfold at_claim in valid) e,
      ),
      All-of-Has (λ a. contains skip a.channel_name ≡ false) rows
          λ a m.
            let (b, o) =
              claim_due-IsDue (x.clock 0) w skip (at_claim x) rows a (unfold at_claim in valid) e
                m in
            same_channel (x.clock 0) skip (x.others 0 x.db).attempts a b (unfold at_claim in o),
    )

-- The call returns, with the slots kept.
abbrev pub Fills : ℕ → ℕ → Result Filled × Session → Type 0
Fills concurrency limit r = (f : Filled) × (r.0 ≡ ok f) × Slots concurrency limit f.scheduler

module _ (concurrency limit : ℕ) (again : Scheduler → List DeliveryAttempt → M Filled)
    (keeps : (s : Scheduler) (started : List DeliveryAttempt) (x : Session)
      → Slots concurrency limit s
      → Enforced x
      → Fills concurrency limit (again s started x)) where
  after_claim-Fills :
      (s : Scheduler) (started : List DeliveryAttempt) (r : Result (List DeliveryAttempt))
      (x : Session)
      → Slots concurrency limit s
      → Enforced x
      → ((rows : List DeliveryAttempt)
          → r ≡ ok rows
          → (length rows ≤ wanted concurrency limit s) × Allowed (skipped limit s.in_flight) rows)
      → Fills concurrency limit (after_claim again concurrency limit s started r x)
  unfolding after_claim pure
  after_claim-Fills s started (err e) x v h may = (_, refl, v)
  after_claim-Fills s started (ok rows) x v h may =
      let (few, allowed) = may rows refl in
      let v' = start-Slots concurrency limit s rows v few allowed in
      elim (Bool-cases (ltb (length rows) (wanted concurrency limit s))) [
        | inl fewer ↦ rw (fewer, after_claim) (_, refl, v')
        | inr all ↦ rw (all, after_claim) (keeps (start rows s) (started ++ rows) x v' h)
      ]

-- Whatever the queue, the clock, the faults and the other processes, fill returns, and leaves at
-- most `concurrency` sends running and at most `limit` on each channel, if it started so.
pub fill-Slots :
    (fuel concurrency limit : ℕ) (stopped : ℕ → Bool) (s : Scheduler)
    (started : List DeliveryAttempt) (x : Session)
    → 1 ≤ limit
    → Enforced x
    → Slots concurrency limit s
    → Fills concurrency limit (fill fuel concurrency limit stopped s started x)
unfolding fill pure ◌>>=◌
fill-Slots zero concurrency limit stopped s started x pos h v = (_, refl, v)
fill-Slots (suc fuel) concurrency limit stopped s started x pos h v =
    elim (Bool-cases (ltb s.total concurrency && not (stopped (length started)))) [
      | inr stop ↦ rw (stop, fill) (_, refl, v)
      | inl go ↦
          rw (go, fill, claim_lem)
            (after_claim-Fills concurrency limit (fill fuel concurrency limit stopped)
              (λ s' started' x' v' h'.
                fill-Slots fuel concurrency limit stopped s' started' x' pos h' v')
              s started (claimed concurrency limit s x).0 (claimed concurrency limit s x).1 v
              (claimed-Enforced concurrency limit s x h)
              (λ rows e.
                claimed_rows concurrency limit s x rows h
                  (wanted-pos concurrency limit s pos (ground arith)) e))
    ]
