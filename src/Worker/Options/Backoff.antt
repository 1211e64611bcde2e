-- ===== src/Worker/Options/Backoff.antt =====
-- The delay before a retry, and the other numbers that the options give.
use alertloop.Base.{
  ℕ, ◌*◌, ◌/◌, ◌^◌, ◌≤◌, ◌<◌, arith, [], ◌∷◌, Has, inl, inr, ltb, length, if◌then◌else◌,
  round_float, significand, round_float-le, round_float-ge, round_float_small, ◌+◌,
}
use alertloop.Worker.Options.{
  Options, Registry, Channel, draws, backoff, backoff_cap, raise_stale, attempt_timeout,
  new_options, apply_defaults, per_channel_limit, or_default,
}

draw_below : (draw exp : ℕ) → draw < draws → draw * exp ≤ exp * 2 ^ 53
draw_below draw exp h = grind arith

-- the float64 sum of half the interval and its drawn part
jitter_bounds :
    (exp draw : ℕ)
    → exp < significand
    → draw < draws
    → (exp / 2 ≤ round_float (exp * draws + round_float (draw * exp)) / (2 * draws))
      × (round_float (exp * draws + round_float (draw * exp)) / (2 * draws) ≤ exp)
jitter_bounds exp draw small h =
    let drawn : round_float (draw * exp) ≤ exp * 2 ^ 53 =
      round_float-le (draw * exp) exp 53 small (draw_below draw exp h) in
    let sum = exp * draws + round_float (draw * exp) in
    let most : round_float sum ≤ exp * 2 ^ 54 =
      round_float-le sum exp 54 small (omega (arith, drawn)) in
    let least : sum / 2 ^ 54 ≤ round_float sum / 2 ^ 54 =
      round_float-ge sum 54 (omega (arith, drawn, small)) in
    (omega (arith, least), omega (arith, most))

-- With a configured maximum below 2^53 ns, some 104 days, the delay before a retry lies between
-- half the capped exponential, rounded down, and all of it, and never passes the configured
-- maximum, for every draw of rand.Float64 and with every rounding of float64.
pub backoff_bounds :
    (o : Options) (attempt draw : ℕ)
    → o.max_backoff < significand
    → draw < draws
    → (backoff_cap o attempt / 2 ≤ backoff o attempt draw)
      × (backoff o attempt draw ≤ backoff_cap o attempt)
      × (backoff o attempt draw ≤ o.max_backoff)
unfolding backoff backoff_cap
backoff_bounds o attempt draw small h =
    let exp = backoff_cap o attempt in
    let capped : exp ≤ o.max_backoff = omega (arith, round_float_small o.max_backoff small) in
    let (least, most) = jitter_bounds exp draw (omega (arith, capped, small)) h in
    (least, most, omega (arith, most, capped))

raise_stale-le : (l : Registry) (stale : ℕ) → stale ≤ raise_stale l stale
unfolding raise_stale
raise_stale-le [] stale = omega arith
raise_stale-le (c ∷ l) stale = ground (
  arith,
  raise_stale-le l (if ltb stale (2 * attempt_timeout c) then 2 * attempt_timeout c else stale),
)

raise_stale-covers :
    (l : Registry) (stale : ℕ) (c : Channel) → Has c l → 2 * attempt_timeout c ≤ raise_stale l stale
unfolding raise_stale
raise_stale-covers (b ∷ l) stale c (inl e) = rw e (
    ground (
      arith,
      raise_stale-le l (if ltb stale (2 * attempt_timeout b) then 2 * attempt_timeout b else stale),
    ))
raise_stale-covers (b ∷ l) stale c (inr m) =
    raise_stale-covers l
      (if ltb stale (2 * attempt_timeout b) then 2 * attempt_timeout b else stale) c m
raise_stale-covers [] stale c m = elim m [ ]

-- The window of the reaper covers two sends of every configured channel.
pub stale_after-covers :
    (o : Options) (registry : Registry) (c : Channel)
    → Has c registry
    → 2 * attempt_timeout c ≤ (new_options o registry).stale_after
unfolding new_options
stale_after-covers o registry c m = raise_stale-covers registry (apply_defaults o).stale_after c m

-- With the defaults applied, each channel has at least one slot and at most as many as the worker.
pub per_channel_limit-bounds :
    (o : Options) (registry : Registry)
    → (1 ≤ per_channel_limit (new_options o registry) registry)
      × (per_channel_limit (new_options o registry) registry ≤ (new_options o registry).concurrency)
unfolding per_channel_limit new_options apply_defaults or_default
per_channel_limit-bounds o registry = (ground arith, ground arith)

-- With two channels or more and two slots or more, one channel never has all the slots.
pub per_channel_limit-leaves_slot :
    (o : Options) (registry : Registry)
    → 2 ≤ length registry
    → 2 ≤ (new_options o registry).concurrency
    → per_channel_limit (new_options o registry) registry < (new_options o registry).concurrency
unfolding per_channel_limit new_options apply_defaults or_default
per_channel_limit-leaves_slot o registry several slots = ground arith
