-- ===== src/Worker/Options.antt =====
-- internal/delivery/worker.go: the worker's options, and the numbers that it computes from them.
-- Durations are nanoseconds. The backoff is computed in float64, of durations below 2^63, with the
-- 53-bit draw of rand.Float64 as an argument.
pub mod Backoff
use alertloop.Base.{
  ℕ, ◌+◌, ◌-◌, ◌*◌, ◌/◌, ◌^◌, ◌==◌, ltb, Option, List, [], ◌∷◌, Text, text_eq, min, max, find,
  length, if◌then◌else◌, round_float,
}
use alertloop.Domain.Delivery.{ChannelTarget}

pub record Options : Type 0 where
  pub concurrency : ℕ
  pub poll_interval : ℕ
  pub base_backoff : ℕ
  pub max_backoff : ℕ
  pub stale_after : ℕ
  pub shutdown_grace : ℕ
  pub fallbacks : Text → Text
  pub public_url : Text

abbrev pub second : ℕ
second = 1000000000

or_default : ℕ → ℕ → ℕ
or_default d n = if n == 0 then d else n

unfoldable pub apply_defaults : Options → Options
unfolding or_default
apply_defaults o = record o {
  concurrency = or_default 2 o.concurrency;
  poll_interval = or_default (2 * second) o.poll_interval;
  base_backoff = or_default (30 * second) o.base_backoff;
  max_backoff = or_default (1800 * second) o.max_backoff;
  stale_after = or_default (300 * second) o.stale_after;
  shutdown_grace = or_default (5 * second) o.shutdown_grace;
}

-- a configured channel: what it is, and the timeout that its configuration sets, or 0
pub record Channel : Type 0 where
  pub target : ChannelTarget
  pub timeout : ℕ

-- channels.Registry: one channel for each name
abbrev pub Registry : Type 0
Registry = List Channel

unfoldable pub get : Registry → Text → Option Channel
unfolding find text_eq
get registry name = find (λ c. text_eq c.target.name name) registry

abbrev pub default_channel_timeout : ℕ
default_channel_timeout = 10 * second

unfoldable pub attempt_timeout : Channel → ℕ
attempt_timeout c = if c.timeout == 0 then default_channel_timeout else c.timeout

-- the loop of NewWorker
raise_stale : Registry → ℕ → ℕ
unfolding attempt_timeout
raise_stale [] stale = stale
raise_stale (c ∷ l) stale =
    let d = 2 * attempt_timeout c in raise_stale l (if ltb stale d then d else stale)

unfoldable pub new_options : Options → Registry → Options
unfolding apply_defaults raise_stale
new_options o registry =
    let p = apply_defaults o in record p { stale_after = raise_stale registry p.stale_after }

unfoldable pub per_channel_limit : Options → Registry → ℕ
per_channel_limit o registry =
    if ltb (length registry) 2 then o.concurrency else max 1 (o.concurrency - 1)

-- the capped exponential `exp` of backoff; a power of two scales without rounding
unfoldable pub backoff_cap : Options → ℕ → ℕ
unfolding round_float
backoff_cap o attempt =
    min (round_float o.base_backoff * 2 ^ (attempt - 1)) (round_float o.max_backoff)

abbrev pub draws : ℕ
draws = 2 ^ 53

-- `draw / draws` is what rand.Float64 returned. In units of 1 / (2 * draws) half of `exp` is
-- `exp * draws`, and its product with the draw is `draw * exp`.
unfoldable pub backoff : Options → ℕ → ℕ → ℕ
unfolding backoff_cap round_float
backoff o attempt draw =
    let exp = backoff_cap o attempt in
    round_float (exp * draws + round_float (draw * exp)) / (2 * draws)
