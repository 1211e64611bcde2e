-- ===== src/Api/RateLimit.antt =====
-- internal/api/ratelimit.go. Tokens and rates are float64 numbers, in units of 2^-1074, which divide
-- all of them; a time is in nanoseconds. net.ParseIP and IP.String are parameters.
use alertloop.Base.{
  ℕ, ◌+◌, ◌-◌, ◌*◌, ◌/◌, ◌^◌, ◌++◌, ltb, leb, ◌==◌, Bool, true, false, not, Option, none, some,
  List, [], ◌∷◌, Text, text_eq, runes, select, find, update, if◌then◌else◌, round_float, quotient,
  ◌%◌,
}
use alertloop.Routing.Matcher.{text_in}
use alertloop.Config.Checks.{Ip, v4, v6}

-- one token, and one token per second
abbrev pub token : ℕ
token = 2 ^ 1074

abbrev nanos : ℕ
nanos = 1000000000

-- The tokens are `have` less `owed`, one of them 0: a call with an earlier time than the last one
-- takes tokens away.
pub record TokenBucket : Type 0 where
  pub have : ℕ
  pub owed : ℕ
  pub max : ℕ
  pub refill_rate : ℕ
  pub last : ℕ

unfoldable pub or_one : ℕ → ℕ → ℕ
or_one one n = if n == 0 then one else n

-- newTokenBucket at the time `now`
unfoldable pub new_token_bucket : ℕ → ℕ → ℕ → TokenBucket
unfolding or_one round_float
new_token_bucket now rate burst = record {
  have = round_float (or_one 1 burst * token);
  owed = 0;
  max = round_float (or_one 1 burst * token);
  refill_rate = or_one token rate;
  last = now;
}

-- Duration.Seconds: whole seconds and the rest are converted and added
unfoldable pub seconds : ℕ → ℕ
unfolding round_float quotient
seconds d = round_float (round_float (d / nanos * token) + quotient (d % nanos * token) nanos)

-- the refill of `allow`, capped
unfoldable pub refill : ℕ → TokenBucket → TokenBucket
unfolding seconds round_float quotient
refill now b =
    let gained = quotient (seconds (now - b.last) * b.refill_rate) token in
    let lost = quotient (seconds (b.last - now) * b.refill_rate) token in
    let have = round_float ((b.have + gained) - (b.owed + lost)) in
    let owed = round_float ((b.owed + lost) - (b.have + gained)) in
    if ltb b.max have
    then record b { have = b.max; owed = 0; last = now }
    else record b { have = have; owed = owed; last = now }

unfoldable pub take_token : TokenBucket → Bool × TokenBucket
unfolding round_float
take_token b =
    if leb token b.have
    then (true, record b { have = round_float (b.have - token) })
    else (false, b)

-- tokenBucket.allow
unfoldable pub allow : ℕ → TokenBucket → Bool × TokenBucket
unfolding refill take_token
allow now b = take_token (refill now b)

pub record BucketEntry : Type 0 where
  pub key : Text
  pub bucket : TokenBucket
  pub seen : ℕ

pub record KeyedLimiter : Type 0 where
  pub buckets : List BucketEntry
  pub rate_per_sec : ℕ
  pub burst : ℕ
  pub last_sweep : ℕ

unfoldable pub new_keyed_limiter : ℕ → ℕ → ℕ → KeyedLimiter
new_keyed_limiter now rate burst = record {
  buckets = [];
  rate_per_sec = rate;
  burst = burst;
  last_sweep = now;
}

unfoldable pub has_key : Text → BucketEntry → Bool
unfolding text_eq
has_key k e = text_eq e.key k

abbrev pub minute : ℕ
minute = 60000000000

unfoldable pub idle : ℕ → BucketEntry → Bool
idle now e = ltb (e.seen + 10 * minute) now

unfoldable pub sweep : ℕ → KeyedLimiter → KeyedLimiter
unfolding select idle
sweep now k =
    if ltb (k.last_sweep + 5 * minute) now
    then record k { buckets = select (λ e. not (idle now e)) k.buckets; last_sweep = now }
    else k

-- the entry of the key, made at the time `created` if there is none, and seen
unfoldable pub see : ℕ → ℕ → Text → KeyedLimiter → KeyedLimiter
unfolding find update has_key new_token_bucket
see created now key k = elim (find (has_key key) k.buckets) [
  | none ↦ record k {
    buckets =
        record { key = key; bucket = new_token_bucket created k.rate_per_sec k.burst; seen = now }
        ∷ k.buckets;
  }
  | some e ↦ record k { buckets = update (has_key key) (λ x. record x { seen = now }) k.buckets }
]

-- keyedLimiter.allow; `created` is the time that newTokenBucket reads
unfoldable pub allow_key : ℕ → ℕ → Text → KeyedLimiter → Bool × KeyedLimiter
unfolding see sweep find has_key allow update
allow_key created now key k =
    let k' = sweep now (see created now key k) in
    elim (find (has_key key) k'.buckets) [
      | none ↦ (false, k')
      | some e ↦
          let (ok, b) = allow now e.bucket in
          (
            ok,
            record k' { buckets = update (has_key key) (λ x. record x { bucket = b }) k'.buckets },
          )
    ]

-- middleware.go
unfoldable pub probe_paths : List Text
probe_paths = runes "/health" ∷ runes "/health/live" ∷ runes "/ready" ∷ runes "/health/ready" ∷ []

module _ (parse_ip : Text → Option Ip) (ip_text : Ip → Text) where
  unfoldable pub limiter_key : Text → Text
  limiter_key ip = elim (parse_ip ip) [
    | none ↦ ip
    | some a ↦ elim a [ v4 n ↦ ip | v6 n ↦ ip_text (v6 (n / 2 ^ 64 * 2 ^ 64)) ++ runes "/64" ]
  ]

  -- perIPLimit: whether the request goes on
  unfoldable pub per_ip_limit : ℕ → ℕ → Text → Text → KeyedLimiter → Bool × KeyedLimiter
  unfolding probe_paths text_in allow_key limiter_key
  per_ip_limit created now path client k =
      if text_in probe_paths path then (true, k) else allow_key created now (limiter_key client) k
