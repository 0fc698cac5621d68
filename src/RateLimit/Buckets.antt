-- ===== src/RateLimit/Buckets.antt =====
-- `_LIMITER_SCRIPT` and `_COST_SCRIPT` of app/core/rate_limit.py, each one command of Redis. A time
-- is a whole number of microseconds; `window` is in seconds.
use rcq_server_ref.Base.{
  ℕ, List, [], Option, none, ◌+◌, if◌then◌else◌, leb, filter, ◌∷◌, some, ◌==◌, ltb, max, length,
  ◌-◌, ◌*◌, ◌/◌,
}

abbrev pub tick : ℕ
tick = 1000000

-- A sorted set whose members are their own scores, in ascending order, and the moment at which Redis
-- drops its key.
pub record Bucket : Type 0 where
  pub hits : List ℕ
  pub expires : ℕ

abbrev pub no_bucket : Bucket
no_bucket = record { hits = []; expires = 0 }

-- What Redis has under the key at a moment.
unfoldable pub present : ℕ → Bucket → List ℕ
present now b = if leb b.expires now then [] else b.hits

-- `ZREMRANGEBYSCORE key -inf cutoff`
unfoldable pub swept : ℕ → ℕ → List ℕ → List ℕ
swept now window hits = filter (λ t. ltb now (t + window * tick)) hits

-- `ZADD key now now`
unfoldable pub zadd : ℕ → List ℕ → List ℕ
zadd now [] = now ∷ []
zadd now (t ∷ ts) = if t == now then t ∷ ts else if ltb now t then now ∷ t ∷ ts else t ∷ zadd now ts

pub data Verdict : Type 0 where
  accepted : Verdict
  refused : ℕ → Verdict

abbrev pub retry_after : ℕ → ℕ → List ℕ → ℕ
retry_after now window [] = 1
retry_after now window (oldest ∷ hits) = max 1 ((oldest + window * tick - now) / tick + 1)

unfoldable pub limiter_script : ℕ → ℕ → ℕ → Bucket → Bucket × Verdict
unfolding present swept zadd
limiter_script now window limit b =
    let hits = swept now window (present now b) in
    if leb limit (length hits)
    then (record { hits = hits; expires = b.expires }, refused (retry_after now window hits))
    else (record { hits = zadd now hits; expires = now + (window + 5) * tick }, accepted)

-- A counter, and the moment at which Redis drops its key, if any.
pub record Counter : Type 0 where
  pub used : ℕ
  pub expires : Option ℕ

abbrev pub no_counter : Counter
no_counter = record { used = 0; expires = none }

unfoldable pub present_counter : ℕ → Counter → Counter
present_counter now c = elim c.expires [ none ↦ c | some t ↦ if leb t now then no_counter else c ]

-- The answer to `TTL`, in seconds, where the key expires.
abbrev pub expiry_or : ℕ → ℕ → Option ℕ → ℕ
expiry_or now window none = window
expiry_or now window (some t) = (t - now) / tick

unfoldable pub cost_script : ℕ → ℕ → ℕ → ℕ → Counter → Counter × Verdict
unfolding present_counter
cost_script now cost limit window c =
    let old = present_counter now c in
    let used = old.used + cost in
    let expires = if used == cost then some (now + window * tick) else old.expires in
    (
      record { used = used; expires = expires },
      if ltb limit used then refused (expiry_or now window expires) else accepted,
    )
