-- ===== src/RateLimit/Retry.antt =====
-- What the `Retry-After` of `_LIMITER_SCRIPT` (app/core/rate_limit.py) promises.
use rcq_server_ref.RateLimit.Buckets.{
  accepted, refused, swept, limiter_script, Bucket, present, retry_after, tick,
}
use rcq_server_ref.Base.{
  ℕ, arith, length, ◌≡◌, ◌<◌, List, ◌≤◌, length-filter, ◌∷◌, ◌+◌, ltb, ◌*◌, [],
}

-- A time that has left the window leaves room for one call at least.
length-swept_past :
    (now window limit oldest : ℕ) (hits : List ℕ) (b : Bucket)
    → b.hits ≡ oldest ∷ hits
    → oldest + window * tick ≤ now
    → length b.hits ≤ limit
    → length (swept now window (present now b)) < limit
unfolding swept present
length-swept_past now window limit oldest hits b e h l =
    ground (arith, length-filter (λ t. ltb now (t + window * tick)) hits)

length-swept :
    (now window : ℕ) (b : Bucket) → length (swept now window (present now b)) ≤ length b.hits
unfolding swept present
length-swept now window b = ground (arith, length-filter (λ t. ltb now (t + window * tick)) b.hits)

accepted_below :
    (now window limit : ℕ) (b : Bucket)
    → length (swept now window (present now b)) < limit
    → (limiter_script now window limit b).1 ≡ accepted
unfolding limiter_script
accepted_below now window limit b h = ground arith

refused_full :
    (now window limit retry : ℕ) (b : Bucket)
    → (limiter_script now window limit b).1 ≡ refused retry
    → (limit ≤ length (swept now window (present now b)))
      × ((limiter_script now window limit b).0.hits ≡ swept now window (present now b))
      × (retry_after now window (swept now window (present now b)) ≡ retry)
unfolding limiter_script
refused_full now window limit retry b h = ground arith

comes_back :
    (now window limit retry later : ℕ) (kept : List ℕ) (b : Bucket)
    → b.hits ≡ kept
    → 0 < limit
    → limit ≤ length kept
    → length kept ≤ limit
    → retry_after now window kept ≡ retry
    → now + retry * tick ≤ later
    → (limiter_script later window limit b).1 ≡ accepted
comes_back now window limit retry later [] b e pos full l told w = absurd (omega arith)
comes_back now window limit retry later (oldest ∷ hits) b e pos full l told w =
    accepted_below later window limit b
      (length-swept_past later window limit oldest hits b e (omega arith) (rw e l))

-- Of `_LIMITER_SCRIPT`, where the limit is above 0 and the key has no more times than the limit: a
-- caller that the script refuses and that comes back alone, after the seconds it was told or later,
-- is let through by it.
pub retry_honoured :
    (now window limit retry later : ℕ) (b : Bucket)
    → 0 < limit
    → length b.hits ≤ limit
    → (limiter_script now window limit b).1 ≡ refused retry
    → now + retry * tick ≤ later
    → (limiter_script later window limit (limiter_script now window limit b).0).1 ≡ accepted
retry_honoured now window limit retry later b pos l r w =
    let (full, same, told) = refused_full now window limit retry b r in
    comes_back now window limit retry later (swept now window (present now b)) _ same pos full
      (omega (arith, length-swept now window b)) told w
