-- ===== src/RateLimit/Window.antt =====
-- The sliding window of `_LIMITER_SCRIPT` (app/core/rate_limit.py): how many calls one key lets
-- through in any window.
use rcq_server_ref.RateLimit.Buckets.{
  Bucket, swept, zadd, present, tick, Verdict, limiter_script, refused, no_bucket,
}
use rcq_server_ref.RateLimit.Buckets.{accepted, refused, Verdict}
use rcq_server_ref.Base.{
  ℕ, arith, ◌+◌, List, ◌*◌, length, ◌∈◌, ◌≤◌, ◌<◌, ◌≡◌, All, filter, suc, ◌⊎◌, ◌∷◌, [], mem-filter,
  ltb, filter-mem, if◌then◌else◌, leb, Bool-cases, inl, inr, length-filter, distinct, distinct_le,
}

abbrev pub window_end : ℕ → ℕ → ℕ
window_end window t = t + window * tick

-- What a bucket keeps at `now`, when `passed` are the times of the calls that have passed so far:
-- each time that is still in the window, at most `limit` times, and none that outlives the key.
abbrev pub Tracks : ℕ → ℕ → ℕ → Bucket → List ℕ → Type 0
Tracks window limit now b passed =
    ((t : ℕ) → t ∈ passed → now < window_end window t → t ∈ b.hits)
    × (length b.hits ≤ limit)
    × ((t : ℕ) → t ∈ b.hits → (t ≤ now) × (window_end window t ≤ b.expires))

pub Tracks-later :
    (window limit now later : ℕ) (b : Bucket) (passed : List ℕ)
    → now ≤ later
    → Tracks window limit now b passed
    → Tracks window limit later b passed
Tracks-later window limit now later b passed h (t, l, a) =
    (λ x i lt. t x i (omega arith), l, λ x i. let (p, q) = a x i in (omega arith, q))

pub mem-swept :
    (window now t : ℕ) (b : Bucket)
    → now < window_end window t
    → (t ∈ b.hits → (t ≤ now) × (window_end window t ≤ b.expires))
    → t ∈ b.hits
    → t ∈ swept now window (present now b)
unfolding swept present
mem-swept window now t b lt a i =
    mem-filter _ t (if leb b.expires now then [] else b.hits) (ground arith)
      (ground (arith, (a i).1))

length-swept :
    (window now : ℕ) (b : Bucket) → length (swept now window (present now b)) ≤ length b.hits
unfolding swept present
length-swept window now b = ground (arith, length-filter (λ t. ltb now (t + window * tick)) b.hits)

length-zadd : (now : ℕ) (ts : List ℕ) → length (zadd now ts) ≤ suc (length ts)
unfolding zadd
length-zadd now [] = omega arith
length-zadd now (t ∷ ts) = ground (arith, length-zadd now ts)

mem-zadd : (now t : ℕ) (ts : List ℕ) → (t ≡ now) ⊎ (t ∈ ts) → t ∈ zadd now ts
unfolding zadd
mem-zadd now t [] h = h
mem-zadd now t (x ∷ xs) h = ground (arith, mem-zadd now t xs)

zadd-mem : (now t : ℕ) (ts : List ℕ) → t ∈ zadd now ts → (t ≡ now) ⊎ (t ∈ ts)
unfolding zadd
zadd-mem now t [] h = h
zadd-mem now t (x ∷ xs) h = ground (arith, zadd-mem now t xs)

swept-mem : (window now t : ℕ) (b : Bucket) → t ∈ swept now window (present now b) → t ∈ b.hits
unfolding swept present
swept-mem window now t b i =
    ground (arith, filter-mem _ t (if leb b.expires now then [] else b.hits) i)

module _ (window limit now : ℕ) (b : Bucket) (passed : List ℕ) where
  kept : List ℕ
  kept = swept now window (present now b)

  Tracks-refused :
      Tracks window limit now b passed
      → Tracks window limit now (record { hits = kept; expires = b.expires }) passed
  unfolding kept
  Tracks-refused (t, l, a) = (
    λ x i lt. mem-swept window now x b lt (a x) (t x i lt),
    omega (arith, length-swept window now b),
    λ x i. a x (swept-mem window now x b i),
  )

  Tracks-accepted :
      length kept < limit
      → Tracks window limit now b passed
      → Tracks window limit now
          (record { hits = zadd now kept; expires = now + (window + 5) * tick })
          (now ∷ passed)
  unfolding kept
  Tracks-accepted lt (t, l, a) = (
    λ x i k.
        mem-zadd now x kept
          (elim i [ inl e ↦ inl e | inr j ↦ inr (mem-swept window now x b k (a x) (t x j k)) ]),
    omega (arith, length-zadd now kept),
    λ x i. elim (zadd-mem now x kept i) [
      | inl e ↦ (omega arith, omega arith)
      | inr j ↦ (let (p, q) = a x (swept-mem window now x b j) in (p, omega arith))
    ],
  )

abbrev pub passed_after : ℕ → Verdict → List ℕ → List ℕ
passed_after now accepted passed = now ∷ passed
passed_after now (refused retry) passed = passed

-- One call keeps track.
pub limiter_script-Tracks :
    (window limit now : ℕ) (b : Bucket) (passed : List ℕ)
    → Tracks window limit now b passed
    → let (b', v) = limiter_script now window limit b in
      Tracks window limit now b' (passed_after now v passed)
unfolding limiter_script kept
limiter_script-Tracks window limit now b passed h =
    elim (Bool-cases (leb limit (length (swept now window (present now b))))) [
      | inl full ↦ rw full (Tracks-refused window limit now b passed h)
      | inr room ↦ rw room (Tracks-accepted window limit now b passed (ground arith) h)
    ]

-- The calls of one key, the newest first, each in the bucket that the ones before it have left, and
-- the times of those that passed.
unfoldable pub serve : ℕ → ℕ → List ℕ → Bucket × List ℕ
unfolding limiter_script
serve window limit [] = (no_bucket, [])
serve window limit (now ∷ earlier) =
    let (b, passed) = serve window limit earlier in
    let (b', v) = limiter_script now window limit b in (b', passed_after now v passed)

-- No call reads an earlier clock than the calls before it.
abbrev pub IsNewestFirst : List ℕ → Type 0
IsNewestFirst [] = Unit
IsNewestFirst (now ∷ earlier) = All (λ t. t ≤ now) earlier × IsNewestFirst earlier

abbrev pub SoFar : ℕ → List ℕ → Type 0
SoFar now calls = All (λ t. t ≤ now) calls

serve-Tracks :
    (window limit now : ℕ) (calls : List ℕ)
    → SoFar now calls
    → IsNewestFirst calls
    → Tracks window limit now (serve window limit calls).0 (serve window limit calls).1
unfolding serve
serve-Tracks window limit now [] h s = (λ x i. absurd i, omega arith, λ x i. absurd i)
serve-Tracks window limit now (t ∷ earlier) h (a, s) =
    Tracks-later window limit t now _ _ h.0
      (limiter_script-Tracks window limit t _ _ (serve-Tracks window limit t earlier a s))

pub Tracks-bound :
    (window limit now : ℕ) (b : Bucket) (passed : List ℕ)
    → Tracks window limit now b passed
    → distinct (filter (λ t. ltb now (t + window * tick)) passed) ≤ limit
Tracks-bound window limit now b passed (t, l, a) =
    let p = λ (t : ℕ). ltb now (t + window * tick) in
    omega (
      arith,
      distinct_le (filter p passed) b.hits
          (λ x i. let (j, e) = filter-mem p x passed i in t x j (ground arith)),
    )

-- Of `_LIMITER_SCRIPT`: at any moment, the calls of one key that have passed within the last
-- `window` seconds stand at no more than `limit` different times.
pub sliding_window :
    (window limit now : ℕ) (calls : List ℕ)
    → All (λ t. t ≤ now) calls
    → IsNewestFirst calls
    → distinct (filter (λ t. ltb now (t + window * tick)) (serve window limit calls).1) ≤ limit
sliding_window window limit now calls h s =
    Tracks-bound window limit now _ _ (serve-Tracks window limit now calls h s)
