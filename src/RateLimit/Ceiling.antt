-- ===== src/RateLimit/Ceiling.antt =====
-- The island-wide ceiling, `island_ceiling` of app/core/rate_limit.py, while Redis answers.
use rcq_server_ref.RateLimit.LocalWindow.{same_text_refl}
use rcq_server_ref.RateLimit.Window.{
  Tracks, passed_after, limiter_script-Tracks, IsNewestFirst, Tracks-later, Tracks-bound,
}
use rcq_server_ref.RateLimit.Buckets.{
  accepted, refused, Verdict, Bucket, no_bucket, tick, limiter_script,
}
use rcq_server_ref.RateLimit.Limits.{
  pass, Reply, island_ceiling, ceiling_key, Limiter, stored, ceiling_window, busy_of, eval_limiter,
  then_if_passed,
}
use text.Mathlib.TextLemmas.{append_cancel_left}
use Prim.Native.String.{◌++◌ as append}
use rcq_server_ref.Base.{
  ℕ, arith, false≢true, true, String, List, ◌∷◌, ◌≢◌, ◌≡◌, [], inr, ap, same_text, false, All,
  Bool-cases, sym, ◌≤◌, inl, same_text_iff, distinct, filter, ltb, ◌+◌, ◌*◌, subst, refl, if_true,
}

-- The keys of the two windows are different, whatever the rule.
keys_differ : (rule : String) → ceiling_key rule "60" ≢ ceiling_key rule "3600"
keys_differ rule h = false≢true (
    ap (λ (x : String). same_text x ":3600")
      (append_cancel_left rule ":60" ":3600"
        (append_cancel_left "rl:ceiling:" (append rule ":60") (append rule ":3600") h)))

differ_text : (s t : String) → s ≢ t → same_text s t ≡ false
differ_text s t h = elim (Bool-cases (same_text s t)) [
  | inl e ↦ absurd (h ((same_text_iff s t).0 e))
  | inr e ↦ e
]

minute_apart : (rule : String) → same_text (ceiling_key rule "60") (ceiling_key rule "3600") ≡ false
minute_apart rule = differ_text _ _ (keys_differ rule)

hour_apart : (rule : String) → same_text (ceiling_key rule "3600") (ceiling_key rule "60") ≡ false
hour_apart rule = differ_text _ _ (λ h. keys_differ rule (sym h))

abbrev pub passed_reply : ℕ → Reply → List ℕ → List ℕ
passed_reply now pass passed = now ∷ passed
passed_reply now reply passed = passed

-- Requests to one ceiling, the newest first, on a limiter, and the times of those that passed.
unfoldable pub serve_ceiling : String → ℕ → ℕ → Limiter → List ℕ → Limiter × List ℕ
unfolding island_ceiling
serve_ceiling rule per_minute per_hour s [] = (s, [])
serve_ceiling rule per_minute per_hour s (now ∷ earlier) =
    let (s1, passed) = serve_ceiling rule per_minute per_hour s earlier in
    let (s2, reply) = island_ceiling now rule per_minute per_hour s1 in
    (s2, passed_reply now reply passed)

-- Both buckets keep track of what has passed.
abbrev pub CeilingTracks : String → ℕ → ℕ → ℕ → Limiter → List ℕ → Type 0
CeilingTracks rule per_minute per_hour now s passed =
    (s.redis_up ≡ true)
    × Tracks 60 per_minute now (s.buckets (ceiling_key rule "60")) passed
    × Tracks 3600 per_hour now (s.buckets (ceiling_key rule "3600")) passed

-- A call that its window counts and that does not pass in the end.
Tracks-fewer :
    (window limit now : ℕ) (b : Bucket) (passed : List ℕ) (v : Verdict)
    → Tracks window limit now b (passed_after now v passed)
    → Tracks window limit now b passed
Tracks-fewer window limit now b passed accepted (t, l, a) = (λ x i k. t x (inr i) k, l, a)
Tracks-fewer window limit now b passed (refused retry) h = h

-- The limiter after one window has counted.
abbrev counted : ℕ → String → ℕ → ℕ → Limiter → Limiter
counted now key window limit s = record s {
  buckets = stored key (limiter_script now window limit (s.buckets key)).0 s.buckets;
}

ceiling_window-up :
    (now : ℕ) (key : String) (window limit : ℕ) (s : Limiter)
    → s.redis_up ≡ true
    → ceiling_window now key window limit s ≡ (
      counted now key window limit s,
      busy_of (limiter_script now window limit (s.buckets key)).1,
    )
unfolding ceiling_window eval_limiter
ceiling_window-up now key window limit s up = if_true s.redis_up _ _ up

stored_own : (key : String) (b : Bucket) (store : String → Bucket) → stored key b store key ≡ b
stored_own key b store = rw (same_text_refl key) refl

stored_other :
    (key other : String) (b : Bucket) (store : String → Bucket)
    → same_text other key ≡ false
    → stored key b store other ≡ store other
stored_other key other b store h = rw h refl

module _ (rule : String) (per_minute per_hour now : ℕ) (passed : List ℕ) where
  after_hour :
      (s : Limiter) (b : Bucket) (v : Verdict)
      → s.redis_up ≡ true
      → Tracks 60 per_minute now (s.buckets (ceiling_key rule "60")) (now ∷ passed)
      → Tracks 3600 per_hour now b (passed_after now v passed)
      → CeilingTracks rule per_minute per_hour now
          (record s { buckets = stored (ceiling_key rule "3600") b s.buckets })
          (passed_reply now (busy_of v) passed)
  after_hour s b v up m h = (
    up,
    subst (λ x. Tracks 60 per_minute now x (passed_reply now (busy_of v) passed))
        (sym (
          stored_other (ceiling_key rule "3600") (ceiling_key rule "60") b s.buckets
            (minute_apart rule)))
        (kept v),
    subst (λ x. Tracks 3600 per_hour now x (passed_reply now (busy_of v) passed))
        (sym (stored_own (ceiling_key rule "3600") b s.buckets)) (same v h),
  )
    where
      kept :
          (w : Verdict)
          → Tracks 60 per_minute now
              (s.buckets (ceiling_key rule "60"))
              (passed_reply now (busy_of w) passed)
      kept accepted = m
      kept (refused retry) = Tracks-fewer 60 per_minute now _ passed accepted m

      same :
          (w : Verdict)
          → Tracks 3600 per_hour now b (passed_after now w passed)
          → Tracks 3600 per_hour now b (passed_reply now (busy_of w) passed)
      same accepted t = t
      same (refused retry) t = t

  after_minute :
      (s : Limiter) (b : Bucket) (v : Verdict)
      → s.redis_up ≡ true
      → Tracks 60 per_minute now b (passed_after now v passed)
      → Tracks 3600 per_hour now (s.buckets (ceiling_key rule "3600")) passed
      → let (s', reply) =
          then_if_passed
            (record s { buckets = stored (ceiling_key rule "60") b s.buckets }, busy_of v)
            (ceiling_window now (ceiling_key rule "3600") 3600 per_hour) in
        CeilingTracks rule per_minute per_hour now s' (passed_reply now reply passed)
  after_minute s b accepted up m h =
      let s1 : Limiter = record s { buckets = stored (ceiling_key rule "60") b s.buckets } in
      let hour =
        subst (λ x. Tracks 3600 per_hour now x passed)
          (sym (
            stored_other (ceiling_key rule "60") (ceiling_key rule "3600") b s.buckets
              (hour_apart rule)))
          h in
      subst (λ r. CeilingTracks rule per_minute per_hour now r.0 (passed_reply now r.1 passed))
        (sym (ceiling_window-up now (ceiling_key rule "3600") 3600 per_hour s1 up))
        (after_hour s1 _ _ up
          (subst (λ x. Tracks 60 per_minute now x (now ∷ passed))
            (sym (stored_own (ceiling_key rule "60") b s.buckets)) m)
          (limiter_script-Tracks 3600 per_hour now (s1.buckets (ceiling_key rule "3600")) passed
            hour))
  after_minute s b (refused retry) up m h = (
    up,
    subst (λ x. Tracks 60 per_minute now x passed)
        (sym (stored_own (ceiling_key rule "60") b s.buckets)) m,
    subst (λ x. Tracks 3600 per_hour now x passed)
        (sym (
          stored_other (ceiling_key rule "60") (ceiling_key rule "3600") b s.buckets
            (hour_apart rule)))
        h,
  )

island_ceiling-CeilingTracks :
    (rule : String) (per_minute per_hour now : ℕ) (s : Limiter) (passed : List ℕ)
    → CeilingTracks rule per_minute per_hour now s passed
    → let (s', reply) = island_ceiling now rule per_minute per_hour s in
      CeilingTracks rule per_minute per_hour now s' (passed_reply now reply passed)
unfolding island_ceiling
island_ceiling-CeilingTracks rule per_minute per_hour now s passed (up, m, h) =
    subst
      (λ r.
        let (s', reply) =
          then_if_passed r (ceiling_window now (ceiling_key rule "3600") 3600 per_hour) in
        CeilingTracks rule per_minute per_hour now s' (passed_reply now reply passed))
      (sym (ceiling_window-up now (ceiling_key rule "60") 60 per_minute s up))
      (after_minute rule per_minute per_hour now passed s _ _ up
        (limiter_script-Tracks 60 per_minute now (s.buckets (ceiling_key rule "60")) passed m) h)

empty_Tracks : (window limit now : ℕ) → Tracks window limit now no_bucket []
empty_Tracks window limit now = (λ x i. absurd i, omega arith, λ x i. absurd i)

serve_ceiling-CeilingTracks :
    (rule : String) (per_minute per_hour now : ℕ) (s : Limiter) (calls : List ℕ)
    → s.redis_up ≡ true
    → ((key : String) → s.buckets key ≡ no_bucket)
    → All (λ t. t ≤ now) calls
    → IsNewestFirst calls
    → CeilingTracks rule per_minute per_hour now
        (serve_ceiling rule per_minute per_hour s calls).0
        (serve_ceiling rule per_minute per_hour s calls).1
unfolding serve_ceiling
serve_ceiling-CeilingTracks rule per_minute per_hour now s [] up new h o = (
  up,
  subst (λ b. Tracks 60 per_minute now b []) (sym (new (ceiling_key rule "60")))
      (empty_Tracks 60 per_minute now),
  subst (λ b. Tracks 3600 per_hour now b []) (sym (new (ceiling_key rule "3600")))
      (empty_Tracks 3600 per_hour now),
)
serve_ceiling-CeilingTracks rule per_minute per_hour now s (t ∷ earlier) up new h (a, o) =
    let (up', m', h') =
      island_ceiling-CeilingTracks rule per_minute per_hour t
        (serve_ceiling rule per_minute per_hour s earlier).0 _
        (serve_ceiling-CeilingTracks rule per_minute per_hour t s earlier up new a o) in
    (up', Tracks-later 60 per_minute t now _ _ h.0 m', Tracks-later 3600 per_hour t now _ _ h.0 h')

-- While Redis answers, the requests that an island's ceiling has let through stand, at any moment,
-- at no more than `per_minute` different times of the last minute and `per_hour` of the last hour.
pub island_bound :
    (rule : String) (per_minute per_hour now : ℕ) (s : Limiter) (calls : List ℕ)
    → s.redis_up ≡ true
    → ((key : String) → s.buckets key ≡ no_bucket)
    → All (λ t. t ≤ now) calls
    → IsNewestFirst calls
    → let passed = (serve_ceiling rule per_minute per_hour s calls).1 in
      (distinct (filter (λ t. ltb now (t + 60 * tick)) passed) ≤ per_minute)
      × (distinct (filter (λ t. ltb now (t + 3600 * tick)) passed) ≤ per_hour)
island_bound rule per_minute per_hour now s calls up new h o =
    let (up', m, u) = serve_ceiling-CeilingTracks rule per_minute per_hour now s calls up new h o in
    (Tracks-bound 60 per_minute now _ _ m, Tracks-bound 3600 per_hour now _ _ u)
