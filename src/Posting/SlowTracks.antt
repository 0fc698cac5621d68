-- ===== src/Posting/SlowTracks.antt =====
-- The bucket of a member's slots under the slow mode (app/routers/messages.py), while the limiter
-- answers: it keeps track of the slots bought, and sells none within the window of another.
use rcq_server_ref.RateLimit.Window.{
  Tracks, passed_after, window_end, limiter_script-Tracks, mem-swept,
}
use rcq_server_ref.Posting.SlowKeys.{slowmode_identity}
use rcq_server_ref.Posting.SlowMode.{End, exempt, rode, freed, bought, turned_away}
use rcq_server_ref.Base.{
  [], ◌∷◌, inl, inr, String, ℕ, joined, List, All, ◌∈◌, ◌<◌, ◌≡◌, refl, ◌≤◌, length, Bool-cases,
  ltb, arith, All-of_mem,
}
use rcq_server_ref.RateLimit.Buckets.{
  Verdict, accepted, refused, limiter_script, Bucket, swept, present,
}

abbrev pub slot_key : (String → String) → ℕ → ℕ → String
slot_key bucket_name group_id caller =
    joined ("rl:" ∷ "group_slowmode" ∷ ":" ∷ bucket_name (slowmode_identity group_id caller) ∷ [])

-- The slots bought, the newest first, each a window after the one before.
abbrev pub IsApart : ℕ → List ℕ → Type 0
IsApart window [] = Unit
IsApart window (now ∷ earlier) =
    All (λ t. window_end window t ≤ now) earlier × IsApart window earlier

unfoldable pub slots_after : ℕ → End → List ℕ → List ℕ
slots_after now exempt slots = slots
slots_after now rode slots = slots
slots_after now freed slots = slots
slots_after now bought slots = now ∷ slots
slots_after now (turned_away reply) slots = slots

abbrev pub SlotTracks : ℕ → ℕ → Bucket → List ℕ → Type 0
SlotTracks window now b slots = Tracks window 1 now b slots × IsApart window slots

full_refuses :
    (window now t : ℕ) (b : Bucket) (slots : List ℕ)
    → Tracks window 1 now b slots
    → t ∈ slots
    → now < window_end window t
    → 1 ≤ length (swept now window (present now b))
full_refuses window now t b slots (h, l, a) i lt =
    mem_length t _ (mem-swept window now t b lt (a t) (h t i lt))
  where
    mem_length : (x : ℕ) (xs : List ℕ) → x ∈ xs → 1 ≤ length xs
    mem_length x [] m = absurd m
    mem_length x (y ∷ ys) m = omega arith

limiter_script-IsApart :
    (window now : ℕ) (b : Bucket) (slots : List ℕ)
    → Tracks window 1 now b slots
    → (limiter_script now window 1 b).1 ≡ accepted
    → All (λ t. window_end window t ≤ now) slots
unfolding limiter_script
limiter_script-IsApart window now b slots h e = All-of_mem _ slots (λ t i.
    elim (Bool-cases (ltb now (window_end window t))) [
      | inl lt ↦
          (let l = full_refuses window now t b slots h i (ground arith) in
            absurd (ground (arith, e, l)))
      | inr ge ↦ ground arith
    ])

pub slot_script-SlotTracks :
    (window now : ℕ) (b : Bucket) (slots : List ℕ)
    → SlotTracks window now b slots
    → let (b', v) = limiter_script now window 1 b in
      SlotTracks window now b' (passed_after now v slots)
slot_script-SlotTracks window now b slots (h, a) =
    let k = limiter_script-Tracks window 1 now b slots h in
    by_verdict (limiter_script now window 1 b) refl k
  where
    by_verdict :
        (r : Bucket × Verdict)
        → (limiter_script now window 1 b).1 ≡ r.1
        → Tracks window 1 now r.0 (passed_after now r.1 slots)
        → SlotTracks window now r.0 (passed_after now r.1 slots)
    by_verdict (b', accepted) e k = (k, (limiter_script-IsApart window now b slots h e, a))
    by_verdict (b', refused retry) e k = (k, a)
