-- ===== src/Uin/Allocate.antt =====
-- Which number `allocate_uin` (app/services/uin.py) gives out, and when it gives up.
use rcq_server_ref.Uin.Shape.{is_reserved_uin}
use rcq_server_ref.Uin.SpokenFor.{IsSpokenFor, taken_of_spoken_for}
use rcq_server_ref.Uin.Taken.{Numbers, is_allocatable, allocate_in, allocate_uin, uin_min}
use rcq_server_ref.Base.{
  ℕ, arith, Option, List, ◌≡◌, ◌+◌, ◌≤◌, some, true, length, ◌++◌, All, false, [], ◌∷◌, none, suc,
  ◌<◌, Bool-cases, ap, inl, inr, zero, refl,
}

module _ (now : ℕ) (db : Numbers) where
  -- The draws before the one that was given out, which is the first allocatable one of the first
  -- `tries`.
  abbrev pub FirstAllocatable : ℕ → List ℕ → ℕ → Type 0
  FirstAllocatable tries draws u =
      (before after : List ℕ) × (draw : ℕ) × (draws ≡ before ++ draw ∷ after)
      × (length before < tries)
      × All (λ d. is_allocatable now db (d + uin_min) ≡ false) before
      × (u ≡ draw + uin_min)

  abbrev pub Exhausted : ℕ → List ℕ → Type 0
  Exhausted tries draws =
      (tried after : List ℕ) × (draws ≡ tried ++ after)
      × (length tried ≡ tries)
      × All (λ d. is_allocatable now db (d + uin_min) ≡ false) tried

  allocatable_free :
      (u : ℕ)
      → is_allocatable now db u ≡ true
      → (is_reserved_uin u ≡ false) × ¬ IsSpokenFor now db u none false
  unfolding is_allocatable
  allocatable_free u h =
      (ground arith, λ s. ground (arith, taken_of_spoken_for now db u none false s))

  abbrev pub Outcome : ℕ → List ℕ → Option ℕ → Type 0
  Outcome tries draws none = Exhausted tries draws
  Outcome tries draws (some u) =
      FirstAllocatable tries draws u
      × (is_reserved_uin u ≡ false)
      × ¬ IsSpokenFor now db u none false

  skip :
      (tries draw : ℕ) (draws : List ℕ) (o : Option ℕ)
      → is_allocatable now db (draw + uin_min) ≡ false
      → Outcome tries draws o
      → Outcome (suc tries) (draw ∷ draws) o
  skip tries draw draws none h (tried, after, e, l, a) =
      (draw ∷ tried, after, ap (λ ds. draw ∷ ds) e, ap (λ (k : ℕ). suc k) l, (h, a))
  skip tries draw draws (some u) h ((before, after, d, e, l, a, q), r, free) =
      ((draw ∷ before, after, d, ap (λ ds. draw ∷ ds) e, omega arith, (h, a), q), r, free)

  allocate_in-Outcome :
      (tries : ℕ) (draws : List ℕ)
      → tries ≤ length draws
      → Outcome tries draws (allocate_in tries now db draws)
  unfolding allocate_in
  allocate_in-Outcome zero draws h = ([], draws, refl, refl, tt)
  allocate_in-Outcome (suc tries) [] h = absurd (omega arith)
  allocate_in-Outcome (suc tries) (draw ∷ draws) h =
      elim (Bool-cases (is_allocatable now db (draw + uin_min))) [
        | inl free ↦ rw free (
            let (r, f) = allocatable_free (draw + uin_min) free in
            (([], draws, draw, refl, omega arith, tt, refl), r, f))
        | inr taken ↦ rw taken (
            skip tries draw draws (allocate_in tries now db draws) taken
              (allocate_in-Outcome tries draws (omega arith)))
      ]

  -- Given a hundred draws, the allocator gives out the first of them, moved up by `UIN_MIN`, that is
  -- neither scarce nor spoken for, and fails exactly where each of the hundred is one or the other.
  pub allocate_uin-Outcome :
      (draws : List ℕ) → 100 ≤ length draws → Outcome 100 draws (allocate_uin now db draws)
  unfolding allocate_uin
  allocate_uin-Outcome draws h = allocate_in-Outcome 100 draws h
