-- ===== src/Uin/Scarce.antt =====
-- How `price_length`, `is_reserved_uin` and `allocate_uin` of app/services/uin.py agree on a number.
use rcq_server_ref.Uin.Allocate.{allocate_uin-Outcome}
use rcq_server_ref.Uin.Taken.{Numbers, uin_max, uin_min, allocate_uin}
use rcq_server_ref.Uin.Digits.{digits_onto, str}
use rcq_server_ref.Uin.Shape.{
  is_reserved_uin, price_length, reserved_shape, price_tier, is_palindrome, has_run,
  matches_pattern,
}
use rcq_server_ref.Base.{
  false, ℕ, arith, List, All, ◌<◌, length, ◌^◌, ◌≡◌, true, suc, ◌-◌, ◌↔◌, ◌≤◌, ◌+◌, [], zero, some,
  Bool, if◌then◌else◌, leb, ◌||◌, ◌&&◌, min, Bool-cases, ltb, inl, inr, ◌/◌, ◌%◌, ◌∷◌, All-mem,
  subst, ◌∈◌, sym, mem-append, refl, distinct,
}

-- The shape tests of the two functions, on a number with `n` digits, `d` of them different.
shapes_agree :
    (n d : ℕ) (p r m : Bool)
    → 6 < n
    → ((if leb n 6
          then true
          else if leb d 3
          then true
          else if leb d 4 && leb n 7
          then true
          else if p
          then true
          else if r
          then true
          else m)
        ≡ true)
      ↔ (min n (
            if leb d 2
            then 3
            else if leb d 3 || (p || (r || m))
            then 4
            else if leb d 4 && leb n 7
            then 5
            else n)
          < n)
shapes_agree n d true r m h = (λ e. ground arith, λ e. ground arith)
shapes_agree n d false true m h = (λ e. ground arith, λ e. ground arith)
shapes_agree n d false false true h = (λ e. ground arith, λ e. ground arith)
shapes_agree n d false false false h = (λ e. ground arith, λ e. ground arith)

-- A number of seven digits or more is kept back exactly where it is priced below its own length.
pub is_reserved_uin-price_length :
    (uin : ℕ)
    → 6 < length (str uin)
    → (is_reserved_uin uin ≡ true) ↔ (price_length uin < length (str uin))
unfolding is_reserved_uin price_length reserved_shape price_tier
is_reserved_uin-price_length zero h = ground arith
is_reserved_uin-price_length (suc n) h =
    let s = str (suc n) in
    shapes_agree (length s) (distinct s) (is_palindrome s) (has_run s) (matches_pattern s) h

length-digits_onto :
    (fuel n k : ℕ) (ds : List ℕ)
    → n < fuel
    → n < 10 ^ suc k
    → length (digits_onto fuel n ds) ≤ suc k + length ds
unfolding digits_onto
length-digits_onto zero n k ds h p = absurd (omega arith)
length-digits_onto (suc fuel) n zero ds h p = elim (Bool-cases (ltb n 10)) [
  | inl e ↦ rw e (omega arith)
  | inr e ↦ absurd (ground arith)
]
length-digits_onto (suc fuel) n (suc k) ds h p = elim (Bool-cases (ltb n 10)) [
  | inl e ↦ rw e (omega arith)
  | inr e ↦ rw e (
      omega
        (arith, length-digits_onto fuel (n / 10) k ((n % 10) ∷ ds) (ground arith) (ground arith)))
]

pub short_reserved : (uin : ℕ) → 0 < uin → uin < 1000000 → is_reserved_uin uin ≡ true
unfolding is_reserved_uin reserved_shape str
short_reserved zero h p = absurd (omega arith)
short_reserved (suc n) h p =
    ground (arith, length-digits_onto (suc n + 1) (suc n) 5 [] (omega arith) (omega arith))

-- An allocated number has seven digits at least, and is in the range of the settings.
pub allocate_uin-range :
    (now : ℕ) (db : Numbers) (draws : List ℕ) (u : ℕ)
    → All (λ d. d < uin_max - uin_min) draws
    → 100 ≤ length draws
    → allocate_uin now db draws ≡ some u
    → (1000000 ≤ u) × (u < uin_max)
allocate_uin-range now db draws u a l e =
    let ((before, after, draw, split, short, skipped, q), kept, free) =
      rw e at (allocate_uin-Outcome now db draws l) in
    let small =
      All-mem (λ d. d < uin_max - uin_min) draw draws a
        (subst (λ ds. draw ∈ ds) (sym split)
          (mem-append draw before (draw ∷ after) (inr (inl refl)))) in
    (ground (arith, short_reserved u), ground arith)
