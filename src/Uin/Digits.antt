-- ===== src/Uin/Digits.antt =====
-- `str(uin)` of app/services/uin.py, as the list of its decimal digits.
use rcq_server_ref.Base.{
  ℕ, arith, List, All, ◌≡◌, ◌∷◌, ◌+◌, ◌<◌, suc, [], Bool-cases, ◌/◌, ◌*◌, ltb, ◌%◌, inl,
  if◌then◌else◌, ap, inr, zero, ◌∙◌,
}

-- The digits from the last to the first; `fuel` bounds their number.
unfoldable pub digits_onto : ℕ → ℕ → List ℕ → List ℕ
digits_onto zero n acc = acc
digits_onto (suc fuel) n acc =
    let rest = digits_onto fuel (n / 10) ((n % 10) ∷ acc) in if ltb n 10 then n ∷ acc else rest

unfoldable pub str : ℕ → List ℕ
unfolding digits_onto
str n = digits_onto (n + 1) n []

-- The number that a list of digits writes, after the digits that `acc` stands for.
abbrev pub value_from : ℕ → List ℕ → ℕ
value_from acc [] = acc
value_from acc (d ∷ ds) = value_from (acc * 10 + d) ds

digits_onto-value :
    (fuel n acc : ℕ) (ds : List ℕ)
    → n < fuel
    → value_from 0 (digits_onto fuel n ds) ≡ value_from n ds
unfolding digits_onto
digits_onto-value zero n acc ds h = absurd (omega arith)
digits_onto-value (suc fuel) n acc ds h = elim (Bool-cases (ltb n 10)) [
  | inl small ↦ rw small (ap (λ (k : ℕ). value_from k ds) (omega arith))
  | inr big ↦ rw big (
      digits_onto-value fuel (n / 10) acc ((n % 10) ∷ ds) (ground arith)
      ∙ ap (λ (k : ℕ). value_from k ds) (omega arith))
]

-- The digits write the number.
pub value_from-str : (n : ℕ) → value_from 0 (str n) ≡ n
unfolding str
value_from-str n = digits_onto-value (n + 1) n 0 [] (omega arith)

All-digits_onto :
    (fuel n : ℕ) (ds : List ℕ) → All (λ d. d < 10) ds → All (λ d. d < 10) (digits_onto fuel n ds)
unfolding digits_onto
All-digits_onto zero n ds h = h
All-digits_onto (suc fuel) n ds h = elim (Bool-cases (ltb n 10)) [
  | inl small ↦ rw small (ground arith, h)
  | inr big ↦ rw big (All-digits_onto fuel (n / 10) ((n % 10) ∷ ds) (omega arith, h))
]

pub All-str : (n : ℕ) → All (λ d. d < 10) (str n)
unfolding str
All-str n = All-digits_onto (n + 1) n [] tt
