-- ===== src/Base/Distinct.antt =====
-- How many different numbers a list has: `len(set(s))`.
use Prim.Native.Nat.{ℕ, suc, ◌≤◌, ◌<◌}
use mathlib.Core.Path.{◌≡◌, ap, refl}
use mathlib.Core.Logic.{inl, inr}
use mathlib.Core.Bool.{Bool, false, not}
use mathlib.Core.List.{List, ◌∷◌, []}
use native.Mathlib.Omega.{arith}
use rcq_server_ref.Base.Tests.{if◌then◌else◌, ◌==◌, Bool-cases}
use rcq_server_ref.Base.Lists.{◌∈◌, any, filter, length, mem-filter, mem_any}

unfoldable pub distinct : List ℕ → ℕ
distinct [] = 0
distinct (d ∷ s) = if any (λ e. e == d) s then distinct s else suc (distinct s)

pub length-filter : {A : Type 0} (p : A → Bool) (xs : List A) → length (filter p xs) ≤ length xs
length-filter p [] = omega arith
length-filter p (x ∷ xs) = ground (arith, length-filter p xs)

-- A selection that leaves a member out is shorter.
length-filter_lt :
    {A : Type 0} (p : A → Bool) (a : A) (xs : List A)
    → a ∈ xs
    → p a ≡ false
    → length (filter p xs) < length xs
length-filter_lt p a [] m h = absurd m
length-filter_lt p a (x ∷ xs) (inl e) h = ground (arith, ap p e, length-filter p xs)
length-filter_lt p a (x ∷ xs) (inr m) h = ground (arith, length-filter_lt p a xs m h)

-- A list whose members are all in `ys` has no more different ones than `ys` is long.
pub distinct_le : (xs ys : List ℕ) → ((a : ℕ) → a ∈ xs → a ∈ ys) → distinct xs ≤ length ys
unfolding distinct
distinct_le [] ys h = omega arith
distinct_le (x ∷ xs) ys h = elim (Bool-cases (any (λ e. e == x) xs)) [
  | inl e ↦ rw e (distinct_le xs ys (λ a i. h a (inr i)))
  | inr e ↦
      let others = λ (a : ℕ). not (a == x) in
      rw e (
        omega (
          arith,
          length-filter_lt others x ys (h x (inl refl)) (ground arith),
          distinct_le xs (filter others ys) (λ a i.
              mem-filter others a ys (ground (arith, mem_any (λ (e : ℕ). e == x) a xs i))
                (h a (inr i))),
        ))
]
