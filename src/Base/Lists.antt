-- ===== src/Base/Lists.antt =====
-- Lists: length, tests over all members, selection, and membership as a predicate by recursion.
use Prim.Native.Nat.{ℕ, suc, ◌+◌}
use Prim.Native.String.{String, ◌++◌ as append}
use mathlib.Core.Path.{◌≡◌, refl, ap}
use mathlib.Core.Logic.{◌⊎◌, inl, inr}
use mathlib.Core.Bool.{Bool, true, false, ◌||◌, false≢true}
use mathlib.Core.List.{List, ◌∷◌, ◌++◌, map, []}
use native.Mathlib.Omega.{arith}
use rcq_server_ref.Base.Tests.{if◌then◌else◌, Bool-cases}

module _ {ℓ} {A : Type ℓ} where
  abbrev pub length : List A → ℕ
  length [] = 0
  length (x ∷ xs) = suc (length xs)

  -- `[x for x in xs if keep(x)]`, and a `WHERE` clause.
  abbrev pub filter : (A → Bool) → List A → List A
  filter p [] = []
  filter p (x ∷ xs) = if p x then x ∷ filter p xs else filter p xs

  abbrev pub any : (A → Bool) → List A → Bool
  any p [] = false
  any p (x ∷ xs) = p x || any p xs

  abbrev pub All {κ} : (A → Type κ) → List A → Type κ
  All P [] = Unit
  All P (x ∷ xs) = P x × All P xs

  pub length-append : (xs ys : List A) → length (xs ++ ys) ≡ length xs + length ys
  length-append [] ys = omega arith
  length-append (x ∷ xs) ys = omega (arith, length-append xs ys)

module _ {A : Type 0} where
  infix 50 ◌∈◌
  abbrev pub ◌∈◌ : A → List A → Type 0
  a ∈ [] = ⊥
  a ∈ (x ∷ xs) = (a ≡ x) ⊎ (a ∈ xs)

  pub mem-filter : (p : A → Bool) (a : A) (xs : List A) → p a ≡ true → a ∈ xs → a ∈ filter p xs
  mem-filter p a [] h m = m
  mem-filter p a (x ∷ xs) h (inl e) = ground (arith, ap p e)
  mem-filter p a (x ∷ xs) h (inr m) = ground (arith, mem-filter p a xs h m)

  pub filter-mem : (p : A → Bool) (a : A) (xs : List A) → a ∈ filter p xs → (a ∈ xs) × (p a ≡ true)
  filter-mem p a [] m = absurd m
  filter-mem p a (x ∷ xs) m = ground (arith, filter-mem p a xs, ap p {x = a} {y = x})

  pub mem-append : (a : A) (xs ys : List A) → (a ∈ xs) ⊎ (a ∈ ys) → a ∈ (xs ++ ys)
  mem-append a [] ys (inl m) = absurd m
  mem-append a [] ys (inr m) = m
  mem-append a (x ∷ xs) ys (inl (inl e)) = inl e
  mem-append a (x ∷ xs) ys (inl (inr m)) = inr (mem-append a xs ys (inl m))
  mem-append a (x ∷ xs) ys (inr m) = inr (mem-append a xs ys (inr m))

  pub append-mem : (a : A) (xs ys : List A) → a ∈ (xs ++ ys) → (a ∈ xs) ⊎ (a ∈ ys)
  append-mem a [] ys m = inr m
  append-mem a (x ∷ xs) ys (inl e) = inl (inl e)
  append-mem a (x ∷ xs) ys (inr m) = ground (arith, append-mem a xs ys m)

  pub All-mem {κ} : (P : A → Type κ) (a : A) (xs : List A) → All P xs → a ∈ xs → P a
  All-mem P a [] h m = absurd m
  All-mem P a (x ∷ xs) h (inl e) = rw e h.0
  All-mem P a (x ∷ xs) h (inr m) = All-mem P a xs h.1 m

  pub All-of_mem {κ} : (P : A → Type κ) (xs : List A) → ((a : A) → a ∈ xs → P a) → All P xs
  All-of_mem P [] h = tt
  All-of_mem P (x ∷ xs) h = (h x (inl refl), All-of_mem P xs (λ a i. h a (inr i)))

  pub any_mem : (p : A → Bool) (xs : List A) → any p xs ≡ true → (a : A) × (a ∈ xs) × (p a ≡ true)
  any_mem p [] h = absurd (false≢true h)
  any_mem p (x ∷ xs) h = elim (Bool-cases (p x)) [
    | inl e ↦ (x, inl refl, e)
    | inr e ↦ let (a, i, q) = any_mem p xs (rw e at h) in (a, inr i, q)
  ]

  pub mem_any : (p : A → Bool) (a : A) (xs : List A) → a ∈ xs → p a ≡ true → any p xs ≡ true
  mem_any p a [] m h = absurd m
  mem_any p a (x ∷ xs) (inl e) h = ground (arith, ap p e)
  mem_any p a (x ∷ xs) (inr m) h = ground (arith, mem_any p a xs m h)

  pub nil_of_no_mem : (xs : List A) → ((a : A) → ¬ (a ∈ xs)) → xs ≡ []
  nil_of_no_mem [] h = refl
  nil_of_no_mem (x ∷ xs) h = absurd (h x (inl refl))

module _ {A B : Type 0} where
  pub mem-map : (f : A → B) (a : A) (xs : List A) → a ∈ xs → f a ∈ map f xs
  mem-map f a [] m = m
  mem-map f a (x ∷ xs) (inl e) = inl (ap f e)
  mem-map f a (x ∷ xs) (inr m) = inr (mem-map f a xs m)

  pub map-mem : (f : A → B) (b : B) (xs : List A) → b ∈ map f xs → (a : A) × (a ∈ xs) × (b ≡ f a)
  map-mem f b [] m = absurd m
  map-mem f b (x ∷ xs) (inl e) = (x, inl refl, e)
  map-mem f b (x ∷ xs) (inr m) = let (a, i, e) = map-mem f b xs m in (a, inr i, e)

-- The pieces of a formatted text, joined.
abbrev pub joined : List String → String
joined [] = ""
joined (s ∷ ss) = append s (joined ss)
