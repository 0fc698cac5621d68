-- ===== src/Base/Sort.antt =====
-- `ORDER BY` and `sorted`: a stable insertion sort by a numeric key.
use Prim.Native.Nat.{ℕ, ◌≤◌}
use mathlib.Core.Path.{◌≡◌}
use mathlib.Core.Logic.{◌⊎◌, inl, inr}
use mathlib.Core.List.{List, ◌∷◌, []}
use native.Mathlib.Omega.{arith}
use rcq_server_ref.Base.Tests.{leb, if◌then◌else◌}
use rcq_server_ref.Base.Lists.{◌∈◌, All}

module _ {A : Type 0} (key : A → ℕ) where
  unfoldable pub insert_by : A → List A → List A
  insert_by x [] = x ∷ []
  insert_by x (y ∷ ys) = if leb (key x) (key y) then x ∷ y ∷ ys else y ∷ insert_by x ys

  unfoldable pub sort_by : List A → List A
  unfolding insert_by
  sort_by [] = []
  sort_by (x ∷ xs) = insert_by x (sort_by xs)

  pub insert_by-mem : (a x : A) (xs : List A) → a ∈ insert_by x xs → (a ≡ x) ⊎ (a ∈ xs)
  unfolding insert_by
  insert_by-mem a x [] m = m
  insert_by-mem a x (y ∷ ys) m = ground (arith, insert_by-mem a x ys)

  pub mem-insert_by : (a x : A) (xs : List A) → (a ≡ x) ⊎ (a ∈ xs) → a ∈ insert_by x xs
  unfolding insert_by
  mem-insert_by a x [] m = m
  mem-insert_by a x (y ∷ ys) m = ground (arith, mem-insert_by a x ys)

  pub sort_by-mem : (a : A) (xs : List A) → a ∈ sort_by xs → a ∈ xs
  unfolding sort_by
  sort_by-mem a [] m = m
  sort_by-mem a (x ∷ xs) m = ground (arith, insert_by-mem a x (sort_by xs) m, sort_by-mem a xs)

  pub mem-sort_by : (a : A) (xs : List A) → a ∈ xs → a ∈ sort_by xs
  unfolding sort_by
  mem-sort_by a [] m = m
  mem-sort_by a (x ∷ xs) (inl e) = mem-insert_by a x (sort_by xs) (inl e)
  mem-sort_by a (x ∷ xs) (inr m) = mem-insert_by a x (sort_by xs) (inr (mem-sort_by a xs m))

  -- Each key is at most every key behind it.
  abbrev pub IsSortedBy : List A → Type 0
  IsSortedBy [] = Unit
  IsSortedBy (x ∷ xs) = All (λ y. key x ≤ key y) xs × IsSortedBy xs

  All-insert_by :
      (n : ℕ) (x : A) (xs : List A)
      → n ≤ key x
      → All (λ y. n ≤ key y) xs
      → All (λ y. n ≤ key y) (insert_by x xs)
  unfolding insert_by
  All-insert_by n x [] p h = (p, tt)
  All-insert_by n x (y ∷ ys) p h = ground (arith, All-insert_by n x ys p h.1)

  All-le_trans : (n m : ℕ) (xs : List A) → n ≤ m → All (λ y. m ≤ key y) xs → All (λ y. n ≤ key y) xs
  All-le_trans n m [] p h = tt
  All-le_trans n m (x ∷ xs) p h = (omega arith, All-le_trans n m xs p h.1)

  insert_by-IsSortedBy : (x : A) (xs : List A) → IsSortedBy xs → IsSortedBy (insert_by x xs)
  unfolding insert_by
  insert_by-IsSortedBy x [] h = (tt, tt)
  insert_by-IsSortedBy x (y ∷ ys) h = ground (
    arith,
    insert_by-IsSortedBy x ys h.1,
    All-insert_by (key y) x ys,
    All-le_trans (key x) (key y) ys,
  )

  pub sort_by-IsSortedBy : (xs : List A) → IsSortedBy (sort_by xs)
  unfolding sort_by
  sort_by-IsSortedBy [] = tt
  sort_by-IsSortedBy (x ∷ xs) = insert_by-IsSortedBy x (sort_by xs) (sort_by-IsSortedBy xs)
