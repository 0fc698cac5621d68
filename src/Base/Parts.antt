-- ===== src/Base/Parts.antt =====
-- Prefixes and suffixes of a list, its last member, and sums over a list.
use Prim.Native.Nat.{ℕ, zero, suc, ◌+◌}
use mathlib.Core.Path.{◌≡◌, refl, ap}
use mathlib.Core.Logic.{◌≢◌}
use mathlib.Core.List.{List, ◌∷◌, ◌++◌, [], map}
use native.Mathlib.Omega.{arith}
use rcq_server_ref.Base.Lists.{All, length}

module _ {ℓ} {A : Type ℓ} where
  abbrev pub take : ℕ → List A → List A
  take zero xs = []
  take (suc n) [] = []
  take (suc n) (x ∷ xs) = x ∷ take n xs

  abbrev pub drop : ℕ → List A → List A
  drop zero xs = xs
  drop (suc n) [] = []
  drop (suc n) (x ∷ xs) = drop n xs

  abbrev pub sum_by : (A → ℕ) → List A → ℕ
  sum_by f [] = 0
  sum_by f (x ∷ xs) = f x + sum_by f xs

  pub take-append-drop : (n : ℕ) (xs : List A) → take n xs ++ drop n xs ≡ xs
  take-append-drop zero xs = refl
  take-append-drop (suc n) [] = refl
  take-append-drop (suc n) (x ∷ xs) = ap (λ (ys : List A). x ∷ ys) (take-append-drop n xs)

  -- A prefix that is too short is the whole list.
  pub drop_short : (n : ℕ) (xs : List A) → length (take n xs) ≢ n → drop n xs ≡ []
  drop_short zero xs h = absurd (h refl)
  drop_short (suc n) [] h = refl
  drop_short (suc n) (x ∷ xs) h = drop_short n xs (λ e. h (omega arith))

  pub sum_by-append : (f : A → ℕ) (xs ys : List A) → sum_by f (xs ++ ys) ≡ sum_by f xs + sum_by f ys
  sum_by-append f [] ys = omega arith
  sum_by-append f (x ∷ xs) ys = omega (arith, sum_by-append f xs ys)

  -- Replacing one member keeps a predicate of all members.
  pub All-replace {κ} :
      (P : A → Type κ) (xs : List A) (x y : A) (ys : List A)
      → P y
      → All P (xs ++ x ∷ ys)
      → All P (xs ++ y ∷ ys)
  All-replace P [] x y ys p h = (p, h.1)
  All-replace P (z ∷ xs) x y ys p h = (h.0, All-replace P xs x y ys p h.1)

  pub All-middle {κ} :
      (P : A → Type κ) (xs : List A) (x : A) (ys : List A) → All P (xs ++ x ∷ ys) → P x
  All-middle P [] x ys h = h.0
  All-middle P (z ∷ xs) x ys h = All-middle P xs x ys h.1

-- Replacing a member by one with the same image keeps the list of images.
pub map-replace {ℓ κ} :
    {A : Type ℓ} {B : Type κ} (f : A → B) (xs : List A) (x y : A) (ys : List A)
    → f y ≡ f x
    → map f (xs ++ y ∷ ys) ≡ map f (xs ++ x ∷ ys)
map-replace f [] x y ys h = ap (λ b. b ∷ map f ys) h
map-replace f (z ∷ xs) x y ys h = ap (λ bs. f z ∷ bs) (map-replace f xs x y ys h)
