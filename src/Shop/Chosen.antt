-- ===== src/Shop/Chosen.antt =====
-- The number of a new account is nobody's (`register` of app/routers/auth.py).
use Prim.Native.String.{String}
use rcq_server_ref.Base.{
  ℕ, arith, List, Option, Bool, none, some, true, false, ◌≡◌, ◌⊎◌, inl, inr, sym, ◌∙◌, ap,
  Bool-cases, not, ◌&&◌, ◌||◌, ltb, leb,
}
use rcq_server_ref.Uin.Taken.{Numbers, uin_is_taken, uin_max, allocate_in}
use rcq_server_ref.Uin.Shape.{is_reserved_uin}
use rcq_server_ref.Shop.Tables.{find_deed}
use rcq_server_ref.Shop.Collection.{has_user}
use rcq_server_ref.Shop.Door.{granted, desired, or_else}
use rcq_server_ref.Shop.Bought.{not_taken}
use rcq_server_ref.Shop.Drawn.{allocate_in_free}

or_else-some : (a b : Option ℕ) (n : ℕ) → or_else a b ≡ some n → (a ≡ some n) ⊎ (b ≡ some n)
unfolding or_else
or_else-some none b n h = inr h
or_else-some (some u) b n h = inl h

granted_free :
    (hash : String → String) (now : ℕ) (code : String) (o : Option ℕ) (numbers : Numbers) (n : ℕ)
    → granted hash now code o numbers ≡ some n
    → uin_is_taken now numbers n (some (hash code)) false ≡ false
unfolding granted
granted_free hash now code none numbers n h = absurd (cc h)
granted_free hash now code (some u) numbers n h =
    elim (Bool-cases (uin_is_taken now numbers u (some (hash code)) false)) [
      | inl b ↦ absurd (let h' = rw b at h in cc h')
      | inr b ↦
          let h' : some u ≡ some n = rw b at h in
          let e : u ≡ n = cc h' in
          ap (λ x. uin_is_taken now numbers x (some (hash code)) false) (sym e) ∙ b
    ]

desired_free :
    (hash : String → String) (now : ℕ) (proven tenure : Bool) (o : Option ℕ) (numbers : Numbers)
    (n : ℕ)
    → desired hash now proven tenure o numbers ≡ some n
    → (uin_is_taken now numbers n none false ≡ false)
      × ((is_reserved_uin n ≡ false) ⊎ (tenure ≡ true))
unfolding desired
desired_free hash now proven tenure none numbers n h = absurd (cc h)
desired_free hash now proven tenure (some u) numbers n h =
    let gates =
      proven
      && (ltb 0 u && leb u uin_max)
      && (not (uin_is_taken now numbers u none false) && (not (is_reserved_uin u) || tenure)) in
    elim (Bool-cases gates) [
      | inl b ↦
          let h' : some u ≡ some n = rw b at h in
          let e : u ≡ n = cc h' in
          rw (sym e)
            (ground arith, elim (Bool-cases tenure) [ inl t ↦ inr t | inr t ↦ inl (ground arith) ])
      | inr b ↦ absurd (let h' = rw b at h in cc h')
    ]

-- The number of a new account is nobody's.
pub chosen_free :
    (hash : String → String) (now : ℕ) (code : String) (reserved asked : Option ℕ)
    (proven tenure : Bool) (numbers : Numbers) (draws : List ℕ) (n : ℕ)
    → or_else
        (granted hash now code reserved numbers)
        (or_else (desired hash now proven tenure asked numbers) (allocate_in 100 now numbers draws))
      ≡ some n
    → (has_user n numbers.users ≡ false) × (find_deed n numbers.owned ≡ none)
chosen_free hash now code reserved asked proven tenure numbers draws n h =
    elim (or_else-some (granted hash now code reserved numbers) _ n h) [
      | inl g ↦
          not_taken now numbers n (some (hash code)) false
            (granted_free hash now code reserved numbers n g)
      | inr r ↦ elim (or_else-some (desired hash now proven tenure asked numbers) _ n r) [
        | inl d ↦
            not_taken now numbers n none false
              (desired_free hash now proven tenure asked numbers n d).0
        | inr a ↦ not_taken now numbers n none false (allocate_in_free 100 now numbers draws n a).1
      ]
    ]
