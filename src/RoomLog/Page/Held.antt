-- ===== src/RoomLog/Page/Held.antt =====
-- The row that goes out alone: `too_big` and its least row in `_fair_log_page`
-- (app/routers/messages.py).
use rcq_server_ref.RoomLog.Rows.{has_rows}
use rcq_server_ref.RoomLog.Page.Steps.{Split, behind-none}
use rcq_server_ref.Base.{
  arith, [], ◌∷◌, true, false, List, Option, All, ◌≡◌, some, ◌⊎◌, ◌∙◌, inl, ◌++◌, Bool-cases, any,
  sym, none, leb, if_true, inr, refl, if_false, Option-cases, ◌≢◌,
}
use rcq_server_ref.RoomLog.Page.{
  Room, smallest_held, serve_held, picking_head, behind, or_smaller, head_size,
}

smallest_held-or_smaller :
    (m : Room) (rooms : List Room) (o : Option Split) (b a : List Room) (n : Room)
    → ((b' a' : List Room) (n' : Room)
        → o ≡ some (b', n', a')
        → (rooms ≡ b' ++ n' ∷ a') × (n'.too_big ≡ true))
    → m.too_big ≡ true
    → or_smaller m rooms o ≡ some (b, n, a)
    → (m ∷ rooms ≡ b ++ n ∷ a) × (n.too_big ≡ true)
smallest_held-or_smaller m rooms none b a n ih w h = ground arith
smallest_held-or_smaller m rooms (some (b', n', a')) b a n ih w h =
    elim (Bool-cases (leb (head_size m.buf) (head_size n'.buf))) [
      | inl e ↦ let h' = rw e at h in ground arith
      | inr e ↦ let h' = rw e at h in let q = ih b' a' n' refl in ground arith
    ]

smallest_held-behind :
    (m : Room) (rooms : List Room) (o : Option Split) (b a : List Room) (n : Room)
    → ((b' a' : List Room) (n' : Room)
        → o ≡ some (b', n', a')
        → (rooms ≡ b' ++ n' ∷ a') × (n'.too_big ≡ true))
    → behind m o ≡ some (b, n, a)
    → (m ∷ rooms ≡ b ++ n ∷ a) × (n.too_big ≡ true)
smallest_held-behind m rooms none b a n ih h = absurd (cc h)
smallest_held-behind m rooms (some (b', n', a')) b a n ih h =
    let q = ih b' a' n' refl in ground arith

pub smallest_held-some :
    (rooms b a : List Room) (n : Room)
    → smallest_held rooms ≡ some (b, n, a)
    → (rooms ≡ b ++ n ∷ a) × (n.too_big ≡ true)
unfolding smallest_held
smallest_held-some [] b a n h = absurd (cc h)
smallest_held-some (m ∷ rooms) b a n h = elim (Bool-cases m.too_big) [
  | inl w ↦
      smallest_held-or_smaller m rooms (smallest_held rooms) b a n
        (λ b' a' n'. smallest_held-some rooms b' a' n') w (sym (if_true m.too_big _ _ w) ∙ h)
  | inr w ↦
      smallest_held-behind m rooms (smallest_held rooms) b a n
        (λ b' a' n'. smallest_held-some rooms b' a' n') (sym (if_false m.too_big _ _ w) ∙ h)
]

or_smaller-ne-none : (m : Room) (a : List Room) (o : Option Split) → or_smaller m a o ≢ none
or_smaller-ne-none m a none h = cc h
or_smaller-ne-none m a (some (b, n, c)) h = ground arith

pub smallest_held-none :
    (rooms : List Room) → smallest_held rooms ≡ none → All (λ m. m.too_big ≡ false) rooms
unfolding smallest_held
smallest_held-none [] h = tt
smallest_held-none (m ∷ rooms) h = elim (Bool-cases m.too_big) [
  | inl t ↦
      absurd (or_smaller-ne-none m rooms (smallest_held rooms) (sym (if_true m.too_big _ _ t) ∙ h))
  | inr t ↦ (
    t,
    smallest_held-none rooms
        (behind-none m (smallest_held rooms) (sym (if_false m.too_big _ _ t) ∙ h)),
  )
]

-- What `serve_held` gives back: the rooms, or the rooms with the first row of a held one picked.
pub serve_held-cases :
    (rooms : List Room)
    → ((serve_held rooms ≡ rooms)
        × ((any (λ (n : Room). has_rows n.picked) rooms ≡ true) ⊎ (smallest_held rooms ≡ none)))
      ⊎ ((b : List Room) × (m : Room) × (a : List Room) × (rooms ≡ b ++ m ∷ a)
          × (m.too_big ≡ true)
          × (any (λ (n : Room). has_rows n.picked) rooms ≡ false)
          × (serve_held rooms ≡ b ++ picking_head m.buf m ∷ a))
unfolding serve_held
serve_held-cases rooms = elim (Bool-cases (any (λ (m : Room). has_rows m.picked) rooms)) [
  | inl e ↦ inl (if_true (any (λ (m : Room). has_rows m.picked) rooms) _ _ e, inl e)
  | inr e ↦
      let go = if_false (any (λ (m : Room). has_rows m.picked) rooms) _ _ e in
      elim (Option-cases (smallest_held rooms)) [
        | inl o ↦ inl (go ∙ rw o refl, inr o)
        | inr ((b, m, a), o) ↦
            let (s, t) = smallest_held-some rooms b a m o in inr (b, m, a, s, t, e, go ∙ rw o refl)
      ]
]
