-- ===== src/RoomLog/Page/Steps.antt =====
-- The loop of `_fair_log_page` (app/routers/messages.py): what one pass does, a rule for invariants,
-- and that the loop ends.
use rcq_server_ref.RoomLog.Rows.{GroupLog, has_rows}
use rcq_server_ref.Base.{
  ◌==◌, if◌then◌else◌, ℕ, arith, [], ◌∷◌, true, false, List, Option, sum_by, ◌≡◌, ◌+◌, some, none,
  ◌++◌, ◌≤◌, Bool-cases, All, ◌≢◌, suc, leb, ◌<◌, inl, zero, inr, refl, sym, Option-cases, if_true,
  ◌∙◌, if_false, subst, sum_by-append, not, ap, ◌&&◌,
}
use rcq_server_ref.RoomLog.Page.{
  Page, Room, pop_turn, take_turn, take_turns, serve_room, Turn, after_turn, turn_of, refill,
  or_first, behind, picking,
}
use rcq_server_ref.RoomLog.Page.{exhausted, held, stretch, charge}

abbrev pub Split : Type 0
Split = List Room × Room × List Room

pop_turn-or_first :
    (m : Room) (rooms : List Room) (o : Option Split) (b a : List Room) (n : Room)
    → ((b' a' : List Room) (n' : Room)
        → o ≡ some (b', n', a')
        → (rooms ≡ b' ++ n' ∷ a') × (n'.waiting ≡ true))
    → m.waiting ≡ true
    → or_first [] m rooms o ≡ some (b, n, a)
    → (m ∷ rooms ≡ b ++ n ∷ a) × (n.waiting ≡ true)
pop_turn-or_first m rooms none b a n ih w h = ground arith
pop_turn-or_first m rooms (some (b', n', a')) b a n ih w h =
    elim (Bool-cases (leb m.given n'.given)) [
      | inl e ↦ let h' = rw e at h in ground arith
      | inr e ↦ let h' = rw e at h in let q = ih b' a' n' refl in ground arith
    ]

pop_turn-behind :
    (m : Room) (rooms : List Room) (o : Option Split) (b a : List Room) (n : Room)
    → ((b' a' : List Room) (n' : Room)
        → o ≡ some (b', n', a')
        → (rooms ≡ b' ++ n' ∷ a') × (n'.waiting ≡ true))
    → behind m o ≡ some (b, n, a)
    → (m ∷ rooms ≡ b ++ n ∷ a) × (n.waiting ≡ true)
pop_turn-behind m rooms none b a n ih h = absurd (cc h)
pop_turn-behind m rooms (some (b', n', a')) b a n ih h = let q = ih b' a' n' refl in ground arith

-- The room that is popped is one of the rooms, and it waits.
pub pop_turn-some :
    (rooms b a : List Room) (n : Room)
    → pop_turn rooms ≡ some (b, n, a)
    → (rooms ≡ b ++ n ∷ a) × (n.waiting ≡ true)
unfolding pop_turn
pop_turn-some [] b a n h = absurd (cc h)
pop_turn-some (m ∷ rooms) b a n h = elim (Bool-cases m.waiting) [
  | inl w ↦
      pop_turn-or_first m rooms (pop_turn rooms) b a n (λ b' a' n'. pop_turn-some rooms b' a' n') w
        (sym (if_true m.waiting _ _ w) ∙ h)
  | inr w ↦
      pop_turn-behind m rooms (pop_turn rooms) b a n (λ b' a' n'. pop_turn-some rooms b' a' n')
        (sym (if_false m.waiting _ _ w) ∙ h)
]

or_first-ne-none :
    (b : List Room) (m : Room) (a : List Room) (o : Option Split) → or_first b m a o ≢ none
or_first-ne-none b m a none h = cc h
or_first-ne-none b m a (some (b', n, a')) h = ground arith

pub behind-none : (m : Room) (o : Option Split) → behind m o ≡ none → o ≡ none
behind-none m none h = refl
behind-none m (some (b, n, a)) h = absurd (cc h)

pub pop_turn-none : (rooms : List Room) → pop_turn rooms ≡ none → All (λ m. m.waiting ≡ false) rooms
unfolding pop_turn
pop_turn-none [] h = tt
pop_turn-none (m ∷ rooms) h = elim (Bool-cases m.waiting) [
  | inl w ↦
      absurd (or_first-ne-none [] m rooms (pop_turn rooms) (sym (if_true m.waiting _ _ w) ∙ h))
  | inr w ↦
      (w, pop_turn-none rooms (behind-none m (pop_turn rooms) (sym (if_false m.waiting _ _ w) ∙ h)))
]

-- How many rooms wait.
abbrev pub waiting : List Room → ℕ
waiting rooms = sum_by (λ m. if m.waiting then 1 else 0) rooms

waiting_middle :
    (b : List Room) (m : Room) (a : List Room)
    → m.waiting ≡ true
    → waiting (b ++ m ∷ a) ≡ waiting b + waiting a + 1
waiting_middle b m a w = omega (
  arith,
  sum_by-append (λ (r : Room). if r.waiting then 1 else 0) b (m ∷ a),
  if_true {A = ℕ} m.waiting 1 0 w,
)

waiting_left :
    (b : List Room) (m : Room) (a : List Room)
    → m.waiting ≡ false
    → waiting (b ++ m ∷ a) ≡ waiting b + waiting a
waiting_left b m a w = omega (
  arith,
  sum_by-append (λ (r : Room). if r.waiting then 1 else 0) b (m ∷ a),
  if_false {A = ℕ} m.waiting 1 0 w,
)

after_turn-falls :
    (p : Page) (b : List Room) (n : Room) (a : List Room) (t : Turn)
    → n.waiting ≡ true
    → p.rows_left ≢ 0
    → let q = after_turn p b n a t in
      q.rows_left + waiting q.rooms < p.rows_left + waiting (b ++ n ∷ a)
unfolding after_turn
after_turn-falls p b n a exhausted w l =
    omega (arith, waiting_middle b n a w, waiting_left b (record n { waiting = false }) a refl)
after_turn-falls p b n a held w l = omega (
  arith,
  waiting_middle b n a w,
  waiting_left b (record n { waiting = false; too_big = true }) a refl,
)
after_turn-falls p b n a (stretch r rows) w l =
    omega (arith, waiting_middle b n a w, waiting_middle b (picking r rows n) a w)
after_turn-falls p b n a (charge r rows) w l =
    omega (arith, waiting_middle b n a w, waiting_middle b (picking r rows n) a w)

module _ (log : List GroupLog) (uin chunk : ℕ) where
  -- A pass that goes on serves a waiting room.
  pub take_turn-some :
      (p q : Page)
      → take_turn log uin chunk p ≡ some q
      → (b : List Room) × (m : Room) × (a : List Room) × (p.rooms ≡ b ++ m ∷ a)
        × (m.waiting ≡ true)
        × (p.rows_left ≢ 0)
        × (q ≡ serve_room log uin chunk p b m a)
  unfolding take_turn
  take_turn-some p q h = elim (Bool-cases (p.rows_left == 0)) [
    | inl e ↦ absurd (cc (sym (if_true (p.rows_left == 0) _ _ e) ∙ h))
    | inr e ↦
        let go = sym (if_false (p.rows_left == 0) _ _ e) ∙ h in
        elim (Option-cases (pop_turn p.rooms)) [
          | inl o ↦ absurd (cc (rw o at go))
          | inr ((b, m, a), o) ↦
              let (s, w) = pop_turn-some p.rooms b a m o in
              (b, m, a, s, w, ground arith, ground arith)
        ]
  ]

  take_turns-none :
      (fuel : ℕ) (p : Page)
      → take_turn log uin chunk p ≡ none
      → take_turns (suc fuel) log uin chunk p ≡ p
  unfolding take_turns
  take_turns-none fuel p o = rw (o, take_turns) refl

  take_turns-some :
      (fuel : ℕ) (p q : Page)
      → take_turn log uin chunk p ≡ some q
      → take_turns (suc fuel) log uin chunk p ≡ take_turns fuel log uin chunk q
  unfolding take_turns
  take_turns-some fuel p q o = rw (o, take_turns) refl

  take_turns_zero : (p : Page) → take_turns 0 log uin chunk p ≡ p
  unfolding take_turns
  take_turns_zero p = refl

  pub take_turns_inv {κ} :
      (P : Page → Type κ)
      → ((p : Page) (b : List Room) (m : Room) (a : List Room)
          → P p
          → p.rooms ≡ b ++ m ∷ a
          → m.waiting ≡ true
          → p.rows_left ≢ 0
          → P (serve_room log uin chunk p b m a))
      → (fuel : ℕ) (p : Page) → P p
      → P (take_turns fuel log uin chunk p)
  take_turns_inv P keep zero p h = subst P (sym (take_turns_zero p)) h
  take_turns_inv P keep (suc fuel) p h = elim (Option-cases (take_turn log uin chunk p)) [
    | inl o ↦ subst P (sym (take_turns-none fuel p o)) h
    | inr (q, o) ↦
        let (b, m, a, s, w, l, e) = take_turn-some p q o in
        subst P (sym (take_turns-some fuel p q o))
          (take_turns_inv P keep fuel q (subst P (sym e) (keep p b m a h s w l)))
  ]

  refill-waiting : (m : Room) → (refill log uin chunk m).waiting ≡ m.waiting
  unfolding refill
  refill-waiting m = elim (Bool-cases (not (has_rows m.buf) && m.unread)) [
    | inl e ↦ ap (λ (n : Room). n.waiting) (if_true (not (has_rows m.buf) && m.unread) _ _ e)
    | inr e ↦ ap (λ (n : Room). n.waiting) (if_false (not (has_rows m.buf) && m.unread) _ _ e)
  ]

  serve_room-falls :
      (p : Page) (b : List Room) (m : Room) (a : List Room)
      → p.rooms ≡ b ++ m ∷ a
      → m.waiting ≡ true
      → p.rows_left ≢ 0
      → let q = serve_room log uin chunk p b m a in
        q.rows_left + waiting q.rooms < p.rows_left + waiting p.rooms
  unfolding serve_room
  serve_room-falls p b m a e w l =
      let n = refill log uin chunk m in
      omega (
        arith,
        after_turn-falls p b n a (turn_of p.bytes_left p.stretched n.given n.buf)
            (refill-waiting m ∙ w) l,
        waiting_middle b m a w,
        waiting_middle b n a (refill-waiting m ∙ w),
        ap waiting e,
      )

  take_turn-stops : (p : Page) → p.rows_left ≡ 0 → take_turn log uin chunk p ≡ none
  unfolding take_turn
  take_turn-stops p h = if_true (p.rows_left == 0) _ _ (ground arith)

  -- With as much fuel as there are rows left and rooms that wait, the loop has ended.
  pub take_turns-ends :
      (fuel : ℕ) (p : Page)
      → p.rows_left + waiting p.rooms ≤ fuel
      → take_turn log uin chunk (take_turns fuel log uin chunk p) ≡ none
  take_turns-ends zero p h = rw take_turns_zero (take_turn-stops p (omega arith))
  take_turns-ends (suc fuel) p h = elim (Option-cases (take_turn log uin chunk p)) [
    | inl o ↦ rw (take_turns-none fuel p o) o
    | inr (q, o) ↦
        let (b, m, a, s, w, l, e) = take_turn-some p q o in
        rw (take_turns-some fuel p q o)
          (take_turns-ends fuel q (ground (arith, serve_room-falls p b m a s w l)))
  ]
