-- ===== src/RoomLog/Page/Progress.antt =====
-- That a page of `_fair_log_page` (app/routers/messages.py) makes progress.
use rcq_server_ref.RoomLog.Rows.{GroupLog, has_rows, log_above}
use rcq_server_ref.RoomLog.Page.Bounds.{
  picked_rows, served, served-InBudget, served_page-ends, held_served, length_pos, length_zero,
}
use rcq_server_ref.RoomLog.Page.Prefix.{served_page-Serves, append_nils}
use rcq_server_ref.RoomLog.Page.Held.{serve_held-cases, smallest_held-none}
use rcq_server_ref.RoomLog.Page.Reads.{IsKeyed}
use rcq_server_ref.RoomLog.Page.Steps.{pop_turn-none}
use rcq_server_ref.RoomLog.Page.Rooms.{Serves}
use rcq_server_ref.Base.{
  ℕ, arith, [], ◌∷◌, true, false, ◌==◌, List, length, ◌≡◌, ◌≢◌, sym, any, Bool-cases, ◌<◌, ap, none,
  All, ◌∈◌, inl, inr, if_false, All-of_mem, ◌||◌, Option-cases, All-mem, subst, ◌∙◌,
}
use rcq_server_ref.RoomLog.Page.{
  Page, Room, fair_log_page, take_turn, chunk_of, smallest_held, pop_turn,
}

some_picked :
    (rooms : List Room) → any (λ (m : Room). has_rows m.picked) rooms ≡ true → 0 < picked_rows rooms
some_picked [] h = cc
some_picked (m ∷ rooms) h = elim (Bool-cases (has_rows m.picked)) [
  | inl e ↦ omega (arith, length_pos m.picked e)
  | inr e ↦ omega (
    arith,
    some_picked rooms (sym (ap (λ x. x || any (λ (m : Room). has_rows m.picked) rooms) e) ∙ h),
  )
]

each_empty : (rooms : List Room) → picked_rows rooms ≡ 0 → (m : Room) → m ∈ rooms → m.picked ≡ []
each_empty [] h m i = absurd i
each_empty (n ∷ rooms) h m (inl e) = rw e (length_zero n.picked (omega arith))
each_empty (n ∷ rooms) h m (inr i) = each_empty rooms (omega arith) m i

-- The loop has stopped for want of rows, or of rooms that wait.
stopped :
    (log : List GroupLog) (uin chunk : ℕ) (p : Page)
    → take_turn log uin chunk p ≡ none
    → p.rows_left ≢ 0
    → All (λ m. m.waiting ≡ false) p.rooms
unfolding take_turn
stopped log uin chunk p h l = pop_turn-none p.rooms (elim (Option-cases (pop_turn p.rooms)) [
  | inl o ↦ o
  | inr ((b, m, a), o) ↦
      absurd (cc (rw o at (sym (if_false (p.rows_left == 0) _ _ (ground arith)) ∙ h)))
])

module _ (log : List GroupLog) (uin : ℕ) (starts : List (ℕ × ℕ)) (limit : ℕ) where
  module _ (keyed : IsKeyed log) (pos : 0 < limit) where
    exhausted_rooms :
        picked_rows (served log uin starts limit).rooms ≡ 0
        → smallest_held (served log uin starts limit).rooms ≡ none
        → (m : Room) → m ∈ (served log uin starts limit).rooms
        → (start : ℕ) × ((m.gid, start) ∈ starts) × (log_above log uin m.gid start ≡ [])
    exhausted_rooms z o m i =
        let (rows, extra, bytes, le, zero_extra) = served-InBudget log uin starts limit in
        let q =
          All-mem (Serves log uin starts) m _ (served_page-Serves log uin starts limit keyed pos)
            i in
        let idle =
          All-mem (λ m. m.waiting ≡ false) m _
            (stopped log uin (chunk_of limit (length starts)) (served log uin starts limit)
              (served_page-ends log uin starts limit) (omega arith))
            i in
        let free =
          All-mem (λ m. m.too_big ≡ false) m _
            (smallest_held-none (served log uin starts limit).rooms o) i in
        let (b, u) = q.spent idle free in
        (
          q.start,
          q.is_start,
          q.split
              ∙ append_nils m.picked _ (each_empty (served log uin starts limit).rooms z m i)
                  (append_nils m.buf _ b (q.read_all u)),
        )

    -- A page with no row in it has nothing to answer: in no room is there a row that the member may
    -- read above its start. (The log has no key twice, and the limit is above 0.)
    pub fair_log_page_progress :
        picked_rows (fair_log_page log uin starts limit).0 ≡ 0
        → All
            (λ m. (start : ℕ) × ((m.gid, start) ∈ starts) × (log_above log uin m.gid start ≡ []))
            (fair_log_page log uin starts limit).0
    unfolding fair_log_page
    fair_log_page_progress h = elim (serve_held-cases (served log uin starts limit).rooms) [
      | inl (e, inl p) ↦
          absurd
            (omega (arith, ap picked_rows e, some_picked (served log uin starts limit).rooms p))
      | inl (e, inr o) ↦ All-of_mem _ _ (λ m i.
          exhausted_rooms (omega (arith, ap picked_rows e)) o m (subst (λ rooms. m ∈ rooms) e i))
      | inr (b, m, a, s, t, n, e) ↦
          absurd (omega (arith, held_served log uin starts limit keyed pos b m a s t n e))
    ]
