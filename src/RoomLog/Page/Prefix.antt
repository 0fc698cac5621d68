-- ===== src/RoomLog/Page/Prefix.antt =====
-- What a page of `_fair_log_page` (app/routers/messages.py) answers of each room.
use rcq_server_ref.RoomLog.Rows.{GroupLog, has_rows, log_above}
use rcq_server_ref.RoomLog.Page.Held.{serve_held-cases}
use rcq_server_ref.RoomLog.Page.Reads.{IsKeyed}
use rcq_server_ref.RoomLog.Page.Rooms.{Serves, no_rows, serve_room-Serves}
use rcq_server_ref.RoomLog.Page.Steps.{take_turns_inv}
use rcq_server_ref.Base.{
  ℕ, arith, [], ◌∷◌, false, List, All, ◌≡◌, ◌∈◌, ◌∙◌, inl, ap, subst, ◌++◌, Bool-cases, any, sym,
  append_assoc, inr, refl, All-replace, All-middle, map, ◌||◌, false≢true, ◌<◌, mem_any, All-of_mem,
  length, All-mem, append-nil, ◌+◌,
}
use rcq_server_ref.RoomLog.Page.{
  Room, serve_held, picking_head, fair_log_page, served_page, start_room, chunk_of, start_page,
}

nothing_left :
    (rooms : List Room)
    → any (λ (m : Room). has_rows m.buf || m.unread) rooms ≡ false
    → (m : Room) → m ∈ rooms
    → (m.buf ≡ []) × (m.unread ≡ false)
nothing_left rooms h m i = elim (Bool-cases (has_rows m.buf || m.unread)) [
  | inl e ↦
      absurd (false≢true (sym h ∙ mem_any (λ (m : Room). has_rows m.buf || m.unread) m rooms i e))
  | inr e ↦ (no_rows m.buf (ground arith), ground arith)
]

pub append_nils : (xs ys : List GroupLog) → xs ≡ [] → ys ≡ [] → xs ++ ys ≡ []
append_nils xs ys p q = rw (p, q) refl

module _ (log : List GroupLog) (uin : ℕ) (starts : List (ℕ × ℕ)) where
  -- The rows above the start are those picked and the rest, and the rest is what is left to answer.
  abbrev pub Answers : Room → Type 0
  Answers m =
      (start : ℕ) × ((m.gid, start) ∈ starts)
      × (log_above log uin m.gid start ≡ m.picked ++ (m.buf ++ log_above log uin m.gid m.read_to))
      × (m.unread ≡ false → log_above log uin m.gid m.read_to ≡ [])

  picking_head-Answers :
      (rows : List GroupLog) (m : Room) → m.buf ≡ rows → Answers m → Answers (picking_head rows m)
  picking_head-Answers [] m e h = h
  picking_head-Answers (r ∷ rows) m e (start, i, split, all) = (
    start,
    i,
    split
        ∙ ap (λ (x : List GroupLog). m.picked ++ (x ++ log_above log uin m.gid m.read_to)) e
        ∙ sym (append_assoc m.picked (r ∷ []) (rows ++ log_above log uin m.gid m.read_to)),
    all,
  )

  Serves-Answers : (rooms : List Room) → All (Serves log uin starts) rooms → All Answers rooms
  Serves-Answers [] h = tt
  Serves-Answers (m ∷ rooms) (s, h) =
      ((s.start, s.is_start, s.split, s.read_all), Serves-Answers rooms h)

  serve_held-Answers : (rooms : List Room) → All Answers rooms → All Answers (serve_held rooms)
  serve_held-Answers rooms h = elim (serve_held-cases rooms) [
    | inl (e, why) ↦ subst (λ x. All Answers x) (sym e) h
    | inr (b, m, a, s, t, n, e) ↦
        let h' = subst (λ x. All Answers x) s h in
        subst (λ x. All Answers x) (sym e)
          (All-replace Answers b m (picking_head m.buf m) a
            (picking_head-Answers m.buf m refl (All-middle Answers b m a h')) h')
  ]

  start_rooms-Serves :
      (asked : List (ℕ × ℕ))
      → ((x : ℕ × ℕ) → x ∈ asked → x ∈ starts)
      → All (Serves log uin starts) (map start_room asked)
  start_rooms-Serves [] h = tt
  start_rooms-Serves ((gid, start) ∷ asked) h = (
    record {
      start = start;
      is_start = h (gid, start) (inl refl);
      split = refl;
      read_all = λ u. absurd (false≢true (sym u));
      spent = λ v. absurd (false≢true (sym v));
      held_row = λ t. absurd (false≢true t);
      free = λ v. refl;
    },
    start_rooms-Serves asked (λ x i. h x (inr i)),
  )

  module _ (limit : ℕ) (keyed : IsKeyed log) (pos : 0 < limit) where
    chunk_pos : 0 < chunk_of limit (length starts)
    unfolding chunk_of
    chunk_pos = omega arith

    pub served_page-Serves : All (Serves log uin starts) (served_page log uin starts limit).rooms
    unfolding served_page
    served_page-Serves =
        take_turns_inv log uin (chunk_of limit (length starts))
          (λ p. All (Serves log uin starts) p.rooms)
          (λ p b m a h e w l.
            serve_room-Serves log uin starts (chunk_of limit (length starts)) keyed chunk_pos p b m
              a h e w)
          (limit + length starts) (start_page starts limit) (start_rooms-Serves starts (λ x i. i))

    -- In each room of a page the rows picked are the first of those that the member may read above
    -- the room's start, with none left out. (The log has no key twice, and the limit is above 0.)
    pub fair_log_page-prefix :
        All
          (λ m.
            (start : ℕ) × ((m.gid, start) ∈ starts)
            × (rest : List GroupLog) × (log_above log uin m.gid start ≡ m.picked ++ rest))
          (fair_log_page log uin starts limit).0
    unfolding fair_log_page
    fair_log_page-prefix = All-of_mem _ _ (λ m i.
        let (start, j, split, all) =
          All-mem Answers m _ (serve_held-Answers _ (Serves-Answers _ served_page-Serves)) i in
        (start, j, m.buf ++ log_above log uin m.gid m.read_to, split))

    -- A page that says that nothing is left has picked, in each room, all that the member may read
    -- above the room's start. (The log has no key twice, and the limit is above 0.)
    pub fair_log_page_complete :
        (fair_log_page log uin starts limit).1 ≡ false
        → All
            (λ m.
              (start : ℕ) × ((m.gid, start) ∈ starts) × (log_above log uin m.gid start ≡ m.picked))
            (fair_log_page log uin starts limit).0
    unfolding fair_log_page
    fair_log_page_complete none_left = All-of_mem _ _ (λ m i.
        let (start, j, split, all) =
          All-mem Answers m _ (serve_held-Answers _ (Serves-Answers _ served_page-Serves)) i in
        let (b, u) = nothing_left _ none_left m i in
        (
          start,
          j,
          split
              ∙ ap (λ (x : List GroupLog). m.picked ++ x) (append_nils m.buf _ b (all u))
              ∙ append-nil m.picked,
        ))
