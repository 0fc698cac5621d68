-- ===== src/RoomLog/Page/Rooms.antt =====
-- Each room of a page of `_fair_log_page` (app/routers/messages.py): what was picked is a prefix of
-- what the member may read, and where a room ends.
use rcq_server_ref.RoomLog.Rows.{GroupLog, has_rows, log_above, size}
use rcq_server_ref.RoomLog.Page.Reads.{IsKeyed, log_above-read}
use rcq_server_ref.Base.{
  ℕ, arith, [], ◌∷◌, true, false, ◌==◌, List, ◌∈◌, ◌<◌, All, ◌≡◌, ◌++◌, All-replace, subst,
  All-middle, refl, Bool, length, Bool-cases, false≢true, ltb, not, sym, ◌∙◌, ◌&&◌, inl, take, ◌||◌,
  if_true, inr, ap, if_false, append_assoc, ◌≤◌,
}
use rcq_server_ref.RoomLog.Page.{
  Page, Room, serve_room, Turn, after_turn, turn_of, refill, picking, group_log_page_bytes,
}
use rcq_server_ref.RoomLog.Page.{exhausted, held, stretch, charge}

pub no_rows : (rows : List GroupLog) → has_rows rows ≡ false → rows ≡ []
no_rows [] h = refl
no_rows (r ∷ rows) h = cc

-- What a turn says of the rows in hand and of the budget.
abbrev pub Fits : ℕ → Bool → List GroupLog → Turn → Type 0
Fits bytes_left stretched rows exhausted = rows ≡ []
Fits bytes_left stretched rows held = has_rows rows ≡ true
Fits bytes_left stretched rows (stretch r rest) =
    (rows ≡ r ∷ rest) × (stretched ≡ false) × (size r ≤ group_log_page_bytes)
Fits bytes_left stretched rows (charge r rest) = (rows ≡ r ∷ rest) × (size r ≤ bytes_left)

pub turn_of-Fits :
    (bytes_left : ℕ) (stretched : Bool) (given : ℕ) (rows : List GroupLog)
    → Fits bytes_left stretched rows (turn_of bytes_left stretched given rows)
unfolding turn_of
turn_of-Fits bytes_left stretched given [] = refl
turn_of-Fits bytes_left stretched given (r ∷ rows) = elim (Bool-cases (ltb bytes_left (size r))) [
  | inl e ↦
      elim (Bool-cases (not (given == 0) || (stretched || ltb group_log_page_bytes (size r)))) [
        | inl g ↦ rw (e, g) refl
        | inr g ↦ rw (e, g) (refl, ground arith, ground arith)
      ]
  | inr e ↦ rw e (refl, ground arith)
]

unread_of_empty :
    (rows : List GroupLog) (unread : Bool)
    → rows ≡ []
    → (not (has_rows rows) && unread) ≡ false
    → unread ≡ false
unread_of_empty [] unread b e = e
unread_of_empty (r ∷ rows) unread b e = cc

length-nil-ne : (n : ℕ) → 0 < n → (rows : List GroupLog) → rows ≡ [] → (length rows == n) ≡ false
length-nil-ne n h rows e = rw e (ground arith)

module _ (log : List GroupLog) (uin : ℕ) (starts : List (ℕ × ℕ)) where
  -- The rows above the room's start are those picked, those read, and those above the last read.
  pub record Serves (m : Room) : Type 0 where
    pub start : ℕ
    pub is_start : (m.gid, start) ∈ starts
    pub split :
        log_above log uin m.gid start ≡ m.picked ++ (m.buf ++ log_above log uin m.gid m.read_to)
    pub read_all : m.unread ≡ false → log_above log uin m.gid m.read_to ≡ []
    pub spent : m.waiting ≡ false → m.too_big ≡ false → (m.buf ≡ []) × (m.unread ≡ false)
    pub held_row : m.too_big ≡ true → has_rows m.buf ≡ true
    pub free : m.waiting ≡ true → m.too_big ≡ false

  module _ (chunk : ℕ) (keyed : IsKeyed log) (some_read : 0 < chunk) where
    -- After its read a waiting room has a row in hand, or there is none.
    refill-Serves :
        (m : Room)
        → m.waiting ≡ true
        → Serves m
        → Serves (refill log uin chunk m)
          × ((refill log uin chunk m).waiting ≡ true)
          × ((refill log uin chunk m).buf ≡ [] → (refill log uin chunk m).unread ≡ false)
    unfolding refill
    refill-Serves m w s = elim (Bool-cases (not (has_rows m.buf) && m.unread)) [
      | inl e ↦
          let got = take chunk (log_above log uin m.gid m.read_to) in
          let (parts, all) = log_above-read log uin m.gid chunk m.read_to keyed in
          let empty : m.buf ≡ [] = no_rows m.buf (ground arith) in
          subst (λ (n : Room). Serves n × (n.waiting ≡ true) × (n.buf ≡ [] → n.unread ≡ false))
            (sym (if_true (not (has_rows m.buf) && m.unread) _ _ e))
            (
              record {
                start = s.start;
                is_start = s.is_start;
                split =
                    s.split
                    ∙ ap
                        (λ (x : List GroupLog).
                          m.picked ++ (x ++ log_above log uin m.gid m.read_to))
                        empty
                    ∙ ap (λ (x : List GroupLog). m.picked ++ x) parts;
                read_all = λ u. all (ground arith);
                spent = λ v. absurd (false≢true (sym v ∙ w));
                held_row = λ t. absurd (false≢true (sym (s.free w) ∙ t));
                free = s.free;
              },
              w,
              length-nil-ne chunk some_read got,
            )
      | inr e ↦
          subst (λ (n : Room). Serves n × (n.waiting ≡ true) × (n.buf ≡ [] → n.unread ≡ false))
            (sym (if_false (not (has_rows m.buf) && m.unread) _ _ e))
            (s, w, λ b. unread_of_empty m.buf m.unread b e)
    ]

    picking-Serves :
        (n : Room) (r : GroupLog) (rows : List GroupLog)
        → n.waiting ≡ true
        → Serves n
        → n.buf ≡ r ∷ rows
        → Serves (picking r rows n)
    unfolding picking
    picking-Serves n r rows w s e = record {
      start = s.start;
      is_start = s.is_start;
      split =
          s.split
          ∙ ap (λ (x : List GroupLog). n.picked ++ (x ++ log_above log uin n.gid n.read_to)) e
          ∙ sym (append_assoc n.picked (r ∷ []) (rows ++ log_above log uin n.gid n.read_to));
      read_all = s.read_all;
      spent = λ v. absurd (false≢true (sym v ∙ w));
      held_row = λ t. absurd (false≢true (sym (s.free w) ∙ t));
      free = s.free;
    }

    after_turn-Serves :
        (p : Page) (b : List Room) (n : Room) (a : List Room) (t : Turn)
        → n.waiting ≡ true
        → Serves n
        → (n.buf ≡ [] → n.unread ≡ false)
        → Fits p.bytes_left p.stretched n.buf t
        → All Serves (b ++ n ∷ a)
        → All Serves (after_turn p b n a t).rooms
    unfolding after_turn
    after_turn-Serves p b n a exhausted w s f e h =
        All-replace Serves b n _ a
          (record {
            start = s.start;
            is_start = s.is_start;
            split = s.split;
            read_all = s.read_all;
            spent = λ v t. (e, f e);
            held_row = s.held_row;
            free = λ v. absurd (false≢true v);
          })
          h
    after_turn-Serves p b n a held w s f e h =
        All-replace Serves b n _ a
          (record {
            start = s.start;
            is_start = s.is_start;
            split = s.split;
            read_all = s.read_all;
            spent = λ v t. absurd (false≢true (sym t));
            held_row = λ t. e;
            free = λ v. absurd (false≢true v);
          })
          h
    after_turn-Serves p b n a (stretch r rows) w s f e h =
        All-replace Serves b n _ a (picking-Serves n r rows w s e.0) h
    after_turn-Serves p b n a (charge r rows) w s f e h =
        All-replace Serves b n _ a (picking-Serves n r rows w s e.0) h

    pub serve_room-Serves :
        (p : Page) (b : List Room) (m : Room) (a : List Room)
        → All Serves p.rooms
        → p.rooms ≡ b ++ m ∷ a
        → m.waiting ≡ true
        → All Serves (serve_room log uin chunk p b m a).rooms
    unfolding serve_room
    serve_room-Serves p b m a h e w =
        let h' = subst (λ rooms. All Serves rooms) e h in
        let (s, w', f) = refill-Serves m w (All-middle Serves b m a h') in
        after_turn-Serves p b (refill log uin chunk m) a _ w' s f (turn_of-Fits _ _ _ _)
          (All-replace Serves b m (refill log uin chunk m) a s h')
