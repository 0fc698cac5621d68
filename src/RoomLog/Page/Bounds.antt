-- ===== src/RoomLog/Page/Bounds.antt =====
-- How large a page of `_fair_log_page` (app/routers/messages.py) is, and that it makes progress.
use rcq_server_ref.RoomLog.Rows.{GroupLog, has_rows, size}
use rcq_server_ref.RoomLog.Page.Prefix.{served_page-Serves}
use rcq_server_ref.RoomLog.Page.Held.{serve_held-cases}
use rcq_server_ref.RoomLog.Page.Reads.{IsKeyed}
use rcq_server_ref.RoomLog.Page.Steps.{take_turns_inv, take_turns-ends, waiting}
use rcq_server_ref.RoomLog.Page.Rooms.{Fits, turn_of-Fits, no_rows, Serves}
use rcq_server_ref.Base.{
  ℕ, arith, [], ◌∷◌, true, false, List, length, sum_by, ◌+◌, ◌≡◌, ◌++◌, sum_by-append,
  length-append, ◌≤◌, ◌≢◌, false≢true, sym, map, any, Bool-cases, ◌<◌, not, ap, none, All, ◌*◌,
  refl, ◌&&◌, ◌⊎◌, inl, if_true, inr, if_false, All-middle, subst,
}
use rcq_server_ref.RoomLog.Page.{
  Page, Room, serve_held, picking_head, fair_log_page, served_page, after_turn,
  group_log_page_bytes, picking, Turn, refill, serve_room, take_turn, start_room, chunk_of,
  start_page,
}
use rcq_server_ref.RoomLog.Page.{exhausted, held, stretch, charge}

-- The rows that are picked in all rooms, and how large they are.
abbrev pub picked_rows : List Room → ℕ
picked_rows rooms = sum_by (λ (m : Room). length m.picked) rooms

abbrev pub picked_bytes : List Room → ℕ
picked_bytes rooms = sum_by (λ (m : Room). sum_by size m.picked) rooms

-- What has been picked has been taken off the budget, but for one row of at most a page.
abbrev InBudget : ℕ → Page → Type 0
InBudget limit p =
    (picked_rows p.rooms + p.rows_left ≡ limit)
    × (extra : ℕ) × (picked_bytes p.rooms + p.bytes_left ≡ group_log_page_bytes + extra)
    × (extra ≤ group_log_page_bytes)
    × (p.stretched ≡ false → extra ≡ 0)

rows_middle :
    (b : List Room) (m : Room) (a : List Room)
    → picked_rows (b ++ m ∷ a) ≡ picked_rows b + length m.picked + picked_rows a
rows_middle b m a = omega (arith, sum_by-append (λ (m : Room). length m.picked) b (m ∷ a))

bytes_middle :
    (b : List Room) (m : Room) (a : List Room)
    → picked_bytes (b ++ m ∷ a) ≡ picked_bytes b + sum_by size m.picked + picked_bytes a
bytes_middle b m a = omega (arith, sum_by-append (λ (m : Room). sum_by size m.picked) b (m ∷ a))

pick_rows : (m : Room) (r : GroupLog) → length (m.picked ++ r ∷ []) ≡ length m.picked + 1
pick_rows m r = omega (arith, length-append m.picked (r ∷ []))

pick_bytes :
    (m : Room) (r : GroupLog) → sum_by size (m.picked ++ r ∷ []) ≡ sum_by size m.picked + size r
pick_bytes m r = omega (arith, sum_by-append size m.picked (r ∷ []))

module _ (limit : ℕ) (p : Page) (b : List Room) (n : Room) (a : List Room) where
  after_turn-InBudget :
      (t : Turn)
      → Fits p.bytes_left p.stretched n.buf t
      → p.rows_left ≢ 0
      → InBudget limit (record p { rooms = b ++ n ∷ a })
      → InBudget limit (after_turn p b n a t)
  unfolding after_turn picking
  after_turn-InBudget exhausted f l (rows, extra, bytes, le, zero_extra) = (
    omega (arith, rows_middle b n a, rows_middle b (record n { waiting = false }) a),
    extra,
    omega (arith, bytes_middle b n a, bytes_middle b (record n { waiting = false }) a),
    le,
    zero_extra,
  )
  after_turn-InBudget held f l (rows, extra, bytes, le, zero_extra) = (
    omega
        (arith, rows_middle b n a, rows_middle b (record n { waiting = false; too_big = true }) a),
    extra,
    omega (
      arith,
      bytes_middle b n a,
      bytes_middle b (record n { waiting = false; too_big = true }) a,
    ),
    le,
    zero_extra,
  )
  after_turn-InBudget (stretch r rest) (f, s, small) l (rows, extra, bytes, le, zero_extra) = (
    omega (arith, rows_middle b n a, rows_middle b (picking r rest n) a, pick_rows n r),
    size r,
    omega (
      arith,
      bytes_middle b n a,
      bytes_middle b (picking r rest n) a,
      pick_bytes n r,
      zero_extra s,
    ),
    small,
    λ u. absurd (false≢true (sym u)),
  )
  after_turn-InBudget (charge r rest) (f, small) l (rows, extra, bytes, le, zero_extra) = (
    omega (arith, rows_middle b n a, rows_middle b (picking r rest n) a, pick_rows n r),
    extra,
    omega (arith, bytes_middle b n a, bytes_middle b (picking r rest n) a, pick_bytes n r),
    le,
    zero_extra,
  )

module _ (log : List GroupLog) (uin chunk : ℕ) where
  refill-picked : (m : Room) → (refill log uin chunk m).picked ≡ m.picked
  unfolding refill
  refill-picked m = elim (Bool-cases (not (has_rows m.buf) && m.unread)) [
    | inl e ↦ ap (λ (n : Room). n.picked) (if_true (not (has_rows m.buf) && m.unread) _ _ e)
    | inr e ↦ ap (λ (n : Room). n.picked) (if_false (not (has_rows m.buf) && m.unread) _ _ e)
  ]

  serve_room-InBudget :
      (limit : ℕ) (p : Page) (b : List Room) (m : Room) (a : List Room)
      → InBudget limit p
      → p.rooms ≡ b ++ m ∷ a
      → p.rows_left ≢ 0
      → InBudget limit (serve_room log uin chunk p b m a)
  unfolding serve_room
  serve_room-InBudget limit p b m a (rows, extra, bytes, le, zero_extra) e l =
      let n = refill log uin chunk m in
      after_turn-InBudget limit p b n a _ (turn_of-Fits p.bytes_left p.stretched n.given n.buf) l (
        omega (
          arith,
          rows_middle b n a,
          rows_middle b m a,
          ap picked_rows e,
          ap (λ (x : List GroupLog). length x) (refill-picked m),
        ),
        extra,
        omega (
          arith,
          bytes_middle b n a,
          bytes_middle b m a,
          ap picked_bytes e,
          ap (λ (x : List GroupLog). sum_by size x) (refill-picked m),
        ),
        le,
        zero_extra,
      )

start_rooms_empty :
    (starts : List (ℕ × ℕ))
    → (picked_rows (map start_room starts) ≡ 0) × (picked_bytes (map start_room starts) ≡ 0)
start_rooms_empty [] = (refl, refl)
start_rooms_empty ((gid, start) ∷ starts) =
    let (r, s) = start_rooms_empty starts in (omega arith, omega arith)

none_picked :
    (rooms : List Room)
    → any (λ (m : Room). has_rows m.picked) rooms ≡ false
    → (picked_rows rooms ≡ 0) × (picked_bytes rooms ≡ 0)
none_picked [] h = (refl, refl)
none_picked (m ∷ rooms) h =
    let e : m.picked ≡ [] = no_rows m.picked (ground arith) in
    let (r, s) = none_picked rooms (ground arith) in
    (
      omega (arith, ap (λ (x : List GroupLog). length x) e),
      omega (arith, ap (λ (x : List GroupLog). sum_by size x) e),
    )

pub length_pos : (rows : List GroupLog) → has_rows rows ≡ true → 0 < length rows
length_pos [] h = cc
length_pos (r ∷ rows) h = omega arith

pub length_zero : (rows : List GroupLog) → length rows ≡ 0 → rows ≡ []
length_zero [] h = refl
length_zero (r ∷ rows) h = absurd (omega arith)

picking_head-length :
    (rows : List GroupLog) (m : Room)
    → has_rows rows ≡ true
    → length (picking_head rows m).picked ≡ length m.picked + 1
picking_head-length [] m h = cc
picking_head-length (r ∷ rows) m h = pick_rows m r

start_rooms_wait : (starts : List (ℕ × ℕ)) → waiting (map start_room starts) ≡ length starts
start_rooms_wait [] = refl
start_rooms_wait ((gid, start) ∷ starts) = omega (arith, start_rooms_wait starts)

module _ (log : List GroupLog) (uin : ℕ) (starts : List (ℕ × ℕ)) (limit : ℕ) where
  abbrev pub served : Page
  served = served_page log uin starts limit

  pub served-InBudget : InBudget limit served
  unfolding served_page
  served-InBudget =
      take_turns_inv log uin (chunk_of limit (length starts)) (InBudget limit)
        (λ p b m a h e w l.
          serve_room-InBudget log uin (chunk_of limit (length starts)) limit p b m a h e l)
        (limit + length starts) (start_page starts limit)
        (let (r, s) = start_rooms_empty starts in
          (omega arith, 0, omega arith, omega arith, λ u. refl))

  -- The loop over the turns has ended when the page is given out: after as many passes as the limit
  -- and the rooms together, no pass goes on.
  pub served_page-ends :
      take_turn log uin (chunk_of limit (length starts)) (served_page log uin starts limit) ≡ none
  unfolding served_page
  served_page-ends =
      take_turns-ends log uin (chunk_of limit (length starts)) (limit + length starts)
        (start_page starts limit) (omega (arith, start_rooms_wait starts))

  module _ (keyed : IsKeyed log) (pos : 0 < limit) where
    -- Where nothing was picked and a row is held back, one row is picked.
    pub held_served :
        (b : List Room) (m : Room) (a : List Room)
        → served.rooms ≡ b ++ m ∷ a
        → m.too_big ≡ true
        → any (λ (n : Room). has_rows n.picked) served.rooms ≡ false
        → serve_held served.rooms ≡ b ++ picking_head m.buf m ∷ a
        → picked_rows (serve_held served.rooms) ≡ 1
    held_served b m a s t n e =
        let (zero_rows, zero_bytes) = none_picked served.rooms n in
        let q = All-middle (Serves log uin starts) b m a (
          subst (λ x. All (Serves log uin starts) x) s
            (served_page-Serves log uin starts limit keyed pos)) in
        omega (
          arith,
          ap picked_rows e,
          ap picked_rows s,
          rows_middle b m a,
          rows_middle b (picking_head m.buf m) a,
          picking_head-length m.buf m (q.held_row t),
        )

    -- A page has at most `limit` rows, and is at most twice the budget, or it is a single row. (The
    -- log has no key twice, and the limit is above 0.)
    pub fair_log_page_bounds :
        let rooms = (fair_log_page log uin starts limit).0 in
        (picked_rows rooms ≤ limit)
        × ((picked_bytes rooms ≤ 2 * group_log_page_bytes) ⊎ (picked_rows rooms ≡ 1))
    unfolding fair_log_page
    fair_log_page_bounds =
        let (rows, extra, bytes, le, zero_extra) = served-InBudget in
        elim (serve_held-cases served.rooms) [
          | inl (e, why) ↦ (omega (arith, ap picked_rows e), inl (omega (arith, ap picked_bytes e)))
          | inr (b, m, a, s, t, n, e) ↦
              let one = held_served b m a s t n e in (omega arith, inr one)
        ]
