-- ===== src/RoomLog/Page.antt =====
-- `_fair_log_page` of app/routers/messages.py: one page of room-log rows, shared between the rooms.
-- The heap of turns is the set of waiting rooms; its least key is the room that has been given the
-- fewest, the first of these in the order of the answer.
pub mod Reads
pub mod Steps
pub mod Rooms
pub mod Held
pub mod Gids
pub mod Prefix
pub mod Bounds
pub mod Progress
use rcq_server_ref.RoomLog.Rows.{GroupLog, size, is_to, room_log, log_above, last_seq_or, has_rows}
use rcq_server_ref.Base.{
  ℕ, arith, Option, List, Bool, min, ◌+◌, true, sort_by, filter, false, some, none, max, map,
  length, any, ◌++◌, ◌-◌, suc, if◌then◌else◌, ltb, not, leb, ◌/◌, ◌||◌, ◌==◌, zero, ◌&&◌, take, [],
  ◌∷◌,
}

abbrev pub group_log_page_bytes : ℕ
group_log_page_bytes = 131072

abbrev pub group_log_room_chunk_min : ℕ
group_log_room_chunk_min = 8

abbrev pub group_log_room_chunk_max : ℕ
group_log_room_chunk_max = 128

-- What the page knows of a room: rows that were read and not picked, where the next read begins,
-- whether there may be more to read, what was picked, how much that is, and whether the room is on
-- the heap or is held back by a row that does not fit.
pub record Room : Type 0 where
  pub gid : ℕ
  pub buf : List GroupLog
  pub read_to : ℕ
  pub unread : Bool
  pub picked : List GroupLog
  pub given : ℕ
  pub waiting : Bool
  pub too_big : Bool

abbrev pub start_room : ℕ × ℕ → Room
start_room (gid, start) = record {
  gid = gid;
  buf = [];
  read_to = start;
  unread = true;
  picked = [];
  given = 0;
  waiting = true;
  too_big = false;
}

-- The read of a room on its turn.
unfoldable pub refill : List GroupLog → ℕ → ℕ → Room → Room
unfolding log_above
refill log uin chunk m =
    if not (has_rows m.buf) && m.unread
    then (let got = take chunk (log_above log uin m.gid m.read_to) in
        record m { buf = got; read_to = last_seq_or m.read_to got; unread = length got == chunk })
    else m

pub record Page : Type 0 where
  pub rooms : List Room
  pub rows_left : ℕ
  pub bytes_left : ℕ
  pub stretched : Bool

-- What becomes of a room's turn: nothing is there, its next row does not fit, it goes in past what
-- is left, or it is charged.
pub data Turn : Type 0 where
  exhausted : Turn
  held : Turn
  stretch : GroupLog → List GroupLog → Turn
  charge : GroupLog → List GroupLog → Turn

unfoldable pub turn_of : ℕ → Bool → ℕ → List GroupLog → Turn
turn_of bytes_left stretched given [] = exhausted
turn_of bytes_left stretched given (r ∷ rows) =
    if ltb bytes_left (size r)
    then (if not (given == 0) || (stretched || ltb group_log_page_bytes (size r))
        then held
        else stretch r rows)
    else charge r rows

-- The room after its next row is picked.
unfoldable pub picking : GroupLog → List GroupLog → Room → Room
picking r rows m = record m { buf = rows; picked = m.picked ++ r ∷ []; given = m.given + size r }

unfoldable pub after_turn : Page → List Room → Room → List Room → Turn → Page
unfolding picking
after_turn p before m after exhausted = record p {
  rooms = before ++ (record m { waiting = false }) ∷ after;
}
after_turn p before m after held = record p {
  rooms = before ++ (record m { waiting = false; too_big = true }) ∷ after;
}
after_turn p before m after (stretch r rows) = record p {
  rooms = before ++ picking r rows m ∷ after;
  rows_left = p.rows_left - 1;
  stretched = true;
}
after_turn p before m after (charge r rows) = record p {
  rooms = before ++ picking r rows m ∷ after;
  rows_left = p.rows_left - 1;
  bytes_left = p.bytes_left - size r;
}

-- `heapq.heappop(turns)`: the least waiting room, between those before and after it.
abbrev pub or_first :
    List Room
    → Room
    → List Room
    → Option (List Room × Room × List Room)
    → Option (List Room × Room × List Room)
or_first before m after none = some (before, m, after)
or_first before m after (some (b, n, a)) =
    if leb m.given n.given then some (before, m, after) else some (m ∷ b, n, a)

abbrev pub behind :
    Room → Option (List Room × Room × List Room) → Option (List Room × Room × List Room)
behind m none = none
behind m (some (b, n, a)) = some (m ∷ b, n, a)

unfoldable pub pop_turn : List Room → Option (List Room × Room × List Room)
pop_turn [] = none
pop_turn (m ∷ rooms) =
    let rest = pop_turn rooms in if m.waiting then or_first [] m rooms rest else behind m rest

unfoldable pub serve_room : List GroupLog → ℕ → ℕ → Page → List Room → Room → List Room → Page
unfolding refill turn_of after_turn
serve_room log uin chunk p before m after =
    let n = refill log uin chunk m in
    after_turn p before n after (turn_of p.bytes_left p.stretched n.given n.buf)

-- One pass of the loop, where it goes on.
unfoldable pub take_turn : List GroupLog → ℕ → ℕ → Page → Option Page
unfolding pop_turn serve_room
take_turn log uin chunk p = if p.rows_left == 0 then none else elim (pop_turn p.rooms) [
  | none ↦ none
  | some (before, m, after) ↦ some (serve_room log uin chunk p before m after)
]

unfoldable pub take_turns : ℕ → List GroupLog → ℕ → ℕ → Page → Page
unfolding take_turn
take_turns zero log uin chunk p = p
take_turns (suc fuel) log uin chunk p = elim (take_turn log uin chunk p) [
  | none ↦ p
  | some p' ↦ take_turns fuel log uin chunk p'
]

-- `min(too_big, key=...)`: the held room with the smallest next row, the first of these.
abbrev pub head_size : List GroupLog → ℕ
head_size [] = 0
head_size (r ∷ rows) = size r

abbrev pub or_smaller :
    Room → List Room → Option (List Room × Room × List Room) → Option (List Room × Room × List Room)
or_smaller m after none = some ([], m, after)
or_smaller m after (some (b, n, a)) =
    if leb (head_size m.buf) (head_size n.buf) then some ([], m, after) else some (m ∷ b, n, a)

unfoldable pub smallest_held : List Room → Option (List Room × Room × List Room)
smallest_held [] = none
smallest_held (m ∷ rooms) =
    let rest = smallest_held rooms in if m.too_big then or_smaller m rooms rest else behind m rest

-- `picked[gid].append(buf[gid].popleft())` of the held room.
abbrev pub picking_head : List GroupLog → Room → Room
picking_head [] m = m
picking_head (r ∷ rows) m = record m { buf = rows; picked = m.picked ++ r ∷ [] }

unfoldable pub serve_held : List Room → List Room
unfolding smallest_held
serve_held rooms =
    if any (λ (m : Room). has_rows m.picked) rooms then rooms else elim (smallest_held rooms) [
      | none ↦ rooms
      | some (before, m, after) ↦ before ++ picking_head m.buf m ∷ after
    ]

-- `-(-a // b)`
abbrev pub ceil_div : ℕ → ℕ → ℕ
ceil_div a b = (a + b - 1) / b

unfoldable pub chunk_of : ℕ → ℕ → ℕ
chunk_of limit rooms =
    min limit (max group_log_room_chunk_min (ceil_div (min limit group_log_room_chunk_max) rooms))

abbrev pub start_page : List (ℕ × ℕ) → ℕ → Page
start_page starts limit = record {
  rooms = map start_room starts;
  rows_left = limit;
  bytes_left = group_log_page_bytes;
  stretched = false;
}

-- The page at the end of the loop: each pass takes a row or takes a room off the heap.
unfoldable pub served_page : List GroupLog → ℕ → List (ℕ × ℕ) → ℕ → Page
unfolding take_turns chunk_of
served_page log uin starts limit =
    take_turns (limit + length starts) log uin (chunk_of limit (length starts))
      (start_page starts limit)

-- The rooms with what was picked of each, and whether anything is left. With no room the answer is
-- the same, empty and `False`.
unfoldable pub fair_log_page : List GroupLog → ℕ → List (ℕ × ℕ) → ℕ → List Room × Bool
unfolding served_page serve_held
fair_log_page log uin starts limit =
    let rooms = serve_held (served_page log uin starts limit).rooms in
    (rooms, any (λ (m : Room). has_rows m.buf || m.unread) rooms)
