-- ===== src/RoomLog/Fetch/Served.antt =====
-- What `fetch_group_log` (app/routers/messages.py) answers.
use rcq_server_ref.Base.{
  ℕ, Option, String, arith, All-mem, ◌≡◌, ◌∈◌, inl, inr, sym, ap, none, some, true, false, map, ◌<◌,
  ◌≤◌, mem-map, map-mem, mem-append, subst, sort_by, mem-sort_by,
}
use rcq_server_ref.RoomLog.Counters.{room_head}
use rcq_server_ref.RoomLog.Cursors.{GroupLogCursor, find_log_cursor}
use rcq_server_ref.RoomLog.Rows.{GroupLog, is_to}
use rcq_server_ref.RoomLog.Page.{Room, fair_log_page}
use rcq_server_ref.RoomLog.Page.Reads.{IsKeyed}
use rcq_server_ref.RoomLog.Page.Prefix.{fair_log_page-prefix, fair_log_page_complete}
use rcq_server_ref.RoomLog.Page.Gids.{fair_log_page-gids}
use rcq_server_ref.RoomLog.Fetch.Started.{read_rooms-wanted, read_rooms-at, read_rooms-started}
use rcq_server_ref.RoomLog.Fetch.Readable.{
  IsMember, member_of-IsMember, IsMember-member_of, wanted_rooms-joined, log_above-mem,
  mem-log_above, out_rows-mem, mem-out_rows, positions-known,
}
use rcq_server_ref.RoomLog.Fetch.{
  FetchDb, GroupLogFetchIn, GroupLogRow, read_rooms, behind_rooms, fetch_group_log, wanted_rooms,
  member_of, gathered, log_row, positions,
}

-- The row is one of the log that the account may read: in a room that it is a member of, and sealed to
-- it or to nobody.
abbrev pub IsReadable : FetchDb → ℕ → GroupLog → Type 0
IsReadable db uin r =
    (r ∈ db.log) × IsMember db.members uin r.group_id × (is_to uin r.to_uin ≡ true)

abbrev pub all_rooms : ℕ → GroupLogFetchIn
all_rooms limit = record { rooms = none; limit = limit }

module _ (now uin : ℕ) (device_id : String) (db : FetchDb) where
  -- Where an answered row comes from.
  row_source :
      (body : GroupLogFetchIn) (o : GroupLogRow)
      → IsKeyed db.log
      → 0 < body.limit
      → o ∈ (fetch_group_log now body uin device_id db).1.rows
      → (r : GroupLog) × (start : ℕ) × (o ≡ log_row r.group_id r)
        × IsReadable db uin r
        × ((r.group_id, start) ∈ (behind_rooms now body uin device_id db).starts)
        × (start < r.seq)
  unfolding fetch_group_log behind_rooms
  row_source body o keyed pos i =
      let wanted = wanted_rooms (member_of db.members uin) body.rooms in
      let s0 = gathered uin device_id wanted db.marks.cursors in
      let starts = (read_rooms now uin device_id db.seqs wanted s0).starts in
      let (m, j, r, k, e) = out_rows-mem o (fair_log_page db.log uin starts body.limit).0 i in
      let (start, l, rest, split) =
        All-mem _ m _ (fair_log_page-prefix db.log uin starts body.limit keyed pos) j in
      let (in_log, gid, to, above) =
        log_above-mem db.log uin m.gid start r (rw split (mem-append r m.picked rest (inl k))) in
      let of_wanted : m.gid ∈ map (λ (w : ℕ × Option ℕ). w.0) wanted =
        elim (read_rooms-wanted now uin device_id db.seqs wanted s0 (m.gid, start) l) [
          | inl w ↦ w
          | inr w ↦ absurd w
        ] in
      let joined = wanted_rooms-joined (member_of db.members uin) body.rooms m.gid of_wanted in
      (
        r,
        start,
        rw gid e,
        (in_log, rw gid (member_of-IsMember db.members uin m.gid joined), to),
        rw gid l,
        above,
      )

  -- Each row of an answer is a row of the log that the caller may read: of a room that the caller
  -- is a member of, and sealed to the caller or to nobody. (The log has no key twice, and the limit
  -- is above 0.)
  pub fetch_group_log-IsReadable :
      (body : GroupLogFetchIn) (o : GroupLogRow)
      → IsKeyed db.log
      → 0 < body.limit
      → o ∈ (fetch_group_log now body uin device_id db).1.rows
      → (r : GroupLog) × (o ≡ log_row r.group_id r) × IsReadable db uin r
  fetch_group_log-IsReadable body o keyed pos i =
      let (r, start, e, h, l, above) = row_source body o keyed pos i in (r, e, h)

  known_positions :
      (gid : ℕ) (c : GroupLogCursor)
      → find_log_cursor gid uin device_id db.marks.cursors ≡ some c
      → gid ∈ sort_by (λ g. g) (member_of db.members uin)
      → let wanted =
          map {B = ℕ × Option ℕ} (λ g. (g, none)) (sort_by (λ g. g) (member_of db.members uin)) in
        (gathered uin device_id wanted db.marks.cursors).known gid ≡ some c.last_seq
  unfolding gathered positions
  known_positions gid c f i =
      let rooms = sort_by (λ g. g) (member_of db.members uin) in
      let wanted = map {B = ℕ × Option ℕ} (λ g. (g, none)) rooms in
      positions-known uin device_id wanted db.marks.cursors gid c
        (mem-map (λ (w : ℕ × Option ℕ). w.0) (gid, none) wanted
          (mem-map {B = ℕ × Option ℕ} (λ g. (g, none)) gid rooms i))
        f

  -- Where a device that fetches all its rooms has a cursor in the room of an answered row, the row
  -- is above the cursor. (The log has no key twice, and the limit is above 0.)
  pub fetch_group_log_above :
      (limit : ℕ) (o : GroupLogRow) (c : GroupLogCursor)
      → IsKeyed db.log
      → 0 < limit
      → o ∈ (fetch_group_log now (all_rooms limit) uin device_id db).1.rows
      → find_log_cursor o.gid uin device_id db.marks.cursors ≡ some c
      → c.last_seq < o.seq
  unfolding behind_rooms wanted_rooms
  fetch_group_log_above limit o c keyed pos i f =
      let (r, start, e, (in_log, member, to), l, above) =
        row_source (all_rooms limit) o keyed pos i in
      let gid : o.gid ≡ r.group_id = ap (λ (o : GroupLogRow). o.gid) e in
      let seq : o.seq ≡ r.seq = ap (λ (o : GroupLogRow). o.seq) e in
      let rooms = sort_by (λ g. g) (member_of db.members uin) in
      let wanted = map {B = ℕ × Option ℕ} (λ g. (g, none)) rooms in
      let i' =
        mem-sort_by (λ g. g) r.group_id _ (IsMember-member_of db.members uin r.group_id member) in
      let at =
        read_rooms-at now uin device_id db.seqs r.group_id c.last_seq rooms
          (gathered uin device_id wanted db.marks.cursors) start
          (known_positions r.group_id c (rw gid at f) i') (λ j. absurd j) l in
      omega arith

  -- A device that fetches all its rooms and is told that nothing is left: a row that the caller may
  -- read, numbered up to its room's head and above the device's cursor there, is in the answer.
  -- (The log has no key twice, and the limit is above 0.)
  pub fetch_group_log_complete :
      (limit : ℕ) (r : GroupLog) (c : GroupLogCursor)
      → IsKeyed db.log
      → 0 < limit
      → IsReadable db uin r
      → r.seq ≤ room_head r.group_id db.seqs
      → find_log_cursor r.group_id uin device_id db.marks.cursors ≡ some c
      → c.last_seq < r.seq
      → (fetch_group_log now (all_rooms limit) uin device_id db).1.more ≡ false
      → log_row r.group_id r ∈ (fetch_group_log now (all_rooms limit) uin device_id db).1.rows
  unfolding fetch_group_log behind_rooms wanted_rooms
  fetch_group_log_complete limit r c keyed pos (in_log, member, to) below f above none_left =
      let rooms = sort_by (λ g. g) (member_of db.members uin) in
      let wanted = map {B = ℕ × Option ℕ} (λ g. (g, none)) rooms in
      let s0 = gathered uin device_id wanted db.marks.cursors in
      let starts = (read_rooms now uin device_id db.seqs wanted s0).starts in
      let i =
        mem-sort_by (λ g. g) r.group_id _ (IsMember-member_of db.members uin r.group_id member) in
      let known = known_positions r.group_id c f i in
      let started : (r.group_id, c.last_seq) ∈ starts =
        read_rooms-started now uin device_id db.seqs r.group_id c.last_seq rooms s0 known
          (omega arith) (inl i) in
      let page = fair_log_page db.log uin starts limit in
      let (m, j, gid) =
        map-mem (λ (m : Room). m.gid) r.group_id page.0
          (rw (fair_log_page-gids db.log uin starts limit)
            (mem-map (λ (x : ℕ × ℕ). x.0) (r.group_id, c.last_seq) starts started)) in
      let (start, l, split) =
        All-mem _ m _ (fair_log_page_complete db.log uin starts limit keyed pos none_left) j in
      let at =
        read_rooms-at now uin device_id db.seqs r.group_id c.last_seq rooms s0 start known
          (λ k. absurd k) (rw gid l) in
      let picked : r ∈ m.picked =
        subst (λ rows. r ∈ rows) split
          (rw (sym gid) (mem-log_above db.log uin start r in_log to (omega arith))) in
      rw gid (mem-out_rows m page.0 r j picked)
