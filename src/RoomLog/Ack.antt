-- ===== src/RoomLog/Ack.antt =====
-- `ack_group_log` of app/routers/messages.py. A mark that a client acks is taken to be at least 0.
use rcq_server_ref.RoomLog.Readers.{mark_reader}
use rcq_server_ref.RoomLog.Cursors.{
  find_log_cursor, upsert_log_cursor, GroupLogCursor, GroupLogReader, returned_seq,
}
use rcq_server_ref.Base.{
  ℕ, List, Option, String, Bool, sort_by, if◌then◌else◌, any, false, ◌∷◌, some, ◌==◌, none, leb,
  suc, [],
}

pub record GroupLogAckRoomIn : Type 0 where
  pub gid : ℕ
  pub upto : ℕ

pub record LogDb : Type 0 where
  pub cursors : List GroupLogCursor
  pub readers : List GroupLogReader

abbrev pub seq_of : Option GroupLogCursor → Option ℕ
seq_of none = none
seq_of (some c) = some c.last_seq

-- `known`: where the device's cursors of the listed rooms stood at the read.
unfoldable pub known_at : ℕ → String → List GroupLogAckRoomIn → List GroupLogCursor → ℕ → Option ℕ
unfolding find_log_cursor
known_at uin device_id rooms cs gid =
    if any (λ (r : GroupLogAckRoomIn). r.gid == gid) rooms
    then seq_of (find_log_cursor gid uin device_id cs)
    else none

-- `at is not None and r.upto <= at`
abbrev pub is_stale_ack : ℕ → Option ℕ → Bool
is_stale_ack upto none = false
is_stale_ack upto (some seq) = leb upto seq

abbrev pub learnt : ℕ → ℕ → (ℕ → Option ℕ) → ℕ → Option ℕ
learnt gid seq known g = if g == gid then some seq else known g

-- The loop, over the rooms in order: the cursors, and how many moved.
unfoldable pub ack_rooms :
    ℕ
    → ℕ
    → String
    → (ℕ → Option ℕ)
    → List GroupLogAckRoomIn
    → List GroupLogCursor
    → List GroupLogCursor × ℕ
unfolding upsert_log_cursor find_log_cursor
ack_rooms now uin device_id known [] cs = (cs, 0)
ack_rooms now uin device_id known (r ∷ rooms) cs =
    let (same, skipped) = ack_rooms now uin device_id known rooms cs in
    let at = returned_seq r.upto r.upto (find_log_cursor r.gid uin device_id cs) in
    let (written, moved) =
      ack_rooms now uin device_id (learnt r.gid at known) rooms
        (upsert_log_cursor now r.gid uin device_id r.upto r.upto cs) in
    if is_stale_ack r.upto (known r.gid) then (same, skipped) else (written, suc moved)

unfoldable pub ack_group_log : ℕ → List GroupLogAckRoomIn → ℕ → String → LogDb → LogDb × ℕ
unfolding ack_rooms known_at mark_reader sort_by
ack_group_log now rooms uin device_id db =
    let (cursors, moved) =
      ack_rooms now uin device_id (known_at uin device_id rooms db.cursors)
        (sort_by (λ (r : GroupLogAckRoomIn). r.gid) rooms) db.cursors in
    (
      record {
        cursors = cursors;
        readers = if moved == 0 then db.readers else mark_reader now uin device_id db.readers;
      },
      moved,
    )
