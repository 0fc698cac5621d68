-- ===== src/RoomLog/Fetch.antt =====
-- `fetch_group_log` of app/routers/messages.py: one page of the room logs for one device. The stamps
-- on the device's and the guest's own rows are left out.
pub mod Kept
pub mod Started
pub mod Readable
pub mod Served
use Prim.Native.String.{String}
use rcq_server_ref.Base.{
  ℕ, List, Option, Bool, map, filter, any, not, sort_by, if◌then◌else◌, ltb, ◌==◌, ◌&&◌, ◌++◌, none,
  some, true, false, [], ◌∷◌,
}
use rcq_server_ref.RoomLog.Counters.{Seq, room_head}
use rcq_server_ref.RoomLog.Cursors.{
  GroupLogCursor, find_log_cursor, upsert_log_cursor, returned_seq,
}
use rcq_server_ref.RoomLog.Readers.{mark_reader}
use rcq_server_ref.RoomLog.Ack.{LogDb, seq_of, learnt}
use rcq_server_ref.RoomLog.Rows.{GroupLog, has_rows}
use rcq_server_ref.RoomLog.Page.{Room, fair_log_page}

-- A row of `group_members` (app/models/group.py): which account is in which room.
pub record GroupMember : Type 0 where
  pub group_id : ℕ
  pub uin : ℕ

pub record GroupLogRoomIn : Type 0 where
  pub gid : ℕ
  pub after : Option ℕ

pub record GroupLogFetchIn : Type 0 where
  pub rooms : Option (List GroupLogRoomIn)
  pub limit : ℕ

pub record GroupLogRow : Type 0 where
  pub gid : ℕ
  pub seq : ℕ
  pub envelope_type : String
  pub cls : ℕ
  pub payload : String
  pub received_at : ℕ

pub record GroupLogFetchOut : Type 0 where
  pub rows : List GroupLogRow
  pub heads : List (ℕ × ℕ)
  pub cursors : List (ℕ × ℕ)
  pub more : Bool

-- The tables that a fetch reads, and of these the two that it writes.
pub record FetchDb : Type 0 where
  pub members : List GroupMember
  pub seqs : List Seq
  pub log : List GroupLog
  pub marks : LogDb

-- `set(...)`
unfoldable pub as_set : List ℕ → List ℕ
as_set [] = []
as_set (x ∷ xs) = if any (λ y. y == x) xs then as_set xs else x ∷ as_set xs

unfoldable pub member_of : List GroupMember → ℕ → List ℕ
unfolding as_set
member_of members uin =
    as_set
      (map (λ (m : GroupMember). m.group_id) (filter (λ (m : GroupMember). m.uin == uin) members))

unfoldable pub wanted_rooms : List ℕ → Option (List GroupLogRoomIn) → List (ℕ × Option ℕ)
unfolding sort_by
wanted_rooms joined none = map (λ g. (g, none)) (sort_by (λ g. g) joined)
wanted_rooms joined (some rooms) =
    map (λ (r : GroupLogRoomIn). (r.gid, r.after))
      (filter (λ (r : GroupLogRoomIn). any (λ g. g == r.gid) joined) rooms)

-- `cursors`: where the device stood in the wanted rooms at the read.
unfoldable pub positions : ℕ → String → List (ℕ × Option ℕ) → List GroupLogCursor → ℕ → Option ℕ
unfolding find_log_cursor
positions uin device_id wanted cs gid =
    if any (λ (w : ℕ × Option ℕ). w.0 == gid) wanted
    then seq_of (find_log_cursor gid uin device_id cs)
    else none

-- `d[key] = value` and `d.pop(key, None)` of a dictionary, which keeps its order.
abbrev pub put : ℕ → ℕ → List (ℕ × ℕ) → List (ℕ × ℕ)
put key value [] = (key, value) ∷ []
put key value (e ∷ d) = if e.0 == key then (key, value) ∷ d else e ∷ put key value d

abbrev pub popped : ℕ → List (ℕ × ℕ) → List (ℕ × ℕ)
popped key d = filter (λ (e : ℕ × ℕ). not (e.0 == key)) d

-- What the loop over the wanted rooms has gathered.
pub record Gathered : Type 0 where
  pub stored : List GroupLogCursor
  pub known : ℕ → Option ℕ
  pub heads : List (ℕ × ℕ)
  pub cur_out : List (ℕ × ℕ)
  pub starts : List (ℕ × ℕ)

abbrev pub from_or : ℕ → Option ℕ → ℕ
from_or at none = at
from_or at (some after) = after

-- The rest of a pass, with the device's position in the room.
unfoldable pub behind_from : ℕ → ℕ → Option ℕ → ℕ → Gathered → Gathered
behind_from gid head after at s =
    let start = from_or at after in
    let others = popped gid s.starts in
    record s {
      heads = put gid head s.heads;
      cur_out = put gid at s.cur_out;
      starts = if ltb start head then put gid start others else others;
    }

-- A first read of the room: its cursor is made at the head.
unfoldable pub first_read : ℕ → ℕ → ℕ → String → ℕ → Gathered → Gathered × ℕ
unfolding find_log_cursor upsert_log_cursor
first_read now gid uin device_id head s =
    let at = returned_seq 0 head (find_log_cursor gid uin device_id s.stored) in
    (
      record s {
        stored = upsert_log_cursor now gid uin device_id 0 head s.stored;
        known = learnt gid at s.known;
      },
      at,
    )

-- The device's position in a room.
unfoldable pub room_position : ℕ → ℕ → ℕ → String → ℕ → Gathered → Option ℕ → Gathered × ℕ
unfolding first_read
room_position now gid uin device_id head s none = first_read now gid uin device_id head s
room_position now gid uin device_id head s (some at) = (s, at)

unfoldable pub read_room : ℕ → ℕ → String → List Seq → ℕ × Option ℕ → Gathered → Gathered
unfolding room_head behind_from room_position
read_room now uin device_id seqs (gid, after) s =
    let head = room_head gid seqs in
    let (s', at) = room_position now gid uin device_id head s (s.known gid) in
    behind_from gid head after at s'

unfoldable pub read_rooms : ℕ → ℕ → String → List Seq → List (ℕ × Option ℕ) → Gathered → Gathered
unfolding read_room
read_rooms now uin device_id seqs [] s = s
read_rooms now uin device_id seqs (w ∷ wanted) s =
    read_rooms now uin device_id seqs wanted (read_room now uin device_id seqs w s)

abbrev pub log_row : ℕ → GroupLog → GroupLogRow
log_row gid r = record {
  gid = gid;
  seq = r.seq;
  envelope_type = r.envelope_type;
  cls = r.cls;
  payload = r.payload;
  received_at = r.received_at;
}

abbrev pub out_rows : List Room → List GroupLogRow
out_rows [] = []
out_rows (m ∷ rooms) = map (log_row m.gid) m.picked ++ out_rows rooms

abbrev pub gathered : ℕ → String → List (ℕ × Option ℕ) → List GroupLogCursor → Gathered
unfolding positions
gathered uin device_id wanted cs = record {
  stored = cs;
  known = positions uin device_id wanted cs;
  heads = [];
  cur_out = [];
  starts = [];
}

-- The loop's result, for the rooms of the request.
unfoldable pub behind_rooms : ℕ → GroupLogFetchIn → ℕ → String → FetchDb → Gathered
unfolding member_of wanted_rooms gathered read_rooms
behind_rooms now body uin device_id db =
    let wanted = wanted_rooms (member_of db.members uin) body.rooms in
    read_rooms now uin device_id db.seqs wanted (gathered uin device_id wanted db.marks.cursors)

abbrev pub is_empty : List GroupLogRow → Bool
is_empty [] = true
is_empty (r ∷ rows) = false

unfoldable pub fetch_group_log :
    ℕ → GroupLogFetchIn → ℕ → String → FetchDb → FetchDb × GroupLogFetchOut
unfolding behind_rooms fair_log_page mark_reader
fetch_group_log now body uin device_id db =
    let s = behind_rooms now body uin device_id db in
    let (rooms, more) = fair_log_page db.log uin s.starts body.limit in
    let rows = out_rows rooms in
    (
      record db {
        marks = record {
          cursors = s.stored;
          readers =
              if is_empty rows
              then mark_reader now uin device_id db.marks.readers
              else db.marks.readers;
        };
      },
      record { rows = rows; heads = s.heads; cursors = s.cur_out; more = more },
    )
