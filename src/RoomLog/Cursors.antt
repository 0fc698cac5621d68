-- ===== src/RoomLog/Cursors.antt =====
-- `upsert_log_cursor` and `seed_cursors_on_join` of app/services/group_log.py, and their tables
-- (app/models/group_log.py).
use rcq_server_ref.RoomLog.Counters.{room_head, Seq}
use rcq_server_ref.Base.{
  ℕ, String, max, Option, List, Bool, none, map, ◌∷◌, some, if◌then◌else◌, ltb, filter, ◌==◌, [],
  ◌&&◌, same_text,
}

pub record GroupLogCursor : Type 0 where
  pub group_id : ℕ
  pub uin : ℕ
  pub device_id : String
  pub last_seq : ℕ
  pub updated_at : ℕ

pub record GroupLogReader : Type 0 where
  pub uin : ℕ
  pub device_id : String
  pub first_seen : ℕ
  pub last_seen : ℕ

-- The primary key of a cursor.
unfoldable pub is_log_key : ℕ → ℕ → String → GroupLogCursor → Bool
is_log_key group_id uin device_id c =
    c.group_id == group_id && (c.uin == uin && same_text c.device_id device_id)

unfoldable pub find_log_cursor : ℕ → ℕ → String → List GroupLogCursor → Option GroupLogCursor
find_log_cursor group_id uin device_id [] = none
find_log_cursor group_id uin device_id (c ∷ cs) =
    if is_log_key group_id uin device_id c
    then some c
    else find_log_cursor group_id uin device_id cs

-- The row after the conflict clause; the stamp moves only with the cursor.
abbrev pub moved_to : ℕ → ℕ → GroupLogCursor → GroupLogCursor
moved_to now seq c = record c {
  last_seq = max c.last_seq seq;
  updated_at = if ltb c.last_seq seq then now else c.updated_at;
}

abbrev pub new_log_cursor : ℕ → ℕ → ℕ → String → ℕ → ℕ → GroupLogCursor
new_log_cursor now group_id uin device_id seq seed = record {
  group_id = group_id;
  uin = uin;
  device_id = device_id;
  last_seq = max seq seed;
  updated_at = now;
}

unfoldable pub upsert_log_cursor :
    ℕ → ℕ → ℕ → String → ℕ → ℕ → List GroupLogCursor → List GroupLogCursor
upsert_log_cursor now group_id uin device_id seq seed [] =
    new_log_cursor now group_id uin device_id seq seed ∷ []
upsert_log_cursor now group_id uin device_id seq seed (c ∷ cs) =
    if is_log_key group_id uin device_id c
    then moved_to now seq c ∷ cs
    else c ∷ upsert_log_cursor now group_id uin device_id seq seed cs

-- `RETURNING last_seq`
abbrev pub returned_seq : ℕ → ℕ → Option GroupLogCursor → ℕ
returned_seq seq seed none = max seq seed
returned_seq seq seed (some c) = max c.last_seq seq

-- The devices of the account that have read a log.
unfoldable pub reader_devices : ℕ → List GroupLogReader → List String
reader_devices uin readers =
    map (λ (r : GroupLogReader). r.device_id)
      (filter (λ (r : GroupLogReader). r.uin == uin) readers)

unfoldable pub seed_each : ℕ → ℕ → ℕ → ℕ → List String → List GroupLogCursor → List GroupLogCursor
unfolding upsert_log_cursor
seed_each now group_id uin head [] cs = cs
seed_each now group_id uin head (device_id ∷ devices) cs =
    seed_each now group_id uin head devices (upsert_log_cursor now group_id uin device_id 0 head cs)

unfoldable pub seed_cursors_on_join :
    ℕ → ℕ → ℕ → List Seq → List GroupLogReader → List GroupLogCursor → List GroupLogCursor
unfolding seed_each reader_devices room_head
seed_cursors_on_join now group_id uin seqs readers cs =
    seed_each now group_id uin (room_head group_id seqs) (reader_devices uin readers) cs
