-- ===== src/Queue/Drain.antt =====
-- app/services/queue_drain.py: where a device starts to read, and the one statement that creates or
-- advances its cursor.
use rcq_server_ref.Base.{
  ℕ, String, Bool, ◌&&◌, ◌==◌, same_text, Option, none, some, List, ◌∷◌, max, if◌then◌else◌, [],
}
use rcq_server_ref.Queue.Tables.{QueueCursor}

-- The primary key of a cursor row.
unfoldable pub is_key : ℕ → String → QueueCursor → Bool
is_key uin device_id c = c.uin == uin && same_text c.device_id device_id

-- `db.get(QueueCursor, (uin, device_id))`
unfoldable pub find_cursor : ℕ → String → List QueueCursor → Option QueueCursor
find_cursor uin device_id [] = none
find_cursor uin device_id (c ∷ cs) =
    if is_key uin device_id c then some c else find_cursor uin device_id cs

-- The furthest marks of any device of the account, 0 where there is none.
unfoldable pub account_watermark : ℕ → List QueueCursor → ℕ × ℕ
account_watermark uin [] = (0, 0)
account_watermark uin (c ∷ cs) =
    let (direct, group) = account_watermark uin cs in
    if c.uin == uin
    then (max c.last_direct_id direct, max c.last_group_id group)
    else (direct, group)

unfoldable pub drain_floor : ℕ → String → List QueueCursor → ℕ × ℕ × Option QueueCursor
drain_floor uin device_id cs = elim (find_cursor uin device_id cs) [
  | some c ↦ (c.last_direct_id, c.last_group_id, some c)
  | none ↦ let (direct, group) = account_watermark uin cs in (direct, group, none)
]

-- The arguments of `upsert_cursor` behind the key.
pub record Marks : Type 0 where
  pub direct : ℕ
  pub group : ℕ
  pub seed_direct : ℕ
  pub seed_group : ℕ

-- The row that the statement inserts where there is none.
abbrev pub inserted : ℕ → ℕ → String → Marks → QueueCursor
inserted now uin device_id m = record {
  uin = uin;
  device_id = device_id;
  last_direct_id = max m.direct m.seed_direct;
  last_group_id = max m.group m.seed_group;
  updated_at = some now;
}

-- The row after the conflict clause.
abbrev pub advanced : ℕ → Marks → QueueCursor → QueueCursor
advanced now m c = record c {
  last_direct_id = max c.last_direct_id m.direct;
  last_group_id = max c.last_group_id m.group;
  updated_at = some now;
}

-- `INSERT ... ON CONFLICT (uin, device_id) DO UPDATE`
unfoldable pub upsert_cursor : ℕ → ℕ → String → Marks → List QueueCursor → List QueueCursor
upsert_cursor now uin device_id m [] = inserted now uin device_id m ∷ []
upsert_cursor now uin device_id m (c ∷ cs) =
    if is_key uin device_id c
    then advanced now m c ∷ cs
    else c ∷ upsert_cursor now uin device_id m cs

-- `RETURNING last_direct_id, last_group_id` of the same statement.
unfoldable pub upsert_returning : ℕ → String → Marks → List QueueCursor → ℕ × ℕ
upsert_returning uin device_id m cs = elim (find_cursor uin device_id cs) [
  | some c ↦ (max c.last_direct_id m.direct, max c.last_group_id m.group)
  | none ↦ (max m.direct m.seed_direct, max m.group m.seed_group)
]
