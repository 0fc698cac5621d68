-- ===== src/RoomLog/Rows.antt =====
-- The rows of a room and the reads of them (app/models/group_log.py, app/routers/messages.py).
use Prim.Native.String.{count, String}
use rcq_server_ref.Base.{
  ℕ, Option, List, Bool, true, sort_by, filter, false, some, none, ltb, ◌==◌, ◌&&◌, [], ◌∷◌,
}

-- A row of `group_log` (app/models/group_log.py).
pub record GroupLog : Type 0 where
  pub group_id : ℕ
  pub seq : ℕ
  pub to_uin : Option ℕ
  pub envelope_type : String
  pub cls : ℕ
  pub payload : String
  pub received_at : ℕ

-- `len(row.payload)`
unfoldable pub size : GroupLog → ℕ
size r = count r.payload

abbrev pub is_to : ℕ → Option ℕ → Bool
is_to uin none = true
is_to uin (some u) = u == uin

-- The rows of a room that the member may read, in order.
unfoldable pub room_log : List GroupLog → ℕ → ℕ → List GroupLog
room_log log uin gid =
    sort_by (λ (r : GroupLog). r.seq)
      (filter (λ (r : GroupLog). r.group_id == gid && is_to uin r.to_uin) log)

-- The rows of a read, those above a mark.
unfoldable pub log_above : List GroupLog → ℕ → ℕ → ℕ → List GroupLog
unfolding room_log
log_above log uin gid mark = filter (λ (r : GroupLog). ltb mark r.seq) (room_log log uin gid)

-- `got[-1].seq if got`
abbrev pub last_seq_or : ℕ → List GroupLog → ℕ
last_seq_or mark [] = mark
last_seq_or mark (r ∷ rows) = last_seq_or r.seq rows

abbrev pub has_rows : List GroupLog → Bool
has_rows [] = false
has_rows (r ∷ rows) = true
