-- ===== src/RoomLog/FetchTests.antt =====
-- Runs of `fetch_group_log`, and the theorems at them.
use rcq_server_ref.Base.{ℕ, arith, List, String, [], ◌∷◌, ◌≡◌, ◌∈◌, refl, false, map, inl, inr}
use rcq_server_ref.RoomLog.Counters.{room_head}
use rcq_server_ref.RoomLog.Cursors.{GroupLogCursor, find_log_cursor, is_log_key}
use rcq_server_ref.RoomLog.Rows.{GroupLog, size}
use rcq_server_ref.RoomLog.PageTests.{row, page_log, page_log-IsKeyed}
use rcq_server_ref.RoomLog.Fetch.Served.{
  IsReadable, all_rooms, fetch_group_log-IsReadable, fetch_group_log_complete,
}
use rcq_server_ref.RoomLog.Fetch.{GroupMember, FetchDb, GroupLogRow, log_row, fetch_group_log}

abbrev cursor : ℕ → String → ℕ → GroupLogCursor
cursor group_id device_id last_seq = record {
  group_id = group_id;
  uin = 777;
  device_id = device_id;
  last_seq = last_seq;
  updated_at = 7;
}

abbrev member : ℕ → ℕ → GroupMember
member group_id uin = record { group_id = group_id; uin = uin }

-- The phone has read one row of room 21 and has never read room 9.
abbrev db : FetchDb
db = record {
  members = member 21 777 ∷ member 9 777 ∷ member 21 778 ∷ [];
  seqs = record { key = 21; next_seq = 4 } ∷ record { key = 9; next_seq = 7 } ∷ [];
  log = page_log;
  marks = record { cursors = cursor 21 "phone" 1 ∷ []; readers = [] };
}

abbrev seqs_out : List GroupLogRow → List (ℕ × ℕ)
seqs_out rows = map (λ (o : GroupLogRow). (o.gid, o.seq)) rows

fetched :
    seqs_out (fetch_group_log 50 (all_rooms 500) 777 "phone" db).1.rows ≡ (21, 2) ∷ (21, 3) ∷ []
unfolding fetch_group_log is_log_key size
fetched = refl

fetched_cursors :
    (fetch_group_log 50 (all_rooms 500) 777 "phone" db).1.cursors ≡ (9, 7) ∷ (21, 1) ∷ []
unfolding fetch_group_log is_log_key
fetched_cursors = refl

nothing_more : (fetch_group_log 50 (all_rooms 500) 777 "phone" db).1.more ≡ false
unfolding fetch_group_log is_log_key size
nothing_more = refl

fetch_group_log-IsReadable_example :
    (r : GroupLog) × (log_row 21 (row 21 2 "bbbb") ≡ log_row r.group_id r) × IsReadable db 777 r
unfolding fetch_group_log is_log_key size
fetch_group_log-IsReadable_example =
    fetch_group_log-IsReadable 50 777 "phone" db (all_rooms 500) (log_row 21 (row 21 2 "bbbb"))
      page_log-IsKeyed (omega arith) (inl refl)

fetch_group_log_complete_example :
    log_row 21 (row 21 3 "cccc") ∈ (fetch_group_log 50 (all_rooms 500) 777 "phone" db).1.rows
unfolding room_head find_log_cursor is_log_key
fetch_group_log_complete_example =
    fetch_group_log_complete 50 777 "phone" db 500 (row 21 3 "cccc") (cursor 21 "phone" 1)
      page_log-IsKeyed (omega arith)
      (inr (inr (inl refl)), (member 21 777, inl refl, refl, refl), refl) (omega arith) refl
      (omega arith) nothing_more
