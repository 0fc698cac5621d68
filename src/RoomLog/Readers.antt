-- ===== src/RoomLog/Readers.antt =====
-- `log_readers` and `mark_reader` of app/services/group_log.py.
use rcq_server_ref.Queue.Tables.{QueueCursor}
use rcq_server_ref.RoomLog.Cursors.{GroupLogReader}
use rcq_server_ref.Base.{
  ℕ, String, List, Bool, ◌∷◌, any, filter, ◌==◌, if◌then◌else◌, not, ◌&&◌, [], same_text,
}

unfoldable pub is_reader : ℕ → String → GroupLogReader → Bool
is_reader uin device_id r = r.uin == uin && same_text r.device_id device_id

unfoldable pub mark_reader : ℕ → ℕ → String → List GroupLogReader → List GroupLogReader
unfolding is_reader
mark_reader now uin device_id [] =
    record { uin = uin; device_id = device_id; first_seen = now; last_seen = now } ∷ []
mark_reader now uin device_id (r ∷ readers) =
    if is_reader uin device_id r
    then record r { last_seen = now } ∷ readers
    else r ∷ mark_reader now uin device_id readers

-- `has_reader`, for one account
unfoldable pub has_reader : List GroupLogReader → ℕ → Bool
has_reader readers uin = any (λ (r : GroupLogReader). r.uin == uin) readers

-- `blocked`: a device that drains the old queue and has never read a log.
unfoldable pub is_blocking : List GroupLogReader → ℕ → QueueCursor → Bool
unfolding is_reader
is_blocking readers uin c = c.uin == uin && not (any (is_reader c.uin c.device_id) readers)

unfoldable pub log_readers : List GroupLogReader → List QueueCursor → List ℕ → List ℕ
unfolding has_reader is_blocking
log_readers readers cursors uins =
    filter (λ uin. not (any (is_blocking readers uin) cursors)) (filter (has_reader readers) uins)
