-- ===== src/Queue/Tests.antt =====
-- Runs of the offline queue on a small account, and the theorems at it.
use rcq_server_ref.Queue.NewDevice.{new_device_above_marks}
use rcq_server_ref.Queue.Races.{Write, run_writes, run_writes_forward, upsert_cursor_comm}
use rcq_server_ref.Queue.Liveness.{settled_db, fetch-ack_all-fetch_queue}
use rcq_server_ref.Queue.Cursors.{floor}
use rcq_server_ref.Queue.Reap.{fresh_sibling}
use rcq_server_ref.Queue.NoLoss.{acked_db, unacked_direct_served, ack_queue_keeps_direct}
use rcq_server_ref.Queue.Ack.{is_acked}
use rcq_server_ref.Queue.Drain.{drain_floor, is_key, find_cursor, account_watermark, upsert_cursor}
use rcq_server_ref.Queue.Tables.{OfflineGroupMessage, Db, OfflineMessage, QueueCursor}
use rcq_server_ref.Base.{
  ℕ, arith, Option, String, map, ◌∷◌, none, [], ◌+◌, some, true, ◌≡◌, ◌∈◌, refl, inr, inl, sort_by,
  ◌<◌, ◌≤◌, ◌⊎◌,
}
use rcq_server_ref.Queue.Endpoints.{fetch_queue, ack_queue, HistoryRow, direct_row, group_row}

abbrev direct_message : ℕ → Option ℕ → OfflineMessage
direct_message id device = record {
  id = id;
  to_uin = 777;
  envelope_type = "message";
  payload = "sealed";
  received_at = 1000 + id;
  cls = none;
  seq = some id;
  to_device_id = device;
}

abbrev group_message : ℕ → OfflineGroupMessage
group_message id = record {
  id = id;
  group_id = 21;
  to_uin = 777;
  envelope_type = "skdm";
  payload = "sealed";
  received_at = 2000 + id;
  cls = none;
}

abbrev cursor : String → ℕ → ℕ → ℕ → QueueCursor
cursor device_id direct group at = record {
  uin = 777;
  device_id = device_id;
  last_direct_id = direct;
  last_group_id = group;
  updated_at = some at;
}

-- The phone has drained the first 1:1 row; the browser has drained two.
abbrev island : Db
island = record {
  direct =
      direct_message 4 none
      ∷ direct_message 1 none
      ∷ direct_message 2 (some 2)
      ∷ direct_message 3 none
      ∷ [];
  group = group_message 1 ∷ group_message 2 ∷ [];
  cursors = cursor "phone" 1 0 5000000 ∷ cursor "web" 2 1 5000100 ∷ [];
}

-- The phone acks the id 4 and not 3: its mark stays below the hole, and 3 comes again.
ack_with_hole :
    map
      (λ (h : HistoryRow). h.id)
      (fetch_queue 5000300 true 1 777 "phone"
        (ack_queue 5000200 (4 ∷ []) (1 ∷ []) 1 777 "phone" island).0).1
    ≡ 3 ∷ 4 ∷ 2 ∷ []
unfolding fetch_queue ack_queue is_key fresh_sibling find_cursor direct_row group_row
ack_with_hole = refl

-- A third device starts at the furthest marks of the other two.
new_device_fetch :
    map (λ (h : HistoryRow). h.id) (fetch_queue 5000200 true 1 777 "tablet" island).1
    ≡ 3 ∷ 4 ∷ 2 ∷ []
unfolding fetch_queue sort_by find_cursor is_key account_watermark direct_row group_row
new_device_fetch = refl

-- The phone has no copy of the row that is sealed to the device 2, so its prefix runs past it, and
-- the rows that both devices have drained are reaped.
ack_all_reaps : (ack_queue 5000200 (3 ∷ 4 ∷ []) (1 ∷ 2 ∷ []) 1 777 "phone" island).1 ≡ 3
unfolding ack_queue is_key fresh_sibling find_cursor
ack_all_reaps = refl

unacked_direct_served_example :
    direct_row (direct_message 3 none)
    ∈ (fetch_queue 5000300 true 1 777 "phone"
        (acked_db 5000200 (4 ∷ []) (1 ∷ []) 1 777 "phone" island)).1
unfolding drain_floor is_acked find_cursor is_key
unacked_direct_served_example =
    unacked_direct_served 5000200 (4 ∷ []) (1 ∷ []) 1 777 "phone" island (direct_message 3 none)
      5000300 true (inr (inr (inr (inl refl)))) refl refl (omega arith) refl

ack_queue_keeps_direct_example :
    direct_message 3 none ∈ (acked_db 5000200 (3 ∷ 4 ∷ []) [] 1 777 "phone" island).direct
unfolding ack_queue is_key fresh_sibling
ack_queue_keeps_direct_example =
    ack_queue_keeps_direct 5000200 (3 ∷ 4 ∷ []) [] 1 777 "phone" island (direct_message 3 none)
      (cursor "web" 2 1 5000100) (inr (inr (inr (inl refl)))) (inr (inl refl))
      (inr (refl, omega arith))

fetch-ack_all-fetch_queue_example :
    (fetch_queue 5000300 true 1 777 "phone"
      (settled_db 5000200 5000250 5000300 1 777 "phone" island)).1
    ≡ []
fetch-ack_all-fetch_queue_example =
    fetch-ack_all-fetch_queue 5000200 5000250 5000300 1 777 "phone" island

abbrev ack_of : ℕ → String → ℕ → Write
ack_of at device_id direct = record {
  at = at;
  uin = 777;
  device_id = device_id;
  marks = record { direct = direct; group = 0; seed_direct = 0; seed_group = 0 };
}

run_writes_forward_example :
    (c : QueueCursor) × (find_cursor 777 "phone" (
        run_writes
          (ack_of 5000200 "phone" 4 ∷ ack_of 5000201 "phone" 3 ∷ ack_of 5000202 "web" 9 ∷ [])
          island.cursors)
      ≡ some c)
    × (1 ≤ c.last_direct_id)
    × (0 ≤ c.last_group_id)
unfolding find_cursor is_key
run_writes_forward_example =
    run_writes_forward
      (ack_of 5000200 "phone" 4 ∷ ack_of 5000201 "phone" 3 ∷ ack_of 5000202 "web" 9 ∷ []) 777
      "phone" island.cursors (cursor "phone" 1 0 5000000) refl

upsert_cursor_comm_example :
    floor 777 "tv" (
      upsert_cursor 11 777 "tv"
        (ack_of 11 "tv" 3).marks
        (upsert_cursor 10 777 "tv" (ack_of 10 "tv" 4).marks island.cursors))
    ≡ floor 777 "tv" (
        upsert_cursor 10 777 "tv"
          (ack_of 10 "tv" 4).marks
          (upsert_cursor 11 777 "tv" (ack_of 11 "tv" 3).marks island.cursors))
upsert_cursor_comm_example =
    upsert_cursor_comm 10 11 777 "tv" (ack_of 10 "tv" 4).marks (ack_of 11 "tv" 3).marks
      island.cursors (omega arith) (omega arith) (omega arith) (omega arith)

new_device_above_marks_example :
    ((direct_row (direct_message 3 none)).group_id ≡ none)
      × (2 < (direct_row (direct_message 3 none)).id)
    ⊎ ((g : ℕ) × ((direct_row (direct_message 3 none)).group_id ≡ some g)
        × (1 < (direct_row (direct_message 3 none)).id))
unfolding find_cursor is_key fetch_queue sort_by account_watermark direct_row group_row
new_device_above_marks_example =
    new_device_above_marks 5000200 true 1 777 "tablet" island (direct_row (direct_message 3 none))
      (cursor "web" 2 1 5000100) refl (inr (inl refl)) refl (inl refl)
