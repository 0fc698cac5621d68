-- ===== src/Queue/NewDevice.antt =====
-- A device without a cursor (app/services/queue_drain.py, `fetch_queue` of app/routers/messages.py).
use rcq_server_ref.Queue.NoLoss.{fetched_rows}
use rcq_server_ref.Queue.Liveness.{direct_above-mem, group_above-mem}
use rcq_server_ref.Queue.Cursors.{floor-none}
use rcq_server_ref.Queue.Tables.{QueueCursor, Db, OfflineMessage, OfflineGroupMessage}
use rcq_server_ref.Base.{
  ℕ, arith, List, String, Bool, ◌∈◌, ◌≡◌, none, ◌≤◌, ◌∷◌, ◌<◌, ◌⊎◌, inl, some, inr, [], ap,
}
use rcq_server_ref.Queue.Drain.{account_watermark, find_cursor}
use rcq_server_ref.Queue.Endpoints.{
  pin_floor, fetch_queue, HistoryRow, direct_row, direct_above, group_row, group_above,
}

account_watermark_le :
    (uin : ℕ) (cs : List QueueCursor) (c : QueueCursor)
    → c ∈ cs
    → c.uin ≡ uin
    → (c.last_direct_id ≤ (account_watermark uin cs).0)
      × (c.last_group_id ≤ (account_watermark uin cs).1)
unfolding account_watermark
account_watermark_le uin [] c m own = absurd m
account_watermark_le uin (d ∷ cs) c (inl e) own = rw e (ground (arith, e))
account_watermark_le uin (d ∷ cs) c (inr m) own =
    ground (arith, account_watermark_le uin cs c m own)

pin_floor-none :
    (now uin : ℕ) (device_id : String) (cs : List QueueCursor)
    → find_cursor uin device_id cs ≡ none
    → ((pin_floor now uin device_id cs).0 ≡ (account_watermark uin cs).0)
      × ((pin_floor now uin device_id cs).1 ≡ (account_watermark uin cs).1)
unfolding pin_floor
pin_floor-none now uin device_id cs h = ground (arith, floor-none uin device_id cs h)

-- A device without a cursor is handed no row at or below the mark of any device of its account.
pub new_device_above_marks :
    (now : ℕ) (ack : Bool) (dev uin : ℕ) (device_id : String) (db : Db) (h : HistoryRow)
    (c : QueueCursor)
    → find_cursor uin device_id db.cursors ≡ none
    → c ∈ db.cursors
    → c.uin ≡ uin
    → h ∈ (fetch_queue now ack dev uin device_id db).1
    → ((h.group_id ≡ none) × (c.last_direct_id < h.id))
      ⊎ ((g : ℕ) × (h.group_id ≡ some g) × (c.last_group_id < h.id))
unfolding direct_row group_row
new_device_above_marks now ack dev uin device_id db h c f m own i =
    let pin = pin_floor-none now uin device_id db.cursors f in
    let le = account_watermark_le uin db.cursors c m own in
    elim (fetched_rows now ack dev uin device_id db h i) [
      | inl (r, e, j) ↦ inl (direct_case pin.0 le.0 r e j)
      | inr (r, e, j) ↦ inr (group_case pin.1 le.1 r e j)
    ]
  where
    direct_case :
        (pin_floor now uin device_id db.cursors).0 ≡ (account_watermark uin db.cursors).0
        → c.last_direct_id ≤ (account_watermark uin db.cursors).0
        → (r : OfflineMessage) → h ≡ direct_row r
        → r ∈ direct_above uin dev (pin_floor now uin device_id db.cursors).0 db.direct
        → (h.group_id ≡ none) × (c.last_direct_id < h.id)
    direct_case p le r e j =
        let lt = (direct_above-mem uin dev _ db.direct r j).3 in ground (arith, e)

    group_case :
        (pin_floor now uin device_id db.cursors).1 ≡ (account_watermark uin db.cursors).1
        → c.last_group_id ≤ (account_watermark uin db.cursors).1
        → (r : OfflineGroupMessage) → h ≡ group_row r
        → r ∈ group_above uin (pin_floor now uin device_id db.cursors).1 db.group
        → (g : ℕ) × (h.group_id ≡ some g) × (c.last_group_id < h.id)
    group_case p le r e j =
        let lt = (group_above-mem uin _ db.group r j).2 in
        (r.group_id, ap (λ (x : HistoryRow). x.group_id) e, ground (arith, e))
