-- ===== src/Queue/NoLoss.antt =====
-- `ack_queue` and `fetch_queue` (app/routers/messages.py) together: nothing unacked is lost to the
-- device that acks, nor to its siblings.
use rcq_server_ref.Queue.Survivors.{reap_keeps_direct, reap_keeps_group}
use rcq_server_ref.Queue.Prefix.{base-le-acked_prefix, acked_prefix_acked}
use rcq_server_ref.Queue.Advance.{find_cursor-advance_cursor, floor-advance_cursor, row_after}
use rcq_server_ref.Queue.Ack.{acked_prefix, is_acked}
use rcq_server_ref.Queue.Cursors.{floor-some, floor, find_cursor-mem, is_key-uin}
use rcq_server_ref.Queue.Drain.{find_cursor, drain_floor}
use rcq_server_ref.Queue.Tables.{
  Db, QueueCursor, OfflineMessage, is_for_device, OfflineGroupMessage, direct_model, group_model,
}
use rcq_server_ref.Base.{
  ℕ, arith, String, Bool, List, ◌≡◌, some, ◌∈◌, true, ◌<◌, mem-sort_by, mem-filter, mem-append, inl,
  inr, mem-map, none, ◌⊎◌, Option-cases, ◌≢◌, false, not_le→lt, false≢true, sym, ◌∙◌, append-mem,
  sort_by-mem, map-mem,
}
use rcq_server_ref.Queue.Reap.{advance_cursor}
use rcq_server_ref.Queue.Endpoints.{
  pin_floor, direct_above, group_above, fetch_queue, ack_queue, direct_row, group_row, HistoryRow,
}

pin_floor-some :
    (now uin : ℕ) (device_id : String) (cs : List QueueCursor) (c : QueueCursor)
    → find_cursor uin device_id cs ≡ some c
    → pin_floor now uin device_id cs ≡ (c.last_direct_id, c.last_group_id, some c, cs)
unfolding pin_floor
pin_floor-some now uin device_id cs c h = ground (arith, floor-some uin device_id cs c h)

mem-direct_above :
    (uin dev after : ℕ) (rows : List OfflineMessage) (r : OfflineMessage)
    → r ∈ rows
    → r.to_uin ≡ uin
    → is_for_device r.to_device_id dev ≡ true
    → after < r.id
    → r ∈ direct_above uin dev after rows
unfolding direct_above
mem-direct_above uin dev after rows r m own for lt =
    mem-sort_by (λ h. h.received_at) r _ (mem-filter _ r rows (ground arith) m)

mem-group_above :
    (uin after : ℕ) (rows : List OfflineGroupMessage) (r : OfflineGroupMessage)
    → r ∈ rows
    → r.to_uin ≡ uin
    → after < r.id
    → r ∈ group_above uin after rows
unfolding group_above
mem-group_above uin after rows r m own lt =
    mem-sort_by (λ h. h.received_at) r _ (mem-filter _ r rows (ground arith) m)

-- Every 1:1 row above the floor that the fetch reads, of this account and for this device, is part
-- of the answer.
pub fetched_direct :
    (now : ℕ) (ack : Bool) (dev uin : ℕ) (device_id : String) (db : Db) (r : OfflineMessage)
    → r ∈ db.direct
    → r.to_uin ≡ uin
    → is_for_device r.to_device_id dev ≡ true
    → (pin_floor now uin device_id db.cursors).0 < r.id
    → direct_row r ∈ (fetch_queue now ack dev uin device_id db).1
unfolding fetch_queue
fetched_direct now ack dev uin device_id db r m own for lt =
    let after = (pin_floor now uin device_id db.cursors).0 in
    mem-sort_by (λ h. h.received_at) (direct_row r) _
      (mem-append (direct_row r) _ _
        (inl (mem-map direct_row r _ (mem-direct_above uin dev after db.direct r m own for lt))))

pub fetched_group :
    (now : ℕ) (ack : Bool) (dev uin : ℕ) (device_id : String) (db : Db) (r : OfflineGroupMessage)
    → r ∈ db.group
    → r.to_uin ≡ uin
    → (pin_floor now uin device_id db.cursors).1 < r.id
    → group_row r ∈ (fetch_queue now ack dev uin device_id db).1
unfolding fetch_queue
fetched_group now ack dev uin device_id db r m own lt =
    let after = (pin_floor now uin device_id db.cursors).1 in
    mem-sort_by (λ h. h.received_at) (group_row r) _
      (mem-append (group_row r) _ _
        (inr (mem-map group_row r _ (mem-group_above uin after db.group r m own lt))))

-- Nothing else is: a row of the answer is a queued row of the account above the floor.
pub fetched_rows :
    (now : ℕ) (ack : Bool) (dev uin : ℕ) (device_id : String) (db : Db) (h : HistoryRow)
    → h ∈ (fetch_queue now ack dev uin device_id db).1
    → ((r : OfflineMessage) × (h ≡ direct_row r)
        × (r ∈ direct_above uin dev (pin_floor now uin device_id db.cursors).0 db.direct))
      ⊎ ((r : OfflineGroupMessage) × (h ≡ group_row r)
          × (r ∈ group_above uin (pin_floor now uin device_id db.cursors).1 db.group))
unfolding fetch_queue
fetched_rows now ack dev uin device_id db h m =
    elim (append-mem h _ _ (sort_by-mem (λ h. h.received_at) h _ m)) [
      | inl i ↦ let (r, j, e) = map-mem direct_row h _ i in inl (r, e, j)
      | inr i ↦ let (r, j, e) = map-mem group_row h _ i in inr (r, e, j)
    ]

module _ (now : ℕ) (direct_ids group_ids : List ℕ) (dev uin : ℕ) (device_id : String)
    (db : Db) where
  abbrev pub acked_db : Db
  acked_db = (ack_queue now direct_ids group_ids dev uin device_id db).0

  abbrev pub direct_mark : ℕ
  direct_mark =
      acked_prefix direct_model uin (floor uin device_id db.cursors).0 (some dev) direct_ids
        db.direct

  abbrev pub group_mark : ℕ
  group_mark =
      acked_prefix group_model uin (floor uin device_id db.cursors).1 none group_ids db.group

  abbrev pub acking_row : QueueCursor
  acking_row =
      row_after now uin device_id direct_mark group_mark (drain_floor uin device_id db.cursors).2 db

  floor_cursor :
      ((drain_floor uin device_id db.cursors).2 ≡ none)
      ⊎ ((drain_floor uin device_id db.cursors).2 ≡ find_cursor uin device_id db.cursors)
  unfolding drain_floor
  floor_cursor = elim (Option-cases (find_cursor uin device_id db.cursors)) [
    | inl e ↦ inl (rw (e, drain_floor))
    | inr (c, e) ↦ inr (rw (e, drain_floor))
  ]

  find_cursor-ack_queue : find_cursor uin device_id acked_db.cursors ≡ some acking_row
  unfolding ack_queue
  find_cursor-ack_queue =
      find_cursor-advance_cursor now uin device_id direct_mark group_mark
        (drain_floor uin device_id db.cursors).2 db

  pub acking_row_marks :
      (acking_row.last_direct_id ≡ direct_mark) × (acking_row.last_group_id ≡ group_mark)
  acking_row_marks =
      let e =
        floor-advance_cursor now uin device_id direct_mark group_mark
          (drain_floor uin device_id db.cursors).2 db floor_cursor in
      omega (
        arith,
        e,
        base-le-acked_prefix direct_model uin (floor uin device_id db.cursors).0 (some dev)
            db.direct direct_ids,
        base-le-acked_prefix group_model uin (floor uin device_id db.cursors).1 none db.group
            group_ids,
      )

  -- After an ack the device reads above exactly the acked prefix over its floor before, on each axis.
  pub ack_queue_floor : floor uin device_id acked_db.cursors ≡ (direct_mark, group_mark)
  ack_queue_floor =
      rw (floor-some uin device_id acked_db.cursors acking_row find_cursor-ack_queue)
        (cc (acking_row_marks.0, acking_row_marks.1))

  pub acked_pin :
      (later : ℕ)
      → pin_floor later uin device_id acked_db.cursors
        ≡ (acking_row.last_direct_id, acking_row.last_group_id, some acking_row, acked_db.cursors)
  acked_pin later =
      pin_floor-some later uin device_id acked_db.cursors acking_row find_cursor-ack_queue

  acking_row_mem : acking_row ∈ acked_db.cursors
  acking_row_mem =
      (find_cursor-mem uin device_id acked_db.cursors acking_row find_cursor-ack_queue).0

  acking_row_uin : acking_row.uin ≡ uin
  acking_row_uin =
      is_key-uin uin device_id acking_row
        (find_cursor-mem uin device_id acked_db.cursors acking_row find_cursor-ack_queue).1

  -- A queued 1:1 row that is of another account, or above the mark of a cursor of this account that
  -- the table still holds after an ack, is still queued after the ack.
  pub ack_queue_keeps_direct :
      (r : OfflineMessage) (c : QueueCursor)
      → r ∈ db.direct
      → c ∈ acked_db.cursors
      → (r.to_uin ≢ uin) ⊎ ((c.uin ≡ uin) × (c.last_direct_id < r.id))
      → r ∈ acked_db.direct
  unfolding ack_queue advance_cursor
  ack_queue_keeps_direct r c m k h = reap_keeps_direct now uin _ r c m k h

  -- A queued legacy group row that is of another account, or above the mark of a cursor of this
  -- account that the table still holds after an ack, is still queued after the ack.
  pub ack_queue_keeps_group :
      (r : OfflineGroupMessage) (c : QueueCursor)
      → r ∈ db.group
      → c ∈ acked_db.cursors
      → (r.to_uin ≢ uin) ⊎ ((c.uin ≡ uin) × (c.last_group_id < r.id))
      → r ∈ acked_db.group
  unfolding ack_queue advance_cursor
  ack_queue_keeps_group r c m k h = reap_keeps_group now uin _ r c m k h

  -- A 1:1 row that this device is handed, above its floor and not among the acked ids, is above the
  -- device's mark after the ack.
  unacked_above :
      (r : OfflineMessage)
      → r ∈ db.direct
      → r.to_uin ≡ uin
      → is_for_device r.to_device_id dev ≡ true
      → (floor uin device_id db.cursors).0 < r.id
      → is_acked direct_ids r.id ≡ false
      → acking_row.last_direct_id < r.id
  unacked_above r m own for above unacked = rw (acking_row_marks.0) (
      not_le→lt (λ le. false≢true (
        sym unacked
        ∙ acked_prefix_acked direct_model uin (floor uin device_id db.cursors).0 (some dev)
            db.direct direct_ids r m (ground arith) le)))

  unacked_group_above :
      (r : OfflineGroupMessage)
      → r ∈ db.group
      → r.to_uin ≡ uin
      → (floor uin device_id db.cursors).1 < r.id
      → is_acked group_ids r.id ≡ false
      → acking_row.last_group_id < r.id
  unacked_group_above r m own above unacked = rw (acking_row_marks.1) (
      not_le→lt (λ le. false≢true (
        sym unacked
        ∙ acked_prefix_acked group_model uin (floor uin device_id db.cursors).1 none db.group
            group_ids r m (ground arith) le)))

  -- A queued 1:1 row for this device that was above its floor and that the ack did not list is
  -- handed out again by the device's next fetch.
  pub unacked_direct_served :
      (r : OfflineMessage) (later : ℕ) (ack : Bool)
      → r ∈ db.direct
      → r.to_uin ≡ uin
      → is_for_device r.to_device_id dev ≡ true
      → (floor uin device_id db.cursors).0 < r.id
      → is_acked direct_ids r.id ≡ false
      → direct_row r ∈ (fetch_queue later ack dev uin device_id acked_db).1
  unacked_direct_served r later ack m own for above unacked =
      let lt = unacked_above r m own for above unacked in
      fetched_direct later ack dev uin device_id acked_db r
        (ack_queue_keeps_direct r acking_row m acking_row_mem (inr (acking_row_uin, lt))) own for
        (rw (acked_pin later) lt)

  -- A queued legacy group row that was above the device's floor and that the ack did not list is
  -- handed out again by the device's next fetch.
  pub unacked_group_served :
      (r : OfflineGroupMessage) (later : ℕ) (ack : Bool)
      → r ∈ db.group
      → r.to_uin ≡ uin
      → (floor uin device_id db.cursors).1 < r.id
      → is_acked group_ids r.id ≡ false
      → group_row r ∈ (fetch_queue later ack dev uin device_id acked_db).1
  unacked_group_served r later ack m own above unacked =
      let lt = unacked_group_above r m own above unacked in
      fetched_group later ack dev uin device_id acked_db r
        (ack_queue_keeps_group r acking_row m acking_row_mem (inr (acking_row_uin, lt))) own
        (rw (acked_pin later) lt)
