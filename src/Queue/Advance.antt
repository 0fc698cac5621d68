-- ===== src/Queue/Advance.antt =====
-- Where a device reads after `_advance_cursor` (app/routers/messages.py).
use rcq_server_ref.Queue.Survivors.{cursors-reap_below_min, find_cursor-without_dropped}
use rcq_server_ref.Queue.Cursors.{settled, find_cursor-upsert_cursor_self, floor}
use rcq_server_ref.Queue.Drain.{Marks, find_cursor, drain_floor}
use rcq_server_ref.Queue.Tables.{QueueCursor, Db}
use rcq_server_ref.Base.{
  ℕ, arith, String, Option, ◌≡◌, some, none, Option-cases, ◌⊎◌, max, inl, inr,
}
use rcq_server_ref.Queue.Reap.{seed_marks, advance_marks, advance_cursor}

module _ (now uin : ℕ) (device_id : String) (max_direct max_group : ℕ) (cursor : Option QueueCursor)
    (db : Db) where
  abbrev pub written : Marks
  written = advance_marks max_direct max_group (seed_marks uin device_id cursor db.cursors)

  abbrev pub row_after : QueueCursor
  row_after = settled now uin device_id written (find_cursor uin device_id db.cursors)

  stamped : row_after.updated_at ≡ some now
  stamped = elim (Option-cases (find_cursor uin device_id db.cursors)) [
    | inl e ↦ rw e
    | inr (c, e) ↦ rw e
  ]

  -- The device has a cursor afterwards, stamped with this request's time.
  pub find_cursor-advance_cursor :
      find_cursor uin device_id
        (advance_cursor now uin device_id max_direct max_group cursor db).0.cursors
      ≡ some row_after
  unfolding advance_cursor
  find_cursor-advance_cursor = rw cursors-reap_below_min (
      find_cursor-without_dropped now uin device_id _ row_after
        (find_cursor-upsert_cursor_self now uin device_id written db.cursors) stamped)

  -- The floor moves to the larger of the floor before and the mark of this request, on each axis.
  -- The cursor handed in is the device's own, or none.
  pub floor-advance_cursor :
      (cursor ≡ none) ⊎ (cursor ≡ find_cursor uin device_id db.cursors)
      → (row_after.last_direct_id ≡ max (floor uin device_id db.cursors).0 max_direct)
        × (row_after.last_group_id ≡ max (floor uin device_id db.cursors).1 max_group)
  unfolding drain_floor seed_marks
  floor-advance_cursor h = elim (Option-cases (find_cursor uin device_id db.cursors)) [
    | inl e ↦ ground arith
    | inr (c, e) ↦ ground arith
  ]
