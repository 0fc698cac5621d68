-- ===== src/RoomLog/Legacy.antt =====
-- Which accounts no longer get a row of the old queue (`log_readers` of app/services/group_log.py).
use rcq_server_ref.Queue.Tables.{QueueCursor}
use rcq_server_ref.RoomLog.Cursors.{GroupLogReader}
use rcq_server_ref.RoomLog.Readers.{log_readers, has_reader, is_blocking, is_reader}
use rcq_server_ref.Base.{
  ℕ, arith, List, ◌∈◌, ◌↔◌, ◌≡◌, any, filter-mem, false, filter, Bool-cases, any_mem, inl, ◌==◌,
  same_text_iff, mem-filter, mem_any, inr,
}

module _ (readers : List GroupLogReader) (cursors : List QueueCursor) (uin : ℕ) where
  -- A device of the account has read a log, and so has each that drains the old queue.
  abbrev pub AllRead : Type 0
  AllRead =
      ((r : GroupLogReader) × (r ∈ readers) × (r.uin ≡ uin))
      × ((c : QueueCursor)
          → c ∈ cursors
          → c.uin ≡ uin
          → (r : GroupLogReader) × (r ∈ readers) × (r.uin ≡ uin) × (r.device_id ≡ c.device_id))

  blocking_refuted :
      any (is_blocking readers uin) cursors ≡ false
      → (c : QueueCursor) → c ∈ cursors
      → c.uin ≡ uin
      → (r : GroupLogReader) × (r ∈ readers) × (r.uin ≡ uin) × (r.device_id ≡ c.device_id)
  unfolding is_blocking is_reader
  blocking_refuted h c m own = elim (Bool-cases (any (is_reader c.uin c.device_id) readers)) [
    | inl e ↦
        let (r, i, q) = any_mem (is_reader c.uin c.device_id) readers e in
        (r, i, ground arith, ground (arith, same_text_iff r.device_id c.device_id))
    | inr e ↦ absurd (ground (arith, mem_any (is_blocking readers uin) c cursors m))
  ]

  no_blocking :
      ((c : QueueCursor)
        → c ∈ cursors
        → c.uin ≡ uin
        → (r : GroupLogReader) × (r ∈ readers) × (r.uin ≡ uin) × (r.device_id ≡ c.device_id))
      → any (is_blocking readers uin) cursors ≡ false
  unfolding is_blocking is_reader
  no_blocking h = elim (Bool-cases (any (is_blocking readers uin) cursors)) [
    | inl e ↦
        let (c, i, q) = any_mem (is_blocking readers uin) cursors e in
        let (r, j, o, d) = h c i (ground arith) in
        absurd (
          ground (
            arith,
            same_text_iff r.device_id c.device_id,
            mem_any (is_reader c.uin c.device_id) r readers j,
          ))
    | inr e ↦ e
  ]

  -- An account is off the old queue exactly when it was asked for, a device of it has read a log,
  -- and each of its devices that drains the old queue has read a log.
  pub log_readers-mem :
      (uins : List ℕ) → (uin ∈ log_readers readers cursors uins) ↔ ((uin ∈ uins) × AllRead)
  unfolding log_readers has_reader
  log_readers-mem uins = (
    λ m.
        let (i, e) = filter-mem _ uin (filter (has_reader readers) uins) m in
        let (j, q) = filter-mem (has_reader readers) uin uins i in
        let (r, k, o) = any_mem (λ (r : GroupLogReader). r.uin == uin) readers q in
        (j, ((r, k, ground arith), blocking_refuted (ground arith))),
    λ (j, ((r, k, o), h)).
        mem-filter _ uin (filter (has_reader readers) uins) (ground (arith, no_blocking h)) (
          mem-filter (has_reader readers) uin uins
            (mem_any (λ (r : GroupLogReader). r.uin == uin) r readers k (ground arith)) j),
  )
