-- ===== src/Queue/Liveness.antt =====
-- A client that acks all that it was handed has nothing left to fetch (app/routers/messages.py).
use rcq_server_ref.Queue.Prefix.{base-le-acked_prefix, le-acked_prefix}
use rcq_server_ref.Queue.NoLoss.{
  acked_db, fetched_direct, acking_row, fetched_group, acking_row_marks, acked_pin, fetched_rows,
}
use rcq_server_ref.Queue.Cursors.{floor, find_cursor-upsert_cursor_self}
use rcq_server_ref.Queue.Drain.{find_cursor, Marks, drain_floor, upsert_returning}
use rcq_server_ref.Queue.Tables.{
  OfflineMessage, OfflineGroupMessage, QueueCursor, is_for_device, Db, direct_model, group_model,
}
use rcq_server_ref.Queue.Ack.{is_acked, is_pending, acked_prefix}
use rcq_server_ref.Base.{
  ℕ, arith, List, String, ◌≡◌, ◌∷◌, true, ◌∈◌, some, inl, Option-cases, inr, [], none, subst,
  Option, ◌<◌, filter-mem, sort_by-mem, refl, nil_of_no_mem,
}
use rcq_server_ref.Queue.Reap.{reap_below_min, delete_below, advance_cursor}
use rcq_server_ref.Queue.Endpoints.{
  pin_floor, direct_above, group_above, fetch_queue, ack_queue, direct_row, group_row, HistoryRow,
}

-- How a client splits the rows of a fetch for the ack: by `group_id`.
pub direct_ids_of : List HistoryRow → List ℕ
direct_ids_of [] = []
direct_ids_of (h ∷ hs) = elim h.group_id [
  | none ↦ h.id ∷ direct_ids_of hs
  | some g ↦ direct_ids_of hs
]

pub group_ids_of : List HistoryRow → List ℕ
group_ids_of [] = []
group_ids_of (h ∷ hs) = elim h.group_id [ none ↦ group_ids_of hs | some g ↦ h.id ∷ group_ids_of hs ]

is_acked-cons : (i j : ℕ) (ids : List ℕ) → is_acked ids i ≡ true → is_acked (j ∷ ids) i ≡ true
unfolding is_acked
is_acked-cons i j ids h = ground arith

is_acked_head : (i : ℕ) (ids : List ℕ) → is_acked (i ∷ ids) i ≡ true
unfolding is_acked
is_acked_head i ids = ground arith

direct_ids_of-mem :
    (r : OfflineMessage) (hs : List HistoryRow)
    → direct_row r ∈ hs
    → is_acked (direct_ids_of hs) r.id ≡ true
unfolding direct_ids_of direct_row
direct_ids_of-mem r [] m = absurd m
direct_ids_of-mem r (h ∷ hs) (inl e) =
    subst (λ x. is_acked (direct_ids_of (x ∷ hs)) r.id ≡ true) e
      (is_acked_head r.id (direct_ids_of hs))
direct_ids_of-mem r (h ∷ hs) (inr m) =
    ground (arith, direct_ids_of-mem r hs m, is_acked-cons r.id h.id (direct_ids_of hs))

group_ids_of-mem :
    (r : OfflineGroupMessage) (hs : List HistoryRow)
    → group_row r ∈ hs
    → is_acked (group_ids_of hs) r.id ≡ true
unfolding group_ids_of group_row
group_ids_of-mem r [] m = absurd m
group_ids_of-mem r (h ∷ hs) (inl e) =
    subst (λ x. is_acked (group_ids_of (x ∷ hs)) r.id ≡ true) e
      (is_acked_head r.id (group_ids_of hs))
group_ids_of-mem r (h ∷ hs) (inr m) =
    ground (arith, group_ids_of-mem r hs m, is_acked-cons r.id h.id (group_ids_of hs))

module _ (now uin : ℕ) (device_id : String) (cs : List QueueCursor) where
  abbrev pinned_cursors : List QueueCursor
  pinned_cursors = (pin_floor now uin device_id cs).3

  abbrev pinned_floor : ℕ × ℕ
  pinned_floor = ((pin_floor now uin device_id cs).0, (pin_floor now uin device_id cs).1)

  abbrev pin_marks : Marks
  pin_marks = record {
    direct = 0;
    group = 0;
    seed_direct = (floor uin device_id cs).0;
    seed_group = (floor uin device_id cs).1;
  }

  -- The floor that a fetch answers from is the device's floor in the table that it leaves.
  pub floor-pin_floor : floor uin device_id pinned_cursors ≡ pinned_floor
  unfolding pin_floor drain_floor upsert_returning
  floor-pin_floor = elim (Option-cases (find_cursor uin device_id cs)) [
    | inl e ↦ ground (arith, find_cursor-upsert_cursor_self now uin device_id pin_marks cs)
    | inr (c, e) ↦ ground arith
  ]

pub direct_above-mem :
    (uin dev after : ℕ) (rows : List OfflineMessage) (r : OfflineMessage)
    → r ∈ direct_above uin dev after rows
    → (r ∈ rows) × (r.to_uin ≡ uin) × (is_for_device r.to_device_id dev ≡ true) × (after < r.id)
unfolding direct_above
direct_above-mem uin dev after rows r m =
    let (i, p) = filter-mem _ r rows (sort_by-mem (λ h. h.received_at) r _ m) in
    (i, ground arith, ground arith, ground arith)

pub group_above-mem :
    (uin after : ℕ) (rows : List OfflineGroupMessage) (r : OfflineGroupMessage)
    → r ∈ group_above uin after rows
    → (r ∈ rows) × (r.to_uin ≡ uin) × (after < r.id)
unfolding group_above
group_above-mem uin after rows r m =
    let (i, p) = filter-mem _ r rows (sort_by-mem (λ h. h.received_at) r _ m) in
    (i, ground arith, ground arith)

delete_below-mem :
    (uin : ℕ) (marks : Option (ℕ × ℕ)) (db : Db)
    → ((r : OfflineMessage) → r ∈ (delete_below uin marks db).direct → r ∈ db.direct)
      × ((r : OfflineGroupMessage) → r ∈ (delete_below uin marks db).group → r ∈ db.group)
unfolding delete_below
delete_below-mem uin none db = (λ r m. m, λ r m. m)
delete_below-mem uin (some (direct, group)) db =
    (λ r m. (filter-mem _ r db.direct m).0, λ r m. (filter-mem _ r db.group m).0)

module _ (now now2 now3 dev uin : ℕ) (device_id : String) (db : Db) where
  abbrev pub handed : List HistoryRow
  handed = (fetch_queue now true dev uin device_id db).1

  abbrev pub fetched_db : Db
  fetched_db = (fetch_queue now true dev uin device_id db).0

  abbrev pub settled_db : Db
  settled_db =
      acked_db now2 (direct_ids_of handed) (group_ids_of handed) dev uin device_id fetched_db

  abbrev pf : ℕ × ℕ
  pf = floor uin device_id fetched_db.cursors

  pf_lem : pf ≡ pinned_floor now uin device_id db.cursors
  unfolding fetch_queue
  pf_lem = floor-pin_floor now uin device_id db.cursors

  same_rows : (fetched_db.direct ≡ db.direct) × (fetched_db.group ≡ db.group)
  unfolding fetch_queue
  same_rows = (refl, refl)

  handed_direct :
      (r : OfflineMessage)
      → r ∈ fetched_db.direct
      → is_pending direct_model uin pf.0 (some dev) r ≡ true
      → is_acked (direct_ids_of handed) r.id ≡ true
  handed_direct r m p = direct_ids_of-mem r handed (
      fetched_direct now true dev uin device_id db r (rw (← same_rows.0) m) (ground arith)
        (ground arith) (ground (arith, pf_lem)))

  handed_group :
      (r : OfflineGroupMessage)
      → r ∈ fetched_db.group
      → is_pending group_model uin pf.1 none r ≡ true
      → is_acked (group_ids_of handed) r.id ≡ true
  handed_group r m p = group_ids_of-mem r handed (
      fetched_group now true dev uin device_id db r (rw (← same_rows.1) m) (ground arith)
        (ground (arith, pf_lem)))

  settled_rows :
      ((r : OfflineMessage) → r ∈ settled_db.direct → r ∈ fetched_db.direct)
      × ((r : OfflineGroupMessage) → r ∈ settled_db.group → r ∈ fetched_db.group)
  unfolding ack_queue advance_cursor reap_below_min
  settled_rows = delete_below-mem uin _ _

  abbrev last_row : QueueCursor
  last_row =
      acking_row now2 (direct_ids_of handed) (group_ids_of handed) dev uin device_id fetched_db

  abbrev last_marks : ℕ × ℕ
  last_marks = (
    acked_prefix direct_model uin pf.0 (some dev) (direct_ids_of handed) fetched_db.direct,
    acked_prefix group_model uin pf.1 none (group_ids_of handed) fetched_db.group,
  )

  last_pin :
      ((pin_floor now3 uin device_id settled_db.cursors).0 ≡ last_marks.0)
      × ((pin_floor now3 uin device_id settled_db.cursors).1 ≡ last_marks.1)
  last_pin =
      let marks =
        acking_row_marks now2 (direct_ids_of handed) (group_ids_of handed) dev uin device_id
          fetched_db in
      let pin =
        acked_pin now2 (direct_ids_of handed) (group_ids_of handed) dev uin device_id fetched_db
          now3 in
      (rw pin marks.0, rw pin marks.1)

  no_direct_left :
      (r : OfflineMessage) → ¬ (r ∈ direct_above uin dev last_marks.0 settled_db.direct)
  no_direct_left r j =
      let (i, own, for, lt) = direct_above-mem uin dev last_marks.0 settled_db.direct r j in
      let base =
        base-le-acked_prefix direct_model uin pf.0 (some dev) fetched_db.direct
          (direct_ids_of handed) in
      let above : pf.0 < r.id = omega arith in
      let all =
        le-acked_prefix direct_model uin pf.0 (some dev) fetched_db.direct (direct_ids_of handed)
          handed_direct r (settled_rows.0 r i) (ground arith) in
      omega arith

  no_group_left : (r : OfflineGroupMessage) → ¬ (r ∈ group_above uin last_marks.1 settled_db.group)
  no_group_left r j =
      let (i, own, lt) = group_above-mem uin last_marks.1 settled_db.group r j in
      let base =
        base-le-acked_prefix group_model uin pf.1 none fetched_db.group (group_ids_of handed) in
      let above : pf.1 < r.id = omega arith in
      let all =
        le-acked_prefix group_model uin pf.1 none fetched_db.group (group_ids_of handed)
          handed_group r (settled_rows.1 r i) (ground arith) in
      omega arith

  -- A device that fetches, acks the ids of all rows that it was handed, and fetches again with no
  -- deposit between, is handed nothing.
  pub fetch-ack_all-fetch_queue : (fetch_queue now3 true dev uin device_id settled_db).1 ≡ []
  fetch-ack_all-fetch_queue = nil_of_no_mem _ λ h m.
      elim (fetched_rows now3 true dev uin device_id settled_db h m) [
        | inl (r, e, j) ↦ no_direct_left r (rw last_pin.0 at j)
        | inr (r, e, j) ↦ no_group_left r (rw last_pin.1 at j)
      ]
