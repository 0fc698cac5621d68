-- ===== src/Queue/Endpoints.antt =====
-- `fetch_queue` (GET /messages/queue) and `ack_queue` (POST /messages/queue/ack) of
-- app/routers/messages.py. Each takes one clock reading, `now`. The hooks `mark_device_seen` and
-- `touch_poll` write neither the queue nor its cursors.
use rcq_server_ref.Base.{
  ℕ, String, Bool, true, false, ◌&&◌, ◌==◌, ltb, Option, none, some, List, ◌∷◌, ◌++◌, map, filter,
  max, sort_by, [],
}
use rcq_server_ref.Queue.Tables.{
  OfflineMessage, OfflineGroupMessage, QueueCursor, Db, cls_for, direct_model, group_model,
  is_for_device,
}
use rcq_server_ref.Queue.Drain.{drain_floor, upsert_cursor, upsert_returning}
use rcq_server_ref.Queue.Ack.{acked_prefix}
use rcq_server_ref.Queue.Reap.{advance_cursor}

pub record HistoryRow : Type 0 where
  pub id : ℕ
  pub envelope_type : String
  pub cls : ℕ
  pub seq : Option ℕ
  pub payload : String
  pub received_at : ℕ
  pub group_id : Option ℕ
  pub to_device_id : Option ℕ

-- `r.cls if r.cls is not None else _cls_for(r.envelope_type)`
unfoldable pub cls_or : Option ℕ → String → ℕ
cls_or none envelope_type = cls_for envelope_type
cls_or (some c) envelope_type = c

unfoldable pub direct_row : OfflineMessage → HistoryRow
direct_row r = record {
  id = r.id;
  envelope_type = r.envelope_type;
  cls = cls_or r.cls r.envelope_type;
  seq = r.seq;
  payload = r.payload;
  received_at = r.received_at;
  group_id = none;
  to_device_id = r.to_device_id;
}

unfoldable pub group_row : OfflineGroupMessage → HistoryRow
group_row r = record {
  id = r.id;
  envelope_type = r.envelope_type;
  cls = cls_or r.cls r.envelope_type;
  seq = none;
  payload = r.payload;
  received_at = r.received_at;
  group_id = some r.group_id;
  to_device_id = none;
}

unfoldable pub direct_above : ℕ → ℕ → ℕ → List OfflineMessage → List OfflineMessage
direct_above uin dev after rows =
    sort_by (λ r. r.received_at)
      (filter (λ r. r.to_uin == uin && (ltb after r.id && is_for_device r.to_device_id dev)) rows)

unfoldable pub group_above : ℕ → ℕ → List OfflineGroupMessage → List OfflineGroupMessage
group_above uin after rows =
    sort_by (λ r. r.received_at) (filter (λ r. r.to_uin == uin && ltb after r.id) rows)

-- The floor that a fetch reads above, and the cursor table with that floor pinned.
unfoldable pub pin_floor :
    ℕ → ℕ → String → List QueueCursor → ℕ × ℕ × Option QueueCursor × List QueueCursor
unfolding drain_floor upsert_cursor upsert_returning
pin_floor now uin device_id cs =
    let (direct, group, cursor) = drain_floor uin device_id cs in
    elim cursor [
      | some c ↦ (direct, group, some c, cs)
      | none ↦
          let (pinned_direct, pinned_group) =
            upsert_returning uin device_id
              (record { direct = 0; group = 0; seed_direct = direct; seed_group = group }) cs in
          (
            pinned_direct,
            pinned_group,
            none,
            upsert_cursor now uin device_id
                (record { direct = 0; group = 0; seed_direct = direct; seed_group = group }) cs,
          )
    ]

-- `max((r.id for r in rows), default=after)`
unfoldable pub max_or : ℕ → List ℕ → ℕ
max_or default [] = default
max_or default (i ∷ []) = i
max_or default (i ∷ j ∷ ids) = max i (max_or default (j ∷ ids))

abbrev pub history : List OfflineMessage → List OfflineGroupMessage → List HistoryRow
history rows_1to1 rows_group =
    sort_by (λ r. r.received_at) (map direct_row rows_1to1 ++ map group_row rows_group)

unfoldable pub fetch_queue : ℕ → Bool → ℕ → ℕ → String → Db → Db × List HistoryRow
unfolding pin_floor direct_above group_above max_or advance_cursor
fetch_queue now ack dev uin device_id db =
    let (after_direct, after_group, cursor, cs) = pin_floor now uin device_id db.cursors in
    let pinned : Db = record db { cursors = cs } in
    let rows_1to1 = direct_above uin dev after_direct db.direct in
    let rows_group = group_above uin after_group db.group in
    let drained =
      advance_cursor now uin device_id (max_or after_direct (map (λ r. r.id) rows_1to1))
        (max_or after_group (map (λ r. r.id) rows_group)) cursor pinned in
    (elim ack [ true ↦ pinned | false ↦ drained.0 ], history rows_1to1 rows_group)

unfoldable pub ack_queue : ℕ → List ℕ → List ℕ → ℕ → ℕ → String → Db → Db × ℕ
unfolding drain_floor acked_prefix advance_cursor
ack_queue now direct_ids group_ids dev uin device_id db =
    let (base_direct, base_group, cursor) = drain_floor uin device_id db.cursors in
    advance_cursor now uin device_id
      (acked_prefix direct_model uin base_direct (some dev) direct_ids db.direct)
      (acked_prefix group_model uin base_group none group_ids db.group) cursor db
