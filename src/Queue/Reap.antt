-- ===== src/Queue/Reap.antt =====
-- `_reap_below_min` and `_advance_cursor` of app/routers/messages.py. Times are in seconds.
use rcq_server_ref.Base.{
  ℕ, ◌+◌, ◌-◌, ◌*◌, String, Bool, true, false, ◌&&◌, not, ◌==◌, ltb, leb, Option, none, some, List,
  ◌∷◌, filter, length, max, min, if◌then◌else◌, [],
}
use rcq_server_ref.Queue.Tables.{QueueCursor, Db}
use rcq_server_ref.Queue.Drain.{account_watermark, find_cursor, upsert_cursor, Marks}

abbrev pub day : ℕ
day = 86400

abbrev pub stale_cursor_days : ℕ
stale_cursor_days = 30

abbrev pub superseded_cursor_days : ℕ
superseded_cursor_days = 7

-- The latest stamp among the cursors, if any has one.
unfoldable pub newest : List QueueCursor → Option ℕ
newest [] = none
newest (c ∷ cs) = elim c.updated_at [
  | none ↦ newest cs
  | some t ↦ elim (newest cs) [ none ↦ some t | some u ↦ some (max t u) ]
]

unfoldable pub fresh_sibling : ℕ → List QueueCursor → Bool
unfolding newest
fresh_sibling now cs = elim (newest cs) [
  | none ↦ false
  | some t ↦ leb (now - superseded_cursor_days * day) t
]

-- `_drop`, with the account's cursors for its enclosing function's variables.
unfoldable pub is_dropped : ℕ → List QueueCursor → QueueCursor → Bool
is_dropped now cs c = elim c.updated_at [
  | none ↦ false
  | some ts ↦
      if ltb ts (now - stale_cursor_days * day)
      then true
      else fresh_sibling now cs && ltb ts (now - superseded_cursor_days * day)
]

unfoldable pub cursors_of : ℕ → List QueueCursor → List QueueCursor
cursors_of uin cs = filter (λ c. c.uin == uin) cs

-- The table without the account's dropped cursors.
unfoldable pub without_dropped : ℕ → ℕ → List QueueCursor → List QueueCursor
unfolding is_dropped cursors_of
without_dropped now uin cs =
    filter (λ c. not (c.uin == uin && is_dropped now (cursors_of uin cs) c)) cs

-- `min(... for c in cursors)` over a list that is not empty; `none` for the empty one.
unfoldable pub min_marks : List QueueCursor → Option (ℕ × ℕ)
min_marks [] = none
min_marks (c ∷ cs) = elim (min_marks cs) [
  | none ↦ some (c.last_direct_id, c.last_group_id)
  | some (direct, group) ↦ some (min c.last_direct_id direct, min c.last_group_id group)
]

-- The two deletes. A mark of 0 deletes nothing, since the code skips the statement.
unfoldable pub delete_below : ℕ → Option (ℕ × ℕ) → Db → Db
delete_below uin none db = db
delete_below uin (some (direct, group)) db = record db {
  direct = filter (λ r. not (ltb 0 direct && (r.to_uin == uin && leb r.id direct))) db.direct;
  group = filter (λ r. not (ltb 0 group && (r.to_uin == uin && leb r.id group))) db.group;
}

-- The row counts of the two deletes together.
abbrev pub reaped : Db → Db → ℕ
reaped before after =
    (length before.direct - length after.direct) + (length before.group - length after.group)

unfoldable pub reap_below_min : ℕ → ℕ → Db → Db × ℕ
unfolding without_dropped min_marks delete_below cursors_of
reap_below_min now uin db =
    let kept = without_dropped now uin db.cursors in
    let swept : Db = record db { cursors = kept } in
    let after = delete_below uin (min_marks (cursors_of uin kept)) swept in (after, reaped db after)

-- The seed that `_advance_cursor` hands to the upsert: only where the device has no cursor is it the
-- account's watermark.
unfoldable pub seed_marks : ℕ → String → Option QueueCursor → List QueueCursor → ℕ × ℕ
seed_marks uin device_id (some c) cs = (0, 0)
seed_marks uin device_id none cs = elim (find_cursor uin device_id cs) [
  | some c ↦ (0, 0)
  | none ↦ account_watermark uin cs
]

abbrev pub advance_marks : ℕ → ℕ → ℕ × ℕ → Marks
advance_marks max_direct max_group (seed_direct, seed_group) = record {
  direct = max_direct;
  group = max_group;
  seed_direct = seed_direct;
  seed_group = seed_group;
}

-- `_advance_cursor`
unfoldable pub advance_cursor : ℕ → ℕ → String → ℕ → ℕ → Option QueueCursor → Db → Db × ℕ
unfolding seed_marks upsert_cursor reap_below_min
advance_cursor now uin device_id max_direct max_group cursor db =
    let marks = advance_marks max_direct max_group (seed_marks uin device_id cursor db.cursors) in
    reap_below_min now uin
      (record db { cursors = upsert_cursor now uin device_id marks db.cursors })
