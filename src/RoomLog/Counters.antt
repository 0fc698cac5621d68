-- ===== src/RoomLog/Counters.antt =====
-- `_next_mailbox_seq`, `_next_group_seq` and `_next_group_seqs` of app/routers/messages.py, and
-- `room_head` of app/services/group_log.py.
use rcq_server_ref.Base.{ℕ, List, ◌∷◌, [], if◌then◌else◌, suc, ◌==◌, ◌+◌, ◌-◌, zero}

-- A row of `group_seq` or of `mailbox_seq`: a key and the highest number given out.
pub record Seq : Type 0 where
  pub key : ℕ
  pub next_seq : ℕ

-- `SELECT next_seq`, 0 where there is no row.
unfoldable pub room_head : ℕ → List Seq → ℕ
room_head key [] = 0
room_head key (r ∷ rows) = if r.key == key then r.next_seq else room_head key rows

-- `INSERT (key, n) ... ON CONFLICT DO UPDATE SET next_seq = next_seq + n`
unfoldable pub bump : ℕ → ℕ → List Seq → List Seq
bump key n [] = record { key = key; next_seq = n } ∷ []
bump key n (r ∷ rows) =
    if r.key == key then record r { next_seq = r.next_seq + n } ∷ rows else r ∷ bump key n rows

-- `RETURNING next_seq`
unfoldable pub next_mailbox_seq : ℕ → List Seq → List Seq × ℕ
unfolding bump room_head
next_mailbox_seq to_uin rows = let rows' = bump to_uin 1 rows in (rows', room_head to_uin rows')

unfoldable pub next_group_seq : ℕ → List Seq → List Seq × ℕ
unfolding bump room_head
next_group_seq group_id rows = let rows' = bump group_id 1 rows in (rows', room_head group_id rows')

-- `count` numbers from `first` on: `range(first, first + count)`.
unfoldable pub range_from : ℕ → ℕ → List ℕ
range_from first zero = []
range_from first (suc count) = first ∷ range_from (suc first) count

unfoldable pub next_group_seqs : ℕ → ℕ → List Seq → List Seq × List ℕ
unfolding bump room_head range_from
next_group_seqs group_id count rows =
    if count == 0
    then (rows, [])
    else (let rows' = bump group_id count rows in
        (rows', range_from (room_head group_id rows' - count + 1) count))
