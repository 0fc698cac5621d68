-- ===== src/Queue/Ack.antt =====
-- `_acked_prefix` of app/routers/messages.py: how far an ack may move a cursor.
use rcq_server_ref.Base.{
  ℕ, Bool, ◌&&◌, ◌==◌, ltb, Option, List, ◌∷◌, map, filter, any, sort_by, if◌then◌else◌, [],
}
use rcq_server_ref.Queue.Tables.{Model, device_clause}

-- The rows above the floor that this device is handed.
abbrev pub is_pending : {A : Type 0} → Model A → ℕ → ℕ → Option ℕ → A → Bool
is_pending m uin base dev r = m.to_uin r == uin && (ltb base (m.id r) && device_clause m dev r)

-- The ids of the pending rows, in ascending order.
unfoldable pub pending_ids : {A : Type 0} → Model A → ℕ → ℕ → Option ℕ → List A → List ℕ
unfolding sort_by
pending_ids m uin base dev rows =
    sort_by (λ i. i) (map m.id (filter (is_pending m uin base dev) rows))

-- `i in acked_set`
unfoldable pub is_acked : List ℕ → ℕ → Bool
is_acked acked i = any (λ a. a == i) acked

-- The loop over the ids: it stops at the first one that was not acked.
unfoldable pub prefix_end : List ℕ → ℕ → List ℕ → ℕ
unfolding is_acked
prefix_end acked out [] = out
prefix_end acked out (i ∷ ids) = if is_acked acked i then prefix_end acked i ids else out

-- `if not acked: return base`
unfoldable pub acked_prefix : {A : Type 0} → Model A → ℕ → ℕ → Option ℕ → List ℕ → List A → ℕ
unfolding prefix_end pending_ids
acked_prefix m uin base dev [] rows = base
acked_prefix m uin base dev (a ∷ acked) rows =
    prefix_end (a ∷ acked) base (pending_ids m uin base dev rows)
