-- ===== src/Queue/Cursors.antt =====
-- The cursor table of app/services/queue_drain.py: what the upsert writes and what it leaves alone.
use rcq_server_ref.Base.{
  ℕ, arith, String, List, ◌≡◌, true, Option, some, none, ◌≢◌, same_text_iff, ◌∷◌, ◌⊎◌, ◌∈◌, [],
  refl, Bool, filter, Bool-cases, inl, ap, ◌∙◌, inr,
}
use rcq_server_ref.Queue.Tables.{QueueCursor}
use rcq_server_ref.Queue.Drain.{
  is_key, find_cursor, account_watermark, drain_floor, upsert_cursor, Marks, inserted, advanced,
}

pub is_key-inserted :
    (now uin : ℕ) (device_id : String) (m : Marks)
    → is_key uin device_id (inserted now uin device_id m) ≡ true
unfolding is_key
is_key-inserted now uin device_id m = ground (arith, same_text_iff device_id device_id)

pub is_key-uin :
    (uin : ℕ) (device_id : String) (c : QueueCursor) → is_key uin device_id c ≡ true → c.uin ≡ uin
unfolding is_key
is_key-uin uin device_id c h = ground arith

pub is_key-device_id :
    (uin : ℕ) (device_id : String) (c : QueueCursor)
    → is_key uin device_id c ≡ true
    → c.device_id ≡ device_id
unfolding is_key
is_key-device_id uin device_id c h = ground (arith, same_text_iff c.device_id device_id)

is_key-advanced :
    (now uin : ℕ) (device_id : String) (m : Marks) (c : QueueCursor)
    → is_key uin device_id (advanced now m c) ≡ is_key uin device_id c
unfolding is_key
is_key-advanced now uin device_id m c = refl

-- The row behind the key after the statement.
abbrev pub settled : ℕ → ℕ → String → Marks → Option QueueCursor → QueueCursor
settled now uin device_id m none = inserted now uin device_id m
settled now uin device_id m (some c) = advanced now m c

pub find_cursor-upsert_cursor_self :
    (now uin : ℕ) (device_id : String) (m : Marks) (cs : List QueueCursor)
    → find_cursor uin device_id (upsert_cursor now uin device_id m cs)
      ≡ some (settled now uin device_id m (find_cursor uin device_id cs))
unfolding find_cursor upsert_cursor
find_cursor-upsert_cursor_self now uin device_id m [] = rw is_key-inserted
find_cursor-upsert_cursor_self now uin device_id m (c ∷ cs) = ground (
  arith,
  is_key-advanced now uin device_id m c,
  find_cursor-upsert_cursor_self now uin device_id m cs,
)

-- Another key finds what it found before.
pub find_cursor-upsert_cursor_ne :
    (now uin : ℕ) (device_id : String) (m : Marks) (cs : List QueueCursor) (uin' : ℕ)
    (device_id' : String)
    → (uin' ≢ uin) ⊎ (device_id' ≢ device_id)
    → find_cursor uin' device_id' (upsert_cursor now uin device_id m cs)
      ≡ find_cursor uin' device_id' cs
unfolding find_cursor upsert_cursor is_key
find_cursor-upsert_cursor_ne now uin device_id m [] uin' device_id' ne =
    ground (arith, same_text_iff device_id device_id')
find_cursor-upsert_cursor_ne now uin device_id m (c ∷ cs) uin' device_id' ne = ground (
  arith,
  same_text_iff c.device_id device_id,
  same_text_iff c.device_id device_id',
  find_cursor-upsert_cursor_ne now uin device_id m cs uin' device_id' ne,
)

pub find_cursor-mem :
    (uin : ℕ) (device_id : String) (cs : List QueueCursor) (c : QueueCursor)
    → find_cursor uin device_id cs ≡ some c
    → (c ∈ cs) × (is_key uin device_id c ≡ true)
unfolding find_cursor
find_cursor-mem uin device_id [] c h = absurd (cc h)
find_cursor-mem uin device_id (d ∷ cs) c h = ground (arith, find_cursor-mem uin device_id cs c)

-- The marks that a device reads above.
abbrev pub floor : ℕ → String → List QueueCursor → ℕ × ℕ
floor uin device_id cs = let (direct, group, _) = drain_floor uin device_id cs in (direct, group)

pub floor-some :
    (uin : ℕ) (device_id : String) (cs : List QueueCursor) (c : QueueCursor)
    → find_cursor uin device_id cs ≡ some c
    → drain_floor uin device_id cs ≡ (c.last_direct_id, c.last_group_id, some c)
unfolding drain_floor
floor-some uin device_id cs c h = rw (h, drain_floor)

pub floor-none :
    (uin : ℕ) (device_id : String) (cs : List QueueCursor)
    → find_cursor uin device_id cs ≡ none
    → drain_floor uin device_id cs
      ≡ ((account_watermark uin cs).0, (account_watermark uin cs).1, none)
unfolding drain_floor
floor-none uin device_id cs h = rw (h, drain_floor)

-- The first row behind a key stays the first among the rows that are kept with it.
pub find_cursor-filter :
    (uin : ℕ) (device_id : String) (p : QueueCursor → Bool) (cs : List QueueCursor)
    (c : QueueCursor)
    → find_cursor uin device_id cs ≡ some c
    → p c ≡ true
    → find_cursor uin device_id (filter p cs) ≡ some c
unfolding find_cursor
find_cursor-filter uin device_id p [] c f h = cc f
find_cursor-filter uin device_id p (d ∷ cs) c f h = elim (Bool-cases (is_key uin device_id d)) [
  | inl k ↦ let e : d ≡ c = ground arith in let pd : p d ≡ true = ap p e ∙ h in ground arith
  | inr k ↦
      let q : find_cursor uin device_id cs ≡ some c = ground arith in
      ground (arith, find_cursor-filter uin device_id p cs c q h)
]
