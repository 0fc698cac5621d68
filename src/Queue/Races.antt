-- ===== src/Queue/Races.antt =====
-- Overlapping requests on one cursor table (app/services/queue_drain.py): each write is one upsert
-- statement, so an interleaving is a sequence of them.
use rcq_server_ref.Queue.Cursors.{
  settled, floor, floor-some, find_cursor-upsert_cursor_self, find_cursor-upsert_cursor_ne,
}
use rcq_server_ref.Queue.Tables.{QueueCursor}
use rcq_server_ref.Base.{
  ℕ, arith, String, List, ◌∷◌, ◌≡◌, ◌≤◌, some, [], Bool-cases, Option-cases, ◌==◌, ◌&&◌, inl,
  same_text, inr, same_text_iff, ◌∙◌,
}
use rcq_server_ref.Queue.Drain.{upsert_cursor, find_cursor, Marks, advanced}

-- One upsert by any device of any account.
pub record Write : Type 0 where
  pub at : ℕ
  pub uin : ℕ
  pub device_id : String
  pub marks : Marks

unfoldable pub run_writes : List Write → List QueueCursor → List QueueCursor
run_writes [] cs = cs
run_writes (w ∷ ws) cs = run_writes ws (upsert_cursor w.at w.uin w.device_id w.marks cs)

-- One statement leaves each device's row where it was or further along.
upsert_cursor-forward :
    (w : Write) (uin : ℕ) (device_id : String) (cs : List QueueCursor) (c : QueueCursor)
    → find_cursor uin device_id cs ≡ some c
    → (c' : QueueCursor) × (find_cursor uin device_id
          (upsert_cursor w.at w.uin w.device_id w.marks cs)
        ≡ some c')
      × (c.last_direct_id ≤ c'.last_direct_id)
      × (c.last_group_id ≤ c'.last_group_id)
upsert_cursor-forward w uin device_id cs c f =
    elim (Bool-cases (uin == w.uin && same_text device_id w.device_id)) [
      | inl same ↦ (
        advanced w.at w.marks c,
        ground (
          arith,
          same_text_iff device_id w.device_id,
          find_cursor-upsert_cursor_self w.at w.uin w.device_id w.marks cs,
        ),
        omega arith,
        omega arith,
      )
      | inr other ↦ (
        c,
        find_cursor-upsert_cursor_ne w.at w.uin w.device_id w.marks cs uin device_id
              (ground (arith, same_text_iff device_id w.device_id))
            ∙ f,
        omega arith,
        omega arith,
      )
    ]

-- Whatever upserts of any devices run, in any order, a device's marks never go back.
pub run_writes_forward :
    (ws : List Write) (uin : ℕ) (device_id : String) (cs : List QueueCursor) (c : QueueCursor)
    → find_cursor uin device_id cs ≡ some c
    → (c' : QueueCursor) × (find_cursor uin device_id (run_writes ws cs) ≡ some c')
      × (c.last_direct_id ≤ c'.last_direct_id)
      × (c.last_group_id ≤ c'.last_group_id)
unfolding run_writes
run_writes_forward [] uin device_id cs c f = (c, f, omega arith, omega arith)
run_writes_forward (w ∷ ws) uin device_id cs c f =
    let (d, g, p, q) = upsert_cursor-forward w uin device_id cs c f in
    let (e, h, r, s) = run_writes_forward ws uin device_id _ d g in (e, h, omega arith, omega arith)

-- The marks after the statement, read from the table.
floor-upsert_cursor :
    (now uin : ℕ) (device_id : String) (m : Marks) (cs : List QueueCursor)
    → let c = settled now uin device_id m (find_cursor uin device_id cs) in
      floor uin device_id (upsert_cursor now uin device_id m cs)
      ≡ (c.last_direct_id, c.last_group_id)
floor-upsert_cursor now uin device_id m cs = rw (
    floor-some uin device_id (upsert_cursor now uin device_id m cs) _
      (find_cursor-upsert_cursor_self now uin device_id m cs))

-- Two acks of one device that overlap leave the same marks whichever statement runs first, where
-- each acks no less than the seed that it carries.
pub upsert_cursor_comm :
    (t1 t2 uin : ℕ) (device_id : String) (a b : Marks) (cs : List QueueCursor)
    → a.seed_direct ≤ a.direct
    → a.seed_group ≤ a.group
    → b.seed_direct ≤ b.direct
    → b.seed_group ≤ b.group
    → floor uin device_id (upsert_cursor t2 uin device_id b (upsert_cursor t1 uin device_id a cs))
      ≡ floor uin device_id (upsert_cursor t1 uin device_id a (upsert_cursor t2 uin device_id b cs))
upsert_cursor_comm t1 t2 uin device_id a b cs p q r s =
    let find1 = find_cursor-upsert_cursor_self t1 uin device_id a cs in
    let find2 = find_cursor-upsert_cursor_self t2 uin device_id b cs in
    let left = floor-upsert_cursor t2 uin device_id b (upsert_cursor t1 uin device_id a cs) in
    let right = floor-upsert_cursor t1 uin device_id a (upsert_cursor t2 uin device_id b cs) in
    elim (Option-cases (find_cursor uin device_id cs)) [
      | inl e ↦ ground (arith, find1, find2, left, right)
      | inr (c, e) ↦ ground (arith, find1, find2, left, right)
    ]
