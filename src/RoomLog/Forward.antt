-- ===== src/RoomLog/Forward.antt =====
-- The cursors of a room log only go forward (app/services/group_log.py, app/routers/messages.py).
use rcq_server_ref.RoomLog.Cursors.{
  is_log_key, find_log_cursor, new_log_cursor, GroupLogCursor, upsert_log_cursor, moved_to,
  returned_seq,
}
use rcq_server_ref.Base.{
  ℕ, arith, String, Option, ◌≢◌, List, ◌≡◌, ◌⊎◌, some, true, ◌∷◌, same_text_iff, refl, none, [],
  ◌≤◌, inl, inr, Bool-cases, ◌==◌, ◌&&◌, same_text, false≢true, sym, ◌∙◌,
}

is_log_key-new :
    (now group_id uin : ℕ) (device_id : String) (seq seed : ℕ)
    → is_log_key group_id uin device_id (new_log_cursor now group_id uin device_id seq seed) ≡ true
unfolding is_log_key
is_log_key-new now group_id uin device_id seq seed =
    ground (arith, same_text_iff device_id device_id)

is_log_key-moved :
    (now seq group_id uin : ℕ) (device_id : String) (c : GroupLogCursor)
    → is_log_key group_id uin device_id (moved_to now seq c) ≡ is_log_key group_id uin device_id c
unfolding is_log_key
is_log_key-moved now seq group_id uin device_id c = refl

-- The row behind the key after the statement.
abbrev pub settled_log : ℕ → ℕ → ℕ → String → ℕ → ℕ → Option GroupLogCursor → GroupLogCursor
settled_log now group_id uin device_id seq seed none =
    new_log_cursor now group_id uin device_id seq seed
settled_log now group_id uin device_id seq seed (some c) = moved_to now seq c

pub find-upsert_self :
    (now group_id uin : ℕ) (device_id : String) (seq seed : ℕ) (cs : List GroupLogCursor)
    → find_log_cursor group_id uin device_id
        (upsert_log_cursor now group_id uin device_id seq seed cs)
      ≡ some (
          settled_log now group_id uin device_id seq seed
            (find_log_cursor group_id uin device_id cs))
unfolding find_log_cursor upsert_log_cursor
find-upsert_self now group_id uin device_id seq seed [] = rw is_log_key-new
find-upsert_self now group_id uin device_id seq seed (c ∷ cs) = ground (
  arith,
  is_log_key-moved now seq group_id uin device_id c,
  find-upsert_self now group_id uin device_id seq seed cs,
)

abbrev pub IsOtherKey : ℕ → ℕ → String → ℕ → ℕ → String → Type 0
IsOtherKey g' u' d' g u d = (g' ≢ g) ⊎ ((u' ≢ u) ⊎ (d' ≢ d))

pub find-upsert_other :
    (now g u : ℕ) (d : String) (seq seed : ℕ) (cs : List GroupLogCursor) (g' u' : ℕ) (d' : String)
    → IsOtherKey g' u' d' g u d
    → find_log_cursor g' u' d' (upsert_log_cursor now g u d seq seed cs)
      ≡ find_log_cursor g' u' d' cs
unfolding find_log_cursor upsert_log_cursor is_log_key
find-upsert_other now g u d seq seed [] g' u' d' ne = ground (arith, same_text_iff d d')
find-upsert_other now g u d seq seed (c ∷ cs) g' u' d' ne = ground (
  arith,
  same_text_iff c.device_id d,
  same_text_iff c.device_id d',
  find-upsert_other now g u d seq seed cs g' u' d' ne,
)

-- A device's cursor of a room stands at `at` or further.
abbrev pub HasReached : ℕ → ℕ → String → ℕ → List GroupLogCursor → Type 0
HasReached g u d at cs =
    (c : GroupLogCursor) × (find_log_cursor g u d cs ≡ some c) × (at ≤ c.last_seq)

upsert-HasReached :
    (now g u : ℕ) (d : String) (seq seed at : ℕ) (cs : List GroupLogCursor)
    → HasReached g u d at cs
    → HasReached g u d at (upsert_log_cursor now g u d seq seed cs)
upsert-HasReached now g u d seq seed at cs (c, f, l) =
    (moved_to now seq c, rw (find-upsert_self, f) refl, ground arith)

settled_reaches :
    (now g u : ℕ) (d : String) (seq seed : ℕ) (o : Option GroupLogCursor)
    → (seq ≤ (settled_log now g u d seq seed o).last_seq)
      × (returned_seq seq seed o ≤ (settled_log now g u d seq seed o).last_seq)
settled_reaches now g u d seq seed none = (omega arith, omega arith)
settled_reaches now g u d seq seed (some c) = (omega arith, omega arith)

pub upsert_reaches :
    (now g u : ℕ) (d : String) (seq seed : ℕ) (cs : List GroupLogCursor)
    → HasReached g u d seq (upsert_log_cursor now g u d seq seed cs)
      × HasReached g u d
          (returned_seq seq seed (find_log_cursor g u d cs))
          (upsert_log_cursor now g u d seq seed cs)
upsert_reaches now g u d seq seed cs =
    let (l, r) = settled_reaches now g u d seq seed (find_log_cursor g u d cs) in
    ((_, find-upsert_self now g u d seq seed cs, l), (_, find-upsert_self now g u d seq seed cs, r))

pub key_cases :
    (g' u' : ℕ) (d' : String) (g u : ℕ) (d : String)
    → ((g' ≡ g) × (u' ≡ u) × (d' ≡ d)) ⊎ IsOtherKey g' u' d' g u d
key_cases g' u' d' g u d = elim (Bool-cases (g' == g && (u' == u && same_text d' d))) [
  | inl e ↦ inl (ground arith, ground arith, (same_text_iff d' d).0 (ground arith))
  | inr e ↦ elim (Bool-cases (same_text d' d)) [
    | inl t ↦ ground arith
    | inr f ↦ inr (inr (inr (λ q. false≢true (sym f ∙ (same_text_iff d' d).1 q))))
  ]
]

-- No cursor goes back when any cursor is written.
pub upsert_forward :
    (now g u : ℕ) (d : String) (seq seed : ℕ) (cs : List GroupLogCursor) (g' u' : ℕ) (d' : String)
    (at : ℕ)
    → HasReached g' u' d' at cs
    → HasReached g' u' d' at (upsert_log_cursor now g u d seq seed cs)
upsert_forward now g u d seq seed cs g' u' d' at h = elim (key_cases g' u' d' g u d) [
  | inl (p, q, r) ↦ rw (p, q, r) (upsert-HasReached now g u d seq seed at cs (rw (p, q, r) at h))
  | inr ne ↦ let (c, f, l) = h in (c, rw (find-upsert_other now g u d seq seed cs g' u' d' ne) f, l)
]
