-- ===== src/RoomLog/Acked.antt =====
-- What `ack_group_log` (app/routers/messages.py) does to the cursors.
use rcq_server_ref.RoomLog.Forward.{HasReached, upsert_forward, upsert_reaches, find-upsert_other}
use rcq_server_ref.RoomLog.Cursors.{
  GroupLogCursor, returned_seq, find_log_cursor, upsert_log_cursor,
}
use rcq_server_ref.RoomLog.Ack.{
  ack_rooms, ack_group_log, GroupLogAckRoomIn, known_at, LogDb, learnt, is_stale_ack, seq_of,
}
use rcq_server_ref.Base.{
  ℕ, arith, String, Option, List, ◌≡◌, ◌∈◌, ◌≢◌, ◌∷◌, some, mem-sort_by, ◌⊎◌, Bool-cases, true, inl,
  false≢true, inr, ◌∙◌, ◌==◌, none, [], refl, any, sort_by,
}

module _ (now uin : ℕ) (device_id : String) where
  ack_rooms_forward :
      (rooms : List GroupLogAckRoomIn) (known : ℕ → Option ℕ) (cs : List GroupLogCursor) (g u : ℕ)
      (d : String) (at : ℕ)
      → HasReached g u d at cs
      → HasReached g u d at (ack_rooms now uin device_id known rooms cs).0
  unfolding ack_rooms
  ack_rooms_forward [] known cs g u d at h = h
  ack_rooms_forward (r ∷ rooms) known cs g u d at h =
      elim (Bool-cases (is_stale_ack r.upto (known r.gid))) [
        | inl e ↦ rw e (ack_rooms_forward rooms known cs g u d at h)
        | inr e ↦ rw e (
            ack_rooms_forward rooms _ _ g u d at
              (upsert_forward now r.gid uin device_id r.upto r.upto cs g u d at h))
      ]

  -- What the handler has read is no further than the cursors.
  abbrev Knows : (ℕ → Option ℕ) → List GroupLogCursor → Type 0
  Knows known cs = (g at : ℕ) → known g ≡ some at → HasReached g uin device_id at cs

  learnt-Knows :
      (known : ℕ → Option ℕ) (r : GroupLogAckRoomIn) (cs : List GroupLogCursor)
      → Knows known cs
      → Knows
          (learnt r.gid (returned_seq r.upto r.upto (find_log_cursor r.gid uin device_id cs)) known)
          (upsert_log_cursor now r.gid uin device_id r.upto r.upto cs)
  learnt-Knows known r cs k g at e = elim (Bool-cases (g == r.gid)) [
    | inl b ↦
        let same : g ≡ r.gid = ground arith in
        let (c, f, l) = (upsert_reaches now r.gid uin device_id r.upto r.upto cs).1 in
        (c, rw same f, ground arith)
    | inr b ↦
        upsert_forward now r.gid uin device_id r.upto r.upto cs g uin device_id at
          (k g at (rw b at e))
  ]

  stale_reached :
      (known : ℕ → Option ℕ) (r : GroupLogAckRoomIn) (cs : List GroupLogCursor) (o : Option ℕ)
      → known r.gid ≡ o
      → Knows known cs
      → is_stale_ack r.upto o ≡ true
      → HasReached r.gid uin device_id r.upto cs
  stale_reached known r cs none e k h = absurd (false≢true h)
  stale_reached known r cs (some at) e k h = let (c, f, l) = k r.gid at e in (c, f, ground arith)

  ack_rooms_reaches :
      (rooms : List GroupLogAckRoomIn) (known : ℕ → Option ℕ) (cs : List GroupLogCursor)
      (r : GroupLogAckRoomIn)
      → Knows known cs
      → r ∈ rooms
      → HasReached r.gid uin device_id r.upto (ack_rooms now uin device_id known rooms cs).0
  unfolding ack_rooms
  ack_rooms_reaches [] known cs r k m = absurd m
  ack_rooms_reaches (x ∷ rooms) known cs r k (inl q) =
      rw q (elim (Bool-cases (is_stale_ack x.upto (known x.gid))) [
        | inl e ↦ rw e (
            ack_rooms_forward rooms known cs x.gid uin device_id x.upto
              (stale_reached known x cs (known x.gid) refl k e))
        | inr e ↦ rw e (
            ack_rooms_forward rooms _ _ x.gid uin device_id x.upto
              (upsert_reaches now x.gid uin device_id x.upto x.upto cs).0)
      ])
  ack_rooms_reaches (x ∷ rooms) known cs r k (inr m) =
      elim (Bool-cases (is_stale_ack x.upto (known x.gid))) [
        | inl e ↦ rw e (ack_rooms_reaches rooms known cs r k m)
        | inr e ↦ rw e (ack_rooms_reaches rooms _ _ r (learnt-Knows known x cs k) m)
      ]

  ack_rooms_other :
      (rooms : List GroupLogAckRoomIn) (known : ℕ → Option ℕ) (cs : List GroupLogCursor) (g u : ℕ)
      (d : String)
      → (u ≢ uin) ⊎ (d ≢ device_id)
      → find_log_cursor g u d (ack_rooms now uin device_id known rooms cs).0
        ≡ find_log_cursor g u d cs
  unfolding ack_rooms
  ack_rooms_other [] known cs g u d ne = refl
  ack_rooms_other (x ∷ rooms) known cs g u d ne =
      elim (Bool-cases (is_stale_ack x.upto (known x.gid))) [
        | inl e ↦ rw e (ack_rooms_other rooms known cs g u d ne)
        | inr e ↦ rw e (
            ack_rooms_other rooms _ _ g u d ne
            ∙ find-upsert_other now x.gid uin device_id x.upto x.upto cs g u d (inr ne))
      ]

  ack_rooms_unmoved :
      (rooms : List GroupLogAckRoomIn) (known : ℕ → Option ℕ) (cs : List GroupLogCursor)
      → (ack_rooms now uin device_id known rooms cs).1 ≡ 0
      → (ack_rooms now uin device_id known rooms cs).0 ≡ cs
  unfolding ack_rooms
  ack_rooms_unmoved [] known cs h = refl
  ack_rooms_unmoved (x ∷ rooms) known cs h = elim (Bool-cases (is_stale_ack x.upto (known x.gid))) [
    | inl e ↦ rw e (ack_rooms_unmoved rooms known cs (rw e at h))
    | inr e ↦ absurd (ground arith)
  ]

  read_back :
      (g at : ℕ) (cs : List GroupLogCursor) (o : Option GroupLogCursor)
      → find_log_cursor g uin device_id cs ≡ o
      → seq_of o ≡ some at
      → HasReached g uin device_id at cs
  read_back g at cs none f e = absurd (cc e)
  read_back g at cs (some c) f e = (c, f, ground arith)

  known_at-Knows :
      (rooms : List GroupLogAckRoomIn) (cs : List GroupLogCursor)
      → Knows (known_at uin device_id rooms cs) cs
  unfolding known_at
  known_at-Knows rooms cs g at e =
      elim (Bool-cases (any (λ (r : GroupLogAckRoomIn). r.gid == g) rooms)) [
        | inl b ↦ read_back g at cs (find_log_cursor g uin device_id cs) refl (rw b at e)
        | inr b ↦ absurd (ground arith)
      ]

  -- After an ack the device's cursor of each room that the ack lists stands at the acked mark or
  -- further.
  pub ack_reaches :
      (rooms : List GroupLogAckRoomIn) (db : LogDb) (r : GroupLogAckRoomIn)
      → r ∈ rooms
      → HasReached r.gid uin device_id r.upto (ack_group_log now rooms uin device_id db).0.cursors
  unfolding ack_group_log
  ack_reaches rooms db r m =
      ack_rooms_reaches (sort_by (λ (x : GroupLogAckRoomIn). x.gid) rooms)
        (known_at uin device_id rooms db.cursors) db.cursors r (known_at-Knows rooms db.cursors)
        (mem-sort_by (λ (x : GroupLogAckRoomIn). x.gid) r rooms m)

  -- An ack takes no cursor of any device back in any room.
  pub ack_forward :
      (rooms : List GroupLogAckRoomIn) (db : LogDb) (g u : ℕ) (d : String) (at : ℕ)
      → HasReached g u d at db.cursors
      → HasReached g u d at (ack_group_log now rooms uin device_id db).0.cursors
  unfolding ack_group_log
  ack_forward rooms db g u d at h =
      ack_rooms_forward (sort_by (λ (x : GroupLogAckRoomIn). x.gid) rooms)
        (known_at uin device_id rooms db.cursors) db.cursors g u d at h

  -- An ack leaves the cursors of every other device as they were.
  pub ack_other :
      (rooms : List GroupLogAckRoomIn) (db : LogDb) (g u : ℕ) (d : String)
      → (u ≢ uin) ⊎ (d ≢ device_id)
      → find_log_cursor g u d (ack_group_log now rooms uin device_id db).0.cursors
        ≡ find_log_cursor g u d db.cursors
  unfolding ack_group_log
  ack_other rooms db g u d ne =
      ack_rooms_other (sort_by (λ (x : GroupLogAckRoomIn). x.gid) rooms)
        (known_at uin device_id rooms db.cursors) db.cursors g u d ne

  -- An ack that reports no cursor moved has written nothing.
  pub ack_unmoved :
      (rooms : List GroupLogAckRoomIn) (db : LogDb)
      → (ack_group_log now rooms uin device_id db).1 ≡ 0
      → (ack_group_log now rooms uin device_id db).0 ≡ db
  unfolding ack_group_log
  ack_unmoved rooms db h =
      let none_moved : ((ack_group_log now rooms uin device_id db).1 == 0) ≡ true = ground arith in
      rw
        (
          none_moved,
          ack_rooms_unmoved (sort_by (λ (x : GroupLogAckRoomIn). x.gid) rooms)
              (known_at uin device_id rooms db.cursors) db.cursors h,
        )
        refl
