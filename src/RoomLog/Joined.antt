-- ===== src/RoomLog/Joined.antt =====
-- Where a new member's devices start in a room (`seed_cursors_on_join` of app/services/group_log.py).
use rcq_server_ref.RoomLog.Counters.{Seq, room_head}
use rcq_server_ref.RoomLog.Forward.{find-upsert_self, find-upsert_other}
use rcq_server_ref.RoomLog.Cursors.{
  seed_each, GroupLogCursor, find_log_cursor, upsert_log_cursor, moved_to, new_log_cursor,
  seed_cursors_on_join, reader_devices, GroupLogReader,
}
use rcq_server_ref.Base.{
  ℕ, arith, String, List, Option, ◌≡◌, ◌∈◌, some, ◌∷◌, none, Bool-cases, [], same_text, inl,
  same_text_iff, inr, false≢true, sym, ◌∙◌, refl, ◌≢◌, mem-map, mem-filter,
}

module _ (now group_id uin head : ℕ) where
  -- The cursor of a device stands where it stood, or at the head where it had none.
  abbrev pub StartsAt : String → List GroupLogCursor → Option GroupLogCursor → Type 0
  StartsAt d cs none =
      (c : GroupLogCursor) × (find_log_cursor group_id uin d cs ≡ some c) × (c.last_seq ≡ head)
  StartsAt d cs (some old) =
      (c : GroupLogCursor) × (find_log_cursor group_id uin d cs ≡ some c)
      × (c.last_seq ≡ old.last_seq)

  -- A cursor that is there is not moved.
  seed_each_keeps :
      (devices : List String) (cs : List GroupLogCursor) (d : String) (c : GroupLogCursor)
      → find_log_cursor group_id uin d cs ≡ some c
      → StartsAt d (seed_each now group_id uin head devices cs) (some c)
  unfolding seed_each
  seed_each_keeps [] cs d c f = (c, f, refl)
  seed_each_keeps (x ∷ devices) cs d c f = elim (Bool-cases (same_text d x)) [
    | inl e ↦
        let q : d ≡ x = (same_text_iff d x).0 e in
        let f' : find_log_cursor group_id uin x cs ≡ some c = rw q at f in
        let (c', g, l) =
          seed_each_keeps devices (upsert_log_cursor now group_id uin x 0 head cs) d
            (moved_to now 0 c) (rw (q, find-upsert_self, f') refl) in
        (c', g, omega arith)
    | inr e ↦ seed_each_keeps devices (upsert_log_cursor now group_id uin x 0 head cs) d c (
        find-upsert_other now group_id uin x 0 head cs group_id uin d
          (inr (inr (λ q. false≢true (sym e ∙ (same_text_iff d x).1 q))))
        ∙ f)
  ]

  seed_each-StartsAt :
      (devices : List String) (cs : List GroupLogCursor) (d : String) (o : Option GroupLogCursor)
      → d ∈ devices
      → find_log_cursor group_id uin d cs ≡ o
      → StartsAt d (seed_each now group_id uin head devices cs) o
  unfolding seed_each
  seed_each-StartsAt devices cs d (some old) m f = seed_each_keeps devices cs d old f
  seed_each-StartsAt [] cs d none m f = absurd m
  seed_each-StartsAt (x ∷ devices) cs d none m f = elim (Bool-cases (same_text d x)) [
    | inl e ↦
        let q : d ≡ x = (same_text_iff d x).0 e in
        let f' : find_log_cursor group_id uin x cs ≡ none = rw q at f in
        let (c, g, l) =
          seed_each_keeps devices (upsert_log_cursor now group_id uin x 0 head cs) d
            (new_log_cursor now group_id uin x 0 head) (rw (q, find-upsert_self, f') refl) in
        (c, g, omega arith)
    | inr e ↦
        let ne : d ≢ x = λ q. false≢true (sym e ∙ (same_text_iff d x).1 q) in
        seed_each-StartsAt devices (upsert_log_cursor now group_id uin x 0 head cs) d none
          (elim m [ inl q ↦ absurd (ne q) | inr i ↦ i ])
          (find-upsert_other now group_id uin x 0 head cs group_id uin d (inr (inr ne)) ∙ f)
  ]

-- Each device of a new member that has read a log gets a cursor at the head of the room, and where it
-- has one already, that one stays where it is.
pub seed_cursors_on_join-StartsAt :
    (now group_id uin : ℕ) (seqs : List Seq) (readers : List GroupLogReader)
    (cs : List GroupLogCursor) (r : GroupLogReader)
    → r ∈ readers
    → r.uin ≡ uin
    → StartsAt now group_id uin
        (room_head group_id seqs)
        r.device_id
        (seed_cursors_on_join now group_id uin seqs readers cs)
        (find_log_cursor group_id uin r.device_id cs)
unfolding seed_cursors_on_join reader_devices
seed_cursors_on_join-StartsAt now group_id uin seqs readers cs r m own =
    seed_each-StartsAt now group_id uin (room_head group_id seqs) (reader_devices uin readers) cs
      r.device_id _
      (mem-map (λ (x : GroupLogReader). x.device_id) r _ (mem-filter _ r readers (ground arith) m))
      refl
