-- ===== src/RoomLog/Fetch/Kept.antt =====
-- What `fetch_group_log` (app/routers/messages.py) writes: cursors.
use rcq_server_ref.Base.{
  ℕ, List, Option, String, arith, ◌≡◌, ◌∈◌, ◌⊎◌, inl, inr, refl, sym, ◌∙◌, ap, none, some, [], ◌∷◌,
  Bool-cases, Option-cases, ◌==◌, any, map,
}
use rcq_server_ref.RoomLog.Counters.{Seq, room_head}
use rcq_server_ref.RoomLog.Cursors.{
  GroupLogCursor, find_log_cursor, upsert_log_cursor, new_log_cursor, moved_to, returned_seq,
}
use rcq_server_ref.RoomLog.Forward.{key_cases, find-upsert_self, find-upsert_other}
use rcq_server_ref.RoomLog.Ack.{learnt}
use rcq_server_ref.RoomLog.Fetch.{
  Gathered, FetchDb, GroupLogFetchIn, read_room, read_rooms, first_read, behind_from, behind_rooms,
  fetch_group_log, wanted_rooms, member_of, positions, gathered, room_position,
}

-- The cursor of the key is there and stands at `at`.
abbrev pub StandsAt : ℕ → ℕ → String → ℕ → List GroupLogCursor → Type 0
StandsAt g u d at cs =
    (c : GroupLogCursor) × (find_log_cursor g u d cs ≡ some c) × (c.last_seq ≡ at)

seeding-StandsAt :
    (now g u : ℕ) (d : String) (head : ℕ) (cs : List GroupLogCursor) (g' u' : ℕ) (d' : String)
    (at : ℕ)
    → StandsAt g' u' d' at cs
    → StandsAt g' u' d' at (upsert_log_cursor now g u d 0 head cs)
seeding-StandsAt now g u d head cs g' u' d' at (c, f, l) = elim (key_cases g' u' d' g u d) [
  | inl (p, q, r) ↦
      let f' : find_log_cursor g u d cs ≡ some c = rw (p, q, r) at f in
      rw (p, q, r) (moved_to now 0 c, rw (find-upsert_self, f') refl, omega arith)
  | inr ne ↦ (c, find-upsert_other now g u d 0 head cs g' u' d' ne ∙ f, l)
]

-- A pass of the loop leaves the table, or makes the cursor of its room.
pub read_room-stored :
    (now uin : ℕ) (device_id : String) (seqs : List Seq) (gid : ℕ) (after : Option ℕ) (s : Gathered)
    → ((at : ℕ) × (s.known gid ≡ some at)
        × ((read_room now uin device_id seqs (gid, after) s).stored ≡ s.stored)
        × ((read_room now uin device_id seqs (gid, after) s).known ≡ s.known))
      ⊎ ((s.known gid ≡ none)
          × ((read_room now uin device_id seqs (gid, after) s).stored
              ≡ upsert_log_cursor now gid uin device_id 0 (room_head gid seqs) s.stored)
          × ((at : ℕ) × ((read_room now uin device_id seqs (gid, after) s).known
                ≡ learnt gid at s.known)))
unfolding read_room room_position first_read behind_from
read_room-stored now uin device_id seqs gid after s = elim (Option-cases (s.known gid)) [
  | inl o ↦ inr (
    o,
    rw o refl,
    (returned_seq 0 (room_head gid seqs) (find_log_cursor gid uin device_id s.stored), rw o refl),
  )
  | inr (at, o) ↦ inl (at, o, rw o refl, rw o refl)
]

read_rooms-StandsAt :
    (now uin : ℕ) (device_id : String) (seqs : List Seq) (g u : ℕ) (d : String) (at : ℕ)
    (wanted : List (ℕ × Option ℕ)) (s : Gathered)
    → StandsAt g u d at s.stored
    → StandsAt g u d at (read_rooms now uin device_id seqs wanted s).stored
unfolding read_rooms
read_rooms-StandsAt now uin device_id seqs g u d at [] s h = h
read_rooms-StandsAt now uin device_id seqs g u d at ((gid, after) ∷ wanted) s h =
    read_rooms-StandsAt now uin device_id seqs g u d at wanted
      (read_room now uin device_id seqs (gid, after) s)
      (elim (read_room-stored now uin device_id seqs gid after s) [
        | inl (x, o, e, k) ↦ rw e h
        | inr (o, e, k) ↦
            rw e (seeding-StandsAt now gid uin device_id (room_head gid seqs) s.stored g u d at h)
      ])

none-some : {o : Option ℕ} {at : ℕ} → o ≡ none → o ≡ some at → ⊥
none-some p q = let h = sym p ∙ q in cc h

read_rooms-first :
    (now uin : ℕ) (device_id : String) (seqs : List Seq) (gid : ℕ) (wanted : List (ℕ × Option ℕ))
    (s : Gathered)
    → s.known gid ≡ none
    → find_log_cursor gid uin device_id s.stored ≡ none
    → gid ∈ map (λ (w : ℕ × Option ℕ). w.0) wanted
    → StandsAt gid uin device_id
        (room_head gid seqs)
        (read_rooms now uin device_id seqs wanted s).stored
unfolding read_rooms
read_rooms-first now uin device_id seqs gid [] s k f i = absurd i
read_rooms-first now uin device_id seqs gid ((g, after) ∷ wanted) s k f i =
    let head = room_head g seqs in
    let next = read_room now uin device_id seqs (g, after) s in
    elim (Bool-cases (g == gid)) [
      | inl q ↦
          let q' : gid ≡ g = ground arith in
          let k' : s.known g ≡ none = rw q' at k in
          let f' : find_log_cursor g uin device_id s.stored ≡ none = rw q' at f in
          elim (read_room-stored now uin device_id seqs g after s) [
            | inl (x, o, e, l) ↦ absurd (none-some k' o)
            | inr (o, e, l) ↦
                read_rooms-StandsAt now uin device_id seqs gid uin device_id (room_head gid seqs)
                  wanted next
                  (rw (e, q')
                    (
                      new_log_cursor now g uin device_id 0 head,
                      rw (find-upsert_self, f') refl,
                      omega arith,
                    ))
          ]
      | inr q ↦ elim (read_room-stored now uin device_id seqs g after s) [
        | inl (x, o, e, l) ↦
            read_rooms-first now uin device_id seqs gid wanted next (ap (λ m. m gid) l ∙ k) (rw e f)
              (ground arith)
        | inr (o, e, (at, l)) ↦
            read_rooms-first now uin device_id seqs gid wanted next
              (ap (λ m. m gid) l ∙ ground (arith, k))
              (rw e (
                find-upsert_other now g uin device_id 0 head s.stored gid uin device_id
                  (inl (ground arith))
                ∙ f))
              (ground arith)
      ]
    ]

module _ (now : ℕ) (body : GroupLogFetchIn) (uin : ℕ) (device_id : String) (db : FetchDb) where
  -- A fetch moves no cursor that is there, of any device in any room.
  pub fetch_group_log_keeps :
      (g u : ℕ) (d : String) (at : ℕ)
      → StandsAt g u d at db.marks.cursors
      → StandsAt g u d at (fetch_group_log now body uin device_id db).0.marks.cursors
  unfolding fetch_group_log behind_rooms
  fetch_group_log_keeps g u d at h =
      let wanted = wanted_rooms (member_of db.members uin) body.rooms in
      read_rooms-StandsAt now uin device_id db.seqs g u d at wanted
        (gathered uin device_id wanted db.marks.cursors) h

  -- A device that has no cursor in a room that it fetches, and that its account is a member of, has one
  -- at the head of that room after the fetch.
  pub fetch_group_log_first :
      (gid : ℕ)
      → gid ∈ map (λ (w : ℕ × Option ℕ). w.0) (wanted_rooms (member_of db.members uin) body.rooms)
      → find_log_cursor gid uin device_id db.marks.cursors ≡ none
      → StandsAt gid uin device_id
          (room_head gid db.seqs)
          (fetch_group_log now body uin device_id db).0.marks.cursors
  unfolding fetch_group_log behind_rooms positions
  fetch_group_log_first gid i f =
      let wanted = wanted_rooms (member_of db.members uin) body.rooms in
      read_rooms-first now uin device_id db.seqs gid wanted
        (gathered uin device_id wanted db.marks.cursors)
        (rw f (elim (Bool-cases (any (λ (w : ℕ × Option ℕ). w.0 == gid) wanted)) [
          | inl e ↦ rw e refl
          | inr e ↦ rw e refl
        ]))
        f i
