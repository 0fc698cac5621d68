-- ===== src/RoomLog/Fetch/Started.antt =====
-- Where the loop of `fetch_group_log` (app/routers/messages.py) starts to read: `starts`.
use rcq_server_ref.Base.{
  ℕ, List, Option, String, arith, ◌≡◌, ◌≢◌, ◌∈◌, ◌⊎◌, inl, inr, refl, sym, ◌∙◌, ap, none, some, [],
  ◌∷◌, true, Bool-cases, Option-cases, ◌==◌, not, map, ◌<◌, ltb, if◌then◌else◌, mem-filter,
  filter-mem, subst,
}
use rcq_server_ref.RoomLog.Counters.{Seq, room_head}
use rcq_server_ref.RoomLog.Fetch.{
  Gathered, read_room, read_rooms, room_position, first_read, behind_from, put, popped, from_or,
}

put-mem :
    (key value : ℕ) (e : ℕ × ℕ) (d : List (ℕ × ℕ))
    → e ∈ put key value d
    → (e ≡ (key, value)) ⊎ (e ∈ d)
put-mem key value e [] i = i
put-mem key value e (x ∷ d) i = ground (arith, put-mem key value e d)

mem-put : (key value : ℕ) (e : ℕ × ℕ) (d : List (ℕ × ℕ)) → e.0 ≢ key → e ∈ d → e ∈ put key value d
mem-put key value e [] ne i = absurd i
mem-put key value e (x ∷ d) ne (inl q) = ground (arith, ap (λ (y : ℕ × ℕ). y.0) q)
mem-put key value e (x ∷ d) ne (inr i) = ground (arith, mem-put key value e d ne i)

put_self : (key value : ℕ) (d : List (ℕ × ℕ)) → (key, value) ∈ put key value d
put_self key value [] = inl refl
put_self key value (x ∷ d) = ground (arith, put_self key value d)

abbrev starts_from : ℕ → ℕ → ℕ → List (ℕ × ℕ) → List (ℕ × ℕ)
starts_from gid head start d = if ltb start head then put gid start (popped gid d) else popped gid d

starts_from-mem :
    (gid head start : ℕ) (e : ℕ × ℕ) (d : List (ℕ × ℕ))
    → e ∈ starts_from gid head start d
    → (e ≡ (gid, start)) ⊎ (e ∈ d)
starts_from-mem gid head start e d i =
    let old = filter-mem (λ (x : ℕ × ℕ). not (x.0 == gid)) e d in
    elim (Bool-cases (ltb start head)) [
      | inl q ↦ elim (put-mem gid start e (popped gid d) (rw q at i)) [
        | inl p ↦ inl p
        | inr j ↦ inr (old j).0
      ]
      | inr q ↦ inr (old (rw q at i)).0
    ]

mem-starts_from :
    (gid head start : ℕ) (e : ℕ × ℕ) (d : List (ℕ × ℕ))
    → e.0 ≢ gid
    → e ∈ d
    → e ∈ starts_from gid head start d
mem-starts_from gid head start e d ne i =
    let kept = mem-filter (λ (x : ℕ × ℕ). not (x.0 == gid)) e d (ground arith) i in
    elim (Bool-cases (ltb start head)) [
      | inl q ↦ rw q (mem-put gid start e (popped gid d) ne kept)
      | inr q ↦ rw q kept
    ]

starts_from_self :
    (gid head start : ℕ) (d : List (ℕ × ℕ))
    → start < head
    → (gid, start) ∈ starts_from gid head start d
starts_from_self gid head start d l =
    let q : ltb start head ≡ true = ground arith in rw q (put_self gid start (popped gid d))

module _ (now uin : ℕ) (device_id : String) (seqs : List Seq) where
  -- A pass of the loop: the room's position is the one that is known, and the start is set from it.
  read_room-starts :
      (gid : ℕ) (after : Option ℕ) (s : Gathered)
      → (at : ℕ) × ((read_room now uin device_id seqs (gid, after) s).starts
          ≡ starts_from gid (room_head gid seqs) (from_or at after) s.starts)
        × ((n : ℕ) → s.known gid ≡ some n → at ≡ n)
        × ((g n : ℕ)
            → s.known g ≡ some n
            → (read_room now uin device_id seqs (gid, after) s).known g ≡ some n)
  unfolding read_room room_position first_read behind_from
  read_room-starts gid after s = elim (Option-cases (s.known gid)) [
    | inl o ↦ (
      (room_position now gid uin device_id (room_head gid seqs) s none).1,
      rw o refl,
      (λ n k. absurd (let h = sym o ∙ k in cc h)),
      λ g n k. elim (Bool-cases (g == gid)) [
        | inl q ↦
            let q' : g ≡ gid = ground arith in
            let k' : s.known gid ≡ some n = rw q' at k in absurd (let h = sym o ∙ k' in cc h)
        | inr q ↦ rw (o, q) k
      ],
    )
    | inr (at, o) ↦ (at, rw o refl, (λ n k. let h = sym o ∙ k in cc h), λ g n k. rw o k)
  ]

  -- The starts are of wanted rooms.
  pub read_rooms-wanted :
      (wanted : List (ℕ × Option ℕ)) (s : Gathered) (e : ℕ × ℕ)
      → e ∈ (read_rooms now uin device_id seqs wanted s).starts
      → (e.0 ∈ map (λ (w : ℕ × Option ℕ). w.0) wanted) ⊎ (e ∈ s.starts)
  unfolding read_rooms
  read_rooms-wanted [] s e i = inr i
  read_rooms-wanted ((gid, after) ∷ wanted) s e i =
      let (at, q, known, keeps) = read_room-starts gid after s in
      elim (read_rooms-wanted wanted (read_room now uin device_id seqs (gid, after) s) e i) [
        | inl j ↦ inl (inr j)
        | inr j ↦ elim (starts_from-mem gid _ _ e s.starts (subst (λ d. e ∈ d) q j)) [
          | inl p ↦ inl (inl (ap (λ (y : ℕ × ℕ). y.0) p))
          | inr k ↦ inr k
        ]
      ]

  module _ (gid at : ℕ) where
    -- Without a position of the client's own, a known room is read from where it is known to stand.
    pub read_rooms-at :
        (rooms : List ℕ) (s : Gathered) (start : ℕ)
        → s.known gid ≡ some at
        → ((gid, start) ∈ s.starts → start ≡ at)
        → (gid, start) ∈ (read_rooms now uin device_id seqs (map (λ g. (g, none)) rooms) s).starts
        → start ≡ at
    unfolding read_rooms
    read_rooms-at [] s start k h i = h i
    read_rooms-at (g ∷ rooms) s start k h i =
        let (x, q, known, keeps) = read_room-starts g none s in
        read_rooms-at rooms (read_room now uin device_id seqs (g, none) s) start (keeps gid at k)
          (λ j.
            elim (starts_from-mem g _ _ (gid, start) s.starts (subst (λ d. (gid, start) ∈ d) q j)) [
              | inl p ↦
                  let p' : gid ≡ g = ap (λ (y : ℕ × ℕ). y.0) p in
                  ap (λ (y : ℕ × ℕ). y.1) p ∙ known at (rw p' at k)
              | inr m ↦ h m
            ])
          i

    -- And it is read where the head is above that.
    pub read_rooms-started :
        (rooms : List ℕ) (s : Gathered)
        → s.known gid ≡ some at
        → at < room_head gid seqs
        → (gid ∈ rooms) ⊎ ((gid, at) ∈ s.starts)
        → (gid, at) ∈ (read_rooms now uin device_id seqs (map (λ g. (g, none)) rooms) s).starts
    unfolding read_rooms
    read_rooms-started [] s k l (inl i) = absurd i
    read_rooms-started [] s k l (inr i) = i
    read_rooms-started (g ∷ rooms) s k l i =
        let (x, q, known, keeps) = read_room-starts g none s in
        let next = read_room now uin device_id seqs (g, none) s in
        elim (Bool-cases (g == gid)) [
          | inl e ↦
              let e' : gid ≡ g = ground arith in
              let same : x ≡ at = known at (rw e' at k) in
              read_rooms-started rooms next (keeps gid at k) l (
                inr (
                  subst (λ d. (gid, at) ∈ d) (sym q)
                    (rw (e', same)
                      (starts_from_self g (room_head g seqs) at s.starts (rw e' at l)))))
          | inr e ↦ elim i [
            | inl (inl p) ↦ absurd (ground arith)
            | inl (inr j) ↦ read_rooms-started rooms next (keeps gid at k) l (inl j)
            | inr j ↦ read_rooms-started rooms next (keeps gid at k) l (
                inr (
                  subst (λ d. (gid, at) ∈ d) (sym q)
                    (mem-starts_from g _ _ (gid, at) s.starts (ground arith) j)))
          ]
        ]
