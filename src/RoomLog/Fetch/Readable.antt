-- ===== src/RoomLog/Fetch/Readable.antt =====
-- Members, wanted rooms and rows: what is in them (`fetch_group_log` of app/routers/messages.py).
use rcq_server_ref.Base.{
  ℕ, List, Option, String, arith, ◌≡◌, ◌∈◌, inl, inr, refl, sym, ◌∙◌, ap, none, some, [], ◌∷◌, true,
  Bool-cases, ◌==◌, ◌&&◌, any, map, filter, ◌<◌, ltb, mem-filter, filter-mem, mem-map, map-mem,
  mem-append, append-mem, subst, sort_by-mem, mem-sort_by, any_mem, mem_any,
}
use rcq_server_ref.RoomLog.Cursors.{GroupLogCursor, find_log_cursor}
use rcq_server_ref.RoomLog.Rows.{GroupLog, is_to, room_log, log_above}
use rcq_server_ref.RoomLog.Page.{Room}
use rcq_server_ref.RoomLog.Fetch.{
  GroupMember, GroupLogRoomIn, GroupLogRow, wanted_rooms, member_of, positions, as_set, log_row,
  out_rows,
}

as_set-mem : (a : ℕ) (xs : List ℕ) → a ∈ as_set xs → a ∈ xs
unfolding as_set
as_set-mem a [] i = i
as_set-mem a (x ∷ xs) i = ground (arith, as_set-mem a xs)

mem-as_set : (a : ℕ) (xs : List ℕ) → a ∈ xs → a ∈ as_set xs
unfolding as_set
mem-as_set a [] i = i
mem-as_set a (x ∷ xs) i = elim (Bool-cases (any (λ y. y == x) xs)) [
  | inl e ↦ rw e (elim i [
    | inl p ↦
        let (y, j, q) = any_mem (λ (y : ℕ). y == x) xs e in
        let q' : y ≡ x = ground arith in mem-as_set a xs (rw (p, sym q') j)
    | inr j ↦ mem-as_set a xs j
  ])
  | inr e ↦ rw e (elim i [ inl p ↦ inl p | inr j ↦ inr (mem-as_set a xs j) ])
]

-- The account is a member of the room.
abbrev pub IsMember : List GroupMember → ℕ → ℕ → Type 0
IsMember members uin gid = (m : GroupMember) × (m ∈ members) × (m.uin ≡ uin) × (m.group_id ≡ gid)

pub member_of-IsMember :
    (members : List GroupMember) (uin gid : ℕ)
    → gid ∈ member_of members uin
    → IsMember members uin gid
unfolding member_of
member_of-IsMember members uin gid i =
    let own = filter (λ (m : GroupMember). m.uin == uin) members in
    let (m, j, e) =
      map-mem (λ (m : GroupMember). m.group_id) gid own
        (as_set-mem gid (map (λ (m : GroupMember). m.group_id) own) i) in
    let (k, q) = filter-mem (λ (m : GroupMember). m.uin == uin) m members j in
    (m, k, ground arith, sym e)

pub IsMember-member_of :
    (members : List GroupMember) (uin gid : ℕ)
    → IsMember members uin gid
    → gid ∈ member_of members uin
unfolding member_of
IsMember-member_of members uin gid (m, i, own, e) = mem-as_set gid _ (
    subst
      (λ g.
        g
        ∈ map (λ (m : GroupMember). m.group_id)
            (filter (λ (m : GroupMember). m.uin == uin) members))
      e
      (mem-map (λ (m : GroupMember). m.group_id) m _
        (mem-filter (λ (m : GroupMember). m.uin == uin) m members (ground arith) i)))

-- Only rooms of the account are wanted.
pub wanted_rooms-joined :
    (joined : List ℕ) (asked : Option (List GroupLogRoomIn)) (gid : ℕ)
    → gid ∈ map (λ (w : ℕ × Option ℕ). w.0) (wanted_rooms joined asked)
    → gid ∈ joined
unfolding wanted_rooms
wanted_rooms-joined joined none gid i =
    let (w, j, e) = map-mem (λ (w : ℕ × Option ℕ). w.0) gid _ i in
    let (g, k, q) = map-mem {B = ℕ × Option ℕ} (λ g. (g, none)) w _ j in
    let same : gid ≡ g = e ∙ ap (λ (w : ℕ × Option ℕ). w.0) q in
    sort_by-mem (λ g. g) gid joined (rw same k)
wanted_rooms-joined joined (some rooms) gid i =
    let (w, j, e) = map-mem (λ (w : ℕ × Option ℕ). w.0) gid _ i in
    let (r, k, q) = map-mem {B = ℕ × Option ℕ} (λ (r : GroupLogRoomIn). (r.gid, r.after)) w _ j in
    let (l, t) = filter-mem (λ (r : GroupLogRoomIn). any (λ g. g == r.gid) joined) r rooms k in
    let (g, m, u) = any_mem (λ g. g == r.gid) joined t in
    let same : gid ≡ g = e ∙ ap (λ (w : ℕ × Option ℕ). w.0) q ∙ sym (ground arith) in rw same m

-- A row above a mark is one that the member may read.
pub log_above-mem :
    (log : List GroupLog) (uin gid mark : ℕ) (r : GroupLog)
    → r ∈ log_above log uin gid mark
    → (r ∈ log) × (r.group_id ≡ gid) × (is_to uin r.to_uin ≡ true) × (mark < r.seq)
unfolding log_above room_log
log_above-mem log uin gid mark r i =
    let (j, above) = filter-mem (λ (r : GroupLog). ltb mark r.seq) r _ i in
    let (k, q) =
      filter-mem (λ (r : GroupLog). r.group_id == gid && is_to uin r.to_uin) r log
        (sort_by-mem (λ (r : GroupLog). r.seq) r _ j) in
    (k, ground arith, ground arith, ground arith)

pub mem-log_above :
    (log : List GroupLog) (uin mark : ℕ) (r : GroupLog)
    → r ∈ log
    → is_to uin r.to_uin ≡ true
    → mark < r.seq
    → r ∈ log_above log uin r.group_id mark
unfolding log_above room_log
mem-log_above log uin mark r i t l =
    mem-filter (λ (x : GroupLog). ltb mark x.seq) r _ (ground arith)
      (mem-sort_by (λ (x : GroupLog). x.seq) r _
        (mem-filter (λ (x : GroupLog). x.group_id == r.group_id && is_to uin x.to_uin) r log
          (ground arith) i))

pub out_rows-mem :
    (o : GroupLogRow) (rooms : List Room)
    → o ∈ out_rows rooms
    → (m : Room) × (m ∈ rooms) × (r : GroupLog) × (r ∈ m.picked) × (o ≡ log_row m.gid r)
out_rows-mem o [] i = absurd i
out_rows-mem o (m ∷ rooms) i =
    elim (append-mem o (map (log_row m.gid) m.picked) (out_rows rooms) i) [
      | inl j ↦ let (r, k, e) = map-mem (log_row m.gid) o m.picked j in (m, inl refl, r, k, e)
      | inr j ↦ let (n, k, r, l, e) = out_rows-mem o rooms j in (n, inr k, r, l, e)
    ]

pub mem-out_rows :
    (m : Room) (rooms : List Room) (r : GroupLog)
    → m ∈ rooms
    → r ∈ m.picked
    → log_row m.gid r ∈ out_rows rooms
mem-out_rows m [] r i j = absurd i
mem-out_rows m (n ∷ rooms) r (inl e) j =
    mem-append _ (map (log_row n.gid) n.picked) (out_rows rooms)
      (inl (rw e (mem-map (log_row n.gid) r n.picked (rw e at j))))
mem-out_rows m (n ∷ rooms) r (inr i) j =
    mem-append _ (map (log_row n.gid) n.picked) (out_rows rooms) (inr (mem-out_rows m rooms r i j))

pub positions-known :
    (uin : ℕ) (device_id : String) (wanted : List (ℕ × Option ℕ)) (cs : List GroupLogCursor)
    (gid : ℕ) (c : GroupLogCursor)
    → gid ∈ map (λ (w : ℕ × Option ℕ). w.0) wanted
    → find_log_cursor gid uin device_id cs ≡ some c
    → positions uin device_id wanted cs gid ≡ some c.last_seq
unfolding positions
positions-known uin device_id wanted cs gid c i f =
    let (w, j, e) = map-mem (λ (w : ℕ × Option ℕ). w.0) gid wanted i in
    let found : any (λ (w : ℕ × Option ℕ). w.0 == gid) wanted ≡ true =
      mem_any (λ (w : ℕ × Option ℕ). w.0 == gid) w wanted j (ground arith) in
    rw (found, f) refl
