-- ===== src/RoomLog/Page/Reads.antt =====
-- What a read of `_fair_log_page` (app/routers/messages.py) takes from a room, and what it leaves.
use rcq_server_ref.RoomLog.Rows.{GroupLog, is_to, last_seq_or, log_above, room_log}
use rcq_server_ref.Base.{
  ◌==◌, ◌&&◌, ℕ, arith, [], ◌∷◌, false, List, insert_by, Bool, All, filter, take, ◌≤◌, Bool-cases,
  ltb, ◌<◌, ◌≢◌, ◌≡◌, leb, drop, ◌⊎◌, ◌++◌, inl, suc, refl, All-of_mem, length, inr, zero,
  insert_by-mem, All-mem, filter-mem, sort_by, sym, ◌∙◌, take-append-drop, ap, drop_short,
  sort_by-mem,
}

-- The rows ascend, with no number twice.
abbrev pub IsIncreasing : List GroupLog → Type 0
IsIncreasing [] = Unit
IsIncreasing (r ∷ rows) = All (λ x. r.seq < x.seq) rows × IsIncreasing rows

-- `(group_id, seq)` is the primary key.
abbrev pub IsKeyed : List GroupLog → Type 0
IsKeyed [] = Unit
IsKeyed (r ∷ log) = All (λ x. (x.group_id ≢ r.group_id) ⊎ (x.seq ≢ r.seq)) log × IsKeyed log

All-lower :
    (m n : ℕ) (rows : List GroupLog) → m ≤ n → All (λ x. n < x.seq) rows → All (λ x. m < x.seq) rows
All-lower m n [] h a = tt
All-lower m n (r ∷ rows) h a = (omega arith, All-lower m n rows h a.1)

insert_by-IsIncreasing :
    (r : GroupLog) (rows : List GroupLog)
    → All (λ x. x.seq ≢ r.seq) rows
    → IsIncreasing rows
    → IsIncreasing (insert_by (λ (x : GroupLog). x.seq) r rows)
unfolding insert_by
insert_by-IsIncreasing r [] d h = (tt, tt)
insert_by-IsIncreasing r (x ∷ rows) d h = elim (Bool-cases (leb r.seq x.seq)) [
  | inl e ↦ rw e ((ground arith, All-lower r.seq x.seq rows (ground arith) h.0), h)
  | inr e ↦ rw e (
    All-of_mem _ _ (λ a i. elim (insert_by-mem (λ (x : GroupLog). x.seq) a r rows i) [
      | inl q ↦ rw q (ground arith)
      | inr j ↦ All-mem _ a rows h.0 j
    ]),
    insert_by-IsIncreasing r rows d.1 h.1,
  )
]

pub room_log-IsIncreasing :
    (log : List GroupLog) (uin gid : ℕ) → IsKeyed log → IsIncreasing (room_log log uin gid)
unfolding room_log sort_by
room_log-IsIncreasing [] uin gid h = tt
room_log-IsIncreasing (r ∷ log) uin gid (k, h) =
    let readable = λ (x : GroupLog). x.group_id == gid && is_to uin x.to_uin in
    elim (Bool-cases (readable r)) [
      | inl e ↦ rw e (
          insert_by-IsIncreasing r (room_log log uin gid)
            (All-of_mem _ _ (λ a i.
              let (j, q) =
                filter-mem readable a log (sort_by-mem (λ (x : GroupLog). x.seq) a _ i) in
              elim (All-mem _ a log k j) [ inl ne ↦ absurd (ne (ground arith)) | inr ne ↦ ne ]))
            (room_log-IsIncreasing log uin gid h))
      | inr e ↦ rw e (room_log-IsIncreasing log uin gid h)
    ]

filter-IsIncreasing :
    (p : GroupLog → Bool) (rows : List GroupLog) → IsIncreasing rows → IsIncreasing (filter p rows)
filter-IsIncreasing p [] h = tt
filter-IsIncreasing p (r ∷ rows) h = elim (Bool-cases (p r)) [
  | inl e ↦ rw e (
    All-of_mem _ _ (λ a i. All-mem _ a rows h.0 (filter-mem p a rows i).0),
    filter-IsIncreasing p rows h.1,
  )
  | inr e ↦ rw e (filter-IsIncreasing p rows h.1)
]

last_seq_ge :
    (mark n : ℕ) (rows : List GroupLog)
    → All (λ x. mark < x.seq) rows
    → IsIncreasing rows
    → mark ≤ last_seq_or mark (take n rows)
last_seq_ge mark zero rows a h = omega arith
last_seq_ge mark (suc n) [] a h = omega arith
last_seq_ge mark (suc n) (r ∷ rows) a h = omega (arith, last_seq_ge r.seq n rows h.0 h.1)

filter_above :
    (mark : ℕ) (rows : List GroupLog)
    → All (λ x. mark < x.seq) rows
    → filter (λ (r : GroupLog). ltb mark r.seq) rows ≡ rows
filter_above mark [] a = refl
filter_above mark (r ∷ rows) a = ground (arith, filter_above mark rows a.1)

-- What is above the last row of a read is what the read left.
filter_past_read :
    (n mark : ℕ) (rows : List GroupLog)
    → All (λ x. mark < x.seq) rows
    → IsIncreasing rows
    → filter (λ (r : GroupLog). ltb (last_seq_or mark (take n rows)) r.seq) rows ≡ drop n rows
filter_past_read zero mark rows a h = filter_above mark rows a
filter_past_read (suc n) mark [] a h = refl
filter_past_read (suc n) mark (r ∷ rows) a h =
    let past : ltb (last_seq_or r.seq (take n rows)) r.seq ≡ false =
      ground (arith, last_seq_ge r.seq n rows h.0 h.1) in
    rw past (filter_past_read n r.seq rows h.0 h.1)

filter-filter :
    (low high : ℕ) (rows : List GroupLog)
    → low ≤ high
    → filter (λ (r : GroupLog). ltb high r.seq) (filter (λ (r : GroupLog). ltb low r.seq) rows)
      ≡ filter (λ (r : GroupLog). ltb high r.seq) rows
filter-filter low high [] h = refl
filter-filter low high (r ∷ rows) h = ground (arith, filter-filter low high rows h)

All-filter_above :
    (mark : ℕ) (rows : List GroupLog)
    → All (λ x. mark < x.seq) (filter (λ (r : GroupLog). ltb mark r.seq) rows)
All-filter_above mark [] = tt
All-filter_above mark (r ∷ rows) = elim (Bool-cases (ltb mark r.seq)) [
  | inl e ↦ rw e (ground arith, All-filter_above mark rows)
  | inr e ↦ rw e (All-filter_above mark rows)
]

-- A read and what is above its last row are what was above the mark.
pub log_above-read :
    (log : List GroupLog) (uin gid n mark : ℕ)
    → IsKeyed log
    → let got = take n (log_above log uin gid mark) in
      (log_above log uin gid mark ≡ got ++ log_above log uin gid (last_seq_or mark got))
      × (length got ≢ n → log_above log uin gid (last_seq_or mark got) ≡ [])
unfolding log_above
log_above-read log uin gid n mark k =
    let rows = room_log log uin gid in
    let above = filter (λ (r : GroupLog). ltb mark r.seq) rows in
    let lower = All-filter_above mark rows in
    let h =
      filter-IsIncreasing (λ (r : GroupLog). ltb mark r.seq) rows
        (room_log-IsIncreasing log uin gid k) in
    let rest : filter (λ (r : GroupLog). ltb (last_seq_or mark (take n above)) r.seq) rows
        ≡ drop n above =
      sym (
        filter-filter mark (last_seq_or mark (take n above)) rows
          (last_seq_ge mark n above lower h))
      ∙ filter_past_read n mark above lower h in
    (
      sym (take-append-drop n above) ∙ ap (λ (x : List GroupLog). take n above ++ x) (sym rest),
      λ short. rest ∙ drop_short n above short,
    )
