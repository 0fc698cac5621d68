-- ===== src/RoomLog/PageTests.antt =====
-- Runs of `_fair_log_page`, and the theorems at them.
use rcq_server_ref.Base.{
  ℕ, arith, List, [], ◌∷◌, ◌≡◌, refl, false, true, none, some, map, inl, inr, String, sort_by, All,
  ◌≤◌, ◌∈◌, ◌*◌, length, ◌++◌, ◌⊎◌,
}
use rcq_server_ref.RoomLog.Rows.{GroupLog, size, log_above}
use rcq_server_ref.RoomLog.Page.Reads.{IsKeyed}
use rcq_server_ref.RoomLog.Page.Prefix.{fair_log_page-prefix}
use rcq_server_ref.RoomLog.Page.Bounds.{
  picked_rows, picked_bytes, served_page-ends, fair_log_page_bounds,
}
use rcq_server_ref.RoomLog.Page.Progress.{fair_log_page_progress}
use rcq_server_ref.RoomLog.Page.{
  Room, fair_log_page, served_page, take_turn, chunk_of, group_log_page_bytes,
}

abbrev pub row : ℕ → ℕ → String → GroupLog
row group_id seq payload = record {
  group_id = group_id;
  seq = seq;
  to_uin = none;
  envelope_type = "msg";
  cls = 0;
  payload = payload;
  received_at = 5;
}

-- A busy room, a quiet one, and a row sealed to another member.
abbrev pub page_log : List GroupLog
page_log =
    row 21 1 "aaaaaaaa"
    ∷ row 21 2 "bbbb"
    ∷ row 21 3 "cccc"
    ∷ row 9 7 "dd"
    ∷ record (row 21 4 "ee") { to_uin = some 778 }
    ∷ []

abbrev asked : List (ℕ × ℕ)
asked = (21, 0) ∷ (9, 5) ∷ []

abbrev seqs_of : List Room → List (List ℕ)
seqs_of rooms = map (λ (m : Room). map (λ (r : GroupLog). r.seq) m.picked) rooms

-- The busy room goes first; then the quiet one has been given less.
two_rows : seqs_of (fair_log_page page_log 777 asked 2).0 ≡ (1 ∷ []) ∷ (7 ∷ []) ∷ []
unfolding fair_log_page sort_by size
two_rows = refl

two_rows-more : (fair_log_page page_log 777 asked 2).1 ≡ true
unfolding fair_log_page sort_by size
two_rows-more = refl

all_rows : seqs_of (fair_log_page page_log 777 asked 50).0 ≡ (1 ∷ 2 ∷ 3 ∷ []) ∷ (7 ∷ []) ∷ []
unfolding fair_log_page sort_by size
all_rows = refl

pub page_log-IsKeyed : IsKeyed page_log
page_log-IsKeyed = (
  (inr (omega arith), (inr (omega arith), (inl (omega arith), (inr (omega arith), tt)))),
  (
    (inr (omega arith), (inl (omega arith), (inr (omega arith), tt))),
    ((inl (omega arith), (inr (omega arith), tt)), ((inl (omega arith), tt), (tt, tt))),
  ),
)

fair_log_page-prefix_example :
    All
      (λ m.
        (start : ℕ) × ((m.gid, start) ∈ asked)
        × (rest : List GroupLog) × (log_above page_log 777 m.gid start ≡ m.picked ++ rest))
      (fair_log_page page_log 777 asked 2).0
fair_log_page-prefix_example =
    fair_log_page-prefix page_log 777 asked 2 page_log-IsKeyed (omega arith)

nothing_more : (fair_log_page page_log 777 asked 50).1 ≡ false
unfolding fair_log_page sort_by size
nothing_more = refl

fair_log_page_bounds_example :
    let rooms = (fair_log_page page_log 777 asked 2).0 in
    (picked_rows rooms ≤ 2)
    × ((picked_bytes rooms ≤ 2 * group_log_page_bytes) ⊎ (picked_rows rooms ≡ 1))
fair_log_page_bounds_example =
    fair_log_page_bounds page_log 777 asked 2 page_log-IsKeyed (omega arith)

-- The member has read all that it may read of the busy room.
abbrev caught_up : List (ℕ × ℕ)
caught_up = (21, 3) ∷ []

nothing_picked : picked_rows (fair_log_page page_log 777 caught_up 2).0 ≡ 0
unfolding fair_log_page sort_by
nothing_picked = refl

fair_log_page_progress_example :
    All
      (λ m. (start : ℕ) × ((m.gid, start) ∈ caught_up) × (log_above page_log 777 m.gid start ≡ []))
      (fair_log_page page_log 777 caught_up 2).0
fair_log_page_progress_example =
    fair_log_page_progress page_log 777 caught_up 2 page_log-IsKeyed (omega arith) nothing_picked

served_page-ends_example :
    take_turn page_log 777 (chunk_of 2 (length asked)) (served_page page_log 777 asked 2) ≡ none
served_page-ends_example = served_page-ends page_log 777 asked 2
