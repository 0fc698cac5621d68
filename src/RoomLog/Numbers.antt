-- ===== src/RoomLog/Numbers.antt =====
-- The numbers that the counters of app/routers/messages.py give out.
use rcq_server_ref.RoomLog.Counters.{room_head, range_from, next_group_seqs, bump, Seq}
use rcq_server_ref.Base.{
  ℕ, arith, List, ◌+◌, ◌≡◌, ◌∷◌, ◌≢◌, ◌++◌, suc, if◌then◌else◌, [], ◌==◌, zero, ap, Bool-cases, inl,
  refl, inr, false,
}

room_head-bump :
    (key n : ℕ) (rows : List Seq) → room_head key (bump key n rows) ≡ room_head key rows + n
unfolding room_head bump
room_head-bump key n [] = ground arith
room_head-bump key n (r ∷ rows) = ground (arith, room_head-bump key n rows)

room_head-bump_other :
    (key other n : ℕ) (rows : List Seq)
    → other ≢ key
    → room_head other (bump key n rows) ≡ room_head other rows
unfolding room_head bump
room_head-bump_other key other n [] h = ground arith
room_head-bump_other key other n (r ∷ rows) h =
    ground (arith, room_head-bump_other key other n rows h)

range_from-append :
    (first a b : ℕ) → range_from first (a + b) ≡ range_from first a ++ range_from (first + a) b
unfolding range_from
range_from-append first zero b =
    let p : 0 + b ≡ b = omega arith in let q : first + 0 ≡ first = omega arith in rw (p, q) refl
range_from-append first (suc a) b =
    let p : suc a + b ≡ suc (a + b) = omega arith in
    let q : first + suc a ≡ suc first + a = omega arith in
    rw (p, q) (ap (λ (xs : List ℕ). first ∷ xs) (range_from-append (suc first) a b))

next_group_seqs-room_head :
    (group_id count : ℕ) (rows : List Seq)
    → room_head group_id (next_group_seqs group_id count rows).0 ≡ room_head group_id rows + count
unfolding next_group_seqs
next_group_seqs-room_head group_id count rows = ground (arith, room_head-bump group_id count rows)

next_group_seqs_other :
    (group_id room count : ℕ) (rows : List Seq)
    → room ≢ group_id
    → room_head room (next_group_seqs group_id count rows).0 ≡ room_head room rows
unfolding next_group_seqs
next_group_seqs_other group_id room count rows h =
    ground (arith, room_head-bump_other group_id room count rows h)

next_group_seqs-block :
    (group_id count : ℕ) (rows : List Seq)
    → (next_group_seqs group_id count rows).1 ≡ range_from (1 + room_head group_id rows) count
unfolding next_group_seqs range_from
next_group_seqs-block group_id zero rows = refl
next_group_seqs-block group_id (suc n) rows =
    let some_asked : (suc n == 0) ≡ false = ground arith in
    rw some_asked
      (ap (λ (k : ℕ). range_from k (suc n)) (omega (arith, room_head-bump group_id (suc n) rows)))

-- Posts into any rooms, the newest first, each a room and how many numbers it takes: the counters,
-- and the numbers that one room has got, in order.
unfoldable pub number_posts : ℕ → List (ℕ × ℕ) → List Seq × List ℕ
unfolding next_group_seqs
number_posts room [] = ([], [])
number_posts room ((group_id, count) ∷ earlier) =
    let (rows, numbers) = number_posts room earlier in
    let (rows', block) = next_group_seqs group_id count rows in
    (rows', if group_id == room then numbers ++ block else numbers)

-- A room numbers its posts 1, 2, 3 and so on to its head, with no gap and no number twice, whatever
-- blocks are taken and whatever other rooms do in between.
pub number_posts-range :
    (room : ℕ) (posts : List (ℕ × ℕ))
    → (number_posts room posts).1 ≡ range_from 1 (room_head room (number_posts room posts).0)
unfolding number_posts
number_posts-range room [] = refl
number_posts-range room ((group_id, count) ∷ earlier) =
    let ih = number_posts-range room earlier in
    let rows = (number_posts room earlier).0 in
    elim (Bool-cases (group_id == room)) [
      | inl e ↦
          let same : group_id ≡ room = ground arith in
          rw (e, same, next_group_seqs-block, next_group_seqs-room_head, range_from-append)
            (ap (λ (xs : List ℕ). xs ++ range_from (1 + room_head room rows) count) ih)
      | inr e ↦ rw (e, next_group_seqs_other group_id room count rows (ground arith)) ih
    ]
