-- ===== src/RoomLog/Tests.antt =====
-- Runs of the room log, and the theorems at them.
use rcq_server_ref.RoomLog.Acked.{ack_reaches}
use rcq_server_ref.RoomLog.Cursors.{GroupLogReader, GroupLogCursor, is_log_key}
use rcq_server_ref.RoomLog.Forward.{HasReached}
use rcq_server_ref.RoomLog.Readers.{log_readers, mark_reader}
use rcq_server_ref.Queue.Tables.{QueueCursor}
use rcq_server_ref.RoomLog.Ack.{LogDb, GroupLogAckRoomIn, ack_group_log}
use rcq_server_ref.RoomLog.Counters.{next_mailbox_seq, next_group_seq, Seq, range_from, room_head}
use rcq_server_ref.RoomLog.Numbers.{number_posts, number_posts-range}
use rcq_server_ref.Base.{ℕ, List, String, [], none, ◌∷◌, ◌≡◌, refl, inr, inl}

-- Room 21 takes one number, then two, with a post into room 9 between.
abbrev posts : List (ℕ × ℕ)
posts = (21, 2) ∷ (9, 5) ∷ (21, 1) ∷ []

numbered : (number_posts 21 posts).1 ≡ 1 ∷ 2 ∷ 3 ∷ []
unfolding number_posts
numbered = refl

mailbox : (next_mailbox_seq 777 (next_mailbox_seq 777 []).0).1 ≡ 2
unfolding next_mailbox_seq
mailbox = refl

one_post : (next_group_seq 21 (number_posts 21 posts).0).1 ≡ 4
unfolding next_group_seq number_posts
one_post = refl

abbrev account : ℕ
account = 777

abbrev reader : ℕ → String → GroupLogReader
reader uin device_id = record { uin = uin; device_id = device_id; first_seen = 5; last_seen = 6 }

abbrev log_cursor : ℕ → String → ℕ → GroupLogCursor
log_cursor group_id device_id last_seq = record {
  group_id = group_id;
  uin = 777;
  device_id = device_id;
  last_seq = last_seq;
  updated_at = 7;
}

abbrev log : LogDb
log = record {
  cursors = log_cursor 21 "phone" 4 ∷ log_cursor 21 "web" 2 ∷ log_cursor 9 "phone" 8 ∷ [];
  readers = reader 777 "phone" ∷ reader 777 "web" ∷ [];
}

abbrev room : ℕ → ℕ → GroupLogAckRoomIn
room gid upto = record { gid = gid; upto = upto }

-- One room moves, one ack is stale, and one room is new.
moved_two : (ack_group_log 50 (room 21 6 ∷ room 9 3 ∷ room 30 2 ∷ []) 777 "phone" log).1 ≡ 2
unfolding ack_group_log is_log_key
moved_two = refl

abbrev old_desktop : QueueCursor
old_desktop = record {
  uin = 777;
  device_id = "desktop";
  last_direct_id = 0;
  last_group_id = 0;
  updated_at = none;
}

still_blocked : log_readers log.readers (old_desktop ∷ []) (777 ∷ []) ≡ []
unfolding log_readers
still_blocked = refl

unblocked :
    log_readers (mark_reader 9 777 "desktop" log.readers) (old_desktop ∷ []) (777 ∷ 8 ∷ [])
    ≡ 777 ∷ []
unfolding log_readers mark_reader
unblocked = refl

number_posts-range_example :
    (number_posts 21 posts).1 ≡ range_from 1 (room_head 21 (number_posts 21 posts).0)
number_posts-range_example = number_posts-range 21 posts

ack_reaches_example :
    HasReached 30 777 "phone" 2
      (ack_group_log 50 (room 21 6 ∷ room 9 3 ∷ room 30 2 ∷ []) 777 "phone" log).0.cursors
ack_reaches_example =
    ack_reaches 50 777 "phone" (room 21 6 ∷ room 9 3 ∷ room 30 2 ∷ []) log (room 30 2)
      (inr (inr (inl refl)))

abbrev room_counters : List Seq
room_counters = record { key = 30; next_seq = 12 } ∷ []
