-- ===== src/Posting/SlowTests.antt =====
-- Runs of the slow mode.
use rcq_server_ref.Posting.SlowWhole.{album_whole}
use rcq_server_ref.Posting.SlowRun.{serve_posts, slow_mode_bound}
use rcq_server_ref.Posting.SlowAlbum.{counter_at}
use rcq_server_ref.Posting.SlowSpent.{left}
use rcq_server_ref.RateLimit.Limits.{too_many}
use rcq_server_ref.Posting.SlowKeys.{PostPath, by_broadcast, by_sealed}
use rcq_server_ref.RateLimit.Buckets.{no_bucket, no_counter, tick}
use rcq_server_ref.Posting.SlowMode.{
  Answered, Slots, enforce_group_slowmode, Post, End, turned_away, freed, exempt, rode, bought,
  is_slowed,
}
use rcq_server_ref.Posting.AgeGate.{Group, GroupMember}
use rcq_server_ref.Base.{
  String, List, ℕ, true, false, ◌*◌, ◌∷◌, none, [], some, ◌≡◌, refl, ◌≤◌, arith,
}

abbrev plain : String → String
plain text = text

abbrev slow_room : Group
slow_room = record { id = 21; owner_uin = 5; min_account_age_hours = 0; slowmode_sec = 60 }

abbrev crew : List GroupMember
crew =
    record { group_id = 21; uin = 777; role = "member"; has_caps = false; joined_at = none }
    ∷ record { group_id = 21; uin = 8; role = "admin"; has_caps = false; joined_at = none }
    ∷ []

abbrev sound : Answered
sound = record {
  connects = true;
  increments = true;
  expires = true;
  limits = true;
  deletes = true;
  sets = true;
  takes = true;
}

abbrev fresh : Slots
fresh = record {
  limiter = record {
    buckets = λ key. no_bucket;
    counters = λ key. no_counter;
    redis_up = true;
    local = [];
  };
  albums = [];
  passes = [];
}

abbrev item : ℕ → PostPath → Answered → Post
item second path answers = record {
  now = second * tick;
  path = path;
  batch = some "album";
  batch_size = 2;
  answers = answers;
}

abbrev single : ℕ → PostPath → Post
single second path = record {
  now = second * tick;
  path = path;
  batch = none;
  batch_size = 1;
  answers = sound;
}

-- How each of a member's posts ends, the oldest last.
ends_of : ℕ → List Post → Slots × List End
ends_of caller [] = (fresh, [])
ends_of caller (p ∷ earlier) =
    let (s, ends) = ends_of caller earlier in
    let (s', e) = enforce_group_slowmode plain (some slow_room) crew (some caller) "message" p s in
    (s', e ∷ ends)

-- The second half of a dual-send goes with the first, a second message does not.
dual_send :
    (ends_of 777 (single 102 by_broadcast ∷ single 101 by_sealed ∷ single 100 by_broadcast ∷ [])).1
    ≡ turned_away (too_many "rate_limited" 59) ∷ freed ∷ bought ∷ []
unfolding ends_of enforce_group_slowmode
dual_send = refl

album :
    (ends_of 777 (
      item 104 by_broadcast sound
      ∷ item 103 by_broadcast sound
      ∷ item 102 by_sealed sound
      ∷ item 101 by_broadcast sound
      ∷ item 100 by_sealed sound
      ∷ [])).1
    ≡ freed ∷ rode ∷ rode ∷ rode ∷ bought ∷ []
unfolding ends_of enforce_group_slowmode
album = refl

admins_write :
    (ends_of 8 (single 101 by_sealed ∷ single 100 by_sealed ∷ [])).1 ≡ exempt ∷ exempt ∷ []
unfolding ends_of enforce_group_slowmode
admins_write = refl

-- An album whose first item the limiter refuses is refused whole.
refused_whole :
    (ends_of 777
      (item 103 by_sealed sound ∷ item 102 by_sealed sound ∷ single 100 by_sealed ∷ [])).1
    ≡ turned_away (too_many "rate_limited" 58)
      ∷ turned_away (too_many "rate_limited" 59)
      ∷ bought
      ∷ []
unfolding ends_of enforce_group_slowmode
refused_whole = refl

-- With no answer to `expire`, the refused first item leaves its token armed.
unpaid_album :
    (ends_of 777 (
      item 103 by_sealed sound
      ∷ item 102 by_sealed (record sound { expires = false })
      ∷ single 100 by_sealed
      ∷ [])).1
    ≡ rode ∷ turned_away (too_many "rate_limited" 59) ∷ bought ∷ []
unfolding ends_of enforce_group_slowmode
unpaid_album = refl

abbrev album_run : List Post
album_run =
    single 170 by_broadcast
    ∷ item 102 by_broadcast sound
    ∷ item 101 by_broadcast sound
    ∷ item 100 by_sealed sound
    ∷ []

slow_mode_bound_example : (serve_posts plain slow_room crew 777 fresh album_run).1 ≤ 21 * 2
unfolding is_slowed left
slow_mode_bound_example =
    slow_mode_bound plain slow_room crew 777 (100 * tick) 2 fresh album_run refl refl refl
      (
        (omega arith, refl, refl),
        ((omega arith, refl, refl), ((omega arith, refl, refl), ((omega arith, refl, refl), tt))),
      )
      (refl, (refl, (refl, (refl, tt)))) (omega arith) (omega arith) (omega arith)

album_whole_example :
    (serve_posts plain slow_room crew 777
      (enforce_group_slowmode plain
        (some slow_room)
        crew
        (some 777)
        "message"
        (item 100 by_sealed sound)
        fresh).0
      (item 103 by_broadcast sound ∷ item 102 by_sealed sound ∷ item 101 by_broadcast sound ∷ [])).1
    ≡ 3
unfolding is_slowed enforce_group_slowmode counter_at
album_whole_example =
    album_whole plain slow_room crew 777 "album" 2 (item 100 by_sealed sound) fresh
      (item 103 by_broadcast sound ∷ item 102 by_sealed sound ∷ item 101 by_broadcast sound ∷ [])
      refl refl (omega arith) (refl, refl, refl, refl) refl refl refl
      ((refl, refl, refl, refl), ((refl, refl, refl, refl), ((refl, refl, refl, refl), tt)))
      (omega arith) (omega arith)
