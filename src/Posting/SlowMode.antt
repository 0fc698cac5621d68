-- ===== src/Posting/SlowMode.antt =====
-- `_enforce_group_slowmode` of app/routers/messages.py, with its keys in Redis. A time is a whole
-- number of microseconds; the HMAC of `bucket_name` is a parameter.
use rcq_server_ref.RateLimit.Buckets.{Counter, tick}
use rcq_server_ref.Posting.SlowKeys.{
  PostPath, slowmode_free_key, delete, expire, incr, slowmode_batch_key, slowmode_identity,
  other_path, is_armed,
}
use rcq_server_ref.Posting.AgeGate.{find_member, Group, GroupMember}
use rcq_server_ref.RateLimit.Limits.{Limiter, Reply, enforce_rate_limit}
use rcq_server_ref.Base.{
  ℕ, Bool, String, Option, List, true, same_text, some, if◌then◌else◌, ◌+◌, ◌||◌, ◌&&◌, none, ◌==◌,
  false, leb, ltb, ◌*◌, not, ◌∷◌,
}

abbrev pub pair_grace_sec : ℕ
pair_grace_sec = 30

abbrev pub batch_grace_sec : ℕ
batch_grace_sec = 300

-- The limiter, the album counters `gslowbatch:` and the free passes `gslowfree:`, by key; a pass has
-- the moment at which Redis drops it.
pub record Slots : Type 0 where
  pub limiter : Limiter
  pub albums : List (String × Counter)
  pub passes : List (String × ℕ)

-- Which calls of Redis answer during one post: `get_redis`, `incr`, `expire`, the script of the
-- limiter, `delete`, `set` and `getdel`. One that does not answer changes nothing.
pub record Answered : Type 0 where
  pub connects : Bool
  pub increments : Bool
  pub expires : Bool
  pub limits : Bool
  pub deletes : Bool
  pub sets : Bool
  pub takes : Bool

-- How the function ends: at one of its returns (no slow mode for this post, an item of a paid
-- album, a free pass, a slot bought), or with what the limiter raises.
pub data End : Type 0 where
  exempt : End
  rode : End
  freed : End
  bought : End
  turned_away : Reply → End

-- What the post is: the moment, the endpoint, the album's token and its declared size.
pub record Post : Type 0 where
  pub now : ℕ
  pub path : PostPath
  pub batch : Option String
  pub batch_size : ℕ
  pub answers : Answered

-- What follows the call of the limiter, which here answers with a pass or a 429: `arm` after a pass,
-- `undo` before the error goes on.
unfoldable pub ended : Slots × Reply → (Slots → Slots) → (Slots → Slots) → Slots × End
ended (s, Reply.pass) arm undo = (arm s, bought)
ended (s, Reply.too_many code retry) arm undo = (undo s, turned_away (Reply.too_many code retry))
ended (s, Reply.unavailable code retry) arm undo =
    (undo s, turned_away (Reply.unavailable code retry))
ended (s, Reply.crash) arm undo = (undo s, turned_away Reply.crash)

module _ (bucket_name : String → String) (g : Group) (caller : ℕ) (p : Post) where
  unfoldable pub buy : Slots → Slots × Reply
  unfolding enforce_rate_limit slowmode_identity
  buy s =
      let (limiter, reply) =
        enforce_rate_limit bucket_name p.now (slowmode_identity g.id caller) "group_slowmode" 1
          g.slowmode_sec false (record s.limiter { redis_up = p.answers.limits }) in
      (record s { limiter = limiter }, reply)

  unfoldable pub arm_other : Slots → Slots
  unfolding slowmode_free_key delete
  arm_other s =
      let key = slowmode_free_key bucket_name (other_path p.path) g.id caller in
      if p.answers.sets
      then record s { passes = (key, p.now + pair_grace_sec * tick) ∷ delete key s.passes }
      else s

  -- The end of the function; `connected` says that `redis` is not None.
  unfoldable pub buy_slot : Bool → Slots → Slots × End
  unfolding ended buy arm_other
  buy_slot connected s = ended (buy s) (λ t. if connected then arm_other t else t) (λ t. t)

  unfoldable pub take_pass : Slots → Slots × End
  unfolding slowmode_free_key delete is_armed buy_slot
  take_pass s =
      let key = slowmode_free_key bucket_name p.path g.id caller in
      if p.answers.takes
      then (let t : Slots = record s { passes = delete key s.passes } in
          if is_armed p.now key s.passes then (t, freed) else buy_slot true t)
      else buy_slot false s

  unfoldable pub disarm : String → Slots → Slots
  unfolding delete
  disarm key s = if p.answers.deletes then record s { albums = delete key s.albums } else s

  unfoldable pub first_item : String → Slots → Slots × End
  unfolding ended buy arm_other disarm expire buy_slot
  first_item key s =
      if p.answers.expires
      then ended (buy (record s { albums = expire key (p.now + batch_grace_sec * tick) s.albums }))
          arm_other (disarm key)
      else buy_slot false s

  unfoldable pub ride_album : String → Slots → Slots × End
  unfolding incr first_item take_pass
  ride_album key s =
      let (albums, n) = incr p.now key s.albums in
      let t : Slots = record s { albums = albums } in
      if n == 1
      then first_item key t
      else if leb n (2 * p.batch_size)
      then (t, rode)
      else take_pass t

  unfoldable pub slow_mode : Slots → Slots × End
  unfolding slowmode_batch_key buy_slot ride_album take_pass
  slow_mode s =
      if p.answers.connects
      then elim p.batch [
        | none ↦ take_pass s
        | some batch ↦
            if same_text batch "" || leb p.batch_size 1
            then take_pass s
            else if p.answers.increments
            then ride_album (slowmode_batch_key bucket_name batch g.id caller) s
            else buy_slot false s
      ]
      else buy_slot false s

abbrev pub is_moderator : Option GroupMember → Bool
is_moderator none = true
is_moderator (some m) = same_text m.role "admin" || m.has_caps

-- Whether the function goes past its early returns, for a room that exists and a caller that the
-- request names. Someone who is no member is left to the fan-out budget.
unfoldable pub is_slowed : Group → List GroupMember → ℕ → String → Bool
unfolding find_member
is_slowed g members caller envelope_type =
    same_text envelope_type "message"
    && ltb 0 g.slowmode_sec
    && not (caller == g.owner_uin)
    && not (is_moderator (find_member g.id caller members))

unfoldable pub enforce_group_slowmode :
    (String → String)
    → Option Group
    → List GroupMember
    → Option ℕ
    → String
    → Post
    → Slots
    → Slots × End
unfolding is_slowed slow_mode
enforce_group_slowmode bucket_name none members caller envelope_type p s = (s, exempt)
enforce_group_slowmode bucket_name (some g) members none envelope_type p s = (s, exempt)
enforce_group_slowmode bucket_name (some g) members (some caller) envelope_type p s =
    if is_slowed g members caller envelope_type
    then slow_mode bucket_name g caller p s
    else (s, exempt)
