-- ===== src/Posting/SlowRun.antt =====
-- How many posts `_enforce_group_slowmode` (app/routers/messages.py) lets one member send to a room,
-- over any sequence of posts.
use rcq_server_ref.RateLimit.Window.{Tracks-later}
use rcq_server_ref.Posting.SlowSold.{Sold-SlotTracks, slow_mode-Sold}
use rcq_server_ref.RateLimit.Buckets.{no_bucket, tick}
use rcq_server_ref.Posting.AgeGate.{Group, GroupMember}
use rcq_server_ref.Posting.SlowSpent.{let_in, slots_bought, left, slow_mode-Spends}
use rcq_server_ref.Posting.SlowTracks.{slots_after, slot_key, SlotTracks, IsApart}
use rcq_server_ref.Posting.SlowMode.{
  exempt, rode, freed, bought, turned_away, enforce_group_slowmode, Post, Slots, End, is_slowed,
  slow_mode,
}
use rcq_server_ref.Base.{
  [], ◌∷◌, List, String, All, ◌≤◌, ℕ, ◌≡◌, true, some, length, ◌+◌, arith, if_true, ◌*◌, ◌<◌, suc,
  All-of_mem, All-mem, zero,
}

-- The posts of one member, the newest first: the keys after them, how many went through, and the
-- moments of the slots bought.
unfoldable pub serve_posts :
    (String → String) → Group → List GroupMember → ℕ → Slots → List Post → Slots × ℕ × List ℕ
unfolding enforce_group_slowmode let_in slots_after
serve_posts bucket_name g members caller start [] = (start, 0, [])
serve_posts bucket_name g members caller start (p ∷ earlier) =
    let (s, n, slots) = serve_posts bucket_name g members caller start earlier in
    let (s', e) = enforce_group_slowmode bucket_name (some g) members (some caller) "message" p s in
    (s', let_in e + n, slots_after p.now e slots)

-- The size that the request's model allows, and answers to `expire` and `delete`.
abbrev pub IsSettled : Post → Type 0
IsSettled p = (p.batch_size ≤ 10) × (p.answers.expires ≡ true) × (p.answers.deletes ≡ true)

-- No post reads an earlier clock than the posts before it.
abbrev pub IsInOrder : List Post → Type 0
IsInOrder [] = Unit
IsInOrder (p ∷ earlier) = All (λ q. q.now ≤ p.now) earlier × IsInOrder earlier

length-slots_after :
    (now : ℕ) (e : End) (slots : List ℕ)
    → length (slots_after now e slots) ≡ slots_bought e + length slots
unfolding slots_after slots_bought
length-slots_after now exempt slots = omega arith
length-slots_after now rode slots = omega arith
length-slots_after now freed slots = omega arith
length-slots_after now bought slots = omega arith
length-slots_after now (turned_away reply) slots = omega arith

-- Times a window apart, none before `first`, the newest less than `k` windows after it.
length-IsApart :
    (window first k : ℕ) (slots : List ℕ)
    → IsApart window slots
    → All (λ t. first ≤ t) slots
    → All (λ t. t < first + k * (window * tick)) slots
    → length slots ≤ k
length-IsApart window first k [] a f l = omega arith
length-IsApart window first zero (t ∷ slots) a (f, g) (l, m) = absurd (omega arith)
length-IsApart window first (suc k) (t ∷ slots) (b, a) (f, g) (l, m) = omega (
  arith,
  length-IsApart window first k slots a g (
      All-of_mem _ slots (λ x i.
        let e : suc k * (window * tick) ≡ k * (window * tick) + window * tick = grind arith in
        omega (arith, All-mem _ x slots b i, e))),
)

module _ (bucket_name : String → String) (g : Group) (members : List GroupMember) (caller : ℕ) where
  pub enforced_slowed :
      (p : Post) (s : Slots)
      → is_slowed g members caller "message" ≡ true
      → enforce_group_slowmode bucket_name (some g) members (some caller) "message" p s
        ≡ slow_mode bucket_name g caller p s
  unfolding enforce_group_slowmode
  enforced_slowed p s h = if_true _ _ _ h

  -- Over any posts of a member that the slow mode holds for, those let through and those that the
  -- keys still let through are no more than the keys let through at the start and twenty-one for
  -- each slot bought, where `expire` and `delete` answer.
  pub paid_posts :
      (start : Slots) (posts : List Post)
      → is_slowed g members caller "message" ≡ true
      → All IsSettled posts
      → let (s, n, slots) = serve_posts bucket_name g members caller start posts in
        n + left s ≤ left start + 21 * length slots
  unfolding serve_posts
  paid_posts start [] h a = omega arith
  paid_posts start (p ∷ earlier) h ((b, e, d), a) =
      let (s, n, slots) = serve_posts bucket_name g members caller start earlier in
      rw (enforced_slowed p s h) (
        omega (
          arith,
          paid_posts start earlier h a,
          slow_mode-Spends bucket_name g caller p s b e d,
          length-slots_after p.now (slow_mode bucket_name g caller p s).1 slots,
        ))

  serve_posts-SlotTracks :
      (now : ℕ) (start : Slots) (posts : List Post)
      → is_slowed g members caller "message" ≡ true
      → start.limiter.buckets (slot_key bucket_name g.id caller) ≡ no_bucket
      → All (λ p. p.answers.limits ≡ true) posts
      → All (λ p. p.now ≤ now) posts
      → IsInOrder posts
      → let (s, n, slots) = serve_posts bucket_name g members caller start posts in
        SlotTracks g.slowmode_sec now (s.limiter.buckets (slot_key bucket_name g.id caller)) slots
  unfolding serve_posts
  serve_posts-SlotTracks now start [] h f l t o =
      rw f ((λ x i. absurd i, omega arith, λ x i. absurd i), tt)
  serve_posts-SlotTracks now start (p ∷ earlier) h f (lp, l) (tp, t) (op, o) =
      let (s, n, slots) = serve_posts bucket_name g members caller start earlier in
      let k = serve_posts-SlotTracks p.now start earlier h f l op o in
      let (m, a) =
        Sold-SlotTracks bucket_name g caller p slots _
          (slow_mode-Sold bucket_name g caller p slots s lp k) in
      rw (enforced_slowed p s h) (Tracks-later g.slowmode_sec 1 p.now now _ _ tp m, a)

  -- Where the limiter answers and starts with no slot of the member, any two slots that the posts of
  -- a member that the slow mode holds for buy are at least `slowmode_sec` seconds apart.
  pub slots-IsApart :
      (start : Slots) (posts : List Post)
      → is_slowed g members caller "message" ≡ true
      → start.limiter.buckets (slot_key bucket_name g.id caller) ≡ no_bucket
      → All (λ p. p.answers.limits ≡ true) posts
      → IsInOrder posts
      → IsApart g.slowmode_sec (serve_posts bucket_name g members caller start posts).2
  unfolding serve_posts
  slots-IsApart start [] h f l o = tt
  slots-IsApart start (p ∷ earlier) h f l (a, o) =
      (serve_posts-SlotTracks p.now start (p ∷ earlier) h f l (omega arith, a) (a, o)).1

  slots-All :
      (P : ℕ → Type 0) (start : Slots) (posts : List Post)
      → is_slowed g members caller "message" ≡ true
      → All (λ p. P p.now) posts
      → All P (serve_posts bucket_name g members caller start posts).2
  unfolding serve_posts
  slots-All P start [] h a = tt
  slots-All P start (p ∷ earlier) h (f, a) =
      let (s, n, slots) = serve_posts bucket_name g members caller start earlier in
      rw (enforced_slowed p s h)
        (within_after (slow_mode bucket_name g caller p s).1 slots (slots-All P start earlier h a))
    where
      within_after : (e : End) (slots : List ℕ) → All P slots → All P (slots_after p.now e slots)
      within_after exempt slots k = k
      within_after rode slots k = k
      within_after freed slots k = k
      within_after bought slots k = (f, k)
      within_after (turned_away reply) slots k = k

  -- However a member that the slow mode holds for posts (single messages, both halves of a dual-send,
  -- albums of at most ten items), no more than twenty-one posts for each `slowmode_sec` go through:
  -- posts from `first` on and within `windows` times that many seconds after it are at most
  -- `21 * windows`, where the keys are empty at first and `expire`, `delete` and the limiter answer.
  pub slow_mode_bound :
      (first windows : ℕ) (start : Slots) (posts : List Post)
      → is_slowed g members caller "message" ≡ true
      → left start ≡ 0
      → start.limiter.buckets (slot_key bucket_name g.id caller) ≡ no_bucket
      → All IsSettled posts
      → All (λ p. p.answers.limits ≡ true) posts
      → IsInOrder posts
      → All (λ p. first ≤ p.now) posts
      → All (λ p. p.now < first + windows * (g.slowmode_sec * tick)) posts
      → (serve_posts bucket_name g members caller start posts).1 ≤ 21 * windows
  slow_mode_bound first windows start posts h e f s l o a b =
      let (t, n, slots) = serve_posts bucket_name g members caller start posts in
      omega (
        arith,
        paid_posts start posts h s,
        length-IsApart g.slowmode_sec first windows
            (serve_posts bucket_name g members caller start posts).2
            (slots-IsApart start posts h f l o) (slots-All (λ t. first ≤ t) start posts h a)
            (slots-All (λ t. t < first + windows * (g.slowmode_sec * tick)) start posts h b),
      )
