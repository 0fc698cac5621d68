-- ===== src/Posting/SlowWhole.antt =====
-- Whole albums under `_enforce_group_slowmode` (app/routers/messages.py).
use rcq_server_ref.RateLimit.Buckets.{tick}
use rcq_server_ref.Posting.SlowAlbum.{
  HasCounter, IsItem, counter_at, album_key, ride_album-later, slow_mode-ride_album,
  ride_album-first,
}
use rcq_server_ref.Posting.SlowSpent.{let_in}
use rcq_server_ref.Posting.SlowRun.{serve_posts, enforced_slowed}
use rcq_server_ref.Posting.AgeGate.{Group, GroupMember}
use rcq_server_ref.Posting.SlowMode.{
  bought, Post, Slots, is_slowed, enforce_group_slowmode, batch_grace_sec, ride_album,
}
use native.Mathlib.Numerals.{add-one}
use rcq_server_ref.Base.{
  [], ◌∷◌, String, List, ℕ, ◌≡◌, true, same_text, false, ◌≤◌, All, ◌<◌, length, none, ◌+◌, some,
  ◌*◌, arith, refl, suc, subst,
}

module _ (bucket_name : String → String) (g : Group) (members : List GroupMember) (caller : ℕ)
    (batch : String) (size : ℕ) where
  items_ride :
      (until : ℕ) (start : Slots) (posts : List Post)
      → is_slowed g members caller "message" ≡ true
      → same_text batch "" ≡ false
      → 2 ≤ size
      → HasCounter bucket_name g caller batch size start 1 until
      → All (IsItem batch size) posts
      → All (λ q. q.now < until) posts
      → length posts + 1 ≤ 2 * size
      → let (s, n, slots) = serve_posts bucket_name g members caller start posts in
        (n ≡ length posts) × HasCounter bucket_name g caller batch size s (suc (length posts)) until
  unfolding serve_posts let_in
  items_ride until start [] h e two c a t l = (refl, c)
  items_ride until start (q ∷ earlier) h e two c ((qb, qz, qc, qi), a) (tq, t) l =
      let (n, k) = items_ride until start earlier h e two c a t (omega arith) in
      let s = (serve_posts bucket_name g members caller start earlier).0 in
      let (r, d) =
        ride_album-later bucket_name g caller batch size q s (suc (length earlier)) until k
          (omega arith) (omega arith) tq in
      rw
        (
          enforced_slowed bucket_name g members caller q s h,
          slow_mode-ride_album bucket_name g caller batch size q s e two (qb, qz, qc, qi),
          r,
        )
        (
          omega arith,
          subst
              (λ n.
                HasCounter bucket_name g caller batch size
                  (ride_album bucket_name g caller q (album_key bucket_name g caller batch size)
                    s).0
                  n until)
              (add-one (suc (length earlier))) d,
        )

  -- An album goes through whole: once the first item of a new token has bought the slot, all that
  -- follow on the token within five minutes go through, on either endpoint, up to twice the declared
  -- size with the first one, where Redis answers to `get_redis`, `incr` and the first `expire`.
  pub album_whole :
      (p : Post) (s : Slots) (posts : List Post)
      → is_slowed g members caller "message" ≡ true
      → same_text batch "" ≡ false
      → 2 ≤ size
      → IsItem batch size p
      → p.answers.expires ≡ true
      → counter_at (album_key bucket_name g caller batch size) s.albums ≡ none
      → (enforce_group_slowmode bucket_name (some g) members (some caller) "message" p s).1 ≡ bought
      → All (IsItem batch size) posts
      → All (λ q. q.now < p.now + batch_grace_sec * tick) posts
      → length posts + 1 ≤ 2 * size
      → (serve_posts bucket_name g members caller
          (enforce_group_slowmode bucket_name (some g) members (some caller) "message" p s).0
          posts).1
        ≡ length posts
  album_whole p s posts h e two i x new b a t l =
      let w = enforced_slowed bucket_name g members caller p s h in
      let r = slow_mode-ride_album bucket_name g caller batch size p s e two i in
      (items_ride (p.now + batch_grace_sec * tick) _ posts h e two
        (rw (w, r) (ride_album-first bucket_name g caller batch size p s new x (rw (w, r) at b))) a
        t l).0
