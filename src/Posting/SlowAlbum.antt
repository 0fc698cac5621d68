-- ===== src/Posting/SlowAlbum.antt =====
-- An album under the slow mode (app/routers/messages.py): once its first item has bought the slot, all
-- the others go through.
use rcq_server_ref.Posting.AgeGate.{Group}
use rcq_server_ref.Posting.SlowMode.{
  bought, rode, ended, Post, Slots, slow_mode, ride_album, first_item, batch_grace_sec, buy,
  arm_other, disarm,
}
use rcq_server_ref.RateLimit.Limits.{Reply, pass, crash, too_many, unavailable}
use rcq_server_ref.RateLimit.LocalWindow.{same_text_refl}
use rcq_server_ref.RateLimit.Buckets.{present_counter, Counter, tick}
use rcq_server_ref.Posting.SlowKeys.{incr, expire, slowmode_batch_key}
use rcq_server_ref.Base.{
  if◌then◌else◌, [], ◌∷◌, none, some, inl, inr, String, List, ℕ, Option, ◌≡◌, ◌<◌, ◌+◌, arith,
  Bool-cases, if◌then◌else◌, same_text, refl, true, false, ◌≤◌, leb, ◌*◌, ◌==◌, ap, ◌∙◌, if_true,
}

unfoldable pub counter_at : String → List (String × Counter) → Option Counter
counter_at key [] = none
counter_at key ((k, c) ∷ albums) = if same_text k key then some c else counter_at key albums

incr-first :
    (now : ℕ) (key : String) (albums : List (String × Counter))
    → counter_at key albums ≡ none
    → (incr now key albums).1 ≡ 1
unfolding incr counter_at
incr-first now key [] h = refl
incr-first now key ((k, c) ∷ albums) h = ground (arith, h, incr-first now key albums)

counter_at-expire :
    (now : ℕ) (key : String) (until : ℕ) (albums : List (String × Counter))
    → counter_at key (expire key until (incr now key albums).0)
      ≡ some (record { used = (incr now key albums).1; expires = some until })
unfolding incr expire counter_at
counter_at-expire now key until [] = rw (same_text_refl key, same_text_refl key) refl
counter_at-expire now key until ((k, c) ∷ albums) =
    ground (arith, counter_at-expire now key until albums)

counter_at-incr :
    (now : ℕ) (key : String) (albums : List (String × Counter)) (used until : ℕ)
    → counter_at key albums ≡ some (record { used = used; expires = some until })
    → now < until
    → (counter_at key (incr now key albums).0
        ≡ some (record { used = used + 1; expires = some until }))
      × ((incr now key albums).1 ≡ used + 1)
unfolding incr counter_at present_counter
counter_at-incr now key [] used until h l = absurd (cc h)
counter_at-incr now key ((k, c) ∷ albums) used until h l = elim (Bool-cases (same_text k key)) [
  | inl e ↦
      (let q : c ≡ record { used = used; expires = some until } = cc (rw e at h) in
        rw (e, q) (ground arith, ground arith))
  | inr e ↦ rw (e, e) (counter_at-incr now key albums used until (rw e at h) l)
]

ended-bought :
    (r : Slots × Reply) (arm undo : Slots → Slots)
    → (ended r arm undo).1 ≡ bought
    → (ended r arm undo).0 ≡ arm r.0
unfolding ended
ended-bought (s, pass) arm undo h = refl
ended-bought (s, too_many code retry) arm undo h = absurd (cc h)
ended-bought (s, unavailable code retry) arm undo h = absurd (cc h)
ended-bought (s, crash) arm undo h = absurd (cc h)

-- An item of the album with the token `batch` and the declared size `size`, at a Redis that answers
-- to `get_redis` and `incr`.
abbrev pub IsItem : String → ℕ → Post → Type 0
IsItem batch size p =
    (p.batch ≡ some batch)
    × (p.batch_size ≡ size)
    × (p.answers.connects ≡ true)
    × (p.answers.increments ≡ true)

module _ (bucket_name : String → String) (g : Group) (caller : ℕ) (batch : String) (size : ℕ) where
  abbrev pub album_key : String
  album_key = slowmode_batch_key bucket_name batch g.id caller

  pub slow_mode-ride_album :
      (p : Post) (s : Slots)
      → same_text batch "" ≡ false
      → 2 ≤ size
      → IsItem batch size p
      → slow_mode bucket_name g caller p s ≡ ride_album bucket_name g caller p album_key s
  unfolding slow_mode
  slow_mode-ride_album p s e two (b, z, c, i) =
      let l : leb size 1 ≡ false = ground arith in simp (b, z, c, i, e, l) refl

  abbrev pub HasCounter : Slots → ℕ → ℕ → Type 0
  HasCounter s used until =
      counter_at album_key s.albums ≡ some (record { used = used; expires = some until })

  -- The keys of an album whose first item has been counted and given its time.
  timed : Post → Slots → Slots
  timed p s = record s { albums = expire album_key (p.now + batch_grace_sec * tick) s.albums }

  first_item-ended :
      (p : Post) (s : Slots)
      → p.answers.expires ≡ true
      → first_item bucket_name g caller p album_key s
        ≡ ended
            (buy bucket_name g caller p (timed p s))
            (arm_other bucket_name g caller p)
            (disarm bucket_name g caller p album_key)
  unfolding first_item timed
  first_item-ended p s e = if_true _ _ _ e

  arm_other-albums : (p : Post) (s : Slots) → (arm_other bucket_name g caller p s).albums ≡ s.albums
  unfolding arm_other
  arm_other-albums p s = ground arith

  buy-albums :
      (p : Post) (s : Slots)
      → (buy bucket_name g caller p (timed p s)).0.albums
        ≡ expire album_key (p.now + batch_grace_sec * tick) s.albums
  unfolding buy timed
  buy-albums p s = refl

  first_item-albums :
      (p : Post) (s : Slots)
      → p.answers.expires ≡ true
      → (first_item bucket_name g caller p album_key s).1 ≡ bought
      → (first_item bucket_name g caller p album_key s).0.albums
        ≡ expire album_key (p.now + batch_grace_sec * tick) s.albums
  first_item-albums p s e b =
      let q = first_item-ended p s e in
      rw q (
        rw (ended-bought (buy bucket_name g caller p (timed p s)) _ _ (rw q at b))
          (arm_other-albums p (buy bucket_name g caller p (timed p s)).0 ∙ buy-albums p s))

  pub ride_album-first :
      (p : Post) (s : Slots)
      → counter_at album_key s.albums ≡ none
      → p.answers.expires ≡ true
      → (ride_album bucket_name g caller p album_key s).1 ≡ bought
      → HasCounter
          (ride_album bucket_name g caller p album_key s).0
          1
          (p.now + batch_grace_sec * tick)
  unfolding ride_album
  ride_album-first p s new e b =
      let t : Slots = record s { albums = (incr p.now album_key s.albums).0 } in
      let one = incr-first p.now album_key s.albums new in
      let first : ((incr p.now album_key s.albums).1 == 1) ≡ true = ground (arith, one) in
      rw first (
        ap (counter_at album_key) (first_item-albums p t e (rw first at b))
        ∙ counter_at-expire p.now album_key (p.now + batch_grace_sec * tick) s.albums
        ∙ ap (λ n. some (record { used = n; expires = some (p.now + batch_grace_sec * tick) })) one)

  pub ride_album-later :
      (p : Post) (s : Slots) (used until : ℕ)
      → HasCounter s used until
      → 1 ≤ used
      → used + 1 ≤ 2 * p.batch_size
      → p.now < until
      → let (s', e) = ride_album bucket_name g caller p album_key s in
        (e ≡ rode) × HasCounter s' (used + 1) until
  unfolding ride_album
  ride_album-later p s used until h one within l =
      let (c, n) = counter_at-incr p.now album_key s.albums used until h l in
      let a : ((incr p.now album_key s.albums).1 == 1) ≡ false = ground (arith, n) in
      let b : leb (incr p.now album_key s.albums).1 (2 * p.batch_size) ≡ true = ground (arith, n) in
      rw (a, b) (refl, c)
