-- ===== src/Posting/SlowSpent.antt =====
-- One post under the slow mode (app/routers/messages.py) lets through what its keys had left and, if
-- it buys a slot, twenty-one posts.
use rcq_server_ref.RateLimit.Buckets.{tick}
use rcq_server_ref.Posting.SlowKeys.{
  slowmode_free_key, other_path, is_armed, delete, incr, expire, slowmode_batch_key,
}
use rcq_server_ref.RateLimit.Limits.{Reply, pass, crash, too_many, unavailable}
use rcq_server_ref.Posting.AgeGate.{Group}
use rcq_server_ref.Base.{
  ℕ, String, ◌+◌, length, ◌≤◌, arith, Bool, ◌*◌, ◌≡◌, refl, false, true, Option, none, ◌==◌, leb,
  some, if◌then◌else◌, same_text, ◌||◌, holds_if,
}
use rcq_server_ref.Posting.SlowMode.{
  End, exempt, rode, freed, bought, ended, Slots, turned_away, Post, buy, arm_other, buy_slot,
  take_pass, first_item, ride_album, slow_mode, disarm, batch_grace_sec,
}
use rcq_server_ref.Posting.SlowCount.{
  items_left, length-delete, length-delete_armed, items_left-incr, items_left_disarmed,
  items_left-expire,
}

-- What the album counters and the free passes still let through.
unfoldable pub left : Slots → ℕ
unfolding items_left
left s = items_left s.albums + length s.passes

unfoldable pub let_in : End → ℕ
let_in exempt = 1
let_in rode = 1
let_in freed = 1
let_in bought = 1
let_in (turned_away reply) = 0

unfoldable pub slots_bought : End → ℕ
slots_bought exempt = 0
slots_bought rode = 0
slots_bought freed = 0
slots_bought bought = 1
slots_bought (turned_away reply) = 0

abbrev pub Spends : ℕ → Slots × End → Type 0
Spends before r = let_in r.1 + left r.0 ≤ before + 21 * slots_bought r.1

Spends-from : (a b : ℕ) (r : Slots × End) → a ≤ b → Spends a r → Spends b r
Spends-from a b r l h = omega arith

ended-Spends :
    (r : Slots × Reply) (arm undo : Slots → Slots) (before : ℕ)
    → left (arm r.0) ≤ before + 20
    → left (undo r.0) ≤ before
    → Spends before (ended r arm undo)
unfolding ended let_in slots_bought
ended-Spends (s, pass) arm undo before a u = omega arith
ended-Spends (s, too_many code retry) arm undo before a u = omega arith
ended-Spends (s, unavailable code retry) arm undo before a u = omega arith
ended-Spends (s, crash) arm undo before a u = omega arith

module _ (bucket_name : String → String) (g : Group) (caller : ℕ) (p : Post) where
  left-buy : (s : Slots) → left (buy bucket_name g caller p s).0 ≡ left s
  unfolding buy left
  left-buy s = refl

  left-arm_other : (s : Slots) → left (arm_other bucket_name g caller p s) ≤ left s + 1
  unfolding arm_other left
  left-arm_other s = ground (
    arith,
    length-delete (slowmode_free_key bucket_name (other_path p.path) g.id caller) s.passes,
  )

  left-delete :
      (s : Slots) (key : String) → left (record s { passes = delete key s.passes }) ≤ left s
  unfolding left
  left-delete s key = omega (arith, length-delete key s.passes)

  ride_free :
      (s : Slots) (key : String)
      → is_armed p.now key s.passes ≡ true
      → Spends (left s) (record s { passes = delete key s.passes }, freed)
  unfolding left let_in slots_bought
  ride_free s key a = omega (arith, length-delete_armed p.now key s.passes a)

  buy_slot-Spends :
      (connected : Bool) (s : Slots) → Spends (left s) (buy_slot bucket_name g caller p connected s)
  unfolding buy_slot
  buy_slot-Spends connected s =
      ended-Spends (buy bucket_name g caller p s) _ _ (left s)
        (ground (arith, left-buy s, left-arm_other (buy bucket_name g caller p s).0))
        (omega (arith, left-buy s))

  take_pass-Spends : (s : Slots) → Spends (left s) (take_pass bucket_name g caller p s)
  unfolding take_pass
  take_pass-Spends s =
      let key = slowmode_free_key bucket_name p.path g.id caller in
      holds_if (Spends (left s)) p.answers.takes _ _
        (λ y.
          holds_if (Spends (left s)) (is_armed p.now key s.passes) _ _ (ride_free s key)
            (λ n. Spends-from _ _ _ (left-delete s key) (buy_slot-Spends true _)))
        (λ n. buy_slot-Spends false s)

  -- An album whose first item has just been counted.
  abbrev first_counted : String → Slots → Slots
  first_counted key s = record s {
    albums = expire key (p.now + batch_grace_sec * tick) (incr p.now key s.albums).0;
  }

  left-first_counted : (key : String) (s : Slots) → left (first_counted key s) ≤ left s + 19
  unfolding left
  left-first_counted key s =
      let (n, a, b, d) = items_left-incr p.now key s.albums in
      omega
        (arith, items_left-expire key (p.now + batch_grace_sec * tick) (incr p.now key s.albums).0)

  left_disarmed :
      (key : String) (s : Slots)
      → left (record s { albums = delete key (first_counted key s).albums }) ≤ left s
  unfolding left
  left_disarmed key s =
      omega (arith, items_left_disarmed p.now key (p.now + batch_grace_sec * tick) s.albums)

  left-disarm :
      (key : String) (s : Slots)
      → p.answers.deletes ≡ true
      → left
          (disarm bucket_name g caller p key (buy bucket_name g caller p (first_counted key s)).0)
        ≤ left s
  unfolding disarm left buy
  left-disarm key s d = simp (d) (left_disarmed key s)

  first_item-Spends :
      (key : String) (s : Slots)
      → p.answers.expires ≡ true
      → p.answers.deletes ≡ true
      → Spends (left s) (
          first_item bucket_name g caller p key (record s { albums = (incr p.now key s.albums).0 }))
  unfolding first_item
  first_item-Spends key s e d =
      holds_if (Spends (left s)) p.answers.expires _ _
        (λ y.
          ended-Spends (buy bucket_name g caller p (first_counted key s)) _ _ (left s)
            (omega (
              arith,
              left-arm_other (buy bucket_name g caller p (first_counted key s)).0,
              left-buy (first_counted key s),
              left-first_counted key s,
            ))
            (left-disarm key s d))
        (λ n. absurd (cc (e, n)))

  left_later :
      (key : String) (s : Slots)
      → 2 ≤ (incr p.now key s.albums).1
      → left (record s { albums = (incr p.now key s.albums).0 }) ≤ left s
  unfolding left
  left_later key s h = let (n, a, b, d) = items_left-incr p.now key s.albums in omega (arith, b h)

  ride_paid :
      (key : String) (s : Slots)
      → 2 ≤ (incr p.now key s.albums).1
      → (incr p.now key s.albums).1 ≤ 20
      → Spends (left s) (record s { albums = (incr p.now key s.albums).0 }, rode)
  unfolding left let_in slots_bought
  ride_paid key s h l =
      let (n, a, b, d) = items_left-incr p.now key s.albums in omega (arith, d h l)

  ride_album-Spends :
      (key : String) (s : Slots)
      → p.batch_size ≤ 10
      → p.answers.expires ≡ true
      → p.answers.deletes ≡ true
      → Spends (left s) (ride_album bucket_name g caller p key s)
  unfolding ride_album
  ride_album-Spends key s b e d =
      let n = (incr p.now key s.albums).1 in
      holds_if (Spends (left s)) (n == 1) _ _ (λ y. first_item-Spends key s e d)
        (λ later.
          holds_if (Spends (left s)) (leb n (2 * p.batch_size)) _ _
            (λ y.
              ride_paid key s (ground (arith, items_left-incr p.now key s.albums)) (ground arith))
            (λ over.
              Spends-from _ _ _
                (left_later key s (ground (arith, items_left-incr p.now key s.albums)))
                (take_pass-Spends _)))

  pub slow_mode-Spends :
      (s : Slots)
      → p.batch_size ≤ 10
      → p.answers.expires ≡ true
      → p.answers.deletes ≡ true
      → Spends (left s) (slow_mode bucket_name g caller p s)
  unfolding slow_mode
  slow_mode-Spends s b e d =
      holds_if (Spends (left s)) p.answers.connects _ _ (λ y. by_batch p.batch)
        (λ n. buy_slot-Spends false s)
    where
      by_batch :
          (o : Option String)
          → Spends (left s) (elim o [
            | none ↦ take_pass bucket_name g caller p s
            | some batch ↦
                if same_text batch "" || leb p.batch_size 1
                then take_pass bucket_name g caller p s
                else if p.answers.increments
                then ride_album bucket_name g caller p
                    (slowmode_batch_key bucket_name batch g.id caller)
                    s
                else buy_slot bucket_name g caller p false s
          ])
      by_batch none = take_pass-Spends s
      by_batch (some batch) =
          holds_if (Spends (left s)) (same_text batch "" || leb p.batch_size 1) _ _
            (λ y. take_pass-Spends s)
            (λ n.
              holds_if (Spends (left s)) p.answers.increments _ _ (λ y. ride_album-Spends _ s b e d)
                (λ z. buy_slot-Spends false s))
