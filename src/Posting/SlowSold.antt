-- ===== src/Posting/SlowSold.antt =====
-- One post under the slow mode (app/routers/messages.py) and the bucket of the member's slots, while
-- the limiter answers.
use rcq_server_ref.Posting.SlowKeys.{
  incr, slowmode_batch_key, slowmode_free_key, expire, delete, is_armed,
}
use rcq_server_ref.RateLimit.LocalWindow.{same_text_refl}
use rcq_server_ref.RateLimit.Window.{passed_after}
use rcq_server_ref.RateLimit.Limits.{enforce_rate_limit, limit_key, stored, eval_limiter, reply_of}
use rcq_server_ref.Posting.SlowTracks.{SlotTracks, slot_key, slots_after, slot_script-SlotTracks}
use rcq_server_ref.Posting.AgeGate.{Group}
use rcq_server_ref.Base.{
  false, some, none, Option, String, ℕ, List, Bool, ◌≡◌, if◌then◌else◌, true, arith, refl, holds_if,
  same_text, ◌||◌, ◌==◌, leb, ◌*◌, ◌+◌,
}
use rcq_server_ref.Posting.SlowMode.{
  End, rode, freed, Post, Slots, buy, ended, arm_other, disarm, buy_slot, take_pass, first_item,
  ride_album, slow_mode, batch_grace_sec,
}
use rcq_server_ref.RateLimit.Buckets.{Verdict, accepted, refused, limiter_script, tick}

module _ (bucket_name : String → String) (g : Group) (caller : ℕ) (p : Post) (slots : List ℕ) where
  unfoldable pub Sold : Slots × End → Type 0
  unfolding slots_after
  Sold r =
      SlotTracks g.slowmode_sec p.now (r.0.limiter.buckets (slot_key bucket_name g.id caller))
        (slots_after p.now r.1 slots)

  abbrev pub SlotTracked : Slots → Type 0
  SlotTracked s =
      SlotTracks g.slowmode_sec p.now (s.limiter.buckets (slot_key bucket_name g.id caller)) slots

  sold_to : Slots → Slots
  sold_to s =
      let key = slot_key bucket_name g.id caller in
      record s {
        limiter = record s.limiter {
          redis_up = true;
          buckets =
              stored key (limiter_script p.now g.slowmode_sec 1 (s.limiter.buckets key)).0
                s.limiter.buckets;
        };
      }

  buy_lem :
      (s : Slots)
      → p.answers.limits ≡ true
      → buy bucket_name g caller p s ≡ (
        sold_to s,
        reply_of "rate_limited"
            (limiter_script p.now g.slowmode_sec 1
              (s.limiter.buckets (slot_key bucket_name g.id caller))).1,
      )
  unfolding buy enforce_rate_limit limit_key eval_limiter sold_to
  buy_lem s l = simp (l) refl

  ended-Sold :
      (v : Verdict) (s : Slots) (arm undo : Slots → Slots)
      → (arm s).limiter ≡ s.limiter
      → (undo s).limiter ≡ s.limiter
      → SlotTracks g.slowmode_sec p.now
          (s.limiter.buckets (slot_key bucket_name g.id caller))
          (passed_after p.now v slots)
      → Sold (ended (s, reply_of "rate_limited" v) arm undo)
  unfolding Sold ended
  ended-Sold accepted s arm undo a u h = rw a h
  ended-Sold (refused retry) s arm undo a u h = rw u h

  bought-Sold :
      (s : Slots) (arm undo : Slots → Slots)
      → p.answers.limits ≡ true
      → ((t : Slots) → (arm t).limiter ≡ t.limiter)
      → ((t : Slots) → (undo t).limiter ≡ t.limiter)
      → SlotTracked s
      → Sold (ended (buy bucket_name g caller p s) arm undo)
  unfolding sold_to
  bought-Sold s arm undo l a u h =
      let key = slot_key bucket_name g.id caller in
      rw (buy_lem s l) (
        ended-Sold (limiter_script p.now g.slowmode_sec 1 (s.limiter.buckets key)).1 (sold_to s) arm
          undo (a (sold_to s)) (u (sold_to s))
          (rw (same_text_refl key)
            (slot_script-SlotTracks g.slowmode_sec p.now (s.limiter.buckets key) slots h)))

  arm_other-limiter : (s : Slots) → (arm_other bucket_name g caller p s).limiter ≡ s.limiter
  unfolding arm_other
  arm_other-limiter s = ground arith

  disarm-limiter :
      (key : String) (s : Slots) → (disarm bucket_name g caller p key s).limiter ≡ s.limiter
  unfolding disarm
  disarm-limiter key s = ground arith

  connected-limiter :
      (connected : Bool) (s : Slots)
      → (if connected then arm_other bucket_name g caller p s else s).limiter ≡ s.limiter
  connected-limiter true s = arm_other-limiter s
  connected-limiter false s = refl

  buy_slot-Sold :
      (connected : Bool) (s : Slots)
      → p.answers.limits ≡ true
      → SlotTracked s
      → Sold (buy_slot bucket_name g caller p connected s)
  unfolding buy_slot
  buy_slot-Sold connected s l h = bought-Sold s _ _ l (connected-limiter connected) (λ t. refl) h

  freed-Sold : (s : Slots) → SlotTracked s → Sold (s, freed)
  unfolding Sold
  freed-Sold s h = h

  rode-Sold : (s : Slots) → SlotTracked s → Sold (s, rode)
  unfolding Sold
  rode-Sold s h = h

  take_pass-Sold :
      (s : Slots)
      → p.answers.limits ≡ true
      → SlotTracked s
      → Sold (take_pass bucket_name g caller p s)
  unfolding take_pass
  take_pass-Sold s l h =
      let key = slowmode_free_key bucket_name p.path g.id caller in
      let t : Slots = record s { passes = delete key s.passes } in
      holds_if Sold p.answers.takes _ _
        (λ y.
          holds_if Sold (is_armed p.now key s.passes) _ _ (λ a. freed-Sold t h)
            (λ n. buy_slot-Sold true t l h))
        (λ n. buy_slot-Sold false s l h)

  first_item-Sold :
      (key : String) (s : Slots)
      → p.answers.limits ≡ true
      → SlotTracked s
      → Sold (first_item bucket_name g caller p key s)
  unfolding first_item
  first_item-Sold key s l h =
      holds_if Sold p.answers.expires _ _
        (λ y.
          bought-Sold (record s { albums = expire key (p.now + batch_grace_sec * tick) s.albums }) _
            _ l arm_other-limiter (disarm-limiter key) h)
        (λ n. buy_slot-Sold false s l h)

  ride_album-Sold :
      (key : String) (s : Slots)
      → p.answers.limits ≡ true
      → SlotTracked s
      → Sold (ride_album bucket_name g caller p key s)
  unfolding ride_album
  ride_album-Sold key s l h =
      let n = (incr p.now key s.albums).1 in
      let t : Slots = record s { albums = (incr p.now key s.albums).0 } in
      holds_if Sold (n == 1) _ _ (λ y. first_item-Sold key t l h)
        (λ later.
          holds_if Sold (leb n (2 * p.batch_size)) _ _ (λ y. rode-Sold t h)
            (λ over. take_pass-Sold t l h))

  pub slow_mode-Sold :
      (s : Slots)
      → p.answers.limits ≡ true
      → SlotTracked s
      → Sold (slow_mode bucket_name g caller p s)
  unfolding slow_mode
  slow_mode-Sold s l h =
      holds_if Sold p.answers.connects _ _ (λ y. by_batch p.batch) (λ n. buy_slot-Sold false s l h)
    where
      by_batch :
          (o : Option String)
          → Sold (elim o [
            | none ↦ take_pass bucket_name g caller p s
            | some batch ↦
                if same_text batch "" || leb p.batch_size 1
                then take_pass bucket_name g caller p s
                else if p.answers.increments
                then ride_album bucket_name g caller p
                    (slowmode_batch_key bucket_name batch g.id caller)
                    s
                else buy_slot bucket_name g caller p false s
          ])
      by_batch none = take_pass-Sold s l h
      by_batch (some batch) =
          holds_if Sold (same_text batch "" || leb p.batch_size 1) _ _ (λ y. take_pass-Sold s l h)
            (λ n.
              holds_if Sold p.answers.increments _ _ (λ y. ride_album-Sold _ s l h)
                (λ z. buy_slot-Sold false s l h))

  pub Sold-SlotTracks :
      (r : Slots × End)
      → Sold r
      → SlotTracks g.slowmode_sec p.now
          (r.0.limiter.buckets (slot_key bucket_name g.id caller))
          (slots_after p.now r.1 slots)
  unfolding Sold
  Sold-SlotTracks r h = h
