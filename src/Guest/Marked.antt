-- ===== src/Guest/Marked.antt =====
-- What the requests of app/core/guest_policy.py keep of the guest set: marks, commits and unmarks.
use rcq_server_ref.Base.{
  ℕ, arith, List, Bool, All-mem, some, ◌∷◌, true, false, not, filter, ◌||◌, ltb, ◌==◌, ◌≡◌, ◌≢◌,
  ◌∈◌, ◌⊎◌, inl, inr, ap, subst, ◌≤◌, ◌<◌, ◌+◌, mem-filter, filter-mem, Bool-cases,
}
use rcq_server_ref.Guest.Mirror.{
  Redis, guest_pending_ttl_seconds, without, live_pending, mark_guest, unmark_guest,
}
use rcq_server_ref.Guest.Steps.{World, IsSettled}

mem-without : (u x : ℕ) (us : List ℕ) → u ≢ x → u ∈ us → u ∈ without x us
mem-without u x us ne i = mem-filter (λ (v : ℕ). not (v == x)) u us (ground arith) i

without-mem : (u x : ℕ) (us : List ℕ) → u ∈ without x us → (u ∈ us) × (u ≢ x)
without-mem u x us i = let (j, e) = filter-mem (λ (v : ℕ). not (v == x)) u us i in (j, ground arith)

-- Adding a number keeps the others.
mem-added : (u x : ℕ) (us : List ℕ) → u ∈ us → u ∈ (x ∷ without x us)
mem-added u x us i = elim (Bool-cases (u == x)) [
  | inl e ↦ inl (ground arith)
  | inr e ↦ inr (mem-without u x us (ground arith) i)
]

-- Reads are answered from the set.
abbrev pub IsAnswerable : ℕ → Redis → Type 0
IsAnswerable now r = (ltb now r.loaded_expires || r.built) ≡ true

module _ (commit_within store_within : ℕ) where
  -- Each guest is in the set; a rebuild will not lose one; a mark that waits for its commit is in the
  -- set and in the pending set, which outlives it.
  pub record IsKept (w : World) : Type 0 where
    pub served : IsAnswerable w.now w.redis → (u : ℕ) → u ∈ w.guests → u ∈ w.redis.guest_uins
    pub reads :
        (rows : List ℕ) (at : ℕ)
        → (rows, at) ∈ w.rebuilds
        → w.now ≤ at + store_within
        → (u : ℕ) → u ∈ w.guests
        → (u ∈ rows) ⊎ ((u ∈ w.redis.pending) × (at + store_within < w.redis.pending_expires))
    pub past : (rows : List ℕ) (at : ℕ) → (rows, at) ∈ w.rebuilds → at ≤ w.now
    pub marks :
        (u at : ℕ)
        → (u, at) ∈ w.opening
        → w.now ≤ at + commit_within
        → (u ∈ w.redis.guest_uins)
          × (u ∈ w.redis.pending)
          × (at + guest_pending_ttl_seconds ≤ w.redis.pending_expires)
    pub fresh : w.redis.pending_expires ≤ w.now + guest_pending_ttl_seconds

  pub still_pending :
      (w : World) (u : ℕ)
      → u ∈ w.redis.pending
      → w.now < w.redis.pending_expires
      → u ∈ live_pending w.now w.redis
  unfolding live_pending
  still_pending w u i l = let t : ltb w.now w.redis.pending_expires ≡ true = ground arith in rw t i

  module _ (fits : commit_within + store_within < guest_pending_ttl_seconds) where
    pub wait-IsKept :
        (w : World) (later : ℕ) → w.now ≤ later → IsKept w → IsKept (record w { now = later })
    wait-IsKept w later l h = record {
      served = λ a. h.served (ground arith);
      reads = λ rows at i n. h.reads rows at i (omega arith);
      past = λ rows at i. omega (arith, h.past rows at i);
      marks = λ u at i n. h.marks u at i (omega arith);
      fresh = omega (arith, h.fresh);
    }

    marked_as : {r r' : Redis} → some r ≡ some r' → r ≡ r'
    marked_as e = cc

    pub mark-IsKept :
        (w : World) (up : Bool) (uin : ℕ) (r : Redis)
        → mark_guest up w.now uin w.redis ≡ some r
        → IsKept w
        → IsKept (record w { redis = r; opening = (uin, w.now) ∷ w.opening })
    unfolding mark_guest live_pending
    mark-IsKept w false uin r e h = absurd (cc e)
    mark-IsKept w true uin r e h =
        subst (λ x. IsKept (record w { redis = x; opening = (uin, w.now) ∷ w.opening }))
          (marked_as e)
          (record {
            served = λ a u j. mem-added u uin w.redis.guest_uins (h.served a u j);
            reads = λ rows at i l u j. elim (h.reads rows at i l u j) [
              | inl k ↦ inl k
              | inr (k, x) ↦ inr (
                mem-added u uin (live_pending w.now w.redis) (still_pending w u k (omega arith)),
                omega (arith, h.fresh),
              )
            ];
            past = h.past;
            marks = λ u at i l. elim i [
              | inl q ↦
                  let q0 : u ≡ uin = ap (λ (x : ℕ × ℕ). x.0) q in
                  let q1 : at ≡ w.now = ap (λ (x : ℕ × ℕ). x.1) q in (inl q0, inl q0, omega arith)
              | inr j ↦
                  let (k, p, x) = h.marks u at j l in
                  (
                    mem-added u uin w.redis.guest_uins k,
                    mem-added u uin (live_pending w.now w.redis)
                        (still_pending w u p (omega arith)),
                    omega (arith, h.fresh),
                  )
            ];
            fresh = omega arith;
          })

    pub commit-IsKept :
        (w : World) (uin at : ℕ)
        → (uin, at) ∈ w.opening
        → w.now ≤ at + commit_within
        → IsKept w
        → IsKept (record w { guests = uin ∷ w.guests })
    commit-IsKept w uin at i l h =
        let (s, p, x) = h.marks uin at i l in
        record {
          served = λ a u j. elim j [ inl e ↦ rw e s | inr k ↦ h.served a u k ];
          reads = λ rows t k n u j. elim j [
            | inl e ↦ inr (rw e p, omega (arith, h.past rows t k))
            | inr m ↦ h.reads rows t k n u m
          ];
          past = h.past;
          marks = h.marks;
          fresh = h.fresh;
        }

    pub settle-IsKept :
        (w : World) (uin : ℕ)
        → IsKept w
        → IsKept (record w {
          guests = without uin w.guests;
          opening = filter (λ (o : ℕ × ℕ). not (o.0 == uin)) w.opening;
        })
    settle-IsKept w uin h = record {
      served = λ a u j. h.served a u (without-mem u uin w.guests j).0;
      reads = λ rows at i n u j. h.reads rows at i n u (without-mem u uin w.guests j).0;
      past = h.past;
      marks = λ u at i n.
          h.marks u at (filter-mem (λ (o : ℕ × ℕ). not (o.0 == uin)) (u, at) w.opening i).0 n;
      fresh = h.fresh;
    }

    pub unmark-IsKept :
        (w : World) (up up' : Bool) (uin : ℕ)
        → ¬ (uin ∈ w.guests)
        → IsSettled uin w.opening
        → IsKept w
        → IsKept (record w { redis = unmark_guest up up' uin w.redis })
    unfolding unmark_guest
    unmark-IsKept w true up' uin n s h = record {
      served = λ a u j. mem-without u uin w.redis.guest_uins (λ e. n (rw e at j)) (h.served a u j);
      reads = λ rows at i l u j. elim (h.reads rows at i l u j) [
        | inl k ↦ inl k
        | inr (k, x) ↦ inr (mem-without u uin w.redis.pending (λ e. n (rw e at j)) k, x)
      ];
      past = h.past;
      marks = λ u at i l.
          let (k, p, x) = h.marks u at i l in
          let ne : u ≢ uin = All-mem (λ (o : ℕ × ℕ). o.0 ≢ uin) (u, at) w.opening s i in
          (mem-without u uin w.redis.guest_uins ne k, mem-without u uin w.redis.pending ne p, x);
      fresh = h.fresh;
    }
    unmark-IsKept w false true uin n s h = record {
      served = λ a. h.served (ground arith);
      reads = h.reads;
      past = h.past;
      marks = h.marks;
      fresh = h.fresh;
    }
    unmark-IsKept w false false uin n s h = h
