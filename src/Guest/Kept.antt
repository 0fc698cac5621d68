-- ===== src/Guest/Kept.antt =====
-- No guest is missed: what the marks, the pending set and the rebuilds of app/core/guest_policy.py
-- keep between them.
use rcq_server_ref.Base.{
  ℕ, arith, List, Bool, All, All-mem, [], ◌∷◌, ◌++◌, true, false, ◌||◌, ltb, ◌==◌, ◌≡◌, ◌∈◌, inl,
  inr, ap, ◌≤◌, ◌<◌, ◌+◌, mem-append, mem_any, Bool-cases,
}
use rcq_server_ref.Guest.Mirror.{
  guest_pending_ttl_seconds, has, live_pending, store_rebuilt, ensure, is_guest,
}
use rcq_server_ref.Guest.Steps.{World, Step, Steps}
use rcq_server_ref.Guest.Steps.Step.{
  wait, mark, commit, settle, unmark, read_rows, store_rows, flush,
}
use rcq_server_ref.Guest.Steps.Steps.{stop, then_step}
use rcq_server_ref.Guest.Marked.{
  IsKept, still_pending, wait-IsKept, mark-IsKept, commit-IsKept, settle-IsKept, unmark-IsKept,
}

module _ (commit_within store_within : ℕ) where
  module _ (fits : commit_within + store_within < guest_pending_ttl_seconds) where
    read_rows-IsKept :
        (w : World)
        → IsKept commit_within store_within w
        → IsKept commit_within store_within (record w { rebuilds = (w.guests, w.now) ∷ w.rebuilds })
    read_rows-IsKept w h = record {
      served = h.served;
      reads = λ rows at i n u j. elim i [
        | inl e ↦ inl (rw (ap (λ (x : List ℕ × ℕ). x.0) e) j)
        | inr k ↦ h.reads rows at k n u j
      ];
      past = λ rows at i. elim i [
        | inl e ↦ omega (arith, ap (λ (x : List ℕ × ℕ). x.1) e)
        | inr k ↦ h.past rows at k
      ];
      marks = h.marks;
      fresh = h.fresh;
    }

    store_rows-IsKept :
        (w : World) (rows : List ℕ) (at : ℕ)
        → (rows, at) ∈ w.rebuilds
        → w.now ≤ at + store_within
        → IsKept commit_within store_within w
        → IsKept commit_within store_within (record w { redis = store_rebuilt w.now rows w.redis })
    unfolding store_rebuilt
    store_rows-IsKept w rows at i l h = record {
      served = λ a u j. elim (h.reads rows at i l u j) [
        | inl k ↦ mem-append u rows (live_pending w.now w.redis) (inl k)
        | inr (k, x) ↦
            mem-append u rows (live_pending w.now w.redis)
              (inr (still_pending commit_within store_within w u k (omega arith)))
      ];
      reads = h.reads;
      past = h.past;
      marks = λ u t k n.
          let (s, p, x) = h.marks u t k n in
          (
            mem-append u rows (live_pending w.now w.redis)
                (inr (still_pending commit_within store_within w u p (omega arith))),
            p,
            x,
          );
      fresh = h.fresh;
    }

    flush-IsKept :
        (w : World)
        → All (λ (o : ℕ × ℕ). o.1 + commit_within < w.now) w.opening
        → All (λ (x : List ℕ × ℕ). x.1 + store_within < w.now) w.rebuilds
        → IsKept commit_within store_within w
        → IsKept commit_within store_within (record w {
          redis = record {
            guest_uins = [];
            pending = [];
            pending_expires = 0;
            loaded_expires = 0;
            built = false;
          };
        })
    flush-IsKept w os bs h = record {
      served = λ a. absurd (ground arith);
      reads = λ rows at i l.
          let late =
            All-mem (λ (x : List ℕ × ℕ). x.1 + store_within < w.now) (rows, at) w.rebuilds bs i in
          absurd (omega arith);
      past = h.past;
      marks = λ u at i l.
          let late = All-mem (λ (o : ℕ × ℕ). o.1 + commit_within < w.now) (u, at) w.opening os i in
          absurd (omega arith);
      fresh = omega arith;
    }

    Step-IsKept :
        (v w : World)
        → Step commit_within store_within v w
        → IsKept commit_within store_within v
        → IsKept commit_within store_within w
    Step-IsKept v w (wait _ later l) h = wait-IsKept commit_within store_within fits v later l h
    Step-IsKept v w (mark _ up uin r e) h =
        mark-IsKept commit_within store_within fits v up uin r e h
    Step-IsKept v w (commit _ uin at i l) h =
        commit-IsKept commit_within store_within fits v uin at i l h
    Step-IsKept v w (settle _ uin) h = settle-IsKept commit_within store_within fits v uin h
    Step-IsKept v w (unmark _ up up' uin n s) h =
        unmark-IsKept commit_within store_within fits v up up' uin n s h
    Step-IsKept v w (read_rows _) h = read_rows-IsKept v h
    Step-IsKept v w (store_rows _ rows at i l) h = store_rows-IsKept v rows at i l h
    Step-IsKept v w (flush _ os bs) h = flush-IsKept v os bs h

    pub Steps-IsKept :
        (v w : World)
        → Steps commit_within store_within v w
        → IsKept commit_within store_within v
        → IsKept commit_within store_within w
    Steps-IsKept v w (stop _) h = h
    Steps-IsKept v w (then_step _ u _ run step) h = Step-IsKept u w step (Steps-IsKept v u run h)

-- A world with its guests in the table, a Redis that holds nothing, and nothing under way.
abbrev pub cold : ℕ → List ℕ → World
cold now guests = record {
  now = now;
  guests = guests;
  redis = record {
    guest_uins = [];
    pending = [];
    pending_expires = 0;
    loaded_expires = 0;
    built = false;
  };
  opening = [];
  rebuilds = [];
}

cold-IsKept :
    (commit_within store_within now : ℕ) (guests : List ℕ)
    → IsKept commit_within store_within (cold now guests)
cold-IsKept commit_within store_within now guests = record {
  served = λ a. absurd (ground arith);
  reads = λ rows at i. absurd i;
  past = λ rows at i. absurd i;
  marks = λ u at i. absurd i;
  fresh = omega arith;
}

has-mem : (u : ℕ) (us : List ℕ) → u ∈ us → has u us ≡ true
has-mem u us i = mem_any (λ (v : ℕ). v == u) u us i (ground arith)

-- From a Redis that holds nothing, whatever marks, commits, deletions, unmarks, rebuilds and losses of
-- Redis follow in any order: a guest of the table is read as a guest, with Redis or without. (A request
-- commits within a time of its mark and a rebuild stores within a time of its read, together less than
-- the pending marks live; an unmark comes when no request is making a guest of its number; and Redis
-- loses its data only when no mark and no rebuild is under way.)
pub is_guest-guest :
    (commit_within store_within now : ℕ) (guests : List ℕ) (w : World) (up : Bool) (uin : ℕ)
    → commit_within + store_within < guest_pending_ttl_seconds
    → Steps commit_within store_within (cold now guests) w
    → uin ∈ w.guests
    → (is_guest up w.now w.guests uin w.redis).1 ≡ true
unfolding is_guest ensure store_rebuilt
is_guest-guest commit_within store_within now guests w false uin fits run i = has-mem uin w.guests i
is_guest-guest commit_within store_within now guests w true uin fits run i =
    let h =
      Steps-IsKept commit_within store_within fits (cold now guests) w run
        (cold-IsKept commit_within store_within now guests) in
    elim (Bool-cases (ltb w.now w.redis.loaded_expires || w.redis.built)) [
      | inl a ↦ rw a (has-mem uin w.redis.guest_uins (h.served a uin i))
      | inr a ↦
          rw a (
            has-mem uin (w.guests ++ live_pending w.now w.redis)
              (mem-append uin w.guests _ (inl i)))
    ]
