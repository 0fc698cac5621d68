-- ===== src/Queue/Survivors.antt =====
-- What `_reap_below_min` (app/routers/messages.py) keeps: cursors, and rows above a kept cursor.
use rcq_server_ref.Queue.Cursors.{find_cursor-filter}
use rcq_server_ref.Queue.Drain.{find_cursor}
use rcq_server_ref.Queue.Tables.{QueueCursor, Db, OfflineMessage, OfflineGroupMessage}
use rcq_server_ref.Base.{
  ℕ, arith, List, String, ◌≡◌, ◌∈◌, some, false, ◌≤◌, ◌∷◌, [], ◌≢◌, none, inl, Option-cases, inr,
  Option, mem-filter, refl, ◌⊎◌, ◌<◌,
}
use rcq_server_ref.Queue.Reap.{
  is_dropped, cursors_of, without_dropped, min_marks, delete_below, reap_below_min,
}

-- A cursor that was stamped at this very moment is no stale one.
just_stamped_kept :
    (now : ℕ) (cs : List QueueCursor) (c : QueueCursor)
    → c.updated_at ≡ some now
    → is_dropped now cs c ≡ false
unfolding is_dropped
just_stamped_kept now cs c h = rw (h, is_dropped) (ground arith)

pub find_cursor-without_dropped :
    (now uin : ℕ) (device_id : String) (cs : List QueueCursor) (c : QueueCursor)
    → find_cursor uin device_id cs ≡ some c
    → c.updated_at ≡ some now
    → find_cursor uin device_id (without_dropped now uin cs) ≡ some c
unfolding without_dropped
find_cursor-without_dropped now uin device_id cs c f s =
    find_cursor-filter uin device_id _ cs c f
      (ground (arith, just_stamped_kept now (cursors_of uin cs) c s))

min_marks_mem : (cs : List QueueCursor) (c : QueueCursor) → c ∈ cs → min_marks cs ≢ none
unfolding min_marks
min_marks_mem [] c m = absurd m
min_marks_mem (d ∷ cs) c m = ground arith

-- The least marks are at most the marks of every cursor.
pub min_marks_le :
    (cs : List QueueCursor) (c : QueueCursor) (direct group : ℕ)
    → c ∈ cs
    → min_marks cs ≡ some (direct, group)
    → (direct ≤ c.last_direct_id) × (group ≤ c.last_group_id)
unfolding min_marks
min_marks_le [] c direct group m h = absurd m
min_marks_le (d ∷ cs) c direct group (inl e) h = elim (Option-cases (min_marks cs)) [
  | inl q ↦ ground arith
  | inr ((a, b), q) ↦ ground arith
]
min_marks_le (d ∷ cs) c direct group (inr m) h = elim (Option-cases (min_marks cs)) [
  | inl q ↦ absurd (min_marks_mem cs c m q)
  | inr ((a, b), q) ↦ ground (arith, min_marks_le cs c a b m q)
]

pub cursors-delete_below :
    (uin : ℕ) (marks : Option (ℕ × ℕ)) (db : Db) → (delete_below uin marks db).cursors ≡ db.cursors
unfolding delete_below
cursors-delete_below uin none db = refl
cursors-delete_below uin (some (direct, group)) db = refl

delete_below_direct :
    (uin : ℕ) (marks : Option (ℕ × ℕ)) (db : Db) (r : OfflineMessage)
    → r ∈ db.direct
    → ((direct group : ℕ) → marks ≡ some (direct, group) → (r.to_uin ≢ uin) ⊎ (direct < r.id))
    → r ∈ (delete_below uin marks db).direct
unfolding delete_below
delete_below_direct uin none db r m h = m
delete_below_direct uin (some (direct, group)) db r m h =
    mem-filter _ r db.direct (ground (arith, h direct group refl)) m

delete_below_group :
    (uin : ℕ) (marks : Option (ℕ × ℕ)) (db : Db) (r : OfflineGroupMessage)
    → r ∈ db.group
    → ((direct group : ℕ) → marks ≡ some (direct, group) → (r.to_uin ≢ uin) ⊎ (group < r.id))
    → r ∈ (delete_below uin marks db).group
unfolding delete_below
delete_below_group uin none db r m h = m
delete_below_group uin (some (direct, group)) db r m h =
    mem-filter _ r db.group (ground (arith, h direct group refl)) m

mem-cursors_of :
    (uin : ℕ) (c : QueueCursor) (cs : List QueueCursor)
    → c.uin ≡ uin
    → c ∈ cs
    → c ∈ cursors_of uin cs
unfolding cursors_of
mem-cursors_of uin c cs own m = mem-filter _ c cs (ground arith) m

module _ (now uin : ℕ) (db : Db) where
  pub cursors-reap_below_min :
      (reap_below_min now uin db).0.cursors ≡ without_dropped now uin db.cursors
  unfolding reap_below_min
  cursors-reap_below_min = cursors-delete_below uin _ _

  marks_below :
      (direct group : ℕ) (c : QueueCursor)
      → min_marks (cursors_of uin (without_dropped now uin db.cursors)) ≡ some (direct, group)
      → c ∈ without_dropped now uin db.cursors
      → c.uin ≡ uin
      → (direct ≤ c.last_direct_id) × (group ≤ c.last_group_id)
  marks_below direct group c e i own =
      min_marks_le (cursors_of uin (without_dropped now uin db.cursors)) c direct group
        (mem-cursors_of uin c _ own i) e

  -- A 1:1 row above the mark of any cursor of the account that is still there, or of another
  -- account, is still queued after a reap.
  pub reap_keeps_direct :
      (r : OfflineMessage) (c : QueueCursor)
      → r ∈ db.direct
      → c ∈ (reap_below_min now uin db).0.cursors
      → (r.to_uin ≢ uin) ⊎ ((c.uin ≡ uin) × (c.last_direct_id < r.id))
      → r ∈ (reap_below_min now uin db).0.direct
  unfolding reap_below_min
  reap_keeps_direct r c m k (inl other) =
      delete_below_direct uin _ _ r m (λ direct group e. inl other)
  reap_keeps_direct r c m k (inr (own, lt)) =
      let k' = rw cursors-delete_below at k in
      delete_below_direct uin _ _ r m
        (λ direct group e. inr (omega (arith, marks_below direct group c e k' own)))

  pub reap_keeps_group :
      (r : OfflineGroupMessage) (c : QueueCursor)
      → r ∈ db.group
      → c ∈ (reap_below_min now uin db).0.cursors
      → (r.to_uin ≢ uin) ⊎ ((c.uin ≡ uin) × (c.last_group_id < r.id))
      → r ∈ (reap_below_min now uin db).0.group
  unfolding reap_below_min
  reap_keeps_group r c m k (inl other) =
      delete_below_group uin _ _ r m (λ direct group e. inl other)
  reap_keeps_group r c m k (inr (own, lt)) =
      let k' = rw cursors-delete_below at k in
      delete_below_group uin _ _ r m
        (λ direct group e. inr (omega (arith, marks_below direct group c e k' own)))
