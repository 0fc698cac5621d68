-- ===== src/Guest/Mirror.antt =====
-- What Redis holds of the guest set, and each operation of app/core/guest_policy.py on it. `up` says
-- whether Redis answers.
use rcq_server_ref.Base.{
  ℕ, List, Option, Bool, none, some, [], ◌∷◌, ◌++◌, true, false, any, filter, not, ◌||◌, ltb, ◌==◌,
  ◌+◌, if◌then◌else◌,
}

abbrev pub guest_ttl_seconds : ℕ
guest_ttl_seconds = 300

abbrev pub guest_pending_ttl_seconds : ℕ
guest_pending_ttl_seconds = 120

-- `guest_uins`, `guest_uins:pending` with the moment at which Redis drops it, `guest_uins:loaded` by
-- the moment at which it lapses, and `guest_uins:built`.
pub record Redis : Type 0 where
  pub guest_uins : List ℕ
  pub pending : List ℕ
  pub pending_expires : ℕ
  pub loaded_expires : ℕ
  pub built : Bool

abbrev pub without : ℕ → List ℕ → List ℕ
without uin us = filter (λ u. not (u == uin)) us

abbrev pub has : ℕ → List ℕ → Bool
has uin us = any (λ u. u == uin) us

-- The pending marks that Redis still has.
unfoldable pub live_pending : ℕ → Redis → List ℕ
live_pending now r = if ltb now r.pending_expires then r.pending else []

-- `none` is `GuestCacheUnavailable`.
unfoldable pub mark_guest : Bool → ℕ → ℕ → Redis → Option Redis
unfolding live_pending
mark_guest false now uin r = none
mark_guest true now uin r = some (record r {
  guest_uins = uin ∷ without uin r.guest_uins;
  pending = uin ∷ without uin (live_pending now r);
  pending_expires = now + guest_pending_ttl_seconds;
})

-- Where the first write fails, the marker is dropped, if Redis answers then.
unfoldable pub unmark_guest : Bool → Bool → ℕ → Redis → Redis
unmark_guest true up' uin r = record r {
  guest_uins = without uin r.guest_uins;
  pending = without uin r.pending;
}
unmark_guest false true uin r = record r { loaded_expires = 0 }
unmark_guest false false uin r = r

-- The second half of `_rebuild`, with the rows that the first half has read.
unfoldable pub store_rebuilt : ℕ → List ℕ → Redis → Redis
unfolding live_pending
store_rebuilt now rows r = record r {
  guest_uins = rows ++ live_pending now r;
  loaded_expires = now + guest_ttl_seconds;
  built = true;
}

-- `RedisMirror.ensure`, with the rows that an inline rebuild reads. A rebuild in the background is no
-- part of the request.
unfoldable pub ensure : ℕ → List ℕ → Redis → Redis
unfolding store_rebuilt
ensure now rows r = if ltb now r.loaded_expires || r.built then r else store_rebuilt now rows r

-- `RedisMirror.prime`
unfoldable pub prime : ℕ → List ℕ → Redis → Redis
unfolding store_rebuilt
prime now rows r = if r.built then r else store_rebuilt now rows r

-- `is_guest`, and `_is_guest_from_row` where Redis does not answer.
unfoldable pub is_guest : Bool → ℕ → List ℕ → ℕ → Redis → Redis × Bool
unfolding ensure
is_guest false now rows uin r = (r, has uin rows)
is_guest true now rows uin r = let r' = ensure now rows r in (r', has uin r'.guest_uins)
