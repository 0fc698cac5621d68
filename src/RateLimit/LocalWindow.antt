-- ===== src/RateLimit/LocalWindow.antt =====
-- The window in the process, `_local_allow` of app/core/rate_limit.py, over calls of many keys.
use rcq_server_ref.RateLimit.Window.{IsNewestFirst}
use rcq_server_ref.RateLimit.Buckets.{tick}
use rcq_server_ref.RateLimit.Local.{
  allowed, LocalVerdict, pop_old, hits_of, store_hits, LocalHits, local_allow, local_max_keys,
  denial,
}
use rcq_server_ref.Base.{
  ℕ, arith, true, false, List, String, Bool, length, ◌≤◌, ◌++◌, ◌∷◌, filter, [], same_text, suc,
  ◌≡◌, leb, Bool-cases, refl, ◌+◌, inl, ◌*◌, inr, same_text_iff, ap, ◌<◌, length-append, All, map,
  ltb, if◌then◌else◌, length-filter,
}

-- How many of the times are at most `window` seconds old at `now`.
abbrev pub recent : ℕ → ℕ → List ℕ → ℕ
recent window now times = length (filter (λ t. leb now (t + window * tick)) times)

recent-pop_old :
    (window now later : ℕ) (ts : List ℕ)
    → now ≤ later
    → recent window later (pop_old now window ts) ≡ recent window later ts
unfolding pop_old
recent-pop_old window now later [] h = refl
recent-pop_old window now later (t ∷ ts) h = ground (arith, recent-pop_old window now later ts h)

length-pop_old : (window now : ℕ) (ts : List ℕ) → length (pop_old now window ts) ≤ length ts
unfolding pop_old
length-pop_old window now [] = omega arith
length-pop_old window now (t ∷ ts) = ground (arith, length-pop_old window now ts)

recent-append :
    (window later t : ℕ) (ts : List ℕ)
    → recent window later (ts ++ t ∷ []) ≡ recent window later (t ∷ ts)
recent-append window later t [] = refl
recent-append window later t (x ∷ ts) = ground (arith, recent-append window later t ts)

pub same_text_refl : (s : String) → same_text s s ≡ true
same_text_refl s = (same_text_iff s s).1 refl

hits_of-store_hits :
    (key : String) (hits : List ℕ) (table : LocalHits)
    → hits_of key (store_hits key hits table) ≡ hits
unfolding hits_of store_hits
hits_of-store_hits key hits [] = rw (same_text_refl key) refl
hits_of-store_hits key hits ((k, old) ∷ rest) = elim (Bool-cases (same_text k key)) [
  | inl e ↦ rw (e, e) refl
  | inr e ↦ rw (e, e) (hits_of-store_hits key hits rest)
]

hits_of-store_other :
    (key other : String) (hits : List ℕ) (table : LocalHits)
    → same_text other key ≡ false
    → hits_of key (store_hits other hits table) ≡ hits_of key table
unfolding hits_of store_hits
hits_of-store_other key other hits [] h = ground arith
hits_of-store_other key other hits ((k, old) ∷ rest) h = elim (Bool-cases (same_text k other)) [
  | inl e ↦ ground (arith, ap (λ (x : String). same_text x key) ((same_text_iff k other).0 e))
  | inr e ↦ ground (arith, hits_of-store_other key other hits rest h)
]

length-store_hits :
    (key : String) (hits : List ℕ) (table : LocalHits)
    → length (store_hits key hits table) ≤ suc (length table)
unfolding store_hits
length-store_hits key hits [] = omega arith
length-store_hits key hits ((k, old) ∷ rest) = ground (arith, length-store_hits key hits rest)

pub record Call : Type 0 where
  pub at : ℕ
  pub key : String

abbrev pub passed_local : Bool → ℕ → LocalVerdict → List ℕ → List ℕ
passed_local true now allowed passed = now ∷ passed
passed_local _ now v passed = passed

-- A call of its key, in a table that is not cleared, lets at most `limit` recent times stand.
abbrev pub LocalTracks : ℕ → ℕ → ℕ → List ℕ → List ℕ → Type 0
LocalTracks window limit now hits passed =
    (length hits ≤ limit)
    × ((later : ℕ) → now ≤ later → recent window later passed ≤ recent window later hits)

LocalTracks-later :
    (window limit now later : ℕ) (hits passed : List ℕ)
    → now ≤ later
    → LocalTracks window limit now hits passed
    → LocalTracks window limit later hits passed
LocalTracks-later window limit now later hits passed h (l, r) = (l, λ n k. r n (omega arith))

LocalTracks-denied :
    (window limit now : ℕ) (hits passed : List ℕ)
    → LocalTracks window limit now hits passed
    → LocalTracks window limit now (pop_old now window hits) passed
LocalTracks-denied window limit now hits passed (l, r) = (
  omega (arith, length-pop_old window now hits),
  λ later h. omega (arith, r later h, recent-pop_old window now later hits h),
)

LocalTracks-allowed :
    (window limit now : ℕ) (hits passed : List ℕ)
    → length (pop_old now window hits) < limit
    → LocalTracks window limit now hits passed
    → LocalTracks window limit now (pop_old now window hits ++ now ∷ []) (now ∷ passed)
LocalTracks-allowed window limit now hits passed room (l, r) = (
  omega (arith, length-append (pop_old now window hits) (now ∷ [])),
  λ later h. ground (
    arith,
    r later h,
    recent-pop_old window now later hits h,
    recent-append window later now (pop_old now window hits),
  ),
)

length-local_allow :
    (now limit window : ℕ) (key : String) (table : LocalHits)
    → length (local_allow now key limit window table).0 ≤ suc (length table)
unfolding local_allow
length-local_allow now limit window key table =
    let cleared = if ltb local_max_keys (length table) then [] else table in
    let short : length cleared ≤ length table = ground arith in
    elim (Bool-cases (leb limit (length (pop_old now window (hits_of key cleared))))) [
      | inl e ↦
          rw e (
            omega (arith, length-store_hits key (pop_old now window (hits_of key cleared)) cleared))
      | inr e ↦ rw e (
          omega (
            arith,
            length-store_hits key (pop_old now window (hits_of key cleared) ++ now ∷ []) cleared,
          ))
    ]

not_crowded :
    (table : LocalHits) → length table ≤ local_max_keys → ltb local_max_keys (length table) ≡ false
not_crowded table h = ground arith

local_allow_other :
    (now limit window : ℕ) (other key : String) (table : LocalHits)
    → length table ≤ local_max_keys
    → same_text other key ≡ false
    → hits_of key (local_allow now other limit window table).0 ≡ hits_of key table
unfolding local_allow
local_allow_other now limit window other key table small h =
    rw (not_crowded table small)
      (elim (Bool-cases (leb limit (length (pop_old now window (hits_of other table))))) [
        | inl e ↦ rw e (hits_of-store_other key other _ table h)
        | inr e ↦ rw e (hits_of-store_other key other _ table h)
      ])

denial_passes :
    (now window : ℕ) (hits passed : List ℕ)
    → passed_local true now (denial now window hits) passed ≡ passed
denial_passes now window [] passed = refl
denial_passes now window (t ∷ ts) passed = refl

local_allow-LocalTracks :
    (now limit window : ℕ) (key : String) (table : LocalHits) (passed : List ℕ)
    → length table ≤ local_max_keys
    → LocalTracks window limit now (hits_of key table) passed
    → let (table', v) = local_allow now key limit window table in
      LocalTracks window limit now (hits_of key table') (passed_local true now v passed)
unfolding local_allow
local_allow-LocalTracks now limit window key table passed small h =
    rw (not_crowded table small)
      (elim (Bool-cases (leb limit (length (pop_old now window (hits_of key table))))) [
        | inl e ↦
            rw (e, hits_of-store_hits, denial_passes)
              (LocalTracks-denied window limit now _ passed h)
        | inr e ↦
            rw (e, hits_of-store_hits)
              (LocalTracks-allowed window limit now _ passed (ground arith) h)
      ])

All-at :
    (n : ℕ) (calls : List Call)
    → All (λ t. t ≤ n) (map (λ (c : Call). c.at) calls)
    → All (λ c. c.at ≤ n) calls
All-at n [] h = tt
All-at n (c ∷ calls) h = (h.0, All-at n calls h.1)

module _ (window_of limit_of : String → ℕ) (key : String) where
  -- The calls of all keys, the newest first, each under its key's rule, from an empty table: the
  -- table, and the times of the calls of `key` that passed.
  unfoldable pub serve_local : List Call → LocalHits × List ℕ
  unfolding local_allow
  serve_local [] = ([], [])
  serve_local (c ∷ earlier) =
      let (table, passed) = serve_local earlier in
      let (table', v) = local_allow c.at c.key (limit_of c.key) (window_of c.key) table in
      (table', passed_local (same_text c.key key) c.at v passed)

  length-serve_local : (calls : List Call) → length (serve_local calls).0 ≤ length calls
  unfolding serve_local
  length-serve_local [] = omega arith
  length-serve_local (c ∷ earlier) = omega (
    arith,
    length-local_allow c.at (limit_of c.key) (window_of c.key) c.key (serve_local earlier).0,
    length-serve_local earlier,
  )

  serve_local-LocalTracks :
      (now : ℕ) (calls : List Call)
      → length calls ≤ local_max_keys + 1
      → All (λ c. c.at ≤ now) calls
      → IsNewestFirst (map (λ (c : Call). c.at) calls)
      → LocalTracks
          (window_of key)
          (limit_of key)
          now
          (hits_of key (serve_local calls).0)
          (serve_local calls).1
  unfolding serve_local hits_of
  serve_local-LocalTracks now [] n h s = (omega arith, λ later k. omega arith)
  serve_local-LocalTracks now (c ∷ earlier) n h (a, s) =
      let ih = serve_local-LocalTracks c.at earlier (omega arith) (All-at c.at earlier a) s in
      let small : length (serve_local earlier).0 ≤ local_max_keys =
        omega (arith, length-serve_local earlier) in
      LocalTracks-later (window_of key) (limit_of key) c.at now _ _ h.0
        (elim (Bool-cases (same_text c.key key)) [
          | inl e ↦
              rw ((same_text_iff c.key key).0 e, same_text_refl)
                (local_allow-LocalTracks c.at (limit_of key) (window_of key) key _ _ small ih)
          | inr e ↦
              rw (e, local_allow_other c.at (limit_of c.key) (window_of c.key) c.key key _ small e)
                ih
        ])

  -- Of `_local_allow`, the window in one process that the rules with `fail_closed` and the island's
  -- ceilings count in while Redis is away: at any moment no more than `limit` of one key's calls of
  -- the last `window` seconds have passed, as long as the calls since its table was empty are too
  -- few to clear it, and none reads an earlier clock than the calls before it.
  pub local_window :
      (now : ℕ) (calls : List Call)
      → length calls ≤ local_max_keys + 1
      → All (λ c. c.at ≤ now) calls
      → IsNewestFirst (map (λ (c : Call). c.at) calls)
      → recent (window_of key) now (serve_local calls).1 ≤ limit_of key
  local_window now calls n h s =
      let (l, r) = serve_local-LocalTracks now calls n h s in
      omega (
        arith,
        r now,
        length-filter (λ t. leb now (t + window_of key * tick)) (hits_of key (serve_local calls).0),
      )
