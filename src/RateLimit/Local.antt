-- ===== src/RateLimit/Local.antt =====
-- `_LOCAL_HITS` and `_local_allow` of app/core/rate_limit.py: the window in the process, for rules
-- that fail closed without Redis.
use rcq_server_ref.RateLimit.Buckets.{tick}
use rcq_server_ref.Base.{
  ℕ, List, String, ◌∷◌, if◌then◌else◌, same_text, ltb, max, length, ◌+◌, [], leb, ◌*◌, ◌++◌, ◌-◌,
  ◌/◌,
}

-- The dictionary: one queue of times for each key.
abbrev pub LocalHits : Type 0
LocalHits = List (String × List ℕ)

abbrev pub local_max_keys : ℕ
local_max_keys = 20000

-- `_LOCAL_HITS[key]`, and what is stored under the key afterwards.
unfoldable pub hits_of : String → LocalHits → List ℕ
hits_of key [] = []
hits_of key ((k, hits) ∷ rest) = if same_text k key then hits else hits_of key rest

unfoldable pub store_hits : String → List ℕ → LocalHits → LocalHits
store_hits key hits [] = (key, hits) ∷ []
store_hits key hits ((k, old) ∷ rest) =
    if same_text k key then (k, hits) ∷ rest else (k, old) ∷ store_hits key hits rest

-- The loop that takes times off the front.
unfoldable pub pop_old : ℕ → ℕ → List ℕ → List ℕ
pop_old now window [] = []
pop_old now window (t ∷ ts) = if ltb (t + window * tick) now then pop_old now window ts else t ∷ ts

-- What the call gives; `index_error` is the exception of `hits[0]` on an empty queue.
pub data LocalVerdict : Type 0 where
  allowed : LocalVerdict
  denied : ℕ → LocalVerdict
  index_error : LocalVerdict

abbrev pub denial : ℕ → ℕ → List ℕ → LocalVerdict
denial now window [] = index_error
denial now window (t ∷ ts) = denied (max 1 ((t + window * tick - now) / tick))

unfoldable pub local_allow : ℕ → String → ℕ → ℕ → LocalHits → LocalHits × LocalVerdict
unfolding hits_of store_hits pop_old
local_allow now key limit window table =
    let table' = if ltb local_max_keys (length table) then [] else table in
    let hits = pop_old now window (hits_of key table') in
    if leb limit (length hits)
    then (store_hits key hits table', denial now window hits)
    else (store_hits key (hits ++ now ∷ []) table', allowed)
