-- ===== src/Posting/SlowKeys.antt =====
-- The keys of the slow mode in Redis (app/routers/messages.py) and the commands on them: a counter by
-- key with `INCR`, `EXPIRE` and `DEL`, a pass by key with `SET EX` and `GETDEL`. Microseconds.
use rcq_server_ref.Uin.Digits.{str}
use rcq_server_ref.RateLimit.Buckets.{present_counter, Counter}
use rcq_server_ref.Base.{
  String, ℕ, List, joined, if◌then◌else◌, Bool, map, ◌∷◌, ◌==◌, none, same_text, false, [], some,
  ◌+◌, ◌&&◌, ltb, ◌||◌,
}

pub data PostPath : Type 0 where
  by_sealed : PostPath
  by_broadcast : PostPath

abbrev pub path_text : PostPath → String
path_text by_sealed = "sealed"
path_text by_broadcast = "broadcast"

abbrev pub other_path : PostPath → PostPath
other_path by_broadcast = by_sealed
other_path by_sealed = by_broadcast

unfoldable pub incr : ℕ → String → List (String × Counter) → List (String × Counter) × ℕ
unfolding present_counter
incr now key [] = ((key, record { used = 1; expires = none }) ∷ [], 1)
incr now key ((k, c) ∷ albums) =
    let (others, n) = incr now key albums in
    let old = present_counter now c in
    if same_text k key
    then ((k, record { used = old.used + 1; expires = old.expires }) ∷ albums, old.used + 1)
    else ((k, c) ∷ others, n)

unfoldable pub expire : String → ℕ → List (String × Counter) → List (String × Counter)
expire key until [] = []
expire key until ((k, c) ∷ albums) =
    let others = expire key until albums in
    if same_text k key
    then (k, record { used = c.used; expires = some until }) ∷ albums
    else (k, c) ∷ others

unfoldable pub delete : {A : Type 0} → String → List (String × A) → List (String × A)
delete key [] = []
delete key ((k, a) ∷ entries) =
    let others = delete key entries in if same_text k key then others else (k, a) ∷ others

unfoldable pub is_armed : ℕ → String → List (String × ℕ) → Bool
is_armed now key [] = false
is_armed now key ((k, until) ∷ passes) =
    (same_text k key && ltb now until) || is_armed now key passes

digit_text : ℕ → String
digit_text d =
    if d == 0
    then "0"
    else if d == 1
    then "1"
    else if d == 2
    then "2"
    else if d == 3
    then "3"
    else if d == 4
    then "4"
    else if d == 5
    then "5"
    else if d == 6
    then "6"
    else if d == 7
    then "7"
    else if d == 8
    then "8"
    else "9"

unfoldable pub decimal : ℕ → String
unfolding str digit_text
decimal n = joined (map digit_text (str n))

unfoldable pub slowmode_identity : ℕ → ℕ → String
unfolding decimal
slowmode_identity group_id caller = joined ("g" ∷ decimal group_id ∷ ":uin:" ∷ decimal caller ∷ [])

module _ (bucket_name : String → String) where
  unfoldable pub slowmode_free_key : PostPath → ℕ → ℕ → String
  unfolding slowmode_identity
  slowmode_free_key path group_id caller = joined (
      "gslowfree:"
      ∷ bucket_name (joined (path_text path ∷ ":" ∷ slowmode_identity group_id caller ∷ []))
      ∷ [])

  unfoldable pub slowmode_batch_key : String → ℕ → ℕ → String
  unfolding slowmode_identity
  slowmode_batch_key batch group_id caller = joined (
      "gslowbatch:"
      ∷ bucket_name (joined (slowmode_identity group_id caller ∷ ":" ∷ batch ∷ []))
      ∷ [])
