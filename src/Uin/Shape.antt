-- ===== src/Uin/Shape.antt =====
-- The shapes of `_PATTERNS` and `_RUN`, `price_length` and `is_reserved_uin` of app/services/uin.py.
-- A regular expression of the source is a function on the digits.
use rcq_server_ref.Base.{
  ℕ, List, Option, min, Bool, some, true, false, ◌∷◌, reverse, length, ◌||◌, if◌then◌else◌, none,
  [], leb, ◌++◌, suc, ◌==◌, ◌&&◌, zero, distinct,
}
use rcq_server_ref.Uin.Digits.{str}

unfoldable pub same_digits : List ℕ → List ℕ → Bool
same_digits [] [] = true
same_digits (a ∷ as') (b ∷ bs) = a == b && same_digits as' bs
same_digits _ _ = false

-- What follows `block`, where the digits begin with it.
unfoldable pub strip_prefix : List ℕ → List ℕ → Option (List ℕ)
strip_prefix [] s = some s
strip_prefix (b ∷ block) [] = none
strip_prefix (b ∷ block) (d ∷ s) = if b == d then strip_prefix block s else none

-- The rest is copies of `block` alone; `fuel` bounds their number.
unfoldable pub is_copies : ℕ → List ℕ → List ℕ → Bool
is_copies fuel block [] = true
is_copies zero block (d ∷ s) = false
is_copies (suc fuel) block (d ∷ s) = elim (strip_prefix block (d ∷ s)) [
  | none ↦ false
  | some rest ↦ is_copies fuel block rest
]

abbrev is_more_copies : List ℕ → List ℕ → Bool
is_more_copies block [] = false
is_more_copies block (d ∷ s) = is_copies (length (d ∷ s)) block (d ∷ s)

-- `^(\d)\1+$`, `^(\d\d)\1+$` and `^(\d\d\d)\1+$`
unfoldable pub repeats_one : List ℕ → Bool
unfolding is_copies strip_prefix
repeats_one (a ∷ s) = is_more_copies (a ∷ []) s
repeats_one _ = false

unfoldable pub repeats_two : List ℕ → Bool
unfolding is_copies strip_prefix
repeats_two (a ∷ b ∷ s) = is_more_copies (a ∷ b ∷ []) s
repeats_two _ = false

unfoldable pub repeats_three : List ℕ → Bool
unfolding is_copies strip_prefix
repeats_three (a ∷ b ∷ c ∷ s) = is_more_copies (a ∷ b ∷ c ∷ []) s
repeats_three _ = false

unfoldable pub drop_zeros : List ℕ → List ℕ
drop_zeros [] = []
drop_zeros (d ∷ s) = if d == 0 then drop_zeros s else d ∷ s

abbrev to_eight : List ℕ
to_eight = 1 ∷ 2 ∷ 3 ∷ 4 ∷ 5 ∷ 6 ∷ 7 ∷ 8 ∷ []

abbrev from_eight : List ℕ
from_eight = 8 ∷ 7 ∷ 6 ∷ 5 ∷ 4 ∷ 3 ∷ 2 ∷ 1 ∷ []

-- `^0*123456789?$`
unfoldable pub is_ladder_up : List ℕ → Bool
unfolding drop_zeros same_digits
is_ladder_up s =
    same_digits (drop_zeros s) to_eight || same_digits (drop_zeros s) (to_eight ++ 9 ∷ [])

abbrev only_zeros_after : Option (List ℕ) → Bool
only_zeros_after none = false
only_zeros_after (some rest) = same_digits (drop_zeros rest) []

-- `^9?876543210*$`
unfoldable pub is_ladder_down : List ℕ → Bool
unfolding drop_zeros same_digits strip_prefix
is_ladder_down s =
    only_zeros_after (strip_prefix from_eight s)
    || only_zeros_after (strip_prefix (9 ∷ from_eight) s)

-- `\d0{4,}$`, anywhere: a digit and then four zeros or more, to the end.
unfoldable pub ends_in_zeros : List ℕ → Bool
unfolding drop_zeros same_digits
ends_in_zeros [] = false
ends_in_zeros (d ∷ s) = leb 4 (length s) && same_digits (drop_zeros s) [] || ends_in_zeros s

-- `any(p.search(s) for p in _PATTERNS)`
unfoldable pub matches_pattern : List ℕ → Bool
unfolding repeats_one repeats_two repeats_three is_ladder_up is_ladder_down ends_in_zeros
matches_pattern s =
    repeats_one s
    || (repeats_two s
        || (repeats_three s || (is_ladder_up s || (is_ladder_down s || ends_in_zeros s))))

-- `_RUN`, `(\d)\1{3,}`, anywhere.
unfoldable pub has_run : List ℕ → Bool
has_run (a ∷ b ∷ c ∷ d ∷ s) = a == b && (b == c && c == d) || has_run (b ∷ c ∷ d ∷ s)
has_run _ = false

-- `s == s[::-1]`
unfoldable pub is_palindrome : List ℕ → Bool
unfolding same_digits
is_palindrome s = same_digits s (reverse s)

abbrev pub reserved_max_len : ℕ
reserved_max_len = 6

unfoldable pub price_tier : List ℕ → ℕ
unfolding distinct is_palindrome has_run matches_pattern
price_tier s =
    if leb (distinct s) 2
    then 3
    else if leb (distinct s) 3 || (is_palindrome s || (has_run s || matches_pattern s))
    then 4
    else if leb (distinct s) 4 && leb (length s) 7
    then 5
    else length s

unfoldable pub price_length : ℕ → ℕ
unfolding price_tier str
price_length uin = min (length (str uin)) (price_tier (str uin))

unfoldable pub reserved_shape : List ℕ → Bool
unfolding distinct is_palindrome has_run matches_pattern
reserved_shape s =
    if leb (length s) reserved_max_len
    then true
    else if leb (distinct s) 3
    then true
    else if leb (distinct s) 4 && leb (length s) 7
    then true
    else if is_palindrome s
    then true
    else if has_run s
    then true
    else matches_pattern s

unfoldable pub is_reserved_uin : ℕ → Bool
unfolding reserved_shape str
is_reserved_uin zero = false
is_reserved_uin (suc n) = reserved_shape (str (suc n))
