-- ===== src/Uin/Tests.antt =====
-- Prices, reserved shapes and an allocation, and the theorems at them.
use rcq_server_ref.Uin.Allocate.{Outcome, allocate_uin-Outcome}
use rcq_server_ref.Uin.SpokenFor.{IsSpokenFor, cleared, uin_is_taken-IsSpokenFor}
use rcq_server_ref.Uin.Taken.{Numbers, allocate_uin, uin_is_taken, uin_max, uin_min}
use rcq_server_ref.Uin.Shape.{price_length, is_reserved_uin, matches_pattern}
use rcq_server_ref.Base.{
  ℕ, arith, List, ◌≤◌, [], some, none, ◌≡◌, ◌∷◌, ◌<◌, true, false, suc, refl, ◌↔◌, zero, All, ◌-◌,
}

price_two_digits : price_length 777000777 ≡ 3
unfolding price_length
price_two_digits = refl

price_palindrome : price_length 10200102 ≡ 4
unfolding price_length
price_palindrome = refl

price_ordinary : price_length 48290173 ≡ 8
unfolding price_length
price_ordinary = refl

price_short_four : price_length 4829482 ≡ 5
unfolding price_length
price_short_four = refl

reserved_zeros : is_reserved_uin 120000000 ≡ true
unfolding is_reserved_uin
reserved_zeros = refl

reserved_ladder : is_reserved_uin 987654321 ≡ true
unfolding is_reserved_uin
reserved_ladder = refl

not_reserved : is_reserved_uin 48290173 ≡ false
unfolding is_reserved_uin
not_reserved = refl

matches_block : matches_pattern (8 ∷ 0 ∷ 1 ∷ 8 ∷ 0 ∷ 1 ∷ 8 ∷ 0 ∷ 1 ∷ []) ≡ true
unfolding matches_pattern
matches_block = refl

-- An account has 48290173, a live invite reserves 48290174, and a spent one 48290175.
abbrev numbers : Numbers
numbers = record {
  users = record { uin = 48290173; is_suspended = false } ∷ [];
  owned = [];
  holds = record { uin = 48290176; hold_id = "till"; expires_at = 500 } ∷ [];
  invites =
      record {
        code = "a";
        max_uses = 1;
        used_count = 0;
        uin = some 48290174;
        expires_at = none;
        spent_at = none;
      }
      ∷ record {
        code = "b";
        max_uses = 1;
        used_count = 1;
        uin = some 48290175;
        expires_at = none;
        spent_at = none;
      }
      ∷ [];
}

abbrev draws_after : ℕ → List ℕ
draws_after zero = []
draws_after (suc n) = n ∷ draws_after n

-- A scarce number, a taken one, a promised one, and the number of the spent invite.
abbrev draws : List ℕ
draws = 119900000 ∷ 48190173 ∷ 48190174 ∷ 48190175 ∷ draws_after 96

allocated : allocate_uin 1000 numbers draws ≡ some 48290175
unfolding allocate_uin
allocated = refl

redeemer : uin_is_taken 1000 numbers 48290174 (some "a") false ≡ false
unfolding uin_is_taken
redeemer = refl

held : uin_is_taken 400 numbers 48290176 none false ≡ true
unfolding uin_is_taken
held = refl

held_and_sold : uin_is_taken 400 numbers 48290176 none true ≡ false
unfolding uin_is_taken
held_and_sold = refl

uin_is_taken-IsSpokenFor_example :
    ((uin_is_taken 900 numbers 48290175 none false ≡ true)
      ↔ IsSpokenFor 900 numbers 48290175 none false)
    × (uin_is_taken 900 (cleared 400 numbers) 48290175 none false
        ≡ uin_is_taken 900 numbers 48290175 none false)
uin_is_taken-IsSpokenFor_example =
    uin_is_taken-IsSpokenFor 400 900 numbers 48290175 none false (omega arith)

allocate_uin-Outcome_example : Outcome 1000 numbers 100 draws (allocate_uin 1000 numbers draws)
allocate_uin-Outcome_example = allocate_uin-Outcome 1000 numbers draws (omega arith)

draws_below : (n : ℕ) → n ≤ 100 → All (λ d. d < uin_max - uin_min) (draws_after n)
draws_below zero h = tt
draws_below (suc n) h = (omega arith, draws_below n (omega arith))
