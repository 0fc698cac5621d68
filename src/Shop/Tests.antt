-- ===== src/Shop/Tests.antt =====
-- Runs of the till's holds, and the theorems at them.
use Prim.Native.String.{String}
use rcq_server_ref.Base.{
  ℕ, ℤ, arith, none, some, [], ◌∷◌, true, false, ◌≡◌, ◌≢◌, ◌∈◌, ◌⊎◌, ◌↔◌, refl, length, sym, ◌∙◌,
  ap,
}
use rcq_server_ref.Uin.Taken.{UinHold, uin_is_taken}
use rcq_server_ref.Voucher.{HoldKind, hold, release, hold_max_age_seconds}
use rcq_server_ref.Voucher.Docs.{held}
use rcq_server_ref.Voucher.Checked.{IsLive}
use rcq_server_ref.Voucher.Tests.{codec, issued, codec-unforgeable, codec-told_apart}
use rcq_server_ref.Shop.Tables.{Shop, find_hold}
use rcq_server_ref.Shop.Hold.{
  done, integrity_error, is_listed, is_length, hold_number, till_asks, till_hold,
}
use rcq_server_ref.Shop.Exclusive.{
  till_asks-exclusive, hold_number-integrity_error, till_hold-issued,
}

abbrev hold_of : ℕ → String → ℕ → UinHold
hold_of uin hold_id expires_at = record { uin = uin; hold_id = hold_id; expires_at = expires_at }

-- A shop where a hold on number 500 has expired.
abbrev shop : Shop
shop = record {
  numbers = record { users = []; owned = []; holds = hold_of 500 "old" 300 ∷ []; invites = [] };
  listings = [];
  spent = [];
}

abbrev empty_shop : Shop
empty_shop = record {
  numbers = record { users = []; owned = []; holds = []; invites = [] };
  listings = [];
  spent = [];
}

-- The expired hold is in the way.
in_the_way : (till_asks 350 hold 500 "sale" shop).1 ≡ integrity_error
unfolding till_asks
in_the_way = refl

placed :
    (till_hold codec (some "till") true 350 "reserved" empty_shop).1
    ≡ done (record { uin = 500; held = true; expires_at = some 7550 })
unfolding till_hold
placed = refl

till_asks-exclusive_example : (till_asks 350 release 500 "sale" shop).0 ≡ shop
unfolding find_hold
till_asks-exclusive_example =
    till_asks-exclusive 350 release 500 "sale" shop (hold_of 500 "old" 300) refl (λ e. cc e)

hold_number-integrity_error_example : ((hold_number 350 500 "sale" shop).1 ≡ integrity_error) ↔ (
    (h : UinHold) × (find_hold 500 shop.numbers.holds ≡ some h)
    × (h.hold_id ≢ "sale")
    × ((is_listed 500 shop ≡ true) ⊎ (uin_is_taken 350 shop.numbers 500 none false ≡ false)))
unfolding is_length
hold_number-integrity_error_example = hold_number-integrity_error 350 500 "sale" shop refl

count_holds :
    length (till_hold codec (some "till") true 350 "reserved" empty_shop).0.numbers.holds ≡ 1
unfolding till_hold
count_holds = refl

changes : (till_hold codec (some "till") true 350 "reserved" empty_shop).0 ≢ empty_shop
changes e =
    let n : ◌≡◌ {A = ℕ} 1 0 = sym count_holds ∙ ap (λ (s : Shop). length s.numbers.holds) e in
    omega arith

till_hold-issued_example :
    (kind : HoldKind) × (uin : ℕ) × (hold_id : String) × (exp : ℤ) × (held kind uin hold_id exp
      ∈ issued)
    × IsLive hold_max_age_seconds 350 exp
    × (till_hold codec (some "till") true 350 "reserved" empty_shop
        ≡ till_asks 350 kind uin hold_id empty_shop)
till_hold-issued_example =
    till_hold-issued codec "till" issued (codec-unforgeable "till") codec-told_apart true 350
      "reserved" empty_shop changes
