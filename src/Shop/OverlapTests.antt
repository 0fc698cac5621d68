-- ===== src/Shop/OverlapTests.antt =====
-- Requests to the shop that overlap.
use rcq_server_ref.Voucher.Tests.{codec}
use rcq_server_ref.Shop.Simultaneous.{read_for_redeem}
use rcq_server_ref.Shop.Overlapping.{serve_attempts, Attempt, overlapping_once}
use rcq_server_ref.Shop.Redeem.{RedeemIn}
use rcq_server_ref.Uin.Shape.{is_reserved_uin}
use rcq_server_ref.Shop.View.{register}
use rcq_server_ref.Shop.Overtaken.{overtaken}
use rcq_server_ref.Shop.Register.{IsSound}
use rcq_server_ref.Shop.Session.{done}
use rcq_server_ref.Shop.Requests.{state_of}
use rcq_server_ref.Shop.Overlap.{
  create_listing_on, read_for_listing, activate_on, read_for_activate,
}
use rcq_server_ref.Shop.Market.{ListingIn, create_listing, activate}
use rcq_server_ref.Shop.Tables.{Shop, UinListing}
use rcq_server_ref.Base.{[], ◌∷◌, String, false, sort_by, true, ◌≡◌, refl, some, ℕ, ◌≤◌}

-- An account with a number in its collection.
abbrev holding : Shop
holding = record {
  numbers = record {
    users = record { uin = 7318462; is_suspended = false } ∷ [];
    owned = record { uin = 7771234; owner_uin = 7318462; source = "purchase" } ∷ [];
    holds = [];
    invites = [];
  };
  listings = [];
  spent = [];
}

abbrev asked : ListingIn
asked = record { uin = 7771234; price_cents = 250; payout = ("btc", "bc1") ∷ [] }

abbrev trim : String → String
trim s = s

abbrev for_sale : UinListing
for_sale = record {
  uin = 7771234;
  seller_uin = 7318462;
  listing_id = "offer";
  price_cents = 250;
  payout = ("btc", "bc1") ∷ [];
}

abbrev offering : Shop
offering = record holding { listings = for_sale ∷ [] }

abbrev in_use_now : Shop
in_use_now = record holding {
  numbers = record holding.numbers {
    users = record { uin = 7771234; is_suspended = false } ∷ [];
    owned = record { uin = 7771234; owner_uin = 7771234; source = "purchase" } ∷ [];
  };
}

-- The seller of the row that is left is no account, so a buyer who has paid gets `seller_gone`.
abbrev left_behind : Shop
left_behind = record in_use_now { listings = for_sale ∷ [] }

listed_late :
    state_of (
      create_listing_on trim true true 7318462 "offer" asked
        (read_for_listing 7771234 holding)
        in_use_now)
    ≡ done left_behind
unfolding create_listing_on read_for_listing
listed_late = refl

overtaken_example :
    ((last : Shop) × (state_of (
          create_listing_on trim true true 7318462 "offer" asked
            (read_for_listing 7771234 holding)
            in_use_now)
        ≡ done last)
      × ¬ IsSound (register last))
    × ((last : Shop) × (state_of
            (activate_on 7318462 7771234 (read_for_activate 7318462 7771234 holding) offering)
          ≡ done last)
        × ¬ IsSound (register last))
unfolding create_listing activate sort_by is_reserved_uin
overtaken_example =
    overtaken trim 500 true true 7318462 "offer" asked holding offering in_use_now for_sale
      (record { new_uin = some 7771234; switched = true; owned = [] }) refl refl

-- Two accounts, and a number that is nobody's.
abbrev two : Shop
two = record {
  numbers = record {
    users =
        record { uin = 7318462; is_suspended = false }
        ∷ record { uin = 48190173; is_suspended = false }
        ∷ [];
    owned = [];
    holds = [];
    invites = [];
  };
  listings = [];
  spent = [];
}

abbrev wanted : RedeemIn
wanted = record { uin = 7771234; voucher = "sold"; switch = false }

abbrev attempt_of : ℕ → Attempt
attempt_of me = record {
  now = 500;
  uin_shop_enabled = true;
  me = me;
  body = wanted;
  reads = read_for_redeem 500 true me 7771234 two;
}

-- Both have read that the number is free.
one_of_two :
    (serve_attempts codec
      (some "till")
      "sold"
      (attempt_of 7318462 ∷ attempt_of 48190173 ∷ [])
      two).1
    ≡ 1
unfolding serve_attempts read_for_redeem sort_by
one_of_two = refl

overlapping_once_example :
    (serve_attempts codec
      (some "till")
      "sold"
      (attempt_of 7318462 ∷ attempt_of 48190173 ∷ [])
      two).1
    ≤ 1
overlapping_once_example =
    overlapping_once codec (some "till") "sold" (attempt_of 7318462 ∷ attempt_of 48190173 ∷ []) two
