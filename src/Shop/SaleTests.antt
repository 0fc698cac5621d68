-- ===== src/Shop/SaleTests.antt =====
-- Runs of the shop, and the theorems at them.
use Prim.Native.String.{String}
use rcq_server_ref.Base.{
  sort_by, ℤ, pos, List, none, some, [], ◌∷◌, true, false, ◌≡◌, ◌∈◌, ◌⊎◌, refl,
}
use rcq_server_ref.Voucher.{Codec, text, max_age_seconds}
use rcq_server_ref.Voucher.Docs.{voucher, resale, document}
use rcq_server_ref.Voucher.Checked.{IsLive}
use rcq_server_ref.Voucher.Tests.{codec, issued, codec-unforgeable, codec-told_apart}
use rcq_server_ref.Shop.Tables.{Shop, UinListing, find_deed, find_listing}
use rcq_server_ref.Shop.Session.{done}
use rcq_server_ref.Shop.Collection.{PurchaseOut}
use rcq_server_ref.Shop.Redeem.{RedeemIn, redeem}
use rcq_server_ref.Shop.Requests.{
  Request, redeeming, listing, activating, delisting, Event, serve_all, registering,
}
use rcq_server_ref.Shop.Register.{IsSound, Deals}
use rcq_server_ref.Shop.View.{register}
use rcq_server_ref.Shop.Refined.{serve_all-Deals, serve_all-IsSound}
use rcq_server_ref.Shop.Once.{redeem_once, redeem-issued}

-- An account at 7318462, and nothing sold yet.
abbrev opening : Shop
opening = record {
  numbers = record {
    users = record { uin = 7318462; is_suspended = false } ∷ [];
    owned = [];
    holds = [];
    invites = [];
  };
  listings = [];
  spent = [];
}

abbrev order : RedeemIn
order = record { uin = 7771234; voucher = "sold"; switch = false }

abbrev bought : Shop
bought = record {
  numbers = record {
    users = record { uin = 7318462; is_suspended = false } ∷ [];
    owned = record { uin = 7771234; owner_uin = 7318462; source = "purchase" } ∷ [];
    holds = [];
    invites = [];
  };
  listings = [];
  spent = "0123456789abcdef" ∷ [];
}

abbrev receipt : PurchaseOut
receipt = record { new_uin = some 7318462; switched = false; owned = 7771234 ∷ [] }

redeemed : redeem codec (some "till") 500 true true 7318462 order opening ≡ done (bought, receipt)
unfolding redeem sort_by
redeemed = refl

opening-IsSound : IsSound (register opening)
unfolding find_deed find_listing
opening-IsSound = record {
  own = λ n h a e. absurd (cc e);
  backed = λ n t e. absurd (cc e);
  idle = λ n t e. absurd (cc e);
}

abbrev event : Request → Event
event request = record {
  now = 500;
  uin_shop_enabled = true;
  uin_resale_enabled = true;
  request = request;
}

-- The number is bought, put up for sale, taken down, and moved onto, and another account is made.
abbrev events : List Event
events =
    event (redeeming 7318462 order)
    ∷ event (
        listing 7318462 "offer"
          (record { uin = 7771234; price_cents = 250; payout = ("btc", "bc1") ∷ [] }))
    ∷ event (delisting 7318462 7771234)
    ∷ event (activating 7318462 7771234)
    ∷ event (
        registering (record { registration_policy = "open"; island_host = "" }) false false
          (48190173 ∷ []) (record { invite = ""; desired_uin = none }))
    ∷ []

-- The deed goes with the account, and the number that it leaves is no one's.
abbrev moved_on : Shop
moved_on = record {
  numbers = record {
    users = record { uin = 7771234; is_suspended = false } ∷ [];
    owned = record { uin = 7771234; owner_uin = 7771234; source = "purchase" } ∷ [];
    holds = [];
    invites = [];
  };
  listings = [];
  spent = "0123456789abcdef" ∷ [];
}

abbrev closing : Shop
closing = record moved_on {
  numbers = record moved_on.numbers {
    users =
        record { uin = 48290173; is_suspended = false }
        ∷ record { uin = 7771234; is_suspended = false }
        ∷ [];
  };
}

served : serve_all codec (some "till") (λ s. s) (λ s. s) events opening ≡ closing
unfolding serve_all
served = refl

-- What is offered is bought from its seller.
abbrev resale_codec : Codec
resale_codec = record codec {
  loads = λ t. some (
      some (
        ("sig", text "ok")
        ∷ document (resale 7771234 "offer" (pos 250) "fedcba9876543210" (pos 1000))));
  verifies = λ k sig b. true;
}

abbrev offered_shop : Shop
offered_shop = record bought {
  numbers = record bought.numbers {
    users =
        record { uin = 7318462; is_suspended = false }
        ∷ record { uin = 7318465; is_suspended = false }
        ∷ [];
  };
  listings =
      record {
        uin = 7771234;
        seller_uin = 7318462;
        listing_id = "offer";
        price_cents = 250;
        payout = [];
      }
      ∷ [];
}

resold :
    redeem resale_codec (some "till") 500 true true 7318465 order offered_shop
    ≡ done (
      record offered_shop {
        numbers = record offered_shop.numbers {
          owned = record { uin = 7771234; owner_uin = 7318465; source = "purchase" } ∷ [];
        };
        listings = [];
        spent = "fedcba9876543210" ∷ "0123456789abcdef" ∷ [];
      },
      record { new_uin = none; switched = false; owned = 7771234 ∷ [] },
    )
unfolding redeem sort_by
resold = refl

serve_all-Deals_example : Deals (register opening) (register closing)
unfolding serve_all
serve_all-Deals_example =
    serve_all-Deals codec (some "till") (λ s. s) (λ s. s) events opening opening-IsSound

serve_all-IsSound_example : IsSound (register closing)
unfolding serve_all
serve_all-IsSound_example =
    serve_all-IsSound codec (some "till") (λ s. s) (λ s. s) events opening opening-IsSound

-- The account has moved, and brings its voucher again for another number.
redeem_once_example : ¬ (
    redeem codec (some "till") 500 true true 7771234 (record order { uin = 7771235 }) moved_on
    ≡ done (moved_on, receipt))
unfolding serve_all
redeem_once_example =
    redeem_once codec (some "till") (λ s. s) (λ s. s) 500 true true 7318462 order opening bought
      receipt (event (activating 7318462 7771234) ∷ []) 500 true true 7771234
      (record order { uin = 7771235 }) moved_on receipt opening-IsSound redeemed refl

redeem-issued_example :
    (nonce : String) × (exp : ℤ) × IsLive max_age_seconds 500 exp
    × ((voucher 7771234 nonce exp ∈ issued)
        ⊎ ((l : UinListing) × (find_listing 7771234 opening.listings ≡ some l)
            × (resale 7771234 l.listing_id (pos l.price_cents) nonce exp ∈ issued)))
redeem-issued_example =
    redeem-issued codec "till" issued (codec-unforgeable "till") codec-told_apart 500 true true
      7318462 order opening bought receipt opening-IsSound redeemed
