-- ===== src/Shop/Overlap.antt =====
-- `create_listing` and `activate` of app/routers/uin_shop.py where another request commits between what
-- they read and what they write: what was read is an argument, and the writes are one step, in which the
-- keys of the tables are checked. Of `create_listing` this is the first listing of a number.
use rcq_server_ref.Uin.Digits.{str}
use rcq_server_ref.Uin.Taken.{OwnedUin, User}
use rcq_server_ref.Shop.Collection.{take_number, PurchaseOut}
use rcq_server_ref.Shop.Market.{is_payout, ListingIn, is_none, is_owners, min_sale_len, stripped}
use rcq_server_ref.Shop.Tables.{find_deed, find_listing, UinListing, find_user, Shop}
use rcq_server_ref.Base.{Option, ℕ, Bool, String, not, ◌∷◌, ◌==◌, ltb, length, true}
use rcq_server_ref.Shop.Session.{
  ◌>>=◌, ◌>>◌, Session, check, shop_disabled, integrity_error, resale_not_open, listed, done,
  not_owned, in_use, or_raise, no_payout, user_not_found, suspended, not_for_sale,
}

-- What `activate` has read.
pub record ActivateReads : Type 0 where
  pub listing : Option UinListing
  pub deed : Option OwnedUin
  pub user : Option User

-- What `create_listing` has read of a number that it finds no listing of: the deed.
unfoldable pub read_for_listing : ℕ → Shop → Option OwnedUin
unfolding find_deed
read_for_listing uin db = find_deed uin db.numbers.owned

unfoldable pub read_for_activate : ℕ → ℕ → Shop → ActivateReads
unfolding find_deed find_listing find_user
read_for_activate me uin db = record {
  listing = find_listing uin db.listings;
  deed = find_deed uin db.numbers.owned;
  user = find_user me db.numbers.users;
}

-- A second row of one number fails on the key.
unfoldable pub offer_on : ℕ → String → ListingIn → Shop → Session (Shop × UinListing)
unfolding find_listing
offer_on me fresh body db = do
  check (is_none (find_listing body.uin db.listings)) integrity_error
  let row : UinListing = record {
    uin = body.uin;
    seller_uin = me;
    listing_id = fresh;
    price_cents = body.price_cents;
    payout = body.payout;
  }
  done (record db { listings = row ∷ db.listings }, row)

unfoldable pub create_listing_on :
    (String → String)
    → Bool
    → Bool
    → ℕ
    → String
    → ListingIn
    → Option OwnedUin
    → Shop
    → Session (Shop × UinListing)
unfolding is_payout str offer_on
create_listing_on strip shop resale me fresh body deed db = do
  check shop shop_disabled
  check resale resale_not_open
  check (not (body.uin == me)) in_use
  check (is_payout strip body.payout) no_payout
  check (not (ltb (length (str body.uin)) min_sale_len)) not_for_sale
  check (is_owners me deed) not_owned
  offer_on me fresh (record body { payout = stripped strip body.payout }) db

unfoldable pub in_good_standing : Option User → Session User
in_good_standing row = do
  user ← or_raise user_not_found row
  check (not user.is_suspended) suspended
  done user

unfoldable pub activate_on : ℕ → ℕ → ActivateReads → Shop → Session (Shop × PurchaseOut)
unfolding in_good_standing take_number
activate_on me uin r db = do
  check (is_none r.listing) listed
  check (is_owners me r.deed) not_owned
  user ← in_good_standing r.user
  take_number user uin true "activate" db
