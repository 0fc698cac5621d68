-- ===== src/Shop/Simultaneous.antt =====
-- `redeem` of app/routers/uin_shop.py where other requests commit between what it reads and what it
-- writes: what was read is an argument, and the writes are one step, in which the keys of the tables are
-- checked.
use rcq_server_ref.Shop.Overlap.{in_good_standing}
use rcq_server_ref.Shop.Redeem.{
  spend, RedeemIn, drop_hold, move_deed, deed_first, delist, hand_over, is_price,
}
use rcq_server_ref.Shop.Hold.{is_length}
use rcq_server_ref.Voucher.Verify.{verify_resale}
use rcq_server_ref.Voucher.Verify.{verify}
use rcq_server_ref.Shop.Collection.{owned_uins, PurchaseOut, take_number, max_owned_uins}
use rcq_server_ref.Uin.Taken.{User, uin_is_taken}
use rcq_server_ref.Voucher.{Codec}
use rcq_server_ref.Shop.Tables.{find_user, find_listing, UinListing, Shop}
use rcq_server_ref.Base.{
  Option, String, ℕ, Bool, some, length, none, true, not, ◌==◌, ◌||◌, ltb, same_text, false,
}
use rcq_server_ref.Shop.Session.{
  ◌>>=◌, ◌>>◌, shop_disabled, taken, invalid_length, Session, check, verified, own_listing,
  self_target, too_many_uins, offer_changed, price_changed,
}

-- The account, the listing of the number, whether resale is open, whether the number is taken, and how
-- many numbers the account has in its collection.
pub record RedeemReads : Type 0 where
  pub user : Option User
  pub listing : Option UinListing
  pub resale : Bool
  pub is_taken : Bool
  pub owned : ℕ

abbrev pub size_of_collection : Option User → Shop → ℕ
size_of_collection none db = 0
size_of_collection (some user) db = length (owned_uins user.uin db)

unfoldable pub read_for_redeem : ℕ → Bool → ℕ → ℕ → Shop → RedeemReads
unfolding find_user find_listing uin_is_taken owned_uins
read_for_redeem now resale me uin db = record {
  user = find_user me db.numbers.users;
  listing = find_listing uin db.listings;
  resale = resale;
  is_taken = uin_is_taken now db.numbers uin none true;
  owned = size_of_collection (find_user me db.numbers.users) db;
}

module _ (c : Codec) (key : Option String) (now : ℕ) where
  unfoldable pub redeem_shelf_on :
      User → RedeemIn → RedeemReads → Shop → Session (Shop × PurchaseOut)
  unfolding verify spend drop_hold deed_first take_number
  redeem_shelf_on user body r db = do
    nonce ← verified (verify c key now body.voucher body.uin)
    check (not r.is_taken) taken
    spent ← spend nonce db
    deeded ← deed_first c key now user body.uin body.switch (drop_hold body.uin spent)
    take_number user body.uin body.switch "purchase" deeded

  unfoldable pub redeem_resale_on :
      User → UinListing → RedeemIn → RedeemReads → Shop → Session (Shop × PurchaseOut)
  unfolding verify_resale spend move_deed delist drop_hold hand_over
  redeem_resale_on user listing body r db = do
    check (not (listing.seller_uin == user.uin)) own_listing
    check (body.switch || ltb r.owned max_owned_uins) too_many_uins
    (nonce, listing_id, price_cents) ← verified (verify_resale c key now body.voucher listing.uin)
    check (same_text listing_id listing.listing_id) offer_changed
    check (is_price price_cents listing.price_cents) price_changed
    spent ← spend nonce db
    moved ← move_deed listing.uin listing.seller_uin user.uin spent
    hand_over c key now user listing.uin body.switch
        (drop_hold listing.uin (delist listing.uin moved))

  unfoldable pub redeem_from_on :
      Bool → Option UinListing → User → RedeemIn → RedeemReads → Shop → Session (Shop × PurchaseOut)
  unfolding redeem_shelf_on redeem_resale_on
  redeem_from_on resale none user body r db = redeem_shelf_on user body r db
  redeem_from_on false (some listing) user body r db = redeem_shelf_on user body r db
  redeem_from_on true (some listing) user body r db = redeem_resale_on user listing body r db

  unfoldable pub redeem_on : Bool → ℕ → RedeemIn → RedeemReads → Shop → Session (Shop × PurchaseOut)
  unfolding is_length in_good_standing redeem_from_on
  redeem_on shop me body r db = do
    check shop shop_disabled
    check (is_length body.uin) invalid_length
    check (not (body.uin == me)) self_target
    user ← in_good_standing r.user
    redeem_from_on r.resale r.listing user body r db
