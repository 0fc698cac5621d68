-- ===== src/Shop/Undivided.antt =====
-- `redeem` of app/routers/uin_shop.py with nothing between what it reads and what it writes.
use rcq_server_ref.Shop.Hold.{is_length}
use rcq_server_ref.Shop.Collection.{owned_uins, PurchaseOut}
use rcq_server_ref.Uin.Taken.{User, uin_is_taken}
use rcq_server_ref.Shop.Tables.{UinListing, Shop, find_user, find_listing}
use rcq_server_ref.Shop.Overlap.{in_good_standing}
use rcq_server_ref.Shop.Simultaneous.{
  redeem_from_on, redeem_on, read_for_redeem, redeem_shelf_on, redeem_resale_on, RedeemReads,
}
use rcq_server_ref.Shop.Redeem.{
  redeem_from, redeem, redeem_shelf, standing_user, redeem_resale, RedeemIn,
}
use rcq_server_ref.Base.{
  Option, String, ℕ, Bool, ◌≡◌, some, none, true, refl, length, false, ap, not, ◌==◌,
}
use rcq_server_ref.Voucher.{Codec}
use rcq_server_ref.Shop.Session.{
  ◌>>=◌, ◌>>◌, shop_disabled, invalid_length, self_target, done, Session, check, suspended,
}

same_standing :
    (b : Bool) (user : User) (f g : User → Session (Shop × PurchaseOut))
    → f user ≡ g user
    → ((check b suspended >> done user) >>= f) ≡ ((check b suspended >> done user) >>= g)
same_standing true user f g h = h
same_standing false user f g h = refl

module _ (c : Codec) (key : Option String) (now : ℕ) where
  -- With nothing in between the two parts are the handler.
  redeem_from-on :
      (resale : Bool) (o : Option UinListing) (user : User) (body : RedeemIn) (r : RedeemReads)
      (db : Shop)
      → r.is_taken ≡ uin_is_taken now db.numbers body.uin none true
      → r.owned ≡ length (owned_uins user.uin db)
      → redeem_from c key now resale o user body db
        ≡ redeem_from_on c key now resale o user body r db
  unfolding redeem_from redeem_from_on redeem_shelf redeem_shelf_on redeem_resale redeem_resale_on
  redeem_from-on resale none user body r db t n = simp (t) refl
  redeem_from-on false (some l) user body r db t n = simp (t) refl
  redeem_from-on true (some l) user body r db t n = simp (n) refl

  redeem-found :
      (shop resale : Bool) (me : ℕ) (body : RedeemIn) (o : Option User) (db : Shop)
      → find_user me db.numbers.users ≡ o
      → redeem c key now shop resale me body db
        ≡ redeem_on c key now shop me body (read_for_redeem now resale me body.uin db) db
  unfolding redeem redeem_on read_for_redeem standing_user in_good_standing
  redeem-found shop resale me body none db h = simp (h) refl
  redeem-found shop resale me body (some user) db h = rw h (
      ap
        (λ (k : Session (Shop × PurchaseOut)).
          check shop shop_disabled
          >> (check (is_length body.uin) invalid_length
              >> (check (not (body.uin == me)) self_target >> k)))
        (same_standing (not user.is_suspended) user _ _ (
          redeem_from-on resale (find_listing body.uin db.listings) user body
            (record {
              user = some user;
              listing = find_listing body.uin db.listings;
              resale = resale;
              is_taken = uin_is_taken now db.numbers body.uin none true;
              owned = length (owned_uins user.uin db);
            })
            db refl refl)))

  -- With nothing in between, the two parts are the handler.
  pub redeem-redeem_on :
      (shop resale : Bool) (me : ℕ) (body : RedeemIn) (db : Shop)
      → redeem c key now shop resale me body db
        ≡ redeem_on c key now shop me body (read_for_redeem now resale me body.uin db) db
  redeem-redeem_on shop resale me body db =
      redeem-found shop resale me body (find_user me db.numbers.users) db refl
