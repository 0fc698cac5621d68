-- ===== src/Shop/Redeem.antt =====
-- `redeem`, `_redeem_resale` and `claim` of app/routers/uin_shop.py. The rate limit stands before the
-- handlers; the two switches of the shop are arguments.
use Prim.Native.String.{String}
use rcq_server_ref.Base.{
  ℕ, ℤ, pos, negsuc, Option, Bool, none, some, ◌∷◌, true, false, any, length, map, not, ◌&&◌, ◌||◌,
  ltb, ◌==◌, if◌then◌else◌, same_text,
}
use rcq_server_ref.Uin.Taken.{User, OwnedUin, uin_is_taken}
use rcq_server_ref.Uin.Shape.{is_reserved_uin}
use rcq_server_ref.Voucher.{Codec}
use rcq_server_ref.Voucher.Verify.{verify, verify_resale}
use rcq_server_ref.Shop.Tables.{
  Shop, UinListing, find_listing, find_user, delete_hold, delete_listing_row, with_owned,
  with_holds,
}
use rcq_server_ref.Shop.Hold.{is_length}
use rcq_server_ref.Shop.Session.{
  Session, ◌>>=◌, ◌>>◌, done, check, or_raise, verified, shop_disabled, invalid_length, self_target,
  user_not_found, suspended, own_listing, too_many_uins, offer_changed, price_changed,
  voucher_spent, seller_gone, taken, reserved,
}
use rcq_server_ref.Shop.Collection.{PurchaseOut, max_owned_uins, owned_uins, add_deed, take_number}

pub record RedeemIn : Type 0 where
  pub uin : ℕ
  pub voucher : String
  pub switch : Bool

pub record ClaimIn : Type 0 where
  pub uin : ℕ
  pub switch : Bool

-- `db.get(User, me)` and the two refusals behind it.
unfoldable pub standing_user : ℕ → Shop → Session User
unfolding find_user
standing_user me db = do
  user ← or_raise user_not_found (find_user me db.numbers.users)
  check (not user.is_suspended) suspended
  done user

-- `db.add(SpentVoucher(nonce=nonce))` and the flush, which refuses a second row of one nonce.
unfoldable pub spend : String → Shop → Session Shop
spend nonce db = do
  check (not (any (λ n. same_text n nonce) db.spent)) voucher_spent
  done (record db { spent = nonce ∷ db.spent })

-- The hold of a number goes, if it is there.
unfoldable pub drop_hold : ℕ → Shop → Shop
unfolding delete_hold
drop_hold uin db = with_holds (delete_hold uin db.numbers.holds) db

abbrev pub is_price : ℤ → ℕ → Bool
is_price (pos cents) asked = cents == asked
is_price (negsuc n) asked = false

-- The `WHERE` of the one `UPDATE`.
abbrev pub is_sellers : ℕ → ℕ → OwnedUin → Bool
is_sellers target seller_uin d = d.uin == target && d.owner_uin == seller_uin

-- The `UPDATE`, with no row changed an error.
unfoldable pub move_deed : ℕ → ℕ → ℕ → Shop → Session Shop
move_deed target seller_uin buyer db = do
  check (any (is_sellers target seller_uin) db.numbers.owned) seller_gone
  done (
      with_owned
        (map
          (λ (d : OwnedUin).
            if is_sellers target seller_uin d
            then record d { owner_uin = buyer; source = "purchase" }
            else d)
          db.numbers.owned)
        db)

unfoldable pub delist : ℕ → Shop → Shop
unfolding delete_listing_row
delist uin db = record db { listings = delete_listing_row uin db.listings }

module _ (c : Codec) (key : Option String) (now : ℕ) where
  -- The end of `_redeem_resale`.
  unfoldable pub hand_over : User → ℕ → Bool → Shop → Session (Shop × PurchaseOut)
  unfolding take_number owned_uins
  hand_over user target true db = take_number user target true "purchase" db
  hand_over user target false db =
      done (db, record { new_uin = none; switched = false; owned = owned_uins user.uin db })

  unfoldable pub redeem_resale : User → UinListing → RedeemIn → Shop → Session (Shop × PurchaseOut)
  unfolding verify_resale spend move_deed delist drop_hold owned_uins hand_over
  redeem_resale user listing body db = do
    check (not (listing.seller_uin == user.uin)) own_listing
    check (body.switch || ltb (length (owned_uins user.uin db)) max_owned_uins) too_many_uins
    (nonce, listing_id, price_cents) ← verified (verify_resale c key now body.voucher listing.uin)
    check (same_text listing_id listing.listing_id) offer_changed
    check (is_price price_cents listing.price_cents) price_changed
    spent ← spend nonce db
    moved ← move_deed listing.uin listing.seller_uin user.uin spent
    hand_over user listing.uin body.switch (drop_hold listing.uin (delist listing.uin moved))

  -- The deed of a number that is bought and moved onto at once.
  unfoldable pub deed_first : User → ℕ → Bool → Shop → Session Shop
  unfolding add_deed
  deed_first user target true db =
      add_deed (record { uin = target; owner_uin = user.uin; source = "purchase" }) db
  deed_first user target false db = done db

  unfoldable pub redeem_shelf : User → RedeemIn → Shop → Session (Shop × PurchaseOut)
  unfolding verify uin_is_taken spend drop_hold deed_first take_number
  redeem_shelf user body db = do
    nonce ← verified (verify c key now body.voucher body.uin)
    check (not (uin_is_taken now db.numbers body.uin none true)) taken
    spent ← spend nonce db
    deeded ← deed_first user body.uin body.switch (drop_hold body.uin spent)
    take_number user body.uin body.switch "purchase" deeded

  -- A listed number is its owner's to sell, where resale is open.
  unfoldable pub redeem_from :
      Bool → Option UinListing → User → RedeemIn → Shop → Session (Shop × PurchaseOut)
  unfolding redeem_shelf redeem_resale
  redeem_from resale none user body db = redeem_shelf user body db
  redeem_from false (some listing) user body db = redeem_shelf user body db
  redeem_from true (some listing) user body db = redeem_resale user listing body db

  unfoldable pub redeem : Bool → Bool → ℕ → RedeemIn → Shop → Session (Shop × PurchaseOut)
  unfolding is_length standing_user find_listing redeem_from
  redeem shop resale me body db = do
    check shop shop_disabled
    check (is_length body.uin) invalid_length
    check (not (body.uin == me)) self_target
    user ← standing_user me db
    redeem_from resale (find_listing body.uin db.listings) user body db

-- `claim`, the free take of a number that is not scarce.
unfoldable pub claim : ℕ → Bool → ℕ → ClaimIn → Shop → Session (Shop × PurchaseOut)
unfolding is_length is_reserved_uin uin_is_taken standing_user owned_uins take_number
claim now shop me body db = do
  check shop shop_disabled
  check (is_length body.uin) invalid_length
  check (not (body.uin == me)) self_target
  check (not (is_reserved_uin body.uin)) reserved
  check (not (uin_is_taken now db.numbers body.uin none false)) taken
  user ← standing_user me db
  check (body.switch || ltb (length (owned_uins me db)) max_owned_uins) too_many_uins
  take_number user body.uin body.switch "claimed" db
