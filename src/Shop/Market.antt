-- ===== src/Shop/Market.antt =====
-- `create_listing`, `delete_listing`, `release` and `activate` of app/routers/uin_shop.py.
use Prim.Native.String.{String}
use rcq_server_ref.Base.{
  ℕ, List, Option, Bool, none, some, [], ◌∷◌, true, false, any, filter, length, not, ◌&&◌, ◌||◌,
  ltb, ◌==◌, if◌then◌else◌, same_text,
}
use rcq_server_ref.Uin.Taken.{OwnedUin, UinHold}
use rcq_server_ref.Uin.Digits.{str}
use rcq_server_ref.Shop.Tables.{Shop, UinListing, find_deed, find_hold, find_listing, with_owned}
use rcq_server_ref.Shop.Session.{
  Session, ◌>>=◌, ◌>>◌, done, check, shop_disabled, resale_not_open, in_use, no_payout,
  not_for_sale, not_owned, being_paid, not_listed, listed, uin_in_use,
}
use rcq_server_ref.Shop.Collection.{PurchaseOut, take_number}
use rcq_server_ref.Shop.Redeem.{standing_user, delist}

abbrev pub min_sale_len : ℕ
min_sale_len = 4

pub record ListingIn : Type 0 where
  pub uin : ℕ
  pub price_cents : ℕ
  pub payout : List (String × String)

abbrev pub is_live : ℕ → Option UinHold → Bool
is_live now none = false
is_live now (some h) = ltb now h.expires_at

-- `_listing_held`
unfoldable pub listing_held : ℕ → ℕ → Shop → Bool
unfolding find_hold
listing_held now uin db = is_live now (find_hold uin db.numbers.holds)

-- `deed is None or int(deed.owner_uin) != me`, turned round
abbrev pub is_owners : ℕ → Option OwnedUin → Bool
is_owners me none = false
is_owners me (some deed) = deed.owner_uin == me

abbrev pub is_seller : ℕ → Option UinListing → Bool
is_seller me none = false
is_seller me (some row) = row.seller_uin == me

abbrev pub is_none : Option UinListing → Bool
is_none none = true
is_none (some row) = false

-- `strip` is that of Python's texts.
module _ (strip : String → String) where
  abbrev pub stripped : List (String × String) → List (String × String)
  stripped [] = []
  stripped ((chain, address) ∷ payout) = (chain, strip address) ∷ stripped payout

  unfoldable pub is_payout : List (String × String) → Bool
  is_payout [] = false
  is_payout (a ∷ payout) =
      not (any (λ (e : String × String). same_text (strip e.1) "") (a ∷ payout))

abbrev pub has_entry : List (String × String) → String × String → Bool
has_entry payout (chain, address) =
    any (λ (e : String × String). same_text e.0 chain && same_text e.1 address) payout

-- Two dicts are equal whatever their order.
unfoldable pub same_payout : List (String × String) → List (String × String) → Bool
same_payout a b = length a == length b && not (any (λ (e : String × String). not (has_entry b e)) a)

-- The row of a listing, at another price.
unfoldable pub repriced : ℕ → List (String × String) → String → UinListing → UinListing
unfolding same_payout
repriced price_cents payout fresh existing = record existing {
  price_cents = price_cents;
  payout = payout;
  listing_id =
      if not (existing.price_cents == price_cents) || not (same_payout existing.payout payout)
      then fresh
      else existing.listing_id;
}

-- The write of one row.
unfoldable pub put_listing : UinListing → List UinListing → List UinListing
put_listing row [] = []
put_listing row (l ∷ ls) = if l.uin == row.uin then row ∷ ls else l ∷ put_listing row ls

-- The end of `create_listing`, by the row that is there.
unfoldable pub offer :
    ℕ → ℕ → String → ListingIn → Option UinListing → Shop → Session (Shop × UinListing)
unfolding listing_held repriced put_listing
offer now me fresh body none db =
    (let row : UinListing = record {
      uin = body.uin;
      seller_uin = me;
      listing_id = fresh;
      price_cents = body.price_cents;
      payout = body.payout;
    } in
      done (record db { listings = row ∷ db.listings }, row))
offer now me fresh body (some existing) db = do
  check (not (listing_held now body.uin db)) being_paid
  let row = repriced body.price_cents body.payout fresh existing
  done (record db { listings = put_listing row db.listings }, row)

-- `fresh` is `secrets.token_hex(8)`.
unfoldable pub create_listing :
    (String → String)
    → ℕ
    → Bool
    → Bool
    → ℕ
    → String
    → ListingIn
    → Shop
    → Session (Shop × UinListing)
unfolding is_payout str find_deed find_listing offer
create_listing strip now shop resale me fresh body db = do
  check shop shop_disabled
  check resale resale_not_open
  check (not (body.uin == me)) in_use
  check (is_payout strip body.payout) no_payout
  check (not (ltb (length (str body.uin)) min_sale_len)) not_for_sale
  check (is_owners me (find_deed body.uin db.numbers.owned)) not_owned
  offer now me fresh (record body { payout = stripped strip body.payout })
      (find_listing body.uin db.listings) db

unfoldable pub delete_listing : ℕ → ℕ → ℕ → Shop → Session Shop
unfolding find_listing listing_held delist
delete_listing now me uin db = do
  check (is_seller me (find_listing uin db.listings)) not_listed
  check (not (listing_held now uin db)) being_paid
  done (delist uin db)

unfoldable pub delete_deed : ℕ → Shop → Shop
delete_deed uin db = with_owned (filter (λ (d : OwnedUin). not (d.uin == uin)) db.numbers.owned) db

-- `release`; its answer is the page of the collection.
unfoldable pub release : ℕ → ℕ → Shop → Session Shop
unfolding find_listing find_deed delete_deed
release me uin db = do
  check (is_none (find_listing uin db.listings)) listed
  check (not (uin == me)) uin_in_use
  check (is_owners me (find_deed uin db.numbers.owned)) not_owned
  done (delete_deed uin db)

unfoldable pub activate : ℕ → ℕ → Shop → Session (Shop × PurchaseOut)
unfolding find_listing find_deed standing_user take_number
activate me uin db = do
  check (is_none (find_listing uin db.listings)) listed
  check (is_owners me (find_deed uin db.numbers.owned)) not_owned
  user ← standing_user me db
  take_number user uin true "activate" db
