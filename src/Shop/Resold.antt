-- ===== src/Shop/Resold.antt =====
-- What `redeem` and `_redeem_resale` of app/routers/uin_shop.py do to the register.
use Prim.Native.String.{String}
use rcq_server_ref.Base.{
  ℕ, ℤ, pos, arith, List, Option, Bool, none, some, [], ◌∷◌, true, false, ◌≡◌, ◌≢◌, ◌==◌,
  if◌then◌else◌, inl, inr, refl, sym, ◌∙◌, ap, subst, Bool-cases, any, map, not, length, ltb, ◌||◌,
  same_text, same_text_iff, negsuc,
}
use rcq_server_ref.Uin.Taken.{User, OwnedUin}
use rcq_server_ref.Voucher.{Codec, ok}
use rcq_server_ref.Voucher.Verify.{verify_resale}
use rcq_server_ref.Shop.Tables.{Shop, UinListing, find_deed, find_listing}
use rcq_server_ref.Shop.Hold.{is_length}
use rcq_server_ref.Shop.Session.{done, bind_done, after_check, verified, verified_done}
use rcq_server_ref.Shop.Collection.{PurchaseOut, owned_uins, max_owned_uins}
use rcq_server_ref.Shop.Redeem.{
  RedeemIn, standing_user, spend, move_deed, is_sellers, is_price, drop_hold, delist, hand_over,
  redeem_resale, redeem_from, redeem,
}
use rcq_server_ref.Shop.Register.{Register, put, Deals, IsSound}
use rcq_server_ref.Shop.Register.Deal.{resell}
use rcq_server_ref.Shop.Register.Deals.{stand}
use rcq_server_ref.Shop.View.{
  owner_of, terms_of, terms_at, register, listing_found, offered_deleted,
}
use rcq_server_ref.Shop.Moving.{register_ext, take_number_moved, perform_migration-Deal}
use rcq_server_ref.Shop.Bought.{one_deal, IsBought, IsBought-after, spend_done}
use rcq_server_ref.Shop.Sold.{put_at, redeem_shelf-IsBought}

-- The one UPDATE.
abbrev updated : ℕ → ℕ → ℕ → List OwnedUin → List OwnedUin
updated n seller buyer ds =
    map
      (λ (d : OwnedUin).
        if is_sellers n seller d then record d { owner_uin = buyer; source = "purchase" } else d)
      ds

updated_other :
    (n seller buyer : ℕ) (ds : List OwnedUin) (u : ℕ)
    → u ≢ n
    → owner_of (find_deed u (updated n seller buyer ds)) ≡ owner_of (find_deed u ds)
unfolding find_deed
updated_other n seller buyer [] u ne = refl
updated_other n seller buyer (d ∷ ds) u ne = ground (arith, updated_other n seller buyer ds u ne)

-- Where the first row of the number is the seller's, it becomes the buyer's.
updated_same :
    (n seller buyer : ℕ) (ds : List OwnedUin)
    → owner_of (find_deed n ds) ≡ some seller
    → owner_of (find_deed n (updated n seller buyer ds)) ≡ some buyer
unfolding find_deed
updated_same n seller buyer [] h = absurd (cc h)
updated_same n seller buyer (d ∷ ds) h = elim (Bool-cases (d.uin == n)) [
  | inl e ↦
      let h' : some d.owner_uin ≡ some seller = rw e at h in
      let own : d.owner_uin ≡ seller = cc h' in
      let q : (d.owner_uin == seller) ≡ true = ground arith in rw (e, q) (rw e refl)
  | inr e ↦ rw (e) (rw e (updated_same n seller buyer ds (rw e at h)))
]

updated_row :
    (n seller buyer : ℕ) (ds : List OwnedUin) (u : ℕ)
    → owner_of (find_deed n ds) ≡ some seller
    → put n (some buyer) (λ v. owner_of (find_deed v ds)) u
      ≡ owner_of (find_deed u (updated n seller buyer ds))
updated_row n seller buyer ds u h = elim (Bool-cases (u == n)) [
  | inl e ↦
      let q : u ≡ n = ground arith in
      rw e (
        sym (
          ap (λ v. owner_of (find_deed v (updated n seller buyer ds))) q
          ∙ updated_same n seller buyer ds h))
  | inr e ↦ rw e (sym (updated_other n seller buyer ds u (ground arith)))
]

-- The register after an offer is bought.
abbrev resold : String → ℕ → ℕ → Register → Register
resold nonce n buyer r = record r {
  holder = put n (some buyer) r.holder;
  offered = put n none r.offered;
  spent = nonce ∷ r.spent;
}

-- What the tables stand for once the deed has moved and the listing and the hold are gone.
move_deed_done :
    (nonce : String) (n seller buyer : ℕ) (db moved : Shop)
    → owner_of (find_deed n db.numbers.owned) ≡ some seller
    → move_deed n seller buyer (record db { spent = nonce ∷ db.spent }) ≡ done moved
    → resold nonce n buyer (register db) ≡ register (drop_hold n (delist n moved))
unfolding move_deed drop_hold delist
move_deed_done nonce n seller buyer db moved f h =
    let (some_row, r) = after_check (any (is_sellers n seller) db.numbers.owned) _ _ h in
    let e : record db {
      numbers = record db.numbers { owned = updated n seller buyer db.numbers.owned };
      spent = nonce ∷ db.spent;
    }
        ≡ moved =
      cc r in
    register_ext (λ u. refl) (λ u. updated_row n seller buyer db.numbers.owned u f)
      (λ u. sym (offered_deleted n db.listings u)) refl
    ∙ ap (λ x. register (drop_hold n (delist n x))) e

hand_over-Deals :
    (c : Codec) (key : Option String) (now : ℕ) (user : User) (n : ℕ) (switch : Bool)
    (nonce : String) (r : Register) (db db' : Shop) (out : PurchaseOut)
    → resold nonce n user.uin r ≡ register db
    → hand_over c key now user n switch db ≡ done (db', out)
    → Deals (resold nonce n user.uin r) (register db')
unfolding hand_over
hand_over-Deals c key now user n false nonce r db db' out e h =
    let q : db ≡ db' = cc h in
    subst (λ s. Deals (resold nonce n user.uin r) s) (e ∙ ap register q)
      (stand (resold nonce n user.uin r))
hand_over-Deals c key now user n true nonce r db db' out e h =
    subst (λ s. Deals s (register db')) (sym e)
      (one_deal (
        perform_migration-Deal user n db db' (take_number_moved user n "purchase" db db' out h)
          (inr (ap (λ (s : Register). s.holder n) (sym e) ∙ put_at n (some user.uin) r.holder))
          (ap (λ (s : Register). s.offered n) (sym e) ∙ put_at n none r.offered)))

price_is : (price : ℤ) (asked : ℕ) → is_price price asked ≡ true → price ≡ pos asked
price_is (pos cents) asked h = ap pos (ground arith)
price_is (negsuc n) asked h = absurd (cc h)

-- The listing stands on the number that it is found by.
redeem_resale-IsBought :
    (c : Codec) (key : Option String) (now : ℕ) (user : User) (l : UinListing) (body : RedeemIn)
    (db db' : Shop) (out : PurchaseOut)
    → IsSound (register db)
    → find_listing l.uin db.listings ≡ some l
    → redeem_resale c key now user l body db ≡ done (db', out)
    → IsBought c key now l.uin body.voucher db db'
unfolding redeem_resale
redeem_resale-IsBought c key now user l body db db' out s found h =
    let (c0, r0) = after_check (not (l.seller_uin == user.uin)) _ _ h in
    let (c1, r1) =
      after_check (body.switch || ltb (length (owned_uins user.uin db)) max_owned_uins) _ _ r0 in
    let ((nonce, listing_id, price_cents), c2, r2) =
      bind_done (verified (verify_resale c key now body.voucher l.uin)) _ r1 in
    let (c3, r3) = after_check (same_text listing_id l.listing_id) _ _ r2 in
    let (c4, r4) = after_check (is_price price_cents l.price_cents) _ _ r3 in
    let (spent, c5, r5) = bind_done (spend nonce db) _ r4 in
    let (moved, c6, r6) = bind_done (move_deed l.uin l.seller_uin user.uin spent) _ r5 in
    let (new, e) = spend_done nonce db spent c5 in
    let o : (register db).offered l.uin ≡ some (terms_of l) = ap terms_at found in
    let f = s.backed l.uin (terms_of l) o in
    let last =
      move_deed_done nonce l.uin l.seller_uin user.uin db moved f
        (ap (λ x. move_deed l.uin l.seller_uin user.uin x) e ∙ c6) in
    let named : listing_id ≡ l.listing_id = (same_text_iff listing_id l.listing_id).0 c3 in
    let priced = price_is price_cents l.price_cents c4 in
    IsBought-after c key now l.uin body.voucher nonce db db'
      (resold nonce l.uin user.uin (register db))
      (inr (
        l,
        found,
        verified_done _ c2
            ∙ ap (λ x. ok (nonce, x, price_cents)) named
            ∙ ap (λ x. ok (nonce, l.listing_id, x)) priced,
      ))
      new (resell (register db) nonce l.uin user.uin (terms_of l) new o f (ground arith)) (inl refl)
      (hand_over-Deals c key now user l.uin body.switch nonce (register db)
        (drop_hold l.uin (delist l.uin moved)) db' out last r6)

redeem_from-IsBought :
    (c : Codec) (key : Option String) (now : ℕ) (resale : Bool) (o : Option UinListing)
    (user : User) (body : RedeemIn) (db db' : Shop) (out : PurchaseOut)
    → IsSound (register db)
    → find_listing body.uin db.listings ≡ o
    → redeem_from c key now resale o user body db ≡ done (db', out)
    → IsBought c key now body.uin body.voucher db db'
unfolding redeem_from
redeem_from-IsBought c key now resale none user body db db' out s f h =
    redeem_shelf-IsBought c key now user body db db' out s h
redeem_from-IsBought c key now false (some l) user body db db' out s f h =
    redeem_shelf-IsBought c key now user body db db' out s h
redeem_from-IsBought c key now true (some l) user body db db' out s f h =
    let e = listing_found body.uin db.listings l f in
    subst (λ n. IsBought c key now n body.voucher db db') e
      (redeem_resale-IsBought c key now user l body db db' out s
        (ap (λ u. find_listing u db.listings) e ∙ f) h)

-- What is redeemed has been paid for with a nonce that was new, and is sold or resold, and then moved
-- onto where that was asked.
pub redeem-IsBought :
    (c : Codec) (key : Option String) (now : ℕ) (shop resale : Bool) (me : ℕ) (body : RedeemIn)
    (db db' : Shop) (out : PurchaseOut)
    → IsSound (register db)
    → redeem c key now shop resale me body db ≡ done (db', out)
    → IsBought c key now body.uin body.voucher db db'
unfolding redeem
redeem-IsBought c key now shop resale me body db db' out s h =
    let (c0, r0) = after_check shop _ _ h in
    let (c1, r1) = after_check (is_length body.uin) _ _ r0 in
    let (c2, r2) = after_check (not (body.uin == me)) _ _ r1 in
    let (user, c3, r3) = bind_done (standing_user me db) _ r2 in
    redeem_from-IsBought c key now resale (find_listing body.uin db.listings) user body db db' out s
      refl r3
