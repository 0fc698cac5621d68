-- ===== src/Shop/Kept.antt =====
-- What the other handlers of app/routers/uin_shop.py do to the register: `activate`, `release`,
-- `create_listing`, `delete_listing` and `till_hold`.
use Prim.Native.String.{String}
use rcq_server_ref.Base.{
  ℕ, arith, List, Option, Bool, none, some, [], ◌∷◌, true, false, ◌≡◌, ◌≢◌, ◌==◌, inl, inr, refl,
  sym, ◌∙◌, ap, subst, Bool-cases, Option-cases, not, length, ltb, ◌&&◌,
}
use rcq_server_ref.Uin.Taken.{OwnedUin, uin_is_taken}
use rcq_server_ref.Uin.Digits.{str}
use rcq_server_ref.Voucher.{Codec, HoldKind, hold, release as release_kind}
use rcq_server_ref.Voucher.Verify.{verify_hold}
use rcq_server_ref.Voucher.Checked.{Outcome-cases}
use rcq_server_ref.Shop.Tables.{Shop, UinListing, find_deed, find_listing, find_hold}
use rcq_server_ref.Shop.Hold.{
  is_own, is_length, is_listed, add_hold, release_number, hold_number, till_asks, till_hold,
}
use rcq_server_ref.Shop.Session.{done, bind_done, after_check}
use rcq_server_ref.Shop.Collection.{PurchaseOut}
use rcq_server_ref.Shop.Redeem.{standing_user, delist}
use rcq_server_ref.Shop.Market.{
  ListingIn, min_sale_len, is_none, is_owners, is_seller, is_payout, stripped, listing_held,
  repriced, put_listing, offer, create_listing, delete_listing, delete_deed, release, activate,
}
use rcq_server_ref.Shop.Register.{Register, put, Deal, Deals, IsSound}
use rcq_server_ref.Shop.Register.Deal.{give_up, offer as offer_deal, withdraw}
use rcq_server_ref.Shop.View.{
  owner_of, terms_of, terms_at, register, listing_found, offered_added, offered_deleted,
  holder_deleted,
}
use rcq_server_ref.Shop.Moving.{register_ext, take_number_moved, perform_migration-Deal}
use rcq_server_ref.Shop.Bought.{one_deal, standing_user_done}

none_listed : (o : Option UinListing) → is_none o ≡ true → terms_at o ≡ none
none_listed none h = refl
none_listed (some l) h = absurd (cc h)

owned_by : (me : ℕ) (o : Option OwnedUin) → is_owners me o ≡ true → owner_of o ≡ some me
owned_by me none h = absurd (cc h)
owned_by me (some d) h = ap some (ground arith)

sold_by :
    (me : ℕ) (o : Option UinListing)
    → is_seller me o ≡ true
    → (l : UinListing) × (o ≡ some l) × (l.seller_uin ≡ me)
sold_by me none h = absurd (cc h)
sold_by me (some l) h = (l, refl, ground arith)

pub activate-Deals :
    (me uin : ℕ) (db db' : Shop) (out : PurchaseOut)
    → activate me uin db ≡ done (db', out)
    → Deals (register db) (register db')
unfolding activate
activate-Deals me uin db db' out h =
    let (c0, r0) = after_check (is_none (find_listing uin db.listings)) _ _ h in
    let (c1, r1) = after_check (is_owners me (find_deed uin db.numbers.owned)) _ _ r0 in
    let (user, c2, r2) = bind_done (standing_user me db) _ r1 in
    let e = standing_user_done me db user c2 in
    let f = owned_by me (find_deed uin db.numbers.owned) c1 in
    one_deal (
      perform_migration-Deal user uin db db' (take_number_moved user uin "activate" db db' out r2)
        (inr (f ∙ ap some (sym e))) (none_listed (find_listing uin db.listings) c0))

pub release-Deals :
    (me uin : ℕ) (db db' : Shop) → release me uin db ≡ done db' → Deals (register db) (register db')
unfolding release delete_deed
release-Deals me uin db db' h =
    let (c0, r0) = after_check (is_none (find_listing uin db.listings)) _ _ h in
    let (c1, r1) = after_check (not (uin == me)) _ _ r0 in
    let (c2, r2) = after_check (is_owners me (find_deed uin db.numbers.owned)) _ _ r1 in
    let e : delete_deed uin db ≡ db' = cc r2 in
    let same : ◌≡◌ {A = Register}
        (record (register db) { holder = put uin none (register db).holder })
        (register (delete_deed uin db)) =
      register_ext (λ u. refl) (λ u. sym (holder_deleted uin db.numbers.owned u)) (λ u. refl)
        refl in
    one_deal (
      subst (λ s. Deal (register db) s) (same ∙ ap register e)
        (give_up (register db) uin me (ground arith)
          (owned_by me (find_deed uin db.numbers.owned) c2)
          (none_listed (find_listing uin db.listings) c0)))

register-delist :
    (uin : ℕ) (db : Shop)
    → ◌≡◌ {A = Register}
        (record (register db) { offered = put uin none (register db).offered })
        (register (delist uin db))
unfolding delist
register-delist uin db =
    register_ext (λ u. refl) (λ u. refl) (λ u. sym (offered_deleted uin db.listings u)) refl

pub delete_listing-Deals :
    (now me uin : ℕ) (db db' : Shop)
    → delete_listing now me uin db ≡ done db'
    → Deals (register db) (register db')
unfolding delete_listing
delete_listing-Deals now me uin db db' h =
    let (c0, r0) = after_check (is_seller me (find_listing uin db.listings)) _ _ h in
    let (c1, r1) = after_check (not (listing_held now uin db)) _ _ r0 in
    let (l, f, own) = sold_by me (find_listing uin db.listings) c0 in
    let e : delist uin db ≡ db' = cc r1 in
    one_deal (
      subst (λ s. Deal (register db) s) (register-delist uin db ∙ ap register e)
        (withdraw (register db) uin (terms_of l) (ap terms_at f)))

-- The row of a listing that is written over.
offered_put :
    (row : UinListing) (ls : List UinListing) (l : UinListing) (u : ℕ)
    → find_listing row.uin ls ≡ some l
    → put row.uin (some (terms_of row)) (λ v. terms_at (find_listing v ls)) u
      ≡ terms_at (find_listing u (put_listing row ls))
unfolding find_listing put_listing
offered_put row [] l u h = absurd (cc h)
offered_put row (x ∷ ls) l u h = elim (Bool-cases (x.uin == row.uin)) [
  | inl e ↦ rw e (ground arith)
  | inr e ↦ let rest = offered_put row ls l u (rw e at h) in rw e (ground arith)
]

pub offer-Deals :
    (now me : ℕ) (fresh : String) (body : ListingIn) (o : Option UinListing) (db db' : Shop)
    (row : UinListing)
    → IsSound (register db)
    → body.uin ≢ me
    → find_listing body.uin db.listings ≡ o
    → (register db).holder body.uin ≡ some me
    → offer now me fresh body o db ≡ done (db', row)
    → Deals (register db) (register db')
unfolding offer repriced
offer-Deals now me fresh body none db db' row s ne f own h =
    let new : UinListing = record {
      uin = body.uin;
      seller_uin = me;
      listing_id = fresh;
      price_cents = body.price_cents;
      payout = body.payout;
    } in
    let e : record db { listings = new ∷ db.listings } ≡ db' = cc h in
    let same : ◌≡◌ {A = Register}
        (record (register db) {
          offered = put body.uin (some (terms_of new)) (register db).offered;
        })
        (register (record db { listings = new ∷ db.listings })) =
      register_ext (λ u. refl) (λ u. refl) (λ u. sym (offered_added new db.listings u)) refl in
    one_deal (
      subst (λ x. Deal (register db) x) (same ∙ ap register e)
        (offer_deal (register db) body.uin (terms_of new) ne own))
offer-Deals now me fresh body (some l) db db' row s ne f own h =
    let (c0, r0) = after_check (not (listing_held now body.uin db)) _ _ h in
    let new = repriced body.price_cents body.payout fresh l in
    let e : record db { listings = put_listing new db.listings } ≡ db' = cc r0 in
    let here : l.uin ≡ body.uin = listing_found body.uin db.listings l f in
    let sells : l.seller_uin ≡ me =
      (let q = s.backed body.uin (terms_of l) (ap terms_at f) in cc (q, own)) in
    let same : ◌≡◌ {A = Register}
        (record (register db) { offered = put l.uin (some (terms_of new)) (register db).offered })
        (register (record db { listings = put_listing new db.listings })) =
      register_ext (λ u. refl) (λ u. refl)
        (λ u. offered_put new db.listings l u (ap (λ v. find_listing v db.listings) here ∙ f))
        refl in
    one_deal (
      subst (λ x. Deal (register db) x) (same ∙ ap register e)
        (offer_deal (register db) l.uin (terms_of new) (λ q. ne (cc (q, here, sells)))
          (ap (register db).holder here ∙ own ∙ ap some (sym sells))))

pub create_listing-Deals :
    (strip : String → String) (now : ℕ) (shop resale : Bool) (me : ℕ) (fresh : String)
    (body : ListingIn) (db db' : Shop) (row : UinListing)
    → IsSound (register db)
    → create_listing strip now shop resale me fresh body db ≡ done (db', row)
    → Deals (register db) (register db')
unfolding create_listing
create_listing-Deals strip now shop resale me fresh body db db' row s h =
    let (c0, r0) = after_check shop _ _ h in
    let (c1, r1) = after_check resale _ _ r0 in
    let (c2, r2) = after_check (not (body.uin == me)) _ _ r1 in
    let (c3, r3) = after_check (is_payout strip body.payout) _ _ r2 in
    let (c4, r4) = after_check (not (ltb (length (str body.uin)) min_sale_len)) _ _ r3 in
    let (c5, r5) = after_check (is_owners me (find_deed body.uin db.numbers.owned)) _ _ r4 in
    offer-Deals now me fresh (record body { payout = stripped strip body.payout })
      (find_listing body.uin db.listings) db db' row s (ground arith) refl
      (owned_by me (find_deed body.uin db.numbers.owned) c5) r5

-- The till's requests write holds, and nothing of the register.
register-till_asks :
    (now : ℕ) (kind : HoldKind) (uin : ℕ) (hold_id : String) (db : Shop)
    → register (till_asks now kind uin hold_id db).0 ≡ register db
unfolding till_asks release_number hold_number add_hold
register-till_asks now release_kind uin hold_id db =
    elim (Bool-cases (is_own hold_id (find_hold uin db.numbers.holds))) [
      | inl e ↦ rw e refl
      | inr e ↦ rw e refl
    ]
register-till_asks now hold uin hold_id db =
    let busy = not (is_listed uin db) && uin_is_taken now db.numbers uin none false in
    elim (Bool-cases (is_length uin)) [
      | inr l ↦ rw l refl
      | inl l ↦ elim (Bool-cases (is_own hold_id (find_hold uin db.numbers.holds))) [
        | inl own ↦ rw (l, own) refl
        | inr own ↦ elim (Bool-cases busy) [
          | inl b ↦ rw (l, own, b) refl
          | inr b ↦ elim (Option-cases (find_hold uin db.numbers.holds)) [
            | inl o ↦ rw (l, own, b, o) refl
            | inr (x, o) ↦ let own' = rw o at own in rw (l, b, o) (rw own' refl)
          ]
        ]
      ]
    ]

pub register-till_hold :
    (c : Codec) (key : Option String) (enabled : Bool) (now : ℕ) (request : String) (db : Shop)
    → register (till_hold c key enabled now request db).0 ≡ register db
unfolding till_hold
register-till_hold c key false now request db = refl
register-till_hold c key true now request db =
    elim (Outcome-cases (verify_hold c key now request)) [
      | inl (code, o) ↦ rw o refl
      | inr ((kind, uin, hold_id, exp), o) ↦ rw o (register-till_asks now kind uin hold_id db)
    ]
