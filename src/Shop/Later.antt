-- ===== src/Shop/Later.antt =====
-- `create_listing` and `activate` of app/routers/uin_shop.py, with what they have read, on later tables.
use rcq_server_ref.Uin.Digits.{str}
use rcq_server_ref.Shop.Moving.{perform_migration_done, take_number_moved}
use rcq_server_ref.Shop.Requests.{state_of}
use rcq_server_ref.Shop.Redeem.{standing_user}
use rcq_server_ref.Shop.View.{register, terms_at}
use rcq_server_ref.Shop.Overlap.{
  offer_on, create_listing_on, activate_on, read_for_listing, read_for_activate, in_good_standing,
}
use rcq_server_ref.Uin.Taken.{User}
use rcq_server_ref.Shop.Collection.{
  perform_migration, take_number, has_user, PurchaseOut, rekey_uin_rows, with_users, vacated,
  delete_user,
}
use rcq_server_ref.Shop.Tables.{find_listing, UinListing, Shop, find_user, find_deed}
use rcq_server_ref.Base.{
  Option, ℕ, String, List, ◌≡◌, Bool, some, none, true, ◌∷◌, false, arith, refl, ◌==◌, Bool-cases,
  not, sym, ap, inl, ltb, ◌∙◌, inr, length,
}
use rcq_server_ref.Shop.Register.{Register, Terms, IsSound, renamed_terms}
use rcq_server_ref.Shop.Market.{
  offer, create_listing, activate, ListingIn, stripped, is_none, is_owners, is_payout, min_sale_len,
}
use rcq_server_ref.Shop.Session.{done, bind_done, or_raise, after_check}

-- The two handlers are what they read and then what they write, where nothing comes between.
pub create_listing-create_listing_on :
    (strip : String → String) (now : ℕ) (shop resale : Bool) (me : ℕ) (fresh : String)
    (body : ListingIn) (db : Shop)
    → find_listing body.uin db.listings ≡ none
    → create_listing strip now shop resale me fresh body db
      ≡ create_listing_on strip shop resale me fresh body (read_for_listing body.uin db) db
unfolding create_listing create_listing_on read_for_listing offer offer_on
create_listing-create_listing_on strip now shop resale me fresh body db h = simp (h) refl

pub activate-activate_on :
    (me uin : ℕ) (db : Shop)
    → activate me uin db ≡ activate_on me uin (read_for_activate me uin db) db
unfolding activate activate_on read_for_activate standing_user
activate-activate_on me uin db = refl

-- A number that is offered and answered as.
pub not_idle :
    (r : Register) (u : ℕ) (t : Terms) → r.offered u ≡ some t → r.answers u ≡ true → ¬ IsSound r
not_idle r u t o a s = let q = s.idle u t o in cc (a, q)

none_offered : (o : Option UinListing) → terms_at o ≡ none → is_none o ≡ true
none_offered none h = refl
none_offered (some l) h = absurd (cc h)

other_number :
    (old_uin uin : ℕ) (us : List User)
    → has_user old_uin us ≡ true
    → has_user uin us ≡ false
    → (uin == old_uin) ≡ false
other_number old_uin uin us a b = elim (Bool-cases (uin == old_uin)) [
  | inl e ↦ absurd (let q : uin ≡ old_uin = ground arith in cc (a, b, q))
  | inr e ↦ e
]

-- What an activation that goes through does to the number.
pub activate_done :
    (me uin : ℕ) (db db' : Shop) (out : PurchaseOut)
    → activate me uin db ≡ done (db', out)
    → (find_listing uin db.listings ≡ none)
      × (is_none (find_listing uin db'.listings) ≡ true)
      × ((register db').answers uin ≡ true)
unfolding activate
activate_done me uin db db' out h =
    let (c0, r0) = after_check (is_none (find_listing uin db.listings)) _ _ h in
    let (c1, r1) = after_check (is_owners me (find_deed uin db.numbers.owned)) _ _ r0 in
    let (user, c2, r2) = bind_done (standing_user me db) _ r1 in
    let (a, b, m) =
      perform_migration_done user uin db db'
        (take_number_moved user uin "activate" db db' out r2) in
    let free = none_row (find_listing uin db.listings) c0 in
    let d : (uin == user.uin) ≡ false = other_number user.uin uin db.numbers.users a b in
    (
      free,
      none_offered (find_listing uin db'.listings) (
          sym (ap (λ (r : Register). r.offered uin) m)
          ∙ ap (λ o. renamed_terms user.uin uin (terms_at o)) free),
      sym (ap (λ (r : Register). r.answers uin) m) ∙ rw d (ground arith),
    )
  where
    none_row : (o : Option UinListing) → is_none o ≡ true → o ≡ none
    none_row none q = refl
    none_row (some l) q = absurd (cc q)

-- The tables with a number put up for sale.
abbrev pub offered_by : (String → String) → ℕ → String → ListingIn → Shop → Shop
offered_by strip me fresh body db = record db {
  listings =
      record {
        uin = body.uin;
        seller_uin = me;
        listing_id = fresh;
        price_cents = body.price_cents;
        payout = stripped strip body.payout;
      }
      ∷ db.listings;
}

-- A listing that goes through on what it has read writes its row into later tables too, where they have
-- none of the number.
pub create_listing_later :
    (strip : String → String) (now : ℕ) (shop resale : Bool) (me : ℕ) (fresh : String)
    (body : ListingIn) (db db' later : Shop) (row : UinListing)
    → create_listing strip now shop resale me fresh body db ≡ done (db', row)
    → is_none (find_listing body.uin later.listings) ≡ true
    → state_of
        (create_listing_on strip shop resale me fresh body (read_for_listing body.uin db) later)
      ≡ done (offered_by strip me fresh body later)
unfolding create_listing create_listing_on read_for_listing offer_on
create_listing_later strip now shop resale me fresh body db db' later row h n =
    let (c0, r0) = after_check shop _ _ h in
    let (c1, r1) = after_check resale _ _ r0 in
    let (c2, r2) = after_check (not (body.uin == me)) _ _ r1 in
    let (c3, r3) = after_check (is_payout strip body.payout) _ _ r2 in
    let (c4, r4) = after_check (not (ltb (length (str body.uin)) min_sale_len)) _ _ r3 in
    let (c5, r5) = after_check (is_owners me (find_deed body.uin db.numbers.owned)) _ _ r4 in
    simp (c0, c1, c2, c3, c4, c5, n) refl

pub offered_by-offered :
    (strip : String → String) (me : ℕ) (fresh : String) (body : ListingIn) (db : Shop)
    → (register (offered_by strip me fresh body db)).offered body.uin
      ≡ some (record { seller = me; name = fresh; price = body.price_cents })
unfolding find_listing
offered_by-offered strip me fresh body db = ground arith

pub perform_migration_later :
    (user : User) (target : ℕ) (db db' : Shop) (ls : List UinListing)
    → perform_migration user target db ≡ done db'
    → (last : Shop) × (perform_migration user target (record db { listings = ls }) ≡ done last)
unfolding perform_migration
perform_migration_later user target db db' ls h =
    let (locked, f, r0) = bind_done (or_raise _ (find_user user.uin db.numbers.users)) _ h in
    let (free, r1) = after_check (not (has_user target db.numbers.users)) _ _ r0 in
    let rekeyed = rekey_uin_rows user.uin target (
      with_users (record user { uin = target } ∷ db.numbers.users) (record db { listings = ls })) in
    let kept = vacated user.uin target rekeyed in
    (with_users (delete_user user.uin kept.numbers.users) kept, simp (f, free) refl)

take_number_state :
    (user : User) (target : ℕ) (source : String) (db last : Shop)
    → perform_migration user target db ≡ done last
    → state_of (take_number user target true source db) ≡ done last
unfolding take_number
take_number_state user target source db last h = rw h refl

-- An activation that goes through on what it has read moves the account in later tables too, where only
-- what is offered is different.
pub activate_later :
    (me uin : ℕ) (db db' : Shop) (ls : List UinListing) (out : PurchaseOut)
    → activate me uin db ≡ done (db', out)
    → (user : User) × (last : Shop) × (state_of
          (activate_on me uin (read_for_activate me uin db) (record db { listings = ls }))
        ≡ done last)
      × (perform_migration user uin (record db { listings = ls }) ≡ done last)
unfolding activate activate_on read_for_activate standing_user in_good_standing
activate_later me uin db db' ls out h =
    let (c0, r0) = after_check (is_none (find_listing uin db.listings)) _ _ h in
    let (c1, r1) = after_check (is_owners me (find_deed uin db.numbers.owned)) _ _ r0 in
    let (user, c2, r2) = bind_done (standing_user me db) _ r1 in
    let (last, p) =
      perform_migration_later user uin db db' ls
        (take_number_moved user uin "activate" db db' out r2) in
    (
      user,
      last,
      rw (c0, c1, c2) (take_number_state user uin "activate" (record db { listings = ls }) last p),
      p,
    )

pub moved_offered :
    (user : User) (uin : ℕ) (db db' : Shop) (t : Terms)
    → perform_migration user uin db ≡ done db'
    → (register db).offered uin ≡ some t
    → ¬ IsSound (register db')
moved_offered user uin db db' t h o =
    let (a, b, m) = perform_migration_done user uin db db' h in
    let d = other_number user.uin uin db.numbers.users a b in
    not_idle (register db') uin _
      (sym (ap (λ (r : Register). r.offered uin) m) ∙ ap (λ x. renamed_terms user.uin uin x) o)
      (sym (ap (λ (r : Register). r.answers uin) m) ∙ rw d (ground arith))
