-- ===== src/Shop/SpentOnce.antt =====
-- Redemptions that overlap (`redeem` of app/routers/uin_shop.py) spend the nonces of their vouchers.
use rcq_server_ref.Shop.Bought.{spend_done}
use rcq_server_ref.Shop.Overlap.{in_good_standing}
use rcq_server_ref.Shop.Hold.{is_length}
use rcq_server_ref.Shop.Moving.{
  take_number_kept, add_deed_done, perform_migration_done, take_number_moved,
}
use rcq_server_ref.Shop.Register.{Register}
use rcq_server_ref.Shop.Simultaneous.{
  redeem_shelf_on, redeem_resale_on, redeem_from_on, redeem_on, RedeemReads,
}
use rcq_server_ref.Shop.Redeem.{
  deed_first, hand_over, move_deed, drop_hold, RedeemIn, delist, is_sellers, spend, is_price,
}
use rcq_server_ref.Shop.Once.{Carries, verify-Carries, verify_resale-Carries}
use rcq_server_ref.Shop.Collection.{PurchaseOut, take_number, max_owned_uins}
use rcq_server_ref.Base.{
  ◌≡◌, ℕ, Option, Bool, String, ap, sym, ◌∈◌, any, ◌∷◌, true, not, some, ◌==◌, none, ◌||◌, false,
  ltb, same_text, ◌∙◌,
}
use rcq_server_ref.Voucher.{Codec}
use rcq_server_ref.Uin.Taken.{User}
use rcq_server_ref.Shop.Tables.{Shop, UinListing}
use rcq_server_ref.Shop.Session.{done, Session, after_check, bind_done, verified, verified_done}
use rcq_server_ref.Voucher.Verify.{verify, verify_resale}

same_spent : (a b : Shop) → ◌≡◌ {A = Session Shop} (done a) (done b) → b.spent ≡ a.spent
same_spent a b h = let e : a ≡ b = cc h in ap (λ (x : Shop). x.spent) (sym e)

take_number-spent :
    (user : User) (target : ℕ) (switch : Bool) (source : String) (db db' : Shop) (out : PurchaseOut)
    → take_number user target switch source db ≡ done (db', out)
    → db'.spent ≡ db.spent
take_number-spent user target false source db db' out h =
    sym (ap (λ (r : Register). r.spent) (take_number_kept user target source db db' out h))
take_number-spent user target true source db db' out h =
    let (a, b, m) =
      perform_migration_done user target db db'
        (take_number_moved user target source db db' out h) in
    sym (ap (λ (r : Register). r.spent) m)

-- A redemption that goes through on whatever it has read spends the nonce of its voucher.
abbrev pub Spends : (c : Codec) → Option String → String → Shop → Shop → Type 0
Spends c key text db db' =
    (nonce : String) × Carries c key text nonce
    × (¬ (nonce ∈ db.spent))
    × (db'.spent ≡ nonce ∷ db.spent)

module _ (c : Codec) (key : Option String) (now : ℕ) where
  deed_first-spent :
      (user : User) (target : ℕ) (switch : Bool) (db db' : Shop)
      → deed_first c key now user target switch db ≡ done db'
      → db'.spent ≡ db.spent
  unfolding deed_first
  deed_first-spent user target true db db' h =
      sym (ap (λ (r : Register). r.spent) (add_deed_done _ db db' h))
  deed_first-spent user target false db db' h = cc h

  hand_over-spent :
      (user : User) (target : ℕ) (switch : Bool) (db db' : Shop) (out : PurchaseOut)
      → hand_over c key now user target switch db ≡ done (db', out)
      → db'.spent ≡ db.spent
  unfolding hand_over
  hand_over-spent user target true db db' out h =
      take_number-spent user target true "purchase" db db' out h
  hand_over-spent user target false db db' out h =
      let e : db ≡ db' = cc h in ap (λ (x : Shop). x.spent) (sym e)

  move_deed-spent :
      (target seller buyer : ℕ) (db db' : Shop)
      → move_deed target seller buyer db ≡ done db'
      → db'.spent ≡ db.spent
  unfolding move_deed
  move_deed-spent target seller buyer db db' h =
      let (a, r) = after_check (any (is_sellers target seller) db.numbers.owned) _ _ h in
      same_spent _ _ r

  redeem_shelf_on-Spends :
      (user : User) (body : RedeemIn) (r : RedeemReads) (db db' : Shop) (out : PurchaseOut)
      → redeem_shelf_on c key now user body r db ≡ done (db', out)
      → Spends c key body.voucher db db'
  unfolding redeem_shelf_on drop_hold
  redeem_shelf_on-Spends user body r db db' out h =
      let (nonce, c0, r0) = bind_done (verified (verify c key now body.voucher body.uin)) _ h in
      let (c1, r1) = after_check (not r.is_taken) _ _ r0 in
      let (s, c2, r2) = bind_done (spend nonce db) _ r1 in
      let (deeded, c3, r3) =
        bind_done (deed_first c key now user body.uin body.switch (drop_hold body.uin s)) _ r2 in
      let (new, e) = spend_done nonce db s c2 in
      (
        nonce,
        verify-Carries c key now body.voucher body.uin nonce (verified_done _ c0),
        new,
        take_number-spent user body.uin body.switch "purchase" deeded db' out r3
            ∙ deed_first-spent user body.uin body.switch (drop_hold body.uin s) deeded c3
            ∙ ap (λ (x : Shop). x.spent) (sym e),
      )

  redeem_resale_on-Spends :
      (user : User) (l : UinListing) (body : RedeemIn) (r : RedeemReads) (db db' : Shop)
      (out : PurchaseOut)
      → redeem_resale_on c key now user l body r db ≡ done (db', out)
      → Spends c key body.voucher db db'
  unfolding redeem_resale_on drop_hold delist
  redeem_resale_on-Spends user l body r db db' out h =
      let (c0, r0) = after_check (not (l.seller_uin == user.uin)) _ _ h in
      let (c1, r1) = after_check (body.switch || ltb r.owned max_owned_uins) _ _ r0 in
      let ((nonce, listing_id, price), c2, r2) =
        bind_done (verified (verify_resale c key now body.voucher l.uin)) _ r1 in
      let (c3, r3) = after_check (same_text listing_id l.listing_id) _ _ r2 in
      let (c4, r4) = after_check (is_price price l.price_cents) _ _ r3 in
      let (s, c5, r5) = bind_done (spend nonce db) _ r4 in
      let (m, c6, r6) = bind_done (move_deed l.uin l.seller_uin user.uin s) _ r5 in
      let (new, e) = spend_done nonce db s c5 in
      (
        nonce,
        verify_resale-Carries c key now body.voucher l.uin nonce listing_id price
            (verified_done _ c2),
        new,
        hand_over-spent user l.uin body.switch (drop_hold l.uin (delist l.uin m)) db' out r6
            ∙ move_deed-spent l.uin l.seller_uin user.uin s m c6
            ∙ ap (λ (x : Shop). x.spent) (sym e),
      )

  redeem_from_on-Spends :
      (resale : Bool) (o : Option UinListing) (user : User) (body : RedeemIn) (r : RedeemReads)
      (db db' : Shop) (out : PurchaseOut)
      → redeem_from_on c key now resale o user body r db ≡ done (db', out)
      → Spends c key body.voucher db db'
  unfolding redeem_from_on
  redeem_from_on-Spends resale none user body r db db' out h =
      redeem_shelf_on-Spends user body r db db' out h
  redeem_from_on-Spends false (some l) user body r db db' out h =
      redeem_shelf_on-Spends user body r db db' out h
  redeem_from_on-Spends true (some l) user body r db db' out h =
      redeem_resale_on-Spends user l body r db db' out h

  pub redeem_on-Spends :
      (shop : Bool) (me : ℕ) (body : RedeemIn) (r : RedeemReads) (db db' : Shop) (out : PurchaseOut)
      → redeem_on c key now shop me body r db ≡ done (db', out)
      → Spends c key body.voucher db db'
  unfolding redeem_on
  redeem_on-Spends shop me body r db db' out h =
      let (c0, r0) = after_check shop _ _ h in
      let (c1, r1) = after_check (is_length body.uin) _ _ r0 in
      let (c2, r2) = after_check (not (body.uin == me)) _ _ r1 in
      let (user, c3, r3) = bind_done (in_good_standing r.user) _ r2 in
      redeem_from_on-Spends r.resale r.listing user body r db db' out r3
