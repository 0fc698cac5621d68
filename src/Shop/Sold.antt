-- ===== src/Shop/Sold.antt =====
-- What a number that is redeemed from the shelf does to the register (`redeem` of
-- app/routers/uin_shop.py).
use Prim.Native.String.{String}
use rcq_server_ref.Base.{
  ℕ, arith, Option, Bool, none, some, ◌∷◌, true, false, ◌≡◌, inl, inr, refl, sym, ◌∙◌, ap, subst,
  not,
}
use rcq_server_ref.Uin.Taken.{User, OwnedUin, uin_is_taken}
use rcq_server_ref.Voucher.{Codec}
use rcq_server_ref.Voucher.Verify.{verify}
use rcq_server_ref.Shop.Tables.{Shop, find_deed}
use rcq_server_ref.Shop.Session.{done, bind_done, after_check, verified, verified_done}
use rcq_server_ref.Shop.Collection.{PurchaseOut, take_number}
use rcq_server_ref.Shop.Redeem.{RedeemIn, spend, drop_hold, deed_first, redeem_shelf}
use rcq_server_ref.Shop.Register.{Register, put, Deals, IsSound}
use rcq_server_ref.Shop.Register.Deal.{sell}
use rcq_server_ref.Shop.Register.Deals.{stand}
use rcq_server_ref.Shop.View.{owner_of, register}
use rcq_server_ref.Shop.Moving.{
  add_deed_done, take_number_kept, take_number_moved, perform_migration-Deal,
}
use rcq_server_ref.Shop.Bought.{
  one_deal, IsBought, IsBought-after, not_taken, not_offered, spend_done,
}

pub put_at : {A : Type 0} (n : ℕ) (a : A) (f : ℕ → A) → put n a f n ≡ a
put_at n a f = ground arith

-- The register of a shop in which a nonce is spent and a hold dropped.
abbrev paid : String → ℕ → Shop → Shop
paid nonce n db = drop_hold n (record db { spent = nonce ∷ db.spent })

-- The register after a sale from the shelf.
abbrev sold : String → ℕ → ℕ → Register → Register
sold nonce n buyer r = record r { holder = put n (some buyer) r.holder; spent = nonce ∷ r.spent }

-- What follows a nonce that is spent on a number that is nobody's.
shelf-Deals :
    (c : Codec) (key : Option String) (now : ℕ) (user : User) (n : ℕ) (switch : Bool)
    (nonce : String) (db deeded db' : Shop) (out : PurchaseOut)
    → (register db).offered n ≡ none
    → deed_first c key now user n switch (paid nonce n db) ≡ done deeded
    → take_number user n switch "purchase" deeded ≡ done (db', out)
    → Deals (sold nonce n user.uin (register db)) (register db')
unfolding deed_first drop_hold
shelf-Deals c key now user n false nonce db deeded db' out o d t =
    let e : paid nonce n db ≡ deeded = cc d in
    subst (λ s. Deals (sold nonce n user.uin (register db)) s)
      (take_number_kept user n "purchase" (paid nonce n db) db' out
        (subst (λ x. take_number user n false "purchase" x ≡ done (db', out)) (sym e) t))
      (stand (sold nonce n user.uin (register db)))
shelf-Deals c key now user n true nonce db deeded db' out o d t =
    let row : OwnedUin = record { uin = n; owner_uin = user.uin; source = "purchase" } in
    let e : sold nonce n user.uin (register db) ≡ register deeded =
      add_deed_done row (paid nonce n db) deeded d in
    subst (λ s. Deals s (register db')) (sym e)
      (one_deal (
        perform_migration-Deal user n deeded db'
          (take_number_moved user n "purchase" deeded db' out t)
          (inr (
            ap (λ (r : Register). r.holder n) (sym e)
            ∙ put_at n (some user.uin) (register db).holder))
          (ap (λ (r : Register). r.offered n) (sym e) ∙ o)))

pub redeem_shelf-IsBought :
    (c : Codec) (key : Option String) (now : ℕ) (user : User) (body : RedeemIn) (db db' : Shop)
    (out : PurchaseOut)
    → IsSound (register db)
    → redeem_shelf c key now user body db ≡ done (db', out)
    → IsBought c key now body.uin body.voucher db db'
unfolding redeem_shelf
redeem_shelf-IsBought c key now user body db db' out s h =
    let (nonce, c0, r0) = bind_done (verified (verify c key now body.voucher body.uin)) _ h in
    let (c1, r1) = after_check (not (uin_is_taken now db.numbers body.uin none true)) _ _ r0 in
    let (spent, c2, r2) = bind_done (spend nonce db) _ r1 in
    let (new, e) = spend_done nonce db spent c2 in
    let (deeded, c3, r3) =
      bind_done (deed_first c key now user body.uin body.switch (drop_hold body.uin spent)) _ r2 in
    let (a, d) = not_taken now db.numbers body.uin none true (ground arith) in
    let f : owner_of (find_deed body.uin db.numbers.owned) ≡ none = ap owner_of d in
    let o = not_offered (register db) body.uin s f in
    IsBought-after c key now body.uin body.voucher nonce db db'
      (sold nonce body.uin user.uin (register db)) (inl (verified_done _ c0)) new
      (sell (register db) nonce body.uin user.uin new a f o) (inl refl)
      (shelf-Deals c key now user body.uin body.switch nonce db deeded db' out o
        (ap (λ x. deed_first c key now user body.uin body.switch (drop_hold body.uin x)) e ∙ c3) r3)
