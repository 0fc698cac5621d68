-- ===== src/Shop/Refined.antt =====
-- The handlers of app/routers/uin_shop.py, any number of them one after the other, do to the register of
-- Shop.Register only what it allows, and keep it sound.
use Prim.Native.String.{String}
use rcq_server_ref.Base.{ℕ, List, Option, Bool, [], ◌∷◌, ◌≡◌, refl, sym, ◌∙◌, subst}
use rcq_server_ref.Voucher.{Codec}
use rcq_server_ref.Shop.Tables.{Shop}
use rcq_server_ref.Shop.Hold.{till_hold}
use rcq_server_ref.Shop.Session.{Session, done, raised}
use rcq_server_ref.Shop.Redeem.{redeem, claim}
use rcq_server_ref.Shop.Market.{create_listing, activate}
use rcq_server_ref.Shop.Requests.{
  Request, redeeming, claiming, activating, releasing, listing, delisting, holding, migrating,
  registering, Event, state_of, committed, handle, serve, serve_all,
}
use rcq_server_ref.Shop.Register.{Deals, IsSound}
use rcq_server_ref.Shop.Register.Deals.{stand}
use rcq_server_ref.Shop.Sound.{Deals-IsSound, Deals-append}
use rcq_server_ref.Shop.View.{register}
use rcq_server_ref.Shop.Bought.{claim-Deals}
use rcq_server_ref.Shop.Resold.{redeem-IsBought}
use rcq_server_ref.Shop.Account.{migrate}
use rcq_server_ref.Shop.Drawn.{migrate-Deals}
use rcq_server_ref.Shop.Door.{register as register_account}
use rcq_server_ref.Shop.Entered.{register-Deals}
use rcq_server_ref.Shop.Kept.{
  activate-Deals, release-Deals, create_listing-Deals, delete_listing-Deals, register-till_hold,
}

state_of_done :
    {A : Type 0} (m : Session (Shop × A)) (db : Shop)
    → state_of m ≡ done db
    → (out : A) × (m ≡ done (db, out))
state_of_done (done (x, out)) db h = let e : x ≡ db = cc h in (out, rw e refl)
state_of_done (raised e) db h = absurd (cc h)

module _ (c : Codec) (key : Option String) (strip hash : String → String) where
  handle-Deals :
      (now : ℕ) (shop resale : Bool) (request : Request) (db db' : Shop)
      → IsSound (register db)
      → handle c key strip hash now shop resale request db ≡ done db'
      → Deals (register db) (register db')
  unfolding handle
  handle-Deals now shop resale (redeeming me body) db db' s h =
      let (out, e) = state_of_done (redeem c key now shop resale me body db) db' h in
      (redeem-IsBought c key now shop resale me body db db' out s e).4
  handle-Deals now shop resale (claiming me body) db db' s h =
      let (out, e) = state_of_done (claim now shop me body db) db' h in
      claim-Deals now shop me body db db' out s e
  handle-Deals now shop resale (activating me uin) db db' s h =
      let (out, e) = state_of_done (activate me uin db) db' h in activate-Deals me uin db db' out e
  handle-Deals now shop resale (releasing me uin) db db' s h = release-Deals me uin db db' h
  handle-Deals now shop resale (listing me fresh body) db db' s h =
      let (out, e) = state_of_done (create_listing strip now shop resale me fresh body db) db' h in
      create_listing-Deals strip now shop resale me fresh body db db' out s e
  handle-Deals now shop resale (delisting me uin) db db' s h =
      delete_listing-Deals now me uin db db' h
  handle-Deals now shop resale (holding request) db db' s h =
      let e : (till_hold c key shop now request db).0 ≡ db' = cc h in
      subst (λ r. Deals (register db) r)
        (sym (register-till_hold c key shop now request db) ∙ (λ i. register (e i)))
        (stand (register db))
  handle-Deals now shop resale (migrating me remaining draws) db db' s h =
      let (out, e) = state_of_done (migrate now remaining draws me db) db' h in
      migrate-Deals now remaining draws me db db' out s e
  handle-Deals now shop resale (registering door proven tenure draws body) db db' s h =
      let (out, e) =
        state_of_done (register_account hash now c key strip door proven tenure draws body db) db'
          h in
      register-Deals hash now c key strip door proven tenure draws body db db' out s e

  committed-Deals :
      (m : Session Shop) (db : Shop)
      → ((db' : Shop) → m ≡ done db' → Deals (register db) (register db'))
      → Deals (register db) (register (committed m db))
  committed-Deals (done db') db h = h db' refl
  committed-Deals (raised e) db h = stand (register db)

  serve-Deals :
      (e : Event) (db : Shop)
      → IsSound (register db)
      → Deals (register db) (register (serve c key strip hash e db))
  unfolding serve
  serve-Deals e db s =
      committed-Deals
        (handle c key strip hash e.now e.uin_shop_enabled e.uin_resale_enabled e.request db) db
        (λ db' h. handle-Deals e.now e.uin_shop_enabled e.uin_resale_enabled e.request db db' s h)

  -- Whatever requests to the shop are served, in any order, at any moments and with its switches in
  -- any position: from a sound register to that of the tables afterwards there are only deals that
  -- the register allows. A number that is nobody's is sold for a nonce that was not spent, or taken
  -- for nothing where it is not scarce; an offer is bought from its seller, who still holds the
  -- number; and an account moves only onto a number that it holds, or that is nobody's and not
  -- scarce; a new one has a number that is nobody's.
  pub serve_all-Deals :
      (es : List Event) (db : Shop)
      → IsSound (register db)
      → Deals (register db) (register (serve_all c key strip hash es db))
  unfolding serve_all
  serve_all-Deals [] db s = stand (register db)
  serve_all-Deals (e ∷ es) db s =
      let first = serve-Deals e db s in
      Deals-append first (serve_all-Deals es (serve c key strip hash e db) (Deals-IsSound first s))

  -- Whatever requests to the shop are served, a sound register stays sound: nobody answers as a
  -- number that another one holds, what is offered is its seller's, and nobody answers as a number
  -- that is offered.
  pub serve_all-IsSound :
      (es : List Event) (db : Shop)
      → IsSound (register db)
      → IsSound (register (serve_all c key strip hash es db))
  serve_all-IsSound es db s = Deals-IsSound (serve_all-Deals es db s) s
