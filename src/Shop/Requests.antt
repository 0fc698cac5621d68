-- ===== src/Shop/Requests.antt =====
-- The requests to app/routers/uin_shop.py that write, with `migrate` and `register`, one after the
-- other; a handler that raises has
-- its session rolled back.
use Prim.Native.String.{String}
use rcq_server_ref.Base.{ℕ, List, Option, Bool, [], ◌∷◌}
use rcq_server_ref.Voucher.{Codec}
use rcq_server_ref.Shop.Tables.{Shop}
use rcq_server_ref.Shop.Hold.{till_hold}
use rcq_server_ref.Shop.Session.{Session, done, raised}
use rcq_server_ref.Shop.Redeem.{RedeemIn, ClaimIn, redeem, claim}
use rcq_server_ref.Shop.Door.{Door, RegisterIn, register}
use rcq_server_ref.Shop.Account.{migrate}
use rcq_server_ref.Shop.Market.{ListingIn, create_listing, delete_listing, release, activate}

-- A request with what the server draws for it.
pub data Request : Type 0 where
  redeeming : ℕ → RedeemIn → Request
  claiming : ℕ → ClaimIn → Request
  activating : ℕ → ℕ → Request
  releasing : ℕ → ℕ → Request
  listing : ℕ → String → ListingIn → Request
  delisting : ℕ → ℕ → Request
  holding : String → Request
  migrating : ℕ → ℕ → List ℕ → Request
  registering : Door → Bool → Bool → List ℕ → RegisterIn → Request

-- The moment and the two switches of the shop come with a request.
pub record Event : Type 0 where
  pub now : ℕ
  pub uin_shop_enabled : Bool
  pub uin_resale_enabled : Bool
  pub request : Request

abbrev pub state_of : {A : Type 0} → Session (Shop × A) → Session Shop
state_of (done (db, out)) = done db
state_of (raised e) = raised e

abbrev pub committed : Session Shop → Shop → Shop
committed (done db') db = db'
committed (raised e) db = db

module _ (c : Codec) (key : Option String) (strip hash : String → String) where
  unfoldable pub handle : ℕ → Bool → Bool → Request → Shop → Session Shop
  unfolding redeem claim activate release create_listing delete_listing till_hold migrate register
  handle now shop resale (redeeming me body) db = state_of (redeem c key now shop resale me body db)
  handle now shop resale (claiming me body) db = state_of (claim now shop me body db)
  handle now shop resale (activating me uin) db = state_of (activate me uin db)
  handle now shop resale (releasing me uin) db = release me uin db
  handle now shop resale (listing me fresh body) db =
      state_of (create_listing strip now shop resale me fresh body db)
  handle now shop resale (delisting me uin) db = delete_listing now me uin db
  handle now shop resale (holding request) db = done (till_hold c key shop now request db).0
  handle now shop resale (migrating me remaining draws) db =
      state_of (migrate now remaining draws me db)
  handle now shop resale (registering door proven tenure draws body) db =
      state_of (register hash now c key strip door proven tenure draws body db)

  unfoldable pub serve : Event → Shop → Shop
  unfolding handle
  serve e db = committed (handle e.now e.uin_shop_enabled e.uin_resale_enabled e.request db) db

  unfoldable pub serve_all : List Event → Shop → Shop
  unfolding serve
  serve_all [] db = db
  serve_all (e ∷ es) db = serve_all es (serve e db)
