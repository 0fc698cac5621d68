-- ===== src/Shop/Tables.antt =====
-- The tables of the shop: app/models/uin_listing.py and app/models/uin_sale.py beside those of Uin.Taken,
-- and the rows that a key finds.
use Prim.Native.String.{String}
use rcq_server_ref.Base.{ℕ, List, Option, none, some, [], ◌∷◌, filter, not, ◌==◌, if◌then◌else◌}
use rcq_server_ref.Uin.Taken.{Numbers, User, OwnedUin, UinHold}

pub record UinListing : Type 0 where
  pub uin : ℕ
  pub seller_uin : ℕ
  pub listing_id : String
  pub price_cents : ℕ
  pub payout : List (String × String)

-- The numbers, what is listed for resale, and the nonces of `spent_vouchers`.
pub record Shop : Type 0 where
  pub numbers : Numbers
  pub listings : List UinListing
  pub spent : List String

-- `db.get(UinHold, uin)`
unfoldable pub find_hold : ℕ → List UinHold → Option UinHold
find_hold uin [] = none
find_hold uin (h ∷ hs) = if h.uin == uin then some h else find_hold uin hs

unfoldable pub delete_hold : ℕ → List UinHold → List UinHold
delete_hold uin hs = filter (λ (h : UinHold). not (h.uin == uin)) hs

-- `db.get(OwnedUin, uin)`
unfoldable pub find_deed : ℕ → List OwnedUin → Option OwnedUin
find_deed uin [] = none
find_deed uin (d ∷ ds) = if d.uin == uin then some d else find_deed uin ds

-- `db.get(UinListing, uin)`
unfoldable pub find_listing : ℕ → List UinListing → Option UinListing
find_listing uin [] = none
find_listing uin (l ∷ ls) = if l.uin == uin then some l else find_listing uin ls

unfoldable pub delete_listing_row : ℕ → List UinListing → List UinListing
delete_listing_row uin ls = filter (λ (l : UinListing). not (l.uin == uin)) ls

-- `db.get(User, uin)`
unfoldable pub find_user : ℕ → List User → Option User
find_user uin [] = none
find_user uin (u ∷ us) = if u.uin == uin then some u else find_user uin us

abbrev pub with_owned : List OwnedUin → Shop → Shop
with_owned owned db = record db { numbers = record db.numbers { owned = owned } }

abbrev pub with_holds : List UinHold → Shop → Shop
with_holds holds db = record db { numbers = record db.numbers { holds = holds } }
