-- ===== src/Shop/Hold.antt =====
-- `till_hold` of app/routers/uin_shop.py. The rate limit stands before the handler, and an error of
-- the database is an answer of its own.
use Prim.Native.String.{String}
use rcq_server_ref.Base.{
  ℕ, List, Option, Bool, none, some, [], ◌∷◌, true, false, any, length, not, ◌&&◌, ◌||◌, ltb, ◌==◌,
  ◌+◌, ◌*◌, if◌then◌else◌, same_text,
}
use rcq_server_ref.Shop.Tables.{Shop, UinListing, find_hold, delete_hold, with_holds}
use rcq_server_ref.Uin.Digits.{str}
use rcq_server_ref.Uin.Taken.{UinHold, uin_is_taken}
use rcq_server_ref.Voucher.{
  Codec, Code, ok, refused, HoldKind, hold, release, sales_disabled, bad_voucher, voucher_other_uin,
  voucher_other_island, voucher_expired,
}
use rcq_server_ref.Voucher.Verify.{verify_hold}

pub record HoldRequestOut : Type 0 where
  pub uin : ℕ
  pub held : Bool
  pub expires_at : Option ℕ

-- The answers with an error, and the error of a row whose key is there.
pub data Answer : Type 0 where
  done : HoldRequestOut → Answer
  shop_disabled : Answer
  not_verified : ℕ → Code → Answer
  invalid_length : Answer
  taken : Answer
  integrity_error : Answer

abbrev pub min_len : ℕ
min_len = 3

abbrev pub max_len : ℕ
max_len = 9

abbrev pub hold_seconds : ℕ
hold_seconds = 120 * 60

unfoldable pub extend_hold : ℕ → ℕ → List UinHold → List UinHold
extend_hold uin expires_at [] = []
extend_hold uin expires_at (h ∷ hs) =
    if h.uin == uin
    then record h { expires_at = expires_at } ∷ hs
    else h ∷ extend_hold uin expires_at hs

-- `existing is not None and existing.hold_id == hold_id`
abbrev pub is_own : String → Option UinHold → Bool
is_own hold_id none = false
is_own hold_id (some h) = same_text h.hold_id hold_id

-- `_length`
unfoldable pub is_length : ℕ → Bool
unfolding str
is_length uin = not (ltb (length (str uin)) min_len || ltb max_len (length (str uin)))

abbrev pub is_listed : ℕ → Shop → Bool
is_listed uin db = any (λ (l : UinListing). l.uin == uin) db.listings

-- `db.add(...)` and the commit, which refuses a second row of one number.
unfoldable pub add_hold : UinHold → Option UinHold → Shop → Shop × Answer
add_hold h none db = (
  with_holds (h ∷ db.numbers.holds) db,
  done (record { uin = h.uin; held = true; expires_at = some h.expires_at }),
)
add_hold h (some existing) db = (db, integrity_error)

unfoldable pub release_number : ℕ → String → Shop → Shop × Answer
unfolding find_hold delete_hold
release_number uin hold_id db = (
  if is_own hold_id (find_hold uin db.numbers.holds)
      then with_holds (delete_hold uin db.numbers.holds) db
      else db,
  done (record { uin = uin; held = false; expires_at = none }),
)

unfoldable pub hold_number : ℕ → ℕ → String → Shop → Shop × Answer
unfolding is_length find_hold extend_hold add_hold uin_is_taken
hold_number now uin hold_id db =
    let existing = find_hold uin db.numbers.holds in
    let expires = now + hold_seconds in
    if not (is_length uin)
    then (db, invalid_length)
    else if is_own hold_id existing
    then (
      with_holds (extend_hold uin expires db.numbers.holds) db,
      done (record { uin = uin; held = true; expires_at = some expires }),
    )
    else if not (is_listed uin db) && uin_is_taken now db.numbers uin none false
    then (db, taken)
    else add_hold (record { uin = uin; hold_id = hold_id; expires_at = expires }) existing db

-- The handler behind the check of the request.
unfoldable pub till_asks : ℕ → HoldKind → ℕ → String → Shop → Shop × Answer
unfolding release_number hold_number
till_asks now release uin hold_id db = release_number uin hold_id db
till_asks now hold uin hold_id db = hold_number now uin hold_id db

abbrev pub status_of : Code → ℕ
status_of sales_disabled = 404
status_of bad_voucher = 403
status_of voucher_other_uin = 403
status_of voucher_other_island = 403
status_of voucher_expired = 403

unfoldable pub till_hold : Codec → Option String → Bool → ℕ → String → Shop → Shop × Answer
unfolding verify_hold till_asks
till_hold c key uin_shop_enabled now request db =
    if not uin_shop_enabled then (db, shop_disabled) else elim (verify_hold c key now request) [
      | refused code ↦ (db, not_verified (status_of code) code)
      | ok (kind, uin, hold_id, exp) ↦ till_asks now kind uin hold_id db
    ]
