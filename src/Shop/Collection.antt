-- ===== src/Shop/Collection.antt =====
-- `_owned_uins`, `_take` and what `_take` calls: `_perform_migration` of app/routers/migrate.py, on
-- `users`, `owned_uins` and `uin_listings`. The rest of a profile, the other tables of `rekey_uin_rows`
-- and the epoch and token of a number are left out.
use Prim.Native.String.{String}
use rcq_server_ref.Base.{
  ℕ, List, Option, Bool, none, some, ◌∷◌, true, false, any, filter, length, map, not, ◌&&◌, ltb,
  ◌==◌, if◌then◌else◌, sort_by,
}
use rcq_server_ref.Uin.Taken.{User, OwnedUin}
use rcq_server_ref.Uin.Shape.{is_reserved_uin}
use rcq_server_ref.Shop.Tables.{Shop, UinListing, find_deed, find_user, with_owned}
use rcq_server_ref.Shop.Session.{
  Session, ◌>>=◌, ◌>>◌, done, check, or_raise, user_not_found, taken, collection_full,
  integrity_error,
}

-- Without the token, which is made of the number and its epoch.
pub record PurchaseOut : Type 0 where
  pub new_uin : Option ℕ
  pub switched : Bool
  pub owned : List ℕ

abbrev pub max_owned_uins : ℕ
max_owned_uins = 10

-- `OwnedUin.owner_uin == owner, OwnedUin.uin != owner`
abbrev pub is_held_by : ℕ → OwnedUin → Bool
is_held_by owner d = d.owner_uin == owner && not (d.uin == owner)

unfoldable pub owned_uins : ℕ → Shop → List ℕ
owned_uins owner db =
    sort_by (λ (u : ℕ). u)
      (map (λ (d : OwnedUin). d.uin) (filter (is_held_by owner) db.numbers.owned))

unfoldable pub has_user : ℕ → List User → Bool
has_user uin us = any (λ (u : User). u.uin == uin) us

unfoldable pub has_deed : ℕ → List OwnedUin → Bool
has_deed uin ds = any (λ (d : OwnedUin). d.uin == uin) ds

-- `db.add(OwnedUin(...))` and the flush, which refuses a second row of one number.
unfoldable pub add_deed : OwnedUin → Shop → Session Shop
unfolding has_deed
add_deed d db = do
  check (not (has_deed d.uin db.numbers.owned)) integrity_error
  done (with_owned (d ∷ db.numbers.owned) db)

unfoldable pub rekey_deeds : ℕ → ℕ → List OwnedUin → List OwnedUin
rekey_deeds old_uin new_uin ds =
    map (λ (d : OwnedUin). if d.owner_uin == old_uin then record d { owner_uin = new_uin } else d)
      ds

unfoldable pub rekey_listings : ℕ → ℕ → List UinListing → List UinListing
rekey_listings old_uin new_uin ls =
    map
      (λ (l : UinListing). if l.seller_uin == old_uin then record l { seller_uin = new_uin } else l)
      ls

-- `db.delete(user)`
unfoldable pub delete_user : ℕ → List User → List User
delete_user uin us = filter (λ (u : User). not (u.uin == uin)) us

-- `rekey_uin_rows`
unfoldable pub rekey_uin_rows : ℕ → ℕ → Shop → Shop
unfolding rekey_deeds rekey_listings
rekey_uin_rows old_uin new_uin db = record db {
  numbers = record db.numbers { owned = rekey_deeds old_uin new_uin db.numbers.owned };
  listings = rekey_listings old_uin new_uin db.listings;
}

-- What becomes of the number that the account leaves: a row stays whoever holds it, a scarce number
-- without one is kept, and any other goes back to the pool.
unfoldable pub stamped : Option OwnedUin → ℕ → ℕ → Shop → Shop
stamped (some stale) old_uin target_uin db = db
stamped none old_uin target_uin db =
    if is_reserved_uin old_uin
    then with_owned
        (record { uin = old_uin; owner_uin = target_uin; source = "migrated" } ∷ db.numbers.owned)
        db
    else db

unfoldable pub vacated : ℕ → ℕ → Shop → Shop
unfolding find_deed stamped
vacated old_uin target_uin db = stamped (find_deed old_uin db.numbers.owned) old_uin target_uin db

abbrev pub with_users : List User → Shop → Shop
with_users users db = record db { numbers = record db.numbers { users = users } }

unfoldable pub perform_migration : User → ℕ → Shop → Session Shop
unfolding find_user has_user rekey_uin_rows vacated delete_user
perform_migration user target_uin db = do
  locked ← or_raise user_not_found (find_user user.uin db.numbers.users)
  check (not (has_user target_uin db.numbers.users)) taken
  let moved =
      rekey_uin_rows user.uin target_uin
        (with_users (record user { uin = target_uin } ∷ db.numbers.users) db)
  let kept = vacated user.uin target_uin moved
  done (with_users (delete_user user.uin kept.numbers.users) kept)

-- `_take`
unfoldable pub take_number : User → ℕ → Bool → String → Shop → Session (Shop × PurchaseOut)
unfolding add_deed perform_migration owned_uins
take_number user target false source db = do
  check (ltb (length (filter (is_held_by user.uin) db.numbers.owned)) max_owned_uins)
      collection_full
  kept ← add_deed (record { uin = target; owner_uin = user.uin; source = source }) db
  done
      (kept, record { new_uin = some user.uin; switched = false; owned = owned_uins user.uin kept })
take_number user target true source db = do
  moved ← perform_migration user target db
  done (moved, record { new_uin = some target; switched = true; owned = owned_uins target moved })
