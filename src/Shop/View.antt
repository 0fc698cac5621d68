-- ===== src/Shop/View.antt =====
-- The register of Shop.Register that the tables of the shop stand for, and how the writes of rows show in
-- it.
use rcq_server_ref.Base.{
  ℕ, arith, List, Option, none, some, [], ◌∷◌, true, false, ◌≡◌, ◌==◌, if◌then◌else◌, inl, inr,
  refl, ap, Bool-cases, filter, not,
}
use rcq_server_ref.Uin.Taken.{User, OwnedUin}
use rcq_server_ref.Shop.Tables.{
  Shop, UinListing, find_deed, find_listing, find_user, delete_listing_row,
}
use rcq_server_ref.Shop.Collection.{has_user, has_deed, rekey_deeds, rekey_listings, delete_user}
use rcq_server_ref.Shop.Register.{Terms, Register, put, renamed_holder, renamed_terms}

abbrev pub owner_of : Option OwnedUin → Option ℕ
owner_of none = none
owner_of (some d) = some d.owner_uin

abbrev pub terms_of : UinListing → Terms
terms_of l = record { seller = l.seller_uin; name = l.listing_id; price = l.price_cents }

abbrev pub terms_at : Option UinListing → Option Terms
terms_at none = none
terms_at (some l) = some (terms_of l)

abbrev pub register : Shop → Register
register db = record {
  answers = λ u. has_user u db.numbers.users;
  holder = λ u. owner_of (find_deed u db.numbers.owned);
  offered = λ u. terms_at (find_listing u db.listings);
  spent = db.spent;
}

pub holder_none : (u : ℕ) (ds : List OwnedUin) → has_deed u ds ≡ false → find_deed u ds ≡ none
unfolding has_deed find_deed
holder_none u [] h = refl
holder_none u (d ∷ ds) h = ground (arith, holder_none u ds)

pub user_found :
    (u : ℕ) (us : List User) (user : User)
    → find_user u us ≡ some user
    → (has_user u us ≡ true) × (user.uin ≡ u)
unfolding has_user find_user
user_found u [] user h = absurd (cc h)
user_found u (x ∷ us) user h = elim (Bool-cases (x.uin == u)) [
  | inl e ↦
      (let q : x ≡ user = (let h' = rw e at h in cc h') in
        (rw e refl, (let p = ap (λ (y : User). y.uin) q in ground arith)))
  | inr e ↦ (let (a, b) = user_found u us user (rw e at h) in (rw (e, a) refl, b))
]

pub listing_found :
    (u : ℕ) (ls : List UinListing) (l : UinListing) → find_listing u ls ≡ some l → l.uin ≡ u
unfolding find_listing
listing_found u [] l h = absurd (cc h)
listing_found u (x ∷ ls) l h = elim (Bool-cases (x.uin == u)) [
  | inl e ↦
      (let q : x ≡ l = (let h' = rw e at h in cc h') in
        (let p = ap (λ (y : UinListing). y.uin) q in ground arith))
  | inr e ↦ listing_found u ls l (rw e at h)
]

-- A row that is added.
pub holder_added :
    (d : OwnedUin) (ds : List OwnedUin) (u : ℕ)
    → owner_of (find_deed u (d ∷ ds))
      ≡ put d.uin (some d.owner_uin) (λ v. owner_of (find_deed v ds)) u
unfolding find_deed
holder_added d ds u = ground arith

pub offered_added :
    (l : UinListing) (ls : List UinListing) (u : ℕ)
    → terms_at (find_listing u (l ∷ ls))
      ≡ put l.uin (some (terms_of l)) (λ v. terms_at (find_listing v ls)) u
unfolding find_listing
offered_added l ls u = ground arith

-- The rows of a number that are deleted.
pub holder_deleted :
    (n : ℕ) (ds : List OwnedUin) (u : ℕ)
    → owner_of (find_deed u (filter (λ (d : OwnedUin). not (d.uin == n)) ds))
      ≡ put n none (λ v. owner_of (find_deed v ds)) u
unfolding find_deed
holder_deleted n [] u = ground arith
holder_deleted n (d ∷ ds) u = ground (arith, holder_deleted n ds u)

pub offered_deleted :
    (n : ℕ) (ls : List UinListing) (u : ℕ)
    → terms_at (find_listing u (delete_listing_row n ls))
      ≡ put n none (λ v. terms_at (find_listing v ls)) u
unfolding find_listing delete_listing_row
offered_deleted n [] u = ground arith
offered_deleted n (l ∷ ls) u = ground (arith, offered_deleted n ls u)

pub answers_deleted :
    (n : ℕ) (us : List User) (u : ℕ)
    → has_user u (delete_user n us) ≡ (if u == n then false else has_user u us)
unfolding has_user delete_user
answers_deleted n [] u = ground arith
answers_deleted n (x ∷ us) u = ground (arith, answers_deleted n us u)

-- The rows of an account that goes on under another number.
pub holder_rekeyed :
    (old_uin new_uin : ℕ) (ds : List OwnedUin) (u : ℕ)
    → owner_of (find_deed u (rekey_deeds old_uin new_uin ds))
      ≡ renamed_holder old_uin new_uin (owner_of (find_deed u ds))
unfolding find_deed rekey_deeds
holder_rekeyed old_uin new_uin [] u = refl
holder_rekeyed old_uin new_uin (d ∷ ds) u = ground (arith, holder_rekeyed old_uin new_uin ds u)

pub offered_rekeyed :
    (old_uin new_uin : ℕ) (ls : List UinListing) (u : ℕ)
    → terms_at (find_listing u (rekey_listings old_uin new_uin ls))
      ≡ renamed_terms old_uin new_uin (terms_at (find_listing u ls))
unfolding find_listing rekey_listings
offered_rekeyed old_uin new_uin [] u = refl
offered_rekeyed old_uin new_uin (l ∷ ls) u = ground (arith, offered_rekeyed old_uin new_uin ls u)
