-- ===== src/Shop/Moving.antt =====
-- What the shared steps of the shop's handlers do to the register: `_perform_migration`, `_take` and a
-- deed that is added.
use Prim.Native.String.{String}
use mathlib.Core.Path.{fun_ext}
use rcq_server_ref.Base.{
  ℕ, arith, List, Option, none, some, ◌∷◌, true, false, ◌≡◌, ◌==◌, if◌then◌else◌, ◌⊎◌, inl, inr,
  refl, sym, ◌∙◌, ap, subst, Bool-cases, filter, not, ltb, length,
}
use rcq_server_ref.Uin.Taken.{User, OwnedUin}
use rcq_server_ref.Uin.Shape.{is_reserved_uin}
use rcq_server_ref.Shop.Tables.{Shop, find_deed, find_listing, find_user}
use rcq_server_ref.Shop.Session.{done, bind_done, after_check, or_raise, or_raise_done}
use rcq_server_ref.Shop.Collection.{
  PurchaseOut, has_user, has_deed, is_held_by, max_owned_uins, add_deed, delete_user,
  rekey_uin_rows, stamped, vacated, with_users, perform_migration, take_number,
}
use rcq_server_ref.Shop.Register.{Register, put, kept_by, moved, Deal}
use rcq_server_ref.Shop.Register.Deal.{move}
use rcq_server_ref.Shop.View.{
  owner_of, terms_at, register, user_found, holder_added, answers_deleted, holder_rekeyed,
  offered_rekeyed,
}

pub register_ext :
    {r s : Register}
    → ((u : ℕ) → r.answers u ≡ s.answers u)
    → ((u : ℕ) → r.holder u ≡ s.holder u)
    → ((u : ℕ) → r.offered u ≡ s.offered u)
    → r.spent ≡ s.spent
    → r ≡ s
register_ext a h o s =
    λ i. record { answers = fun_ext a i; holder = fun_ext h i; offered = fun_ext o i; spent = s i }

stamped_other :
    (o : Option OwnedUin) (old_uin target : ℕ) (db : Shop)
    → ((stamped o old_uin target db).numbers.users ≡ db.numbers.users)
      × ((stamped o old_uin target db).listings ≡ db.listings)
      × ((stamped o old_uin target db).spent ≡ db.spent)
unfolding stamped
stamped_other (some d) old_uin target db = (refl, refl, refl)
stamped_other none old_uin target db = elim (Bool-cases (is_reserved_uin old_uin)) [
  | inl b ↦ rw b (refl, refl, refl)
  | inr b ↦ rw b (refl, refl, refl)
]

stamped_holder :
    (o : Option OwnedUin) (old_uin target : ℕ) (db : Shop) (u : ℕ)
    → find_deed old_uin db.numbers.owned ≡ o
    → owner_of (find_deed u (stamped o old_uin target db).numbers.owned) ≡ (
        let h = owner_of (find_deed u db.numbers.owned) in
        if u == old_uin then kept_by old_uin target h else h)
unfolding stamped
stamped_holder (some d) old_uin target db u e = elim (Bool-cases (u == old_uin)) [
  | inl q ↦ let p : u ≡ old_uin = ground arith in let e' = rw (sym p) at e in rw (q, e') refl
  | inr q ↦ rw q refl
]
stamped_holder none old_uin target db u e = elim (Bool-cases (is_reserved_uin old_uin)) [
  | inl b ↦ rw b (
      holder_added _ db.numbers.owned u ∙ elim (Bool-cases (u == old_uin)) [
        | inl q ↦
            let p : u ≡ old_uin = ground arith in let e' = rw (sym p) at e in rw (q, e', b) refl
        | inr q ↦ rw q refl
      ])
  | inr b ↦ elim (Bool-cases (u == old_uin)) [
    | inl q ↦
        let p : u ≡ old_uin = ground arith in let e' = rw (sym p) at e in rw (b, q, e') (rw b refl)
    | inr q ↦ rw (b, q) refl
  ]
]

user_added :
    (new : User) (us : List User) (old_uin u : ℕ)
    → (if u == old_uin then false else has_user u (new ∷ us))
      ≡ (if u == old_uin then false else if u == new.uin then true else has_user u us)
unfolding has_user
user_added new us old_uin u = ground arith

-- The tables after a migration stand for the register after a move.
pub perform_migration_done :
    (user : User) (target : ℕ) (db db' : Shop)
    → perform_migration user target db ≡ done db'
    → (has_user user.uin db.numbers.users ≡ true)
      × (has_user target db.numbers.users ≡ false)
      × (moved user.uin target (register db) ≡ register db')
unfolding perform_migration rekey_uin_rows vacated
perform_migration_done user target db db' h =
    let (locked, f, r0) = bind_done (or_raise _ (find_user user.uin db.numbers.users)) _ h in
    let (free, r1) = after_check (not (has_user target db.numbers.users)) _ _ r0 in
    let rekeyed =
      rekey_uin_rows user.uin target
        (with_users (record user { uin = target } ∷ db.numbers.users) db) in
    let (same_users, same_listings, same_spent) =
      stamped_other (find_deed user.uin rekeyed.numbers.owned) user.uin target rekeyed in
    let kept = stamped (find_deed user.uin rekeyed.numbers.owned) user.uin target rekeyed in
    let last : with_users (delete_user user.uin kept.numbers.users) kept ≡ db' = cc r1 in
    let found = user_found user.uin db.numbers.users locked (or_raise_done _ _ f) in
    (
      found.0,
      ground arith,
      register_ext
            (λ u. sym (
              answers_deleted user.uin kept.numbers.users u
              ∙ ap (λ us. if u == user.uin then false else has_user u us) same_users
              ∙ user_added (record user { uin = target }) db.numbers.users user.uin u))
            (λ u. sym (
              stamped_holder (find_deed user.uin rekeyed.numbers.owned) user.uin target rekeyed u
                refl
              ∙ ap (λ h. if u == user.uin then kept_by user.uin target h else h)
                  (holder_rekeyed user.uin target db.numbers.owned u)))
            (λ u. sym (
              ap (λ ls. terms_at (find_listing u ls)) same_listings
              ∙ offered_rekeyed user.uin target db.listings u))
            (sym same_spent)
          ∙ ap register last,
    )

-- A deed that is added shows as a holder of a number that had none.
pub add_deed_done :
    (d : OwnedUin) (db db' : Shop)
    → add_deed d db ≡ done db'
    → ◌≡◌ {A = Register}
        (record (register db) { holder = put d.uin (some d.owner_uin) (register db).holder })
        (register db')
unfolding add_deed
add_deed_done d db db' h =
    let (free, r) = after_check (not (has_deed d.uin db.numbers.owned)) _ _ h in
    let last : record db { numbers = record db.numbers { owned = d ∷ db.numbers.owned } } ≡ db' =
      cc r in
    register_ext (λ u. refl) (λ u. sym (holder_added d db.numbers.owned u)) (λ u. refl) refl
    ∙ ap register last

-- A number is kept beside the one that the account answers as.
pub take_number_kept :
    (user : User) (target : ℕ) (source : String) (db db' : Shop) (out : PurchaseOut)
    → take_number user target false source db ≡ done (db', out)
    → ◌≡◌ {A = Register}
        (record (register db) { holder = put target (some user.uin) (register db).holder })
        (register db')
unfolding take_number
take_number_kept user target source db db' out h =
    let (room, r0) =
      after_check (ltb (length (filter (is_held_by user.uin) db.numbers.owned)) max_owned_uins) _ _
        h in
    let d : OwnedUin = record { uin = target; owner_uin = user.uin; source = source } in
    let (kept, a, r1) = bind_done (add_deed d db) _ r0 in
    let e : kept ≡ db' = cc r1 in add_deed_done d db kept a ∙ ap register e

pub take_number_moved :
    (user : User) (target : ℕ) (source : String) (db db' : Shop) (out : PurchaseOut)
    → take_number user target true source db ≡ done (db', out)
    → perform_migration user target db ≡ done db'
unfolding take_number
take_number_moved user target source db db' out h =
    let (m, a, r) = bind_done (perform_migration user target db) _ h in
    let e : m ≡ db' = cc r in a ∙ ap done e

-- An account that may move does.
pub perform_migration-Deal :
    (user : User) (target : ℕ) (db db' : Shop)
    → perform_migration user target db ≡ done db'
    → (((register db).holder target ≡ none) × (is_reserved_uin target ≡ false))
      ⊎ ((register db).holder target ≡ some user.uin)
    → (register db).offered target ≡ none
    → Deal (register db) (register db')
perform_migration-Deal user target db db' h free o =
    let (a, b, e) = perform_migration_done user target db db' h in
    subst (λ s. Deal (register db) s) e (move (register db) user.uin target a b free o)
