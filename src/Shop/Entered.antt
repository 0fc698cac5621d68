-- ===== src/Shop/Entered.antt =====
-- What `register` of app/routers/auth.py does to the register.
use Prim.Native.String.{String}
use rcq_server_ref.Base.{
  ℕ, arith, List, Option, Bool, none, ◌∷◌, true, false, any, ◌≡◌, ◌∈◌, ◌⊎◌, inl, inr, refl, sym,
  ◌∙◌, ap, subst, Bool-cases, not, ◌&&◌,
}
use rcq_server_ref.Uin.Taken.{allocate_in, allocate_uin}
use rcq_server_ref.Voucher.{
  Codec, Outcome, ok, refused, sales_disabled, bad_voucher, voucher_other_uin, voucher_other_island,
  voucher_expired,
}
use rcq_server_ref.Voucher.Verify.{verify_entry}
use rcq_server_ref.Shop.Tables.{Shop, find_deed}
use rcq_server_ref.Shop.Session.{
  Session, done, raised, bind_done, after_check, or_raise, or_raise_done, allocation_exhausted,
}
use rcq_server_ref.Shop.Collection.{has_user, with_users}
use rcq_server_ref.Shop.Redeem.{spend}
use rcq_server_ref.Shop.Door.{
  Door, RegisterIn, Entry, first_entry, is_empty, is_gated, invite_gates, vanity_gates, entered,
  gated, ungated, admitted, granted, desired, or_else, register as register_account,
}
use rcq_server_ref.Shop.Register.{Register, put, Deal, Deals, IsSound}
use rcq_server_ref.Shop.Register.Deal.{admit, enter}
use rcq_server_ref.Shop.Register.Deals.{stand, then_deal}
use rcq_server_ref.Shop.Sound.{Deals-IsSound}
use rcq_server_ref.Shop.View.{owner_of, register}
use rcq_server_ref.Shop.Moving.{register_ext}
use rcq_server_ref.Shop.Bought.{one_deal, not_offered, spend_done}
use rcq_server_ref.Shop.Chosen.{chosen_free}

-- The nonce of a voucher for entry is new, and spent.
pub entered_done :
    (o : Outcome String) (code : String) (db db1 : Shop) (entry : Entry)
    → entered o code db ≡ done (db1, entry)
    → ((nonce : String) × (o ≡ ok nonce)
        × (¬ (nonce ∈ db.spent))
        × (◌≡◌ {A = Shop} (record db { spent = nonce ∷ db.spent }) db1))
      ⊎ ((db ≡ db1) × (entry.is_resident ≡ false) × (entry.code ≡ code))
unfolding entered
entered_done (ok nonce) code db db1 entry h =
    let (spent, c0, r0) = bind_done (spend nonce db) _ h in
    let (new, e) = spend_done nonce db spent c0 in
    let q : spent ≡ db1 = cc r0 in inl (nonce, refl, new, e ∙ q)
entered_done (refused voucher_other_island) code db db1 entry h = absurd (cc h)
entered_done (refused voucher_expired) code db db1 entry h = absurd (cc h)
entered_done (refused sales_disabled) code db db1 entry h =
    let q : ◌≡◌ {A = Entry} (record { code = code; is_resident = false }) entry = cc h in
    inr (cc h, ap (λ (x : Entry). x.is_resident) (sym q), ap (λ (x : Entry). x.code) (sym q))
entered_done (refused bad_voucher) code db db1 entry h =
    let q : ◌≡◌ {A = Entry} (record { code = code; is_resident = false }) entry = cc h in
    inr (cc h, ap (λ (x : Entry). x.is_resident) (sym q), ap (λ (x : Entry). x.code) (sym q))
entered_done (refused voucher_other_uin) code db db1 entry h =
    let q : ◌≡◌ {A = Entry} (record { code = code; is_resident = false }) entry = cc h in
    inr (cc h, ap (λ (x : Entry). x.is_resident) (sym q), ap (λ (x : Entry). x.code) (sym q))

entered-Deals :
    (o : Outcome String) (code : String) (db db1 : Shop) (entry : Entry)
    → entered o code db ≡ done (db1, entry)
    → Deals (register db) (register db1)
entered-Deals o code db db1 entry h = elim (entered_done o code db db1 entry h) [
  | inl (nonce, v, new, e) ↦
      subst (λ x. Deals (register db) (register x)) e (one_deal (admit (register db) nonce new))
  | inr (e, f, g) ↦ subst (λ x. Deals (register db) (register x)) e (stand (register db))
]

abbrev left_of : Session (Shop × Option ℕ) → Register → Register
left_of (done (db, o)) r = register db
left_of (raised e) r = r

first_entry-Deals :
    (hash : String → String) (now : ℕ) (c : Codec) (key : Option String) (host code : String)
    (db db1 : Shop) (entry : Entry)
    → first_entry hash now c key host code db ≡ done (db1, entry)
    → Deals (register db) (register db1)
unfolding first_entry
first_entry-Deals hash now c key host code db db1 entry h = elim (Bool-cases (is_empty code)) [
  | inl b ↦
      let q : ◌≡◌ {A = Session (Shop × Entry)}
          (done (db, record { code = ""; is_resident = false })) (done (db1, entry)) =
        rw b at h in
      let e : db ≡ db1 = cc q in
      subst (λ x. Deals (register db) (register x)) e (stand (register db))
  | inr b ↦ entered-Deals (verify_entry c key now code host) code db db1 entry (rw b at h)
]

-- The gates write invites, and nothing of the register.
admitted_same :
    (hash : String → String) (now : ℕ) (policy : String) (entry : Entry) (db db2 : Shop)
    (o : Option ℕ)
    → admitted hash now policy entry db ≡ done (db2, o)
    → register db ≡ register db2
unfolding admitted gated ungated
admitted_same hash now policy entry db db2 o h =
    elim (Bool-cases (is_gated policy && not entry.is_resident)) [
      | inl b ↦
          let h' : gated hash now policy entry db ≡ done (db2, o) = rw b at h in
          let (c0, r0) = after_check (not (is_empty entry.code)) _ _ h' in
          let (c1, r1) =
            after_check (any (invite_gates now (hash entry.code)) db.numbers.invites) _ _ r0 in
          ap (λ (x : Session (Shop × Option ℕ)). left_of x (register db)) r1
      | inr b ↦
          let h' : done (ungated hash now entry db) ≡ done (db2, o) = rw b at h in
          elim (Bool-cases (
            not (is_empty entry.code)
            && any (vanity_gates now (hash entry.code)) db.numbers.invites)) [
              | inl v ↦ ap (λ (x : Session (Shop × Option ℕ)). left_of x (register db)) (rw v at h')
              | inr v ↦ ap (λ (x : Session (Shop × Option ℕ)). left_of x (register db)) (rw v at h')
            ]
    ]

user_enters :
    (n : ℕ) (db : Shop)
    → ◌≡◌ {A = Register}
        (record (register db) { answers = put n true (register db).answers })
        (register (with_users (record { uin = n; is_suspended = false } ∷ db.numbers.users) db))
unfolding has_user
user_enters n db = register_ext (λ u. ground arith) (λ u. refl) (λ u. refl) refl

pub register-Deals :
    (hash : String → String) (now : ℕ) (c : Codec) (key : Option String) (strip : String → String)
    (door : Door) (proven tenure : Bool) (draws : List ℕ) (body : RegisterIn) (db db' : Shop)
    (n : ℕ)
    → IsSound (register db)
    → register_account hash now c key strip door proven tenure draws body db ≡ done (db', n)
    → Deals (register db) (register db')
unfolding register_account allocate_uin
register-Deals hash now c key strip door proven tenure draws body db db' n s h =
    let ((db1, entry), c0, r0) =
      bind_done (first_entry hash now c key door.island_host (strip body.invite) db) _ h in
    let ((db2, reserved), c1, r1) =
      bind_done (admitted hash now door.registration_policy entry db1) _ r0 in
    let (uin, c2, r2) =
      bind_done
        (or_raise allocation_exhausted (
          or_else (granted hash now (strip body.invite) reserved db2.numbers) (
            or_else (desired hash now proven tenure body.desired_uin db2.numbers)
              (allocate_in 100 now db2.numbers draws))))
        _ r1 in
    let first =
      first_entry-Deals hash now c key door.island_host (strip body.invite) db db1 entry c0 in
    let same : register db1 ≡ register db2 =
      admitted_same hash now door.registration_policy entry db1 db2 reserved c1 in
    let gone : Deals (register db) (register db2) = subst (λ x. Deals (register db) x) same first in
    let (a, d) =
      chosen_free hash now (strip body.invite) reserved body.desired_uin proven tenure db2.numbers
        draws uin (or_raise_done _ _ c2) in
    let f : owner_of (find_deed uin db2.numbers.owned) ≡ none = ap owner_of d in
    let o = not_offered (register db2) uin (Deals-IsSound gone s) f in
    let last : with_users (record { uin = uin; is_suspended = false } ∷ db2.numbers.users) db2
        ≡ db' =
      cc r2 in
    then_deal (register db) (register db2) (register db') gone (
      subst (λ x. Deal (register db2) x) (user_enters uin db2 ∙ ap register last)
        (enter (register db2) uin a f o))
