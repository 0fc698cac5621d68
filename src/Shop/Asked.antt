-- ===== src/Shop/Asked.antt =====
-- How many accounts an invite or paid island makes (`register` of app/routers/auth.py).
use Prim.Native.String.{String}
use rcq_server_ref.Base.{ℕ, arith, List, Option, Bool, [], ◌∷◌, true, length, ◌≡◌, ◌≤◌, ◌+◌, refl}
use rcq_server_ref.Voucher.{Codec}
use rcq_server_ref.Shop.Tables.{Shop}
use rcq_server_ref.Shop.Session.{Session, done, raised}
use rcq_server_ref.Shop.Door.{Door, RegisterIn, is_gated, register}
use rcq_server_ref.Shop.Gates.{all_uses_left}
use rcq_server_ref.Shop.Uses.{register_cost}

-- A registration as it comes in, with what the server reads, checks and draws for it.
pub record Ask : Type 0 where
  pub now : ℕ
  pub proven : Bool
  pub tenure : Bool
  pub draws : List ℕ
  pub body : RegisterIn

module _ (hash : String → String) (c : Codec) (key : Option String) (strip : String → String)
    (door : Door) where
  abbrev pub made : Session (Shop × ℕ) → Shop → Shop × ℕ
  made (done (db', n)) db = (db', 1)
  made (raised e) db = (db, 0)

  -- The tables and the number of accounts that were made, after all who ask.
  unfoldable pub register_all : List Ask → Shop → Shop × ℕ
  unfolding register
  register_all [] db = (db, 0)
  register_all (a ∷ asks) db =
      let (db1, one) =
        made (register hash a.now c key strip door a.proven a.tenure a.draws a.body db) db in
      let (last, rest) = register_all asks db1 in (last, one + rest)

  made_cost :
      (m : Session (Shop × ℕ)) (db : Shop)
      → ((db' : Shop) (n : ℕ)
          → m ≡ done (db', n)
          → 1 + all_uses_left db' + length db.spent ≤ all_uses_left db + length db'.spent)
      → (made m db).1 + all_uses_left (made m db).0 + length db.spent
        ≤ all_uses_left db + length (made m db).0.spent
  made_cost (done (db', n)) db h = h db' n refl
  made_cost (raised e) db h = omega arith

  -- On an invite or paid island, however many register, whatever they bring and whenever they come:
  -- `register` makes no more accounts than uses of invites and nonces of vouchers are spent on
  -- them.
  pub register_all_bound :
      (asks : List Ask) (db : Shop)
      → is_gated door.registration_policy ≡ true
      → (register_all asks db).1 + all_uses_left (register_all asks db).0 + length db.spent
        ≤ all_uses_left db + length (register_all asks db).0.spent
  unfolding register_all
  register_all_bound [] db g = omega arith
  register_all_bound (a ∷ asks) db g =
      let m = register hash a.now c key strip door a.proven a.tenure a.draws a.body db in
      let first = made_cost m db (λ db' n h.
        register_cost hash a.now c key strip door a.proven a.tenure a.draws a.body db db' n g h) in
      let rest = register_all_bound asks (made m db).0 g in omega arith
