-- ===== src/Shop/Overlapping.antt =====
-- Redemptions that overlap in any way (`redeem` of app/routers/uin_shop.py) use a voucher once.
use rcq_server_ref.Shop.SpentOnce.{Spends, redeem_on-Spends}
use rcq_server_ref.Shop.Once.{Carries, one_nonce}
use rcq_server_ref.Shop.Requests.{committed, state_of}
use rcq_server_ref.Shop.Collection.{PurchaseOut}
use rcq_server_ref.Shop.Tables.{Shop}
use rcq_server_ref.Shop.Simultaneous.{RedeemReads, redeem_on}
use rcq_server_ref.Shop.Redeem.{RedeemIn}
use rcq_server_ref.Voucher.{Codec}
use rcq_server_ref.Shop.Session.{done, raised, Session}
use rcq_server_ref.Base.{
  [], ◌∷◌, inl, inr, refl, ℕ, String, Bool, Option, List, ◌≤◌, arith, ◌≡◌, ◌∈◌, if◌then◌else◌,
  same_text, ◌+◌, Bool-cases, subst, same_text_iff,
}

-- One redemption: what the caller brings, and what the handler has read before it writes.
pub record Attempt : Type 0 where
  pub now : ℕ
  pub uin_shop_enabled : Bool
  pub me : ℕ
  pub body : RedeemIn
  pub reads : RedeemReads

-- Whether a redemption with this voucher has gone through.
abbrev pub wins : String → RedeemIn → Session (Shop × PurchaseOut) → ℕ
wins voucher body (done out) = if same_text body.voucher voucher then 1 else 0
wins voucher body (raised e) = 0

module _ (c : Codec) (key : Option String) (voucher : String) where
  unfoldable pub attempt : Attempt → Shop → Session (Shop × PurchaseOut)
  unfolding redeem_on
  attempt a db = redeem_on c key a.now a.uin_shop_enabled a.me a.body a.reads db

  -- The redemptions in the order of their writes: the tables, and how many of those with the voucher
  -- have gone through.
  unfoldable pub serve_attempts : List Attempt → Shop → Shop × ℕ
  unfolding attempt
  serve_attempts [] db = (db, 0)
  serve_attempts (a ∷ attempts) db =
      let r = attempt a db in
      let (last, n) = serve_attempts attempts (committed (state_of r) db) in
      (last, wins voucher a.body r + n)

  attempt-Spends :
      (a : Attempt) (db db' : Shop) (out : PurchaseOut)
      → attempt a db ≡ done (db', out)
      → Spends c key a.body.voucher db db'
  unfolding attempt
  attempt-Spends a db db' out h =
      redeem_on-Spends c key a.now a.uin_shop_enabled a.me a.body a.reads db db' out h

  -- A voucher whose nonce is spent wins no more.
  spent_loses :
      (attempts : List Attempt) (db : Shop) (nonce : String)
      → Carries c key voucher nonce
      → nonce ∈ db.spent
      → (serve_attempts attempts db).1 ≡ 0
  unfolding serve_attempts
  spent_loses [] db nonce k i = refl
  spent_loses (a ∷ attempts) db nonce k i =
      by_result (attempt a db) refl (λ db' j. spent_loses attempts db' nonce k j)
    where
      by_result :
          (r : Session (Shop × PurchaseOut))
          → attempt a db ≡ r
          → ((db' : Shop) → nonce ∈ db'.spent → (serve_attempts attempts db').1 ≡ 0)
          → wins voucher a.body r + (serve_attempts attempts (committed (state_of r) db)).1 ≡ 0
      by_result (raised e) h ih = omega (arith, ih db i)
      by_result (done (db', out)) h ih =
          let (nonce', k', new, s) = attempt-Spends a db db' out h in
          elim (Bool-cases (same_text a.body.voucher voucher)) [
            | inl e ↦ absurd (
                new (
                  subst (λ x. x ∈ db.spent)
                    (one_nonce c key voucher nonce nonce' k
                      (subst (λ t. Carries c key t nonce') ((same_text_iff _ _).0 e) k'))
                    i))
            | inr e ↦ rw e (omega (arith, ih db' (rw s (inr i))))
          ]

  -- However redemptions overlap, whoever sends them, whatever each has read before it writes, and
  -- whatever the tables are at first: no more than one of those with one and the same voucher goes
  -- through.
  pub overlapping_once : (attempts : List Attempt) (db : Shop) → (serve_attempts attempts db).1 ≤ 1
  unfolding serve_attempts
  overlapping_once [] db = omega arith
  overlapping_once (a ∷ attempts) db = by_result (attempt a db) refl (overlapping_once attempts)
    where
      by_result :
          (r : Session (Shop × PurchaseOut))
          → attempt a db ≡ r
          → ((db' : Shop) → (serve_attempts attempts db').1 ≤ 1)
          → wins voucher a.body r + (serve_attempts attempts (committed (state_of r) db)).1 ≤ 1
      by_result (raised e) h ih = omega (arith, ih db)
      by_result (done (db', out)) h ih =
          let (nonce, k, new, s) = attempt-Spends a db db' out h in
          elim (Bool-cases (same_text a.body.voucher voucher)) [
            | inl e ↦
                let k' = subst (λ t. Carries c key t nonce) ((same_text_iff _ _).0 e) k in
                rw e (omega (arith, spent_loses attempts db' nonce k' (rw s (inl refl))))
            | inr e ↦ rw e (omega (arith, ih db'))
          ]
