-- ===== src/Shop/Bought.antt =====
-- What `redeem`, `_redeem_resale` and `claim` of app/routers/uin_shop.py do to the register.
use Prim.Native.String.{String}
use rcq_server_ref.Base.{
  ℕ, pos, arith, Option, Bool, none, some, ◌∷◌, false, ◌≡◌, ◌==◌, ◌∈◌, ◌⊎◌, inl, inr, refl, sym,
  ◌∙◌, ap, subst, Bool-cases, Option-cases, any, mem_any, not, ◌||◌, same_text, same_text_iff, ltb,
  length,
}
use rcq_server_ref.Uin.Taken.{Numbers, User, OwnedUin, uin_is_taken}
use rcq_server_ref.Uin.Shape.{is_reserved_uin}
use rcq_server_ref.Voucher.{Codec, ok}
use rcq_server_ref.Voucher.Verify.{verify, verify_resale}
use rcq_server_ref.Shop.Sound.{Deals-spent, Deals-append}
use rcq_server_ref.Shop.Tables.{Shop, UinListing, find_deed, find_listing, find_user}
use rcq_server_ref.Shop.Hold.{is_length}
use rcq_server_ref.Shop.Session.{done, bind_done, after_check, or_raise, or_raise_done}
use rcq_server_ref.Shop.Collection.{
  PurchaseOut, owned_uins, max_owned_uins, has_user, has_deed, take_number,
}
use rcq_server_ref.Shop.Redeem.{ClaimIn, standing_user, spend, claim}
use rcq_server_ref.Shop.Register.{Register, Deal, Deals, IsSound}
use rcq_server_ref.Shop.Register.Deal.{give}
use rcq_server_ref.Shop.Register.Deals.{stand, then_deal}
use rcq_server_ref.Shop.View.{owner_of, register, holder_none, user_found}
use rcq_server_ref.Shop.Moving.{take_number_kept, take_number_moved, perform_migration-Deal}

pub one_deal : {r s : Register} → Deal r s → Deals r s
one_deal d = then_deal _ _ _ (stand _) d

-- A number that is not taken is nobody's.
pub not_taken :
    (now : ℕ) (numbers : Numbers) (n : ℕ) (except_invite : Option String) (ignore_holds : Bool)
    → uin_is_taken now numbers n except_invite ignore_holds ≡ false
    → (has_user n numbers.users ≡ false) × (find_deed n numbers.owned ≡ none)
unfolding uin_is_taken has_user has_deed
not_taken now numbers n except_invite ignore_holds h =
    elim (Bool-cases (any (λ (u : User). u.uin == n) numbers.users)) [
      | inl a ↦ absurd (let h' = rw a at h in cc h')
      | inr a ↦ elim (Bool-cases (any (λ (o : OwnedUin). o.uin == n) numbers.owned)) [
        | inl b ↦ absurd (let h' = rw (a, b) at h in cc h')
        | inr b ↦ (a, holder_none n numbers.owned b)
      ]
    ]

-- What nobody holds is not offered.
pub not_offered : (r : Register) (n : ℕ) → IsSound r → r.holder n ≡ none → r.offered n ≡ none
not_offered r n s h = elim (Option-cases (r.offered n)) [
  | inl o ↦ o
  | inr (t, o) ↦ absurd (let q = s.backed n t o in cc (h, q))
]

pub standing_user_done :
    (me : ℕ) (db : Shop) (user : User) → standing_user me db ≡ done user → user.uin ≡ me
unfolding standing_user
standing_user_done me db user h =
    let (u, f, r0) = bind_done (or_raise _ (find_user me db.numbers.users)) _ h in
    let (active, r1) = after_check (not u.is_suspended) _ _ r0 in
    let e : u ≡ user = cc r1 in
    ap (λ (x : User). x.uin) (sym e) ∙ (user_found me db.numbers.users u (or_raise_done _ _ f)).1

pub spend_done :
    (nonce : String) (db db' : Shop)
    → spend nonce db ≡ done db'
    → (¬ (nonce ∈ db.spent)) × (◌≡◌ {A = Shop} (record db { spent = nonce ∷ db.spent }) db')
unfolding spend
spend_done nonce db db' h =
    let (new, r) = after_check (not (any (λ n. same_text n nonce) db.spent)) _ _ h in
    (
      λ i. ground (
        arith,
        mem_any (λ n. same_text n nonce) nonce db.spent i ((same_text_iff nonce nonce).1 refl),
      ),
      cc r,
    )

-- The document that a number of the shop is paid with: a voucher for the number, or one for its
-- listing at the price that is asked.
abbrev pub IsPaid : (c : Codec) → Option String → ℕ → Shop → ℕ → String → String → Type 0
IsPaid c key now db n text nonce =
    (verify c key now text n ≡ ok nonce)
    ⊎ ((l : UinListing) × (find_listing n db.listings ≡ some l)
        × (verify_resale c key now text n ≡ ok (nonce, l.listing_id, pos l.price_cents)))

-- What a redeemed voucher has done: its nonce, new before, is spent, and the rest are deals.
abbrev pub IsBought : (c : Codec) → Option String → ℕ → ℕ → String → Shop → Shop → Type 0
IsBought c key now n text db db' =
    (nonce : String) × IsPaid c key now db n text nonce
    × (¬ (nonce ∈ db.spent))
    × (nonce ∈ db'.spent)
    × Deals (register db) (register db')

-- A sale, and what follows it.
pub IsBought-after :
    (c : Codec) (key : Option String) (now n : ℕ) (text nonce : String) (db db' : Shop)
    (r : Register)
    → IsPaid c key now db n text nonce
    → ¬ (nonce ∈ db.spent)
    → Deal (register db) r
    → nonce ∈ r.spent
    → Deals r (register db')
    → IsBought c key now n text db db'
IsBought-after c key now n text nonce db db' r p new deal i rest =
    (nonce, p, new, Deals-spent nonce rest i, Deals-append (one_deal deal) rest)

-- A free number that is not scarce is taken for nothing.
pub claim-Deals :
    (now : ℕ) (shop : Bool) (me : ℕ) (body : ClaimIn) (db db' : Shop) (out : PurchaseOut)
    → IsSound (register db)
    → claim now shop me body db ≡ done (db', out)
    → Deals (register db) (register db')
unfolding claim
claim-Deals now shop me body db db' out s h =
    let (c0, r0) = after_check shop _ _ h in
    let (c1, r1) = after_check (is_length body.uin) _ _ r0 in
    let (c2, r2) = after_check (not (body.uin == me)) _ _ r1 in
    let (c3, r3) = after_check (not (is_reserved_uin body.uin)) _ _ r2 in
    let (c4, r4) = after_check (not (uin_is_taken now db.numbers body.uin none false)) _ _ r3 in
    let (user, c5, r5) = bind_done (standing_user me db) _ r4 in
    let (c6, r6) =
      after_check (body.switch || ltb (length (owned_uins me db)) max_owned_uins) _ _ r5 in
    let scarce : is_reserved_uin body.uin ≡ false = ground arith in
    let (a, d) = not_taken now db.numbers body.uin none false (ground arith) in
    let h : owner_of (find_deed body.uin db.numbers.owned) ≡ none = ap owner_of d in
    let o = not_offered (register db) body.uin s h in
    elim (Bool-cases body.switch) [
      | inl e ↦ one_deal (
          perform_migration-Deal user body.uin db db'
            (take_number_moved user body.uin "claimed" db db' out
              (subst (λ b. take_number user body.uin b "claimed" db ≡ done (db', out)) e r6))
            (inl (h, scarce)) o)
      | inr e ↦ one_deal (
          subst (λ r. Deal (register db) r)
            (take_number_kept user body.uin "claimed" db db' out
              (subst (λ b. take_number user body.uin b "claimed" db ≡ done (db', out)) e r6))
            (give (register db) body.uin user.uin scarce a h o))
    ]
