-- ===== src/Shop/Once.antt =====
-- A voucher buys once, and only what the till has signed (`redeem` of app/routers/uin_shop.py).
use Prim.Native.String.{String}
use rcq_server_ref.Base.{
  ℕ, ℤ, pos, List, Option, Bool, some, ◌≡◌, ◌∈◌, ◌⊎◌, inl, inr, sym, ◌∙◌, ap, subst, true,
}
use rcq_server_ref.Voucher.{
  Codec, Document, Outcome, ok, opened, check, bad_voucher, is_of_kind, text_field, int_field,
  uin_field, sig_field, max_age_seconds,
}
use rcq_server_ref.Voucher.Docs.{TillDoc, voucher, resale, document, SameFields}
use rcq_server_ref.Voucher.Checked.{bind_ok, IsLive, check_voucher-ok, check_resale-ok}
use rcq_server_ref.Voucher.Verify.{verify, verify_resale, voucher_terms, resale_terms}
use rcq_server_ref.Voucher.Signed.{verify-issued, verify_resale-issued}
use rcq_server_ref.Shop.Tables.{Shop, UinListing, find_listing}
use rcq_server_ref.Shop.Session.{done}
use rcq_server_ref.Shop.Collection.{PurchaseOut}
use rcq_server_ref.Shop.Redeem.{RedeemIn, redeem}
use rcq_server_ref.Shop.Requests.{Event, serve_all}
use rcq_server_ref.Shop.Register.{IsSound}
use rcq_server_ref.Shop.Sound.{Deals-IsSound, Deals-spent}
use rcq_server_ref.Shop.View.{register}
use rcq_server_ref.Shop.Bought.{IsPaid}
use rcq_server_ref.Shop.Resold.{redeem-IsBought}
use rcq_server_ref.Shop.Refined.{serve_all-Deals}

-- The nonce that a document carries, whatever is checked of it.
pub Carries : (c : Codec) → Option String → String → String → Type 0
Carries c key text nonce =
    (k : String) × (fields : List (String × c.Value)) × (opened c key text ≡ ok (k, fields))
    × (text_field c "nonce" fields ≡ ok nonce)

pub one_nonce :
    (c : Codec) (key : Option String) (text a b : String)
    → Carries c key text a
    → Carries c key text b
    → a ≡ b
unfolding Carries
one_nonce c key text a b (k, fields, o, n) (k', fields', o', n') =
    let e : ◌≡◌ {A = Outcome (String × List (String × c.Value))} (ok (k, fields))
        (ok (k', fields')) =
      sym o ∙ o' in
    let q : fields ≡ fields' = cc e in
    let m : ◌≡◌ {A = Outcome String} (ok a) (ok b) =
      sym n ∙ ap (λ f. text_field c "nonce" f) q ∙ n' in
    cc m

voucher_terms-nonce :
    (c : Codec) (fields : List (String × c.Value)) (uin : ℕ) (exp : ℤ) (nonce sig : String)
    → voucher_terms c fields ≡ ok (uin, exp, nonce, sig)
    → text_field c "nonce" fields ≡ ok nonce
unfolding voucher_terms
voucher_terms-nonce c fields uin exp nonce sig h =
    let (u, h0, r0) = bind_ok (uin_field c fields) _ h in
    let (x, h1, r1) = bind_ok (int_field c "exp" fields) _ r0 in
    let (n, h2, r2) = bind_ok (text_field c "nonce" fields) _ r1 in
    let (g, h3, r3) = bind_ok (sig_field c fields) _ r2 in let e : n ≡ nonce = cc r3 in h2 ∙ ap ok e

resale_terms-nonce :
    (c : Codec) (fields : List (String × c.Value)) (uin : ℕ) (listing_id : String) (price exp : ℤ)
    (nonce sig : String)
    → resale_terms c fields ≡ ok (uin, listing_id, price, exp, nonce, sig)
    → text_field c "nonce" fields ≡ ok nonce
unfolding resale_terms
resale_terms-nonce c fields uin listing_id price exp nonce sig h =
    let (u, h0, r0) = bind_ok (uin_field c fields) _ h in
    let (l, h1, r1) = bind_ok (text_field c "listing" fields) _ r0 in
    let (p, h2, r2) = bind_ok (int_field c "price_cents" fields) _ r1 in
    let (x, h3, r3) = bind_ok (int_field c "exp" fields) _ r2 in
    let (n, h4, r4) = bind_ok (text_field c "nonce" fields) _ r3 in
    let (g, h5, r5) = bind_ok (sig_field c fields) _ r4 in let e : n ≡ nonce = cc r5 in h4 ∙ ap ok e

pub verify-Carries :
    (c : Codec) (key : Option String) (now : ℕ) (text : String) (uin : ℕ) (nonce : String)
    → verify c key now text uin ≡ ok nonce
    → Carries c key text nonce
unfolding verify Carries
verify-Carries c key now text uin nonce h =
    let ((k, fields), h0, r0) = bind_ok (opened c key text) _ h in
    let ((u, exp, n, sig), h1, r1) = bind_ok (voucher_terms c fields) _ r0 in
    let (own, same, live, v) = check_voucher-ok c now k uin u exp n sig nonce r1 in
    (k, fields, h0, voucher_terms-nonce c fields u exp n sig h1 ∙ ap ok same)

pub verify_resale-Carries :
    (c : Codec) (key : Option String) (now : ℕ) (text : String) (uin : ℕ)
    (nonce listing_id : String) (price : ℤ)
    → verify_resale c key now text uin ≡ ok (nonce, listing_id, price)
    → Carries c key text nonce
unfolding verify_resale Carries
verify_resale-Carries c key now text uin nonce listing_id price h =
    let ((k, fields), h0, r0) = bind_ok (opened c key text) _ h in
    let (q, h1, r1) = bind_ok (check (is_of_kind c "resale" fields) bad_voucher) _ r0 in
    let ((u, l, p, exp, n, sig), h2, r2) = bind_ok (resale_terms c fields) _ r1 in
    let (own, le, pe, ne, sold, live, v) =
      check_resale-ok c now k uin u l p exp n sig nonce listing_id price r2 in
    (k, fields, h0, resale_terms-nonce c fields u l p exp n sig h2 ∙ ap ok ne)

IsPaid-Carries :
    (c : Codec) (key : Option String) (now : ℕ) (db : Shop) (n : ℕ) (text nonce : String)
    → IsPaid c key now db n text nonce
    → Carries c key text nonce
IsPaid-Carries c key now db n text nonce (inl h) = verify-Carries c key now text n nonce h
IsPaid-Carries c key now db n text nonce (inr (l, f, h)) =
    verify_resale-Carries c key now text n nonce l.listing_id (pos l.price_cents) h

-- A voucher that has been redeemed is refused from then on: by whatever account it is brought, for
-- whatever number, at whatever moment, with the shop's switches in any position, and whatever
-- requests are served in between. (The register of the tables is sound before.)
pub redeem_once :
    (c : Codec) (key : Option String) (strip hash : String → String) (now : ℕ) (shop is_open : Bool)
    (me : ℕ) (body : RedeemIn) (db db' : Shop) (out : PurchaseOut) (es : List Event) (now' : ℕ)
    (shop' is_open' : Bool) (me' : ℕ) (body' : RedeemIn) (last : Shop) (out' : PurchaseOut)
    → IsSound (register db)
    → redeem c key now shop is_open me body db ≡ done (db', out)
    → body'.voucher ≡ body.voucher
    → ¬ (
        redeem c key now' shop' is_open' me' body' (serve_all c key strip hash es db')
        ≡ done (last, out'))
redeem_once c key strip hash now shop is_open me body db db' out es now' shop' is_open' me' body'
      last out' s h same again =
    let (nonce, paid, new, spent, deals) =
      redeem-IsBought c key now shop is_open me body db db' out s h in
    let rest = serve_all-Deals c key strip hash es db' (Deals-IsSound deals s) in
    let later = serve_all c key strip hash es db' in
    let (nonce', paid', new', spent', deals') =
      redeem-IsBought c key now' shop' is_open' me' body' later last out'
        (Deals-IsSound rest (Deals-IsSound deals s)) again in
    let a = IsPaid-Carries c key now db body.uin body.voucher nonce paid in
    let b =
      subst (λ t. Carries c key t nonce') same
        (IsPaid-Carries c key now' later body'.uin body'.voucher nonce' paid') in
    let e = one_nonce c key body.voucher nonce nonce' a b in
    new' (subst (λ x. x ∈ later.spent) e (Deals-spent nonce rest spent))

module _ (c : Codec) (k : String) (issued : List TillDoc)
    (unforgeable : (sig : String) (b : c.Bytes)
      → c.verifies k sig b ≡ true
      → (d : TillDoc) × (d ∈ issued) × (c.dumps (document d) ≡ b))
    (told_apart : (a b : Document) → c.dumps a ≡ c.dumps b → SameFields a b) where
  -- A number is redeemed only for a document of the till that has not expired: a voucher for that very
  -- number, or one for the listing that stands on it, at the price that is asked for it at that moment.
  -- (A signature that verifies is on a document that the till has signed, json.dumps tells documents
  -- apart, and the register of the tables is sound.)
  pub redeem-issued :
      (now : ℕ) (shop resale_open : Bool) (me : ℕ) (body : RedeemIn) (db db' : Shop)
      (out : PurchaseOut)
      → IsSound (register db)
      → redeem c (some k) now shop resale_open me body db ≡ done (db', out)
      → (nonce : String) × (exp : ℤ) × IsLive max_age_seconds now exp
        × ((voucher body.uin nonce exp ∈ issued)
            ⊎ ((l : UinListing) × (find_listing body.uin db.listings ≡ some l)
                × (resale body.uin l.listing_id (pos l.price_cents) nonce exp ∈ issued)))
  redeem-issued now shop resale_open me body db db' out s h =
      let (nonce, paid, new, spent, deals) =
        redeem-IsBought c (some k) now shop resale_open me body db db' out s h in
      elim paid [
        | inl v ↦
            let (exp, i, live) =
              verify-issued c k issued unforgeable told_apart now body.voucher body.uin nonce v in
            (nonce, exp, live, inl i)
        | inr (l, f, v) ↦
            let (exp, i, price, live) =
              verify_resale-issued c k issued unforgeable told_apart now body.voucher body.uin nonce
                l.listing_id (pos l.price_cents) v in
            (nonce, exp, live, inr (l, f, i))
      ]
