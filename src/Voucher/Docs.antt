-- ===== src/Voucher/Docs.antt =====
-- The documents of app/services/uin_voucher.py tell what they were signed for.
use Prim.Native.String.{String}
use rcq_server_ref.Base.{
  ℕ, ℤ, pos, Option, none, some, [], ◌∷◌, ◌≡◌, refl, sym, ◌∙◌, if◌then◌else◌, same_text,
  same_text_iff, false, false≢true,
}
use rcq_server_ref.Voucher.{
  Document, Field, number, text, HoldKind, hold, release, signed_doc, resale_signed_doc,
  entry_signed_doc, payout_signed_doc, entry_payout_signed_doc, hold_signed_doc,
}

-- What the till may sign.
pub data TillDoc : Type 0 where
  voucher : ℕ → String → ℤ → TillDoc
  resale : ℕ → String → ℤ → String → ℤ → TillDoc
  entry : String → String → ℤ → TillDoc
  payout : ℕ → ℤ → TillDoc
  entry_payout : String → ℤ → TillDoc
  held : HoldKind → ℕ → String → ℤ → TillDoc

abbrev pub document : TillDoc → Document
document (voucher uin nonce exp) = signed_doc uin nonce exp
document (resale uin listing_id price_cents nonce exp) =
    resale_signed_doc uin listing_id price_cents nonce exp
document (entry host nonce exp) = entry_signed_doc host nonce exp
document (payout uin exp) = payout_signed_doc uin exp
document (entry_payout host exp) = entry_payout_signed_doc host exp
document (held kind uin hold_id exp) = hold_signed_doc kind uin hold_id exp

-- `doc[key]` of a document.
abbrev pub field : String → Document → Option Field
field key [] = none
field key ((k, v) ∷ doc) = if same_text k key then some v else field key doc

-- Two documents with the same fields.
abbrev pub SameFields : Document → Document → Type 0
SameFields a b = (key : String) → field key a ≡ field key b

-- Documents whose kinds are spelled otherwise do not have the same fields.
other_kind : (a b : String) → same_text a b ≡ false → some (text a) ≡ some (text b) → ⊥
other_kind a b f h = let e : a ≡ b = cc h in false≢true (sym f ∙ (same_text_iff a b).1 e)

-- A document with the fields of a document of some kind is that document.
pub document-voucher :
    (d : TillDoc) (uin : ℕ) (nonce : String) (exp : ℤ)
    → SameFields (document d) (signed_doc uin nonce exp)
    → d ≡ voucher uin nonce exp
document-voucher (voucher u n e) uin nonce exp h =
    let e0 : some (number (pos u)) ≡ some (number (pos uin)) = h "uin" in
    let e1 : some (text n) ≡ some (text nonce) = h "nonce" in
    let e2 : some (number e) ≡ some (number exp) = h "exp" in cc
document-voucher (resale u l p n e) uin nonce exp h =
    let e0 : some (text "resale") ≡ none = h "kind" in absurd (cc e0)
document-voucher (entry s n e) uin nonce exp h =
    let e0 : some (text "entry") ≡ none = h "kind" in absurd (cc e0)
document-voucher (payout u e) uin nonce exp h =
    let e0 : some (text "payout") ≡ none = h "kind" in absurd (cc e0)
document-voucher (entry_payout s e) uin nonce exp h =
    let e0 : some (text "entry_payout") ≡ none = h "kind" in absurd (cc e0)
document-voucher (held hold u i e) uin nonce exp h =
    let e0 : some (text "hold") ≡ none = h "kind" in absurd (cc e0)
document-voucher (held release u i e) uin nonce exp h =
    let e0 : some (text "release") ≡ none = h "kind" in absurd (cc e0)

pub document-resale :
    (d : TillDoc) (uin : ℕ) (listing_id : String) (price_cents : ℤ) (nonce : String) (exp : ℤ)
    → SameFields (document d) (resale_signed_doc uin listing_id price_cents nonce exp)
    → d ≡ resale uin listing_id price_cents nonce exp
document-resale (voucher u n e) uin listing_id price_cents nonce exp h =
    let e0 : none ≡ some (text "resale") = h "kind" in absurd (cc e0)
document-resale (resale u l p n e) uin listing_id price_cents nonce exp h =
    let e0 : some (number (pos u)) ≡ some (number (pos uin)) = h "uin" in
    let e1 : some (text l) ≡ some (text listing_id) = h "listing" in
    let e2 : some (number p) ≡ some (number price_cents) = h "price_cents" in
    let e3 : some (text n) ≡ some (text nonce) = h "nonce" in
    let e4 : some (number e) ≡ some (number exp) = h "exp" in cc
document-resale (entry s n e) uin listing_id price_cents nonce exp h =
    absurd (other_kind "entry" "resale" refl (h "kind"))
document-resale (payout u e) uin listing_id price_cents nonce exp h =
    absurd (other_kind "payout" "resale" refl (h "kind"))
document-resale (entry_payout s e) uin listing_id price_cents nonce exp h =
    absurd (other_kind "entry_payout" "resale" refl (h "kind"))
document-resale (held hold u i e) uin listing_id price_cents nonce exp h =
    absurd (other_kind "hold" "resale" refl (h "kind"))
document-resale (held release u i e) uin listing_id price_cents nonce exp h =
    absurd (other_kind "release" "resale" refl (h "kind"))

pub document-entry :
    (d : TillDoc) (host nonce : String) (exp : ℤ)
    → SameFields (document d) (entry_signed_doc host nonce exp)
    → d ≡ entry host nonce exp
document-entry (voucher u n e) host nonce exp h =
    let e0 : none ≡ some (text "entry") = h "kind" in absurd (cc e0)
document-entry (resale u l p n e) host nonce exp h =
    absurd (other_kind "resale" "entry" refl (h "kind"))
document-entry (entry s n e) host nonce exp h =
    let e0 : some (text s) ≡ some (text host) = h "host" in
    let e1 : some (text n) ≡ some (text nonce) = h "nonce" in
    let e2 : some (number e) ≡ some (number exp) = h "exp" in cc
document-entry (payout u e) host nonce exp h = absurd (other_kind "payout" "entry" refl (h "kind"))
document-entry (entry_payout s e) host nonce exp h =
    absurd (other_kind "entry_payout" "entry" refl (h "kind"))
document-entry (held hold u i e) host nonce exp h =
    absurd (other_kind "hold" "entry" refl (h "kind"))
document-entry (held release u i e) host nonce exp h =
    absurd (other_kind "release" "entry" refl (h "kind"))

pub document-payout :
    (d : TillDoc) (uin : ℕ) (exp : ℤ)
    → SameFields (document d) (payout_signed_doc uin exp)
    → d ≡ payout uin exp
document-payout (voucher u n e) uin exp h =
    let e0 : none ≡ some (text "payout") = h "kind" in absurd (cc e0)
document-payout (resale u l p n e) uin exp h = absurd (other_kind "resale" "payout" refl (h "kind"))
document-payout (entry s n e) uin exp h = absurd (other_kind "entry" "payout" refl (h "kind"))
document-payout (payout u e) uin exp h =
    let e0 : some (number (pos u)) ≡ some (number (pos uin)) = h "uin" in
    let e1 : some (number e) ≡ some (number exp) = h "exp" in cc
document-payout (entry_payout s e) uin exp h =
    absurd (other_kind "entry_payout" "payout" refl (h "kind"))
document-payout (held hold u i e) uin exp h = absurd (other_kind "hold" "payout" refl (h "kind"))
document-payout (held release u i e) uin exp h =
    absurd (other_kind "release" "payout" refl (h "kind"))

pub document-entry_payout :
    (d : TillDoc) (host : String) (exp : ℤ)
    → SameFields (document d) (entry_payout_signed_doc host exp)
    → d ≡ entry_payout host exp
document-entry_payout (voucher u n e) host exp h =
    let e0 : none ≡ some (text "entry_payout") = h "kind" in absurd (cc e0)
document-entry_payout (resale u l p n e) host exp h =
    absurd (other_kind "resale" "entry_payout" refl (h "kind"))
document-entry_payout (entry s n e) host exp h =
    absurd (other_kind "entry" "entry_payout" refl (h "kind"))
document-entry_payout (payout u e) host exp h =
    absurd (other_kind "payout" "entry_payout" refl (h "kind"))
document-entry_payout (entry_payout s e) host exp h =
    let e0 : some (text s) ≡ some (text host) = h "host" in
    let e1 : some (number e) ≡ some (number exp) = h "exp" in cc
document-entry_payout (held hold u i e) host exp h =
    absurd (other_kind "hold" "entry_payout" refl (h "kind"))
document-entry_payout (held release u i e) host exp h =
    absurd (other_kind "release" "entry_payout" refl (h "kind"))

pub document-hold :
    (d : TillDoc) (uin : ℕ) (hold_id : String) (exp : ℤ)
    → SameFields (document d) (hold_signed_doc hold uin hold_id exp)
    → d ≡ held hold uin hold_id exp
document-hold (voucher u n e) uin hold_id exp h =
    let e0 : none ≡ some (text "hold") = h "kind" in absurd (cc e0)
document-hold (resale u l p n e) uin hold_id exp h =
    absurd (other_kind "resale" "hold" refl (h "kind"))
document-hold (entry s n e) uin hold_id exp h = absurd (other_kind "entry" "hold" refl (h "kind"))
document-hold (payout u e) uin hold_id exp h = absurd (other_kind "payout" "hold" refl (h "kind"))
document-hold (entry_payout s e) uin hold_id exp h =
    absurd (other_kind "entry_payout" "hold" refl (h "kind"))
document-hold (held hold u i e) uin hold_id exp h =
    let e0 : some (number (pos u)) ≡ some (number (pos uin)) = h "uin" in
    let e1 : some (text i) ≡ some (text hold_id) = h "hold_id" in
    let e2 : some (number e) ≡ some (number exp) = h "exp" in cc
document-hold (held release u i e) uin hold_id exp h =
    absurd (other_kind "release" "hold" refl (h "kind"))

pub document-release :
    (d : TillDoc) (uin : ℕ) (hold_id : String) (exp : ℤ)
    → SameFields (document d) (hold_signed_doc release uin hold_id exp)
    → d ≡ held release uin hold_id exp
document-release (voucher u n e) uin hold_id exp h =
    let e0 : none ≡ some (text "release") = h "kind" in absurd (cc e0)
document-release (resale u l p n e) uin hold_id exp h =
    absurd (other_kind "resale" "release" refl (h "kind"))
document-release (entry s n e) uin hold_id exp h =
    absurd (other_kind "entry" "release" refl (h "kind"))
document-release (payout u e) uin hold_id exp h =
    absurd (other_kind "payout" "release" refl (h "kind"))
document-release (entry_payout s e) uin hold_id exp h =
    absurd (other_kind "entry_payout" "release" refl (h "kind"))
document-release (held hold u i e) uin hold_id exp h =
    absurd (other_kind "hold" "release" refl (h "kind"))
document-release (held release u i e) uin hold_id exp h =
    let e0 : some (number (pos u)) ≡ some (number (pos uin)) = h "uin" in
    let e1 : some (text i) ≡ some (text hold_id) = h "hold_id" in
    let e2 : some (number e) ≡ some (number exp) = h "exp" in cc
