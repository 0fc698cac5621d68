-- ===== src/Voucher/Verify.antt =====
-- `verify`, `verify_resale`, `verify_entry`, `verify_hold`, `verify_payout` and `verify_entry_payout`
-- of app/services/uin_voucher.py. The key is what `public_key_b64` gives.
use Prim.Native.String.{String}
use rcq_server_ref.Base.{ℕ, ℤ, List, Option, not, ◌==◌, same_text, if◌then◌else◌}
use rcq_server_ref.Voucher.{
  Codec, Outcome, ok, refused, ◌>>=◌, ◌>>◌, check, or_refuse, sales_disabled, bad_voucher,
  voucher_other_uin, voucher_other_island, HoldKind, hold, release, max_age_seconds,
  entry_max_age_seconds, hold_max_age_seconds, signed_doc, resale_signed_doc, entry_signed_doc,
  payout_signed_doc, entry_payout_signed_doc, hold_signed_doc, in_window, in_short_window,
  is_negative, opened, is_of_kind, int_field, uin_field, text_field, sig_field, is_word, same_host,
}

-- The fields of a document, as the `try` of each check reads them.
module _ (c : Codec) (fields : List (String × c.Value)) where
  unfoldable pub voucher_terms : Outcome (ℕ × ℤ × String × String)
  unfolding int_field uin_field text_field sig_field
  voucher_terms = do
    uin ← uin_field c fields
    exp ← int_field c "exp" fields
    nonce ← text_field c "nonce" fields
    sig ← sig_field c fields
    ok (uin, exp, nonce, sig)

  unfoldable pub resale_terms : Outcome (ℕ × String × ℤ × ℤ × String × String)
  unfolding int_field uin_field text_field sig_field
  resale_terms = do
    uin ← uin_field c fields
    listing_id ← text_field c "listing" fields
    price_cents ← int_field c "price_cents" fields
    exp ← int_field c "exp" fields
    nonce ← text_field c "nonce" fields
    sig ← sig_field c fields
    ok (uin, listing_id, price_cents, exp, nonce, sig)

  unfoldable pub entry_terms : Outcome (String × ℤ × String × String)
  unfolding int_field text_field sig_field
  entry_terms = do
    host ← text_field c "host" fields
    exp ← int_field c "exp" fields
    nonce ← text_field c "nonce" fields
    sig ← sig_field c fields
    ok (host, exp, nonce, sig)

  unfoldable pub payout_terms : Outcome (ℕ × ℤ × String)
  unfolding int_field uin_field sig_field
  payout_terms = do
    uin ← uin_field c fields
    exp ← int_field c "exp" fields
    sig ← sig_field c fields
    ok (uin, exp, sig)

  unfoldable pub entry_payout_terms : Outcome (String × ℤ × String)
  unfolding int_field text_field sig_field
  entry_payout_terms = do
    host ← text_field c "host" fields
    exp ← int_field c "exp" fields
    sig ← sig_field c fields
    ok (host, exp, sig)

  unfoldable pub hold_terms : Outcome (String × (ℕ × String × ℤ × String))
  unfolding int_field uin_field text_field sig_field
  hold_terms = do
    kind ← text_field c "kind" fields
    uin ← uin_field c fields
    hold_id ← text_field c "hold_id" fields
    exp ← int_field c "exp" fields
    sig ← sig_field c fields
    ok (kind, (uin, hold_id, exp, sig))

-- `kind not in _HOLD_KINDS`
unfoldable pub hold_kind : String → Outcome HoldKind
hold_kind kind =
    if same_text kind "hold"
    then ok hold
    else if same_text kind "release"
    then ok release
    else refused bad_voucher

-- The checks on what was read, the signature last but for the host of `verify_entry_payout`.
module _ (c : Codec) (now : ℕ) (k : String) where
  unfoldable pub check_voucher : ℕ → ℕ × ℤ × String × String → Outcome String
  unfolding is_word in_window
  check_voucher expect_uin (uin, exp, nonce, sig) = do
    check (is_word c 16 128 nonce) bad_voucher
    check (uin == expect_uin) voucher_other_uin
    in_window max_age_seconds now exp
    check (c.verifies k sig (c.dumps (signed_doc uin nonce exp))) bad_voucher
    ok nonce

  unfoldable pub check_resale :
      ℕ → ℕ × String × ℤ × ℤ × String × String → Outcome (String × String × ℤ)
  unfolding is_word in_window
  check_resale expect_uin (uin, listing_id, price_cents, exp, nonce, sig) = do
    check (is_word c 16 128 nonce) bad_voucher
    check (uin == expect_uin) voucher_other_uin
    check (not (is_negative price_cents)) bad_voucher
    check (is_word c 1 32 listing_id) bad_voucher
    in_window max_age_seconds now exp
    check (c.verifies k sig (c.dumps (resale_signed_doc uin listing_id price_cents nonce exp)))
        bad_voucher
    ok (nonce, listing_id, price_cents)

  unfoldable pub check_entry : String → String × ℤ × String × String → Outcome String
  unfolding is_word same_host in_window
  check_entry expect (host, exp, nonce, sig) = do
    check (is_word c 16 128 nonce) bad_voucher
    check (same_host c host expect) voucher_other_island
    in_window entry_max_age_seconds now exp
    check (c.verifies k sig (c.dumps (entry_signed_doc host nonce exp))) bad_voucher
    ok nonce

  unfoldable pub check_payout : ℕ × ℤ × String → Outcome ℕ
  unfolding in_short_window
  check_payout (uin, exp, sig) = do
    in_short_window hold_max_age_seconds now exp
    check (c.verifies k sig (c.dumps (payout_signed_doc uin exp))) bad_voucher
    ok uin

  unfoldable pub check_entry_payout : String → String × ℤ × String → Outcome String
  unfolding is_word same_host in_short_window
  check_entry_payout expect (host, exp, sig) = do
    check (is_word c 1 253 host) bad_voucher
    in_short_window hold_max_age_seconds now exp
    check (c.verifies k sig (c.dumps (entry_payout_signed_doc host exp))) bad_voucher
    check (same_host c host expect) voucher_other_island
    ok host

  unfoldable pub check_hold :
      HoldKind → ℕ × String × ℤ × String → Outcome (HoldKind × ℕ × String × ℤ)
  unfolding is_word in_window
  check_hold kind (uin, hold_id, exp, sig) = do
    check (is_word c 1 64 hold_id) bad_voucher
    in_window hold_max_age_seconds now exp
    check (c.verifies k sig (c.dumps (hold_signed_doc kind uin hold_id exp))) bad_voucher
    ok (kind, uin, hold_id, exp)

module _ (c : Codec) (key : Option String) (now : ℕ) where
  unfoldable pub verify : String → ℕ → Outcome String
  unfolding opened voucher_terms check_voucher
  verify voucher expect_uin = do
    (k, fields) ← opened c key voucher
    terms ← voucher_terms c fields
    check_voucher c now k expect_uin terms

  unfoldable pub verify_resale : String → ℕ → Outcome (String × String × ℤ)
  unfolding opened is_of_kind resale_terms check_resale
  verify_resale voucher expect_uin = do
    (k, fields) ← opened c key voucher
    check (is_of_kind c "resale" fields) bad_voucher
    terms ← resale_terms c fields
    check_resale c now k expect_uin terms

  -- The island's own name, stripped and in small letters.
  unfoldable pub own_host : String → Outcome String
  own_host expect_host = do
    _ ← or_refuse sales_disabled key
    check (not (same_text (c.lower (c.strip expect_host)) "")) sales_disabled
    ok (c.lower (c.strip expect_host))

  unfoldable pub verify_entry : String → String → Outcome String
  unfolding own_host opened is_of_kind entry_terms check_entry
  verify_entry voucher expect_host = do
    expect ← own_host expect_host
    (k, fields) ← opened c key voucher
    check (is_of_kind c "entry" fields) bad_voucher
    terms ← entry_terms c fields
    check_entry c now k expect terms

  unfoldable pub verify_payout : String → Outcome ℕ
  unfolding opened is_of_kind payout_terms check_payout
  verify_payout request = do
    (k, fields) ← opened c key request
    check (is_of_kind c "payout" fields) bad_voucher
    terms ← payout_terms c fields
    check_payout c now k terms

  unfoldable pub verify_entry_payout : String → String → Outcome String
  unfolding own_host opened is_of_kind entry_payout_terms check_entry_payout
  verify_entry_payout request expect_host = do
    expect ← own_host expect_host
    (k, fields) ← opened c key request
    check (is_of_kind c "entry_payout" fields) bad_voucher
    terms ← entry_payout_terms c fields
    check_entry_payout c now k expect terms

  unfoldable pub verify_hold : String → Outcome (HoldKind × ℕ × String × ℤ)
  unfolding opened hold_terms hold_kind check_hold
  verify_hold request = do
    (k, fields) ← opened c key request
    (kind_text, terms) ← hold_terms c fields
    kind ← hold_kind kind_text
    check_hold c now k kind terms
