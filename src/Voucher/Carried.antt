-- ===== src/Voucher/Carried.antt =====
-- What the till signs for a number, the island takes (app/services/uin_voucher.py).
use Prim.Native.String.{String}
use rcq_server_ref.Base.{ℕ, ℤ, pos, arith, List, some, true, ◌≡◌, ◌<◌, ◌≤◌, ◌+◌, refl, ◌==◌}
use rcq_server_ref.Voucher.{
  Codec, Document, number, text, ok, in_window, opened, int_field, uin_field, text_field, sig_field,
  is_word, get, signed_doc, max_age_seconds,
}
use rcq_server_ref.Voucher.Docs.{field}
use rcq_server_ref.Voucher.Verify.{verify, voucher_terms, check_voucher}

-- The text is read back as the document and its signature.
pub record Reads (c : Codec) (t : String) (doc : Document) (sig : String) : Type 0 where
  pub fields : List (String × c.Value)
  pub loaded : c.loads (c.strip t) ≡ some (some fields)
  pub integer :
      (key : String) (n : ℤ)
      → field key doc ≡ some (number n)
      → (v : c.Value) × (get c key fields ≡ some v) × (c.int_of v ≡ some n)
  pub natural :
      (key : String) (n : ℕ)
      → field key doc ≡ some (number (pos n))
      → (v : c.Value) × (get c key fields ≡ some v)
        × (c.uin_of v ≡ some n)
        × (c.is_number n v ≡ true)
  pub word :
      (key s : String)
      → field key doc ≡ some (text s)
      → (v : c.Value) × (get c key fields ≡ some v) × (c.str_of v ≡ s) × (c.is_text s v ≡ true)
  pub signature :
      (v : c.Value) × (get c "sig" fields ≡ some v) × (c.b64decode (c.str_of v) ≡ some sig)

pub in_window_ok :
    (most now exp : ℕ) → now < exp → exp ≤ now + most → in_window most now (pos exp) ≡ ok tt
unfolding in_window
in_window_ok most now exp h l = ground arith

module _ (c : Codec) (t : String) (doc : Document) (sig : String) (r : Reads c t doc sig) where
  opened_ok :
      (k : String) → field "v" doc ≡ some (number (pos 1)) → opened c (some k) t ≡ ok (k, r.fields)
  unfolding opened
  opened_ok k h = let (v, g, n, one) = r.natural "v" 1 h in rw (r.loaded, g, one) refl

  int_field_ok :
      (key : String) (n : ℤ) → field key doc ≡ some (number n) → int_field c key r.fields ≡ ok n
  unfolding int_field
  int_field_ok key n h = let (v, g, e) = r.integer key n h in rw (g, e) refl

  uin_field_ok : (n : ℕ) → field "uin" doc ≡ some (number (pos n)) → uin_field c r.fields ≡ ok n
  unfolding uin_field
  uin_field_ok n h = let (v, g, e, one) = r.natural "uin" n h in rw (g, e) refl

  text_field_ok :
      (key s : String) → field key doc ≡ some (text s) → text_field c key r.fields ≡ ok s
  unfolding text_field
  text_field_ok key s h = let (v, g, e, one) = r.word key s h in rw (g, e) refl

  sig_field_ok : sig_field c r.fields ≡ ok sig
  unfolding sig_field text_field
  sig_field_ok = let (v, g, e) = r.signature in rw (g, e) refl

-- A voucher that the till has signed for a number is taken for that number, as long as it is read
-- back as it was written, has not expired, its life is within the limit, and its nonce is one of 16
-- to 128 ASCII characters.
pub verify-signed_doc :
    (c : Codec) (k : String) (now : ℕ) (t : String) (uin : ℕ) (nonce : String) (exp : ℕ)
    (sig : String)
    → Reads c t (signed_doc uin nonce (pos exp)) sig
    → c.verifies k sig (c.dumps (signed_doc uin nonce (pos exp))) ≡ true
    → is_word c 16 128 nonce ≡ true
    → now < exp
    → exp ≤ now + max_age_seconds
    → verify c (some k) now t uin ≡ ok nonce
unfolding verify voucher_terms check_voucher
verify-signed_doc c k now t uin nonce exp sig r good long live near =
    let doc = signed_doc uin nonce (pos exp) in
    let own : (uin == uin) ≡ true = ground arith in
    rw
      (
        opened_ok c t doc sig r k refl,
        uin_field_ok c t doc sig r uin refl,
        int_field_ok c t doc sig r "exp" (pos exp) refl,
        text_field_ok c t doc sig r "nonce" nonce refl,
        sig_field_ok c t doc sig r,
        long,
        own,
        in_window_ok max_age_seconds now exp live near,
        good,
      )
      refl
