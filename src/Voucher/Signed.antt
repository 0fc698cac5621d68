-- ===== src/Voucher/Signed.antt =====
-- What app/services/uin_voucher.py accepts has been signed by the till for that use.
use rcq_server_ref.Voucher.Checked.{
  bind_ok, IsLive, opened-key, check_voucher-ok, check_resale-ok, check_entry-ok, check_hold-ok,
}
use Prim.Native.String.{String}
use rcq_server_ref.Base.{
  ℕ, ℤ, List, some, true, false, ◌≡◌, ◌∈◌, refl, sym, ◌∙◌, subst, not, same_text, same_text_iff,
}
use rcq_server_ref.Voucher.{
  Codec, Document, ok, check, opened, signed_doc, resale_signed_doc, is_of_kind, is_negative,
  max_age_seconds, HoldKind, same_host, hold_max_age_seconds, hold_signed_doc,
  entry_max_age_seconds, entry_signed_doc, hold, release,
}
use rcq_server_ref.Voucher.Verify.{
  verify, verify_resale, voucher_terms, resale_terms, verify_entry, verify_hold, own_host,
  hold_terms, entry_terms, hold_kind,
}
use rcq_server_ref.Voucher.Docs.{
  TillDoc, voucher, document, SameFields, document-voucher, resale, document-resale, held, entry,
  document-hold, document-release, document-entry,
}

module _ (c : Codec) (k : String) (issued : List TillDoc)
    (unforgeable : (sig : String) (b : c.Bytes)
      → c.verifies k sig b ≡ true
      → (d : TillDoc) × (d ∈ issued) × (c.dumps (document d) ≡ b))
    (told_apart : (a b : Document) → c.dumps a ≡ c.dumps b → SameFields a b) where
  -- A document whose signature was checked is one that the till has signed.
  signed :
      (k' sig : String) (doc : Document)
      → k' ≡ k
      → c.verifies k' sig (c.dumps doc) ≡ true
      → (d : TillDoc) × (d ∈ issued) × SameFields (document d) doc
  signed k' sig doc e h =
      let v : c.verifies k sig (c.dumps doc) ≡ true =
        subst (λ x. c.verifies x sig (c.dumps doc) ≡ true) e h in
      let (d, i, same) = unforgeable sig (c.dumps doc) v in (d, i, told_apart (document d) doc same)

  -- A voucher is accepted for a number only where the till has signed it for that number, with the
  -- nonce that is given back, and it has not expired and lives no longer than is allowed. (A
  -- signature that verifies is on a document that the till has signed, and json.dumps tells
  -- documents apart.)
  pub verify-issued :
      (now : ℕ) (t : String) (uin : ℕ) (nonce : String)
      → verify c (some k) now t uin ≡ ok nonce
      → (exp : ℤ) × (voucher uin nonce exp ∈ issued) × IsLive max_age_seconds now exp
  unfolding verify
  verify-issued now t uin nonce h =
      let ((k', fields), h0, r0) = bind_ok (opened c (some k) t) _ h in
      let ((u, exp, n, sig), h1, r1) = bind_ok (voucher_terms c fields) _ r0 in
      let (own, same_nonce, live, v) = check_voucher-ok c now k' uin u exp n sig nonce r1 in
      let (d, i, same) = signed k' sig (signed_doc u n exp) (opened-key c k k' t fields h0) v in
      let e : d ≡ voucher uin nonce exp =
        document-voucher d u n exp same ∙ rw (own, same_nonce) refl in
      (exp, subst (λ x. x ∈ issued) e i, live)

  -- A voucher is accepted for a listed number only where the till has signed it for that number,
  -- that listing and that price, which is not negative, and it has not expired. (A signature that
  -- verifies is on a document that the till has signed, and json.dumps tells documents apart.)
  pub verify_resale-issued :
      (now : ℕ) (t : String) (uin : ℕ) (nonce listing_id : String) (price_cents : ℤ)
      → verify_resale c (some k) now t uin ≡ ok (nonce, listing_id, price_cents)
      → (exp : ℤ) × (resale uin listing_id price_cents nonce exp ∈ issued)
        × (is_negative price_cents ≡ false)
        × IsLive max_age_seconds now exp
  unfolding verify_resale
  verify_resale-issued now t uin nonce listing_id price_cents h =
      let ((k', fields), h0, r0) = bind_ok (opened c (some k) t) _ h in
      let (q, h1, r1) = bind_ok (check (is_of_kind c "resale" fields) _) _ r0 in
      let ((u, l, p, exp, n, sig), h2, r2) = bind_ok (resale_terms c fields) _ r1 in
      let (own, le, pe, ne, sold, live, v) =
        check_resale-ok c now k' uin u l p exp n sig nonce listing_id price_cents r2 in
      let (d, i, same) =
        signed k' sig (resale_signed_doc u l p n exp) (opened-key c k k' t fields h0) v in
      let e : d ≡ resale uin listing_id price_cents nonce exp =
        document-resale d u l p n exp same ∙ rw (own, le, pe, ne) refl in
      (exp, subst (λ x. x ∈ issued) e i, rw (sym pe) sold, live)

  -- A voucher for entry is accepted only where the till has signed it for this island's host, with
  -- the nonce that is given back, and it has not expired. (A signature that verifies is on a
  -- document that the till has signed, and json.dumps tells documents apart.)
  pub verify_entry-issued :
      (now : ℕ) (t expect_host nonce : String)
      → verify_entry c (some k) now t expect_host ≡ ok nonce
      → (host : String) × (exp : ℤ) × (entry host nonce exp ∈ issued)
        × (c.lower (c.strip host) ≡ c.lower (c.strip expect_host))
        × IsLive entry_max_age_seconds now exp
  unfolding verify_entry own_host same_host
  verify_entry-issued now t expect_host nonce h =
      let (expect, h9, r9) = bind_ok (own_host c (some k) now expect_host) _ h in
      let (a, h8, r8) =
        bind_ok (check (not (same_text (c.lower (c.strip expect_host)) "")) _) _ h9 in
      let ((k', fields), h0, r0) = bind_ok (opened c (some k) t) _ r9 in
      let (q, h1, r1) = bind_ok (check (is_of_kind c "entry" fields) _) _ r0 in
      let ((host, exp, n, sig), h2, r2) = bind_ok (entry_terms c fields) _ r1 in
      let (own, ne, live, v) = check_entry-ok c now k' expect host exp n sig nonce r2 in
      let (d, i, same) =
        signed k' sig (entry_signed_doc host n exp) (opened-key c k k' t fields h0) v in
      let e : d ≡ entry host nonce exp = document-entry d host n exp same ∙ rw ne refl in
      let here : c.lower (c.strip expect_host) ≡ expect = cc in
      (
        host,
        exp,
        subst (λ x. x ∈ issued) e i,
        (same_text_iff (c.lower (c.strip host)) expect).0 own ∙ sym here,
        live,
      )

  document-held :
      (d : TillDoc) (kind : HoldKind) (uin : ℕ) (hold_id : String) (exp : ℤ)
      → SameFields (document d) (hold_signed_doc kind uin hold_id exp)
      → d ≡ held kind uin hold_id exp
  document-held d hold uin hold_id exp h = document-hold d uin hold_id exp h
  document-held d release uin hold_id exp h = document-release d uin hold_id exp h

  -- A request for a hold or a release is accepted only where the till has signed it for that, that
  -- number and that hold, and it has not expired. (A signature that verifies is on a document that
  -- the till has signed, and json.dumps tells documents apart.)
  pub verify_hold-issued :
      (now : ℕ) (t : String) (kind : HoldKind) (uin : ℕ) (hold_id : String) (exp : ℤ)
      → verify_hold c (some k) now t ≡ ok (kind, uin, hold_id, exp)
      → (held kind uin hold_id exp ∈ issued) × IsLive hold_max_age_seconds now exp
  unfolding verify_hold
  verify_hold-issued now t kind uin hold_id exp h =
      let ((k', fields), h0, r0) = bind_ok (opened c (some k) t) _ h in
      let ((kt, (u, i, x, sig)), h1, r1) = bind_ok (hold_terms c fields) _ r0 in
      let (kd, h2, r2) = bind_ok (hold_kind kt) _ r1 in
      let (ke, ue, ie, xe, live, v) = check_hold-ok c now k' kd kind u uin i hold_id x exp sig r2 in
      let (d, j, same) =
        signed k' sig (hold_signed_doc kd u i x) (opened-key c k k' t fields h0) v in
      let e : d ≡ held kind uin hold_id exp =
        document-held d kd u i x same ∙ rw (ke, ue, ie, xe) refl in
      (subst (λ x. x ∈ issued) e j, subst (λ x. IsLive hold_max_age_seconds now x) xe live)
