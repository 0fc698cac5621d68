-- ===== src/Voucher/Refusals.antt =====
-- When a check of app/services/uin_voucher.py says that nothing is sold here.
use Prim.Native.String.{String}
use rcq_server_ref.Base.{
  ℕ, ℤ, List, Option, Bool, none, some, true, false, ◌≡◌, ◌≢◌, ◌⊎◌, ◌↔◌, inl, inr, refl, sym, ◌∙◌,
  ap, Bool-cases, not, ◌==◌, same_text, same_text_iff, false≢true,
}
use rcq_server_ref.Voucher.{
  Codec, Code, Outcome, ok, refused, ◌>>=◌, check, or_refuse, sales_disabled, bad_voucher,
  voucher_other_uin, voucher_other_island, voucher_expired, in_window, opened, is_of_kind,
  int_field, uin_field, text_field, sig_field, is_word, same_host, holds, get, signed_doc,
  entry_signed_doc, max_age_seconds, entry_max_age_seconds, is_past, is_too_far,
}
use rcq_server_ref.Voucher.Verify.{
  verify, verify_entry, own_host, voucher_terms, entry_terms, check_voucher, check_entry,
}

-- The outcome is not the refusal `sales_disabled`.
abbrev Sells : {A : Type 0} → Outcome A → Type 0
Sells m = m ≢ refused sales_disabled

bind-Sells :
    {A B : Type 0} (m : Outcome A) (f : A → Outcome B)
    → Sells m
    → ((a : A) → Sells (f a))
    → Sells (m >>= f)
bind-Sells (ok a) f hm hf e = hf a e
bind-Sells (refused x) f hm hf e = let q : x ≡ sales_disabled = cc in hm (ap refused q)

check-Sells : (b : Bool) (e : Code) → e ≢ sales_disabled → Sells (check b e)
check-Sells true e h q = cc q
check-Sells false e h q = let p : e ≡ sales_disabled = cc in h p

or_refuse-Sells : {A : Type 0} (o : Option A) → Sells (or_refuse bad_voucher o)
or_refuse-Sells none q = cc q
or_refuse-Sells (some a) q = cc q

in_window-Sells : (most now : ℕ) (exp : ℤ) → Sells (in_window most now exp)
unfolding in_window
in_window-Sells most now exp =
    bind-Sells (check (not (is_past now exp)) voucher_expired) _ (check-Sells _ _ (λ q. cc q))
      (λ u. check-Sells (not (is_too_far most now exp)) bad_voucher (λ q. cc q))

module _ (c : Codec) (fields : List (String × c.Value)) where
  int_field-Sells : (key : String) → Sells (int_field c key fields)
  unfolding int_field
  int_field-Sells key =
      bind-Sells (or_refuse bad_voucher (get c key fields)) _ (or_refuse-Sells _)
        (λ v. or_refuse-Sells (c.int_of v))

  text_field-Sells : (key : String) → Sells (text_field c key fields)
  unfolding text_field
  text_field-Sells key =
      bind-Sells (or_refuse bad_voucher (get c key fields)) _ (or_refuse-Sells _) (λ v q. cc q)

  uin_field-Sells : Sells (uin_field c fields)
  unfolding uin_field
  uin_field-Sells =
      bind-Sells (or_refuse bad_voucher (get c "uin" fields)) _ (or_refuse-Sells _)
        (λ v. or_refuse-Sells (c.uin_of v))

  sig_field-Sells : Sells (sig_field c fields)
  unfolding sig_field
  sig_field-Sells =
      bind-Sells (text_field c "sig" fields) _ (text_field-Sells "sig")
        (λ s. or_refuse-Sells (c.b64decode s))

  voucher_terms-Sells : Sells (voucher_terms c fields)
  unfolding voucher_terms
  voucher_terms-Sells = bind-Sells (uin_field c fields) _ uin_field-Sells (λ uin.
      bind-Sells (int_field c "exp" fields) _ (int_field-Sells "exp") (λ exp.
        bind-Sells (text_field c "nonce" fields) _ (text_field-Sells "nonce")
          (λ nonce. bind-Sells (sig_field c fields) _ sig_field-Sells (λ sig q. cc q))))

  entry_terms-Sells : Sells (entry_terms c fields)
  unfolding entry_terms
  entry_terms-Sells = bind-Sells (text_field c "host" fields) _ (text_field-Sells "host") (λ host.
      bind-Sells (int_field c "exp" fields) _ (int_field-Sells "exp") (λ exp.
        bind-Sells (text_field c "nonce" fields) _ (text_field-Sells "nonce")
          (λ nonce. bind-Sells (sig_field c fields) _ sig_field-Sells (λ sig q. cc q))))

module _ (c : Codec) (now : ℕ) where
  opened-Sells : (k t : String) → Sells (opened c (some k) t)
  unfolding opened
  opened-Sells k t =
      bind-Sells (or_refuse bad_voucher (c.loads (c.strip t))) _ (or_refuse-Sells _) (λ doc.
        bind-Sells (or_refuse bad_voucher doc) _ (or_refuse-Sells doc) (λ fields.
          bind-Sells (check (holds c (c.is_number 1) (get c "v" fields)) bad_voucher) _
            (check-Sells _ _ (λ q. cc q)) (λ u q. cc q)))

  check_voucher-Sells :
      (k : String) (expect : ℕ) (uin : ℕ) (exp : ℤ) (nonce sig : String)
      → Sells (check_voucher c now k expect (uin, exp, nonce, sig))
  unfolding check_voucher
  check_voucher-Sells k expect uin exp nonce sig =
      bind-Sells (check (is_word c 16 128 nonce) bad_voucher) _ (check-Sells _ _ (λ q. cc q)) (λ a.
        bind-Sells (check (uin == expect) voucher_other_uin) _ (check-Sells _ _ (λ q. cc q)) (λ b.
          bind-Sells (in_window max_age_seconds now exp) _ (in_window-Sells _ _ exp) (λ w.
            bind-Sells (check (c.verifies k sig (c.dumps (signed_doc uin nonce exp))) bad_voucher) _
              (check-Sells _ _ (λ q. cc q)) (λ z q. cc q))))

  check_entry-Sells :
      (k expect host : String) (exp : ℤ) (nonce sig : String)
      → Sells (check_entry c now k expect (host, exp, nonce, sig))
  unfolding check_entry
  check_entry-Sells k expect host exp nonce sig =
      bind-Sells (check (is_word c 16 128 nonce) bad_voucher) _ (check-Sells _ _ (λ q. cc q)) (λ a.
        bind-Sells (check (same_host c host expect) voucher_other_island) _
          (check-Sells _ _ (λ q. cc q))
          (λ b.
            bind-Sells (in_window entry_max_age_seconds now exp) _ (in_window-Sells _ _ exp) (λ w.
              bind-Sells
                (check (c.verifies k sig (c.dumps (entry_signed_doc host nonce exp))) bad_voucher) _
                (check-Sells _ _ (λ q. cc q)) (λ z q. cc q))))

  verify-Sells : (k t : String) (uin : ℕ) → Sells (verify c (some k) now t uin)
  unfolding verify
  verify-Sells k t uin = bind-Sells (opened c (some k) t) _ (opened-Sells k t) (λ (k', fields).
      bind-Sells (voucher_terms c fields) _ (voucher_terms-Sells c fields)
        (λ (u, exp, nonce, sig). check_voucher-Sells k' uin u exp nonce sig))

  -- A number's voucher is told that nothing is sold exactly where the island has no key of a till.
  pub verify-sales_disabled :
      (key : Option String) (t : String) (uin : ℕ)
      → (verify c key now t uin ≡ refused sales_disabled) ↔ (key ≡ none)
  unfolding verify opened
  verify-sales_disabled none t uin = (λ h. refl, λ h. refl)
  verify-sales_disabled (some k) t uin = (λ h. absurd (verify-Sells k t uin h), λ h. absurd (cc h))

  entry_named :
      (k t host : String) → c.lower (c.strip host) ≢ "" → Sells (verify_entry c (some k) now t host)
  unfolding verify_entry own_host
  entry_named k t host named =
      bind-Sells (own_host c (some k) now host) _
        (λ q. elim (Bool-cases (same_text (c.lower (c.strip host)) "")) [
          | inl e ↦ named ((same_text_iff (c.lower (c.strip host)) "").0 e)
          | inr e ↦ cc (rw e at q)
        ])
        (λ expect. bind-Sells (opened c (some k) t) _ (opened-Sells k t) (λ (k', fields).
          bind-Sells (check (is_of_kind c "entry" fields) bad_voucher) _
            (check-Sells _ _ (λ q. cc q))
            (λ u.
              bind-Sells (entry_terms c fields) _ (entry_terms-Sells c fields)
                (λ (h, exp, nonce, sig). check_entry-Sells k' expect h exp nonce sig))))

  -- A voucher for entry is told that nothing is sold exactly where the island has no key of a till, or
  -- has not been told its own name.
  pub verify_entry-sales_disabled :
      (key : Option String) (t host : String)
      → (verify_entry c key now t host ≡ refused sales_disabled)
        ↔ ((key ≡ none) ⊎ (c.lower (c.strip host) ≡ ""))
  unfolding verify_entry own_host
  verify_entry-sales_disabled none t host = (λ h. inl refl, λ h. refl)
  verify_entry-sales_disabled (some k) t host =
      elim (Bool-cases (same_text (c.lower (c.strip host)) "")) [
        | inl e ↦ (λ h. inr ((same_text_iff (c.lower (c.strip host)) "").0 e), λ h. rw e refl)
        | inr e ↦ (
          λ h. absurd (entry_named k t host (λ q. false≢true (sym e ∙ (same_text_iff _ _).1 q)) h),
          λ h. elim h [
            | inl q ↦ absurd (cc q)
            | inr q ↦ absurd (false≢true (sym e ∙ (same_text_iff _ _).1 q))
          ],
        )
      ]
