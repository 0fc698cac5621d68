-- ===== src/Voucher/Checked.antt =====
-- What the checks of app/services/uin_voucher.py leave standing.
use Prim.Native.String.{String}
use rcq_server_ref.Base.{
  ℕ, ℤ, pos, negsuc, negsuc, arith, List, Option, Bool, none, some, true, false, ◌≡◌, ◌<◌, ◌≤◌, ◌+◌,
  refl, not, ◌==◌, ◌⊎◌, inr, inl,
}
use rcq_server_ref.Voucher.{
  Codec, holds, get, Code, Outcome, ok, refused, ◌>>=◌, check, or_refuse, in_window,
  in_short_window, opened, is_word, signed_doc, resale_signed_doc, is_negative, max_age_seconds,
  HoldKind, same_host, hold_max_age_seconds, hold_signed_doc, entry_max_age_seconds,
  entry_signed_doc,
}
use rcq_server_ref.Voucher.Verify.{check_voucher, check_resale, check_entry, check_hold}

pub Outcome-cases :
    {A : Type 0} (m : Outcome A) → ((e : Code) × (m ≡ refused e)) ⊎ ((a : A) × (m ≡ ok a))
Outcome-cases (ok a) = inr (a, refl)
Outcome-cases (refused e) = inl (e, refl)

-- An outcome of a chain comes from an outcome of its first step.
pub bind_ok :
    {A B : Type 0} (m : Outcome A) (f : A → Outcome B) {b : B}
    → (m >>= f) ≡ ok b
    → (a : A) × (m ≡ ok a) × (f a ≡ ok b)
bind_ok (ok a) f h = (a, refl, h)
bind_ok (refused e) f h = absurd (cc h)

pub check_ok : (b : Bool) (e : Code) {u : Unit {0}} → check b e ≡ ok u → b ≡ true
check_ok true e h = refl
check_ok false e h = absurd (cc h)

pub or_refuse_ok :
    {A : Type 0} (e : Code) (o : Option A) {a : A} → or_refuse e o ≡ ok a → o ≡ some a
or_refuse_ok e none h = absurd (cc h)
or_refuse_ok e (some a) h = cc

-- The document has not expired, and lives no longer than is allowed.
abbrev pub IsLive : ℕ → ℕ → ℤ → Type 0
IsLive most now exp = (e : ℕ) × (exp ≡ pos e) × (now < e) × (e ≤ now + most)

pub in_window-IsLive :
    (most now : ℕ) (exp : ℤ) {u : Unit {0}} → in_window most now exp ≡ ok u → IsLive most now exp
unfolding in_window
in_window-IsLive most now (negsuc n) h = absurd (cc h)
in_window-IsLive most now (pos e) h = ground arith

pub in_short_window-IsLive :
    (most now : ℕ) (exp : ℤ) {u : Unit {0}}
    → in_short_window most now exp ≡ ok u
    → IsLive most now exp
unfolding in_short_window
in_short_window-IsLive most now (negsuc n) h = absurd (cc h)
in_short_window-IsLive most now (pos e) h = ground arith

pub opened-key :
    (c : Codec) (k k' : String) (t : String) (fields : List (String × c.Value))
    → opened c (some k) t ≡ ok (k', fields)
    → k' ≡ k
unfolding opened
opened-key c k k' t fields h =
    let (doc, h1, r1) = bind_ok (or_refuse _ (c.loads (c.strip t))) _ h in
    let (fs, h2, r2) = bind_ok (or_refuse _ doc) _ r1 in
    let (u, h3, r3) = bind_ok (check (holds c (c.is_number 1) (get c "v" fs)) _) _ r2 in cc

module _ (c : Codec) (now : ℕ) (k : String) where
  pub check_voucher-ok :
      (uin u : ℕ) (exp : ℤ) (n sig nonce : String)
      → check_voucher c now k uin (u, exp, n, sig) ≡ ok nonce
      → (u ≡ uin)
        × (n ≡ nonce)
        × IsLive max_age_seconds now exp
        × (c.verifies k sig (c.dumps (signed_doc u n exp)) ≡ true)
  unfolding check_voucher
  check_voucher-ok uin u exp n sig nonce h =
      let (a, h0, r0) = bind_ok (check (is_word c 16 128 n) _) _ h in
      let (b, h1, r1) = bind_ok (check (u == uin) _) _ r0 in
      let (w, h2, r2) = bind_ok (in_window max_age_seconds now exp) _ r1 in
      let (z, h3, r3) = bind_ok (check (c.verifies k sig (c.dumps (signed_doc u n exp))) _) _ r2 in
      let same = check_ok _ _ h1 in
      (ground arith, cc, in_window-IsLive max_age_seconds now exp h2, check_ok _ _ h3)

  pub check_resale-ok :
      (uin u : ℕ) (l : String) (p exp : ℤ) (n sig nonce listing_id : String) (price_cents : ℤ)
      → check_resale c now k uin (u, l, p, exp, n, sig) ≡ ok (nonce, listing_id, price_cents)
      → (u ≡ uin)
        × (l ≡ listing_id)
        × (p ≡ price_cents)
        × (n ≡ nonce)
        × (is_negative p ≡ false)
        × IsLive max_age_seconds now exp
        × (c.verifies k sig (c.dumps (resale_signed_doc u l p n exp)) ≡ true)
  unfolding check_resale
  check_resale-ok uin u l p exp n sig nonce listing_id price_cents h =
      let (a, h0, r0) = bind_ok (check (is_word c 16 128 n) _) _ h in
      let (b, h1, r1) = bind_ok (check (u == uin) _) _ r0 in
      let (g, h2, r2) = bind_ok (check (not (is_negative p)) _) _ r1 in
      let (f, h3, r3) = bind_ok (check (is_word c 1 32 l) _) _ r2 in
      let (w, h4, r4) = bind_ok (in_window max_age_seconds now exp) _ r3 in
      let (z, h5, r5) =
        bind_ok (check (c.verifies k sig (c.dumps (resale_signed_doc u l p n exp))) _) _ r4 in
      let same = check_ok _ _ h1 in
      let sold = check_ok _ _ h2 in
      (
        ground arith,
        cc,
        cc,
        cc,
        ground arith,
        in_window-IsLive max_age_seconds now exp h4,
        check_ok _ _ h5,
      )

  pub check_entry-ok :
      (expect host : String) (exp : ℤ) (n sig nonce : String)
      → check_entry c now k expect (host, exp, n, sig) ≡ ok nonce
      → (same_host c host expect ≡ true)
        × (n ≡ nonce)
        × IsLive entry_max_age_seconds now exp
        × (c.verifies k sig (c.dumps (entry_signed_doc host n exp)) ≡ true)
  unfolding check_entry
  check_entry-ok expect host exp n sig nonce h =
      let (a, h0, r0) = bind_ok (check (is_word c 16 128 n) _) _ h in
      let (b, h1, r1) = bind_ok (check (same_host c host expect) _) _ r0 in
      let (w, h2, r2) = bind_ok (in_window entry_max_age_seconds now exp) _ r1 in
      let (z, h3, r3) =
        bind_ok (check (c.verifies k sig (c.dumps (entry_signed_doc host n exp))) _) _ r2 in
      (check_ok _ _ h1, cc, in_window-IsLive entry_max_age_seconds now exp h2, check_ok _ _ h3)

  pub check_hold-ok :
      (kind kind' : HoldKind) (u uin : ℕ) (i hold_id : String) (e exp : ℤ) (sig : String)
      → check_hold c now k kind (u, i, e, sig) ≡ ok (kind', uin, hold_id, exp)
      → (kind ≡ kind')
        × (u ≡ uin)
        × (i ≡ hold_id)
        × (e ≡ exp)
        × IsLive hold_max_age_seconds now e
        × (c.verifies k sig (c.dumps (hold_signed_doc kind u i e)) ≡ true)
  unfolding check_hold
  check_hold-ok kind kind' u uin i hold_id e exp sig h =
      let (a, h0, r0) = bind_ok (check (is_word c 1 64 i) _) _ h in
      let (w, h1, r1) = bind_ok (in_window hold_max_age_seconds now e) _ r0 in
      let (z, h2, r2) =
        bind_ok (check (c.verifies k sig (c.dumps (hold_signed_doc kind u i e))) _) _ r1 in
      (cc, cc, cc, cc, in_window-IsLive hold_max_age_seconds now e h1, check_ok _ _ h2)
