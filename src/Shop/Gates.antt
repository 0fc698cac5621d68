-- ===== src/Shop/Gates.antt =====
-- What the voucher and the gates of the door find and write (`register` of app/routers/auth.py).
use Prim.Native.String.{String}
use rcq_server_ref.Base.{
  ℕ, arith, List, Option, Bool, none, [], ◌∷◌, true, false, any, sum_by, ◌≡◌, ◌∈◌, ◌<◌, ◌≤◌, ◌+◌,
  ◌-◌, ◌⊎◌, inl, inr, refl, sym, ◌∙◌, ap, subst, Bool-cases, not, ◌&&◌, same_text_iff,
}
use rcq_server_ref.Uin.Taken.{Invite, is_unexpired}
use rcq_server_ref.Voucher.{Codec, ok}
use rcq_server_ref.Voucher.Verify.{verify_entry}
use rcq_server_ref.Shop.Tables.{Shop}
use rcq_server_ref.Shop.Session.{Session, done, after_check}
use rcq_server_ref.Shop.Door.{
  Entry, first_entry, is_empty, is_gated, invite_gates, vanity_gates, consume, with_invites, gated,
  ungated, admitted,
}
use rcq_server_ref.Shop.Entered.{entered_done}

abbrev pub uses_left : Invite → ℕ
uses_left i = i.max_uses - i.used_count

abbrev pub all_uses_left : Shop → ℕ
all_uses_left db = sum_by uses_left db.numbers.invites

consume_le :
    (now : ℕ) (g : Invite → Bool) (invites : List Invite)
    → sum_by uses_left (consume now g invites) ≤ sum_by uses_left invites
unfolding consume
consume_le now g [] = omega arith
consume_le now g (i ∷ invites) = elim (Bool-cases (g i)) [
  | inl b ↦ rw b (omega (arith, consume_le now g invites))
  | inr b ↦ rw b (omega (arith, consume_le now g invites))
]

-- A use that is spent is one less.
pub consume_lt :
    (now : ℕ) (g : Invite → Bool) (invites : List Invite)
    → ((i : Invite) → g i ≡ true → i.used_count < i.max_uses)
    → any g invites ≡ true
    → sum_by uses_left (consume now g invites) + 1 ≤ sum_by uses_left invites
unfolding consume
consume_lt now g [] f h = absurd (cc h)
consume_lt now g (i ∷ invites) f h = elim (Bool-cases (g i)) [
  | inl b ↦ rw b (omega (arith, consume_le now g invites, f i b))
  | inr b ↦
      let h' : any g invites ≡ true = rw b at h in
      rw b (omega (arith, consume_lt now g invites f h'))
]

pub gates_live :
    (now : ℕ) (code : String) (i : Invite)
    → invite_gates now code i ≡ true
    → (i.code ≡ code) × (i.used_count < i.max_uses) × (is_unexpired now i.expires_at ≡ true)
unfolding invite_gates
gates_live now code i h = ((same_text_iff i.code code).0 (ground arith), ground arith, ground arith)

-- The code is a voucher whose nonce is spent, or nothing is written and it is no voucher.
pub first_entry_done :
    (hash : String → String) (now : ℕ) (c : Codec) (key : Option String) (host code : String)
    (db db1 : Shop) (entry : Entry)
    → first_entry hash now c key host code db ≡ done (db1, entry)
    → ((nonce : String) × (verify_entry c key now code host ≡ ok nonce)
        × (¬ (nonce ∈ db.spent))
        × (◌≡◌ {A = Shop} (record db { spent = nonce ∷ db.spent }) db1))
      ⊎ ((db ≡ db1) × (entry.is_resident ≡ false) × (entry.code ≡ code))
unfolding first_entry
first_entry_done hash now c key host code db db1 entry h = elim (Bool-cases (is_empty code)) [
  | inl b ↦
      let q : ◌≡◌ {A = Session (Shop × Entry)}
          (done (db, record { code = ""; is_resident = false })) (done (db1, entry)) =
        rw b at h in
      let e : ◌≡◌ {A = Entry} (record { code = ""; is_resident = false }) entry = cc q in
      inr (
        cc q,
        ap (λ (x : Entry). x.is_resident) (sym e),
        ap (λ (x : Entry). x.code) (sym e) ∙ sym ((same_text_iff code "").0 b),
      )
  | inr b ↦ entered_done (verify_entry c key now code host) code db db1 entry (rw b at h)
]

-- What the gate of an invite or paid island finds and writes.
pub gated_done :
    (hash : String → String) (now : ℕ) (policy : String) (entry : Entry) (db db2 : Shop)
    (o : Option ℕ)
    → gated hash now policy entry db ≡ done (db2, o)
    → (any (invite_gates now (hash entry.code)) db.numbers.invites ≡ true)
      × (with_invites (consume now (invite_gates now (hash entry.code)) db.numbers.invites) db
          ≡ db2)
unfolding gated
gated_done hash now policy entry db db2 o h =
    let (c0, r0) = after_check (not (is_empty entry.code)) _ _ h in
    let (c1, r1) =
      after_check (any (invite_gates now (hash entry.code)) db.numbers.invites) _ _ r0 in
    (c1, cc r1)

-- No gate gives uses back or unspends a nonce.
pub admitted_le :
    (hash : String → String) (now : ℕ) (policy : String) (entry : Entry) (db db2 : Shop)
    (o : Option ℕ)
    → admitted hash now policy entry db ≡ done (db2, o)
    → (all_uses_left db2 ≤ all_uses_left db) × (db2.spent ≡ db.spent)
unfolding admitted ungated
admitted_le hash now policy entry db db2 o h =
    elim (Bool-cases (is_gated policy && not entry.is_resident)) [
      | inl b ↦
          let (found, e) = gated_done hash now policy entry db db2 o (rw b at h) in
          subst (λ (x : Shop). (all_uses_left x ≤ all_uses_left db) × (x.spent ≡ db.spent)) e
            (consume_le now (invite_gates now (hash entry.code)) db.numbers.invites, refl)
      | inr b ↦
          let h' : done (ungated hash now entry db) ≡ done (db2, o) = rw b at h in
          elim (Bool-cases (
            not (is_empty entry.code)
            && any (vanity_gates now (hash entry.code)) db.numbers.invites)) [
              | inl v ↦
                  let q : ◌≡◌ {A = Session (Shop × Option ℕ)}
                      (done (
                        with_invites
                            (consume now (vanity_gates now (hash entry.code)) db.numbers.invites)
                            db,
                        _,
                      ))
                      (done (db2, o)) =
                    rw v at h' in
                  let e : with_invites
                        (consume now (vanity_gates now (hash entry.code)) db.numbers.invites) db
                      ≡ db2 =
                    cc q in
                  subst (λ (x : Shop). (all_uses_left x ≤ all_uses_left db) × (x.spent ≡ db.spent))
                    e (consume_le now (vanity_gates now (hash entry.code)) db.numbers.invites, refl)
              | inr v ↦
                  let q : ◌≡◌ {A = Session (Shop × Option ℕ)} (done (db, none)) (done (db2, o)) =
                    rw v at h' in
                  let e : db ≡ db2 = cc q in
                  subst (λ (x : Shop). (all_uses_left x ≤ all_uses_left db) × (x.spent ≡ db.spent))
                    e (omega arith, refl)
            ]
    ]
