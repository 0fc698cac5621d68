-- ===== src/Shop/Exclusive.antt =====
-- A hold is its till's own (`till_hold` of app/routers/uin_shop.py).
use Prim.Native.String.{String}
use rcq_server_ref.Base.{
  ℕ, arith, List, Bool, none, some, true, false, ◌≡◌, ◌≢◌, ◌⊎◌, ◌↔◌, ◌∈◌, inl, inr, refl, sym, ◌∙◌,
  ap, Bool-cases, Option-cases, false≢true, same_text, same_text_iff, not, ◌&&◌, ℤ,
}
use rcq_server_ref.Uin.Taken.{UinHold, uin_is_taken}
use rcq_server_ref.Voucher.{Codec, Document, HoldKind, hold, release, hold_max_age_seconds}
use rcq_server_ref.Voucher.Docs.{TillDoc, held, document, SameFields}
use rcq_server_ref.Voucher.Checked.{IsLive, Outcome-cases}
use rcq_server_ref.Voucher.Signed.{verify_hold-issued}
use rcq_server_ref.Voucher.Verify.{verify_hold}
use rcq_server_ref.Shop.Tables.{Shop, find_hold}
use rcq_server_ref.Shop.Hold.{
  integrity_error, is_length, is_listed, add_hold, release_number, hold_number, till_asks,
  till_hold,
}

-- While a row of another hold stands on a number, nothing that is asked under this hold's id
-- changes the shop.
pub till_asks-exclusive :
    (now : ℕ) (kind : HoldKind) (uin : ℕ) (hold_id : String) (db : Shop) (h : UinHold)
    → find_hold uin db.numbers.holds ≡ some h
    → h.hold_id ≢ hold_id
    → (till_asks now kind uin hold_id db).0 ≡ db
unfolding till_asks release_number hold_number add_hold
till_asks-exclusive now release uin hold_id db h f ne =
    let other : same_text h.hold_id hold_id ≡ false =
      ground (arith, same_text_iff h.hold_id hold_id) in
    rw (f, other) refl
till_asks-exclusive now hold uin hold_id db h f ne =
    let other : same_text h.hold_id hold_id ≡ false =
      ground (arith, same_text_iff h.hold_id hold_id) in
    let busy = not (is_listed uin db) && uin_is_taken now db.numbers uin none false in
    elim (Bool-cases (is_length uin)) [
      | inl l ↦ elim (Bool-cases busy) [
        | inl b ↦ rw (f, other, l, b) refl
        | inr b ↦ rw (f, other, l, b) refl
      ]
      | inr l ↦ rw (f, other, l) refl
    ]

-- A hold that is asked for on a number of a fitting length fails on the key exactly where a row of
-- another hold is on the number, live or not, and the number is listed or is not taken.
pub hold_number-integrity_error :
    (now uin : ℕ) (hold_id : String) (db : Shop)
    → is_length uin ≡ true
    → ((hold_number now uin hold_id db).1 ≡ integrity_error) ↔ (
        (h : UinHold) × (find_hold uin db.numbers.holds ≡ some h)
        × (h.hold_id ≢ hold_id)
        × ((is_listed uin db ≡ true) ⊎ (uin_is_taken now db.numbers uin none false ≡ false)))
unfolding hold_number add_hold
hold_number-integrity_error now uin hold_id db l =
    let busy = not (is_listed uin db) && uin_is_taken now db.numbers uin none false in
    elim (Option-cases (find_hold uin db.numbers.holds)) [
      | inl o ↦ (
        λ e. absurd (elim (Bool-cases busy) [
          | inl b ↦ let e' = rw (o, l, b) at e in cc e'
          | inr b ↦ let e' = rw (o, l, b) at e in cc e'
        ]),
        λ (h, f, ne, free). absurd (let q = sym o ∙ f in cc q),
      )
      | inr (h, o) ↦ elim (Bool-cases (same_text h.hold_id hold_id)) [
        | inl own ↦ (
          λ e. absurd (let e' = rw (o, l, own) at e in cc e'),
          λ (h', f, ne, free).
              let q : h ≡ h' = (let q = sym o ∙ f in cc q) in
              absurd (
                ne (
                  ap (λ (x : UinHold). x.hold_id) (sym q)
                  ∙ (same_text_iff h.hold_id hold_id).0 own)),
        )
        | inr own ↦
            let ne : h.hold_id ≢ hold_id =
              λ q. false≢true (sym own ∙ (same_text_iff h.hold_id hold_id).1 q) in
            elim (Bool-cases busy) [
              | inl b ↦ (
                λ e. absurd (let e' = rw (o, l, own, b) at e in cc e'),
                λ (h', f, ne', free). absurd (ground arith),
              )
              | inr b ↦ (
                λ e. (
                  h,
                  o,
                  ne,
                  elim (Bool-cases (is_listed uin db)) [
                    | inl t ↦ inl t
                    | inr t ↦ inr (ground arith)
                  ],
                ),
                λ x. rw (o, l, own, b) refl,
              )
            ]
      ]
    ]

module _ (c : Codec) (k : String) (issued : List TillDoc)
    (unforgeable : (sig : String) (b : c.Bytes)
      → c.verifies k sig b ≡ true
      → (d : TillDoc) × (d ∈ issued) × (c.dumps (document d) ≡ b))
    (told_apart : (a b : Document) → c.dumps a ≡ c.dumps b → SameFields a b) where
  -- The handler changes the shop only on a request that the till has signed for a hold or a release
  -- and that has not expired; what then happens is what was asked. (A signature that verifies is on
  -- a document that the till has signed, and json.dumps tells documents apart.)
  pub till_hold-issued :
      (enabled : Bool) (now : ℕ) (request : String) (db : Shop)
      → (till_hold c (some k) enabled now request db).0 ≢ db
      → (kind : HoldKind) × (uin : ℕ) × (hold_id : String) × (exp : ℤ) × (held kind uin hold_id exp
          ∈ issued)
        × IsLive hold_max_age_seconds now exp
        × (till_hold c (some k) enabled now request db ≡ till_asks now kind uin hold_id db)
  unfolding till_hold
  till_hold-issued false now request db changed = absurd (changed refl)
  till_hold-issued true now request db changed =
      elim (Outcome-cases (verify_hold c (some k) now request)) [
        | inl (code, o) ↦ absurd (changed (rw o refl))
        | inr ((kind, uin, hold_id, exp), o) ↦
            let (i, live) =
              verify_hold-issued c k issued unforgeable told_apart now request kind uin hold_id exp
                o in
            (kind, uin, hold_id, exp, i, live, rw o refl)
      ]
