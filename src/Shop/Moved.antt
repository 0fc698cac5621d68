-- ===== src/Shop/Moved.antt =====
-- The register of Shop.Register stays sound when an account moves.
use rcq_server_ref.Base.{
  ℕ, arith, Option, none, some, true, false, ◌≡◌, ◌≢◌, ◌==◌, ◌⊎◌, inl, inr, refl, sym, ◌∙◌, ap,
  Bool-cases,
}
use rcq_server_ref.Shop.Register.{
  Terms, Register, renamed, renamed_holder, renamed_terms, moved, IsSound,
}

-- What an account that has moved answers as.
moved-answers :
    (r : Register) (old_uin new_uin u : ℕ)
    → (moved old_uin new_uin r).answers u ≡ true
    → (u ≢ old_uin) × ((u ≡ new_uin) ⊎ (r.answers u ≡ true))
moved-answers r old_uin new_uin u h = ground arith

renamed-some :
    (old_uin new_uin : ℕ) (o : Option ℕ) (k : ℕ)
    → renamed_holder old_uin new_uin o ≡ some k
    → (h : ℕ) × (o ≡ some h) × (k ≡ renamed old_uin new_uin h)
renamed-some old_uin new_uin none k e = absurd (cc e)
renamed-some old_uin new_uin (some h) k e = (h, refl, cc e)

renamed_terms-some :
    (old_uin new_uin : ℕ) (o : Option Terms) (k : Terms)
    → renamed_terms old_uin new_uin o ≡ some k
    → (t : Terms) × (o ≡ some t) × (k.seller ≡ renamed old_uin new_uin t.seller)
renamed_terms-some old_uin new_uin none k e = absurd (cc e)
renamed_terms-some old_uin new_uin (some t) k e =
    let q : record t { seller = renamed old_uin new_uin t.seller } ≡ k = cc e in
    (t, refl, sym (ap (λ (x : Terms). x.seller) q))

-- The holder of a number that somebody held, after a move.
moved-holder :
    (r : Register) (old_uin new_uin u h : ℕ)
    → r.holder u ≡ some h
    → (moved old_uin new_uin r).holder u ≡ some (renamed old_uin new_uin h)
moved-holder r old_uin new_uin u h e = elim (Bool-cases (u == old_uin)) [
  | inl q ↦ rw (q, e) refl
  | inr q ↦ rw (q, e) refl
]

moved-holder_other :
    (r : Register) (old_uin new_uin u : ℕ)
    → u ≢ old_uin
    → (moved old_uin new_uin r).holder u ≡ renamed_holder old_uin new_uin (r.holder u)
moved-holder_other r old_uin new_uin u ne =
    let q : (u == old_uin) ≡ false = ground arith in rw q refl

moved-own :
    (r : Register) (old_uin new_uin : ℕ)
    → (r.holder new_uin ≡ none) ⊎ (r.holder new_uin ≡ some old_uin)
    → IsSound r
    → (u k : ℕ) → (moved old_uin new_uin r).answers u ≡ true
    → (moved old_uin new_uin r).holder u ≡ some k
    → k ≡ u
moved-own r old_uin new_uin free s u k au hu =
    let (ne, which) = moved-answers r old_uin new_uin u au in
    let (h, o, e) =
      renamed-some old_uin new_uin (r.holder u) k
        (sym (moved-holder_other r old_uin new_uin u ne) ∙ hu) in
    elim which [
      | inl new ↦
          let q = ap r.holder new in
          elim free [
            | inl f ↦ absurd (cc (f, o, q))
            | inr f ↦ let p : h ≡ old_uin = cc (f, o, q) in ground arith
          ]
      | inr a ↦ let p = s.own u h a o in ground arith
    ]

pub moved-IsSound :
    (r : Register) (old_uin new_uin : ℕ)
    → (r.holder new_uin ≡ none) ⊎ (r.holder new_uin ≡ some old_uin)
    → r.offered new_uin ≡ none
    → IsSound r
    → IsSound (moved old_uin new_uin r)
moved-IsSound r old_uin new_uin free o s = record {
  own = moved-own r old_uin new_uin free s;
  backed = λ u k ou.
      let (t, was, e) = renamed_terms-some old_uin new_uin (r.offered u) k ou in
      moved-holder r old_uin new_uin u t.seller (s.backed u t was) ∙ ap some (sym e);
  idle = λ u k ou.
      let (t, was, e) = renamed_terms-some old_uin new_uin (r.offered u) k ou in
      let ne : u ≢ new_uin = (λ q. let q' = ap r.offered q in cc (q', o, was)) in
      let still = s.idle u t was in ground arith;
}
