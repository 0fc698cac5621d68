-- ===== src/Shop/Sound.antt =====
-- The register of Shop.Register stays sound.
use Prim.Native.String.{String}
use rcq_server_ref.Base.{
  ℕ, arith, List, Option, none, some, true, false, ◌≡◌, ◌≢◌, ◌==◌, ◌∈◌, ◌⊎◌, inl, inr, sym, ◌∙◌, ap,
  Bool-cases,
}
use rcq_server_ref.Shop.Register.{Terms, Register, put, Deal, Deals, IsSound}
use rcq_server_ref.Shop.Register.Deal.{
  sell, resell, give, give_up, offer, withdraw, move, admit, enter,
}
use rcq_server_ref.Shop.Register.Deals.{stand, then_deal}
use rcq_server_ref.Shop.Moved.{moved-IsSound}

put_same : {A : Type 0} (n u : ℕ) (a : A) (f : ℕ → A) → u ≡ n → put n a f u ≡ a
put_same n u a f e = ground arith

put_other : {A : Type 0} (n u : ℕ) (a : A) (f : ℕ → A) → u ≢ n → put n a f u ≡ f u
put_other n u a f e = ground arith

cases_eq : (u n : ℕ) → (u ≡ n) ⊎ (u ≢ n)
cases_eq u n = elim (Bool-cases (u == n)) [
  | inl e ↦ inl (ground arith)
  | inr e ↦ inr (ground arith)
]

-- A number that nobody answers as and that is not offered changes hands.
put_holder-IsSound :
    (r : Register) (n : ℕ) (h : Option ℕ) (spent : List String)
    → r.answers n ≡ false
    → r.offered n ≡ none
    → IsSound r
    → IsSound (record r { holder = put n h r.holder; spent = spent })
put_holder-IsSound r n h spent a o s = record {
  own = λ u k au hu. elim (cases_eq u n) [
    | inl e ↦ absurd (let q = ap r.answers e in cc (a, au, q))
    | inr e ↦ s.own u k au (sym (put_other n u h r.holder e) ∙ hu)
  ];
  backed = λ u t ou. elim (cases_eq u n) [
    | inl e ↦ absurd (let q = ap r.offered e in cc (o, ou, q))
    | inr e ↦ put_other n u h r.holder e ∙ s.backed u t ou
  ];
  idle = s.idle;
}

-- An offer goes, and its number with it to whoever.
put_offered-IsSound :
    (r : Register) (n : ℕ) (h : Option ℕ) (spent : List String)
    → r.answers n ≡ false
    → IsSound r
    → IsSound
        (record r { holder = put n h r.holder; offered = put n none r.offered; spent = spent })
put_offered-IsSound r n h spent a s = record {
  own = λ u k au hu. elim (cases_eq u n) [
    | inl e ↦ absurd (let q = ap r.answers e in cc (a, au, q))
    | inr e ↦ s.own u k au (sym (put_other n u h r.holder e) ∙ hu)
  ];
  backed = λ u t ou. elim (cases_eq u n) [
    | inl e ↦ absurd (let q = put_same n u none r.offered e in cc (q, ou))
    | inr e ↦ put_other n u h r.holder e ∙ s.backed u t (sym (put_other n u none r.offered e) ∙ ou)
  ];
  idle = λ u t ou. elim (cases_eq u n) [
    | inl e ↦ absurd (let q = put_same n u none r.offered e in cc (q, ou))
    | inr e ↦ s.idle u t (sym (put_other n u none r.offered e) ∙ ou)
  ];
}

withdraw-IsSound :
    (r : Register) (n : ℕ) → IsSound r → IsSound (record r { offered = put n none r.offered })
withdraw-IsSound r n s = record {
  own = s.own;
  backed = λ u t ou. elim (cases_eq u n) [
    | inl e ↦ absurd (let q = put_same n u none r.offered e in cc (q, ou))
    | inr e ↦ s.backed u t (sym (put_other n u none r.offered e) ∙ ou)
  ];
  idle = λ u t ou. elim (cases_eq u n) [
    | inl e ↦ absurd (let q = put_same n u none r.offered e in cc (q, ou))
    | inr e ↦ s.idle u t (sym (put_other n u none r.offered e) ∙ ou)
  ];
}

offer-IsSound :
    (r : Register) (n : ℕ) (t : Terms)
    → n ≢ t.seller
    → r.holder n ≡ some t.seller
    → IsSound r
    → IsSound (record r { offered = put n (some t) r.offered })
offer-IsSound r n t ne h s = record {
  own = s.own;
  backed = λ u k ou. elim (cases_eq u n) [
    | inl e ↦
        let q = put_same n u (some t) r.offered e in let p : t ≡ k = cc (q, ou) in rw (e, sym p) h
    | inr e ↦ s.backed u k (sym (put_other n u (some t) r.offered e) ∙ ou)
  ];
  idle = λ u k ou. elim (cases_eq u n) [
    | inl e ↦ elim (Bool-cases (r.answers n)) [
      | inl a ↦ absurd (ne (sym (s.own n t.seller a h)))
      | inr a ↦ rw e a
    ]
    | inr e ↦ s.idle u k (sym (put_other n u (some t) r.offered e) ∙ ou)
  ];
}

-- A new account at a number that is nobody's and not offered.
enter-IsSound :
    (r : Register) (n : ℕ)
    → r.holder n ≡ none
    → r.offered n ≡ none
    → IsSound r
    → IsSound (record r { answers = put n true r.answers })
enter-IsSound r n h o s = record {
  own = λ u k au hu. elim (cases_eq u n) [
    | inl e ↦ absurd (let q = ap r.holder e in cc (h, hu, q))
    | inr e ↦ s.own u k (sym (put_other n u true r.answers e) ∙ au) hu
  ];
  backed = s.backed;
  idle = λ u t ou. elim (cases_eq u n) [
    | inl e ↦ absurd (let q = ap r.offered e in cc (o, ou, q))
    | inr e ↦ put_other n u true r.answers e ∙ s.idle u t ou
  ];
}

pub Deal-IsSound : {r s : Register} → Deal r s → IsSound r → IsSound s
Deal-IsSound (sell r nonce n buyer fresh a h o) s = put_holder-IsSound r n (some buyer) _ a o s
Deal-IsSound (resell r nonce n buyer t fresh o h ne) s =
    put_offered-IsSound r n (some buyer) _ (s.idle n t o) s
Deal-IsSound (give r n taker scarce a h o) s = put_holder-IsSound r n (some taker) r.spent a o s
Deal-IsSound (give_up r n holder ne h o) s =
    let a : r.answers n ≡ false = elim (Bool-cases (r.answers n)) [
      | inl a ↦ absurd (ne (sym (s.own n holder a h)))
      | inr a ↦ a
    ] in
    put_holder-IsSound r n none r.spent a o s
Deal-IsSound (offer r n t ne h) s = offer-IsSound r n t ne h s
Deal-IsSound (withdraw r n t o) s = withdraw-IsSound r n s
Deal-IsSound (move r old_uin new_uin a b free o) s =
    moved-IsSound r old_uin new_uin (elim free [ inl f ↦ inl f.0 | inr f ↦ inr f ]) o s
Deal-IsSound (admit r nonce fresh) s = record { own = s.own; backed = s.backed; idle = s.idle }
Deal-IsSound (enter r n a h o) s = enter-IsSound r n h o s

pub Deals-IsSound : {r s : Register} → Deals r s → IsSound r → IsSound s
Deals-IsSound (stand r) s = s
Deals-IsSound (then_deal q r t rest d) s = Deal-IsSound d (Deals-IsSound rest s)

-- A nonce that is spent stays spent.
pub Deal-spent : {r s : Register} (nonce : String) → Deal r s → nonce ∈ r.spent → nonce ∈ s.spent
Deal-spent nonce (sell r n' n buyer fresh a h o) i = inr i
Deal-spent nonce (resell r n' n buyer t fresh o h ne) i = inr i
Deal-spent nonce (give r n taker scarce a h o) i = i
Deal-spent nonce (give_up r n holder ne h o) i = i
Deal-spent nonce (offer r n t ne h) i = i
Deal-spent nonce (withdraw r n t o) i = i
Deal-spent nonce (move r old_uin new_uin a b free o) i = i
Deal-spent nonce (admit r n fresh) i = inr i
Deal-spent nonce (enter r n a h o) i = i

pub Deals-spent : {r s : Register} (nonce : String) → Deals r s → nonce ∈ r.spent → nonce ∈ s.spent
Deals-spent nonce (stand r) i = i
Deals-spent nonce (then_deal q r t rest d) i = Deal-spent nonce d (Deals-spent nonce rest i)

pub Deals-append : {q r s : Register} → Deals q r → Deals r s → Deals q s
Deals-append a (stand r) = a
Deals-append a (then_deal q r t rest d) = then_deal _ _ _ (Deals-append a rest) d
