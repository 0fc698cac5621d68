-- ===== src/DepositAuth/Spent.antt =====
-- How often a deposit token is taken (app/core/deposit_auth_store.py).
use Prim.Native.String.{String}
use rcq_server_ref.Base.{
  ℕ, arith, List, Option, Bool, All, none, some, [], ◌∷◌, true, false, any, filter, not, ltb, ◌+◌,
  ◌<◌, ◌≤◌, ◌≡◌, ◌∈◌, ◌↔◌, inl, inr, refl, sym, ◌∙◌, ap, Bool-cases, Option-cases, mem-filter,
  mem_any, same_text, same_text_iff, false≢true,
}
use rcq_server_ref.DepositAuth.{
  Crypto, SpentEntry, Token, Store, is_entry, is_live_entry, set_nx, issuer_key, token_parts,
  consume, verify_and_consume_token,
}

-- The token is spent, and its entry stands until `until` at least.
abbrev pub IsSpentUntil : String → String → ℕ → List SpentEntry → Type 0
IsSpentUntil epoch id until spent =
    (s : SpentEntry) × (s ∈ spent) × (is_entry epoch id s ≡ true) × (until ≤ s.expires)

set_nx-IsSpentUntil :
    (now ttl : ℕ) (e i : String) (spent : List SpentEntry) (epoch id : String) (until : ℕ)
    → now < until
    → IsSpentUntil epoch id until spent
    → IsSpentUntil epoch id until (set_nx now ttl e i spent).0
unfolding set_nx
set_nx-IsSpentUntil now ttl e i spent epoch id until l (s, m, k, u) =
    elim (Bool-cases (any (is_live_entry now e i) spent)) [
      | inl p ↦ rw p (s, m, k, u)
      | inr p ↦ rw p (
        s,
        inr (
            mem-filter (λ (x : SpentEntry). not (is_entry e i x)) s spent
              (elim (Bool-cases (is_entry e i s)) [
                | inl q ↦
                    let live : is_live_entry now e i s ≡ true = ground arith in
                    absurd (false≢true (sym p ∙ mem_any (is_live_entry now e i) s spent m live))
                | inr q ↦ rw q refl
              ])
              m),
        k,
        u,
      )
    ]

-- A token that is set anew stands for the whole time.
set_nx-new :
    (now ttl : ℕ) (e i : String) (spent : List SpentEntry)
    → (set_nx now ttl e i spent).1 ≡ true
    → IsSpentUntil e i (now + ttl) (set_nx now ttl e i spent).0
unfolding set_nx
set_nx-new now ttl e i spent h = elim (Bool-cases (any (is_live_entry now e i) spent)) [
  | inl p ↦ absurd (let h' = rw p at h in cc h')
  | inr p ↦ rw p (
    record { epoch = e; token_id = i; expires = now + ttl },
    inl refl,
    (let a = (same_text_iff e e).1 refl in let b = (same_text_iff i i).1 refl in rw (a, b) refl),
    omega arith,
  )
]

set_nx-spent :
    (now ttl : ℕ) (e i : String) (spent : List SpentEntry) (until : ℕ)
    → now < until
    → IsSpentUntil e i until spent
    → (set_nx now ttl e i spent).1 ≡ false
unfolding set_nx
set_nx-spent now ttl e i spent until l (s, m, k, u) =
    let live : is_live_entry now e i s ≡ true = ground arith in
    rw (mem_any (is_live_entry now e i) s spent m live) refl

not_lt→le : {a b : ℕ} → ¬ (a < b) → b ≤ a
not_lt→le h = omega arith

others_not_live :
    (later : ℕ) (e i : String) (spent : List SpentEntry)
    → any (is_live_entry later e i) (filter (λ (s : SpentEntry). not (is_entry e i s)) spent)
      ≡ false
others_not_live later e i [] = refl
others_not_live later e i (s ∷ spent) = ground (arith, others_not_live later e i spent)

-- When its entry has run out, a token is set again.
set_nx-again :
    (now later ttl : ℕ) (e i : String) (spent : List SpentEntry)
    → (set_nx now ttl e i spent).1 ≡ true
    → now + ttl ≤ later
    → (set_nx later ttl e i (set_nx now ttl e i spent).0).1 ≡ true
unfolding set_nx
set_nx-again now later ttl e i spent h l = elim (Bool-cases (any (is_live_entry now e i) spent)) [
  | inl p ↦ absurd (let h' = rw p at h in cc h')
  | inr p ↦
      let old : ltb later (now + ttl) ≡ false = ground arith in
      let others = others_not_live later e i spent in rw p (ground arith)
]

module _ (c : Crypto) where
  -- A redemption: when, the key that would be made, and the token.
  pub record Redemption : Type 0 where
    pub at : ℕ
    pub fresh : c.Key
    pub token : Token

  abbrev pub redeem_all : ℕ → List Redemption → Store c → Store c
  unfolding verify_and_consume_token
  redeem_all ttl [] store = store
  redeem_all ttl (r ∷ rs) store =
      redeem_all ttl rs (verify_and_consume_token c r.at ttl r.fresh r.token store).0

  consume-IsSpentUntil :
      (now ttl : ℕ) (fresh : c.Key) (store : Store c) (parts : Option (String × c.Bytes × c.Bytes))
      (epoch id : String) (until : ℕ)
      → now < until
      → IsSpentUntil epoch id until store.spent
      → IsSpentUntil epoch id until (consume c now ttl fresh store parts).0.spent
  unfolding consume
  consume-IsSpentUntil now ttl fresh store none epoch id until l h = h
  consume-IsSpentUntil now ttl fresh store (some (e, p, s)) epoch id until l h =
      let key = issuer_key c fresh store.issuer in
      elim (Bool-cases (same_text e (c.epoch_id key))) [
        | inl q ↦ elim (Bool-cases (c.verify key p s)) [
          | inl v ↦
              rw (q, v)
                (set_nx-IsSpentUntil now ttl e (c.token_id p s) store.spent epoch id until l h)
          | inr v ↦ rw (q, v) h
        ]
        | inr q ↦ rw q h
      ]

  redeem_all-IsSpentUntil :
      (ttl : ℕ) (rs : List Redemption) (store : Store c) (epoch id : String) (until : ℕ)
      → All (λ r. r.at < until) rs
      → IsSpentUntil epoch id until store.spent
      → IsSpentUntil epoch id until (redeem_all ttl rs store).spent
  unfolding redeem_all verify_and_consume_token
  redeem_all-IsSpentUntil ttl [] store epoch id until l h = h
  redeem_all-IsSpentUntil ttl (r ∷ rs) store epoch id until (l, ls) h =
      redeem_all-IsSpentUntil ttl rs (verify_and_consume_token c r.at ttl r.fresh r.token store).0
        epoch id until ls
        (consume-IsSpentUntil r.at ttl r.fresh store (token_parts c r.token) epoch id until l h)

  consume-taken :
      (now ttl : ℕ) (fresh : c.Key) (store : Store c) (e : String) (p s : c.Bytes)
      → (consume c now ttl fresh store (some (e, p, s))).1 ≡ true
      → IsSpentUntil e
          (c.token_id p s)
          (now + ttl)
          (consume c now ttl fresh store (some (e, p, s))).0.spent
  unfolding consume
  consume-taken now ttl fresh store e p s h =
      let key = issuer_key c fresh store.issuer in
      elim (Bool-cases (same_text e (c.epoch_id key))) [
        | inl q ↦ elim (Bool-cases (c.verify key p s)) [
          | inl v ↦ rw (q, v) (set_nx-new now ttl e (c.token_id p s) store.spent (rw (q, v) at h))
          | inr v ↦ absurd (let h' = rw (q, v) at h in cc h')
        ]
        | inr q ↦ absurd (let h' = rw q at h in cc h')
      ]

  consume-refused :
      (now ttl : ℕ) (fresh : c.Key) (store : Store c) (e : String) (p s : c.Bytes) (until : ℕ)
      → now < until
      → IsSpentUntil e (c.token_id p s) until store.spent
      → (consume c now ttl fresh store (some (e, p, s))).1 ≡ false
  unfolding consume
  consume-refused now ttl fresh store e p s until l h =
      let key = issuer_key c fresh store.issuer in
      elim (Bool-cases (same_text e (c.epoch_id key))) [
        | inl q ↦ elim (Bool-cases (c.verify key p s)) [
          | inl v ↦ rw (q, v) (set_nx-spent now ttl e (c.token_id p s) store.spent until l h)
          | inr v ↦ rw (q, v) refl
        ]
        | inr q ↦ rw q refl
      ]

  -- A token with a good signature of the epoch is left to the spent entries.
  consume-valid :
      (now ttl : ℕ) (fresh : c.Key) (store : Store c) (e : String) (p s : c.Bytes)
      → same_text e (c.epoch_id (issuer_key c fresh store.issuer)) ≡ true
      → c.verify (issuer_key c fresh store.issuer) p s ≡ true
      → consume c now ttl fresh store (some (e, p, s)) ≡ (
        record {
          issuer = some (issuer_key c fresh store.issuer);
          spent = (set_nx now ttl e (c.token_id p s) store.spent).0;
        },
        (set_nx now ttl e (c.token_id p s) store.spent).1,
      )
  unfolding consume
  consume-valid now ttl fresh store e p s q v = rw (q, v) refl

  consume_valid_of_taken :
      (now ttl : ℕ) (fresh : c.Key) (store : Store c) (e : String) (p s : c.Bytes)
      → (consume c now ttl fresh store (some (e, p, s))).1 ≡ true
      → (same_text e (c.epoch_id (issuer_key c fresh store.issuer)) ≡ true)
        × (c.verify (issuer_key c fresh store.issuer) p s ≡ true)
  unfolding consume
  consume_valid_of_taken now ttl fresh store e p s h =
      let key = issuer_key c fresh store.issuer in
      elim (Bool-cases (same_text e (c.epoch_id key))) [
        | inl q ↦ elim (Bool-cases (c.verify key p s)) [
          | inl v ↦ (q, v)
          | inr v ↦ absurd (let h' = rw (q, v) at h in cc h')
        ]
        | inr q ↦ absurd (let h' = rw q at h in cc h')
      ]

  consume-again :
      (now later ttl : ℕ) (fresh fresh' : c.Key) (store : Store c) (e : String) (p s : c.Bytes)
      → (consume c now ttl fresh store (some (e, p, s))).1 ≡ true
      → now + ttl ≤ later
      → (consume c later ttl fresh'
          (consume c now ttl fresh store (some (e, p, s))).0
          (some (e, p, s))).1
        ≡ true
  unfolding issuer_key
  consume-again now later ttl fresh fresh' store e p s h l =
      let (q, v) = consume_valid_of_taken now ttl fresh store e p s h in
      let first = consume-valid now ttl fresh store e p s q v in
      let store' : Store c = record {
        issuer = some (issuer_key c fresh store.issuer);
        spent = (set_nx now ttl e (c.token_id p s) store.spent).0;
      } in
      let second = consume-valid later ttl fresh' store' e p s q v in
      let taken : (set_nx now ttl e (c.token_id p s) store.spent).1 ≡ true =
        sym (ap (λ (x : Store c × Bool). x.1) first) ∙ h in
      ap (λ (x : Store c × Bool). (consume c later ttl fresh' x.0 (some (e, p, s))).1) first
      ∙ ap (λ (x : Store c × Bool). x.1) second
      ∙ set_nx-again now later ttl e (c.token_id p s) store.spent taken l

  token_refused :
      (now ttl : ℕ) (fresh : c.Key) (token : Token) (store : Store c) (e : String) (p s : c.Bytes)
      (until : ℕ)
      → token_parts c token ≡ some (e, p, s)
      → now < until
      → IsSpentUntil e (c.token_id p s) until store.spent
      → (verify_and_consume_token c now ttl fresh token store).1 ≡ false
  unfolding verify_and_consume_token
  token_refused now ttl fresh token store e p s until o l h =
      rw o (consume-refused now ttl fresh store e p s until l h)

  token_spent :
      (now ttl : ℕ) (fresh : c.Key) (token : Token) (store : Store c) (e : String) (p s : c.Bytes)
      → token_parts c token ≡ some (e, p, s)
      → (verify_and_consume_token c now ttl fresh token store).1 ≡ true
      → IsSpentUntil e
          (c.token_id p s)
          (now + ttl)
          (verify_and_consume_token c now ttl fresh token store).0.spent
  unfolding verify_and_consume_token
  token_spent now ttl fresh token store e p s o h =
      rw o (consume-taken now ttl fresh store e p s (rw o at h))

  token_again :
      (now later ttl : ℕ) (fresh fresh' : c.Key) (token : Token) (store : Store c) (e : String)
      (p s : c.Bytes)
      → token_parts c token ≡ some (e, p, s)
      → (verify_and_consume_token c now ttl fresh token store).1 ≡ true
      → now + ttl ≤ later
      → (verify_and_consume_token c later ttl fresh' token
          (verify_and_consume_token c now ttl fresh token store).0).1
        ≡ true
  unfolding verify_and_consume_token
  token_again now later ttl fresh fresh' token store e p s o h l =
      rw o (consume-again now later ttl fresh fresh' store e p s (rw o at h) l)

  -- A token that is taken has its parts.
  token_has_parts :
      (now ttl : ℕ) (fresh : c.Key) (token : Token) (store : Store c)
      → (verify_and_consume_token c now ttl fresh token store).1 ≡ true
      → (x : String × c.Bytes × c.Bytes) × (token_parts c token ≡ some x)
  unfolding verify_and_consume_token consume
  token_has_parts now ttl fresh token store h = elim (Option-cases (token_parts c token)) [
    | inl o ↦ absurd (let h' = rw o at h in cc h')
    | inr x ↦ x
  ]

  -- A token that was taken is not taken again before its spent entry runs out, whatever tokens are
  -- redeemed between.
  pub single_use :
      (now ttl : ℕ) (fresh : c.Key) (token : Token) (store : Store c) (between : List Redemption)
      (later : ℕ) (fresh' : c.Key)
      → (verify_and_consume_token c now ttl fresh token store).1 ≡ true
      → All (λ r. r.at < now + ttl) between
      → later < now + ttl
      → (verify_and_consume_token c later ttl fresh' token
          (redeem_all ttl between (verify_and_consume_token c now ttl fresh token store).0)).1
        ≡ false
  single_use now ttl fresh token store between later fresh' h ls l =
      let ((e, p, s), o) = token_has_parts now ttl fresh token store h in
      token_refused later ttl fresh' token _ e p s (now + ttl) o l (
        redeem_all-IsSpentUntil ttl between _ e (c.token_id p s) (now + ttl) ls
          (token_spent now ttl fresh token store e p s o h))

  -- A token that was taken and comes back, with no other between, is taken again exactly where its
  -- spent entry has run out.
  pub taken_again :
      (now ttl : ℕ) (fresh : c.Key) (token : Token) (store : Store c) (later : ℕ) (fresh' : c.Key)
      → (verify_and_consume_token c now ttl fresh token store).1 ≡ true
      → ((verify_and_consume_token c later ttl fresh' token
            (verify_and_consume_token c now ttl fresh token store).0).1
          ≡ true)
        ↔ (now + ttl ≤ later)
  taken_again now ttl fresh token store later fresh' h =
      let ((e, p, s), o) = token_has_parts now ttl fresh token store h in
      (
        λ t. not_lt→le (λ l. false≢true (
            sym (
              token_refused later ttl fresh' token _ e p s (now + ttl) o l
                (token_spent now ttl fresh token store e p s o h))
            ∙ t)),
        λ l. token_again now later ttl fresh fresh' token store e p s o h l,
      )
