-- ===== src/Queue/Stale.antt =====
-- Which cursors `_reap_below_min` (app/routers/messages.py) drops.
use rcq_server_ref.Queue.Tables.{QueueCursor}
use rcq_server_ref.Base.{
  ℕ, arith, List, ◌∈◌, ◌≡◌, some, ◌∷◌, ◌≤◌, [], Option-cases, true, inl, inr, ap, ◌↔◌, Bool-cases,
  sym, ◌-◌, ◌<◌, leb, ◌∙◌, max, ◌*◌, ◌⊎◌, ltb, mem-filter, refl,
}
use rcq_server_ref.Queue.Reap.{
  newest, is_dropped, fresh_sibling, without_dropped, cursors_of, superseded_cursor_days,
  stale_cursor_days, day,
}

-- Some cursor of the list was stamped at `cutoff` or later.
abbrev pub HasStampSince : ℕ → List QueueCursor → Type 0
HasStampSince cutoff cs =
    (c : QueueCursor) × (c ∈ cs) × (t : ℕ) × (c.updated_at ≡ some t) × (cutoff ≤ t)

newest_mem :
    (cs : List QueueCursor) (t : ℕ)
    → newest cs ≡ some t
    → (c : QueueCursor) × (c ∈ cs) × (c.updated_at ≡ some t)
unfolding newest
newest_mem [] t h = absurd (cc h)
newest_mem (c ∷ cs) t h = elim (Option-cases c.updated_at) [
  | inl e ↦ let (d, i, f) = newest_mem cs t (ground arith) in (d, inr i, f)
  | inr (a, e) ↦ elim (Option-cases (newest cs)) [
    | inl e' ↦ (c, inl refl, ground arith)
    | inr (u, e') ↦ elim (Bool-cases (leb a u)) [
      | inl le ↦ let (d, i, f) = newest_mem cs u e' in (d, inr i, f ∙ ground arith)
      | inr gt ↦ (c, inl refl, ground arith)
    ]
  ]
]

newest_le :
    (cs : List QueueCursor) (c : QueueCursor) (t : ℕ)
    → c ∈ cs
    → c.updated_at ≡ some t
    → (u : ℕ) × (newest cs ≡ some u) × (t ≤ u)
unfolding newest
newest_le [] c t m h = absurd m
newest_le (d ∷ cs) c t (inl e) h =
    let e' : d.updated_at ≡ some t = ap (λ (x : QueueCursor). x.updated_at) (sym e) ∙ h in
    elim (Option-cases (newest cs)) [
      | inl n ↦ (t, ground arith, omega arith)
      | inr (u, n) ↦ (max t u, ground arith, omega arith)
    ]
newest_le (d ∷ cs) c t (inr m) h =
    let (u, n, le) = newest_le cs c t m h in
    elim (Option-cases d.updated_at) [
      | inl e ↦ (u, ground arith, le)
      | inr (a, e) ↦ (max a u, ground arith, omega arith)
    ]

pub fresh_sibling-true :
    (now : ℕ) (cs : List QueueCursor)
    → (fresh_sibling now cs ≡ true) ↔ HasStampSince (now - superseded_cursor_days * day) cs
unfolding fresh_sibling
fresh_sibling-true now cs = (to_stamp, from_stamp)
  where
    to_stamp : fresh_sibling now cs ≡ true → HasStampSince (now - superseded_cursor_days * day) cs
    to_stamp h = elim (Option-cases (newest cs)) [
      | inl e ↦ absurd (ground arith)
      | inr (t, e) ↦ let (c, m, u) = newest_mem cs t e in (c, m, t, u, ground arith)
    ]

    from_stamp : HasStampSince (now - superseded_cursor_days * day) cs → fresh_sibling now cs ≡ true
    from_stamp (c, m, t, u, le) = let (v, n, le') = newest_le cs c t m u in ground arith

-- A cursor is dropped exactly when its stamp is over thirty days old, or over seven days old beside
-- a cursor of the account stamped within the last seven. One without a stamp never is.
pub is_dropped-true :
    (now : ℕ) (cs : List QueueCursor) (c : QueueCursor)
    → (is_dropped now cs c ≡ true) ↔ (
        (ts : ℕ) × (c.updated_at ≡ some ts)
        × ((ts < now - stale_cursor_days * day)
            ⊎ ((ts < now - superseded_cursor_days * day)
                × HasStampSince (now - superseded_cursor_days * day) cs)))
unfolding is_dropped
is_dropped-true now cs c = (to_reason, from_reason)
  where
    to_reason :
        is_dropped now cs c ≡ true
        → (ts : ℕ) × (c.updated_at ≡ some ts)
          × ((ts < now - stale_cursor_days * day)
              ⊎ ((ts < now - superseded_cursor_days * day)
                  × HasStampSince (now - superseded_cursor_days * day) cs))
    to_reason h = elim (Option-cases c.updated_at) [
      | inl e ↦ absurd (ground arith)
      | inr (ts, e) ↦ elim (Bool-cases (ltb ts (now - stale_cursor_days * day))) [
        | inl old ↦ (ts, e, inl (ground arith))
        | inr young ↦ (ts, e, inr (ground arith, (fresh_sibling-true now cs).0 (ground arith)))
      ]
    ]

    from_reason :
        (ts : ℕ) × (c.updated_at ≡ some ts)
          × ((ts < now - stale_cursor_days * day)
              ⊎ ((ts < now - superseded_cursor_days * day)
                  × HasStampSince (now - superseded_cursor_days * day) cs))
        → is_dropped now cs c ≡ true
    from_reason (ts, e, inl old) = ground arith
    from_reason (ts, e, inr (older, stamp)) =
        let fresh = (fresh_sibling-true now cs).1 stamp in ground arith

-- A cursor with the newest stamp of its account is kept, unless that stamp is over thirty days old.
pub newest_kept :
    (now uin : ℕ) (cs : List QueueCursor) (c : QueueCursor) (t : ℕ)
    → c ∈ cs
    → c.uin ≡ uin
    → c.updated_at ≡ some t
    → newest (cursors_of uin cs) ≡ some t
    → now - stale_cursor_days * day ≤ t
    → c ∈ without_dropped now uin cs
unfolding without_dropped is_dropped fresh_sibling
newest_kept now uin cs c t m own u n le = mem-filter _ c cs (ground arith) m
