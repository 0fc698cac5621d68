-- ===== src/Queue/Prefix.antt =====
-- What `_acked_prefix` (app/routers/messages.py) answers, for either queue table.
use rcq_server_ref.Queue.Tables.{Model}
use rcq_server_ref.Base.{
  ℕ, ◌≤◌, ◌<◌, ◌≡◌, ap, true, false, ◌⊎◌, inl, inr, inl, List, ◌∷◌, ◌∈◌, All, arith, Bool-cases,
  All-mem, IsSortedBy, [], Option, sort_by-IsSortedBy, All-of_mem, mem-sort_by, map-mem, mem-map,
  sort_by-mem, mem-filter, filter-mem, map, filter, subst, sym,
}
use rcq_server_ref.Queue.Ack.{is_acked, prefix_end, pending_ids, acked_prefix, is_pending}

-- Where an id is not acked, the mark is still below it.
abbrev AboveOrAcked : List ℕ → ℕ → List ℕ → Type 0
AboveOrAcked acked out ids = All (λ j. (is_acked acked j ≡ true) ⊎ (out < j)) ids

AboveOrAcked-step :
    (acked : List ℕ) (i : ℕ) (ids : List ℕ)
    → is_acked acked i ≡ true
    → All (λ y. i ≤ y) ids
    → AboveOrAcked acked i ids
AboveOrAcked-step acked i [] h s = tt
AboveOrAcked-step acked i (j ∷ ids) h s =
    (here (Bool-cases (is_acked acked j)), AboveOrAcked-step acked i ids h s.1)
  where
    here :
        (is_acked acked j ≡ true) ⊎ (is_acked acked j ≡ false) → (is_acked acked j ≡ true) ⊎ (i < j)
    here (inl e) = inl e
    here (inr e) = inr (grind (arith, λ (q : i ≡ j). ap (is_acked acked) q))

pub prefix_end_acked :
    (acked : List ℕ) (out : ℕ) (ids : List ℕ) (k : ℕ)
    → IsSortedBy (λ i. i) ids
    → AboveOrAcked acked out ids
    → k ∈ ids
    → k ≤ prefix_end acked out ids
    → is_acked acked k ≡ true
unfolding prefix_end
prefix_end_acked acked out [] k s p m le = absurd m
prefix_end_acked acked out (i ∷ ids) k s p m le = elim (Bool-cases (is_acked acked i)) [
  | inl e ↦ elim m [
    | inl q ↦ rw q e
    | inr q ↦
        prefix_end_acked acked i ids k s.1 (AboveOrAcked-step acked i ids e s.0) q (rw e at le)
  ]
  | inr e ↦ acked_at_hole (rw e at le) (All-mem _ k (i ∷ ids) p m)
]
  where
    acked_at_hole : k ≤ out → (is_acked acked k ≡ true) ⊎ (out < k) → is_acked acked k ≡ true
    acked_at_hole l (inl q) = q
    acked_at_hole l (inr q) = absurd (omega arith)

pub prefix_end_le :
    (acked : List ℕ) (out : ℕ) (ids : List ℕ)
    → IsSortedBy (λ i. i) ids
    → All (λ j. out ≤ j) ids
    → out ≤ prefix_end acked out ids
unfolding prefix_end
prefix_end_le acked out [] s p = omega arith
prefix_end_le acked out (i ∷ ids) s p = ground (arith, prefix_end_le acked i ids s.1 s.0)

-- Where every id is acked the mark is past all of them.
pub le-prefix_end :
    (acked : List ℕ) (out : ℕ) (ids : List ℕ) (k : ℕ)
    → IsSortedBy (λ i. i) ids
    → All (λ j. is_acked acked j ≡ true) ids
    → k ∈ ids
    → k ≤ prefix_end acked out ids
unfolding prefix_end
le-prefix_end acked out [] k s h m = absurd m
le-prefix_end acked out (i ∷ ids) k s h (inl q) = rw h.0 (rw q (prefix_end_le acked i ids s.1 s.0))
le-prefix_end acked out (i ∷ ids) k s h (inr q) = rw h.0 (le-prefix_end acked i ids k s.1 h.1 q)

not_acked_nil : (k : ℕ) → ¬ (is_acked [] k ≡ true)
unfolding is_acked
not_acked_nil k h = cc

module _ {A : Type 0} (m : Model A) (uin base : ℕ) (dev : Option ℕ) (rows : List A) where
  pending_ids-IsSortedBy : IsSortedBy (λ i. i) (pending_ids m uin base dev rows)
  unfolding pending_ids
  pending_ids-IsSortedBy =
      sort_by-IsSortedBy (λ i. i) (map m.id (filter (is_pending m uin base dev) rows))

  pub mem-pending_ids :
      (r : A)
      → r ∈ rows
      → is_pending m uin base dev r ≡ true
      → m.id r ∈ pending_ids m uin base dev rows
  unfolding pending_ids
  mem-pending_ids r i h =
      mem-sort_by (λ i. i) (m.id r) _
        (mem-map m.id r _ (mem-filter (is_pending m uin base dev) r rows h i))

  pub pending_ids-mem :
      (k : ℕ)
      → k ∈ pending_ids m uin base dev rows
      → (r : A) × (r ∈ rows) × (is_pending m uin base dev r ≡ true) × (k ≡ m.id r)
  unfolding pending_ids
  pending_ids-mem k i =
      let (r, j, e) = map-mem m.id k _ (sort_by-mem (λ i. i) k _ i) in
      let (h, p) = filter-mem (is_pending m uin base dev) r rows j in (r, h, p, e)

  pending_above : (k : ℕ) → k ∈ pending_ids m uin base dev rows → base < k
  pending_above k i = let (r, j, p, e) = pending_ids-mem k i in rw e (ground (arith, p))

  -- The mark never goes below the floor.
  pub base-le-acked_prefix : (acked : List ℕ) → base ≤ acked_prefix m uin base dev acked rows
  unfolding acked_prefix
  base-le-acked_prefix [] = omega arith
  base-le-acked_prefix (a ∷ acked) =
      prefix_end_le (a ∷ acked) base (pending_ids m uin base dev rows) pending_ids-IsSortedBy
        (All-of_mem _ _ (λ k i. omega (arith, pending_above k i)))

  -- Every pending row at or below the mark was acked: no unacked row is buried under it.
  pub acked_prefix_acked :
      (acked : List ℕ) (r : A)
      → r ∈ rows
      → is_pending m uin base dev r ≡ true
      → m.id r ≤ acked_prefix m uin base dev acked rows
      → is_acked acked (m.id r) ≡ true
  unfolding acked_prefix
  acked_prefix_acked [] r i p le = absurd (ground (arith, p, le))
  acked_prefix_acked (a ∷ acked) r i p le =
      prefix_end_acked (a ∷ acked) base (pending_ids m uin base dev rows) (m.id r)
        pending_ids-IsSortedBy (All-of_mem _ _ (λ k i. inr (pending_above k i)))
        (mem-pending_ids r i p) le

  -- Where every pending row was acked, the mark is past all of them.
  pub le-acked_prefix :
      (acked : List ℕ)
      → ((r : A) → r ∈ rows → is_pending m uin base dev r ≡ true → is_acked acked (m.id r) ≡ true)
      → (r : A) → r ∈ rows
      → is_pending m uin base dev r ≡ true
      → m.id r ≤ acked_prefix m uin base dev acked rows
  unfolding acked_prefix
  le-acked_prefix [] h r i p = absurd (not_acked_nil (m.id r) (h r i p))
  le-acked_prefix (a ∷ acked) h r i p =
      le-prefix_end (a ∷ acked) base (pending_ids m uin base dev rows) (m.id r)
        pending_ids-IsSortedBy
        (All-of_mem _ _ (λ k j.
          let (s, l, q, e) = pending_ids-mem k j in
          subst (λ x. is_acked (a ∷ acked) x ≡ true) (sym e) (h s l q)))
        (mem-pending_ids r i p)
