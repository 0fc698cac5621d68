-- ===== src/RateLimit/Cost.antt =====
-- The fixed window of `_COST_SCRIPT` (app/core/rate_limit.py).
use rcq_server_ref.RateLimit.Buckets.{
  accepted, refused, Verdict, cost_script, Counter, no_counter, present_counter, tick,
}
use rcq_server_ref.Base.{
  ℕ, arith, List, ◌+◌, All, ◌≡◌, ◌≤◌, ◌∷◌, ◌⊎◌, ◌<◌, some, ◌*◌, [], inl, inr, refl, Option-cases,
  Bool-cases, if◌then◌else◌, ◌==◌, ◌∙◌,
}

pub record Charge : Type 0 where
  pub at : ℕ
  pub cost : ℕ

abbrev pub spent_after : ℕ → Verdict → ℕ → ℕ
spent_after cost accepted spent = spent + cost
spent_after cost (refused retry) spent = spent

-- The charges of one key, the newest first, from a key that is not there: the counter, and the sum
-- of the costs that were let through.
unfoldable pub charge_all : ℕ → ℕ → List Charge → Counter × ℕ
unfolding cost_script
charge_all window limit [] = (no_counter, 0)
charge_all window limit (c ∷ earlier) =
    let (counter, spent) = charge_all window limit earlier in
    let (counter', v) = cost_script c.at c.cost limit window counter in
    (counter', spent_after c.cost v spent)

-- The counter is empty, or its key lives to `until` at least.
abbrev pub LivesTo : ℕ → Counter → Type 0
LivesTo until c = (c.used ≡ 0) ⊎ ((e : ℕ) × (c.expires ≡ some e) × (until ≤ e))

abbrev pub Covers : ℕ → ℕ → Counter → ℕ → Type 0
Covers until limit c spent = LivesTo until c × (spent ≤ c.used) × (spent ≤ limit)

cost_script-fresh :
    (now cost limit window : ℕ) (c : Counter)
    → c.used ≡ 0
    → ((cost_script now cost limit window c).0.expires ≡ some (now + window * tick))
      × ((cost_script now cost limit window c).0.used ≡ cost)
unfolding cost_script present_counter
cost_script-fresh now cost limit window c h = elim (Option-cases c.expires) [
  | inl e ↦ rw e (ground arith)
  | inr (t, e) ↦ rw e (ground arith)
]

cost_script-live :
    (now cost limit window e : ℕ) (c : Counter)
    → c.expires ≡ some e
    → now < e
    → ((cost_script now cost limit window c).0.used ≡ c.used + cost)
      × ((cost_script now cost limit window c).0.expires
          ≡ (if c.used + cost == cost then some (now + window * tick) else some e))
unfolding cost_script present_counter
cost_script-live now cost limit window e c h lt = rw h (ground arith)

cost_script-Covers :
    (window limit until now cost spent : ℕ) (c : Counter)
    → now < until
    → until ≤ now + window * tick
    → Covers until limit c spent
    → let (c', v) = cost_script now cost limit window c in
      Covers until limit c' (spent_after cost v spent)
unfolding cost_script present_counter
cost_script-Covers window limit until now cost spent c lt le (inl empty, s, l) = (
  inr (now + window * tick, (cost_script-fresh now cost limit window c empty).0, le),
  ground (arith, cost_script-fresh now cost limit window c empty),
  ground (arith, cost_script-fresh now cost limit window c empty),
)
cost_script-Covers window limit until now cost spent c lt le (inr (e, q, u), s, l) =
    let (now_used, kept) = cost_script-live now cost limit window e c q (omega arith) in
    (
      elim (Bool-cases (c.used + cost == cost)) [
        | inl b ↦ inr (now + window * tick, kept ∙ ground arith, le)
        | inr b ↦ inr (e, kept ∙ ground arith, u)
      ],
      ground arith,
      ground arith,
    )

charge_all-Covers :
    (window limit from : ℕ) (calls : List Charge)
    → All (λ c. (from ≤ c.at) × (c.at < from + window * tick)) calls
    → Covers
        (from + window * tick)
        limit
        (charge_all window limit calls).0
        (charge_all window limit calls).1
unfolding charge_all
charge_all-Covers window limit from [] h = (inl refl, omega arith, omega arith)
charge_all-Covers window limit from (c ∷ earlier) ((lo, hi), h) =
    cost_script-Covers window limit (from + window * tick) c.at c.cost _ _ hi (omega arith)
      (charge_all-Covers window limit from earlier h)

-- Charges of one key within one window, from an empty one, let through no more than the limit.
pub cost_window :
    (window limit from : ℕ) (calls : List Charge)
    → All (λ c. (from ≤ c.at) × (c.at < from + window * tick)) calls
    → (charge_all window limit calls).1 ≤ limit
cost_window window limit from calls h = (charge_all-Covers window limit from calls h).2
