-- ===== src/Guest/Closed.antt =====
-- Routes that are closed to guests, and islands that admit none (app/core/guest_policy.py).
use Prim.Native.String.{String}
use rcq_server_ref.Base.{
  ℕ, arith, List, Option, Bool, none, some, true, false, ◌≡◌, ◌≢◌, ◌∈◌, ◌⊎◌, ◌↔◌, inl, inr, refl,
  sym, ◌∙◌, ◌<◌, ◌+◌, same_text, same_text_iff, Bool-cases, Option-cases,
}
use rcq_server_ref.Guest.Mirror.{guest_pending_ttl_seconds}
use rcq_server_ref.Guest.Steps.{World, Steps}
use rcq_server_ref.Guest.Kept.{cold, is_guest-guest}
use rcq_server_ref.Guest.Admission.{
  Settings, admits, admission_open, is_policy, guest, route_policy, guest_restricted, refuse_guest,
  enforce,
}

-- A marker that the decorator makes.
abbrev pub IsMarked : Option String → Type 0
IsMarked endpoint =
    (policy : String) × (marker : String) × (guest policy ≡ some marker) × (endpoint ≡ some marker)

-- An endpoint is let through unseen only where the decorator has marked it.
route_policy-deny :
    (endpoint : Option String)
    → ¬ IsMarked endpoint
    → same_text (route_policy endpoint) "deny" ≡ true
unfolding route_policy guest
route_policy-deny none n = refl
route_policy-deny (some value) n = elim (Bool-cases (is_policy value)) [
  | inl e ↦ absurd (n (value, value, rw e refl, refl))
  | inr e ↦ rw e refl
]

-- A guest of the table is refused on each route that has no marker, with Redis or without, whatever has
-- happened to the guest set before. (The conditions on what happened are those of `is_guest-guest`.)
pub enforce-refuses :
    (commit_within store_within now : ℕ) (guests : List ℕ) (w : World) (up : Bool) (uin : ℕ)
    (endpoint : Option String)
    → commit_within + store_within < guest_pending_ttl_seconds
    → Steps commit_within store_within (cold now guests) w
    → uin ∈ w.guests
    → ¬ IsMarked endpoint
    → (enforce endpoint up w.now w.guests uin w.redis).1 ≡ guest_restricted
unfolding enforce refuse_guest
enforce-refuses commit_within store_within now guests w up uin endpoint fits run i n =
    let denied = route_policy-deny endpoint n in
    let known = is_guest-guest commit_within store_within now guests w up uin fits run i in
    rw (denied, known) refl

-- What an island admits guests by: it is not open, it does not refuse strangers behind a closed door,
-- and its operator says on, or does not say off and the island is paid and not closed.
abbrev pub AdmitsGuests : Settings → Type 0
AdmitsGuests s =
    (policy : String) × (s.registration_policy ≡ some policy)
    × (policy ≢ "open")
    × ((s.closed_island ≡ false) ⊎ (s.federation_refuse_strangers ≡ false))
    × ((s.guest_admission ≡ "on")
        ⊎ ((s.guest_admission ≢ "off") × (policy ≡ "paid") × (s.closed_island ≡ false)))

on_not_off : (mode : String) → mode ≡ "on" → same_text mode "off" ≡ false
on_not_off mode e = rw e refl

admits-true :
    (policy : String) (s : Settings)
    → (admits policy s ≡ true) ↔ (
        (policy ≢ "open")
        × ((s.closed_island ≡ false) ⊎ (s.federation_refuse_strangers ≡ false))
        × ((s.guest_admission ≡ "on")
            ⊎ ((s.guest_admission ≢ "off") × (policy ≡ "paid") × (s.closed_island ≡ false))))
unfolding admits
admits-true policy s =
    let opened = same_text_iff policy "open" in
    let paid = same_text_iff policy "paid" in
    let off = same_text_iff s.guest_admission "off" in
    let on = same_text_iff s.guest_admission "on" in
    let apart = on_not_off s.guest_admission in (λ h. ground arith, λ (a, b, c). ground arith)

-- An island admits guests exactly where it is not open, does not refuse strangers behind a closed door,
-- and its operator says on, or does not say off and the island is paid and not closed. One that has not
-- read its policy admits none.
pub admission_open-true : (s : Settings) → (admission_open s ≡ true) ↔ AdmitsGuests s
unfolding admission_open
admission_open-true s = elim (Option-cases s.registration_policy) [
  | inl o ↦ (
    λ h. absurd (let h' = rw o at h in cc h'),
    λ (p, e, a, b, c). absurd (let q = sym o ∙ e in cc q),
  )
  | inr (policy, o) ↦ (
    λ h. let (a, b, c) = (admits-true policy s).0 (rw o at h) in (policy, o, a, b, c),
    λ (p, e, a, b, c).
        let q : policy ≡ p = (let q = sym o ∙ e in cc q) in
        rw o ((admits-true policy s).1 (rw q (a, b, c))),
  )
]
