-- ===== src/Guest/Admission.antt =====
-- `admission_open`, the markers of routes and `enforce` of app/core/guest_policy.py. The counter of
-- refusals is left out.
use Prim.Native.String.{String}
use rcq_server_ref.Base.{
  ℕ, List, Option, Bool, none, some, true, false, not, ◌&&◌, ◌||◌, if◌then◌else◌, same_text,
}
use rcq_server_ref.Guest.Mirror.{Redis, is_guest}

-- The settings; the policy is not there where it was never read.
pub record Settings : Type 0 where
  pub registration_policy : Option String
  pub closed_island : Bool
  pub federation_refuse_strangers : Bool
  pub guest_admission : String

unfoldable pub admits : String → Settings → Bool
admits policy s =
    if same_text policy "open"
    then false
    else if s.closed_island && s.federation_refuse_strangers
    then false
    else if same_text s.guest_admission "off"
    then false
    else if same_text s.guest_admission "on"
    then true
    else same_text policy "paid" && not s.closed_island

unfoldable pub admission_open : Settings → Bool
unfolding admits
admission_open s = elim s.registration_policy [ none ↦ false | some policy ↦ admits policy s ]

abbrev pub is_policy : String → Bool
is_policy policy = same_text policy "allow" || same_text policy "rule"

-- The marker that `guest(policy)` puts on an endpoint; nothing is a `ValueError`.
unfoldable pub guest : String → Option String
guest policy = if is_policy policy then some policy else none

unfoldable pub route_policy : Option String → String
route_policy none = "deny"
route_policy (some value) = if is_policy value then value else "deny"

pub data Access : Type 0 where
  passed : Access
  guest_restricted : Access

unfoldable pub refuse_guest : Bool → ℕ → List ℕ → ℕ → Redis → Redis × Access
unfolding is_guest
refuse_guest up now rows uin r =
    let (r', answer) = is_guest up now rows uin r in
    (r', if answer then guest_restricted else passed)

unfoldable pub enforce : Option String → Bool → ℕ → List ℕ → ℕ → Redis → Redis × Access
unfolding route_policy refuse_guest
enforce endpoint up now rows uin r =
    if not (same_text (route_policy endpoint) "deny")
    then (r, passed)
    else refuse_guest up now rows uin r
