-- ===== src/Posting/Keep.antt =====
-- `_queueable` and `_keep_for` of app/routers/messages.py. A set is a list; the cutoff of the
-- dormant sweep is an argument, `none` where the sweep is off.
use rcq_server_ref.Base.{
  ℕ, Option, List, Bool, map, String, false, some, if◌then◌else◌, leb, filter, ◌==◌, ◌&&◌, none,
  not, same_text, ◌++◌,
}

-- A room's member with the moment it was last seen.
pub record Seen : Type 0 where
  pub uin : ℕ
  pub last_seen : Option ℕ

abbrev pub is_seen_since : ℕ → Option ℕ → Bool
is_seen_since cutoff none = false
is_seen_since cutoff (some t) = leb cutoff t

unfoldable pub queueable : Option ℕ → List Seen → List ℕ
queueable none members = map (λ (m : Seen). m.uin) members
queueable (some cutoff) members =
    map (λ (m : Seen). m.uin) (filter (λ (m : Seen). is_seen_since cutoff m.last_seen) members)

unfoldable pub keep_for : List ℕ → List ℕ → ℕ → List ℕ → String → List ℕ
keep_for recipients queued cls wake envelope_type =
    if cls == 2 && not (same_text envelope_type "sknack") then recipients else queued ++ wake
