-- ===== src/Posting/AgeGate.antt =====
-- `_enforce_account_age_gate` of app/routers/messages.py, for a room that exists. Times are in
-- seconds.
use rcq_server_ref.Base.{
  ℕ, String, Option, List, max, Bool, none, ◌*◌, some, ◌∷◌, ◌-◌, if◌then◌else◌, leb, same_text, not,
  ◌+◌, ◌==◌, ◌&&◌, ◌/◌, ◌||◌, [],
}

-- The columns of `groups`, `group_members` and `users` that the gate and the slow mode read; NULL
-- hours and seconds are 0, and `has_caps` says that `permissions` is not blank.
pub record Group : Type 0 where
  pub id : ℕ
  pub owner_uin : ℕ
  pub min_account_age_hours : ℕ
  pub slowmode_sec : ℕ

pub record GroupMember : Type 0 where
  pub group_id : ℕ
  pub uin : ℕ
  pub role : String
  pub has_caps : Bool
  pub joined_at : Option ℕ

pub record Account : Type 0 where
  pub uin : ℕ
  pub created_at : Option ℕ

unfoldable pub find_member : ℕ → ℕ → List GroupMember → Option GroupMember
find_member group_id uin [] = none
find_member group_id uin (m ∷ members) =
    if m.group_id == group_id && m.uin == uin then some m else find_member group_id uin members

unfoldable pub created_at_of : ℕ → List Account → Option ℕ
created_at_of uin [] = none
created_at_of uin (a ∷ accounts) = if a.uin == uin then a.created_at else created_at_of uin accounts

-- A pass, or the 403 with its `hours_left`.
pub data Gate : Type 0 where
  admitted : Gate
  too_young : ℕ → Gate

abbrev pub or_else : Option ℕ → Option ℕ → Option ℕ
or_else none other = other
or_else (some t) other = some t

-- `max(1, math.ceil(need - age_h))`, where the wait ends at `until`.
unfoldable pub hours_left : ℕ → ℕ → ℕ
hours_left now until = max 1 ((until - now + 3599) / 3600)

unfoldable pub age_gate : ℕ → ℕ → Option ℕ → Gate
unfolding hours_left
age_gate now need none = admitted
age_gate now need (some since) =
    if leb (since + need * 3600) now
    then admitted
    else too_young (hours_left now (since + need * 3600))

unfoldable pub member_gate : ℕ → ℕ → Option ℕ → Option GroupMember → Gate
unfolding age_gate
member_gate now need created none = admitted
member_gate now need created (some m) =
    if same_text m.role "admin" || m.has_caps
    then admitted
    else age_gate now need (or_else m.joined_at created)

unfoldable pub enforce_account_age_gate :
    ℕ → Group → List GroupMember → List Account → Option ℕ → String → Gate
unfolding member_gate find_member created_at_of
enforce_account_age_gate now g members accounts none envelope_type = admitted
enforce_account_age_gate now g members accounts (some caller) envelope_type =
    if not (same_text envelope_type "message") || g.min_account_age_hours == 0
    then admitted
    else if caller == g.owner_uin
    then admitted
    else member_gate now g.min_account_age_hours (created_at_of caller accounts)
        (find_member g.id caller members)
