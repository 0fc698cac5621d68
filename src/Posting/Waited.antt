-- ===== src/Posting/Waited.antt =====
-- What the `hours_left` of `_enforce_account_age_gate` (app/routers/messages.py) promises.
use rcq_server_ref.Posting.AgeGate.{
  admitted, too_young, age_gate, member_gate, enforce_account_age_gate, hours_left, Group,
  GroupMember, Account, created_at_of, find_member,
}
use rcq_server_ref.Base.{
  ℕ, arith, Option, List, ◌≡◌, ◌+◌, String, ◌*◌, ◌≤◌, some, none, Bool-cases, leb, same_text, not,
  ◌||◌, inl, inr, ◌==◌,
}

age_gate_waited :
    (now later need hours : ℕ) (since : Option ℕ)
    → age_gate now need since ≡ too_young hours
    → now + hours * 3600 ≤ later
    → (age_gate later need since ≡ admitted) × (1 ≤ hours)
unfolding age_gate hours_left
age_gate_waited now later need hours none h w = absurd (cc h)
age_gate_waited now later need hours (some since) h w =
    elim (Bool-cases (leb (since + need * 3600) now)) [
      | inl e ↦ absurd (cc (rw e at h))
      | inr e ↦ let h' = rw e at h in (ground arith, ground arith)
    ]

member_gate_waited :
    (now later need hours : ℕ) (created : Option ℕ) (o : Option GroupMember)
    → member_gate now need created o ≡ too_young hours
    → now + hours * 3600 ≤ later
    → (member_gate later need created o ≡ admitted) × (1 ≤ hours)
unfolding member_gate
member_gate_waited now later need hours created none h w = absurd (cc h)
member_gate_waited now later need hours created (some m) h w =
    elim (Bool-cases (same_text m.role "admin" || m.has_caps)) [
      | inl e ↦ absurd (cc (rw e at h))
      | inr e ↦ rw e (age_gate_waited now later need hours _ (rw e at h) w)
    ]

-- A member that the gate refuses is told at least one hour, and is let through when it comes back
-- after the hours it was told, while the tables are the same.
pub waited_hours :
    (now later hours : ℕ) (g : Group) (members : List GroupMember) (accounts : List Account)
    (caller : Option ℕ) (envelope_type : String)
    → enforce_account_age_gate now g members accounts caller envelope_type ≡ too_young hours
    → now + hours * 3600 ≤ later
    → (enforce_account_age_gate later g members accounts caller envelope_type ≡ admitted)
      × (1 ≤ hours)
unfolding enforce_account_age_gate
waited_hours now later hours g members accounts none envelope_type h w = absurd (cc h)
waited_hours now later hours g members accounts (some caller) envelope_type h w =
    elim (Bool-cases (not (same_text envelope_type "message") || g.min_account_age_hours == 0)) [
      | inl e ↦ absurd (cc (rw e at h))
      | inr e ↦ elim (Bool-cases (caller == g.owner_uin)) [
        | inl o ↦ absurd (cc (rw (e, o) at h))
        | inr o ↦
            rw (e, o)
              (member_gate_waited now later g.min_account_age_hours hours
                (created_at_of caller accounts) (find_member g.id caller members) (rw (e, o) at h)
                w)
      ]
    ]
