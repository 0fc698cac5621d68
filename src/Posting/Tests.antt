-- ===== src/Posting/Tests.antt =====
-- Runs of the gate and of the keep rule, and the theorems at them.
use rcq_server_ref.Posting.Kept.{woken_kept}
use rcq_server_ref.Posting.Waited.{waited_hours}
use rcq_server_ref.Posting.Keep.{Seen, keep_for, queueable}
use rcq_server_ref.Posting.AgeGate.{
  admitted, too_young, Group, enforce_account_age_gate, GroupMember,
}
use rcq_server_ref.Base.{ℕ, arith, List, ◌∈◌, [], some, false, ◌≡◌, ◌∷◌, ◌≤◌, refl, inl}

abbrev room : Group
room = record { id = 21; owner_uin = 5; min_account_age_hours = 24; slowmode_sec = 0 }

abbrev joined : List GroupMember
joined =
    record { group_id = 21; uin = 777; role = "member"; has_caps = false; joined_at = some 1000 }
    ∷ []

refused : enforce_account_age_gate 5000 room joined [] (some 777) "message" ≡ too_young 23
unfolding enforce_account_age_gate
refused = refl

waited_hours_example :
    (enforce_account_age_gate 90000 room joined [] (some 777) "message" ≡ admitted) × (1 ≤ 23)
unfolding enforce_account_age_gate
waited_hours_example =
    waited_hours 5000 90000 23 room joined [] (some 777) "message" refl (omega arith)

abbrev dormant : Seen
dormant = record { uin = 777; last_seen = some 10 }

woken_kept_example :
    ◌∈◌ {A = ℕ} 777
      (keep_for (777 ∷ 8 ∷ []) (queueable (some 100) (dormant ∷ [])) 1 (777 ∷ []) "gmsg")
woken_kept_example =
    woken_kept 100 (dormant ∷ []) (777 ∷ 8 ∷ []) (777 ∷ []) 1 "gmsg" dormant (inl refl) (inl refl)
      (inl (inl refl))
