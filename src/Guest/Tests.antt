-- ===== src/Guest/Tests.antt =====
-- Runs of the guest set, and the theorems at them.
use rcq_server_ref.Base.{arith, none, some, [], ◌∷◌, true, false, ◌≡◌, inl, refl}
use rcq_server_ref.Guest.Mirror.{Redis, mark_guest, unmark_guest, store_rebuilt, is_guest}
use rcq_server_ref.Guest.Steps.{World, Step, Steps}
use rcq_server_ref.Guest.Steps.Step.{mark, commit, read_rows, store_rows}
use rcq_server_ref.Guest.Steps.Steps.{stop, then_step}
use rcq_server_ref.Guest.Kept.{cold, is_guest-guest}
use rcq_server_ref.Guest.Closed.{enforce-refuses}
use rcq_server_ref.Guest.Admission.{Settings, enforce, guest_restricted}

-- A rebuild reads its rows before the guest 300 is committed and stores them after.
abbrev marked : Redis
marked = record {
  guest_uins = 300 ∷ [];
  pending = 300 ∷ [];
  pending_expires = 130;
  loaded_expires = 0;
  built = false;
}

abbrev at_mark : World
at_mark = record (cold 10 (200 ∷ [])) { redis = marked; opening = (300, 10) ∷ [] }

abbrev at_read : World
at_read = record at_mark { rebuilds = (200 ∷ [], 10) ∷ [] }

abbrev at_commit : World
at_commit = record at_read { guests = 300 ∷ 200 ∷ [] }

abbrev at_store : World
at_store = record at_commit {
  redis = record {
    guest_uins = 200 ∷ 300 ∷ [];
    pending = 300 ∷ [];
    pending_expires = 130;
    loaded_expires = 310;
    built = true;
  };
}

mark-Step : Step 60 30 (cold 10 (200 ∷ [])) at_mark
unfolding mark_guest
mark-Step = mark (cold 10 (200 ∷ [])) true 300 marked refl

read-Step : Step 60 30 at_mark at_read
read-Step = read_rows at_mark

commit-Step : Step 60 30 at_read at_commit
commit-Step = commit at_read 300 10 (inl refl) (omega arith)

store-Step : Step 60 30 at_commit at_store
unfolding store_rebuilt
store-Step = store_rows at_commit (200 ∷ []) 10 (inl refl) (omega arith)

raced : Steps 60 30 (cold 10 (200 ∷ [])) at_store
raced =
    then_step _ at_commit _
      (then_step _ at_read _ (then_step _ at_mark _ (then_step _ _ _ (stop _) mark-Step) read-Step)
        commit-Step)
      store-Step

is_guest-guest_example : (is_guest true 10 (300 ∷ 200 ∷ []) 300 at_store.redis).1 ≡ true
is_guest-guest_example =
    is_guest-guest 60 30 10 (200 ∷ []) at_store true 300 (omega arith) raced (inl refl)

enforce-refuses_example :
    (enforce none true 10 (300 ∷ 200 ∷ []) 300 at_store.redis).1 ≡ guest_restricted
enforce-refuses_example =
    enforce-refuses 60 30 10 (200 ∷ []) at_store true 300 none (omega arith) raced (inl refl)
      (λ (p, m, g, e). cc e)

-- An unmark that comes late, after its number is another guest's, makes that guest a native.
late_unmark :
    (is_guest true 20 (300 ∷ []) 300 (unmark_guest true true 300 at_store.redis)).1 ≡ false
unfolding is_guest unmark_guest
late_unmark = refl

abbrev paid : Settings
paid = record {
  registration_policy = some "paid";
  closed_island = false;
  federation_refuse_strangers = true;
  guest_admission = "auto";
}
