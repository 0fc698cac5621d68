-- ===== src/Shop/Door.antt =====
-- `register` of app/routers/auth.py, from the code that the caller brings to the new row: the door of an
-- invite or paid island, and the number. The proof of the key is an argument, as is the tenure of
-- `reserved_tenure.holds_elsewhere`; a key that is a guest's already goes another way.
use Prim.Native.String.{String}
use rcq_server_ref.Base.{
  ℕ, List, Option, Bool, none, some, [], ◌∷◌, true, false, any, map, not, ◌&&◌, ◌||◌, ltb, leb, ◌+◌,
  if◌then◌else◌, same_text,
}
use rcq_server_ref.Uin.Taken.{Numbers, Invite, is_unexpired, uin_is_taken, uin_max, allocate_uin}
use rcq_server_ref.Uin.Shape.{is_reserved_uin}
use rcq_server_ref.Voucher.{
  Codec, Outcome, ok, refused, sales_disabled, bad_voucher, voucher_other_uin, voucher_other_island,
  voucher_expired,
}
use rcq_server_ref.Voucher.Verify.{verify_entry}
use rcq_server_ref.Shop.Tables.{Shop}
use rcq_server_ref.Shop.Session.{
  Session, ◌>>=◌, ◌>>◌, done, raised, check, or_raise, not_verified, invite_required,
  entry_required, invite_invalid, allocation_exhausted,
}
use rcq_server_ref.Shop.Collection.{with_users}
use rcq_server_ref.Shop.Redeem.{spend}

-- The settings that are read.
pub record Door : Type 0 where
  pub registration_policy : String
  pub island_host : String

pub record RegisterIn : Type 0 where
  pub invite : String
  pub desired_uin : Option ℕ

-- What the voucher for entry leaves: `code`, and whether `resident_at` is set.
pub record Entry : Type 0 where
  pub code : String
  pub is_resident : Bool

abbrev pub is_empty : String → Bool
is_empty t = same_text t ""

-- `_invite_gates`
unfoldable pub invite_gates : ℕ → String → Invite → Bool
invite_gates now code i =
    same_text i.code code && (ltb i.used_count i.max_uses && is_unexpired now i.expires_at)

-- `_invite_spent_now`
unfoldable pub invite_spent_now : ℕ → Invite → Option ℕ
invite_spent_now now i = if leb i.max_uses (i.used_count + 1) then some now else i.spent_at

abbrev pub has_uin : Option ℕ → Bool
has_uin none = false
has_uin (some uin) = true

-- `Invite.uin.isnot(None)` beside the gates
abbrev pub vanity_gates : ℕ → String → Invite → Bool
vanity_gates now code i = invite_gates now code i && has_uin i.uin

-- The `UPDATE` that spends a use, of the rows that its gates let through.
unfoldable pub consume : ℕ → (Invite → Bool) → List Invite → List Invite
unfolding invite_spent_now
consume now gates invites =
    map
      (λ (i : Invite).
        if gates i
        then record i { used_count = i.used_count + 1; spent_at = invite_spent_now now i }
        else i)
      invites

-- `select(Invite.uin).where(Invite.code == code_hash)`
unfoldable pub invite_uin : String → List Invite → Option ℕ
invite_uin code [] = none
invite_uin code (i ∷ invites) = if same_text i.code code then i.uin else invite_uin code invites

abbrev pub with_invites : List Invite → Shop → Shop
with_invites invites db = record db { numbers = record db.numbers { invites = invites } }

-- The policies that ask for an invite or a voucher.
abbrev pub is_gated : String → Bool
is_gated policy = same_text policy "invite" || same_text policy "paid"

-- The code as a voucher for entry: the nonce is spent, or the code is kept, or the errors that say
-- that it is a voucher end the registration.
unfoldable pub entered : Outcome String → String → Shop → Session (Shop × Entry)
unfolding spend
entered (ok nonce) code db = do
  spent ← spend nonce db
  done (spent, record { code = ""; is_resident = true })
entered (refused voucher_other_island) code db = raised (not_verified voucher_other_island)
entered (refused voucher_expired) code db = raised (not_verified voucher_expired)
entered (refused sales_disabled) code db = done (db, record { code = code; is_resident = false })
entered (refused bad_voucher) code db = done (db, record { code = code; is_resident = false })
entered (refused voucher_other_uin) code db = done (db, record { code = code; is_resident = false })

unfoldable pub or_else : Option ℕ → Option ℕ → Option ℕ
or_else none o = o
or_else (some uin) o = some uin

module _ (hash : String → String) (now : ℕ) where
  -- The gate of an invite or paid island; the number is the one that the invite reserves.
  unfoldable pub gated : String → Entry → Shop → Session (Shop × Option ℕ)
  unfolding invite_gates consume invite_uin
  gated policy entry db = do
    check (not (is_empty entry.code))
        (if same_text policy "invite" then invite_required else entry_required)
    check (any (invite_gates now (hash entry.code)) db.numbers.invites) invite_invalid
    done (
      with_invites (consume now (invite_gates now (hash entry.code)) db.numbers.invites) db,
      invite_uin (hash entry.code) db.numbers.invites,
    )

  -- The gate of the others: only an invite with a number is spent.
  unfoldable pub ungated : Entry → Shop → Shop × Option ℕ
  unfolding invite_gates consume invite_uin
  ungated entry db =
      if not (is_empty entry.code) && any (vanity_gates now (hash entry.code)) db.numbers.invites
      then (
        with_invites (consume now (vanity_gates now (hash entry.code)) db.numbers.invites) db,
        invite_uin (hash entry.code) db.numbers.invites,
      )
      else (db, none)

  unfoldable pub admitted : String → Entry → Shop → Session (Shop × Option ℕ)
  unfolding gated ungated
  admitted policy entry db =
      if is_gated policy && not entry.is_resident
      then gated policy entry db
      else done (ungated entry db)

  -- The number that the invite reserves, if it is free.
  unfoldable pub granted : String → Option ℕ → Numbers → Option ℕ
  unfolding uin_is_taken
  granted code none numbers = none
  granted code (some uin) numbers =
      if not (uin_is_taken now numbers uin (some (hash code)) false) then some uin else none

  -- The number that is asked for, if it may be had.
  unfoldable pub desired : Bool → Bool → Option ℕ → Numbers → Option ℕ
  unfolding uin_is_taken is_reserved_uin
  desired proven tenure none numbers = none
  desired proven tenure (some uin) numbers =
      if proven
        && (ltb 0 uin && leb uin uin_max)
        && (not (uin_is_taken now numbers uin none false) && (not (is_reserved_uin uin) || tenure))
      then some uin
      else none

  -- The code is tried as a voucher for entry, where there is one.
  unfoldable pub first_entry :
      Codec → Option String → String → String → Shop → Session (Shop × Entry)
  unfolding verify_entry entered
  first_entry c key host code db =
      if is_empty code
      then done (db, record { code = ""; is_resident = false })
      else entered (verify_entry c key now code host) code db

  unfoldable pub register :
      Codec
      → Option String
      → (String → String)
      → Door
      → Bool
      → Bool
      → List ℕ
      → RegisterIn
      → Shop
      → Session (Shop × ℕ)
  unfolding first_entry admitted granted desired or_else allocate_uin
  register c key strip door proven tenure draws body db = do
    (db1, entry) ← first_entry c key door.island_host (strip body.invite) db
    (db2, reserved) ← admitted door.registration_policy entry db1
    uin ← or_raise allocation_exhausted (
        or_else (granted (strip body.invite) reserved db2.numbers) (
          or_else (desired proven tenure body.desired_uin db2.numbers)
            (allocate_uin now db2.numbers draws)))
    done (with_users (record { uin = uin; is_suspended = false } ∷ db2.numbers.users) db2, uin)
