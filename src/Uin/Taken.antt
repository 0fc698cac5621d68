-- ===== src/Uin/Taken.antt =====
-- `invite_is_live`, `uin_is_taken` and `allocate_uin` of app/services/uin.py, and the tables they
-- read (app/models). A random draw is the next member of a list.
use rcq_server_ref.Uin.Shape.{is_reserved_uin}
use rcq_server_ref.Base.{
  ℕ, String, List, Option, Bool, true, ltb, false, none, ◌&&◌, ◌==◌, if◌then◌else◌, any, some, suc,
  same_text, not, ◌∷◌, ◌+◌, zero, [],
}

-- A row of `users`, `owned_uins`, `uin_holds` and `invites`, with the columns read here; times in
-- seconds.
pub record User : Type 0 where
  pub uin : ℕ
  pub is_suspended : Bool

pub record OwnedUin : Type 0 where
  pub uin : ℕ
  pub owner_uin : ℕ
  pub source : String

pub record UinHold : Type 0 where
  pub uin : ℕ
  pub hold_id : String
  pub expires_at : ℕ

pub record Invite : Type 0 where
  pub code : String
  pub max_uses : ℕ
  pub used_count : ℕ
  pub uin : Option ℕ
  pub expires_at : Option ℕ
  pub spent_at : Option ℕ

pub record Numbers : Type 0 where
  pub users : List User
  pub owned : List OwnedUin
  pub holds : List UinHold
  pub invites : List Invite

abbrev pub is_unexpired : ℕ → Option ℕ → Bool
is_unexpired now none = true
is_unexpired now (some t) = ltb now t

unfoldable pub invite_is_live : ℕ → Invite → Bool
invite_is_live now i = ltb i.used_count i.max_uses && is_unexpired now i.expires_at

abbrev pub is_uin : ℕ → Option ℕ → Bool
is_uin uin none = false
is_uin uin (some u) = u == uin

-- `Invite.code != except_invite`, where one is given and not empty.
abbrev pub is_other_invite : Option String → Invite → Bool
is_other_invite none i = true
is_other_invite (some code) i = if same_text code "" then true else not (same_text i.code code)

-- `reserving`
unfoldable pub is_reserving : ℕ → ℕ → Option String → Invite → Bool
unfolding invite_is_live
is_reserving now uin except_invite i =
    is_uin uin i.uin && (invite_is_live now i && is_other_invite except_invite i)

-- `live_hold`
unfoldable pub is_live_hold : ℕ → ℕ → UinHold → Bool
is_live_hold now uin h = h.uin == uin && ltb now h.expires_at

unfoldable pub uin_is_taken : ℕ → Numbers → ℕ → Option String → Bool → Bool
unfolding is_live_hold is_reserving
uin_is_taken now db uin except_invite ignore_holds =
    if any (λ (u : User). u.uin == uin) db.users
    then true
    else if any (λ (o : OwnedUin). o.uin == uin) db.owned
    then true
    else if not ignore_holds && any (is_live_hold now uin) db.holds
    then true
    else any (is_reserving now uin except_invite) db.invites

abbrev pub uin_min : ℕ
uin_min = 100000

abbrev pub uin_max : ℕ
uin_max = 999999999

-- Neither scarce nor spoken for.
unfoldable pub is_allocatable : ℕ → Numbers → ℕ → Bool
unfolding is_reserved_uin uin_is_taken
is_allocatable now db candidate =
    if is_reserved_uin candidate
    then false
    else if uin_is_taken now db candidate none false
    then false
    else true

-- The loop, with the iterations left and the values that `secrets.randbelow` gives from there on.
-- `none` is the error.
unfoldable pub allocate_in : ℕ → ℕ → Numbers → List ℕ → Option ℕ
unfolding is_allocatable
allocate_in zero now db draws = none
allocate_in (suc tries) now db [] = none
allocate_in (suc tries) now db (draw ∷ draws) =
    let rest = allocate_in tries now db draws in
    if is_allocatable now db (draw + uin_min) then some (draw + uin_min) else rest

unfoldable pub allocate_uin : ℕ → Numbers → List ℕ → Option ℕ
unfolding allocate_in
allocate_uin now db draws = allocate_in 100 now db draws
