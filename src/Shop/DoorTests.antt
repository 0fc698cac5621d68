-- ===== src/Shop/DoorTests.antt =====
-- Runs of the door, and the theorems at them.
use Prim.Native.String.{String}
use rcq_server_ref.Base.{
  ℕ, Option, none, some, [], ◌∷◌, true, false, ◌≡◌, ◌∈◌, ◌≤◌, ◌<◌, ◌+◌, ◌⊎◌, refl,
}
use rcq_server_ref.Uin.Taken.{Invite, is_unexpired}
use rcq_server_ref.Voucher.{ok}
use rcq_server_ref.Voucher.Verify.{verify_entry}
use rcq_server_ref.Voucher.Tests.{codec}
use rcq_server_ref.Shop.Tables.{Shop}
use rcq_server_ref.Shop.Session.{done, raised, invite_required, invite_invalid}
use rcq_server_ref.Shop.Door.{Door, RegisterIn, invite_spent_now, register}
use rcq_server_ref.Shop.Uses.{register_gated}
use rcq_server_ref.Shop.Asked.{Ask, register_all, register_all_bound}

abbrev same : String → String
same s = s

abbrev door : Door
door = record { registration_policy = "invite"; island_host = "island" }

abbrev invite : ℕ → Option ℕ → Invite
invite used spent_at = record {
  code = "welcome";
  max_uses = 1;
  used_count = used;
  uin = none;
  expires_at = some 900;
  spent_at = spent_at;
}

abbrev shop_with : Invite → Shop
shop_with i = record {
  numbers = record { users = []; owned = []; holds = []; invites = i ∷ [] };
  listings = [];
  spent = [];
}

abbrev after : Shop
after = record {
  numbers = record {
    users = record { uin = 48290173; is_suspended = false } ∷ [];
    owned = [];
    holds = [];
    invites = invite 1 (some 500) ∷ [];
  };
  listings = [];
  spent = [];
}

abbrev with_code : String → RegisterIn
with_code code = record { invite = code; desired_uin = none }

let_in :
    register same 500 codec
      (some "till")
      same
      door
      false
      false
      (48190173 ∷ [])
      (with_code "welcome")
      (shop_with (invite 0 none))
    ≡ done (after, 48290173)
unfolding register
let_in = refl

sent_away :
    register same 600 codec
      (some "till")
      same
      door
      false
      false
      (48190174 ∷ [])
      (with_code "welcome")
      after
    ≡ raised invite_invalid
unfolding register
sent_away = refl

without_code :
    register same 600 codec (some "till") same door false false (48190174 ∷ []) (with_code "") after
    ≡ raised invite_required
unfolding register
without_code = refl

-- The number that is asked for is had by who has proven the key.
desired_number :
    register same 600 codec
      (some "till")
      same
      (record door { registration_policy = "open" })
      true
      false
      []
      (record { invite = ""; desired_uin = some 7318462 })
      (shop_with (invite 0 none))
    ≡ done (
      record (shop_with (invite 0 none)) {
        numbers = record (shop_with (invite 0 none)).numbers {
          users = record { uin = 7318462; is_suspended = false } ∷ [];
        };
      },
      7318462,
    )
unfolding register
desired_number = refl

abbrev ask : ℕ → Ask
ask now = record {
  now = now;
  proven = false;
  tenure = false;
  draws = 48190173 ∷ [];
  body = with_code "welcome";
}

register_gated_example :
    ((nonce : String) × (verify_entry codec (some "till") 500 "welcome" "island" ≡ ok nonce)
      × (¬ (nonce ∈ (shop_with (invite 0 none)).spent))
      × (nonce ∈ after.spent))
    ⊎ ((i : Invite) × (i ∈ (shop_with (invite 0 none)).numbers.invites)
        × (i.code ≡ "welcome")
        × (i.used_count < i.max_uses)
        × (is_unexpired 500 i.expires_at ≡ true)
        × (◌∈◌ {A = Invite}
            (record i { used_count = i.used_count + 1; spent_at = invite_spent_now 500 i })
            after.numbers.invites))
register_gated_example =
    register_gated same 500 codec (some "till") same door false false (48190173 ∷ [])
      (with_code "welcome") (shop_with (invite 0 none)) after 48290173 refl let_in

-- Two ask, and one is let in.
register_all_bound_example : 1 + 0 + 0 ≤ 1 + 0
unfolding register_all
register_all_bound_example =
    register_all_bound same codec (some "till") same door (ask 500 ∷ ask 600 ∷ [])
      (shop_with (invite 0 none)) refl
