-- ===== src/Shop/Overtaken.antt =====
-- What comes of `create_listing` and `activate` (app/routers/uin_shop.py) of one number that overlap.
use rcq_server_ref.Base.{refl}
use rcq_server_ref.Shop.View.{register}
use rcq_server_ref.Shop.Later.{
  activate_done, offered_by, create_listing_later, not_idle, offered_by-offered,
  create_listing-create_listing_on, activate_later, moved_offered,
}
use rcq_server_ref.Shop.Register.{IsSound}
use rcq_server_ref.Shop.Overlap.{
  create_listing_on, activate_on, read_for_listing, read_for_activate,
}
use rcq_server_ref.Shop.Requests.{state_of}
use rcq_server_ref.Shop.Collection.{PurchaseOut}
use rcq_server_ref.Shop.Tables.{Shop, UinListing}
use rcq_server_ref.Shop.Market.{ListingIn, create_listing, activate}
use rcq_server_ref.Base.{String, ℕ, Bool, ◌≡◌, sym, ◌∙◌, ap}
use rcq_server_ref.Shop.Session.{done}

-- The activation commits between what the listing reads and what it writes.
overtaken_listing :
    (strip : String → String) (now : ℕ) (shop resale : Bool) (me : ℕ) (fresh : String)
    (body : ListingIn) (db listed moved : Shop) (row : UinListing) (out : PurchaseOut)
    → create_listing strip now shop resale me fresh body db ≡ done (listed, row)
    → activate me body.uin db ≡ done (moved, out)
    → (last : Shop) × (state_of
          (create_listing_on strip shop resale me fresh body (read_for_listing body.uin db) moved)
        ≡ done last)
      × ¬ IsSound (register last)
overtaken_listing strip now shop resale me fresh body db listed moved row out h a =
    let (free, none_yet, answered) = activate_done me body.uin db moved out a in
    (
      offered_by strip me fresh body moved,
      create_listing_later strip now shop resale me fresh body db listed moved row h none_yet,
      not_idle (register (offered_by strip me fresh body moved)) body.uin _
          (offered_by-offered strip me fresh body moved) answered,
    )

-- The listing commits between what the activation reads and what it writes.
overtaken_activation :
    (strip : String → String) (now : ℕ) (shop resale : Bool) (me : ℕ) (fresh : String)
    (body : ListingIn) (db listed moved : Shop) (row : UinListing) (out : PurchaseOut)
    → create_listing strip now shop resale me fresh body db ≡ done (listed, row)
    → activate me body.uin db ≡ done (moved, out)
    → (last : Shop) × (state_of (activate_on me body.uin (read_for_activate me body.uin db) listed)
        ≡ done last)
      × ¬ IsSound (register last)
overtaken_activation strip now shop resale me fresh body db listed moved row out h a =
    let (free, none_yet, answered) = activate_done me body.uin db moved out a in
    let same : offered_by strip me fresh body db ≡ listed =
      (let e : done (offered_by strip me fresh body db) ≡ done listed =
          sym (
            create_listing_later strip now shop resale me fresh body db listed db row h
              (rw free refl))
          ∙ ap state_of (
              sym (create_listing-create_listing_on strip now shop resale me fresh body db free)
              ∙ h) in
        cc e) in
    let (user, last, e, p) =
      activate_later me body.uin db moved (offered_by strip me fresh body db).listings out a in
    (
      last,
      ap (λ x. state_of (activate_on me body.uin (read_for_activate me body.uin db) x)) (sym same)
          ∙ e,
      moved_offered user body.uin (offered_by strip me fresh body db) last _ p
          (offered_by-offered strip me fresh body db),
    )

-- The listing of a number by the account that holds it and that account's moving onto the number, each
-- of which goes through alone: where one commits between what the other reads and what it writes, both go
-- through, whichever comes first, and the register is not sound afterwards.
pub overtaken :
    (strip : String → String) (now : ℕ) (shop resale : Bool) (me : ℕ) (fresh : String)
    (body : ListingIn) (db listed moved : Shop) (row : UinListing) (out : PurchaseOut)
    → create_listing strip now shop resale me fresh body db ≡ done (listed, row)
    → activate me body.uin db ≡ done (moved, out)
    → ((last : Shop) × (state_of
            (create_listing_on strip shop resale me fresh body (read_for_listing body.uin db) moved)
          ≡ done last)
        × ¬ IsSound (register last))
      × ((last : Shop) × (state_of
              (activate_on me body.uin (read_for_activate me body.uin db) listed)
            ≡ done last)
          × ¬ IsSound (register last))
overtaken strip now shop resale me fresh body db listed moved row out h a = (
  overtaken_listing strip now shop resale me fresh body db listed moved row out h a,
  overtaken_activation strip now shop resale me fresh body db listed moved row out h a,
)
