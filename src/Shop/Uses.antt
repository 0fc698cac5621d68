-- ===== src/Shop/Uses.antt =====
-- What an account costs at the door of an invite or paid island (`register` of app/routers/auth.py).
use Prim.Native.String.{String}
use rcq_server_ref.Base.{
  ℕ, suc, arith, List, Option, Bool, ◌∷◌, true, false, any_mem, map, mem-map, length, sum_by, ◌≡◌,
  ◌∈◌, ◌<◌, ◌≤◌, ◌+◌, if◌then◌else◌, ◌⊎◌, inl, inr, refl, sym, ◌∙◌, ap, subst,
}
use rcq_server_ref.Uin.Taken.{Invite, is_unexpired, allocate_in, allocate_uin}
use rcq_server_ref.Voucher.{Codec, ok}
use rcq_server_ref.Voucher.Verify.{verify_entry}
use rcq_server_ref.Shop.Tables.{Shop}
use rcq_server_ref.Shop.Session.{done, bind_done, or_raise, allocation_exhausted}
use rcq_server_ref.Shop.Collection.{with_users}
use rcq_server_ref.Shop.Door.{
  Door, RegisterIn, Entry, first_entry, is_gated, invite_gates, invite_spent_now, consume, admitted,
  granted, desired, or_else, register,
}
use rcq_server_ref.Shop.Gates.{
  all_uses_left, consume_lt, gates_live, first_entry_done, gated_done, admitted_le, uses_left,
}

module _ (hash : String → String) (now : ℕ) (c : Codec) (key : Option String)
    (strip : String → String) (door : Door) (proven tenure : Bool) (draws : List ℕ)
    (body : RegisterIn) (db db' : Shop) (n : ℕ) where
  -- What a registration has passed: the stage of the voucher, and the gate.
  register_done :
      register hash now c key strip door proven tenure draws body db ≡ done (db', n)
      → (db1 : Shop) × (entry : Entry) × (db2 : Shop) × (o : Option ℕ) × (first_entry hash now c key
            door.island_host
            (strip body.invite)
            db
          ≡ done (db1, entry))
        × (admitted hash now door.registration_policy entry db1 ≡ done (db2, o))
        × (db2.spent ≡ db'.spent)
        × (db2.numbers.invites ≡ db'.numbers.invites)
  unfolding register allocate_uin
  register_done h =
      let ((db1, entry), c0, r0) =
        bind_done (first_entry hash now c key door.island_host (strip body.invite) db) _ h in
      let ((db2, o), c1, r1) =
        bind_done (admitted hash now door.registration_policy entry db1) _ r0 in
      let (uin, c2, r2) =
        bind_done
          (or_raise allocation_exhausted (
            or_else (granted hash now (strip body.invite) o db2.numbers) (
              or_else (desired hash now proven tenure body.desired_uin db2.numbers)
                (allocate_in 100 now db2.numbers draws))))
          _ r1 in
      let e : with_users (record { uin = uin; is_suspended = false } ∷ db2.numbers.users) db2
          ≡ db' =
        cc r2 in
      (
        db1,
        entry,
        db2,
        o,
        c0,
        c1,
        ap (λ (x : Shop). x.spent) e,
        ap (λ (x : Shop). x.numbers.invites) e,
      )

  -- On an invite or paid island `register` makes an account only for one of two: a voucher for
  -- entry that the island's check takes, whose nonce was not spent and now is, or an invite of the
  -- code that has a use left and has not expired, of which one use more is counted.
  pub register_gated :
      is_gated door.registration_policy ≡ true
      → register hash now c key strip door proven tenure draws body db ≡ done (db', n)
      → ((nonce : String) × (verify_entry c key now (strip body.invite) door.island_host ≡ ok nonce)
          × (¬ (nonce ∈ db.spent))
          × (nonce ∈ db'.spent))
        ⊎ ((i : Invite) × (i ∈ db.numbers.invites)
            × (i.code ≡ hash (strip body.invite))
            × (i.used_count < i.max_uses)
            × (is_unexpired now i.expires_at ≡ true)
            × (◌∈◌ {A = Invite}
                (record i { used_count = i.used_count + 1; spent_at = invite_spent_now now i })
                db'.numbers.invites))
  unfolding admitted consume
  register_gated g h =
      let (db1, entry, db2, o, c0, c1, spent, invites) = register_done h in
      elim (first_entry_done hash now c key door.island_host (strip body.invite) db db1 entry c0) [
        | inl (nonce, v, new, e) ↦
            let (le, same) = admitted_le hash now door.registration_policy entry db1 db2 o c1 in
            inl (
              nonce,
              v,
              new,
              subst (λ xs. nonce ∈ xs) (ap (λ (x : Shop). x.spent) e ∙ sym same ∙ spent) (inl refl),
            )
        | inr (e, outside, code) ↦
            let (found, w) =
              gated_done hash now door.registration_policy entry db1 db2 o
                (rw (g, outside) at c1) in
            let (i, m, p) =
              any_mem (invite_gates now (hash entry.code)) db1.numbers.invites found in
            let (named, room, live) = gates_live now (hash entry.code) i p in
            let moved = λ (j : Invite).
              if invite_gates now (hash entry.code) j
              then record j { used_count = j.used_count + 1; spent_at = invite_spent_now now j }
              else j in
            let there : moved i ∈ map moved db1.numbers.invites =
              mem-map moved i db1.numbers.invites m in
            let q : moved i
                ≡ record i { used_count = i.used_count + 1; spent_at = invite_spent_now now i } =
              rw p refl in
            inr (
              i,
              subst (λ (x : Shop). i ∈ x.numbers.invites) (sym e) m,
              named ∙ ap hash code,
              room,
              live,
              subst (λ x. x ∈ db'.numbers.invites) q
                  (subst (λ xs. moved i ∈ xs) (ap (λ (x : Shop). x.numbers.invites) w ∙ invites)
                    there),
            )
      ]

  -- Such an account costs a use of an invite or a nonce.
  pub register_cost :
      is_gated door.registration_policy ≡ true
      → register hash now c key strip door proven tenure draws body db ≡ done (db', n)
      → 1 + all_uses_left db' + length db.spent ≤ all_uses_left db + length db'.spent
  unfolding admitted
  register_cost g h =
      let (db1, entry, db2, o, c0, c1, spent, invites) = register_done h in
      let (le, same) = admitted_le hash now door.registration_policy entry db1 db2 o c1 in
      let left : all_uses_left db2 ≡ all_uses_left db' = ap (λ is. sum_by uses_left is) invites in
      let count : length db1.spent ≡ length db'.spent = ap length (sym same ∙ spent) in
      elim (first_entry_done hash now c key door.island_host (strip body.invite) db db1 entry c0) [
        | inl (nonce, v, new, e) ↦
            let a : suc (length db.spent) ≡ length db1.spent =
              (ap (λ (x : Shop). length x.spent) e) in
            let b : all_uses_left db ≡ all_uses_left db1 = ap all_uses_left e in omega arith
        | inr (e, outside, code) ↦
            let (found, w) =
              gated_done hash now door.registration_policy entry db1 db2 o
                (rw (g, outside) at c1) in
            let less =
              consume_lt now (invite_gates now (hash entry.code)) db1.numbers.invites
                (λ i p. (gates_live now (hash entry.code) i p).1) found in
            let a : length db.spent ≡ length db1.spent = ap (λ (x : Shop). length x.spent) e in
            let b : all_uses_left db ≡ all_uses_left db1 = ap all_uses_left e in
            let d : sum_by uses_left
                  (consume now (invite_gates now (hash entry.code)) db1.numbers.invites)
                ≡ all_uses_left db2 =
              ap all_uses_left w in
            omega arith
      ]
