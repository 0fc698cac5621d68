-- ===== src/Uin/SpokenFor.antt =====
-- Which rows make a number taken (`uin_is_taken` and `invite_is_live` of app/services/uin.py).
use rcq_server_ref.Uin.Taken.{
  Numbers, User, OwnedUin, UinHold, Invite, uin_is_taken, invite_is_live, is_unexpired, is_uin,
  is_other_invite, is_reserving, is_live_hold,
}
use rcq_server_ref.Base.{
  ℕ, arith, Option, String, Bool, none, some, true, false, ◌≡◌, ◌≢◌, ◌≤◌, ◌<◌, ◌∈◌, ◌↔◌, ◌==◌, ◌&&◌,
  ◌||◌, not, any, any_mem, mem_any, filter, filter-mem, mem-filter, leb, inl, inr, refl, sym,
  Bool-cases, same_text, same_text_iff, ap, ◌∙◌,
}

-- An invite that has a use left and, where it expires at all, has not expired.
pub record IsLive (now : ℕ) (i : Invite) : Type 0 where
  pub room : i.used_count < i.max_uses
  pub in_time : (t : ℕ) → i.expires_at ≡ some t → now < t

module _ (now : ℕ) (db : Numbers) (uin : ℕ) (except_invite : Option String)
    (ignore_holds : Bool) where
  -- What makes a number spoken for.
  pub data IsSpokenFor : Type 0 where
    by_user : (u : User) → u ∈ db.users → u.uin ≡ uin → IsSpokenFor
    by_owner : (o : OwnedUin) → o ∈ db.owned → o.uin ≡ uin → IsSpokenFor
    by_hold :
        (h : UinHold)
        → h ∈ db.holds
        → h.uin ≡ uin
        → now < h.expires_at
        → ignore_holds ≡ false
        → IsSpokenFor
    by_invite :
        (i : Invite)
        → i ∈ db.invites
        → i.uin ≡ some uin
        → IsLive now i
        → ((code : String) → except_invite ≡ some code → code ≢ "" → i.code ≢ code)
        → IsSpokenFor

in_time_of_unexpired :
    (now : ℕ) (o : Option ℕ) → is_unexpired now o ≡ true → (t : ℕ) → o ≡ some t → now < t
in_time_of_unexpired now none h t e = absurd (cc e)
in_time_of_unexpired now (some u) h t e = let q : u ≡ t = cc e in ground arith

unexpired_of_in_time :
    (now : ℕ) (o : Option ℕ) → ((t : ℕ) → o ≡ some t → now < t) → is_unexpired now o ≡ true
unexpired_of_in_time now none h = refl
unexpired_of_in_time now (some u) h = ground (arith, h u refl)

other_of_is_other :
    (o : Option String) (i : Invite)
    → is_other_invite o i ≡ true
    → (code : String) → o ≡ some code
    → code ≢ ""
    → i.code ≢ code
other_of_is_other none i h code e ne = absurd (cc e)
other_of_is_other (some c) i h code e ne = λ q.
    let p : c ≡ code = cc e in
    elim (Bool-cases (same_text c "")) [
      | inl z ↦ ne (sym p ∙ (same_text_iff c "").0 z)
      | inr z ↦ elim (Bool-cases (same_text i.code c)) [
        | inl y ↦ cc (rw (z, y) at h)
        | inr y ↦ (let y' = (same_text_iff i.code c).1 (q ∙ sym p) in cc (y, y'))
      ]
    ]

is_other_of_other :
    (o : Option String) (i : Invite)
    → ((code : String) → o ≡ some code → code ≢ "" → i.code ≢ code)
    → is_other_invite o i ≡ true
is_other_of_other none i h = refl
is_other_of_other (some c) i h = elim (Bool-cases (same_text c "")) [
  | inl e ↦ rw e refl
  | inr e ↦ elim (Bool-cases (same_text i.code c)) [
    | inl q ↦ absurd (
        h c refl (λ z. let y = (same_text_iff c "").1 z in cc (e, y))
          ((same_text_iff i.code c).0 q))
    | inr q ↦ rw (e, q) refl
  ]
]

uin_of_is_uin : (uin : ℕ) (o : Option ℕ) → is_uin uin o ≡ true → o ≡ some uin
uin_of_is_uin uin none h = absurd (cc h)
uin_of_is_uin uin (some u) h = ap some (ground arith)

is_uin_of_uin : (uin : ℕ) (o : Option ℕ) → o ≡ some uin → is_uin uin o ≡ true
is_uin_of_uin uin none h = absurd (cc h)
is_uin_of_uin uin (some u) h = let q : u ≡ uin = cc h in ground arith

module _ (now : ℕ) (db : Numbers) (uin : ℕ) (except_invite : Option String)
    (ignore_holds : Bool) where
  reserves :
      (i : Invite)
      → i ∈ db.invites
      → is_reserving now uin except_invite i ≡ true
      → IsSpokenFor now db uin except_invite ignore_holds
  unfolding is_reserving invite_is_live
  reserves i m h =
      by_invite i m (uin_of_is_uin uin i.uin (ground arith))
        (record {
          room = ground arith;
          in_time = in_time_of_unexpired now i.expires_at (ground arith);
        })
        (other_of_is_other except_invite i (ground arith))

  reserving :
      (i : Invite)
      → i.uin ≡ some uin
      → IsLive now i
      → ((code : String) → except_invite ≡ some code → code ≢ "" → i.code ≢ code)
      → is_reserving now uin except_invite i ≡ true
  unfolding is_reserving invite_is_live
  reserving i u l o =
      let r = l.room in
      ground (
        arith,
        is_uin_of_uin uin i.uin u,
        unexpired_of_in_time now i.expires_at l.in_time,
        is_other_of_other except_invite i o,
      )

  pub spoken_for_of_taken :
      uin_is_taken now db uin except_invite ignore_holds ≡ true
      → IsSpokenFor now db uin except_invite ignore_holds
  unfolding uin_is_taken is_live_hold
  spoken_for_of_taken h = elim (Bool-cases (any (λ (u : User). u.uin == uin) db.users)) [
    | inl e ↦ let (u, i, q) = any_mem _ db.users e in by_user u i (ground arith)
    | inr e1 ↦ elim (Bool-cases (any (λ (o : OwnedUin). o.uin == uin) db.owned)) [
      | inl e ↦ let (o, i, q) = any_mem _ db.owned e in by_owner o i (ground arith)
      | inr e2 ↦ elim (Bool-cases (not ignore_holds && any (is_live_hold now uin) db.holds)) [
        | inl e ↦
            let (x, i, q) = any_mem (is_live_hold now uin) db.holds (ground arith) in
            by_hold x i (ground arith) (ground arith) (ground arith)
        | inr e3 ↦
            let (x, i, q) =
              any_mem (is_reserving now uin except_invite) db.invites (ground arith) in
            reserves x i q
      ]
    ]
  ]

  pub taken_of_spoken_for :
      IsSpokenFor now db uin except_invite ignore_holds
      → uin_is_taken now db uin except_invite ignore_holds ≡ true
  unfolding uin_is_taken is_live_hold
  taken_of_spoken_for (by_user u i q) =
      ground (arith, mem_any (λ (u : User). u.uin == uin) u db.users i)
  taken_of_spoken_for (by_owner o i q) =
      ground (arith, mem_any (λ (o : OwnedUin). o.uin == uin) o db.owned i)
  taken_of_spoken_for (by_hold x i q t g) =
      ground (arith, mem_any (is_live_hold now uin) x db.holds i)
  taken_of_spoken_for (by_invite x i u l o) =
      ground
        (arith, mem_any (is_reserving now uin except_invite) x db.invites i (reserving x u l o))

-- The tables without the rows that are dead at `now`: the holds that have expired, and the invites that
-- are used up or have expired.
abbrev pub has_passed : ℕ → Option ℕ → Bool
has_passed now none = false
has_passed now (some t) = leb t now

abbrev pub cleared : ℕ → Numbers → Numbers
cleared now db = record db {
  holds = filter (λ (h : UinHold). not (leb h.expires_at now)) db.holds;
  invites =
      filter (λ (i : Invite). not (leb i.max_uses i.used_count || has_passed now i.expires_at))
        db.invites;
}

not_passed :
    (now later : ℕ) (o : Option ℕ)
    → now ≤ later
    → ((t : ℕ) → o ≡ some t → later < t)
    → has_passed now o ≡ false
not_passed now later none l h = refl
not_passed now later (some u) l h = ground (arith, h u refl)

module _ (now later : ℕ) (db : Numbers) (uin : ℕ) (except_invite : Option String)
    (ignore_holds : Bool) where
  spoken_for_of_cleared :
      IsSpokenFor later (cleared now db) uin except_invite ignore_holds
      → IsSpokenFor later db uin except_invite ignore_holds
  spoken_for_of_cleared (by_user u i q) = by_user u i q
  spoken_for_of_cleared (by_owner o i q) = by_owner o i q
  spoken_for_of_cleared (by_hold h i q t g) = by_hold h (filter-mem _ h db.holds i).0 q t g
  spoken_for_of_cleared (by_invite x i u l o) = by_invite x (filter-mem _ x db.invites i).0 u l o

  cleared_of_spoken_for :
      now ≤ later
      → IsSpokenFor later db uin except_invite ignore_holds
      → IsSpokenFor later (cleared now db) uin except_invite ignore_holds
  cleared_of_spoken_for w (by_user u i q) = by_user u i q
  cleared_of_spoken_for w (by_owner o i q) = by_owner o i q
  cleared_of_spoken_for w (by_hold h i q t g) =
      by_hold h (mem-filter _ h db.holds (ground arith) i) q t g
  cleared_of_spoken_for w (by_invite x i u l o) =
      let r = l.room in
      by_invite x
        (mem-filter _ x db.invites (ground (arith, not_passed now later x.expires_at w l.in_time))
          i)
        u l o

  same_taken :
      now ≤ later
      → uin_is_taken later (cleared now db) uin except_invite ignore_holds
        ≡ uin_is_taken later db uin except_invite ignore_holds
  same_taken w =
      same_truth _ _
        (λ h. taken_of_spoken_for later db uin except_invite ignore_holds (
          spoken_for_of_cleared
            (spoken_for_of_taken later (cleared now db) uin except_invite ignore_holds h)))
        (λ h.
          taken_of_spoken_for later (cleared now db) uin except_invite ignore_holds (
            cleared_of_spoken_for w
              (spoken_for_of_taken later db uin except_invite ignore_holds h)))
    where
      same_truth : (a b : Bool) → (a ≡ true → b ≡ true) → (b ≡ true → a ≡ true) → a ≡ b
      same_truth true b f g = sym (f refl)
      same_truth false true f g = g refl
      same_truth false false f g = refl

  -- A number is taken at `later` exactly when a row stands for it: an account, a number of a
  -- collection, a hold that has not expired (where holds count), or an invite that names it, has a
  -- use left, has not expired and is not the one being redeemed. And dead rows hold nothing down:
  -- where the holds that had expired by `now`, a moment not after `later`, and the invites that had
  -- expired by then or are used up are left out of the tables, the answer is the same.
  pub uin_is_taken-IsSpokenFor :
      now ≤ later
      → ((uin_is_taken later db uin except_invite ignore_holds ≡ true)
          ↔ IsSpokenFor later db uin except_invite ignore_holds)
        × (uin_is_taken later (cleared now db) uin except_invite ignore_holds
            ≡ uin_is_taken later db uin except_invite ignore_holds)
  uin_is_taken-IsSpokenFor w = (
    (
      spoken_for_of_taken later db uin except_invite ignore_holds,
      taken_of_spoken_for later db uin except_invite ignore_holds,
    ),
    same_taken w,
  )
