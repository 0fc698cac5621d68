-- ===== src/Shop/Drawn.antt =====
-- What `migrate` of app/routers/migrate.py does to the register.
use rcq_server_ref.Base.{
  ℕ, arith, List, none, some, [], ◌∷◌, suc, zero, false, ◌≡◌, ◌==◌, ◌+◌, inl, inr, sym, ◌∙◌, ap,
  Bool-cases,
}
use rcq_server_ref.Uin.Taken.{
  Numbers, uin_is_taken, uin_min, is_allocatable, allocate_in, allocate_uin,
}
use rcq_server_ref.Uin.Shape.{is_reserved_uin}
use rcq_server_ref.Shop.Tables.{Shop, find_deed}
use rcq_server_ref.Shop.Session.{
  done, bind_done, after_check, or_raise, or_raise_done, allocation_exhausted,
}
use rcq_server_ref.Shop.Collection.{perform_migration}
use rcq_server_ref.Shop.Redeem.{standing_user}
use rcq_server_ref.Shop.Account.{migrate}
use rcq_server_ref.Shop.Register.{Deals, IsSound}
use rcq_server_ref.Shop.View.{owner_of, register}
use rcq_server_ref.Shop.Moving.{perform_migration-Deal}
use rcq_server_ref.Shop.Bought.{one_deal, not_taken, not_offered}

-- What the allocator gives out is neither scarce nor taken.
pub allocate_in_free :
    (tries now : ℕ) (numbers : Numbers) (draws : List ℕ) (n : ℕ)
    → allocate_in tries now numbers draws ≡ some n
    → (is_reserved_uin n ≡ false) × (uin_is_taken now numbers n none false ≡ false)
unfolding allocate_in is_allocatable
allocate_in_free zero now numbers draws n h = absurd (cc h)
allocate_in_free (suc tries) now numbers [] n h = absurd (cc h)
allocate_in_free (suc tries) now numbers (draw ∷ draws) n h =
    elim (Bool-cases (is_allocatable now numbers (draw + uin_min))) [
      | inl free ↦
          let h' : some (draw + uin_min) ≡ some n = rw free at h in
          let e : draw + uin_min ≡ n = cc h' in rw (sym e) (ground arith)
      | inr free ↦ allocate_in_free tries now numbers draws n (rw free at h)
    ]

pub migrate-Deals :
    (now remaining : ℕ) (draws : List ℕ) (me : ℕ) (db db' : Shop) (n : ℕ)
    → IsSound (register db)
    → migrate now remaining draws me db ≡ done (db', n)
    → Deals (register db) (register db')
unfolding migrate allocate_uin
migrate-Deals now remaining draws me db db' n s h =
    let (user, c0, r0) = bind_done (standing_user me db) _ h in
    let (c1, r1) = after_check (remaining == 0) _ _ r0 in
    let (new_uin, c2, r2) =
      bind_done (or_raise allocation_exhausted (allocate_in 100 now db.numbers draws)) _ r1 in
    let (moved, c3, r3) = bind_done (perform_migration user new_uin db) _ r2 in
    let (scarce, free) = allocate_in_free 100 now db.numbers draws new_uin (or_raise_done _ _ c2) in
    let (a, d) = not_taken now db.numbers new_uin none false free in
    let f : owner_of (find_deed new_uin db.numbers.owned) ≡ none = ap owner_of d in
    let e : moved ≡ db' = cc r3 in
    one_deal (
      perform_migration-Deal user new_uin db db' (c3 ∙ ap done e) (inl (f, scarce))
        (not_offered (register db) new_uin s f))
