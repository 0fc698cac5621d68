-- ===== src/Shop/Account.antt =====
-- `migrate` of app/routers/migrate.py, which moves an account onto a number that is drawn.
use rcq_server_ref.Base.{ℕ, List, ◌==◌}
use rcq_server_ref.Uin.Taken.{allocate_uin}
use rcq_server_ref.Shop.Tables.{Shop}
use rcq_server_ref.Shop.Session.{
  Session, ◌>>=◌, ◌>>◌, done, check, or_raise, cooldown, allocation_exhausted,
}
use rcq_server_ref.Shop.Collection.{perform_migration}
use rcq_server_ref.Shop.Redeem.{standing_user}

-- `remaining` is what is left of the cooldown, and `draws` are those of the allocator.
unfoldable pub migrate : ℕ → ℕ → List ℕ → ℕ → Shop → Session (Shop × ℕ)
unfolding standing_user allocate_uin perform_migration
migrate now remaining draws me db = do
  user ← standing_user me db
  check (remaining == 0) cooldown
  new_uin ← or_raise allocation_exhausted (allocate_uin now db.numbers draws)
  moved ← perform_migration user new_uin db
  done (moved, new_uin)
