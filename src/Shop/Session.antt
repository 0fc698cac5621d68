-- ===== src/Shop/Session.antt =====
-- A handler of app/routers/uin_shop.py runs in one session, which is rolled back where it raises.
use rcq_server_ref.Base.{Option, Bool, none, some, true, false, ◌≡◌, refl}
use rcq_server_ref.Voucher.{Outcome, ok, refused, Code}

-- The details of the errors. The last two are no HTTPException.
pub data Detail : Type 0 where
  shop_disabled : Detail
  resale_not_open : Detail
  invalid_length : Detail
  self_target : Detail
  user_not_found : Detail
  suspended : Detail
  not_verified : Code → Detail
  taken : Detail
  reserved : Detail
  voucher_spent : Detail
  own_listing : Detail
  too_many_uins : Detail
  collection_full : Detail
  offer_changed : Detail
  price_changed : Detail
  seller_gone : Detail
  listed : Detail
  uin_in_use : Detail
  in_use : Detail
  not_owned : Detail
  no_payout : Detail
  not_for_sale : Detail
  not_listed : Detail
  being_paid : Detail
  cooldown : Detail
  invite_required : Detail
  entry_required : Detail
  invite_invalid : Detail
  allocation_exhausted : Detail
  integrity_error : Detail

pub data Session (A : Type 0) : Type 0 where
  done : A → Session A
  raised : Detail → Session A

infixl 5 ◌>>=◌ ◌>>◌
abbrev pub ◌>>=◌ : {A B : Type 0} → Session A → (A → Session B) → Session B
done a >>= f = f a
raised e >>= f = raised e

abbrev pub ◌>>◌ : {B : Type 0} → Session (Unit {0}) → Session B → Session B
m >> k = m >>= λ _. k

abbrev pub check : Bool → Detail → Session (Unit {0})
check true e = done tt
check false e = raised e

abbrev pub or_raise : {A : Type 0} → Detail → Option A → Session A
or_raise e none = raised e
or_raise e (some a) = done a

abbrev pub verified : {A : Type 0} → Outcome A → Session A
verified (ok a) = done a
verified (refused code) = raised (not_verified code)

-- What went before, where a chain has come to its end.
pub bind_done :
    {A B : Type 0} (m : Session A) (f : A → Session B) {b : B}
    → (m >>= f) ≡ done b
    → (a : A) × (m ≡ done a) × (f a ≡ done b)
bind_done (done a) f h = (a, refl, h)
bind_done (raised e) f h = absurd (cc h)

pub check_done : (b : Bool) (e : Detail) {u : Unit {0}} → check b e ≡ done u → b ≡ true
check_done true e h = refl
check_done false e h = absurd (cc h)

-- A chain behind a check comes to an end only where the check passes.
pub after_check :
    {B : Type 0} (b : Bool) (e : Detail) (k : Session B) {r : B}
    → (check b e >> k) ≡ done r
    → (b ≡ true) × (k ≡ done r)
after_check true e k h = (refl, h)
after_check false e k h = absurd (cc h)

pub or_raise_done :
    {A : Type 0} (e : Detail) (o : Option A) {a : A} → or_raise e o ≡ done a → o ≡ some a
or_raise_done e none h = absurd (cc h)
or_raise_done e (some a) h = cc

pub verified_done : {A : Type 0} (o : Outcome A) {a : A} → verified o ≡ done a → o ≡ ok a
verified_done (ok a) h = cc
verified_done (refused code) h = absurd (cc h)
