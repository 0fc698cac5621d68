-- ===== src/Posting/SlowCount.antt =====
-- What the keys of the slow mode (app/routers/messages.py) still let through: the items left on each
-- album counter, at most twenty, and one post for each free pass.
use rcq_server_ref.RateLimit.LocalWindow.{same_text_refl}
use rcq_server_ref.RateLimit.Buckets.{present_counter, Counter}
use rcq_server_ref.Posting.SlowKeys.{incr, expire, delete, is_armed}
use rcq_server_ref.Base.{[], ◌∷◌, List, String, ℕ, length, ◌≡◌, true, ◌≤◌, arith, ◌+◌, ◌-◌, refl}

unfoldable pub items_left : List (String × Counter) → ℕ
items_left [] = 0
items_left ((k, c) ∷ albums) = (20 - c.used) + items_left albums

pub items_left-incr :
    (now : ℕ) (key : String) (albums : List (String × Counter))
    → let (albums', n) = incr now key albums in
      (1 ≤ n)
      × (items_left albums' + 1 ≤ items_left albums + 20)
      × (2 ≤ n → items_left albums' ≤ items_left albums)
      × (2 ≤ n → n ≤ 20 → items_left albums' + 1 ≤ items_left albums)
unfolding incr items_left present_counter
items_left-incr now key [] = (omega arith, omega arith, λ h. omega arith, λ h l. omega arith)
items_left-incr now key ((k, c) ∷ albums) =
    let (a, b, d, e) = items_left-incr now key albums in
    (ground arith, ground arith, λ h. ground (arith, d), λ h l. ground (arith, e))

pub items_left-expire :
    (key : String) (until : ℕ) (albums : List (String × Counter))
    → items_left (expire key until albums) ≡ items_left albums
unfolding expire items_left
items_left-expire key until [] = refl
items_left-expire key until ((k, c) ∷ albums) = ground (arith, items_left-expire key until albums)

items_left-delete :
    (key : String) (albums : List (String × Counter))
    → items_left (delete key albums) ≤ items_left albums
unfolding delete items_left
items_left-delete key [] = omega arith
items_left-delete key ((k, c) ∷ albums) = ground (arith, items_left-delete key albums)

-- Without its counter an album that was just opened leaves nothing behind.
pub items_left_disarmed :
    (now : ℕ) (key : String) (until : ℕ) (albums : List (String × Counter))
    → items_left (delete key (expire key until (incr now key albums).0)) ≤ items_left albums
unfolding delete expire incr items_left
items_left_disarmed now key until [] = ground (arith, same_text_refl key)
items_left_disarmed now key until ((k, c) ∷ albums) =
    ground (arith, items_left-delete key albums, items_left_disarmed now key until albums)

pub length-delete :
    {A : Type 0} (key : String) (entries : List (String × A))
    → length (delete key entries) ≤ length entries
unfolding delete
length-delete key [] = omega arith
length-delete key ((k, a) ∷ entries) = ground (arith, length-delete key entries)

pub length-delete_armed :
    (now : ℕ) (key : String) (passes : List (String × ℕ))
    → is_armed now key passes ≡ true
    → length (delete key passes) + 1 ≤ length passes
unfolding delete is_armed
length-delete_armed now key [] h = absurd (cc h)
length-delete_armed now key ((k, t) ∷ passes) h =
    ground (arith, length-delete key passes, length-delete_armed now key passes)
