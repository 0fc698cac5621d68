-- ===== src/Guest/Steps.antt =====
-- What happens to the guest set, one step at a time: requests, the rebuild's two halves, and time.
use rcq_server_ref.Base.{
  ℕ, List, Bool, All, some, [], ◌∷◌, false, ◌≡◌, ◌≢◌, ◌∈◌, ◌≤◌, ◌<◌, ◌+◌, filter, not, ◌==◌,
}
use rcq_server_ref.Guest.Mirror.{Redis, without, mark_guest, unmark_guest, store_rebuilt}

-- The table's guests, what Redis holds, the marks whose commit is to come with their times, and the
-- rebuilds that have read their rows and not stored them, with the time of the read.
pub record World : Type 0 where
  pub now : ℕ
  pub guests : List ℕ
  pub redis : Redis
  pub opening : List (ℕ × ℕ)
  pub rebuilds : List (List ℕ × ℕ)

-- No request will still make a guest of the number.
abbrev pub IsSettled : ℕ → List (ℕ × ℕ) → Type 0
IsSettled uin opening = All (λ (o : ℕ × ℕ). o.0 ≢ uin) opening

-- A request commits within `commit_within` of its mark, and a rebuild stores within `store_within` of
-- its read.
module _ (commit_within store_within : ℕ) where
  pub data Step : World → World → Type 0 where
    wait : (w : World) (later : ℕ) → w.now ≤ later → Step w (record w { now = later })
    mark :
        (w : World) (up : Bool) (uin : ℕ) (r : Redis)
        → mark_guest up w.now uin w.redis ≡ some r
        → Step w (record w { redis = r; opening = (uin, w.now) ∷ w.opening })
    commit :
        (w : World) (uin at : ℕ)
        → (uin, at) ∈ w.opening
        → w.now ≤ at + commit_within
        → Step w (record w { guests = uin ∷ w.guests })
    -- The row is deleted, converted, or was rolled back: it is no guest's, and no mark of it is open.
    settle :
        (w : World) (uin : ℕ)
        → Step w (record w {
          guests = without uin w.guests;
          opening = filter (λ (o : ℕ × ℕ). not (o.0 == uin)) w.opening;
        })
    unmark :
        (w : World) (up up' : Bool) (uin : ℕ)
        → ¬ (uin ∈ w.guests)
        → IsSettled uin w.opening
        → Step w (record w { redis = unmark_guest up up' uin w.redis })
    read_rows : (w : World) → Step w (record w { rebuilds = (w.guests, w.now) ∷ w.rebuilds })
    store_rows :
        (w : World) (rows : List ℕ) (at : ℕ)
        → (rows, at) ∈ w.rebuilds
        → w.now ≤ at + store_within
        → Step w (record w { redis = store_rebuilt w.now rows w.redis })
    -- Redis loses its data while no mark waits for its commit and no rebuild for its store.
    flush :
        (w : World)
        → All (λ (o : ℕ × ℕ). o.1 + commit_within < w.now) w.opening
        → All (λ (b : List ℕ × ℕ). b.1 + store_within < w.now) w.rebuilds
        → Step w (record w {
          redis = record {
            guest_uins = [];
            pending = [];
            pending_expires = 0;
            loaded_expires = 0;
            built = false;
          };
        })

  pub data Steps : World → World → Type 0 where
    stop : (w : World) → Steps w w
    then_step : (u v w : World) → Steps u v → Step v w → Steps u w
