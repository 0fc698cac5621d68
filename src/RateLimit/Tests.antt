-- ===== src/RateLimit/Tests.antt =====
-- Runs of the limiters, and the theorems at them.
use rcq_server_ref.RateLimit.Retry.{retry_honoured}
use rcq_server_ref.RateLimit.Cost.{Charge}
use rcq_server_ref.RateLimit.LocalWindow.{serve_local, recent, Call, local_window}
use rcq_server_ref.RateLimit.Window.{serve, sliding_window}
use rcq_server_ref.RateLimit.Buckets.{
  accepted, refused, limiter_script, tick, no_bucket, no_counter,
}
use rcq_server_ref.RateLimit.Limits.{
  pass, too_many, unavailable, enforce_rate_limit, enforce_cost_budget, allow_ws_connect, Request,
  identity_of, rate_limit, island_ceiling, reset_buckets, Limiter,
}
use rcq_server_ref.Base.{
  ℕ, arith, true, false, List, Bool, String, distinct, ◌*◌, filter, ◌∷◌, ◌≡◌, ◌≤◌, [], ltb, refl,
  none, ◌+◌,
}

abbrev second : ℕ → ℕ
second n = n * tick

-- Two calls in ten seconds: the third is refused, and the fourth comes when the first has left.
abbrev calls : List ℕ
calls = second 111 ∷ second 104 ∷ second 102 ∷ second 100 ∷ []

served : (serve 10 2 calls).1 ≡ second 111 ∷ second 102 ∷ second 100 ∷ []
unfolding serve
served = refl

told :
    (limiter_script (second 104) 10 2 (serve 10 2 (second 102 ∷ second 100 ∷ [])).0).1 ≡ refused 7
unfolding limiter_script serve
told = refl

-- Two calls at one and the same time count once.
same_time : (serve 10 1 (100 ∷ 100 ∷ [])).1 ≡ 100 ∷ []
unfolding serve
same_time = refl

same_time_two : (serve 10 2 (100 ∷ 100 ∷ 100 ∷ [])).1 ≡ 100 ∷ 100 ∷ 100 ∷ []
unfolding serve
same_time_two = refl

abbrev limiter : Bool → Limiter
limiter up = record {
  buckets = λ key. no_bucket;
  counters = λ key. no_counter;
  redis_up = up;
  local = [];
}

abbrev plain : String → String
plain identity = identity

-- Without Redis a soft limit lets everything through, and a closed one counts in the process.
soft : (enforce_rate_limit plain (second 9) "uin:7" "guest" 0 60 false (limiter false)).1 ≡ pass
unfolding enforce_rate_limit
soft = refl

closed :
    (enforce_rate_limit plain
      (second 9)
      "uin:7"
      "guest"
      1
      60
      true
      (enforce_rate_limit plain (second 8) "uin:7" "guest" 1 60 true (limiter false)).0).1
    ≡ too_many "rate_limited" 59
unfolding enforce_rate_limit
closed = refl

budget :
    (enforce_cost_budget plain
      (second 9)
      "uin:7"
      "fanout"
      5
      10
      60
      (enforce_cost_budget plain (second 8) "uin:7" "fanout" 6 10 60 (limiter true)).0).1
    ≡ too_many "fanout_budget_exhausted" 59
unfolding enforce_cost_budget
budget = refl

dial : (allow_ws_connect plain (second 9) 0 "uin:7" (limiter true)).1 ≡ false
unfolding allow_ws_connect
dial = refl

abbrev stranger : Request
stranger = record { forwarded_for = "203.0.113.9" ∷ []; peer = none; token_uin = none }

subnet_identity : identity_of (λ ip. "203.0.113.0/24") true stranger ≡ "net:203.0.113.0/24"
unfolding identity_of
subnet_identity = refl

by_address :
    (rate_limit plain plain (second 9) "register" 0 60 false false stranger (limiter true)).1
    ≡ too_many "rate_limited" 1
unfolding rate_limit
by_address = refl

full_hour :
    (island_ceiling (second 9) "register" 40 0 (limiter true)).1 ≡ unavailable "island_busy" 1
unfolding island_ceiling
full_hour = refl

emptied : (reset_buckets (limiter true)).redis_up ≡ true
unfolding reset_buckets
emptied = refl

sliding_window_example :
    distinct (filter (λ t. ltb (second 111) (t + 10 * tick)) (serve 10 2 calls).1) ≤ 2
sliding_window_example =
    sliding_window 10 2 (second 111) calls
      (omega arith, (omega arith, (omega arith, (omega arith, tt))))
      (
        (omega arith, (omega arith, (omega arith, tt))),
        ((omega arith, (omega arith, tt)), ((omega arith, tt), (tt, tt))),
      )

retry_honoured_example :
    (limiter_script
      (second 111)
      10
      2
      (limiter_script (second 104) 10 2 (serve 10 2 (second 102 ∷ second 100 ∷ [])).0).0).1
    ≡ accepted
unfolding serve
retry_honoured_example =
    retry_honoured (second 104) 10 2 7 (second 111) (serve 10 2 (second 102 ∷ second 100 ∷ [])).0
      (omega arith) (omega arith) refl (omega arith)

abbrev local_calls : List Call
local_calls =
    record { at = second 104; key = "a" }
    ∷ record { at = second 103; key = "b" }
    ∷ record { at = second 102; key = "a" }
    ∷ record { at = second 100; key = "a" }
    ∷ []

local_served : (serve_local (λ key. 10) (λ key. 2) "a" local_calls).1 ≡ second 102 ∷ second 100 ∷ []
unfolding serve_local
local_served = refl

local_window_example :
    recent 10 (second 104) (serve_local (λ key. 10) (λ key. 2) "a" local_calls).1 ≤ 2
local_window_example =
    local_window (λ key. 10) (λ key. 2) "a" (second 104) local_calls (omega arith)
      (omega arith, (omega arith, (omega arith, (omega arith, tt))))
      (
        (omega arith, (omega arith, (omega arith, tt))),
        ((omega arith, (omega arith, tt)), ((omega arith, tt), (tt, tt))),
      )

abbrev charges : List Charge
charges =
    record { at = second 9; cost = 3 }
    ∷ record { at = second 8; cost = 5 }
    ∷ record { at = second 7; cost = 6 }
    ∷ []
