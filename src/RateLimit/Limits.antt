-- ===== src/RateLimit/Limits.antt =====
-- The calls of app/core/rate_limit.py that routes make: `enforce_rate_limit`, `rate_limit`,
-- `enforce_cost_budget`, `island_ceiling` and `allow_ws_connect`. The HMAC of `bucket_name`, the
-- token check and the subnet of an address are parameters.
use rcq_server_ref.RateLimit.Buckets.{
  limiter_script, cost_script, Bucket, Verdict, Counter, refused, no_bucket, no_counter,
}
use rcq_server_ref.RateLimit.Local.{LocalVerdict, local_allow, denied, LocalHits}
use rcq_server_ref.RateLimit.Buckets.{Verdict, accepted, refused}
use rcq_server_ref.RateLimit.Local.{LocalVerdict, allowed, denied, index_error}
use rcq_server_ref.Base.{
  ℕ, String, Bool, if◌then◌else◌, same_text, true, ◌==◌, false, joined, ◌∷◌, [], List, Option, some,
  none,
}

-- Redis by key, whether it answers, and the window in the process.
pub record Limiter : Type 0 where
  pub buckets : String → Bucket
  pub counters : String → Counter
  pub redis_up : Bool
  pub local : LocalHits

-- What the caller of a route gets: nothing, a 429 or a 503 with its code and `Retry-After`, or an
-- exception.
pub data Reply : Type 0 where
  pass : Reply
  too_many : String → ℕ → Reply
  unavailable : String → ℕ → Reply
  crash : Reply

abbrev pub stored : {A : Type 0} → String → A → (String → A) → String → A
stored key a store k = if same_text k key then a else store k

abbrev pub reply_of : String → Verdict → Reply
reply_of code accepted = pass
reply_of code (refused retry) = too_many code retry

abbrev pub reply_of_local : LocalVerdict → Reply
reply_of_local allowed = pass
reply_of_local (denied retry) = too_many "rate_limited" retry
reply_of_local index_error = crash

unfoldable pub eval_limiter : ℕ → String → ℕ → ℕ → Limiter → Limiter × Verdict
unfolding limiter_script
eval_limiter now key window limit s =
    let (b, v) = limiter_script now window limit (s.buckets key) in
    (record s { buckets = stored key b s.buckets }, v)

unfoldable pub eval_local : ℕ → String → ℕ → ℕ → Limiter → Limiter × LocalVerdict
unfolding local_allow
eval_local now key limit window s =
    let (table, v) = local_allow now key limit window s.local in (record s { local = table }, v)

unfoldable pub eval_cost : ℕ → String → ℕ → ℕ → ℕ → Limiter → Limiter × Verdict
unfolding cost_script
eval_cost now key cost limit window s =
    let (c, v) = cost_script now cost limit window (s.counters key) in
    (record s { counters = stored key c s.counters }, v)

-- The limit under a built key, which `enforce_rate_limit` and the dependency of `rate_limit` share
-- word for word.
unfoldable pub limit_key : ℕ → String → ℕ → ℕ → Bool → Limiter → Limiter × Reply
unfolding eval_limiter eval_local
limit_key now key limit window fail_closed s =
    if s.redis_up
    then (let (s', v) = eval_limiter now key window limit s in (s', reply_of "rate_limited" v))
    else if fail_closed
    then (let (s', v) = eval_local now key limit window s in (s', reply_of_local v))
    else (s, pass)

module _ (bucket_name : String → String) where
  unfoldable pub enforce_rate_limit : ℕ → String → String → ℕ → ℕ → Bool → Limiter → Limiter × Reply
  unfolding limit_key
  enforce_rate_limit now identity rule limit window fail_closed s =
      limit_key now (joined ("rl:" ∷ rule ∷ ":" ∷ bucket_name identity ∷ [])) limit window
        fail_closed s

  unfoldable pub enforce_cost_budget : ℕ → String → String → ℕ → ℕ → ℕ → Limiter → Limiter × Reply
  unfolding eval_cost
  enforce_cost_budget now identity rule cost limit window s =
      if cost == 0
      then (s, pass)
      else if s.redis_up
      then (let (s', v) =
            eval_cost now (joined ("rlc:" ∷ rule ∷ ":" ∷ bucket_name identity ∷ [])) cost limit
              window s in
          (s', reply_of "fanout_budget_exhausted" v))
      else (s, pass)

  abbrev pub is_accepted : Verdict → Bool
  is_accepted accepted = true
  is_accepted (refused retry) = false

  -- `identity` is `uin:` and the number.
  unfoldable pub allow_ws_connect : ℕ → ℕ → String → Limiter → Limiter × Bool
  unfolding eval_cost
  allow_ws_connect now connects_per_min identity s =
      if s.redis_up
      then (let (s', v) =
            eval_cost now (joined ("wsrate:" ∷ bucket_name identity ∷ [])) 1 connects_per_min 60
              s in
          (s', is_accepted v))
      else (s, true)

-- What the dependency reads of a request: the parts of `X-Forwarded-For` between its commas, none
-- where the header is missing or empty; the socket peer; and the account of the bearer token, where
-- there is one and it decodes.
pub record Request : Type 0 where
  pub forwarded_for : List String
  pub peer : Option String
  pub token_uin : Option String

abbrev pub peer_or : Option String → String
peer_or none = "unknown"
peer_or (some host) = host

unfoldable pub client_ip : Request → String
client_ip r = elim r.forwarded_for [ [] ↦ peer_or r.peer | address ∷ proxies ↦ address ]

unfoldable pub identity_of : (String → String) → Bool → Request → String
unfolding client_ip
identity_of subnet_of by_subnet r = elim r.token_uin [
  | some uin ↦ joined ("uin:" ∷ uin ∷ [])
  | none ↦
      if by_subnet
      then joined ("net:" ∷ subnet_of (client_ip r) ∷ [])
      else joined ("ip:" ∷ client_ip r ∷ [])
]

module _ (bucket_name subnet_of : String → String) where
  unfoldable pub rate_limit : ℕ → String → ℕ → ℕ → Bool → Bool → Request → Limiter → Limiter × Reply
  unfolding limit_key identity_of
  rate_limit now rule limit window fail_closed by_subnet r s =
      limit_key now
        (joined ("rl:" ∷ rule ∷ ":" ∷ bucket_name (identity_of subnet_of by_subnet r) ∷ [])) limit
        window fail_closed s

abbrev pub busy_of : Verdict → Reply
busy_of accepted = pass
busy_of (refused retry) = unavailable "island_busy" retry

abbrev pub busy_of_local : LocalVerdict → Reply
busy_of_local allowed = pass
busy_of_local (denied retry) = unavailable "island_busy" retry
busy_of_local index_error = crash

-- One pass of the loop of `island_ceiling`.
unfoldable pub ceiling_window : ℕ → String → ℕ → ℕ → Limiter → Limiter × Reply
unfolding eval_limiter eval_local
ceiling_window now key window limit s =
    if s.redis_up
    then (let (s', v) = eval_limiter now key window limit s in (s', busy_of v))
    else (let (s', v) = eval_local now key limit window s in (s', busy_of_local v))

abbrev pub ceiling_key : String → String → String
ceiling_key rule window = joined ("rl:ceiling:" ∷ rule ∷ ":" ∷ window ∷ [])

abbrev pub then_if_passed : Limiter × Reply → (Limiter → Limiter × Reply) → Limiter × Reply
then_if_passed (s, pass) next = next s
then_if_passed (s, reply) next = (s, reply)

unfoldable pub island_ceiling : ℕ → String → ℕ → ℕ → Limiter → Limiter × Reply
unfolding ceiling_window
island_ceiling now rule per_minute per_hour s =
    then_if_passed (ceiling_window now (ceiling_key rule "60") 60 per_minute s)
      (ceiling_window now (ceiling_key rule "3600") 3600 per_hour)

-- `reset_buckets`, where Redis answers; each of its keys has one of the three prefixes.
unfoldable pub reset_buckets : Limiter → Limiter
reset_buckets s =
    if s.redis_up then record s { buckets = λ key. no_bucket; counters = λ key. no_counter } else s
