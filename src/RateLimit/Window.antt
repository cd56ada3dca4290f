-- ===== src/RateLimit/Window.antt =====
-- The two sliding windows of `RateLimitMiddleware` (src/middleware/rate_limit.py). Redis, the cache
-- behind `CacheProtocol` and `json` are parameters. The lock that the code holds round the cache
-- makes the read and the write one step, and so does the pipeline.
use Prim.Native.String.{◌++◌ as append}
use douyin_data_dashboard.Prelude.{
  ℕ, ◌+◌, ◌-◌, ◌/◌, String, Bool, Option, none, some, List, [], ◌∷◌, ◌++◌, ltb, if◌then◌else◌,
  length, keep, is_empty,
}
use douyin_data_dashboard.Prelude.Int.{ℤ, pos_part, leb_ℤ, pos, sub_ℕ}

-- A backend call returns, raises what `dispatch` catches, or raises something else.
pub data Outcome {ℓ} (A : Type ℓ) : Type ℓ where
  ok : A → Outcome A
  backend_error uncaught : Outcome A

-- `CacheProtocol`, as far as the middleware calls it; a time to live is in seconds.
pub record CacheProtocol : Type 1 where
  pub State : Type 0
  pub get : ℕ → String → State → Outcome (Option String) × State
  pub set : ℕ → String → String → ℕ → State → Outcome (Unit {0}) × State

-- The commands on sorted sets that the pipeline sends to Redis; `execute` may fail.
pub record Redis : Type 1 where
  pub State : Type 0
  pub reachable : State → Outcome (Unit {0})
  pub zremrangebyscore : ℕ → String → ℤ → State → State
  pub zadd : ℕ → String → String → ℕ → State → State
  pub zcard : ℕ → String → State → ℕ
  pub expire : ℕ → String → ℕ → State → State

-- `json.dumps` and `json.loads` of the list of times; `none` is a `ValueError`.
pub record Json : Type 0 where
  pub dumps : List ℕ → String
  pub loads : String → Option (List ℕ)

-- `f"rate_limit:{endpoint}:{client_id}"`
abbrev pub rate_limit_key : String → String → String
rate_limit_key endpoint client_id = append "rate_limit:" (append endpoint (append ":" client_id))

-- `ts > now - window`
abbrev pub is_recent : ℕ → ℕ → ℕ → Bool
is_recent window now ts = ltb now (ts + window)

-- `current_count >= limit` and `max(limit - current_count, 0)`
abbrev pub decide_limit : ℤ → ℕ → Bool × ℕ
decide_limit limit current_count = (leb_ℤ limit (pos current_count), pos_part limit - current_count)

module _ (ticks : ℕ) where
  -- `int(window) + 1`
  abbrev pub ttl_of : ℕ → ℕ
  ttl_of window = window / ticks + 1

  -- `_sliding_window`; `member` is the text that `time_ns` and `uuid4` make.
  unfoldable pub sliding_window :
      (r : Redis) → ℕ → String → String → ℤ → ℕ → r.State → Outcome (Bool × ℕ) × r.State
  sliding_window r now key member limit window s = elim (r.reachable s) [
    | ok _ ↦
        let s1 = r.zremrangebyscore now key (sub_ℕ now window) s in
        let s2 = r.zadd now key member now s1 in
        let current_count = r.zcard now key s2 in
        (ok (decide_limit limit current_count), r.expire now key (ttl_of window) s2)
    | backend_error ↦ (backend_error, s)
    | uncaught ↦ (uncaught, s)
  ]

  module _ (c : CacheProtocol) (json : Json) where
    -- `json.loads(raw) if raw else []`
    abbrev pub read_times : Option String → Option (List ℕ)
    read_times none = some []
    read_times (some raw) = if is_empty raw then some [] else json.loads raw

    -- What follows once the times are read.
    abbrev pub record_time : ℕ → String → ℤ → ℕ → List ℕ → c.State → Outcome (Bool × ℕ) × c.State
    record_time now key limit window times s =
        let timestamps = keep (is_recent window now) times ++ now ∷ [] in
        let (written, s') = c.set now key (json.dumps timestamps) (ttl_of window) s in
        elim written [
          | ok _ ↦ (ok (decide_limit limit (length timestamps)), s')
          | backend_error ↦ (backend_error, s')
          | uncaught ↦ (uncaught, s')
        ]

    -- `_cache_sliding_window`
    unfoldable pub cache_sliding_window :
        ℕ → String → ℤ → ℕ → c.State → Outcome (Bool × ℕ) × c.State
    cache_sliding_window now key limit window s =
        let (raw, s') = c.get now key s in
        elim raw [
          | ok text ↦ elim (read_times text) [
            | some times ↦ record_time now key limit window times s'
            | none ↦ (backend_error, s')
          ]
          | backend_error ↦ (backend_error, s')
          | uncaught ↦ (uncaught, s')
        ]
