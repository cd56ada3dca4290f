-- ===== src/Locks/Results.antt =====
-- The results that `FunboostIdempotencyHelper` (src/shared/idempotency.py) keeps.
use douyin_data_dashboard.Prelude.{
  ℕ, ◌+◌, ◌*◌, String, ◌≡◌, none, some, arith, if◌then◌else◌, ltb, str_eq, Bool-cases, inl, inr, ap,
  ◌∙◌, ◌<◌,
}
use douyin_data_dashboard.Locks.Idempotency.{
  reply, redis_error, TaskRedis, ResultJson, result_key, cache_result, get_cached_result,
}
use douyin_data_dashboard.Locks.Tasks.{TaskRedisLaws, result_key-same}

module _ (ticks : ℕ) (r : TaskRedis) (laws : TaskRedisLaws ticks r) (task_name : String)
    (json : ResultJson) where
  open laws use {entry}

  stored_read :
      (now later ttl : ℕ) (key j : String) (x : json.Result) (s : r.State)
      → 0 < ttl
      → json.loads (json.dumps x) ≡ some x
      → let s' = (r.set now (result_key r task_name key) (json.dumps x) ttl s).1 in
        (get_cached_result r task_name json later j s').0 ≡ (
          if str_eq key j
          then reply (if ltb later (now + ttl * ticks) then some x else none)
          else (get_cached_result r task_name json later j s).0)
  unfolding get_cached_result
  stored_read now later ttl key j x s positive loads =
      let k = result_key r task_name key in
      let s' = (r.set now k (json.dumps x) ttl s).1 in
      ground (
        arith,
        laws.store_entry now ttl k (json.dumps x) (result_key r task_name j) s positive,
        result_key-same r task_name key j,
        loads,
        laws.get_reply later (result_key r task_name j) s,
        laws.get_reply later (result_key r task_name j) s',
      )

  -- On a Redis that does as documented, caching a result returns whatever its time to live. Where
  -- that is not 0, and the result's JSON text loads again as what it was dumped from, the result
  -- reads back until its time is over and then reads as none, and the results of all other keys read
  -- as before; with a time to live of 0, which Redis refuses, nothing is stored.
  pub cache_result-get_cached_result :
      (now ttl : ℕ) (key : String) (x : json.Result) (s : r.State)
      → json.loads (json.dumps x) ≡ some x
      → let (answer, s') = cache_result r task_name json now key x ttl s in
        (answer ≡ reply tt)
        × ((later : ℕ) (j : String)
            → 0 < ttl
            → (get_cached_result r task_name json later j s').0 ≡ (
                if str_eq key j
                then reply (if ltb later (now + ttl * ticks) then some x else none)
                else (get_cached_result r task_name json later j s).0))
        × (ttl ≡ 0 → s' ≡ s)
  unfolding cache_result
  cache_result-get_cached_result now ttl key x s loads =
      let k = result_key r task_name key in
      let value = json.dumps x in
      elim (Bool-cases (ltb 0 ttl)) [
        | inl positive ↦
            let stored = laws.store_reply now ttl k value s (ground (arith, positive)) in
            let left : (cache_result r task_name json now key x ttl s).1
                ≡ (r.set now k value ttl s).1 =
              ground (arith, stored) in
            (
              ground (arith, stored),
              λ later j _.
                  ap (λ t. (get_cached_result r task_name json later j t).0) left
                  ∙ stored_read now later ttl key j x s (ground (arith, positive)) loads,
              λ zero. ground (arith, positive, zero),
            )
        | inr none_left ↦
            let zero : ttl ≡ 0 = ground (arith, none_left) in
            let (text, refused) = laws.store_refused now k value s in
            let set_refused : r.set now k value ttl s ≡ (redis_error text, s) =
              ap (λ n. r.set now k value n s) zero ∙ refused in
            (
              ground (arith, set_refused),
              λ later j positive. ground (arith, zero, positive),
              λ _. ground (arith, set_refused),
            )
      ]
