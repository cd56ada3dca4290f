-- ===== src/Locks/Manager.antt =====
-- `LockManager` of src/scrapers/shop_dashboard/lock_manager.py: locks in Redis, or in the process
-- where the client has no `set`.
use Prim.Native.String.{◌++◌ as append}
use text.Mathlib.Text.{find?}
use douyin_data_dashboard.Prelude.{
  ℕ, ◌+◌, ◌*◌, String, Bool, ◌&&◌, Option, none, some, str_eq, ◌==◌, ltb, if◌then◌else◌, or_else,
  is_some,
}
use douyin_data_dashboard.Prelude.Dict.{Dict, lookup, put, pop}
use douyin_data_dashboard.Locks.Script.{
  Script, end_with, call, Value, number, get_key, del_key, is_text,
}

-- A call returns, raises a `ResponseError` whose text in lower case this is, or another exception.
pub data Reply {ℓ} (A : Type ℓ) : Type ℓ where
  reply : A → Reply A
  response_error : String → Reply A
  failure : Reply A

-- The client that `resolve_sync_redis_client` gives: what is callable on it, `set(key, token,
-- nx=True, ex=ttl)`, `eval(script, 1, key, ...)`, `get` and `delete`. Each call has the time of the clock.
pub record LockRedis : Type 1 where
  pub State : Type 0
  pub has_set : Bool
  pub has_eval : Bool
  pub has_get : Bool
  pub has_delete : Bool
  pub set : ℕ → String → String → ℕ → State → Reply Bool × State
  pub eval : ℕ → Script → State → Reply Value × State
  pub get : ℕ → String → State → Reply (Option String) × State
  pub delete : ℕ → String → State → Reply (Unit {0}) × State

pub record LockManager (r : LockRedis) : Type 0 where
  pub lock_ttl_seconds : ℕ
  pub redis : r.State
  pub memory_locks : Dict (String × ℕ)

unfoldable pub account_lock_key : String → String
account_lock_key account_id = append "douyin:account:lock:" account_id

unfoldable pub shop_lock_key : String → String
shop_lock_key shop_id = append "douyin:shop:lock:" shop_id

-- `_RELEASE_SCRIPT` with its key and its token
unfoldable pub release_script : String → String → Script
release_script key token = call (get_key key) (λ current.
    if is_text token current then call (del_key key) (λ n. end_with n) else end_with (number 0))

-- `ttl_seconds or self._lock_ttl_seconds`, of times to live that are not negative
abbrev pub ttl_or : Option ℕ → ℕ → ℕ
ttl_or ttl_seconds default = let ttl = or_else ttl_seconds 0 in if ttl == 0 then default else ttl

-- `max(ttl, 1)`
abbrev pub at_least_one : ℕ → ℕ
at_least_one ttl = if ttl == 0 then 1 else ttl

-- The clock has `ticks` moments in a second.
module _ (ticks : ℕ) (r : LockRedis) where
  -- `_acquire_from_memory`
  unfoldable pub acquire_from_memory :
      ℕ → String → String → ℕ → LockManager r → Option String × LockManager r
  acquire_from_memory now key token ttl_seconds m =
      let stored = record m {
        memory_locks = put key (token, now + at_least_one ttl_seconds * ticks) m.memory_locks;
      } in
      elim (lookup key m.memory_locks) [
        | some (holder, until) ↦ if ltb now until then (none, m) else (some token, stored)
        | none ↦ (some token, stored)
      ]

  -- `_release_from_memory`
  unfoldable pub release_from_memory : String → String → LockManager r → LockManager r
  release_from_memory key token m = elim (lookup key m.memory_locks) [
    | some (holder, until) ↦
        if str_eq holder token then record m { memory_locks = pop key m.memory_locks } else m
    | none ↦ m
  ]

  -- `_acquire`; `token` is the text of the random bytes.
  unfoldable pub acquire :
      ℕ → String → String → Option ℕ → LockManager r → Reply (Option String) × LockManager r
  unfolding acquire_from_memory
  acquire now key token ttl_seconds m =
      let ttl = ttl_or ttl_seconds m.lock_ttl_seconds in
      if r.has_set
      then (let (answer, s) = r.set now key token ttl m.redis in
          let m' = record m { redis = s } in
          elim answer [
            | reply taken ↦ (reply (if taken then some token else none), m')
            | response_error text ↦ (response_error text, m')
            | failure ↦ (failure, m')
          ])
      else (let (taken, m') = acquire_from_memory now key token ttl m in (reply taken, m'))

  -- What `_release` does without the script: it reads the key `now`, and deletes it `later` where it
  -- read its token. `meanwhile` is what others do to the server between the two calls.
  unfoldable pub release_plainly :
      ℕ
      → ℕ
      → (r.State → r.State)
      → String
      → String
      → LockManager r
      → Reply (Unit {0}) × LockManager r
  unfolding release_from_memory
  release_plainly now later meanwhile key token m =
      if r.has_get && r.has_delete
      then (let (current, s) = r.get now key m.redis in
          elim current [
            | reply (some holder) ↦
                if str_eq holder token
                then (let (answer, s') = r.delete later key (meanwhile s) in
                    (answer, record m { redis = s' }))
                else (reply tt, record m { redis = s })
            | reply none ↦ (reply tt, record m { redis = s })
            | response_error text ↦ (response_error text, record m { redis = s })
            | failure ↦ (failure, record m { redis = s })
          ])
      else (reply tt, release_from_memory key token m)

  -- `_release`
  unfoldable pub release :
      ℕ
      → ℕ
      → (r.State → r.State)
      → String
      → String
      → LockManager r
      → Reply (Unit {0}) × LockManager r
  unfolding release_plainly release_script
  release now later meanwhile key token m =
      if r.has_eval
      then (let (answer, s) = r.eval now (release_script key token) m.redis in
          let m' = record m { redis = s } in
          elim answer [
            | reply _ ↦ (reply tt, m')
            | response_error text ↦
                if is_some (find? text "unknown command") && is_some (find? text "eval")
                then release_plainly now later meanwhile key token m'
                else (response_error text, m')
            | failure ↦ (failure, m')
          ])
      else release_plainly now later meanwhile key token m

  unfoldable pub acquire_account_lock :
      ℕ → String → String → Option ℕ → LockManager r → Reply (Option String) × LockManager r
  acquire_account_lock now account_id token ttl_seconds m =
      acquire now (account_lock_key account_id) token ttl_seconds m

  unfoldable pub release_account_lock :
      ℕ
      → ℕ
      → (r.State → r.State)
      → String
      → String
      → LockManager r
      → Reply (Unit {0}) × LockManager r
  release_account_lock now later meanwhile account_id token m =
      release now later meanwhile (account_lock_key account_id) token m

  unfoldable pub acquire_shop_lock :
      ℕ → String → String → Option ℕ → LockManager r → Reply (Option String) × LockManager r
  acquire_shop_lock now shop_id token ttl_seconds m =
      acquire now (shop_lock_key shop_id) token ttl_seconds m

  unfoldable pub release_shop_lock :
      ℕ
      → ℕ
      → (r.State → r.State)
      → String
      → String
      → LockManager r
      → Reply (Unit {0}) × LockManager r
  release_shop_lock now later meanwhile shop_id token m =
      release now later meanwhile (shop_lock_key shop_id) token m
