-- ===== src/Locks/Idempotency.antt =====
-- `FunboostIdempotencyHelper` of src/shared/idempotency.py: the locks and results of tasks in Redis,
-- by scripts, or by watched transactions where the server runs no scripts.
use Prim.Native.String.{◌++◌ as append}
use text.Mathlib.Text.{find?}
use douyin_data_dashboard.Prelude.{
  ℕ, String, Bool, false, not, Option, none, some, List, [], ◌∷◌, str_eq, if◌then◌else◌, is_some,
  any, all,
}
use douyin_data_dashboard.Locks.Script.{
  Script, end_with, call, Value, number, get_key, del_key, expire_key, is_text, is_true,
}

-- A call returns, raises a `RedisError`, with its text in lower case where it is a `ResponseError`,
-- or raises another exception.
pub data Reply {ℓ} (A : Type ℓ) : Type ℓ where
  reply : A → Reply A
  redis_error : Option String → Reply A
  failure : Reply A

-- `_REFRESH_SCRIPT` with its key and arguments
unfoldable pub refresh_script : String → String → ℕ → Script
refresh_script key token new_ttl = call (get_key key) (λ current.
    if is_text token current
    then call (expire_key key new_ttl) (λ n. end_with n)
    else end_with (number 0))

-- `_RELEASE_SCRIPT` with its key and argument
unfoldable pub release_script : String → String → Script
release_script key token = call (get_key key) (λ current.
    if is_text token current then call (del_key key) (λ n. end_with n) else end_with (number 0))

-- The client. `set_nx` is `set(key, token, ex=ttl, nx=True)`; a script has its key and arguments; a text read
-- from the server is decoded; `execute` sends what was queued after `multi`, and a `WatchError` is a
-- `RedisError`. `methods` are the callable methods of the pipeline that the factory makes.
pub record TaskRedis : Type 1 where
  pub State : Type 0
  pub set_nx : ℕ → String → String → ℕ → State → Reply Bool × State
  pub set : ℕ → String → String → ℕ → State → Reply (Unit {0}) × State
  pub get : ℕ → String → State → Reply (Option String) × State
  pub eval : ℕ → Script → State → Reply Value × State
  pub has_register_script : Bool
  pub run_registered : ℕ → Script → State → Reply Value × State
  pub has_pipeline : Bool
  pub methods : List String
  pub watch : ℕ → String → State → Reply (Unit {0}) × State
  pub watched_get : ℕ → String → State → Reply (Option String) × State
  pub execute_expire : ℕ → String → ℕ → State → Reply Bool × State
  pub execute_delete : ℕ → String → State → Reply (Unit {0}) × State

-- `json.dumps` and `json.loads` of a result; `none` is an exception
pub record ResultJson : Type 1 where
  pub Result : Type 0
  pub dumps : Result → String
  pub loads : String → Option Result

abbrev pub eval_unsupported_markers : List String
eval_unsupported_markers =
    "unknown command" ∷ "unsupported" ∷ "not supported" ∷ "lua scripts are disabled"
    ∷ "lua scripting is disabled" ∷ []

-- `_is_eval_unsupported_error`
unfoldable pub is_eval_unsupported_error : Option String → Bool
is_eval_unsupported_error none = false
is_eval_unsupported_error (some message) =
    any eval_unsupported_markers (λ marker. is_some (find? message marker))

-- `_token_matches`, of a text that is decoded
abbrev pub token_matches : Option String → String → Bool
token_matches none token = false
token_matches (some current) token = str_eq current token

abbrev pub contains_method : List String → String → Bool
contains_method methods name = any methods (λ m. str_eq m name)

module _ (r : TaskRedis) (task_name : String) where
  -- `_lock_key` and `_result_key`
  unfoldable pub lock_key : String → String
  lock_key key = append "douyin:lock:" (append task_name (append ":" key))

  unfoldable pub result_key : String → String
  result_key key = append "douyin:result:" (append task_name (append ":" key))

  -- `_run_lock_script`
  unfoldable pub run_lock_script : ℕ → Script → r.State → Reply Value × r.State
  run_lock_script now script s =
      let (answer, s') = r.eval now script s in
      elim answer [
        | reply v ↦ (reply v, s')
        | redis_error e ↦
            if r.has_register_script then r.run_registered now script s' else (redis_error e, s')
        | failure ↦ (failure, s')
      ]

  -- A transaction on a watched key, which a `RedisError` ends with `default`.
  abbrev pub guarded :
      {A B : Type 0} → B → Reply A × r.State → (A → r.State → Reply B × r.State) → Reply B × r.State
  guarded default (reply a, s) next = next a s
  guarded default (redis_error e, s) next = (reply default, s)
  guarded default (failure, s) next = (failure, s)

  abbrev pub has_transaction : List String → Bool
  has_transaction required =
      if r.has_pipeline then all required (contains_method r.methods) else false

  -- `_refresh_lock_with_transaction`
  unfoldable pub refresh_lock_with_transaction :
      ℕ → String → String → ℕ → r.State → Reply Bool × r.State
  refresh_lock_with_transaction now lock_key token new_ttl s =
      if not (has_transaction ("watch" ∷ "get" ∷ "multi" ∷ "expire" ∷ "execute" ∷ []))
      then (reply false, s)
      else guarded false (r.watch now lock_key s) (λ _ s1.
        guarded false (r.watched_get now lock_key s1) (λ current s2.
          if not (token_matches current token)
          then (reply false, s2)
          else guarded false (r.execute_expire now lock_key new_ttl s2)
              (λ done s3. (reply done, s3))))

  -- `_release_lock_with_transaction`
  unfoldable pub release_lock_with_transaction :
      ℕ → String → String → r.State → Reply (Unit {0}) × r.State
  release_lock_with_transaction now lock_key token s =
      if not (has_transaction ("watch" ∷ "get" ∷ "multi" ∷ "delete" ∷ "execute" ∷ []))
      then (reply tt, s)
      else guarded tt (r.watch now lock_key s) (λ _ s1.
        guarded tt (r.watched_get now lock_key s1) (λ current s2.
          if not (token_matches current token)
          then (reply tt, s2)
          else guarded tt (r.execute_delete now lock_key s2) (λ _ s3. (reply tt, s3))))

  -- `acquire_lock`; `token` is the text of the random bytes.
  unfoldable pub acquire_lock : ℕ → String → String → ℕ → r.State → Reply (Option String) × r.State
  acquire_lock now key token ttl s =
      let (answer, s') = r.set_nx now (lock_key key) token ttl s in
      elim answer [
        | reply acquired ↦ (reply (if acquired then some token else none), s')
        | redis_error e ↦ (redis_error e, s')
        | failure ↦ (failure, s')
      ]

  -- `refresh_lock`
  unfoldable pub refresh_lock : ℕ → String → String → ℕ → r.State → Reply Bool × r.State
  unfolding refresh_script run_lock_script refresh_lock_with_transaction
  refresh_lock now key token new_ttl s =
      let (answer, s') = run_lock_script now (refresh_script (lock_key key) token new_ttl) s in
      elim answer [
        | reply result ↦ (reply (is_true result), s')
        | redis_error e ↦
            if not (is_eval_unsupported_error e)
            then (reply false, s')
            else refresh_lock_with_transaction now (lock_key key) token new_ttl s'
        | failure ↦ (failure, s')
      ]

  -- `release_lock`; what it only logs is passed over.
  unfoldable pub release_lock : ℕ → String → String → r.State → Reply (Unit {0}) × r.State
  unfolding release_script run_lock_script release_lock_with_transaction
  release_lock now key token s =
      let (answer, s') = run_lock_script now (release_script (lock_key key) token) s in
      elim answer [
        | reply _ ↦ (reply tt, s')
        | redis_error e ↦
            if is_eval_unsupported_error e
            then release_lock_with_transaction now (lock_key key) token s'
            else (reply tt, s')
        | failure ↦ (failure, s')
      ]

  -- `cache_result`; what it only logs is passed over.
  unfoldable pub cache_result :
      (json : ResultJson) → ℕ → String → json.Result → ℕ → r.State → Reply (Unit {0}) × r.State
  cache_result json now key result ttl s =
      let (answer, s') = r.set now (result_key key) (json.dumps result) ttl s in
      elim answer [
        | reply _ ↦ (reply tt, s')
        | redis_error e ↦ (reply tt, s')
        | failure ↦ (failure, s')
      ]

  -- `get_cached_result`
  unfoldable pub get_cached_result :
      (json : ResultJson) → ℕ → String → r.State → Reply (Option json.Result) × r.State
  get_cached_result json now key s =
      let (answer, s') = r.get now (result_key key) s in
      elim answer [
        | reply none ↦ (reply none, s')
        | reply (some cached) ↦
            (elim (json.loads cached) [ some x ↦ reply (some x) | none ↦ failure ], s')
        | redis_error e ↦ (redis_error e, s')
        | failure ↦ (failure, s')
      ]
