-- ===== src/RateLimit/Middleware.antt =====
-- `RateLimitMiddleware._resolve_backend`, `_apply_limit` and `dispatch` of
-- src/middleware/rate_limit.py. What the request finds on the application, and the handler behind
-- the middleware, are arguments.
use text.Mathlib.Text.{starts_with}
use douyin_data_dashboard.Prelude.{
  ℕ, ◌/◌, String, Bool, not, Option, none, some, List, [], ◌∷◌, if◌then◌else◌, or_else, any,
  is_some,
}
use douyin_data_dashboard.Prelude.Int.{ℤ, pos}
use douyin_data_dashboard.Prelude.Dict.{Dict, put}
use douyin_data_dashboard.RateLimit.Settings.{RateLimitSettings, get_endpoint}
use douyin_data_dashboard.RateLimit.Window.{
  Outcome, ok, backend_error, uncaught, CacheProtocol, Redis, Json, rate_limit_key, sliding_window,
  cache_sliding_window,
}

pub record Request : Type 0 where
  pub path : String
  pub client_host : Option String

-- A header holds a number, or the text of a time given in ticks.
pub data HeaderValue : Type 0 where
  number : ℤ → HeaderValue
  seconds : ℕ → HeaderValue

-- What the handler sends, or the code and message of an error response.
pub data Body : Type 0 where
  page : String → Body
  error_content : ℕ → String → Body

pub record Response : Type 0 where
  pub status_code : ℕ
  pub body : Body
  pub headers : Dict HeaderValue

-- `_default_client_identifier`
unfoldable pub default_client_identifier : Request → String
default_client_identifier request = or_else request.client_host "unknown"

abbrev pub doc_path_prefixes : List String
doc_path_prefixes = "/docs" ∷ "/redoc" ∷ "/openapi" ∷ "/health" ∷ []

-- `_backend_unavailable_response`
unfoldable pub backend_unavailable_response : Response
backend_unavailable_response = record {
  status_code = 503;
  body = error_content 90003 "Rate limit backend unavailable";
  headers = [];
}

abbrev pub limit_exceeded_response : ℕ → ℕ → Response
limit_exceeded_response ticks window = record {
  status_code = 429;
  body = error_content 42901 "Rate limit exceeded";
  headers = ("Retry-After", number (pos (window / ticks))) ∷ [];
}

abbrev pub with_limit_headers : ℤ → ℕ → ℕ → Response → Response
with_limit_headers limit remaining window response = record response {
  headers = put "X-RateLimit-Window" (seconds window) (
      put "X-RateLimit-Remaining" (number (pos remaining))
        (put "X-RateLimit-Limit" (number limit) response.headers));
}

module _ (ticks : ℕ) (r : Redis) (c : CacheProtocol) (json : Json) where
  -- A Redis client (or what has a `pipeline`), a `RedisCache` round one, or another cache.
  pub data Backend : Type 0 where
    redis : r.State → Backend
    redis_cache : r.State → Backend
    cache : c.State → Backend

  -- Where the code looks for a backend. `override` is what `dependency_overrides` resolves to.
  pub record Places : Type 0 where
    pub own_redis : Option r.State
    pub request_redis : Option r.State
    pub app_redis : Option r.State
    pub override : Option (Option Backend)
    pub module_cache : Option Backend

  -- `_resolve_backend`
  unfoldable pub resolve_backend : Places → Option Backend
  resolve_backend places = elim places.own_redis [
    | some client ↦ some (redis client)
    | none ↦ elim places.request_redis [
      | some client ↦ some (redis client)
      | none ↦ elim places.app_redis [
        | some client ↦ some (redis client)
        | none ↦ or_else places.override places.module_cache
      ]
    ]
  ]

  abbrev pub stored :
      (A : Type 0) → (A → Backend) → Outcome (Bool × ℕ) × A → Outcome (Bool × ℕ) × Backend
  stored A wrap (outcome, s) = (outcome, wrap s)

  -- `_apply_limit`
  unfoldable pub apply_limit :
      ℕ → String → String → String → ℤ → ℕ → Backend → Outcome (Bool × ℕ) × Backend
  apply_limit now client_id endpoint member limit window (redis s) =
      stored r.State redis
        (sliding_window ticks r now (rate_limit_key endpoint client_id) member limit window s)
  apply_limit now client_id endpoint member limit window (redis_cache s) =
      stored r.State redis_cache
        (sliding_window ticks r now (rate_limit_key endpoint client_id) member limit window s)
  apply_limit now client_id endpoint member limit window (cache s) =
      stored c.State cache
        (cache_sliding_window ticks c json now (rate_limit_key endpoint client_id) limit window s)

  -- What `dispatch` does with the outcome; `none` is an exception that it lets through.
  unfoldable pub respond :
      Bool → ℤ → ℕ → (Request → Response) → Request → Outcome (Bool × ℕ) → Option Response
  respond configured limit window call_next request (ok (is_limited, remaining)) = some (
      with_limit_headers limit remaining window
        (if is_limited then limit_exceeded_response ticks window else call_next request))
  respond configured limit window call_next request backend_error =
      some (if configured then backend_unavailable_response else call_next request)
  respond configured limit window call_next request uncaught = none

  -- `dispatch`, with the backend that it leaves; `identify` is the client identifier.
  unfoldable pub dispatch :
      RateLimitSettings
      → (Request → String)
      → Places
      → ℕ
      → String
      → (Request → Response)
      → Request
      → Option Response × Option Backend
  unfolding respond
  dispatch settings identify places now member call_next request =
      if not settings.enabled
      then (some (call_next request), none)
      else if any doc_path_prefixes (λ p. starts_with request.path p)
      then (some (call_next request), none)
      else let endpoint_config = get_endpoint ticks settings request.path in
        let configured = is_some endpoint_config in
        let limit : ℤ = elim endpoint_config [ some e ↦ e.limit | none ↦ settings.global_limit ] in
        let window : ℕ = elim endpoint_config [
          | some e ↦ e.window
          | none ↦ settings.global_window
        ] in
        elim (resolve_backend places) [
          | none ↦
              (some (if configured then backend_unavailable_response else call_next request), none)
          | some backend ↦
              let (outcome, backend') =
                apply_limit now (identify request) request.path member limit window backend in
              (respond configured limit window call_next request outcome, some backend')
        ]
