-- ===== src/RateLimit/Dispatch.antt =====
-- What `dispatch` of src/middleware/rate_limit.py answers: after a run of requests on a cache, and
-- where the backend is missing or fails.
use text.Mathlib.Text.{starts_with}
use douyin_data_dashboard.Prelude.{
  ℕ, ◌+◌, ◌<◌, String, ◌≡◌, ◌∙◌, true, false, none, some, List, arith, if◌then◌else◌, any, is_some,
}
use douyin_data_dashboard.Prelude.Int.{ℤ, leb_ℤ, pos}
use douyin_data_dashboard.RateLimit.Settings.{RateLimitSettings, get_endpoint}
use douyin_data_dashboard.RateLimit.Window.{
  CacheProtocol, Redis, Json, decide_limit, rate_limit_key,
}
use douyin_data_dashboard.RateLimit.History.{JsonLaws, CacheLaws, Hit, recent_count, IsOrdered}
use douyin_data_dashboard.RateLimit.Served.{serve, serve-window}
use douyin_data_dashboard.RateLimit.Middleware.{
  Request, Response, doc_path_prefixes, limit_exceeded_response, with_limit_headers, Backend, cache,
  Places, resolve_backend, apply_limit, respond, dispatch,
}

-- The limit and the window of a path.
abbrev pub limit_of : ℕ → RateLimitSettings → String → ℤ
limit_of ticks settings path = elim (get_endpoint ticks settings path) [
  | some e ↦ e.limit
  | none ↦ settings.global_limit
]

abbrev pub window_of : ℕ → RateLimitSettings → String → ℕ
window_of ticks settings path = elim (get_endpoint ticks settings path) [
  | some e ↦ e.window
  | none ↦ settings.global_window
]

-- The middleware looks at the request.
abbrev pub IsChecked : RateLimitSettings → Request → Type 0
IsChecked settings request =
    (settings.enabled ≡ true) × (any doc_path_prefixes (λ p. starts_with request.path p) ≡ false)

module _ (ticks : ℕ) (r : Redis) (c : CacheProtocol) (json : Json) (settings : RateLimitSettings)
    (identify : Request → String) (places : Places ticks r c json) (now : ℕ) (member : String)
    (call_next : Request → Response) (request : Request) where
  -- The key, limit and window that a checked request is counted under.
  abbrev pub key_of : String
  key_of = rate_limit_key request.path (identify request)

  dispatch-backend :
      (b : Backend ticks r c json)
      → IsChecked settings request
      → resolve_backend ticks r c json places ≡ some b
      → (dispatch ticks r c json settings identify places now member call_next request).0
        ≡ respond ticks r c json
            (is_some (get_endpoint ticks settings request.path))
            (limit_of ticks settings request.path)
            (window_of ticks settings request.path)
            call_next
            request
            (apply_limit ticks r c json now
              (identify request)
              request.path
              member
              (limit_of ticks settings request.path)
              (window_of ticks settings request.path)
              b).0
  unfolding dispatch
  dispatch-backend b checked found = ground (arith, checked.0, checked.1, found)

  module _ (laws : CacheLaws ticks c) (jlaws : JsonLaws json) (positive : 0 < ticks)
      (window : String → ℕ) (limit : String → ℤ) where
    -- Over a cache that keeps what is written for its time to live, with JSON texts that read back,
    -- and that served a run of requests in the order of the clock with the limit and window of the
    -- request's path on its key, a checked request is answered with 429 exactly
    -- where the requests on its key within the window, itself included, reach the limit of its path;
    -- else the handler answers. Both carry the limit, what is left of it and the window.
    pub dispatch-served :
        (hs : List Hit) (start : ℕ) (s : c.State)
        → IsChecked settings request
        → ((later : ℕ) (key : String) → laws.reads s later key ≡ none)
        → IsOrdered start hs now
        → window key_of ≡ window_of ticks settings request.path
        → limit key_of ≡ limit_of ticks settings request.path
        → resolve_backend ticks r c json places
          ≡ some (cache (serve ticks c json window limit hs s))
        → let count = recent_count (window key_of) now key_of hs + 1 in
          (dispatch ticks r c json settings identify places now member call_next request).0
          ≡ some (
              with_limit_headers
                (limit key_of)
                (decide_limit (limit key_of) count).1
                (window key_of)
                (if leb_ℤ (limit key_of) (pos count)
                  then limit_exceeded_response ticks (window key_of)
                  else call_next request))
    unfolding apply_limit respond
    dispatch-served hs start s checked empty ordered w l found =
        dispatch-backend _ checked found
        ∙ rw (← w, ← l)
            (rw (
              serve-window ticks c json window limit laws jlaws positive hs start
                (record { at = now; key = key_of }) s empty ordered))
