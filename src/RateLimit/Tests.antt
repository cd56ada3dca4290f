-- ===== src/RateLimit/Tests.antt =====
-- Runs of the rate limiter, and its theorems at concrete inputs. A memory of what each later read
-- finds stands in for the cache and for Redis, and unary numbers for the JSON text.
use Prim.Native.String.{[], ◌∷◌}
use Prim.Native.Char.{code}
use douyin_data_dashboard.Prelude.{
  ℕ, zero, suc, ◌+◌, ◌*◌, String, ◌≡◌, refl, ap, ◌∙◌, true, false, not, Option, none, some, List,
  arith, str_eq, eq_refl, ◌==◌, ltb, if◌then◌else◌, length, keep, ◌++◌,
}
use douyin_data_dashboard.Prelude.Int.{pos, leb_ℤ}
use douyin_data_dashboard.RateLimit.Settings.{RateLimitSettings, get_endpoint}
use douyin_data_dashboard.RateLimit.Window.{
  ok, CacheProtocol, Redis, Json, cache_sliding_window, sliding_window,
}
use douyin_data_dashboard.RateLimit.Middleware.{
  Request, Response, page, Places, cache, dispatch, limit_exceeded_response, with_limit_headers,
  default_client_identifier, resolve_backend,
}
use douyin_data_dashboard.RateLimit.History.{JsonLaws, CacheLaws, Hit}
use douyin_data_dashboard.RateLimit.Served.{serve, serve-window}
use douyin_data_dashboard.RateLimit.Sorted.{RedisLaws, Call, serve_calls}
use douyin_data_dashboard.RateLimit.Calls.{sliding_window-served}
use douyin_data_dashboard.RateLimit.Dispatch.{dispatch-served}

unary : ℕ → String → String
unary zero rest = "," ∷ rest
unary (suc n) rest = "1" ∷ unary n rest

dump : List ℕ → String
dump List.[] = []
dump (List.◌∷◌ n ns) = unary n (dump ns)

load : ℕ → String → List ℕ
load acc [] = List.[]
load acc (c ∷ s) =
    let closed = List.◌∷◌ acc (load 0 s) in
    let open_one = load (acc + 1) s in if code c == b',' then closed else open_one

load-unary : (acc n : ℕ) (s : String) → load acc (unary n s) ≡ List.◌∷◌ (acc + n) (load 0 s)
unfolding load unary
load-unary acc zero s = ground arith
load-unary acc (suc n) s = load-unary (acc + 1) n s ∙ ground arith

load-dump : (ns : List ℕ) → load 0 (dump ns) ≡ ns
unfolding dump load
load-dump List.[] = refl
load-dump (List.◌∷◌ n ns) = load-unary 0 n (dump ns) ∙ ground (arith, load-dump ns)

drop_first : String → Option (List ℕ)
drop_first [] = none
drop_first (c ∷ s) = some (load 0 s)

abbrev unary_json : Json
unary_json = record { dumps = λ ns. "[" ∷ dump ns; loads = drop_first }

unary_laws : JsonLaws unary_json
unfolding drop_first
unary_laws = record { loads-dumps = λ xs. ap some (load-dump xs); dumps_filled = λ xs. refl }

abbrev memory : CacheProtocol
memory = record {
  State = ℕ → String → Option String;
  get = λ now key s. (ok (s now key), s);
  set = λ now key text ttl s. (
    ok tt,
    λ later j.
        if str_eq key j then (if ltb (now + ttl * 1) later then none else some text) else s later j,
  );
}

abbrev memory_laws : CacheLaws 1 memory
memory_laws = record {
  reads = λ s. s;
  get-ok = λ now key s. refl;
  get-reads = λ now later key j s le. refl;
  set-ok = λ now ttl key text s. refl;
  set-reads = λ now later ttl key j text s le. refl;
}

abbrev Sets : Type 0
Sets = ℕ → String → List (String × ℕ)

abbrev write : String → List (String × ℕ) → Sets → Sets
write key es s later j = if str_eq key j then es else s later j

abbrev sets : Redis
sets = record {
  State = Sets;
  reachable = λ s. ok tt;
  zremrangebyscore =
      λ now key bound s. write key (keep (λ e. not (leb_ℤ (pos e.1) bound)) (s now key)) s;
  zadd = λ now key member score s. write key (s now key ++ List.◌∷◌ (member, score) List.[]) s;
  zcard = λ now key s. length (s now key);
  expire = λ now key ttl s later j.
      if str_eq key j
      then (if ltb (now + ttl * 1) later then List.[] else s now key)
      else s later j;
}

abbrev sets_laws : RedisLaws 1 sets
sets_laws = record {
  entries = λ s. s;
  reachable = λ s. refl;
  zremrangebyscore = λ now key bound s. rw (eq_refl key);
  zadd = λ now score key member s fresh. rw (eq_refl key);
  zcard = λ now key s. refl;
  expire = λ now later ttl key s le. rw (eq_refl key);
  zremrangebyscore_other = λ now later key j bound s ne. rw ne;
  zadd_other = λ now later score key j member s ne. rw ne;
  expire_other = λ now later ttl key j s ne. rw ne;
}

abbrev login_key : String
login_key = "rate_limit:/login:1.2.3.4"

-- Two requests on the key, one of another client, and one that the window of 60 has dropped.
abbrev history : List Hit
history =
    List.◌∷◌ (record { at = 10; key = login_key })
      (List.◌∷◌ (record { at = 50; key = login_key })
        (List.◌∷◌ (record { at = 60; key = "rate_limit:/login:5.6.7.8" })
          (List.◌∷◌ (record { at = 65; key = login_key }) List.[])))

serve-window_example :
    (cache_sliding_window 1 memory unary_json 75 login_key
      (pos 3)
      60
      (serve 1 memory unary_json (λ k. 60) (λ k. pos 3) history (λ later j. none))).0
    ≡ ok (true, 0)
serve-window_example =
    serve-window 1 memory unary_json (λ k. 60) (λ k. pos 3) memory_laws unary_laws (omega arith)
      history 0 (record { at = 75; key = login_key }) (λ later j. none) (λ later key. refl)
      (omega arith)

abbrev call : ℕ → String → String → Call
call at key member = record { hit = record { at = at; key = key }; member = member }

abbrev calls : List Call
calls =
    List.◌∷◌ (call 10 login_key "a") (
      List.◌∷◌ (call 50 login_key "b") (List.◌∷◌ (call 60 "rate_limit:/login:5.6.7.8" "c") List.[]))

sliding_window-served_example :
    (sliding_window 1 sets 75 login_key "d"
      (pos 3)
      60
      (serve_calls 1 sets (λ k. 60) (λ k. pos 3) calls (λ later j. List.[]))).0
    ≡ ok (false, 1)
sliding_window-served_example =
    sliding_window-served 1 sets (λ k. 60) (λ k. pos 3) sets_laws (omega arith) calls 0
      (call 75 login_key "d") (λ later j. List.[]) (λ later key. refl) (omega arith)
      (refl, (refl, (refl, (refl, tt))))

abbrev settings : RateLimitSettings
settings = record { enabled = true; global_limit = pos 3; global_window = 60; endpoints = List.[] }

abbrev request : Request
request = record { path = "/login"; client_host = some "1.2.3.4" }

abbrev handler : Request → Response
handler r = record { status_code = 200; body = page "ok"; headers = List.[] }

abbrev after_history : ℕ → String → Option String
after_history = serve 1 memory unary_json (λ k. 60) (λ k. pos 3) history (λ later j. none)

abbrev places : Places 1 sets memory unary_json
places = record {
  own_redis = none;
  request_redis = none;
  app_redis = none;
  override = none;
  module_cache = some (cache after_history);
}

abbrev no_places : Places 1 sets memory unary_json
no_places = record places { module_cache = none }

dispatch-served_example :
    (dispatch 1 sets memory unary_json settings default_client_identifier places 75 "m" handler
      request).0
    ≡ some (with_limit_headers (pos 3) 0 60 (limit_exceeded_response 1 60))
unfolding default_client_identifier resolve_backend get_endpoint
dispatch-served_example =
    dispatch-served 1 sets memory unary_json settings default_client_identifier places 75 "m"
      handler request memory_laws unary_laws (omega arith) (λ k. 60) (λ k. pos 3) history 0
      (λ later j. none) (refl, refl) (λ later key. refl) (omega arith) refl refl refl
