-- ===== src/Locks/TaskTests.antt =====
-- The locks and results of tasks at concrete inputs, over a server with scripts and one without.
use douyin_data_dashboard.Prelude.{
  ℕ, ◌+◌, ◌*◌, String, ◌≡◌, refl, true, false, ◌&&◌, none, some, List, arith, str_eq, inl, inr, ltb,
  ◌<◌, if◌then◌else◌,
}
use douyin_data_dashboard.Locks.Idempotency.{
  reply, redis_error, TaskRedis, ResultJson, lock_key, acquire_lock, refresh_lock, release_lock,
  cache_result, get_cached_result, is_eval_unsupported_error,
}
use douyin_data_dashboard.Locks.Store.{Event, acquiring, releasing, refreshing, run, is_held_by}
use douyin_data_dashboard.Locks.Script.{run_script}
use douyin_data_dashboard.Locks.Running.{live, lasting}
use douyin_data_dashboard.Locks.Tests.{Entries, write, calls, calls_laws}
use douyin_data_dashboard.Locks.Tasks.{
  TaskRedisLaws, IsScripted, IsScriptless, refresh_lock-extends,
}
use douyin_data_dashboard.Locks.TaskStore.{helper_store, acquire_lock-excludes}
use douyin_data_dashboard.Locks.Results.{cache_result-get_cached_result}

abbrev server : TaskRedis
server = record {
  State = Entries;
  set_nx = λ now key token ttl s. elim (live now (s key)) [
    | some t ↦ (reply false, s)
    | none ↦ (reply true, write key (some (token, now + ttl * 1)) s)
  ];
  set = λ now key value ttl s.
      if ltb 0 ttl
      then (reply tt, write key (some (value, now + ttl * 1)) s)
      else (redis_error (some "invalid expire time"), s);
  get = λ now key s. (reply (live now (s key)), s);
  eval = λ now script s. (redis_error (some "unknown command 'eval'"), s);
  has_register_script = true;
  run_registered = λ now script s. (redis_error (some "unknown command 'eval'"), s);
  has_pipeline = true;
  methods = List.◌∷◌ "watch" (
      List.◌∷◌ "get"
        (List.◌∷◌ "multi" (List.◌∷◌ "expire" (List.◌∷◌ "delete" (List.◌∷◌ "execute" List.[])))));
  watch = λ now key s. (reply tt, s);
  watched_get = λ now key s. (reply (live now (s key)), s);
  execute_expire = λ now key ttl s. elim (live now (s key)) [
    | some t ↦ (reply true, write key (lasting 1 now ttl t) s)
    | none ↦ (reply false, s)
  ];
  execute_delete = λ now key s. (reply tt, write key none s);
}

-- The same server, with scripts.
abbrev script_server : TaskRedis
script_server = record server {
  eval = λ now script s. let (v, s') = run_script (calls now) script s in (reply v, s');
}

abbrev server_laws : TaskRedisLaws 1 server
server_laws = record {
  entry = λ s. s;
  set_reply = λ now ttl key token s positive. ground arith;
  set_entry = λ now ttl key token j s positive. ground arith;
  store_reply = λ now ttl key value s positive. ground (arith, positive);
  store_entry = λ now ttl key value j s positive. ground (arith, positive);
  store_refused = λ now key value s. (some "invalid expire time", refl);
  get_reply = λ now key s. refl;
}

abbrev script_server_laws : TaskRedisLaws 1 script_server
script_server_laws = record {
  entry = λ s. s;
  set_reply = λ now ttl key token s positive. ground arith;
  set_entry = λ now ttl key token j s positive. ground arith;
  store_reply = λ now ttl key value s positive. ground (arith, positive);
  store_entry = λ now ttl key value j s positive. ground (arith, positive);
  store_refused = λ now key value s. (some "invalid expire time", refl);
  get_reply = λ now key s. refl;
}

scripted : IsScripted 1 script_server script_server_laws
scripted = record {
  calls = calls;
  commands = calls_laws;
  eval_reply = λ now script s. refl;
  eval_state = λ now script s. refl;
}

scriptless : IsScriptless 1 server server_laws
unfolding is_eval_unsupported_error
scriptless = record {
  message = "unknown command 'eval'";
  unsupported = refl;
  eval = λ now script s. refl;
  registered = λ now script s. refl;
  has_pipeline = refl;
  methods = refl;
  watch = λ now key s. refl;
  watched_get = λ now key s. refl;
  expire_reply = λ now ttl key s. ground arith;
  expire_entry = λ now ttl key j s. ground arith;
  delete_reply = λ now key s. refl;
  delete_entry = λ now key j s. refl;
}

abbrev empty : Entries
empty j = none

-- Another token is refused, and neither releases nor refreshes the lock.
abbrev events : List (Event (helper_store 1 script_server script_server_laws "sync"))
events =
    List.◌∷◌ (record { at = 101; call = acquiring "daily" "b" 30 })
      (List.◌∷◌ (record { at = 102; call = releasing "daily" "b" })
        (List.◌∷◌
          (record {
            at = 103;
            call = refreshing (record { key = "daily"; token = "b"; new_ttl = 1 });
          })
          List.[]))

refresh_lock-extends_example :
    let s = (acquire_lock script_server "sync" 100 "daily" "a" 30 empty).1 in
    let k = lock_key script_server "sync" "daily" in
    let owned = is_held_by "a" (live 110 (s k)) in
    ((refresh_lock script_server "sync" 110 "daily" "a" 60 s).0 ≡ reply owned)
    × ((j : String)
        → (refresh_lock script_server "sync" 110 "daily" "a" 60 s).1 j
          ≡ (if str_eq k j && owned then some ("a", 110 + 60 * 1) else s j))
refresh_lock-extends_example =
    refresh_lock-extends 1 script_server script_server_laws "sync" (inl scripted) 110 60 "daily" "a"
      (acquire_lock script_server "sync" 100 "daily" "a" 30 empty).1

-- A refresh on the server without scripts.
scriptless_refresh :
    (refresh_lock server "sync" 110 "daily" "a" 60
      (acquire_lock server "sync" 100 "daily" "a" 30 empty).1).0
    ≡ reply true
unfolding acquire_lock lock_key
scriptless_refresh =
    (refresh_lock-extends 1 server server_laws "sync" (inr scriptless) 110 60 "daily" "a"
      (acquire_lock server "sync" 100 "daily" "a" 30 empty).1).0

acquire_lock-excludes_example :
    let s' =
      run 1
        (helper_store 1 script_server script_server_laws "sync")
        events
        (acquire_lock script_server "sync" 100 "daily" "a" 30 empty).1 in
    ((acquire_lock script_server "sync" 120 "daily" "d" 30 s').0 ≡ reply none)
    × ((acquire_lock script_server "sync" 120 "daily" "d" 30
          (release_lock script_server "sync" 120 "daily" "a" s').1).0
        ≡ reply (some "d"))
unfolding acquire_lock
acquire_lock-excludes_example =
    acquire_lock-excludes 1 script_server script_server_laws "sync" (inl scripted) 100 30 120 30
      "daily" "a" "d" empty events (omega arith) (omega arith) (omega arith) refl
      (omega arith, (refl, (refl, tt))) (omega arith, (omega arith, (omega arith, omega arith)))

abbrev texts : ResultJson
texts = record { Result = String; dumps = λ t. t; loads = some }

cache_result-get_cached_result_example :
    let (answer, s') = cache_result server "sync" texts 100 "daily" "done" 60 empty in
    (answer ≡ reply tt)
    × ((later : ℕ) (j : String)
        → 0 < 60
        → (get_cached_result server "sync" texts later j s').0 ≡ (
            if str_eq "daily" j
            then reply (if ltb later (100 + 60 * 1) then some "done" else none)
            else (get_cached_result server "sync" texts later j empty).0))
    × (◌≡◌ {A = ℕ} 60 0 → s' ≡ empty)
cache_result-get_cached_result_example =
    cache_result-get_cached_result 1 server server_laws "sync" texts 100 60 "daily" "done" empty
      refl
