-- ===== src/Locks/TaskStore.antt =====
-- The locks of `FunboostIdempotencyHelper` (src/shared/idempotency.py) as a store of locks.
use mathlib.Core.Path.{subst}
use douyin_data_dashboard.Prelude.{
  ℕ, ◌+◌, ◌*◌, String, ◌≡◌, sym, ◌∙◌, ap, ◌&&◌, none, some, arith, str_eq, if◌then◌else◌, ◌<◌, ◌⊎◌,
  inl, inr, Option-cases, List, eq_iff, false, Bool-cases,
}
use douyin_data_dashboard.Locks.Manager
use douyin_data_dashboard.Locks.Idempotency.{
  Reply, reply, redis_error, failure, release_script, TaskRedis, lock_key, run_lock_script,
  release_lock, acquire_lock, refresh_lock, release_lock_with_transaction,
}
use douyin_data_dashboard.Locks.Store.{
  LockStore, LockLaws, is_held_by, Event, IsOrdered, AllForeign, run, store-excludes,
}
use douyin_data_dashboard.Locks.Script.{run_script}
use douyin_data_dashboard.Locks.Running.{live, lasting, run_release}
use douyin_data_dashboard.Locks.Backing.{released-live}
use douyin_data_dashboard.Locks.Tasks.{
  TaskRedisLaws, IsScripted, IsScriptless, run_lock_script-scriptless, lock_key-same,
  refresh_lock-extends,
}

module _ (ticks : ℕ) (r : TaskRedis) (laws : TaskRedisLaws ticks r) (task_name : String) where
  open laws use {entry}

  -- What a release leaves.
  abbrev IsReleased : ℕ → String → String → r.State → r.State → Type 0
  IsReleased now k token s s' =
      (j : String)
      → entry s' j
        ≡ (if str_eq k j && is_held_by token (live now (entry s k)) then none else entry s j)

  scripted_release :
      (e : IsScripted ticks r laws) (now : ℕ) (key token : String) (s : r.State)
      → IsReleased now
          (lock_key r task_name key)
          token
          s
          (release_lock r task_name now key token s).1
  unfolding release_lock run_lock_script release_script
  scripted_release e now key token s = λ j.
      let k = lock_key r task_name key in
      let script = release_script k token in
      let left : (release_lock r task_name now key token s).1
          ≡ (run_script (e.calls now) script s).1 =
        ground (arith, e.eval_reply now script s, e.eval_state now script s) in
      ap (λ t. entry t j) left
      ∙ (run_release ticks r.State entry e.calls e.commands now k token j s).1

  transaction_release :
      (e : IsScriptless ticks r laws) (now : ℕ) (k token : String) (s : r.State)
      → IsReleased now k token s (release_lock_with_transaction r task_name now k token s).1
  unfolding release_lock_with_transaction
  transaction_release e now k token s = elim (Option-cases (live now (entry s k))) [
    | inl free ↦
        λ j. ground (arith, e.has_pipeline, e.methods, e.watch now k s, e.watched_get now k s, free)
    | inr (t, taken) ↦ λ j. ground (
      arith,
      e.has_pipeline,
      e.methods,
      e.watch now k s,
      e.watched_get now k s,
      taken,
      e.delete_reply now k s,
      e.delete_entry now k j s,
    )
  ]

  scriptless_release :
      (e : IsScriptless ticks r laws) (now : ℕ) (key token : String) (s : r.State)
      → IsReleased now
          (lock_key r task_name key)
          token
          s
          (release_lock r task_name now key token s).1
  unfolding release_lock
  scriptless_release e now key token s =
      let k = lock_key r task_name key in
      let same : release_lock r task_name now key token s
          ≡ release_lock_with_transaction r task_name now k token s =
        ground (
          arith,
          run_lock_script-scriptless ticks r laws task_name e now (release_script k token) s,
          e.unsupported,
        ) in
      subst (λ x. IsReleased now k token s x.1) (sym same) (transaction_release e now k token s)

  release_lock-IsReleased :
      IsScripted ticks r laws ⊎ IsScriptless ticks r laws
      → (now : ℕ) (key token : String) (s : r.State)
      → IsReleased now
          (lock_key r task_name key)
          token
          s
          (release_lock r task_name now key token s).1
  release_lock-IsReleased (inl e) now key token s = scripted_release e now key token s
  release_lock-IsReleased (inr e) now key token s = scriptless_release e now key token s

  -- A reply as the store has it.
  abbrev as_reply : {A : Type 0} → Reply A → Manager.Reply A
  as_reply (reply a) = Manager.reply a
  as_reply (redis_error e) = Manager.failure
  as_reply failure = Manager.failure

  -- A `refresh_lock` that somebody calls.
  pub record Refresh : Type 0 where
    pub key : String
    pub token : String
    pub new_ttl : ℕ

  abbrev pub helper_store : LockStore
  helper_store = record {
    State = r.State;
    acquire = λ now key token ttl s.
        let (answer, s') = acquire_lock r task_name now key token ttl s in (as_reply answer, s');
    release = λ now key token s.
        let (answer, s') = release_lock r task_name now key token s in (as_reply answer, s');
    Refresh = Refresh;
    is_about = λ x key token. str_eq x.key key && str_eq x.token token;
    refresh = λ now x s. (refresh_lock r task_name now x.key x.token x.new_ttl s).1;
  }

  -- Refreshing with another token, or another key, leaves the lock.
  refreshed-live :
      (s : r.State) (now later ttl : ℕ) (k key t token : String)
      → (str_eq k key && str_eq t token) ≡ false
      → live now (entry s (lock_key r task_name key)) ≡ some token
      → live later (entry s (lock_key r task_name key)) ≡ some token
      → live later (
          if str_eq (lock_key r task_name k) (lock_key r task_name key)
            && is_held_by t (live now (entry s (lock_key r task_name k)))
          then lasting ticks now ttl t
          else entry s (lock_key r task_name key))
        ≡ some token
  refreshed-live s now later ttl k key t token other held held' = elim (Bool-cases (str_eq k key)) [
    | inl same ↦
        let e = ap (λ x. live now (entry s (lock_key r task_name x))) ((eq_iff k key).0 same) in
        ground (
          arith,
          lock_key-same r task_name k key,
          same,
          e,
          held,
          held',
          other,
          eq_iff token t,
          eq_iff t token,
        )
    | inr differ ↦ ground (arith, lock_key-same r task_name k key, differ, held')
  ]

  pub helper-LockLaws :
      IsScripted ticks r laws ⊎ IsScriptless ticks r laws → LockLaws ticks helper_store
  unfolding acquire_lock
  helper-LockLaws way = record {
    holder = λ now key s. live now (entry s (lock_key r task_name key));
    acquire_free = λ now ttl key token s positive free.
        let k = lock_key r task_name key in
        (
          ground (arith, free, laws.set_reply now ttl k token s positive),
          λ later j le. ground (
            arith,
            free,
            laws.set_reply now ttl k token s positive,
            laws.set_entry now ttl k token (lock_key r task_name j) s positive,
            lock_key-same r task_name key j,
          ),
        );
    acquire_held = λ now ttl key token t s positive taken.
        let k = lock_key r task_name key in
        (
          ground (arith, taken, laws.set_reply now ttl k token s positive),
          λ later j le. ground (
            arith,
            taken,
            laws.set_reply now ttl k token s positive,
            laws.set_entry now ttl k token (lock_key r task_name j) s positive,
          ),
        );
    release = λ now later key token j s le.
        ap (live later) (release_lock-IsReleased way now key token s (lock_key r task_name j))
        ∙ released-live (entry s) now later (lock_key r task_name key) token
            (lock_key r task_name j) le
        ∙ ap
            (λ b.
              if b && is_held_by token (live later (entry s (lock_key r task_name key)))
              then none
              else live later (entry s (lock_key r task_name j)))
            (lock_key-same r task_name key j);
    refresh = λ now later key token x s le other held held'.
        let (_, entries) =
          refresh_lock-extends ticks r laws task_name way now x.new_ttl x.key x.token s in
        ap (live later) (entries (lock_key r task_name key))
        ∙ refreshed-live s now later x.new_ttl x.key key x.token token other held held';
  }

  of_reply : {A : Type 0} (x : Reply A) (a : A) → as_reply x ≡ Manager.reply a → x ≡ reply a
  of_reply (reply b) a e = cc e
  of_reply (redis_error b) a e = cc e
  of_reply failure a e = cc e

  -- On a Redis with scripts or one without, after a call got the lock of a key, and after any calls
  -- in the order of the clock of which none releases or refreshes that key with that token and each
  -- acquires for some time, no other call gets the lock before its time is over. If the token then releases it,
  -- the next call gets it.
  pub acquire_lock-excludes :
      IsScripted ticks r laws ⊎ IsScriptless ticks r laws
      → (now ttl at again : ℕ) (key token other : String) (s : r.State)
        (events : List (Event helper_store))
      → 0 < ttl
      → 0 < again
      → at < now + ttl * ticks
      → (acquire_lock r task_name now key token ttl s).0 ≡ reply (some token)
      → AllForeign key token events
      → IsOrdered now events at
      → let s' = run ticks helper_store events (acquire_lock r task_name now key token ttl s).1 in
        ((acquire_lock r task_name at key other again s').0 ≡ reply none)
        × ((acquire_lock r task_name at key other again
              (release_lock r task_name at key token s').1).0
            ≡ reply (some other))
  acquire_lock-excludes way now ttl at again key token other s events positive some_time within got
        foreign ordered =
      let (refused, given) =
        store-excludes ticks helper_store (helper-LockLaws way) now ttl at again key token other s
          events positive some_time within (ap as_reply got) foreign ordered in
      (of_reply _ none refused, of_reply _ (some other) given)
