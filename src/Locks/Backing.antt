-- ===== src/Locks/Backing.antt =====
-- What keeps the locks of `LockManager` (src/scrapers/shop_dashboard/lock_manager.py): the memory of
-- the process, or a Redis that does as documented.
use douyin_data_dashboard.Prelude.{
  ℕ, ◌+◌, ◌*◌, String, true, false, ◌≡◌, ◌∙◌, ap, ◌&&◌, Option, none, some, arith, str_eq, eq_iff,
  if◌then◌else◌, ◌≤◌, ◌<◌,
}
use douyin_data_dashboard.Prelude.Dict.{lookup, lookup-put, lookup-pop, put}
use douyin_data_dashboard.Locks.Manager.{
  reply, LockRedis, LockManager, acquire, release, release_plainly, acquire_from_memory,
  release_from_memory, release_script,
}
use douyin_data_dashboard.Locks.Script.{Command, Value, Script, run_script}
use douyin_data_dashboard.Locks.Store.{LockStore, LockLaws, is_held_by}
use douyin_data_dashboard.Locks.Running.{live, CommandLaws, run_release}

-- A later reader of the entries that a release leaves.
pub released-live :
    (entry : String → Option (String × ℕ)) (now later : ℕ) (key token j : String)
    → now ≤ later
    → live later (if str_eq key j && is_held_by token (live now (entry key)) then none else entry j)
      ≡ (if str_eq key j && is_held_by token (live later (entry key))
          then none
          else live later (entry j))
released-live entry now later key token j le = ground (arith, le, eq_iff key j)

-- The client has nothing that keeps locks.
abbrev pub IsBare : LockRedis → Type 0
IsBare r = (r.has_set ≡ false) × (r.has_eval ≡ false) × ((r.has_get && r.has_delete) ≡ false)

-- Redis keeps a text under a key until its time is over. `set` with `nx` and `ex` writes where
-- nothing is kept, `get` reads, and `delete` removes.
pub record LockRedisLaws (ticks : ℕ) (r : LockRedis) : Type 0 where
  pub entry : r.State → String → Option (String × ℕ)
  pub set_reply :
      (now ttl : ℕ) (key token : String) (s : r.State)
      → 0 < ttl
      → (r.set now key token ttl s).0
        ≡ (elim (live now (entry s key)) [ some t ↦ reply false | none ↦ reply true ])
  pub set_entry :
      (now ttl : ℕ) (key token j : String) (s : r.State)
      → 0 < ttl
      → entry (r.set now key token ttl s).1 j ≡ (elim (live now (entry s key)) [
        | some t ↦ entry s j
        | none ↦ if str_eq key j then some (token, now + ttl * ticks) else entry s j
      ])
  pub get_reply :
      (now : ℕ) (key : String) (s : r.State) → r.get now key s ≡ (reply (live now (entry s key)), s)
  pub delete_reply : (now : ℕ) (key : String) (s : r.State) → (r.delete now key s).0 ≡ reply tt
  pub delete_entry :
      (now : ℕ) (key j : String) (s : r.State)
      → entry (r.delete now key s).1 j ≡ (if str_eq key j then none else entry s j)

-- The server runs every script that it gets, as calls of its commands.
pub record IsScripting (ticks : ℕ) (r : LockRedis) (laws : LockRedisLaws ticks r) : Type 0 where
  pub calls : ℕ → Command → r.State → Value × r.State
  pub commands : CommandLaws ticks r.State laws.entry calls
  pub eval_reply :
      (now : ℕ) (script : Script) (s : r.State)
      → (r.eval now script s).0 ≡ reply (run_script (calls now) script s).0
  pub eval_state :
      (now : ℕ) (script : Script) (s : r.State)
      → (r.eval now script s).1 ≡ (run_script (calls now) script s).1

-- In a release without the script, the time and the others' calls up to its second call.
module _ (ticks : ℕ) (r : LockRedis) (pause : ℕ) (meanwhile : r.State → r.State) where
  abbrev pub manager_store : LockStore
  manager_store = record {
    State = LockManager r;
    acquire = λ now key token ttl m. acquire ticks r now key token (some ttl) m;
    release = λ now key token m. release ticks r now (now + pause) meanwhile key token m;
    Refresh = ⊥;
    is_about = λ x key token. false;
    refresh = λ now x m. m;
  }

  module _ (bare : IsBare r) where
    bare_acquire :
        (now ttl : ℕ) (key token : String) (m : LockManager r)
        → 0 < ttl
        → acquire ticks r now key token (some ttl) m
          ≡ (elim (live now (lookup key m.memory_locks)) [
            | some t ↦ (reply none, m)
            | none ↦ (
              reply (some token),
              record m { memory_locks = put key (token, now + ttl * ticks) m.memory_locks },
            )
          ])
    unfolding acquire acquire_from_memory
    bare_acquire now ttl key token m positive = ground (arith, bare.0, positive)

    bare_release :
        (now later : ℕ) (key token j : String) (m : LockManager r)
        → live later
            (lookup j (release ticks r now (now + pause) meanwhile key token m).1.memory_locks)
          ≡ (if str_eq key j && is_held_by token (live later (lookup key m.memory_locks))
              then none
              else live later (lookup j m.memory_locks))
    unfolding release release_plainly release_from_memory
    bare_release now later key token j m =
        ground (arith, bare.1, bare.2, eq_iff key j, lookup-pop key j m.memory_locks)

    pub bare-LockLaws : LockLaws ticks manager_store
    bare-LockLaws = record {
      holder = λ now key m. live now (lookup key m.memory_locks);
      acquire_free = λ now ttl key token m positive free.
          let e = bare_acquire now ttl key token m positive in
          (
            ground (arith, e, free),
            λ later j le.
                ground (arith, e, free, lookup-put key j (token, now + ttl * ticks) m.memory_locks),
          );
      acquire_held = λ now ttl key token t m positive taken.
          let e = bare_acquire now ttl key token m positive in
          (ground (arith, e, taken), λ later j le. ground (arith, e, taken));
      release = λ now later key token j m le. bare_release now later key token j m;
      refresh = λ now later key token x m le other held held'. held';
    }

  module _ (sets : r.has_set ≡ true) (scripts : r.has_eval ≡ true) (laws : LockRedisLaws ticks r)
      (runs : IsScripting ticks r laws) where
    open laws use {entry}

    -- What a release leaves of the entries.
    release-entry :
        (now : ℕ) (key token j : String) (m : LockManager r)
        → entry (release ticks r now (now + pause) meanwhile key token m).1.redis j ≡ (
            if str_eq key j && is_held_by token (live now (entry m.redis key))
            then none
            else entry m.redis j)
    unfolding release release_script
    release-entry now key token j m =
        let ran =
          run_release ticks r.State entry runs.calls runs.commands now key token j m.redis in
        rw (scripts, runs.eval_reply now (release_script key token) m.redis)
          (ap (λ s. entry s j) (runs.eval_state now (release_script key token) m.redis) ∙ ran.1)

    pub shared-LockLaws : LockLaws ticks manager_store
    unfolding acquire
    shared-LockLaws = record {
      holder = λ now key m. live now (entry m.redis key);
      acquire_free = λ now ttl key token m positive free. (
        ground (arith, sets, positive, free, laws.set_reply now ttl key token m.redis positive),
        λ later j le. ground (
          arith,
          sets,
          positive,
          free,
          laws.set_reply now ttl key token m.redis positive,
          laws.set_entry now ttl key token j m.redis positive,
        ),
      );
      acquire_held = λ now ttl key token t m positive taken. (
        ground (arith, sets, positive, taken, laws.set_reply now ttl key token m.redis positive),
        λ later j le. ground (
          arith,
          sets,
          positive,
          taken,
          laws.set_reply now ttl key token m.redis positive,
          laws.set_entry now ttl key token j m.redis positive,
        ),
      );
      release = λ now later key token j m le.
          ap (live later) (release-entry now key token j m)
          ∙ released-live (entry m.redis) now later key token j le;
      refresh = λ now later key token x m le other held held'. held';
    }
