-- ===== src/Locks/Exclusion.antt =====
-- Who gets a lock of `LockManager` (src/scrapers/shop_dashboard/lock_manager.py), and when.
use douyin_data_dashboard.Prelude.{
  ℕ, ◌+◌, ◌*◌, String, ◌≡◌, true, none, some, List, ◌<◌, ◌⊎◌, inl, inr,
}
use douyin_data_dashboard.Locks.Manager.{reply, LockRedis, LockManager, acquire, release}
use douyin_data_dashboard.Locks.Store.{LockLaws, Event, IsOrdered, AllForeign, run, store-excludes}
use douyin_data_dashboard.Locks.Backing.{
  IsBare, LockRedisLaws, IsScripting, manager_store, bare-LockLaws, shared-LockLaws,
}

module _ (ticks : ℕ) (r : LockRedis) where
  -- The locks are in the memory of the process, or in a Redis that does as documented and runs
  -- scripts.
  abbrev pub IsBacked : Type 0
  IsBacked =
      IsBare r
      ⊎ ((r.has_set ≡ true)
          × (r.has_eval ≡ true)
          × ((laws : LockRedisLaws ticks r) × IsScripting ticks r laws))

  module _ (pause : ℕ) (meanwhile : r.State → r.State) where
    backed-LockLaws : IsBacked → LockLaws ticks (manager_store ticks r pause meanwhile)
    backed-LockLaws (inl bare) = bare-LockLaws ticks r pause meanwhile bare
    backed-LockLaws (inr (sets, scripts, (laws, runs))) =
        shared-LockLaws ticks r pause meanwhile sets scripts laws runs

    -- Where the locks are in the memory of the process, or in a Redis that does as documented and
    -- runs scripts, after a call got the lock of a key, and after any calls in the order of the clock
    -- of which none releases that key with that token and each acquires for some time, no other call
    -- gets the lock before its time is over. If the token then releases it, the next call gets it.
    pub acquire-excludes :
        IsBacked
        → (now ttl at again : ℕ) (key token other : String) (m : LockManager r)
          (events : List (Event (manager_store ticks r pause meanwhile)))
        → 0 < ttl
        → 0 < again
        → at < now + ttl * ticks
        → (acquire ticks r now key token (some ttl) m).0 ≡ reply (some token)
        → AllForeign key token events
        → IsOrdered now events at
        → let m' =
            run ticks
              (manager_store ticks r pause meanwhile)
              events
              (acquire ticks r now key token (some ttl) m).1 in
          ((acquire ticks r at key other (some again) m').0 ≡ reply none)
          × ((acquire ticks r at key other
                (some again)
                (release ticks r at (at + pause) meanwhile key token m').1).0
              ≡ reply (some other))
    acquire-excludes backed =
        store-excludes ticks (manager_store ticks r pause meanwhile) (backed-LockLaws backed)
