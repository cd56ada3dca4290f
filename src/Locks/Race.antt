-- ===== src/Locks/Race.antt =====
-- What a release of `LockManager` (src/scrapers/shop_dashboard/lock_manager.py) without the script can
-- do to another's lock.
use douyin_data_dashboard.Prelude.{
  ℕ, ◌+◌, ◌*◌, String, ◌≡◌, true, false, ◌&&◌, none, some, arith, eq_refl, ◌<◌,
}
use douyin_data_dashboard.Locks.Manager.{
  reply, LockRedis, LockManager, acquire, release, release_plainly,
}
use douyin_data_dashboard.Locks.Running.{live}
use douyin_data_dashboard.Locks.Backing.{LockRedisLaws}

module _ (ticks : ℕ) (r : LockRedis) (laws : LockRedisLaws ticks r) where
  open laws use {entry}

  -- On a Redis that does as documented, with a client that has no `eval`, a release that reads its
  -- token just before its time is over deletes the lock of another call, that got it before the
  -- release's second call: a third call then gets the lock, while the second's time is not over.
  pub release-loses_other :
      r.has_set ≡ true
      → r.has_eval ≡ false
      → (r.has_get && r.has_delete) ≡ true
      → (now between later ttl again : ℕ) (key token other third : String) (m : LockManager r)
      → 0 < ttl
      → 0 < again
      → live now (entry m.redis key) ≡ some token
      → live between (entry m.redis key) ≡ none
      → later < between + ttl * ticks
      → let taken = acquire ticks r between key other (some ttl) m in
        let m' =
          (release ticks r now later
            (λ s. (acquire ticks r between key other (some ttl) (record m { redis = s })).1.redis)
            key
            token
            m).1 in
        (taken.0 ≡ reply (some other))
        × (live later (entry taken.1.redis key) ≡ some other)
        × ((acquire ticks r later key third (some again) m').0 ≡ reply (some third))
  unfolding acquire release release_plainly
  release-loses_other sets no_eval reads now between later ttl again key token other third m
        positive some_time held over within =
      let set_reply = laws.set_reply between ttl key other m.redis positive in
      let set_entry = laws.set_entry between ttl key other key m.redis positive in
      let s1 = (r.set between key other ttl m.redis).1 in
      let s2 = (r.delete later key s1).1 in
      let deleted = laws.delete_entry later key key s1 in
      let left : live later (entry s2 key) ≡ none = ground (arith, deleted, eq_refl key) in
      (
        ground (arith, sets, positive, set_reply, over),
        ground (arith, sets, positive, set_entry, set_reply, over, within, eq_refl key),
        ground (
          arith,
          sets,
          no_eval,
          reads,
          positive,
          some_time,
          laws.get_reply now key m.redis,
          held,
          eq_refl token,
          left,
          laws.set_reply later again key third s2 some_time,
        ),
      )
