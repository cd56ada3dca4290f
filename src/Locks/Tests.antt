-- ===== src/Locks/Tests.antt =====
-- The locks at concrete inputs, with a function from keys to entries for Redis.
use douyin_data_dashboard.Prelude.{
  ℕ, ◌+◌, ◌*◌, String, ◌≡◌, refl, true, false, Option, none, some, [], ◌∷◌, arith, str_eq, inr,
  if◌then◌else◌, is_some,
}
use douyin_data_dashboard.Locks.Manager.{reply, LockRedis, LockManager, acquire, release}
use douyin_data_dashboard.Locks.Store.{acquiring, releasing, run}
use douyin_data_dashboard.Locks.Backing.{LockRedisLaws, IsScripting, manager_store}
use douyin_data_dashboard.Locks.Running.{live, lasting, CommandLaws}
use douyin_data_dashboard.Locks.Script.{
  Command, get_key, del_key, expire_key, Value, nil, text, number, run_script,
}
use douyin_data_dashboard.Locks.Race.{release-loses_other}
use douyin_data_dashboard.Locks.Exclusion.{acquire-excludes}

abbrev pub Entries : Type 0
Entries = String → Option (String × ℕ)

abbrev pub write : String → Option (String × ℕ) → Entries → Entries
write key e s j = if str_eq key j then e else s j

-- A script's command.
abbrev pub calls : ℕ → Command → Entries → Value × Entries
calls now (get_key key) s = (elim (live now (s key)) [ some t ↦ text t | none ↦ nil ], s)
calls now (del_key key) s = (number (if is_some (live now (s key)) then 1 else 0), write key none s)
calls now (expire_key key ttl) s = elim (live now (s key)) [
  | some t ↦ (number 1, write key (lasting 1 now ttl t) s)
  | none ↦ (number 0, s)
]

pub calls_laws : CommandLaws 1 Entries (λ s. s) calls
calls_laws = record {
  get = λ now key s. refl;
  del_reply = λ now key s. refl;
  del_entry = λ now key j s. refl;
  expire_reply = λ now ttl key s. ground arith;
  expire_entry = λ now ttl key j s. ground arith;
}

abbrev entries : LockRedis
entries = record {
  State = Entries;
  has_set = true;
  has_eval = true;
  has_get = true;
  has_delete = true;
  set = λ now key token ttl s. elim (live now (s key)) [
    | some t ↦ (reply false, s)
    | none ↦ (reply true, write key (some (token, now + ttl * 1)) s)
  ];
  eval = λ now script s. let (v, s') = run_script (calls now) script s in (reply v, s');
  get = λ now key s. (reply (live now (s key)), s);
  delete = λ now key s. (reply tt, write key none s);
}

entries_laws : LockRedisLaws 1 entries
entries_laws = record {
  entry = λ s. s;
  set_reply = λ now ttl key token s positive. ground arith;
  set_entry = λ now ttl key token j s positive. ground arith;
  get_reply = λ now key s. refl;
  delete_reply = λ now key s. refl;
  delete_entry = λ now key j s. refl;
}

entries-IsScripting : IsScripting 1 entries entries_laws
unfolding entries_laws
entries-IsScripting = record {
  calls = calls;
  commands = calls_laws;
  eval_reply = λ now script s. refl;
  eval_state = λ now script s. refl;
}

abbrev manager : LockManager entries
manager = record { lock_ttl_seconds = 60; redis = λ j. none; memory_locks = [] }

-- Another token tries the lock and tries to release it, and a third takes another shop's.
acquire-excludes_example :
    let m' =
      run 1
        (manager_store 1 entries 0 (λ s. s))
        (record { at = 101; call = acquiring "shop:1" "b" 30 }
          ∷ (record { at = 102; call = releasing "shop:1" "b" })
          ∷ (record { at = 102; call = acquiring "shop:2" "c" 30 })
          ∷ [])
        (acquire 1 entries 100 "shop:1" "a" (some 30) manager).1 in
    ((acquire 1 entries 120 "shop:1" "d" (some 30) m').0 ≡ reply none)
    × ((acquire 1 entries 120 "shop:1" "d"
          (some 30)
          (release 1 entries 120 120 (λ s. s) "shop:1" "a" m').1).0
        ≡ reply (some "d"))
unfolding acquire
acquire-excludes_example =
    acquire-excludes 1 entries 0 (λ s. s) (inr (refl, refl, (entries_laws, entries-IsScripting)))
      100 30 120 30 "shop:1" "a" "d" manager
      (record { at = 101; call = acquiring "shop:1" "b" 30 }
        ∷ (record { at = 102; call = releasing "shop:1" "b" })
        ∷ (record { at = 102; call = acquiring "shop:2" "c" 30 })
        ∷ [])
      (omega arith) (omega arith) (omega arith) refl (omega arith, (refl, (omega arith, tt)))
      (omega arith, (omega arith, (omega arith, omega arith)))

-- The same Redis behind a client that has no `eval`.
abbrev plain_entries : LockRedis
plain_entries = record entries { has_eval = false }

plain_entries_laws : LockRedisLaws 1 plain_entries
plain_entries_laws = record {
  entry = λ s. s;
  set_reply = λ now ttl key token s positive. ground arith;
  set_entry = λ now ttl key token j s positive. ground arith;
  get_reply = λ now key s. refl;
  delete_reply = λ now key s. refl;
  delete_entry = λ now key j s. refl;
}

-- "a" got the lock at 100 for 10, and its release reads it at 109 and deletes at 111.
abbrev late : LockManager plain_entries
late = record {
  lock_ttl_seconds = 60;
  redis = write "shop:1" (some ("a", 110)) (λ j. none);
  memory_locks = [];
}

release-loses_other_example :
    let taken = acquire 1 plain_entries 110 "shop:1" "b" (some 30) late in
    let m' =
      (release 1 plain_entries 109 111
        (λ s.
          (acquire 1 plain_entries 110 "shop:1" "b" (some 30) (record late { redis = s })).1.redis)
        "shop:1"
        "a"
        late).1 in
    (taken.0 ≡ reply (some "b"))
    × (live 111 (taken.1.redis "shop:1") ≡ some "b")
    × ((acquire 1 plain_entries 111 "shop:1" "c" (some 30) m').0 ≡ reply (some "c"))
unfolding plain_entries_laws
release-loses_other_example =
    release-loses_other 1 plain_entries plain_entries_laws refl refl refl 109 110 111 30 30 "shop:1"
      "a" "b" "c" late (omega arith) (omega arith) refl refl (omega arith)
