-- ===== src/Locks/Running.antt =====
-- What the scripts of src/scrapers/shop_dashboard/lock_manager.py and src/shared/idempotency.py do
-- on a server whose commands do as documented.
use douyin_data_dashboard.Prelude.{
  ℕ, ◌+◌, ◌*◌, String, ◌≡◌, ◌&&◌, Option, none, some, arith, str_eq, eq_iff, ltb, if◌then◌else◌,
  is_some, Option-cases, inl, inr,
}
use douyin_data_dashboard.Locks.Script.{
  Command, get_key, del_key, expire_key, Value, nil, text, number, Script, end_with, call,
  run_script, is_text, is_true,
}
use douyin_data_dashboard.Locks.Store.{is_held_by}

-- The token of an entry, while it lasts.
abbrev pub live : ℕ → Option (String × ℕ) → Option String
live now none = none
live now (some (token, until)) = if ltb now until then some token else none

-- `if redis.call('get', key) == token then return <command> else return 0 end`
abbrev pub if_held : String → String → Command → Script
if_held key token c =
    call (get_key key)
      (λ v. if is_text token v then call c (λ w. end_with w) else end_with (number 0))

-- An entry that gets a time to live; with none it is gone at once.
abbrev pub lasting : ℕ → ℕ → ℕ → String → Option (String × ℕ)
lasting ticks now ttl token = if ltb 0 ttl then some (token, now + ttl * ticks) else none

-- Redis's `GET`, `DEL` and `EXPIRE`, on texts that are kept under keys until their times are over.
pub record CommandLaws (ticks : ℕ) (S : Type 0) (entry : S → String → Option (String × ℕ))
    (calls : ℕ → Command → S → Value × S) : Type 0 where
  pub get :
      (now : ℕ) (key : String) (s : S)
      → calls now (get_key key) s
        ≡ (elim (live now (entry s key)) [ some t ↦ text t | none ↦ nil ], s)
  pub del_reply :
      (now : ℕ) (key : String) (s : S)
      → (calls now (del_key key) s).0 ≡ number (if is_some (live now (entry s key)) then 1 else 0)
  pub del_entry :
      (now : ℕ) (key j : String) (s : S)
      → entry (calls now (del_key key) s).1 j ≡ (if str_eq key j then none else entry s j)
  pub expire_reply :
      (now ttl : ℕ) (key : String) (s : S)
      → (calls now (expire_key key ttl) s).0
        ≡ number (if is_some (live now (entry s key)) then 1 else 0)
  pub expire_entry :
      (now ttl : ℕ) (key j : String) (s : S)
      → entry (calls now (expire_key key ttl) s).1 j ≡ (elim (live now (entry s key)) [
        | some t ↦ if str_eq key j then lasting ticks now ttl t else entry s j
        | none ↦ entry s j
      ])

module _ (ticks : ℕ) (S : Type 0) (entry : S → String → Option (String × ℕ))
    (calls : ℕ → Command → S → Value × S) (laws : CommandLaws ticks S entry calls) where
  -- The script that deletes what its token holds.
  pub run_release :
      (now : ℕ) (key token j : String) (s : S)
      → let (v, s') = run_script (calls now) (if_held key token (del_key key)) s in
        let held = is_held_by token (live now (entry s key)) in
        (is_true v ≡ held) × (entry s' j ≡ (if str_eq key j && held then none else entry s j))
  run_release now key token j s = elim (Option-cases (live now (entry s key))) [
    | inl free ↦
        (ground (arith, laws.get now key s, free), ground (arith, laws.get now key s, free))
    | inr (t, taken) ↦ (
      ground (arith, laws.get now key s, taken, laws.del_reply now key s),
      ground (arith, laws.get now key s, taken, laws.del_entry now key j s),
    )
  ]

  -- The script that gives what its token holds a new time to live.
  pub run_refresh :
      (now ttl : ℕ) (key token j : String) (s : S)
      → let (v, s') = run_script (calls now) (if_held key token (expire_key key ttl)) s in
        let held = is_held_by token (live now (entry s key)) in
        (is_true v ≡ held)
        × (entry s' j ≡ (if str_eq key j && held then lasting ticks now ttl token else entry s j))
  run_refresh now ttl key token j s = elim (Option-cases (live now (entry s key))) [
    | inl free ↦
        (ground (arith, laws.get now key s, free), ground (arith, laws.get now key s, free))
    | inr (t, taken) ↦ (
      ground (arith, laws.get now key s, taken, laws.expire_reply now ttl key s),
      ground (arith, laws.get now key s, taken, laws.expire_entry now ttl key j s, eq_iff t token),
    )
  ]
