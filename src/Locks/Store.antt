-- ===== src/Locks/Store.antt =====
-- What a store of locks promises, as `LockManager` (src/scrapers/shop_dashboard/lock_manager.py) and
-- the helper of src/shared/idempotency.py are such stores.
use douyin_data_dashboard.Prelude.{
  ℕ, ◌+◌, ◌*◌, String, Bool, ◌≡◌, ◌∙◌, false, ◌&&◌, Option, none, some, List, [], ◌∷◌, arith,
  str_eq, eq_iff, eq_refl, ltb, if◌then◌else◌, ◌≤◌, ◌<◌, All, Option-cases, inl, inr,
}
use douyin_data_dashboard.Locks.Manager.{Reply, reply}

pub record LockStore : Type 1 where
  pub State : Type 0
  pub acquire : ℕ → String → String → ℕ → State → Reply (Option String) × State
  pub release : ℕ → String → String → State → Reply (Unit {0}) × State
  -- The calls that give a lock a new time to live, and whether one is about a key and a token.
  pub Refresh : Type 0
  pub is_about : Refresh → String → String → Bool
  pub refresh : ℕ → Refresh → State → State

abbrev pub is_held_by : String → Option String → Bool
is_held_by token none = false
is_held_by token (some t) = str_eq t token

-- Whose lock is on a key at a moment, and what the operations do to it.
pub record LockLaws (ticks : ℕ) (l : LockStore) : Type 0 where
  pub holder : ℕ → String → l.State → Option String
  pub acquire_free :
      (now ttl : ℕ) (key token : String) (s : l.State)
      → 0 < ttl
      → holder now key s ≡ none
      → ((l.acquire now key token ttl s).0 ≡ reply (some token))
        × ((later : ℕ) (j : String)
            → now ≤ later
            → holder later j (l.acquire now key token ttl s).1 ≡ (
                if str_eq key j
                then (if ltb later (now + ttl * ticks) then some token else none)
                else holder later j s))
  pub acquire_held :
      (now ttl : ℕ) (key token t : String) (s : l.State)
      → 0 < ttl
      → holder now key s ≡ some t
      → ((l.acquire now key token ttl s).0 ≡ reply none)
        × ((later : ℕ) (j : String)
            → now ≤ later
            → holder later j (l.acquire now key token ttl s).1 ≡ holder later j s)
  pub release :
      (now later : ℕ) (key token j : String) (s : l.State)
      → now ≤ later
      → holder later j (l.release now key token s).1
        ≡ (if str_eq key j && is_held_by token (holder later key s) then none else holder later j s)
  pub refresh :
      (now later : ℕ) (key token : String) (x : l.Refresh) (s : l.State)
      → now ≤ later
      → l.is_about x key token ≡ false
      → holder now key s ≡ some token
      → holder later key s ≡ some token
      → holder later key (l.refresh now x s) ≡ some token

-- A call that somebody makes of the store.
pub data Call (l : LockStore) : Type 0 where
  acquiring : String → String → ℕ → Call l
  releasing : String → String → Call l
  refreshing : l.Refresh → Call l

pub record Event (l : LockStore) : Type 0 where
  pub at : ℕ
  pub call : Call l

-- The calls come in the order of the clock, from `now` on and not after `last`.
abbrev pub IsOrdered : {l : LockStore} → ℕ → List (Event l) → ℕ → Type 0
IsOrdered now [] last = now ≤ last
IsOrdered now (e ∷ es) last = (now ≤ e.at) × IsOrdered e.at es last

-- The call neither releases nor refreshes the key with the token, and acquires for some time.
abbrev pub IsForeign : {l : LockStore} → String → String → Call l → Type 0
IsForeign key token (acquiring k t ttl) = 0 < ttl
IsForeign key token (releasing k t) = (str_eq k key && str_eq t token) ≡ false
IsForeign {l} key token (refreshing x) = l.is_about x key token ≡ false

abbrev pub AllForeign : {l : LockStore} → String → String → List (Event l) → Type 0
AllForeign {l} key token es = All (λ (e : Event l). IsForeign key token e.call) es

last-IsOrdered :
    {l : LockStore} (es : List (Event l)) (now last : ℕ) → IsOrdered now es last → now ≤ last
last-IsOrdered [] now last h = h
last-IsOrdered (e ∷ es) now last h = omega (arith, h.0, last-IsOrdered es e.at last h.1)

module _ (ticks : ℕ) (l : LockStore) where
  abbrev pub step : ℕ → Call l → l.State → l.State
  step at (acquiring key token ttl) s = (l.acquire at key token ttl s).1
  step at (releasing key token) s = (l.release at key token s).1
  step at (refreshing x) s = l.refresh at x s

  abbrev pub run : List (Event l) → l.State → l.State
  run [] s = s
  run (e ∷ es) s = run es (step e.at e.call s)

  module _ (laws : LockLaws ticks l) (key token : String) where
    open laws use {holder}

    -- The token holds the key from a moment to another.
    abbrev pub IsHeld : ℕ → ℕ → l.State → Type 0
    IsHeld from last s = (later : ℕ) → from ≤ later → later ≤ last → holder later key s ≡ some token

    -- A foreign call leaves the lock where it is.
    step-IsHeld :
        (from at last : ℕ) (call : Call l) (s : l.State)
        → IsForeign key token call
        → from ≤ at
        → at ≤ last
        → IsHeld from last s
        → IsHeld at last (step at call s)
    step-IsHeld from at last (acquiring k t ttl) s foreign le le' held =
        elim (Option-cases (holder at k s)) [
          | inl free ↦ λ later a b.
              (laws.acquire_free at ttl k t s foreign free).1 later key a
              ∙ ground
                  (arith, eq_iff k key, held at le le', held later (omega (arith, le, a)) b, free)
          | inr (other, taken) ↦ λ later a b.
              (laws.acquire_held at ttl k t other s foreign taken).1 later key a
              ∙ held later (omega (arith, le, a)) b
        ]
    step-IsHeld from at last (releasing k t) s foreign le le' held = λ later a b.
        laws.release at later k t key s a
        ∙ ground (
          arith,
          eq_iff k key,
          eq_iff t token,
          eq_iff token t,
          foreign,
          held later (omega (arith, le, a)) b,
        )
    step-IsHeld from at last (refreshing x) s foreign le le' held = λ later a b.
        laws.refresh at later key token x s a foreign (held at le le')
          (held later (omega (arith, le, a)) b)

    run-IsHeld :
        (es : List (Event l)) (from at last : ℕ) (s : l.State)
        → AllForeign key token es
        → IsOrdered from es at
        → at ≤ last
        → IsHeld from last s
        → IsHeld at last (run es s)
    run-IsHeld [] from at last s foreign ordered le held =
        λ later a b. held later (omega (arith, ordered, a)) b
    run-IsHeld (e ∷ es) from at last s foreign ordered le held =
        run-IsHeld es e.at at last (step e.at e.call s) foreign.1 ordered.1 le (
          step-IsHeld from e.at last e.call s foreign.0 ordered.0
            (omega (arith, last-IsOrdered es e.at at ordered.1, le)) held)

    -- A call that got the lock holds it until its time is over.
    acquired-IsHeld :
        (now ttl at : ℕ) (s : l.State)
        → 0 < ttl
        → at < now + ttl * ticks
        → (l.acquire now key token ttl s).0 ≡ reply (some token)
        → IsHeld now at (l.acquire now key token ttl s).1
    acquired-IsHeld now ttl at s positive within got = elim (Option-cases (holder now key s)) [
      | inl free ↦ λ later a b.
          (laws.acquire_free now ttl key token s positive free).1 later key a
          ∙ ground (arith, eq_refl key, within, b)
      | inr (other, taken) ↦
          let refused = (laws.acquire_held now ttl key token other s positive taken).0 in
          ground (arith, refused, got)
    ]

  -- The store gives a lock to one token at a time, and to the next one once it is released.
  pub store-excludes :
      LockLaws ticks l
      → (now ttl at again : ℕ) (key token other : String) (s : l.State) (events : List (Event l))
      → 0 < ttl
      → 0 < again
      → at < now + ttl * ticks
      → (l.acquire now key token ttl s).0 ≡ reply (some token)
      → AllForeign key token events
      → IsOrdered now events at
      → let s' = run events (l.acquire now key token ttl s).1 in
        ((l.acquire at key other again s').0 ≡ reply none)
        × ((l.acquire at key other again (l.release at key token s').1).0 ≡ reply (some other))
  store-excludes laws now ttl at again key token other s events positive some_time within got
        foreign ordered =
      let s1 = (l.acquire now key token ttl s).1 in
      let s' = run events s1 in
      let held =
        run-IsHeld laws key token events now at at s1 foreign ordered (omega arith)
          (acquired-IsHeld laws key token now ttl at s positive within got) at (omega arith)
          (omega arith) in
      let freed : laws.holder at key (l.release at key token s').1 ≡ none =
        laws.release at at key token key s' (omega arith)
        ∙ ground (arith, eq_refl key, eq_refl token, held) in
      (
        (laws.acquire_held at again key other token s' some_time held).0,
        (laws.acquire_free at again key other (l.release at key token s').1 some_time freed).0,
      )
