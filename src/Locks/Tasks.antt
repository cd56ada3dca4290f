-- ===== src/Locks/Tasks.antt =====
-- What the locks of `FunboostIdempotencyHelper` (src/shared/idempotency.py) do over a Redis with
-- scripts and over one without.
use mathlib.Core.Path.{subst}
use Prim.Native.String.{◌++◌ as append, []}
use text.Mathlib.TextLemmas.{nil-append, cons-append}
use douyin_data_dashboard.Prelude.{
  ℕ, ◌+◌, ◌*◌, String, Bool, true, false, ◌≡◌, sym, ◌∙◌, ap, ◌&&◌, Option, none, some, arith,
  str_eq, eq_iff, if◌then◌else◌, is_some, all, ◌<◌, ◌⊎◌, inl, inr, Bool-cases, List, ◌∷◌,
  Option-cases,
}
use douyin_data_dashboard.Locks.Idempotency.{
  Reply, reply, redis_error, refresh_script, TaskRedis, contains_method, is_eval_unsupported_error,
  lock_key, result_key, run_lock_script, refresh_lock, refresh_lock_with_transaction,
}
use douyin_data_dashboard.Locks.Store.{is_held_by}
use douyin_data_dashboard.Locks.Script.{Command, Value, Script, run_script, is_true}
use douyin_data_dashboard.Locks.Running.{live, lasting, CommandLaws, run_refresh}

append-injective : (p a b : String) → append p a ≡ append p b → a ≡ b
append-injective [] a b e = sym (nil-append a) ∙ e ∙ nil-append b
append-injective (String.◌∷◌ c p) a b e =
    let e' : String.◌∷◌ c (append p a) ≡ String.◌∷◌ c (append p b) =
      sym (cons-append c p a) ∙ e ∙ cons-append c p b in
    append-injective p a b (cc e')

under_prefix-same :
    (prefix task_name key j : String)
    → str_eq
        (append prefix (append task_name (append ":" key)))
        (append prefix (append task_name (append ":" j)))
      ≡ str_eq key j
under_prefix-same prefix task_name key j = elim (Bool-cases (str_eq key j)) [
  | inl e ↦
      (eq_iff _ _).1
        (ap (λ k. append prefix (append task_name (append ":" k))) ((eq_iff key j).0 e))
      ∙ sym e
  | inr ne ↦
      elim (Bool-cases (
        str_eq (append prefix (append task_name (append ":" key)))
          (append prefix (append task_name (append ":" j))))) [
            | inr other ↦ other ∙ sym ne
            | inl e ↦
                let same : key ≡ j = append-injective ":" key j (
                  append-injective task_name _ _
                    (append-injective prefix _ _ ((eq_iff _ _).0 e))) in
                ground (arith, (eq_iff key j).1 same, ne)
          ]
]

-- The keys of the locks differ where the tasks' keys do, and so do those of the results.
pub lock_key-same :
    (r : TaskRedis) (task_name key j : String)
    → str_eq (lock_key r task_name key) (lock_key r task_name j) ≡ str_eq key j
unfolding lock_key
lock_key-same r task_name key j = under_prefix-same "douyin:lock:" task_name key j

pub result_key-same :
    (r : TaskRedis) (task_name key j : String)
    → str_eq (result_key r task_name key) (result_key r task_name j) ≡ str_eq key j
unfolding result_key
result_key-same r task_name key j = under_prefix-same "douyin:result:" task_name key j

-- Redis keeps a text under a key until its time is over. `set` with `nx` and `ex` writes where
-- nothing is kept, `set` with `ex` alone writes, and neither takes a time to live of 0.
pub record TaskRedisLaws (ticks : ℕ) (r : TaskRedis) : Type 0 where
  pub entry : r.State → String → Option (String × ℕ)
  pub set_reply :
      (now ttl : ℕ) (key token : String) (s : r.State)
      → 0 < ttl
      → (r.set_nx now key token ttl s).0
        ≡ (elim (live now (entry s key)) [ some t ↦ reply false | none ↦ reply true ])
  pub set_entry :
      (now ttl : ℕ) (key token j : String) (s : r.State)
      → 0 < ttl
      → entry (r.set_nx now key token ttl s).1 j ≡ (elim (live now (entry s key)) [
        | some t ↦ entry s j
        | none ↦ if str_eq key j then some (token, now + ttl * ticks) else entry s j
      ])
  pub store_reply :
      (now ttl : ℕ) (key value : String) (s : r.State)
      → 0 < ttl
      → (r.set now key value ttl s).0 ≡ reply tt
  pub store_entry :
      (now ttl : ℕ) (key value j : String) (s : r.State)
      → 0 < ttl
      → entry (r.set now key value ttl s).1 j
        ≡ (if str_eq key j then some (value, now + ttl * ticks) else entry s j)
  pub store_refused :
      (now : ℕ) (key value : String) (s : r.State)
      → (text : Option String) × (r.set now key value 0 s ≡ (redis_error text, s))
  pub get_reply :
      (now : ℕ) (key : String) (s : r.State) → r.get now key s ≡ (reply (live now (entry s key)), s)

module _ (ticks : ℕ) (r : TaskRedis) (laws : TaskRedisLaws ticks r) where
  open laws use {entry}

  -- The server runs every script that it gets, as calls of its commands.
  pub record IsScripted : Type 0 where
    pub calls : ℕ → Command → r.State → Value × r.State
    pub commands : CommandLaws ticks r.State entry calls
    pub eval_reply :
        (now : ℕ) (script : Script) (s : r.State)
        → (r.eval now script s).0 ≡ reply (run_script (calls now) script s).0
    pub eval_state :
        (now : ℕ) (script : Script) (s : r.State)
        → (r.eval now script s).1 ≡ (run_script (calls now) script s).1

  -- No script runs, registered or not, and a transaction that nobody disturbs does.
  pub record IsScriptless : Type 0 where
    pub message : String
    pub unsupported : is_eval_unsupported_error (some message) ≡ true
    pub eval :
        (now : ℕ) (script : Script) (s : r.State)
        → r.eval now script s ≡ (redis_error (some message), s)
    pub registered :
        (now : ℕ) (script : Script) (s : r.State)
        → r.run_registered now script s ≡ (redis_error (some message), s)
    pub has_pipeline : r.has_pipeline ≡ true
    pub methods :
        all
          ("watch" ∷ "get" ∷ "multi" ∷ "expire" ∷ "delete" ∷ "execute" ∷ List.[])
          (contains_method r.methods)
        ≡ true
    pub watch : (now : ℕ) (key : String) (s : r.State) → r.watch now key s ≡ (reply tt, s)
    pub watched_get :
        (now : ℕ) (key : String) (s : r.State)
        → r.watched_get now key s ≡ (reply (live now (entry s key)), s)
    pub expire_reply :
        (now ttl : ℕ) (key : String) (s : r.State)
        → (r.execute_expire now key ttl s).0 ≡ reply (is_some (live now (entry s key)))
    pub expire_entry :
        (now ttl : ℕ) (key j : String) (s : r.State)
        → entry (r.execute_expire now key ttl s).1 j ≡ (elim (live now (entry s key)) [
          | some t ↦ if str_eq key j then lasting ticks now ttl t else entry s j
          | none ↦ entry s j
        ])
    pub delete_reply :
        (now : ℕ) (key : String) (s : r.State) → (r.execute_delete now key s).0 ≡ reply tt
    pub delete_entry :
        (now : ℕ) (key j : String) (s : r.State)
        → entry (r.execute_delete now key s).1 j ≡ (if str_eq key j then none else entry s j)

  module _ (task_name : String) where
    -- The script without scripts ends in the error that says so.
    pub run_lock_script-scriptless :
        (e : IsScriptless) (now : ℕ) (script : Script) (s : r.State)
        → run_lock_script r task_name now script s ≡ (redis_error (some e.message), s)
    unfolding run_lock_script
    run_lock_script-scriptless e now script s =
        ground (arith, e.eval now script s, e.registered now script s)

    -- What a refresh answers and leaves.
    abbrev pub IsRefreshed : ℕ → ℕ → String → String → r.State → Reply Bool × r.State → Type 0
    IsRefreshed now ttl k token s (answer, s') =
        (answer ≡ reply (is_held_by token (live now (entry s k))))
        × ((j : String)
            → entry s' j ≡ (
                if str_eq k j && is_held_by token (live now (entry s k))
                then lasting ticks now ttl token
                else entry s j))

    scripted_refresh :
        (e : IsScripted) (now ttl : ℕ) (key token : String) (s : r.State)
        → IsRefreshed now ttl
            (lock_key r task_name key)
            token
            s
            (refresh_lock r task_name now key token ttl s)
    unfolding refresh_lock run_lock_script refresh_script
    scripted_refresh e now ttl key token s =
        let k = lock_key r task_name key in
        let script = refresh_script k token ttl in
        let answered = e.eval_reply now script s in
        let replied : (refresh_lock r task_name now key token ttl s).0
            ≡ reply (is_true (run_script (e.calls now) script s).0) =
          ground (arith, answered) in
        let left : (refresh_lock r task_name now key token ttl s).1
            ≡ (run_script (e.calls now) script s).1 =
          ground (arith, answered, e.eval_state now script s) in
        (
          replied
              ∙ ap reply (run_refresh ticks r.State entry e.calls e.commands now ttl k token k s).0,
          λ j.
              ap (λ t. entry t j) left
              ∙ (run_refresh ticks r.State entry e.calls e.commands now ttl k token j s).1,
        )

    transaction_refresh :
        (e : IsScriptless) (now ttl : ℕ) (k token : String) (s : r.State)
        → IsRefreshed now ttl k token s
            (refresh_lock_with_transaction r task_name now k token ttl s)
    unfolding refresh_lock_with_transaction
    transaction_refresh e now ttl k token s = elim (Option-cases (live now (entry s k))) [
      | inl free ↦ (
        ground (arith, e.has_pipeline, e.methods, e.watch now k s, e.watched_get now k s, free),
        λ j.
            ground (arith, e.has_pipeline, e.methods, e.watch now k s, e.watched_get now k s, free),
      )
      | inr (t, taken) ↦ (
        ground (
          arith,
          e.has_pipeline,
          e.methods,
          e.watch now k s,
          e.watched_get now k s,
          taken,
          e.expire_reply now ttl k s,
        ),
        λ j. ground (
          arith,
          e.has_pipeline,
          e.methods,
          e.watch now k s,
          e.watched_get now k s,
          taken,
          e.expire_reply now ttl k s,
          e.expire_entry now ttl k j s,
          eq_iff t token,
        ),
      )
    ]

    scriptless_refresh :
        (e : IsScriptless) (now ttl : ℕ) (key token : String) (s : r.State)
        → IsRefreshed now ttl
            (lock_key r task_name key)
            token
            s
            (refresh_lock r task_name now key token ttl s)
    unfolding refresh_lock
    scriptless_refresh e now ttl key token s =
        let k = lock_key r task_name key in
        let same : refresh_lock r task_name now key token ttl s
            ≡ refresh_lock_with_transaction r task_name now k token ttl s =
          ground (
            arith,
            run_lock_script-scriptless e now (refresh_script k token ttl) s,
            e.unsupported,
          ) in
        subst (IsRefreshed now ttl k token s) (sym same) (transaction_refresh e now ttl k token s)

    -- On a Redis with scripts or one without, refreshing a lock answers whether its token holds it,
    -- and then, and only then, gives it the new time to live, which ends it at once where it is 0.
    -- Other keys stay as they are.
    pub refresh_lock-extends :
        IsScripted ⊎ IsScriptless
        → (now ttl : ℕ) (key token : String) (s : r.State)
        → let k = lock_key r task_name key in
          let owned = is_held_by token (live now (entry s k)) in
          ((refresh_lock r task_name now key token ttl s).0 ≡ reply owned)
          × ((j : String)
              → entry (refresh_lock r task_name now key token ttl s).1 j
                ≡ (if str_eq k j && owned then lasting ticks now ttl token else entry s j))
    refresh_lock-extends (inl e) now ttl key token s = scripted_refresh e now ttl key token s
    refresh_lock-extends (inr e) now ttl key token s = scriptless_refresh e now ttl key token s
