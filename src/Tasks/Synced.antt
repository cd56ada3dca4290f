-- ===== src/Tasks/Synced.antt =====
-- What a sequence of status reports leaves in the table, for `_sync_execution_status_async` of
-- src/tasks/status_store.py.
use mathlib.Core.Path.{subst}
use douyin_data_dashboard.Prelude.{
  ℕ, ◌<◌, ◌==◌, ◌≡◌, refl, sym, ap, ◌∙◌, Bool, true, false, Option, none, some, is_some, List, [],
  ◌∷◌, map, All, arith, if◌then◌else◌, Bool-cases, Option-cases, inl, inr, or_else, String, str_eq,
  eq_iff,
}
use douyin_data_dashboard.Tasks.Tables.{
  TaskExecutionStatus, TaskExecution, Tables, first_row, has_queue_id, get_by_queue_task_id,
  kept_or, kept_or_some, change_execution, update_execution_row,
}
use douyin_data_dashboard.Tasks.Valid.{IsGrowing, first_row-some}
use douyin_data_dashboard.Tasks.Kept.{IsGrowing-map, replaced_same}
use douyin_data_dashboard.Tasks.Status.{StatusUpdate, changes_for, sync_row, sync_execution_status}

-- The reports of one queue id, in their order.
unfoldable pub sync_all :
    {Config Payload : Type 0}
    → String
    → List StatusUpdate
    → Tables Config Payload
    → Tables Config Payload
sync_all queue_task_id [] t = t
sync_all queue_task_id (u ∷ us) t =
    sync_all queue_task_id us (sync_execution_status queue_task_id u t)

-- The last value given, or else the old one; the first value known.
abbrev pub last_given {ℓ} :
    {A : Type ℓ} → (StatusUpdate → Option A) → List StatusUpdate → Option A → Option A
last_given field [] old = old
last_given field (u ∷ us) old = last_given field us (kept_or_some (field u) old)

abbrev pub last_status : List StatusUpdate → TaskExecutionStatus → TaskExecutionStatus
last_status [] old = old
last_status (u ∷ us) old = last_status us u.status

abbrev pub first_known : List StatusUpdate → Option ℕ → Option ℕ
first_known [] old = old
first_known (u ∷ us) old = first_known us (if is_some old then old else u.triggered_by)

-- What becomes of a row.
abbrev pub reported :
    {Payload : Type 0} → List StatusUpdate → TaskExecution Payload → TaskExecution Payload
reported us row = record row {
  status = last_status us row.status;
  started_at = last_given (λ u. u.started_at) us row.started_at;
  completed_at = last_given (λ u. u.completed_at) us row.completed_at;
  processed_rows = or_else (last_given (λ u. u.processed_rows) us (some row.processed_rows)) 0;
  error_message = last_given (λ u. u.error_message) us row.error_message;
  triggered_by = first_known us row.triggered_by;
}

-- A list with its first row that passes a test replaced.
abbrev swap : {A : Type 0} → (A → Bool) → A → List A → List A
swap p new [] = []
swap p new (x ∷ xs) = if p x then new ∷ xs else x ∷ swap p new xs

All-first_row :
    {A : Type 0} (P : A → Type 0) (p : A → Bool) (xs : List A) (x : A)
    → All P xs
    → first_row p xs ≡ some x
    → P x
All-first_row P p [] x h e = cc
All-first_row P p (y ∷ xs) x h e = elim (Bool-cases (p y)) [
  | inl hit ↦ subst P (ap (λ o. or_else o y) (rw hit at e)) h.0
  | inr miss ↦ All-first_row P p xs x h.1 (rw miss at e)
]

module _ {Payload : Type 0} where
  map_above :
      (rows : List (TaskExecution Payload)) (id : ℕ) (updated : TaskExecution Payload)
      → All (λ r. id < r.id) rows
      → map (λ r. if r.id == id then updated else r) rows ≡ rows
  map_above [] id updated h = refl
  map_above (r ∷ rows) id updated h =
      let other : (r.id == id) ≡ false = ground (arith, h) in
      rw other (ap (λ rs. r ∷ rs) (map_above rows id updated h.1))

  map-swap :
      (p : TaskExecution Payload → Bool) (rows : List (TaskExecution Payload))
      (row updated : TaskExecution Payload)
      → first_row p rows ≡ some row
      → IsGrowing (λ r. r.id) rows
      → map (λ r. if r.id == row.id then updated else r) rows ≡ swap p updated rows
  map-swap p [] row updated e h = refl
  map-swap p (r ∷ rows) row updated e h = elim (Bool-cases (p r)) [
    | inl hit ↦
        let found : r ≡ row = ap (λ o. or_else o r) (rw hit at e) in
        let same : (r.id == row.id) ≡ true =
          ground (arith, ap (λ (q : TaskExecution Payload). q.id) found) in
        let above =
          subst (λ n. All (λ q. n < q.id) rows) (ap (λ (q : TaskExecution Payload). q.id) found)
            h.0 in
        rw (same, hit) (ap (λ rs. updated ∷ rs) (map_above rows row.id updated above))
    | inr miss ↦
        let below = All-first_row (λ q. r.id < q.id) p rows row h.0 (rw miss at e) in
        let other : (r.id == row.id) ≡ false = ground arith in
        rw (other, miss) (ap (λ rs. r ∷ rs) (map-swap p rows row updated (rw miss at e) h.1))
  ]

  first_row-swap :
      (p : TaskExecution Payload → Bool) (rows : List (TaskExecution Payload))
      (row updated : TaskExecution Payload)
      → first_row p rows ≡ some row
      → p updated ≡ true
      → first_row p (swap p updated rows) ≡ some updated
  first_row-swap p [] row updated e hit = cc
  first_row-swap p (r ∷ rows) row updated e hit = elim (Bool-cases (p r)) [
    | inl here ↦ rw (here, hit) refl
    | inr miss ↦ rw (miss, miss) (first_row-swap p rows row updated (rw miss at e) hit)
  ]

  first_row-swap_other :
      (p q : TaskExecution Payload → Bool) (rows : List (TaskExecution Payload))
      (updated : TaskExecution Payload)
      → ((r : TaskExecution Payload) → p r ≡ true → q r ≡ false)
      → q updated ≡ false
      → first_row q (swap p updated rows) ≡ first_row q rows
  first_row-swap_other p q [] updated apart miss = refl
  first_row-swap_other p q (r ∷ rows) updated apart miss = elim (Bool-cases (p r)) [
    | inl here ↦ let not_it = apart r here in rw (here, miss, not_it) refl
    | inr away ↦ elim (Bool-cases (q r)) [
      | inl first ↦ rw (away, first) refl
      | inr later ↦ rw (away, later) (first_row-swap_other p q rows updated apart miss)
    ]
  ]

has_queue_id-apart :
    {Payload : Type 0} (id other : String)
    → str_eq other id ≡ false
    → (r : TaskExecution Payload) → has_queue_id id r ≡ true
    → has_queue_id other r ≡ false
has_queue_id-apart id other apart r hit = elim (Option-cases r.queue_task_id) [
  | inl missing ↦ rw missing refl
  | inr (x, given) ↦
      let hit' : str_eq x id ≡ true = rw given at hit in
      rw given (ground (arith, eq_iff x id, eq_iff x other, eq_iff other id, hit', apart))
]

-- One more report before the others.
rows_step : (given : Option ℕ) (old : ℕ) → some (kept_or given old) ≡ kept_or_some given (some old)
rows_step none old = refl
rows_step (some n) old = refl

user_step :
    (u : StatusUpdate) (us : List StatusUpdate) (old : Option ℕ)
    → first_known us (kept_or_some (if is_some old then none else u.triggered_by) old)
      ≡ first_known (u ∷ us) old
user_step u us (some user) = refl
user_step u us none = ap (first_known us) (kept u.triggered_by)
  where
    kept : (given : Option ℕ) → kept_or_some given none ≡ given
    kept none = refl
    kept (some user) = refl

reported-step :
    {Payload : Type 0} (u : StatusUpdate) (us : List StatusUpdate) (row : TaskExecution Payload)
    → reported us (change_execution (changes_for u row) row) ≡ reported (u ∷ us) row
reported-step {Payload} u us row =
    ap
      (λ n. with_rows n (
        first_known us (
          kept_or_some (if is_some row.triggered_by then none else u.triggered_by)
            row.triggered_by)))
      (ap (λ o. or_else (last_given (λ v. v.processed_rows) us o) 0)
        (rows_step u.processed_rows row.processed_rows))
    ∙ ap
        (with_rows
          (or_else (last_given (λ v. v.processed_rows) (u ∷ us) (some row.processed_rows)) 0))
        (user_step u us row.triggered_by)
  where
    with_rows : ℕ → Option ℕ → TaskExecution Payload
    with_rows n user = record row {
      status = last_status us u.status;
      started_at = last_given (λ v. v.started_at) us (kept_or_some u.started_at row.started_at);
      completed_at =
          last_given (λ v. v.completed_at) us (kept_or_some u.completed_at row.completed_at);
      processed_rows = n;
      error_message =
          last_given (λ v. v.error_message) us (kept_or_some u.error_message row.error_message);
      triggered_by = user;
    }

module _ {Config Payload : Type 0} where
  -- One report, on a table that has the row.
  sync_execution_status-row :
      (id : String) (u : StatusUpdate) (t : Tables Config Payload) (row : TaskExecution Payload)
      → get_by_queue_task_id id t ≡ some row
      → IsGrowing (λ r. r.id) t.executions
      → (get_by_queue_task_id id (sync_execution_status id u t)
          ≡ some (change_execution (changes_for u row) row))
        × ((other : String)
            → str_eq other id ≡ false
            → get_by_queue_task_id other (sync_execution_status id u t)
              ≡ get_by_queue_task_id other t)
        × IsGrowing (λ r. r.id) (sync_execution_status id u t).executions
  unfolding sync_execution_status update_execution_row
  sync_execution_status-row id u t row found inc =
      let updated = change_execution (changes_for u row) row in
      let change : TaskExecution Payload → TaskExecution Payload =
        λ r. if r.id == row.id then updated else r in
      let rows : (sync_execution_status id u t).executions ≡ map change t.executions =
        ap (λ o. (sync_row u t o).executions) found in
      let swapped = rows ∙ map-swap (has_queue_id id) t.executions row updated found inc in
      (
        ap (first_row (has_queue_id id)) swapped
            ∙ first_row-swap (has_queue_id id) t.executions row updated found
                (first_row-some (has_queue_id id) t.executions row found),
        λ other apart.
            ap (first_row (has_queue_id other)) swapped
            ∙ first_row-swap_other (has_queue_id id) (has_queue_id other) t.executions updated
                (has_queue_id-apart id other apart)
                (has_queue_id-apart id other apart updated
                  (first_row-some (has_queue_id id) t.executions row found)),
        subst (IsGrowing (λ r. r.id)) (sym rows) (
            IsGrowing-map (λ r. r.id) change t.executions
              (replaced_same (λ (r : TaskExecution Payload). r.id) row updated refl) inc),
      )

  -- After any reports of a queue id, its row has what they say of it, and no row of another id changed:
  -- the last status and the last times, rows and message that were given, and the first user known.
  pub sync_all-reported :
      (id : String) (us : List StatusUpdate) (t : Tables Config Payload)
      (row : TaskExecution Payload)
      → get_by_queue_task_id id t ≡ some row
      → IsGrowing (λ r. r.id) t.executions
      → (get_by_queue_task_id id (sync_all id us t) ≡ some (reported us row))
        × ((other : String)
            → str_eq other id ≡ false
            → get_by_queue_task_id other (sync_all id us t) ≡ get_by_queue_task_id other t)
  unfolding sync_all
  sync_all-reported id [] t row found inc = (found, λ other apart. refl)
  sync_all-reported id (u ∷ us) t row found inc =
      let (here, there, inc') = sync_execution_status-row id u t row found inc in
      let (last, others) = sync_all-reported id us (sync_execution_status id u t) _ here inc' in
      (
        last ∙ ap some (reported-step u us row),
        λ other apart. others other apart ∙ there other apart,
      )
