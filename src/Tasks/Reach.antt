-- ===== src/Tasks/Reach.antt =====
-- What every sequence of operations of src/domains/task/services.py, and of reports of
-- src/tasks/status_store.py between them, keeps true.
use mathlib.Core.Path.{subst}
use douyin_data_dashboard.Prelude.{
  if◌then◌else◌, ◌⊎◌, ◌++◌, [], ◌∷◌, ◌+◌, take_text, ℕ, ◌≡◌, refl, sym, ap, Bool, true, false,
  Option, none, some, Bool-cases, Option-cases, inl, inr, arith, String,
}
use douyin_data_dashboard.Tasks.Selection.{Payload}
use douyin_data_dashboard.Tasks.Tables.{
  TaskType, TaskDefinitionStatus, TaskExecutionStatus, TaskTriggerMode, TaskDefinition,
  TaskExecution, Tables, failed, no_changes, ExecutionChanges, get_task, get_by_queue_task_id,
  update_execution_row, insert_execution,
}
use douyin_data_dashboard.Tasks.Service.{
  Result, ok, err, ServiceState, Services, pull_events, create_task, update_task, delete_task,
  cancel_task, create_execution, rollback, task_already_exists, mark_execution_status, status_eq,
}
use douyin_data_dashboard.Tasks.Run.{run_task, dispatch_task, message_of}
use douyin_data_dashboard.Tasks.Status.{StatusUpdate, changes_for, sync_execution_status}
use douyin_data_dashboard.Tasks.Valid.{IsValid, insert_task-cases}
use douyin_data_dashboard.Tasks.Kept.{
  update_task_row-IsValid, update_execution_row-IsValid, delete_task_row-IsValid,
  append_execution-IsValid,
}
use douyin_data_dashboard.Tasks.Outcome.{new_execution, run_result, run_task-outcome}

module _ {Config Obj Q : Type 0} (services : Services Config Obj Q) where
  -- A worker's report, which is committed in a session of its own.
  abbrev pub report : String → StatusUpdate → ServiceState Config Obj → ServiceState Config Obj
  report queue_task_id u s =
      let tables = sync_execution_status queue_task_id u s.committed in
      record s { tables = tables; committed = tables }

  -- One call of the service, or one report of a worker. A task that is changed is one of the table.
  pub data Step : ServiceState Config Obj → ServiceState Config Obj → Type 0 where
    created :
        (name : String) (task_type : TaskType) (status : TaskDefinitionStatus)
        (config : Option Config) (by : Option ℕ) (s : ServiceState Config Obj)
        → Step s (create_task name task_type status config by s).1
    updated :
        (task : TaskDefinition Config) (name : Option String) (status : Option TaskDefinitionStatus)
        (config : Option Config) (by : Option ℕ) (s : ServiceState Config Obj)
        → get_task task.id s.tables ≡ some task
        → Step s (update_task task name status config by s).1
    cancelled :
        (task : TaskDefinition Config) (by : Option ℕ) (s : ServiceState Config Obj)
        → get_task task.id s.tables ≡ some task
        → Step s (cancel_task task by s).1
    deleted :
        (task : TaskDefinition Config) (s : ServiceState Config Obj) → Step s (delete_task task s)
    executed :
        (task : TaskDefinition Config) (payload : Payload Obj) (trigger_mode : TaskTriggerMode)
        (queue_task_id : Option String) (by : Option ℕ) (emits : Bool) (s : ServiceState Config Obj)
        → Step s (create_execution task payload trigger_mode queue_task_id by emits s).1
    ran :
        (task_id : ℕ) (payload : Payload Obj) (by : Option ℕ) (trigger_mode : TaskTriggerMode)
        (s : ServiceState Config Obj) (q : Q)
        → Step s (run_task services task_id payload by trigger_mode s q).1
    marked :
        (queue_task_id : String) (status : TaskExecutionStatus)
        (started_at completed_at processed_rows : Option ℕ) (error_message : Option String)
        (s : ServiceState Config Obj)
        → Step s
            (mark_execution_status queue_task_id status started_at completed_at processed_rows
              error_message s).1
    reported :
        (queue_task_id : String) (u : StatusUpdate) (s : ServiceState Config Obj)
        → Step s (report queue_task_id u s)
    pulled : (s : ServiceState Config Obj) → Step s (pull_events s).1

  pub data Reach : ServiceState Config Obj → ServiceState Config Obj → Type 0 where
    here : (s : ServiceState Config Obj) → Reach s s
    after : (s s' s'' : ServiceState Config Obj) → Reach s s' → Step s' s'' → Reach s s''

  -- Nothing is pending, and the tables are valid.
  abbrev pub IsSettled : ServiceState Config Obj → Type 0
  IsSettled s = IsValid s.tables × (s.committed ≡ s.tables)

  create_task-IsSettled :
      (name : String) (task_type : TaskType) (status : TaskDefinitionStatus)
      (config : Option Config) (by : Option ℕ) (s : ServiceState Config Obj)
      → IsSettled s
      → IsSettled (create_task name task_type status config by s).1
  unfolding create_task
  create_task-IsSettled name task_type status config by s (valid, same) =
      elim (insert_task-cases name task_type status config by s.tables valid) [
        | inl (clash, taken) ↦
            let is : create_task name task_type status config by s
                ≡ (err (task_already_exists task_type), rollback s) =
              ground (arith, clash) in
            subst (λ r. IsSettled r.1) (sym is) (subst IsValid (sym same) valid, refl)
        | inr (task, tables, put_in, is, rows, free, still) ↦
            let is : create_task name task_type status config by s
                ≡ (ok task, record s { tables = tables; committed = tables }) =
              ground (arith, put_in) in
            subst (λ r. IsSettled r.1) (sym is) (still, refl)
      ]

  update_task-IsSettled :
      (task : TaskDefinition Config) (name : Option String) (status : Option TaskDefinitionStatus)
      (config : Option Config) (by : Option ℕ) (s : ServiceState Config Obj)
      → get_task task.id s.tables ≡ some task
      → IsSettled s
      → IsSettled (update_task task name status config by s).1
  unfolding update_task
  update_task-IsSettled task name none config by s found (valid, same) =
      (update_task_row-IsValid task _ s.tables found valid, refl)
  update_task-IsSettled task name (some new) config by s found (valid, same) =
      elim (Bool-cases (status_eq new task.status)) [
        | inl e ↦ rw e (update_task_row-IsValid task _ s.tables found valid, refl)
        | inr e ↦ rw e (update_task_row-IsValid task _ s.tables found valid, refl)
      ]

  run_result-IsSettled :
      (row : TaskExecution (Payload Obj)) (answer : Result String) (s : ServiceState Config Obj)
      → row.id ≡ s.tables.next_execution
      → IsValid s.tables
      → IsSettled (run_result services row answer s).1
  run_result-IsSettled row (ok id) s next valid =
      (append_execution-IsValid (record row { queue_task_id = some id }) s.tables next valid, refl)
  run_result-IsSettled row (err e) s next valid = (
    append_execution-IsValid
        (record row { status = failed; error_message = some (take_text 1000 (message_of e)) })
        s.tables next valid,
    refl,
  )

  run_task-IsSettled :
      (task_id : ℕ) (payload : Payload Obj) (by : Option ℕ) (trigger_mode : TaskTriggerMode)
      (s : ServiceState Config Obj) (q : Q)
      → IsSettled s
      → IsSettled (run_task services task_id payload by trigger_mode s q).1
  run_task-IsSettled task_id payload by trigger_mode s q (valid, same) =
      elim (run_task-outcome services task_id payload by trigger_mode s q valid) [
        | inl (e, is, why) ↦ subst IsSettled (ap (λ r. r.1) (sym is)) (valid, same)
        | inr (task, validated, found, live, good, is) ↦
            let row = new_execution services task validated by trigger_mode s in
            let (answer, q') = dispatch_task services task.task_type validated by row.id q in
            subst IsSettled (ap (λ r. r.1) (sym is)) (run_result-IsSettled row answer s refl valid)
      ]

  mark_execution_status-IsSettled :
      (id : String) (status : TaskExecutionStatus)
      (started_at completed_at processed_rows : Option ℕ) (error_message : Option String)
      (s : ServiceState Config Obj)
      → IsSettled s
      → IsSettled
          (mark_execution_status id status started_at completed_at processed_rows error_message s).1
  unfolding mark_execution_status
  mark_execution_status-IsSettled id status started_at completed_at processed_rows error_message s
        (valid, same) =
      elim (Option-cases (get_by_queue_task_id id s.tables)) [
        | inl missing ↦
            let is : mark_execution_status id status started_at completed_at processed_rows
                  error_message s
                ≡ (none, s) =
              ground (arith, missing) in
            subst (λ r. IsSettled r.1) (sym is) (valid, same)
        | inr (row, found) ↦
            let changes : ExecutionChanges = record no_changes {
              status = some status;
              started_at = started_at;
              completed_at = completed_at;
              processed_rows = processed_rows;
              error_message = error_message;
            } in
            let (new, tables) = update_execution_row row changes s.tables in
            let is : mark_execution_status id status started_at completed_at processed_rows
                  error_message s
                ≡ (some new, record s { tables = tables; committed = tables }) =
              ground (arith, found) in
            subst (λ r. IsSettled r.1) (sym is)
              (update_execution_row-IsValid row changes s.tables valid, refl)
      ]

  sync_execution_status-IsValid :
      (id : String) (u : StatusUpdate) (t : Tables Config (Payload Obj))
      → IsValid t
      → IsValid (sync_execution_status id u t)
  unfolding sync_execution_status
  sync_execution_status-IsValid id u t valid = elim (Option-cases (get_by_queue_task_id id t)) [
    | inl missing ↦ rw missing valid
    | inr (row, found) ↦ rw found (update_execution_row-IsValid row (changes_for u row) t valid)
  ]

  if_some :
      {A : Type 0} (b : Bool) (a : A)
      → ((if b then none else some a) ≡ none) ⊎ ((if b then none else some a) ≡ some a)
  if_some true a = inl refl
  if_some false a = inr refl

  -- An execution's insertion raises, or it adds a row with the next id.
  insert_execution-cases :
      (task_id : ℕ) (id : Option String) (trigger_mode : TaskTriggerMode) (payload : Payload Obj)
      (by : Option ℕ) (t : Tables Config (Payload Obj))
      → (insert_execution task_id id trigger_mode payload by t ≡ none)
        ⊎ ((row : TaskExecution (Payload Obj)) × (row.id ≡ t.next_execution)
            × (insert_execution task_id id trigger_mode payload by t
                ≡ some (
                  row,
                  record t {
                    executions = t.executions ++ (row ∷ []);
                    next_execution = t.next_execution + 1;
                  },
                )))
  unfolding insert_execution
  insert_execution-cases task_id id trigger_mode payload by t = elim (if_some _ _) [
    | inl raises ↦ inl raises
    | inr added ↦ inr (_, refl, added)
  ]

  create_execution-IsSettled :
      (task : TaskDefinition Config) (payload : Payload Obj) (trigger_mode : TaskTriggerMode)
      (id : Option String) (by : Option ℕ) (emits : Bool) (s : ServiceState Config Obj)
      → IsSettled s
      → IsSettled (create_execution task payload trigger_mode id by emits s).1
  unfolding create_execution
  create_execution-IsSettled task payload trigger_mode id by emits s (valid, same) =
      elim (insert_execution-cases task.id id trigger_mode payload by s.tables) [
        | inl raises ↦ rw (create_execution, raises) (subst IsValid (sym same) valid, refl)
        | inr (row, next, added) ↦ with_row row next added emits
      ]
    where
      with_row :
          (row : TaskExecution (Payload Obj))
          → row.id ≡ s.tables.next_execution
          → insert_execution task.id id trigger_mode payload by s.tables
            ≡ some (
              row,
              record s.tables {
                executions = s.tables.executions ++ (row ∷ []);
                next_execution = s.tables.next_execution + 1;
              },
            )
          → (emit_event : Bool)
          → IsSettled (create_execution task payload trigger_mode id by emit_event s).1
      with_row row next added true =
          rw (create_execution, added) (append_execution-IsValid row s.tables next valid, refl)
      with_row row next added false =
          rw (create_execution, added) (append_execution-IsValid row s.tables next valid, refl)

  Step-IsSettled : (s s' : ServiceState Config Obj) → Step s s' → IsSettled s → IsSettled s'
  unfolding cancel_task delete_task pull_events
  Step-IsSettled _ _ (created name task_type status config by s) h =
      create_task-IsSettled name task_type status config by s h
  Step-IsSettled _ _ (updated task name status config by s found) h =
      update_task-IsSettled task name status config by s found h
  Step-IsSettled _ _ (cancelled task by s found) (valid, same) =
      (update_task_row-IsValid task _ s.tables found valid, refl)
  Step-IsSettled _ _ (deleted task s) (valid, same) =
      (delete_task_row-IsValid task s.tables valid, refl)
  Step-IsSettled _ _ (executed task payload trigger_mode id by emits s) h =
      create_execution-IsSettled task payload trigger_mode id by emits s h
  Step-IsSettled _ _ (ran task_id payload by trigger_mode s q) h =
      run_task-IsSettled task_id payload by trigger_mode s q h
  Step-IsSettled _ _ (marked id status started_at completed_at processed_rows error_message s) h =
      mark_execution_status-IsSettled id status started_at completed_at processed_rows error_message
        s h
  Step-IsSettled _ _ (reported id u s) (valid, same) =
      (sync_execution_status-IsValid id u s.committed (subst IsValid (sym same) valid), refl)
  Step-IsSettled _ _ (pulled s) h = h

  -- Whatever operations run and whatever workers report in between, from a settled state the service
  -- stays settled: every write is committed, ids are given out once and in order, and no two tasks
  -- are of one type.
  pub Reach-IsSettled : (s s' : ServiceState Config Obj) → Reach s s' → IsSettled s → IsSettled s'
  Reach-IsSettled _ _ (here s) h = h
  Reach-IsSettled _ _ (after s s' s'' path step) h =
      Step-IsSettled s' s'' step (Reach-IsSettled s s' path h)
