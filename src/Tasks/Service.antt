-- ===== src/Tasks/Service.antt =====
-- The service of tasks: src/domains/task/services.py, with dispatch.py, events.py and the payloads of
-- schemas.py. An operation takes the service's state and returns it with its result or its error.
use douyin_data_dashboard.Prelude.{
  ℕ, Bool, true, false, Option, none, some, List, [], ◌∷◌, ◌++◌, if◌then◌else◌, String,
}
use douyin_data_dashboard.Prelude.Int.{ℤ}
use douyin_data_dashboard.Tasks.Selection.{Texts, Payload}
use douyin_data_dashboard.Tasks.Tables.{
  TaskType, TaskDefinitionStatus, active, cancelled, TaskExecutionStatus, TaskTriggerMode,
  TaskDefinition, TaskExecution, Tables, get_by_queue_task_id, insert_task, update_task_row,
  delete_task_row, insert_execution, update_execution_row, no_changes, TaskChanges,
}

pub data TaskDomainEvent : Type 0 where
  task_status_changed :
      (task_id : ℕ) (task_type : TaskType) (old_status new_status : TaskDefinitionStatus)
      (changed_by_id : Option ℕ)
      → TaskDomainEvent
  task_execution_triggered :
      (task_id execution_id : ℕ) (trigger_mode : TaskTriggerMode) (status : TaskExecutionStatus)
      (queue_task_id : Option String) (triggered_by : Option ℕ)
      → TaskDomainEvent

-- An exception with what its `msg` or text is, where the code reads that.
pub data TaskError : Type 0 where
  task_not_found : ℕ → TaskError
  task_invalid_status : ℕ → TaskDefinitionStatus → TaskError
  task_invalid_payload : (message field : String) → TaskError
  task_already_exists : TaskType → TaskError
  task_push_failed : TaskError
  integrity_error : TaskError
  raised : String → TaskError

pub data Result {ℓ} (A : Type ℓ) : Type ℓ where
  ok : A → Result A
  err : TaskError → Result A

-- The tables as the session sees them, as they are committed, and the events kept.
pub record ServiceState (Config Obj : Type 0) : Type 0 where
  pub tables : Tables Config (Payload Obj)
  pub committed : Tables Config (Payload Obj)
  pub events : List TaskDomainEvent

-- What a check of a payload's target shops says: nothing, a `ScrapingFailedException` or
-- `ShopDashboardNoTargetShopsException` with its message and the keys of its data, or another error.
pub data Verdict : Type 0 where
  accepted : Verdict
  refused : String → List String → Verdict
  broken : String → Verdict

-- What a handler does to the queue `Q`: it returns the text of its result's `task_id`, or it raises an
-- exception of the given text.
pub data Pushed : Type 0 where
  pushed : String → Pushed
  refused_push : String → Pushed

abbrev pub Handler : Type 0 → Type 0 → Type 0
Handler Obj Q = Payload Obj → Option ℕ → ℕ → Q → Pushed × Q

-- What the service is built with: its registry of handlers and the validator of target shops, which
-- reads the tables; `int` of another object than a text, and of a text (`none` where it raises), and
-- the name of a task's type in lower case.
pub record Services (Config Obj Q : Type 0) : Type 0 where
  pub handlers : TaskType → Option (Handler Obj Q)
  pub validator : Tables Config (Payload Obj) → Payload Obj → Verdict
  pub str : Texts Obj
  pub int_of_text : String → Option ℤ
  pub int_of_other : Obj → Option ℤ
  pub type_name : TaskType → String

abbrev pub triggered_event : {P : Type 0} → TaskExecution P → TaskDomainEvent
triggered_event execution =
    task_execution_triggered execution.task_id execution.id execution.trigger_mode execution.status
      execution.queue_task_id execution.triggered_by

abbrev pub status_eq : TaskDefinitionStatus → TaskDefinitionStatus → Bool
status_eq active active = true
status_eq TaskDefinitionStatus.paused TaskDefinitionStatus.paused = true
status_eq cancelled cancelled = true
status_eq _ _ = false

module _ {Config Obj : Type 0} where
  abbrev pub commit : ServiceState Config Obj → ServiceState Config Obj
  commit s = record s { committed = s.tables }

  abbrev pub rollback : ServiceState Config Obj → ServiceState Config Obj
  rollback s = record s { tables = s.committed }

  abbrev pub emit : TaskDomainEvent → ServiceState Config Obj → ServiceState Config Obj
  emit event s = record s { events = s.events ++ (event ∷ []) }

  unfoldable pub pull_events :
      ServiceState Config Obj → List TaskDomainEvent × ServiceState Config Obj
  pull_events s = (s.events, record s { events = [] })

  unfoldable pub create_task :
      String
      → TaskType
      → TaskDefinitionStatus
      → Option Config
      → Option ℕ
      → ServiceState Config Obj
      → Result (TaskDefinition Config) × ServiceState Config Obj
  create_task name task_type status config created_by_id s =
      elim (insert_task name task_type status config created_by_id s.tables) [
        | none ↦ (err (task_already_exists task_type), rollback s)
        | some (task, tables) ↦ (ok task, commit (record s { tables = tables }))
      ]

  -- The payload's fields are `None` where they are not given; so is the user.
  unfoldable pub update_task :
      TaskDefinition Config
      → Option String
      → Option TaskDefinitionStatus
      → Option Config
      → Option ℕ
      → ServiceState Config Obj
      → TaskDefinition Config × ServiceState Config Obj
  update_task task name status config changed_by_id s =
      let changes : TaskChanges Config = record {
        name = name;
        status = status;
        config = config;
        updated_by_id = changed_by_id;
      } in
      let (updated, tables) = update_task_row task changes s.tables in
      let s' = commit (record s { tables = tables }) in
      elim status [
        | none ↦ (updated, s')
        | some new_status ↦ if status_eq new_status task.status then (updated, s') else (
          updated,
          emit
              (task_status_changed updated.id updated.task_type task.status updated.status
                changed_by_id)
              s',
        )
      ]

  unfoldable pub delete_task :
      TaskDefinition Config → ServiceState Config Obj → ServiceState Config Obj
  delete_task task s = commit (record s { tables = delete_task_row task s.tables })

  unfoldable pub cancel_task :
      TaskDefinition Config
      → Option ℕ
      → ServiceState Config Obj
      → TaskDefinition Config × ServiceState Config Obj
  cancel_task task changed_by_id s =
      let changes : TaskChanges Config = record {
        name = none;
        status = some cancelled;
        config = none;
        updated_by_id = changed_by_id;
      } in
      let (updated, tables) = update_task_row task changes s.tables in
      (
        updated,
        emit
            (task_status_changed updated.id updated.task_type task.status updated.status
              changed_by_id)
            (commit (record s { tables = tables })),
      )

  -- `none` where the insertion raises, on which the session is rolled back.
  unfoldable pub create_execution :
      TaskDefinition Config
      → Payload Obj
      → TaskTriggerMode
      → Option String
      → Option ℕ
      → Bool
      → ServiceState Config Obj
      → Option (TaskExecution (Payload Obj)) × ServiceState Config Obj
  create_execution task payload trigger_mode queue_task_id triggered_by emit_event s =
      elim (insert_execution task.id queue_task_id trigger_mode payload triggered_by s.tables) [
        | none ↦ (none, rollback s)
        | some (execution, tables) ↦
            let s' = commit (record s { tables = tables }) in
            (some execution, if emit_event then emit (triggered_event execution) s' else s')
      ]

  -- `mark_execution_status`, whose fields are `None` where they are not given.
  unfoldable pub mark_execution_status :
      String
      → TaskExecutionStatus
      → Option ℕ
      → Option ℕ
      → Option ℕ
      → Option String
      → ServiceState Config Obj
      → Option (TaskExecution (Payload Obj)) × ServiceState Config Obj
  mark_execution_status queue_task_id status started_at completed_at processed_rows error_message
        s =
      elim (get_by_queue_task_id queue_task_id s.tables) [
        | none ↦ (none, s)
        | some execution ↦
            let (updated, tables) =
              update_execution_row execution
                (record no_changes {
                  status = some status;
                  started_at = started_at;
                  completed_at = completed_at;
                  processed_rows = processed_rows;
                  error_message = error_message;
                })
                s.tables in
            (some updated, commit (record s { tables = tables }))
      ]
