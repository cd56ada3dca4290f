-- ===== src/Tasks/Tables.antt =====
-- The tables of tasks: src/domains/task/enums.py, models.py and repository.py. A table is a list of
-- rows in the order of their ids. A write is pending until the session commits.
use douyin_data_dashboard.Prelude.{
  ◌||◌, ℕ, ◌+◌, ◌==◌, Bool, true, false, not, Option, none, some, List, [], ◌∷◌, ◌++◌, map, any,
  keep, if◌then◌else◌, String, str_eq,
}

pub data TaskType : Type 0 where
  etl_orders : TaskType
  etl_products : TaskType
  shop_dashboard_collection : TaskType

pub data TaskDefinitionStatus : Type 0 where
  active : TaskDefinitionStatus
  paused : TaskDefinitionStatus
  cancelled : TaskDefinitionStatus

pub data TaskExecutionStatus : Type 0 where
  queued : TaskExecutionStatus
  running : TaskExecutionStatus
  success : TaskExecutionStatus
  failed : TaskExecutionStatus
  cancelled_execution : TaskExecutionStatus

pub data TaskTriggerMode : Type 0 where
  manual : TaskTriggerMode
  scheduled : TaskTriggerMode
  system : TaskTriggerMode

abbrev pub type_eq : TaskType → TaskType → Bool
type_eq etl_orders etl_orders = true
type_eq etl_products etl_products = true
type_eq shop_dashboard_collection shop_dashboard_collection = true
type_eq _ _ = false

abbrev pub is_active : TaskDefinitionStatus → Bool
is_active active = true
is_active paused = false
is_active cancelled = false

-- `Config` is the type of a task's configuration.
pub record TaskDefinition (Config : Type 0) : Type 0 where
  pub id : ℕ
  pub name : String
  pub task_type : TaskType
  pub status : TaskDefinitionStatus
  pub config : Option Config
  pub created_by_id : Option ℕ
  pub updated_by_id : Option ℕ

-- Times are numbers; a new row has no idempotency key, rule version and snapshot, which the
-- collection of a shop writes.
pub record TaskExecution (Payload : Type 0) : Type 0 where
  pub id : ℕ
  pub task_id : ℕ
  pub queue_task_id : Option String
  pub idempotency_key : Option String
  pub status : TaskExecutionStatus
  pub trigger_mode : TaskTriggerMode
  pub payload : Payload
  pub rule_version : Option ℕ
  pub effective_config_snapshot : Option Payload
  pub started_at : Option ℕ
  pub completed_at : Option ℕ
  pub processed_rows : ℕ
  pub error_message : Option String
  pub triggered_by : Option ℕ

pub record Tables (Config Payload : Type 0) : Type 0 where
  pub tasks : List (TaskDefinition Config)
  pub executions : List (TaskExecution Payload)
  pub next_task : ℕ
  pub next_execution : ℕ

-- The first row that a query selects.
abbrev pub first_row {ℓ} : {A : Type ℓ} → (A → Bool) → List A → Option A
first_row p [] = none
first_row p (x ∷ xs) = if p x then some x else first_row p xs

-- A column keeps its value where the data for it is `None`.
abbrev pub kept_or {ℓ} : {A : Type ℓ} → Option A → A → A
kept_or none old = old
kept_or (some new) old = new

abbrev pub kept_or_some {ℓ} : {A : Type ℓ} → Option A → Option A → Option A
kept_or_some none old = old
kept_or_some (some new) old = some new

-- `data` of `TaskExecutionRepository.update`, by the keys that its callers give; `none` is a key that
-- is not given or whose value is `None`.
pub record ExecutionChanges : Type 0 where
  pub queue_task_id : Option String
  pub status : Option TaskExecutionStatus
  pub started_at : Option ℕ
  pub completed_at : Option ℕ
  pub processed_rows : Option ℕ
  pub error_message : Option String
  pub triggered_by : Option ℕ

abbrev pub no_changes : ExecutionChanges
no_changes = record {
  queue_task_id = none;
  status = none;
  started_at = none;
  completed_at = none;
  processed_rows = none;
  error_message = none;
  triggered_by = none;
}

pub record TaskChanges (Config : Type 0) : Type 0 where
  pub name : Option String
  pub status : Option TaskDefinitionStatus
  pub config : Option Config
  pub updated_by_id : Option ℕ

abbrev pub has_queue_id : {Payload : Type 0} → String → TaskExecution Payload → Bool
has_queue_id queue_task_id execution = elim execution.queue_task_id [
  | none ↦ false
  | some id ↦ str_eq id queue_task_id
]

-- `setattr` of what is not `None`.
abbrev pub change_task :
    {Config : Type 0} → TaskChanges Config → TaskDefinition Config → TaskDefinition Config
change_task c task = record task {
  name = kept_or c.name task.name;
  status = kept_or c.status task.status;
  config = kept_or_some c.config task.config;
  updated_by_id = kept_or_some c.updated_by_id task.updated_by_id;
}

abbrev pub change_execution :
    {Payload : Type 0} → ExecutionChanges → TaskExecution Payload → TaskExecution Payload
change_execution c execution = record execution {
  queue_task_id = kept_or_some c.queue_task_id execution.queue_task_id;
  status = kept_or c.status execution.status;
  started_at = kept_or_some c.started_at execution.started_at;
  completed_at = kept_or_some c.completed_at execution.completed_at;
  processed_rows = kept_or c.processed_rows execution.processed_rows;
  error_message = kept_or_some c.error_message execution.error_message;
  triggered_by = kept_or_some c.triggered_by execution.triggered_by;
}

module _ {Config Payload : Type 0} where
  abbrev pub get_task : ℕ → Tables Config Payload → Option (TaskDefinition Config)
  get_task task_id t = first_row (λ task. task.id == task_id) t.tasks

  abbrev pub get_by_task_type : TaskType → Tables Config Payload → Option (TaskDefinition Config)
  get_by_task_type task_type t = first_row (λ task. type_eq task.task_type task_type) t.tasks

  abbrev pub get_by_queue_task_id : String → Tables Config Payload → Option (TaskExecution Payload)
  get_by_queue_task_id queue_task_id t = first_row (has_queue_id queue_task_id) t.executions

  -- `TaskDefinitionRepository.create`: `none` where another row has the task's type.
  unfoldable pub insert_task :
      String
      → TaskType
      → TaskDefinitionStatus
      → Option Config
      → Option ℕ
      → Tables Config Payload
      → Option (TaskDefinition Config × Tables Config Payload)
  insert_task name task_type status config created_by_id t =
      let task : TaskDefinition Config = record {
        id = t.next_task;
        name = name;
        task_type = task_type;
        status = status;
        config = config;
        created_by_id = created_by_id;
        updated_by_id = created_by_id;
      } in
      if any t.tasks (λ (row : TaskDefinition Config). type_eq row.task_type task_type)
      then none
      else some (task, record t { tasks = t.tasks ++ (task ∷ []); next_task = t.next_task + 1 })

  -- The row of an object that the session holds, and the object, which are one.
  unfoldable pub update_task_row :
      TaskDefinition Config
      → TaskChanges Config
      → Tables Config Payload
      → TaskDefinition Config × Tables Config Payload
  update_task_row task c t =
      let updated = change_task c task in
      (
        updated,
        record t { tasks = map (λ row. if row.id == task.id then updated else row) t.tasks },
      )

  unfoldable pub delete_task_row :
      TaskDefinition Config → Tables Config Payload → Tables Config Payload
  delete_task_row task t = record t {
    tasks = keep (λ (row : TaskDefinition Config). not (row.id == task.id)) t.tasks;
    executions = keep (λ (row : TaskExecution Payload). not (row.task_id == task.id)) t.executions;
  }

  -- `TaskExecutionRepository.create`: `none` where the task is not there, or another row has the queue's
  -- id. The new row has no idempotency key, so it cannot clash in that.
  unfoldable pub insert_execution :
      ℕ
      → Option String
      → TaskTriggerMode
      → Payload
      → Option ℕ
      → Tables Config Payload
      → Option (TaskExecution Payload × Tables Config Payload)
  insert_execution task_id queue_task_id trigger_mode payload triggered_by t =
      let execution : TaskExecution Payload = record {
        id = t.next_execution;
        task_id = task_id;
        queue_task_id = queue_task_id;
        status = queued;
        trigger_mode = trigger_mode;
        payload = payload;
        idempotency_key = none;
        rule_version = none;
        effective_config_snapshot = none;
        started_at = none;
        completed_at = none;
        processed_rows = 0;
        error_message = none;
        triggered_by = triggered_by;
      } in
      let taken : Bool = elim queue_task_id [
        | none ↦ false
        | some id ↦ any t.executions (λ (row : TaskExecution Payload). has_queue_id id row)
      ] in
      if not (any t.tasks (λ (row : TaskDefinition Config). row.id == task_id)) || taken
      then none
      else some (
        execution,
        record t {
          executions = t.executions ++ (execution ∷ []);
          next_execution = t.next_execution + 1;
        },
      )

  -- The row of an object that the session holds; a new queue's id is taken to be no other row's.
  unfoldable pub update_execution_row :
      TaskExecution Payload
      → ExecutionChanges
      → Tables Config Payload
      → TaskExecution Payload × Tables Config Payload
  update_execution_row execution c t =
      let updated = change_execution c execution in
      (
        updated,
        record t {
          executions = map (λ row. if row.id == execution.id then updated else row) t.executions;
        },
      )
