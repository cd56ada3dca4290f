-- ===== src/Tasks/Run.antt =====
-- Running a task: `run_task`, `run_task_by_type` and what they call in
-- src/domains/task/services.py, with the registry of src/domains/task/dispatch.py.
use Prim.Native.String.{◌++◌ as append}
use douyin_data_dashboard.Plan.Config.{text_or}
use douyin_data_dashboard.Prelude.{
  ℕ, suc, Bool, true, false, not, ◌&&◌, ◌||◌, Option, none, some, List, if◌then◌else◌, String,
  strip, is_empty, take_text, contains,
}
use douyin_data_dashboard.Prelude.Dict.{put}
use douyin_data_dashboard.Prelude.Int.{ℤ, pos}
use douyin_data_dashboard.Tasks.Selection.{
  Value, null, bool, int, text, texts, list, other, Payload, get_value,
  normalize_shop_selection_payload, has_explicit_shop_selection,
  ensure_explicit_shop_selection_valid,
}
use douyin_data_dashboard.Tasks.Tables.{
  TaskType, etl_orders, etl_products, shop_dashboard_collection, TaskDefinitionStatus, active,
  cancelled, is_active, failed, TaskTriggerMode, TaskDefinition, TaskExecution, Tables, get_task,
  get_by_task_type, update_execution_row, no_changes,
}
use douyin_data_dashboard.Tasks.Service.{
  TaskError, task_not_found, task_invalid_status, task_invalid_payload, task_already_exists,
  task_push_failed, integrity_error, raised, Result, ok, err, ServiceState, accepted, refused,
  broken, pushed, refused_push, Services, commit, emit, triggered_event, create_task,
  create_execution,
}

abbrev status_value : TaskDefinitionStatus → String
status_value active = "ACTIVE"
status_value TaskDefinitionStatus.paused = "PAUSED"
status_value cancelled = "CANCELLED"

-- `exc.msg` or `str(exc)`; the text of the database's error, which no dispatch raises, is left out.
abbrev pub message_of : TaskError → String
message_of task_push_failed = "Task push failed: missing task_id"
message_of (task_invalid_payload message field) = message
message_of (raised message) = message
message_of integrity_error = ""
message_of (task_not_found id) = "Task not found"
message_of (task_already_exists task_type) = "Task already exists"
message_of (task_invalid_status id status) =
    append "Task status '" (append (status_value status) "' cannot be run")

module _ {Config Obj Q : Type 0} (services : Services Config Obj Q) where
  abbrev int_of : Value Obj → Option ℤ
  int_of null = none
  int_of (bool b) = some (pos (if b then 1 else 0))
  int_of (int n) = some n
  int_of (text t) = services.int_of_text t
  int_of (texts ts) = none
  int_of (list os) = none
  int_of (other o) = services.int_of_other o

  abbrev is_missing : Value Obj → Bool
  is_missing null = true
  is_missing (text t) = is_empty (strip t)
  is_missing _ = false

  unfoldable pub require_positive_int : Payload Obj → String → Result ℤ
  require_positive_int payload field =
      let raw = get_value field payload in
      if is_missing raw
      then err (task_invalid_payload (append "Missing required field: " field) field)
      else (elim (int_of raw) [
        | none ↦ err (task_invalid_payload (append "Invalid integer field: " field) field)
        | some (pos (suc n)) ↦ ok (pos (suc n))
        | some _ ↦ err (task_invalid_payload (append "Field " (append field " must be > 0")) field)
      ])

  abbrev refused_field : List String → String
  refused_field keys =
      if contains keys "data_source_id"
      then "data_source_id"
      else if contains keys "rule_id"
      then "rule_id"
      else if contains keys "shop_id" || contains keys "shop_ids"
      then "shop_id"
      else "rule_id"

  unfoldable pub validate_shop_dashboard_target_shops :
      Tables Config (Payload Obj) → Payload Obj → Option TaskError
  validate_shop_dashboard_target_shops tables payload = elim (services.validator tables payload) [
    | accepted ↦ none
    | refused message keys ↦ some (task_invalid_payload message (refused_field keys))
    | broken message ↦ some (raised message)
  ]

  -- The validation of a payload of the collection of shop dashboards.
  unfoldable pub validate_collection_payload :
      Tables Config (Payload Obj) → Payload Obj → Result (Payload Obj)
  validate_collection_payload tables payload =
      elim (require_positive_int payload "data_source_id") [
        | err e ↦ err e
        | ok data_source_id ↦
            let with_source = put "data_source_id" (int data_source_id) payload in
            elim (require_positive_int with_source "rule_id") [
              | err e ↦ err e
              | ok rule_id ↦
                  let validated =
                    normalize_shop_selection_payload services.str
                      (put "rule_id" (int rule_id) with_source) in
                  if has_explicit_shop_selection payload
                    && not (ensure_explicit_shop_selection_valid services.str validated)
                  then err (task_invalid_payload "No target shops resolved" "shop_id")
                  else (elim (validate_shop_dashboard_target_shops tables validated) [
                    | some e ↦ err e
                    | none ↦ ok validated
                  ])
            ]
      ]

  unfoldable pub validate_payload :
      TaskType → Tables Config (Payload Obj) → Payload Obj → Result (Payload Obj)
  validate_payload shop_dashboard_collection tables payload =
      validate_collection_payload tables payload
  validate_payload etl_orders tables payload = ok payload
  validate_payload etl_products tables payload = ok payload

  -- `TaskDispatcherRegistry.dispatch`: `err` where it raises.
  unfoldable pub dispatch_task : TaskType → Payload Obj → Option ℕ → ℕ → Q → Result String × Q
  dispatch_task task_type payload triggered_by execution_id q = elim (services.handlers task_type) [
    | none ↦ (err task_push_failed, q)
    | some handler ↦
        let (answer, q') = handler payload triggered_by execution_id q in
        elim answer [
          | pushed queue_task_id ↦
              (if is_empty queue_task_id then err task_push_failed else ok queue_task_id, q')
          | refused_push message ↦ (err (raised message), q')
        ]
  ]

  -- The end of `run_task`, from what the dispatch gave: its `try` block and the `except` block.
  unfoldable pub finish_run :
      TaskExecution (Payload Obj)
      → Result String
      → ServiceState Config Obj
      → Result (TaskExecution (Payload Obj)) × ServiceState Config Obj
  finish_run execution (ok queue_task_id) s =
      let (updated, tables) =
        update_execution_row execution (record no_changes { queue_task_id = some queue_task_id })
          s.tables in
      (ok updated, emit (triggered_event updated) (commit (record s { tables = tables })))
  finish_run execution (err e) s =
      let (updated, tables) =
        update_execution_row execution
          (record no_changes {
            status = some failed;
            error_message = some (take_text 1000 (message_of e));
          })
          s.tables in
      (err e, commit (record s { tables = tables }))

  unfoldable pub execute :
      TaskDefinition Config
      → Payload Obj
      → Option ℕ
      → TaskTriggerMode
      → ServiceState Config Obj
      → Q
      → Result (TaskExecution (Payload Obj)) × ServiceState Config Obj × Q
  execute task payload triggered_by trigger_mode s q =
      let (created, s') = create_execution task payload trigger_mode none triggered_by false s in
      elim created [
        | none ↦ (err integrity_error, s', q)
        | some execution ↦
            let (answer, q') = dispatch_task task.task_type payload triggered_by execution.id q in
            let (result, s'') = finish_run execution answer s' in (result, s'', q')
      ]

  unfoldable pub run_task :
      ℕ
      → Payload Obj
      → Option ℕ
      → TaskTriggerMode
      → ServiceState Config Obj
      → Q
      → Result (TaskExecution (Payload Obj)) × ServiceState Config Obj × Q
  run_task task_id payload triggered_by trigger_mode s q = elim (get_task task_id s.tables) [
    | none ↦ (err (task_not_found task_id), s, q)
    | some task ↦
        if not (is_active task.status)
        then (err (task_invalid_status task_id task.status), s, q)
        else (elim (validate_payload task.task_type s.tables payload) [
          | err e ↦ (err e, s, q)
          | ok validated ↦ execute task validated triggered_by trigger_mode s q
        ])
  ]

  -- `others` is what other sessions commit between the first look at the table and the insertion.
  unfoldable pub get_or_create_task_by_type :
      TaskType
      → Option String
      → Option ℕ
      → (Tables Config (Payload Obj) → Tables Config (Payload Obj))
      → Option Config
      → ServiceState Config Obj
      → Result (TaskDefinition Config) × ServiceState Config Obj
  get_or_create_task_by_type task_type task_name created_by_id others empty_config s =
      elim (get_by_task_type task_type s.tables) [
        | some task ↦ (ok task, s)
        | none ↦
            let seen = others s.committed in
            let s' : ServiceState Config Obj = record s { tables = seen; committed = seen } in
            let name = text_or task_name (services.type_name task_type) in
            let (result, s'') = create_task name task_type active empty_config created_by_id s' in
            elim result [
              | ok task ↦ (ok task, s'')
              | err (task_already_exists t) ↦ elim (get_by_task_type task_type s''.tables) [
                | none ↦ (err (task_already_exists t), s'')
                | some task ↦ (ok task, s'')
              ]
              | err e ↦ (err e, s'')
            ]
      ]

  unfoldable pub run_task_by_type :
      TaskType
      → Payload Obj
      → Option ℕ
      → TaskTriggerMode
      → Option String
      → (Tables Config (Payload Obj) → Tables Config (Payload Obj))
      → Option Config
      → ServiceState Config Obj
      → Q
      → Result (TaskExecution (Payload Obj)) × ServiceState Config Obj × Q
  run_task_by_type task_type payload triggered_by trigger_mode task_name others empty_config s q =
      let (result, s') =
        get_or_create_task_by_type task_type task_name triggered_by others empty_config s in
      elim result [
        | ok task ↦ run_task task.id payload triggered_by trigger_mode s' q
        | err e ↦ (err e, s', q)
      ]
