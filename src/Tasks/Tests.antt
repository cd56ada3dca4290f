-- ===== src/Tasks/Tests.antt =====
-- Tasks at concrete tables.
use douyin_data_dashboard.Prelude.{
  ℕ, ◌≡◌, refl, true, false, none, some, List, [], ◌∷◌, ◌++◌, ◌⊎◌, arith, String, str_eq, strip,
  lstrip, rstrip, if◌then◌else◌, split_on, lower_is,
}
use douyin_data_dashboard.Prelude.Dict.{lookup}
use douyin_data_dashboard.Prelude.Int.{pos}
use douyin_data_dashboard.Tasks.Selection.{
  int, text, Texts, Payload, normalize_shop_selection, normalize_shop_selection_payload,
  parsed_shop_ids, parse_shop_ids, items_of, parse_optional_bool, put_shop_ids,
  has_explicit_shop_selection, ensure_explicit_shop_selection_valid,
}
use douyin_data_dashboard.Plan.Shops.{append_shops}
use douyin_data_dashboard.Tasks.Tables.{
  etl_orders, shop_dashboard_collection, active, queued, running, success, manual, TaskDefinition,
  TaskExecution, Tables, get_task, is_active, get_by_queue_task_id, insert_execution,
  update_execution_row,
}
use douyin_data_dashboard.Tasks.Service.{
  TaskError, ok, err, ServiceState, accepted, pushed, Services, create_execution,
}
use douyin_data_dashboard.Tasks.Run.{
  validate_payload, dispatch_task, run_task, finish_run, execute, validate_collection_payload,
  require_positive_int, validate_shop_dashboard_target_shops,
}
use douyin_data_dashboard.Tasks.Valid.{IsValid}
use douyin_data_dashboard.Tasks.Outcome.{RefusedFor, new_execution, run_result, run_task-outcome}
use douyin_data_dashboard.Tasks.Status.{StatusUpdate, sync_execution_status}
use douyin_data_dashboard.Tasks.Synced.{sync_all, reported, sync_all-reported}
use douyin_data_dashboard.Tasks.Reach.{Step, ran, here, after, report, IsSettled, Reach-IsSettled}
use douyin_data_dashboard.Tasks.Selected.{normalize_shop_selection_payload-selects}

abbrev texts_of : Texts String
texts_of = record { str_or_empty = λ o. o; int_or_empty = λ n. "7"; loads = λ t. none }

-- The queue is the list of the payloads that it got; it gives one id.
abbrev services : Services ℕ String (List ℕ)
services = record {
  handlers = λ task_type. elim task_type [
    | etl_orders ↦ none
    | _ ↦ some (λ payload by id q. (pushed "q-1", q ++ (id ∷ [])))
  ];
  validator = λ tables payload. accepted;
  str = texts_of;
  int_of_text = λ t. if str_eq t " 5 " then some (pos 5) else none;
  int_of_other = λ o. none;
  type_name = λ task_type. "a task";
}

abbrev collection : TaskDefinition ℕ
collection = record {
  id = 3;
  name = "collection";
  task_type = shop_dashboard_collection;
  status = active;
  config = none;
  created_by_id = none;
  updated_by_id = none;
}

abbrev first_execution : TaskExecution (Payload String)
first_execution = record {
  id = 8;
  task_id = 3;
  queue_task_id = some "q-0";
  status = queued;
  trigger_mode = manual;
  payload = [];
  idempotency_key = none;
  rule_version = none;
  effective_config_snapshot = none;
  started_at = none;
  completed_at = none;
  processed_rows = 0;
  error_message = none;
  triggered_by = none;
}

abbrev tables : Tables ℕ (Payload String)
tables = record {
  tasks = collection ∷ [];
  executions = first_execution ∷ [];
  next_task = 4;
  next_execution = 9;
}

abbrev state : ServiceState ℕ String
state = record { tables = tables; committed = tables; events = [] }

abbrev payload : Payload String
payload =
    ("data_source_id", text " 5 ") ∷ ("rule_id", int (pos 2)) ∷ ("shop_ids", text "a|b,a") ∷ []

-- The run is dispatched with the id of its new row.
dispatched : (run_task services 3 payload (some 1) manual state []).2 ≡ 9 ∷ []
unfolding run_task validate_payload validate_collection_payload require_positive_int
    validate_shop_dashboard_target_shops normalize_shop_selection_payload normalize_shop_selection
    parsed_shop_ids parse_shop_ids items_of parse_optional_bool put_shop_ids
    has_explicit_shop_selection ensure_explicit_shop_selection_valid append_shops split_on strip
    lstrip rstrip lower_is execute create_execution insert_execution dispatch_task finish_run
    update_execution_row
dispatched = refl

abbrev Outcome : ℕ → Type 0
Outcome task_id =
    ((e : TaskError) × (run_task services task_id payload (some 1) manual state []
        ≡ (err e, state, []))
      × RefusedFor services task_id payload state e)
    ⊎ ((task : TaskDefinition ℕ) × (validated : Payload String) × (get_task task_id tables
          ≡ some task)
        × (is_active task.status ≡ true)
        × (validate_payload services task.task_type tables payload ≡ ok validated)
        × (let row = new_execution services task validated (some 1) manual state in
            let (answer, q') = dispatch_task services task.task_type validated (some 1) row.id [] in
            let (result, s') = run_result services row answer state in
            run_task services task_id payload (some 1) manual state [] ≡ (result, s', q')))

tables-IsValid : IsValid tables
tables-IsValid = ((omega arith, tt), (omega arith, tt), (refl, tt), (tt, tt), (tt, tt))

run_task-outcome_example : Outcome 3
run_task-outcome_example =
    run_task-outcome services 3 payload (some 1) manual state [] tables-IsValid

-- Another session creates the task of the type first.
abbrev created_by_another : Tables ℕ (Payload String) → Tables ℕ (Payload String)
created_by_another t = record t {
  tasks =
      record {
        id = 4;
        name = "orders";
        task_type = etl_orders;
        status = active;
        config = none;
        created_by_id = none;
        updated_by_id = none;
      }
      ∷ [];
  next_task = 5;
}

abbrev started : StatusUpdate
started = record {
  status = running;
  started_at = some 100;
  completed_at = none;
  processed_rows = none;
  error_message = none;
  triggered_by = some 1;
}

abbrev finished : StatusUpdate
finished = record {
  status = success;
  started_at = none;
  completed_at = some 200;
  processed_rows = some 40;
  error_message = none;
  triggered_by = some 2;
}

sync_all-reported_example :
    (get_by_queue_task_id "q-0" (sync_all "q-0" (started ∷ finished ∷ []) tables)
      ≡ some (reported (started ∷ finished ∷ []) first_execution))
    × ((id : String)
        → str_eq id "q-0" ≡ false
        → get_by_queue_task_id id (sync_all "q-0" (started ∷ finished ∷ []) tables)
          ≡ get_by_queue_task_id id tables)
sync_all-reported_example =
    sync_all-reported "q-0" (started ∷ finished ∷ []) tables first_execution refl (tt, tt)

-- A start that is reported after the end leaves the execution running.
late_start :
    get_by_queue_task_id "q-0" (sync_all "q-0" (finished ∷ started ∷ []) tables)
    ≡ some (record first_execution {
      status = running;
      started_at = some 100;
      completed_at = some 200;
      processed_rows = 40;
      triggered_by = some 2;
    })
unfolding sync_all sync_execution_status update_execution_row
late_start = refl

normalize_shop_selection_payload-selects_example :
    (normalize_shop_selection texts_of (normalize_shop_selection_payload texts_of payload)
      ≡ normalize_shop_selection texts_of payload)
    × ((key : String)
        → str_eq "shop_id" key ≡ false
        → str_eq "shop_ids" key ≡ false
        → str_eq "all" key ≡ false
        → lookup key (normalize_shop_selection_payload texts_of payload) ≡ lookup key payload)
normalize_shop_selection_payload-selects_example =
    normalize_shop_selection_payload-selects texts_of payload

abbrev after_run : ServiceState ℕ String
after_run = (run_task services 3 payload (some 1) manual state []).1

Reach-IsSettled_example : IsSettled services (report services "q-1" started after_run)
Reach-IsSettled_example =
    Reach-IsSettled services state (report services "q-1" started after_run)
      (after state after_run (report services "q-1" started after_run)
        (after state state after_run (here state) (ran 3 payload (some 1) manual state []))
        (Step.reported "q-1" started after_run))
      (tables-IsValid, refl)
