-- ===== src/Tasks/Status.antt =====
-- The status of an execution as its worker reports it: src/tasks/status_store.py, and what
-- src/tasks/base.py reads of a run before it reports it. Both the hash in Redis and the row of the
-- execution are written; the scheduling of the second write is not modelled.
use Prim.Native.String.{◌++◌ as append}
use douyin_data_dashboard.Prelude.{
  ℕ, suc, Bool, true, false, Option, none, some, is_some, [], ◌∷◌, or_else, if◌then◌else◌, String,
  strip, is_empty,
}
use douyin_data_dashboard.Prelude.Dict.{Dict, lookup, put, update}
use douyin_data_dashboard.Prelude.Int.{ℤ, pos, pos_part}
use douyin_data_dashboard.Tasks.Tables.{
  TaskExecutionStatus, running, success, failed, TaskExecution, Tables, ExecutionChanges,
  get_by_queue_task_id, update_execution_row,
}

-- The arguments of `_sync_execution_status` but for the queue's id.
pub record StatusUpdate : Type 0 where
  pub status : TaskExecutionStatus
  pub started_at : Option ℕ
  pub completed_at : Option ℕ
  pub processed_rows : Option ℕ
  pub error_message : Option String
  pub triggered_by : Option ℕ

-- A field of a status hash.
pub data Field : Type 0 where
  text : String → Field
  number : ℕ → Field

-- The hashes of the status client and the tables.
pub record World (Config Payload : Type 0) : Type 0 where
  pub redis : Dict (Dict Field)
  pub tables : Tables Config Payload

abbrev pub changes_for :
    {Payload : Type 0} → StatusUpdate → TaskExecution Payload → ExecutionChanges
changes_for u execution = record {
  queue_task_id = none;
  status = some u.status;
  started_at = u.started_at;
  completed_at = u.completed_at;
  processed_rows = u.processed_rows;
  error_message = u.error_message;
  triggered_by = if is_some execution.triggered_by then none else u.triggered_by;
}

abbrev number_or_empty : Option ℕ → Field
number_or_empty none = text ""
number_or_empty (some n) = number n

module _ {Config Payload : Type 0} where
  -- The report on the row that was found, if any.
  abbrev pub sync_row :
      StatusUpdate → Tables Config Payload → Option (TaskExecution Payload) → Tables Config Payload
  sync_row u t none = t
  sync_row u t (some execution) = (update_execution_row execution (changes_for u execution) t).1

  unfoldable pub sync_execution_status :
      String → StatusUpdate → Tables Config Payload → Tables Config Payload
  sync_execution_status queue_task_id u t = sync_row u t (get_by_queue_task_id queue_task_id t)

  -- `_write_status_mapping`: the fields are set in the hash that is there.
  unfoldable pub write_status_mapping :
      String → Dict Field → World Config Payload → World Config Payload
  write_status_mapping key mapping w = record w {
    redis = put key (update (or_else (lookup key w.redis) []) mapping) w.redis;
  }

  -- `now` is `time.time()`.
  unfoldable pub write_started_task_status :
      String → String → Option ℕ → Option ℕ → ℕ → World Config Payload → World Config Payload
  write_started_task_status task_id task_name triggered_by execution_id now w =
      let w' =
        write_status_mapping (append "douyin:task:status:" task_id)
          (("status", text "STARTED")
            ∷ ("started_at", number now)
            ∷ ("task_name", text task_name)
            ∷ ("triggered_by", number_or_empty triggered_by)
            ∷ ("execution_id", number_or_empty execution_id)
            ∷ [])
          w in
      let started : StatusUpdate = record {
        status = running;
        started_at = some now;
        completed_at = none;
        processed_rows = none;
        error_message = none;
        triggered_by = triggered_by;
      } in
      record w' { tables = sync_execution_status task_id started w'.tables }

  unfoldable pub write_finished_task_status :
      String
      → String
      → Bool
      → ℕ
      → Option ℕ
      → Option ℕ
      → Option String
      → World Config Payload
      → World Config Payload
  write_finished_task_status task_id task_name succeeded completed_at triggered_by processed_rows
        error_message w =
      let w' =
        write_status_mapping (append "douyin:task:status:" task_id)
          (("status", text (if succeeded then "SUCCESS" else "FAILED"))
            ∷ ("completed_at", number completed_at)
            ∷ ("task_name", text task_name)
            ∷ ("triggered_by", number_or_empty triggered_by)
            ∷ ("processed_rows", number (or_else processed_rows 0))
            ∷ ("error_message", text (or_else error_message ""))
            ∷ [])
          w in
      let finished : StatusUpdate = record {
        status = if succeeded then success else failed;
        started_at = none;
        completed_at = some completed_at;
        processed_rows = processed_rows;
        error_message = error_message;
        triggered_by = triggered_by;
      } in
      record w' { tables = sync_execution_status task_id finished w'.tables }

-- A value of a task's body or result: a float by what `is_integer` and `int` say of it.
pub data Value : Type 0 where
  bool : Bool → Value
  int : ℤ → Value
  float : Option ℤ → Value
  str : String → Value
  other : Value

-- `int(text)`, and `float(text)` as above; `none` where they raise.
pub record Numbers : Type 0 where
  pub int_of_text : String → Option ℤ
  pub float_of_text : String → Option (Option ℤ)

abbrev str_of : Option Value → Option String
str_of (some (str t)) = if is_empty t then none else some t
str_of _ = none

-- The first value that is there; a body or result that is no dict is `none`.
abbrev value_at : String → Option (Dict Value) → Option Value
value_at key none = none
value_at key (some d) = lookup key d

unfoldable pub resolve_error_message :
    Option (Dict Value) → Option (Dict Value) → Option String → Bool → Option String
resolve_error_message body result exception_msg true = none
resolve_error_message body result exception_msg false =
    elim (str_of (value_at "error_message" result)) [
      | some message ↦ some message
      | none ↦ elim (str_of (value_at "error_message" body)) [
        | some message ↦ some message
        | none ↦ elim exception_msg [
          | none ↦ none
          | some message ↦ if is_empty message then none else some message
        ]
      ]
    ]

module _ (py : Numbers) where
  unfoldable pub normalize_int : Bool → Value → Option ℤ
  normalize_int allow_float (bool b) = none
  normalize_int allow_float (int n) = some n
  normalize_int allow_float (float whole) = if allow_float then whole else none
  normalize_int allow_float other = none
  normalize_int allow_float (str value) =
      let t = strip value in
      if is_empty t then none else (elim (py.int_of_text t) [
        | some n ↦ some n
        | none ↦ if allow_float then or_else (py.float_of_text t) none else none
      ])

  abbrev int_at : Bool → Option Value → Option ℤ
  int_at allow_float none = none
  int_at allow_float (some v) = normalize_int allow_float v

  unfoldable pub resolve_processed_rows : Option (Dict Value) → Option (Dict Value) → Option ℕ
  resolve_processed_rows body result = elim (int_at true (value_at "processed_rows" result)) [
    | some n ↦ some (pos_part n)
    | none ↦ elim (int_at true (value_at "processed_rows" body)) [
      | some n ↦ some (pos_part n)
      | none ↦ none
    ]
  ]

  abbrev positive : Option ℤ → Option ℕ
  positive (some (pos (suc n))) = some (suc n)
  positive _ = none

  unfoldable pub resolve_triggered_by : Option (Dict Value) → Option (Dict Value) → Option ℕ
  resolve_triggered_by body result = elim (int_at false (value_at "triggered_by" result)) [
    | some n ↦ positive (some n)
    | none ↦ positive (int_at false (value_at "triggered_by" body))
  ]
