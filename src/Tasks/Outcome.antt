-- ===== src/Tasks/Outcome.antt =====
-- What running a task comes to, for `run_task` and `_get_or_create_task_by_type` of
-- src/domains/task/services.py.
use douyin_data_dashboard.Prelude.{
  ℕ, ◌+◌, ◌≡◌, true, false, Option, none, some, List, [], ◌∷◌, ◌++◌, String, take_text,
}
use douyin_data_dashboard.Tasks.Selection.{Payload}
use douyin_data_dashboard.Tasks.Tables.{
  is_active, queued, failed, TaskTriggerMode, TaskDefinition, TaskExecution, Tables, get_task,
  insert_execution, update_execution_row,
}
use douyin_data_dashboard.Tasks.Service.{
  TaskDomainEvent, TaskError, task_not_found, task_invalid_status, integrity_error, Result, ok, err,
  ServiceState, Services, triggered_event, create_execution,
}
use douyin_data_dashboard.Tasks.Valid.{IsValid, map_last, first_row-some, any-first_row}
use douyin_data_dashboard.Tasks.Run.{
  validate_payload, dispatch_task, message_of, finish_run, execute, run_task,
}
use douyin_data_dashboard.Prelude.{
  any, ◌==◌, refl, ap, ◌∙◌, All, Bool-cases, Option-cases, inl, inr, ◌⊎◌, arith, ◌<◌,
}

Result-cases :
    {A : Type 0} (r : Result A) → ((e : TaskError) × (r ≡ err e)) ⊎ ((a : A) × (r ≡ ok a))
Result-cases (ok a) = inr (a, refl)
Result-cases (err e) = inl (e, refl)

module _ {Config Obj Q : Type 0} (services : Services Config Obj Q) where
  -- The row of a run before its dispatch.
  abbrev pub new_execution :
      TaskDefinition Config
      → Payload Obj
      → Option ℕ
      → TaskTriggerMode
      → ServiceState Config Obj
      → TaskExecution (Payload Obj)
  new_execution task payload triggered_by trigger_mode s = record {
    id = s.tables.next_execution;
    task_id = task.id;
    queue_task_id = none;
    status = queued;
    trigger_mode = trigger_mode;
    payload = payload;
    idempotency_key = none;
    rule_version = none;
    effective_config_snapshot = none;
    started_at = none;
    completed_at = none;
    processed_rows = 0;
    error_message = none;
    triggered_by = triggered_by;
  }

  -- The state once a run's row is in the table, committed, with the events then kept.
  abbrev pub with_execution :
      TaskExecution (Payload Obj)
      → List TaskDomainEvent
      → ServiceState Config Obj
      → ServiceState Config Obj
  with_execution row events s =
      let tables : Tables Config (Payload Obj) = record s.tables {
        executions = s.tables.executions ++ (row ∷ []);
        next_execution = s.tables.next_execution + 1;
      } in
      record { tables = tables; committed = tables; events = events }

  -- What a run gives, from what the dispatch of its new row answered: the row with the queue's id and
  -- one event, or the exception of the dispatch and the row as failed, with its message cut.
  abbrev pub run_result :
      TaskExecution (Payload Obj)
      → Result String
      → ServiceState Config Obj
      → Result (TaskExecution (Payload Obj)) × ServiceState Config Obj
  run_result row (ok queue_task_id) s =
      let sent : TaskExecution (Payload Obj) = record row { queue_task_id = some queue_task_id } in
      (ok sent, with_execution sent (s.events ++ (triggered_event sent ∷ [])) s)
  run_result row (err e) s =
      let lost : TaskExecution (Payload Obj) = record row {
        status = failed;
        error_message = some (take_text 1000 (message_of e));
      } in
      (err e, with_execution lost s.events s)

  -- Why a run is refused before anything is written.
  abbrev pub RefusedFor : ℕ → Payload Obj → ServiceState Config Obj → TaskError → Type 0
  RefusedFor task_id payload s e =
      ((get_task task_id s.tables ≡ none) × (e ≡ task_not_found task_id))
      ⊎ ((task : TaskDefinition Config) × (get_task task_id s.tables ≡ some task)
          × (((is_active task.status ≡ false) × (e ≡ task_invalid_status task_id task.status))
              ⊎ ((is_active task.status ≡ true)
                  × (validate_payload services task.task_type s.tables payload ≡ err e))))

  -- A state whose last execution is the given one.
  abbrev ended :
      Result (TaskExecution (Payload Obj))
      → List TaskDomainEvent
      → ServiceState Config Obj
      → List (TaskExecution (Payload Obj))
      → Result (TaskExecution (Payload Obj)) × ServiceState Config Obj
  ended result events s rows =
      let tables : Tables Config (Payload Obj) = record s.tables {
        executions = rows;
        next_execution = s.tables.next_execution + 1;
      } in
      (result, record { tables = tables; committed = tables; events = events })

  finish_run-result :
      (row : TaskExecution (Payload Obj)) (answer : Result String) (s : ServiceState Config Obj)
      → All (λ r. r.id < row.id) s.tables.executions
      → finish_run services row answer (with_execution row s.events s) ≡ run_result row answer s
  unfolding finish_run update_execution_row
  finish_run-result row (ok queue_task_id) s below =
      let sent : TaskExecution (Payload Obj) = record row { queue_task_id = some queue_task_id } in
      ap (ended (ok sent) (s.events ++ (triggered_event sent ∷ [])) s)
        (map_last s.tables.executions row sent below)
  finish_run-result row (err e) s below =
      let lost : TaskExecution (Payload Obj) = record row {
        status = failed;
        error_message = some (take_text 1000 (message_of e));
      } in
      ap (ended (err e) s.events s) (map_last s.tables.executions row lost below)

  -- A task that is found can be given an execution without a queue's id.
  task-there :
      (task_id : ℕ) (task : TaskDefinition Config) (t : Tables Config (Payload Obj))
      → get_task task_id t ≡ some task
      → any t.tasks (λ (row : TaskDefinition Config). row.id == task.id) ≡ true
  task-there task_id task t found =
      let named : task.id ≡ task_id = ground (
        arith,
        first_row-some (λ (row : TaskDefinition Config). row.id == task_id) t.tasks task found,
      ) in
      ap (λ n. any t.tasks (λ (row : TaskDefinition Config). row.id == n)) named
      ∙ any-first_row (λ (row : TaskDefinition Config). row.id == task_id) t.tasks task found

  created :
      (task : TaskDefinition Config) (payload : Payload Obj) (triggered_by : Option ℕ)
      (trigger_mode : TaskTriggerMode) (s : ServiceState Config Obj)
      → any s.tables.tasks (λ (row : TaskDefinition Config). row.id == task.id) ≡ true
      → let row = new_execution task payload triggered_by trigger_mode s in
        create_execution task payload trigger_mode none triggered_by false s
        ≡ (some row, with_execution row s.events s)
  unfolding create_execution insert_execution
  created task payload triggered_by trigger_mode s there = ground (arith, there)

  -- What a run does once its row was created, or was not.
  abbrev after_creation :
      TaskDefinition Config
      → Payload Obj
      → Option ℕ
      → Q
      → Option (TaskExecution (Payload Obj)) × ServiceState Config Obj
      → Result (TaskExecution (Payload Obj)) × ServiceState Config Obj × Q
  after_creation task payload triggered_by q (c, s') = elim c [
    | none ↦ (err integrity_error, s', q)
    | some execution ↦
        let (answer, q') =
          dispatch_task services task.task_type payload triggered_by execution.id q in
        let (result, s'') = finish_run services execution answer s' in (result, s'', q')
  ]

  execute-result :
      (task : TaskDefinition Config) (payload : Payload Obj) (triggered_by : Option ℕ)
      (trigger_mode : TaskTriggerMode) (s : ServiceState Config Obj) (q : Q)
      → any s.tables.tasks (λ (row : TaskDefinition Config). row.id == task.id) ≡ true
      → IsValid s.tables
      → let row = new_execution task payload triggered_by trigger_mode s in
        let (answer, q') = dispatch_task services task.task_type payload triggered_by row.id q in
        let (result, s') = run_result row answer s in
        execute services task payload triggered_by trigger_mode s q ≡ (result, s', q')
  unfolding execute
  execute-result task payload triggered_by trigger_mode s q there valid =
      let row = new_execution task payload triggered_by trigger_mode s in
      let (answer, q') = dispatch_task services task.task_type payload triggered_by row.id q in
      let made : create_execution task payload trigger_mode none triggered_by false s
          ≡ (some row, with_execution row s.events s) =
        created task payload triggered_by trigger_mode s there in
      ap (after_creation task payload triggered_by q) made
      ∙ ap (λ (r : Result (TaskExecution (Payload Obj)) × ServiceState Config Obj). (r.0, r.1, q'))
          (finish_run-result row answer s valid.1)

  -- Running a task on valid tables either is refused with its reason and changes nothing, or the task
  -- is active, its payload is valid and the run is dispatched: once, with the id of its new row. The
  -- row is then committed with the queue's id and one event is kept; or, where the dispatch raised, the
  -- row is committed as failed with the first 1000 characters of the message, no event is kept and the
  -- exception is passed on.
  pub run_task-outcome :
      (task_id : ℕ) (payload : Payload Obj) (triggered_by : Option ℕ)
      (trigger_mode : TaskTriggerMode) (s : ServiceState Config Obj) (q : Q)
      → IsValid s.tables
      → ((e : TaskError) × (run_task services task_id payload triggered_by trigger_mode s q
            ≡ (err e, s, q))
          × RefusedFor task_id payload s e)
        ⊎ ((task : TaskDefinition Config) × (validated : Payload Obj) × (get_task task_id s.tables
              ≡ some task)
            × (is_active task.status ≡ true)
            × (validate_payload services task.task_type s.tables payload ≡ ok validated)
            × (let row = new_execution task validated triggered_by trigger_mode s in
                let (answer, q') =
                  dispatch_task services task.task_type validated triggered_by row.id q in
                let (result, s') = run_result row answer s in
                run_task services task_id payload triggered_by trigger_mode s q ≡ (result, s', q')))
  unfolding run_task
  run_task-outcome task_id payload triggered_by trigger_mode s q valid =
      elim (Option-cases (get_task task_id s.tables)) [
        | inl missing ↦ inl (task_not_found task_id, ground (arith, missing), inl (missing, refl))
        | inr (task, found) ↦ elim (Bool-cases (is_active task.status)) [
          | inr idle ↦ inl (
            task_invalid_status task_id task.status,
            ground (arith, found, idle),
            inr (task, found, inl (idle, refl)),
          )
          | inl live ↦
              elim (Result-cases (validate_payload services task.task_type s.tables payload)) [
                | inl (e, bad) ↦
                    inl (e, ground (arith, found, live, bad), inr (task, found, inr (live, bad)))
                | inr (validated, good) ↦ inr (
                  task,
                  validated,
                  found,
                  live,
                  good,
                  ground (arith, found, live, good)
                      ∙ (execute-result task validated triggered_by trigger_mode s q
                          (task-there task_id task s.tables found) valid),
                )
              ]
        ]
      ]
