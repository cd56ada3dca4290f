-- ===== src/Tasks/Single.antt =====
-- One task per type: `_get_or_create_task_by_type` of src/domains/task/services.py against other
-- sessions that create the task at the same time.
use douyin_data_dashboard.Prelude.{ℕ, ◌≡◌, Option, some, String}
use douyin_data_dashboard.Tasks.Selection.{Payload}
use douyin_data_dashboard.Tasks.Tables.{TaskType, TaskDefinition, Tables, get_by_task_type}
use douyin_data_dashboard.Tasks.Service.{ok, ServiceState, Services}
use douyin_data_dashboard.Tasks.Valid.{IsValid}
use douyin_data_dashboard.Tasks.Run.{get_or_create_task_by_type}

module _ {Config Obj Q : Type 0} (services : Services Config Obj Q) where
  -- What the call leaves: the task of the type, committed in valid tables, and any later call gives it
  -- again and changes nothing.
  abbrev pub HasTask : TaskType → TaskDefinition Config → ServiceState Config Obj → Type 0
  HasTask task_type task s =
      (task.task_type ≡ task_type)
      × (get_by_task_type task_type s.tables ≡ some task)
      × (s.committed ≡ s.tables)
      × IsValid s.tables
      × ((name : Option String) (by : Option ℕ)
            (others : Tables Config (Payload Obj) → Tables Config (Payload Obj))
            (config : Option Config)
          → get_or_create_task_by_type services task_type name by others config s ≡ (ok task, s))
