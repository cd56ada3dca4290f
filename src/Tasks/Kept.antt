-- ===== src/Tasks/Kept.antt =====
-- The writes of src/domains/task/repository.py keep the tables valid.
use douyin_data_dashboard.Prelude.{
  ℕ, ◌+◌, ◌<◌, ◌==◌, ◌≡◌, refl, sym, ap, ◌∙◌, Bool, false, not, some, List, [], ◌∷◌, ◌++◌, map, any,
  keep, All, All-append, All-keep, arith, if◌then◌else◌, Bool-cases, inl, inr, or_else,
}
use mathlib.Core.Path.{subst}
use douyin_data_dashboard.Tasks.Tables.{
  TaskType, type_eq, TaskDefinition, TaskExecution, Tables, TaskChanges, ExecutionChanges,
  first_row, get_task, change_task, change_execution, update_task_row, delete_task_row,
  update_execution_row,
}
use douyin_data_dashboard.Tasks.Valid.{
  IsValid, IsGrowing, OnePerType, All-map, All-weaken, IsGrowing-append,
}

module _ {A : Type 0} (f : A → ℕ) where
  pub IsGrowing-map :
      (g : A → A) (xs : List A)
      → ((x : A) → f (g x) ≡ f x)
      → IsGrowing f xs
      → IsGrowing f (map g xs)
  IsGrowing-map g [] same h = tt
  IsGrowing-map g (x ∷ xs) same h = (above xs h.0, IsGrowing-map g xs same h.1)
    where
      above : (ys : List A) → All (λ y. f x < f y) ys → All (λ y. f (g x) < f y) (map g ys)
      above [] k = tt
      above (y ∷ ys) k = (omega (arith, same x, same y, k.0), above ys k.1)

  IsGrowing-keep : (p : A → Bool) (xs : List A) → IsGrowing f xs → IsGrowing f (keep p xs)
  IsGrowing-keep p [] h = tt
  IsGrowing-keep p (x ∷ xs) h = elim (Bool-cases (p x)) [
    | inl here ↦ rw here (All-keep (λ y. f x < f y) p xs h.0, IsGrowing-keep p xs h.1)
    | inr away ↦ rw away (IsGrowing-keep p xs h.1)
  ]

  -- A row put in place of the one of its number leaves the numbers as they are.
  pub replaced_same : (x new : A) → f new ≡ f x → (y : A) → f (if f y == f x then new else y) ≡ f y
  replaced_same x new same y = elim (Bool-cases (f y == f x)) [
    | inl here ↦ rw here (ground arith)
    | inr away ↦ rw away refl
  ]

module _ {Config : Type 0} where
  any-keep :
      (p q : TaskDefinition Config → Bool) (rows : List (TaskDefinition Config))
      → any rows q ≡ false
      → any (keep p rows) q ≡ false
  any-keep p q [] h = refl
  any-keep p q (r ∷ rows) h = ground (arith, any-keep p q rows)

  OnePerType-keep :
      (p : TaskDefinition Config → Bool) (rows : List (TaskDefinition Config))
      → OnePerType rows
      → OnePerType (keep p rows)
  OnePerType-keep p [] h = tt
  OnePerType-keep p (r ∷ rows) h = elim (Bool-cases (p r)) [
    | inl here ↦
        rw here
          (any-keep p (λ q. type_eq q.task_type r.task_type) rows h.0, OnePerType-keep p rows h.1)
    | inr away ↦ rw away (OnePerType-keep p rows h.1)
  ]

  -- Rows that keep their types.
  abbrev SameTypes :
      (TaskDefinition Config → TaskDefinition Config) → List (TaskDefinition Config) → Type 0
  SameTypes g rows = All (λ r. (g r).task_type ≡ r.task_type) rows

  any-map :
      (g : TaskDefinition Config → TaskDefinition Config) (rows : List (TaskDefinition Config))
      (task_type : TaskType)
      → SameTypes g rows
      → any (map g rows) (λ r. type_eq r.task_type task_type)
        ≡ any rows (λ r. type_eq r.task_type task_type)
  any-map g [] task_type same = refl
  any-map g (r ∷ rows) task_type same = rw (same.0, any-map g rows task_type same.1) refl

  OnePerType-map :
      (g : TaskDefinition Config → TaskDefinition Config) (rows : List (TaskDefinition Config))
      → SameTypes g rows
      → OnePerType rows
      → OnePerType (map g rows)
  OnePerType-map g [] same h = tt
  OnePerType-map g (r ∷ rows) same h =
      (rw same.0 (any-map g rows r.task_type same.1 ∙ h.0), OnePerType-map g rows same.1 h.1)

  -- Only one row has the id of a row that was found.
  replaced-SameTypes :
      (rows : List (TaskDefinition Config)) (task new : TaskDefinition Config)
      → first_row (λ r. r.id == task.id) rows ≡ some task
      → new.task_type ≡ task.task_type
      → IsGrowing (λ r. r.id) rows
      → SameTypes (λ r. if r.id == task.id then new else r) rows
  replaced-SameTypes [] task new found same h = tt
  replaced-SameTypes (r ∷ rows) task new found same h = elim (Bool-cases (r.id == task.id)) [
    | inl here ↦
        let is : r ≡ task = ap (λ o. or_else o r) (rw here at found) in
        (
          rw here (same ∙ ap (λ (q : TaskDefinition Config). q.task_type) (sym is)),
          later rows
              (All-weaken (λ q. r.id < q.id) (λ q. task.id < q.id) rows (λ q lt. ground arith) h.0),
        )
    | inr away ↦ (rw away refl, replaced-SameTypes rows task new (rw away at found) same h.1)
  ]
    where
      later :
          (rows : List (TaskDefinition Config))
          → All (λ q. task.id < q.id) rows
          → SameTypes (λ r. if r.id == task.id then new else r) rows
      later [] k = tt
      later (q ∷ rows) k =
          let other : (q.id == task.id) ≡ false = ground (arith, k) in
          (rw other refl, later rows k.1)

module _ {Config Payload : Type 0} where
  pub update_task_row-IsValid :
      (task : TaskDefinition Config) (c : TaskChanges Config) (t : Tables Config Payload)
      → get_task task.id t ≡ some task
      → IsValid t
      → IsValid (update_task_row task c t).1
  unfolding update_task_row
  update_task_row-IsValid task c t found (tasks, executions, one, ids, runs) =
      let new = change_task c task in
      let same = replaced_same (λ (r : TaskDefinition Config). r.id) task new refl in
      let replace : TaskDefinition Config → TaskDefinition Config =
        λ r. if r.id == task.id then new else r in
      (
        All-map (λ r. r.id < t.next_task) replace t.tasks
            (λ r lt. subst (λ n. n < t.next_task) (sym (same r)) lt) tasks,
        executions,
        OnePerType-map replace t.tasks (replaced-SameTypes t.tasks task new found refl ids) one,
        IsGrowing-map (λ r. r.id) replace t.tasks same ids,
        runs,
      )

  pub update_execution_row-IsValid :
      (execution : TaskExecution Payload) (c : ExecutionChanges) (t : Tables Config Payload)
      → IsValid t
      → IsValid (update_execution_row execution c t).1
  unfolding update_execution_row
  update_execution_row-IsValid execution c t (tasks, executions, one, ids, runs) =
      let new = change_execution c execution in
      let same = replaced_same (λ (r : TaskExecution Payload). r.id) execution new refl in
      let replace : TaskExecution Payload → TaskExecution Payload =
        λ r. if r.id == execution.id then new else r in
      (
        tasks,
        All-map (λ r. r.id < t.next_execution) replace t.executions
            (λ r lt. subst (λ n. n < t.next_execution) (sym (same r)) lt) executions,
        one,
        ids,
        IsGrowing-map (λ r. r.id) replace t.executions same runs,
      )

  pub delete_task_row-IsValid :
      (task : TaskDefinition Config) (t : Tables Config Payload)
      → IsValid t
      → IsValid (delete_task_row task t)
  unfolding delete_task_row
  delete_task_row-IsValid task t (tasks, executions, one, ids, runs) =
      let others : TaskDefinition Config → Bool = λ row. not (row.id == task.id) in
      let other_runs : TaskExecution Payload → Bool = λ row. not (row.task_id == task.id) in
      (
        All-keep (λ r. r.id < t.next_task) others t.tasks tasks,
        All-keep (λ r. r.id < t.next_execution) other_runs t.executions executions,
        OnePerType-keep others t.tasks one,
        IsGrowing-keep (λ r. r.id) others t.tasks ids,
        IsGrowing-keep (λ r. r.id) other_runs t.executions runs,
      )

  -- A row with the next id put in at the end.
  pub append_execution-IsValid :
      (row : TaskExecution Payload) (t : Tables Config Payload)
      → row.id ≡ t.next_execution
      → IsValid t
      → IsValid (record t {
        executions = t.executions ++ (row ∷ []);
        next_execution = t.next_execution + 1;
      })
  append_execution-IsValid row t next (tasks, executions, one, ids, runs) = (
    tasks,
    All-append (λ r. r.id < t.next_execution + 1) t.executions (row ∷ [])
        (All-weaken (λ r. r.id < t.next_execution) (λ r. r.id < t.next_execution + 1) t.executions
          (λ r lt. omega arith) executions)
        (omega arith, tt),
    one,
    ids,
    IsGrowing-append (λ r. r.id) t.executions row runs
        (All-weaken (λ r. r.id < t.next_execution) (λ r. r.id < row.id) t.executions
          (λ r lt. omega arith) executions),
  )
