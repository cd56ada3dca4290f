-- ===== src/Tasks/Valid.antt =====
-- What the tables of src/domains/task/models.py keep true under every operation of
-- src/domains/task/services.py: ids that were given out before the next one, and one task per type.
use douyin_data_dashboard.Prelude.{
  ℕ, ◌+◌, ◌<◌, ◌==◌, ◌≡◌, refl, ap, ◌∙◌, Bool, true, false, ◌||◌, Option, none, some, List, [], ◌∷◌,
  ◌++◌, map, any, All, All-append, arith, if◌then◌else◌, Bool-cases, inl, inr, or_else, ◌⊎◌, String,
}
use douyin_data_dashboard.Tasks.Tables.{
  TaskType, type_eq, TaskDefinitionStatus, TaskDefinition, TaskExecution, Tables, first_row,
  insert_task,
}

-- No two tasks are of one type.
abbrev pub OnePerType : {Config : Type 0} → List (TaskDefinition Config) → Type 0
OnePerType [] = Unit
OnePerType (row ∷ rows) =
    (any rows (λ r. type_eq r.task_type row.task_type) ≡ false) × OnePerType rows

-- A number of the elements grows along the list.
abbrev pub IsGrowing : {A : Type 0} → (A → ℕ) → List A → Type 0
IsGrowing f [] = Unit
IsGrowing f (x ∷ xs) = All (λ y. f x < f y) xs × IsGrowing f xs

abbrev pub IsValid : {Config Payload : Type 0} → Tables Config Payload → Type 0
IsValid t =
    All (λ row. row.id < t.next_task) t.tasks
    × All (λ row. row.id < t.next_execution) t.executions
    × OnePerType t.tasks
    × IsGrowing (λ row. row.id) t.tasks
    × IsGrowing (λ row. row.id) t.executions

pub type_eq-lem : (a b : TaskType) → (type_eq a b ≡ true) → a ≡ b
type_eq-lem a b h = ground arith

-- The update of the row that was put in last changes that row only.
pub map_last :
    {Payload : Type 0} (rows : List (TaskExecution Payload)) (row updated : TaskExecution Payload)
    → All (λ r. r.id < row.id) rows
    → map (λ r. if r.id == row.id then updated else r) (rows ++ (row ∷ [])) ≡ rows ++ (updated ∷ [])
map_last [] row updated h = let same : (row.id == row.id) ≡ true = ground arith in rw same refl
map_last (r ∷ rows) row updated h =
    let other : (r.id == row.id) ≡ false = ground (arith, h) in
    rw other (ap (λ rs. r ∷ rs) (map_last rows row updated h.1))

any_append :
    {A : Type 0} (p : A → Bool) (xs : List A) (x : A) → any (xs ++ (x ∷ [])) p ≡ (any xs p || p x)
any_append p [] x = ground arith
any_append p (y ∷ xs) x = ground (arith, any_append p xs x)

pub All-map :
    {A : Type 0} (P : A → Type 0) (f : A → A) (xs : List A)
    → ((x : A) → P x → P (f x))
    → All P xs
    → All P (map f xs)
All-map P f [] step h = tt
All-map P f (x ∷ xs) step h = (step x h.0, All-map P f xs step h.1)

pub All-weaken :
    {A : Type 0} (P Q : A → Type 0) (xs : List A) → ((x : A) → P x → Q x) → All P xs → All Q xs
All-weaken P Q [] step h = tt
All-weaken P Q (x ∷ xs) step h = (step x h.0, All-weaken P Q xs step h.1)

pub type_eq_refl : (a : TaskType) → type_eq a a ≡ true
type_eq_refl a = ground arith

type_eq_comm : (a b : TaskType) → type_eq a b ≡ type_eq b a
type_eq_comm a b = ground arith

OnePerType-append :
    {Config : Type 0} (rows : List (TaskDefinition Config)) (row : TaskDefinition Config)
    → OnePerType rows
    → any rows (λ r. type_eq r.task_type row.task_type) ≡ false
    → OnePerType (rows ++ (row ∷ []))
OnePerType-append [] row h none' = (refl, tt)
OnePerType-append (r ∷ rows) row h none' = (
  any_append (λ q. type_eq q.task_type r.task_type) rows row
      ∙ ground (arith, h.0, none', type_eq_comm r.task_type row.task_type),
  OnePerType-append rows row h.1 (ground (arith, none')),
)

pub IsGrowing-append :
    {A : Type 0} (f : A → ℕ) (xs : List A) (x : A)
    → IsGrowing f xs
    → All (λ y. f y < f x) xs
    → IsGrowing f (xs ++ (x ∷ []))
IsGrowing-append f [] x h k = (tt, tt)
IsGrowing-append f (y ∷ xs) x h k =
    (All-append (λ z. f y < f z) xs (x ∷ []) h.0 (k.0, tt), IsGrowing-append f xs x h.1 k.1)

-- Inserting a task fails where its type is taken, and else adds a row to valid tables.
pub insert_task-cases :
    {Config Payload : Type 0} (name : String) (task_type : TaskType) (status : TaskDefinitionStatus)
    (config : Option Config) (by : Option ℕ) (t : Tables Config Payload)
    → IsValid t
    → ((insert_task name task_type status config by t ≡ none)
        × (any t.tasks (λ r. type_eq r.task_type task_type) ≡ true))
      ⊎ ((task : TaskDefinition Config) × (t' : Tables Config Payload) × (insert_task name task_type
              status config by t
            ≡ some (task, t'))
          × (task.task_type ≡ task_type)
          × (t'.tasks ≡ t.tasks ++ (task ∷ []))
          × (any t.tasks (λ r. type_eq r.task_type task_type) ≡ false)
          × IsValid t')
unfolding insert_task
insert_task-cases {Config = Config} name task_type status config by t
      (tasks, executions, one, ids, runs) =
    elim (Bool-cases (any t.tasks (λ r. type_eq r.task_type task_type))) [
      | inl taken ↦ inl (rw taken refl, taken)
      | inr free ↦
          let task : TaskDefinition Config = record {
            id = t.next_task;
            name = name;
            task_type = task_type;
            status = status;
            config = config;
            created_by_id = by;
            updated_by_id = by;
          } in
          inr (
            task,
            record t { tasks = t.tasks ++ (task ∷ []); next_task = t.next_task + 1 },
            rw free refl,
            refl,
            refl,
            free,
            (
              All-append (λ row. row.id < t.next_task + 1) t.tasks (task ∷ [])
                  (All-weaken (λ row. row.id < t.next_task) (λ row. row.id < t.next_task + 1)
                    t.tasks (λ row lt. omega arith) tasks)
                  (omega arith, tt),
              executions,
              OnePerType-append t.tasks task one free,
              IsGrowing-append (λ row. row.id) t.tasks task ids tasks,
              runs,
            ),
          )
    ]

-- A query finds a row where one passes its test, and none else.
pub first_row-any :
    {A : Type 0} (p : A → Bool) (xs : List A)
    → any xs p ≡ true
    → (x : A) × (first_row p xs ≡ some x) × (p x ≡ true)
first_row-any p [] h = cc
first_row-any p (x ∷ xs) h = elim (Bool-cases (p x)) [
  | inl e ↦ (x, rw e refl, e)
  | inr e ↦ let (y, found, q) = first_row-any p xs (ground (arith, h, e)) in (y, rw e found, q)
]

pub first_row-some :
    {A : Type 0} (p : A → Bool) (xs : List A) (x : A) → first_row p xs ≡ some x → p x ≡ true
first_row-some p [] x h = cc
first_row-some p (y ∷ xs) x h = elim (Bool-cases (p y)) [
  | inl e ↦ rw (← ap (λ o. or_else o y) (rw e at h)) e
  | inr e ↦ first_row-some p xs x (rw e at h)
]

pub any-first_row :
    {A : Type 0} (p : A → Bool) (xs : List A) (x : A) → first_row p xs ≡ some x → any xs p ≡ true
any-first_row p [] x h = cc
any-first_row p (y ∷ xs) x h = elim (Bool-cases (p y)) [
  | inl e ↦ rw e refl
  | inr e ↦ rw e (any-first_row p xs x (rw e at h))
]

pub first_row-append :
    {A : Type 0} (p : A → Bool) (xs : List A) (x : A)
    → any xs p ≡ false
    → p x ≡ true
    → first_row p (xs ++ (x ∷ [])) ≡ some x
first_row-append p [] x none' e = rw e refl
first_row-append p (y ∷ xs) x none' e =
    let skip : p y ≡ false = ground arith in rw skip (first_row-append p xs x (ground arith) e)
