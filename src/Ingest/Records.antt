-- ===== src/Ingest/Records.antt =====
-- The tables of src/domains/data_import/models.py and the writes of
-- src/domains/data_import/repository.py, in a session that sees its own writes and shares them by a
-- commit. The database is taken to fail in no way but by the uniqueness of `batch_no`.
use douyin_data_dashboard.Prelude.{
  ℕ, ◌+◌, String, Bool, true, false, Option, none, some, List, [], ◌∷◌, ◌++◌, str_eq, ◌==◌,
  if◌then◌else◌, or_else, any,
}
use douyin_data_dashboard.Prelude.Dict.{Dict}
use douyin_data_dashboard.Import.Validator.{Row}

pub data ImportStatus : Type 0 where
  pending processing success failed partial cancelled validation_failed : ImportStatus

pub data FileType : Type 0 where
  excel csv : FileType

-- A moment is a count of clock ticks.
pub record DataImportRecord : Type 0 where
  pub id : ℕ
  pub batch_no : String
  pub data_source_id : Option ℕ
  pub file_name : String
  pub file_type : FileType
  pub file_size : ℕ
  pub file_path : String
  pub status : ImportStatus
  pub total_rows : ℕ
  pub success_rows : ℕ
  pub failed_rows : ℕ
  pub field_mapping : Option (Dict String)
  pub error_message : Option String
  pub started_at : Option ℕ
  pub completed_at : Option ℕ
  pub created_by_id : Option ℕ

pub record DataImportDetail (F : Type 0) : Type 0 where
  pub import_record_id : ℕ
  pub row_number : ℕ
  pub row_data : Row F
  pub status : ImportStatus
  pub error_message : Option String

pub record Tables (F : Type 0) : Type 0 where
  pub records : List DataImportRecord
  pub details : List (DataImportDetail F)
  pub next_id : ℕ

-- What the session sees, and what is committed.
pub record Session (F : Type 0) : Type 0 where
  pub current : Tables F
  pub committed : Tables F

-- The exceptions that the service and its tables raise; `other` has the text of any other.
pub data ImportError : Type 0 where
  record_not_found : ℕ → ImportError
  invalid_status : String → ℕ → ImportStatus → ImportError
  duplicate_batch_no : String → ImportError
  other : String → ImportError

pub data Outcome {ℓ} (A : Type ℓ) : Type ℓ where
  returned : A → Outcome A
  raised : ImportError → Outcome A

-- `self.session.commit()`
abbrev pub commit : {F : Type 0} → Session F → Session F
commit s = record s { committed = s.current }

abbrev pub find_record : ℕ → List DataImportRecord → Option DataImportRecord
find_record id [] = none
find_record id (x ∷ xs) = if x.id == id then some x else find_record id xs

abbrev pub change_record :
    ℕ → (DataImportRecord → DataImportRecord) → List DataImportRecord → List DataImportRecord
change_record id f [] = []
change_record id f (x ∷ xs) = if x.id == id then f x ∷ xs else x ∷ change_record id f xs

-- `status == other`
abbrev pub is_status : ImportStatus → ImportStatus → Bool
is_status pending pending = true
is_status processing processing = true
is_status success success = true
is_status failed failed = true
is_status partial partial = true
is_status cancelled cancelled = true
is_status validation_failed validation_failed = true
is_status _ _ = false

-- `update_status(record_id, status, error_message)`; `none` is `UNSET`
abbrev pub set_status :
    ℕ → ImportStatus → Option (Option String) → DataImportRecord → DataImportRecord
set_status now status error_message x = record x {
  status = status;
  error_message = or_else error_message x.error_message;
  started_at = if is_status status processing then some now else x.started_at;
}

-- `update_counts(record_id, total_rows, success_rows, failed_rows)`
abbrev pub set_counts : Option ℕ → Option ℕ → Option ℕ → DataImportRecord → DataImportRecord
set_counts total_rows success_rows failed_rows x = record x {
  total_rows = or_else total_rows x.total_rows;
  success_rows = or_else success_rows x.success_rows;
  failed_rows = or_else failed_rows x.failed_rows;
}

-- `mark_completed(record_id, success_rows, failed_rows)`
abbrev pub set_completed : ℕ → ℕ → ℕ → DataImportRecord → DataImportRecord
set_completed now success_rows failed_rows x = record x {
  status = if failed_rows == 0 then success else partial;
  success_rows = success_rows;
  failed_rows = failed_rows;
  completed_at = some now;
}

module _ {F : Type 0} where
  -- `DataImportRecordRepository.get_by_id`
  unfoldable pub get_by_id : ℕ → Session F → Option DataImportRecord
  get_by_id id s = find_record id s.current.records

  -- `DataImportRecordRepository.create`, of a record whose `id` the database gives
  unfoldable pub create : DataImportRecord → Session F → Outcome (DataImportRecord × Session F)
  create new s =
      let t = s.current in
      if any t.records (λ x. str_eq x.batch_no new.batch_no)
      then raised (duplicate_batch_no new.batch_no)
      else let added = record new { id = t.next_id } in
        returned (
          added,
          record s {
            current = record t { records = t.records ++ added ∷ []; next_id = t.next_id + 1 };
          },
        )

  -- `update(record_id, data)`, where `f` sets the attributes of `data`
  unfoldable pub update :
      ℕ → (DataImportRecord → DataImportRecord) → Session F → Outcome (Session F)
  unfolding get_by_id
  update id f s = elim (get_by_id id s) [
    | none ↦ raised (record_not_found id)
    | some x ↦
        returned (record s {
          current = record s.current { records = change_record id f s.current.records };
        })
  ]

  unfoldable pub update_status :
      ℕ → ℕ → ImportStatus → Option (Option String) → Session F → Outcome (Session F)
  unfolding update
  update_status now id status error_message s = update id (set_status now status error_message) s

  unfoldable pub update_counts :
      ℕ → Option ℕ → Option ℕ → Option ℕ → Session F → Outcome (Session F)
  unfolding update
  update_counts id total_rows success_rows failed_rows s =
      update id (set_counts total_rows success_rows failed_rows) s

  unfoldable pub mark_completed : ℕ → ℕ → ℕ → ℕ → Session F → Outcome (Session F)
  unfolding update
  mark_completed now id success_rows failed_rows s =
      update id (set_completed now success_rows failed_rows) s

  -- `DataImportDetailRepository.bulk_create`
  unfoldable pub bulk_create : List (DataImportDetail F) → Session F → Session F
  bulk_create details s = record s {
    current = record s.current { details = s.current.details ++ details };
  }
