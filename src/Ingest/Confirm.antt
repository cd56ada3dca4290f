-- ===== src/Ingest/Confirm.antt =====
-- `ImportService.confirm_import` of src/domains/data_import/service.py, row by row.
use Prim.Native.String.{◌++◌ as append}
use douyin_data_dashboard.Prelude.{
  ℕ, zero, suc, ◌+◌, String, Bool, true, false, ◌&&◌, ◌||◌, Option, none, some, List, [], ◌∷◌, ◌++◌,
  ltb, leb, ◌==◌, if◌then◌else◌, or_else, length,
}
use douyin_data_dashboard.Prelude.Dict.{values}
use douyin_data_dashboard.Import.Value.{Runtime}
use douyin_data_dashboard.Import.Validator.{Row}
use douyin_data_dashboard.Ingest.Mapping.{
  Builtins, FieldMapper, new_mapper, set_target_fields, add_manual_mappings, transform_data,
}
use douyin_data_dashboard.Ingest.Mapping
use douyin_data_dashboard.Ingest.Records.{
  ImportStatus, DataImportRecord, DataImportDetail, ImportError, invalid_status, is_status,
  update_status, update_counts, mark_completed, bulk_create, returned,
}
use douyin_data_dashboard.Ingest.World.{
  ImportCache, ImportJson, reply, decode_error, failure, World, Action, ◌>>=◌, ◌>>◌, done, fail,
  write, commit_now, require_record,
}

-- The counters and lists of the loop; `batch_details` are the rows that no batch has written yet.
pub record Progress (F : Type 0) : Type 0 where
  pub processed : ℕ
  pub success : ℕ
  pub failed : ℕ
  pub errors : List (ℕ × String)
  pub batch_details : List (DataImportDetail F)

abbrev pub start_of_loop : {F : Type 0} → Progress F
start_of_loop = record { processed = 0; success = 0; failed = 0; errors = []; batch_details = [] }

pub data Confirmation : Type 0 where
  was_cancelled : Confirmation
  confirmed : ℕ → ℕ → ℕ → List (ℕ × String) → Confirmation

-- `errors[:n]`
abbrev pub take {ℓ} : {A : Type ℓ} → ℕ → List A → List A
take zero xs = []
take (suc n) [] = []
take (suc n) (x ∷ xs) = x ∷ take n xs

module _ (r : Runtime) (b : Builtins r) (c : ImportCache) (json : ImportJson r.Float)
    (now : ℕ) where
  open r use {Float}

  -- `_get_progress_key`, `_get_cancel_key` and `_get_parse_cache_key`
  abbrev pub key_of : String → ℕ → String
  key_of word import_id = append "import:" (append (json.str_id import_id) (append ":" word))

  -- `_is_cancelled`
  unfoldable pub is_cancelled : ℕ → Action Float c Bool
  is_cancelled import_id w = elim w.cache [
    | none ↦ (returned false, w)
    | some s ↦
        let (answer, s') = c.exists (key_of "cancel" import_id) s in
        let w' : World Float c = record w { cache = some s' } in
        elim answer [
          | reply flag ↦ (returned flag, w')
          | decode_error text ↦ (returned false, w')
          | failure text ↦ (returned false, w')
        ]
  ]

  -- The mapper that `validate_data` and `confirm_import` build from the stored field mapping.
  unfoldable pub stored_mapper : DataImportRecord → FieldMapper Float
  unfolding new_mapper set_target_fields add_manual_mappings
  stored_mapper x =
      let field_mapping = or_else x.field_mapping [] in
      add_manual_mappings field_mapping (set_target_fields (values field_mapping) (new_mapper none))

  -- A row becomes a detail, of the mapped row or of the error that mapping it raised.
  unfoldable pub add_row : ℕ → FieldMapper Float → Row Float → Progress Float → Progress Float
  add_row import_id mapper row p =
      let row_number = p.processed + 1 in
      elim (transform_data r b mapper row) [
        | Mapping.ok mapped ↦ record p {
          processed = row_number;
          success = p.success + 1;
          batch_details =
              p.batch_details
              ++ (record {
                import_record_id = import_id;
                row_number = row_number;
                row_data = mapped;
                status = ImportStatus.success;
                error_message = none;
              })
                ∷ [];
        }
        | Mapping.raised text ↦ record p {
          processed = row_number;
          failed = p.failed + 1;
          errors = p.errors ++ (row_number, text) ∷ [];
          batch_details =
              p.batch_details
              ++ (record {
                import_record_id = import_id;
                row_number = row_number;
                row_data = row;
                status = ImportStatus.failed;
                error_message = some text;
              })
                ∷ [];
        }
      ]

  -- A full batch is written and committed with the counts so far.
  unfoldable pub flush : ℕ → ℕ → Progress Float → Action Float c (Progress Float)
  flush import_id batch_size p = elim (leb batch_size (length p.batch_details)) [
    | true ↦ do
      write (λ s. returned (bulk_create p.batch_details s))
      write (update_counts import_id none (some p.success) (some p.failed))
      commit_now
      done (record p { batch_details = [] })
    | false ↦ done p
  ]

  -- A cancellation that the loop sees: what is not yet written is dropped.
  abbrev pub stop : ℕ → Action Float c (Option (Progress Float))
  stop import_id = do
    write (update_status now import_id ImportStatus.cancelled none)
    commit_now
    done none

  -- The loop over the rows; `none` where it was cancelled.
  unfoldable pub confirm_rows :
      ℕ
      → FieldMapper Float
      → ℕ
      → List (Row Float)
      → Progress Float
      → Action Float c (Option (Progress Float))
  confirm_rows import_id mapper batch_size [] p = done (some p)
  confirm_rows import_id mapper batch_size (row ∷ rows) p = is_cancelled import_id >>= λ stopped.
      elim stopped [
        | true ↦ stop import_id
        | false ↦ flush import_id batch_size (add_row import_id mapper row p) >>= λ p'.
            confirm_rows import_id mapper batch_size rows p'
      ]

  -- The checks on the status before anything is written.
  unfoldable pub refusal : DataImportRecord → Option ImportError
  refusal x =
      let refuse = λ (text : String). some (invalid_status text x.id x.status) in
      if is_status x.status ImportStatus.cancelled
      then refuse "Import was cancelled"
      else if is_status x.status ImportStatus.processing
      then refuse "Import is processing"
      else if (is_status x.status ImportStatus.success || is_status x.status ImportStatus.partial)
          && (ltb 0 x.success_rows || ltb 0 x.failed_rows)
      then refuse "Import has already been completed"
      else if is_status x.status ImportStatus.failed
      then refuse "Import has failed"
      else none

  -- What follows the loop: the last batch, the counts, and the final status.
  unfoldable pub finish : ℕ → Progress Float → Action Float c Confirmation
  finish import_id p = do
    write (λ s. returned (bulk_create p.batch_details s))
    stopped ← is_cancelled import_id
    write (update_counts import_id (some p.processed) (some p.success) (some p.failed))
    elim stopped [
      | true ↦ do
        write (update_status now import_id ImportStatus.cancelled none)
        commit_now
        done was_cancelled
      | false ↦ do
        write (mark_completed now import_id p.success p.failed)
        commit_now
        done (confirmed p.processed p.success p.failed (take 100 p.errors))
    ]

  -- `confirm_import(import_id, rows, batch_size)`; a size that is missing or 0 is the default.
  unfoldable pub batch_size_of : Option ℕ → ℕ
  batch_size_of batch_size = let n = or_else batch_size 0 in if n == 0 then 1000 else n

  unfoldable pub confirm_import : ℕ → List (Row Float) → Option ℕ → Action Float c Confirmation
  confirm_import import_id rows batch_size = do
    x ← require_record import_id
    elim (refusal x) [
      | some e ↦ fail e
      | none ↦ do
        stopped ← is_cancelled import_id
        elim stopped [
          | true ↦ do
            write (update_status now import_id ImportStatus.cancelled none)
            commit_now
            done was_cancelled
          | false ↦ do
            write (update_status now import_id ImportStatus.processing none)
            commit_now
            result ←
                confirm_rows import_id (stored_mapper x) (batch_size_of batch_size) rows
                  start_of_loop
            elim result [ none ↦ done was_cancelled | some p ↦ finish import_id p ]
        ]
    ]
