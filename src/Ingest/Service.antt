-- ===== src/Ingest/Service.antt =====
-- The other operations of `ImportService` in src/domains/data_import/service.py.
use douyin_data_dashboard.Prelude.{
  ℕ, ◌+◌, String, Bool, true, false, not, ◌&&◌, Option, none, some, List, [], ◌∷◌, str_eq, ltb,
  if◌then◌else◌, or_else, length, is_empty,
}
use douyin_data_dashboard.Prelude.Dict.{Dict}
use douyin_data_dashboard.Prelude.Dict.{update as dict_update}
use douyin_data_dashboard.Import.Value.{Runtime}
use douyin_data_dashboard.Import.Result.{ValidationResult}
use douyin_data_dashboard.Import.Validator.{Row}
use douyin_data_dashboard.Import.Service.{Registry}
use douyin_data_dashboard.Import.Summary.{Summary, validate_and_summarize}
use douyin_data_dashboard.Ingest.Mapping
use douyin_data_dashboard.Ingest.Mapping.{
  Builtins, FieldMapper, new_mapper, set_target_fields, add_manual_mappings, get_mapping_dict,
  transform_data,
}
use douyin_data_dashboard.Ingest.Records
use douyin_data_dashboard.Ingest.Records.{
  ImportStatus, FileType, DataImportRecord, ImportError, other, Outcome, returned, raised,
  get_by_id, create, update_status, update_counts,
}
use douyin_data_dashboard.Ingest.World.{
  ImportCache, ImportJson, reply, decode_error, failure, Action, ◌>>=◌, ◌>>◌, done, fail, write,
  commit_now, require_record, settle,
}
use douyin_data_dashboard.Ingest.Confirm.{key_of, stored_mapper}

-- What `get_progress` answers: a text that the cache holds, or the counts of the record.
pub data ProgressAnswer : Type 0 where
  cached_text : String → ProgressAnswer
  of_record : ImportStatus → ℕ → ℕ → ℕ → ℕ → ProgressAnswer

-- `str(e)` of what parsing the file of a record that is there raises, which is `other` each time.
abbrev pub error_text : ImportError → String
error_text (Records.other text) = text
error_text _ = ""

module _ (r : Runtime) (b : Builtins r) (c : ImportCache) (json : ImportJson r.Float)
    (now : ℕ) where
  open r use {Float}

  abbrev Do : Type 0 → Type 0
  Do A = Action Float c A

  -- `upload_file`
  unfoldable pub upload_file :
      String → String → ℕ → String → ℕ → String → Option ℕ → Action Float c DataImportRecord
  upload_file file_path file_name file_size file_type data_source_id batch_no user_id w =
      elim (create
        (record {
          id = 0;
          batch_no = batch_no;
          data_source_id = some data_source_id;
          file_name = file_name;
          file_type = if str_eq file_type "excel" then FileType.excel else FileType.csv;
          file_size = file_size;
          file_path = file_path;
          status = ImportStatus.pending;
          total_rows = 0;
          success_rows = 0;
          failed_rows = 0;
          field_mapping = none;
          error_message = none;
          started_at = none;
          completed_at = none;
          created_by_id = user_id;
        })
        w.session) [
          | raised e ↦ (raised e, w)
          | returned (x, s) ↦ (commit_now >> done x) (record w { session = s })
        ]

  -- `await self.redis.set(key, text, ttl=3600)`; `swallow` where every exception is passed over
  abbrev pub cache_set : Bool → String → String → Action Float c (Unit {0})
  cache_set swallow key text w = elim w.cache [
    | none ↦ (returned tt, w)
    | some s ↦
        let (answer, s') = c.set key text 3600 s in
        elim swallow [
          | true ↦ (returned tt, record w { cache = some s' })
          | false ↦ elim answer [
            | reply _ ↦ (returned tt, record w { cache = some s' })
            | decode_error text ↦ (raised (other text), record w { cache = some s' })
            | failure text ↦ (raised (other text), record w { cache = some s' })
          ]
        ]
  ]

  -- The rows that the cache holds for the record's file, if it holds any.
  unfoldable pub cached_rows : DataImportRecord → Action Float c (Option (List (Row Float)))
  cached_rows x w = elim w.cache [
    | none ↦ (returned none, w)
    | some s ↦
        let (answer, s') = c.get (key_of r b c json now "parse_cache" x.id) s in
        (settle none (some s') answer >>= λ cached. elim cached [
          | none ↦ done none
          | some raw ↦ if is_empty raw then done none else elim (json.loads_rows raw) [
            | none ↦ done none
            | some (path, rows) ↦
                if elim path [ none ↦ false | some p ↦ str_eq p x.file_path ]
                then elim rows [ some xs ↦ done (some xs) | none ↦ fail (other "'rows'") ]
                else done none
          ]
        ])
          w
  ]

  -- The file's rows, with what is stored about them.
  unfoldable pub parse_and_store : ℕ → String → List (Row Float) → Action Float c (List (Row Float))
  parse_and_store import_id file_path rows = do
    cache_set false (key_of r b c json now "progress" import_id)
        (json.dumps_progress "parsing" (length rows) (length rows))
    cache_set true (key_of r b c json now "parse_cache" import_id) (json.dumps_rows file_path rows)
    write (update_counts import_id (some (length rows)) none none)
    commit_now
    done rows

  -- An exception while parsing marks the record as failed, and is raised again.
  abbrev pub or_mark_failed : {A : Type 0} → ℕ → Action Float c A → Action Float c A
  or_mark_failed import_id m w =
      let (o, w') = m w in
      elim o [
        | returned a ↦ (returned a, w')
        | raised e ↦
            (write (update_status now import_id ImportStatus.failed (some (some (error_text e))))
                >> commit_now
                >> fail e)
              w'
      ]

  -- `parse_file`; `parse` is `FileParser`, which gives the rows or raises.
  unfoldable pub parse_file :
      (String → Mapping.Result (List (Row Float))) → ℕ → Action Float c (List (Row Float))
  unfolding cached_rows parse_and_store
  parse_file parse import_id = do
    x ← require_record import_id
    cached ← cached_rows x
    elim cached [
      | some rows ↦ done rows
      | none ↦ or_mark_failed import_id (elim (parse x.file_path) [
        | Mapping.raised text ↦ fail (other text)
        | Mapping.ok rows ↦ parse_and_store import_id x.file_path rows
      ])
    ]

  -- `not record.field_mapping`
  abbrev pub is_none_or_empty : Option (Dict String) → Bool
  is_none_or_empty none = true
  is_none_or_empty (some []) = true
  is_none_or_empty (some (entry ∷ entries)) = false

  -- `apply_mapping`. A mapping that is there is changed in place and set as itself; the session sees no
  -- change in that, so the row keeps its mapping, and the object dies with the session.
  unfoldable pub apply_mapping : ℕ → Dict String → List String → Action Float c (Unit {0})
  unfolding new_mapper set_target_fields add_manual_mappings get_mapping_dict
  apply_mapping import_id mappings target_fields = do
    x ← require_record import_id
    let mapper : FieldMapper Float =
        add_manual_mappings mappings (set_target_fields target_fields (new_mapper none))
    let merged = dict_update (or_else x.field_mapping []) (get_mapping_dict mapper)
    let in_place = not (is_none_or_empty x.field_mapping)
    write (
        Records.update import_id
          (λ y. if in_place then y else record y { field_mapping = some merged }))
    commit_now

  -- `[mapper.transform_data(row) for row in rows]`
  unfoldable pub mapped_rows :
      FieldMapper Float → List (Row Float) → Action Float c (List (Row Float))
  mapped_rows mapper [] = done []
  mapped_rows mapper (row ∷ rows) = elim (transform_data r b mapper row) [
    | Mapping.raised text ↦ fail (other text)
    | Mapping.ok mapped ↦ mapped_rows mapper rows >>= λ rest. done (mapped ∷ rest)
  ]

  -- `validate_data`
  unfoldable pub validate_data :
      Registry r
      → ℕ
      → List (Row Float)
      → String
      → Action Float c (Summary × List (ValidationResult Float))
  unfolding mapped_rows stored_mapper
  validate_data registry import_id rows data_type = do
    x ← require_record import_id
    write (update_status now import_id ImportStatus.processing none)
    commit_now
    mapped ← mapped_rows (stored_mapper r b c json now x) rows
    elim (validate_and_summarize r registry data_type mapped [] none) [
      | none ↦ fail (other "")
      | some (summary, results) ↦ do
        write (
            update_status now import_id
              (if ltb 0 summary.failed
                then ImportStatus.validation_failed
                else ImportStatus.success)
              none)
        commit_now
        done (summary, results)
    ]

  -- `cancel_import`
  unfoldable pub cancel_import : ℕ → Action Float c (Unit {0})
  cancel_import import_id = do
    cache_set true (key_of r b c json now "cancel" import_id) "1"
    write (update_status now import_id ImportStatus.cancelled none)
    commit_now

  -- `get_progress`; `none` is the answer `None`
  unfoldable pub get_progress : ℕ → Action Float c (Option ProgressAnswer)
  get_progress import_id w = elim w.cache [
    | none ↦ (returned none, w)
    | some s ↦
        let (answer, s') = c.get (key_of r b c json now "progress" import_id) s in
        (settle none (some s') answer >>= λ data_text.
        if not (is_empty (or_else data_text "")) && json.reads (or_else data_text "")
        then done (some (cached_text (or_else data_text "")))
        else λ v. elim (get_by_id import_id v.session) [
          | none ↦ (returned none, v)
          | some x ↦ (
            returned (
                some (
                  of_record x.status x.total_rows (x.success_rows + x.failed_rows) x.success_rows
                    x.failed_rows)),
            v,
          )
        ])
          w
  ]
