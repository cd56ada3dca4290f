-- ===== src/Ingest/Rows.antt =====
-- The invariant of the loop over the rows in `confirm_import` of
-- src/domains/data_import/service.py, and what it ends with.
use mathlib.Core.List.{append-nil, append_assoc}
use douyin_data_dashboard.Prelude.{
  ℕ, suc, ◌+◌, ◌≡◌, refl, sym, ◌∙◌, ap, inl, inr, none, some, List, [], ◌∷◌, ◌++◌, arith,
  Bool-cases, length, leb, length-append,
}
use douyin_data_dashboard.Import.Value.{Runtime}
use douyin_data_dashboard.Import.Validator.{Row}
use douyin_data_dashboard.Ingest.Mapping.{Builtins, FieldMapper}
use douyin_data_dashboard.Ingest.Records.{
  ImportStatus, DataImportRecord, DataImportDetail, commit, returned, get_by_id, update_counts,
  bulk_create, set_counts,
}
use douyin_data_dashboard.Ingest.World.{ImportCache, ImportJson, World}
use douyin_data_dashboard.Ingest.Plain.{IsPlain, rename_fields, transform_data-plain}
use douyin_data_dashboard.Ingest.Confirm.{Progress, add_row, flush}
use douyin_data_dashboard.Ingest.Loop.{updated, update-updated, get_by_id-updated}

module _ {F : Type 0} (import_id : ℕ) (mapper : FieldMapper F) where
  -- The detail of a row that is mapped by renaming.
  abbrev pub detail_of : ℕ → Row F → DataImportDetail F
  detail_of row_number row = record {
    import_record_id = import_id;
    row_number = row_number;
    row_data = rename_fields row mapper.mappings [];
    status = ImportStatus.success;
    error_message = none;
  }

  -- The details of the rows in order, numbered from `n + 1`.
  abbrev pub details_from : ℕ → List (Row F) → List (DataImportDetail F)
  details_from n [] = []
  details_from n (row ∷ rows) = detail_of (n + 1) row ∷ details_from (n + 1) rows

  details_from-append :
      (n : ℕ) (rows : List (Row F)) (row : Row F)
      → details_from n (rows ++ row ∷ [])
        ≡ details_from n rows ++ detail_of (n + length rows + 1) row ∷ []
  details_from-append n [] row = ground arith
  details_from-append n (x ∷ rows) row = ground (arith, details_from-append (n + 1) rows row)

  pub length-details_from :
      (n : ℕ) (rows : List (Row F)) → length (details_from n rows) ≡ length rows
  length-details_from n [] = refl
  length-details_from n (row ∷ rows) = ap suc (length-details_from (n + 1) rows)

-- Where the loop stands after the rows `seen`: `kept` are the details that are written, `x` is the
-- record as the loop found it and `base` what the table of details held.
pub record IsAfter {F : Type 0} {c : ImportCache} (x : DataImportRecord)
    (base : List (DataImportDetail F)) (mapper : FieldMapper F) (seen : List (Row F))
    (p : Progress F) (w : World F c) : Type 0 where
  pub kept : List (DataImportDetail F)
  pub found :
      get_by_id x.id w.session ≡ some (record x { success_rows = length kept; failed_rows = 0 })
  pub stored : w.session.current.details ≡ base ++ kept
  pub split : kept ++ p.batch_details ≡ details_from x.id mapper 0 seen
  pub processed : p.processed ≡ length seen
  pub success : p.success ≡ length seen
  pub failed : p.failed ≡ 0
  pub errors : p.errors ≡ []

module _ (r : Runtime) (b : Builtins r) (c : ImportCache) (json : ImportJson r.Float) (now : ℕ)
    (x : DataImportRecord) (base : List (DataImportDetail r.Float)) (mapper : FieldMapper r.Float)
    (plain : IsPlain mapper.mappings) (batch_size : ℕ) where
  open r use {Float}

  add_row-plain :
      (row : Row Float) (p : Progress Float)
      → add_row r b c json now x.id mapper row p ≡ record p {
        processed = p.processed + 1;
        success = p.success + 1;
        batch_details = p.batch_details ++ detail_of x.id mapper (p.processed + 1) row ∷ [];
      }
  unfolding add_row
  add_row-plain row p = ground (arith, transform_data-plain r b mapper row plain)

  pub add_row-IsAfter :
      (row : Row Float) (seen : List (Row Float)) (p : Progress Float) (w : World Float c)
      → IsAfter x base mapper seen p w
      → IsAfter x base mapper (seen ++ row ∷ []) (add_row r b c json now x.id mapper row p) w
  add_row-IsAfter row seen p w h = rw (add_row-plain row p) (record {
    kept = h.kept;
    found = h.found;
    stored = h.stored;
    split =
        sym (append_assoc h.kept p.batch_details (detail_of x.id mapper (p.processed + 1) row ∷ []))
        ∙ ap
            (λ (ds : List (DataImportDetail Float)).
              ds ++ detail_of x.id mapper (p.processed + 1) row ∷ [])
            h.split
        ∙ ap (λ (n : ℕ). details_from x.id mapper 0 seen ++ detail_of x.id mapper (n + 1) row ∷ [])
            (omega (arith, h.processed))
        ∙ sym (details_from-append x.id mapper 0 seen row);
    processed = omega (arith, h.processed, length-append seen (row ∷ []));
    success = omega (arith, h.success, length-append seen (row ∷ []));
    failed = h.failed;
    errors = h.errors;
  })

  -- What a full batch leaves.
  abbrev flushed : Progress Float → World Float c → World Float c
  flushed p w = record w {
    session = commit (
        updated x.id (set_counts none (some p.success) (some p.failed))
          (bulk_create p.batch_details w.session));
  }

  -- The counts are those of the details that are written.
  counts-kept :
      (seen : List (Row Float)) (p : Progress Float) (w : World Float c)
      (h : IsAfter x base mapper seen p w)
      → p.success ≡ length (h.kept ++ p.batch_details)
  counts-kept seen p w h =
      h.success ∙ sym (length-details_from x.id mapper 0 seen) ∙ ap length (sym h.split)

  flushed-IsAfter :
      (seen : List (Row Float)) (p : Progress Float) (w : World Float c)
      → IsAfter x base mapper seen p w
      → IsAfter x base mapper seen (record p { batch_details = [] }) (flushed p w)
  unfolding bulk_create get_by_id
  flushed-IsAfter seen p w h =
      let s = bulk_create p.batch_details w.session in
      let f = set_counts none (some p.success) (some p.failed) in
      record {
        kept = h.kept ++ p.batch_details;
        found =
            get_by_id-updated x.id f s (record x { success_rows = length h.kept; failed_rows = 0 })
              h.found refl
            ∙ ground (arith, counts-kept seen p w h, h.failed);
        stored =
            ap (λ (ds : List (DataImportDetail Float)). ds ++ p.batch_details) h.stored
            ∙ append_assoc base h.kept p.batch_details;
        split = append-nil (h.kept ++ p.batch_details) ∙ h.split;
        processed = h.processed;
        success = h.success;
        failed = h.failed;
        errors = h.errors;
      }

  pub flush-IsAfter :
      (seen : List (Row Float)) (p : Progress Float) (w : World Float c)
      → IsAfter x base mapper seen p w
      → (p' : Progress Float) × (w' : World Float c) × (flush r b c json now x.id batch_size p w
          ≡ (returned p', w'))
        × IsAfter x base mapper seen p' w'
  unfolding flush bulk_create get_by_id update_counts
  flush-IsAfter seen p w h = elim (Bool-cases (leb batch_size (length p.batch_details))) [
    | inr small ↦ (p, w, ground (arith, small), h)
    | inl full ↦ (
      record p { batch_details = [] },
      flushed p w,
      ground (
        arith,
        full,
        update-updated x.id (set_counts none (some p.success) (some p.failed))
            (bulk_create p.batch_details w.session) h.found,
      ),
      flushed-IsAfter seen p w h,
    )
  ]
