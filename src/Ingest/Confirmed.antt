-- ===== src/Ingest/Confirmed.antt =====
-- What `confirm_import` of src/domains/data_import/service.py ends with, whatever the polls of the
-- cancel flag answer.
use mathlib.Core.Path.{subst}
use mathlib.Core.List.{append-nil, append_assoc}
use douyin_data_dashboard.Prelude.{
  ℕ, ◌+◌, ◌≡◌, refl, sym, ◌∙◌, ap, ◌⊎◌, inl, inr, Bool, true, false, none, some, List, [], ◌∷◌,
  ◌++◌, arith, length,
}
use douyin_data_dashboard.Import.Value.{Runtime}
use douyin_data_dashboard.Import.Validator.{Row}
use douyin_data_dashboard.Ingest.Mapping.{Builtins, FieldMapper}
use douyin_data_dashboard.Ingest.Records.{
  ImportStatus, DataImportRecord, DataImportDetail, Session, commit, returned, get_by_id,
  update_status, set_status,
}
use douyin_data_dashboard.Ingest.World.{ImportCache, ImportJson, World}
use douyin_data_dashboard.Ingest.Plain.{IsPlain}
use douyin_data_dashboard.Ingest.Confirm.{Progress, is_cancelled, add_row, flush, confirm_rows}
use douyin_data_dashboard.Ingest.Loop.{
  updated, update-updated, get_by_id-updated, IsQuiet, is_cancelled-session,
}
use douyin_data_dashboard.Ingest.Rows.{details_from, IsAfter, add_row-IsAfter, flush-IsAfter}

-- A cancelled import: the first details of the rows are written and counted, and that is committed.
pub record IsStopped {F : Type 0} {c : ImportCache} (id : ℕ) (base : List (DataImportDetail F))
    (mapper : FieldMapper F) (rows : List (Row F)) (w : World F c) : Type 0 where
  pub kept : List (DataImportDetail F)
  pub dropped : List (DataImportDetail F)
  pub last : DataImportRecord
  pub found : get_by_id id w.session ≡ some last
  pub status : last.status ≡ ImportStatus.cancelled
  pub success : last.success_rows ≡ length kept
  pub failed : last.failed_rows ≡ 0
  pub stored : w.session.current.details ≡ base ++ kept
  pub split : kept ++ dropped ≡ details_from id mapper 0 rows
  pub committed : w.session.committed ≡ w.session.current

-- An import that is through: one detail for each row, in order, and all of them counted.
pub record IsImported {F : Type 0} {c : ImportCache} (now : ℕ) (x : DataImportRecord)
    (base : List (DataImportDetail F)) (mapper : FieldMapper F) (rows : List (Row F))
    (w : World F c) : Type 0 where
  pub found :
      get_by_id x.id w.session
      ≡ some (record x {
        status = ImportStatus.success;
        total_rows = length rows;
        success_rows = length rows;
        failed_rows = 0;
        started_at = some now;
        completed_at = some now;
      })
  pub stored : w.session.current.details ≡ base ++ details_from x.id mapper 0 rows
  pub committed : w.session.committed ≡ w.session.current

module _ (r : Runtime) (b : Builtins r) (c : ImportCache) (json : ImportJson r.Float) (now : ℕ)
    (x : DataImportRecord) (base : List (DataImportDetail r.Float))
    (mapper : FieldMapper r.Float) where
  open r use {Float}

  abbrev pub set_cancelled : DataImportRecord → DataImportRecord
  set_cancelled y = set_status now ImportStatus.cancelled none y

  -- What a cancellation leaves.
  abbrev pub stopped : World Float c → World Float c
  stopped w = record w { session = commit (updated x.id set_cancelled w.session) }

  row_stops :
      (batch_size : ℕ) (row : Row Float) (rows : List (Row Float)) (p : Progress Float)
      (w w1 : World Float c) {y : DataImportRecord}
      → is_cancelled r b c json now x.id w ≡ (returned true, w1)
      → get_by_id x.id w1.session ≡ some y
      → confirm_rows r b c json now x.id mapper batch_size (row ∷ rows) p w
        ≡ (returned none, stopped w1)
  unfolding confirm_rows update_status
  row_stops batch_size row rows p w w1 poll found =
      ground (arith, poll, update-updated x.id set_cancelled w1.session found)

  row_passes :
      (batch_size : ℕ) (row : Row Float) (rows : List (Row Float)) (p p' : Progress Float)
      (w w1 w2 : World Float c)
      → is_cancelled r b c json now x.id w ≡ (returned false, w1)
      → flush r b c json now x.id batch_size (add_row r b c json now x.id mapper row p) w1
        ≡ (returned p', w2)
      → confirm_rows r b c json now x.id mapper batch_size (row ∷ rows) p w
        ≡ confirm_rows r b c json now x.id mapper batch_size rows p' w2
  unfolding confirm_rows
  row_passes batch_size row rows p p' w w1 w2 poll flushed = ground (arith, poll, flushed)

  pub IsAfter-session :
      (seen : List (Row Float)) (p : Progress Float) (w w1 : World Float c)
      → w1.session ≡ w.session
      → IsAfter x base mapper seen p w
      → IsAfter x base mapper seen p w1
  IsAfter-session seen p w w1 same h = record {
    kept = h.kept;
    found = ap (get_by_id x.id) same ∙ h.found;
    stored = ap (λ (s : Session Float). s.current.details) same ∙ h.stored;
    split = h.split;
    processed = h.processed;
    success = h.success;
    failed = h.failed;
    errors = h.errors;
  }

  details_from-prefix :
      (n : ℕ) (seen rows : List (Row Float))
      → (rest : List (DataImportDetail Float)) × (details_from x.id mapper n (seen ++ rows)
          ≡ details_from x.id mapper n seen ++ rest)
  details_from-prefix n [] rows = (details_from x.id mapper n rows, refl)
  details_from-prefix n (row ∷ seen) rows =
      let (rest, e) = details_from-prefix (n + 1) seen rows in (rest, ground (arith, e))

  -- A cancellation drops the rows that no batch has written.
  stopped-IsStopped :
      (seen rows : List (Row Float)) (p : Progress Float) (w : World Float c)
      → IsAfter x base mapper seen p w
      → IsStopped x.id base mapper (seen ++ rows) (stopped w)
  unfolding get_by_id
  stopped-IsStopped seen rows p w h =
      let y = record x { success_rows = length h.kept; failed_rows = 0 } in
      let (rest, e) = details_from-prefix 0 seen rows in
      record {
        kept = h.kept;
        dropped = p.batch_details ++ rest;
        last = set_cancelled y;
        found = get_by_id-updated x.id set_cancelled w.session y h.found refl;
        status = refl;
        success = refl;
        failed = refl;
        stored = h.stored;
        split =
            sym (append_assoc h.kept p.batch_details rest)
            ∙ ap (λ (ds : List (DataImportDetail Float)). ds ++ rest) h.split
            ∙ sym e;
        committed = refl;
      }

  -- The loop over `rows` returns where it stands after all rows, or it stops as cancelled, which a
  -- quiet cache never makes it do.
  abbrev pub Ends :
      ℕ → List (Row Float) → List (Row Float) → Progress Float → World Float c → Type 0
  Ends batch_size all rows p w =
      ((w' : World Float c) × (confirm_rows r b c json now x.id mapper batch_size rows p w
          ≡ (returned none, w'))
        × IsStopped x.id base mapper all w'
        × ¬ IsQuiet r b c json now x.id)
      ⊎ ((p' : Progress Float) × (w' : World Float c) × (confirm_rows r b c json now x.id mapper
              batch_size rows p w
            ≡ (returned (some p'), w'))
          × IsAfter x base mapper all p' w')

  -- The end of the rest is the end of the whole.
  Ends-passes :
      (batch_size : ℕ) (all rows : List (Row Float)) (row : Row Float) (p p' : Progress Float)
      (w w' : World Float c)
      → confirm_rows r b c json now x.id mapper batch_size (row ∷ rows) p w
        ≡ confirm_rows r b c json now x.id mapper batch_size rows p' w'
      → Ends batch_size all rows p' w'
      → Ends batch_size all (row ∷ rows) p w
  Ends-passes batch_size all rows row p p' w w' e (inl (v, run, stop, loud)) =
      inl (v, e ∙ run, stop, loud)
  Ends-passes batch_size all rows row p p' w w' e (inr (q, v, run, h)) = inr (q, v, e ∙ run, h)

  module _ (plain : IsPlain mapper.mappings) (batch_size : ℕ) where
    -- One row, with what holds of the rest.
    row-Ends :
        (seen rows : List (Row Float)) (row : Row Float) (p : Progress Float) (w w1 : World Float c)
        (flag : Bool)
        → is_cancelled r b c json now x.id w ≡ (returned flag, w1)
        → (flag ≡ true → ¬ IsQuiet r b c json now x.id)
        → IsAfter x base mapper seen p w1
        → ((p' : Progress Float) (w' : World Float c)
            → IsAfter x base mapper (seen ++ row ∷ []) p' w'
            → Ends batch_size ((seen ++ row ∷ []) ++ rows) rows p' w')
        → Ends batch_size (seen ++ row ∷ rows) (row ∷ rows) p w
    row-Ends seen rows row p w w1 true poll loud h rest = inl (
      stopped w1,
      row_stops batch_size row rows p w w1 poll h.found,
      stopped-IsStopped seen (row ∷ rows) p w1 h,
      loud refl,
    )
    row-Ends seen rows row p w w1 false poll loud h rest =
        let added = add_row-IsAfter r b c json now x base mapper plain batch_size row seen p w1 h in
        let (p', w2, run, h') =
          flush-IsAfter r b c json now x base mapper plain batch_size (seen ++ row ∷ [])
            (add_row r b c json now x.id mapper row p) w1 added in
        Ends-passes batch_size (seen ++ row ∷ rows) rows row p p' w w2
          (row_passes batch_size row rows p p' w w1 w2 poll run)
          (subst (λ l. Ends batch_size l rows p' w2) (append_assoc seen (row ∷ []) rows)
            (rest p' w2 h'))

    pub confirm_rows-Ends :
        (seen rows : List (Row Float)) (p : Progress Float) (w : World Float c)
        → IsAfter x base mapper seen p w
        → Ends batch_size (seen ++ rows) rows p w
    unfolding confirm_rows
    confirm_rows-Ends seen [] p w h =
        inr (p, w, refl, subst (λ l. IsAfter x base mapper l p w) (sym (append-nil seen)) h)
    confirm_rows-Ends seen (row ∷ rows) p w h =
        let (flag, w1, poll, same, loud) = is_cancelled-session r b c json now x.id w in
        row-Ends seen rows row p w w1 flag poll loud (IsAfter-session seen p w w1 same h)
          (λ p' w'. confirm_rows-Ends (seen ++ row ∷ []) rows p' w')
