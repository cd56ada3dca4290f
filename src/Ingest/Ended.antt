-- ===== src/Ingest/Ended.antt =====
-- `confirm_import` of src/domains/data_import/service.py as a whole.
use mathlib.Core.List.{append-nil}
use douyin_data_dashboard.Prelude.{
  ℕ, ◌≡◌, refl, sym, ◌∙◌, ap, ◌⊎◌, inl, inr, Bool, true, false, Option, none, some, List, [], arith,
  length,
}
use douyin_data_dashboard.Import.Value.{Runtime}
use douyin_data_dashboard.Import.Validator.{Row}
use douyin_data_dashboard.Ingest.Mapping.{Builtins, FieldMapper}
use douyin_data_dashboard.Ingest.Records.{
  ImportStatus, DataImportRecord, DataImportDetail, Session, commit, returned, get_by_id,
  update_status, set_status,
}
use douyin_data_dashboard.Ingest.World.{ImportCache, ImportJson, World}
use douyin_data_dashboard.Ingest.Confirm.{
  Progress, Confirmation, was_cancelled, confirmed, is_cancelled, stored_mapper, confirm_rows,
  start_of_loop, finish, refusal, confirm_import, batch_size_of,
}
use douyin_data_dashboard.Ingest.Loop.{
  updated, update-updated, get_by_id-updated, IsQuiet, is_cancelled-session,
}
use douyin_data_dashboard.Ingest.Rows.{details_from, IsAfter}
use douyin_data_dashboard.Ingest.Confirmed.{IsStopped, IsImported, stopped, Ends, confirm_rows-Ends}
use douyin_data_dashboard.Ingest.Ending.{
  stored_mapper-IsPlain, written, cancelled_end, completed_end, cancelled_end-IsStopped,
  completed_end-found, stored_written, finish_stops, finish_passes,
}

module _ (r : Runtime) (b : Builtins r) (c : ImportCache) (json : ImportJson r.Float) (now : ℕ)
    (x : DataImportRecord) (rows : List (Row r.Float)) (batch_size : Option ℕ)
    (w : World r.Float c) where
  open r use {Float}

  abbrev base : List (DataImportDetail Float)
  base = w.session.current.details

  abbrev mapper : FieldMapper Float
  mapper = stored_mapper r b c json now x

  -- The record when the loop starts.
  abbrev in_process : DataImportRecord
  in_process = set_status now ImportStatus.processing none x

  -- How an import that may start ends.
  abbrev pub IsEnd : Confirmation → World Float c → Type 0
  IsEnd result w' =
      ((result ≡ was_cancelled)
        × IsStopped x.id base mapper rows w'
        × ¬ IsQuiet r b c json now x.id)
      ⊎ ((result ≡ confirmed (length rows) (length rows) 0 [])
          × IsImported now x base mapper rows w')

  finish-ends :
      (p : Progress Float) (v : World Float c)
      → IsAfter in_process base mapper rows p v
      → (result : Confirmation) × (w' : World Float c) × (finish r b c json now x.id p v
          ≡ (returned result, w'))
        × IsEnd result w'
  finish-ends p v h =
      let start : World Float c = record v {
        session = written r b c json now in_process base mapper rows p v.session;
      } in
      let (flag, w1, poll, same, loud) = is_cancelled-session r b c json now x.id start in
      by_flag flag w1 poll same loud
    where
      by_flag :
          (flag : Bool) (w1 : World Float c)
          → is_cancelled r b c json now x.id (record v {
            session = written r b c json now in_process base mapper rows p v.session;
          })
            ≡ (returned flag, w1)
          → w1.session ≡ written r b c json now in_process base mapper rows p v.session
          → (flag ≡ true → ¬ IsQuiet r b c json now x.id)
          → (result : Confirmation) × (w' : World Float c) × (finish r b c json now x.id p v
              ≡ (returned result, w'))
            × IsEnd result w'
      by_flag true w1 poll same loud = (
        was_cancelled,
        cancelled_end r b c json now in_process base mapper rows p w1,
        finish_stops r b c json now in_process base mapper rows p v w1 h same poll,
        inl (
          refl,
          cancelled_end-IsStopped r b c json now in_process base mapper rows p v w1 h same,
          loud refl,
        ),
      )
      by_flag false w1 poll same loud = (
        confirmed (length rows) (length rows) 0 [],
        completed_end r b c json now in_process base mapper rows p w1,
        finish_passes r b c json now in_process base mapper rows p v w1 h same poll,
        inr (
          refl,
          record {
            found = completed_end-found r b c json now in_process base mapper rows p v w1 h same;
            stored = stored_written r b c json now in_process base mapper rows p v w1 h same;
            committed = refl;
          },
        ),
      )

  module _ (found : get_by_id x.id w.session ≡ some x) (allowed : refusal r b c json now x ≡ none)
      (no_success : x.success_rows ≡ 0) (no_failed : x.failed_rows ≡ 0) where
    stops_at_once :
        (w1 : World Float c)
        → is_cancelled r b c json now x.id w ≡ (returned true, w1)
        → w1.session ≡ w.session
        → confirm_import r b c json now x.id rows batch_size w
          ≡ (returned was_cancelled, stopped r b c json now x base mapper w1)
    unfolding confirm_import update_status
    stops_at_once w1 poll same = ground (
      arith,
      found,
      allowed,
      poll,
      update-updated x.id (set_status now ImportStatus.cancelled none) w1.session
          (ap (get_by_id x.id) same ∙ found),
    )

    stopped_at_once :
        (w1 : World Float c)
        → w1.session ≡ w.session
        → IsStopped x.id base mapper rows (stopped r b c json now x base mapper w1)
    unfolding get_by_id
    stopped_at_once w1 same = record {
      kept = [];
      dropped = details_from x.id mapper 0 rows;
      last = set_status now ImportStatus.cancelled none x;
      found =
          get_by_id-updated x.id (set_status now ImportStatus.cancelled none) w1.session x
            (ap (get_by_id x.id) same ∙ found) refl;
      status = refl;
      success = no_success;
      failed = no_failed;
      stored = ap (λ (s : Session Float). s.current.details) same ∙ sym (append-nil base);
      split = refl;
      committed = refl;
    }

    abbrev start : World Float c → World Float c
    start w1 = record w1 {
      session = commit (updated x.id (set_status now ImportStatus.processing none) w1.session);
    }

    start-IsAfter :
        (w1 : World Float c)
        → w1.session ≡ w.session
        → IsAfter in_process base mapper [] start_of_loop (start w1)
    unfolding get_by_id
    start-IsAfter w1 same = record {
      kept = [];
      found =
          get_by_id-updated x.id (set_status now ImportStatus.processing none) w1.session x
            (ap (get_by_id x.id) same ∙ found) refl
          ∙ ground (arith, no_success, no_failed);
      stored = ap (λ (s : Session Float). s.current.details) same ∙ sym (append-nil base);
      split = refl;
      processed = refl;
      success = refl;
      failed = refl;
      errors = refl;
    }

    starts :
        (w1 : World Float c)
        → is_cancelled r b c json now x.id w ≡ (returned false, w1)
        → w1.session ≡ w.session
        → (o : Option (Progress Float)) (w2 : World Float c)
        → confirm_rows r b c json now x.id mapper
            (batch_size_of r b c json now batch_size)
            rows
            start_of_loop
            (start w1)
          ≡ (returned o, w2)
        → confirm_import r b c json now x.id rows batch_size w ≡ elim o [
          | none ↦ (returned was_cancelled, w2)
          | some p ↦ finish r b c json now x.id p w2
        ]
    unfolding confirm_import update_status
    starts w1 poll same o w2 run = ground (
      arith,
      found,
      allowed,
      poll,
      update-updated x.id (set_status now ImportStatus.processing none) w1.session
          (ap (get_by_id x.id) same ∙ found),
      run,
    )

    -- An import that is not refused and has counted no row returns. Either it was cancelled, which a
    -- cache without its cancel flag never makes it be: then the details of the first rows are
    -- written and counted, and its status is `cancelled`. Or all rows are counted as successes,
    -- there is a detail for each, in order, and its status is `success`. All of it is committed.
    pub confirm_import-ends :
        (result : Confirmation) × (w' : World Float c) × (confirm_import r b c json now x.id rows
            batch_size w
          ≡ (returned result, w'))
        × IsEnd result w'
    confirm_import-ends =
        let (flag, w1, poll, same, loud) = is_cancelled-session r b c json now x.id w in
        by_flag flag w1 poll same loud
      where
        by_loop :
            (w1 : World Float c)
            → is_cancelled r b c json now x.id w ≡ (returned false, w1)
            → w1.session ≡ w.session
            → Ends r b c json now in_process base mapper
                (batch_size_of r b c json now batch_size)
                rows
                rows
                start_of_loop
                (start w1)
            → (result : Confirmation) × (w' : World Float c) × (confirm_import r b c json now x.id
                  rows batch_size w
                ≡ (returned result, w'))
              × IsEnd result w'
        by_loop w1 poll same (inl (w2, run, stop, loud)) =
            (was_cancelled, w2, starts w1 poll same none w2 run, inl (refl, stop, loud))
        by_loop w1 poll same (inr (p, w2, run, after)) =
            let (result, w', ended, holds) = finish-ends p w2 after in
            (result, w', starts w1 poll same (some p) w2 run ∙ ended, holds)

        by_flag :
            (flag : Bool) (w1 : World Float c)
            → is_cancelled r b c json now x.id w ≡ (returned flag, w1)
            → w1.session ≡ w.session
            → (flag ≡ true → ¬ IsQuiet r b c json now x.id)
            → (result : Confirmation) × (w' : World Float c) × (confirm_import r b c json now x.id
                  rows batch_size w
                ≡ (returned result, w'))
              × IsEnd result w'
        by_flag true w1 poll same loud = (
          was_cancelled,
          stopped r b c json now x base mapper w1,
          stops_at_once w1 poll same,
          inl (refl, stopped_at_once w1 same, loud refl),
        )
        by_flag false w1 poll same loud = by_loop w1 poll same (
            confirm_rows-Ends r b c json now in_process base mapper
              (stored_mapper-IsPlain r b c json now x) (batch_size_of r b c json now batch_size) []
              rows start_of_loop (start w1) (start-IsAfter w1 same))
