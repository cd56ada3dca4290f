-- ===== src/Ingest/Ending.antt =====
-- `confirm_import` of src/domains/data_import/service.py from its checks to its end.
use mathlib.Core.List.{append-nil, append_assoc}
use douyin_data_dashboard.Prelude.{
  ℕ, ◌≡◌, refl, sym, ◌∙◌, ap, true, false, none, some, List, [], ◌++◌, arith, length, or_else,
}
use douyin_data_dashboard.Import.Value.{Runtime}
use douyin_data_dashboard.Import.Validator.{Row}
use douyin_data_dashboard.Ingest.Mapping.{Builtins, FieldMapper, new_mapper, set_target_fields}
use douyin_data_dashboard.Ingest.Records.{
  ImportStatus, DataImportRecord, DataImportDetail, Session, commit, returned, get_by_id,
  update_counts, update_status, bulk_create, set_counts, set_status, mark_completed, set_completed,
}
use douyin_data_dashboard.Ingest.World.{ImportCache, ImportJson, World}
use douyin_data_dashboard.Ingest.Plain.{IsPlain, add_manual_mappings-IsPlain}
use douyin_data_dashboard.Ingest.Confirm.{
  Progress, was_cancelled, confirmed, is_cancelled, stored_mapper, finish,
}
use douyin_data_dashboard.Ingest.Loop.{updated, update-updated, get_by_id-updated}
use douyin_data_dashboard.Ingest.Rows.{details_from, length-details_from, IsAfter}
use douyin_data_dashboard.Ingest.Confirmed.{IsStopped, stopped}

pub stored_mapper-IsPlain :
    (r : Runtime) (b : Builtins r) (c : ImportCache) (json : ImportJson r.Float) (now : ℕ)
    (x : DataImportRecord)
    → IsPlain (stored_mapper r b c json now x).mappings
unfolding stored_mapper new_mapper set_target_fields
stored_mapper-IsPlain r b c json now x =
    add_manual_mappings-IsPlain (or_else x.field_mapping []) _ tt

module _ (r : Runtime) (b : Builtins r) (c : ImportCache) (json : ImportJson r.Float) (now : ℕ)
    (x : DataImportRecord) (base : List (DataImportDetail r.Float)) (mapper : FieldMapper r.Float)
    (rows : List (Row r.Float)) where
  open r use {Float}

  -- The session when the last batch is written, before and after the counts.
  abbrev pub written : Progress Float → Session Float → Session Float
  written p s = bulk_create p.batch_details s

  abbrev count_all : Progress Float → DataImportRecord → DataImportRecord
  count_all p y = set_counts (some p.processed) (some p.success) (some p.failed) y

  -- The two ends, over a world with the last batch written and the flag read.
  abbrev pub cancelled_end : Progress Float → World Float c → World Float c
  cancelled_end p w =
      stopped r b c json now x base mapper
        (record w { session = updated x.id (count_all p) w.session })

  abbrev pub completed_end : Progress Float → World Float c → World Float c
  completed_end p w = record w {
    session = commit (
        updated x.id (set_completed now p.success p.failed) (updated x.id (count_all p) w.session));
  }

  module _ (p : Progress Float) (w w1 : World Float c) (h : IsAfter x base mapper rows p w)
      (same : w1.session ≡ written p w.session) where
    abbrev kept_all : DataImportRecord
    kept_all = record x { success_rows = length h.kept; failed_rows = 0 }

    found_written : get_by_id x.id w1.session ≡ some kept_all
    unfolding bulk_create get_by_id
    found_written = ap (get_by_id x.id) same ∙ h.found

    pub stored_written : w1.session.current.details ≡ base ++ details_from x.id mapper 0 rows
    unfolding bulk_create
    stored_written =
        ap (λ (s : Session Float). s.current.details) same
        ∙ ap (λ (ds : List (DataImportDetail Float)). ds ++ p.batch_details) h.stored
        ∙ append_assoc base h.kept p.batch_details
        ∙ ap (λ (ds : List (DataImportDetail Float)). base ++ ds) h.split

    found_counted :
        get_by_id x.id (updated x.id (count_all p) w1.session) ≡ some (count_all p kept_all)
    found_counted = get_by_id-updated x.id (count_all p) w1.session kept_all found_written refl

    pub cancelled_end-IsStopped : IsStopped x.id base mapper rows (cancelled_end p w1)
    unfolding get_by_id
    cancelled_end-IsStopped = record {
      kept = details_from x.id mapper 0 rows;
      dropped = [];
      last = set_status now ImportStatus.cancelled none (count_all p kept_all);
      found =
          get_by_id-updated x.id (set_status now ImportStatus.cancelled none)
            (updated x.id (count_all p) w1.session) (count_all p kept_all) found_counted refl;
      status = refl;
      success = h.success ∙ sym (length-details_from x.id mapper 0 rows);
      failed = h.failed;
      stored = stored_written;
      split = append-nil (details_from x.id mapper 0 rows);
      committed = refl;
    }

    pub completed_end-found :
        get_by_id x.id (completed_end p w1).session
        ≡ some (record x {
          status = ImportStatus.success;
          total_rows = length rows;
          success_rows = length rows;
          failed_rows = 0;
          completed_at = some now;
        })
    unfolding get_by_id
    completed_end-found =
        get_by_id-updated x.id (set_completed now p.success p.failed)
          (updated x.id (count_all p) w1.session) (count_all p kept_all) found_counted refl
        ∙ ground (arith, h.success, h.failed, h.processed)

    pub finish_stops :
        is_cancelled r b c json now x.id (record w { session = written p w.session })
          ≡ (returned true, w1)
        → finish r b c json now x.id p w ≡ (returned was_cancelled, cancelled_end p w1)
    unfolding finish update_counts update_status
    finish_stops poll = ground (
      arith,
      poll,
      update-updated x.id (count_all p) w1.session found_written,
      update-updated x.id (set_status now ImportStatus.cancelled none)
          (updated x.id (count_all p) w1.session) found_counted,
    )

    pub finish_passes :
        is_cancelled r b c json now x.id (record w { session = written p w.session })
          ≡ (returned false, w1)
        → finish r b c json now x.id p w
          ≡ (returned (confirmed (length rows) (length rows) 0 []), completed_end p w1)
    unfolding finish update_counts mark_completed
    finish_passes poll = ground (
      arith,
      poll,
      update-updated x.id (count_all p) w1.session found_written,
      update-updated x.id (set_completed now p.success p.failed)
          (updated x.id (count_all p) w1.session) found_counted,
      h.success,
      h.failed,
      h.processed,
      h.errors,
    )
