-- ===== src/Ingest/Again.antt =====
-- `confirm_import` of src/domains/data_import/service.py on a record that an earlier call has
-- settled.
use mathlib.Core.Option
use douyin_data_dashboard.Prelude.{
  ℕ, String, ◌≡◌, ◌∙◌, ◌==◌, refl, [], ◌∷◌, Bool-cases, inl, inr, true, Option, none, some, List,
  arith, length, ltb, Option-cases,
}
use douyin_data_dashboard.Import.Value.{Runtime}
use douyin_data_dashboard.Import.Validator.{Row}
use douyin_data_dashboard.Ingest.Mapping.{Builtins}
use douyin_data_dashboard.Ingest.Records.{
  ImportStatus, DataImportRecord, returned, raised, get_by_id, find_record, Session, update_status,
  set_status, ImportError, invalid_status, commit,
}
use douyin_data_dashboard.Ingest.World.{ImportCache, ImportJson, World}
use douyin_data_dashboard.Ingest.Confirm.{Confirmation, refusal, confirm_import, key_of}
use douyin_data_dashboard.Ingest.Service.{cancel_import}
use douyin_data_dashboard.Ingest.Loop.{updated, update-updated, get_by_id-updated}
use douyin_data_dashboard.Ingest.Ended.{confirm_import-ends}

find_record-named :
    (id : ℕ) (xs : List DataImportRecord) (y : DataImportRecord)
    → find_record id xs ≡ some y
    → y.id ≡ id
find_record-named id [] y e = cc
find_record-named id (x ∷ xs) y e = elim (Bool-cases (x.id == id)) [
  | inl same ↦ ground (arith, same, e)
  | inr other ↦ find_record-named id xs y (ground (arith, other, e))
]

-- The status and the counts of an import.
abbrev pub standing : {F : Type 0} → ℕ → Session F → Option (ImportStatus × ℕ × ℕ)
standing id s = Option.map (λ y. (y.status, y.success_rows, y.failed_rows)) (get_by_id id s)

module _ (r : Runtime) (b : Builtins r) (c : ImportCache) (json : ImportJson r.Float)
    (now : ℕ) where
  open r use {Float}

  refuses :
      (id : ℕ) (y : DataImportRecord) (e : ImportError) (w : World Float c)
      → get_by_id id w.session ≡ some y
      → refusal r b c json now y ≡ some e
      → (rows : List (Row Float)) (batch_size : Option ℕ)
      → confirm_import r b c json now id rows batch_size w ≡ (raised e, w)
  unfolding confirm_import
  refuses id y e w found refused rows batch_size = ground (arith, found, refused)

  -- An import whose status and counts are those of a refused record is refused in its words.
  same_standing_refuses :
      (id : ℕ) (last : DataImportRecord) (text : String) (v : World Float c)
      → ((y : DataImportRecord)
          → y.status ≡ last.status
          → y.success_rows ≡ last.success_rows
          → y.failed_rows ≡ last.failed_rows
          → refusal r b c json now y ≡ some (invalid_status text y.id y.status))
      → standing id v.session ≡ some (last.status, last.success_rows, last.failed_rows)
      → (rows : List (Row Float)) (batch_size : Option ℕ)
      → confirm_import r b c json now id rows batch_size v
        ≡ (raised (invalid_status text id last.status), v)
  unfolding get_by_id
  same_standing_refuses id last text v refused same rows batch_size =
      elim (Option-cases (get_by_id id v.session)) [
        | inl e ↦ ground (arith, e, same)
        | inr (y, e) ↦
            let status : y.status ≡ last.status = ground (arith, e, same) in
            let named = find_record-named id v.session.current.records y e in
            refuses id y (invalid_status text y.id y.status) v e
              (refused y status (ground (arith, e, same)) (ground (arith, e, same))) rows batch_size
            ∙ rw (named, status) refl
      ]

  refusal-cancelled :
      (y : DataImportRecord)
      → y.status ≡ ImportStatus.cancelled
      → refusal r b c json now y ≡ some (invalid_status "Import was cancelled" y.id y.status)
  unfolding refusal
  refusal-cancelled y e = ground (arith, e)

  refusal-completed :
      (y : DataImportRecord)
      → y.status ≡ ImportStatus.success
      → ltb 0 y.success_rows ≡ true
      → refusal r b c json now y
        ≡ some (invalid_status "Import has already been completed" y.id y.status)
  unfolding refusal
  refusal-completed y e some_row = ground (arith, e, some_row)

module _ (r : Runtime) (b : Builtins r) (c : ImportCache) (json : ImportJson r.Float)
    (now : ℕ) where
  open r use {Float}

  abbrev marked : ℕ → World Float c → World Float c
  marked id w = record w {
    session = commit (updated id (set_status now ImportStatus.cancelled none) w.session);
  }

  marked_refuses :
      (id : ℕ) (x : DataImportRecord) (w : World Float c)
      → get_by_id id w.session ≡ some x
      → (later : ℕ) (v : World Float c) → standing id v.session ≡ standing id (marked id w).session
      → (rows : List (Row Float)) (batch_size : Option ℕ)
      → confirm_import r b c json later id rows batch_size v
        ≡ (raised (invalid_status "Import was cancelled" id ImportStatus.cancelled), v)
  unfolding get_by_id
  marked_refuses id x w found later v same =
      let y = set_status now ImportStatus.cancelled none x in
      let there : get_by_id id (marked id w).session ≡ some y =
        get_by_id-updated id (set_status now ImportStatus.cancelled none) w.session x found refl in
      same_standing_refuses r b c json later id y "Import was cancelled" v
        (λ z e _ _. refusal-cancelled r b c json later z e) (same ∙ ground (arith, there))

  -- Cancelling an import that is there returns, and a `confirm_import` of it, at any later time and
  -- whatever else was done, raises that it was cancelled and changes nothing, as long as the import's
  -- status and counts are those that the cancellation left.
  pub cancel_import-refuses :
      (id : ℕ) (x : DataImportRecord) (w : World Float c)
      → get_by_id id w.session ≡ some x
      → (w' : World Float c) × (cancel_import r b c json now id w ≡ (returned tt, w'))
        × ((later : ℕ) (v : World Float c)
            → standing id v.session ≡ standing id w'.session
            → (rows : List (Row Float)) (batch_size : Option ℕ)
            → confirm_import r b c json later id rows batch_size v
              ≡ (raised (invalid_status "Import was cancelled" id ImportStatus.cancelled), v))
  unfolding cancel_import update_status
  cancel_import-refuses id x w found =
      let set = update-updated id (set_status now ImportStatus.cancelled none) w.session found in
      elim (Option-cases w.cache) [
        | inl e ↦ (marked id w, ground (arith, e, set), marked_refuses id x w found)
        | inr (s, e) ↦
            let flagged : World Float c = record w {
              cache = some (c.set (key_of r b c json now "cancel" id) "1" 3600 s).1;
            } in
            (marked id flagged, ground (arith, e, set), marked_refuses id x flagged found)
      ]

  abbrev completed : DataImportRecord → List (Row Float) → DataImportRecord
  completed x rows = record x {
    status = ImportStatus.success;
    total_rows = length rows;
    success_rows = length rows;
    failed_rows = 0;
    started_at = some now;
    completed_at = some now;
  }

  -- An import that is not refused, has counted no row and gets at least one is not confirmed a
  -- second time: a `confirm_import` of it, at any later time and whatever else was done, raises and
  -- changes nothing, as long as the import's status and counts are those that the first one left.
  pub confirm_import-once :
      (x : DataImportRecord) (rows : List (Row Float)) (batch_size : Option ℕ) (w : World Float c)
      → get_by_id x.id w.session ≡ some x
      → refusal r b c json now x ≡ none
      → x.success_rows ≡ 0
      → x.failed_rows ≡ 0
      → ltb 0 (length rows) ≡ true
      → (result : Confirmation) × (w' : World Float c) × (confirm_import r b c json now x.id rows
            batch_size w
          ≡ (returned result, w'))
        × ((later : ℕ) (v : World Float c)
            → standing x.id v.session ≡ standing x.id w'.session
            → (again : List (Row Float)) (size : Option ℕ)
            → (e : ImportError) × (confirm_import r b c json later x.id again size v
                ≡ (raised e, v)))
  confirm_import-once x rows batch_size w found allowed no_success no_failed some_row =
      let (result, w', run, end) =
        confirm_import-ends r b c json now x rows batch_size w found allowed no_success no_failed in
      (
        result,
        w',
        run,
        λ later v same again size. elim end [
          | inl (_, stop, _) ↦ (
            _,
            same_standing_refuses r b c json later x.id stop.last "Import was cancelled" v
                (λ z e _ _. refusal-cancelled r b c json later z (e ∙ stop.status))
                (same ∙ ground (arith, stop.found)) again size,
          )
          | inr (_, through) ↦ (
            _,
            same_standing_refuses r b c json later x.id (completed x rows)
                "Import has already been completed" v
                (λ z e n _. refusal-completed r b c json later z e (ground (arith, n, some_row)))
                (same ∙ ground (arith, through.found)) again size,
          )
        ],
      )
