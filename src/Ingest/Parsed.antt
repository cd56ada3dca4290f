-- ===== src/Ingest/Parsed.antt =====
-- How `parse_file` of src/domains/data_import/service.py leaves the record.
use mathlib.Core.Path.{subst}
use douyin_data_dashboard.Prelude.{
  ℕ, ◌≡◌, refl, sym, ◌∙◌, ap, ◌⊎◌, none, some, List, String, arith, length, inl, inr, Option-cases,
}
use douyin_data_dashboard.Import.Value.{Runtime}
use douyin_data_dashboard.Import.Validator.{Row}
use douyin_data_dashboard.Ingest.Mapping
use douyin_data_dashboard.Ingest.Mapping.{Builtins}
use douyin_data_dashboard.Ingest.Records.{
  ImportStatus, DataImportRecord, Outcome, returned, raised, get_by_id, update_status, set_status,
  update_counts, set_counts, ImportError, other, commit, Session,
}
use douyin_data_dashboard.Ingest.World.{
  Action, Reply, reply, decode_error, failure, ImportCache, ImportJson, World,
}
use douyin_data_dashboard.Ingest.Confirm.{key_of}
use douyin_data_dashboard.Ingest.Service.{
  cached_rows, parse_and_store, or_mark_failed, parse_file, error_text,
}
use douyin_data_dashboard.Ingest.Loop.{updated, update-updated, get_by_id-updated}

module _ (r : Runtime) (b : Builtins r) (c : ImportCache) (json : ImportJson r.Float)
    (now : ℕ) where
  open r use {Float}

  cached_rows-session :
      (x : DataImportRecord) (w : World Float c)
      → (cached_rows r b c json now x w).1.session ≡ w.session
  unfolding cached_rows
  cached_rows-session x w = ground arith

  module _ (x : DataImportRecord) where
    abbrev fail_with : ImportError → World Float c → World Float c
    fail_with e w = record w {
      session = commit (
          updated x.id (set_status now ImportStatus.failed (some (some (error_text e)))) w.session);
    }

    abbrev count : List (Row Float) → World Float c → World Float c
    count rows w = record w {
      session = commit (updated x.id (set_counts (some (length rows)) none none) w.session);
    }

    -- The cache raises, with this text, where the progress of parsing these rows is set.
    abbrev pub CacheRaises : List (Row Float) → String → World Float c → Type 0
    CacheRaises rows text w =
        (s : c.State) × (w.cache ≡ some s)
        × (let answer =
              (c.set (key_of r b c json now "progress" x.id)
                (json.dumps_progress "parsing" (length rows) (length rows)) 3600 s).0 in
            (answer ≡ decode_error text) ⊎ (answer ≡ failure text))

    -- Storing the rows counts them, or an exception of the cache comes first.
    store-counts :
        (rows : List (Row Float)) (path : String) (w : World Float c)
        → get_by_id x.id w.session ≡ some x
        → let (o, w') = parse_and_store r b c json now x.id path rows w in
          ((o ≡ returned rows) × (w'.session ≡ (count rows w).session))
          ⊎ ((text : String) × CacheRaises rows text w
              × (o ≡ raised (other text))
              × (w'.session ≡ w.session))
    unfolding parse_and_store update_counts
    store-counts rows path w found =
        let counted =
          update-updated x.id (set_counts (some (length rows)) none none) w.session found in
        elim (Option-cases w.cache) [
          | inl none_there ↦
              inl (ground (arith, none_there, counted), ground (arith, none_there, counted))
          | inr (s, there) ↦
              answered s there
                ((c.set (key_of r b c json now "progress" x.id)
                  (json.dumps_progress "parsing" (length rows) (length rows)) 3600 s).0)
                refl
        ]
      where
        answered :
            (s : c.State)
            → w.cache ≡ some s
            → (answer : Reply (Unit {0}))
            → (c.set
                (key_of r b c json now "progress" x.id)
                (json.dumps_progress "parsing" (length rows) (length rows))
                3600
                s).0
              ≡ answer
            → let (o, w') = parse_and_store r b c json now x.id path rows w in
              ((o ≡ returned rows) × (w'.session ≡ (count rows w).session))
              ⊎ ((text : String) × CacheRaises rows text w
                  × (o ≡ raised (other text))
                  × (w'.session ≡ w.session))
        answered s there (reply t) q =
            let counted =
              update-updated x.id (set_counts (some (length rows)) none none) w.session found in
            inl (ground (arith, there, q, counted), ground (arith, there, q, counted))
        answered s there (decode_error text) q =
            inr (text, (s, there, inl q), ground (arith, there, q), ground (arith, there, q))
        answered s there (failure text) q =
            inr (text, (s, there, inr q), ground (arith, there, q), ground (arith, there, q))

    -- What raised the text: the parser, or else the cache, after the parser gave rows.
    abbrev pub Raises : Mapping.Result (List (Row Float)) → String → World Float c → Type 0
    Raises parsed text w =
        (parsed ≡ Mapping.raised text)
        ⊎ ((rows : List (Row Float)) × (parsed ≡ Mapping.ok rows) × CacheRaises rows text w)

    -- How a parse from a world ends, in the outcome and the session that it leaves.
    abbrev pub IsParsed :
        Mapping.Result (List (Row Float))
        → World Float c
        → Outcome (List (Row Float))
        → Session Float
        → Type 0
    IsParsed parsed w o s =
        ((rows : List (Row Float)) × (parsed ≡ Mapping.ok rows)
          × (o ≡ returned rows)
          × (get_by_id x.id s ≡ some (record x { total_rows = length rows }))
          × (s.committed ≡ s.current))
        ⊎ ((text : String) × Raises parsed text w
            × (o ≡ raised (other text))
            × (get_by_id x.id s
                ≡ some (record x { status = ImportStatus.failed; error_message = some text }))
            × (s.committed ≡ s.current))

    marks :
        (e : ImportError) (v : World Float c) (m : Action Float c (List (Row Float)))
        (w : World Float c)
        → m w ≡ (raised e, v)
        → get_by_id x.id v.session ≡ some x
        → or_mark_failed r b c json now x.id m w ≡ (raised e, fail_with e v)
    unfolding update_status
    marks e v m w run found = ground (
      arith,
      run,
      update-updated x.id (set_status now ImportStatus.failed (some (some (error_text e))))
          v.session found,
    )

    keeps :
        (rows : List (Row Float)) (v : World Float c) (m : Action Float c (List (Row Float)))
        (w : World Float c)
        → m w ≡ (returned rows, v)
        → or_mark_failed r b c json now x.id m w ≡ (returned rows, v)
    keeps rows v m w run = ground (arith, run)

    failed-found :
        (e : ImportError) (v : World Float c)
        → get_by_id x.id v.session ≡ some x
        → get_by_id x.id (fail_with e v).session
          ≡ some (record x { status = ImportStatus.failed; error_message = some (error_text e) })
    unfolding get_by_id
    failed-found e v found =
        get_by_id-updated x.id (set_status now ImportStatus.failed (some (some (error_text e))))
          v.session x found refl

    parse_raises :
        (parse : String → Mapping.Result (List (Row Float))) (w w1 : World Float c) (text : String)
        → get_by_id x.id w.session ≡ some x
        → get_by_id x.id w1.session ≡ some x
        → cached_rows r b c json now x w ≡ (returned none, w1)
        → parse x.file_path ≡ Mapping.raised text
        → parse_file r b c json now parse x.id w ≡ (raised (other text), fail_with (other text) w1)
    unfolding parse_file update_status
    parse_raises parse w w1 text found found1 miss q = ground (
      arith,
      found,
      miss,
      q,
      update-updated x.id (set_status now ImportStatus.failed (some (some text))) w1.session found1,
    )

    parse_stores :
        (parse : String → Mapping.Result (List (Row Float))) (w w1 : World Float c)
        (rows : List (Row Float))
        → get_by_id x.id w.session ≡ some x
        → cached_rows r b c json now x w ≡ (returned none, w1)
        → parse x.file_path ≡ Mapping.ok rows
        → parse_file r b c json now parse x.id w
          ≡ or_mark_failed r b c json now x.id
              (parse_and_store r b c json now x.id x.file_path rows)
              w1
    unfolding parse_file
    parse_stores parse w w1 rows found miss q = ground (arith, found, miss, q)

    stored-IsParsed :
        (rows : List (Row Float)) (w1 : World Float c)
        → get_by_id x.id w1.session ≡ some x
        → let (o, w') =
            or_mark_failed r b c json now x.id
              (parse_and_store r b c json now x.id x.file_path rows)
              w1 in
          IsParsed (Mapping.ok rows) w1 o w'.session
    unfolding get_by_id
    stored-IsParsed rows w1 found = elim (store-counts rows x.file_path w1 found) [
      | inl (o, same) ↦
          let m = parse_and_store r b c json now x.id x.file_path rows in
          let v = (m w1).1 in
          subst (λ y. IsParsed (Mapping.ok rows) w1 y.0 y.1.session)
            (sym (keeps rows v m w1 (ap (λ t. (t, v)) o)))
            (inl (
              rows,
              refl,
              refl,
              ap (get_by_id x.id) same
                  ∙ get_by_id-updated x.id (set_counts (some (length rows)) none none) w1.session x
                      found refl,
              ap (λ (s : Session Float). s.committed) same
                  ∙ sym (ap (λ (s : Session Float). s.current) same),
            ))
      | inr (text, cause, o, same) ↦
          let v = (parse_and_store r b c json now x.id x.file_path rows w1).1 in
          let found1 = ap (get_by_id x.id) same ∙ found in
          let run =
            marks (other text) v (parse_and_store r b c json now x.id x.file_path rows) w1
              (ap (λ t. (t, v)) o) found1 in
          subst (λ y. IsParsed (Mapping.ok rows) w1 y.0 y.1.session) (sym run)
            (inr (text, inr (rows, refl, cause), refl, failed-found (other text) v found1, refl))
    ]

    -- Where the cache has no rows of the record's file, parsing it either returns the rows that the
    -- parser gives and stores their number, or it raises what the parser raised, or what the cache
    -- raised for the progress of the rows that the parser gave, and stores the status `failed` with its
    -- text. Both are committed.
    pub parse_file-IsParsed :
        (parse : String → Mapping.Result (List (Row Float))) (w w1 : World Float c)
        → get_by_id x.id w.session ≡ some x
        → cached_rows r b c json now x w ≡ (returned none, w1)
        → let (o, w') = parse_file r b c json now parse x.id w in
          IsParsed (parse x.file_path) w1 o w'.session
    parse_file-IsParsed parse w w1 found miss = go (parse x.file_path) refl
      where
        found1 : get_by_id x.id w1.session ≡ some x
        found1 =
            ap (get_by_id x.id) (sym (ap (λ y. y.1.session) miss) ∙ cached_rows-session x w) ∙ found

        go :
            (parsed : Mapping.Result (List (Row Float)))
            → parse x.file_path ≡ parsed
            → let (o, w') = parse_file r b c json now parse x.id w in
              IsParsed (parse x.file_path) w1 o w'.session
        go (Mapping.raised text) q =
            subst (λ y. IsParsed (parse x.file_path) w1 y.0 y.1.session)
              (sym (parse_raises parse w w1 text found found1 miss q))
              (inr (text, inl q, refl, failed-found (other text) w1 found1, refl))
        go (Mapping.ok rows) q =
            subst (λ y. IsParsed (parse x.file_path) w1 y.0 y.1.session)
              (sym (parse_stores parse w w1 rows found miss q))
              (let y =
                  or_mark_failed r b c json now x.id
                    (parse_and_store r b c json now x.id x.file_path rows) w1 in
                subst (λ p. IsParsed p w1 y.0 y.1.session) (sym q) (stored-IsParsed rows w1 found1))
