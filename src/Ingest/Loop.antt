-- ===== src/Ingest/Loop.antt =====
-- The loop of `confirm_import` in src/domains/data_import/service.py: what is written, counted and
-- still waiting between two rows.
use douyin_data_dashboard.Prelude.{
  ℕ, ◌≡◌, ◌≢◌, refl, ◌∙◌, ap, inl, inr, Bool, true, false, some, List, [], ◌∷◌, arith, Bool-cases,
  Option-cases, ◌==◌,
}
use douyin_data_dashboard.Import.Value.{Runtime}
use douyin_data_dashboard.Ingest.Mapping.{Builtins}
use douyin_data_dashboard.Ingest.Records.{
  DataImportRecord, Session, returned, get_by_id, update, find_record, change_record,
}
use douyin_data_dashboard.Ingest.World.{
  ImportCache, ImportJson, Reply, reply, decode_error, failure, World,
}
use douyin_data_dashboard.Ingest.Confirm.{key_of, is_cancelled}

find-change :
    (id : ℕ) (f : DataImportRecord → DataImportRecord) (xs : List DataImportRecord)
    (x : DataImportRecord)
    → find_record id xs ≡ some x
    → (f x).id ≡ x.id
    → find_record id (change_record id f xs) ≡ some (f x)
find-change id f [] x h k = cc
find-change id f (y ∷ ys) x h k = elim (Bool-cases (y.id == id)) [
  | inl e ↦ let same : y ≡ x = ground (arith, h, e) in rw e (rw same (ground (arith, k, e, same)))
  | inr e ↦ rw (e, e) (find-change id f ys x (ground (arith, h, e)) k)
]

abbrev pub updated :
    {F : Type 0} → ℕ → (DataImportRecord → DataImportRecord) → Session F → Session F
updated id f s = record s {
  current = record s.current { records = change_record id f s.current.records };
}

-- An update of a record that is there succeeds, and reads back if it keeps the id.
pub update-updated :
    {F : Type 0} (id : ℕ) (f : DataImportRecord → DataImportRecord) (s : Session F)
    {x : DataImportRecord}
    → get_by_id id s ≡ some x
    → update id f s ≡ returned (updated id f s)
unfolding update
update-updated id f s h = ground (arith, h)

pub get_by_id-updated :
    {F : Type 0} (id : ℕ) (f : DataImportRecord → DataImportRecord) (s : Session F)
    (x : DataImportRecord)
    → get_by_id id s ≡ some x
    → (f x).id ≡ x.id
    → get_by_id id (updated id f s) ≡ some (f x)
unfolding get_by_id
get_by_id-updated id f s x h k = find-change id f s.current.records x h k

module _ (r : Runtime) (b : Builtins r) (c : ImportCache) (json : ImportJson r.Float) (now : ℕ)
    (import_id : ℕ) where
  open r use {Float}

  -- The cache never tells of a cancellation of this import.
  abbrev pub IsQuiet : Type 0
  IsQuiet = (s : c.State) → (c.exists (key_of r b c json now "cancel" import_id) s).0 ≢ reply true

  -- A poll reads a flag, which is false in a quiet cache, and leaves the session alone.
  pub is_cancelled-session :
      (w : World Float c)
      → (flag : Bool) × (w' : World Float c) × (is_cancelled r b c json now import_id w
          ≡ (returned flag, w'))
        × (w'.session ≡ w.session)
        × (flag ≡ true → ¬ IsQuiet)
  unfolding is_cancelled
  is_cancelled-session w = elim (Option-cases w.cache) [
    | inl e ↦ (false, w, ground (arith, e), refl, λ h. cc)
    | inr (s, e) ↦ answered s e ((c.exists (key_of r b c json now "cancel" import_id) s).0) refl
  ]
    where
      answered :
          (s : c.State)
          → w.cache ≡ some s
          → (answer : Reply Bool)
          → (c.exists (key_of r b c json now "cancel" import_id) s).0 ≡ answer
          → (flag : Bool) × (w' : World Float c) × (is_cancelled r b c json now import_id w
              ≡ (returned flag, w'))
            × (w'.session ≡ w.session)
            × (flag ≡ true → ¬ IsQuiet)
      answered s e (reply flag) q = (
        flag,
        record w { cache = some (c.exists (key_of r b c json now "cancel" import_id) s).1 },
        ground (arith, e, q),
        refl,
        λ h quiet. quiet s (q ∙ ap reply h),
      )
      answered s e (decode_error text) q = (
        false,
        record w { cache = some (c.exists (key_of r b c json now "cancel" import_id) s).1 },
        ground (arith, e, q),
        refl,
        λ h. cc,
      )
      answered s e (failure text) q = (
        false,
        record w { cache = some (c.exists (key_of r b c json now "cancel" import_id) s).1 },
        ground (arith, e, q),
        refl,
        λ h. cc,
      )
