-- ===== src/Ingest/Mapped.antt =====
-- What `FieldMapper.auto_map` of src/domains/data_import/mapping.py finds, and what it leaves of the
-- manual mappings.
use mathlib.Core.Path.{subst}
use douyin_data_dashboard.Prelude.{
  String, ◌≡◌, refl, sym, ap, ◌∙◌, ◌⊎◌, inl, inr, true, false, not, some, List, [], ◌∷◌, ◌++◌,
  arith, str_eq, eq_iff, eq_refl, Bool-cases, Option-cases, is_some, keep, contains, All,
  All-append,
}
use douyin_data_dashboard.Prelude.Dict.{lookup, has_key, lookup-put}
use douyin_data_dashboard.Import.Value.{Runtime}
use douyin_data_dashboard.Ingest.Mapping.{auto, alias, FieldMapping, FieldMapper}
use douyin_data_dashboard.Ingest.Similar.{
  Similarity, find_best_match, get_synonyms, get_field_category, get_confidence,
}
use douyin_data_dashboard.Ingest.Targets.{in_keep, find_best_match-target, first_synonym-target}
use douyin_data_dashboard.Ingest.AutoMap.{
  Progress, add_found, found_mapping, map_source, map_sources, first_synonym, map_alias,
  map_aliases, auto_map,
}

-- The manual targets of a mapper have a mapping under the same source, which says so itself.
pub record IsLinked {F : Type 0} (m : FieldMapper F) : Type 0 where
  pub linked :
      (s : String)
      → has_key s m.manual_mappings ≡ true
      → (x : FieldMapping F) × (lookup s m.mappings ≡ some x) × (x.source_field ≡ s)

-- The found mapping maps one of the sources, to a target of the mapper unless it was made by hand.
abbrev pub IsFit : {F : Type 0} → FieldMapper F → List String → FieldMapping F → Type 0
IsFit m sources x =
    (contains sources x.source_field ≡ true)
    × ((has_key x.source_field m.manual_mappings ≡ true)
        ⊎ (contains m.target_fields x.target_field ≡ true))

module _ (r : Runtime) (sim : Similarity r) where
  open r use {Float}

  module _ (m : FieldMapper Float) (linked : IsLinked m) (sources required : List String)
      (threshold : Float) where
    -- What holds of the state between two sources.
    record IsKept (p : Progress r sim) : Type 0 where
      targets : p.mapper.target_fields ≡ m.target_fields
      manual : p.mapper.manual_mappings ≡ m.manual_mappings
      same :
          (s : String)
          → has_key s m.manual_mappings ≡ true
          → lookup s p.mapper.mappings ≡ lookup s m.mappings
      fits : All (IsFit m sources) p.found

    -- A mapping for a source that has none by hand.
    add_found-IsKept :
        (x : FieldMapping Float) (p : Progress r sim)
        → IsKept p
        → contains sources x.source_field ≡ true
        → has_key x.source_field m.manual_mappings ≡ false
        → contains m.target_fields x.target_field ≡ true
        → IsKept (add_found r sim x p)
    add_found-IsKept x p k inside free target = record {
      targets = k.targets;
      manual = k.manual;
      same = λ s h.
          lookup-put x.source_field s x p.mapper.mappings
          ∙ ground (arith, eq_iff x.source_field s, k.same s h, free, h);
      fits = All-append (IsFit m sources) p.found (x ∷ []) k.fits ((inside, inr target), tt);
    }

    map_source-IsKept :
        (source : String) (p : Progress r sim)
        → IsKept p
        → contains sources source ≡ true
        → (p' : Progress r sim) × (map_source r sim required threshold source p ≡ some p')
          × IsKept p'
          × ((s : String)
              → contains p.mapped_sources s ≡ true
              → contains p'.mapped_sources s ≡ true)
          × (has_key source m.manual_mappings ≡ true → contains p'.mapped_sources source ≡ true)
    unfolding map_source
    map_source-IsKept source p k inside = elim (Bool-cases (has_key source m.manual_mappings)) [
      | inl byhand ↦
          let (x, at, named) = linked.linked source byhand in
          (
            record p { found = p.found ++ x ∷ []; mapped_sources = source ∷ p.mapped_sources },
            rw (ap (has_key source) k.manual ∙ byhand) (rw (k.same source byhand ∙ at)),
            record {
              targets = k.targets;
              manual = k.manual;
              same = k.same;
              fits =
                  All-append (IsFit m sources) p.found (x ∷ []) k.fits
                    ((rw named inside, inl (rw named byhand)), tt);
            },
            λ s h. ground (arith, h),
            λ h. ground (arith, eq_refl source),
          )
      | inr free ↦
          elim (Option-cases (find_best_match r sim source p.mapper.target_fields threshold)) [
            | inl no_match ↦
                (p, rw (ap (has_key source) k.manual ∙ free) (rw no_match), k, λ s h. h, λ h. cc)
            | inr ((target, score), match) ↦
                let x =
                  found_mapping r sim auto source target (get_confidence r sim score)
                    (contains required target) [] in
                let known : contains m.target_fields target ≡ true =
                  ap (λ (ts : List String). contains ts target) (sym k.targets)
                  ∙ find_best_match-target r sim source p.mapper.target_fields threshold target
                      score match in
                (
                  add_found r sim x p,
                  rw (ap (has_key source) k.manual ∙ free) (rw match),
                  add_found-IsKept x p k inside free known,
                  λ s h. ground (arith, h),
                  λ h. cc,
                )
          ]
    ]

    -- The sources that the first loop has done with are marked as mapped, where they are manual.
    abbrev IsMarked : List String → Progress r sim → Type 0
    IsMarked done p =
        (s : String)
        → contains done s ≡ true
        → has_key s m.manual_mappings ≡ true
        → contains p.mapped_sources s ≡ true

    map_sources-IsKept :
        (rest : List String) (p : Progress r sim)
        → IsKept p
        → ((s : String) → contains rest s ≡ true → contains sources s ≡ true)
        → (p' : Progress r sim) × (map_sources r sim required threshold rest p ≡ some p')
          × IsKept p'
          × ((s : String)
              → contains p.mapped_sources s ≡ true
              → contains p'.mapped_sources s ≡ true)
          × IsMarked rest p'
    unfolding map_sources
    map_sources-IsKept [] p k sub = (p, refl, k, λ s h. h, λ s h. cc)
    map_sources-IsKept (source ∷ rest) p k sub =
        let (q, step, kq, grow, mark) =
          map_source-IsKept source p k (sub source (ground (arith, eq_refl source))) in
        let (p', run, kp, grow', marked) =
          map_sources-IsKept rest q kq (λ s h. sub s (ground (arith, h))) in
        (
          p',
          rw (step, map_sources) run,
          kp,
          λ s h. grow' s (grow s h),
          λ s h byhand. elim (Bool-cases (str_eq source s)) [
            | inl e ↦ grow' s (
                subst (λ t. contains q.mapped_sources t ≡ true) ((eq_iff source s).0 e)
                  (mark (
                    subst (λ t. has_key t m.manual_mappings ≡ true) (sym ((eq_iff source s).0 e))
                      byhand)))
            | inr e ↦ marked s (ground (arith, h, e)) byhand
          ],
        )

    map_alias-IsKept :
        (source : String) (p : Progress r sim)
        → IsKept p
        → contains sources source ≡ true
        → has_key source m.manual_mappings ≡ false
        → IsKept (map_alias r sim required source p)
    unfolding map_alias
    map_alias-IsKept source p k inside free =
        elim (Bool-cases (is_some (get_field_category r sim source))) [
          | inr plain ↦ rw plain k
          | inl known ↦
              elim (Option-cases
                (first_synonym r sim (get_synonyms r sim source) p.mapper.target_fields)) [
                  | inl missing ↦ rw (known, missing) k
                  | inr (target, found) ↦
                      rw (known, found)
                        (add_found-IsKept
                          (found_mapping r sim alias source target
                            (get_confidence r sim (sim.literal "0.5")) (contains required target)
                            (sim.list_set (get_synonyms r sim source)))
                          p k inside free
                          (ap (λ (ts : List String). contains ts target) (sym k.targets)
                            ∙ first_synonym-target r sim (get_synonyms r sim source)
                                p.mapper.target_fields target found))
                ]
        ]

    map_aliases-IsKept :
        (rest : List String) (p : Progress r sim)
        → IsKept p
        → ((s : String)
            → contains rest s ≡ true
            → (contains sources s ≡ true) × (has_key s m.manual_mappings ≡ false))
        → IsKept (map_aliases r sim required rest p)
    unfolding map_aliases
    map_aliases-IsKept [] p k sub = k
    map_aliases-IsKept (source ∷ rest) p k sub =
        map_aliases-IsKept rest (map_alias r sim required source p)
          (map_alias-IsKept source p k (sub source (ground (arith, eq_refl source))).0
            (sub source (ground (arith, eq_refl source))).1)
          (λ s h. sub s (ground (arith, h)))

    -- If Python lists no more than a set holds, `auto_map` on a mapper whose manual targets have
    -- their mappings does not fail and leaves the manual mappings as they were. Each mapping that it
    -- returns is of one of the sources, to one of the target fields unless it was made by hand.
    pub auto_map-keeps :
        ((xs : List String) (s : String)
          → contains (sim.list_set xs) s ≡ true
          → contains xs s ≡ true)
        → (found : List (FieldMapping Float)) × (m' : FieldMapper Float) × (auto_map r sim sources
              required threshold m
            ≡ some (found, m'))
          × (m'.manual_mappings ≡ m.manual_mappings)
          × ((s : String)
              → has_key s m.manual_mappings ≡ true
              → lookup s m'.mappings ≡ lookup s m.mappings)
          × All (IsFit m sources) found
    unfolding auto_map
    auto_map-keeps listed =
        let start : Progress r sim = record { found = []; mapper = m; mapped_sources = [] } in
        let (p, run, k, grow, marked) =
          map_sources-IsKept sources start
            (record { targets = refl; manual = refl; same = λ s h. refl; fits = tt }) (λ s h. h) in
        let unmapped = sim.list_set (keep (λ s. not (contains p.mapped_sources s)) sources) in
        let p' = map_aliases r sim required unmapped p in
        let k' = map_aliases-IsKept unmapped p k (λ s h. left_over p marked s (listed _ s h)) in
        (p'.found, p'.mapper, rw (run, auto_map), k'.manual, k'.same, k'.fits)
      where
        left_over :
            (p : Progress r sim)
            → IsMarked sources p
            → (s : String)
            → contains (keep (λ t. not (contains p.mapped_sources t)) sources) s ≡ true
            → (contains sources s ≡ true) × (has_key s m.manual_mappings ≡ false)
        left_over p marked s h =
            let (inside, unmarked) = in_keep (λ t. not (contains p.mapped_sources t)) sources s h in
            (
              inside,
              elim (Bool-cases (has_key s m.manual_mappings)) [
                | inl byhand ↦ ground (arith, marked s inside byhand, unmarked)
                | inr free ↦ free
              ],
            )
