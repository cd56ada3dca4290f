-- ===== src/Ingest/AutoMap.antt =====
-- `FieldMapper.auto_map` and `apply_aliases` of src/domains/data_import/mapping.py.
use douyin_data_dashboard.Prelude.{
  String, Bool, not, Option, none, some, List, [], ◌∷◌, ◌++◌, if◌then◌else◌, is_some, keep,
  contains,
}
use douyin_data_dashboard.Prelude.Dict.{Dict, lookup, put, has_key}
use douyin_data_dashboard.Import.Value.{Runtime, null}
use douyin_data_dashboard.Ingest.Mapping.{
  FieldConfidence, MappingType, auto, alias, FieldMapping, FieldMapper,
}
use douyin_data_dashboard.Ingest.Similar.{
  Similarity, normalize, get_synonyms, find_best_match, get_field_category, get_confidence,
}

module _ (r : Runtime) (sim : Similarity r) where
  open r use {Float}
  open sim use {literal, list_set}

  abbrev pub found_mapping :
      MappingType → String → String → FieldConfidence → Bool → List String → FieldMapping Float
  found_mapping kind source target confidence is_required aliases = record {
    source_field = source;
    target_field = target;
    mapping_type = kind;
    confidence = confidence;
    aliases = aliases;
    is_required = is_required;
    transform_func = none;
    default_value = null;
  }

  abbrev pub remember : FieldMapping Float → FieldMapper Float → FieldMapper Float
  remember x m = record m { mappings = put x.source_field x m.mappings }

  -- The state of `auto_map` between two sources.
  pub record Progress : Type 0 where
    pub found : List (FieldMapping Float)
    pub mapper : FieldMapper Float
    pub mapped_sources : List String

  abbrev pub add_found : FieldMapping Float → Progress → Progress
  add_found x p = record {
    found = p.found ++ x ∷ [];
    mapper = remember x p.mapper;
    mapped_sources = x.source_field ∷ p.mapped_sources;
  }

  -- One turn of the first loop of `auto_map`; `none` is a `KeyError`.
  unfoldable pub map_source : List String → Float → String → Progress → Option Progress
  unfolding find_best_match get_confidence
  map_source required threshold source p =
      if has_key source p.mapper.manual_mappings
      then elim (lookup source p.mapper.mappings) [
        | none ↦ none
        | some x ↦
            some
              (record p { found = p.found ++ x ∷ []; mapped_sources = source ∷ p.mapped_sources })
      ]
      else elim (find_best_match r sim source p.mapper.target_fields threshold) [
        | none ↦ some p
        | some (target, score) ↦ some (
            add_found
              (found_mapping auto source target (get_confidence r sim score)
                (contains required target) [])
              p)
      ]

  unfoldable pub map_sources : List String → Float → List String → Progress → Option Progress
  unfolding map_source
  map_sources required threshold [] p = some p
  map_sources required threshold (source ∷ rest) p = elim (map_source required threshold source p) [
    | none ↦ none
    | some p' ↦ map_sources required threshold rest p'
  ]

  -- The first target that is a synonym of the source.
  abbrev pub first_synonym : List String → List String → Option String
  first_synonym synonyms [] = none
  first_synonym synonyms (target ∷ rest) =
      if contains synonyms (normalize r sim target)
      then some target
      else first_synonym synonyms rest

  -- One turn of the second loop, over a source that the first left.
  unfoldable pub map_alias : List String → String → Progress → Progress
  unfolding get_field_category get_synonyms get_confidence
  map_alias required source p =
      if is_some (get_field_category r sim source)
      then elim (first_synonym (get_synonyms r sim source) p.mapper.target_fields) [
        | none ↦ p
        | some target ↦
            add_found
              (found_mapping alias source target (get_confidence r sim (literal "0.5"))
                (contains required target) (list_set (get_synonyms r sim source)))
              p
      ]
      else p

  unfoldable pub map_aliases : List String → List String → Progress → Progress
  unfolding map_alias
  map_aliases required [] p = p
  map_aliases required (source ∷ rest) p = map_aliases required rest (map_alias required source p)

  -- `auto_map(source_fields, required_fields, threshold)`
  unfoldable pub auto_map :
      List String
      → List String
      → Float
      → FieldMapper Float
      → Option (List (FieldMapping Float) × FieldMapper Float)
  unfolding map_sources map_aliases
  auto_map source_fields required threshold m =
      elim (map_sources required threshold source_fields
        (record { found = []; mapper = m; mapped_sources = [] })) [
          | none ↦ none
          | some p ↦
              let unmapped =
                list_set (keep (λ s. not (contains p.mapped_sources s)) source_fields) in
              let p' = map_aliases required unmapped p in some (p'.found, p'.mapper)
        ]

  -- `apply_aliases(source_fields)`
  unfoldable pub apply_aliases : FieldMapper Float → List String → Dict String → Dict String
  unfolding get_synonyms
  apply_aliases m [] alias_map = alias_map
  apply_aliases m (source ∷ rest) alias_map =
      apply_aliases m rest (elim (first_synonym (get_synonyms r sim source) m.target_fields) [
        | none ↦ alias_map
        | some target ↦ put source target alias_map
      ])
