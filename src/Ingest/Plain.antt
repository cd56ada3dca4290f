-- ===== src/Ingest/Plain.antt =====
-- The rows that a mapper without transforms makes (src/domains/data_import/mapping.py).
use douyin_data_dashboard.Prelude.{
  String, arith, ◌≡◌, refl, false, none, some, [], ◌∷◌, str_eq, Bool-cases, Option-cases, All, inl,
  inr,
}
use douyin_data_dashboard.Prelude.Dict.{Dict, lookup, put}
use douyin_data_dashboard.Import.Value.{Runtime, null}
use douyin_data_dashboard.Import.Validator.{Row}
use douyin_data_dashboard.Ingest.Mapping.{
  Builtins, FieldMapping, FieldMapper, ok, add_manual_mappings, manual_mapping, transform_data,
  transform_fields,
}

-- The mapping has no transform and no default.
abbrev pub IsRename : {F : Type 0} → FieldMapping F → Type 0
IsRename m = (m.transform_func ≡ none) × (m.default_value ≡ null)

abbrev pub IsPlain : {F : Type 0} → Dict (FieldMapping F) → Type 0
IsPlain ms = All (λ item. IsRename item.1) ms

module _ {F : Type 0} where
  -- The row with its mapped fields under their targets.
  abbrev pub rename_fields : Row F → Dict (FieldMapping F) → Row F → Row F
  rename_fields row [] out = out
  rename_fields row ((source, m) ∷ ms) out =
      rename_fields row ms
        (elim (lookup source row) [ some v ↦ put m.target_field v out | none ↦ out ])

  put-IsPlain :
      (source : String) (m : FieldMapping F) (ms : Dict (FieldMapping F))
      → IsRename m
      → IsPlain ms
      → IsPlain (put source m ms)
  put-IsPlain source m [] h k = (h, tt)
  put-IsPlain source m ((s, x) ∷ ms) h k = elim (Bool-cases (str_eq s source)) [
    | inl e ↦ rw e (h, k.1)
    | inr e ↦ rw e (k.0, put-IsPlain source m ms h k.1)
  ]

  -- Manual mappings without further arguments are plain.
  pub add_manual_mappings-IsPlain :
      (d : Dict String) (m : FieldMapper F)
      → IsPlain m.mappings
      → IsPlain (add_manual_mappings d m).mappings
  unfolding add_manual_mappings
  add_manual_mappings-IsPlain [] m h = h
  add_manual_mappings-IsPlain ((source, target) ∷ d) m h =
      add_manual_mappings-IsPlain d _ (
        put-IsPlain source (manual_mapping source target false none null) m.mappings (refl, refl) h)

module _ (r : Runtime) (b : Builtins r) where
  open r use {Float}

  transform_fields-plain :
      (row : Row Float) (ms : Dict (FieldMapping Float)) (out : Row Float)
      → IsPlain ms
      → transform_fields r b row ms out ≡ ok (rename_fields row ms out)
  transform_fields-plain row [] out h = refl
  transform_fields-plain row ((source, m) ∷ ms) out h = elim (Option-cases (lookup source row)) [
    | inl e ↦ ground (arith, e, h.0.1, transform_fields-plain row ms out h.1)
    | inr (v, e) ↦
        ground (arith, e, h.0.0, transform_fields-plain row ms (put m.target_field v out) h.1)
  ]

  pub transform_data-plain :
      (m : FieldMapper Float) (row : Row Float)
      → IsPlain m.mappings
      → transform_data r b m row ≡ ok (rename_fields row m.mappings [])
  unfolding transform_data
  transform_data-plain m row h = transform_fields-plain row m.mappings [] h
