-- ===== src/Ingest/Template.antt =====
-- Saving a mapper as a template and loading it (src/domains/data_import/mapping.py).
use mathlib.Core.List.{append_assoc, append-nil}
use douyin_data_dashboard.Prelude.{
  String, Bool, true, false, ◌≡◌, refl, sym, ◌∙◌, ap, ◌||◌, Option, some, List, [], ◌∷◌, ◌++◌, map,
  arith, str_eq, eq_iff, contains, Bool-cases, inl, inr,
}
use douyin_data_dashboard.Prelude.Dict.{Dict, has_key, lookup-put, put, values}
use douyin_data_dashboard.Import.Value.{Value}
use douyin_data_dashboard.Ingest.Mapping.{
  FieldMapping, FieldMapper, is_manual, new_mapper, set_target_fields, add_manual_mapping,
  manual_mapping, load_mapping, load_mappings, load_template, save_template,
}

-- What the keys of a dict are.
abbrev HasKeys : {V : Type 0} → List String → Dict V → Type 0
HasKeys seen d = (j : String) → has_key j d ≡ contains seen j

put-append :
    {V : Type 0} (k : String) (v : V) (d : Dict V)
    → has_key k d ≡ false
    → put k v d ≡ d ++ (k, v) ∷ []
put-append k v [] h = refl
put-append k v ((j, u) ∷ d) h = ground (arith, h, put-append k v d)

has_key-put :
    {V : Type 0} (k j : String) (v : V) (d : Dict V)
    → has_key j (put k v d) ≡ (str_eq k j || has_key j d)
has_key-put k j v d = ground (arith, lookup-put k j v d)

module _ {F : Type 0} where
  -- A mapper that was made by hand: from a new one by target fields and manual mappings.
  pub data ByHand : FieldMapper F → Type 0 where
    new : (target_fields : Option (List String)) → ByHand (new_mapper target_fields)
    retarget :
        {m : FieldMapper F} (fields : List String) → ByHand m → ByHand (set_target_fields fields m)
    add :
        {m : FieldMapper F} (source target : String) (is_required : Bool)
        (transform_func : Option String) (default_value : Value F)
        → ByHand m
        → ByHand (add_manual_mapping source target is_required transform_func default_value m)

  -- Manual mappings under their own sources, no key twice and none of those seen.
  abbrev IsKeyed : List String → Dict (FieldMapping F) → Type 0
  IsKeyed seen [] = Unit {0}
  IsKeyed seen ((k, x) ∷ d) =
      (x.source_field ≡ k)
      × (is_manual x.mapping_type ≡ true)
      × (contains seen k ≡ false)
      × IsKeyed (k ∷ seen) d

  abbrev targets : Dict (FieldMapping F) → Dict String
  targets d = map (λ (item : String × FieldMapping F). (item.0, item.1.target_field)) d

  put-IsKeyed :
      (seen : List String) (k : String) (x : FieldMapping F) (d : Dict (FieldMapping F))
      → x.source_field ≡ k
      → is_manual x.mapping_type ≡ true
      → contains seen k ≡ false
      → IsKeyed seen d
      → IsKeyed seen (put k x d)
  put-IsKeyed seen k x [] named byhand fresh keyed = (named, byhand, fresh, tt)
  put-IsKeyed seen k x ((j, y) ∷ d) named byhand fresh keyed = elim (Bool-cases (str_eq j k)) [
    | inl e ↦ rw e (named ∙ sym ((eq_iff j k).0 e), byhand, keyed.2, keyed.3)
    | inr e ↦ rw e (
      keyed.0,
      keyed.1,
      keyed.2,
      put-IsKeyed (j ∷ seen) k x d named byhand (ground (arith, e, fresh)) keyed.3,
    )
  ]

  targets-put :
      (k : String) (x : FieldMapping F) (d : Dict (FieldMapping F))
      → targets (put k x d) ≡ put k x.target_field (targets d)
  targets-put k x [] = refl
  targets-put k x ((j, y) ∷ d) = ground (arith, targets-put k x d)

  IsKeyed-ByHand :
      (m : FieldMapper F)
      → ByHand m
      → IsKeyed [] m.mappings × (m.manual_mappings ≡ targets m.mappings)
  unfolding new_mapper set_target_fields add_manual_mapping
  IsKeyed-ByHand m (new target_fields) = (tt, refl)
  IsKeyed-ByHand m (retarget {m = n} fields h) = IsKeyed-ByHand n h
  IsKeyed-ByHand m (add {m = n} source target is_required transform_func default_value h) =
      let x = manual_mapping source target is_required transform_func default_value in
      let (keyed, same) = IsKeyed-ByHand n h in
      (
        put-IsKeyed [] source x n.mappings refl refl refl keyed,
        ap (put source target) same ∙ sym (targets-put source x n.mappings),
      )

  load_mappings-values :
      (seen : List String) (d : Dict (FieldMapping F)) (m : FieldMapper F)
      → IsKeyed seen d
      → HasKeys seen m.mappings
      → HasKeys seen m.manual_mappings
      → ((load_mappings (values d) m).mappings ≡ m.mappings ++ d)
        × ((load_mappings (values d) m).manual_mappings ≡ m.manual_mappings ++ targets d)
  load_mappings-values seen [] m keyed h k =
      (sym (append-nil m.mappings), sym (append-nil m.manual_mappings))
  load_mappings-values seen ((j, x) ∷ d) m keyed h k =
      let n = load_mapping x m in
      let at : n.mappings ≡ put j x m.mappings = ap (λ s. put s x m.mappings) keyed.0 in
      let byhand : n.manual_mappings ≡ put j x.target_field m.manual_mappings =
        rw (keyed.1) (ap (λ s. put s x.target_field m.manual_mappings) keyed.0) in
      let (maps, hands) =
        load_mappings-values (j ∷ seen) d n keyed.3
          (λ i. ap (has_key i) at ∙ has_key-put j i x m.mappings ∙ rw (h i) refl)
          (λ i.
            ap (has_key i) byhand
            ∙ has_key-put j i x.target_field m.manual_mappings
            ∙ rw (k i) refl) in
      (
        maps
            ∙ ap (λ e. e ++ d) (at ∙ put-append j x m.mappings (h j ∙ keyed.2))
            ∙ append_assoc m.mappings ((j, x) ∷ []) d,
        hands
            ∙ ap (λ e. e ++ targets d)
                (byhand ∙ put-append j x.target_field m.manual_mappings (k j ∙ keyed.2))
            ∙ append_assoc m.manual_mappings ((j, x.target_field) ∷ []) (targets d),
      )

  -- Whatever target fields a new mapper has, loading into it the template that a mapper made by hand
  -- saves gives it the mappings and the manual targets of that mapper, in their order.
  pub save_template-load_template :
      (m : FieldMapper F) (name data_type : String) (description : Option String)
      (target_fields : Option (List String))
      → ByHand m
      → let (loaded, m') =
          load_template
            (some (some (save_template name data_type description m)))
            (new_mapper target_fields) in
        (loaded ≡ true) × (m'.mappings ≡ m.mappings) × (m'.manual_mappings ≡ m.manual_mappings)
  unfolding load_template save_template new_mapper
  save_template-load_template m name data_type description target_fields h =
      let (keyed, same) = IsKeyed-ByHand m h in
      let (maps, hands) =
        load_mappings-values [] m.mappings (new_mapper target_fields) keyed (λ j. refl)
          (λ j. refl) in
      (refl, maps, hands ∙ sym same)
