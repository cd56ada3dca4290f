-- ===== src/Ingest/Mapping.antt =====
-- `FieldMapper` of src/domains/data_import/mapping.py: the mappings it keeps, and the rows that it
-- transforms with them.
use douyin_data_dashboard.Prelude.{
  ℕ, String, Bool, true, false, Option, none, some, List, [], ◌∷◌, str_eq, if◌then◌else◌, or_else,
  is_empty, strip,
}
use douyin_data_dashboard.Prelude.Int.{ℤ}
use douyin_data_dashboard.Prelude.Dict.{Dict, lookup, put, values}
use douyin_data_dashboard.Import.Value.{Runtime, Value, null, int, float, text, str, to_float}
use douyin_data_dashboard.Import.Validator.{Row}

pub data MappingType : Type 0 where
  auto manual alias : MappingType

pub data FieldConfidence : Type 0 where
  high medium low no_confidence : FieldConfidence

abbrev pub is_manual : MappingType → Bool
is_manual auto = false
is_manual manual = true
is_manual alias = false

pub record FieldMapping (F : Type 0) : Type 0 where
  pub source_field : String
  pub target_field : String
  pub mapping_type : MappingType
  pub confidence : FieldConfidence
  pub aliases : List String
  pub is_required : Bool
  pub transform_func : Option String
  pub default_value : Value F

pub record MappingTemplate (F : Type 0) : Type 0 where
  pub name : String
  pub data_type : String
  pub id : Option ℕ
  pub description : Option String
  pub mappings : List (FieldMapping F)
  pub is_system : Bool

pub record FieldMapper (F : Type 0) : Type 0 where
  pub target_fields : List String
  pub mappings : Dict (FieldMapping F)
  pub manual_mappings : Dict String

-- A call returns, or raises an exception with this `str`.
pub data Result {ℓ} (A : Type ℓ) : Type ℓ where
  ok : A → Result A
  raised : String → Result A

infixl 5 ◌>>=◌
abbrev pub ◌>>=◌ {ℓ κ} : {A : Type ℓ} {B : Type κ} → Result A → (A → Result B) → Result B
ok a >>= f = f a
raised e >>= f = raised e

-- What the transforms ask of Python beyond `Runtime`.
pub record Builtins (r : Runtime) : Type 0 where
  pub lower : String → String
  pub upper : String → String
  -- `int(f)`, which raises for an infinity and for what is not a number
  pub int_of_float : r.Float → Result ℤ
  pub abs : r.Float → r.Float
  -- what `float(value)` raises where it raises
  pub float_error : Value r.Float → String

module _ {F : Type 0} where
  -- `FieldMapper(repository, target_fields)`; the repository is an argument of what asks it.
  unfoldable pub new_mapper : Option (List String) → FieldMapper F
  new_mapper target_fields = record {
    target_fields = or_else target_fields [];
    mappings = [];
    manual_mappings = [];
  }

  unfoldable pub set_target_fields : List String → FieldMapper F → FieldMapper F
  set_target_fields fields m = record m { target_fields = fields }

  abbrev pub manual_mapping : String → String → Bool → Option String → Value F → FieldMapping F
  manual_mapping source target is_required transform_func default_value = record {
    source_field = source;
    target_field = target;
    mapping_type = manual;
    confidence = high;
    aliases = [];
    is_required = is_required;
    transform_func = transform_func;
    default_value = default_value;
  }

  unfoldable pub add_manual_mapping :
      String → String → Bool → Option String → Value F → FieldMapper F → FieldMapper F
  add_manual_mapping source target is_required transform_func default_value m = record m {
    mappings =
        put source (manual_mapping source target is_required transform_func default_value)
          m.mappings;
    manual_mappings = put source target m.manual_mappings;
  }

  -- `for source, target in mappings.items(): mapper.add_manual_mapping(source, target)`
  unfoldable pub add_manual_mappings : Dict String → FieldMapper F → FieldMapper F
  unfolding add_manual_mapping
  add_manual_mappings [] m = m
  add_manual_mappings ((source, target) ∷ rest) m =
      add_manual_mappings rest (add_manual_mapping source target false none null m)

  unfoldable pub get_mapping : String → FieldMapper F → Option (FieldMapping F)
  get_mapping source m = lookup source m.mappings

  unfoldable pub get_all_mappings : FieldMapper F → List (FieldMapping F)
  get_all_mappings m = values m.mappings

  -- `{key(m): value(m) for m in mappings}`
  abbrev pub dict_of :
      (FieldMapping F → String)
      → (FieldMapping F → String)
      → List (FieldMapping F)
      → Dict String
      → Dict String
  dict_of key value [] d = d
  dict_of key value (x ∷ xs) d = dict_of key value xs (put (key x) (value x) d)

  unfoldable pub get_mapping_dict : FieldMapper F → Dict String
  get_mapping_dict m = dict_of (λ x. x.source_field) (λ x. x.target_field) (values m.mappings) []

  unfoldable pub get_reverse_mapping_dict : FieldMapper F → Dict String
  get_reverse_mapping_dict m =
      dict_of (λ x. x.target_field) (λ x. x.source_field) (values m.mappings) []

  -- One turn of the loop of `load_template`.
  abbrev pub load_mapping : FieldMapping F → FieldMapper F → FieldMapper F
  load_mapping x m = record m {
    mappings = put x.source_field x m.mappings;
    manual_mappings =
        if is_manual x.mapping_type
        then put x.source_field x.target_field m.manual_mappings
        else m.manual_mappings;
  }

  abbrev pub load_mappings : List (FieldMapping F) → FieldMapper F → FieldMapper F
  load_mappings [] m = m
  load_mappings (x ∷ xs) m = load_mappings xs (load_mapping x m)

  -- `load_template(template_id)`, of what the repository returns, where there is one
  unfoldable pub load_template :
      Option (Option (MappingTemplate F)) → FieldMapper F → Bool × FieldMapper F
  load_template none m = (false, m)
  load_template (some none) m = (false, m)
  load_template (some (some template)) m = (true, load_mappings template.mappings m)

  -- `save_template`, up to the repository's own `save`
  unfoldable pub save_template : String → String → Option String → FieldMapper F → MappingTemplate F
  save_template name data_type description m = record {
    name = name;
    data_type = data_type;
    id = none;
    description = description;
    mappings = values m.mappings;
    is_system = false;
  }

module _ (r : Runtime) (b : Builtins r) where
  open r use {Float}
  open b use {lower, upper, int_of_float, abs, float_error}

  -- `f(value) if value is not None else None`
  abbrev pub unless_null : Value Float → Result (Value Float) → Result (Value Float)
  unless_null null res = ok null
  unless_null _ res = res

  -- `float(value)`
  abbrev pub float_or_raise : Value Float → Result Float
  float_or_raise v = elim (to_float r v) [ some f ↦ ok f | none ↦ raised (float_error v) ]

  -- `_apply_transform`
  unfoldable pub apply_transform : Value Float → String → Result (Value Float)
  apply_transform v name =
      if str_eq name "strip"
      then unless_null v (ok (text (strip (str r v))))
      else if str_eq name "lower"
      then unless_null v (ok (text (lower (str r v))))
      else if str_eq name "upper"
      then unless_null v (ok (text (upper (str r v))))
      else if str_eq name "int"
      then unless_null v (float_or_raise v >>= λ f. int_of_float f >>= λ n. ok (int n))
      else if str_eq name "float"
      then unless_null v (float_or_raise v >>= λ f. ok (float f))
      else if str_eq name "abs"
      then unless_null v (float_or_raise v >>= λ f. ok (float (abs f)))
      else ok v

  -- `value`, transformed where the mapping names a transform
  abbrev pub transformed_value : FieldMapping Float → Value Float → Result (Value Float)
  transformed_value m v = elim m.transform_func [
    | none ↦ ok v
    | some name ↦ if is_empty name then ok v else apply_transform v name
  ]

  -- `if mapping.default_value is not None: transformed[mapping.target_field] = ...`
  abbrev pub put_default : String → Value Float → Row Float → Row Float
  put_default target null out = out
  put_default target v out = put target v out

  -- One turn of the loop of `transform_data`.
  abbrev pub transform_field :
      Row Float → String → FieldMapping Float → Row Float → Result (Row Float)
  transform_field row source m out = elim (lookup source row) [
    | some v ↦ transformed_value m v >>= λ v'. ok (put m.target_field v' out)
    | none ↦ ok (put_default m.target_field m.default_value out)
  ]

  abbrev pub transform_fields :
      Row Float → Dict (FieldMapping Float) → Row Float → Result (Row Float)
  transform_fields row [] out = ok out
  transform_fields row ((source, m) ∷ ms) out =
      transform_field row source m out >>= λ out'. transform_fields row ms out'

  unfoldable pub transform_data : FieldMapper Float → Row Float → Result (Row Float)
  unfolding apply_transform
  transform_data m row = transform_fields row m.mappings []
