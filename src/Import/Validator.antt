-- ===== src/Import/Validator.antt =====
-- `DataValidator` of src/domains/data_import/validator.py, with the two batches that also look for
-- duplicates.
use douyin_data_dashboard.Prelude.{
  ℕ, zero, suc, String, true, false, not, ◌&&◌, Option, none, some, List, [], ◌∷◌, ◌++◌, str_eq,
  if◌then◌else◌, or_else, get_elem?, keep, contains,
}
pub use douyin_data_dashboard.Prelude.Dict.{Dict, lookup}
use douyin_data_dashboard.Import.Value.{Runtime, Value, null, truthy, str}
use douyin_data_dashboard.Import.Result.{
  error, duplicate_order_id, duplicate_sku, ValidationResult, blank, add_error,
}
use douyin_data_dashboard.Import.Rules.{ValidationRule}

pub record DataValidator (F : Type 0) : Type 0 where
  pub rules : List (ValidationRule F)
  pub aliases : Dict (List String)

abbrev pub Row : Type 0 → Type 0
Row F = Dict (Value F)

module _ {F : Type 0} where
  unfoldable pub add_rule : ValidationRule F → DataValidator F → DataValidator F
  add_rule rule v = record v { rules = v.rules ++ rule ∷ [] }

  unfoldable pub get_rules_for_field : String → DataValidator F → List (ValidationRule F)
  get_rules_for_field field_name v =
      keep (λ r. str_eq r.target_field field_name && r.enabled) v.rules

  -- `next(row[alias] for alias in names if alias in row)`, or `None`
  abbrev pub first_alias : List String → Row F → Value F
  first_alias [] row = null
  first_alias (a ∷ names) row = elim (lookup a row) [ some v ↦ v | none ↦ first_alias names row ]

  -- `_get_field_value`
  unfoldable pub get_field_value : DataValidator F → Row F → String → Value F
  get_field_value v row field_name = elim (lookup field_name row) [
    | some value ↦ value
    | none ↦ first_alias (or_else (lookup field_name v.aliases) []) row
  ]

  -- One turn of the loop over the rules.
  unfoldable pub apply_rule :
      DataValidator F → Row F → ValidationRule F → ValidationResult F → ValidationResult F
  apply_rule v row rule result =
      if not rule.enabled
      then result
      else let field_value = get_field_value v row rule.target_field in
        elim rule.validate_func [
          | none ↦ result
          | some validate ↦
              let (passed, message) = validate field_value rule.rule_params in
              if not passed
              then add_error rule.target_field message rule.name field_value rule.severity result
              else result
        ]

  abbrev pub apply_rules :
      DataValidator F → Row F → List (ValidationRule F) → ValidationResult F → ValidationResult F
  apply_rules v row [] result = result
  apply_rules v row (rule ∷ rules) result = apply_rules v row rules (apply_rule v row rule result)

  unfoldable pub validate_row : DataValidator F → Row F → Option ℕ → ValidationResult F
  validate_row v row row_index = apply_rules v row v.rules (blank row_index)

  -- `[self.validate_row(row, i) for i, row in enumerate(rows)]`, from the index `i` on
  abbrev pub validate_from : DataValidator F → ℕ → List (Row F) → List (ValidationResult F)
  validate_from v i [] = []
  validate_from v i (row ∷ rows) = validate_row v row (some i) ∷ validate_from v (suc i) rows

  unfoldable pub validate_batch : DataValidator F → List (Row F) → List (ValidationResult F)
  validate_batch v rows = validate_from v 0 rows

  -- `results[i] = f(results[i])`
  abbrev pub modify :
      ℕ
      → (ValidationResult F → ValidationResult F)
      → List (ValidationResult F)
      → List (ValidationResult F)
  modify i f [] = []
  modify zero f (x ∷ xs) = f x ∷ xs
  modify (suc i) f (x ∷ xs) = x ∷ modify i f xs

module _ (r : Runtime) where
  open r use {Float}

  -- The text of a field that is there and true.
  abbrev pub key_of : DataValidator Float → String → Row Float → Option String
  key_of v field row =
      let value = get_field_value v row field in if truthy r value then some (str r value) else none

  -- The first loop of the two `validate_batch`: the indices of the rows whose key was seen before.
  unfoldable pub duplicate_indices :
      DataValidator Float → String → List String → ℕ → List (Row Float) → List ℕ
  duplicate_indices v field seen i [] = []
  duplicate_indices v field seen i (row ∷ rows) = elim (key_of v field row) [
    | none ↦ duplicate_indices v field seen (suc i) rows
    | some key ↦ elim (contains seen key) [
      | true ↦ i ∷ duplicate_indices v field seen (suc i) rows
      | false ↦ duplicate_indices v field (key ∷ seen) (suc i) rows
    ]
  ]

  -- The second loop: one error more on each of those rows.
  unfoldable pub mark_duplicates :
      (mark : Row Float → ValidationResult Float → ValidationResult Float)
      → List (Row Float)
      → List ℕ
      → List (ValidationResult Float)
      → List (ValidationResult Float)
  mark_duplicates mark rows [] results = results
  mark_duplicates mark rows (i ∷ indices) results =
      mark_duplicates mark rows indices
        (elim (get_elem? rows i) [ none ↦ results | some row ↦ modify i (mark row) results ])

  abbrev pub order_mark :
      DataValidator Float → Row Float → ValidationResult Float → ValidationResult Float
  order_mark v row result =
      let order_id = get_field_value v row "order_id" in
      add_error "order_id" (duplicate_order_id order_id) "order_id_unique" order_id error result

  abbrev pub product_mark :
      DataValidator Float → Row Float → ValidationResult Float → ValidationResult Float
  product_mark v row result =
      let sku = get_field_value v row "sku" in
      add_error "sku" (duplicate_sku sku) "sku_unique" sku error result

  -- `OrderValidator.validate_batch`
  unfoldable pub order_validate_batch :
      DataValidator Float → List (Row Float) → List (ValidationResult Float)
  unfolding duplicate_indices mark_duplicates validate_batch
  order_validate_batch v rows =
      mark_duplicates (order_mark v) rows (duplicate_indices v "order_id" [] 0 rows)
        (validate_batch v rows)

  -- `ProductValidator.validate_batch`
  unfoldable pub product_validate_batch :
      DataValidator Float → List (Row Float) → List (ValidationResult Float)
  unfolding duplicate_indices mark_duplicates validate_batch
  product_validate_batch v rows =
      mark_duplicates (product_mark v) rows (duplicate_indices v "sku" [] 0 rows)
        (validate_batch v rows)
