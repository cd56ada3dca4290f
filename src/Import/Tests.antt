-- ===== src/Import/Tests.antt =====
-- Runs of the validation, and its theorems at concrete inputs. Integers stand in for the floats.
use douyin_data_dashboard.Prelude.{
  ℕ, ◌+◌, String, ◌≡◌, refl, ◌&&◌, none, some, List, [], ◌∷◌, map, str_eq, ◌==◌, if◌then◌else◌,
  or_else, length, get_elem?, strip, upper_is,
}
use douyin_data_dashboard.Prelude.Int.{ℤ, pos_part, neg_part, ltb_ℤ, pos, negsuc}
use douyin_data_dashboard.Import.Value.{Runtime, int, text, truthy, str, to_float}
use douyin_data_dashboard.Import.Result.{
  error, warning, ValidationStatus, pass, fail, field_required, ValidationResult, blank, add_error,
  merge,
}
use douyin_data_dashboard.Import.Rules.{
  required_validator, not_empty_validator, number_positive_validator, number_range_validator,
  date_format_validator,
}
use douyin_data_dashboard.Import.Validator.{
  lookup, Row, get_field_value, apply_rule, validate_row, order_mark, product_mark,
  order_validate_batch, product_validate_batch,
}
use douyin_data_dashboard.Import.Builtin.{order_validator, product_validator}
use douyin_data_dashboard.Import.Status.{
  IsConsistent, add_error-IsConsistent, merge-IsConsistent, errors_of, warnings_of, filled,
  validate_row-filled,
}
use douyin_data_dashboard.Import.Batch.{
  expected, order_validate_batch-expected, product_validate_batch-expected,
}
use douyin_data_dashboard.Import.Service.{read_severity}
use douyin_data_dashboard.Import.Summary.{sum_of, total, occurrences, get_summary, get_summary-sums}

abbrev integers : Runtime
integers = record {
  Float = ℤ;
  is_zero = λ n. pos_part n == 0 && neg_part n == 0;
  float_lt = ltb_ℤ;
  float_of_int = λ n. n;
  float_of_text = λ t. if str_eq t "12" then some (pos 12) else none;
  str_of_int = λ n. "0";
  str_of_float = λ n. "0.0";
  parses_as = λ t fmt. str_eq fmt "%Y-%m-%d";
}

abbrev orders : List (Row ℤ)
orders =
    (("tid", text "A1") ∷ ("amount", text "12") ∷ ("date", text "2026-01-05") ∷ [])
    ∷ (("order_id", text " ") ∷ ("amount", int (negsuc 0)) ∷ ("date", text "2026-01-05") ∷ [])
    ∷ (("order_no", text "A1") ∷ ("amount", int (pos 2000000)) ∷ ("date", text "2026-01-05") ∷ [])
    ∷ []

order_run :
    map {B = ValidationStatus × ℕ × ℕ}
      (λ (r : ValidationResult ℤ). (r.status, length r.errors, length r.warnings))
      (order_validate_batch integers (order_validator integers) orders)
    ≡ (pass, 0, 0) ∷ (fail, 2, 1) ∷ (fail, 1, 1) ∷ []
unfolding order_validate_batch order_validator validate_row apply_rule get_field_value add_error
    required_validator not_empty_validator number_positive_validator number_range_validator
    date_format_validator to_float truthy str strip
order_run = refl

order_validate_batch-expected_example :
    get_elem? (order_validate_batch integers (order_validator integers) orders) 2
    ≡ expected integers
        (order_mark integers (order_validator integers))
        (order_validator integers)
        "order_id"
        orders
        2
order_validate_batch-expected_example =
    order_validate_batch-expected integers (order_validator integers) orders 2

abbrev products : List (Row ℤ)
products = (("sku", text "S") ∷ []) ∷ (("goods_sn", text "S") ∷ []) ∷ []

product_validate_batch-expected_example :
    get_elem? (product_validate_batch integers (product_validator integers) products) 1
    ≡ expected integers
        (product_mark integers (product_validator integers))
        (product_validator integers)
        "sku"
        products
        1
product_validate_batch-expected_example =
    product_validate_batch-expected integers (product_validator integers) products 1

validate_row-filled_example :
    validate_row (order_validator integers) (("amount", int (pos 3)) ∷ []) (some 0) ≡ (
      let v = order_validator integers in
      filled
        (some 0)
        (errors_of v (("amount", int (pos 3)) ∷ []) (some 0) v.rules)
        (warnings_of v (("amount", int (pos 3)) ∷ []) (some 0) v.rules))
validate_row-filled_example =
    validate_row-filled (order_validator integers) (("amount", int (pos 3)) ∷ []) (some 0)

abbrev failed : ValidationResult ℤ
failed = add_error "sku" field_required "sku_required" (text "") error (blank (some 4))

failed-IsConsistent : IsConsistent failed
failed-IsConsistent =
    add_error-IsConsistent "sku" field_required "sku_required" (text "") error (blank (some 4)) refl

merge-IsConsistent_example : IsConsistent (merge (blank (some 4)) failed)
merge-IsConsistent_example = merge-IsConsistent (blank (some 4)) failed refl failed-IsConsistent

get_summary-sums_example :
    let s = get_summary (failed ∷ []) in
    (s.passed + s.failed + s.skipped ≡ s.total_rows)
    × (total s.errors_by_field ≡ s.total_errors)
    × (total s.warnings_by_field ≡ s.total_warnings)
    × ((field : String)
        → or_else (lookup field s.errors_by_field) 0
          ≡ sum_of (λ r. occurrences field r.errors) (failed ∷ []))
get_summary-sums_example = get_summary-sums (failed ∷ [])

severity_words :
    (read_severity "Error" ≡ some error)
    × (read_severity "warning" ≡ some warning)
    × (read_severity "info" ≡ none)
unfolding read_severity upper_is
severity_words = (refl, refl, refl)
