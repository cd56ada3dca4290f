-- ===== src/Import/Summary.antt =====
-- `get_summary` and `validate_and_summarize` of src/domains/data_import/validator.py, and the sums
-- that their counts keep.
use mathlib.Core.Option
use douyin_data_dashboard.Prelude.{
  ℕ, ◌+◌, String, ◌≡◌, Bool, Option, List, [], ◌∷◌, arith, str_eq, eq_iff, if◌then◌else◌, or_else,
  length,
}
use douyin_data_dashboard.Import.Value.{Runtime}
use douyin_data_dashboard.Import.Result.{
  ValidationStatus, ValidationError, ValidationResult, is_pass, is_fail, is_skip,
}
use douyin_data_dashboard.Import.Validator.{Dict, lookup, Row}
use douyin_data_dashboard.Import.Service.{RuleConfig, Registry, validate}

-- `sum(f(x) for x in xs)`
abbrev pub sum_of {ℓ} : {A : Type ℓ} → (A → ℕ) → List A → ℕ
sum_of f [] = 0
sum_of f (x ∷ xs) = f x + sum_of f xs

-- `d[key] = d.get(key, 0) + 1`
abbrev pub count_one : String → Dict ℕ → Dict ℕ
count_one key [] = (key, 1) ∷ []
count_one key ((k, n) ∷ d) = if str_eq k key then (k, n + 1) ∷ d else (k, n) ∷ count_one key d

pub record Summary : Type 0 where
  pub total_rows : ℕ
  pub passed : ℕ
  pub failed : ℕ
  pub skipped : ℕ
  pub total_errors : ℕ
  pub total_warnings : ℕ
  pub errors_by_field : Dict ℕ
  pub warnings_by_field : Dict ℕ

module _ {F : Type 0} where
  abbrev pub count_fields : List (ValidationError F) → Dict ℕ → Dict ℕ
  count_fields [] d = d
  count_fields (e ∷ es) d = count_fields es (count_one e.field_name d)

  abbrev pub count_errors : List (ValidationResult F) → Dict ℕ → Dict ℕ
  count_errors [] d = d
  count_errors (r ∷ rs) d = count_errors rs (count_fields r.errors d)

  abbrev pub count_warnings : List (ValidationResult F) → Dict ℕ → Dict ℕ
  count_warnings [] d = d
  count_warnings (r ∷ rs) d = count_warnings rs (count_fields r.warnings d)

  -- `sum(1 for r in results if p(r.status))`
  abbrev pub count_status : (ValidationStatus → Bool) → List (ValidationResult F) → ℕ
  count_status p results = sum_of (λ r. if p r.status then 1 else 0) results

  unfoldable pub get_summary : List (ValidationResult F) → Summary
  get_summary results = record {
    total_rows = length results;
    passed = count_status is_pass results;
    failed = count_status is_fail results;
    skipped = count_status is_skip results;
    total_errors = sum_of (λ r. length r.errors) results;
    total_warnings = sum_of (λ r. length r.warnings) results;
    errors_by_field = count_errors results [];
    warnings_by_field = count_warnings results [];
  }

-- `validate_and_summarize`, with the results beside the summary instead of under its "results"
unfoldable pub validate_and_summarize :
    (r : Runtime)
    → Registry r
    → String
    → List (Row r.Float)
    → List (RuleConfig r.Float)
    → Option (Dict (List String))
    → Option (Summary × List (ValidationResult r.Float))
validate_and_summarize r reg data_type rows rules_config custom_aliases =
    Option.map (λ results. (get_summary results, results))
      (validate r reg data_type rows rules_config custom_aliases)

-- The sum of the counts in a dict.
abbrev pub total : Dict ℕ → ℕ
total d = sum_of (λ (item : String × ℕ). item.1) d

total-count_one : (key : String) (d : Dict ℕ) → total (count_one key d) ≡ total d + 1
total-count_one key [] = omega arith
total-count_one key ((k, n) ∷ d) = ground (arith, total-count_one key d)

lookup-count_one :
    (key field : String) (d : Dict ℕ)
    → or_else (lookup field (count_one key d)) 0
      ≡ or_else (lookup field d) 0 + (if str_eq key field then 1 else 0)
lookup-count_one key field [] = ground arith
lookup-count_one key field ((k, n) ∷ d) =
    ground (arith, eq_iff k key, eq_iff k field, eq_iff key field, lookup-count_one key field d)

module _ {F : Type 0} where
  total-count_fields :
      (es : List (ValidationError F)) (d : Dict ℕ) → total (count_fields es d) ≡ total d + length es
  total-count_fields [] d = omega arith
  total-count_fields (e ∷ es) d =
      omega
        (arith, total-count_fields es (count_one e.field_name d), total-count_one e.field_name d)

  total-count_errors :
      (rs : List (ValidationResult F)) (d : Dict ℕ)
      → total (count_errors rs d) ≡ total d + sum_of (λ r. length r.errors) rs
  total-count_errors [] d = omega arith
  total-count_errors (r ∷ rs) d =
      omega (arith, total-count_errors rs (count_fields r.errors d), total-count_fields r.errors d)

  total-count_warnings :
      (rs : List (ValidationResult F)) (d : Dict ℕ)
      → total (count_warnings rs d) ≡ total d + sum_of (λ r. length r.warnings) rs
  total-count_warnings [] d = omega arith
  total-count_warnings (r ∷ rs) d =
      omega (
        arith,
        total-count_warnings rs (count_fields r.warnings d),
        total-count_fields r.warnings d,
      )

  status_sum :
      (rs : List (ValidationResult F))
      → count_status is_pass rs + count_status is_fail rs + count_status is_skip rs ≡ length rs
  status_sum [] = omega arith
  status_sum (r ∷ rs) = ground (arith, status_sum rs)

  -- How often a field is named among some errors.
  abbrev pub occurrences : String → List (ValidationError F) → ℕ
  occurrences field es = sum_of (λ e. if str_eq e.field_name field then 1 else 0) es

  lookup-count_fields :
      (field : String) (es : List (ValidationError F)) (d : Dict ℕ)
      → or_else (lookup field (count_fields es d)) 0
        ≡ or_else (lookup field d) 0 + occurrences field es
  lookup-count_fields field [] d = omega arith
  lookup-count_fields field (e ∷ es) d = omega (
    arith,
    lookup-count_fields field es (count_one e.field_name d),
    lookup-count_one e.field_name field d,
  )

  lookup-count_errors :
      (field : String) (rs : List (ValidationResult F)) (d : Dict ℕ)
      → or_else (lookup field (count_errors rs d)) 0
        ≡ or_else (lookup field d) 0 + sum_of (λ r. occurrences field r.errors) rs
  lookup-count_errors field [] d = omega arith
  lookup-count_errors field (r ∷ rs) d = omega (
    arith,
    lookup-count_errors field rs (count_fields r.errors d),
    lookup-count_fields field r.errors d,
  )

  -- The three counts of rows add up to the rows, the counts by field add up to the errors and to the
  -- warnings, and each field's count of errors is the number of errors that name it.
  pub get_summary-sums :
      (results : List (ValidationResult F))
      → let s = get_summary results in
        (s.passed + s.failed + s.skipped ≡ s.total_rows)
        × (total s.errors_by_field ≡ s.total_errors)
        × (total s.warnings_by_field ≡ s.total_warnings)
        × ((field : String)
            → or_else (lookup field s.errors_by_field) 0
              ≡ sum_of (λ r. occurrences field r.errors) results)
  unfolding get_summary
  get_summary-sums results = (
    status_sum results,
    omega (arith, total-count_errors results []),
    omega (arith, total-count_warnings results []),
    λ field. omega (arith, lookup-count_errors field results []),
  )
