-- ===== src/Import/Result.antt =====
-- `ValidationError` and `ValidationResult` of src/domains/data_import/validator.py.
use douyin_data_dashboard.Prelude.{
  ℕ, String, Bool, true, false, ◌&&◌, Option, List, [], ◌∷◌, ◌++◌, if◌then◌else◌,
}
use douyin_data_dashboard.Import.Value.{Value}

pub data ValidationSeverity : Type 0 where
  error warning : ValidationSeverity

pub data ValidationStatus : Type 0 where
  pass fail skip : ValidationStatus

-- The messages, before they are rendered; `custom` is one that the rule's parameters give.
pub data Message (F : Type 0) : Type 0 where
  no_message field_required cannot_be_empty must_be_non_negative invalid_number invalid_date :
      Message F
  custom : String → Message F
  too_long : ℕ → Message F
  at_least at_most : F → Message F
  no_format_of : List String → Message F
  duplicate_order_id duplicate_sku : Value F → Message F

pub record ValidationError (F : Type 0) : Type 0 where
  pub field_name : String
  pub message : Message F
  pub severity : ValidationSeverity
  pub rule_name : String
  pub value : Value F
  pub row_index : Option ℕ

pub record ValidationResult (F : Type 0) : Type 0 where
  pub row_index : Option ℕ
  pub status : ValidationStatus
  pub errors : List (ValidationError F)
  pub warnings : List (ValidationError F)

abbrev pub is_pass : ValidationStatus → Bool
is_pass pass = true
is_pass _ = false

abbrev pub is_fail : ValidationStatus → Bool
is_fail fail = true
is_fail _ = false

abbrev pub is_skip : ValidationStatus → Bool
is_skip skip = true
is_skip _ = false

module _ {F : Type 0} where
  abbrev pub blank : Option ℕ → ValidationResult F
  blank row_index = record { row_index = row_index; status = pass; errors = []; warnings = [] }

  -- `ValidationError(..., row_index=self.row_index)` on the side that its severity names.
  abbrev pub add_item :
      ValidationError F → ValidationSeverity → ValidationResult F → ValidationResult F
  add_item e error r = record r {
    errors = r.errors ++ e ∷ [];
    status = if is_fail r.status then r.status else fail;
  }
  add_item e warning r = record r {
    warnings = r.warnings ++ e ∷ [];
    status = if is_pass r.status then skip else r.status;
  }

  -- `add_error`
  unfoldable pub add_error :
      String
      → Message F
      → String
      → Value F
      → ValidationSeverity
      → ValidationResult F
      → ValidationResult F
  add_error field_name message rule_name value severity r =
      add_item
        (record {
          field_name = field_name;
          message = message;
          severity = severity;
          rule_name = rule_name;
          value = value;
          row_index = r.row_index;
        })
        severity r

  -- `self.merge(other)`
  unfoldable pub merge : ValidationResult F → ValidationResult F → ValidationResult F
  merge self other = record self {
    errors = self.errors ++ other.errors;
    warnings = self.warnings ++ other.warnings;
    status =
        if is_fail other.status
        then fail
        else if is_skip other.status && is_pass self.status
        then skip
        else self.status;
  }
