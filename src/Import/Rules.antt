-- ===== src/Import/Rules.antt =====
-- The rules and the six checks of src/domains/data_import/validator.py.
use mathlib.Core.Option
use douyin_data_dashboard.Prelude.{
  ℕ, String, Bool, true, false, ◌||◌, Option, none, some, List, [], ◌∷◌, ltb, ◌==◌, if◌then◌else◌,
  or_else, length, any, is_empty, strip, codes,
}
use douyin_data_dashboard.Prelude.Int.{pos}
use douyin_data_dashboard.Import.Value.{Runtime, Value, null, text, collection, datetime, to_float}
use douyin_data_dashboard.Import.Result.{
  ValidationSeverity, Message, no_message, field_required, cannot_be_empty, must_be_non_negative,
  invalid_number, invalid_date, custom, too_long, at_least, at_most, no_format_of,
}

-- The parameters that the checks read, each of the type that its check wants.
pub record RuleParams (F : Type 0) : Type 0 where
  pub message : Option String
  pub max_length : Option ℕ
  pub min : Option F
  pub max : Option F
  pub formats : Option (List String)

abbrev pub no_params : {F : Type 0} → RuleParams F
no_params = record { message = none; max_length = none; min = none; max = none; formats = none }

abbrev pub Verdict : Type 0 → Type 0
Verdict F = Bool × Message F

pub record ValidationRule (F : Type 0) : Type 0 where
  pub name : String
  pub target_field : String
  pub severity : ValidationSeverity
  pub enabled : Bool
  pub rule_params : RuleParams F
  pub validate_func : Option (Value F → RuleParams F → Verdict F)

-- The number of characters.
abbrev pub text_length : String → ℕ
text_length s = length (codes s)

abbrev pub message_or : {F : Type 0} → RuleParams F → Message F → Message F
message_or params m = or_else (Option.map custom params.message) m

module _ (r : Runtime) where
  open r use {Float, float_lt, float_of_int, parses_as}

  abbrev pub Check : Type 0
  Check = Value Float → RuleParams Float → Verdict Float

  -- `value is None or value == "" or (isinstance(value, str) and not value.strip())`
  unfoldable pub required_validator : Check
  required_validator null params = (false, message_or params field_required)
  required_validator (text s) params =
      if is_empty s || is_empty (strip s)
      then (false, message_or params field_required)
      else (true, no_message)
  required_validator _ params = (true, no_message)

  unfoldable pub not_empty_validator : Check
  not_empty_validator (collection s n) params =
      if n == 0 then (false, message_or params cannot_be_empty) else (true, no_message)
  not_empty_validator _ params = (true, no_message)

  unfoldable pub string_max_length_validator : Check
  string_max_length_validator (text s) params =
      let max_length = or_else params.max_length 255 in
      if ltb max_length (text_length s) then (false, too_long max_length) else (true, no_message)
  string_max_length_validator _ params = (true, no_message)

  abbrev pub check_positive : Option Float → RuleParams Float → Verdict Float
  check_positive none params = (false, invalid_number)
  check_positive (some num) params =
      if float_lt num (float_of_int (pos 0))
      then (false, message_or params must_be_non_negative)
      else (true, no_message)

  unfoldable pub number_positive_validator : Check
  number_positive_validator null params = (true, no_message)
  number_positive_validator value params = check_positive (to_float r value) params

  abbrev pub below : Float → Option Float → Bool
  below num none = false
  below num (some bound) = float_lt num bound

  abbrev pub above : Float → Option Float → Bool
  above num none = false
  above num (some bound) = float_lt bound num

  abbrev pub check_range : Option Float → RuleParams Float → Verdict Float
  check_range none params = (false, invalid_number)
  check_range (some num) params =
      if below num params.min
      then (false, or_else (Option.map at_least params.min) no_message)
      else if above num params.max
      then (false, or_else (Option.map at_most params.max) no_message)
      else (true, no_message)

  unfoldable pub number_range_validator : Check
  number_range_validator value params = check_range (to_float r value) params

  abbrev pub default_formats : List String
  default_formats = "%Y-%m-%d" ∷ "%Y/%m/%d" ∷ "%m/%d/%Y" ∷ []

  unfoldable pub date_format_validator : Check
  date_format_validator (datetime s) params = (true, no_message)
  date_format_validator (text s) params =
      let formats = or_else params.formats default_formats in
      if any formats (parses_as s) then (true, no_message) else (false, no_format_of formats)
  date_format_validator _ params = (false, invalid_date)
