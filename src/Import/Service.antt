-- ===== src/Import/Service.antt =====
-- `ConfigurableValidator` and `ValidationService` of src/domains/data_import/validator.py.
use mathlib.Core.Option
use douyin_data_dashboard.Prelude.{
  String, Bool, true, Option, none, some, List, [], ◌∷◌, str_eq, if◌then◌else◌, or_else, upper_is,
}
use douyin_data_dashboard.Prelude.Dict.{update}
use douyin_data_dashboard.Import.Value.{Runtime}
use douyin_data_dashboard.Import.Result.{ValidationSeverity, error, warning, ValidationResult}
use douyin_data_dashboard.Import.Rules.{
  RuleParams, Check, ValidationRule, required_validator, not_empty_validator,
  string_max_length_validator, number_positive_validator, number_range_validator,
  date_format_validator,
}
use douyin_data_dashboard.Import.Validator.{
  Dict, lookup, DataValidator, Row, add_rule, validate_batch, order_validate_batch,
  product_validate_batch,
}
use douyin_data_dashboard.Import.Builtin.{order_validator, product_validator}

-- One entry of `rules_config`. A severity that is no text counts as "ERROR", which is here `none`.
pub record RuleConfig (F : Type 0) : Type 0 where
  pub severity : Option String
  pub name : Option String
  pub field : Option String
  pub enabled : Option Bool
  pub params : RuleParams F
  pub type : Option String

-- `ValidationSeverity(severity_value.upper())`; `none` is the `ValueError` of another word.
unfoldable pub read_severity : String → Option ValidationSeverity
read_severity s =
    if upper_is s "ERROR" then some error else if upper_is s "WARNING" then some warning else none

module _ (r : Runtime) where
  open r use {Float}

  -- `_get_validator_func`
  unfoldable pub get_validator_func : Option String → Option (Check r)
  get_validator_func none = none
  get_validator_func (some rule_type) =
      if str_eq rule_type "required"
      then some (required_validator r)
      else if str_eq rule_type "not_empty"
      then some (not_empty_validator r)
      else if str_eq rule_type "string_max_length"
      then some (string_max_length_validator r)
      else if str_eq rule_type "number_positive"
      then some (number_positive_validator r)
      else if str_eq rule_type "number_range"
      then some (number_range_validator r)
      else if str_eq rule_type "date_format"
      then some (date_format_validator r)
      else none

  unfoldable pub configured_rule : RuleConfig Float → Option (ValidationRule Float)
  unfolding read_severity get_validator_func
  configured_rule c =
      Option.map
        (λ (severity : ValidationSeverity). record {
          name = or_else c.name "custom";
          target_field = or_else c.field "";
          severity = severity;
          enabled = or_else c.enabled true;
          rule_params = c.params;
          validate_func = get_validator_func c.type;
        })
        (read_severity (or_else c.severity "error"))

  -- `_setup_rules_from_config`, which appends to the rules that are there
  unfoldable pub setup_rules_from_config :
      List (RuleConfig Float) → DataValidator Float → Option (DataValidator Float)
  setup_rules_from_config [] v = some v
  setup_rules_from_config (c ∷ cs) v = elim (configured_rule c) [
    | none ↦ none
    | some rule ↦ setup_rules_from_config cs (add_rule rule v)
  ]

  -- The registered classes.
  pub data ValidatorClass : Type 0 where
    plain order product : ValidatorClass

  abbrev pub Registry : Type 0
  Registry = Dict ValidatorClass

  abbrev pub registry : Registry
  registry = ("order", order) ∷ ("product", product) ∷ []

  -- `register_validator(data_type, validator_class)`
  unfoldable pub register_validator : String → ValidatorClass → Registry → Registry
  register_validator data_type c [] = (data_type, c) ∷ []
  register_validator data_type c ((k, d) ∷ reg) =
      if str_eq k data_type then (k, c) ∷ reg else (k, d) ∷ register_validator data_type c reg

  -- A validator object: its class, which picks `validate_batch`, and its fields.
  pub record Validator : Type 0 where
    pub class : ValidatorClass
    pub state : DataValidator Float

  abbrev pub empty_state : DataValidator Float
  empty_state = record { rules = []; aliases = [] }

  abbrev pub construct : ValidatorClass → Validator
  construct plain = record { class = plain; state = empty_state }
  construct order = record { class = order; state = order_validator r }
  construct product = record { class = product; state = product_validator r }

  -- `get_validator(data_type)`
  unfoldable pub get_validator : Registry → String → Validator
  get_validator reg data_type = construct (or_else (lookup data_type reg) plain)

  abbrev pub run_batch : Validator → List (Row Float) → List (ValidationResult Float)
  run_batch v rows = elim v.class [
    | plain ↦ validate_batch v.state rows
    | order ↦ order_validate_batch r v.state rows
    | product ↦ product_validate_batch r v.state rows
  ]

  abbrev pub with_aliases : Option (Dict (List String)) → Validator → Validator
  with_aliases none v = v
  with_aliases (some []) v = v
  with_aliases (some (a ∷ custom)) v = record v {
    state = record v.state { aliases = update v.state.aliases (a ∷ custom) };
  }

  -- `ValidationService.validate`; `none` is the `ValueError` of a severity in the configuration.
  unfoldable pub validate :
      Registry
      → String
      → List (Row Float)
      → List (RuleConfig Float)
      → Option (Dict (List String))
      → Option (List (ValidationResult Float))
  unfolding get_validator setup_rules_from_config
  validate reg data_type rows [] custom_aliases =
      some (run_batch (with_aliases custom_aliases (get_validator reg data_type)) rows)
  validate reg data_type rows (c ∷ rules_config) custom_aliases =
      Option.map
        (λ (state : DataValidator Float).
          run_batch (with_aliases custom_aliases (record { class = plain; state = state })) rows)
        (setup_rules_from_config (c ∷ rules_config) empty_state)
