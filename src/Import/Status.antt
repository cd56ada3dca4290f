-- ===== src/Import/Status.antt =====
-- The status of a result of src/domains/data_import/validator.py says what its lists hold.
use mathlib.Core.List.{append-nil, append_assoc}
use douyin_data_dashboard.Prelude.{
  ℕ, String, ◌≡◌, refl, ap, ◌∙◌, not, ◌&&◌, Option, none, some, List, [], ◌∷◌, ◌++◌, arith,
  if◌then◌else◌,
}
use douyin_data_dashboard.Import.Value.{Value}
use douyin_data_dashboard.Import.Result.{
  ValidationSeverity, error, warning, ValidationStatus, pass, fail, skip, Message, ValidationError,
  ValidationResult, is_pass, is_fail, is_skip, add_item, add_error, merge,
}
use douyin_data_dashboard.Import.Rules.{ValidationRule}
use douyin_data_dashboard.Import.Validator.{
  DataValidator, Row, apply_rule, apply_rules, validate_row, get_field_value,
}

-- FAIL with errors, SKIP with warnings alone, PASS with neither.
abbrev pub status_of :
    {F : Type 0} → List (ValidationError F) → List (ValidationError F) → ValidationStatus
status_of (e ∷ errors) warnings = fail
status_of [] (w ∷ warnings) = skip
status_of [] [] = pass

abbrev pub IsConsistent : {F : Type 0} → ValidationResult F → Type 0
IsConsistent r = r.status ≡ status_of r.errors r.warnings

status_of-error :
    {F : Type 0} (es ws : List (ValidationError F)) (e : ValidationError F)
    → status_of (es ++ e ∷ []) ws ≡ fail
status_of-error [] ws e = refl
status_of-error (x ∷ es) ws e = refl

status_of-warning :
    {F : Type 0} (es ws : List (ValidationError F)) (w : ValidationError F)
    → (if is_pass (status_of es ws) then skip else status_of es ws) ≡ status_of es (ws ++ w ∷ [])
status_of-warning (x ∷ es) ws w = refl
status_of-warning [] [] w = refl
status_of-warning [] (x ∷ ws) w = refl

status_of-append :
    {F : Type 0} (es ws es' ws' : List (ValidationError F))
    → (if is_fail (status_of es' ws')
        then fail
        else if is_skip (status_of es' ws') && is_pass (status_of es ws)
        then skip
        else status_of es ws)
      ≡ status_of (es ++ es') (ws ++ ws')
status_of-append (x ∷ es) ws [] [] = refl
status_of-append (x ∷ es) ws [] (y ∷ ws') = refl
status_of-append (x ∷ es) ws (y ∷ es') ws' = refl
status_of-append [] ws (y ∷ es') ws' = refl
status_of-append [] [] [] [] = refl
status_of-append [] [] [] (y ∷ ws') = refl
status_of-append [] (x ∷ ws) [] [] = refl
status_of-append [] (x ∷ ws) [] (y ∷ ws') = refl

module _ {F : Type 0} where
  -- Adding an item keeps the status in step with the lists, and so does merging two results.
  pub add_error-IsConsistent :
      (field : String) (m : Message F) (rule : String) (value : Value F)
      (severity : ValidationSeverity) (r : ValidationResult F)
      → IsConsistent r
      → IsConsistent (add_error field m rule value severity r)
  unfolding add_error
  add_error-IsConsistent field m rule value error r h = ground (
    arith,
    h,
    status_of-error r.errors r.warnings (record {
      field_name = field;
      message = m;
      severity = error;
      rule_name = rule;
      value = value;
      row_index = r.row_index;
    }),
  )
  add_error-IsConsistent field m rule value warning r h =
      rw h (status_of-warning r.errors r.warnings _)

  -- Merging two results whose status says which of their lists hold something gives another such
  -- result.
  pub merge-IsConsistent :
      (r s : ValidationResult F) → IsConsistent r → IsConsistent s → IsConsistent (merge r s)
  unfolding merge
  merge-IsConsistent r s h k = rw (h, k) (status_of-append r.errors r.warnings s.errors s.warnings)

  -- What a rule finds wrong with a row: nothing, or one item.
  abbrev pub finding :
      DataValidator F → Row F → Option ℕ → ValidationRule F → Option (ValidationError F)
  finding v row i rule =
      let value = get_field_value v row rule.target_field in
      if not rule.enabled then none else elim rule.validate_func [
        | none ↦ none
        | some validate ↦
            let (passed, message) = validate value rule.rule_params in
            if passed
            then none
            else some (record {
              field_name = rule.target_field;
              message = message;
              severity = rule.severity;
              rule_name = rule.name;
              value = value;
              row_index = i;
            })
      ]

  -- The part of it that goes to the errors, or to the warnings.
  abbrev pub error_part : ValidationSeverity → Option (ValidationError F) → List (ValidationError F)
  error_part error (some e) = e ∷ []
  error_part _ _ = []

  abbrev pub warning_part :
      ValidationSeverity → Option (ValidationError F) → List (ValidationError F)
  warning_part warning (some e) = e ∷ []
  warning_part _ _ = []

  abbrev pub errors_of :
      DataValidator F → Row F → Option ℕ → List (ValidationRule F) → List (ValidationError F)
  errors_of v row i [] = []
  errors_of v row i (rule ∷ rules) =
      error_part rule.severity (finding v row i rule) ++ errors_of v row i rules

  abbrev pub warnings_of :
      DataValidator F → Row F → Option ℕ → List (ValidationRule F) → List (ValidationError F)
  warnings_of v row i [] = []
  warnings_of v row i (rule ∷ rules) =
      warning_part rule.severity (finding v row i rule) ++ warnings_of v row i rules

  -- The result with these lists.
  abbrev pub filled :
      Option ℕ → List (ValidationError F) → List (ValidationError F) → ValidationResult F
  filled i es ws = record { row_index = i; status = status_of es ws; errors = es; warnings = ws }

  add_item-filled :
      (o : Option (ValidationError F)) (severity : ValidationSeverity) (i : Option ℕ)
      (es ws : List (ValidationError F))
      → (elim o [ none ↦ filled i es ws | some e ↦ add_item e severity (filled i es ws) ])
        ≡ filled i (es ++ error_part severity o) (ws ++ warning_part severity o)
  add_item-filled none error i es ws = simp append-nil
  add_item-filled none warning i es ws = simp append-nil
  add_item-filled (some e) error i es ws = rw append-nil (ground (arith, status_of-error es ws e))
  add_item-filled (some e) warning i es ws =
      rw append-nil (ground (arith, status_of-warning es ws e))

  apply_rule-finding :
      (v : DataValidator F) (row : Row F) (rule : ValidationRule F) (r : ValidationResult F)
      → apply_rule v row rule r
        ≡ (elim (finding v row r.row_index rule) [ none ↦ r | some e ↦ add_item e rule.severity r ])
  unfolding apply_rule add_error
  apply_rule-finding v row rule r = ground arith

  apply_rule-filled :
      (v : DataValidator F) (row : Row F) (rule : ValidationRule F) (i : Option ℕ)
      (es ws : List (ValidationError F))
      → apply_rule v row rule (filled i es ws)
        ≡ filled i
            (es ++ error_part rule.severity (finding v row i rule))
            (ws ++ warning_part rule.severity (finding v row i rule))
  apply_rule-filled v row rule i es ws =
      apply_rule-finding v row rule (filled i es ws)
      ∙ add_item-filled (finding v row i rule) rule.severity i es ws

  apply_rules-filled :
      (v : DataValidator F) (row : Row F) (rules : List (ValidationRule F)) (i : Option ℕ)
      (es ws : List (ValidationError F))
      → apply_rules v row rules (filled i es ws)
        ≡ filled i (es ++ errors_of v row i rules) (ws ++ warnings_of v row i rules)
  apply_rules-filled v row [] i es ws = simp append-nil
  apply_rules-filled v row (rule ∷ rules) i es ws =
      ap (apply_rules v row rules) (apply_rule-filled v row rule i es ws)
      ∙ apply_rules-filled v row rules i _ _
      ∙ simp append_assoc

  -- Validating a row lists what the enabled rules find, errors and warnings apart and each in the
  -- order of the rules, and its status says which of the lists hold something.
  pub validate_row-filled :
      (v : DataValidator F) (row : Row F) (i : Option ℕ)
      → validate_row v row i ≡ filled i (errors_of v row i v.rules) (warnings_of v row i v.rules)
  unfolding validate_row
  validate_row-filled v row i = apply_rules-filled v row v.rules i [] []
