-- ===== src/Import/Value.antt =====
-- The values that the cells of an imported row hold, as far as src/domains/data_import/validator.py
-- looks at them. Floating point numbers are a parameter.
use douyin_data_dashboard.Prelude.{
  ℕ, String, Bool, true, false, not, ◌&&◌, Option, none, some, ◌==◌, if◌then◌else◌, is_empty,
}
use douyin_data_dashboard.Prelude.Int.{ℤ, pos_part, neg_part, pos}

-- What the code asks of Python's `float` and `datetime.strptime`.
pub record Runtime : Type 1 where
  pub Float : Type 0
  -- `f == 0`
  pub is_zero : Float → Bool
  -- `a < b`, which is false where one of them is not a number
  pub float_lt : Float → Float → Bool
  pub float_of_int : ℤ → Float
  -- `float(text)`; `none` is a `ValueError`
  pub float_of_text : String → Option Float
  pub str_of_int : ℤ → String
  pub str_of_float : Float → String
  -- `datetime.strptime(text, fmt)` succeeds
  pub parses_as : String → String → Bool

-- A list or dict is known by its `str` and its length, and any other object by its `str`, its
-- truth value and its `float`.
pub data Value (F : Type 0) : Type 0 where
  null : Value F
  bool : Bool → Value F
  int : ℤ → Value F
  float : F → Value F
  text : String → Value F
  collection : String → ℕ → Value F
  datetime : String → Value F
  other : String → Bool → Option F → Value F

module _ (r : Runtime) where
  open r use {Float, is_zero, float_of_int, float_of_text, str_of_int, str_of_float}

  -- `bool(value)`
  unfoldable pub truthy : Value Float → Bool
  truthy null = false
  truthy (bool b) = b
  truthy (int n) = not (pos_part n == 0 && neg_part n == 0)
  truthy (float f) = not (is_zero f)
  truthy (text s) = not (is_empty s)
  truthy (collection s n) = not (n == 0)
  truthy (datetime s) = true
  truthy (other s b f) = b

  -- `str(value)`
  unfoldable pub str : Value Float → String
  str null = "None"
  str (bool b) = if b then "True" else "False"
  str (int n) = str_of_int n
  str (float f) = str_of_float f
  str (text s) = s
  str (collection s n) = s
  str (datetime s) = s
  str (other s b f) = s

  -- `float(value)`; `none` is a `TypeError` or a `ValueError`
  unfoldable pub to_float : Value Float → Option Float
  to_float null = none
  to_float (bool b) = some (float_of_int (if b then pos 1 else pos 0))
  to_float (int n) = some (float_of_int n)
  to_float (float f) = some f
  to_float (text s) = float_of_text s
  to_float (collection s n) = none
  to_float (datetime s) = none
  to_float (other s b f) = f
