-- ===== src/Tasks/Selection.antt =====
-- Which shops a payload selects: src/scrapers/shop_dashboard/shop_selection_validator.py.
use douyin_data_dashboard.Prelude.{
  ◌==◌, Bool, true, false, not, ◌||◌, Option, none, some, List, [], ◌∷◌, map, any, keep, or_else,
  if◌then◌else◌, String, strip, is_empty, split_on, starts_with, replace_char, lower_is,
}
use douyin_data_dashboard.Prelude.Dict.{Dict, lookup, has_key, put, pop}
use douyin_data_dashboard.Prelude.Int.{ℤ, pos, negsuc}
use douyin_data_dashboard.Plan.Shops.{append_shops}

-- A value of a payload: `None`, a Boolean, an integer, a text, a list of texts, another list, tuple
-- or set by its items, or something else.
pub data Value (Obj : Type 0) : Type 0 where
  null : Value Obj
  bool : Bool → Value Obj
  int : ℤ → Value Obj
  text : String → Value Obj
  texts : List String → Value Obj
  list : List Obj → Value Obj
  other : Obj → Value Obj

-- `str(item or "")` of an object and of an integer, `str(value)`, and `json.loads` of a text: `none`
-- where it raises, and no items where it is no list.
pub record Texts (Obj : Type 0) : Type 0 where
  pub str_or_empty : Obj → String
  pub int_or_empty : ℤ → String
  pub loads : String → Option (Option (List Obj))

pub record ShopSelection : Type 0 where
  pub all : Bool
  pub shop_ids : List String

abbrev pub is_all_marker : String → Bool
is_all_marker value = let t = strip value in lower_is t "all" || lower_is t "*"

abbrev is_one_of : String → List String → Bool
is_one_of t words = any words (lower_is t)

unfoldable pub parse_optional_bool : {Obj : Type 0} → Value Obj → Option Bool
parse_optional_bool (bool b) = some b
parse_optional_bool (int (pos n)) = some (not (n == 0))
parse_optional_bool (int (negsuc n)) = some true
parse_optional_bool (text value) =
    let t = strip value in
    if is_one_of t ("true" ∷ "1" ∷ "yes" ∷ "y" ∷ "on" ∷ [])
    then some true
    else if is_one_of t ("false" ∷ "0" ∷ "no" ∷ "n" ∷ "off" ∷ "" ∷ [])
    then some false
    else none
parse_optional_bool null = none
parse_optional_bool (texts ts) = none
parse_optional_bool (list os) = none
parse_optional_bool (other o) = none

abbrev pub Payload : Type 0 → Type 0
Payload Obj = Dict (Value Obj)

unfoldable pub has_explicit_shop_selection : {Obj : Type 0} → Payload Obj → Bool
has_explicit_shop_selection payload =
    has_key "shop_id" payload || has_key "shop_ids" payload || has_key "all" payload

-- `data.get(key)`
abbrev pub get_value : {Obj : Type 0} → String → Payload Obj → Value Obj
get_value key payload = or_else (lookup key payload) null

abbrev pub is_true : Option Bool → Bool
is_true none = false
is_true (some b) = b

abbrev pub pick_ids : List String → List String → List String
pick_ids [] others = others
pick_ids (id ∷ ids) others = id ∷ ids

-- `payload["shop_ids"]` and `payload["shop_id"]` set to some ids, or both taken away.
unfoldable pub put_shop_ids : {Obj : Type 0} → List String → Payload Obj → Payload Obj
put_shop_ids [] payload = pop "shop_ids" (pop "shop_id" payload)
put_shop_ids (id ∷ ids) payload =
    put "shop_id" (text id) (put "shop_ids" (texts (id ∷ ids)) payload)

-- The selection of the value under "all" and the parsed ids.
abbrev pub selection_of : {Obj : Type 0} → Value Obj → List String → ShopSelection
selection_of explicit ids =
    if is_true (parse_optional_bool explicit) || any ids is_all_marker
    then record { all = true; shop_ids = [] }
    else record { all = false; shop_ids = keep (λ item. not (is_all_marker item)) ids }

module _ {Obj : Type 0} (py : Texts Obj) where
  -- The texts of the items that a value stands for, before they are stripped and told apart.
  unfoldable pub items_of : Value Obj → List String
  items_of null = []
  items_of (text value) =
      let t = strip value in
      if is_empty t
      then []
      else if starts_with b'[' t
      then (elim (py.loads t) [
        | none ↦ []
        | some none ↦ t ∷ []
        | some (some items) ↦ map py.str_or_empty items
      ])
      else split_on b',' (replace_char b'|' "," (replace_char b';' "," t))
  items_of (bool b) = (if b then "True" else "") ∷ []
  items_of (int n) = py.int_or_empty n ∷ []
  items_of (texts ts) = ts
  items_of (list os) = map py.str_or_empty os
  items_of (other o) = py.str_or_empty o ∷ []

  -- Its loop appends each text once, as `normalize_shop_ids` does.
  unfoldable pub parse_shop_ids : Value Obj → List String
  parse_shop_ids value = append_shops true [] (items_of value)

  -- The ids under "shop_ids" or, where that gives none, under "shop_id".
  unfoldable pub parsed_shop_ids : Payload Obj → List String
  parsed_shop_ids payload =
      pick_ids (parse_shop_ids (get_value "shop_ids" payload))
        (parse_shop_ids (get_value "shop_id" payload))

  unfoldable pub normalize_shop_selection : Payload Obj → ShopSelection
  normalize_shop_selection payload =
      selection_of (get_value "all" payload) (parsed_shop_ids payload)

  unfoldable pub normalize_shop_selection_payload : Payload Obj → Payload Obj
  normalize_shop_selection_payload payload =
      if not (has_explicit_shop_selection payload)
      then payload
      else (let selection = normalize_shop_selection payload in
          if selection.all
          then put_shop_ids (keep (λ item. not (is_all_marker item)) (parsed_shop_ids payload))
              (put "all" (bool true) payload)
          else put_shop_ids selection.shop_ids (put "all" (bool false) payload))

  -- Whether the check raises no `ValueError`.
  unfoldable pub ensure_explicit_shop_selection_valid : Payload Obj → Bool
  ensure_explicit_shop_selection_valid payload =
      let selection = normalize_shop_selection payload in
      selection.all || not (elim selection.shop_ids [ [] ↦ true | _ ↦ false ])
