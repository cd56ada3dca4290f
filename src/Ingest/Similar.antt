-- ===== src/Ingest/Similar.antt =====
-- `FieldNormalizer` and `FieldSimilarityMatcher` of src/domains/data_import/mapping.py. `difflib`,
-- floats and the order in which Python lists a set are parameters.
use Prim.Native.Char.{code}
use text.Mathlib.Text.{find?}
use douyin_data_dashboard.Prelude.{
  String, Bool, not, ◌||◌, Option, none, some, List, [], ◌∷◌, ◌++◌, map, ◌==◌, if◌then◌else◌,
  is_some, any, contains, is_space,
}
use douyin_data_dashboard.Import.Value.{Runtime}
use douyin_data_dashboard.Ingest.Mapping.{FieldConfidence, high, medium, low, no_confidence}

-- `SequenceMatcher(None, a, b).ratio()`, decimal literals, `str.lower` and `list(set)`.
pub record Similarity (r : Runtime) : Type 0 where
  pub ratio : String → String → r.Float
  pub literal : String → r.Float
  pub lower : String → String
  pub list_set : List String → List String

-- `_NORMALIZE_PATTERN.sub("", text)`
unfoldable pub squeeze : String → String
squeeze String.[] = String.[]
squeeze (String.◌∷◌ c s) =
    let rest = squeeze s in
    if is_space (code c) || code c == b'-' || code c == b'_' then rest else String.◌∷◌ c rest

-- `needle in text`
abbrev pub has_part : String → String → Bool
has_part needle text = is_some (find? text needle)

-- A tuple of texts under its key.
abbrev pub Words : Type 0
Words = List (String × List String)

-- `_SYNONYM_MAP`
abbrev pub synonym_map : Words
synonym_map =
    ("order", "订单" ∷ "order_no" ∷ "order_id" ∷ "ordernum" ∷ [])
    ∷ ("product", "商品" ∷ "product_id" ∷ "goods" ∷ "item" ∷ [])
    ∷ ("amount", "金额" ∷ "price" ∷ "total" ∷ "money" ∷ "sum" ∷ [])
    ∷ ("date", "日期" ∷ "时间" ∷ "time" ∷ "dt" ∷ "day" ∷ [])
    ∷ ("quantity", "数量" ∷ "num" ∷ "count" ∷ "qty" ∷ [])
    ∷ ("sku", "sku_code" ∷ "skucode" ∷ "goods_sn" ∷ [])
    ∷ ("name", "名称" ∷ "title" ∷ "goods_name" ∷ [])
    ∷ ("status", "状态" ∷ "state" ∷ [])
    ∷ []

-- `_COMMON_FIELDS`
abbrev pub common_fields : Words
common_fields =
    ("order", "order_id" ∷ "order_no" ∷ "order_number" ∷ "订单号" ∷ "tid" ∷ "trade_id" ∷ [])
    ∷ ("product", "product_id" ∷ "product_no" ∷ "goods_id" ∷ "item_id" ∷ "商品编号" ∷ "sku_id" ∷ [])
    ∷ ("amount", "amount" ∷ "total_amount" ∷ "pay_amount" ∷ "order_amount" ∷ "金额" ∷ "总价" ∷ [])
    ∷ ("price", "price" ∷ "unit_price" ∷ "sale_price" ∷ "goods_price" ∷ "单价" ∷ [])
    ∷ ("quantity", "quantity" ∷ "num" ∷ "count" ∷ "num_count" ∷ "数量" ∷ "件数" ∷ [])
    ∷ ("sku", "sku" ∷ "sku_code" ∷ "skucode" ∷ "goods_sn" ∷ "商品编码" ∷ [])
    ∷ ("name", "name" ∷ "product_name" ∷ "goods_name" ∷ "title" ∷ "商品名称" ∷ [])
    ∷ ("status", "status" ∷ "order_status" ∷ "state" ∷ "订单状态" ∷ [])
    ∷ ("date", "order_date" ∷ "created_at" ∷ "date" ∷ "下单日期" ∷ "交易时间" ∷ [])
    ∷ ("customer", "buyer_id" ∷ "user_id" ∷ "customer_id" ∷ "买家ID" ∷ [])
    ∷ []

module _ (r : Runtime) (sim : Similarity r) where
  open r use {Float, float_lt}
  open sim use {ratio, literal, lower, list_set}

  -- `FieldNormalizer.normalize`
  unfoldable pub normalize : String → String
  normalize field_name = squeeze (lower field_name)

  abbrev pub related : String → Words → List String
  related normalized [] = []
  related normalized ((key, variants) ∷ rest) =
      if has_part key normalized || any variants (has_part key)
      then variants ++ (key ∷ related normalized rest)
      else related normalized rest

  -- `FieldNormalizer.get_synonyms`, the set as a list that may repeat
  unfoldable pub get_synonyms : String → List String
  unfolding normalize
  get_synonyms field_name =
      normalize field_name ∷ lower field_name ∷ related (normalize field_name) synonym_map

  -- `calculate_similarity`
  unfoldable pub calculate_similarity : String → String → Float
  unfolding normalize
  calculate_similarity field1 field2 = ratio (normalize field1) (normalize field2)

  -- The loop of `find_best_match`, with the best target and score so far.
  unfoldable pub best_of : String → List String → Option String → Float → Option String × Float
  unfolding calculate_similarity
  best_of source [] best_match best_score = (best_match, best_score)
  best_of source (target ∷ rest) best_match best_score =
      let score = calculate_similarity source target in
      let better = float_lt best_score score in
      best_of source rest (if better then some target else best_match)
        (if better then score else best_score)

  -- `find_best_match`; the loop over no target finds none
  unfoldable pub find_best_match : String → List String → Float → Option (String × Float)
  unfolding best_of
  find_best_match source target_fields threshold =
      let (best_match, best_score) = best_of source target_fields none (literal "0.0") in
      if float_lt best_score threshold
      then none
      else elim best_match [ none ↦ none | some target ↦ some (target, best_score) ]

  abbrev pub category_in : String → Words → Option String
  category_in normalized [] = none
  category_in normalized ((category, variants) ∷ rest) =
      let later = category_in normalized rest in
      if contains (map normalize variants) normalized
        || any (map normalize variants) (λ nv. has_part nv normalized)
      then some category
      else later

  -- `get_field_category`
  unfoldable pub get_field_category : String → Option String
  unfolding normalize
  get_field_category field_name = category_in (normalize field_name) common_fields

  -- `get_confidence`, where `score >= x` is the negation of `score < x`
  unfoldable pub get_confidence : Float → FieldConfidence
  get_confidence score =
      if not (float_lt score (literal "0.85"))
      then high
      else if not (float_lt score (literal "0.6"))
      then medium
      else if not (float_lt score (literal "0.4"))
      then low
      else no_confidence
