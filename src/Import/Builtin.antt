-- ===== src/Import/Builtin.antt =====
-- The rules and aliases of `OrderValidator` and `ProductValidator` in
-- src/domains/data_import/validator.py.
use douyin_data_dashboard.Prelude.{String, true, some, [], ◌∷◌}
use douyin_data_dashboard.Prelude.Int.{pos}
use douyin_data_dashboard.Import.Value.{Runtime}
use douyin_data_dashboard.Import.Result.{ValidationSeverity, error, warning}
use douyin_data_dashboard.Import.Rules.{
  RuleParams, no_params, Check, ValidationRule, required_validator, not_empty_validator,
  string_max_length_validator, number_positive_validator, number_range_validator,
  date_format_validator,
}
use douyin_data_dashboard.Import.Validator.{DataValidator}

module _ (r : Runtime) where
  open r use {Float, float_of_int}

  -- An enabled rule.
  abbrev rule :
      String → String → ValidationSeverity → Check r → RuleParams Float → ValidationRule Float
  rule name field severity check params = record {
    name = name;
    target_field = field;
    severity = severity;
    enabled = true;
    rule_params = params;
    validate_func = some check;
  }

  -- `_setup_order_rules`
  unfoldable pub order_validator : DataValidator Float
  order_validator = record {
    rules =
        rule "order_id_required" "order_id" error (required_validator r) no_params
        ∷ rule "order_id_not_empty" "order_id" error (not_empty_validator r) no_params
        ∷ rule "amount_required" "amount" error (required_validator r) no_params
        ∷ rule "amount_positive" "amount" error (number_positive_validator r) no_params
        ∷ rule "amount_range" "amount" warning (number_range_validator r) (record no_params {
          min = some (float_of_int (pos 0));
          max = some (float_of_int (pos 1000000));
        })
        ∷ rule "date_required" "order_date" error (required_validator r) no_params
        ∷ rule "date_format" "order_date" error (date_format_validator r) (record no_params {
          formats = some ("%Y-%m-%d" ∷ "%Y/%m/%d" ∷ "%Y-%m-%d %H:%M:%S" ∷ []);
        })
        ∷ rule "quantity_positive" "quantity" error (number_positive_validator r) no_params
        ∷ [];
    aliases =
        ("order_id", "order_no" ∷ "order_number" ∷ "订单号" ∷ "tid" ∷ "trade_id" ∷ [])
        ∷ ("amount", "total_amount" ∷ "pay_amount" ∷ "order_amount" ∷ "金额" ∷ "总价" ∷ [])
        ∷ ("order_date", "date" ∷ "created_at" ∷ "下单日期" ∷ "交易时间" ∷ [])
        ∷ ("quantity", "num" ∷ "count" ∷ "数量" ∷ "件数" ∷ [])
        ∷ [];
  }

  -- `_setup_product_rules`
  unfoldable pub product_validator : DataValidator Float
  product_validator = record {
    rules =
        rule "sku_required" "sku" error (required_validator r) no_params
        ∷ rule "sku_not_empty" "sku" error (not_empty_validator r) no_params
        ∷ rule "sku_max_length" "sku" warning (string_max_length_validator r)
            (record no_params { max_length = some 64 })
        ∷ rule "price_required" "price" error (required_validator r) no_params
        ∷ rule "price_positive" "price" error (number_positive_validator r) no_params
        ∷ rule "price_range" "price" warning (number_range_validator r) (record no_params {
          min = some (float_of_int (pos 0));
          max = some (float_of_int (pos 1000000));
        })
        ∷ rule "stock_non_negative" "stock" error (number_positive_validator r) no_params
        ∷ rule "name_required" "name" warning (required_validator r) no_params
        ∷ rule "name_max_length" "name" warning (string_max_length_validator r)
            (record no_params { max_length = some 255 })
        ∷ [];
    aliases =
        ("sku", "sku_code" ∷ "skucode" ∷ "goods_sn" ∷ "product_no" ∷ "商品编码" ∷ [])
        ∷ ("price", "unit_price" ∷ "sale_price" ∷ "goods_price" ∷ "单价" ∷ [])
        ∷ ("stock", "quantity" ∷ "inventory" ∷ "num" ∷ "库存" ∷ [])
        ∷ ("name", "product_name" ∷ "goods_name" ∷ "title" ∷ "商品名称" ∷ [])
        ∷ [];
  }
