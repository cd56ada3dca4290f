-- ===== src/Plan/Build.antt =====
-- The plan of a collection, one unit per shop and window: `build_collection_plan` of
-- src/application/collection/plan_builder_impl.py.
use douyin_data_dashboard.Prelude.{
  ℕ, ◌+◌, ◌*◌, Bool, true, false, not, ◌||◌, Option, none, some, List, [], ◌∷◌, ◌++◌, if◌then◌else◌,
  String, str_eq, strip, is_empty, length, contains, or_else,
}
use douyin_data_dashboard.Prelude.Dict.{Dict, lookup, put}
use douyin_data_dashboard.Plan.Moments.{Granularity, branch_of, day, minus}
use douyin_data_dashboard.Plan.Windows.{Window, build_windows_from_time_range, build_single_window}
use douyin_data_dashboard.Plan.Backfill.{backfill_windows}
use douyin_data_dashboard.Plan.Config.{
  Value, text, Datetime, naive, aware, Python, CollectionConfig, text_or, resolve_shop_ids,
  is_json_serializable, parse_non_negative_int, parse_data_latency, resolve_timezone,
  normalize_json_object, resolve_cursor, parse_time_range_boundary,
}

-- `effective_filters`, by its keys.
pub record EffectiveFilters (Obj : Type 0) : Type 0 where
  pub shop_id : String
  pub date_range : Option (Dict (Value Obj))
  pub cursor : Option String
  pub extra_filters : Dict (Value Obj)

pub record CollectionPlanUnit (Obj : Type 0) : Type 0 where
  pub target_shop_id : String
  pub window_start : ℕ
  pub window_end : ℕ
  pub metric_date : String
  pub granularity : String
  pub effective_filters : EffectiveFilters Obj
  pub plan_index : ℕ

module _ {Obj Instant Zone : Type 0} (py : Python Obj Instant Zone) where
  -- `time_range.get(key)` where that is a text.
  abbrev text_at : String → Dict (Value Obj) → Option String
  text_at key d = elim (lookup key d) [ some (text t) ↦ some t | _ ↦ none ]

  abbrev windows_by_mode : CollectionConfig Obj → Granularity → ℕ → Option (List Window)
  windows_by_mode config branch now =
      let latency_days = parse_data_latency py (text_or config.data_latency "T+1") in
      elim (minus now (day * latency_days)) [
        | none ↦ none
        | some base_time ↦
            if str_eq (py.upper (text_or config.incremental_mode "BY_DATE")) "BY_CURSOR"
            then elim (build_single_window base_time branch) [
              | none ↦ none
              | some w ↦ some (w ∷ [])
            ]
            else backfill_windows branch base_time
                (parse_non_negative_int py config.backfill_last_n_days)
      ]

  unfoldable pub resolve_windows : CollectionConfig Obj → String → Zone → ℕ → Option (List Window)
  resolve_windows config granularity zone now =
      let branch = branch_of granularity in
      let range = or_else config.time_range [] in
      elim (text_at "start" range) [
        | none ↦ windows_by_mode config branch now
        | some start ↦ elim (text_at "end" range) [
          | none ↦ windows_by_mode config branch now
          | some end ↦
              build_windows_from_time_range branch
                (parse_time_range_boundary py zone start now false)
                (parse_time_range_boundary py zone end now true)
        ]
      ]

  abbrev is_reserved : String → Bool
  is_reserved key = contains ("shop_id" ∷ "cursor" ∷ "date_range" ∷ []) key

  -- The loop of `_build_effective_filters` over the configured filters.
  unfoldable pub extra_filters_from : Dict (Value Obj) → Dict (Value Obj) → Dict (Value Obj)
  extra_filters_from kept [] = kept
  extra_filters_from kept ((key, value) ∷ rest) =
      let key_text = strip key in
      if is_empty key_text || is_reserved key_text || not (is_json_serializable py value)
      then extra_filters_from kept rest
      else extra_filters_from (put key_text value kept) rest

  abbrev resolved_cursor : Option String → Option String
  resolved_cursor none = none
  resolved_cursor (some cursor) =
      if is_json_serializable py (text cursor) then some cursor else none

  unfoldable pub build_effective_filters :
      CollectionConfig Obj → String → Option String → EffectiveFilters Obj
  build_effective_filters config shop_id cursor = record {
    shop_id = shop_id;
    date_range = normalize_json_object py config.time_range;
    cursor = resolved_cursor cursor;
    extra_filters = extra_filters_from [] (or_else config.filters []);
  }

  module _ (config : CollectionConfig Obj) (granularity : String) (cursor : Option String) where
    abbrev pub unit_of : String → Window → ℕ → CollectionPlanUnit Obj
    unit_of shop_id (window_start, window_end) plan_index = record {
      target_shop_id = shop_id;
      window_start = window_start;
      window_end = window_end;
      metric_date = py.isoformat window_start;
      granularity = granularity;
      effective_filters = build_effective_filters config shop_id cursor;
      plan_index = plan_index;
    }

    -- The inner loop, over the windows, and the outer one, over the shops; `index` is `len(plan_units)`.
    unfoldable pub units_of_shop : String → List Window → ℕ → List (CollectionPlanUnit Obj)
    units_of_shop shop_id [] index = []
    units_of_shop shop_id (w ∷ ws) index =
        unit_of shop_id w index ∷ units_of_shop shop_id ws (index + 1)

    unfoldable pub plan_units : List String → List Window → ℕ → List (CollectionPlanUnit Obj)
    plan_units [] ws index = []
    plan_units (shop_id ∷ shops) ws index =
        units_of_shop shop_id ws index ++ plan_units shops ws (index + length ws)

  abbrev pub instant_of : Option (Datetime Instant) → Instant → Option Instant
  instant_of none utcnow = some utcnow
  instant_of (some (naive t)) utcnow = none
  instant_of (some (aware instant)) utcnow = some instant

  -- What follows once the shops are known.
  abbrev pub planned :
      CollectionConfig Obj
      → String
      → Zone
      → ℕ
      → List String
      → Option (List (CollectionPlanUnit Obj))
  planned config granularity zone now [] = some []
  planned config granularity zone now (shop_id ∷ shops) =
      elim (resolve_windows config granularity zone now) [
        | none ↦ none
        | some ws ↦
            some (plan_units config granularity (resolve_cursor py config) (shop_id ∷ shops) ws 0)
      ]

  -- `utcnow` is `datetime.now(UTC)`; `none` is where Python raises.
  unfoldable pub build_collection_plan :
      CollectionConfig Obj
      → Option (Datetime Instant)
      → Instant
      → Option (List (CollectionPlanUnit Obj))
  build_collection_plan config now utcnow = elim (instant_of now utcnow) [
    | none ↦ none
    | some instant ↦ elim (resolve_timezone py (text_or config.timezone "Asia/Shanghai")) [
      | none ↦ none
      | some zone ↦
          planned config (py.upper (text_or config.granularity "DAY")) zone
            (py.astimezone zone instant) (resolve_shop_ids config)
    ]
  ]
