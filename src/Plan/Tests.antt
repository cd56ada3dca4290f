-- ===== src/Plan/Tests.antt =====
-- The collection plan at concrete configurations.
use douyin_data_dashboard.Prelude.{
  ℕ, ◌+◌, ◌*◌, ◌≡◌, refl, Bool, true, false, none, some, List, [], ◌∷◌, arith, String, IsDistinct,
  contains, map, strip, is_empty, not, ◌&&◌, length, if◌then◌else◌, str_eq, ◌-◌, split_on, lstrip,
  rstrip,
}
use douyin_data_dashboard.Prelude.Int.{pos}
use douyin_data_dashboard.Plan.Calendar.{
  date_of, days_before_year, month_start, month_lengths, year_of, year_from, month_in,
}
use douyin_data_dashboard.Plan.Moments.{
  daily, weekly, monthly, align_window_start, later, limit, day, hour, next_window_start, branch_of,
  shift_base,
}
use douyin_data_dashboard.Plan.Windows.{
  Window, build_windows_from_time_range, Tiles, WithinUnits, cut, build_single_window,
  build_windows_from_time_range-Tiles,
}
use douyin_data_dashboard.Plan.Backfill.{
  backfill_windows, windows_from, shifted_window, WholeUnits, backfill_windows-Tiles,
}
use douyin_data_dashboard.Plan.Shops.{
  text, absent, items, normalize_shop_ids, candidates_of, append_shops, normalize_shop_ids-lem,
}
use douyin_data_dashboard.Plan.Config.{
  Value, null, aware, Python, CollectionConfig, parse_data_latency, parse_non_negative_int,
  resolve_timezone,
}
use douyin_data_dashboard.Plan.Build.{CollectionPlanUnit, resolve_windows, build_collection_plan}
use douyin_data_dashboard.Plan.Units.{Covers, build_collection_plan-Covers}

-- Wednesday, 4 March 2026, at 15:30.
abbrev afternoon : ℕ
afternoon = 739678 * 86400000000 + 55800000000

march_4 : month_start 2026 2 + 3 ≡ 739678
unfolding month_start days_before_year month_lengths
march_4 = refl

march_4-date : date_of 739678 ≡ record { year = 2026; month = 2; day = 3 }
unfolding date_of year_of year_from days_before_year month_lengths month_in
march_4-date = refl

-- Two days from that afternoon make three windows, of which the last ends at the given end.
three_days :
    build_windows_from_time_range daily afternoon (afternoon + 2 * day)
    ≡ some (
        (739678 * day, 739679 * day - 1)
        ∷ (739679 * day, 739680 * day - 1)
        ∷ (739680 * day, afternoon + 2 * day)
        ∷ [])
unfolding build_windows_from_time_range cut align_window_start next_window_start later limit
    days_before_year
three_days = refl

build_windows_from_time_range-Tiles_example :
    (ws : List Window) × (build_windows_from_time_range monthly (afternoon + 40 * day) afternoon
      ≡ some ws)
    × Tiles (align_window_start monthly afternoon) (afternoon + 40 * day) ws
    × WithinUnits monthly ws
unfolding limit days_before_year
build_windows_from_time_range-Tiles_example =
    build_windows_from_time_range-Tiles monthly (afternoon + 40 * day) afternoon (omega arith)

-- The week of that day and the one before it.
two_weeks :
    backfill_windows weekly afternoon 2
    ≡ some ((739669 * day, 739676 * day - 1) ∷ (739676 * day, 739683 * day - 1) ∷ [])
unfolding backfill_windows windows_from shifted_window shift_base build_single_window
    align_window_start next_window_start later limit days_before_year
two_weeks = refl

backfill_windows-Tiles_example :
    (ws : List Window) × (backfill_windows monthly afternoon 14 ≡ some ws)
    × (length ws ≡ 14)
    × WholeUnits monthly ws
    × ((first : ℕ) × Tiles first (later monthly (align_window_start monthly afternoon) - 1) ws)
unfolding limit days_before_year
backfill_windows-Tiles_example =
    backfill_windows-Tiles monthly afternoon 14 (omega arith) (omega arith)

two_shops : normalize_shop_ids (text " a,b|a,, |b ") true ≡ "a" ∷ "b" ∷ []
unfolding normalize_shop_ids candidates_of append_shops split_on strip lstrip rstrip
two_shops = refl

normalize_shop_ids-lem_example :
    IsDistinct (normalize_shop_ids (text " a,b|a") true)
    × ((t : String)
        → contains (normalize_shop_ids (text " a,b|a") true) t
          ≡ (contains (map strip (candidates_of (text " a,b|a"))) t && not (is_empty t)))
    × ((dedupe : Bool)
        → normalize_shop_ids (items (normalize_shop_ids (text " a,b|a") dedupe)) dedupe
          ≡ normalize_shop_ids (text " a,b|a") dedupe)
normalize_shop_ids-lem_example = normalize_shop_ids-lem (text " a,b|a")

-- A Python whose instants are moments of UTC and whose zones are the hours that they are ahead.
abbrev python : Python String ℕ ℕ
python = record {
  str = λ o. o;
  dumps = λ o. false;
  int = λ v. elim v [ Value.text t ↦ some (pos 2) | _ ↦ none ];
  int_of_text = λ t. if str_eq t "1" then some (pos 1) else none;
  upper = λ t. t;
  fromisoformat = λ t. none;
  astimezone = λ zone instant. instant + zone * hour;
  last_microsecond = λ instant. instant;
  zone_info = λ name. if str_eq name "Asia/Shanghai" then some 8 else none;
  isoformat = λ t. "a date";
}

abbrev config : CollectionConfig String
config = record {
  granularity = none;
  timezone = some "Mars";
  resolved_shop_ids = absent;
  shop_ids = items ("7" ∷ " 8 " ∷ "7" ∷ []);
  shop_id = "9";
  time_range = none;
  incremental_mode = none;
  data_latency = none;
  backfill_last_n_days = Value.text "2";
  cursor = null;
  filters = none;
  extra_config = none;
}

abbrev yesterday_and_before : List Window
yesterday_and_before = (739676 * day, 739677 * day - 1) ∷ (739677 * day, 739678 * day - 1) ∷ []

config-windows :
    resolve_windows python config "DAY" 8 (afternoon + 8 * hour) ≡ some yesterday_and_before
unfolding resolve_windows parse_data_latency parse_non_negative_int strip lstrip rstrip branch_of
    backfill_windows windows_from shifted_window shift_base build_single_window align_window_start
    next_window_start later limit days_before_year
config-windows = refl

config-zone : resolve_timezone python "Mars" ≡ some 8
unfolding resolve_timezone
config-zone = refl

build_collection_plan-Covers_example :
    (units : List (CollectionPlanUnit String)) × (build_collection_plan python config
        (some (aware afternoon))
        0
      ≡ some units)
    × Covers python config yesterday_and_before units
build_collection_plan-Covers_example =
    build_collection_plan-Covers python config (some (aware afternoon)) 0 afternoon 8
      yesterday_and_before refl config-zone config-windows
