-- ===== src/Plan/Config.antt =====
-- What a collection's configuration says of its plan: the readers of
-- src/application/collection/plan_builder_impl.py of windows, cursor and filters.
use Prim.Native.String.{◌++◌ as append}
use douyin_data_dashboard.Prelude.{
  ℕ, ◌+◌, ◌-◌, ◌%◌, ◌≡◌, refl, Bool, true, false, not, ◌&&◌, ◌||◌, Option, none, some, List, [],
  ◌∷◌, arith, ◌==◌, if◌then◌else◌, String, str_eq, strip, is_empty, from_third, or_else, codes,
  length, Bool-cases, Option-cases, inl, inr, ◌⊎◌,
}
use douyin_data_dashboard.Prelude.Dict.{Dict, lookup, put}
use douyin_data_dashboard.Prelude.Int.{ℤ, pos_part}
use douyin_data_dashboard.Plan.Moments.{day}
use douyin_data_dashboard.Plan.Shops.{ShopIds, normalize_shop_ids}

-- A value of a configuration, as the code tells them apart: `None`, a text, or another object.
pub data Value (Obj : Type 0) : Type 0 where
  null : Value Obj
  text : String → Value Obj
  object : Obj → Value Obj

-- A date and time: without a time zone, as its wall-clock moment, or an instant of some time zone.
pub data Datetime (Instant : Type 0) : Type 0 where
  naive : ℕ → Datetime Instant
  aware : Instant → Datetime Instant

-- What Python does: `str` and whether `json.dumps` succeeds on an object, `int` on a value and on a
-- text (`none` where it raises a `TypeError` or `ValueError`), `str.upper`, `datetime.fromisoformat`,
-- the moment that the clock of a time zone shows at an instant, an instant moved to the last
-- microsecond of its day, `ZoneInfo`, and the ISO text of a moment's date.
pub record Python (Obj Instant Zone : Type 0) : Type 0 where
  pub str : Obj → String
  pub dumps : Obj → Bool
  pub int : Value Obj → Option ℤ
  pub int_of_text : String → Option ℤ
  pub upper : String → String
  pub fromisoformat : String → Option (Datetime Instant)
  pub astimezone : Zone → Instant → ℕ
  pub last_microsecond : Instant → Instant
  pub zone_info : String → Option Zone
  pub isoformat : ℕ → String

-- A value that is no dict stands as `none` at `time_range`, `filters` and `extra_config`; the shop id
-- is `str(config.shop_id or "")`.
pub record CollectionConfig (Obj : Type 0) : Type 0 where
  pub granularity : Option String
  pub timezone : Option String
  pub resolved_shop_ids : ShopIds
  pub shop_ids : ShopIds
  pub shop_id : String
  pub time_range : Option (Dict (Value Obj))
  pub incremental_mode : Option String
  pub data_latency : Option String
  pub backfill_last_n_days : Value Obj
  pub cursor : Value Obj
  pub filters : Option (Dict (Value Obj))
  pub extra_config : Option (Dict (Value Obj))

-- `x or default` on a text that may be missing.
abbrev pub text_or : Option String → String → String
text_or none default = default
text_or (some t) default = if is_empty t then default else t

-- `x or None` on a text.
abbrev full_text : String → Option String
full_text t = if is_empty t then none else some t

abbrev starts_with_t_plus : String → Bool
starts_with_t_plus t = elim (codes t) [
  | List.◌∷◌ a (List.◌∷◌ b rest) ↦ a == b'T' && b == b'+'
  | _ ↦ false
]

-- `config.shop_ids or config.shop_id`, after `config.resolved_shop_ids`.
unfoldable pub resolve_shop_ids : {Obj : Type 0} → CollectionConfig Obj → List String
resolve_shop_ids config = elim (normalize_shop_ids config.resolved_shop_ids true) [
  | id ∷ ids ↦ id ∷ ids
  | [] ↦ elim (normalize_shop_ids config.shop_ids true) [
    | id ∷ ids ↦ id ∷ ids
    | [] ↦ let id = strip config.shop_id in if is_empty id then [] else id ∷ []
  ]
]

module _ {Obj Instant Zone : Type 0} (py : Python Obj Instant Zone) where
  unfoldable pub normalize_text : Value Obj → Option String
  normalize_text null = none
  normalize_text (text t) = full_text (strip t)
  normalize_text (object o) = full_text (strip (py.str o))

  unfoldable pub is_json_serializable : Value Obj → Bool
  is_json_serializable null = true
  is_json_serializable (text t) = true
  is_json_serializable (object o) = py.dumps o

  unfoldable pub parse_non_negative_int : Value Obj → ℕ
  parse_non_negative_int value = elim (py.int value) [ none ↦ 0 | some i ↦ pos_part i ]

  unfoldable pub parse_data_latency : String → ℕ
  parse_data_latency data_latency =
      let t = py.upper (strip data_latency) in
      if str_eq t "REALTIME"
      then 0
      else if starts_with_t_plus t
      then (elim (py.int_of_text (from_third t)) [ none ↦ 0 | some i ↦ pos_part i ])
      else 0

  -- `ZoneInfo("Asia/Shanghai")` raises too where there is no such zone.
  unfoldable pub resolve_timezone : String → Option Zone
  resolve_timezone name = elim (py.zone_info name) [
    | some zone ↦ some zone
    | none ↦ py.zone_info "Asia/Shanghai"
  ]

  -- `_normalize_json_object`, whose loop keeps the entries with a key and a serializable item.
  unfoldable pub keep_entries : Dict (Value Obj) → Dict (Value Obj) → Dict (Value Obj)
  keep_entries kept [] = kept
  keep_entries kept ((key, item) ∷ rest) =
      let key_text = strip key in
      if is_empty key_text || not (is_json_serializable item)
      then keep_entries kept rest
      else keep_entries (put key_text item kept) rest

  unfoldable pub normalize_json_object : Option (Dict (Value Obj)) → Option (Dict (Value Obj))
  normalize_json_object none = none
  normalize_json_object (some value) = elim (keep_entries [] value) [
    | [] ↦ none
    | entry ∷ entries ↦ some (entry ∷ entries)
  ]

  abbrev cursor_of : Option (Dict (Value Obj)) → Option String
  cursor_of none = none
  cursor_of (some d) = normalize_text (or_else (lookup "cursor" d) null)

  unfoldable pub resolve_cursor : CollectionConfig Obj → Option String
  resolve_cursor config = elim (normalize_text config.cursor) [
    | some cursor ↦ some cursor
    | none ↦ elim (cursor_of config.filters) [
      | some cursor ↦ some cursor
      | none ↦ cursor_of config.extra_config
    ]
  ]

  -- A boundary read in the time zone of the fallback, which is the current time.
  abbrev localize : Zone → Datetime Instant → ℕ
  localize zone (naive t) = t
  localize zone (aware instant) = py.astimezone zone instant

  abbrev end_of_day : Datetime Instant → Datetime Instant
  end_of_day (naive t) = naive (t - t % day + (day - 1))
  end_of_day (aware instant) = aware (py.last_microsecond instant)

  unfoldable pub parse_time_range_boundary : Zone → String → ℕ → Bool → ℕ
  parse_time_range_boundary zone value fallback end_boundary =
      let raw = strip value in
      if is_empty raw then fallback else elim (py.fromisoformat raw) [
        | some parsed ↦ localize zone parsed
        | none ↦
            if length (codes raw) == 10
            then elim (py.fromisoformat (append raw "T00:00:00")) [
              | some base ↦ localize zone (if end_boundary then end_of_day base else base)
              | none ↦ fallback
            ]
            else fallback
      ]

  -- `fromisoformat` reads a date without a time as its midnight. Where it reads a text of ten
  -- characters with a time after it as it reads the text alone, a boundary is read the same way
  -- whichever end of the range it is: the last moment of the day is not put in.
  pub parse_time_range_boundary-both_ends :
      ((raw : String) (base : Datetime Instant)
        → length (codes raw) ≡ 10
        → py.fromisoformat (append raw "T00:00:00") ≡ some base
        → py.fromisoformat raw ≡ some base)
      → (zone : Zone) (value : String) (fallback : ℕ)
      → parse_time_range_boundary zone value fallback true
        ≡ parse_time_range_boundary zone value fallback false
  unfolding parse_time_range_boundary
  parse_time_range_boundary-both_ends dates zone value fallback =
      both (Option-cases (py.fromisoformat raw))
        (Option-cases (py.fromisoformat (append raw "T00:00:00")))
        (Bool-cases (length (codes raw) == 10))
    where
      raw : String
      raw = strip value

      both :
          (py.fromisoformat raw ≡ none) ⊎ ((d : Datetime Instant) × (py.fromisoformat raw ≡ some d))
          → (py.fromisoformat (append raw "T00:00:00") ≡ none)
            ⊎ ((d : Datetime Instant) × (py.fromisoformat (append raw "T00:00:00") ≡ some d))
          → ((length (codes raw) == 10) ≡ true) ⊎ ((length (codes raw) == 10) ≡ false)
          → parse_time_range_boundary zone value fallback true
            ≡ parse_time_range_boundary zone value fallback false
      both (inr (d, read)) o b = rw read refl
      both (inl unread) (inl bad) b = rw (unread, bad) refl
      both (inl unread) (inr (d, midnight)) (inl ten) =
          ground (arith, unread, dates raw d (ground arith) midnight)
      both (inl unread) (inr (d, midnight)) (inr other) = rw (unread, other) refl
