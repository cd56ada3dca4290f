-- ===== src/Ingest/Tests.antt =====
-- Runs of the import service, and its theorems at concrete inputs. Integers stand in for the floats
-- and a list of the answers to come for the cache.
use douyin_data_dashboard.Prelude.{
  ℕ, String, ◌≡◌, refl, Bool, true, false, ◌&&◌, Option, none, some, List, [], ◌∷◌, str_eq, ◌==◌,
  All, if◌then◌else◌, Bool-cases, inl, inr, eq_iff, arith,
}
use douyin_data_dashboard.Prelude.Int.{ℤ, pos_part, neg_part, ltb_ℤ, pos}
use douyin_data_dashboard.Prelude.Dict.{lookup, has_key}
use douyin_data_dashboard.Import.Value.{Runtime, null, text}
use douyin_data_dashboard.Import.Validator.{Row}
use douyin_data_dashboard.Ingest.Mapping
use douyin_data_dashboard.Ingest.Mapping.{
  ok, Builtins, FieldMapping, FieldMapper, new_mapper, add_manual_mappings, add_manual_mapping,
  manual_mapping, transform_data, load_template, save_template,
}
use douyin_data_dashboard.Ingest.Similar.{Similarity}
use douyin_data_dashboard.Ingest.AutoMap.{auto_map}
use douyin_data_dashboard.Ingest.Mapped.{IsLinked, IsFit, auto_map-keeps}
use douyin_data_dashboard.Ingest.Records.{
  ImportStatus, FileType, DataImportRecord, ImportError, invalid_status, Session, returned, raised,
  get_by_id, update_status, update_counts, bulk_create,
}
use douyin_data_dashboard.Ingest.World.{ImportCache, ImportJson, reply, World}
use douyin_data_dashboard.Ingest.Confirm.{
  Confirmation, was_cancelled, is_cancelled, stored_mapper, confirm_rows, finish, refusal,
  confirm_import, batch_size_of, flush, add_row,
}
use douyin_data_dashboard.Ingest.Service.{cancel_import, cached_rows, parse_file}
use douyin_data_dashboard.Ingest.Ended.{IsEnd, confirm_import-ends}
use douyin_data_dashboard.Ingest.Parsed.{IsParsed, parse_file-IsParsed}
use douyin_data_dashboard.Ingest.Template.{new, add, save_template-load_template}
use douyin_data_dashboard.Ingest.Again.{standing, cancel_import-refuses, confirm_import-once}

abbrev integers : Runtime
integers = record {
  Float = ℤ;
  is_zero = λ n. pos_part n == 0 && neg_part n == 0;
  float_lt = ltb_ℤ;
  float_of_int = λ n. n;
  float_of_text = λ t. none;
  str_of_int = λ n. "0";
  str_of_float = λ n. "0.0";
  parses_as = λ t fmt. false;
}

abbrev builtins : Builtins integers
builtins = record {
  lower = λ t. t;
  upper = λ t. t;
  int_of_float = ok;
  abs = λ n. n;
  float_error = λ v. "float";
}

abbrev equal_texts : Similarity integers
equal_texts = record {
  ratio = λ a b. if str_eq a b then pos 1 else pos 0;
  literal = λ t. if str_eq t "0.0" then pos 0 else pos 1;
  lower = λ t. t;
  list_set = λ xs. xs;
}

abbrev hand_made : FieldMapper ℤ
hand_made =
    add_manual_mappings (("buyer", "customer") ∷ [])
      (new_mapper (some ("order_id" ∷ "customer" ∷ "商品" ∷ [])))

hand_made-IsLinked : IsLinked hand_made
unfolding add_manual_mappings add_manual_mapping new_mapper
hand_made-IsLinked = record {
  linked = λ s h. elim (Bool-cases (str_eq "buyer" s)) [
    | inl e ↦ (manual_mapping "buyer" "customer" false none null, rw e refl, (eq_iff "buyer" s).0 e)
    | inr e ↦ ground (arith, e, h)
  ];
}

abbrev sources : List String
sources = "buyer" ∷ "order-id" ∷ "goods" ∷ "other" ∷ []

auto_map-keeps_example :
    (found : List (FieldMapping ℤ)) × (m' : FieldMapper ℤ) × (auto_map integers equal_texts sources
        ("order_id" ∷ [])
        (pos 1)
        hand_made
      ≡ some (found, m'))
    × (m'.manual_mappings ≡ hand_made.manual_mappings)
    × ((s : String)
        → has_key s hand_made.manual_mappings ≡ true
        → lookup s m'.mappings ≡ lookup s hand_made.mappings)
    × All (IsFit hand_made sources) found
auto_map-keeps_example =
    auto_map-keeps integers equal_texts hand_made hand_made-IsLinked sources ("order_id" ∷ [])
      (pos 1) (λ xs s h. h)

-- A cache that answers each `exists` by the next flag, and false after the last.
abbrev next : List Bool → Bool × List Bool
next [] = (false, [])
next (flag ∷ flags) = (flag, flags)

abbrev answers : ImportCache
answers = record {
  State = List Bool;
  get = λ key s. (reply none, s);
  set = λ key t ttl s. (reply tt, s);
  exists = λ key s. (reply (next s).0, (next s).1);
}

abbrev json : ImportJson ℤ
json = record {
  dumps_progress = λ status n total. status;
  dumps_rows = λ path rows. path;
  loads_rows = λ t. none;
  reads = λ t. true;
  str_id = λ n. "7";
}

abbrev validated : DataImportRecord
validated = record {
  id = 7;
  batch_no = "B-7";
  data_source_id = some 1;
  file_name = "orders.csv";
  file_type = FileType.csv;
  file_size = 120;
  file_path = "/uploads/orders.csv";
  status = ImportStatus.success;
  total_rows = 2;
  success_rows = 0;
  failed_rows = 0;
  field_mapping = some (("订单号", "order_id") ∷ []);
  error_message = none;
  started_at = some 40;
  completed_at = none;
  created_by_id = some 3;
}

abbrev session : Session ℤ
session = record {
  current = record { records = validated ∷ []; details = []; next_id = 8 };
  committed = record { records = validated ∷ []; details = []; next_id = 8 };
}

abbrev rows : List (Row ℤ)
rows = (("订单号", text "A1") ∷ []) ∷ (("订单号", text "A2") ∷ []) ∷ []

abbrev world_of : List Bool → World ℤ answers
world_of flags = record { session = session; cache = some flags }

-- The third poll, after one row, tells of a cancellation.
confirm_cancelled :
    (confirm_import integers builtins answers json 50 7 rows
      (some 1)
      (world_of (false ∷ false ∷ true ∷ []))).0
    ≡ returned was_cancelled
unfolding confirm_import refusal get_by_id is_cancelled confirm_rows finish flush add_row
    update_status batch_size_of transform_data stored_mapper update_counts bulk_create
confirm_cancelled = refl

confirm_import-ends_example :
    (result : Confirmation) × (w' : World ℤ answers) × (confirm_import integers builtins answers
        json 50 7 rows
        (some 1)
        (world_of [])
      ≡ (returned result, w'))
    × IsEnd integers builtins answers json 50 validated rows (some 1) (world_of []) result w'
unfolding refusal get_by_id
confirm_import-ends_example =
    confirm_import-ends integers builtins answers json 50 validated rows (some 1) (world_of []) refl
      refl refl refl

confirm_import-once_example :
    (result : Confirmation) × (w' : World ℤ answers) × (confirm_import integers builtins answers
        json 50 7 rows
        (some 1)
        (world_of [])
      ≡ (returned result, w'))
    × ((later : ℕ) (v : World ℤ answers)
        → standing 7 v.session ≡ standing 7 w'.session
        → (again : List (Row ℤ)) (size : Option ℕ)
        → (e : ImportError) × (confirm_import integers builtins answers json later 7 again size v
            ≡ (raised e, v)))
unfolding refusal get_by_id
confirm_import-once_example =
    confirm_import-once integers builtins answers json 50 validated rows (some 1) (world_of []) refl
      refl refl refl refl

cancel_import-refuses_example :
    (w' : World ℤ answers) × (cancel_import integers builtins answers json 50 7 (world_of [])
      ≡ (returned tt, w'))
    × ((later : ℕ) (v : World ℤ answers)
        → standing 7 v.session ≡ standing 7 w'.session
        → (again : List (Row ℤ)) (size : Option ℕ)
        → confirm_import integers builtins answers json later 7 again size v
          ≡ (raised (invalid_status "Import was cancelled" 7 ImportStatus.cancelled), v))
unfolding get_by_id
cancel_import-refuses_example =
    cancel_import-refuses integers builtins answers json 50 7 validated (world_of []) refl

save_template-load_template_example :
    let (loaded, m') =
      load_template
        (some (some (save_template "orders" "order" none hand_made)))
        (new_mapper (some ("customer" ∷ []))) in
    (loaded ≡ true)
    × (m'.mappings ≡ hand_made.mappings)
    × (m'.manual_mappings ≡ hand_made.manual_mappings)
unfolding add_manual_mappings
save_template-load_template_example =
    save_template-load_template hand_made "orders" "order" none (some ("customer" ∷ []))
      (add "buyer" "customer" false none null (new (some ("order_id" ∷ "customer" ∷ "商品" ∷ []))))

-- A parser that raises.
abbrev no_file : String → Mapping.Result (List (Row ℤ))
no_file path = Mapping.raised "no such file"

parse_file-IsParsed_example :
    IsParsed integers builtins answers json 50 validated
      (Mapping.raised "no such file")
      (world_of [])
      (parse_file integers builtins answers json 50 no_file 7 (world_of [])).0
      (parse_file integers builtins answers json 50 no_file 7 (world_of [])).1.session
unfolding get_by_id cached_rows
parse_file-IsParsed_example =
    parse_file-IsParsed integers builtins answers json 50 validated no_file (world_of [])
      (world_of []) refl refl
