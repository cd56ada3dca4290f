-- ===== src/Import/Batch.antt =====
-- The results of the two `validate_batch` of src/domains/data_import/validator.py, row by row.
use mathlib.Core.Option
use douyin_data_dashboard.Prelude.{
  ℕ, suc, ◌+◌, String, ◌≡◌, refl, sym, ap, ◌∙◌, inl, inr, Bool, true, false, Option, none, some,
  List, [], ◌∷◌, arith, ◌==◌, if◌then◌else◌, Bool-cases, Option-cases, get_elem?,
}
use douyin_data_dashboard.Import.Value.{Runtime}
use douyin_data_dashboard.Import.Result.{ValidationResult}
use douyin_data_dashboard.Import.Validator.{
  DataValidator, Row, validate_row, validate_batch, modify, duplicate_indices, mark_duplicates,
  order_mark, product_mark, order_validate_batch, product_validate_batch,
}
use douyin_data_dashboard.Import.Duplicates.{
  has_index, Rises, has_index_below, get_elem?-modify, get_elem?-validate_from,
  Rises-duplicate_indices, keys_before, key_at, among, has_index-duplicate_indices,
}

module _ (r : Runtime) (mark : Row r.Float → ValidationResult r.Float → ValidationResult r.Float)
    (rows : List (Row r.Float)) where
  open r use {Float}

  abbrev marked :
      Option (Row Float) → Option (ValidationResult Float) → Option (ValidationResult Float)
  marked none o = o
  marked (some row) o = Option.map (mark row) o

  -- One turn of the second loop.
  abbrev turn :
      ℕ → Option (Row Float) → List (ValidationResult Float) → List (ValidationResult Float)
  turn i none results = results
  turn i (some row) results = modify i (mark row) results

  get_elem?-turn :
      (i j : ℕ) (o : Option (Row Float)) (results : List (ValidationResult Float))
      → get_elem? (turn i o results) j
        ≡ (if j == i then marked o (get_elem? results j) else get_elem? results j)
  get_elem?-turn i j none results = ground arith
  get_elem?-turn i j (some row) results = get_elem?-modify i j (mark row) results

  mark_step :
      (i : ℕ) (is : List ℕ) (results : List (ValidationResult Float))
      → mark_duplicates r mark rows (i ∷ is) results
        ≡ mark_duplicates r mark rows is (turn i (get_elem? rows i) results)
  unfolding mark_duplicates
  mark_step i is results = elim (Option-cases (get_elem? rows i)) [
    | inl e ↦ rw (e, mark_duplicates)
    | inr (row, e) ↦ rw (e, mark_duplicates)
  ]

  get_elem?-mark_duplicates :
      (k j : ℕ) (is : List ℕ) (results : List (ValidationResult Float))
      → Rises k is
      → get_elem? (mark_duplicates r mark rows is results) j ≡ (
          if has_index j is
          then marked (get_elem? rows j) (get_elem? results j)
          else get_elem? results j)
  get_elem?-mark_duplicates k j [] results h = unfold mark_duplicates in refl
  get_elem?-mark_duplicates k j (i ∷ is) results h =
      let next = turn i (get_elem? rows i) results in
      ap (λ rs. get_elem? rs j) (mark_step i is results)
      ∙ get_elem?-mark_duplicates (suc i) j is next h.1
      ∙ elim (Bool-cases (j == i)) [
        | inl q ↦
            let same : j ≡ i = ground (arith, q) in
            let once : has_index j is ≡ false = has_index_below (suc i) j is h.1 (omega arith) in
            rw (once, q, get_elem?-turn, q)
              (ap (λ n. marked (get_elem? rows n) (get_elem? results j)) (sym same))
        | inr q ↦ rw (q, get_elem?-turn, q)
      ]

-- The result of the row at `i`: its own validation, with one error more if it repeats a key.
abbrev pub expected :
    (r : Runtime)
    → (Row r.Float → ValidationResult r.Float → ValidationResult r.Float)
    → DataValidator r.Float
    → String
    → List (Row r.Float)
    → ℕ
    → Option (ValidationResult r.Float)
expected r mark v field rows i =
    let repeated = among r v field (key_at r v field rows i) [] (keys_before r v field rows i) in
    Option.map
      (λ (row : Row r.Float).
        let result = validate_row v row (some i) in if repeated then mark row result else result)
      (get_elem? rows i)

module _ (r : Runtime) (mark : Row r.Float → ValidationResult r.Float → ValidationResult r.Float)
    (v : DataValidator r.Float) (field : String) (rows : List (Row r.Float)) where
  mark_if :
      (b : Bool) (f : Row r.Float → ValidationResult r.Float) (o : Option (Row r.Float))
      → (if b then marked r mark rows o (Option.map f o) else Option.map f o)
        ≡ Option.map (λ row. if b then mark row (f row) else f row) o
  mark_if true f none = refl
  mark_if false f none = refl
  mark_if true f (some row) = refl
  mark_if false f (some row) = refl

  batch-expected :
      (i : ℕ)
      → get_elem?
          (mark_duplicates r mark rows
            (duplicate_indices r v field [] 0 rows)
            (validate_batch v rows))
          i
        ≡ expected r mark v field rows i
  unfolding validate_batch
  batch-expected i =
      let zero_add : 0 + i ≡ i = omega arith in
      let repeated =
        ap (λ n. has_index n (duplicate_indices r v field [] 0 rows)) (sym zero_add)
        ∙ has_index-duplicate_indices r v field [] 0 i rows in
      let validated =
        get_elem?-validate_from v 0 i rows
        ∙ ap (λ n. Option.map (λ row. validate_row v row (some n)) (get_elem? rows i)) zero_add in
      get_elem?-mark_duplicates r mark rows 0 i _ _ (Rises-duplicate_indices r v field [] 0 rows)
      ∙ ap
          (λ o.
            if has_index i (duplicate_indices r v field [] 0 rows)
            then marked r mark rows (get_elem? rows i) o
            else o)
          validated
      ∙ ap
          (λ b.
            if b
            then marked r mark rows (get_elem? rows i)
                (Option.map (λ row. validate_row v row (some i)) (get_elem? rows i))
            else Option.map (λ row. validate_row v row (some i)) (get_elem? rows i))
          repeated
      ∙ mark_if _ (λ row. validate_row v row (some i)) (get_elem? rows i)

-- A batch of orders has one result for each row: the row's own validation, with an error more
-- exactly on the rows whose order id (if it is there and true) an earlier row has as text.
pub order_validate_batch-expected :
    (r : Runtime) (v : DataValidator r.Float) (rows : List (Row r.Float)) (i : ℕ)
    → get_elem? (order_validate_batch r v rows) i ≡ expected r (order_mark r v) v "order_id" rows i
unfolding order_validate_batch
order_validate_batch-expected r v rows i = batch-expected r (order_mark r v) v "order_id" rows i

-- A batch of products has one result for each row: the row's own validation, with an error
-- more exactly on the rows whose SKU (if it is there and true) an earlier row has as text.
pub product_validate_batch-expected :
    (r : Runtime) (v : DataValidator r.Float) (rows : List (Row r.Float)) (i : ℕ)
    → get_elem? (product_validate_batch r v rows) i ≡ expected r (product_mark r v) v "sku" rows i
unfolding product_validate_batch
product_validate_batch-expected r v rows i = batch-expected r (product_mark r v) v "sku" rows i
