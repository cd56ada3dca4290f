-- ===== src/Import/Duplicates.antt =====
-- Which rows the two `validate_batch` of src/domains/data_import/validator.py mark as duplicates.
use mathlib.Core.Option
use douyin_data_dashboard.Prelude.{
  ℕ, zero, suc, ◌+◌, ◌≤◌, ◌<◌, String, ◌≡◌, refl, ap, ◌∙◌, inl, inr, Bool, false, ◌||◌, Option,
  none, some, List, [], ◌∷◌, ◌++◌, arith, str_eq, eq_iff, ◌==◌, if◌then◌else◌, Bool-cases,
  Option-cases, get_elem?, contains,
}
use douyin_data_dashboard.Import.Value.{Runtime}
use douyin_data_dashboard.Import.Result.{ValidationResult}
use douyin_data_dashboard.Import.Validator.{
  DataValidator, Row, validate_row, validate_from, modify, key_of, duplicate_indices,
}

-- `i in indices`
abbrev pub has_index : ℕ → List ℕ → Bool
has_index i [] = false
has_index i (j ∷ js) = i == j || has_index i js

-- Each index is there once, in rising order, and none is below `k`.
abbrev pub Rises : ℕ → List ℕ → Type 0
Rises k [] = Unit
Rises k (i ∷ is) = (k ≤ i) × Rises (suc i) is

pub has_index_below : (k i : ℕ) (is : List ℕ) → Rises k is → i < k → has_index i is ≡ false
has_index_below k i [] h lt = refl
has_index_below k i (j ∷ js) h lt = ground (arith, has_index_below (suc j) i js h.1)

Rises-weaken : (k l : ℕ) (is : List ℕ) → l ≤ k → Rises k is → Rises l is
Rises-weaken k l [] le h = tt
Rises-weaken k l (i ∷ is) le h = (omega arith, h.1)

module _ {F : Type 0} where
  pub get_elem?-modify :
      (i j : ℕ) (f : ValidationResult F → ValidationResult F) (xs : List (ValidationResult F))
      → get_elem? (modify i f xs) j
        ≡ (if j == i then Option.map f (get_elem? xs j) else get_elem? xs j)
  get_elem?-modify i j f [] = ground arith
  get_elem?-modify zero zero f (x ∷ xs) = refl
  get_elem?-modify zero (suc j) f (x ∷ xs) = ground arith
  get_elem?-modify (suc i) zero f (x ∷ xs) = ground arith
  get_elem?-modify (suc i) (suc j) f (x ∷ xs) = get_elem?-modify i j f xs ∙ ground arith

  pub get_elem?-validate_from :
      (v : DataValidator F) (k i : ℕ) (rows : List (Row F))
      → get_elem? (validate_from v k rows) i
        ≡ Option.map (λ row. validate_row v row (some (k + i))) (get_elem? rows i)
  get_elem?-validate_from v k i [] = refl
  get_elem?-validate_from v k zero (row ∷ rows) =
      ap (λ n. some (validate_row v row (some n))) (omega arith)
  get_elem?-validate_from v k (suc i) (row ∷ rows) =
      get_elem?-validate_from v (suc k) i rows
      ∙ ap (λ n. Option.map (λ row. validate_row v row (some n)) (get_elem? rows i)) (omega arith)

-- The first loop's set after a row, and whether the row repeats a key of it.
abbrev next_seen : Option String → List String → List String
next_seen none seen = seen
next_seen (some key) seen = if contains seen key then seen else key ∷ seen

abbrev repeats : Option String → List String → Bool
repeats none seen = false
repeats (some key) seen = contains seen key

abbrev first_key : Option String → List String
first_key none = []
first_key (some key) = key ∷ []

contains-next_seen :
    (o : Option String) (seen keys : List String) (key : String)
    → (contains (next_seen o seen) key || contains keys key)
      ≡ (contains seen key || contains (first_key o ++ keys) key)
contains-next_seen none seen keys key = refl
contains-next_seen (some k) seen keys key = elim (Bool-cases (contains seen k)) [
  | inl e ↦ rw e (elim (Bool-cases (str_eq k key)) [
    | inl q ↦ ground (arith, q, ap (contains seen) ((eq_iff k key).0 q), e)
    | inr q ↦ rw q
  ])
  | inr e ↦ rw e (ground arith)
]

module _ (r : Runtime) (v : DataValidator r.Float) (field : String) where
  open r use {Float}

  indices_step :
      (seen : List String) (k : ℕ) (row : Row Float) (rows : List (Row Float))
      → duplicate_indices r v field seen k (row ∷ rows) ≡ (
          let o = key_of r v field row in
          let rest = duplicate_indices r v field (next_seen o seen) (suc k) rows in
          if repeats o seen then k ∷ rest else rest)
  unfolding duplicate_indices
  indices_step seen k row rows = elim (Option-cases (key_of r v field row)) [
    | inl e ↦ rw (e, duplicate_indices)
    | inr (key, e) ↦ elim (Bool-cases (contains seen key)) [
      | inl q ↦ rw (e, q, duplicate_indices)
      | inr q ↦ rw (e, q, duplicate_indices)
    ]
  ]

  pub Rises-duplicate_indices :
      (seen : List String) (k : ℕ) (rows : List (Row Float))
      → Rises k (duplicate_indices r v field seen k rows)
  Rises-duplicate_indices seen k [] = unfold duplicate_indices in tt
  Rises-duplicate_indices seen k (row ∷ rows) =
      let o = key_of r v field row in
      let ih = Rises-duplicate_indices (next_seen o seen) (suc k) rows in
      rw indices_step (elim (Bool-cases (repeats o seen)) [
        | inl e ↦ rw e (omega arith, ih)
        | inr e ↦ rw e (Rises-weaken (suc k) k _ (omega arith) ih)
      ])

  -- The keys of the first `i` rows, and whether the row at `i` has one of them or of `seen`.
  abbrev pub keys_before : List (Row Float) → ℕ → List String
  keys_before [] i = []
  keys_before (row ∷ rows) zero = []
  keys_before (row ∷ rows) (suc i) = first_key (key_of r v field row) ++ keys_before rows i

  abbrev pub key_at : List (Row Float) → ℕ → Option String
  key_at [] i = none
  key_at (row ∷ rows) zero = key_of r v field row
  key_at (row ∷ rows) (suc i) = key_at rows i

  abbrev pub among : Option String → List String → List String → Bool
  among none seen keys = false
  among (some key) seen keys = contains seen key || contains keys key

  among_first : (o : Option String) (seen : List String) → among o seen [] ≡ repeats o seen
  among_first none seen = refl
  among_first (some key) seen = ground arith

  among_next :
      (o p : Option String) (seen keys : List String)
      → among p (next_seen o seen) keys ≡ among p seen (first_key o ++ keys)
  among_next o none seen keys = refl
  among_next o (some key) seen keys = contains-next_seen o seen keys key

  pub has_index-duplicate_indices :
      (seen : List String) (k i : ℕ) (rows : List (Row Float))
      → has_index (k + i) (duplicate_indices r v field seen k rows)
        ≡ among (key_at rows i) seen (keys_before rows i)
  has_index-duplicate_indices seen k i [] = unfold duplicate_indices in refl
  has_index-duplicate_indices seen k zero (row ∷ rows) =
      let o = key_of r v field row in
      let later : has_index (k + 0) (duplicate_indices r v field (next_seen o seen) (suc k) rows)
          ≡ false =
        has_index_below (suc k) (k + 0) _ (Rises-duplicate_indices (next_seen o seen) (suc k) rows)
          (omega arith) in
      ap (has_index (k + 0)) (indices_step seen k row rows)
      ∙ ground (arith, later, among_first o seen)
  has_index-duplicate_indices seen k (suc i) (row ∷ rows) =
      let o = key_of r v field row in
      let ih = has_index-duplicate_indices (next_seen o seen) (suc k) i rows in
      let same : suc k + i ≡ k + suc i = omega arith in
      ap (has_index (k + suc i)) (indices_step seen k row rows)
      ∙ ground (
        arith,
        ap (λ n. has_index n (duplicate_indices r v field (next_seen o seen) (suc k) rows)) same,
        ih,
        among_next o (key_at rows i) seen (keys_before rows i),
      )
