-- ===== src/Plan/Calendar.antt =====
-- The calendar behind Python's `date`, as far as plan_builder_impl.py of src/application/collection
-- uses it. Days count from 1 January of the year 1, which is day 0 and a Monday.
use mathlib.Core.Path.{subst}
use douyin_data_dashboard.Prelude.{
  ℕ, zero, suc, ◌+◌, ◌-◌, ◌*◌, ◌/◌, ◌%◌, ◌≤◌, ◌<◌, ◌≡◌, refl, sym, ◌∙◌, ap, Bool, true, false, not,
  ◌&&◌, ◌||◌, none, some, List, [], ◌∷◌, arith, ltb, leb, ◌==◌, if◌then◌else◌, length, get_elem?,
  All, Bool-cases, Option-cases, inl, inr,
}

abbrev pub is_leap : ℕ → Bool
is_leap y = y % 4 == 0 && (not (y % 100 == 0) || y % 400 == 0)

unfoldable pub month_lengths : ℕ → List ℕ
month_lengths y =
    31 ∷ (if is_leap y then 29 else 28) ∷ 31 ∷ 30 ∷ 31 ∷ 30 ∷ 31 ∷ 31 ∷ 30 ∷ 31 ∷ 30 ∷ 31 ∷ []

-- The days before 1 January of a year.
unfoldable pub days_before_year : ℕ → ℕ
days_before_year y = let p = y - 1 in p * 365 + p / 4 - p / 100 + p / 400

-- The days in the months before the `i`-th of the list.
abbrev pub days_in_first : ℕ → List ℕ → ℕ
days_in_first zero lens = 0
days_in_first (suc i) [] = 0
days_in_first (suc i) (len ∷ lens) = len + days_in_first i lens

-- The first year from `y` that ends after the day `n`.
unfoldable pub year_from : ℕ → ℕ → ℕ → ℕ
year_from zero y n = y
year_from (suc fuel) y n = elim (leb (days_before_year (y + 1)) n) [
  | true ↦ year_from fuel (y + 1) n
  | false ↦ y
]

unfoldable pub year_of : ℕ → ℕ
unfolding year_from
year_of n = year_from n (n / 366 + 1) n

-- The index of the month of a day in its year, from 0, and of the day in its month.
unfoldable pub month_in : List ℕ → ℕ → ℕ × ℕ
month_in [] d = (0, d)
month_in (len ∷ lens) d =
    let (m, d') = month_in lens (d - len) in if ltb d len then (0, d) else (suc m, d')

-- A date as its year, and the indices of its month and day, each from 0.
pub record Date : Type 0 where
  pub year : ℕ
  pub month : ℕ
  pub day : ℕ

abbrev date_at : ℕ → ℕ × ℕ → Date
date_at y (m, d) = record { year = y; month = m; day = d }

abbrev date_in : ℕ → ℕ → Date
date_in y n = date_at y (month_in (month_lengths y) (n - days_before_year y))

unfoldable pub date_of : ℕ → Date
date_of n = date_in (year_of n) n

-- The day on which a month starts.
unfoldable pub month_start : ℕ → ℕ → ℕ
month_start y m = days_before_year y + days_in_first m (month_lengths y)

-- `monthrange(year, month)[1]`
unfoldable pub month_length : ℕ → ℕ → ℕ
month_length y m = elim (get_elem? (month_lengths y) m) [ some len ↦ len | none ↦ 0 ]

days_before_year-suc :
    (y : ℕ)
    → 0 < y
    → days_before_year (y + 1) ≡ days_before_year y + (if is_leap y then 366 else 365)
unfolding days_before_year
days_before_year-suc y h = ground arith

days_before_year-lt : (y : ℕ) → 0 < y → days_before_year y + 365 ≤ days_before_year (y + 1)
unfolding days_before_year
days_before_year-lt y h = omega arith

days_before_year-le : (y z : ℕ) → y ≤ z → days_before_year y ≤ days_before_year z
unfolding days_before_year
days_before_year-le y z h = omega arith

year_covers : (y : ℕ) → 0 < y → y ≤ days_before_year (y + 1)
unfolding days_before_year
year_covers y h = omega arith

starts_before : (n : ℕ) → days_before_year (n / 366 + 1) ≤ n
unfolding days_before_year
starts_before n = omega arith

year_from-bounds :
    (fuel y n : ℕ)
    → 0 < y
    → n < fuel + y
    → days_before_year y ≤ n
    → (days_before_year (year_from fuel y n) ≤ n)
      × (n < days_before_year (year_from fuel y n + 1))
      × (0 < year_from fuel y n)
unfolding year_from
year_from-bounds zero y n pos enough le = ground (arith, year_covers y pos)
year_from-bounds (suc fuel) y n pos enough le =
    ground (arith, year_from-bounds fuel (y + 1) n, days_before_year-lt y)

-- The year of a day is the one that it lies in.
pub year_of-bounds :
    (n : ℕ)
    → (days_before_year (year_of n) ≤ n) × (n < days_before_year (year_of n + 1)) × (0 < year_of n)
unfolding year_of
year_of-bounds n = year_from-bounds n (n / 366 + 1) n (omega arith) (omega arith) (starts_before n)

-- No other year has the day.
pub year_of_unique :
    (y n : ℕ) → days_before_year y ≤ n → n < days_before_year (y + 1) → year_of n ≡ y
year_of_unique y n le lt = ground (
  arith,
  year_of-bounds n,
  days_before_year-le (year_of n + 1) y,
  days_before_year-le (y + 1) (year_of n),
)

-- The months of a year fill it.
month_lengths-fill :
    (y : ℕ)
    → 0 < y
    → days_before_year y + days_in_first (length (month_lengths y)) (month_lengths y)
      ≡ days_before_year (y + 1)
unfolding month_lengths
month_lengths-fill y h = ground (arith, days_before_year-suc y)

length-month_lengths : (y : ℕ) → length (month_lengths y) ≡ 12
unfolding month_lengths
length-month_lengths y = refl

-- What the search says, as a property of the pair that it returns.
abbrev Finds : List ℕ → ℕ → ℕ × ℕ → Type 0
Finds lens d (m, k) =
    (len : ℕ) × (get_elem? lens m ≡ some len) × (k < len) × (days_in_first m lens + k ≡ d)

month_in-here :
    (len : ℕ) (lens : List ℕ) (d : ℕ) → ltb d len ≡ true → month_in (len ∷ lens) d ≡ (0, d)
unfolding month_in
month_in-here len lens d e = rw e refl

month_in-later :
    (len : ℕ) (lens : List ℕ) (d : ℕ)
    → ltb d len ≡ false
    → month_in (len ∷ lens) d ≡ (suc (month_in lens (d - len)).0, (month_in lens (d - len)).1)
unfolding month_in
month_in-later len lens d e = rw e refl

month_in-Finds :
    (lens : List ℕ) (d : ℕ) → d < days_in_first (length lens) lens → Finds lens d (month_in lens d)
month_in-Finds [] d h = ground arith
month_in-Finds (len ∷ lens) d h = elim (Bool-cases (ltb d len)) [
  | inl e ↦
      subst (Finds (len ∷ lens) d) (sym (month_in-here len lens d e))
        (len, refl, ground arith, omega arith)
  | inr e ↦
      let (l, p, q, r) = month_in-Finds lens (d - len) (ground arith) in
      subst (Finds (len ∷ lens) d) (sym (month_in-later len lens d e)) (l, p, q, ground arith)
]

month_in-of :
    (lens : List ℕ) (m k len : ℕ)
    → get_elem? lens m ≡ some len
    → k < len
    → month_in lens (days_in_first m lens + k) ≡ (m, k)
month_in-of [] m k len e h = cc
month_in-of (l ∷ lens) zero k len e h = ground (arith, month_in-here l lens k)
month_in-of (l ∷ lens) (suc m) k len e h =
    month_in-later l lens (l + days_in_first m lens + k) (ground arith)
    ∙ ground (arith, month_in-of lens m k len)

get_elem?-lt : (lens : List ℕ) (m len : ℕ) → get_elem? lens m ≡ some len → m < length lens
get_elem?-lt [] m len e = cc
get_elem?-lt (l ∷ lens) zero len e = omega arith
get_elem?-lt (l ∷ lens) (suc m) len e = omega (arith, get_elem?-lt lens m len e)

-- What a month adds to the days before it stays within the list's total.
days_in_first-le :
    (lens : List ℕ) (m len : ℕ)
    → get_elem? lens m ≡ some len
    → days_in_first m lens + len ≤ days_in_first (length lens) lens
days_in_first-le [] m len e = cc
days_in_first-le (l ∷ lens) zero len e = ground (arith, e)
days_in_first-le (l ∷ lens) (suc m) len e = ground (arith, days_in_first-le lens m len)

-- A date is in its month, and its day is the one that it was computed from.
pub date_of-finds :
    (n : ℕ)
    → let date = date_of n in
      (month_start date.year date.month + date.day ≡ n)
      × (date.day < month_length date.year date.month)
      × (date.month < 12)
      × (0 < date.year)
unfolding date_of month_start month_length
date_of-finds n =
    let (le, lt, pos) = year_of-bounds n in
    let total = month_lengths-fill (year_of n) pos in
    let twelve = length-month_lengths (year_of n) in
    let (len, p, q, r) =
      month_in-Finds (month_lengths (year_of n)) (n - days_before_year (year_of n)) (omega arith) in
    (
      omega arith,
      ground arith,
      omega (arith, get_elem?-lt (month_lengths (year_of n)) (date_of n).month len p),
      pos,
    )

pub date_of-month_start :
    (y m k : ℕ)
    → 0 < y
    → k < month_length y m
    → date_of (month_start y m + k) ≡ record { year = y; month = m; day = k }
unfolding date_of month_start month_length
date_of-month_start y m k h lt = elim (Option-cases (get_elem? (month_lengths y) m)) [
  | inl missing ↦ ground arith
  | inr (len, found) ↦
      let below = ltb-length found in
      let n = days_before_year y + days_in_first m (month_lengths y) + k in
      ap (λ z. date_in z n) (year_of_unique y n (omega arith) (in_year found below))
      ∙ ap (λ (mk : ℕ × ℕ). date_at y mk)
          (ap (month_in (month_lengths y)) (omega arith)
            ∙ month_in-of (month_lengths y) m k len found below)
]
  where
    ltb-length : {len : ℕ} → get_elem? (month_lengths y) m ≡ some len → k < len
    ltb-length found = ground arith

    in_year :
        {len : ℕ}
        → get_elem? (month_lengths y) m ≡ some len
        → k < len
        → days_before_year y + days_in_first m (month_lengths y) + k < days_before_year (y + 1)
    in_year {len} found below = ground (
      arith,
      days_in_first-le (month_lengths y) m len,
      month_lengths-fill y h,
      length-month_lengths y,
    )

-- The next month starts right after the last day of a month.
pub month_start-next :
    (y m : ℕ)
    → 0 < y
    → m < 12
    → (if leb 12 (m + 1) then month_start (y + 1) 0 else month_start y (m + 1))
      ≡ month_start y m + month_length y m
unfolding month_start month_length month_lengths
month_start-next y m h lt = ground (arith, days_before_year-suc y)

pub month_length-bounds : (y m : ℕ) → m < 12 → (0 < month_length y m) × (month_length y m ≤ 31)
unfolding month_length month_lengths
month_length-bounds y m lt = ground arith

days_in_first-le31 :
    (lens : List ℕ) (m : ℕ) → All (λ len. len ≤ 31) lens → days_in_first m lens ≤ 31 * m
days_in_first-le31 lens zero h = omega arith
days_in_first-le31 [] (suc m) h = omega arith
days_in_first-le31 (len ∷ lens) (suc m) h = ground (arith, days_in_first-le31 lens m h.1)

month_lengths-le31 : (y : ℕ) → All (λ len. len ≤ 31) (month_lengths y)
unfolding month_lengths
month_lengths-le31 y = ground arith

days_before_year-le366 : (y : ℕ) → days_before_year y ≤ 366 * (y - 1)
unfolding days_before_year
days_before_year-le366 y = omega arith

-- A month starts at most 31 days per month after the first one of the calendar.
pub month_start-le : (y m : ℕ) → month_start y m ≤ 31 * (12 * (y - 1) + m)
unfolding month_start
month_start-le y m =
    omega (
      arith,
      days_in_first-le31 (month_lengths y) m (month_lengths-le31 y),
      days_before_year-le366 y,
    )
