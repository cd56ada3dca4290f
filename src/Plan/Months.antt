-- ===== src/Plan/Months.antt =====
-- Counting in months, as `_shift_month` of src/application/collection/plan_builder_impl.py does: where
-- the months start that lie before a moment's own.
use douyin_data_dashboard.Prelude.{
  ℕ, zero, suc, ◌+◌, ◌-◌, ◌*◌, ◌/◌, ◌%◌, ◌≤◌, ◌≡◌, refl, ap, ◌∙◌, Bool, true, false, some, arith,
  leb, if◌then◌else◌, min,
}
use douyin_data_dashboard.Plan.Calendar.{
  date_of, month_start, month_length, date_of-finds, month_start-next, month_length-bounds,
  month_start-le,
}
use douyin_data_dashboard.Plan.Moments.{
  monthly, align_window_start, later, shift_month, day, later-month, align_window_start-month,
}

-- The months since the year 0, and the day on which such a month starts.
abbrev pub months_of : ℕ → ℕ
months_of base = let date = date_of (base / day) in date.year * 12 + date.month

unfoldable pub first_day : ℕ → ℕ
first_day months = month_start (months / 12) (months % 12)

pub first_day-months :
    (base : ℕ)
    → let date = date_of (base / day) in
      first_day (months_of base) ≡ month_start date.year date.month
unfolding first_day
first_day-months base =
    let date = date_of (base / day) in
    let (p, q, r, pos) = date_of-finds (base / day) in
    let years : (date.year * 12 + date.month) / 12 ≡ date.year = omega arith in
    let rest : (date.year * 12 + date.month) % 12 ≡ date.month = omega arith in
    rw (years, rest) refl

-- Where there are 31 days per month before the base, the months do not run out.
pub month_room : (base offset : ℕ) → (offset + 1) * (31 * day) ≤ base → offset + 13 ≤ months_of base
month_room base offset room =
    let date = date_of (base / day) in
    ground (
      arith,
      date_of-finds (base / day),
      month_length-bounds date.year date.month,
      month_start-le date.year date.month,
    )

first_day-next :
    (months : ℕ)
    → 12 ≤ months
    → first_day (months + 1) ≡ first_day months + month_length (months / 12) (months % 12)
unfolding first_day
first_day-next months h =
    next (leb 12 (months % 12 + 1)) refl
    ∙ month_start-next (months / 12) (months % 12) (omega arith) (omega arith)
  where
    next :
        (wraps : Bool)
        → leb 12 (months % 12 + 1) ≡ wraps
        → first_day (months + 1) ≡ (
            if leb 12 (months % 12 + 1)
            then month_start (months / 12 + 1) 0
            else month_start (months / 12) (months % 12 + 1))
    next true e =
        let years : (months + 1) / 12 ≡ months / 12 + 1 = ground arith in
        let rest : (months + 1) % 12 ≡ 0 = ground arith in rw (years, rest, e) refl
    next false e =
        let years : (months + 1) / 12 ≡ months / 12 = ground arith in
        let rest : (months + 1) % 12 ≡ months % 12 + 1 = ground arith in rw (years, rest, e) refl

pub first_day-le : (months k : ℕ) → 12 ≤ months → first_day months ≤ first_day (months + k)
first_day-le months zero h =
    let same : months + 0 ≡ months = omega arith in omega (arith, ap first_day same)
first_day-le months (suc k) h =
    let last : months + suc k ≡ months + k + 1 = omega arith in
    omega
      (arith, first_day-le months k h, first_day-next (months + k) (omega arith), ap first_day last)

-- Moving a base back gives a moment of the unit that is so many units earlier.
pub shift_month-some :
    (base offset : ℕ)
    → offset + 12 ≤ months_of base
    → (b : ℕ) × (shift_month base offset ≡ some b)
      × (align_window_start monthly b ≡ first_day (months_of base - offset) * day)
unfolding shift_month first_day
shift_month-some base offset room =
    let date = date_of (base / day) in
    let months = months_of base - offset in
    let (some_day, most) = month_length-bounds (months / 12) (months % 12) (omega arith) in
    let b =
      (first_day months + min date.day (month_length (months / 12) (months % 12) - 1)) * day
      + base % day in
    (
      b,
      ground arith,
      align_window_start-month (months / 12) (months % 12) b (omega arith) (omega arith)
          (omega arith),
    )

pub later-first_day :
    (months : ℕ)
    → 12 ≤ months
    → later monthly (first_day months * day) ≡ first_day (months + 1) * day
unfolding first_day
later-first_day months h =
    let (some_day, most) = month_length-bounds (months / 12) (months % 12) (omega arith) in
    omega (
      arith,
      later-month (months / 12) (months % 12) (omega arith) some_day,
      first_day-next months h,
    )
