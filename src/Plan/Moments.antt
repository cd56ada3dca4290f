-- ===== src/Plan/Moments.antt =====
-- The moments of plan_builder_impl.py of src/application/collection and its steps between them. A
-- moment is a number of microseconds of wall-clock time since the first of January of the year 1:
-- what Python's `datetime` computes on values that share their time zone. Where Python raises since
-- a date leaves the years 1 to 9999, the model returns `none`.
use douyin_data_dashboard.Prelude.{
  ℕ, ◌+◌, ◌-◌, ◌*◌, ◌/◌, ◌%◌, ◌≤◌, ◌<◌, ◌≡◌, refl, sym, ◌∙◌, ap, Option, none, some, arith, ltb,
  leb, if◌then◌else◌, String, str_eq, min, Bool-cases, inl, inr,
}
use douyin_data_dashboard.Plan.Calendar.{
  Date, date_of, month_start, month_length, days_before_year, date_of-finds, date_of-month_start,
  month_start-next, month_length-bounds,
}

abbrev pub hour : ℕ
hour = 3600000000

abbrev pub day : ℕ
day = 86400000000

abbrev pub week : ℕ
week = 604800000000

-- The end of the year 9999.
unfoldable pub limit : ℕ
limit = days_before_year 10000 * day

pub data Granularity : Type 0 where
  hourly : Granularity
  daily : Granularity
  weekly : Granularity
  monthly : Granularity

-- Which branch of the helpers a granularity's text takes: the last one is that of "DAY".
unfoldable pub branch_of : String → Granularity
branch_of text =
    if str_eq text "HOUR"
    then hourly
    else if str_eq text "WEEK"
    then weekly
    else if str_eq text "MONTH"
    then monthly
    else daily

unfoldable pub align_window_start : Granularity → ℕ → ℕ
align_window_start hourly base = base - base % hour
align_window_start daily base = base - base % day
align_window_start weekly base = base - base % week
align_window_start monthly base =
    let date = date_of (base / day) in month_start date.year date.month * day

abbrev pub in_range : ℕ → Option ℕ
in_range t = if ltb t limit then some t else none

-- The moment that `_next_window_start` computes, when it is in range.
unfoldable pub later : Granularity → ℕ → ℕ
later hourly current = current + hour
later daily current = current + day
later weekly current = current + week
later monthly current =
    let date = date_of (current / day) in
    (if leb 12 (date.month + 1)
        then month_start (date.year + 1) 0
        else month_start date.year (date.month + 1))
      * day
    + current % day

unfoldable pub next_window_start : Granularity → ℕ → Option ℕ
next_window_start granularity current = in_range (later granularity current)

abbrev pub minus : ℕ → ℕ → Option ℕ
minus base k = if leb k base then some (base - k) else none

unfoldable pub shift_month : ℕ → ℕ → Option ℕ
shift_month base offset =
    let date = date_of (base / day) in
    let total_months = date.year * 12 + date.month - offset in
    let year = total_months / 12 in
    let month = total_months % 12 in
    if ltb year 1
    then none
    else some
        ((month_start year month + min date.day (month_length year month - 1)) * day + base % day)

unfoldable pub shift_base : Granularity → ℕ → ℕ → Option ℕ
shift_base hourly base offset = minus base (hour * offset)
shift_base daily base offset = minus base (day * offset)
shift_base weekly base offset = minus base (week * offset)
shift_base monthly base offset = shift_month base offset

-- A month's days in microseconds.
pub later-monthly :
    (t : ℕ)
    → let date = date_of (t / day) in
      later monthly t
      ≡ (month_start date.year date.month + month_length date.year date.month) * day + t % day
unfolding later
later-monthly t =
    let date = date_of (t / day) in
    let (p, q, r, s) = date_of-finds (t / day) in
    ap (λ start. start * day + t % day) (month_start-next date.year date.month s r)

pub align_window_start-le : (g : Granularity) (t : ℕ) → align_window_start g t ≤ t
unfolding align_window_start
align_window_start-le hourly t = omega arith
align_window_start-le daily t = omega arith
align_window_start-le weekly t = omega arith
align_window_start-le monthly t = ground (arith, date_of-finds (t / day))

-- The next window starts later, at most 31 days.
pub later-bounds : (g : Granularity) (t : ℕ) → (t < later g t) × (later g t ≤ t + 31 * day)
unfolding later
later-bounds hourly t = (omega arith, omega arith)
later-bounds daily t = (omega arith, omega arith)
later-bounds weekly t = (omega arith, omega arith)
later-bounds monthly t =
    let date = date_of (t / day) in
    ground
      (arith, later-monthly t, date_of-finds (t / day), month_length-bounds date.year date.month)

-- What follows the start of a month.
pub later-month :
    (y m : ℕ)
    → 0 < y
    → 0 < month_length y m
    → later monthly (month_start y m * day) ≡ (month_start y m + month_length y m) * day
later-month y m h lt =
    let first : month_start y m * day / day ≡ month_start y m + 0 = omega arith in
    omega (
      arith,
      later-monthly (month_start y m * day),
      ap (λ (date : Date). month_start date.year date.month + month_length date.year date.month)
          (ap date_of first ∙ date_of-month_start y m 0 h lt),
    )

-- The moments of a month are aligned to its start.
pub align_window_start-month :
    (y m t : ℕ)
    → 0 < y
    → month_start y m ≤ t / day
    → t / day < month_start y m + month_length y m
    → align_window_start monthly t ≡ month_start y m * day
unfolding align_window_start
align_window_start-month y m t h le lt =
    ap (λ (date : Date). month_start date.year date.month * day)
      (ap date_of (omega arith)
        ∙ date_of-month_start y m (t / day - month_start y m) h (omega arith))

later-covers_month : (t : ℕ) → t < later monthly (align_window_start monthly t)
later-covers_month t =
    let date = date_of (t / day) in
    let (p, q, r, pos) = date_of-finds (t / day) in
    omega (
      arith,
      ap (later monthly)
          (align_window_start-month date.year date.month t pos (omega arith) (omega arith)),
      later-month date.year date.month pos (omega arith),
    )

between_month :
    (s t : ℕ)
    → align_window_start monthly s ≡ s
    → s ≤ t
    → t < later monthly s
    → align_window_start monthly t ≡ s
between_month s t e le lt =
    let date = date_of (s / day) in
    let (p, q, r, pos) = date_of-finds (s / day) in
    let start = align_window_start-month date.year date.month s pos (omega arith) (omega arith) in
    align_window_start-month date.year date.month t pos (omega arith)
      (omega (arith, later-monthly s))
    ∙ (sym start ∙ e)

later_month :
    (s : ℕ)
    → align_window_start monthly s ≡ s
    → align_window_start monthly (later monthly s) ≡ later monthly s
later_month s e =
    let date = date_of (s / day) in
    let (p, q, r, pos) = date_of-finds (s / day) in
    let here = align_window_start-month date.year date.month s pos (omega arith) (omega arith) in
    let next = month_start-next date.year date.month pos r in
    let after = later-monthly s in
    elim (Bool-cases (leb 12 (date.month + 1))) [
      | inl wraps ↦
          let first = month_length-bounds (date.year + 1) 0 (omega arith) in
          align_window_start-month (date.year + 1) 0 (later monthly s) (omega arith) (ground arith)
            (ground arith)
          ∙ ground arith
      | inr stays ↦
          let following = month_length-bounds date.year (date.month + 1) (ground arith) in
          align_window_start-month date.year (date.month + 1) (later monthly s) pos (ground arith)
            (ground arith)
          ∙ ground arith
    ]

-- A moment is before the window that follows its own.
pub later-covers : (g : Granularity) (t : ℕ) → t < later g (align_window_start g t)
unfolding later align_window_start
later-covers hourly t = omega arith
later-covers daily t = omega arith
later-covers weekly t = omega arith
later-covers monthly t = later-covers_month t

-- Every moment between two starts belongs to the first.
pub align_window_start-between :
    (g : Granularity) (s t : ℕ)
    → align_window_start g s ≡ s
    → s ≤ t
    → t < later g s
    → align_window_start g t ≡ s
unfolding later align_window_start
align_window_start-between hourly s t e le lt = omega arith
align_window_start-between daily s t e le lt = omega arith
align_window_start-between weekly s t e le lt = omega arith
align_window_start-between monthly s t e le lt = between_month s t e le lt

pub align_window_start-later :
    (g : Granularity) (s : ℕ)
    → align_window_start g s ≡ s
    → align_window_start g (later g s) ≡ later g s
unfolding later align_window_start
align_window_start-later hourly s e = omega arith
align_window_start-later daily s e = omega arith
align_window_start-later weekly s e = omega arith
align_window_start-later monthly s e = later_month s e

idem_month :
    (t : ℕ)
    → align_window_start monthly (align_window_start monthly t) ≡ align_window_start monthly t
idem_month t =
    let date = date_of (t / day) in
    let (p, q, r, pos) = date_of-finds (t / day) in
    let start = align_window_start-month date.year date.month t pos (omega arith) (omega arith) in
    align_window_start-month date.year date.month (align_window_start monthly t) pos (omega arith)
      (omega arith)
    ∙ sym start

-- Aligning twice is aligning once.
pub align_window_start_idem :
    (g : Granularity) (t : ℕ)
    → align_window_start g (align_window_start g t) ≡ align_window_start g t
unfolding align_window_start
align_window_start_idem hourly t = omega arith
align_window_start_idem daily t = omega arith
align_window_start_idem weekly t = omega arith
align_window_start_idem monthly t = idem_month t

pub later-hourly : (t : ℕ) → later hourly t ≡ t + hour
unfolding later
later-hourly t = refl

pub later-daily : (t : ℕ) → later daily t ≡ t + day
unfolding later
later-daily t = refl

pub later-weekly : (t : ℕ) → later weekly t ≡ t + week
unfolding later
later-weekly t = refl
