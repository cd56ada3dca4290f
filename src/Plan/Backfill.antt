-- ===== src/Plan/Backfill.antt =====
-- The windows of the last days, hours, weeks or months of plan_builder_impl.py of
-- src/application/collection: the loop of `_resolve_windows` over the offsets from a base time.
use mathlib.Core.Path.{subst}
use douyin_data_dashboard.Prelude.{
  ℕ, zero, suc, ◌+◌, ◌-◌, ◌*◌, ◌/◌, ◌%◌, ◌≤◌, ◌<◌, ◌≡◌, refl, sym, ap, ◌∙◌, Option, none, some,
  List, [], ◌∷◌, ◌++◌, reverse, arith, max, All, All-append, length-reverse, length,
}
use douyin_data_dashboard.Plan.Calendar.{date_of-finds}
use douyin_data_dashboard.Plan.Moments.{
  Granularity, hourly, daily, weekly, monthly, align_window_start, later, shift_base, limit, hour,
  day, week, align_window_start-le, later-bounds, align_window_start_idem, later-hourly,
  later-daily, later-weekly,
}
use douyin_data_dashboard.Plan.Months.{
  months_of, first_day, first_day-months, month_room, first_day-le, shift_month-some,
  later-first_day,
}
use douyin_data_dashboard.Plan.Windows.{
  Window, cons_window, build_single_window, Tiles, next_window_start-some,
}

-- One turn of the loop.
unfoldable pub shifted_window : Granularity → ℕ → ℕ → Option Window
shifted_window granularity base offset = elim (shift_base granularity base offset) [
  | none ↦ none
  | some shifted ↦ build_single_window shifted granularity
]

-- The loop's windows from an offset on, in its order.
unfoldable pub windows_from : Granularity → ℕ → ℕ → ℕ → Option (List Window)
windows_from granularity base offset zero = some []
windows_from granularity base offset (suc count) = elim (shifted_window granularity base offset) [
  | none ↦ none
  | some window ↦ cons_window window (windows_from granularity base (offset + 1) count)
]

-- `windows.reverse()` included; `backfill` is what `_parse_non_negative_int` returned.
unfoldable pub backfill_windows : Granularity → ℕ → ℕ → Option (List Window)
backfill_windows granularity base backfill =
    elim (windows_from granularity base 0 (max backfill 1)) [
      | none ↦ none
      | some windows ↦ some (reverse windows)
    ]

-- Where the unit starts that is so many units before the base's one.
unit_start : Granularity → ℕ → ℕ → ℕ
unit_start hourly base offset = align_window_start hourly base - hour * offset
unit_start daily base offset = align_window_start daily base - day * offset
unit_start weekly base offset = align_window_start weekly base - week * offset
unit_start monthly base offset = first_day (months_of base - offset) * day

shift_base-some :
    (g : Granularity) (base offset : ℕ)
    → (offset + 1) * (31 * day) ≤ base
    → (b : ℕ) × (shift_base g base offset ≡ some b)
      × (align_window_start g b ≡ unit_start g base offset)
unfolding shift_base align_window_start unit_start
shift_base-some hourly base offset room = (base - hour * offset, ground arith, omega arith)
shift_base-some daily base offset room = (base - day * offset, ground arith, omega arith)
shift_base-some weekly base offset room = (base - week * offset, ground arith, omega arith)
shift_base-some monthly base offset room =
    shift_month-some base offset (omega (arith, month_room base offset room))

unit_start-le :
    (g : Granularity) (base offset : ℕ)
    → (offset + 1) * (31 * day) ≤ base
    → unit_start g base offset ≤ base
unfolding unit_start
unit_start-le hourly base offset room = omega (arith, align_window_start-le hourly base)
unit_start-le daily base offset room = omega (arith, align_window_start-le daily base)
unit_start-le weekly base offset room = omega (arith, align_window_start-le weekly base)
unit_start-le monthly base offset room =
    let enough = month_room base offset room in
    let back : months_of base - offset + offset ≡ months_of base = omega arith in
    omega (
      arith,
      first_day-le (months_of base - offset) offset (omega arith),
      ap first_day back,
      first_day-months base,
      date_of-finds (base / day),
    )

unit_start-next :
    (g : Granularity) (base offset : ℕ)
    → (offset + 2) * (31 * day) ≤ base
    → later g (unit_start g base (offset + 1)) ≡ unit_start g base offset
unfolding unit_start align_window_start
unit_start-next hourly base offset room =
    later-hourly (base - base % hour - hour * (offset + 1)) ∙ omega arith
unit_start-next daily base offset room =
    later-daily (base - base % day - day * (offset + 1)) ∙ omega arith
unit_start-next weekly base offset room =
    later-weekly (base - base % week - week * (offset + 1)) ∙ omega arith
unit_start-next monthly base offset room =
    let enough = month_room base (offset + 1) (omega arith) in
    let next : months_of base - (offset + 1) + 1 ≡ months_of base - offset = omega arith in
    later-first_day (months_of base - (offset + 1)) (omega arith)
    ∙ ap (λ months. first_day months * day) next

unit_start-zero : (g : Granularity) (base : ℕ) → unit_start g base 0 ≡ align_window_start g base
unfolding unit_start align_window_start
unit_start-zero hourly base = omega arith
unit_start-zero daily base = omega arith
unit_start-zero weekly base = omega arith
unit_start-zero monthly base =
    let none_off : months_of base - 0 ≡ months_of base = omega arith in
    ap (λ months. first_day months * day) none_off
    ∙ ap (λ start. start * day) (first_day-months base)

abbrev pub WholeUnits : Granularity → List Window → Type 0
WholeUnits granularity ws =
    All
      (λ (w : Window).
        (align_window_start granularity w.0 ≡ w.0) × (w.1 + 1 ≡ later granularity w.0))
      ws

Tiles-snoc :
    (first last start end : ℕ) (ws : List Window)
    → Tiles first last ws
    → start ≡ last + 1
    → start ≤ end
    → Tiles first end (ws ++ ((start, end) ∷ []))
Tiles-snoc first last start end [] h next le = (ground arith, le, omega arith, refl)
Tiles-snoc first last start end (w ∷ ws) h next le =
    (h.0, h.1, omega arith, Tiles-snoc (w.1 + 1) last start end ws h.3 next le)

All-reverse : (P : Window → Type 0) (ws : List Window) → All P ws → All P (reverse ws)
All-reverse P [] h = tt
All-reverse P (w ∷ ws) h = All-append P (reverse ws) (w ∷ []) (All-reverse P ws h.1) (h.0, tt)

shifted_window-some :
    (g : Granularity) (base offset : ℕ)
    → (offset + 1) * (31 * day) ≤ base
    → base + 31 * day < limit
    → let start = unit_start g base offset in
      (shifted_window g base offset ≡ some (start, later g start - 1))
      × (align_window_start g start ≡ start)
unfolding shifted_window build_single_window
shifted_window-some g base offset room below =
    let (b, shifted, aligned) = shift_base-some g base offset room in
    let start = unit_start g base offset in
    let next = next_window_start-some g start (omega (arith, unit_start-le g base offset room)) in
    (
      ground (arith, shifted, aligned, next),
      sym (ap (align_window_start g) aligned) ∙ (align_window_start_idem g b ∙ aligned),
    )

-- The loop from an offset on.
windows_from-Tiles :
    (g : Granularity) (base offset count : ℕ)
    → (offset + count + 1) * (31 * day) ≤ base
    → base + 31 * day < limit
    → (ws : List Window) × (windows_from g base offset count ≡ some ws)
      × (length ws ≡ count)
      × Tiles
          (later g (unit_start g base (offset + count)))
          (later g (unit_start g base offset) - 1)
          (reverse ws)
      × WholeUnits g ws
unfolding windows_from
windows_from-Tiles g base offset zero room below =
    let same : offset + 0 ≡ offset = omega arith in
    let (after, near) = later-bounds g (unit_start g base offset) in
    ([], refl, refl, omega (arith, ap (λ o. later g (unit_start g base o)) same), tt)
windows_from-Tiles g base offset (suc count) room below =
    let (ws, computed, len, tiles, units) =
      windows_from-Tiles g base (offset + 1) count (omega arith) below in
    let start = unit_start g base offset in
    let (window, aligned) = shifted_window-some g base offset (omega arith) below in
    let (after, near) = later-bounds g start in
    let previous = unit_start-next g base offset (omega arith) in
    let counted : offset + 1 + count ≡ offset + suc count = omega arith in
    (
      (start, later g start - 1) ∷ ws,
      ground (arith, window, computed),
      ap suc len,
      Tiles-snoc (later g (unit_start g base (offset + suc count)))
          (later g (unit_start g base (offset + 1)) - 1) start (later g start - 1) (reverse ws)
          (subst
            (λ o.
              Tiles (later g (unit_start g base o)) (later g (unit_start g base (offset + 1)) - 1)
                (reverse ws))
            counted tiles)
          (omega (arith, (later-bounds g (unit_start g base (offset + 1))).0))
          (omega (arith, (later-bounds g (unit_start g base (offset + 1))).0)),
      ((aligned, omega arith), units),
    )

-- The windows of the last units are returned, if there are 31 days per unit, and 31 more, since the
-- first of January of the year 1 and 31 days after the base until the end of the year 9999. There is
-- one window per unit, at least one, and each is a whole unit, from its start to the moment before
-- the next one. They come in the order of time, each right after the one before, and the last one
-- is the unit of the base.
pub backfill_windows-Tiles :
    (g : Granularity) (base backfill : ℕ)
    → (max backfill 1 + 1) * (31 * day) ≤ base
    → base + 31 * day < limit
    → (ws : List Window) × (backfill_windows g base backfill ≡ some ws)
      × (length ws ≡ max backfill 1)
      × WholeUnits g ws
      × ((first : ℕ) × Tiles first (later g (align_window_start g base) - 1) ws)
unfolding backfill_windows
backfill_windows-Tiles g base backfill room below =
    let (ws, computed, len, tiles, units) =
      windows_from-Tiles g base 0 (max backfill 1) (omega arith) below in
    (
      reverse ws,
      ground (arith, computed),
      length-reverse ws ∙ len,
      All-reverse _ ws units,
      (
        later g (unit_start g base (0 + max backfill 1)),
        subst
            (λ s.
              Tiles (later g (unit_start g base (0 + max backfill 1))) (later g s - 1) (reverse ws))
            (unit_start-zero g base) tiles,
      ),
    )
