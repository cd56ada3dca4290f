-- ===== src/Plan/Windows.antt =====
-- The windows of a collection plan, as plan_builder_impl.py of src/application/collection cuts a
-- stretch of time into them. Where Python raises since a date is out of range, the result is `none`.
use mathlib.Core.Path.{subst}
use douyin_data_dashboard.Prelude.{
  ℕ, zero, suc, ◌+◌, ◌-◌, ◌*◌, ◌≤◌, ◌<◌, ◌≡◌, refl, ◌∙◌, true, false, Option, none, some, List, [],
  ◌∷◌, arith, ltb, leb, if◌then◌else◌, min, max, Bool-cases, inl, inr,
}
use douyin_data_dashboard.Plan.Moments.{
  Granularity, align_window_start, next_window_start, later, limit, day, align_window_start-le,
  later-bounds, align_window_start-between, align_window_start-later, align_window_start_idem,
}

-- The first and the last moment of a window.
abbrev pub Window : Type 0
Window = ℕ × ℕ

abbrev pub cons_window : Window → Option (List Window) → Option (List Window)
cons_window w none = none
cons_window w (some ws) = some (w ∷ ws)

-- The loop `while cursor <= end`, on fuel.
unfoldable pub cut : Granularity → ℕ → ℕ → ℕ → Option (List Window)
cut granularity zero cursor end = none
cut granularity (suc fuel) cursor end = elim (leb cursor end) [
  | false ↦ some []
  | true ↦ elim (next_window_start granularity cursor) [
    | none ↦ none
    | some next ↦ cons_window (cursor, min (next - 1) end) (cut granularity fuel next end)
  ]
]

-- The body of `_build_windows_from_time_range` once the bounds are in order.
abbrev windows_between : Granularity → ℕ → ℕ → Option (List Window)
windows_between granularity start end =
    let cursor = align_window_start granularity start in
    cut granularity (suc end - cursor + 1) cursor end

unfoldable pub build_windows_from_time_range : Granularity → ℕ → ℕ → Option (List Window)
unfolding cut
build_windows_from_time_range granularity start end =
    if ltb end start
    then windows_between granularity end start
    else windows_between granularity start end

unfoldable pub build_single_window : ℕ → Granularity → Option Window
build_single_window base granularity =
    let start = align_window_start granularity base in
    elim (next_window_start granularity start) [ none ↦ none | some next ↦ some (start, next - 1) ]

-- The windows cover every moment from the first to the last one, each once and in order.
abbrev pub Tiles : ℕ → ℕ → List Window → Type 0
Tiles first last [] = first ≡ last + 1
Tiles first last ((start, end) ∷ ws) =
    (start ≡ first) × (start ≤ end) × (end ≤ last) × Tiles (end + 1) last ws

-- Every window starts where its granularity does, and no other start lies in it.
abbrev pub WithinUnits : Granularity → List Window → Type 0
WithinUnits granularity [] = Unit
WithinUnits granularity ((start, end) ∷ ws) =
    ((t : ℕ) → start ≤ t → t ≤ end → align_window_start granularity t ≡ start)
    × WithinUnits granularity ws

pub next_window_start-some :
    (g : Granularity) (t : ℕ) → t + 31 * day < limit → next_window_start g t ≡ some (later g t)
unfolding next_window_start
next_window_start-some g t h = ground (arith, later-bounds g t)

cut-stops :
    (g : Granularity) (fuel cursor end : ℕ)
    → leb cursor end ≡ false
    → cut g (suc fuel) cursor end ≡ some []
unfolding cut
cut-stops g fuel cursor end e = ground (arith, e)

cut-goes :
    (g : Granularity) (fuel cursor end : ℕ)
    → leb cursor end ≡ true
    → cursor + 31 * day < limit
    → (ws : List Window) → cut g fuel (later g cursor) end ≡ some ws
    → cut g (suc fuel) cursor end ≡ some ((cursor, min (later g cursor - 1) end) ∷ ws)
unfolding cut
cut-goes g fuel cursor end e room ws rest =
    ground (arith, e, next_window_start-some g cursor room, rest)

-- What the loop does from an aligned start; the start may lie behind the end.
cut-Tiles :
    (g : Granularity) (fuel cursor end : ℕ)
    → end + 31 * day < limit
    → suc end < fuel + cursor
    → 0 < fuel
    → align_window_start g cursor ≡ cursor
    → (ws : List Window) × (cut g fuel cursor end ≡ some ws)
      × Tiles (min cursor (end + 1)) end ws
      × WithinUnits g ws
cut-Tiles g zero cursor end room enough some_fuel aligned = ground arith
cut-Tiles g (suc fuel) cursor end room enough some_fuel aligned =
    elim (Bool-cases (leb cursor end)) [
      | inl e ↦
          let (after, near) = later-bounds g cursor in
          let (ws, computed, tiles, units) =
            cut-Tiles g fuel (later g cursor) end room (omega arith) (ground arith)
              (align_window_start-later g cursor aligned) in
          (
            (cursor, min (later g cursor - 1) end) ∷ ws,
            cut-goes g fuel cursor end e (ground arith) ws computed,
            (
              ground arith,
              ground arith,
              ground arith,
              subst (λ t. Tiles t end ws) (omega arith) tiles,
            ),
            (λ t le lt. align_window_start-between g cursor t aligned le (omega arith), units),
          )
      | inr e ↦ ([], cut-stops g fuel cursor end e, ground arith, tt)
    ]

windows_between-Tiles :
    (g : Granularity) (start end : ℕ)
    → start ≤ end
    → end + 31 * day < limit
    → (ws : List Window) × (windows_between g start end ≡ some ws)
      × Tiles (align_window_start g start) end ws
      × WithinUnits g ws
windows_between-Tiles g start end le room =
    let cursor = align_window_start g start in
    let before = align_window_start-le g start in
    let (ws, computed, tiles, units) =
      cut-Tiles g (suc end - cursor + 1) cursor end room (omega arith) (omega arith)
        (align_window_start_idem g start) in
    let first : min cursor (end + 1) ≡ cursor = omega arith in
    (ws, computed, subst (λ t. Tiles t end ws) first tiles, units)

build_windows_from_time_range-in_order :
    (g : Granularity) (start end : ℕ)
    → build_windows_from_time_range g start end ≡ windows_between g (min start end) (max start end)
unfolding build_windows_from_time_range
build_windows_from_time_range-in_order g start end = elim (Bool-cases (ltb end start)) [
  | inl e ↦
      let low : min start end ≡ end = ground arith in
      let high : max start end ≡ start = ground arith in rw (e, low, high) refl
  | inr e ↦
      let low : min start end ≡ start = ground arith in
      let high : max start end ≡ end = ground arith in rw (e, low, high) refl
]

-- Cutting the time between two moments up succeeds if the later one is at least 31 days before the
-- end of the year 9999. The windows tile the time from the start of the unit that holds the earlier
-- moment to the later moment, whichever of the two is given first, and each lies in one unit.
pub build_windows_from_time_range-Tiles :
    (g : Granularity) (start end : ℕ)
    → max start end + 31 * day < limit
    → (ws : List Window) × (build_windows_from_time_range g start end ≡ some ws)
      × Tiles (align_window_start g (min start end)) (max start end) ws
      × WithinUnits g ws
build_windows_from_time_range-Tiles g start end room =
    let (ws, computed, tiles, units) =
      windows_between-Tiles g (min start end) (max start end) (omega arith) room in
    (ws, build_windows_from_time_range-in_order g start end ∙ computed, tiles, units)
