-- ===== src/Plan/Units.antt =====
-- The units of a collection plan: `build_collection_plan` of
-- src/application/collection/plan_builder_impl.py makes one per shop and window.
use native.Mathlib.Nat.{zero-mul, suc-mul}
use douyin_data_dashboard.Prelude.{
  ℕ, zero, suc, ◌+◌, ◌*◌, ◌≡◌, refl, sym, ◌∙◌, ap, Option, some, List, [], ◌∷◌, ◌++◌, arith, String,
  length, get_elem?, length-append, get_elem?-append_first, get_elem?-append_second, get_elem?-lt,
  or_else,
}
use douyin_data_dashboard.Plan.Windows.{Window}
use douyin_data_dashboard.Plan.Config.{
  Datetime, Python, CollectionConfig, text_or, resolve_shop_ids, resolve_timezone, resolve_cursor,
}
use douyin_data_dashboard.Plan.Build.{
  CollectionPlanUnit, resolve_windows, unit_of, units_of_shop, plan_units, planned, instant_of,
  build_collection_plan,
}

module _ {Obj Instant Zone : Type 0} (py : Python Obj Instant Zone) where
  module _ (config : CollectionConfig Obj) (granularity : String) (cursor : Option String) where
    length-units_of_shop :
        (s : String) (ws : List Window) (index : ℕ)
        → length (units_of_shop py config granularity cursor s ws index) ≡ length ws
    unfolding units_of_shop
    length-units_of_shop s [] index = refl
    length-units_of_shop s (w ∷ ws) index = omega (arith, length-units_of_shop s ws (index + 1))

    length-plan_units :
        (shops : List String) (ws : List Window) (index : ℕ)
        → length (plan_units py config granularity cursor shops ws index) ≡ length shops * length ws
    unfolding plan_units
    length-plan_units [] ws index = sym (zero-mul (length ws))
    length-plan_units (s ∷ shops) ws index =
        let one_shop = units_of_shop py config granularity cursor s ws index in
        let others = plan_units py config granularity cursor shops ws (index + length ws) in
        omega (
          arith,
          length-append one_shop others,
          length-units_of_shop s ws index,
          length-plan_units shops ws (index + length ws),
          suc-mul (length shops) (length ws),
        )

    units_of_shop-get :
        (s : String) (ws : List Window) (index j : ℕ) (w : Window)
        → get_elem? ws j ≡ some w
        → get_elem? (units_of_shop py config granularity cursor s ws index) j
          ≡ some (unit_of py config granularity cursor s w (index + j))
    unfolding units_of_shop
    units_of_shop-get s [] index j w e = cc
    units_of_shop-get s (v ∷ ws) index zero w e =
        ap (λ u. some (unit_of py config granularity cursor s u index)) (ap (λ o. or_else o v) e)
        ∙ ap (λ n. some (unit_of py config granularity cursor s w n)) (omega arith)
    units_of_shop-get s (v ∷ ws) index (suc j) w e =
        units_of_shop-get s ws (index + 1) j w e
        ∙ ap (λ n. some (unit_of py config granularity cursor s w n)) (omega arith)

    plan_units-get :
        (shops : List String) (ws : List Window) (index i j : ℕ) (s : String) (w : Window)
        → get_elem? shops i ≡ some s
        → get_elem? ws j ≡ some w
        → get_elem? (plan_units py config granularity cursor shops ws index) (i * length ws + j)
          ≡ some (unit_of py config granularity cursor s w (index + (i * length ws + j)))
    unfolding plan_units
    plan_units-get [] ws index i j s w e f = cc
    plan_units-get (s' ∷ shops) ws index zero j s w e f =
        let first = units_of_shop py config granularity cursor s' ws index in
        let others = plan_units py config granularity cursor shops ws (index + length ws) in
        let here : zero * length ws + j ≡ j = omega (arith, zero-mul (length ws)) in
        ap (get_elem? (first ++ others)) here
        ∙ (get_elem?-append_first first others j
              (omega (arith, length-units_of_shop s' ws index, get_elem?-lt ws j w f))
            ∙ (units_of_shop-get s' ws index j w f
                ∙ (ap (λ t. some (unit_of py config granularity cursor t w (index + j)))
                      (ap (λ o. or_else o s') e)
                    ∙ ap (λ n. some (unit_of py config granularity cursor s w (index + n)))
                        (sym here))))
    plan_units-get (s' ∷ shops) ws index (suc i) j s w e f =
        let first = units_of_shop py config granularity cursor s' ws index in
        let others = plan_units py config granularity cursor shops ws (index + length ws) in
        let count = length-units_of_shop s' ws index in
        let place : suc i * length ws + j ≡ length first + (i * length ws + j) =
          omega (arith, count, suc-mul i (length ws)) in
        let number : index + length ws + (i * length ws + j) ≡ index + (suc i * length ws + j) =
          omega (arith, suc-mul i (length ws)) in
        ap (get_elem? (first ++ others)) place
        ∙ (get_elem?-append_second first others (i * length ws + j)
            ∙ (plan_units-get shops ws (index + length ws) i j s w e f
                ∙ ap (λ n. some (unit_of py config granularity cursor s w n)) number))

  -- One unit per shop and window: the unit at a position is the one of the shop and the window that
  -- the position stands for, and it is numbered by that position.
  abbrev pub Covers : CollectionConfig Obj → List Window → List (CollectionPlanUnit Obj) → Type 0
  Covers config ws units =
      let shops = resolve_shop_ids config in
      (length units ≡ length shops * length ws)
      × ((i j : ℕ) (s : String) (w : Window)
          → get_elem? shops i ≡ some s
          → get_elem? ws j ≡ some w
          → get_elem? units (i * length ws + j)
            ≡ some (
                unit_of py config (py.upper (text_or config.granularity "DAY"))
                  (resolve_cursor py config) s w (i * length ws + j)))

  -- Where the time zone is known, the current time is an instant and the windows are resolved, the
  -- plan is built, and it has one unit per shop and window, numbered from 0: the shops in their
  -- order, and each one's windows in theirs.
  pub build_collection_plan-Covers :
      (config : CollectionConfig Obj) (now : Option (Datetime Instant)) (utcnow instant : Instant)
      (zone : Zone) (ws : List Window)
      → instant_of py now utcnow ≡ some instant
      → resolve_timezone py (text_or config.timezone "Asia/Shanghai") ≡ some zone
      → resolve_windows py config
          (py.upper (text_or config.granularity "DAY"))
          zone
          (py.astimezone zone instant)
        ≡ some ws
      → (units : List (CollectionPlanUnit Obj)) × (build_collection_plan py config now utcnow
          ≡ some units)
        × Covers config ws units
  unfolding build_collection_plan plan_units
  build_collection_plan-Covers config now utcnow instant zone ws at known resolved =
      let granularity = py.upper (text_or config.granularity "DAY") in
      let cursor = resolve_cursor py config in
      let shops = resolve_shop_ids config in
      (
        plan_units py config granularity cursor shops ws 0,
        ground (arith, at, known, planned-units shops),
        (
          length-plan_units config granularity cursor shops ws 0,
          λ i j s w e f.
              plan_units-get config granularity cursor shops ws 0 i j s w e f
              ∙ ap (λ n. some (unit_of py config granularity cursor s w n)) (omega arith),
        ),
      )
    where
      planned-units :
          (shops : List String)
          → planned py config
              (py.upper (text_or config.granularity "DAY"))
              zone
              (py.astimezone zone instant)
              shops
            ≡ some (
                plan_units py config
                  (py.upper (text_or config.granularity "DAY"))
                  (resolve_cursor py config)
                  shops
                  ws
                  0)
      planned-units [] = refl
      planned-units (s ∷ shops) = ground (arith, resolved)
