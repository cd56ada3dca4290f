-- ===== src/Prelude/Dict.antt =====
-- A Python dict with text keys, in insertion order, and what its readers see after a write.
use mathlib.Core.Option.{Option, none, some}
use mathlib.Core.Bool.{Bool, not}
use mathlib.Core.Path.{◌≡◌, refl}
use mathlib.Core.List.{List, [], ◌∷◌, map}
use Prim.Native.String.{String}
use native.Mathlib.Omega.{arith}
use text.Mathlib.Text.{◌==◌ as str_eq}
use text.Mathlib.TextEquality.{eq_iff}
use douyin_data_dashboard.Prelude.Tests.{if◌then◌else◌, is_some}
use douyin_data_dashboard.Prelude.Lists.{keep}

abbrev pub Dict {ℓ} : Type ℓ → Type ℓ
Dict V = List (String × V)

module _ {ℓ} {V : Type ℓ} where
  -- `d.get(key)`
  abbrev pub lookup : String → Dict V → Option V
  lookup key [] = none
  lookup key ((k, v) ∷ d) = if str_eq k key then some v else lookup key d

  -- `key in d`
  abbrev pub has_key : String → Dict V → Bool
  has_key key d = is_some (lookup key d)

  -- `d[key] = value`: a key that is there keeps its place.
  abbrev pub put : String → V → Dict V → Dict V
  put key value [] = (key, value) ∷ []
  put key value ((k, v) ∷ d) = if str_eq k key then (k, value) ∷ d else (k, v) ∷ put key value d

  -- `d.pop(key, None)`
  abbrev pub pop : String → Dict V → Dict V
  pop key d = keep (λ (item : String × V). not (str_eq item.0 key)) d

  -- `d.update(other)`
  abbrev pub update : Dict V → Dict V → Dict V
  update d [] = d
  update d ((k, v) ∷ other) = update (put k v d) other

  abbrev pub keys : Dict V → List String
  keys d = map (λ (item : String × V). item.0) d

  abbrev pub values : Dict V → List V
  values d = map (λ (item : String × V). item.1) d

  pub lookup-put :
      (key j : String) (value : V) (d : Dict V)
      → lookup j (put key value d) ≡ (if str_eq key j then some value else lookup j d)
  lookup-put key j value [] = refl
  lookup-put key j value ((k, v) ∷ d) =
      ground (arith, eq_iff key j, eq_iff k key, eq_iff k j, lookup-put key j value d)

  pub lookup-pop :
      (key j : String) (d : Dict V)
      → lookup j (pop key d) ≡ (if str_eq key j then none else lookup j d)
  lookup-pop key j [] = ground arith
  lookup-pop key j ((k, v) ∷ d) =
      ground (arith, eq_iff key j, eq_iff k key, eq_iff k j, lookup-pop key j d)
