-- ===== src/Cache/Tests.antt =====
-- Runs of the cache, and its theorems at concrete inputs.
use douyin_data_dashboard.Prelude.{
  ℕ, ◌≤◌, ◌<◌, String, ◌≡◌, refl, ◌≢◌, ◌⊎◌, true, Option, none, some, [], ◌∷◌, arith, eq_iff,
}
use douyin_data_dashboard.Prelude.Int.{ℤ, pos}
use douyin_data_dashboard.Cache.Local.{LocalCache, set, get, delete, has_key, close}
use douyin_data_dashboard.Cache.Bounds.{IsValid, methods-IsValid}
use douyin_data_dashboard.Cache.Lookup.{view, get-view}
use douyin_data_dashboard.Cache.Write.{set-view_self, set-view_other, set_keeps_recent}

-- Two entries, at the bound.
abbrev two : LocalCache
two = record {
  store =
      ("a", record { value = "1"; expire_at = none })
      ∷ ("b", record { value = "2"; expire_at = some 50 })
      ∷ [];
  max_entries = 2;
}

two-IsValid : IsValid two
two-IsValid = record { room = omega arith; fits = omega arith; keys = (refl, (refl, tt)) }

-- The oldest entry goes.
abbrev third : LocalCache
third = record {
  store =
      ("b", record { value = "2"; expire_at = some 50 })
      ∷ ("c", record { value = "3"; expire_at = some 15 })
      ∷ [];
  max_entries = 2;
}

set-third : set 10 "c" "3" (some (pos 5)) two ≡ some third
unfolding set
set-third = refl

set_refuses_ttl : set 10 "c" "3" (some (pos 0)) two ≡ none
unfolding set
set_refuses_ttl = refl

-- After a read of "a" it is "b" that goes.
abbrev read_first : LocalCache
read_first = record {
  store =
      ("a", record { value = "1"; expire_at = none })
      ∷ ("c", record { value = "3"; expire_at = none })
      ∷ [];
  max_entries = 2;
}

set_after_get : set 11 "c" "3" none (get 10 "a" two).1 ≡ some read_first
unfolding set get
set_after_get = refl

expired_entry_is_dropped :
    (get 51 "b" two
      ≡ (none, record two { store = ("a", record { value = "1"; expire_at = none }) ∷ [] }))
    × ((has_key 50 "b" two).0 ≡ true)
    × ((delete "b" two).0 ≡ true)
unfolding get has_key delete
expired_entry_is_dropped = (refl, refl, refl)

methods-IsValid_example :
    ((value : String) (ttl : Option ℤ) (c' : LocalCache)
      → set 10 "c" value ttl two ≡ some c'
      → IsValid c')
    × IsValid (get 10 "c" two).1
    × IsValid (delete "c" two).1
    × IsValid (has_key 10 "c" two).1
    × IsValid (close two)
methods-IsValid_example = methods-IsValid 10 "c" two two-IsValid

get-view_example :
    ((get 51 "b" two).0 ≡ none)
    × ((later : ℕ) (j : String) → 51 ≤ later → view later (get 51 "b" two).1 j ≡ view later two j)
get-view_example = get-view 51 "b" two

set-view_self_example : view 16 third "c" ≡ none
set-view_self_example = set-view_self 10 "c" "3" (some (pos 5)) two third two-IsValid set-third 16

b_not_c : ◌≢◌ {A = String} "b" "c"
b_not_c = ground (arith, eq_iff "b" "c")

set-view_other_example :
    ((view 10 third "b" ≡ view 10 two "b") ⊎ (view 10 third "b" ≡ none))
    × (2 < 2 → view 10 third "b" ≡ view 10 two "b")
set-view_other_example =
    set-view_other 10 "c" "3" (some (pos 5)) two third two-IsValid set-third 10 "b" (omega arith)
      b_not_c

a_not_c : ◌≢◌ {A = String} "a" "c"
a_not_c = ground (arith, eq_iff "a" "c")

get_first : (get 10 "a" two).0 ≡ some "1"
unfolding get
get_first = refl

set_keeps_recent_example : view 11 read_first "a" ≡ some "1"
set_keeps_recent_example =
    set_keeps_recent 10 11 "c" "a" "3" "1" none two read_first two-IsValid (omega arith) a_not_c
      (omega arith) get_first refl set_after_get
