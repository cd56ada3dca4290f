-- ===== src/Cache/Local.antt =====
-- `LocalCache` of src/cache/local.py. Each method takes the value of `time()`, in a unit fine enough
-- for every time it meets; the clock stands still within one call.
use mathlib.Core.Option
use douyin_data_dashboard.Prelude.{
  ℕ, ◌+◌, max, String, Bool, true, false, not, Option, none, some, List, [], ◌∷◌, ◌++◌, str_eq, ltb,
  leb, if◌then◌else◌, is_some, length, keep,
}
use douyin_data_dashboard.Prelude.Int.{ℤ, pos_part, leb_ℤ, pos}

pub record Entry : Type 0 where
  pub value : String
  pub expire_at : Option ℕ

-- The `OrderedDict`, the oldest entry first.
abbrev pub Store : Type 0
Store = List (String × Entry)

pub record LocalCache : Type 0 where
  pub store : Store
  pub max_entries : ℕ

-- `LocalCache(max_entries)`
unfoldable pub init : ℤ → LocalCache
init max_entries = record { store = []; max_entries = max (pos_part max_entries) 1 }

abbrev pub is_expired : ℕ → Option ℕ → Bool
is_expired now none = false
is_expired now (some expire_at) = ltb expire_at now

-- `store.get(key)`
abbrev pub lookup : String → Store → Option Entry
lookup key [] = none
lookup key ((k, e) ∷ s) = if str_eq k key then some e else lookup key s

-- `store.pop(key, None)`
abbrev pub pop : String → Store → Store
pop key s = keep (λ (item : String × Entry). not (str_eq item.0 key)) s

-- `while len(store) > max_entries: store.popitem(last=False)`
unfoldable pub trim : ℕ → Store → Store
trim n [] = []
trim n (item ∷ s) = if ltb n (length (item ∷ s)) then trim n s else item ∷ s

-- `_compact`
unfoldable pub compact : ℕ → LocalCache → LocalCache
unfolding trim
compact now c = if leb (length c.store) c.max_entries then c else record c {
  store = trim c.max_entries (keep (λ item. not (is_expired now item.1.expire_at)) c.store);
}

-- `_cleanup_expired`
unfoldable pub cleanup_expired : ℕ → String → LocalCache → LocalCache
cleanup_expired now key c = elim (lookup key c.store) [
  | none ↦ c
  | some e ↦ if is_expired now e.expire_at then record c { store = pop key c.store } else c
]

-- `store.move_to_end(key)`, of an entry that is there
abbrev pub move_to_end : String → Entry → LocalCache → LocalCache
move_to_end key e c = record c { store = pop key c.store ++ (key, e) ∷ [] }

-- `set`; `none` is the `ValueError` of a ttl that is not positive.
unfoldable pub set : ℕ → String → String → Option ℤ → LocalCache → Option LocalCache
unfolding compact
set now key value ttl c =
    if elim ttl [ none ↦ false | some t ↦ leb_ℤ t (pos 0) ]
    then none
    else let expire_at = Option.map (λ t. now + pos_part t) ttl in
      some (
        compact now (record c {
          store = pop key c.store ++ (key, record { value = value; expire_at = expire_at }) ∷ [];
        }))

-- `get`, with the cache that it leaves
unfoldable pub get : ℕ → String → LocalCache → Option String × LocalCache
unfolding cleanup_expired
get now key c =
    let c' = cleanup_expired now key c in
    elim (lookup key c'.store) [ none ↦ (none, c') | some e ↦ (some e.value, move_to_end key e c') ]

unfoldable pub delete : String → LocalCache → Bool × LocalCache
delete key c = (is_some (lookup key c.store), record c { store = pop key c.store })

-- `exists`
unfoldable pub has_key : ℕ → String → LocalCache → Bool × LocalCache
unfolding cleanup_expired
has_key now key c =
    let c' = cleanup_expired now key c in
    elim (lookup key c'.store) [ none ↦ (false, c') | some e ↦ (true, move_to_end key e c') ]

unfoldable pub close : LocalCache → LocalCache
close c = record c { store = [] }
