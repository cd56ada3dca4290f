-- ===== src/Cache/Bounds.antt =====
-- The bound and the keys of the cache of src/cache/local.py.
use mathlib.Core.Path.{subst}
use mathlib.Core.Option.{some-injective}
use douyin_data_dashboard.Prelude.{
  ℕ, ◌≤◌, ◌<◌, String, ◌≡◌, refl, ◌∙◌, inl, inr, Bool, true, false, not, Option, none, some, [],
  ◌∷◌, ◌++◌, arith, str_eq, eq_iff, eq_refl, ltb, leb, if◌then◌else◌, Bool-cases, Option-cases,
  length, keep, length-append, length-keep,
}
use douyin_data_dashboard.Prelude.Int.{ℤ, leb_ℤ, pos}
use douyin_data_dashboard.Cache.Local.{
  Entry, Store, LocalCache, init, is_expired, lookup, pop, trim, compact, cleanup_expired,
  move_to_end, set, get, delete, has_key, close,
}

-- No key stands twice.
abbrev pub HasKeysOnce : Store → Type 0
HasKeysOnce [] = Unit
HasKeysOnce ((k, e) ∷ s) = (lookup k s ≡ none) × HasKeysOnce s

pub record IsValid (c : LocalCache) : Type 0 where
  pub room : 1 ≤ c.max_entries
  pub fits : length c.store ≤ c.max_entries
  pub keys : HasKeysOnce c.store

pub trim-fits : (n : ℕ) (s : Store) → length (trim n s) ≤ n
unfolding trim
trim-fits n [] = omega arith
trim-fits n (item ∷ s) = ground (arith, trim-fits n s)

trim-keys : (n : ℕ) (s : Store) → HasKeysOnce s → HasKeysOnce (trim n s)
unfolding trim
trim-keys n [] h = tt
trim-keys n ((k, e) ∷ s) h = elim (Bool-cases (ltb n (length ((k, e) ∷ s)))) [
  | inl q ↦ rw q (trim-keys n s h.1)
  | inr q ↦ rw q h
]

pub lookup-keep-none :
    (p : String × Entry → Bool) (k : String) (s : Store)
    → lookup k s ≡ none
    → lookup k (keep p s) ≡ none
lookup-keep-none p k [] h = refl
lookup-keep-none p k ((j, e) ∷ s) h = ground (arith, lookup-keep-none p k s)

pub keep-keys : (p : String × Entry → Bool) (s : Store) → HasKeysOnce s → HasKeysOnce (keep p s)
keep-keys p [] h = tt
keep-keys p ((k, e) ∷ s) h = elim (Bool-cases (p (k, e))) [
  | inl q ↦ rw q (lookup-keep-none p k s h.0, keep-keys p s h.1)
  | inr q ↦ rw q (keep-keys p s h.1)
]

pub lookup-pop :
    (key j : String) (s : Store)
    → lookup j (pop key s) ≡ (if str_eq key j then none else lookup j s)
lookup-pop key j [] = ground arith
lookup-pop key j ((k, e) ∷ s) =
    ground (arith, lookup-pop key j s, eq_iff k key, eq_iff k j, eq_iff key j)

pub lookup-append :
    (j : String) (s t : Store)
    → lookup j (s ++ t) ≡ (elim (lookup j s) [ none ↦ lookup j t | some e ↦ some e ])
lookup-append j [] t = refl
lookup-append j ((k, e) ∷ s) t = ground (arith, lookup-append j s t)

append-keys :
    (key : String) (e : Entry) (s : Store)
    → lookup key s ≡ none
    → HasKeysOnce s
    → HasKeysOnce (s ++ (key, e) ∷ [])
append-keys key e [] n h = (refl, tt)
append-keys key e ((k, f) ∷ s) n h = (
  ground (arith, lookup-append k s ((key, e) ∷ []), eq_iff k key, eq_iff key k, h.0),
  append-keys key e s (ground arith) h.1,
)

pub put_last-keys :
    (key : String) (e : Entry) (s : Store)
    → HasKeysOnce s
    → HasKeysOnce (pop key s ++ (key, e) ∷ [])
put_last-keys key e s h =
    append-keys key e (pop key s) (lookup-pop key key s ∙ ground (arith, eq_refl key))
      (keep-keys _ s h)

-- Popping an entry that is there makes room for it at the end.
pop-lt :
    (key : String) (s : Store) (e : Entry) → lookup key s ≡ some e → length (pop key s) < length s
pop-lt key [] e h = cc
pop-lt key ((k, f) ∷ s) e h =
    ground
      (arith, pop-lt key s e, length-keep (λ (item : String × Entry). not (str_eq item.0 key)) s)

compact-IsValid :
    (now : ℕ) (c : LocalCache) → 1 ≤ c.max_entries → HasKeysOnce c.store → IsValid (compact now c)
unfolding compact
compact-IsValid now c room h = elim (Bool-cases (leb (length c.store) c.max_entries)) [
  | inl q ↦ rw q (record { room = room; fits = ground arith; keys = h })
  | inr q ↦
      rw q (record { room = room; fits = trim-fits _ _; keys = trim-keys _ _ (keep-keys _ _ h) })
]

-- A new cache is valid, whatever bound is asked for.
pub init-IsValid : (n : ℤ) → IsValid (init n)
unfolding init
init-IsValid n = record { room = omega arith; fits = omega arith; keys = tt }

popped-IsValid :
    (key : String) (c : LocalCache) → IsValid c → IsValid (record c { store = pop key c.store })
popped-IsValid key c v = record {
  room = v.room;
  fits = omega (arith, length-keep (λ (item : String × Entry). not (str_eq item.0 key)) c.store);
  keys = keep-keys _ _ v.keys;
}

moved-IsValid :
    (key : String) (e : Entry) (c : LocalCache)
    → lookup key c.store ≡ some e
    → IsValid c
    → IsValid (move_to_end key e c)
moved-IsValid key e c h v = record {
  room = v.room;
  fits = omega (arith, length-append (pop key c.store) ((key, e) ∷ []), pop-lt key c.store e h);
  keys = put_last-keys key e c.store v.keys;
}

pub cleanup_expired-IsValid :
    (now : ℕ) (key : String) (c : LocalCache) → IsValid c → IsValid (cleanup_expired now key c)
unfolding cleanup_expired
cleanup_expired-IsValid now key c v = elim (Option-cases (lookup key c.store)) [
  | inl e ↦ rw (e, cleanup_expired) v
  | inr (x, e) ↦
      rw (e, cleanup_expired)
        (elim (Bool-cases (is_expired now x.expire_at)) [
          | inl q ↦ rw q (popped-IsValid key c v)
          | inr q ↦ rw q v
        ])
]

-- What `get` and `exists` do after the clean-up.
touched-IsValid :
    {A : Type 0} (o : Option Entry) (key : String) (c : LocalCache) (a : A) (f : Entry → A)
    → lookup key c.store ≡ o
    → IsValid c
    → IsValid
        (let r : A × LocalCache = elim o [ none ↦ (a, c) | some e ↦ (f e, move_to_end key e c) ] in
          r).1
touched-IsValid none key c a f h v = v
touched-IsValid (some e) key c a f h v = moved-IsValid key e c h v

set-IsValid :
    (now : ℕ) (key value : String) (ttl : Option ℤ) (c c' : LocalCache)
    → IsValid c
    → set now key value ttl c ≡ some c'
    → IsValid c'
unfolding set
set-IsValid now key value none c c' v h =
    subst IsValid (some-injective _ _ h)
      (compact-IsValid now _ v.room (put_last-keys key _ c.store v.keys))
set-IsValid now key value (some t) c c' v h = elim (Bool-cases (leb_ℤ t (pos 0))) [
  | inl q ↦ absurd (ground (arith, h, q))
  | inr q ↦
      subst IsValid (some-injective _ _ (rw q at h))
        (compact-IsValid now _ v.room (put_last-keys key _ c.store v.keys))
]

-- From a valid cache, every method that returns leaves the number of entries within the bound, and
-- each key once.
pub methods-IsValid :
    (now : ℕ) (key : String) (c : LocalCache)
    → IsValid c
    → ((value : String) (ttl : Option ℤ) (c' : LocalCache)
        → set now key value ttl c ≡ some c'
        → IsValid c')
      × IsValid (get now key c).1
      × IsValid (delete key c).1
      × IsValid (has_key now key c).1
      × IsValid (close c)
unfolding set get delete has_key close
methods-IsValid now key c v = (
  (λ value ttl c' h. set-IsValid now key value ttl c c' v h),
  touched-IsValid _ key (cleanup_expired now key c) none (λ e. some e.value) refl
      (cleanup_expired-IsValid now key c v),
  popped-IsValid key c v,
  touched-IsValid _ key (cleanup_expired now key c) false (λ e. true) refl
      (cleanup_expired-IsValid now key c v),
  record { room = v.room; fits = omega arith; keys = tt },
)
