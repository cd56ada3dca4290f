-- ===== src/Cache/Write.antt =====
-- What `set` of src/cache/local.py does to later reads, and which entries it may evict.
use mathlib.Core.Path.{subst}
use mathlib.Core.Option
use mathlib.Core.Option.{some-injective}
use mathlib.Core.List.{append_assoc}
use douyin_data_dashboard.Prelude.{
  ℕ, ◌+◌, ◌≤◌, ◌<◌, String, ◌≡◌, refl, sym, ap, ◌∙◌, ◌≢◌, ◌⊎◌, inl, inr, false, not, Option, none,
  some, [], ◌∷◌, ◌++◌, arith, str_eq, eq_iff, eq_refl, leb, if◌then◌else◌, Bool-cases, length, keep,
  length-append, length-keep, keep-append,
}
use douyin_data_dashboard.Prelude.Int.{ℤ, pos_part, leb_ℤ, pos}
use douyin_data_dashboard.Cache.Local.{
  Entry, Store, LocalCache, is_expired, lookup, pop, trim, compact, set, get,
}
use douyin_data_dashboard.Cache.Bounds.{
  HasKeysOnce, IsValid, lookup-pop, lookup-append, keep-keys, lookup-keep-none, put_last-keys,
}
use douyin_data_dashboard.Cache.Lookup.{
  get-IsHit, get-view, live, view, trim-append, lookup-trim, view-sweep,
}

-- The entry that `set` writes, and the store before it is compacted.
abbrev pub written : ℕ → String → Option ℤ → Entry
written now value ttl = record { value = value; expire_at = Option.map (λ t. now + pos_part t) ttl }

abbrev pub placed : ℕ → String → String → Option ℤ → LocalCache → LocalCache
placed now key value ttl c = record c {
  store = pop key c.store ++ (key, written now value ttl) ∷ [];
}

set-placed :
    (now : ℕ) (key value : String) (ttl : Option ℤ) (c c' : LocalCache)
    → set now key value ttl c ≡ some c'
    → compact now (placed now key value ttl c) ≡ c'
unfolding set
set-placed now key value none c c' h = some-injective _ _ h
set-placed now key value (some t) c c' h = elim (Bool-cases (leb_ℤ t (pos 0))) [
  | inl q ↦ absurd (ground (arith, h, q))
  | inr q ↦ some-injective _ _ (rw q at h)
]

written_alive :
    (now : ℕ) (value : String) (ttl : Option ℤ)
    → is_expired now (written now value ttl).expire_at ≡ false
written_alive now value none = refl
written_alive now value (some t) = ground arith

lookup-placed :
    (now : ℕ) (key value : String) (ttl : Option ℤ) (c : LocalCache) (j : String)
    → lookup j (placed now key value ttl c).store
      ≡ (if str_eq key j then some (written now value ttl) else lookup j c.store)
lookup-placed now key value ttl c j =
    lookup-append j (pop key c.store) _ ∙ ground (arith, lookup-pop key j c.store)

compact-view :
    (now later : ℕ) (c : LocalCache) (j : String)
    → now ≤ later
    → HasKeysOnce c.store
    → (view later (compact now c) j ≡ view later c j) ⊎ (view later (compact now c) j ≡ none)
unfolding compact
compact-view now later c j le h = elim (Bool-cases (leb (length c.store) c.max_entries)) [
  | inl q ↦ rw q (inl refl)
  | inr q ↦
      rw q
        (elim (lookup-trim c.max_entries _ j
          (keep-keys (λ item. not (is_expired now item.1.expire_at)) c.store h)) [
            | inl e ↦ inl (ap (live later) e ∙ view-sweep now later c.store j le h)
            | inr e ↦ inr (ap (live later) e)
          ])
]

compact_fitting : (now : ℕ) (c : LocalCache) → length c.store ≤ c.max_entries → compact now c ≡ c
unfolding compact
compact_fitting now c h = ground arith

-- The last entries that fit in the bound survive, if they are alive.
compact_last :
    (now : ℕ) (n : ℕ) (s t : Store) (j : String)
    → length t ≤ n
    → keep (λ item. not (is_expired now item.1.expire_at)) t ≡ t
    → lookup j s ≡ none
    → lookup j (compact now (record { store = s ++ t; max_entries = n })).store ≡ lookup j t
unfolding compact
compact_last now n s t j fits alive out = elim (Bool-cases (leb (length (s ++ t)) n)) [
  | inl q ↦ rw q (lookup-append j s t ∙ ground (arith, out))
  | inr q ↦
      let p = λ (item : String × Entry). not (is_expired now item.1.expire_at) in
      let (s', e, f) = trim-append n (keep p s) t fits in
      rw q (
        ap (λ x. lookup j (trim n x)) (keep-append p s t ∙ ap (λ x. keep p s ++ x) alive)
        ∙ ap (lookup j) e
        ∙ lookup-append j s' t
        ∙ ground (arith, f j (lookup-keep-none p j s out)))
]

module _ (now : ℕ) (key value : String) (ttl : Option ℤ) (c c' : LocalCache) (v : IsValid c)
    (done : set now key value ttl c ≡ some c') where
  lookup-set_self : lookup key c'.store ≡ some (written now value ttl)
  lookup-set_self =
      ap (λ x. lookup key x.store) (sym (set-placed now key value ttl c c' done))
      ∙ compact_last now c.max_entries (pop key c.store) ((key, written now value ttl) ∷ []) key
          v.room (rw (written_alive now value ttl)) (lookup-pop key key c.store ∙ rw (eq_refl key))
      ∙ rw (eq_refl key)

  -- After a `set` that returns, on a valid cache, the key reads the value until its time to live is
  -- over, and is gone from then on.
  pub set-view_self :
      (later : ℕ)
      → view later c' key
        ≡ (if is_expired later (Option.map (λ t. now + pos_part t) ttl) then none else some value)
  set-view_self later = ap (live later) lookup-set_self

  placed-view :
      (later : ℕ) (j : String)
      → j ≢ key
      → view later (placed now key value ttl c) j ≡ view later c j
  placed-view later j ne =
      ap (live later) (lookup-placed now key value ttl c j ∙ ground (arith, eq_iff key j))

  placed-fits :
      length c.store < c.max_entries → length (placed now key value ttl c).store ≤ c.max_entries
  placed-fits room = omega (
    arith,
    length-append (pop key c.store) ((key, written now value ttl) ∷ []),
    length-keep (λ (item : String × Entry). not (str_eq item.0 key)) c.store,
  )

  -- After a `set` that returns, on a valid cache, another key reads as before or is gone, at any
  -- later time. With room for one more entry it reads as before.
  pub set-view_other :
      (later : ℕ) (j : String)
      → now ≤ later
      → j ≢ key
      → ((view later c' j ≡ view later c j) ⊎ (view later c' j ≡ none))
        × (length c.store < c.max_entries → view later c' j ≡ view later c j)
  set-view_other later j le ne =
      let same = set-placed now key value ttl c c' done in
      (
        subst (λ x. (view later x j ≡ view later c j) ⊎ (view later x j ≡ none)) same
            (elim (compact-view now later (placed now key value ttl c) j le
              (put_last-keys key _ c.store v.keys)) [
                | inl e ↦ inl (e ∙ placed-view later j ne)
                | inr e ↦ inr e
              ]),
        λ room.
            ap (λ x. view later x j) (sym same ∙ compact_fitting now _ (placed-fits room))
            ∙ placed-view later j ne,
      )

abbrev stored_at : ℕ → Store → LocalCache
stored_at n s = record { store = s; max_entries = n }

placed_after_hit :
    (later : ℕ) (key r value : String) (ttl : Option ℤ) (b : Store) (e : Entry) (n : ℕ)
    → r ≢ key
    → placed later key value ttl (record { store = b ++ (r, e) ∷ []; max_entries = n }) ≡ record {
      store = pop key b ++ (r, e) ∷ (key, written later value ttl) ∷ [];
      max_entries = n;
    }
placed_after_hit later key r value ttl b e n ne =
    let other : str_eq r key ≡ false = ground (arith, eq_iff r key) in
    ap (stored_at n) (
      ap (λ (s : Store). s ++ (key, written later value ttl) ∷ [])
        (keep-append (λ (item : String × Entry). not (str_eq item.0 key)) b ((r, e) ∷ [])
          ∙ rw other)
      ∙ append_assoc (pop key b) ((r, e) ∷ []) ((key, written later value ttl) ∷ []))

live_alive :
    (later : ℕ) (e : Entry) (x : String)
    → live later (some e) ≡ some x
    → is_expired later e.expire_at ≡ false
live_alive later e x h = ground arith

-- In a valid cache with a bound of two or more, the entry that was read last is not the one that a
-- `set` of another key evicts: while it is alive, it still reads its value after that `set`.
pub set_keeps_recent :
    (now later : ℕ) (key recent value x : String) (ttl : Option ℤ) (c c' : LocalCache)
    → IsValid c
    → 2 ≤ c.max_entries
    → recent ≢ key
    → now ≤ later
    → (get now recent c).0 ≡ some x
    → view later c recent ≡ some x
    → set later key value ttl (get now recent c).1 ≡ some c'
    → view later c' recent ≡ some x
set_keeps_recent now later key recent value x ttl c c' v room ne le hit fresh done =
    let h = get-IsHit now recent x c hit in
    let e = h.entry in
    let w = written later value ttl in
    let found : lookup recent (h.before ++ (recent, e) ∷ []) ≡ some e =
      lookup-append recent h.before ((recent, e) ∷ []) ∙ ground (arith, h.once, eq_refl recent) in
    let read : live later (some e) ≡ some x =
      ap (live later) (sym found)
      ∙ ap (λ r. view later r recent) (sym h.shape)
      ∙ (get-view now recent c).1 later recent le
      ∙ fresh in
    let kept : lookup recent c'.store ≡ some e =
      ap (λ r. lookup recent r.store)
        (sym (set-placed later key value ttl (get now recent c).1 c' done)
          ∙ ap (λ r. compact later (placed later key value ttl r)) h.shape
          ∙ ap (compact later)
              (placed_after_hit later key recent value ttl h.before e c.max_entries ne))
      ∙ compact_last later c.max_entries (pop key h.before) ((recent, e) ∷ (key, w) ∷ []) recent
          room (rw (live_alive later e x read, written_alive later value ttl))
          (lookup-pop key recent h.before ∙ ground (arith, h.once))
      ∙ rw (eq_refl recent) in
    ap (live later) kept ∙ read
