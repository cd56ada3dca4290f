-- ===== src/Cache/Lookup.antt =====
-- What readers of the cache of src/cache/local.py see after each call.
use mathlib.Core.Path.{subst}
use mathlib.Core.Option.{some-injective}
use mathlib.Core.Option
use douyin_data_dashboard.Prelude.{
  ℕ, ◌≤◌, String, ◌≡◌, refl, ap, ◌∙◌, ◌⊎◌, inl, inr, true, not, Option, none, some, [], ◌∷◌, ◌++◌,
  arith, str_eq, eq_iff, eq_refl, ltb, if◌then◌else◌, Bool-cases, Option-cases, length, keep,
}
use douyin_data_dashboard.Cache.Local.{
  Entry, Store, LocalCache, is_expired, lookup, pop, trim, cleanup_expired, move_to_end, get,
}
use douyin_data_dashboard.Cache.Bounds.{HasKeysOnce, lookup-pop, lookup-append}

-- The value that an entry has for a reader at the time `now`.
abbrev pub live : ℕ → Option Entry → Option String
live now none = none
live now (some e) = if is_expired now e.expire_at then none else some e.value

abbrev pub view : ℕ → LocalCache → String → Option String
view now c key = live now (lookup key c.store)

expired_later :
    (now later : ℕ) (o : Option ℕ)
    → now ≤ later
    → is_expired now o ≡ true
    → is_expired later o ≡ true
expired_later now later none le h = cc
expired_later now later (some t) le h = ground arith

lookup-cleanup :
    (now : ℕ) (key j : String) (c : LocalCache) (later : ℕ)
    → now ≤ later
    → view later (cleanup_expired now key c) j ≡ view later c j
unfolding cleanup_expired
lookup-cleanup now key j c later le = elim (Option-cases (lookup key c.store)) [
  | inl e ↦ rw (e, cleanup_expired)
  | inr (x, e) ↦ elim (Bool-cases (is_expired now x.expire_at)) [
    | inl q ↦
        rw (e, q, cleanup_expired)
          (rw (lookup-pop key j c.store)
            (ground (arith, eq_iff key j, e, expired_later now later x.expire_at le q)))
    | inr q ↦ rw (e, q, cleanup_expired)
  ]
]

lookup-move_to_end :
    (key j : String) (e : Entry) (c : LocalCache)
    → lookup key c.store ≡ some e
    → lookup j (move_to_end key e c).store ≡ lookup j c.store
lookup-move_to_end key j e c h =
    lookup-append j (pop key c.store) ((key, e) ∷ [])
    ∙ ground (arith, lookup-pop key j c.store, eq_iff key j, h)

touched-view :
    (o : Option Entry) (key j : String) (c : LocalCache) (later : ℕ)
    → lookup key c.store ≡ o
    → view later
        (let r : Option String × LocalCache = elim o [
          | none ↦ (none, c)
          | some e ↦ (some e.value, move_to_end key e c)
        ] in
          r).1
        j
      ≡ view later c j
touched-view none key j c later h = refl
touched-view (some e) key j c later h = ap (live later) (lookup-move_to_end key j e c h)

touched-value :
    (o : Option Entry) (key : String) (c : LocalCache)
    → (let r : Option String × LocalCache = elim o [
      | none ↦ (none, c)
      | some e ↦ (some e.value, move_to_end key e c)
    ] in
        r).0
      ≡ Option.map (λ (e : Entry). e.value) o
touched-value none key c = refl
touched-value (some e) key c = refl

value-cleanup :
    (now : ℕ) (key : String) (c : LocalCache)
    → Option.map (λ (e : Entry). e.value) (lookup key (cleanup_expired now key c).store)
      ≡ view now c key
unfolding cleanup_expired
value-cleanup now key c = elim (Option-cases (lookup key c.store)) [
  | inl e ↦ rw (e, cleanup_expired) (rw e)
  | inr (x, e) ↦ elim (Bool-cases (is_expired now x.expire_at)) [
    | inl q ↦
        rw (e, q, cleanup_expired)
          (rw (lookup-pop key key c.store) (ground (arith, eq_refl key, e, q)))
    | inr q ↦ rw (e, q, cleanup_expired) (rw e)
  ]
]

-- `get` returns the live value of its key, and no later reader of any key sees a difference.
pub get-view :
    (now : ℕ) (key : String) (c : LocalCache)
    → ((get now key c).0 ≡ view now c key)
      × ((later : ℕ) (j : String) → now ≤ later → view later (get now key c).1 j ≡ view later c j)
unfolding get
get-view now key c =
    let o = lookup key (cleanup_expired now key c).store in
    (
      touched-value o key (cleanup_expired now key c) ∙ value-cleanup now key c,
      λ later j le.
          touched-view o key j (cleanup_expired now key c) later refl
          ∙ lookup-cleanup now key j c later le,
    )

trim_fitting : (n : ℕ) (s : Store) → length s ≤ n → trim n s ≡ s
unfolding trim
trim_fitting n [] h = refl
trim_fitting n (item ∷ s) h = ground arith

-- Trimming takes entries from the front only, and leaves the last `n`.
pub trim-append :
    (n : ℕ) (s t : Store)
    → length t ≤ n
    → (s' : Store) × (trim n (s ++ t) ≡ s' ++ t)
      × ((j : String) → lookup j s ≡ none → lookup j s' ≡ none)
unfolding trim
trim-append n [] t h = ([], trim_fitting n t h, λ j e. refl)
trim-append n ((k, e) ∷ s) t h = elim (Bool-cases (ltb n (length ((k, e) ∷ (s ++ t))))) [
  | inl q ↦ let (s', p, f) = trim-append n s t h in (s', rw (q, p), λ j g. f j (ground (arith, g)))
  | inr q ↦ ((k, e) ∷ s, rw q, λ j g. g)
]

lookup-trim-none : (n : ℕ) (s : Store) (j : String) → lookup j s ≡ none → lookup j (trim n s) ≡ none
unfolding trim
lookup-trim-none n [] j h = refl
lookup-trim-none n ((k, e) ∷ s) j h = ground (arith, h, lookup-trim-none n s j)

pub lookup-trim :
    (n : ℕ) (s : Store) (j : String)
    → HasKeysOnce s
    → (lookup j (trim n s) ≡ lookup j s) ⊎ (lookup j (trim n s) ≡ none)
unfolding trim
lookup-trim n [] j h = inl refl
lookup-trim n ((k, e) ∷ s) j h = elim (Bool-cases (ltb n (length ((k, e) ∷ s)))) [
  | inl q ↦ rw q (elim (Bool-cases (str_eq k j)) [
    | inl same ↦
        inr (lookup-trim-none n s j (subst (λ x. lookup x s ≡ none) ((eq_iff k j).0 same) h.0))
    | inr other ↦ rw other (lookup-trim n s j h.1)
  ])
  | inr q ↦ rw q (inl refl)
]

-- Sweeping the expired entries out is not seen by a later reader.
pub view-sweep :
    (now later : ℕ) (s : Store) (j : String)
    → now ≤ later
    → HasKeysOnce s
    → live later (lookup j (keep (λ item. not (is_expired now item.1.expire_at)) s))
      ≡ live later (lookup j s)
view-sweep now later [] j le h = refl
view-sweep now later ((k, e) ∷ s) j le h = elim (Bool-cases (is_expired now e.expire_at)) [
  | inl q ↦ ground (
    arith,
    q,
    eq_iff k j,
    view-sweep now later s j le h.1,
    h.0,
    expired_later now later e.expire_at le q,
  )
  | inr q ↦ ground (arith, q, view-sweep now later s j le h.1)
]

-- A hit leaves its entry at the end, and nowhere else.
pub record IsHit (k : String) (n : ℕ) (r : LocalCache) : Type 0 where
  pub before : Store
  pub entry : Entry
  pub shape : r ≡ record { store = before ++ (k, entry) ∷ []; max_entries = n }
  pub once : lookup k before ≡ none

touched-IsHit :
    (o : Option Entry) (key x : String) (c : LocalCache)
    → (let r : Option String × LocalCache = elim o [
      | none ↦ (none, c)
      | some e ↦ (some e.value, move_to_end key e c)
    ] in
        r).0
      ≡ some x
    → IsHit key c.max_entries
        (let r : Option String × LocalCache = elim o [
          | none ↦ (none, c)
          | some e ↦ (some e.value, move_to_end key e c)
        ] in
          r).1
touched-IsHit none key x c h = cc
touched-IsHit (some e) key x c h = record {
  before = pop key c.store;
  entry = e;
  shape = refl;
  once = lookup-pop key key c.store ∙ rw (eq_refl key);
}

max_entries-cleanup :
    (now : ℕ) (key : String) (c : LocalCache)
    → (cleanup_expired now key c).max_entries ≡ c.max_entries
unfolding cleanup_expired
max_entries-cleanup now key c = ground arith

pub get-IsHit :
    (now : ℕ) (key x : String) (c : LocalCache)
    → (get now key c).0 ≡ some x
    → IsHit key c.max_entries (get now key c).1
unfolding get
get-IsHit now key x c h =
    subst (λ n. IsHit key n (get now key c).1) (max_entries-cleanup now key c)
      (touched-IsHit (lookup key (cleanup_expired now key c).store) key x
        (cleanup_expired now key c) h)
