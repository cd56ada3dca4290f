-- ===== src/Prelude/Lists.antt =====
-- Lists over the native numbers: lengths, tests over all or some elements, membership of texts.
use Prim.Native.Nat.{ℕ, zero, suc, ◌+◌, ◌≤◌, ◌<◌}
use Prim.Native.String.{String}
use mathlib.Core.Path.{◌≡◌, refl, sym, ap, ◌∙◌}
use mathlib.Core.Logic.{◌↔◌, inl, inr}
use mathlib.Core.Bool.{Bool, true, false, ◌&&◌, ◌||◌}
use mathlib.Core.Option.{Option, none, some}
use mathlib.Core.List.{Memᴰ, List, [], ◌∷◌, ◌++◌, map}
use native.Mathlib.Omega.{arith}
use text.Mathlib.Text.{◌==◌ as str_eq}
use text.Mathlib.TextEquality.{eq_iff}
use douyin_data_dashboard.Prelude.Tests.{Bool-cases, if◌then◌else◌}

module _ {ℓ} {A : Type ℓ} where
  abbrev pub length : List A → ℕ
  length [] = 0
  length (x ∷ xs) = suc (length xs)

  abbrev pub get_elem? : List A → ℕ → Option A
  get_elem? [] i = none
  get_elem? (x ∷ xs) zero = some x
  get_elem? (x ∷ xs) (suc i) = get_elem? xs i

  abbrev pub all : List A → (A → Bool) → Bool
  all [] p = true
  all (x ∷ xs) p = p x && all xs p

  abbrev pub any : List A → (A → Bool) → Bool
  any [] p = false
  any (x ∷ xs) p = p x || any xs p

  -- `[x for x in xs if p(x)]`
  abbrev pub keep : (A → Bool) → List A → List A
  keep p [] = []
  keep p (x ∷ xs) = if p x then x ∷ keep p xs else keep p xs

  pub length-append : (xs ys : List A) → length (xs ++ ys) ≡ length xs + length ys
  length-append [] ys = omega arith
  length-append (x ∷ xs) ys = omega (arith, length-append xs ys)

  pub length-keep : (p : A → Bool) (xs : List A) → length (keep p xs) ≤ length xs
  length-keep p [] = omega arith
  length-keep p (x ∷ xs) = ground (arith, length-keep p xs)

  pub keep-append : (p : A → Bool) (xs ys : List A) → keep p (xs ++ ys) ≡ keep p xs ++ keep p ys
  keep-append p [] ys = refl
  keep-append p (x ∷ xs) ys = ground (arith, keep-append p xs ys)

-- A predicate at every element.
abbrev pub All {ℓ κ} : {A : Type ℓ} → (A → Type κ) → List A → Type κ
All P [] = Unit
All P (x ∷ xs) = P x × All P xs

module _ {ℓ κ} {A : Type ℓ} (P : A → Type κ) where
  pub All-append : (xs ys : List A) → All P xs → All P ys → All P (xs ++ ys)
  All-append [] ys h k = k
  All-append (x ∷ xs) ys h k = (h.0, All-append xs ys h.1 k)

  pub All-keep : (p : A → Bool) (xs : List A) → All P xs → All P (keep p xs)
  All-keep p [] h = tt
  All-keep p (x ∷ xs) h = elim (Bool-cases (p x)) [
    | inl e ↦ rw e (h.0, All-keep p xs h.1)
    | inr e ↦ rw e (All-keep p xs h.1)
  ]

module _ {ℓ} {A : Type ℓ} (p : A → Bool) where
  pub any-mem : (xs : List A) → any xs p ≡ true → (x : A) × Memᴰ x xs × (p x ≡ true)
  any-mem [] h = cc
  any-mem (x ∷ xs) h = elim (Bool-cases (p x)) [
    | inl e ↦ (x, Memᴰ.head refl, e)
    | inr e ↦ let (y, m, q) = any-mem xs (ground (arith, h, e)) in (y, Memᴰ.tail m, q)
  ]

  pub mem-any : (xs : List A) {x : A} → Memᴰ x xs → p x ≡ true → any xs p ≡ true
  mem-any [] m h = elim m [ ]
  mem-any (y ∷ xs) (Memᴰ.head e) h = rw (← e, h)
  mem-any (y ∷ xs) (Memᴰ.tail m) h = ground (arith, mem-any xs m h)

  pub all-All : (xs : List A) → (all xs p ≡ true) ↔ All (λ x. p x ≡ true) xs
  all-All [] = (λ h. tt, λ h. refl)
  all-All (x ∷ xs) =
      (λ h. (ground arith, (all-All xs).0 (ground arith)), λ h. ground (arith, (all-All xs).1 h.1))

  pub mem-keep : (xs : List A) {x : A} → Memᴰ x (keep p xs) → Memᴰ x xs × (p x ≡ true)
  mem-keep [] m = elim m [ ]
  mem-keep (y ∷ xs) {x} m = elim (Bool-cases (p y)) [
    | inl e ↦ kept e (mem-keep xs) (rw e at m)
    | inr e ↦ let (n, q) = mem-keep xs (rw e at m) in (Memᴰ.tail n, q)
  ]
    where
      kept :
          p y ≡ true
          → (Memᴰ x (keep p xs) → Memᴰ x xs × (p x ≡ true))
          → Memᴰ x (y ∷ keep p xs)
          → Memᴰ x (y ∷ xs) × (p x ≡ true)
      kept e ih (Memᴰ.head q) = (Memᴰ.head q, rw (q, e))
      kept e ih (Memᴰ.tail n) = let (n', q) = ih n in (Memᴰ.tail n', q)

  pub keep-mem : (xs : List A) {x : A} → Memᴰ x xs → p x ≡ true → Memᴰ x (keep p xs)
  keep-mem [] m h = elim m [ ]
  keep-mem (y ∷ xs) (Memᴰ.head e) h = rw (← e, h) (Memᴰ.head refl)
  keep-mem (y ∷ xs) (Memᴰ.tail m) h = elim (Bool-cases (p y)) [
    | inl e ↦ rw e (Memᴰ.tail (keep-mem xs m h))
    | inr e ↦ rw e (keep-mem xs m h)
  ]

module _ {ℓ κ} {A : Type ℓ} {B : Type κ} (f : A → B) where
  pub mem-map : (xs : List A) {b : B} → Memᴰ b (map f xs) → (a : A) × Memᴰ a xs × (f a ≡ b)
  mem-map [] m = elim m [ ]
  mem-map (x ∷ xs) (Memᴰ.head e) = (x, Memᴰ.head refl, sym e)
  mem-map (x ∷ xs) (Memᴰ.tail m) = let (a, n, q) = mem-map xs m in (a, Memᴰ.tail n, q)

  pub map-mem : (xs : List A) {a : A} → Memᴰ a xs → Memᴰ (f a) (map f xs)
  map-mem [] m = elim m [ ]
  map-mem (x ∷ xs) (Memᴰ.head e) = Memᴰ.head (ap f e)
  map-mem (x ∷ xs) (Memᴰ.tail m) = Memᴰ.tail (map-mem xs m)

-- `text in texts`
abbrev pub contains : List String → String → Bool
contains [] t = false
contains (s ∷ ss) t = str_eq s t || contains ss t

-- No text is listed twice.
abbrev pub IsDistinct : List String → Type 0
IsDistinct [] = Unit
IsDistinct (s ∷ ss) = (contains ss s ≡ false) × IsDistinct ss

pub contains-mem : (ts : List String) (t : String) → contains ts t ≡ true → Memᴰ t ts
contains-mem [] t h = cc
contains-mem (s ∷ ts) t h = elim (Bool-cases (str_eq s t)) [
  | inl e ↦ Memᴰ.head (sym ((eq_iff s t).0 e))
  | inr e ↦ Memᴰ.tail (contains-mem ts t (ground (arith, h, e)))
]

pub mem-contains : (ts : List String) {t : String} → Memᴰ t ts → contains ts t ≡ true
mem-contains [] m = elim m [ ]
mem-contains (s ∷ ts) {t} (Memᴰ.head e) = ground (arith, eq_iff s t)
mem-contains (s ∷ ts) (Memᴰ.tail m) = ground (arith, mem-contains ts m)

-- `xs.reverse()`
abbrev pub reverse {ℓ} : {A : Type ℓ} → List A → List A
reverse [] = []
reverse (x ∷ xs) = reverse xs ++ (x ∷ [])

pub length-reverse {ℓ} : {A : Type ℓ} (xs : List A) → length (reverse xs) ≡ length xs
length-reverse [] = refl
length-reverse (x ∷ xs) = omega (arith, length-append (reverse xs) (x ∷ []), length-reverse xs)

module _ {ℓ} {A : Type ℓ} where
  pub get_elem?-lt : (xs : List A) (i : ℕ) (x : A) → get_elem? xs i ≡ some x → i < length xs
  get_elem?-lt [] i x e = cc
  get_elem?-lt (y ∷ xs) zero x e = omega arith
  get_elem?-lt (y ∷ xs) (suc i) x e = omega (arith, get_elem?-lt xs i x e)

  -- An element of two lists is one of the first, or of the second, by its position.
  pub get_elem?-append_first :
      (xs ys : List A) (i : ℕ) → i < length xs → get_elem? (xs ++ ys) i ≡ get_elem? xs i
  get_elem?-append_first [] ys i h = ground arith
  get_elem?-append_first (x ∷ xs) ys zero h = refl
  get_elem?-append_first (x ∷ xs) ys (suc i) h = get_elem?-append_first xs ys i (omega arith)

  pub get_elem?-append_second :
      (xs ys : List A) (i : ℕ) → get_elem? (xs ++ ys) (length xs + i) ≡ get_elem? ys i
  get_elem?-append_second [] ys i = ap (get_elem? ys) (omega arith)
  get_elem?-append_second (x ∷ xs) ys i =
      ap (get_elem? (x ∷ xs ++ ys)) {x = suc (length xs) + i} {y = suc (length xs + i)}
        (omega arith)
      ∙ get_elem?-append_second xs ys i
