-- ===== src/Prelude/Text.antt =====
-- Python's `str` methods that the code calls, over the native text.
use Prim.Native.Nat.{ℕ, zero, suc, ◌+◌, ◌-◌}
use Prim.Native.Char.{Char, code}
use Prim.Native.String.{String, [], ◌∷◌}
use mathlib.Core.Path.{◌≡◌, refl, ap, ◌∙◌}
use mathlib.Core.Logic.{inl, inr}
use mathlib.Core.Bool.{Bool, true, false, ◌&&◌, ◌||◌}
use mathlib.Core.List.{List, map}
use douyin_data_dashboard.Prelude.Tests.{Bool-cases, leb, ◌==◌, if◌then◌else◌}

-- The code points that `str.isspace` accepts, which are those that `str.strip` removes.
abbrev pub is_space : ℕ → Bool
is_space c =
    leb 9 c && leb c 13
    || leb 28 c && leb c 32
    || c == 133
    || c == 160
    || c == 5760
    || leb 8192 c && leb c 8202
    || c == 8232
    || c == 8233
    || c == 8239
    || c == 8287
    || c == 12288

-- `not text`
abbrev pub is_empty : String → Bool
is_empty [] = true
is_empty (c ∷ s) = false

unfoldable pub lstrip : String → String
lstrip [] = []
lstrip (c ∷ s) = if is_space (code c) then lstrip s else c ∷ s

unfoldable pub rstrip : String → String
rstrip [] = []
rstrip (c ∷ s) = let r = rstrip s in if is_empty r && is_space (code c) then [] else c ∷ r

-- `text.strip()`
unfoldable pub strip : String → String
unfolding lstrip rstrip
strip s = rstrip (lstrip s)

-- `text.split(",")[0]`
unfoldable pub first_part : String → String
first_part [] = []
first_part (c ∷ s) = let rest = first_part s in if code c == b',' then [] else c ∷ rest

-- The code points of a text.
abbrev pub codes : String → List ℕ
codes [] = List.[]
codes (c ∷ s) = List.◌∷◌ (code c) (codes s)

-- Two texts given by their code points are equal.
abbrev pub codes_eq : List ℕ → List ℕ → Bool
codes_eq List.[] List.[] = true
codes_eq (List.◌∷◌ a s) (List.◌∷◌ b t) = a == b && codes_eq s t
codes_eq _ _ = false

-- `str.upper` and `str.lower` on the code points that an ASCII letter is the image of; the rest
-- stays as it is, which serves where the result is compared with an ASCII text.
abbrev pub upper_code : ℕ → ℕ
upper_code c =
    if leb b'a' c && leb c b'z'
    then c - 32
    else if c == 0x131
    then b'I'
    else if c == 0x17f
    then b'S'
    else c

abbrev pub lower_code : ℕ → ℕ
lower_code c = if leb b'A' c && leb c b'Z' then c + 32 else if c == 0x212a then b'k' else c

-- `text.upper() == word` and `text.lower() == word`, for an ASCII word.
unfoldable pub upper_is : String → String → Bool
upper_is text word = codes_eq (map upper_code (codes text)) (codes word)

unfoldable pub lower_is : String → String → Bool
lower_is text word = codes_eq (map lower_code (codes text)) (codes word)

-- `text.split(separator)`, for a separator of one character given by its code point.
unfoldable pub split_on : ℕ → String → List String
split_on separator [] = List.◌∷◌ [] List.[]
split_on separator (c ∷ s) =
    let parts = split_on separator s in
    if code c == separator
    then List.◌∷◌ [] parts
    else (elim parts [ List.[] ↦ List.[] | List.◌∷◌ part rest ↦ List.◌∷◌ (c ∷ part) rest ])

-- The text starts with no space.
abbrev Unindented : String → Type 0
Unindented [] = Unit
Unindented (c ∷ s) = is_space (code c) ≡ false

lstrip-Unindented : (s : String) → Unindented (lstrip s)
unfolding lstrip
lstrip-Unindented [] = tt
lstrip-Unindented (c ∷ s) = elim (Bool-cases (is_space (code c))) [
  | inl e ↦ rw e (lstrip-Unindented s)
  | inr e ↦ rw e e
]

Unindented-lstrip : (s : String) → Unindented s → lstrip s ≡ s
unfolding lstrip
Unindented-lstrip [] h = refl
Unindented-lstrip (c ∷ s) h = rw h refl

rstrip-Unindented : (s : String) → Unindented s → Unindented (rstrip s)
unfolding rstrip
rstrip-Unindented [] h = tt
rstrip-Unindented (c ∷ s) h = elim (Bool-cases (is_empty (rstrip s))) [
  | inl e ↦ rw (e, h) h
  | inr e ↦ rw e h
]

rstrip_idem : (s : String) → rstrip (rstrip s) ≡ rstrip s
unfolding rstrip
rstrip_idem [] = refl
rstrip_idem (c ∷ s) = elim (Bool-cases (is_empty (rstrip s) && is_space (code c))) [
  | inl e ↦ rw e refl
  | inr e ↦ rw (e, rstrip_idem s, e) refl
]

-- Stripping twice is stripping once.
pub strip_idem : (s : String) → strip (strip s) ≡ strip s
unfolding strip
strip_idem s =
    ap rstrip
      (Unindented-lstrip (rstrip (lstrip s)) (rstrip-Unindented (lstrip s) (lstrip-Unindented s)))
    ∙ rstrip_idem (lstrip s)

-- `text[2:]`
abbrev pub from_third : String → String
from_third (a ∷ (b ∷ rest)) = rest
from_third (a ∷ []) = []
from_third [] = []

-- `text[:n]`
abbrev pub take_text : ℕ → String → String
take_text zero s = []
take_text (suc n) [] = []
take_text (suc n) (c ∷ s) = c ∷ take_text n s

-- `text.replace(old, new)`, for characters given by their code point and themselves.
abbrev pub replace_char : ℕ → Char → String → String
replace_char old new [] = []
replace_char old new (c ∷ s) = (if code c == old then new else c) ∷ replace_char old new s

abbrev pub starts_with : ℕ → String → Bool
starts_with first [] = false
starts_with first (c ∷ s) = code c == first
