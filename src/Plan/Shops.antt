-- ===== src/Plan/Shops.antt =====
-- The shop ids of a collection: `normalize_shop_ids` of src/shared/shop_ids.py.
use mathlib.Core.Path.{subst}
use douyin_data_dashboard.Prelude.{
  ◌≡◌, refl, sym, ◌∙◌, Bool, true, false, not, List, [], ◌∷◌, ◌++◌, map, ◌&&◌, arith, if◌then◌else◌,
  String, strip, strip_idem, is_empty, split_on, contains, IsDistinct, Bool-cases, inl, inr, eq_iff,
  eq_refl, ap, ◌⊎◌,
}

-- What the function tells apart. An item of a list, tuple or set stands as the text that
-- `str(candidate or "")` gives of it.
pub data ShopIds : Type 0 where
  absent : ShopIds
  text : String → ShopIds
  items : List String → ShopIds
  other : ShopIds

-- `[part for token in value.split(",") for part in token.split("|")]`
abbrev parts_of : List String → List String
parts_of [] = []
parts_of (token ∷ tokens) = split_on b'|' token ++ parts_of tokens

unfoldable pub candidates_of : ShopIds → List String
candidates_of absent = []
candidates_of (text value) = parts_of (split_on b',' value)
candidates_of (items value) = value
candidates_of other = []

-- What the loop appends from some candidates on; `seen` are the texts met before.
unfoldable pub append_shops : Bool → List String → List String → List String
append_shops dedupe seen [] = []
append_shops dedupe seen (candidate ∷ candidates) =
    let t = strip candidate in
    if is_empty t
    then append_shops dedupe seen candidates
    else if dedupe
    then (if contains seen t
        then append_shops dedupe seen candidates
        else t ∷ append_shops dedupe (t ∷ seen) candidates)
    else t ∷ append_shops dedupe seen candidates

unfoldable pub normalize_shop_ids : ShopIds → Bool → List String
normalize_shop_ids value dedupe = append_shops dedupe [] (candidates_of value)

-- The turns of the loop, by what its tests say.
append_shops-blank :
    (dedupe : Bool) (seen : List String) (c : String) (cs : List String)
    → is_empty (strip c) ≡ true
    → append_shops dedupe seen (c ∷ cs) ≡ append_shops dedupe seen cs
unfolding append_shops
append_shops-blank dedupe seen c cs e = rw e refl

append_shops-seen :
    (seen : List String) (c : String) (cs : List String)
    → contains seen (strip c) ≡ true
    → append_shops true seen (c ∷ cs) ≡ append_shops true seen cs
unfolding append_shops
append_shops-seen seen c cs e = elim (Bool-cases (is_empty (strip c))) [
  | inl blank ↦ rw blank refl
  | inr full ↦ rw (full, e) refl
]

append_shops-new :
    (seen : List String) (c : String) (cs : List String)
    → is_empty (strip c) ≡ false
    → contains seen (strip c) ≡ false
    → append_shops true seen (c ∷ cs) ≡ strip c ∷ append_shops true (strip c ∷ seen) cs
unfolding append_shops
append_shops-new seen c cs full new = rw (full, new) refl

append_shops-all :
    (seen : List String) (c : String) (cs : List String)
    → is_empty (strip c) ≡ false
    → append_shops false seen (c ∷ cs) ≡ strip c ∷ append_shops false seen cs
unfolding append_shops
append_shops-all seen c cs full = rw full refl

contains-append_shops :
    (seen cs : List String) (t : String)
    → contains (append_shops true seen cs) t
      ≡ (contains (map strip cs) t && not (is_empty t) && not (contains seen t))
unfolding append_shops
contains-append_shops seen [] t = refl
contains-append_shops seen (c ∷ cs) t = ground (
  arith,
  eq_iff (strip c) t,
  contains-append_shops seen cs t,
  contains-append_shops (strip c ∷ seen) cs t,
)

-- What a turn of the loop does, with repeated ids dropped.
append_shops-turn :
    (seen : List String) (c : String) (cs : List String)
    → (append_shops true seen (c ∷ cs) ≡ append_shops true seen cs)
      ⊎ ((is_empty (strip c) ≡ false)
          × (contains seen (strip c) ≡ false)
          × (append_shops true seen (c ∷ cs) ≡ strip c ∷ append_shops true (strip c ∷ seen) cs))
append_shops-turn seen c cs = elim (Bool-cases (is_empty (strip c))) [
  | inl blank ↦ inl (append_shops-blank true seen c cs blank)
  | inr full ↦ elim (Bool-cases (contains seen (strip c))) [
    | inl known ↦ inl (append_shops-seen seen c cs known)
    | inr new ↦ inr (full, new, append_shops-new seen c cs full new)
  ]
]

append_shops-IsDistinct : (seen cs : List String) → IsDistinct (append_shops true seen cs)
unfolding append_shops
append_shops-IsDistinct seen [] = tt
append_shops-IsDistinct seen (c ∷ cs) = elim (append_shops-turn seen c cs) [
  | inl same ↦ subst IsDistinct (sym same) (append_shops-IsDistinct seen cs)
  | inr (full, new, kept) ↦ subst IsDistinct (sym kept) (
    ground (arith, contains-append_shops (strip c ∷ seen) cs (strip c), eq_refl (strip c)),
    append_shops-IsDistinct (strip c ∷ seen) cs,
  )
]

-- Going over what was appended appends the same.
pub append_shops_idem :
    (dedupe : Bool) (seen cs : List String)
    → append_shops dedupe seen (append_shops dedupe seen cs) ≡ append_shops dedupe seen cs
unfolding append_shops
append_shops_idem dedupe seen [] = refl
append_shops_idem true seen (c ∷ cs) = elim (append_shops-turn seen c cs) [
  | inl same ↦ ap (append_shops true seen) same ∙ (append_shops_idem true seen cs ∙ sym same)
  | inr (full, new, kept) ↦
      let again = strip_idem c in
      ap (append_shops true seen) kept
      ∙ (append_shops-new seen (strip c) (append_shops true (strip c ∷ seen) cs)
            (ap is_empty again ∙ full) (ap (contains seen) again ∙ new)
          ∙ (ap (λ t. t ∷ append_shops true (t ∷ seen) (append_shops true (strip c ∷ seen) cs))
                again
              ∙ (ap (λ ts. strip c ∷ ts) (append_shops_idem true (strip c ∷ seen) cs) ∙ sym kept)))
]
append_shops_idem false seen (c ∷ cs) = elim (Bool-cases (is_empty (strip c))) [
  | inl blank ↦
      let same = append_shops-blank false seen c cs blank in
      ap (append_shops false seen) same ∙ (append_shops_idem false seen cs ∙ sym same)
  | inr full ↦
      let again = strip_idem c in
      let kept = append_shops-all seen c cs full in
      ap (append_shops false seen) kept
      ∙ (append_shops-all seen (strip c) (append_shops false seen cs) (ap is_empty again ∙ full)
          ∙ (ap (λ t. t ∷ append_shops false seen (append_shops false seen cs)) again
              ∙ (ap (λ ts. strip c ∷ ts) (append_shops_idem false seen cs) ∙ sym kept)))
]

-- With repeated ids dropped, the ids are the non-empty stripped candidates, each once. With or
-- without, normalising the ids again, as a list, changes nothing.
pub normalize_shop_ids-lem :
    (value : ShopIds)
    → IsDistinct (normalize_shop_ids value true)
      × ((t : String)
          → contains (normalize_shop_ids value true) t
            ≡ (contains (map strip (candidates_of value)) t && not (is_empty t)))
      × ((dedupe : Bool)
          → normalize_shop_ids (items (normalize_shop_ids value dedupe)) dedupe
            ≡ normalize_shop_ids value dedupe)
unfolding normalize_shop_ids candidates_of
normalize_shop_ids-lem value = (
  append_shops-IsDistinct [] (candidates_of value),
  λ t. ground (arith, contains-append_shops [] (candidates_of value) t),
  λ dedupe. append_shops_idem dedupe [] (candidates_of value),
)
