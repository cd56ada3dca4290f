-- ===== src/Auth/Grants.antt =====
-- What a permission code means, said without the code's splitting: which texts grant which.
use Prim.Native.Char.{Char, code}
use Prim.Native.String.{[], ◌∷◌}
use mathlib.Core.Path.{subst}
use mathlib.Core.Option
use text.Mathlib.TextLemmas.{cons-append, nil-append, append-nil}
use text.Mathlib.TextEquality.{Char-path}
use douyin_data_dashboard.Auth.Permission.{
  split_colon, read_parts, split_permission, match_parts, match_permission,
}
use Prim.Native.String.{◌++◌ as append}
use douyin_data_dashboard.Prelude.{
  String, ◌≡◌, refl, sym, ap, ◌∙◌, ◌≢◌, ◌↔◌, ◌⊎◌, inl, inr, true, false, Option, none, some, arith,
  str_eq, eq_iff, ◌==◌, Bool-cases, is_empty,
}

-- The text has no colon.
abbrev pub IsPlain : String → Type 0
IsPlain [] = Unit
IsPlain (c ∷ s) = (code c ≢ b':') × IsPlain s

-- `Reads p m a`: the permission `p` names the module `m` and the action `a`, if it has one.
-- The module is what stands before the first colon, and an empty action is no action.
pub data Reads (p m : String) : Option String → Type 0 where
  bare : p ≡ m → IsPlain m → Reads p m none
  dangling : p ≡ append m ":" → IsPlain m → Reads p m none
  full :
      {a : String}
      → p ≡ append m (append ":" a)
      → IsPlain m
      → is_empty a ≡ false
      → Reads p m (some a)

-- The user permission `user` grants the required permission `req`.
pub data Grants (user req : String) : Type 0 where
  everything : user ≡ "*" → Grants user req
  whole_module :
      {m a : String} → req ≢ "*" → Reads user m none → Reads req m (some a) → Grants user req
  action :
      {m a b : String}
      → req ≢ "*"
      → Reads user m (some b)
      → Reads req m (some a)
      → (b ≡ a) ⊎ (b ≡ "*") ⊎ (a ≡ "*")
      → Grants user req

-- What `split_colon` returns.
abbrev IsSplit : String → Option (String × String) → Type 0
IsSplit p none = IsPlain p
IsSplit p (some (m, a)) = (p ≡ append m (append ":" a)) × IsPlain m

IsSplit-cons :
    (c : Char) (s : String) (o : Option (String × String))
    → code c ≢ b':'
    → IsSplit s o
    → IsSplit (c ∷ s) (Option.map (λ (p : String × String). (c ∷ p.0, p.1)) o)
IsSplit-cons c s none h k = (h, k)
IsSplit-cons c s (some (m, a)) h k = (rw (cons-append, k.0), (h, k.1))

colon-append : (c : Char) (a : String) → code c ≡ b':' → append ":" a ≡ c ∷ a
colon-append c a h =
    let e : c ≡ ":" = Char-path c ":" h in
    rw e (cons-append ":" [] a ∙ ap (λ (t : String). ":" ∷ t) (nil-append a))

split_colon-IsSplit : (p : String) → IsSplit p (split_colon p)
unfolding split_colon
split_colon-IsSplit [] = tt
split_colon-IsSplit (c ∷ s) = elim (Bool-cases (code c == b':')) [
  | inl e ↦ rw e (rw (nil-append, colon-append c s (ground arith)), tt)
  | inr e ↦ rw e (IsSplit-cons c s (split_colon s) (ground arith) (split_colon-IsSplit s))
]

split_colon-plain : (m : String) → IsPlain m → split_colon m ≡ none
unfolding split_colon
split_colon-plain [] h = refl
split_colon-plain (c ∷ s) h = ground (arith, split_colon-plain s h.1)

split_colon-append :
    (m a : String) → IsPlain m → split_colon (append m (append ":" a)) ≡ some (m, a)
unfolding split_colon
split_colon-append [] a h = rw (nil-append, colon-append ":" a refl)
split_colon-append (c ∷ s) a h = rw (cons-append) (ground (arith, split_colon-append s a h.1))

empty-nil : (a : String) → is_empty a ≡ true → a ≡ []
empty-nil [] h = refl
empty-nil (c ∷ a) h = cc

read_parts-Reads :
    (p : String) (o : Option (String × String))
    → IsSplit p o
    → Reads p (read_parts p o).0 (read_parts p o).1
read_parts-Reads p none h = bare refl h
read_parts-Reads p (some (m, a)) h = elim (Bool-cases (is_empty a)) [
  | inl e ↦
      rw e (dangling (h.0 ∙ ap (append m) (ap (append ":") (empty-nil a e) ∙ append-nil ":")) h.1)
  | inr e ↦ rw e (full h.0 h.1 e)
]

-- What the code takes for the module and the action is what the text reads.
pub split_permission-Reads : (p : String) → Reads p (split_permission p).0 (split_permission p).1
unfolding split_permission
split_permission-Reads p = read_parts-Reads p (split_colon p) (split_colon-IsSplit p)

-- A text reads in one way.
pub Reads-split : (p m : String) {a : Option String} → Reads p m a → split_permission p ≡ (m, a)
unfolding split_permission
Reads-split p m (bare e h) = cc (e, ap (read_parts p) (ap split_colon e ∙ split_colon-plain m h))
Reads-split p m (dangling e h) =
    ap (read_parts p)
      (ap split_colon (e ∙ ap (append m) (sym (append-nil ":"))) ∙ split_colon-append m [] h)
Reads-split p m (full {a} e h k) =
    ap (read_parts p) (ap split_colon e ∙ split_colon-append m a h) ∙ rw k

-- What holds of the actions of two permissions that match.
abbrev ActionsMatch : Option String → Option String → Type 0
ActionsMatch none user_action = ⊥
ActionsMatch (some a) none = Unit
ActionsMatch (some a) (some b) = (b ≡ a) ⊎ (b ≡ "*") ⊎ (a ≡ "*")

match_parts_iff :
    (rm um : String) (ra ua : Option String)
    → (match_parts (rm, ra) (um, ua) ≡ true) ↔ ((rm ≡ um) × ActionsMatch ra ua)
unfolding match_parts
match_parts_iff rm um none ua = (λ h. absurd (ground (arith, eq_iff rm um)), λ h. absurd h.1)
match_parts_iff rm um (some a) none =
    (λ h. (ground (arith, eq_iff rm um), tt), λ h. ground (arith, eq_iff rm um))
match_parts_iff rm um (some a) (some b) = (
  λ h. ground (arith, eq_iff rm um, eq_iff a "*", eq_iff b "*", eq_iff b a),
  λ h. ground (arith, eq_iff rm um, eq_iff a "*", eq_iff b "*", eq_iff b a),
)

Grants-of-match :
    (user req rm um : String) (ra ua : Option String)
    → req ≢ "*"
    → Reads req rm ra
    → Reads user um ua
    → rm ≡ um
    → ActionsMatch ra ua
    → Grants user req
Grants-of-match user req rm um none ua ne r u e h = absurd h
Grants-of-match user req rm um (some a) none ne r u e h =
    whole_module ne (subst (λ m. Reads user m none) (sym e) u) r
Grants-of-match user req rm um (some a) (some b) ne r u e h =
    action ne (subst (λ m. Reads user m (some b)) (sym e) u) r h

module _ (req user : String) where
  Grants-sound : match_permission req user true ≡ true → Grants user req
  unfolding match_permission
  Grants-sound h = elim (Bool-cases (str_eq user "*")) [
    | inl e ↦ everything ((eq_iff user "*").0 e)
    | inr e ↦
        let ok : match_parts (split_permission req) (split_permission user) ≡ true =
          ground (arith, h) in
        let (same, actions) = (match_parts_iff _ _ _ _).0 ok in
        Grants-of-match user req _ _ _ _ (λ q. ground (arith, eq_iff req "*"))
          (split_permission-Reads req) (split_permission-Reads user) same actions
  ]

  Grants-complete : Grants user req → match_permission req user true ≡ true
  unfolding match_permission
  Grants-complete (everything e) = ground (arith, eq_iff user "*", eq_iff req "*")
  Grants-complete (whole_module {m} {a} ne u r) = ground (
    arith,
    eq_iff req "*",
    Reads-split user m u,
    Reads-split req m r,
    (match_parts_iff m m (some a) none).1 (refl, tt),
  )
  Grants-complete (action {m} {a} {b} ne u r h) = ground (
    arith,
    eq_iff req "*",
    Reads-split user m u,
    Reads-split req m r,
    (match_parts_iff m m (some a) (some b)).1 (refl, h),
  )

  -- With wildcards, the code accepts a permission exactly when its text grants what is required.
  pub match_permission-iff-Grants : (match_permission req user true ≡ true) ↔ Grants user req
  match_permission-iff-Grants = (Grants-sound, Grants-complete)
