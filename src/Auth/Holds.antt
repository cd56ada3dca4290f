-- ===== src/Auth/Holds.antt =====
-- What the queries and the checks of src/auth/rbac.py come to, in terms of the rows.
use mathlib.Core.Path.{subst}
use douyin_data_dashboard.Prelude.{
  ℕ, String, ◌≡◌, refl, sym, ap, ◌∙◌, ◌↔◌, inl, inr, true, ◌&&◌, Memᴰ, List, [], ◌∷◌, map, arith,
  str_eq, eq_iff, ◌==◌, Bool-cases, all, any, keep, All, any-mem, mem-any, mem-keep, keep-mem,
  mem-map, map-mem, contains, contains-mem, mem-contains,
}
use douyin_data_dashboard.Auth.Permission.{has_permission, match_permission}
use douyin_data_dashboard.Auth.Grants.{Grants, match_permission-iff-Grants}
use douyin_data_dashboard.Auth.Tables.{
  UserRole, RolePermission, Permission, Tables, distinct, has_role, has_permission_row,
  get_user_permissions,
}
use douyin_data_dashboard.Auth.Check.{ok, check_permissions}

contains-distinct : (ss : List String) (t : String) → contains (distinct ss) t ≡ contains ss t
unfolding distinct
contains-distinct [] t = refl
contains-distinct (s ∷ ss) t = elim (Bool-cases (contains ss s)) [
  | inl e ↦ rw e (elim (Bool-cases (str_eq s t)) [
    | inl q ↦ rw q (contains-distinct ss t ∙ subst (λ x. contains ss x ≡ true) ((eq_iff s t).0 q) e)
    | inr q ↦ rw q (contains-distinct ss t)
  ])
  | inr e ↦ rw (e, contains-distinct ss t)
]

-- The user has a role that has the permission, by three rows that join.
pub record Chain (t : Tables) (user : ℕ) (c : String) : Type 0 where
  pub user_role : UserRole
  pub role_permission : RolePermission
  pub permission : Permission
  pub stored_user : Memᴰ user_role t.user_roles
  pub stored_role : Memᴰ role_permission t.role_permissions
  pub stored_permission : Memᴰ permission t.permissions
  pub of_user : user_role.user_id ≡ user
  pub of_role : user_role.role_id ≡ role_permission.role_id
  pub of_permission : role_permission.permission_id ≡ permission.id
  pub named : permission.permission_code ≡ c

Chain-of :
    (t : Tables) (user : ℕ) (c : String)
    → contains (get_user_permissions t user) c ≡ true
    → Chain t user c
unfolding get_user_permissions
Chain-of t user c h =
    let (p, m, q) =
      mem-map (λ (p : Permission). p.permission_code) _
        (contains-mem _ c (sym (contains-distinct _ c) ∙ h)) in
    let (mp, joined) = mem-keep (λ p. has_permission_row t user p.id) t.permissions m in
    let (rp, mrp, joins) =
      any-mem (λ rp. rp.permission_id == p.id && has_role t user rp.role_id) t.role_permissions
        joined in
    let (ur, mur, last) =
      any-mem (λ ur. ur.role_id == rp.role_id && ur.user_id == user) t.user_roles
        (ground (arith, joins)) in
    record {
      user_role = ur;
      role_permission = rp;
      permission = p;
      stored_user = mur;
      stored_role = mrp;
      stored_permission = mp;
      of_user = ground (arith, last);
      of_role = ground (arith, last);
      of_permission = ground (arith, joins);
      named = q;
    }

of_Chain :
    (t : Tables) (user : ℕ) (c : String)
    → Chain t user c
    → contains (get_user_permissions t user) c ≡ true
unfolding get_user_permissions
of_Chain t user c h =
    let has =
      mem-any (λ ur. ur.role_id == h.role_permission.role_id && ur.user_id == user) t.user_roles
        h.stored_user (ground (arith, h.of_user, h.of_role)) in
    let row =
      mem-any (λ rp. rp.permission_id == h.permission.id && has_role t user rp.role_id)
        t.role_permissions h.stored_role (ground (arith, has, h.of_permission)) in
    let codes =
      map (λ (p : Permission). p.permission_code)
        (keep (λ p. has_permission_row t user p.id) t.permissions) in
    contains-distinct codes c
    ∙ subst (λ x. contains codes x ≡ true) h.named
        (mem-contains codes (
          map-mem (λ (p : Permission). p.permission_code) _
            (keep-mem (λ p. has_permission_row t user p.id) t.permissions h.stored_permission row)))

-- The query for a user's permissions returns a code exactly when three rows join the user to it.
pub get_user_permissions-iff-Chain :
    (t : Tables) (user : ℕ) (c : String)
    → (contains (get_user_permissions t user) c ≡ true) ↔ Chain t user c
get_user_permissions-iff-Chain t user c = (Chain-of t user c, of_Chain t user c)

-- The user holds, through some role, a permission whose text grants `req`.
abbrev pub Holds : Tables → ℕ → String → Type 0
Holds t user req = (c : String) × Chain t user c × Grants c req

has_permission-Holds :
    (t : Tables) (user : ℕ) (req : String)
    → (has_permission req (get_user_permissions t user) true ≡ true) ↔ Holds t user req
unfolding has_permission
has_permission-Holds t user req = (
  (λ h.
      let (c, m, e) = any-mem (λ c. match_permission req c true) (get_user_permissions t user) h in
      (c, Chain-of t user c (mem-contains _ m), (match_permission-iff-Grants req c).0 e)),
  (λ h.
      mem-any (λ c. match_permission req c true) (get_user_permissions t user)
        (contains-mem _ h.0 (of_Chain t user h.0 h.1))
        ((match_permission-iff-Grants req h.0).1 h.2)),
)

module _ (t : Tables) (user : ℕ) where
  all-Holds :
      (required : List String)
      → (all required (λ req. has_permission req (get_user_permissions t user) true) ≡ true)
        ↔ All (Holds t user) required
  all-Holds [] = (λ h. tt, λ h. refl)
  all-Holds (req ∷ required) = (
    (λ h. (
      (has_permission-Holds t user req).0 (ground (arith, h)),
      (all-Holds required).0 (ground (arith, h)),
    )),
    (λ h. ground (arith, (has_permission-Holds t user req).1 h.0, (all-Holds required).1 h.1)),
  )

  any-Holds :
      (required : List String)
      → (any required (λ req. has_permission req (get_user_permissions t user) true) ≡ true)
        ↔ ((req : String) × Memᴰ req required × Holds t user req)
  any-Holds required = (
    (λ h.
        let (req, m, e) =
          any-mem (λ req. has_permission req (get_user_permissions t user) true) required h in
        (req, m, (has_permission-Holds t user req).0 e)),
    (λ h.
        mem-any (λ req. has_permission req (get_user_permissions t user) true) required h.1
          ((has_permission-Holds t user h.0).1 h.2)),
  )

  -- With wildcards, `check_permissions` answers yes exactly when rows join the user to a permission
  -- that grants each required one (match "all"), or that grants one of them (match "any").
  pub check_permissions-iff-Holds :
      (required : List String)
      → ((check_permissions t user required "all" true ≡ ok true) ↔ All (Holds t user) required)
        × ((check_permissions t user required "any" true ≡ ok true)
            ↔ ((req : String) × Memᴰ req required × Holds t user req))
  unfolding check_permissions
  check_permissions-iff-Holds required = (
    ((λ h. (all-Holds required).0 (cc h)), (λ h. ap ok ((all-Holds required).1 h))),
    ((λ h. (any-Holds required).0 (cc h)), (λ h. ap ok ((any-Holds required).1 h))),
  )
