-- ===== src/Access/Rights.antt =====
-- The two readings of the groups in packages/contract/src/access.ts.
use conference_operator.Common.{
  ◌≡◌, inl, inr, refl, sym, ap, not, ◌∙◌, String, Bool, true, false, ◌&&◌, ◌||◌, some, List, [],
  ◌∷◌, ◌++◌, str_eq, eq_iff, arith, Bool-cases, Option-cases,
}
use conference_operator.Common.Maps.{get}
use conference_operator.Access.{
  Permission, Grant, access_roles, includes, grant_allows, role_allows, roles_allow,
  same_permission, has_permission, add, add_actions, add_grant, add_roles, sorts_before,
  insert_permission, sort_permissions, permissions_of,
}

has_permission-append :
    (p : Permission) (xs ys : List Permission)
    → has_permission p (xs ++ ys) ≡ has_permission p xs || has_permission p ys
has_permission-append p [] ys = refl
has_permission-append p (x ∷ xs) ys = ground (arith, has_permission-append p xs ys)

same_permission-eq : (p q : Permission) → same_permission p q ≡ true → p ≡ q
same_permission-eq p q h =
    ap (λ r. record { resource = r; action = p.action })
      ((eq_iff p.resource q.resource).0 (ground arith))
    ∙ ap (λ a. record { resource = q.resource; action = a })
        ((eq_iff p.action q.action).0 (ground arith))

has_permission-add :
    (p q : Permission) (granted : List Permission)
    → has_permission p (add q granted) ≡ same_permission q p || has_permission p granted
has_permission-add p q granted = elim (Bool-cases (has_permission q granted)) [
  | inl there ↦ elim (Bool-cases (same_permission q p)) [
    | inl same ↦
        let e = ap (λ r. has_permission r granted) (sym (same_permission-eq q p same)) ∙ there in
        rw (there, same) e
    | inr other ↦ rw (there, other) refl
  ]
  | inr absent ↦ rw absent (
      has_permission-append p granted (q ∷ [])
      ∙ swapped (has_permission p granted) (same_permission q p))
]
  where
    swapped : (a b : Bool) → a || (b || false) ≡ b || a
    swapped a b = ground arith

-- The entries of a grant, all of them.
unfoldable lists : Grant → Permission → Bool
lists [] p = false
lists ((resource, actions) ∷ grant) p =
    (str_eq resource p.resource && includes actions p.action) || lists grant p

has_permission-add_actions :
    (p : Permission) (resource : String) (actions : List String) (granted : List Permission)
    → has_permission p (add_actions resource actions granted)
      ≡ (str_eq resource p.resource && includes actions p.action) || has_permission p granted
unfolding add_actions
has_permission-add_actions p resource [] granted = ground arith
has_permission-add_actions p resource (action ∷ actions) granted = ground (
  arith,
  has_permission-add_actions p resource actions
      (add (record { resource = resource; action = action }) granted),
  has_permission-add p (record { resource = resource; action = action }) granted,
)

has_permission-add_grant :
    (p : Permission) (grant : Grant) (granted : List Permission)
    → has_permission p (add_grant grant granted) ≡ lists grant p || has_permission p granted
unfolding add_grant lists
has_permission-add_grant p [] granted = refl
has_permission-add_grant p ((resource, actions) ∷ grant) granted = ground (
  arith,
  has_permission-add_grant p grant (add_actions resource actions granted),
  has_permission-add_actions p resource actions granted,
)

names : String → Grant → Bool
names resource [] = false
names resource ((r, actions) ∷ grant) = str_eq r resource || names resource grant

unfoldable distinct : Grant → Bool
unfolding names
distinct [] = true
distinct ((r, actions) ∷ grant) = not (names r grant) && distinct grant

unfoldable all_distinct : List (String × Grant) → Bool
unfolding distinct
all_distinct [] = true
all_distinct ((role, grant) ∷ roles) = distinct grant && all_distinct roles

lists-absent :
    (grant : Grant) (p : Permission) → names p.resource grant ≡ false → lists grant p ≡ false
unfolding lists names
lists-absent [] p h = refl
lists-absent ((r, actions) ∷ grant) p h = ground (arith, lists-absent grant p (ground arith))

or_false : (b : Bool) → b || false ≡ b
or_false true = refl
or_false false = refl

grant_allows-lists :
    (grant : Grant) (p : Permission) → distinct grant ≡ true → grant_allows grant p ≡ lists grant p
unfolding lists distinct
grant_allows-lists [] p h = refl
grant_allows-lists ((r, actions) ∷ grant) p h = elim (Bool-cases (str_eq r p.resource)) [
  | inl same ↦
      let fresh : names r grant ≡ false = not_true (names r grant) (ground arith) in
      let absent : names p.resource grant ≡ false = rw ((eq_iff r p.resource).0 same) at fresh in
      rw (same, lists-absent grant p absent, grant_allows)
        (sym (or_false (includes actions p.action)))
  | inr other ↦ rw (other, grant_allows) (grant_allows-lists grant p (ground arith))
]
  where
    not_true : (b : Bool) → not b ≡ true → b ≡ false
    not_true b h = ground arith

get-distinct :
    (role : String) (roles : List (String × Grant)) (grant : Grant)
    → all_distinct roles ≡ true
    → get role roles ≡ some grant
    → distinct grant ≡ true
unfolding all_distinct
get-distinct role [] grant h e = cc
get-distinct role ((r, g) ∷ roles) grant h e = elim (Bool-cases (str_eq r role)) [
  | inl same ↦
      let e' : some g ≡ some grant = rw same at e in
      let f : g ≡ grant = cc in rw (← f) (ground arith)
  | inr other ↦ get-distinct role roles grant (ground arith) (rw other at e)
]

access_roles-distinct : all_distinct access_roles ≡ true
unfolding access_roles all_distinct
access_roles-distinct = refl

has_permission-insert :
    (p q : Permission) (granted : List Permission)
    → has_permission p (insert_permission q granted)
      ≡ same_permission q p || has_permission p granted
unfolding insert_permission
has_permission-insert p q [] = refl
has_permission-insert p q (r ∷ granted) = elim (Bool-cases (sorts_before q r)) [
  | inl before ↦ rw before refl
  | inr after ↦ let ih = has_permission-insert p q granted in rw (after, ih) (ground arith)
]

has_permission-sort :
    (p : Permission) (granted : List Permission)
    → has_permission p (sort_permissions granted) ≡ has_permission p granted
unfolding sort_permissions
has_permission-sort p [] = refl
has_permission-sort p (q ∷ granted) =
    has_permission-insert p q (sort_permissions granted)
    ∙ ap (λ b. same_permission q p || b) (has_permission-sort p granted)

has_permission-add_roles :
    (p : Permission) (roles : List String) (granted : List Permission)
    → has_permission p (add_roles roles granted) ≡ roles_allow roles p || has_permission p granted
unfolding add_roles roles_allow
has_permission-add_roles p [] granted = refl
has_permission-add_roles p (role ∷ roles) granted = elim (Option-cases (get role access_roles)) [
  | inl unknown ↦
      rw (unknown, add_roles, roles_allow, role_allows) (has_permission-add_roles p roles granted)
  | inr (grant, known) ↦
      let same =
        grant_allows-lists grant p
          (get-distinct role access_roles grant access_roles-distinct known) in
      rw (known, same, add_roles, roles_allow, role_allows)
        (ground (
          arith,
          has_permission-add_roles p roles (add_grant grant granted),
          has_permission-add_grant p grant granted,
        ))
]

-- What a group may do is told in one way: the list that an operator's screen receives holds exactly
-- the permissions that a test of the groups one at a time lets through, whatever the groups, unknown
-- ones and groups that overlap included.
pub permissions_of-roles_allow :
    (roles : List String) (p : Permission)
    → has_permission p (permissions_of roles) ≡ roles_allow roles p
unfolding permissions_of
permissions_of-roles_allow roles p =
    has_permission-sort p (add_roles roles [])
    ∙ has_permission-add_roles p roles []
    ∙ or_false (roles_allow roles p)
