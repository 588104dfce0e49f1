-- ===== src/Roles/Within.antt =====
-- The ids that a role assignment may reach lie within the ids that are no administrators.
use openhound_okta.Base.{
  ◌≡◌, refl, subst, true, ◌||◌, Option, none, some, String, List, [], ◌∷◌, ◌++◌, arith, string_eq,
  option_eq, contains, if◌then◌else◌,
}
use openhound_okta.Roles.Lookup.{
  Lookup, among, resource_set_non_admin_application_ids, resource_set_non_admin_user_ids,
  resource_set_non_admin_group_ids,
}
use openhound_okta.Roles.Assignment.{
  RoleAssignment, union_of, permission_group_ids, permission_app_ids, permission_user_ids,
  bound_non_admin_application_ids, bound_non_admin_group_ids, bound_non_admin_user_ids,
  resource_set_ids, scoped_group_ids, scoped_app_ids, or_all, users_of_groups, has_no_scope_apps,
}
use openhound_okta.Roles.Edges.{ids_or_empty}

-- Every id of the first list stands in the second.
abbrev pub Within : List String → List String → Type 0
Within xs allowed = (x : String) → contains xs x ≡ true → contains allowed x ≡ true

pub among-Within : (xs allowed : List String) → Within (among xs allowed) allowed
unfolding among
among-Within [] allowed x h = cc
among-Within (y ∷ ys) allowed x h = ground (arith, among-Within ys allowed x)

pub contains-append :
    (xs ys : List String) (x : String) → contains (xs ++ ys) x ≡ (contains xs x || contains ys x)
contains-append [] ys x = refl
contains-append (z ∷ xs) ys x = ground (arith, contains-append xs ys x)

pub left-Within : (xs ys : List String) → Within xs (xs ++ ys)
left-Within xs ys x h = ground (arith, contains-append xs ys x)

pub right-Within : (xs ys : List String) → Within ys (xs ++ ys)
right-Within xs ys x h = ground (arith, contains-append xs ys x)

pub union_of-Within :
    (f : String → List String) (allowed ks : List String)
    → ((k : String) → Within (f k) allowed)
    → Within (union_of f ks) allowed
unfolding union_of
union_of-Within f allowed [] h x e = cc
union_of-Within f allowed (k ∷ ks) h x e =
    ground (arith, contains-append (f k) (union_of f ks) x, h k x, union_of-Within f allowed ks h x)

-- Python's `sorted` adds no id.
abbrev pub AddsNothing : Lookup → Type 0
AddsNothing lookup = (xs : List String) → Within (lookup.sorted xs) xs

module _ (lookup : Lookup) where
  pub ids_or_empty-Within :
      (o : Option (List String)) (allowed : List String)
      → ((ids : List String) → o ≡ some ids → Within ids allowed)
      → Within (ids_or_empty o) allowed
  ids_or_empty-Within none allowed h = λ x e. cc
  ids_or_empty-Within (some ids) allowed h = h ids refl

  -- What was filtered lies among the ids that are allowed.
  pub filtered-Within :
      (o : Option (List String)) (f : List String → List String) (allowed ids : List String)
      → elim o [ none ↦ none | some scoped ↦ some (among (f scoped) allowed) ] ≡ some ids
      → Within ids allowed
  filtered-Within none f allowed ids h = cc
  filtered-Within (some scoped) f allowed ids h =
      let same : among (f scoped) allowed ≡ ids = cc in
      subst (λ ys. Within ys allowed) same (among-Within (f scoped) allowed)

  pub permission_group_ids-Within :
      (a : RoleAssignment) (ids : List String)
      → permission_group_ids lookup a ≡ some ids
      → Within ids lookup.non_admin_groups
  unfolding permission_group_ids
  permission_group_ids-Within a ids h =
      filtered-Within (scoped_group_ids lookup a) (λ scoped. or_all scoped lookup.all_groups)
        lookup.non_admin_groups ids h

  pub permission_user_ids-Within :
      (a : RoleAssignment) (ids : List String)
      → permission_user_ids lookup a ≡ some ids
      → Within ids lookup.non_admin_users
  unfolding permission_user_ids
  permission_user_ids-Within a ids h =
      filtered-Within (scoped_group_ids lookup a) (users_of_groups lookup) lookup.non_admin_users
        ids h

  pub permission_app_ids-Within :
      (a : RoleAssignment) (ids : List String)
      → permission_app_ids lookup a ≡ some ids
      → Within ids (lookup.non_admin_apps ++ lookup.all_api_services)
  unfolding permission_app_ids
  permission_app_ids-Within a ids h =
      filtered-Within (scoped_app_ids lookup a)
        (λ scoped.
          if has_no_scope_apps a
          then lookup.all_applications ++ lookup.all_api_services
          else scoped)
        (lookup.non_admin_apps ++ lookup.all_api_services) ids h

  pub sorted_union-Within :
      AddsNothing lookup
      → (f : String → List String) (g : String → List String) (allowed ks : List String)
      → ((k : String) → f k ≡ lookup.sorted (among (g k) allowed))
      → Within (lookup.sorted (union_of f ks)) allowed
  sorted_union-Within adds f g allowed ks same x h =
      union_of-Within f allowed ks
        (λ k y e.
          among-Within (g k) allowed y
            (adds (among (g k) allowed) y (subst (λ ys. contains ys y ≡ true) (same k) e)))
        x (adds (union_of f ks) x h)

  pub bound_users-Within :
      AddsNothing lookup
      → (a : RoleAssignment) → Within (bound_non_admin_user_ids lookup a) lookup.non_admin_users
  unfolding bound_non_admin_user_ids resource_set_non_admin_user_ids
  bound_users-Within adds a =
      sorted_union-Within adds (resource_set_non_admin_user_ids lookup) lookup.resource_set_user_ids
        lookup.non_admin_users (resource_set_ids lookup a) (λ k. refl)

  pub bound_groups-Within :
      AddsNothing lookup
      → (a : RoleAssignment) → Within (bound_non_admin_group_ids lookup a) lookup.non_admin_groups
  unfolding bound_non_admin_group_ids resource_set_non_admin_group_ids
  bound_groups-Within adds a =
      sorted_union-Within adds (resource_set_non_admin_group_ids lookup)
        lookup.resource_set_group_ids lookup.non_admin_groups (resource_set_ids lookup a)
        (λ k. refl)

  pub bound_apps-Within :
      AddsNothing lookup
      → (a : RoleAssignment)
      → Within (bound_non_admin_application_ids lookup a) lookup.non_admin_apps
  unfolding bound_non_admin_application_ids resource_set_non_admin_application_ids
  bound_apps-Within adds a =
      sorted_union-Within adds (resource_set_non_admin_application_ids lookup)
        lookup.resource_set_application_ids lookup.non_admin_apps (resource_set_ids lookup a)
        (λ k. refl)

  pub itself-Within : (xs : List String) → Within xs xs
  itself-Within xs x h = h
