-- ===== src/Roles/Assignment.antt =====
-- `RoleAssignment` of models/role_assignment.py: its scope and the ids that it may reach.
use openhound_okta.Base.{
  Bool, true, false, ◌&&◌, not, Option, none, some, String, List, [], ◌∷◌, ◌++◌, ◌==◌, ◌<>◌,
  string_eq, option_eq, contains, if◌then◌else◌,
}
use openhound_okta.Oin.Declarative.{is_empty}
use openhound_okta.Roles.Lookup.{
  Lookup, among, resource_set_non_admin_application_ids, resource_set_non_admin_user_ids,
  resource_set_non_admin_group_ids,
}

-- `RoleAssignmentAppTarget`
pub record AppTarget : Type 0 where
  pub name : String
  pub id : Option String
  pub status : Option String

-- The fields of `RoleAssignment` that decide; `scope_groups` holds the ids of the groups.
pub record RoleAssignment : Type 0 where
  pub id : String
  pub from_resource : String
  pub source_id : String
  pub assignment_type : String
  pub status : String
  pub type : String
  pub role : Option String
  pub scope_apps : Option (List AppTarget)
  pub scope_groups : Option (List String)

-- `DIRECT_ASSIGNMENT_TYPES.get(from_resource)`
unfoldable pub direct_assignment_type : String → Option String
direct_assignment_type from_resource =
    if from_resource == "user"
    then some "USER"
    else if from_resource == "group"
    then some "GROUP"
    else if from_resource == "client"
    then some "CLIENT"
    else none

-- `SUPPORTED_ROLE_ASSIGNMENT_TYPES`
abbrev pub supported_role_assignment_types : List String
supported_role_assignment_types =
    "API_ACCESS_MANAGEMENT_ADMIN" ∷ "APP_ADMIN" ∷ "GROUP_MEMBERSHIP_ADMIN" ∷ "HELP_DESK_ADMIN"
    ∷ "MOBILE_ADMIN" ∷ "ORG_ADMIN" ∷ "READ_ONLY_ADMIN" ∷ "REPORT_ADMIN" ∷ "SUPER_ADMIN"
    ∷ "USER_ADMIN" ∷ "WORKFLOWS_ADMIN" ∷ "CUSTOM" ∷ []

-- `node_id`
unfoldable pub node_id : RoleAssignment → String
node_id a = a.id <> ("_" <> a.source_id)

-- `is_direct_active_assignment`
unfoldable pub is_direct_active_assignment : RoleAssignment → Bool
unfolding direct_assignment_type
is_direct_active_assignment a =
    a.status == "ACTIVE"
    && (direct_assignment_type a.from_resource == some a.assignment_type
        && contains supported_role_assignment_types a.type)

-- A value that is there and not empty.
abbrev pub has_value : Option String → Bool
has_value none = false
has_value (some v) = not (v == "")

-- The items that pass a test.
abbrev pub those : (String → Bool) → List String → List String
those p [] = []
those p (x ∷ xs) = if p x then x ∷ those p xs else those p xs

-- The ids of several sets.
unfoldable pub union_of : (String → List String) → List String → List String
union_of f [] = []
union_of f (x ∷ xs) = f x ++ union_of f xs

-- `ids if ids else others`
unfoldable pub or_all : List String → List String → List String
or_all [] others = others
or_all (x ∷ xs) others = x ∷ xs

-- `not self.scope_apps`
unfoldable pub has_no_scope_apps : RoleAssignment → Bool
has_no_scope_apps a = elim a.scope_apps [ none ↦ true | some targets ↦ is_empty targets ]

module _ (lookup : Lookup) where
  -- `scoped_group_ids`
  unfoldable pub scoped_group_ids : RoleAssignment → Option (List String)
  scoped_group_ids a = elim a.scope_groups [
    | none ↦ none
    | some groups ↦ some (those lookup.group_by_id groups)
  ]

  -- The ids of one target.
  unfoldable pub target_ids : AppTarget → List String
  target_ids target =
      let by_name =
        lookup.application_ids_by_name target.name ++ lookup.api_service_ids_by_name target.name in
      if target.status == some "ACTIVE"
      then elim target.id [
        | none ↦ by_name
        | some id ↦
            if id == "" then by_name else if lookup.application_by_id id then id ∷ [] else []
      ]
      else []

  unfoldable pub all_target_ids : List AppTarget → List String
  unfolding target_ids
  all_target_ids [] = []
  all_target_ids (target ∷ targets) = target_ids target ++ all_target_ids targets

  -- `scoped_app_ids`
  unfoldable pub scoped_app_ids : RoleAssignment → Option (List String)
  unfolding all_target_ids
  scoped_app_ids a = elim a.scope_apps [
    | none ↦ none
    | some targets ↦ some (lookup.sorted (all_target_ids targets))
  ]

  -- `resource_set_ids`
  unfoldable pub resource_set_ids : RoleAssignment → List String
  resource_set_ids a = lookup.role_assignment_resource_set_ids a.id a.source_id

  -- `_permission_group_ids`
  unfoldable pub permission_group_ids : RoleAssignment → Option (List String)
  unfolding scoped_group_ids or_all among
  permission_group_ids a = elim (scoped_group_ids a) [
    | none ↦ none
    | some scoped ↦ some (among (or_all scoped lookup.all_groups) lookup.non_admin_groups)
  ]

  -- `_permission_app_ids`
  unfoldable pub permission_app_ids : RoleAssignment → Option (List String)
  unfolding scoped_app_ids has_no_scope_apps among
  permission_app_ids a = elim (scoped_app_ids a) [
    | none ↦ none
    | some scoped ↦ some (
        among
          (if has_no_scope_apps a
            then lookup.all_applications ++ lookup.all_api_services
            else scoped)
          (lookup.non_admin_apps ++ lookup.all_api_services))
  ]

  -- The users of the groups, if there are any.
  unfoldable pub users_of_groups : List String → List String
  users_of_groups [] = lookup.all_users
  users_of_groups (x ∷ xs) = lookup.group_user_ids (x ∷ xs)

  -- `_permission_user_ids`
  unfoldable pub permission_user_ids : RoleAssignment → Option (List String)
  unfolding scoped_group_ids users_of_groups among
  permission_user_ids a = elim (scoped_group_ids a) [
    | none ↦ none
    | some scoped ↦ some (among (users_of_groups scoped) lookup.non_admin_users)
  ]

  -- `_bound_resource_set_application_ids`
  unfoldable pub bound_application_ids : RoleAssignment → List String
  unfolding union_of resource_set_ids
  bound_application_ids a =
      lookup.sorted (union_of lookup.resource_set_application_ids (resource_set_ids a))

  -- `_bound_resource_set_non_admin_application_ids`
  unfoldable pub bound_non_admin_application_ids : RoleAssignment → List String
  unfolding union_of resource_set_ids resource_set_non_admin_application_ids
  bound_non_admin_application_ids a =
      lookup.sorted (union_of (resource_set_non_admin_application_ids lookup) (resource_set_ids a))

  -- `_bound_resource_set_non_admin_group_ids`
  unfoldable pub bound_non_admin_group_ids : RoleAssignment → List String
  unfolding union_of resource_set_ids resource_set_non_admin_group_ids
  bound_non_admin_group_ids a =
      lookup.sorted (union_of (resource_set_non_admin_group_ids lookup) (resource_set_ids a))

  -- `_bound_resource_set_non_admin_user_ids`
  unfoldable pub bound_non_admin_user_ids : RoleAssignment → List String
  unfolding union_of resource_set_ids resource_set_non_admin_user_ids
  bound_non_admin_user_ids a =
      lookup.sorted (union_of (resource_set_non_admin_user_ids lookup) (resource_set_ids a))
