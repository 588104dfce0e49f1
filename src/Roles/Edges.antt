-- ===== src/Roles/Edges.antt =====
-- The edges of models/role_assignment.py, and how models/user_role_assignment.py and its siblings put them together.
use openhound_okta.Base.{
  Bool, true, false, ◌&&◌, ◌||◌, not, Option, none, some, String, List, [], ◌∷◌, ◌++◌, ◌==◌, ◌<>◌,
  string_eq, option_eq, contains, if◌then◌else◌,
}
use openhound_okta.Oin.Declarative.{is_empty}
use openhound_okta.Roles.Lookup.{Lookup}
use openhound_okta.Roles.Assignment.{
  RoleAssignment, node_id, is_direct_active_assignment, direct_assignment_type, has_value,
  scoped_group_ids, scoped_app_ids, has_no_scope_apps, permission_group_ids, permission_app_ids,
  permission_user_ids, bound_application_ids, bound_non_admin_application_ids,
  bound_non_admin_group_ids, bound_non_admin_user_ids, union_of,
}

-- The kinds of kinds/edges.py that a role assignment uses.
pub data EdgeKind : Type 0 where
  contains_node has_role_assignment has_role scoped_to app_admin group_membership_admin
        helpdesk_admin group_admin :
      EdgeKind
  org_admin mobile_admin super_admin manage_app reset_factors reset_password add_member
        read_client_secret :
      EdgeKind

-- `Edge`; the end is `none` where a custom role has no id.
pub record Edge : Type 0 where
  pub kind : EdgeKind
  pub start : String
  pub end_id : Option String
  pub traversable : Bool

abbrev pub edge : EdgeKind → Bool → String → String → Edge
edge kind traversable start end_id = record {
  kind = kind;
  start = start;
  end_id = some end_id;
  traversable = traversable;
}

-- A traversable edge from the principal to each id.
unfoldable pub reaches : EdgeKind → RoleAssignment → List String → List Edge
reaches kind a [] = []
reaches kind a (x ∷ xs) = edge kind true a.source_id x ∷ reaches kind a xs

-- An edge from the assignment to each id.
unfoldable pub scopes : RoleAssignment → List String → List Edge
unfolding node_id
scopes a [] = []
scopes a (x ∷ xs) = edge scoped_to false (node_id a) x ∷ scopes a xs

-- `ids or ()`
abbrev pub ids_or_empty : Option (List String) → List String
ids_or_empty none = []
ids_or_empty (some ids) = ids

-- `GROUP_TARGETED_ROLE_TYPES`
unfoldable pub is_group_targeted : String → Bool
is_group_targeted type =
    contains ("GROUP_MEMBERSHIP_ADMIN" ∷ "HELP_DESK_ADMIN" ∷ "USER_ADMIN" ∷ []) type

-- `yield from`, one after the other.
unfoldable pub joined : List (List Edge) → List Edge
joined [] = []
joined (es ∷ rest) = es ++ joined rest

module _ (lookup : Lookup) where
  -- Some permission of the role.
  unfoldable pub has_any : Option String → List String → Bool
  has_any none permissions = false
  has_any (some role) [] = false
  has_any (some role) (permission ∷ permissions) =
      lookup.has_role_permission role permission || has_any (some role) permissions

  -- A custom role with one of the permissions.
  unfoldable pub is_custom_with : RoleAssignment → List String → Bool
  unfolding has_any
  is_custom_with a permissions =
      a.type == "CUSTOM" && (has_value a.role && has_any a.role permissions)

  -- `_contains_edge`, `_has_role_assignment_edges`
  unfoldable pub contains_edge : RoleAssignment → List Edge
  unfolding node_id
  contains_edge a = edge contains_node true lookup.org_id (node_id a) ∷ []

  unfoldable pub has_role_assignment_edges : RoleAssignment → List Edge
  unfolding node_id
  has_role_assignment_edges a = edge has_role_assignment false a.source_id (node_id a) ∷ []

  -- `_has_role_edges`
  unfoldable pub has_role_edges : RoleAssignment → List Edge
  has_role_edges a =
      record {
        kind = has_role;
        start = a.source_id;
        end_id = if a.type == "CUSTOM" then a.role else some (a.type <> ("@" <> lookup.tenant));
        traversable = false;
      }
      ∷ []

  -- `_manage_app_edges`
  unfoldable pub manage_app_edges : RoleAssignment → List Edge
  unfolding is_custom_with reaches bound_non_admin_application_ids
  manage_app_edges a =
      if is_custom_with a ("okta.apps.manage" ∷ [])
      then reaches manage_app a (bound_non_admin_application_ids lookup a)
      else []

  -- `_reset_factors_edges`
  unfoldable pub reset_factors_edges : RoleAssignment → List Edge
  unfolding is_custom_with reaches bound_non_admin_user_ids
  reset_factors_edges a =
      if is_custom_with a (
        "okta.users.credentials.resetFactors" ∷ "okta.users.credentials.manage"
        ∷ "okta.users.manage" ∷ [])
      then reaches reset_factors a (bound_non_admin_user_ids lookup a)
      else []

  -- `_reset_password_edges`
  unfoldable pub reset_password_edges : RoleAssignment → List Edge
  unfolding is_custom_with reaches bound_non_admin_user_ids
  reset_password_edges a =
      if is_custom_with a (
        "okta.users.credentials.resetPassword" ∷ "okta.users.credentials.manage"
        ∷ "okta.users.credentials.manageTemporaryAccessCode"
        ∷ "okta.users.credentials.expirePassword" ∷ "okta.users.manage" ∷ [])
      then reaches reset_password a (bound_non_admin_user_ids lookup a)
      else []

  -- The early returns of `_scoped_to_org_edge`.
  unfoldable pub is_scoped_elsewhere : RoleAssignment → Bool
  unfolding is_group_targeted scoped_group_ids
  is_scoped_elsewhere a =
      (a.type == "CUSTOM" || a.type == "WORKFLOWS_ADMIN")
      || ((a.type == "APP_ADMIN"
            && elim a.scope_apps [ none ↦ true | some targets ↦ not (is_empty targets) ])
          || (is_group_targeted a.type
              && elim (scoped_group_ids lookup a) [ none ↦ true | some ids ↦ not (is_empty ids) ]))

  -- `_scoped_to_org_edge`
  unfoldable pub scoped_to_org_edge : RoleAssignment → List Edge
  unfolding is_scoped_elsewhere scopes
  scoped_to_org_edge a = if is_scoped_elsewhere a then [] else scopes a (lookup.org_id ∷ [])

  -- `_scoped_to_group_edges`
  unfoldable pub scoped_to_group_edges : RoleAssignment → List Edge
  unfolding scopes scoped_group_ids
  scoped_to_group_edges a = scopes a (ids_or_empty (scoped_group_ids lookup a))

  -- `_scoped_to_app_edges`
  unfoldable pub scoped_to_app_edges : RoleAssignment → List Edge
  unfolding scopes scoped_app_ids
  scoped_to_app_edges a = scopes a (ids_or_empty (scoped_app_ids lookup a))

  -- `_group_membership_admin_edges`
  unfoldable pub group_membership_admin_edges : RoleAssignment → List Edge
  unfolding reaches permission_group_ids
  group_membership_admin_edges a =
      if a.type == "GROUP_MEMBERSHIP_ADMIN"
      then reaches group_membership_admin a (ids_or_empty (permission_group_ids lookup a))
      else []

  -- `_app_admin_edges`
  unfoldable pub app_admin_edges : RoleAssignment → List Edge
  unfolding reaches permission_app_ids
  app_admin_edges a =
      if a.type == "APP_ADMIN"
      then reaches app_admin a (ids_or_empty (permission_app_ids lookup a))
      else []

  -- `_helpdesk_admin_edges`
  unfoldable pub helpdesk_admin_edges : RoleAssignment → List Edge
  unfolding reaches permission_user_ids
  helpdesk_admin_edges a =
      if a.type == "HELP_DESK_ADMIN"
      then reaches helpdesk_admin a (ids_or_empty (permission_user_ids lookup a))
      else []

  -- `_org_admin_edges`
  unfoldable pub org_admin_edges : RoleAssignment → List Edge
  unfolding reaches
  org_admin_edges a =
      if a.type == "ORG_ADMIN"
      then reaches org_admin a
          (lookup.non_admin_users ++ (lookup.non_admin_groups ++ lookup.all_devices))
      else []

  -- `_user_admin_edges`
  unfoldable pub user_admin_edges : RoleAssignment → List Edge
  unfolding reaches permission_group_ids permission_user_ids
  user_admin_edges a =
      if a.type == "USER_ADMIN"
      then elim (permission_group_ids lookup a) [
        | none ↦ []
        | some groups ↦ elim (permission_user_ids lookup a) [
          | none ↦ []
          | some users ↦ reaches group_admin a groups ++ reaches group_admin a users
        ]
      ]
      else []

  -- `_mobile_admin_edges`
  unfoldable pub mobile_admin_edges : RoleAssignment → List Edge
  unfolding reaches
  mobile_admin_edges a =
      if a.type == "MOBILE_ADMIN" then reaches mobile_admin a lookup.all_devices else []

  -- `_super_admin_edge`
  unfoldable pub super_admin_edge : RoleAssignment → List Edge
  unfolding reaches
  super_admin_edge a =
      if a.type == "SUPER_ADMIN" then reaches super_admin a (lookup.org_id ∷ []) else []

  -- `add_member_edges`
  unfoldable pub add_member_edges : RoleAssignment → List Edge
  unfolding is_custom_with reaches bound_non_admin_group_ids direct_assignment_type
  add_member_edges a =
      if (a.status == "ACTIVE" && direct_assignment_type a.from_resource == some a.assignment_type)
        && is_custom_with a ("okta.groups.manage" ∷ "okta.groups.members.manage" ∷ [])
      then reaches add_member a (bound_non_admin_group_ids lookup a)
      else []

  -- The applications whose secrets a role reads.
  unfoldable pub readable_app_ids : RoleAssignment → List String
  unfolding scoped_app_ids has_no_scope_apps is_custom_with bound_application_ids
  readable_app_ids a =
      if a.type == "APP_ADMIN"
      then elim (scoped_app_ids lookup a) [
        | none ↦ []
        | some scoped ↦ if has_no_scope_apps a then lookup.all_applications else scoped
      ]
      else if contains ("API_ACCESS_MANAGEMENT_ADMIN" ∷ "READ_ONLY_ADMIN" ∷ []) a.type
      then lookup.all_applications
      else if is_custom_with a ("okta.apps.clientCredentials.read" ∷ [])
      then bound_application_ids lookup a
      else []

  -- `read_client_secret_edges`
  unfoldable pub read_client_secret_edges : RoleAssignment → List Edge
  unfolding readable_app_ids union_of reaches
  read_client_secret_edges a =
      reaches read_client_secret a (union_of lookup.application_secret_ids (readable_app_ids a))

  -- The edges of a role, as `edges` yields them: the scope, custom roles, wide roles, all.
  abbrev pub scope_edges : RoleAssignment → List (List Edge)
  scope_edges a =
      scoped_to_app_edges a
      ∷ scoped_to_group_edges a
      ∷ scoped_to_org_edge a
      ∷ read_client_secret_edges a
      ∷ add_member_edges a
      ∷ []

  abbrev pub custom_edges : RoleAssignment → List (List Edge)
  custom_edges a =
      manage_app_edges a ∷ reset_factors_edges a ∷ reset_password_edges a ∷ scope_edges a

  abbrev pub wide_edges : RoleAssignment → List (List Edge)
  wide_edges a =
      mobile_admin_edges a
      ∷ super_admin_edge a
      ∷ org_admin_edges a
      ∷ user_admin_edges a
      ∷ custom_edges a

  abbrev pub role_edges : RoleAssignment → List (List Edge)
  role_edges a =
      contains_edge a
      ∷ has_role_assignment_edges a
      ∷ has_role_edges a
      ∷ app_admin_edges a
      ∷ group_membership_admin_edges a
      ∷ helpdesk_admin_edges a
      ∷ wide_edges a

  -- `UserRoleAssignment.edges`
  unfoldable pub edges : RoleAssignment → List Edge
  unfolding joined is_direct_active_assignment
  edges a = if is_direct_active_assignment a then joined (role_edges a) else []
