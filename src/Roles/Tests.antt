-- ===== src/Roles/Tests.antt =====
-- Runs of models/role_assignment.py on concrete assignments.
use openhound_okta.Base.{
  ◌≡◌, refl, true, false, Option, none, some, String, List, [], ◌∷◌, ◌==◌, string_eq, option_eq,
  All,
}
use openhound_okta.Roles.Lookup.{Lookup}
use openhound_okta.Roles.Assignment.{RoleAssignment, AppTarget, permission_group_ids}
use openhound_okta.Roles.Edges.{
  edges, app_admin_edges, helpdesk_admin_edges, edge, app_admin, helpdesk_admin, is_group_targeted,
}
use openhound_okta.Roles.Within.{AddsNothing}
use openhound_okta.Roles.Protection.{IsProtected, edges-AreProtected}
use openhound_okta.Roles.Scope.{EndsAt, IsTarget, app_admin_edges-EndsAt}

-- Two users of whom one is an administrator, and one application.
abbrev tables : Lookup
tables = record {
  tenant = "contoso.okta.com";
  org_id = "org";
  has_role_permission = λ role permission. false;
  application_by_id = λ id. id == "app1";
  group_by_id = λ id. false;
  all_groups = "g1" ∷ [];
  non_admin_groups = "g1" ∷ [];
  all_users = "u1" ∷ "admin" ∷ [];
  non_admin_users = "u1" ∷ [];
  all_api_services = [];
  all_applications = "app1" ∷ "app2" ∷ [];
  non_admin_apps = "app1" ∷ "app2" ∷ [];
  application_ids_by_name = λ name. [];
  api_service_ids_by_name = λ name. [];
  application_secret_ids = λ id. [];
  resource_set_application_ids = λ id. [];
  resource_set_user_ids = λ id. [];
  resource_set_group_ids = λ id. [];
  group_user_ids = λ ids. [];
  role_assignment_resource_set_ids = λ id source. [];
  all_devices = [];
  sorted = λ ids. ids;
}

abbrev assignment : String → Option (List AppTarget) → Option (List String) → RoleAssignment
assignment type scope_apps scope_groups = record {
  id = "ra1";
  from_resource = "user";
  source_id = "u2";
  assignment_type = "USER";
  status = "ACTIVE";
  type = type;
  role = none;
  scope_apps = scope_apps;
  scope_groups = scope_groups;
}

abbrev app1 : AppTarget
app1 = record { name = "app"; id = some "app1"; status = some "ACTIVE" }

adds_nothing : AddsNothing tables
adds_nothing xs x h = h

administrators_are_spared :
    helpdesk_admin_edges tables (assignment "HELP_DESK_ADMIN" none (some []))
    ≡ edge helpdesk_admin true "u2" "u1" ∷ []
unfolding helpdesk_admin_edges string_eq option_eq
administrators_are_spared = refl

edges-AreProtected_example :
    All (IsProtected tables) (edges tables (assignment "HELP_DESK_ADMIN" none (some [])))
edges-AreProtected_example =
    edges-AreProtected tables adds_nothing (assignment "HELP_DESK_ADMIN" none (some []))

app_admin_edges-EndsAt_example :
    All
      (EndsAt (IsTarget tables (app1 ∷ [])))
      (app_admin_edges tables (assignment "APP_ADMIN" (some (app1 ∷ [])) none))
app_admin_edges-EndsAt_example =
    app_admin_edges-EndsAt tables adds_nothing (assignment "APP_ADMIN" (some (app1 ∷ [])) none) app1
      [] refl

-- A target that is not active leaves no edge, and the active one leaves one.
app_admin_is_scoped :
    app_admin_edges tables (
      assignment "APP_ADMIN"
        (some (record app1 { id = some "app2" } ∷ record app1 { status = none } ∷ app1 ∷ []))
        none)
    ≡ edge app_admin true "u2" "app1" ∷ []
unfolding app_admin_edges string_eq option_eq
app_admin_is_scoped = refl

user_admin_is_targeted : is_group_targeted "USER_ADMIN" ≡ true
unfolding is_group_targeted string_eq
user_admin_is_targeted = refl

-- A role whose groups are all unknown to the graph reaches what it would reach without a limit.
unresolved_groups_widen :
    permission_group_ids tables (assignment "HELP_DESK_ADMIN" none (some ("gone" ∷ [])))
    ≡ some ("g1" ∷ [])
unfolding permission_group_ids string_eq
unresolved_groups_widen = refl
