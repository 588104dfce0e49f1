-- ===== src/Lookup/Tables.antt =====
-- The tables that lookup.py queries, and its queries for ids. What `lru_cache` keeps is what a query would answer again,
-- since the tables do not change.
pub mod Answers
use openhound_okta.Base.{
  ◌≡◌, Bool, true, false, ◌&&◌, not, Option, none, some, String, ◌<>◌, List, [], ◌∷◌, ◌++◌, map,
  ◌==◌, string_eq, option_eq, if◌then◌else◌,
}
use openhound_okta.Base.Results.{Result, ok, err}
use openhound_okta.Base.Sorting.{sorted_set}

-- The tables by their names.
pub data Table : Type 0 where
  users : Table
  groups : Table
  applications : Table
  api_services : Table
  authorization_servers : Table
  identity_providers : Table
  policies : Table
  devices : Table
  application_secrets : Table
  api_service_secrets : Table

-- A row: its id, and what stands in the column that it is selected by besides: `name` of an application, `type` of an API
-- service or a policy, `app_id` of a secret, `$.udid` in the `profile` of a device.
pub record Entry : Type 0 where
  pub id : String
  pub value : Option String

-- A row of `resources`, with `$.self.href` of its links.
pub record Resource : Type 0 where
  pub resource_set_id : String
  pub self_href : Option String
  pub orn : Option String

-- A row of `resource_set_role_assignments`.
pub record Binding : Type 0 where
  pub id : String
  pub assignee_id : String
  pub resource_set_id : String

-- The database; `none` stands for a table that does not exist.
pub record Database : Type 0 where
  pub tenant_domain : Option String
  pub table : Table → Option (List Entry)
  pub devices_have_profiles : Bool
  pub group_memberships : Option (List (String × String))
  pub resources : Option (List Resource)
  pub resource_set_role_assignments : Option (List Binding)

-- `urlparse` raised `ValueError`, or DuckDB `CatalogException`.
pub data LookupError : Type 0 where
  bad_url : LookupError
  no_table : LookupError

abbrev pub is_devices : Table → Bool
is_devices devices = true
is_devices _ = false

abbrev truthy : Option String → Bool
truthy none = false
truthy (some s) = not (s == "")

abbrev text_or_empty : Option String → String
text_or_empty none = ""
text_or_empty (some s) = s

-- `device_graph_id`
unfoldable pub device_graph_id : String → Option String → Option String → String
device_graph_id okta_device_id udid tenant_domain =
    if truthy udid && truthy tenant_domain
    then text_or_empty udid <> ("@" <> text_or_empty tenant_domain)
    else okta_device_id

-- The rows with that id.
unfoldable pub with_id : String → List Entry → List Entry
with_id resource_id [] = []
with_id resource_id (row ∷ rows) =
    let rest = with_id resource_id rows in if row.id == resource_id then row ∷ rest else rest

-- The rows with that value in the column.
unfoldable pub with_value : String → List Entry → List Entry
with_value value [] = []
with_value value (row ∷ rows) =
    let rest = with_value value rows in if row.value == some value then row ∷ rest else rest

abbrev pub id_of : Entry → String
id_of row = row.id

-- The ids of the members of a group, from pairs of a group and a user.
unfoldable pub members_of : String → List (String × String) → List String
members_of group_id [] = []
members_of group_id ((group, user) ∷ rows) =
    let rest = members_of group_id rows in if group == group_id then user ∷ rest else rest

-- The ids of the members of all of these groups.
unfoldable pub members_of_all : List String → List (String × String) → List String
unfolding members_of
members_of_all [] rows = []
members_of_all (group_id ∷ group_ids) rows =
    members_of group_id rows ++ members_of_all group_ids rows

module _ (db : Database) where
  -- The id of a row in the graph: devices have one of their own.
  unfoldable pub graph_id : Table → Entry → String
  unfolding device_graph_id
  graph_id t row =
      if is_devices t
      then device_graph_id row.id (if db.devices_have_profiles then row.value else none)
          db.tenant_domain
      else row.id

  -- `_all_ids` and, for devices, `_device_graph_ids`
  unfoldable pub all_ids : Table → List String
  unfolding sorted_set graph_id
  all_ids t = elim (db.table t) [ none ↦ [] | some rows ↦ sorted_set (map (graph_id t) rows) ]

  -- `device_graph_id_by_okta_id` for the rows with that id, and the tuple made of it.
  unfoldable pub first_device : List Entry → List String
  unfolding graph_id
  first_device [] = []
  first_device (row ∷ rows) = if graph_id devices row == "" then [] else graph_id devices row ∷ []

  -- `_existing_ids`
  unfoldable pub existing_ids : Table → String → List String
  unfolding first_device with_id sorted_set
  existing_ids t resource_id = elim (db.table t) [
    | none ↦ []
    | some rows ↦
        if is_devices t
        then first_device (with_id resource_id rows)
        else sorted_set (map id_of (with_id resource_id rows))
  ]

  -- `_ids_by_value`
  unfoldable pub ids_by_value : Table → String → List String
  unfolding with_value sorted_set
  ids_by_value t value = elim (db.table t) [
    | none ↦ []
    | some rows ↦ sorted_set (map id_of (with_value value rows))
  ]

  -- `_all_apps_and_integrations`
  unfoldable pub all_apps_and_integrations : List String
  unfolding all_ids sorted_set
  all_apps_and_integrations = sorted_set (all_ids applications ++ all_ids api_services)

  -- `_apps_and_integrations_by_type`
  unfoldable pub apps_and_integrations_by_type : String → List String
  unfolding ids_by_value sorted_set
  apps_and_integrations_by_type app_type =
      sorted_set (ids_by_value applications app_type ++ ids_by_value api_services app_type)

  -- `group_user_ids`
  unfoldable pub group_user_ids : List String → Result LookupError (List String)
  unfolding sorted_set members_of_all
  group_user_ids [] = ok []
  group_user_ids (group_id ∷ group_ids) = elim db.group_memberships [
    | none ↦ err no_table
    | some rows ↦ ok (sorted_set (members_of_all (group_id ∷ group_ids) rows))
  ]

  -- `application_secret_ids`
  unfoldable pub application_secret_ids : String → List String
  unfolding ids_by_value sorted_set
  application_secret_ids app_id =
      sorted_set
        (ids_by_value application_secrets app_id ++ ids_by_value api_service_secrets app_id)

  -- The bindings of a role assignment and an assignee.
  unfoldable pub bound_sets : String → String → List Binding → List String
  bound_sets role_assignment_id assignee_id [] = []
  bound_sets role_assignment_id assignee_id (row ∷ rows) =
      let rest = bound_sets role_assignment_id assignee_id rows in
      if row.id == role_assignment_id && row.assignee_id == assignee_id
      then row.resource_set_id ∷ rest
      else rest

  -- `role_assignment_resource_set_ids`
  unfoldable pub role_assignment_resource_set_ids : String → String → List String
  unfolding bound_sets sorted_set
  role_assignment_resource_set_ids role_assignment_id assignee_id =
      elim db.resource_set_role_assignments [
        | none ↦ []
        | some rows ↦ sorted_set (bound_sets role_assignment_id assignee_id rows)
      ]
