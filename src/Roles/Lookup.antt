-- ===== src/Roles/Lookup.antt =====
-- What role assignments ask of lookup.py: the tables of the collected graph.
use openhound_okta.Base.{Bool, String, List, [], ◌∷◌, string_eq, contains, if◌then◌else◌}

-- The answers of `OktaLookup`; `sorted` is Python's `sorted` of a set of ids.
pub record Lookup : Type 0 where
  pub tenant : String
  pub org_id : String
  pub has_role_permission : String → String → Bool
  pub application_by_id : String → Bool
  pub group_by_id : String → Bool
  pub all_groups : List String
  pub non_admin_groups : List String
  pub all_users : List String
  pub non_admin_users : List String
  pub all_api_services : List String
  pub all_applications : List String
  pub non_admin_apps : List String
  pub application_ids_by_name : String → List String
  pub api_service_ids_by_name : String → List String
  pub application_secret_ids : String → List String
  pub resource_set_application_ids : String → List String
  pub resource_set_user_ids : String → List String
  pub resource_set_group_ids : String → List String
  pub group_user_ids : List String → List String
  pub role_assignment_resource_set_ids : String → String → List String
  pub all_devices : List String
  pub sorted : List String → List String

-- The ids that stand in the second list too.
unfoldable pub among : List String → List String → List String
among [] allowed = []
among (x ∷ xs) allowed =
    let rest = among xs allowed in if contains allowed x then x ∷ rest else rest

module _ (lookup : Lookup) where
  -- `OktaLookup.resource_set_non_admin_application_ids`
  unfoldable pub resource_set_non_admin_application_ids : String → List String
  unfolding among
  resource_set_non_admin_application_ids resource_set_id =
      lookup.sorted
        (among (lookup.resource_set_application_ids resource_set_id) lookup.non_admin_apps)

  -- `OktaLookup.resource_set_non_admin_user_ids`
  unfoldable pub resource_set_non_admin_user_ids : String → List String
  unfolding among
  resource_set_non_admin_user_ids resource_set_id =
      lookup.sorted (among (lookup.resource_set_user_ids resource_set_id) lookup.non_admin_users)

  -- `OktaLookup.resource_set_non_admin_group_ids`
  unfoldable pub resource_set_non_admin_group_ids : String → List String
  unfolding among
  resource_set_non_admin_group_ids resource_set_id =
      lookup.sorted (among (lookup.resource_set_group_ids resource_set_id) lookup.non_admin_groups)
