-- ===== src/Lookup/Resolve.antt =====
-- What a member of a resource set refers to: its URL or, without one, its Okta Resource Name (ORN).
pub mod Members
pub mod Collected
pub mod Sets
use openhound_okta.Base.{
  ℕ, zero, suc, ◌≡◌, Bool, true, false, ◌&&◌, not, Option, none, some, String, ◌<>◌, List, [], ◌∷◌,
  ◌++◌, ◌==◌, string_eq, nat_eq, leb, if◌then◌else◌, length, contains,
}
use openhound_okta.Base.Paths.{
  parts_at, last_or, at_or, but_last, last_part, rstrip, begins_with, ends_with_text,
}
use openhound_okta.Base.Results.{Result, ok, err, ◌>>=◌}
use openhound_okta.Base.Sorting.{sorted_set}
use openhound_okta.Lookup.Tables.{
  Table, users, groups, applications, api_services, authorization_servers, identity_providers,
  policies, devices, Database, Resource, LookupError, bad_url, no_table, all_ids, existing_ids,
  ids_by_value, all_apps_and_integrations, apps_and_integrations_by_type, group_user_ids,
}

-- `urllib.parse.ParseResult`
pub record ResourceUrl : Type 0 where
  pub path : String
  pub query : String

-- `urlparse`, `none` where it raises `ValueError`, and the first value of a key in `parse_qs`.
pub record UrlReader : Type 0 where
  pub urlparse : String → Option ResourceUrl
  pub first_value : String → String → Option String

-- A text is there and not empty.
abbrev pub is_given : Option String → Bool
is_given none = false
is_given (some s) = not (s == "")

abbrev pub given : Option String → String
given none = ""
given (some s) = s

-- `value or "/"`
abbrev or_slash : String → String
or_slash path = if path == "" then "/" else path

-- `xs[-2]`
unfoldable pub second_last : List String → String
unfolding last_or but_last
second_last xs = last_or "" (but_last xs)

-- The group whose members a URL's path stands for.
unfoldable pub group_of_path : String → Option String
unfolding begins_with ends_with_text parts_at at_or
group_of_path path =
    if begins_with "/api/v1/groups/" path && ends_with_text "/users" path
    then (if length (parts_at b'/' path) == 6 && not (at_or "" 4 (parts_at b'/' path) == "")
        then some (at_or "" 4 (parts_at b'/' path))
        else none)
    else none

-- The group whose members the parts of an ORN stand for.
unfoldable pub group_of_orn : List String → Option String
unfolding second_last last_or but_last
group_of_orn parts =
    if leb 3 (length parts)
      && (last_or "" parts == "contained_resources"
          && (second_last (but_last parts) == "groups" && not (second_last parts == "")))
    then some (second_last parts)
    else none

-- `[^"]+"` and nothing else: what stands before the quote.
unfoldable pub until_quote : String → Option String
until_quote String.[] = none
until_quote (String.◌∷◌ c s) =
    let rest = until_quote s in
    if String.◌∷◌ c s == "\"" then some "" else elim rest [
      | none ↦ none
      | some inside ↦ if String.◌∷◌ c "" == "\"" then none else some (String.◌∷◌ c inside)
    ]

-- What is behind the prefix of a text that begins with it.
unfoldable pub after : String → String → String
after String.[] s = s
after (String.◌∷◌ c p) String.[] = ""
after (String.◌∷◌ c p) (String.◌∷◌ d s) = after p s

-- `re.fullmatch(r'name eq "([^"]+)"', filter_value)`
unfoldable pub app_type_of : String → Option String
unfolding begins_with until_quote after
app_type_of filter_value =
    if begins_with "name eq \"" filter_value
    then elim (until_quote (after "name eq \"" filter_value)) [
      | none ↦ none
      | some app_type ↦ if app_type == "" then none else some app_type
    ]
    else none

module _ (u : UrlReader) where
  -- `_app_type_from_filter`
  unfoldable pub app_type_from_filter : String → Option String
  unfolding app_type_of
  app_type_from_filter query = elim (u.first_value query "filter") [
    | none ↦ none
    | some filter_value ↦ app_type_of filter_value
  ]

  -- `resource_member_group_id`
  unfoldable pub resource_member_group_id :
      Option String → Option String → Result LookupError (Option String)
  unfolding group_of_path group_of_orn rstrip parts_at
  resource_member_group_id resource_url orn =
      if is_given resource_url
      then elim (u.urlparse (given resource_url)) [
        | none ↦ err bad_url
        | some parsed ↦ ok (group_of_path (rstrip b'/' parsed.path))
      ]
      else if is_given orn
      then ok (group_of_orn (parts_at b':' (given orn)))
      else ok none

module _ (u : UrlReader) (db : Database) where
  -- A path below `/api/v1/users` or `/api/v1/groups`, or else what follows.
  unfoldable pub resolve_directory :
      String → Result LookupError (List String) → Result LookupError (List String)
  unfolding all_ids existing_ids group_user_ids begins_with ends_with_text last_part parts_at
      second_last
  resolve_directory path other =
      if path == "/api/v1/users"
      then ok (all_ids db users)
      else if begins_with "/api/v1/users/" path
      then ok (existing_ids db users (last_part b'/' path))
      else if path == "/api/v1/groups"
      then ok (all_ids db groups)
      else if begins_with "/api/v1/groups/" path && ends_with_text "/users" path
      then group_user_ids db (second_last (parts_at b'/' path) ∷ [])
      else if begins_with "/api/v1/groups/" path
      then ok (existing_ids db groups (last_part b'/' path))
      else other

  -- `/api/v1/apps`, with its filter.
  unfoldable pub resolve_apps : String → List String
  unfolding all_apps_and_integrations apps_and_integrations_by_type app_type_from_filter
  resolve_apps query =
      if query == "" then all_apps_and_integrations db else elim (app_type_from_filter u query) [
        | none ↦ []
        | some app_type ↦ apps_and_integrations_by_type db app_type
      ]

  -- `/api/v1/policies`, with its type.
  unfoldable pub resolve_policies : String → List String
  unfolding ids_by_value all_ids
  resolve_policies query = elim (u.first_value query "type") [
    | none ↦ all_ids db policies
    | some policy_type ↦
        if policy_type == "" then all_ids db policies else ids_by_value db policies policy_type
  ]

  -- The paths of the other objects.
  unfoldable pub resolve_object : String → String → List String
  unfolding resolve_apps resolve_policies existing_ids all_ids ids_by_value sorted_set begins_with
      last_part
  resolve_object path query =
      let id = last_part b'/' path in
      if path == "/api/v1/apps"
      then resolve_apps query
      else if begins_with "/api/v1/apps/" path
      then sorted_set (existing_ids db applications id ++ existing_ids db api_services id)
      else if path == "/api/v1/authorizationServers"
      then all_ids db authorization_servers
      else if begins_with "/api/v1/authorizationServers/" path
      then existing_ids db authorization_servers id
      else if path == "/api/v1/devices"
      then all_ids db devices
      else if begins_with "/api/v1/devices/" path
      then existing_ids db devices id
      else if path == "/api/v1/idps"
      then all_ids db identity_providers
      else if begins_with "/api/v1/idps/" path
      then existing_ids db identity_providers id
      else if path == "/api/v1/policies"
      then resolve_policies query
      else if begins_with "/api/v1/policies/" path
      then ids_by_value db policies id
      else []

  -- `resolve_resource_url`
  unfoldable pub resolve_resource_url : Option String → Result LookupError (List String)
  unfolding resolve_directory resolve_object rstrip
  resolve_resource_url none = ok []
  resolve_resource_url (some resource_url) =
      if resource_url == "" then ok [] else elim (u.urlparse resource_url) [
        | none ↦ err bad_url
        | some parsed ↦
            resolve_directory (or_slash (rstrip b'/' parsed.path))
              (ok (resolve_object (or_slash (rstrip b'/' parsed.path)) parsed.query))
      ]

-- The types of resources that an ORN may name, with their tables.
abbrev pub resource_types : List (String × List Table)
resource_types =
    ("users", users ∷ [])
    ∷ ("groups", groups ∷ [])
    ∷ ("apps", applications ∷ api_services ∷ [])
    ∷ ("devices", devices ∷ [])
    ∷ ("authorization_servers", authorization_servers ∷ [])
    ∷ ("identity_provider", identity_providers ∷ [])
    ∷ []

module _ (db : Database) where
  -- `resource_collections`
  unfoldable pub resource_collection : String → Option (List String)
  unfolding all_ids all_apps_and_integrations
  resource_collection name =
      if name == "users"
      then some (all_ids db users)
      else if name == "groups"
      then some (all_ids db groups)
      else if name == "apps"
      then some (all_apps_and_integrations db)
      else if name == "devices"
      then some (all_ids db devices)
      else if name == "authorization_servers"
      then some (all_ids db authorization_servers)
      else if name == "identity_provider"
      then some (all_ids db identity_providers)
      else if name == "policies"
      then some (all_ids db policies)
      else none

  -- The ids in these tables, as one set.
  unfoldable pub existing_in : List Table → String → List String
  unfolding existing_ids
  existing_in [] target_id = []
  existing_in (t ∷ ts) target_id = existing_ids db t target_id ++ existing_in ts target_id

  -- The first type of resource that the ORN names, with its tables.
  unfoldable pub resolve_target : List (String × List Table) → List String → String → List String
  unfolding existing_in sorted_set
  resolve_target [] names target_id = []
  resolve_target ((resource_type, tables) ∷ types) names target_id =
      let rest = resolve_target types names target_id in
      if contains names resource_type then sorted_set (existing_in tables target_id) else rest

  -- An ORN, by its parts, that is not about the members of a group.
  unfoldable pub resolve_parts : List String → List String
  unfolding resource_collection apps_and_integrations_by_type ids_by_value resolve_target last_or
      but_last at_or
  resolve_parts parts = elim (resource_collection (last_or "" parts)) [
    | some ids ↦ ids
    | none ↦
        if length parts == 6 && at_or "" 4 parts == "apps"
        then apps_and_integrations_by_type db (at_or "" 5 parts)
        else if length parts == 6 && at_or "" 4 parts == "policies"
        then ids_by_value db policies (at_or "" 5 parts)
        else resolve_target resource_types (but_last parts) (last_or "" parts)
  ]

  -- `resolve_resource_orn`
  unfoldable pub resolve_resource_orn : Option String → Result LookupError (List String)
  unfolding resolve_parts group_of_orn group_user_ids parts_at
  resolve_resource_orn none = ok []
  resolve_resource_orn (some orn) =
      if orn == "" then ok [] else elim (group_of_orn (parts_at b':' orn)) [
        | some group_id ↦ group_user_ids db (group_id ∷ [])
        | none ↦ ok (resolve_parts (parts_at b':' orn))
      ]

module _ (u : UrlReader) (db : Database) where
  -- A row of `resources`: its URL if there is one, else its ORN.
  unfoldable pub resolve_resource : Resource → Result LookupError (List String)
  unfolding resolve_resource_url resolve_resource_orn
  resolve_resource resource =
      if is_given resource.self_href
      then resolve_resource_url u db resource.self_href
      else resolve_resource_orn db resource.orn

  -- The loop over the rows of a resource set.
  unfoldable pub resolve_all : String → List Resource → Result LookupError (List String)
  unfolding resolve_resource
  resolve_all resource_set_id [] = ok []
  resolve_all resource_set_id (resource ∷ resources) =
      let rest = resolve_all resource_set_id resources in
      if resource.resource_set_id == resource_set_id
      then (resolve_resource resource >>= λ ids. (rest >>= λ more. ok (ids ++ more)))
      else rest

  -- `resource_set_member_ids`
  unfoldable pub resource_set_member_ids : String → Result LookupError (List String)
  unfolding resolve_all sorted_set
  resource_set_member_ids resource_set_id = elim db.resources [
    | none ↦ ok []
    | some rows ↦ (resolve_all resource_set_id rows >>= λ ids. ok (sorted_set ids))
  ]

  -- The ids that stand in the second list too.
  unfoldable pub ids_among : List String → List String → List String
  ids_among [] allowed = []
  ids_among (x ∷ xs) allowed =
      let rest = ids_among xs allowed in if contains allowed x then x ∷ rest else rest

  -- `_resource_set_ids_in_table`
  unfoldable pub resource_set_ids_in_table : String → Table → Result LookupError (List String)
  unfolding resource_set_member_ids all_ids sorted_set ids_among
  resource_set_ids_in_table resource_set_id t = resource_set_member_ids resource_set_id >>= λ ids.
      ok (sorted_set (ids_among ids (all_ids db t)))
