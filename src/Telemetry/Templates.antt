-- ===== src/Telemetry/Templates.antt =====
-- telemetry.py: the templates that stand for endpoints, the categories of answers and errors, limiter groups.
use openhound_okta.Base.{
  ℕ, ◌≡◌, ◌⊎◌, Bool, true, false, ◌&&◌, not, Option, none, some, String, List, [], ◌∷◌, map, leb,
  ltb, ◌==◌, string_eq, nat_eq, contains, if◌then◌else◌, arith, Bool-cases, inl, inr,
}
use openhound_okta.Base.Paths.{parts_at, rstrip}

-- A segment of a pattern: a word, `[^/]+`, or `(?:/[^/]+)*` at the end.
pub data Segment : Type 0 where
  word : String → Segment
  any : Segment
  more : Segment

-- No segment is empty.
unfoldable pub no_empty : List String → Bool
no_empty [] = true
no_empty (s ∷ ss) = not (s == "") && no_empty ss

-- `pattern.fullmatch(path)`, by segments.
unfoldable pub matches_path : List Segment → List String → Bool
unfolding no_empty
matches_path [] [] = true
matches_path [] (s ∷ ss) = false
matches_path (more ∷ ps) ss = no_empty ss
matches_path (any ∷ ps) [] = false
matches_path (any ∷ ps) (s ∷ ss) = not (s == "") && matches_path ps ss
matches_path (word w ∷ ps) [] = false
matches_path (word w ∷ ps) (s ∷ ss) = s == w && matches_path ps ss

-- `/api/v1/` before a pattern.
abbrev api : List Segment → List Segment
api ps = word "" ∷ word "api" ∷ word "v1" ∷ ps

-- `_ENDPOINT_TEMPLATES`
abbrev pub endpoint_templates : List (List Segment × String)
endpoint_templates =
    (api (word "apps" ∷ any ∷ word "users" ∷ []), "/api/v1/apps/{app}/users")
    ∷ (api (word "apps" ∷ any ∷ word "groups" ∷ []), "/api/v1/apps/{app}/groups")
    ∷ (
      api (word "apps" ∷ any ∷ word "sso" ∷ word "saml" ∷ word "metadata" ∷ []),
      "/api/v1/apps/{app}/sso/saml/metadata",
    )
    ∷ (
      api (word "apps" ∷ any ∷ word "credentials" ∷ any ∷ []),
      "/api/v1/apps/{app}/credentials/{kind}",
    )
    ∷ (api (word "apps" ∷ any ∷ word "grants" ∷ []), "/api/v1/apps/{app}/grants")
    ∷ (
      api (word "apps" ∷ any ∷ word "group-push" ∷ word "mappings" ∷ []),
      "/api/v1/apps/{app}/group-push/mappings",
    )
    ∷ (api (word "groups" ∷ any ∷ word "users" ∷ []), "/api/v1/groups/{group}/users")
    ∷ (api (word "groups" ∷ any ∷ word "roles" ∷ []), "/api/v1/groups/{group}/roles")
    ∷ (api (word "groups" ∷ any ∷ []), "/api/v1/groups/{group}")
    ∷ (api (word "users" ∷ any ∷ any ∷ []), "/api/v1/users/{user}/{subresource}")
    ∷ (api (word "users" ∷ any ∷ []), "/api/v1/users/{user}")
    ∷ (api (word "idps" ∷ any ∷ word "users" ∷ []), "/api/v1/idps/{idp}/users")
    ∷ (api (word "idps" ∷ any ∷ word "metadata.xml" ∷ []), "/api/v1/idps/{idp}/metadata.xml")
    ∷ (api (word "iam" ∷ any ∷ any ∷ more ∷ []), "/api/v1/iam/{resource}/{id}/{subresource}")
    ∷ (
      word "" ∷ word "oauth2" ∷ word "v1" ∷ word "clients" ∷ any ∷ word "roles" ∷ more ∷ [],
      "/oauth2/v1/clients/{client}/roles/{scope}",
    )
    ∷ (api (word "policies" ∷ any ∷ word "mappings" ∷ []), "/api/v1/policies/{policy}/mappings")
    ∷ (
      word ""
          ∷ word "integrations"
          ∷ word "api"
          ∷ word "v1"
          ∷ word "api-services"
          ∷ any
          ∷ word "credentials"
          ∷ word "secrets"
          ∷ [],
      "/integrations/api/v1/api-services/{service}/credentials/secrets",
    )
    ∷ []

-- `_COLLECTION_PATHS`
abbrev pub collection_paths : List String
collection_paths =
    "/api/v1/agentPools" ∷ "/api/v1/api-tokens" ∷ "/api/v1/apps" ∷ "/api/v1/authorizationServers"
    ∷ "/api/v1/devices" ∷ "/api/v1/groups" ∷ "/api/v1/idps" ∷ "/api/v1/iam/assignees/users"
    ∷ "/api/v1/iam/resource-sets" ∷ "/api/v1/iam/roles" ∷ "/api/v1/org" ∷ "/api/v1/policies"
    ∷ "/api/v1/realms" ∷ "/api/v1/users" ∷ "/oauth2/v1/clients"
    ∷ "/integrations/api/v1/api-services" ∷ []

-- `_LIMITER_GROUPS`
abbrev pub limiter_groups : List String
limiter_groups =
    "/api/v1/users/*" ∷ "/api/v1/users*" ∷ "/api/v1/groups*" ∷ "/api/v1/apps*" ∷ "/api/v1/iam*"
    ∷ "/api/v1/devices*" ∷ "/oauth2/v1/clients*" ∷ "/integrations/*" ∷ "*" ∷ []

-- The loop over the templates.
unfoldable pub first_template : List (List Segment × String) → List String → String
unfolding matches_path
first_template [] segments = "other"
first_template ((pattern, template) ∷ templates) segments =
    let rest = first_template templates segments in
    if matches_path pattern segments then template else rest

-- `value or "/"`
abbrev path_or_slash : String → String
path_or_slash path = if path == "" then "/" else path

-- `normalize_endpoint_template`; `path_of` is the path that `urlparse` reads.
unfoldable pub normalize_endpoint_template : (String → String) → String → String
unfolding first_template rstrip parts_at
normalize_endpoint_template path_of url_or_path =
    let path = path_or_slash (rstrip b'/' (path_of url_or_path)) in
    if contains collection_paths path
    then path
    else first_template endpoint_templates (parts_at b'/' path)

-- `_normalize_limiter_group`
unfoldable pub normalize_limiter_group : Option String → String
normalize_limiter_group none = "unavailable"
normalize_limiter_group (some value) = if contains limiter_groups value then value else "other"

-- `_status_category`
unfoldable pub status_category : ℕ → String
status_category status_code =
    if leb 200 status_code && ltb status_code 300
    then "success"
    else if status_code == 429
    then "rate_limited"
    else if status_code == 401
    then "unauthorized"
    else if leb 400 status_code && ltb status_code 500
    then "client_error"
    else if leb 500 status_code && ltb status_code 600
    then "server_error"
    else "other_http"

-- The exceptions by what `isinstance` tells them to be.
pub data CollectionError : Type 0 where
  read_timeout : CollectionError
  connect_timeout : CollectionError
  other_timeout : CollectionError
  connection_error : CollectionError
  other_request : CollectionError
  other_error : CollectionError

-- `_error_category`
unfoldable pub error_category : CollectionError → String
error_category read_timeout = "read_timeout"
error_category connect_timeout = "connect_timeout"
error_category other_timeout = "timeout"
error_category connection_error = "connection_error"
error_category other_request = "request_error"
error_category other_error = "collector_error"

first_template-contains :
    (templates : List (List Segment × String)) (segments : List String)
    → contains ("other" ∷ map (λ t. t.1) templates) (first_template templates segments) ≡ true
unfolding first_template
first_template-contains [] segments = ground arith
first_template-contains ((pattern, template) ∷ templates) segments =
    ground (arith, first_template-contains templates segments)

-- Whatever the URL, its template is one of the constants, so that no host, query or identifier is exported.
pub normalize_endpoint_template_lem :
    (path_of : String → String) (url_or_path : String)
    → (contains collection_paths (normalize_endpoint_template path_of url_or_path) ≡ true)
      ⊎ (contains
            ("other" ∷ map (λ t. t.1) endpoint_templates)
            (normalize_endpoint_template path_of url_or_path)
          ≡ true)
unfolding normalize_endpoint_template
normalize_endpoint_template_lem path_of url_or_path =
    let path = path_or_slash (rstrip b'/' (path_of url_or_path)) in
    elim (Bool-cases (contains collection_paths path)) [
      | inl collection ↦ inl (rw (normalize_endpoint_template, collection) collection)
      | inr other ↦ inr (
          rw (normalize_endpoint_template, other)
            (first_template-contains endpoint_templates (parts_at b'/' path)))
    ]
