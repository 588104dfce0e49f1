-- ===== src/Source/Families.antt =====
-- `ClientPool` of source.py: the endpoint family of a path, and the paths and records of role assignments.
use Prim.Native.Char.{code}
use openhound_okta.Base.{
  ◌≡◌, refl, Bool, true, false, ◌&&◌, Option, none, some, String, ◌<>◌, List, [], ◌∷◌, ◌==◌,
  string_eq, nat_eq, option_eq, contains, if◌then◌else◌, arith, Bool-cases, inl, inr,
}
use openhound_okta.Base.Paths.{last_part, rstrip}
use openhound_okta.Telemetry.Templates.{limiter_groups, normalize_limiter_group}

-- `API_RATE_LIMIT_ENDPOINTS`
abbrev pub api_rate_limit_endpoints : List String
api_rate_limit_endpoints =
    "/api/v1/users/*" ∷ "/api/v1/users*" ∷ "/api/v1/groups*" ∷ "/api/v1/apps*" ∷ "/api/v1/iam*"
    ∷ "/api/v1/devices*" ∷ "/oauth2/v1/clients*" ∷ "/integrations/*" ∷ "*" ∷ []

-- `fnmatch.fnmatch` for a pattern whose one special character is a `*` at its end, the pattern first.
unfoldable pub fnmatch : String → String → Bool
fnmatch String.[] String.[] = true
fnmatch String.[] (String.◌∷◌ d s) = false
fnmatch (String.◌∷◌ c p) String.[] = code c == b'*' && p == ""
fnmatch (String.◌∷◌ c p) (String.◌∷◌ d s) =
    let rest = fnmatch p s in if code c == b'*' && p == "" then true else code c == code d && rest

-- The loop over the patterns.
unfoldable pub first_family : List String → String → String
unfolding fnmatch
first_family [] path = "*"
first_family (pattern ∷ patterns) path =
    let rest = first_family patterns path in if fnmatch pattern path then pattern else rest

-- `_endpoint_family`
unfoldable pub endpoint_family : String → String
unfolding first_family
endpoint_family path = first_family api_rate_limit_endpoints path

-- `_role_assignment_base_path`
unfoldable pub role_assignment_base_path : String → String → String
role_assignment_base_path from_resource source_id =
    if from_resource == "client"
    then "/oauth2/v1/clients/" <> (source_id <> "/roles")
    else "/api/v1/" <> (from_resource <> ("s/" <> (source_id <> "/roles")))

-- `_last_href_path_segment`; `path_of` is the path that `urlparse` reads.
unfoldable pub last_href_path_segment : (String → String) → Option String → Option String
unfolding rstrip last_part
last_href_path_segment path_of none = none
last_href_path_segment path_of (some href) =
    if href == ""
    then none
    else if rstrip b'/' (path_of href) == ""
    then none
    else some (last_part b'/' (rstrip b'/' (path_of href)))

everything_matches : (path : String) → fnmatch "*" path ≡ true
unfolding fnmatch string_eq nat_eq
everything_matches String.[] = refl
everything_matches (String.◌∷◌ c path) = refl

first_family_lem :
    (patterns : List String) (path : String)
    → (fnmatch (first_family patterns path) path ≡ true)
      × (contains ("*" ∷ patterns) (first_family patterns path) ≡ true)
unfolding first_family
first_family_lem [] path = (everything_matches path, ground arith)
first_family_lem (pattern ∷ patterns) path = elim (Bool-cases (fnmatch pattern path)) [
  | inl found ↦ rw (first_family, found) (found, ground arith)
  | inr other ↦
      let (fits, there) = first_family_lem patterns path in
      rw (first_family, other) (fits, ground arith)
]

label_of_known :
    (value : String)
    → contains limiter_groups value ≡ true
    → normalize_limiter_group (some value) ≡ value
unfolding normalize_limiter_group
label_of_known value h = ground arith

star_is_there :
    (value : String)
    → contains ("*" ∷ api_rate_limit_endpoints) value ≡ true
    → contains api_rate_limit_endpoints value ≡ true
star_is_there value h = ground arith

-- Every path has a family: its client is there, its pattern matches the path, and telemetry labels its requests with it
-- and never with `other`.
pub endpoint_family_lem :
    (path : String)
    → (contains api_rate_limit_endpoints (endpoint_family path) ≡ true)
      × (fnmatch (endpoint_family path) path ≡ true)
      × (normalize_limiter_group (some (endpoint_family path)) ≡ endpoint_family path)
unfolding endpoint_family
endpoint_family_lem path =
    let (fits, there) = first_family_lem api_rate_limit_endpoints path in
    let known = star_is_there (endpoint_family path) there in
    (known, fits, label_of_known (endpoint_family path) known)
