-- ===== src/Oin/Resolvers.antt =====
-- oin_routes/resolvers/: the integrations whose routes need more than templates.
use openhound_okta.Base.{
  ℕ, ◌≡◌, ◌⊎◌, refl, ap, subst, Bool, true, false, ◌&&◌, ◌||◌, not, Option, none, some, String,
  ◌<>◌, List, [], ◌∷◌, arith, ◌==◌, string_eq, nat_eq, list_eq, if◌then◌else◌, Bool-cases,
  Option-cases, inl, inr,
}
use openhound_okta.Base.Text.{codes}
use openhound_okta.Oin.Contract.{SamlRouteEvidence, OinRouteResolution, route_resolution}
use openhound_okta.Oin.Validators.{Setting, null, text, other, Strip, github_slug}
use openhound_okta.Oin.Validators.Urls.{Urls, https_url}

-- Python's truth of a value of the settings.
unfoldable pub is_set : Setting → Bool
is_set null = false
is_set (text s) = not (s == "")
is_set (other b _) = b

unfoldable pub github_organization_route : Strip → (String → Setting) → OinRouteResolution
unfolding is_set github_slug route_resolution
github_organization_route strip settings =
    let org_field = if is_set (settings "githubOrg") then "githubOrg" else "orgName" in
    elim (github_slug strip (settings org_field)) [
      | none ↦ route_resolution [] ("missing_or_malformed_settings.app.githubOrg_or_orgName" ∷ [])
      | some org_name ↦
          route_resolution
            (record {
              acs_url = "https://github.com/orgs/" <> (org_name <> "/saml/consume");
              sp_entity_id = "https://github.com/orgs/" <> org_name;
              index = some 0;
              binding = none;
              is_default = some true;
              target_product_family = "github_organization";
              route_source = "settings.app+documented_github_route";
              extraction_mode = "allowlisted_deterministic_route";
              acs_source_field = "settings.app." <> org_field;
              sp_entity_source_field = "settings.app." <> org_field;
              route_conflicts = [];
            }
              ∷ [])
            []
    ]

-- `text.endswith(suffix)`
unfoldable pub ends_with : List ℕ → List ℕ → Bool
ends_with suffix [] = suffix == []
ends_with suffix (c ∷ cs) = let rest = ends_with suffix cs in (c ∷ cs) == suffix || rest

unfoldable pub is_miro_host : String → Bool
unfolding ends_with
is_miro_host hostname = hostname == "miro.com" || ends_with (codes ".miro.com") (codes hostname)

-- `urlsplit(url).hostname` is a host of Miro. A URL that `https_url` has built can be split again.
unfoldable pub is_miro_url : Urls → String → Bool
unfolding is_miro_host
is_miro_url u url = elim (u.urlsplit url) [
  | none ↦ false
  | some p ↦ elim p.hostname [ none ↦ false | some hostname ↦ is_miro_host hostname ]
]

unfoldable pub miro_url : Urls → Setting → Option String
unfolding https_url is_miro_url
miro_url u v = elim (https_url u v) [
  | none ↦ none
  | some url ↦ if is_miro_url u url then some url else none
]

-- The evidence with the two fields of Miro's settings.
abbrev pub miro_evidence : String → String → SamlRouteEvidence
miro_evidence acs_url sp_entity_id = record {
  acs_url = acs_url;
  sp_entity_id = sp_entity_id;
  index = some 0;
  binding = none;
  is_default = some true;
  target_product_family = "miro";
  route_source = "settings.app";
  extraction_mode = "oin_explicit_fields";
  acs_source_field = "settings.app.customAcsUrl";
  sp_entity_source_field = "settings.app.customEntityId";
  route_conflicts = [];
}

abbrev pub miro_default : SamlRouteEvidence
miro_default = record {
  acs_url = "https://miro.com/sso/saml";
  sp_entity_id = "https://miro.com/";
  index = some 0;
  binding = none;
  is_default = some true;
  target_product_family = "miro";
  route_source = "documented_miro_default_route";
  extraction_mode = "allowlisted_static_default_route";
  acs_source_field = "documented_static_miro_acs";
  sp_entity_source_field = "documented_static_miro_sp_entity";
  route_conflicts = [];
}

abbrev pub is_null : Setting → Bool
is_null null = true
is_null _ = false

-- The routes from the two checked URLs.
unfoldable pub miro_from : Option String → Option String → OinRouteResolution
unfolding route_resolution
miro_from (some acs_url) (some sp_entity_id) =
    route_resolution (miro_evidence acs_url sp_entity_id ∷ []) []
miro_from (some acs_url) none =
    route_resolution [] ("missing_or_malformed_settings.app.customEntityId" ∷ [])
miro_from none (some sp_entity_id) =
    route_resolution [] ("missing_or_malformed_settings.app.customAcsUrl" ∷ [])
miro_from none none = route_resolution [] (
    "missing_or_malformed_settings.app.customAcsUrl"
    ∷ "missing_or_malformed_settings.app.customEntityId" ∷ [])

-- `present` says which fields the settings have, a field that is there with no value being `null`.
unfoldable pub miro_route : Urls → (String → Bool) → (String → Setting) → OinRouteResolution
unfolding miro_url miro_from route_resolution
miro_route u present settings =
    let acs = settings "customAcsUrl" in
    let sp_entity = settings "customEntityId" in
    if present "customAcsUrl" && present "customEntityId" && is_null acs && is_null sp_entity
    then route_resolution (miro_default ∷ []) []
    else miro_from (miro_url u acs) (miro_url u sp_entity)

miro_url-is_miro_url :
    (u : Urls) (v : Setting) (url : String) → miro_url u v ≡ some url → is_miro_url u url ≡ true
unfolding miro_url
miro_url-is_miro_url u v url h = elim (Option-cases (https_url u v)) [
  | inl e ↦ absurd (cc (rw (e, miro_url) at h))
  | inr (w, e) ↦ ground (arith, rw (e, miro_url) at h)
]

abbrev acs_of : List SamlRouteEvidence → String
acs_of [] = ""
acs_of (r ∷ _) = r.acs_url

abbrev sp_entity_of : List SamlRouteEvidence → String
sp_entity_of [] = ""
sp_entity_of (r ∷ _) = r.sp_entity_id

miro_from-hosts :
    (u : Urls) (a b : Option String) (route : SamlRouteEvidence)
    → ((url : String) → a ≡ some url → is_miro_url u url ≡ true)
    → ((url : String) → b ≡ some url → is_miro_url u url ≡ true)
    → (miro_from a b).routes ≡ route ∷ []
    → (is_miro_url u route.acs_url ≡ true) × (is_miro_url u route.sp_entity_id ≡ true)
unfolding miro_from route_resolution
miro_from-hosts u (some a) (some b) route ha hb h = (
  subst (λ url. is_miro_url u url ≡ true) (ap acs_of h) (ha a refl),
  subst (λ url. is_miro_url u url ≡ true) (ap sp_entity_of h) (hb b refl),
)
miro_from-hosts u (some a) none route ha hb h = cc
miro_from-hosts u none (some b) route ha hb h = cc
miro_from-hosts u none none route ha hb h = cc

default-routes :
    (route : SamlRouteEvidence)
    → (route_resolution (miro_default ∷ []) []).routes ≡ route ∷ []
    → route ≡ miro_default
unfolding route_resolution
default-routes route h = cc

-- A route that is returned for Miro is the documented default, or both its URLs are of miro.com or of a host below
-- it, whatever the settings say.
pub miro_route-hosts :
    (u : Urls) (present : String → Bool) (settings : String → Setting) (route : SamlRouteEvidence)
    → (miro_route u present settings).routes ≡ route ∷ []
    → (route ≡ miro_default)
      ⊎ ((is_miro_url u route.acs_url ≡ true) × (is_miro_url u route.sp_entity_id ≡ true))
unfolding miro_route
miro_route-hosts u present settings route h =
    let acs = settings "customAcsUrl" in
    let sp_entity = settings "customEntityId" in
    elim (Bool-cases
      (present "customAcsUrl" && present "customEntityId" && is_null acs && is_null sp_entity)) [
        | inl fields ↦ inl (default-routes route (rw (fields, miro_route) at h))
        | inr others ↦ inr (
            miro_from-hosts u (miro_url u acs) (miro_url u sp_entity) route
              (miro_url-is_miro_url u acs) (miro_url-is_miro_url u sp_entity)
              (rw (others, miro_route) at h))
      ]
