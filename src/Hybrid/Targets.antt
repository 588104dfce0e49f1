-- ===== src/Hybrid/Targets.antt =====
-- models/hybrid_auth.py: targets, the edges of sign-on modes, and the paths to targets.
use openhound_okta.Base.{
  Bool, true, false, ◌&&◌, ◌||◌, not, Option, none, some, String, List, [], ◌∷◌, ◌==◌, ◌<>◌,
  string_eq, option_eq, contains, if◌then◌else◌,
}
use openhound_okta.Base.Results.{Result, ok, err, ◌>>=◌}

-- The modes of `match_by`.
pub data MatchBy : Type 0 where
  id name property : MatchBy

abbrev pub Matcher : Type 0
Matcher = String × String

-- `HybridTarget`
pub record HybridTarget : Type 0 where
  pub kind : String
  pub match_by : MatchBy
  pub value : Option String
  pub property_matchers : List Matcher

-- `EdgePath` by an id, and `ConditionalEdgePath`.
pub data EdgePath : Type 0 where
  by_value : String → EdgePath
  conditional : String → List Matcher → EdgePath

-- `HybridTarget value is required`
pub data Missing : Type 0 where
  value_is_required : Missing

-- `hybrid_target_edge_path`
unfoldable pub hybrid_target_edge_path : HybridTarget → Result Missing EdgePath
hybrid_target_edge_path target = elim target.match_by [
  | id ↦ elim target.value [ none ↦ err value_is_required | some value ↦ ok (by_value value) ]
  | name ↦ elim target.value [
    | none ↦ err value_is_required
    | some value ↦ ok (conditional target.kind (("name", value) ∷ []))
  ]
  | property ↦ ok (conditional target.kind target.property_matchers)
]

-- `urlparse`: the scheme and the host name, `none` where it raises `ValueError`.
pub record ParsedUrl : Type 0 where
  pub scheme : String
  pub hostname : Option String

pub data BadUrl : Type 0 where
  bad_url : BadUrl

pub record Texts : Type 0 where
  pub strip : String → String
  pub upper : String → String
  pub urlparse : String → Option ParsedUrl

-- `app_settings or {}`, by key; the values that are read are texts.
abbrev pub Settings : Type 0
Settings = String → Option String

-- A sign-on mode is one of these.
unfoldable pub is_mode : List String → Option String → Bool
is_mode modes none = false
is_mode modes (some mode) = contains modes mode

-- `is_saml_application`, `is_oidc_application`, `is_swa_application`
abbrev pub is_saml_mode : Option String → Bool
is_saml_mode = is_mode ("SAML_2_0" ∷ "SAML_1_1" ∷ "WS_FEDERATION" ∷ [])

abbrev pub is_oidc_mode : Option String → Bool
is_oidc_mode = is_mode ("OPENID_CONNECT" ∷ [])

abbrev pub is_swa_mode : Option String → Bool
is_swa_mode = is_mode ("AUTO_LOGIN" ∷ "BASIC_AUTH" ∷ "BROWSER_PLUGIN" ∷ [])

-- `hybrid_user_sign_on_edge_kind`
unfoldable pub hybrid_user_sign_on_edge_kind : Option String → Option String
unfolding is_mode
hybrid_user_sign_on_edge_kind sign_on_mode =
    if is_saml_mode sign_on_mode || is_oidc_mode sign_on_mode
    then some "Okta_OutboundSSO"
    else if is_swa_mode sign_on_mode
    then some "Okta_SWA"
    else none

-- `hybrid_application_edge_kind`
unfoldable pub hybrid_application_edge_kind : String → Option String → Bool → Option String
unfolding is_mode
hybrid_application_edge_kind app_name sign_on_mode is_service =
    if contains ("active_directory" ∷ "ldap_interface" ∷ []) app_name || is_service
    then none
    else if is_saml_mode sign_on_mode || is_oidc_mode sign_on_mode
    then some "Okta_OutboundOrgSSO"
    else if is_swa_mode sign_on_mode
    then some "Okta_OrgSWA"
    else none

-- `one_password_domain`
unfoldable pub one_password_domain : Option String → Option String → Option String
one_password_domain none region_type = none
one_password_domain (some sub_domain) none = none
one_password_domain (some sub_domain) (some region_type) =
    some (sub_domain <> (".1password." <> region_type))

-- A text that is there and not empty.
unfoldable pub is_given : Option String → Bool
is_given none = false
is_given (some s) = not (s == "")

abbrev pub is_jamf : String → Bool
is_jamf app_name = contains ("jamfsoftwareserver" ∷ "casper" ∷ []) app_name

-- The matchers with a value.
unfoldable pub given_matchers : List (String × Option String) → List Matcher
given_matchers [] = []
given_matchers ((key, none) ∷ matchers) = given_matchers matchers
given_matchers ((key, some value) ∷ matchers) = (key, value) ∷ given_matchers matchers

module _ (t : Texts) where
  -- `_is_missing_match_value`
  unfoldable pub is_missing_match_value : Option String → Bool
  is_missing_match_value none = true
  is_missing_match_value (some value) = t.strip value == ""

  -- `_uppercase_match_value`
  unfoldable pub uppercase_match_value : Option String → Option String
  uppercase_match_value none = none
  uppercase_match_value (some value) = some (t.upper value)

  -- `HybridTarget.by_id`, `HybridTarget.by_name`
  unfoldable pub by_match : MatchBy → String → Option String → Option HybridTarget
  unfolding is_missing_match_value
  by_match match_by kind value =
      if is_missing_match_value value
      then none
      else some (record { kind = kind; match_by = match_by; value = value; property_matchers = [] })

  unfoldable pub any_missing : List (String × Option String) → Bool
  unfolding is_missing_match_value
  any_missing [] = false
  any_missing ((key, value) ∷ matchers) = is_missing_match_value value || any_missing matchers

  -- `HybridTarget.by_properties`
  unfoldable pub by_properties : String → List (String × Option String) → Option HybridTarget
  unfolding any_missing given_matchers
  by_properties kind matchers =
      if any_missing matchers
      then none
      else some (record {
        kind = kind;
        match_by = property;
        value = none;
        property_matchers = given_matchers matchers;
      })

  -- `okta_org2org_domain`
  unfoldable pub okta_org2org_domain : Option String → Result BadUrl (Option String)
  unfolding is_given
  okta_org2org_domain none = ok none
  okta_org2org_domain (some base_url) = elim (t.urlparse base_url) [
    | none ↦ err bad_url
    | some parsed ↦
        ok (if not (parsed.scheme == "") && is_given parsed.hostname then parsed.hostname else none)
  ]

  -- The integration of Jamf that a domain names.
  unfoldable pub jamf_target : Option String → Option HybridTarget
  unfolding by_match is_missing_match_value
  jamf_target none = none
  jamf_target (some domain) =
      if is_missing_match_value (some domain)
      then none
      else by_match id "jamf_SSOIntegration" (some (t.upper (domain <> "-SSO")))

  -- `outbound_trust_target`
  unfoldable pub outbound_trust_target : String → Settings → Option HybridTarget
  unfolding by_match by_properties jamf_target uppercase_match_value one_password_domain is_given
  outbound_trust_target app_name settings =
      let domain = one_password_domain (settings "subDomain") (settings "regionType") in
      if app_name == "okta_org2org"
      then by_match id "Okta_IdentityProvider" (uppercase_match_value (settings "idpId"))
      else if is_jamf app_name
      then jamf_target (settings "domain")
      else if app_name == "githubcloud"
      then by_match name "GH_Organization" (settings "githubOrg")
      else if app_name == "1password_business"
      then if is_given domain then by_properties "OP_Account" (("domain", domain) ∷ []) else none
      else if app_name == "snowflake"
      then by_match id "SNOW_Account" (uppercase_match_value (settings "subDomain"))
      else if app_name == "office365"
      then by_match id "AZTenant" (uppercase_match_value (settings "microsoftTenantId"))
      else none

  -- A user of Snowflake, by the account and the name.
  unfoldable pub snowflake_user : Option String → Option String → Option HybridTarget
  unfolding by_match
  snowflake_user none target_user_name = none
  snowflake_user (some sub_domain) none = none
  snowflake_user (some sub_domain) (some target_user_name) =
      by_match id "SNOW_User" (some (t.upper (sub_domain <> ("." <> target_user_name))))

  -- `hybrid_user_target`
  unfoldable pub hybrid_user_target :
      String → Settings → Option String → Option String → Option HybridTarget
  unfolding by_match by_properties uppercase_match_value one_password_domain is_given snowflake_user
  hybrid_user_target app_name settings target_user_name external_id =
      let account_name = one_password_domain (settings "subDomain") (settings "regionType") in
      if app_name == "okta_org2org"
      then by_match id "Okta_User" (uppercase_match_value external_id)
      else if is_jamf app_name
      then by_properties "jamf_Account"
          (("email", target_user_name) ∷ ("domainName", settings "domain") ∷ [])
      else if app_name == "githubcloud"
      then by_properties "GH_User"
          (("login", target_user_name) ∷ ("environment_name", settings "githubOrg") ∷ [])
      else if app_name == "1password_business"
      then if is_given target_user_name && is_given account_name
        then by_properties "OP_User"
            (("email", target_user_name) ∷ ("account_name", account_name) ∷ [])
        else none
      else if app_name == "snowflake"
      then snowflake_user (settings "subDomain") target_user_name
      else if app_name == "office365"
      then by_properties "AZUser" (
          ("userprincipalname", target_user_name)
          ∷ ("tenantid", uppercase_match_value (settings "microsoftTenantId"))
          ∷ [])
      else none

  -- `hybrid_group_target`
  unfoldable pub hybrid_group_target :
      String → Settings → Option String → Result BadUrl (Option HybridTarget)
  unfolding by_properties uppercase_match_value okta_org2org_domain
  hybrid_group_target app_name settings group_name =
      if app_name == "active_directory"
      then ok (
          by_properties "Group"
            (("samaccountname", group_name) ∷ ("domain", settings "namingContext") ∷ []))
      else if app_name == "okta_org2org"
      then (okta_org2org_domain (settings "baseUrl") >>= λ okta_domain. ok (
          by_properties "Okta_Group"
            (("name", uppercase_match_value group_name) ∷ ("okta_domain", okta_domain) ∷ [])))
      else if app_name == "office365"
      then ok (
          by_properties "AZGroup" (
            ("displayname", group_name)
            ∷ ("tenantid", uppercase_match_value (settings "microsoftTenantId"))
            ∷ []))
      else ok none
