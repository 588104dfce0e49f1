-- ===== src/Hybrid/Complete.antt =====
-- Every target of models/hybrid_auth.py can be matched: its path exists, and no value in it is blank.
use openhound_okta.Base.{
  ◌≡◌, refl, Bool, true, false, ◌&&◌, not, Option, none, some, String, List, [], ◌∷◌, arith, ◌==◌,
  ◌<>◌, string_eq, option_eq,
}
use openhound_okta.Base.Results.{Result, ok, err, ◌>>=◌}
use openhound_okta.Hybrid.Targets.{
  id, name, Matcher, HybridTarget, EdgePath, by_value, conditional, hybrid_target_edge_path,
  Missing, BadUrl, Texts, Settings, by_match, by_properties, any_missing, given_matchers,
  is_missing_match_value, uppercase_match_value, jamf_target, snowflake_user, okta_org2org_domain,
  outbound_trust_target, hybrid_user_target, hybrid_group_target, one_password_domain,
}

module _ (t : Texts) where
  -- No value of a path is blank.
  abbrev all_filled : List Matcher → Bool
  all_filled [] = true
  all_filled ((key, value) ∷ matchers) = not (t.strip value == "") && all_filled matchers

  abbrev is_filled : EdgePath → Bool
  is_filled (by_value value) = not (t.strip value == "")
  is_filled (conditional kind matchers) = all_filled matchers

  abbrev is_ok_filled : Result Missing EdgePath → Bool
  is_ok_filled (ok path) = is_filled path
  is_ok_filled (err missing) = false

  -- A target, if there is one, has a path without blank values.
  unfoldable pub is_complete : Option HybridTarget → Bool
  unfolding hybrid_target_edge_path
  is_complete none = true
  is_complete (some target) = is_ok_filled (hybrid_target_edge_path target)

  -- The same, unless a URL cannot be parsed.
  unfoldable pub is_complete_result : Result BadUrl (Option HybridTarget) → Bool
  unfolding is_complete
  is_complete_result (ok target) = is_complete target
  is_complete_result (err bad) = true

  by_id_complete :
      (kind : String) (value : Option String) → is_complete (by_match t id kind value) ≡ true
  unfolding by_match is_missing_match_value hybrid_target_edge_path is_complete
  by_id_complete kind none = refl
  by_id_complete kind (some value) = ground arith

  by_name_complete :
      (kind : String) (value : Option String) → is_complete (by_match t name kind value) ≡ true
  unfolding by_match is_missing_match_value hybrid_target_edge_path is_complete
  by_name_complete kind none = refl
  by_name_complete kind (some value) = ground arith

  given_matchers-filled :
      (matchers : List (String × Option String))
      → any_missing t matchers ≡ false
      → all_filled (given_matchers matchers) ≡ true
  unfolding any_missing given_matchers is_missing_match_value
  given_matchers-filled [] h = refl
  given_matchers-filled ((key, none) ∷ matchers) h = cc
  given_matchers-filled ((key, some value) ∷ matchers) h =
      ground (arith, given_matchers-filled matchers)

  by_properties_complete :
      (kind : String) (matchers : List (String × Option String))
      → is_complete (by_properties t kind matchers) ≡ true
  unfolding by_properties hybrid_target_edge_path is_complete
  by_properties_complete kind matchers = ground (arith, given_matchers-filled matchers)

  nothing_complete : is_complete none ≡ true
  unfolding is_complete
  nothing_complete = refl

  jamf_target_complete : (domain : Option String) → is_complete (jamf_target t domain) ≡ true
  unfolding jamf_target
  jamf_target_complete none = nothing_complete
  jamf_target_complete (some domain) = ground (
    arith,
    nothing_complete,
    by_id_complete "jamf_SSOIntegration" (some (t.upper (domain <> "-SSO"))),
  )

  snowflake_user_complete :
      (sub_domain user : Option String) → is_complete (snowflake_user t sub_domain user) ≡ true
  unfolding snowflake_user
  snowflake_user_complete none user = nothing_complete
  snowflake_user_complete (some s) none = nothing_complete
  snowflake_user_complete (some s) (some u) =
      by_id_complete "SNOW_User" (some (t.upper (s <> ("." <> u))))

  outbound_complete :
      (app_name : String) (settings : Settings)
      → is_complete (outbound_trust_target t app_name settings) ≡ true
  unfolding outbound_trust_target
  outbound_complete app_name settings =
      let domain = one_password_domain (settings "subDomain") (settings "regionType") in
      ground (
        arith,
        nothing_complete,
        by_id_complete "Okta_IdentityProvider" (uppercase_match_value t (settings "idpId")),
        jamf_target_complete (settings "domain"),
        by_name_complete "GH_Organization" (settings "githubOrg"),
        by_properties_complete "OP_Account" (("domain", domain) ∷ []),
        by_id_complete "SNOW_Account" (uppercase_match_value t (settings "subDomain")),
        by_id_complete "AZTenant" (uppercase_match_value t (settings "microsoftTenantId")),
      )

  user_complete :
      (app_name : String) (settings : Settings) (user external_id : Option String)
      → is_complete (hybrid_user_target t app_name settings user external_id) ≡ true
  unfolding hybrid_user_target
  user_complete app_name settings user external_id =
      let account_name = one_password_domain (settings "subDomain") (settings "regionType") in
      let tenant = uppercase_match_value t (settings "microsoftTenantId") in
      ground (
        arith,
        nothing_complete,
        by_id_complete "Okta_User" (uppercase_match_value t external_id),
        by_properties_complete "jamf_Account"
            (("email", user) ∷ ("domainName", settings "domain") ∷ []),
        by_properties_complete "GH_User"
            (("login", user) ∷ ("environment_name", settings "githubOrg") ∷ []),
        by_properties_complete "OP_User" (("email", user) ∷ ("account_name", account_name) ∷ []),
        snowflake_user_complete (settings "subDomain") user,
        by_properties_complete "AZUser" (("userprincipalname", user) ∷ ("tenantid", tenant) ∷ []),
      )

  ok_complete :
      (target : Option HybridTarget)
      → is_complete target ≡ true
      → is_complete_result (ok target) ≡ true
  unfolding is_complete_result
  ok_complete target h = h

  bind_complete :
      (domain : Result BadUrl (Option String)) (f : Option String → Option HybridTarget)
      → ((d : Option String) → is_complete (f d) ≡ true)
      → is_complete_result (domain >>= λ d. ok (f d)) ≡ true
  unfolding is_complete_result
  bind_complete (ok d) f h = h d
  bind_complete (err bad) f h = refl

  group_complete :
      (app_name : String) (settings : Settings) (group_name : Option String)
      → is_complete_result (hybrid_group_target t app_name settings group_name) ≡ true
  unfolding hybrid_group_target
  group_complete app_name settings group_name =
      let tenant = uppercase_match_value t (settings "microsoftTenantId") in
      let name' = uppercase_match_value t group_name in
      ground (
        arith,
        ok_complete none nothing_complete,
        ok_complete _ (
            by_properties_complete "Group"
              (("samaccountname", group_name) ∷ ("domain", settings "namingContext") ∷ [])),
        bind_complete (okta_org2org_domain t (settings "baseUrl"))
            (λ d. by_properties t "Okta_Group" (("name", name') ∷ ("okta_domain", d) ∷ []))
            (λ d. by_properties_complete "Okta_Group" (("name", name') ∷ ("okta_domain", d) ∷ [])),
        ok_complete _ (
            by_properties_complete "AZGroup"
              (("displayname", group_name) ∷ ("tenantid", tenant) ∷ [])),
      )

  -- Whatever the settings of an application hold, the target of its trust, those of its users and those of its groups
  -- have a path, and no id, name or property that is matched is blank.
  pub targets_complete :
      (app_name : String) (settings : Settings) (user external_id group_name : Option String)
      → (is_complete (outbound_trust_target t app_name settings) ≡ true)
        × (is_complete (hybrid_user_target t app_name settings user external_id) ≡ true)
        × (is_complete_result (hybrid_group_target t app_name settings group_name) ≡ true)
  targets_complete app_name settings user external_id group_name = (
    outbound_complete app_name settings,
    user_complete app_name settings user external_id,
    group_complete app_name settings group_name,
  )
