-- ===== src/Saml/Tests.antt =====
-- Runs of models/saml.py on concrete applications and identity providers.
use openhound_okta.Base.{
  ◌==◌, ◌||◌, ◌<>◌, contains, ℕ, zero, suc, ◌≡◌, ◌⊎◌, ◌↔◌, refl, true, false, none, some, String,
  List, [], ◌∷◌, map, string_eq, bool_eq, nat_eq, option_eq, pair_eq, All,
}
use openhound_okta.Base.Text.{codes}
use openhound_okta.Base.Dedupe.{Distinct}
use openhound_okta.Base.Results.{ok}
use openhound_okta.Oin.Contract.{SamlRouteEvidence, itself}
use openhound_okta.Oin.Validators.{null, text, Strip}
use openhound_okta.Oin.Declarative.{is_empty}
use openhound_okta.Saml.Values.{
  concrete_issuer, idp_issuer_resolution, idp_issuer_resolution-IsProven, has_expression, Agrees,
  dedupe, normalize_okta_account_state,
}
use openhound_okta.Saml.Claims.{Texts, ClaimMapping, scoped_exact_match_values}
use openhound_okta.Saml.Profiles.{ApplicationUser, SourceProfile, missing, single, exact}
use openhound_okta.Saml.Assertions.{assertion_evidence}
use openhound_okta.Saml.Assertions.Asserted.{
  reads, lacks, assertion_evidence-match_values, assertion_evidence-incomplete_fields,
}
use openhound_okta.Saml.Explicit.{SignOn, explicit_saml_routes}
use openhound_okta.Saml.Routes.{Application, saml_routes, is_saml_application, keys_of}
use openhound_okta.Saml.Routes.Agreement.{AgreesWith, saml_routes_agree}
use openhound_okta.Saml.Routes.Outcomes.{saml_routes_explained, explicit_routes_win}
use openhound_okta.Saml.AcsRows.{Row, saml_acs_rows, saml_acs_rows_lem, route_of_row, index_of_row}
use openhound_okta.Saml.Accounts.{
  IdentityProvider, Policy, plain, empty_collection, account_resolution_evidence,
  account_resolution_evidence_lem, Proves, is_saml_identity_provider,
}

abbrev no_strip : Strip
no_strip s = s

abbrev digits : ℕ → String
digits zero = "0"
digits (suc n) = "1"

issuer_is_resolved :
    (idp_issuer_resolution no_strip
      (text "https://issuer")
      (text "http://www.okta.com/${org.externalKey}")).0
    ≡ some "https://issuer"
unfolding idp_issuer_resolution concrete_issuer has_expression string_eq nat_eq
issuer_is_resolved = refl

idp_issuer_resolution-IsProven_example :
    let metadata = text "https://issuer" in
    let configured = text "http://www.okta.com/${org.externalKey}" in
    (has_expression (codes "https://issuer") ≡ false)
    × ((concrete_issuer no_strip metadata ≡ some "https://issuer")
        ⊎ (concrete_issuer no_strip configured ≡ some "https://issuer"))
    × Agrees "https://issuer" (concrete_issuer no_strip metadata)
    × Agrees "https://issuer" (concrete_issuer no_strip configured)
idp_issuer_resolution-IsProven_example =
    idp_issuer_resolution-IsProven no_strip (text "https://issuer")
      (text "http://www.okta.com/${org.externalKey}") "https://issuer" issuer_is_resolved

abbrev sign_on : SignOn
sign_on = record {
  audience_override = null;
  sp_issuer = text "urn:sp";
  audience = text "urn:sp";
  slo_sp_issuer = null;
  sso_acs_url_override = null;
  sso_acs_url = text "https://sp/acs";
  recipient_override = null;
  destination_override = null;
  recipient = null;
  destination = null;
  acs_endpoints =
      record { url = text "https://sp/acs2"; index = some 3; binding = null; is_default = none }
      ∷ [];
  encrypted_acs_endpoints = [];
}

abbrev application : Application
application = record {
  name = text "app";
  sign_on_mode = some "SAML_2_0";
  sign_on = some sign_on;
  app_settings = λ key. null;
}

abbrev two_routes : List SamlRouteEvidence
two_routes = (explicit_saml_routes no_strip digits (some sign_on)).routes

is_saml : is_saml_application application ≡ true
unfolding is_saml_application string_eq option_eq
is_saml = refl

routes_are_found : saml_routes no_strip digits [] application ≡ ok (two_routes, [])
unfolding saml_routes explicit_saml_routes string_eq nat_eq bool_eq option_eq
routes_are_found = refl

routes_are_stated : is_empty two_routes ≡ false
unfolding explicit_saml_routes string_eq nat_eq bool_eq option_eq
routes_are_stated = refl

saml_routes_agree_example :
    All (AgreesWith (explicit_saml_routes no_strip digits (some sign_on))) two_routes
saml_routes_agree_example =
    saml_routes_agree no_strip digits [] application (two_routes, []) routes_are_found

saml_routes_explained_example : (is_empty two_routes ≡ false) ⊎ (is_empty {A = String} [] ≡ false)
saml_routes_explained_example =
    saml_routes_explained no_strip digits [] application (two_routes, []) is_saml routes_are_found

explicit_routes_win_example : map keys_of two_routes ≡ map keys_of two_routes
explicit_routes_win_example =
    explicit_routes_win no_strip digits [] application (two_routes, []) is_saml routes_are_stated
      routes_are_found

saml_acs_rows_lem_example :
    (rows : List Row) × (saml_acs_rows two_routes ≡ some rows)
    × (map route_of_row rows ≡ two_routes)
    × Distinct index_of_row rows
saml_acs_rows_lem_example = saml_acs_rows_lem two_routes

abbrev policy : Policy
policy = record {
  account_link = some (record { action = text "AUTO"; filter = plain null });
  subject = some (record {
    match_type = text "USERNAME";
    filter = plain null;
    match_attribute = empty_collection;
    user_name_template = some (text "idpuser.email");
  });
  transformed_username_matching_enabled = none;
}

abbrev provider : IdentityProvider
provider = record { type = some "SAML2"; protocol_type = some "SAML2"; policy = some policy }

email_is_used :
    (account_resolution_evidence no_strip provider).assertion_field ≡ some "email_match_values"
unfolding account_resolution_evidence string_eq bool_eq option_eq
email_is_used = refl

account_resolution_evidence_lem_example :
    ((account_resolution_evidence no_strip provider).assertion_field ≡ some "email_match_values")
    ↔ ((policy2 : Policy) × (is_saml_identity_provider provider ≡ true)
        × (provider.policy ≡ some policy2)
        × Proves no_strip policy2 "email_match_values")
account_resolution_evidence_lem_example =
    account_resolution_evidence_lem no_strip provider "email_match_values"

duplicates_go : dedupe no_strip (text "a" ∷ null ∷ text "a" ∷ text "" ∷ []) ≡ "a" ∷ []
unfolding dedupe string_eq
duplicates_go = refl

states_are_known : normalize_okta_account_state no_strip (text "LOCKED_OUT") ≡ "login_blocked"
unfolding normalize_okta_account_state string_eq
states_are_known = refl

abbrev texts : Texts
texts = record { strip = no_strip; casefold = λ s. s; uuid = λ s. none; is_space = λ c. c == 32 }

-- A persistent name id that reads the login of the user, and a transient one.
abbrev mapping_of : String → ClaimMapping
mapping_of format = record {
  id = text "mapping";
  claim_type = text "name_id";
  claim_name = text "NameID";
  mapping_origin = text "subject_name_id";
  expression = text "${source.login}";
  source_property = null;
  format = text ("urn:oasis:names:tc:SAML:2.0:nameid-format:" <> format);
  name_id_format = null;
}

abbrev user : ApplicationUser
user = record {
  app_id = "0oa1";
  username = missing;
  profile = none;
  app_subject_name_id_template = null;
  app_subject_name_id_format = null;
  app_user_name_template = null;
}

abbrev logins : SourceProfile
logins = some (some (("login", single (exact "a@b")) ∷ []))

login_is_asserted :
    (assertion_evidence texts user (some (mapping_of "persistent" ∷ [])) logins).match_values
    ≡ "a@b" ∷ []
unfolding assertion_evidence string_eq nat_eq option_eq pair_eq
login_is_asserted = refl

transient_is_not :
    (assertion_evidence texts user (some (mapping_of "transient" ∷ [])) logins).match_values ≡ []
unfolding assertion_evidence string_eq nat_eq option_eq pair_eq
transient_is_not = refl

assertion_evidence-match_values_example :
    let mappings = mapping_of "persistent" ∷ mapping_of "transient" ∷ [] in
    (contains (assertion_evidence texts user (some mappings) logins).match_values "a@b"
      ≡ reads texts user logins "a@b" mappings)
    × Distinct itself (assertion_evidence texts user (some mappings) logins).match_values
assertion_evidence-match_values_example =
    assertion_evidence-match_values texts user logins
      (mapping_of "persistent" ∷ mapping_of "transient" ∷ []) "a@b"

assertion_evidence-incomplete_fields_example :
    (assertion_evidence texts user (some (mapping_of "persistent" ∷ [])) none).incomplete_fields
      scoped_exact_match_values
    ≡ (is_empty (mapping_of "persistent" ∷ [])
        || lacks texts user none scoped_exact_match_values (mapping_of "persistent" ∷ []))
assertion_evidence-incomplete_fields_example =
    assertion_evidence-incomplete_fields texts user none (mapping_of "persistent" ∷ [])
      scoped_exact_match_values
