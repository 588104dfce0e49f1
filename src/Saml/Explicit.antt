-- ===== src/Saml/Explicit.antt =====
-- models/saml.py: the routes that the fields under `settings.signOn` state.
use openhound_okta.Base.{
  ℕ, suc, Bool, true, false, Option, none, some, String, List, [], ◌∷◌, ◌++◌, map, ◌<>◌, string_eq,
  nat_eq, bool_eq, option_eq, pair_eq, ltb, if◌then◌else◌, length,
}
use openhound_okta.Base.Dedupe.{first_by}
use openhound_okta.Oin.Contract.{SamlRouteEvidence, route_key, itself}
use openhound_okta.Oin.Validators.{Setting, Strip}
use openhound_okta.Saml.Values.{clean}

-- `SamlAcsEndpoint`; an index is a natural number.
pub record Endpoint : Type 0 where
  pub url : Setting
  pub index : Option ℕ
  pub binding : Setting
  pub is_default : Option Bool

-- The fields of `settings.signOn` that are read, `null` where they are missing.
pub record SignOn : Type 0 where
  pub audience_override : Setting
  pub sp_issuer : Setting
  pub audience : Setting
  pub slo_sp_issuer : Setting
  pub sso_acs_url_override : Setting
  pub sso_acs_url : Setting
  pub recipient_override : Setting
  pub destination_override : Setting
  pub recipient : Setting
  pub destination : Setting
  pub acs_endpoints : List Endpoint
  pub encrypted_acs_endpoints : List Endpoint

-- A value and the field it stands in.
abbrev pub Sourced : Type 0
Sourced = String × String

-- The candidates with a value.
unfoldable pub populated : List (Option String × String) → List Sourced
populated [] = []
populated ((none, source) ∷ rest) = populated rest
populated ((some value, source) ∷ rest) = (value, source) ∷ populated rest

abbrev pub value_of : Sourced → String
value_of s = s.0

-- One value at most, and the first field that has it.
unfoldable pub sole : List Sourced → Option Sourced × List String
unfolding first_by
sole [] = (none, [])
sole (s ∷ rest) =
    if ltb 1 (length (first_by itself (map value_of (s ∷ rest))))
    then (none, "conflicting_explicit_sp_entity_fields" ∷ [])
    else (some s, [])

unfoldable pub first_of : List Sourced → Option Sourced
first_of [] = none
first_of (s ∷ rest) = some s

-- The tuples of `acs_candidates`.
pub record AcsCandidate : Type 0 where
  pub acs_url : String
  pub acs_source : String
  pub index : Option ℕ
  pub binding : Option String
  pub is_default : Option Bool

-- `_ExplicitRouteExtraction`
pub record ExplicitRouteExtraction : Type 0 where
  pub routes : List SamlRouteEvidence
  pub acs_urls : List String
  pub sp_entity_id : Option String
  pub diagnostics : List String
  pub contradictory : Bool

abbrev pub url_of : AcsCandidate → String
url_of c = c.acs_url

unfoldable pub evidence : Sourced → AcsCandidate → SamlRouteEvidence
evidence (sp_entity_id, sp_entity_source) c = record {
  acs_url = c.acs_url;
  sp_entity_id = sp_entity_id;
  index = c.index;
  binding = c.binding;
  is_default = c.is_default;
  target_product_family = "generic_saml";
  route_source = "settings.signOn";
  extraction_mode = "explicit_generic";
  acs_source_field = c.acs_source;
  sp_entity_source_field = sp_entity_source;
  route_conflicts = [];
}

-- What the entity of the service provider and the candidates for its URLs prove.
unfoldable pub extraction :
    Option Sourced × List String → List AcsCandidate → ExplicitRouteExtraction
unfolding evidence first_by
extraction (entity, diagnostic ∷ diagnostics) candidates = record {
  routes = [];
  acs_urls = first_by itself (map url_of candidates);
  sp_entity_id = none;
  diagnostics = diagnostic ∷ diagnostics;
  contradictory = true;
}
extraction (none, []) candidates = record {
  routes = [];
  acs_urls = first_by itself (map url_of candidates);
  sp_entity_id = none;
  diagnostics = [];
  contradictory = false;
}
extraction (some entity, []) candidates = record {
  routes = first_by route_key (map (evidence entity) candidates);
  acs_urls = first_by itself (map url_of candidates);
  sp_entity_id = some entity.0;
  diagnostics = [];
  contradictory = false;
}

-- Python's `str` of a number is an argument.
module _ (strip : Strip) (str : ℕ → String) where
  unfoldable pub sp_entity_candidates : SignOn → List Sourced
  unfolding populated clean
  sp_entity_candidates sign_on = populated (
      (clean strip sign_on.sp_issuer, "settings.signOn.spIssuer")
      ∷ (clean strip sign_on.audience, "settings.signOn.audience")
      ∷ (clean strip sign_on.slo_sp_issuer, "settings.signOn.slo.spIssuer")
      ∷ [])

  -- `_explicit_sp_entity`
  unfoldable pub explicit_sp_entity : SignOn → Option Sourced × List String
  unfolding sp_entity_candidates sole clean
  explicit_sp_entity sign_on = elim (clean strip sign_on.audience_override) [
    | some audience ↦ (some (audience, "settings.signOn.audienceOverride"), [])
    | none ↦ sole (sp_entity_candidates sign_on)
  ]

  -- `_primary_explicit_acs`
  unfoldable pub primary_explicit_acs : SignOn → Option Sourced
  unfolding populated clean first_of
  primary_explicit_acs sign_on = first_of (
      populated (
        (clean strip sign_on.sso_acs_url_override, "settings.signOn.ssoAcsUrlOverride")
        ∷ (clean strip sign_on.sso_acs_url, "settings.signOn.ssoAcsUrl")
        ∷ (clean strip sign_on.recipient_override, "settings.signOn.recipientOverride")
        ∷ (clean strip sign_on.destination_override, "settings.signOn.destinationOverride")
        ∷ (clean strip sign_on.recipient, "settings.signOn.recipient")
        ∷ (clean strip sign_on.destination, "settings.signOn.destination")
        ∷ []))

  -- The endpoints of a list with the names of their fields.
  unfoldable pub enumerated : String → ℕ → List Endpoint → List (Endpoint × String)
  enumerated field index [] = []
  enumerated field index (endpoint ∷ endpoints) =
      (endpoint, field <> ("[" <> (str index <> "].url"))) ∷ enumerated field (suc index) endpoints

  -- `_explicit_acs_endpoints`
  unfoldable pub explicit_acs_endpoints : SignOn → List (Endpoint × String)
  unfolding enumerated
  explicit_acs_endpoints sign_on =
      enumerated "settings.signOn.acsEndpoints" 0 sign_on.acs_endpoints
      ++ enumerated "settings.signOn.assertionEncryption.acsEndpoints" 0
          sign_on.encrypted_acs_endpoints

  -- The endpoints with a URL.
  unfoldable pub endpoint_candidates : List (Endpoint × String) → List AcsCandidate
  unfolding clean
  endpoint_candidates [] = []
  endpoint_candidates ((endpoint, source_field) ∷ rest) =
      let candidates = endpoint_candidates rest in
      elim (clean strip endpoint.url) [
        | none ↦ candidates
        | some acs_url ↦
            record {
              acs_url = acs_url;
              acs_source = source_field;
              index = endpoint.index;
              binding = clean strip endpoint.binding;
              is_default = endpoint.is_default;
            }
            ∷ candidates
      ]

  unfoldable pub acs_candidates : SignOn → List AcsCandidate
  unfolding primary_explicit_acs endpoint_candidates explicit_acs_endpoints
  acs_candidates sign_on =
      let others = endpoint_candidates (explicit_acs_endpoints sign_on) in
      elim (primary_explicit_acs sign_on) [
        | none ↦ others
        | some (acs_url, source) ↦
            record {
              acs_url = acs_url;
              acs_source = source;
              index = some 0;
              binding = none;
              is_default = some true;
            }
            ∷ others
      ]

  -- `_explicit_saml_routes`
  unfoldable pub explicit_saml_routes : Option SignOn → ExplicitRouteExtraction
  unfolding extraction explicit_sp_entity acs_candidates
  explicit_saml_routes none = extraction (none, []) []
  explicit_saml_routes (some sign_on) =
      extraction (explicit_sp_entity sign_on) (acs_candidates sign_on)
