-- ===== src/Saml/Inbound/Tests.antt =====
-- A run of `saml_sp_acs_rows` on a provider with two endpoints in its metadata and the shared route of its organisation.
use openhound_okta.Base.{
  ℕ, ◌≡◌, refl, false, none, some, String, List, [], ◌∷◌, ◌<>◌, string_eq, nat_eq, option_eq, All,
}
use openhound_okta.Base.Dedupe.{Distinct}
use openhound_okta.Base.Results.{ok}
use openhound_okta.Oin.Validators.{null, text}
use openhound_okta.Saml.Inbound.{
  Links, InboundProvider, SpRow, url_of_row, number_of_row, saml_sp_acs_rows,
}
use openhound_okta.Saml.Inbound.Unique.{saml_sp_acs_rows_lem}
use openhound_okta.Saml.Inbound.Trust.{HasSource, saml_sp_acs_rows-HasSource}

abbrev plain_links : Links
plain_links = record {
  strip = λ s. s;
  casefold = λ s. s;
  quote = λ s. s;
  urlsplit = λ s. some (record {
    scheme = "https";
    netloc = "acme.okta.com";
    hostname = some "acme.okta.com";
    username = none;
    password = none;
    path = "/sso/saml2";
    query = "";
    fragment = "";
  });
  urlunsplit = λ scheme netloc path. scheme <> ("://" <> (netloc <> path));
}

abbrev inbound : InboundProvider
inbound = record {
  provider = record { type = some "SAML2"; protocol_type = some "SAML2"; policy = none };
  id = text "0oa1";
  status = some "ACTIVE";
  saml_metadata_entity_id = text "https://acme.okta.com/sp";
  saml_metadata_acs_endpoints =
      record {
        url = text "https://acme.okta.com/sso/saml2";
        index = some 4;
        binding = null;
        is_default = none;
      }
      ∷ record {
        url = text "https://acme.okta.com/sso/saml2";
        index = none;
        binding = null;
        is_default = none;
      }
      ∷ record {
        url = text "https://acme.okta.com/other";
        index = none;
        binding = null;
        is_default = none;
      }
      ∷ [];
  trust_audience = null;
  acs_href = text "https://acme.okta.com/sso/saml2";
  acs_type = text "ORG";
  acs_binding = null;
}

abbrev metadata_row : ℕ → ℕ → String → SpRow
metadata_row n i url = record {
  row_index = n;
  acs_url = url;
  sp_entity_id = "https://acme.okta.com/sp";
  index = i;
  binding = none;
  is_default = none;
  route_source = some "identity_provider_metadata";
}

abbrev inbound_rows : List SpRow
inbound_rows =
    metadata_row 0 4 "https://acme.okta.com/sso/saml2"
    ∷ metadata_row 1 1 "https://acme.okta.com/other"
    ∷ record {
      row_index = 2;
      acs_url = "https://acme.okta.com/sso/saml2/0oa1";
      sp_entity_id = "https://acme.okta.com/sp";
      index = 5;
      binding = none;
      is_default = some false;
      route_source = some "identity_provider_api+documented_okta_trust_route";
    }
    ∷ []

inbound_rows_are_found : saml_sp_acs_rows plain_links inbound ≡ ok inbound_rows
unfolding saml_sp_acs_rows string_eq nat_eq option_eq
inbound_rows_are_found = refl

saml_sp_acs_rows_lem_example :
    Distinct url_of_row inbound_rows × Distinct number_of_row inbound_rows
saml_sp_acs_rows_lem_example =
    saml_sp_acs_rows_lem plain_links inbound inbound_rows inbound_rows_are_found

saml_sp_acs_rows-HasSource_example : All (HasSource plain_links inbound) inbound_rows
saml_sp_acs_rows-HasSource_example =
    saml_sp_acs_rows-HasSource plain_links inbound inbound_rows inbound_rows_are_found
