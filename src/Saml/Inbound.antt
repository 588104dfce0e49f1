-- ===== src/Saml/Inbound.antt =====
-- models/saml.py: the ACS endpoints of an inbound identity provider, and the route that Okta documents for its trust.
pub mod Unique
mod Tests
pub mod Trust
use openhound_okta.Base.{
  ℕ, zero, suc, ◌+◌, ◌≡◌, ◌≤◌, ◌<◌, refl, ap, sym, subst, ◌∙◌, Bool, true, false, ◌&&◌, ◌||◌, not,
  Option, none, some, String, List, [], ◌∷◌, ◌++◌, map, arith, ◌==◌, ◌<>◌, string_eq, nat_eq,
  option_eq, contains, if◌then◌else◌, Option-cases, Bool-cases, inl, inr, length, max,
}
use openhound_okta.Base.Results.{Result, ok, err, ◌>>=◌, bind-ok}
use openhound_okta.Base.Dedupe.{first_by, Distinct, first_by-Distinct}
use openhound_okta.Oin.Validators.{Setting, Strip}
use openhound_okta.Oin.Validators.Urls.{SplitUrl}
use openhound_okta.Oin.Declarative.{is_empty}
use openhound_okta.Saml.Values.{clean}
use openhound_okta.Saml.Explicit.{Endpoint}
use openhound_okta.Saml.Accounts.{IdentityProvider, is_saml_identity_provider}

-- Python's texts and URLs; `urlsplit` is `none` where it raises `ValueError`.
pub record Links : Type 0 where
  pub strip : Strip
  pub casefold : String → String
  pub quote : String → String
  pub urlsplit : String → Option SplitUrl
  pub urlunsplit : String → String → String → String

pub data BadUrl : Type 0 where
  bad_url : BadUrl

-- What is read of an identity provider besides its type; a value that is missing is `null`.
pub record InboundProvider : Type 0 where
  pub provider : IdentityProvider
  pub id : Setting
  pub status : Option String
  pub saml_metadata_entity_id : Setting
  pub saml_metadata_acs_endpoints : List Endpoint
  pub trust_audience : Setting
  pub acs_href : Setting
  pub acs_type : Setting
  pub acs_binding : Setting

-- An item of `metadata_routes`.
pub record MetadataRoute : Type 0 where
  pub acs_url : String
  pub index : Option ℕ
  pub binding : Option String
  pub is_default : Option Bool

-- A row, by the number in its id.
pub record SpRow : Type 0 where
  pub row_index : ℕ
  pub acs_url : String
  pub sp_entity_id : String
  pub index : ℕ
  pub binding : Option String
  pub is_default : Option Bool
  pub route_source : Option String

abbrev pub url_of_route : MetadataRoute → String
url_of_route route = route.acs_url

abbrev pub url_of_row : SpRow → String
url_of_row row = row.acs_url

abbrev pub number_of_row : SpRow → ℕ
number_of_row row = row.row_index

-- `index if index is not None else row_index`
unfoldable pub index_or : Option ℕ → ℕ → ℕ
index_or none row_index = row_index
index_or (some index) row_index = index

unfoldable pub numbered : String → ℕ → List MetadataRoute → List SpRow
unfolding index_or
numbered sp_entity_id row_index [] = []
numbered sp_entity_id row_index (route ∷ routes) =
    record {
      row_index = row_index;
      acs_url = route.acs_url;
      sp_entity_id = sp_entity_id;
      index = index_or route.index row_index;
      binding = route.binding;
      is_default = route.is_default;
      route_source = some "identity_provider_metadata";
    }
    ∷ numbered sp_entity_id (suc row_index) routes

-- `max(used_indexes, default=-1) + 1`
unfoldable pub alias_index : List SpRow → ℕ
alias_index [] = 0
alias_index (row ∷ rows) = max (suc row.index) (alias_index rows)

-- `a or b`
unfoldable pub or_else : Option String → Option String → Option String
or_else none b = b
or_else (some a) b = some a

-- A part of a URL is there and not empty.
abbrev pub is_there : Option String → Bool
is_there none = false
is_there (some s) = not (s == "")

abbrev pub is_absent : Option String → Bool
is_absent none = true
is_absent (some s) = false

module _ (l : Links) where
  -- The endpoints of the metadata that have a URL.
  unfoldable pub with_urls : List Endpoint → List MetadataRoute
  unfolding clean
  with_urls [] = []
  with_urls (endpoint ∷ endpoints) =
      let rest = with_urls endpoints in
      elim (clean l.strip endpoint.url) [
        | none ↦ rest
        | some acs_url ↦
            record {
              acs_url = acs_url;
              index = endpoint.index;
              binding = clean l.strip endpoint.binding;
              is_default = endpoint.is_default;
            }
            ∷ rest
      ]

  -- `_idp_sp_entity_id`
  unfoldable pub idp_sp_entity_id : InboundProvider → Option String
  unfolding clean or_else
  idp_sp_entity_id p =
      or_else (clean l.strip p.saml_metadata_entity_id) (clean l.strip p.trust_audience)

  -- The shared route of Okta: `https`, `/sso/saml2`, and nothing besides a host.
  unfoldable pub is_shared_route : SplitUrl → Bool
  is_shared_route parsed =
      l.casefold parsed.scheme == "https"
      && (not (parsed.netloc == "")
          && (is_there parsed.hostname
              && (is_absent parsed.username
                  && (is_absent parsed.password
                      && (parsed.path == "/sso/saml2"
                          && (parsed.query == "" && parsed.fragment == ""))))))

  -- The route of one trust below the shared route.
  unfoldable pub trust_route : SplitUrl → Option String → Option String
  unfolding is_shared_route
  trust_route parsed none = none
  trust_route parsed (some idp_id) =
      if is_shared_route parsed && l.quote idp_id == idp_id
      then some (l.urlunsplit parsed.scheme parsed.netloc (parsed.path <> ("/" <> idp_id)))
      else none

  -- The shared URL of an active provider with an endpoint of the organisation, unless the metadata has others.
  unfoldable pub shared_url : InboundProvider → List String → Option String
  unfolding clean
  shared_url p metadata_urls =
      if p.status == some "ACTIVE" && clean l.strip p.acs_type == some "ORG"
      then elim (clean l.strip p.acs_href) [
        | none ↦ none
        | some url ↦ if is_empty metadata_urls || contains metadata_urls url then some url else none
      ]
      else none

  -- `_okta_org_trust_specific_acs_url`
  unfoldable pub okta_org_trust_specific_acs_url :
      InboundProvider → List String → Result BadUrl (Option String)
  unfolding shared_url trust_route clean
  okta_org_trust_specific_acs_url p metadata_urls = elim (shared_url p metadata_urls) [
    | none ↦ ok none
    | some url ↦ elim (l.urlsplit url) [
      | none ↦ err bad_url
      | some parsed ↦ ok (trust_route parsed (clean l.strip p.id))
    ]
  ]

  -- The one row without metadata.
  unfoldable pub single_row : InboundProvider → String → List SpRow
  unfolding clean
  single_row p sp_entity_id = elim (clean l.strip p.acs_href) [
    | none ↦ []
    | some acs_url ↦
        record {
          row_index = 0;
          acs_url = acs_url;
          sp_entity_id = sp_entity_id;
          index = 0;
          binding = clean l.strip p.acs_binding;
          is_default = some true;
          route_source = none;
        }
        ∷ []
  ]

  -- The rows before the route of the trust is added.
  unfoldable pub base_rows : InboundProvider → String → List MetadataRoute → List SpRow
  unfolding single_row numbered
  base_rows p sp_entity_id [] = single_row p sp_entity_id
  base_rows p sp_entity_id (route ∷ routes) = numbered sp_entity_id 0 (route ∷ routes)

  -- The rows with the route of the trust, unless it is there already.
  unfoldable pub with_alias : InboundProvider → String → List SpRow → Option String → List SpRow
  unfolding alias_index clean
  with_alias p sp_entity_id rows none = rows
  with_alias p sp_entity_id rows (some url) =
      if url == "" || contains (map url_of_row rows) url
      then rows
      else rows
        ++ (record {
          row_index = length rows;
          acs_url = url;
          sp_entity_id = sp_entity_id;
          index = alias_index rows;
          binding = clean l.strip p.acs_binding;
          is_default = some false;
          route_source = some "identity_provider_api+documented_okta_trust_route";
        }
            ∷ [])

  -- The rows of a provider with an entity id.
  unfoldable pub rows_of_entity : InboundProvider → String → Result BadUrl (List SpRow)
  unfolding base_rows with_alias okta_org_trust_specific_acs_url with_urls first_by
  rows_of_entity p sp_entity_id =
      let rows =
        base_rows p sp_entity_id
          (first_by url_of_route (with_urls p.saml_metadata_acs_endpoints)) in
      if is_empty rows
      then ok []
      else (okta_org_trust_specific_acs_url p (map url_of_row rows) >>= λ url.
          ok (with_alias p sp_entity_id rows url))

  -- `saml_sp_acs_rows`
  unfoldable pub saml_sp_acs_rows : InboundProvider → Result BadUrl (List SpRow)
  unfolding rows_of_entity idp_sp_entity_id is_saml_identity_provider
  saml_sp_acs_rows p =
      if is_saml_identity_provider p.provider
      then elim (idp_sp_entity_id p) [
        | none ↦ ok []
        | some sp_entity_id ↦ rows_of_entity p sp_entity_id
      ]
      else ok []
