-- ===== src/Oin/Tests.antt =====
-- Routes of integrations at concrete settings.
use openhound_okta.Base.{
  ◌≡◌, ◌≢◌, ◌⊎◌, refl, Bool, true, false, none, some, String, List, [], ◌∷◌, Option, string_eq,
  nat_eq, map, bool_eq, pair_eq, option_eq, list_eq,
}
use openhound_okta.Base.Dict.{Dict, insert, lookup}
use openhound_okta.Base.Dedupe.{find_key}
use openhound_okta.Base.Text.{split}
use openhound_okta.Base.Results.{ok, err}
use openhound_okta.Oin.Contract.{SamlRouteEvidence, OinRouteResolution, route_resolution, itself}
use openhound_okta.Oin.Validators.{
  Setting, null, text, stripped, matches_tail, matches, is_alnum, is_label_char, is_host_label,
  is_host_scope, host_scope, host_label,
}
use openhound_okta.Oin.Validators.Urls.{Urls, SplitUrl, split_value, is_host, is_refused, https_url}
use openhound_okta.Oin.Resolvers.{
  miro_route, miro_from, miro_url, is_miro_url, is_miro_host, miro_evidence,
}
use openhound_okta.Oin.Declarative.{
  RouteVariable, RouteTemplate, RouteProfile, format_error, placeholders, check_template,
  check_routes, post_init, resolve,
}
use openhound_okta.Oin.Declarative.Resolution.{resolve_total, resolve_fails_closed}
use openhound_okta.Oin.Registry.{
  OinRouteProvider, Registry, add_keys, add_provider, add_providers, build_registry,
}

abbrev as_it_is : String → String
as_it_is s = s

abbrev evidence : String → SamlRouteEvidence
evidence url = record {
  acs_url = url;
  sp_entity_id = "entity";
  index = some 0;
  binding = none;
  is_default = some true;
  target_product_family = "family";
  route_source = "source";
  extraction_mode = "mode";
  acs_source_field = "settings.app.host";
  sp_entity_source_field = "static";
  route_conflicts = [];
}

abbrev two_routes : List SamlRouteEvidence
two_routes = evidence "https://a" ∷ evidence "https://a" ∷ []

host_is_accepted : host_scope as_it_is (text "a.b") ≡ some "a.b"
unfolding host_scope stripped is_host_scope is_host_label matches matches_tail split is_alnum
    is_label_char nat_eq string_eq
host_is_accepted = refl

abbrev parts : SplitUrl
parts = record {
  scheme = "https";
  netloc = "a.b";
  hostname = some "a.b";
  username = none;
  password = none;
  path = "/";
  query = "";
  fragment = "";
}

abbrev urls : Urls
urls = record {
  strip = as_it_is;
  is_unprintable = λ s. false;
  urlsplit = λ s. some parts;
  ends_with_colon = λ s. false;
  is_ip_address = λ s. true;
  urlunsplit = λ scheme netloc path. "https://a.b/";
}

url_is_split : split_value urls (text "https://a.b/") ≡ some parts
unfolding split_value stripped string_eq
url_is_split = refl

url_is_accepted : https_url urls (text "https://a.b/") ≡ some "https://a.b/"
unfolding https_url split_value stripped string_eq is_refused is_host
url_is_accepted = refl

abbrev host : RouteVariable
host = record {
  name = "host";
  app_field = "domain";
  validator = host_label as_it_is;
  diagnostic = "domain_invalid";
}

-- A plain `{name}`.
abbrev plain : Dict String String → String → Option String
plain values v = some v

-- `{name:d}`
abbrev decimal : Dict String String → String → Option String
decimal values v = none

abbrev profile : RouteProfile
profile = record {
  profile_id = "p";
  app_keys = "app" ∷ [];
  variables = host ∷ [];
  routes =
      record {
        acs = record { literal = "https://"; placeholder = some "host"; shown = plain } ∷ [];
        sp_entity = record { literal = "entity"; placeholder = none; shown = plain } ∷ [];
        acs_variables = "host" ∷ [];
        sp_entity_variables = [];
        acs_static_source = none;
        sp_entity_static_source = some "static";
        index = some 0;
        binding = none;
        is_default = some true;
      }
      ∷ [];
  target_product_family = "family";
  route_source = "source";
  extraction_mode = "mode";
  evidence_references = "doc" ∷ [];
  evidence_reviewed_at = "2026-01-01";
}

abbrev all_texts : String → Bool
all_texts s = true

profile_is_accepted : post_init all_texts profile ≡ ok profile
unfolding post_init check_routes check_template placeholders string_eq bool_eq
profile_is_accepted = refl

abbrev unset : String → Setting
unset field = null

-- A format that does not fit the value is accepted with the profile, and raises when a route is built.
abbrev decimal_profile : RouteProfile
decimal_profile = record profile {
  variables = record host { validator = λ v. some "acme" } ∷ [];
  routes =
      map
        (λ (r : RouteTemplate). record r {
          acs = record { literal = "https://"; placeholder = some "host"; shown = decimal } ∷ [];
        })
        profile.routes;
}

decimal_is_accepted : post_init all_texts decimal_profile ≡ ok decimal_profile
unfolding post_init check_routes check_template placeholders string_eq bool_eq
decimal_is_accepted = refl

decimal_raises : resolve decimal_profile unset ≡ err (format_error "host")
unfolding resolve insert lookup string_eq
decimal_raises = refl

resolve_total_example :
    (r : OinRouteResolution) × (resolve profile unset ≡ ok r)
    × (((r.routes ≢ []) × (r.diagnostics ≡ [])) ⊎ ((r.routes ≡ []) × (r.diagnostics ≢ [])))
resolve_total_example =
    resolve_total all_texts profile profile unset profile_is_accepted
      (((λ values v. λ e. cc, tt), (λ values v. λ e. cc, tt)), tt)

unset_is_refused : host_label as_it_is null ≡ none
unfolding host_label stripped
unset_is_refused = refl

resolve_fails_closed_example :
    (r : OinRouteResolution) × (resolve profile unset ≡ ok r)
    × (r.routes ≡ [])
    × (find_key itself "domain_invalid" r.diagnostics ≡ some "domain_invalid")
resolve_fails_closed_example = resolve_fails_closed profile unset 0 host refl unset_is_refused

abbrev provider : OinRouteProvider
provider = record {
  profile_id = "p";
  app_keys = "app" ∷ "app2" ∷ [];
  evidence_references = "doc" ∷ [];
  evidence_reviewed_at = "2026-01-01";
  resolve = resolve profile;
}

abbrev registry : Registry
registry = ("app", provider) ∷ ("app2", provider) ∷ []

registry_is_built : build_registry all_texts (provider ∷ []) ≡ ok registry
unfolding build_registry add_providers add_provider add_keys insert lookup string_eq
registry_is_built = refl

abbrev miro_urls : Urls
miro_urls = record urls {
  urlsplit = λ s. some (record parts { hostname = some "miro.com" });
  urlunsplit = λ scheme netloc path. "https://miro.com/";
}

abbrev miro_settings : String → Setting
miro_settings field = text "https://miro.com/"

abbrev all_present : String → Bool
all_present field = true

miro_is_resolved :
    (miro_route miro_urls all_present miro_settings).routes
    ≡ miro_evidence "https://miro.com/" "https://miro.com/" ∷ []
unfolding miro_route miro_from miro_url is_miro_url is_miro_host https_url split_value stripped
    is_refused is_host route_resolution string_eq
miro_is_resolved = refl
