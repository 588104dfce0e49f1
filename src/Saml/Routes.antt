-- ===== src/Saml/Routes.antt =====
-- `_saml_routes` of models/saml.py: explicit fields, then the routes of the OIN profiles.
pub mod Agreement
pub mod Outcomes
use openhound_okta.Base.{
  ℕ, ◌≡◌, ◌≢◌, ◌⊎◌, refl, Bool, true, false, ◌&&◌, ◌||◌, not, Option, none, some, String, List, [],
  ◌∷◌, ◌++◌, map, arith, ◌==◌, string_eq, option_eq, pair_eq, contains, if◌then◌else◌, Option-cases,
  Bool-cases, inl, inr,
}
use openhound_okta.Base.Results.{Result, ok, err, ◌>>=◌, bind-ok}
use openhound_okta.Oin.Contract.{SamlRouteEvidence, OinRouteResolution}
use openhound_okta.Oin.Validators.{Setting, Strip}
use openhound_okta.Oin.Declarative.{ResolveError, is_empty}
use openhound_okta.Oin.Registry.{Registry, resolve_oin_routes}
use openhound_okta.Saml.Explicit.{SignOn, ExplicitRouteExtraction, explicit_saml_routes}

-- What is read of an application.
pub record Application : Type 0 where
  pub name : Setting
  pub sign_on_mode : Option String
  pub sign_on : Option SignOn
  pub app_settings : String → Setting

-- `is_saml_application`
unfoldable pub is_saml_application : Application → Bool
is_saml_application application = application.sign_on_mode == some "SAML_2_0"

abbrev pub Keys : Type 0
Keys = String × String

abbrev pub keys_of : SamlRouteEvidence → Keys
keys_of route = (route.acs_url, route.sp_entity_id)

-- A test that some item passes.
unfoldable pub exists {ℓ} : {A : Type ℓ} → (A → Bool) → List A → Bool
exists p [] = false
exists p (x ∷ xs) = p x || exists p xs

-- `oin_keys - explicit_keys` has an item.
unfoldable pub has_conflict : List SamlRouteEvidence → List SamlRouteEvidence → Bool
unfolding exists
has_conflict explicit_routes oin_routes =
    exists (λ route. not (contains (map keys_of explicit_routes) (keys_of route))) oin_routes

abbrev pub conflict : String
conflict = "explicit_generic_route_overrides_conflicting_oin_route"

-- `replace(route, route_conflicts=(*route.route_conflicts, conflict))`
unfoldable pub marked : SamlRouteEvidence → SamlRouteEvidence
marked route = record route { route_conflicts = route.route_conflicts ++ (conflict ∷ []) }

abbrev pub Outcome : Type 0
Outcome = List SamlRouteEvidence × List String

-- The explicit fields hold routes.
unfoldable pub with_explicit : ExplicitRouteExtraction → List SamlRouteEvidence → Outcome
unfolding has_conflict marked
with_explicit explicit oin_routes =
    if has_conflict explicit.routes oin_routes
    then (map marked explicit.routes, explicit.diagnostics ++ (conflict ∷ []))
    else (explicit.routes, explicit.diagnostics)

-- `partial_diagnostics`
unfoldable pub partial_acs : List String → List SamlRouteEvidence → List String
unfolding exists
partial_acs [] oin_routes = []
partial_acs (url ∷ urls) oin_routes =
    (if exists (λ route. not (contains (url ∷ urls) route.acs_url)) oin_routes
      then "partial_explicit_acs_conflicts_with_oin_route"
      else "missing_authoritative_sp_entity_evidence")
    ∷ []

unfoldable pub partial_sp_entity : Option String → List SamlRouteEvidence → List String
unfolding exists
partial_sp_entity none oin_routes = []
partial_sp_entity (some sp_entity_id) oin_routes =
    (if exists (λ route. not (sp_entity_id == route.sp_entity_id)) oin_routes
      then "partial_explicit_sp_entity_conflicts_with_oin_route"
      else "missing_authoritative_acs_evidence")
    ∷ []

-- The explicit fields hold no route, the profiles do.
unfoldable pub with_oin : ExplicitRouteExtraction → OinRouteResolution → Outcome
unfolding partial_acs partial_sp_entity
with_oin explicit resolution =
    let partial_diagnostics =
      partial_acs explicit.acs_urls resolution.routes
      ++ partial_sp_entity explicit.sp_entity_id resolution.routes in
    if is_empty partial_diagnostics
    then (resolution.routes, resolution.diagnostics)
    else ([], partial_diagnostics)

-- Neither holds a route.
unfoldable pub without_routes : List String → Option String → List String → List String
without_routes (diagnostic ∷ diagnostics) sp_entity_id acs_urls = diagnostic ∷ diagnostics
without_routes [] none (url ∷ urls) = "missing_authoritative_sp_entity_evidence" ∷ []
without_routes [] (some sp_entity_id) [] = "missing_authoritative_acs_evidence" ∷ []
without_routes [] none [] = "missing_authoritative_acs_and_sp_entity_evidence" ∷ []
without_routes [] (some sp_entity_id) (url ∷ urls) =
    "missing_authoritative_acs_and_sp_entity_evidence" ∷ []

-- The rest of `_saml_routes`, once both are known.
unfoldable pub choose_routes : ExplicitRouteExtraction → OinRouteResolution → Outcome
unfolding with_explicit with_oin without_routes
choose_routes explicit resolution =
    if explicit.contradictory
    then ([], explicit.diagnostics)
    else if not (is_empty explicit.routes)
    then with_explicit explicit resolution.routes
    else if not (is_empty resolution.routes)
    then with_oin explicit resolution
    else ([], without_routes resolution.diagnostics explicit.sp_entity_id explicit.acs_urls)

-- `_saml_routes`; a profile raises where a value is missing.
unfoldable pub saml_routes :
    Strip → (ℕ → String) → Registry → Application → Result ResolveError Outcome
unfolding is_saml_application explicit_saml_routes resolve_oin_routes choose_routes
saml_routes strip str registry application =
    if is_saml_application application
    then (resolve_oin_routes registry application.name application.app_settings >>= λ resolution.
        ok (choose_routes (explicit_saml_routes strip str application.sign_on) resolution))
    else ok ([], [])

-- Routes that were found come from no SAML application, or from the explicit fields and a resolution.
pub saml_routes-ok :
    (strip : Strip) (str : ℕ → String) (registry : Registry) (application : Application)
    (outcome : Outcome)
    → saml_routes strip str registry application ≡ ok outcome
    → ((is_saml_application application ≡ false) × (([], []) ≡ outcome))
      ⊎ ((resolution : OinRouteResolution) × (is_saml_application application ≡ true)
          × (resolve_oin_routes registry application.name application.app_settings ≡ ok resolution)
          × (choose_routes (explicit_saml_routes strip str application.sign_on) resolution
              ≡ outcome))
unfolding saml_routes
saml_routes-ok strip str registry application outcome h =
    elim (Bool-cases (is_saml_application application)) [
      | inl saml ↦
          let (resolution, resolved, chosen) =
            bind-ok (resolve_oin_routes registry application.name application.app_settings)
              (λ resolution.
                ok (choose_routes (explicit_saml_routes strip str application.sign_on) resolution))
              (rw (saml, saml_routes) at h) in
          inr (resolution, saml, resolved, cc)
      | inr others ↦
          let nothing_chosen : ◌≡◌ {A = Result ResolveError Outcome} (ok ([], [])) (ok outcome) =
            rw (others, saml_routes) at h in
          inl (others, cc)
    ]
