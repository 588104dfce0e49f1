-- ===== src/Saml/Routes/Agreement.antt =====
-- What the routes of an application rest on: they never contradict the explicit fields.
use openhound_okta.Base.{
  ℕ, ◌≡◌, ◌⊎◌, refl, ap, ◌∙◌, sym, subst, Bool, true, false, not, Option, none, some, String, List,
  [], ◌∷◌, ◌++◌, map, arith, string_eq, nat_eq, bool_eq, option_eq, pair_eq, contains,
  if◌then◌else◌, inl, inr, All, All-mono,
}
use openhound_okta.Base.Results.{ok}
use openhound_okta.Base.Dedupe.{first_by, All-first_by}
use openhound_okta.Oin.Contract.{
  SamlRouteEvidence, OinRouteResolution, route_key, itself, contains-first_by-itself,
}
use openhound_okta.Oin.Validators.{Strip}
use openhound_okta.Oin.Declarative.{is_empty}
use openhound_okta.Oin.Registry.{Registry}
use openhound_okta.Saml.Explicit.{
  SignOn, ExplicitRouteExtraction, explicit_saml_routes, explicit_sp_entity, acs_candidates,
  extraction, Sourced, AcsCandidate, evidence, url_of,
}
use openhound_okta.Saml.Routes.{
  Application, Outcome, marked, with_explicit, with_oin, partial_acs, partial_sp_entity,
  has_conflict, conflict, without_routes, choose_routes, saml_routes, saml_routes-ok,
}

-- The service provider of a route is the explicit one, if there is one, and so is its URL.
abbrev pub AgreesWith : ExplicitRouteExtraction → SamlRouteEvidence → Type 0
AgreesWith explicit route =
    ((explicit.sp_entity_id ≡ none) ⊎ (explicit.sp_entity_id ≡ some route.sp_entity_id))
    × ((explicit.acs_urls ≡ []) ⊎ (contains explicit.acs_urls route.acs_url ≡ true))

abbrev Sound : ExplicitRouteExtraction → Outcome → Type 0
Sound explicit outcome = All (AgreesWith explicit) outcome.0

All-of {ℓ κ} : {A : Type ℓ} (P : A → Type κ) (xs : List A) → ((x : A) → P x) → All P xs
All-of P [] h = tt
All-of P (x ∷ xs) h = (h x, All-of P xs h)

All-map {ℓ κ μ} :
    {A : Type ℓ} {B : Type κ} (P : A → Type μ) (Q : B → Type μ) (f : A → B) (xs : List A)
    → ((x : A) → P x → Q (f x))
    → All P xs
    → All Q (map f xs)
All-map P Q f [] g h = tt
All-map P Q f (x ∷ xs) g (p, ps) = (g x p, All-map P Q f xs g ps)

evidence_agrees :
    (entity : Sourced) (urls : List String) (cs : List AcsCandidate)
    → ((u : String) → contains (map url_of cs) u ≡ true → contains urls u ≡ true)
    → All
        (λ route. (route.sp_entity_id ≡ entity.0) × (contains urls route.acs_url ≡ true))
        (map (evidence entity) cs)
unfolding evidence
evidence_agrees entity urls [] known = tt
evidence_agrees entity urls (c ∷ cs) known = (
  (refl, known c.acs_url (ground arith)),
  evidence_agrees entity urls cs (λ u h. known u (ground arith)),
)

explicit_routes_agree :
    (entity : Option Sourced × List String) (cs : List AcsCandidate)
    → All (AgreesWith (extraction entity cs)) (extraction entity cs).routes
unfolding extraction
explicit_routes_agree (entity, diagnostic ∷ diagnostics) cs = tt
explicit_routes_agree (none, []) cs = tt
explicit_routes_agree (some entity, []) cs =
    All-first_by route_key (AgreesWith (extraction (some entity, []) cs)) (map (evidence entity) cs)
      (All-mono (AgreesWith (extraction (some entity, []) cs))
        (λ route (same, among). (inr (ap some (sym same)), inr among)) (map (evidence entity) cs)
        (evidence_agrees entity (first_by itself (map url_of cs)) cs
          (λ u h. contains-first_by-itself u (map url_of cs) ∙ h)))

branch {ℓ κ} :
    {A : Type ℓ} (P : A → Type κ) (b : Bool) (x y : A)
    → (b ≡ true → P x)
    → (b ≡ false → P y)
    → P (if b then x else y)
branch P true x y f g = f refl
branch P false x y f g = g refl

-- Where the explicit fields state neither a service provider nor a URL, a profile contradicts nothing.
open_fields :
    (urls : List String) (entity : Option String) (oin_routes : List SamlRouteEvidence)
    → is_empty (partial_acs urls oin_routes ++ partial_sp_entity entity oin_routes) ≡ true
    → (entity ≡ none) × (urls ≡ [])
unfolding partial_acs partial_sp_entity
open_fields [] none oin_routes h = (refl, refl)
open_fields [] (some e) oin_routes h = cc
open_fields (u ∷ us) entity oin_routes h = cc

with_explicit_agrees :
    (explicit : ExplicitRouteExtraction) (oin_routes : List SamlRouteEvidence)
    → All (AgreesWith explicit) explicit.routes
    → All (AgreesWith explicit) (with_explicit explicit oin_routes).0
unfolding with_explicit marked
with_explicit_agrees explicit oin_routes h =
    branch (Sound explicit) (has_conflict explicit.routes oin_routes)
      (map marked explicit.routes, explicit.diagnostics ++ (conflict ∷ []))
      (explicit.routes, explicit.diagnostics)
      (λ _.
        All-map (AgreesWith explicit) (AgreesWith explicit) marked explicit.routes
          (λ route agrees. agrees) h)
      (λ _. h)

with_oin_agrees :
    (explicit : ExplicitRouteExtraction) (resolution : OinRouteResolution)
    → All (AgreesWith explicit) (with_oin explicit resolution).0
unfolding with_oin partial_acs partial_sp_entity
with_oin_agrees explicit resolution =
    let partial_diagnostics =
      partial_acs explicit.acs_urls resolution.routes
      ++ partial_sp_entity explicit.sp_entity_id resolution.routes in
    branch (Sound explicit) (is_empty partial_diagnostics)
      (resolution.routes, resolution.diagnostics) ([], partial_diagnostics)
      (λ nothing_partial.
        let (no_entity, no_urls) =
          open_fields explicit.acs_urls explicit.sp_entity_id resolution.routes nothing_partial in
        All-of (AgreesWith explicit) resolution.routes (λ route. (inl no_entity, inl no_urls)))
      (λ _. tt)

choose_routes_agree :
    (explicit : ExplicitRouteExtraction) (resolution : OinRouteResolution)
    → All (AgreesWith explicit) explicit.routes
    → All (AgreesWith explicit) (choose_routes explicit resolution).0
unfolding choose_routes
choose_routes_agree explicit resolution h =
    branch (Sound explicit) explicit.contradictory ([], explicit.diagnostics)
      (if not (is_empty explicit.routes)
        then with_explicit explicit resolution.routes
        else if not (is_empty resolution.routes)
        then with_oin explicit resolution
        else ([], without_routes resolution.diagnostics explicit.sp_entity_id explicit.acs_urls))
      (λ _. tt)
      (λ _.
        branch (Sound explicit) (not (is_empty explicit.routes))
          (with_explicit explicit resolution.routes)
          (if not (is_empty resolution.routes) then with_oin explicit resolution else (
            [],
            without_routes resolution.diagnostics explicit.sp_entity_id explicit.acs_urls,
          ))
          (λ _. with_explicit_agrees explicit resolution.routes h)
          (λ _.
            branch (Sound explicit) (not (is_empty resolution.routes))
              (with_oin explicit resolution)
              ([], without_routes resolution.diagnostics explicit.sp_entity_id explicit.acs_urls)
              (λ _. with_oin_agrees explicit resolution) (λ _. tt)))

explicit_saml_routes_agree :
    (strip : Strip) (str : ℕ → String) (sign_on : Option SignOn)
    → All
        (AgreesWith (explicit_saml_routes strip str sign_on))
        (explicit_saml_routes strip str sign_on).routes
unfolding explicit_saml_routes
explicit_saml_routes_agree strip str none = tt
explicit_saml_routes_agree strip str (some sign_on) =
    explicit_routes_agree (explicit_sp_entity strip str sign_on) (acs_candidates strip str sign_on)

-- No route of an application contradicts its explicit fields: its service provider is the explicit one, if there is
-- one, and its URL is among the explicit URLs, if there are any, whatever the profiles prove.
pub saml_routes_agree :
    (strip : Strip) (str : ℕ → String) (registry : Registry) (application : Application)
    (outcome : Outcome)
    → saml_routes strip str registry application ≡ ok outcome
    → All (AgreesWith (explicit_saml_routes strip str application.sign_on)) outcome.0
saml_routes_agree strip str registry application outcome h =
    elim (saml_routes-ok strip str registry application outcome h) [
      | inl (_, nothing_chosen) ↦
          subst (Sound (explicit_saml_routes strip str application.sign_on)) nothing_chosen tt
      | inr (resolution, _, _, chosen) ↦
          subst (Sound (explicit_saml_routes strip str application.sign_on)) chosen (
            choose_routes_agree (explicit_saml_routes strip str application.sign_on) resolution
              (explicit_saml_routes_agree strip str application.sign_on))
    ]
