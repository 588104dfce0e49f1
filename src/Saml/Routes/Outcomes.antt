-- ===== src/Saml/Routes/Outcomes.antt =====
-- What becomes of the routes of an application: explicit fields first, and a reason where there are none.
use openhound_okta.Base.{
  ℕ, ◌≡◌, ◌⊎◌, refl, ap, sym, subst, Bool, true, false, ◌||◌, not, Option, none, some, String, List,
  [], ◌∷◌, ◌++◌, map, arith, string_eq, pair_eq, if◌then◌else◌, inl, inr,
}
use openhound_okta.Base.Results.{ok}
use openhound_okta.Oin.Contract.{SamlRouteEvidence, OinRouteResolution}
use openhound_okta.Oin.Validators.{Strip}
use openhound_okta.Oin.Declarative.{is_empty}
use openhound_okta.Oin.Registry.{Registry}
use openhound_okta.Saml.Explicit.{
  SignOn, ExplicitRouteExtraction, explicit_saml_routes, explicit_sp_entity, acs_candidates,
  extraction, Sourced, AcsCandidate,
}
use openhound_okta.Saml.Routes.{
  Application, is_saml_application, Outcome, marked, with_explicit, with_oin, has_conflict,
  conflict, without_routes, choose_routes, saml_routes, saml_routes-ok, keys_of,
}

-- Contradictory fields are told.
abbrev IsTold : ExplicitRouteExtraction → Type 0
IsTold explicit = explicit.contradictory ≡ true → is_empty explicit.diagnostics ≡ false

extraction-IsTold :
    (entity : Option Sourced × List String) (cs : List AcsCandidate) → IsTold (extraction entity cs)
unfolding extraction
extraction-IsTold (entity, diagnostic ∷ diagnostics) cs = λ h. refl
extraction-IsTold (none, []) cs = λ h. cc
extraction-IsTold (some entity, []) cs = λ h. cc

explicit_saml_routes-IsTold :
    (strip : Strip) (str : ℕ → String) (sign_on : Option SignOn)
    → IsTold (explicit_saml_routes strip str sign_on)
unfolding explicit_saml_routes
explicit_saml_routes-IsTold strip str none = extraction-IsTold (none, []) []
explicit_saml_routes-IsTold strip str (some sign_on) =
    extraction-IsTold (explicit_sp_entity strip str sign_on) (acs_candidates strip str sign_on)

-- An outcome without routes has a diagnostic.
abbrev explained : Outcome → Bool
explained outcome = not (is_empty outcome.0) || not (is_empty outcome.1)

is_empty-map {ℓ κ} :
    {A : Type ℓ} {B : Type κ} (f : A → B) (xs : List A) → is_empty (map f xs) ≡ is_empty xs
is_empty-map f [] = refl
is_empty-map f (x ∷ xs) = refl

without_routes_told :
    (diagnostics : List String) (entity : Option String) (urls : List String)
    → is_empty (without_routes diagnostics entity urls) ≡ false
unfolding without_routes
without_routes_told (d ∷ ds) entity urls = refl
without_routes_told [] none (u ∷ us) = refl
without_routes_told [] (some e) [] = refl
without_routes_told [] none [] = refl
without_routes_told [] (some e) (u ∷ us) = refl

choose_routes-explained :
    (explicit : ExplicitRouteExtraction) (resolution : OinRouteResolution)
    → IsTold explicit
    → explained (choose_routes explicit resolution) ≡ true
unfolding choose_routes with_explicit with_oin
choose_routes-explained explicit resolution told = ground (
  arith,
  told,
  is_empty-map marked explicit.routes,
  without_routes_told resolution.diagnostics explicit.sp_entity_id explicit.acs_urls,
)

-- A SAML application has a route or a diagnostic that says why it has none.
pub saml_routes_explained :
    (strip : Strip) (str : ℕ → String) (registry : Registry) (application : Application)
    (outcome : Outcome)
    → is_saml_application application ≡ true
    → saml_routes strip str registry application ≡ ok outcome
    → (is_empty outcome.0 ≡ false) ⊎ (is_empty outcome.1 ≡ false)
saml_routes_explained strip str registry application outcome saml h =
    elim (saml_routes-ok strip str registry application outcome h) [
      | inl (other, _) ↦ absurd (cc)
      | inr (resolution, _, _, chosen) ↦
          let reason =
            choose_routes-explained (explicit_saml_routes strip str application.sign_on) resolution
              (explicit_saml_routes-IsTold strip str application.sign_on) in
          let told : explained outcome ≡ true = subst (λ o. explained o ≡ true) chosen reason in
          ground arith
    ]

map-marked :
    (routes : List SamlRouteEvidence) → map keys_of (map marked routes) ≡ map keys_of routes
unfolding marked
map-marked [] = refl
map-marked (r ∷ rs) = ap (λ ks. keys_of r ∷ ks) (map-marked rs)

extraction_agreed :
    (entity : Option Sourced × List String) (cs : List AcsCandidate)
    → is_empty (extraction entity cs).routes ≡ false
    → (extraction entity cs).contradictory ≡ false
unfolding extraction
extraction_agreed (entity, diagnostic ∷ diagnostics) cs h = cc
extraction_agreed (none, []) cs h = refl
extraction_agreed (some entity, []) cs h = refl

explicit_saml_routes_agreed :
    (strip : Strip) (str : ℕ → String) (sign_on : Option SignOn)
    → is_empty (explicit_saml_routes strip str sign_on).routes ≡ false
    → (explicit_saml_routes strip str sign_on).contradictory ≡ false
unfolding explicit_saml_routes
explicit_saml_routes_agreed strip str none h = refl
explicit_saml_routes_agreed strip str (some sign_on) h =
    extraction_agreed (explicit_sp_entity strip str sign_on) (acs_candidates strip str sign_on) h

-- What the explicit routes become: a conflict with the profiles is marked on each of them and told.
abbrev with_conflict : Bool → ExplicitRouteExtraction → Outcome
with_conflict conflicting explicit =
    if conflicting
    then (map marked explicit.routes, explicit.diagnostics ++ (conflict ∷ []))
    else (explicit.routes, explicit.diagnostics)

choose_explicit :
    (explicit : ExplicitRouteExtraction) (resolution : OinRouteResolution)
    → explicit.contradictory ≡ false
    → is_empty explicit.routes ≡ false
    → choose_routes explicit resolution
      ≡ with_conflict (has_conflict explicit.routes resolution.routes) explicit
unfolding choose_routes with_explicit
choose_explicit explicit resolution agreed stated = rw (choose_routes, agreed, stated) refl

with_conflict-keys :
    (conflicting : Bool) (explicit : ExplicitRouteExtraction)
    → map keys_of (with_conflict conflicting explicit).0 ≡ map keys_of explicit.routes
with_conflict-keys true explicit = map-marked explicit.routes
with_conflict-keys false explicit = refl

-- Where the explicit fields hold routes, the routes of the application have their URLs and service providers, in
-- their order, whatever a profile proves.
pub explicit_routes_win :
    (strip : Strip) (str : ℕ → String) (registry : Registry) (application : Application)
    (outcome : Outcome)
    → is_saml_application application ≡ true
    → is_empty (explicit_saml_routes strip str application.sign_on).routes ≡ false
    → saml_routes strip str registry application ≡ ok outcome
    → map keys_of outcome.0
      ≡ map keys_of (explicit_saml_routes strip str application.sign_on).routes
explicit_routes_win strip str registry application outcome saml stated h =
    let explicit = explicit_saml_routes strip str application.sign_on in
    elim (saml_routes-ok strip str registry application outcome h) [
      | inl (other, _) ↦ absurd (cc)
      | inr (resolution, _, _, chosen) ↦
          let agreed = explicit_saml_routes_agreed strip str application.sign_on stated in
          subst (λ o. map keys_of o.0 ≡ map keys_of explicit.routes) chosen
            (subst (λ o. map keys_of o.0 ≡ map keys_of explicit.routes)
              (sym (choose_explicit explicit resolution agreed stated))
              (with_conflict-keys (has_conflict explicit.routes resolution.routes) explicit))
    ]
