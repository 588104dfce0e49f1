-- ===== src/Oin/Registry.antt =====
-- oin_routes/registry.py: the providers of routes by the keys of their applications.
use openhound_okta.Base.{
  ℕ, ◌+◌, ◌≤◌, ◌≡◌, refl, Bool, true, not, Option, none, some, String, List, [], ◌∷◌, arith, ◌==◌,
  string_eq, contains, if◌then◌else◌,
}
use openhound_okta.Base.Dict.{Dict, lookup, insert, lookup-insert, lookup-nil}
use openhound_okta.Base.Results.{Result, ok, err, ◌>>=◌, bind-ok}
use openhound_okta.Oin.Contract.{OinRouteResolution}
use openhound_okta.Oin.Validators.{Setting, null, text, other}
use openhound_okta.Oin.Declarative.{ResolveError, is_empty}

-- `OinRouteProvider`
pub record OinRouteProvider : Type 0 where
  pub profile_id : String
  pub app_keys : List String
  pub evidence_references : List String
  pub evidence_reviewed_at : String
  pub resolve : (String → Setting) → Result ResolveError OinRouteResolution

abbrev pub Registry : Type 0
Registry = Dict String OinRouteProvider

-- The reasons of `build_registry` to raise.
pub data RegistryDefect : Type 0 where
  duplicate_profile no_references invalid_review_date empty_app_key duplicate_app_key :
      RegistryDefect

unfoldable pub add_keys : OinRouteProvider → List String → Registry → Result RegistryDefect Registry
unfolding insert
add_keys p [] registry = ok registry
add_keys p (k ∷ ks) registry = if k == "" then err empty_app_key else elim (lookup k registry) [
  | some _ ↦ err duplicate_app_key
  | none ↦ add_keys p ks (insert k p registry)
]

-- The test whether `date.fromisoformat` takes a text is an argument.
module _ (is_iso_date : String → Bool) where
  unfoldable pub add_provider :
      OinRouteProvider → List String → Registry → Result RegistryDefect Registry
  unfolding add_keys
  add_provider p profile_ids registry =
      if contains profile_ids p.profile_id
      then err duplicate_profile
      else if is_empty p.evidence_references
      then err no_references
      else if not (is_iso_date p.evidence_reviewed_at)
      then err invalid_review_date
      else add_keys p p.app_keys registry

  unfoldable pub add_providers :
      List OinRouteProvider → List String → Registry → Result RegistryDefect Registry
  unfolding add_provider
  add_providers [] profile_ids registry = ok registry
  add_providers (p ∷ ps) profile_ids registry = add_provider p profile_ids registry >>= λ added.
      add_providers ps (p.profile_id ∷ profile_ids) added

  unfoldable pub build_registry : List OinRouteProvider → Result RegistryDefect Registry
  unfolding add_providers
  build_registry ps = add_providers ps [] []

abbrev nothing : Result ResolveError OinRouteResolution
nothing = ok (record { routes = []; diagnostics = [] })

abbrev pub resolve_with :
    Option OinRouteProvider → (String → Setting) → Result ResolveError OinRouteResolution
resolve_with none settings = nothing
resolve_with (some p) settings = p.resolve settings

unfoldable pub resolve_oin_routes :
    Registry → Setting → (String → Setting) → Result ResolveError OinRouteResolution
unfolding lookup
resolve_oin_routes registry (text app_name) settings =
    resolve_with (lookup app_name registry) settings
resolve_oin_routes registry null settings = nothing
resolve_oin_routes registry (other _ _) settings = nothing

-- The first provider that claims a key, and how often a key is claimed.
abbrev pub owner : String → List OinRouteProvider → Option OinRouteProvider
owner k [] = none
owner k (p ∷ ps) = if contains p.app_keys k then some p else owner k ps

abbrev count : String → List String → ℕ
count k [] = 0
count k (x ∷ xs) = (if k == x then 1 else 0) + count k xs

abbrev pub claims : String → List OinRouteProvider → ℕ
claims k [] = 0
claims k (p ∷ ps) = count k p.app_keys + claims k ps

abbrev first : Option OinRouteProvider → Option OinRouteProvider → Option OinRouteProvider
first none o = o
first (some p) o = some p

abbrev known : Option OinRouteProvider → ℕ
known none = 0
known (some p) = 1

count-pos : (k : String) (ks : List String) → contains ks k ≡ true → 1 ≤ count k ks
count-pos k [] h = cc
count-pos k (x ∷ xs) h = ground (arith, count-pos k xs)

add_keys_lem :
    (p : OinRouteProvider) (ks : List String) (registry added : Registry) (k : String)
    → add_keys p ks registry ≡ ok added
    → (lookup k added ≡ (if contains ks k then some p else lookup k registry))
      × (count k ks + known (lookup k registry) ≡ known (lookup k added))
unfolding add_keys
add_keys_lem p [] registry added k h = ground arith
add_keys_lem p (x ∷ xs) registry added k h =
    ground (arith, lookup-insert k x p registry, add_keys_lem p xs (insert x p registry) added k)

module _ (is_iso_date : String → Bool) where
  add_provider-add_keys :
      (p : OinRouteProvider) (ids : List String) (registry added : Registry)
      → add_provider is_iso_date p ids registry ≡ ok added
      → add_keys p p.app_keys registry ≡ ok added
  unfolding add_provider
  add_provider-add_keys p ids registry added h = ground arith

  add_providers_lem :
      (ps : List OinRouteProvider) (ids : List String) (registry built : Registry) (k : String)
      → add_providers is_iso_date ps ids registry ≡ ok built
      → (lookup k built ≡ first (lookup k registry) (owner k ps))
        × (claims k ps + known (lookup k registry) ≡ known (lookup k built))
  unfolding add_providers
  add_providers_lem [] ids registry built k h = ground arith
  add_providers_lem (p ∷ ps) ids registry built k h =
      let (added, h1, h2) = bind-ok (add_provider is_iso_date p ids registry) _ h in
      ground (
        arith,
        add_keys_lem p p.app_keys registry added k (add_provider-add_keys p ids registry added h1),
        count-pos k p.app_keys,
        add_providers_lem ps (p.profile_id ∷ ids) added built k h2,
      )

  -- A registry that was built resolves an application by the first provider that claims its name; a name
  -- that is no text or that no provider claims resolves to no routes and no diagnostics.
  pub resolve_oin_routes_lem :
      (ps : List OinRouteProvider) (built : Registry) (app_name : Setting)
      (settings : String → Setting)
      → build_registry is_iso_date ps ≡ ok built
      → resolve_oin_routes built app_name settings ≡ elim app_name [
        | text k ↦ resolve_with (owner k ps) settings
        | _ ↦ resolve_with none settings
      ]
  unfolding resolve_oin_routes build_registry
  resolve_oin_routes_lem ps built (text k) settings h =
      ground (arith, add_providers_lem ps [] [] built k h, lookup-nil {V = OinRouteProvider} k)
  resolve_oin_routes_lem ps built null settings h = refl
  resolve_oin_routes_lem ps built (other b s) settings h = refl

  -- In the providers of a registry that was built, every key is claimed once at most.
  pub claimed_once :
      (ps : List OinRouteProvider) (built : Registry) (k : String)
      → build_registry is_iso_date ps ≡ ok built
      → claims k ps ≤ 1
  unfolding build_registry
  claimed_once ps built k h =
      ground (arith, add_providers_lem ps [] [] built k h, lookup-nil {V = OinRouteProvider} k)
