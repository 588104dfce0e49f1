-- ===== src/Oin/Contract.antt =====
-- oin_routes/contract.py: the evidence for a route, and `route_resolution`.
use openhound_okta.Base.{
  ℕ, ◌≡◌, refl, ap, subst, map, contains, [], ◌∷◌, Bool, Option, List, String, string_eq, nat_eq,
  bool_eq, option_eq, pair_eq,
}
use openhound_okta.Base.Dedupe.{
  first_by, find_key, Distinct, find_key-first_by, first_by-Distinct, contains-first_by,
}

pub record SamlRouteEvidence : Type 0 where
  pub acs_url : String
  pub sp_entity_id : String
  pub index : Option ℕ
  pub binding : Option String
  pub is_default : Option Bool
  pub target_product_family : String
  pub route_source : String
  pub extraction_mode : String
  pub acs_source_field : String
  pub sp_entity_source_field : String
  pub route_conflicts : List String

pub record OinRouteResolution : Type 0 where
  pub routes : List SamlRouteEvidence
  pub diagnostics : List String

abbrev pub RouteKey : Type 0
RouteKey = String × (String × (Option ℕ × (Option String × Option Bool)))

-- The tuple that identifies a route.
abbrev pub route_key : SamlRouteEvidence → RouteKey
route_key r = (r.acs_url, (r.sp_entity_id, (r.index, (r.binding, r.is_default))))

abbrev pub itself : String → String
itself d = d

unfoldable pub route_resolution : List SamlRouteEvidence → List String → OinRouteResolution
unfolding first_by
route_resolution routes diagnostics = record {
  routes = first_by route_key routes;
  diagnostics = first_by itself diagnostics;
}

-- The routes keep the first of each key and no key twice, and so do the diagnostics.
pub route_resolution_lem :
    (routes : List SamlRouteEvidence) (diagnostics : List String)
    → ((k : RouteKey)
        → find_key route_key k (route_resolution routes diagnostics).routes
          ≡ find_key route_key k routes)
      × Distinct route_key (route_resolution routes diagnostics).routes
      × ((d : String)
          → find_key itself d (route_resolution routes diagnostics).diagnostics
            ≡ find_key itself d diagnostics)
      × Distinct itself (route_resolution routes diagnostics).diagnostics
unfolding route_resolution
route_resolution_lem routes diagnostics = (
  λ k. find_key-first_by route_key k routes,
  first_by-Distinct route_key routes,
  λ d. find_key-first_by itself d diagnostics,
  first_by-Distinct itself diagnostics,
)

map-itself : (xs : List String) → map itself xs ≡ xs
map-itself [] = refl
map-itself (x ∷ xs) = ap (λ ys. x ∷ ys) (map-itself xs)

-- The texts that are kept are the texts there were.
pub contains-first_by-itself :
    (u : String) (us : List String) → contains (first_by itself us) u ≡ contains us u
contains-first_by-itself u us =
    subst (λ xs. contains xs u ≡ contains us u) (map-itself (first_by itself us))
      (subst (λ xs. contains (map itself (first_by itself us)) u ≡ contains xs u) (map-itself us)
        (contains-first_by itself u us))
