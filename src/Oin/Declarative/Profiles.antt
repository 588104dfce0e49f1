-- ===== src/Oin/Declarative/Profiles.antt =====
-- What `__post_init__` of a profile establishes.
use openhound_okta.Base.{
  ◌≡◌, ◌≢◌, Bool, true, Option, String, List, [], ◌∷◌, map, arith, string_eq, bool_eq, All, inl,
  inr,
}
use openhound_okta.Base.Results.{ok, bind-ok, Result-cases}
use openhound_okta.Oin.Declarative.{
  RouteTemplate, RouteProfile, Piece, is_subset, placeholders, check_template, check_routes,
  post_init,
}

-- Every name that a template uses, or that its provenance lists, is declared.
abbrev pub IsDeclared : List String → RouteTemplate → Type 0
IsDeclared names r =
    (is_subset (placeholders r.acs) names ≡ true)
    × (is_subset r.acs_variables names ≡ true)
    × (is_subset (placeholders r.sp_entity) names ≡ true)
    × (is_subset r.sp_entity_variables names ≡ true)

abbrev pub names_of : RouteProfile → List String
names_of p = map (λ v. v.name) p.variables

module _ (isidentifier : String → Bool) where
  check_template_declared :
      (names : List String) (template : List Piece) (sources : List String) (static : Option String)
      (used : List String)
      → check_template isidentifier names template sources static ≡ ok used
      → (is_subset (placeholders template) names ≡ true) × (is_subset sources names ≡ true)
  unfolding check_template
  check_template_declared names template sources static used h = ground arith

  check_routes-IsDeclared :
      (names : List String) (rs : List RouteTemplate) (used : List String)
      → check_routes isidentifier names rs ≡ ok used
      → All (IsDeclared names) rs
  unfolding check_routes
  check_routes-IsDeclared names [] used h = tt
  check_routes-IsDeclared names (r ∷ rs) used h =
      let acs = check_template isidentifier names r.acs r.acs_variables r.acs_static_source in
      let sp_entity =
        check_template isidentifier names r.sp_entity r.sp_entity_variables
          r.sp_entity_static_source in
      let (used1, first, h1) = bind-ok acs _ h in
      let (used2, second, h2) = bind-ok sp_entity _ h1 in
      let (rest, third, h3) = bind-ok (check_routes isidentifier names rs) _ h2 in
      let (a, b) = check_template_declared names r.acs r.acs_variables _ used1 first in
      let (c, d) = check_template_declared names r.sp_entity r.sp_entity_variables _ used2 second in
      ((a, b, c, d), check_routes-IsDeclared names rs rest third)

  -- The templates of a profile that is accepted use declared variables only.
  pub post_init-IsDeclared :
      (p q : RouteProfile)
      → post_init isidentifier p ≡ ok q
      → All (IsDeclared (names_of p)) p.routes
  unfolding post_init
  post_init-IsDeclared p q h =
      elim (Result-cases (check_routes isidentifier (names_of p) p.routes)) [
        | inl (used, e) ↦ check_routes-IsDeclared (names_of p) p.routes used e
        | inr (d, e) ↦ ground arith
      ]

  pub has_routes : (p q : RouteProfile) → post_init isidentifier p ≡ ok q → p.routes ≢ []
  unfolding post_init
  has_routes p q h = ground arith
