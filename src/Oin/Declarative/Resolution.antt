-- ===== src/Oin/Declarative/Resolution.antt =====
-- What `resolve` of a declarative profile returns.
use openhound_okta.Base.{
  ℕ, zero, suc, ◌≡◌, ◌≢◌, ◌⊎◌, refl, Bool, none, some, String, List, [], ◌∷◌, arith, string_eq,
  subst, sym, pair_eq, option_eq, nat_eq, bool_eq, All, inl, inr, get_elem?,
}
use mathlib.Core.Option.{some-injective}
use openhound_okta.Base.Dedupe.{find_key, find_key-first_by, first_by-nil}
use openhound_okta.Base.Results.{ok}
use openhound_okta.Oin.Contract.{SamlRouteEvidence, OinRouteResolution, route_resolution, itself}
use openhound_okta.Oin.Validators.{Setting}
use openhound_okta.Oin.Declarative.{
  RouteVariable, RouteProfile, post_init, check_settings, by_name_of, routes_of, resolve,
}
use openhound_okta.Oin.Declarative.Profiles.{names_of, post_init-IsDeclared, has_routes}
use openhound_okta.Oin.Declarative.Settings.{
  refused, check_settings-refused, check_settings-known, by_name_of-known,
}
use openhound_okta.Oin.Declarative.Templates.{
  RouteCanBeShown, is_ok-returns, routes_of_succeeds, routes_of_nil,
}

-- The resolution of refused settings: no route, and each diagnostic once.
resolve_refused :
    (p : RouteProfile) (settings : String → Setting) (d : String) (ds : List String)
    → refused settings p.variables ≡ d ∷ ds
    → resolve p settings ≡ ok (route_resolution [] (d ∷ ds))
unfolding resolve
resolve_refused p settings d ds h =
    ground (arith, check_settings-refused settings p.variables [] [])

nil-routes : (ds : List String) → (route_resolution [] ds).routes ≡ []
unfolding route_resolution
nil-routes ds = refl

nil-diagnostics : (rs : List SamlRouteEvidence) → (route_resolution rs []).diagnostics ≡ []
unfolding route_resolution
nil-diagnostics rs = refl

cons-routes : (rs : List SamlRouteEvidence) → (route_resolution rs []).routes ≡ [] → rs ≡ []
unfolding route_resolution
cons-routes rs = first_by-nil _ rs

find_key-diagnostics :
    (d : String) (rs : List SamlRouteEvidence) (ds : List String)
    → find_key itself d (route_resolution rs ds).diagnostics ≡ find_key itself d ds
unfolding route_resolution
find_key-diagnostics d rs ds = find_key-first_by itself d ds

cons-diagnostics : (d : String) (ds : List String) → (route_resolution [] (d ∷ ds)).diagnostics ≢ []
unfolding route_resolution
cons-diagnostics d ds h = cc

-- The resolution when every setting is accepted.
resolve_accepted :
    (isidentifier : String → Bool) (p q : RouteProfile) (settings : String → Setting)
    → post_init isidentifier p ≡ ok q
    → All RouteCanBeShown p.routes
    → refused settings p.variables ≡ []
    → (routes : List SamlRouteEvidence) × (resolve p settings ≡ ok (route_resolution routes []))
      × (routes ≢ [])
unfolding resolve
resolve_accepted isidentifier p q settings h shown none_refused =
    let found = check_settings settings p.variables ([], []) in
    let d = by_name_of p.variables [] in
    let (routes, e) = is_ok-returns (routes_of p d found.1 p.routes) (
      routes_of_succeeds p d found.1 (names_of p) p.routes
        (λ k c. check_settings-known settings p.variables [] [] k none_refused (inl c))
        (λ k c. by_name_of-known p.variables [] k (inl c)) shown
        (post_init-IsDeclared isidentifier p q h)) in
    (
      routes,
      ground (arith, check_settings-refused settings p.variables [] [], e),
      λ empty.
          has_routes isidentifier p q h
            (routes_of_nil p d found.1 p.routes (ground (arith, e, empty))),
    )

-- Where `__post_init__` accepts a profile, and `str.format` does not raise for the conversions and
-- formats of its placeholders (a plain `{name}` has none), `resolve` never raises, whatever the
-- settings: every name that a template or its provenance looks up is there, and the result has either
-- routes and no diagnostic, or diagnostics and no route.
pub resolve_total :
    (isidentifier : String → Bool) (p q : RouteProfile) (settings : String → Setting)
    → post_init isidentifier p ≡ ok q
    → All RouteCanBeShown p.routes
    → (r : OinRouteResolution) × (resolve p settings ≡ ok r)
      × (((r.routes ≢ []) × (r.diagnostics ≡ [])) ⊎ ((r.routes ≡ []) × (r.diagnostics ≢ [])))
resolve_total isidentifier p q settings h shown = total_at (refused settings p.variables) refl
  where
    total_at :
        (ds : List String)
        → refused settings p.variables ≡ ds
        → (r : OinRouteResolution) × (resolve p settings ≡ ok r)
          × (((r.routes ≢ []) × (r.diagnostics ≡ [])) ⊎ ((r.routes ≡ []) × (r.diagnostics ≢ [])))
    total_at [] e =
        let (routes, returned, some_routes) =
          resolve_accepted isidentifier p q settings h shown e in
        (
          route_resolution routes [],
          returned,
          inl (λ n. some_routes (cons-routes routes n), nil-diagnostics routes),
        )
    total_at (d ∷ ds) e = (
      route_resolution [] (d ∷ ds),
      resolve_refused p settings d ds e,
      inr (nil-routes (d ∷ ds), cons-diagnostics d ds),
    )

refused-find :
    (settings : String → Setting) (vs : List RouteVariable) (i : ℕ) (v : RouteVariable)
    → get_elem? vs i ≡ some v
    → v.validator (settings v.app_field) ≡ none
    → find_key itself v.diagnostic (refused settings vs) ≡ some v.diagnostic
refused-find settings [] i v g n = cc
refused-find settings (w ∷ vs) zero v g n =
    let same = some-injective w v g in
    let fails = subst (λ u. u.validator (settings u.app_field) ≡ none) (sym same) n in
    subst (λ u. find_key itself u.diagnostic (refused settings (w ∷ vs)) ≡ some u.diagnostic) same
      (ground (arith, fails))
refused-find settings (w ∷ vs) (suc i) v g n = ground (arith, refused-find settings vs i v g n)

-- When a validator refuses the setting of one of the variables, no route is returned, however the other
-- variables are set, and the diagnostic of that variable is reported.
pub resolve_fails_closed :
    (p : RouteProfile) (settings : String → Setting) (i : ℕ) (v : RouteVariable)
    → get_elem? p.variables i ≡ some v
    → v.validator (settings v.app_field) ≡ none
    → (r : OinRouteResolution) × (resolve p settings ≡ ok r)
      × (r.routes ≡ [])
      × (find_key itself v.diagnostic r.diagnostics ≡ some v.diagnostic)
resolve_fails_closed p settings i v g n =
    closed_at (refused settings p.variables) refl (refused-find settings p.variables i v g n)
  where
    closed_at :
        (ds : List String)
        → refused settings p.variables ≡ ds
        → find_key itself v.diagnostic ds ≡ some v.diagnostic
        → (r : OinRouteResolution) × (resolve p settings ≡ ok r)
          × (r.routes ≡ [])
          × (find_key itself v.diagnostic r.diagnostics ≡ some v.diagnostic)
    closed_at [] e found = cc
    closed_at (d ∷ ds) e found = (
      route_resolution [] (d ∷ ds),
      resolve_refused p settings d ds e,
      nil-routes (d ∷ ds),
      ground (arith, find_key-diagnostics v.diagnostic [] (d ∷ ds), found),
    )
