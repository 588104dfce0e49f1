-- ===== src/Oin/Declarative/Templates.antt =====
-- The templates of an accepted profile are filled without an exception, if its placeholders can be shown.
use openhound_okta.Base.{
  ◌≡◌, ◌≢◌, refl, Bool, true, false, ◌&&◌, Option, none, some, String, List, [], ◌∷◌, arith,
  string_eq, contains, pair_eq, option_eq, nat_eq, bool_eq, All, Option-cases, inl, inr,
}
use openhound_okta.Base.Dict.{Dict, lookup}
use openhound_okta.Base.Results.{Result, ok, err}
use openhound_okta.Oin.Declarative.{
  RouteVariable, RouteTemplate, RouteProfile, Piece, is_subset, placeholders, format_value,
  format_map, source_fields, route_of, routes_of,
}
use openhound_okta.Oin.Declarative.Profiles.{IsDeclared}

abbrev pub is_ok {ℓ κ} : {E : Type ℓ} {A : Type κ} → Result E A → Bool
is_ok (ok a) = true
is_ok (err e) = false

pub is_ok-returns {ℓ κ} :
    {E : Type ℓ} {A : Type κ} (r : Result E A) → is_ok r ≡ true → (a : A) × (r ≡ ok a)
is_ok-returns (ok a) h = (a, refl)
is_ok-returns (err e) h = cc

abbrev is_some {ℓ} : {A : Type ℓ} → Option A → Bool
is_some none = false
is_some (some a) = true

-- The dict has each of the names as a key.
abbrev knows {ℓ} : {V : Type ℓ} → Dict String V → List String → Bool
knows d [] = true
knows d (k ∷ ks) = is_some (lookup k d) && knows d ks

-- `str.format` does not raise for the placeholders of these pieces, whatever the values.
abbrev pub CanBeShown : List Piece → Type 0
CanBeShown ps =
    All (λ (p : Piece). (values : Dict String String) (v : String) → p.shown values v ≢ none) ps

abbrev pub RouteCanBeShown : RouteTemplate → Type 0
RouteCanBeShown r = CanBeShown r.acs × CanBeShown r.sp_entity

contains-subset :
    (xs ys : List String) (k : String)
    → is_subset xs ys ≡ true
    → contains xs k ≡ true
    → contains ys k ≡ true
contains-subset [] ys k s h = cc
contains-subset (x ∷ xs) ys k s h = ground (arith, contains-subset xs ys k)

knows-subset {ℓ} :
    {V : Type ℓ} (d : Dict String V) (xs ys : List String)
    → is_subset xs ys ≡ true
    → ((k : String) → contains ys k ≡ true → lookup k d ≢ none)
    → knows d xs ≡ true
knows-subset d [] ys s h = refl
knows-subset d (x ∷ xs) ys s h = ground (arith, h x, knows-subset d xs ys _ h)

format_value_succeeds :
    (values : Dict String String) (p : Piece) (name v : String)
    → p.shown values v ≢ none
    → is_ok (format_value values p name v) ≡ true
unfolding format_value
format_value_succeeds values p name v h = ground arith

format_map_succeeds :
    (values : Dict String String) (ps : List Piece)
    → CanBeShown ps
    → knows values (placeholders ps) ≡ true
    → is_ok (format_map values ps) ≡ true
unfolding format_map placeholders
format_map_succeeds values [] c h = refl
format_map_succeeds values (p ∷ ps) (c, cs) h = elim (Option-cases p.placeholder) [
  | inl e ↦ ground (arith, format_map_succeeds values ps cs)
  | inr (name, e) ↦ elim (Option-cases (lookup name values)) [
    | inl f ↦ absurd (ground arith)
    | inr (v, f) ↦ ground (arith, c values v, format_map_succeeds values ps cs)
  ]
]

source_fields_succeeds :
    (d : Dict String RouteVariable) (xs : List String)
    → knows d xs ≡ true
    → is_ok (source_fields d xs) ≡ true
unfolding source_fields
source_fields_succeeds d [] h = refl
source_fields_succeeds d (x ∷ xs) h = ground (arith, source_fields_succeeds d xs)

module _ (p : RouteProfile) (d : Dict String RouteVariable) (values : Dict String String) where
  route_of_succeeds :
      (r : RouteTemplate)
      → RouteCanBeShown r
      → knows values (placeholders r.acs) ≡ true
      → knows values (placeholders r.sp_entity) ≡ true
      → knows d r.acs_variables ≡ true
      → knows d r.sp_entity_variables ≡ true
      → is_ok (route_of p d values r) ≡ true
  unfolding route_of
  route_of_succeeds r (shown1, shown2) a b c e = ground (
    arith,
    format_map_succeeds values r.acs shown1 a,
    format_map_succeeds values r.sp_entity shown2 b,
    source_fields_succeeds d r.acs_variables c,
    source_fields_succeeds d r.sp_entity_variables e,
  )

  pub routes_of_succeeds :
      (known : List String) (rs : List RouteTemplate)
      → ((k : String) → contains known k ≡ true → lookup k values ≢ none)
      → ((k : String) → contains known k ≡ true → lookup k d ≢ none)
      → All RouteCanBeShown rs
      → All (IsDeclared known) rs
      → is_ok (routes_of p d values rs) ≡ true
  unfolding routes_of
  routes_of_succeeds known [] hv hd cs h = refl
  routes_of_succeeds known (r ∷ rs) hv hd (shown, cs) ((a, b, c, e), h) = ground (
    arith,
    route_of_succeeds r shown (knows-subset values (placeholders r.acs) known a hv)
        (knows-subset values (placeholders r.sp_entity) known c hv)
        (knows-subset d r.acs_variables known b hd)
        (knows-subset d r.sp_entity_variables known e hd),
    routes_of_succeeds known rs hv hd cs h,
  )

  pub routes_of_nil : (rs : List RouteTemplate) → routes_of p d values rs ≡ ok [] → rs ≡ []
  unfolding routes_of
  routes_of_nil rs h = ground arith
