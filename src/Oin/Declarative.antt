-- ===== src/Oin/Declarative.antt =====
-- oin_routes/declarative.py: profiles of routes as templates over checked settings.
pub mod Profiles
pub mod Settings
pub mod Templates
pub mod Resolution
use openhound_okta.Base.{
  ℕ, Bool, true, false, ◌&&◌, ◌||◌, not, Option, none, some, String, ◌<>◌, List, [], ◌∷◌, ◌++◌, map,
  ◌==◌, string_eq, bool_eq, contains, if◌then◌else◌,
}
use openhound_okta.Base.Dict.{Dict, lookup, insert}
use openhound_okta.Base.Results.{Result, ok, err, ◌>>=◌}
use openhound_okta.Oin.Contract.{SamlRouteEvidence, OinRouteResolution, route_resolution}
use openhound_okta.Oin.Validators.{Setting}

pub record RouteVariable : Type 0 where
  pub name : String
  pub app_field : String
  pub validator : Setting → Option String
  pub diagnostic : String

unfoldable pub source_field : RouteVariable → String
source_field v = "settings.app." <> v.app_field

-- One item of `Formatter().parse(template)`. What its conversion and format make of a value is
-- `str.format`'s: it may use the other values, and `none` is the `ValueError` or `KeyError` that it
-- raises, as `{host:d}` and `{host:{missing}}` do.
pub record Piece : Type 0 where
  pub literal : String
  pub placeholder : Option String
  pub shown : Dict String String → String → Option String

-- A template is the list of its pieces.
pub record RouteTemplate : Type 0 where
  pub acs : List Piece
  pub sp_entity : List Piece
  pub acs_variables : List String
  pub sp_entity_variables : List String
  pub acs_static_source : Option String
  pub sp_entity_static_source : Option String
  pub index : Option ℕ
  pub binding : Option String
  pub is_default : Option Bool

pub record RouteProfile : Type 0 where
  pub profile_id : String
  pub app_keys : List String
  pub variables : List RouteVariable
  pub routes : List RouteTemplate
  pub target_product_family : String
  pub route_source : String
  pub extraction_mode : String
  pub evidence_references : List String
  pub evidence_reviewed_at : String

-- The reasons of `__post_init__` to raise.
pub data Defect : Type 0 where
  incomplete duplicate_app_key no_evidence duplicate_variable invalid_placeholders : Defect
  unknown_variables wrong_provenance wrong_source unused_variables : Defect

abbrev pub is_empty {ℓ} : {A : Type ℓ} → List A → Bool
is_empty [] = true
is_empty (x ∷ xs) = false

-- `len(set(xs)) != len(xs)`
abbrev pub has_duplicate : List String → Bool
has_duplicate [] = false
has_duplicate (x ∷ xs) = contains xs x || has_duplicate xs

-- `set(xs) <= set(ys)`
abbrev pub is_subset : List String → List String → Bool
is_subset [] ys = true
is_subset (x ∷ xs) ys = contains ys x && is_subset xs ys

abbrev pub any_of {ℓ} : {A : Type ℓ} → (A → Bool) → List A → Bool
any_of p [] = false
any_of p (x ∷ xs) = p x || any_of p xs

-- The truth of an optional text.
abbrev pub truthy : Option String → Bool
truthy none = false
truthy (some s) = not (s == "")

unfoldable pub placeholders : List Piece → List String
placeholders [] = []
placeholders (p ∷ ps) =
    let rest = placeholders ps in elim (p.placeholder) [ none ↦ rest | some name ↦ name ∷ rest ]

-- The texts of `str.isidentifier` are an argument.
module _ (isidentifier : String → Bool) where
  -- The checks on one template of a route; the result is what it refers to.
  unfoldable pub check_template :
      List String → List Piece → List String → Option String → Result Defect (List String)
  unfolding placeholders
  check_template names template sources static_source =
      let used = placeholders template in
      if any_of (λ p. p == "" || not (isidentifier p)) used
      then err invalid_placeholders
      else if not (is_subset used names && is_subset sources names)
      then err unknown_variables
      else if not (is_subset used sources && is_subset sources used)
      then err wrong_provenance
      else if not (is_empty used) == truthy static_source
      then err wrong_source
      else ok used

  unfoldable pub check_routes : List String → List RouteTemplate → Result Defect (List String)
  unfolding check_template
  check_routes names [] = ok []
  check_routes names (r ∷ rs) =
      check_template names r.acs r.acs_variables r.acs_static_source >>= λ used.
      check_template names r.sp_entity r.sp_entity_variables r.sp_entity_static_source >>= λ used2.
      check_routes names rs >>= λ rest. ok (used ++ (used2 ++ rest))

  -- `__post_init__`
  unfoldable pub post_init : RouteProfile → Result Defect RouteProfile
  unfolding check_routes
  post_init p =
      let names = map (λ v. v.name) p.variables in
      if p.profile_id == "" || is_empty p.app_keys || is_empty p.routes
      then err incomplete
      else if has_duplicate p.app_keys
      then err duplicate_app_key
      else if is_empty p.evidence_references || p.evidence_reviewed_at == ""
      then err no_evidence
      else if has_duplicate names
      then err duplicate_variable
      else check_routes names p.routes >>= λ referenced.
          if is_subset referenced names && is_subset names referenced
          then ok p
          else err unused_variables

-- A `KeyError` of a dict, or what a format raises.
pub data ResolveError : Type 0 where
  key_error : String → ResolveError
  format_error : String → ResolveError

-- `format` of the value of a placeholder.
unfoldable pub format_value :
    Dict String String → Piece → String → String → Result ResolveError String
format_value values p name v = elim (p.shown values v) [
  | none ↦ err (format_error name)
  | some text ↦ ok text
]

-- `d[k]`
unfoldable pub index_of {ℓ} : {V : Type ℓ} → Dict String V → String → Result ResolveError V
index_of d k = elim (lookup k d) [ none ↦ err (key_error k) | some v ↦ ok v ]

-- `template.format_map(values)`
unfoldable pub format_map : Dict String String → List Piece → Result ResolveError String
unfolding index_of format_value
format_map values [] = ok ""
format_map values (p ∷ ps) =
    let rest = format_map values ps in
    elim (p.placeholder) [
      | none ↦ rest >>= λ text. ok (p.literal <> text)
      | some name ↦ index_of values name >>= λ v. format_value values p name v >>= λ shown.
          rest >>= λ text. ok (p.literal <> (shown <> text))
    ]

-- `"+".join(texts)`
unfoldable pub join : List String → String
join [] = ""
join (x ∷ []) = x
join (x ∷ y ∷ ys) = x <> ("+" <> join (y ∷ ys))

unfoldable pub source_fields :
    Dict String RouteVariable → List String → Result ResolveError (List String)
unfolding index_of source_field
source_fields by_name [] = ok []
source_fields by_name (name ∷ names) = index_of by_name name >>= λ v.
    source_fields by_name names >>= λ rest. ok (source_field v ∷ rest)

-- `joined or static_source or ""`
unfoldable pub source_or : List String → Option String → String
unfolding join
source_or fields none = join fields
source_or fields (some static) = if join fields == "" then static else join fields

-- The loop over the variables: the diagnostics and the values.
unfoldable pub check_settings :
    (String → Setting)
    → List RouteVariable
    → List String × Dict String String
    → List String × Dict String String
unfolding insert
check_settings settings [] found = found
check_settings settings (v ∷ vs) (diagnostics, values) = elim (v.validator (settings v.app_field)) [
  | none ↦ check_settings settings vs (diagnostics ++ (v.diagnostic ∷ []), values)
  | some value ↦ check_settings settings vs (diagnostics, insert v.name value values)
]

-- `{variable.name: variable for variable in self.variables}`
unfoldable pub by_name_of :
    List RouteVariable → Dict String RouteVariable → Dict String RouteVariable
unfolding insert
by_name_of [] d = d
by_name_of (v ∷ vs) d = by_name_of vs (insert v.name v d)

unfoldable pub route_of :
    RouteProfile
    → Dict String RouteVariable
    → Dict String String
    → RouteTemplate
    → Result ResolveError SamlRouteEvidence
unfolding format_map source_fields source_or
route_of p by_name values r = format_map values r.acs >>= λ acs.
    format_map values r.sp_entity >>= λ sp_entity.
    source_fields by_name r.acs_variables >>= λ acs_fields.
    source_fields by_name r.sp_entity_variables >>= λ sp_fields. ok (record {
      acs_url = acs;
      sp_entity_id = sp_entity;
      index = r.index;
      binding = r.binding;
      is_default = r.is_default;
      target_product_family = p.target_product_family;
      route_source = p.route_source;
      extraction_mode = p.extraction_mode;
      acs_source_field = source_or acs_fields r.acs_static_source;
      sp_entity_source_field = source_or sp_fields r.sp_entity_static_source;
      route_conflicts = [];
    })

unfoldable pub routes_of :
    RouteProfile
    → Dict String RouteVariable
    → Dict String String
    → List RouteTemplate
    → Result ResolveError (List SamlRouteEvidence)
unfolding route_of
routes_of p by_name values [] = ok []
routes_of p by_name values (r ∷ rs) = route_of p by_name values r >>= λ route.
    routes_of p by_name values rs >>= λ rest. ok (route ∷ rest)

-- A setting that is missing is `null`.
unfoldable pub resolve : RouteProfile → (String → Setting) → Result ResolveError OinRouteResolution
unfolding check_settings by_name_of routes_of route_resolution
resolve p settings =
    let found = check_settings settings p.variables ([], []) in
    elim (found.0) [
      | d ∷ ds ↦ ok (route_resolution [] found.0)
      | [] ↦ routes_of p (by_name_of p.variables []) found.1 p.routes >>= λ routes.
          ok (route_resolution routes [])
    ]
