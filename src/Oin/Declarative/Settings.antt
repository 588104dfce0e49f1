-- ===== src/Oin/Declarative/Settings.antt =====
-- The loop of `resolve` over the variables of a profile: what it refuses and what it stores.
use openhound_okta.Base.{
  ◌≡◌, ◌≢◌, ◌⊎◌, refl, true, none, some, String, List, [], ◌∷◌, ◌++◌, map, arith, string_eq,
  contains, pair_eq, option_eq, nat_eq, bool_eq, inl, inr, Option-cases,
}
use openhound_okta.Base.Dict.{Dict, lookup, insert, lookup-insert}
use openhound_okta.Oin.Validators.{Setting}
use openhound_okta.Oin.Declarative.{RouteVariable, check_settings, by_name_of}

abbrev pub names : List RouteVariable → List String
names vs = map (λ v. v.name) vs

-- The diagnostics of the variables whose setting is refused, in order.
abbrev pub refused : (String → Setting) → List RouteVariable → List String
refused settings [] = []
refused settings (v ∷ vs) =
    let rest = refused settings vs in
    elim (v.validator (settings v.app_field)) [ none ↦ v.diagnostic ∷ rest | some _ ↦ rest ]

append-assoc_one :
    (xs : List String) (y : String) (ys : List String) → (xs ++ (y ∷ [])) ++ ys ≡ xs ++ (y ∷ ys)
append-assoc_one [] y ys = refl
append-assoc_one (x ∷ xs) y ys = ground (arith, append-assoc_one xs y ys)

append_nil : (xs : List String) → xs ++ [] ≡ xs
append_nil [] = refl
append_nil (x ∷ xs) = ground (arith, append_nil xs)

pub check_settings-refused :
    (settings : String → Setting) (vs : List RouteVariable) (ds : List String)
    (values : Dict String String)
    → (check_settings settings vs (ds, values)).0 ≡ ds ++ refused settings vs
unfolding check_settings
check_settings-refused settings [] ds values = ground (arith, append_nil ds)
check_settings-refused settings (v ∷ vs) ds values =
    elim (Option-cases (v.validator (settings v.app_field))) [
      | inl e ↦ rw e (
          ground (
            arith,
            check_settings-refused settings vs (ds ++ (v.diagnostic ∷ [])) values,
            append-assoc_one ds v.diagnostic (refused settings vs),
          ))
      | inr (value, e) ↦
          rw e (ground (arith, check_settings-refused settings vs ds (insert v.name value values)))
    ]

pub check_settings-known :
    (settings : String → Setting) (vs : List RouteVariable) (ds : List String)
    (values : Dict String String) (k : String)
    → refused settings vs ≡ []
    → (contains (names vs) k ≡ true) ⊎ (lookup k values ≢ none)
    → lookup k (check_settings settings vs (ds, values)).1 ≢ none
unfolding check_settings
check_settings-known settings [] ds values k r h = ground arith
check_settings-known settings (v ∷ vs) ds values k r h =
    elim (Option-cases (v.validator (settings v.app_field))) [
      | inl e ↦ ground arith
      | inr (value, e) ↦
          rw (e, check_settings)
            (check_settings-known settings vs ds (insert v.name value values) k (ground arith)
              (ground (arith, lookup-insert k v.name value values)))
    ]

pub by_name_of-known :
    (vs : List RouteVariable) (d : Dict String RouteVariable) (k : String)
    → (contains (names vs) k ≡ true) ⊎ (lookup k d ≢ none)
    → lookup k (by_name_of vs d) ≢ none
unfolding by_name_of
by_name_of-known [] d k h = ground arith
by_name_of-known (v ∷ vs) d k h =
    ground (arith, lookup-insert k v.name v d, by_name_of-known vs (insert v.name v d) k)
