-- ===== src/Saml/Assertions.antt =====
-- `saml_application_assertion_evidence` of models/saml.py: the values that an application asserts of a user.
pub mod Asserted
use openhound_okta.Base.{
  ℕ, ◌≡◌, refl, Bool, true, false, ◌&&◌, ◌||◌, not, Option, none, some, String, List, [], ◌∷◌, ◌++◌,
  ◌==◌, ◌<>◌, string_eq, nat_eq, option_eq, pair_eq, contains, if◌then◌else◌,
}
use openhound_okta.Base.Dedupe.{first_by}
use openhound_okta.Oin.Contract.{itself}
use openhound_okta.Oin.Validators.{Setting, null, text, other}
use openhound_okta.Oin.Declarative.{is_empty}
use openhound_okta.Oin.Resolvers.{is_set}
use openhound_okta.Saml.Values.{clean}
use openhound_okta.Saml.Claims.{
  Texts, Field, email_match_values, upn_match_values, entra_object_id_match_values,
  scoped_exact_match_values, Family, common, transient, raw_name_id, exceptional, ClaimMapping,
  DirectField, direct_profile_field, claim_family, canonical_common_value, template_field,
  or_setting,
}
use openhound_okta.Saml.Profiles.{
  ApplicationUser, SourceProfile, application_user_direct_values, source_login_email_values,
  fallback_mapping,
}

unfoldable pub same_field : Field → Field → Bool
same_field email_match_values email_match_values = true
same_field upn_match_values upn_match_values = true
same_field entra_object_id_match_values entra_object_id_match_values = true
same_field scoped_exact_match_values scoped_exact_match_values = true
same_field _ _ = false

-- An entry of `claim_values`.
pub record ClaimValue : Type 0 where
  pub mapping_id : String
  pub match_values : List String
  pub canonical_match_values : List String
  pub unsafe_match_values : List String
  pub incomplete : Bool
  pub source_property : Option String

-- `evidence`, with `evidence[field]` and the set `incomplete_fields` as functions of the field.
pub record Evidence : Type 0 where
  pub match_values : List String
  pub field_values : Field → List String
  pub incomplete_fields : Field → Bool
  pub source_properties : List String
  pub claim_values : List ClaimValue

abbrev pub no_evidence : Evidence
no_evidence = record {
  match_values = [];
  field_values = λ field. [];
  incomplete_fields = λ field. false;
  source_properties = [];
  claim_values = [];
}

-- `evidence[field].extend(values)`
unfoldable pub extend : Field → List String → (Field → List String) → Field → List String
unfolding same_field
extend field values old asked = if same_field field asked then old asked ++ values else old asked

-- `incomplete_fields.add(field)` under a test.
unfoldable pub add_if : Bool → Field → (Field → Bool) → Field → Bool
unfolding same_field
add_if test field old asked = (test && same_field field asked) || old asked

-- What one mapping reads.
pub record Reading : Type 0 where
  pub family : Family
  pub resolvable : Bool
  pub values : List String
  pub login_emails : List String
  pub source_property : Option String
  pub mapping_id : Option String

-- `evidence["source_properties"].append(source_property)` where there is one.
abbrev append_property : Option String → List String → List String
append_property none properties = properties
append_property (some property) properties = properties ++ (property ∷ [])

abbrev is_none {ℓ} : {A : Type ℓ} → Option A → Bool
is_none none = true
is_none (some _) = false

module _ (t : Texts) where
  -- `declared_direct != direct_field`, where a source is declared.
  unfoldable pub is_conflict : DirectField → Setting → Bool
  unfolding is_set direct_profile_field
  is_conflict direct_field declared_source =
      is_set declared_source
      && not (direct_profile_field t.strip declared_source == some direct_field)

  -- The canonical values and whether all of them have one.
  unfoldable pub canonical_values : Field → List String → List String
  unfolding canonical_common_value
  canonical_values field [] = []
  canonical_values field (value ∷ values) =
      let rest = canonical_values field values in
      elim (canonical_common_value t field value) [
        | none ↦ rest
        | some canonical ↦ canonical ∷ rest
      ]

  unfoldable pub all_canonical : Field → List String → Bool
  unfolding canonical_common_value
  all_canonical field [] = true
  all_canonical field (value ∷ values) =
      not (is_none (canonical_common_value t field value)) && all_canonical field values

  -- The values of a mapping whose direct field is known, or of none.
  unfoldable pub read_direct :
      ClaimMapping → ApplicationUser → SourceProfile → Option DirectField → Bool × List String
  unfolding is_conflict application_user_direct_values
  read_direct mapping user source_profile none = (false, [])
  read_direct mapping user source_profile (some direct_field) =
      if is_conflict direct_field mapping.source_property
      then (false, [])
      else (true, application_user_direct_values t direct_field user source_profile)

  abbrev is_transient : Family → Bool
  is_transient transient = true
  is_transient (common _) = false
  is_transient raw_name_id = false
  is_transient exceptional = false

  unfoldable pub reading : ApplicationUser → SourceProfile → ClaimMapping → Reading
  unfolding read_direct direct_profile_field claim_family source_login_email_values clean
  reading user source_profile mapping =
      let direct_field = direct_profile_field t.strip mapping.expression in
      let (resolvable, values) = read_direct mapping user source_profile direct_field in
      let family = claim_family t mapping direct_field in
      record {
        family = family;
        resolvable = resolvable;
        values = values;
        login_emails =
            if resolvable
              && clean t.strip mapping.claim_type == some "name_id"
              && not (is_transient family)
            then source_login_email_values t direct_field values source_profile
            else [];
        source_property = elim direct_field [
          | none ↦ none
          | some (namespace, name) ↦ some (namespace <> ("." <> name))
        ];
        mapping_id = clean t.strip mapping.id;
      }

  -- The entry of a mapping that stands for itself.
  unfoldable pub claim_value : Reading → String → ClaimValue
  claim_value r mapping_id = record {
    mapping_id = mapping_id;
    match_values = r.values;
    canonical_match_values = if is_transient r.family then [] else r.values;
    unsafe_match_values = if is_transient r.family then r.values else [];
    incomplete = not r.resolvable || is_empty r.values;
    source_property = r.source_property;
  }

  unfoldable pub add_claim_value : Reading → Evidence → Evidence
  unfolding claim_value
  add_claim_value r evidence = elim r.mapping_id [
    | none ↦ evidence
    | some mapping_id ↦ record evidence {
      claim_values = evidence.claim_values ++ (claim_value r mapping_id ∷ []);
    }
  ]

  -- The values of a name id, whatever its family.
  unfoldable pub add_values : Reading → (Field → List String) → (Field → Bool) → Evidence → Evidence
  unfolding extend
  add_values r field_values incomplete_fields evidence = record evidence {
    match_values = evidence.match_values ++ r.values;
    field_values = extend email_match_values r.login_emails field_values;
    incomplete_fields = incomplete_fields;
    source_properties =
        if is_empty r.values
        then evidence.source_properties
        else append_property r.source_property evidence.source_properties;
  }

  unfoldable pub add_reading : Reading → Family → Evidence → Evidence
  unfolding add_values add_claim_value extend add_if canonical_values all_canonical
  add_reading r (common field) evidence =
      add_values r (extend field (canonical_values field r.values) evidence.field_values)
        (add_if (not r.resolvable || not (all_canonical field r.values) || is_empty r.values) field
          evidence.incomplete_fields)
        evidence
  add_reading r raw_name_id evidence =
      if is_empty r.values
      then add_claim_value r evidence
      else add_values r evidence.field_values evidence.incomplete_fields evidence
  add_reading r transient evidence = add_claim_value r evidence
  add_reading r exceptional evidence = add_claim_value r evidence

  unfoldable pub add_mappings :
      ApplicationUser → SourceProfile → List ClaimMapping → Evidence → Evidence
  unfolding reading add_reading
  add_mappings user source_profile [] evidence = evidence
  add_mappings user source_profile (mapping ∷ mappings) evidence =
      let r = reading user source_profile mapping in
      add_mappings user source_profile mappings (add_reading r r.family evidence)

  -- The lists without duplicates.
  unfoldable pub deduped : Evidence → Evidence
  unfolding first_by
  deduped evidence = record evidence {
    match_values = first_by itself evidence.match_values;
    field_values = λ field. first_by itself (evidence.field_values field);
    source_properties = first_by itself evidence.source_properties;
  }

  -- `saml_application_assertion_evidence` of a user and of the mappings that were collected.
  unfoldable pub assertion_evidence :
      ApplicationUser → Option (List ClaimMapping) → SourceProfile → Evidence
  unfolding add_mappings deduped fallback_mapping
  assertion_evidence user none source_profile =
      deduped (add_mappings user source_profile (fallback_mapping t user ∷ []) no_evidence)
  assertion_evidence user (some []) source_profile = record no_evidence {
    incomplete_fields = λ field. true;
  }
  assertion_evidence user (some (mapping ∷ mappings)) source_profile =
      deduped (add_mappings user source_profile (mapping ∷ mappings) no_evidence)
