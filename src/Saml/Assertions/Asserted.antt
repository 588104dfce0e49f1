-- ===== src/Saml/Assertions/Asserted.antt =====
-- Which values an application asserts of a user, and what is told where they are not all known.
use openhound_okta.Base.{
  ◌≡◌, refl, ◌∙◌, Bool, true, false, ◌&&◌, ◌||◌, not, some, String, List, [], ◌∷◌, ◌++◌, arith,
  string_eq, contains,
}
use openhound_okta.Base.Dedupe.{Distinct, first_by-Distinct}
use openhound_okta.Oin.Contract.{itself, contains-first_by-itself}
use openhound_okta.Oin.Declarative.{is_empty}
use openhound_okta.Saml.Claims.{
  Texts, Field, Family, common, transient, raw_name_id, exceptional, ClaimMapping,
}
use openhound_okta.Saml.Profiles.{ApplicationUser, SourceProfile}
use openhound_okta.Saml.Assertions.{
  Evidence, no_evidence, Reading, reading, add_reading, add_mappings, add_values, add_claim_value,
  deduped, assertion_evidence, add_if, same_field, all_canonical,
}

-- The families whose values are asserted.
abbrev pub is_asserted : Family → Bool
is_asserted (common field) = true
is_asserted raw_name_id = true
is_asserted transient = false
is_asserted exceptional = false

contains-append :
    (v : String) (xs ys : List String) → contains (xs ++ ys) v ≡ (contains xs v || contains ys v)
contains-append v [] ys = refl
contains-append v (x ∷ xs) ys = ground (arith, contains-append v xs ys)

module _ (t : Texts) (user : ApplicationUser) (source_profile : SourceProfile) where
  -- Some mapping of an asserted family reads the value.
  abbrev pub reads : String → List ClaimMapping → Bool
  reads v [] = false
  reads v (mapping ∷ mappings) =
      (let r = reading t user source_profile mapping in is_asserted r.family && contains r.values v)
      || reads v mappings

  add_claim_value-match_values :
      (r : Reading) (evidence : Evidence)
      → (add_claim_value t r evidence).match_values ≡ evidence.match_values
  unfolding add_claim_value
  add_claim_value-match_values r evidence = ground arith

  add_reading-match_values :
      (v : String) (r : Reading) (family : Family) (evidence : Evidence)
      → contains (add_reading t r family evidence).match_values v
        ≡ (contains evidence.match_values v || (is_asserted family && contains r.values v))
  unfolding add_reading add_values
  add_reading-match_values v r (common field) evidence =
      ground (arith, contains-append v evidence.match_values r.values)
  add_reading-match_values v r raw_name_id evidence = ground (
    arith,
    contains-append v evidence.match_values r.values,
    add_claim_value-match_values r evidence,
  )
  add_reading-match_values v r transient evidence =
      ground (arith, add_claim_value-match_values r evidence)
  add_reading-match_values v r exceptional evidence =
      ground (arith, add_claim_value-match_values r evidence)

  add_mappings-match_values :
      (v : String) (mappings : List ClaimMapping) (evidence : Evidence)
      → contains (add_mappings t user source_profile mappings evidence).match_values v
        ≡ (contains evidence.match_values v || reads v mappings)
  unfolding add_mappings
  add_mappings-match_values v [] evidence = ground arith
  add_mappings-match_values v (mapping ∷ mappings) evidence =
      let r = reading t user source_profile mapping in
      ground (
        arith,
        add_mappings-match_values v mappings (add_reading t r r.family evidence),
        add_reading-match_values v r r.family evidence,
      )

  -- The values that are matched are those that some collected mapping of an asserted family reads, each of them
  -- once: a transient name id is never matched.
  pub assertion_evidence-match_values :
      (mappings : List ClaimMapping) (v : String)
      → (contains (assertion_evidence t user (some mappings) source_profile).match_values v
          ≡ reads v mappings)
        × Distinct itself (assertion_evidence t user (some mappings) source_profile).match_values
  unfolding assertion_evidence deduped
  assertion_evidence-match_values [] v = (refl, tt)
  assertion_evidence-match_values (mapping ∷ mappings) v =
      let matched =
        (add_mappings t user source_profile (mapping ∷ mappings) no_evidence).match_values in
      (
        contains-first_by-itself v matched
            ∙ add_mappings-match_values v (mapping ∷ mappings) no_evidence,
        first_by-Distinct itself matched,
      )

  -- What a mapping of this field could not read: its source is unknown or contradicted, it has no values, or one
  -- of them has no canonical form.
  abbrev pub gap : Field → Reading → Family → Bool
  gap asked r (common field) =
      same_field field asked
      && (not r.resolvable || not (all_canonical t field r.values) || is_empty r.values)
  gap asked r raw_name_id = false
  gap asked r transient = false
  gap asked r exceptional = false

  -- Some mapping leaves a gap in the field.
  abbrev pub lacks : Field → List ClaimMapping → Bool
  lacks asked [] = false
  lacks asked (mapping ∷ mappings) =
      (let r = reading t user source_profile mapping in gap asked r r.family)
      || lacks asked mappings

  add_claim_value-incomplete_fields :
      (r : Reading) (evidence : Evidence)
      → (add_claim_value t r evidence).incomplete_fields ≡ evidence.incomplete_fields
  unfolding add_claim_value
  add_claim_value-incomplete_fields r evidence = ground arith

  add_reading-incomplete_fields :
      (asked : Field) (r : Reading) (family : Family) (evidence : Evidence)
      → (add_reading t r family evidence).incomplete_fields asked
        ≡ (evidence.incomplete_fields asked || gap asked r family)
  unfolding add_reading add_values add_if
  add_reading-incomplete_fields asked r (common field) evidence = ground arith
  add_reading-incomplete_fields asked r raw_name_id evidence =
      ground (arith, add_claim_value-incomplete_fields r evidence)
  add_reading-incomplete_fields asked r transient evidence =
      ground (arith, add_claim_value-incomplete_fields r evidence)
  add_reading-incomplete_fields asked r exceptional evidence =
      ground (arith, add_claim_value-incomplete_fields r evidence)

  add_mappings-incomplete_fields :
      (asked : Field) (mappings : List ClaimMapping) (evidence : Evidence)
      → (add_mappings t user source_profile mappings evidence).incomplete_fields asked
        ≡ (evidence.incomplete_fields asked || lacks asked mappings)
  unfolding add_mappings
  add_mappings-incomplete_fields asked [] evidence = ground arith
  add_mappings-incomplete_fields asked (mapping ∷ mappings) evidence =
      let r = reading t user source_profile mapping in
      ground (
        arith,
        add_mappings-incomplete_fields asked mappings (add_reading t r r.family evidence),
        add_reading-incomplete_fields asked r r.family evidence,
      )

  -- A field is told to be incomplete exactly if no mapping was collected or some mapping of the field has an unknown
  -- or contradicted source, no value, or a value without a canonical form.
  pub assertion_evidence-incomplete_fields :
      (mappings : List ClaimMapping) (asked : Field)
      → (assertion_evidence t user (some mappings) source_profile).incomplete_fields asked
        ≡ (is_empty mappings || lacks asked mappings)
  unfolding assertion_evidence deduped
  assertion_evidence-incomplete_fields [] asked = refl
  assertion_evidence-incomplete_fields (mapping ∷ mappings) asked =
      add_mappings-incomplete_fields asked (mapping ∷ mappings) no_evidence
