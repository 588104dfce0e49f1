-- ===== src/Saml/Accounts.antt =====
-- `_account_resolution_evidence` of models/saml.py: how an assertion finds an account of Okta.
use openhound_okta.Base.{
  ◌≡◌, ◌≢◌, refl, Bool, true, false, ◌&&◌, not, Option, none, some, String, List, [], ◌∷◌, ◌++◌,
  arith, ◌==◌, ◌<>◌, string_eq, bool_eq, option_eq, if◌then◌else◌, Option-cases, Bool-cases, inl,
  inr, All, ◌↔◌,
}
use openhound_okta.Oin.Validators.{Setting, null, text, other, Strip}
use openhound_okta.Saml.Values.{clean}

-- A filter of a policy: a plain JSON value, an empty dictionary or list, or one that holds something.
pub data PolicyFilter : Type 0 where
  plain : Setting → PolicyFilter
  empty_collection full_collection : PolicyFilter

-- `policy.accountLink` and `policy.subject`; `user_name_template` is the text under `template`, where
-- `userNameTemplate` is a dictionary.
pub record AccountLink : Type 0 where
  pub action : Setting
  pub filter : PolicyFilter

pub record Subject : Type 0 where
  pub match_type : Setting
  pub filter : PolicyFilter
  pub match_attribute : PolicyFilter
  pub user_name_template : Option Setting

pub record Policy : Type 0 where
  pub account_link : Option AccountLink
  pub subject : Option Subject
  pub transformed_username_matching_enabled : Option Bool

pub record IdentityProvider : Type 0 where
  pub type : Option String
  pub protocol_type : Option String
  pub policy : Option Policy

-- `_AccountResolutionEvidence`; `summary` stands beside `expression`.
pub record AccountResolutionEvidence : Type 0 where
  pub assertion_field : Option String
  pub expression : Option String
  pub summary : Option String
  pub diagnostics : List String

-- `is_saml_identity_provider`
unfoldable pub is_saml_identity_provider : IdentityProvider → Bool
is_saml_identity_provider provider =
    provider.type == some "SAML2" && provider.protocol_type == some "SAML2"

-- `_empty_policy_filter`
unfoldable pub empty_policy_filter : PolicyFilter → Bool
empty_policy_filter (plain null) = true
empty_policy_filter (plain (text s)) = s == ""
empty_policy_filter (plain (other _ _)) = false
empty_policy_filter empty_collection = true
empty_policy_filter full_collection = false

-- `if test: diagnostics.append(diagnostic)`, one after the other.
unfoldable pub told : List (Bool × String) → List String
told [] = []
told ((test, diagnostic) ∷ rest) =
    let later = told rest in if test then diagnostic ∷ later else later

-- An empty dictionary, which stands for a missing part of the policy.
abbrev no_account_link : AccountLink
no_account_link = record { action = null; filter = plain null }

abbrev no_subject : Subject
no_subject = record {
  match_type = null;
  filter = plain null;
  match_attribute = plain null;
  user_name_template = none;
}

abbrev link_or_empty : Option AccountLink → AccountLink
link_or_empty none = no_account_link
link_or_empty (some link) = link

abbrev subject_or_empty : Option Subject → Subject
subject_or_empty none = no_subject
subject_or_empty (some subject) = subject

abbrev is_missing {ℓ} : {A : Type ℓ} → Option A → Bool
is_missing none = true
is_missing (some _) = false

-- The field of assertions that a template of the user name reads.
unfoldable pub field_of_template : Option String → Option String
field_of_template none = none
field_of_template (some template) =
    if template == "idpuser.email"
    then some "email_match_values"
    else if template == "idpuser.subjectNameId"
    then some "scoped_exact_match_values"
    else if template == "saml.subjectNameId"
    then some "scoped_exact_match_values"
    else none

-- `assertion_label`
unfoldable pub assertion_label : String → String
assertion_label field =
    if field == "email_match_values" then "email value" else "route-scoped exact value"

unfoldable pub proven : String → AccountResolutionEvidence
unfolding assertion_label
proven field = record {
  assertion_field = some field;
  expression = some (
      "account.fields.exists(field, field.name == \"login\" && assertion."
      <> (field <> ".exists(value, value in field.match_values))"));
  summary =
      some
        ("Any assertion " <> (assertion_label field <> " exactly matches account field \"login\""));
  diagnostics = [];
}

abbrev unproven : List String → AccountResolutionEvidence
unproven diagnostics = record {
  assertion_field = none;
  expression = none;
  summary = none;
  diagnostics = diagnostics;
}

-- The one field and no diagnostic, or the diagnostics.
unfoldable pub conclude : Option String → List String → AccountResolutionEvidence
unfolding proven
conclude none diagnostics =
    unproven (diagnostics ++ ("policy.subject.userNameTemplate_is_unsupported" ∷ []))
conclude (some field) [] = proven field
conclude (some field) (diagnostic ∷ diagnostics) = unproven (diagnostic ∷ diagnostics)

module _ (strip : Strip) where
  -- The tests before the template is read.
  unfoldable pub policy_tests : Policy → List (Bool × String)
  unfolding clean empty_policy_filter
  policy_tests policy =
      let link = link_or_empty policy.account_link in
      let subject = subject_or_empty policy.subject in
      (is_missing policy.account_link, "missing_policy.accountLink")
      ∷ (is_missing policy.subject, "missing_policy.subject")
      ∷ (not (clean strip link.action == some "AUTO"), "policy.accountLink.action_must_be_AUTO")
      ∷ (
        not (empty_policy_filter link.filter),
        "policy.accountLink.filter_is_scoped_or_unsupported",
      )
      ∷ (
        not (clean strip subject.match_type == some "USERNAME"),
        "policy.subject.matchType_must_be_USERNAME",
      )
      ∷ (not (empty_policy_filter subject.filter), "policy.subject.filter_is_unsupported")
      ∷ (
        not (empty_policy_filter subject.match_attribute),
        "policy.subject.matchAttribute_conflicts_with_username",
      )
      ∷ (
        policy.transformed_username_matching_enabled == some true,
        "transformed_username_matching_is_unsupported",
      )
      ∷ []

  -- `template`
  unfoldable pub template_of : Policy → Option String
  unfolding clean
  template_of policy = elim (subject_or_empty policy.subject).user_name_template [
    | none ↦ none
    | some template ↦ clean strip template
  ]

  -- `_account_resolution_evidence`
  unfoldable pub account_resolution_evidence : IdentityProvider → AccountResolutionEvidence
  unfolding is_saml_identity_provider told policy_tests template_of field_of_template conclude
  account_resolution_evidence provider =
      if is_saml_identity_provider provider
      then elim provider.policy [
        | none ↦ unproven ("missing_identity_provider_policy" ∷ [])
        | some policy ↦
            conclude (field_of_template (template_of policy)) (told (policy_tests policy))
      ]
      else unproven []

  -- What Okta must say for an assertion to find the account with that login.
  abbrev pub Proves : Policy → String → Type 0
  Proves policy field =
      (link : AccountLink) × (subject : Subject) × (policy.account_link ≡ some link)
      × (policy.subject ≡ some subject)
      × (clean strip link.action ≡ some "AUTO")
      × (empty_policy_filter link.filter ≡ true)
      × (clean strip subject.match_type ≡ some "USERNAME")
      × (empty_policy_filter subject.filter ≡ true)
      × (empty_policy_filter subject.match_attribute ≡ true)
      × (policy.transformed_username_matching_enabled ≢ some true)
      × (field_of_template (template_of policy) ≡ some field)

  conclude_lem :
      (found : Option String) (diagnostics : List String) (field : String)
      → (conclude found diagnostics).assertion_field ≡ some field
      → (found ≡ some field) × (diagnostics ≡ [])
  unfolding conclude proven
  conclude_lem none diagnostics field h = cc
  conclude_lem (some f) [] field h = (h, refl)
  conclude_lem (some f) (d ∷ ds) field h = cc

  template-Proves :
      (policy : Policy) (field : String)
      → Proves policy field
      → field_of_template (template_of policy) ≡ some field
  template-Proves policy field (_, _, _, _, _, _, _, _, _, _, found) = found

  conclude_proven :
      (template : Option String) (diagnostics : List String) (field : String)
      → field_of_template template ≡ some field
      → diagnostics ≡ []
      → (conclude (field_of_template template) diagnostics).assertion_field ≡ some field
  unfolding conclude proven
  conclude_proven template diagnostics field found silent = rw (found, silent) refl

  told-nil : (tests : List (Bool × String)) → told tests ≡ [] → All (λ test. test.0 ≡ false) tests
  unfolding told
  told-nil [] h = tt
  told-nil ((true, d) ∷ rest) h = cc
  told-nil ((false, d) ∷ rest) h = (refl, told-nil rest h)

  told-none : (tests : List (Bool × String)) → All (λ test. test.0 ≡ false) tests → told tests ≡ []
  unfolding told
  told-none [] h = refl
  told-none ((test, d) ∷ rest) (h, hs) = rw h (told-none rest hs)

  tests_pass :
      (policy : Policy) (field : String)
      → All (λ test. test.0 ≡ false) (policy_tests policy)
      → field_of_template (template_of policy) ≡ some field
      → Proves policy field
  unfolding policy_tests
  tests_pass policy field
        (
          linked,
          (
            subjected,
            (auto, (unfiltered, (username, (all_users, (no_attribute, (plain_name, _)))))),
          ),
        )
        found =
      elim (Option-cases policy.account_link) [
        | inl e ↦ absurd (cc)
        | inr (link, e) ↦ elim (Option-cases policy.subject) [
          | inl f ↦ absurd (cc)
          | inr (subject, f) ↦ (
            link,
            subject,
            e,
            f,
            ground arith,
            ground arith,
            ground arith,
            ground arith,
            ground arith,
            ground arith,
            found,
          )
        ]
      ]

  pass_tests :
      (policy : Policy) (field : String)
      → Proves policy field
      → All (λ test. test.0 ≡ false) (policy_tests policy)
  unfolding policy_tests
  pass_tests policy field
        (link, subject, e, f, auto, unfiltered, username, all_users, no_attribute, plain_name, _) =
      (
        ground arith,
        (
          ground arith,
          (
            ground arith,
            (ground arith, (ground arith, (ground arith, (ground arith, (ground arith, tt))))),
          ),
        ),
      )

  -- A field of assertions is used exactly if the identity provider speaks SAML and Okta says all that proves the
  -- field: accounts are linked automatically and without a scope, the match is on the untransformed user name without a
  -- filter, and the template of the user name reads that field.
  pub account_resolution_evidence_lem :
      (provider : IdentityProvider) (field : String)
      → ((account_resolution_evidence provider).assertion_field ≡ some field) ↔ (
          (policy : Policy) × (is_saml_identity_provider provider ≡ true)
          × (provider.policy ≡ some policy)
          × Proves policy field)
  unfolding account_resolution_evidence
  account_resolution_evidence_lem provider field = (
    λ h. elim (Bool-cases (is_saml_identity_provider provider)) [
      | inr no_saml ↦ absurd (cc (rw (account_resolution_evidence, no_saml) at h))
      | inl saml ↦ elim (Option-cases provider.policy) [
        | inl e ↦ absurd (cc (rw (account_resolution_evidence, saml, e) at h))
        | inr (policy, e) ↦
            let (found, silent) =
              conclude_lem (field_of_template (template_of policy)) (told (policy_tests policy))
                field (rw (account_resolution_evidence, saml, e) at h) in
            (policy, saml, e, tests_pass policy field (told-nil (policy_tests policy) silent) found)
      ]
    ],
    λ (policy, saml, e, proves).
        rw (account_resolution_evidence, saml, e)
          (conclude_proven (template_of policy) (told (policy_tests policy)) field
            (template-Proves policy field proves)
            (told-none (policy_tests policy) (pass_tests policy field proves))),
  )
