-- ===== src/Saml/Profiles.antt =====
-- models/saml.py: the exact values of a field of a user's profile.
use openhound_okta.Base.{
  ℕ, Bool, true, false, ◌&&◌, ◌||◌, Option, none, some, String, List, [], ◌∷◌, ◌==◌, ◌<>◌,
  string_eq, nat_eq, option_eq, ltb, leb, if◌then◌else◌,
}
use openhound_okta.Base.Text.{codes, split}
use openhound_okta.Base.Dict.{Dict, lookup, insert}
use openhound_okta.Base.Dedupe.{first_by}
use openhound_okta.Oin.Contract.{itself}
use openhound_okta.Oin.Validators.{Setting, null, text, Strip}
use openhound_okta.Oin.Resolvers.{is_set}
use openhound_okta.Saml.Values.{clean}
use openhound_okta.Saml.Claims.{Texts, ClaimMapping, DirectField, template_field, or_setting}

-- One value: nothing or a container, which are skipped, or the `str` of any other.
pub data Scalar : Type 0 where
  skipped : Scalar
  exact : String → Scalar

-- A value of a profile, `missing` where it is `_MISSING` or a dictionary.
pub data Value : Type 0 where
  missing : Value
  single : Scalar → Value
  many : List Scalar → Value

abbrev pub Profile : Type 0
Profile = Dict String Value

-- The profile of the user in Okta: not looked up, or what was found.
abbrev pub SourceProfile : Type 0
SourceProfile = Option (Option Profile)

-- What is read of an assignment: `credentials.username`, the profile, the templates of the application.
pub record ApplicationUser : Type 0 where
  pub app_id : String
  pub username : Value
  pub profile : Option Profile
  pub app_subject_name_id_template : Setting
  pub app_subject_name_id_format : Setting
  pub app_user_name_template : Setting

unfoldable pub or_missing : Option Value → Value
or_missing none = missing
or_missing (some v) = v

-- The scalars that are not skipped.
unfoldable pub texts_of : List Scalar → List String
texts_of [] = []
texts_of (skipped ∷ rest) = texts_of rest
texts_of (exact s ∷ rest) = s ∷ texts_of rest

-- A profile with its keys in one case, where the last value of a key stays.
unfoldable pub folded : (String → String) → Profile → Profile → Profile
unfolding insert
folded casefold [] into = into
folded casefold ((key, v) ∷ rest) into = folded casefold rest (insert (casefold key) v into)

-- `_profile_field`
unfoldable pub profile_field : (String → String) → Option Profile → String → Value
unfolding lookup folded or_missing
profile_field casefold none field_name = missing
profile_field casefold (some profile) field_name = elim (lookup field_name profile) [
  | some v ↦ v
  | none ↦ or_missing (lookup (casefold field_name) (folded casefold profile []))
]

-- The texts that are not blank.
unfoldable pub not_blank : Strip → List String → List String
not_blank strip [] = []
not_blank strip (s ∷ rest) =
    let others = not_blank strip rest in if strip s == "" then others else s ∷ others

-- `_source_exact_values`
unfoldable pub source_exact_values : Strip → Value → List String
unfolding not_blank texts_of first_by
source_exact_values strip missing = []
source_exact_values strip (single candidate) =
    first_by itself (not_blank strip (texts_of (candidate ∷ [])))
source_exact_values strip (many candidates) =
    first_by itself (not_blank strip (texts_of candidates))

-- `values or others`
abbrev or_values : List String → List String → List String
or_values [] others = others
or_values (v ∷ vs) others = v ∷ vs

-- A part of an address is not empty.
abbrev is_filled : List ℕ → Bool
is_filled [] = false
is_filled (c ∷ cs) = true

abbrev some_of : (ℕ → Bool) → List ℕ → Bool
some_of p [] = false
some_of p (c ∷ cs) = p c || some_of p cs

-- `ord(character) < 32 or 127 <= ord(character) <= 159`
unfoldable pub is_control : ℕ → Bool
is_control c = ltb c 32 || (leb 127 c && leb c 159)

-- One `@`, with something on both sides.
unfoldable pub is_address : List (List ℕ) → Bool
is_address (user ∷ domain ∷ []) = is_filled user && is_filled domain
is_address _ = false

module _ (t : Texts) where
  -- A login that is an e-mail address, trimmed and in one case.
  unfoldable pub login_email : String → Option String
  unfolding is_control is_address split
  login_email login =
      let trimmed = t.strip login in
      if some_of is_control (codes login)
      then none
      else if some_of t.is_space (codes trimmed)
      then none
      else if is_address (split b'@' (codes trimmed))
      then some (t.casefold trimmed)
      else none

  unfoldable pub login_emails_of : List String → List String
  unfolding login_email
  login_emails_of [] = []
  login_emails_of (login ∷ logins) =
      let rest = login_emails_of logins in
      elim (login_email login) [ none ↦ rest | some email ↦ email ∷ rest ]

  -- `_source_login_email_values`
  unfoldable pub source_login_email_values :
      Option DirectField → List String → SourceProfile → List String
  unfolding login_emails_of
  source_login_email_values direct_field logins none = []
  source_login_email_values none logins (some profile) = []
  source_login_email_values (some (namespace, name)) logins (some profile) =
      if namespace == "source" && t.casefold name == "login" then login_emails_of logins else []

  -- `_application_user_direct_values`
  unfoldable pub application_user_direct_values :
      DirectField → ApplicationUser → SourceProfile → List String
  unfolding profile_field source_exact_values
  application_user_direct_values (namespace, name) user source_profile =
      let own = source_exact_values t.strip (profile_field t.casefold user.profile name) in
      let username = source_exact_values t.strip user.username in
      if namespace == "appuser"
      then if t.casefold name == "username" then username else own
      else elim source_profile [
        | some profile ↦ source_exact_values t.strip (profile_field t.casefold profile name)
        | none ↦ if t.casefold name == "login" then or_values username own else own
      ]

  abbrev text_or_null : Option String → Setting
  text_or_null none = null
  text_or_null (some s) = text s

  -- `_fallback_application_claim_mapping`
  unfoldable pub fallback_mapping : ApplicationUser → ClaimMapping
  unfolding or_setting is_set template_field clean
  fallback_mapping user =
      let template =
        or_setting user.app_subject_name_id_template
          (or_setting user.app_user_name_template (text "appuser.userName")) in
      record {
        id = text ("okta:saml:claim-mapping:" <> (user.app_id <> ":0"));
        claim_type = text "name_id";
        claim_name = text "NameID";
        mapping_origin = text (
            if is_set user.app_subject_name_id_template
            then "subject_name_id"
            else "application_user_name");
        expression = template;
        source_property = text_or_null (template_field t.strip template);
        format = elim (clean t.strip user.app_subject_name_id_format) [
          | none ↦ text "urn:oasis:names:tc:SAML:1.0:nameid-format:unspecified"
          | some format ↦ text format
        ];
        name_id_format = null;
      }
