-- ===== src/Saml/Claims.antt =====
-- models/saml.py: which field of a profile a claim reads, and which family of match values it belongs to.
use Prim.Native.Char.{code}
use openhound_okta.Base.{
  ℕ, Bool, ◌&&◌, ◌||◌, not, Option, none, some, String, List, [], ◌∷◌, ◌==◌, string_eq, nat_eq,
  option_eq, pair_eq, leb, contains, if◌then◌else◌,
}
use openhound_okta.Base.Text.{codes, every, starts}
use openhound_okta.Oin.Validators.{Setting, Strip, is_text, is_alnum}
use openhound_okta.Oin.Resolvers.{is_set}
use openhound_okta.Saml.Values.{clean}

-- Python's texts; `uuid` is `str(UUID(value))`, `none` where it raises `ValueError`.
pub record Texts : Type 0 where
  pub strip : Strip
  pub casefold : String → String
  pub uuid : String → Option String
  pub is_space : ℕ → Bool

-- `_COMMON_ASSERTION_FIELDS`
pub data Field : Type 0 where
  email_match_values upn_match_values entra_object_id_match_values scoped_exact_match_values : Field

-- What `_claim_family` answers.
pub data Family : Type 0 where
  common : Field → Family
  transient raw_name_id exceptional : Family

-- A claim mapping of the lookups; a value that is missing is `null`.
pub record ClaimMapping : Type 0 where
  pub id : Setting
  pub claim_type : Setting
  pub claim_name : Setting
  pub mapping_origin : Setting
  pub expression : Setting
  pub source_property : Setting
  pub format : Setting
  pub name_id_format : Setting

-- A namespace and the name of a field of a profile.
abbrev pub DirectField : Type 0
DirectField = String × String

-- `value[:-1]`, where the last character is `}`.
unfoldable pub before_brace : String → Option String
before_brace String.[] = none
before_brace (String.◌∷◌ c String.[]) = if code c == b'}' then some "" else none
before_brace (String.◌∷◌ c (String.◌∷◌ d s)) = elim (before_brace (String.◌∷◌ d s)) [
  | none ↦ none
  | some front ↦ some (String.◌∷◌ c front)
]

-- `value[2:-1]` of a text that starts with `${` and ends with `}`.
unfoldable pub inside_braces : String → Option String
unfolding before_brace
inside_braces String.[] = none
inside_braces (String.◌∷◌ c String.[]) = none
inside_braces (String.◌∷◌ c (String.◌∷◌ d s)) =
    let front = before_brace s in if code c == b'$' && code d == b'{' then front else none

unfoldable pub unwrapped : Strip → String → String
unfolding inside_braces
unwrapped strip value = elim (inside_braces value) [ none ↦ value | some inner ↦ strip inner ]

-- A text before its first dot, and what stands behind it.
unfoldable pub split_dot : String → Option (String × String)
split_dot String.[] = none
split_dot (String.◌∷◌ c s) =
    let later = split_dot s in
    if code c == b'.'
    then some ("", s)
    else elim later [ none ↦ none | some (front, back) ↦ some (String.◌∷◌ c front, back) ]

-- `[A-Za-z_][A-Za-z0-9_]*`
unfoldable pub is_identifier : List ℕ → Bool
unfolding is_alnum
is_identifier name =
    starts (λ c. (is_alnum c && not (leb b'0' c && leb c b'9')) || c == b'_') name
    && every (λ c. is_alnum c || c == b'_') name

-- `_DIRECT_PROFILE_EXPRESSION.fullmatch`
unfoldable pub match_direct : String → Option DirectField
unfolding split_dot is_identifier
match_direct value = elim (split_dot value) [
  | none ↦ none
  | some (namespace, name) ↦
      if contains ("source" ∷ "user" ∷ "appuser" ∷ []) namespace && is_identifier (codes name)
      then some (namespace, name)
      else none
]

-- `_direct_profile_field`
unfoldable pub direct_profile_field : Strip → Setting → Option DirectField
unfolding clean unwrapped match_direct
direct_profile_field strip expression = elim (clean strip expression) [
  | none ↦ none
  | some value ↦ match_direct (unwrapped strip value)
]

-- `_template_field`, which is also `saml_match_source`.
unfoldable pub template_field : Strip → Setting → Option String
unfolding clean unwrapped
template_field strip template = elim (clean strip template) [
  | none ↦ none
  | some value ↦ some (unwrapped strip value)
]

-- `a or b`
unfoldable pub or_setting : Setting → Setting → Setting
unfolding is_set
or_setting a b = if is_set a then a else b

abbrev pub name_of : Texts → Option DirectField → String
name_of t none = ""
name_of t (some (namespace, name)) = t.casefold name

-- The family of a name id that is in no format of its own.
unfoldable pub family_of_name : Texts → Option DirectField → Family
family_of_name t direct_field =
    if contains ("email" ∷ "mail" ∷ []) (name_of t direct_field)
    then common email_match_values
    else if contains ("upn" ∷ "userprincipalname" ∷ []) (name_of t direct_field)
    then common upn_match_values
    else raw_name_id

-- `_claim_family` of a name id.
unfoldable pub name_id_family : Texts → ClaimMapping → Option DirectField → Family
unfolding clean or_setting is_text family_of_name
name_id_family t mapping direct_field =
    let name_id_format = clean t.strip (or_setting mapping.format mapping.name_id_format) in
    if name_id_format == some "urn:oasis:names:tc:SAML:2.0:nameid-format:transient"
    then transient
    else if name_id_format == some "urn:oasis:names:tc:SAML:1.1:nameid-format:emailAddress"
    then common email_match_values
    else if name_id_format == some "urn:oasis:names:tc:SAML:2.0:nameid-format:persistent"
    then common scoped_exact_match_values
    else if is_text "application_user_name" mapping.mapping_origin
    then common scoped_exact_match_values
    else family_of_name t direct_field

abbrev pub email_claim_names : List String
email_claim_names =
    "email" ∷ "mail" ∷ "http://schemas.xmlsoap.org/ws/2005/05/identity/claims/emailaddress" ∷ []

abbrev pub upn_claim_names : List String
upn_claim_names =
    "upn" ∷ "userprincipalname" ∷ "http://schemas.xmlsoap.org/claims/upn"
    ∷ "http://schemas.xmlsoap.org/ws/2005/05/identity/claims/upn" ∷ []

abbrev pub entra_object_id_claim_names : List String
entra_object_id_claim_names = "http://schemas.microsoft.com/identity/claims/objectidentifier" ∷ []

-- `_claim_family` of an attribute.
unfoldable pub attribute_family : String → Family
attribute_family claim_name =
    if contains email_claim_names claim_name
    then common email_match_values
    else if contains upn_claim_names claim_name
    then common upn_match_values
    else if contains entra_object_id_claim_names claim_name
    then common entra_object_id_match_values
    else exceptional

-- `(_clean(claim_name) or "").casefold()`
unfoldable pub folded_name : Texts → ClaimMapping → String
unfolding clean
folded_name t mapping = elim (clean t.strip mapping.claim_name) [
  | none ↦ t.casefold ""
  | some claim_name ↦ t.casefold claim_name
]

-- `_claim_family`
unfoldable pub claim_family : Texts → ClaimMapping → Option DirectField → Family
unfolding clean name_id_family attribute_family folded_name
claim_family t mapping direct_field =
    if clean t.strip mapping.claim_type == some "name_id"
    then name_id_family t mapping direct_field
    else attribute_family (folded_name t mapping)

-- `_canonical_common_value`
unfoldable pub canonical_common_value : Texts → Field → String → Option String
canonical_common_value t email_match_values source_exact = some (t.casefold (t.strip source_exact))
canonical_common_value t upn_match_values source_exact = some (t.casefold (t.strip source_exact))
canonical_common_value t entra_object_id_match_values source_exact = t.uuid (t.strip source_exact)
canonical_common_value t scoped_exact_match_values source_exact = some (t.strip source_exact)
