-- ===== src/Auth/Unauthorized.antt =====
-- `response_bearer_token` and `classify_unauthorized` of utils/auth.py.
use text.Mathlib.Text.{starts_with}
use openhound_okta.Base.{Bool, Option, none, some, String, ◌==◌, string_eq, if◌then◌else◌}

pub data UnauthorizedClassification : Type 0 where
  invalid_token non_token unknown : UnauthorizedClassification

-- A 401: the `Authorization` header of its request, its challenge, and its body. The header is
-- `none` where there is no request, no header, or none that is a text; the code is `none` where the
-- body is no JSON object or holds no text under `errorCode`.
pub record Response : Type 0 where
  pub authorization : Option String
  pub challenge : String
  pub error_code : Option String

-- Python's regular expressions and texts: whether `\berror\s*=\s*"?CODE"?` occurs in a challenge, and
-- what is behind a prefix.
pub record TextOps : Type 0 where
  pub challenge_has_error : String → String → Bool
  pub remove_prefix : String → String → String

module _ (ops : TextOps) where
  unfoldable pub response_bearer_token : Response → Option String
  response_bearer_token r = elim r.authorization [
    | none ↦ none
    | some authorization ↦
        if starts_with authorization "Bearer "
        then (let access_token = ops.remove_prefix "Bearer " authorization in
            if access_token == "" then none else some access_token)
        else none
  ]

  -- The challenge is read before the body, and `invalid_token` before `insufficient_scope`.
  unfoldable pub classify_unauthorized : Response → UnauthorizedClassification
  classify_unauthorized r =
      if ops.challenge_has_error "invalid_token" r.challenge
      then invalid_token
      else if ops.challenge_has_error "insufficient_scope" r.challenge
      then non_token
      else elim r.error_code [
        | none ↦ unknown
        | some code ↦
            if code == "E0000011"
            then invalid_token
            else if code == "E0000015"
            then non_token
            else unknown
      ]
