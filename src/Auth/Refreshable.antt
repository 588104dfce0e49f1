-- ===== src/Auth/Refreshable.antt =====
-- `_refreshable_auth` and `_retry_after_unauthorized` of utils/http.py: which handler answers for a 401.
use openhound_okta.Base.{
  ◌≡◌, true, false, ◌&&◌, Option, none, some, String, arith, Option-cases, inl, inr, refl,
}
use openhound_okta.Auth.Unauthorized.{
  Response, TextOps, response_bearer_token, classify_unauthorized,
}
use openhound_okta.Auth.Bearer.{BearerAuth, UnauthorizedDecision, handle_unauthorized}
use openhound_okta.Auth.Bearer.Rotation.{is_non_token, holds, decide_lem}

-- An `AuthBase`: the bearer handler, or any other, such as a static token.
pub data Handler : Type 0 where
  bearer : BearerAuth → Handler
  other : Handler

abbrev pub refreshable : Handler → Option BearerAuth
refreshable (bearer b) = some b
refreshable other = none

-- The request's own handler goes before the client's.
unfoldable pub refreshable_auth : Option Handler → Option Handler → Option BearerAuth
refreshable_auth (some h) client = refreshable h
refreshable_auth none (some h) = refreshable h
refreshable_auth none none = none

-- The decision, and the handler after it.
unfoldable pub ask :
    TextOps → Option BearerAuth → Option Response → Option UnauthorizedDecision × Option BearerAuth
unfolding handle_unauthorized
ask ops none response = (none, none)
ask ops (some b) none = (none, some b)
ask ops (some b) (some r) = let (decision, b') = handle_unauthorized ops r b in (decision, some b')

unfoldable pub retry_after_unauthorized :
    TextOps
    → Option Handler
    → Option Handler
    → Option Response
    → Option UnauthorizedDecision × Option BearerAuth
unfolding ask refreshable_auth
retry_after_unauthorized ops request client response =
    ask ops (refreshable_auth request client) response

ask_lem :
    (ops : TextOps) (o : Option BearerAuth) (response : Option Response) (d : UnauthorizedDecision)
    → (ask ops o response).0 ≡ some d
    → d.retry ≡ true
    → (b : BearerAuth) × (r : Response) × (failed : String) × (o ≡ some b)
      × (response ≡ some r)
      × (response_bearer_token ops r ≡ some failed)
      × ((holds b failed && is_non_token (classify_unauthorized ops r)) ≡ false)
unfolding ask
ask_lem ops none response d h retried = cc
ask_lem ops (some b) none d h retried = cc
ask_lem ops (some b) (some r) d h retried = elim (Option-cases (response_bearer_token ops r)) [
  | inl e ↦ absurd (cc (rw (e, handle_unauthorized) at h))
  | inr (failed, e) ↦ (
    b,
    r,
    failed,
    refl,
    refl,
    e,
    ground (
      arith,
      decide_lem failed (classify_unauthorized ops r) b,
      rw (e, handle_unauthorized) at h,
    ),
  )
]

-- A 401 is retried only if the request was sent with a bearer token whose handler can refresh it, and that token
-- is no longer the cached one or the response does not blame something other than the token.
pub retry_after_unauthorized_lem :
    (ops : TextOps) (request client : Option Handler) (response : Option Response)
    (d : UnauthorizedDecision)
    → (retry_after_unauthorized ops request client response).0 ≡ some d
    → d.retry ≡ true
    → (b : BearerAuth) × (r : Response) × (failed : String) × (refreshable_auth request client
        ≡ some b)
      × (response ≡ some r)
      × (response_bearer_token ops r ≡ some failed)
      × ((holds b failed && is_non_token (classify_unauthorized ops r)) ≡ false)
unfolding retry_after_unauthorized
retry_after_unauthorized_lem ops request client response d h retried =
    ask_lem ops (refreshable_auth request client) response d h retried
