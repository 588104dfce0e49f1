-- ===== src/Auth/Tests.antt =====
-- The bearer token and the base URL at concrete inputs.
use mathlib.Core.Bool.{true, false, ◌&&◌}
use openhound_okta.Base.{
  ◌≡◌, refl, none, some, String, List, [], ◌∷◌, arith, ◌==◌, string_eq, nat_eq, if◌then◌else◌,
}
use openhound_okta.Base.Int.{pos, negsuc}
use openhound_okta.Base.Results.{ok, err}
use openhound_okta.Auth.Unauthorized.{
  UnauthorizedClassification, invalid_token, non_token, unknown, TextOps, Response,
  response_bearer_token, classify_unauthorized,
}
use openhound_okta.Auth.Bearer.{
  BearerAuth, CachedBearerToken, failed, unreachable, finite, not_finite, without_token, init,
  usable, access_token, decide, handle_unauthorized, UnauthorizedDecision, stale_request_token,
}
use openhound_okta.Auth.Refreshable.{
  bearer, ask, refreshable_auth, retry_after_unauthorized, retry_after_unauthorized_lem,
}
use openhound_okta.Auth.Bearer.Lifetime.{IsScheduled, IsLive, access_token-IsLive}
use openhound_okta.Auth.Bearer.Rotation.{
  is_non_token, holds, decide_all, is_blamed, emptied, decide_all_lem,
}
use openhound_okta.Auth.BaseUrl.{ParsedUrl, UrlOps, base_url_hostname}

abbrev cached : CachedBearerToken
cached = record { access_token = "t1"; refresh_at = 100; expires_at = 200 }

abbrev holding : BearerAuth
holding = record (without_token 300 5) { cached_token = some cached }

settings_are_taken : init (finite (pos 300)) (finite (pos 5)) ≡ ok (without_token 300 5)
unfolding init
settings_are_taken = refl

negative_is_refused :
    init (finite (pos 300)) (finite (negsuc 0))
    ≡ err "refresh_failure_cooldown_seconds cannot be negative"
unfolding init
negative_is_refused = refl

infinite_is_refused : init not_finite (finite (pos 5)) ≡ err "refresh_skew_seconds must be finite"
unfolding init
infinite_is_refused = refl

holding-IsScheduled : IsScheduled holding
holding-IsScheduled t h = ground arith

-- A proactive refresh that fails for a transient reason.
refresh_fails : (access_token 150 160 (failed unreachable) holding).0 ≡ ok "t1"
unfolding access_token
refresh_fails = refl

-- The cached token is due for a refresh.
refresh_due : usable 150 holding ≡ none
unfolding usable
refresh_due = refl

access_token-IsLive_example :
    IsLive 150 160
      (failed unreachable)
      holding
      (access_token 150 160 (failed unreachable) holding).1
      "t1"
access_token-IsLive_example =
    access_token-IsLive 150 160 (failed unreachable) holding "t1" holding-IsScheduled refresh_fails

-- A 401 of an older token, two of the cached one, and one of a scope that is missing.
abbrev refusals : List (String × UnauthorizedClassification)
refusals = ("t0", unknown) ∷ ("t1", unknown) ∷ ("t1", invalid_token) ∷ ("t1", non_token) ∷ []

decide_all_lem_example :
    decide_all refusals holding
    ≡ (if is_blamed holding refusals then (1, emptied holding) else (0, holding))
decide_all_lem_example = decide_all_lem refusals holding

-- The second of two 401s for one token finds the cache empty.
second_waits : (decide_all (("t1", unknown) ∷ ("t1", invalid_token) ∷ []) holding).0 ≡ 1
unfolding decide_all decide string_eq
second_waits = refl

abbrev origin : ParsedUrl
origin = record {
  scheme = "https";
  hostname = some "acme.okta.com";
  username = none;
  password = none;
  path = "";
  params = "";
  query = "";
  fragment = "";
}

abbrev urls : UrlOps
urls = record {
  strip = λ s. s;
  casefold = λ s. s;
  urlparse = λ s. if s == "https://acme.okta.com" then some origin else none;
}

accepts : base_url_hostname urls (some "https://acme.okta.com") ≡ ok "acme.okta.com"
unfolding base_url_hostname string_eq
accepts = refl

-- A challenge for a missing scope is no reason to rotate the token, whatever the body says.
abbrev texts : TextOps
texts = record {
  challenge_has_error = λ code challenge. challenge == code;
  remove_prefix = λ prefix text. text;
}

challenge_first :
    classify_unauthorized texts (record {
      authorization = none;
      challenge = "insufficient_scope";
      error_code = some "E0000011";
    })
    ≡ non_token
unfolding classify_unauthorized string_eq
challenge_first = refl

abbrev answer_401 : Response
answer_401 = record { authorization = some "Bearer t2"; challenge = ""; error_code = none }

abbrev stale_decision : UnauthorizedDecision
stale_decision = record {
  retry = true;
  invalidated = false;
  reason = stale_request_token;
  classification = unknown;
}

stale_is_retried :
    (retry_after_unauthorized texts none (some (bearer holding)) (some answer_401)).0
    ≡ some stale_decision
unfolding retry_after_unauthorized ask refreshable_auth handle_unauthorized response_bearer_token
    classify_unauthorized decide string_eq
stale_is_retried = refl

retry_after_unauthorized_lem_example :
    (b : BearerAuth) × (r : Response) × (failed : String) × (refreshable_auth none
        (some (bearer holding))
      ≡ some b)
    × (some answer_401 ≡ some r)
    × (response_bearer_token texts r ≡ some failed)
    × ((holds b failed && is_non_token (classify_unauthorized texts r)) ≡ false)
retry_after_unauthorized_lem_example =
    retry_after_unauthorized_lem texts none (some (bearer holding)) (some answer_401) stale_decision
      stale_is_retried refl
