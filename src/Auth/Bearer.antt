-- ===== src/Auth/Bearer.antt =====
-- `OktaBearerAuth` of utils/auth.py: the token that all requests share, refreshed before it expires
-- and rotated on a 401. Times are whole microseconds. Every method runs under the handler's lock, or
-- reads the cache once before it takes the lock.
pub mod Lifetime
pub mod Rotation
use openhound_okta.Base.{
  ℕ, ◌+◌, ◌-◌, ◌/◌, ◌≤◌, ◌<◌, min, ◌≡◌, refl, Bool, true, false, ◌&&◌, ◌||◌, Option, none, some,
  String, ◌<>◌, ltb, leb, ◌==◌, string_eq, nat_eq, if◌then◌else◌,
}
use openhound_okta.Base.Int.{ℤ, pos, negsuc}
use openhound_okta.Base.Results.{Result, ok, err, ◌>>=◌}
use openhound_okta.Auth.Unauthorized.{
  UnauthorizedClassification, invalid_token, non_token, unknown, Response, TextOps,
  response_bearer_token, classify_unauthorized,
}

pub record CachedBearerToken : Type 0 where
  pub access_token : String
  pub refresh_at : ℕ
  pub expires_at : ℕ

pub record BearerAuth : Type 0 where
  pub refresh_skew : ℕ
  pub refresh_failure_cooldown : ℕ
  pub cached_token : Option CachedBearerToken
  pub next_refresh_attempt_at : ℕ

-- A handler that has no token yet.
abbrev pub without_token : ℕ → ℕ → BearerAuth
without_token refresh_skew cooldown = record {
  refresh_skew = refresh_skew;
  refresh_failure_cooldown = cooldown;
  cached_token = none;
  next_refresh_attempt_at = 0;
}

-- A setting that is a float: a number, or one that is not finite.
pub data Seconds : Type 0 where
  finite : ℤ → Seconds
  not_finite : Seconds

unfoldable pub checked : String → Seconds → Result String ℕ
checked name not_finite = err (name <> " must be finite")
checked name (finite (negsuc n)) = err (name <> " cannot be negative")
checked name (finite (pos n)) = ok n

-- `__init__`
unfoldable pub init : Seconds → Seconds → Result String BearerAuth
unfolding checked
init refresh_skew_seconds refresh_failure_cooldown_seconds =
    checked "refresh_skew_seconds" refresh_skew_seconds >>= λ skew.
    checked "refresh_failure_cooldown_seconds" refresh_failure_cooldown_seconds >>= λ cooldown.
    ok (without_token skew cooldown)

pub data Reason : Type 0 where
  refresh_in_progress stale_request_token current_token_non_token_401 : Reason
  current_token_invalid current_token_unknown_401 : Reason

pub record UnauthorizedDecision : Type 0 where
  pub retry : Bool
  pub invalidated : Bool
  pub reason : Reason
  pub classification : UnauthorizedClassification

abbrev cleared : BearerAuth → BearerAuth
cleared b = record b { cached_token = none; next_refresh_attempt_at = 0 }

-- `invalidate`; `none` is a call without a token.
unfoldable pub invalidate : Option String → BearerAuth → Bool × BearerAuth
invalidate access_token b = elim b.cached_token [
  | none ↦ (false, b)
  | some cached ↦ elim access_token [
    | none ↦ (true, cleared b)
    | some failed ↦ if failed == cached.access_token then (true, cleared b) else (false, b)
  ]
]

-- The decision where the token that failed is the cached one.
unfoldable pub decide_current :
    UnauthorizedClassification → BearerAuth → UnauthorizedDecision × BearerAuth
decide_current non_token b = (
  record {
    retry = false;
    invalidated = false;
    reason = current_token_non_token_401;
    classification = non_token;
  },
  b,
)
decide_current invalid_token b = (
  record {
    retry = true;
    invalidated = true;
    reason = current_token_invalid;
    classification = invalid_token;
  },
  cleared b,
)
decide_current unknown b = (
  record {
    retry = true;
    invalidated = true;
    reason = current_token_unknown_401;
    classification = unknown;
  },
  cleared b,
)

-- The decision about a token that failed with a 401 of this classification.
unfoldable pub decide :
    String → UnauthorizedClassification → BearerAuth → UnauthorizedDecision × BearerAuth
unfolding decide_current
decide failed c b = elim b.cached_token [
  | none ↦ (
    record { retry = true; invalidated = false; reason = refresh_in_progress; classification = c },
    b,
  )
  | some cached ↦ if failed == cached.access_token then decide_current c b else (
    record { retry = true; invalidated = false; reason = stale_request_token; classification = c },
    b,
  )
]

unfoldable pub handle_unauthorized :
    TextOps → Response → BearerAuth → Option UnauthorizedDecision × BearerAuth
unfolding decide
handle_unauthorized ops r b = elim (response_bearer_token ops r) [
  | none ↦ (none, b)
  | some failed ↦
      let (decision, b') = decide failed (classify_unauthorized ops r) b in (some decision, b')
]

unfoldable pub is_fresh : CachedBearerToken → ℕ → Bool
is_fresh t now = ltb now t.refresh_at

unfoldable pub is_unexpired : CachedBearerToken → ℕ → Bool
is_unexpired t now = ltb now t.expires_at

-- What the token endpoint answers: a token with its lifetime, or an exception.
pub data Failure : Type 0 where
  -- `requests.Timeout` or `requests.ConnectionError`
  unreachable : Failure
  -- `requests.HTTPError`, with the status if there is a response
  http_error : Option ℕ → Failure
  other_failure : Failure

pub data Fetched : Type 0 where
  token : String → ℕ → Fetched
  failed : Failure → Fetched

unfoldable pub is_transient_refresh_failure : Failure → Bool
is_transient_refresh_failure unreachable = true
is_transient_refresh_failure (http_error none) = false
is_transient_refresh_failure (http_error (some status)) = (status == 429) || leb 500 status
is_transient_refresh_failure other_failure = false

unfoldable pub store_token : String → ℕ → ℕ → BearerAuth → BearerAuth
store_token access_token lifetime now b = record b {
  cached_token = some (record {
    access_token = access_token;
    refresh_at = now + lifetime - min b.refresh_skew (lifetime / 2);
    expires_at = now + lifetime;
  });
  next_refresh_attempt_at = 0;
}

-- `except Exception`: a token that has not expired outlives a transient failure.
unfoldable pub on_fetch_failure :
    Option CachedBearerToken → ℕ → Failure → BearerAuth → Result Failure String × BearerAuth
unfolding is_unexpired is_transient_refresh_failure
on_fetch_failure none now e b = (err e, b)
on_fetch_failure (some cached) now e b =
    if is_unexpired cached now && is_transient_refresh_failure e
    then (
      ok cached.access_token,
      record b { next_refresh_attempt_at = now + b.refresh_failure_cooldown },
    )
    else (err e, b)

-- The cached token, if it is used without a fetch.
unfoldable pub usable : ℕ → BearerAuth → Option String
unfolding is_fresh is_unexpired
usable now b = elim b.cached_token [
  | none ↦ none
  | some cached ↦
      if is_fresh cached now || (is_unexpired cached now && ltb now b.next_refresh_attempt_at)
      then some cached.access_token
      else none
]

-- The fetch of `_access_token`, answered at the clock `later`.
unfoldable pub refresh : ℕ → Fetched → BearerAuth → Result Failure String × BearerAuth
unfolding on_fetch_failure store_token
refresh later (token t lifetime) b = (ok t, store_token t lifetime later b)
refresh later (failed e) b = on_fetch_failure b.cached_token later e b

-- `_access_token`, from the lock on; the test before the lock is the first test of `usable`, which is
-- repeated under it. `now` is the clock at the lock, `later` the clock after the fetch.
unfoldable pub access_token : ℕ → ℕ → Fetched → BearerAuth → Result Failure String × BearerAuth
unfolding usable refresh
access_token now later fetched b = elim (usable now b) [
  | some t ↦ (ok t, b)
  | none ↦ refresh later fetched b
]

unfoldable pub authorization_header :
    ℕ → ℕ → Fetched → BearerAuth → Result Failure String × BearerAuth
unfolding access_token
authorization_header now later fetched b =
    let (r, b') = access_token now later fetched b in
    elim r [ ok t ↦ (ok ("Bearer " <> t), b') | err e ↦ (err e, b') ]
