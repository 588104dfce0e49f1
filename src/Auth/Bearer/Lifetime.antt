-- ===== src/Auth/Bearer/Lifetime.antt =====
-- Which tokens the handler hands out.
use openhound_okta.Base.{
  ℕ, ◌+◌, ◌-◌, ◌/◌, ◌≤◌, ◌<◌, min, ◌≡◌, refl, sym, ap, ◌∙◌, ◌⊎◌, inl, inr, Option, none, some,
  String, arith, string_eq, Option-cases,
}
use openhound_okta.Base.Results.{ok}
use openhound_okta.Auth.Bearer.{
  BearerAuth, CachedBearerToken, Failure, Fetched, token, failed, usable, refresh, access_token,
  store_token, on_fetch_failure,
}

-- The token of the cache is due for a refresh no later than it expires.
abbrev pub IsScheduled : BearerAuth → Type 0
IsScheduled b = (t : CachedBearerToken) → b.cached_token ≡ some t → t.refresh_at ≤ t.expires_at

-- The cache holds this token, and it has not expired at that time.
abbrev pub Holds : BearerAuth → String → ℕ → Type 0
Holds b t time =
    (c : CachedBearerToken) × (b.cached_token ≡ some c)
    × (c.access_token ≡ t)
    × (time < c.expires_at)

-- Where a token that is handed out comes from: the cache, which had it unexpired at `now` and is left
-- alone; this fetch, which stores it with the lifetime that the endpoint gave; or the cache after a
-- fetch that failed, which had it unexpired at `later`.
abbrev pub IsLive : ℕ → ℕ → Fetched → BearerAuth → BearerAuth → String → Type 0
IsLive now later fetched b b' t =
    (Holds b t now × (b' ≡ b))
    ⊎ (((lifetime : ℕ) × (fetched ≡ token t lifetime)
          × (c : CachedBearerToken) × (b'.cached_token ≡ some c)
          × (c.access_token ≡ t)
          × (c.expires_at ≡ later + lifetime))
        ⊎ ((e : Failure) × (fetched ≡ failed e) × Holds b t later × Holds b' t later))

store_token-IsScheduled :
    (t : String) (lifetime now : ℕ) (b : BearerAuth) → IsScheduled (store_token t lifetime now b)
unfolding store_token
store_token-IsScheduled t lifetime now b c h = ground arith

failure-IsScheduled :
    (o : Option CachedBearerToken) (later : ℕ) (e : Failure) (b : BearerAuth)
    → IsScheduled b
    → IsScheduled (on_fetch_failure o later e b).1
unfolding on_fetch_failure
failure-IsScheduled none later e b s = s
failure-IsScheduled (some c) later e b s = λ d h. ground (arith, s d)

refresh-IsScheduled :
    (later : ℕ) (fetched : Fetched) (b : BearerAuth)
    → IsScheduled b
    → IsScheduled (refresh later fetched b).1
unfolding refresh
refresh-IsScheduled later (token t lifetime) b s = store_token-IsScheduled t lifetime later b
refresh-IsScheduled later (failed e) b s = failure-IsScheduled b.cached_token later e b s

usable-IsLive :
    (now : ℕ) (b : BearerAuth) (t : String) → IsScheduled b → usable now b ≡ some t → Holds b t now
unfolding usable
usable-IsLive now b t s h = elim (Option-cases b.cached_token) [
  | inl e ↦ absurd (ground arith)
  | inr (c, e) ↦ (c, e, ground arith, ground (arith, s c e))
]

failure-Holds :
    (later : ℕ) (e : Failure) (b : BearerAuth) (o : Option CachedBearerToken) (t : String)
    → b.cached_token ≡ o
    → (on_fetch_failure o later e b).0 ≡ ok t
    → Holds b t later × Holds (on_fetch_failure o later e b).1 t later
unfolding on_fetch_failure
failure-Holds later e b none t same h = cc
failure-Holds later e b (some c) t same h =
    ((c, same, ground arith, ground arith), (c, ground arith, ground arith, ground arith))

refresh-IsLive :
    (now later : ℕ) (fetched : Fetched) (b : BearerAuth) (t : String)
    → (refresh later fetched b).0 ≡ ok t
    → IsLive now later fetched b (refresh later fetched b).1 t
unfolding refresh store_token
refresh-IsLive now later (token u lifetime) b t h =
    inr (inl (lifetime, ground arith, _, refl, ground arith, refl))
refresh-IsLive now later (failed e) b t h =
    let (before, after) = failure-Holds later e b b.cached_token t refl h in
    inr (inr (e, refl, before, after))

-- Where refreshes are due before tokens expire, and `_access_token` hands out a token: either it is
-- the cached one, which had not expired at `now`, and the cache is left alone; or the fetch answered
-- with it, and it is cached to expire its lifetime after `later`; or the fetch failed, and it is the
-- cached one, which had not expired when the failure was handled at `later`.
pub access_token-IsLive :
    (now later : ℕ) (fetched : Fetched) (b : BearerAuth) (t : String)
    → IsScheduled b
    → (access_token now later fetched b).0 ≡ ok t
    → IsLive now later fetched b (access_token now later fetched b).1 t
unfolding access_token
access_token-IsLive now later fetched b t s h = elim (Option-cases (usable now b)) [
  | inl e ↦ rw (e, access_token) (refresh-IsLive now later fetched b t (rw (e, access_token) at h))
  | inr (u, e) ↦ inl (usable-IsLive now b t s (ground arith), ground (arith, e))
]

-- If the refresh of the cached token is due before the token expires, that holds after `_access_token`
-- too, whatever the fetch does.
pub access_token-IsScheduled :
    (now later : ℕ) (fetched : Fetched) (b : BearerAuth)
    → IsScheduled b
    → IsScheduled (access_token now later fetched b).1
unfolding access_token
access_token-IsScheduled now later fetched b s = elim (Option-cases (usable now b)) [
  | inl e ↦ rw (e, access_token) (refresh-IsScheduled later fetched b s)
  | inr (u, e) ↦ rw (e, access_token) s
]

-- After a fetch at `later`, the token is used without another fetch until its refresh is due: for all
-- its lifetime but the skew, or half the lifetime if that is less.
pub fetched_token_serves :
    (now later again : ℕ) (t : String) (lifetime : ℕ) (b : BearerAuth) (fetched : Fetched)
    → usable now b ≡ none
    → again < later + lifetime - min b.refresh_skew (lifetime / 2)
    → access_token again again fetched (access_token now later (token t lifetime) b).1
      ≡ (ok t, (access_token now later (token t lifetime) b).1)
unfolding access_token
fetched_token_serves now later again t lifetime b fetched stale early =
    rw (stale, access_token) (ground arith)

access_token_stale :
    (now later : ℕ) (fetched : Fetched) (b : BearerAuth)
    → usable now b ≡ none
    → access_token now later fetched b ≡ refresh later fetched b
unfolding access_token
access_token_stale now later fetched b e = rw (e, access_token)

access_token_usable :
    (now later : ℕ) (fetched : Fetched) (b : BearerAuth) (t : String)
    → usable now b ≡ some t
    → access_token now later fetched b ≡ (ok t, b)
unfolding access_token
access_token_usable now later fetched b t e = rw (e, access_token)

failure-usable :
    (later again : ℕ) (e : Failure) (t : String) (b : BearerAuth)
    → (refresh later (failed e) b).0 ≡ ok t
    → again < later + b.refresh_failure_cooldown
    → ((c : CachedBearerToken) → b.cached_token ≡ some c → again < c.expires_at)
    → usable again (refresh later (failed e) b).1 ≡ some t
unfolding refresh usable
failure-usable later again e t b h early live = elim (Option-cases b.cached_token) [
  | inl none' ↦ absurd (ground arith)
  | inr (c, cached) ↦ ground (arith, live c)
]

-- After a transient failure that the cached token outlived, that token is used without another fetch
-- until the cooldown is over or the token expires.
pub cooldown_is_kept :
    (now later again : ℕ) (e : Failure) (t : String) (b : BearerAuth) (fetched : Fetched)
    → usable now b ≡ none
    → (access_token now later (failed e) b).0 ≡ ok t
    → again < later + b.refresh_failure_cooldown
    → ((c : CachedBearerToken) → b.cached_token ≡ some c → again < c.expires_at)
    → (access_token again again fetched (access_token now later (failed e) b).1).0 ≡ ok t
cooldown_is_kept now later again e t b fetched stale h early live =
    let fetches = access_token_stale now later (failed e) b stale in
    let kept = failure-usable later again e t b (ap (λ r. r.0) (sym fetches) ∙ h) early live in
    ap (λ r. (access_token again again fetched r.1).0) fetches
    ∙ ap (λ r. r.0) (access_token_usable again again fetched (refresh later (failed e) b).1 t kept)
