-- ===== src/Auth/Bearer/Rotation.antt =====
-- What a 401 does to the shared token.
use openhound_okta.Base.{
  ℕ, suc, ◌≡◌, refl, Bool, true, false, ◌&&◌, ◌||◌, not, none, some, String, List, [], ◌∷◌, arith,
  ◌==◌, string_eq, if◌then◌else◌,
}
use openhound_okta.Auth.Unauthorized.{UnauthorizedClassification, invalid_token, non_token, unknown}
use openhound_okta.Auth.Bearer.{BearerAuth, decide}

abbrev pub is_non_token : UnauthorizedClassification → Bool
is_non_token non_token = true
is_non_token _ = false

-- The token that the cache holds.
abbrev pub holds : BearerAuth → String → Bool
holds b t = elim b.cached_token [ none ↦ false | some c ↦ t == c.access_token ]

-- A decision, but for its reason. The cache is cleared exactly if it holds the token that failed and the 401 may
-- be the token's fault, and the decision says so; it is left alone otherwise. The request is retried
-- unless the current token failed for a reason other than the token.
pub decide_lem :
    (failed : String) (c : UnauthorizedClassification) (b : BearerAuth)
    → ((decide failed c b).0.invalidated ≡ (holds b failed && not (is_non_token c)))
      × ((decide failed c b).0.retry ≡ not (holds b failed && is_non_token c))
      × ((decide failed c b).0.classification ≡ c)
      × ((decide failed c b).1 ≡ (
          if holds b failed && not (is_non_token c)
          then record b { cached_token = none; next_refresh_attempt_at = 0 }
          else b))
unfolding decide
decide_lem failed invalid_token b = ground arith
decide_lem failed non_token b = ground arith
decide_lem failed unknown b = ground arith

-- The 401s of several requests, handled one after the other with no fetch in between.
unfoldable pub decide_all : List (String × UnauthorizedClassification) → BearerAuth → ℕ × BearerAuth
decide_all [] b = (0, b)
decide_all ((failed, c) ∷ rest) b =
    let (decision, b') = decide failed c b in
    let (count, b'') = decide_all rest b' in
    ((if decision.invalidated then suc count else count), b'')

decide_all_cleared :
    (fs : List (String × UnauthorizedClassification)) (b : BearerAuth)
    → b.cached_token ≡ none
    → decide_all fs b ≡ (0, b)
unfolding decide_all decide
decide_all_cleared [] b e = refl
decide_all_cleared ((failed, c) ∷ rest) b e = ground (arith, e, decide_all_cleared rest b e)

-- Some 401 is for the token that the cache holds, and may be the token's fault.
abbrev pub is_blamed : BearerAuth → List (String × UnauthorizedClassification) → Bool
is_blamed b [] = false
is_blamed b ((failed, c) ∷ rest) = (holds b failed && not (is_non_token c)) || is_blamed b rest

abbrev pub emptied : BearerAuth → BearerAuth
emptied b = record b { cached_token = none; next_refresh_attempt_at = 0 }

-- However many requests fail with a 401 before the token is fetched again, in whatever order: if one
-- of them was sent with the cached token and the 401 may be the token's fault, the cache is cleared
-- exactly once and the cooldown is reset; otherwise the handler's state is left alone.
pub decide_all_lem :
    (fs : List (String × UnauthorizedClassification)) (b : BearerAuth)
    → decide_all fs b ≡ (if is_blamed b fs then (1, emptied b) else (0, b))
unfolding decide_all
decide_all_lem [] b = refl
decide_all_lem ((failed, c) ∷ rest) b =
    ground (
      arith,
      decide_lem failed c b,
      decide_all_cleared rest (emptied b) refl,
      decide_all_lem rest b,
    )
