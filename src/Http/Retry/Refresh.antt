-- ===== src/Http/Retry/Refresh.antt =====
-- A request asks for a new token at most once.
use openhound_okta.Base.{
  ℕ, zero, suc, ◌+◌, ◌≤◌, ◌≡◌, Option, List, [], ◌∷◌, ◌++◌, arith, if◌then◌else◌,
}
use openhound_okta.Http.Retry.{
  Attempt, Settings, Action, acquire, send, observe, release, defer, defer_outage, record_retry,
  consume_budget, Category, authentication_refresh, Result, Loop, Verdict, again, done, start,
  round, rounds, follow, send_request,
}

abbrev refresh_count : Category → ℕ
refresh_count authentication_refresh = 1
refresh_count _ = 0

abbrev pub refreshes : List Action → ℕ
refreshes [] = 0
refreshes (record_retry c _ ∷ acts) = refresh_count c + refreshes acts
refreshes (acquire ∷ acts) = refreshes acts
refreshes (send ∷ acts) = refreshes acts
refreshes (observe ∷ acts) = refreshes acts
refreshes (release ∷ acts) = refreshes acts
refreshes (defer _ _ ∷ acts) = refreshes acts
refreshes (defer_outage _ ∷ acts) = refreshes acts
refreshes (consume_budget ∷ acts) = refreshes acts

refreshes-append : (xs ys : List Action) → refreshes (xs ++ ys) ≡ refreshes xs + refreshes ys
refreshes-append [] ys = omega arith
refreshes-append (record_retry c d ∷ xs) ys = omega (arith, refreshes-append xs ys)
refreshes-append (acquire ∷ xs) ys = refreshes-append xs ys
refreshes-append (_ ∷ xs) ys = refreshes-append xs ys

-- The refreshes that the loop still allows.
abbrev allowed : Loop → ℕ
allowed l = if l.unauthorized_retry_attempted then 0 else 1

abbrev Spends : Loop → List Action × Verdict → Type 0
Spends l (acts, done r) = refreshes acts ≤ allowed l
Spends l (acts, again next) = refreshes acts + allowed next ≤ allowed l

module _ (s : Settings) where
  round-Spends : (l : Loop) (a : Attempt) → Spends l (round s l a)
  unfolding round
  round-Spends l a = ground arith

  follow-Spends :
      (l : Loop) (p : List Action × Verdict) (k : Loop → List Action × Option Result)
      → Spends l p
      → ((next : Loop) → refreshes (k next).0 ≤ allowed next)
      → refreshes (follow p k).0 ≤ allowed l
  unfolding follow
  follow-Spends l (acts, done r) k h ih = h
  follow-Spends l (acts, again next) k h ih =
      omega (arith, refreshes-append acts (k next).0, ih next)

  rounds_refresh :
      (fuel : ℕ) (env : ℕ → Attempt) (l : Loop) → refreshes (rounds s fuel env l).0 ≤ allowed l
  unfolding rounds
  rounds_refresh zero env l = omega arith
  rounds_refresh (suc fuel) env l =
      follow-Spends l (round s l (env l.attempt)) (rounds s fuel env)
        (round-Spends l (env l.attempt)) (rounds_refresh fuel env)

  -- However often a request is answered with 401 and whatever the bearer handler says, it is retried
  -- for a new token at most once.
  pub refreshes_once : (fuel : ℕ) (env : ℕ → Attempt) → refreshes (send_request s fuel env).0 ≤ 1
  unfolding send_request
  refreshes_once fuel env = rounds_refresh fuel env start
