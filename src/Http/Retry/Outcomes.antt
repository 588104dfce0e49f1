-- ===== src/Http/Retry/Outcomes.antt =====
-- How a request ends, and after how many attempts.
use openhound_okta.Base.{
  ℕ, zero, suc, ◌+◌, ◌≡◌, subst, true, false, Option, none, some, List, [], ◌∷◌, ◌++◌, arith,
}
use openhound_okta.Http.Retry.{
  Attempt, Settings, Action, acquire, send, observe, release, defer, defer_outage, record_retry,
  consume_budget, Result, returned, refused, exhausted, raised, Loop, Verdict, again, done, start,
  round, rounds, follow, send_request,
}

abbrev pub sends : List Action → ℕ
sends [] = 0
sends (send ∷ acts) = suc (sends acts)
sends (acquire ∷ acts) = sends acts
sends (observe ∷ acts) = sends acts
sends (release ∷ acts) = sends acts
sends (defer _ _ ∷ acts) = sends acts
sends (defer_outage _ ∷ acts) = sends acts
sends (record_retry _ _ ∷ acts) = sends acts
sends (consume_budget ∷ acts) = sends acts

sends-append : (xs ys : List Action) → sends (xs ++ ys) ≡ sends xs + sends ys
sends-append [] ys = omega arith
sends-append (send ∷ xs) ys = omega (arith, sends-append xs ys)
sends-append (acquire ∷ xs) ys = sends-append xs ys
sends-append (_ ∷ xs) ys = sends-append xs ys

-- What a result may be, for the settings and the number of attempts.
abbrev pub IsSound : Settings → ℕ → Result → Type 0
IsSound s n (returned status) = s.statuses.is_error status ≡ false
IsSound s n (refused status) =
    (s.statuses.is_error status ≡ true) × (s.statuses.is_retryable status ≡ false)
IsSound s n (exhausted (some status) attempts) =
    (s.statuses.is_error status ≡ true) × (s.statuses.is_retryable status ≡ true) × (attempts ≡ n)
IsSound s n (exhausted none attempts) = attempts ≡ n
IsSound s n raised = Unit

abbrev Sends : Settings → Loop → List Action × Verdict → Type 0
Sends s l (acts, done r) = (sends acts ≡ 1) × IsSound s (suc l.attempt) r
Sends s l (acts, again next) = (sends acts ≡ 1) × (next.attempt ≡ suc l.attempt)

module _ (s : Settings) where
  round-Sends : (l : Loop) (a : Attempt) → Sends s l (round s l a)
  unfolding round
  round-Sends l a = ground arith

  follow-IsSound :
      (p : List Action × Verdict) (k : Loop → List Action × Option Result) (l : Loop) (r : Result)
      → Sends s l p
      → ((next : Loop) → (k next).1 ≡ some r → IsSound s (next.attempt + sends (k next).0) r)
      → (follow p k).1 ≡ some r
      → IsSound s (l.attempt + sends (follow p k).0) r
  unfolding follow
  follow-IsSound (acts, done q) k l r h ih e =
      subst (λ n. IsSound s n r) (omega arith)
        (subst (IsSound s (suc l.attempt)) (ground arith) h.1)
  follow-IsSound (acts, again next) k l r h ih e =
      subst (λ n. IsSound s n r) (omega (arith, sends-append acts (k next).0)) (ih next e)

  rounds-IsSound :
      (fuel : ℕ) (env : ℕ → Attempt) (l : Loop) (r : Result)
      → (rounds s fuel env l).1 ≡ some r
      → IsSound s (l.attempt + sends (rounds s fuel env l).0) r
  unfolding rounds
  rounds-IsSound zero env l r e = absurd (cc)
  rounds-IsSound (suc fuel) env l r e =
      follow-IsSound (round s l (env l.attempt)) (rounds s fuel env) l r
        (round-Sends l (env l.attempt)) (λ next. rounds-IsSound fuel env next r) e

  -- How a request ends. An answer is returned only if its status is no error. An `HTTPError` is passed
  -- on only if its status may not be retried. Where retries are exhausted, the status was an error that
  -- may be retried or there was none, and the error reports as many attempts as requests were sent.
  pub send_request-IsSound :
      (fuel : ℕ) (env : ℕ → Attempt) (r : Result)
      → (send_request s fuel env).1 ≡ some r
      → IsSound s (sends (send_request s fuel env).0) r
  unfolding send_request
  send_request-IsSound fuel env r e =
      subst (λ n. IsSound s n r) (omega arith) (rounds-IsSound fuel env start r e)
