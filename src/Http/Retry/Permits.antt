-- ===== src/Http/Retry/Permits.antt =====
-- The order in which `_send_request` uses its throttle.
use openhound_okta.Base.{
  ℕ, zero, suc, ◌≡◌, refl, ◌∙◌, ap, Bool, true, false, Option, List, [], ◌∷◌, ◌++◌, arith, nat_eq,
}
use openhound_okta.Http.Retry.{
  unauthorized_raises, Outcome, responded_but, Attempt, Settings, Action, acquire, send, observe,
  release, defer, defer_outage, record_retry, consume_budget, authentication_refresh, Result, Loop,
  Verdict, again, done, start, round, follow, rounds, send_request,
}

-- Where a request stands: without the slot; with the slot; with the slot, and sent; with the slot, and
-- a pause published or a refresh decided; the slot returned with neither; or out of order.
pub data Standing : Type 0 where
  idle held sent published over disordered : Standing

abbrev pub move : Standing → Action → Standing
move idle acquire = held
move idle (record_retry _ _) = idle
move held send = sent
move sent observe = sent
move sent (defer _ _) = published
move sent (defer_outage _) = published
move sent (record_retry authentication_refresh _) = published
move sent release = over
move published release = idle
move over consume_budget = over
move _ _ = disordered

abbrev pub replay : Standing → List Action → Standing
replay p [] = p
replay p (act ∷ acts) = replay (move p act) acts

-- The request may end here: the slot is returned, and nothing was out of order.
abbrev pub is_returned : Standing → Bool
is_returned idle = true
is_returned over = true
is_returned _ = false

-- The unauthorized handler and the telemetry of its retry do not raise.
abbrev pub HandlerReturns : Outcome → Type 0
HandlerReturns (responded_but unauthorized_raises _ _) = ⊥
HandlerReturns _ = Unit

replay-append : (p : Standing) (xs ys : List Action) → replay p (xs ++ ys) ≡ replay (replay p xs) ys
replay-append p [] ys = refl
replay-append p (x ∷ xs) ys = replay-append (move p x) xs ys

-- A round that is followed by another returns its slot after a pause or a refresh.
abbrev IsOrderly : List Action × Verdict → Type 0
IsOrderly (acts, done r) = is_returned (replay idle acts) ≡ true
IsOrderly (acts, again next) = replay idle acts ≡ idle

follow-is_returned :
    (p : List Action × Verdict) (k : Loop → List Action × Option Result)
    → IsOrderly p
    → ((l : Loop) → is_returned (replay idle (k l).0) ≡ true)
    → is_returned (replay idle (follow p k).0) ≡ true
unfolding follow
follow-is_returned (acts, done r) k h kh = h
follow-is_returned (acts, again next) k h kh =
    ap is_returned (replay-append idle acts (k next).0 ∙ ap (λ p. replay p (k next).0) h) ∙ kh next

module _ (s : Settings) where
  round-IsOrderly : (l : Loop) (a : Attempt) → HandlerReturns a.outcome → IsOrderly (round s l a)
  unfolding round
  round-IsOrderly l a returns = ground arith

  rounds-is_returned :
      (fuel : ℕ) (env : ℕ → Attempt) (l : Loop)
      → ((n : ℕ) → HandlerReturns (env n).outcome)
      → is_returned (replay idle (rounds s fuel env l).0) ≡ true
  unfolding rounds
  rounds-is_returned zero env l returns = refl
  rounds-is_returned (suc fuel) env l returns =
      follow-is_returned (round s l (env l.attempt)) (rounds s fuel env)
        (round-IsOrderly l (env l.attempt) (returns l.attempt))
        (λ next. rounds-is_returned fuel env next returns)

  -- However the attempts of a request go, where neither the unauthorized handler nor the telemetry of its
  -- retry raises: each attempt
  -- takes the slot, sends once while it holds it and returns it once, and the request ends with the
  -- slot returned. A slot whose attempt is followed by another is returned only after a pause is
  -- published (`defer`, `defer_outage`) or a refresh of the token is decided.
  pub send_request_orderly :
      (fuel : ℕ) (env : ℕ → Attempt)
      → ((n : ℕ) → HandlerReturns (env n).outcome)
      → is_returned (replay idle (send_request s fuel env).0) ≡ true
  unfolding send_request
  send_request_orderly fuel env returns = rounds-is_returned fuel env start returns
