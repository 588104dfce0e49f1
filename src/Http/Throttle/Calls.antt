-- ===== src/Http/Throttle/Calls.antt =====
-- The calls that the threads of one family make of `EndpointThrottle`, in the order in which its lock
-- lets them in.
use openhound_okta.Base.{ℕ, Bool, List, [], ◌∷◌}
use openhound_okta.Http.Throttle.{
  Throttle, begin_http_request, end_http_request, try_book, defer, Reading, observe,
}

-- A call with the clock readings that it makes. `hold` is `defer`, `see` is `observe_response`.
pub data Call : Type 0 where
  begin finish : Call
  book : ℕ → Bool → Call
  hold : ℕ → ℕ → ℕ → Call
  see : ℕ → ℕ → Reading → Call

unfoldable pub call : Call → Throttle → Throttle
call begin t = begin_http_request t
call finish t = end_http_request t
call (book now org_allows) t = (try_book now org_allows t).1
call (hold now delay minimum_interval) t = (defer now delay minimum_interval t).1
call (see wall now reading) t = observe wall now reading t

unfoldable pub calls : List Call → Throttle → Throttle
unfolding call
calls [] t = t
calls (c ∷ cs) t = calls cs (call c t)
