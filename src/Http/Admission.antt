-- ===== src/Http/Admission.antt =====
-- `EndpointThrottle.acquire` and `release` of utils/http.py, for all requests of one family at once.
-- A request is somewhere in `acquire`, in flight, or outside; an event moves one of them. Other
-- families take and return permits of the shared org gate, and push its deadline. A throttle that has
-- no `OrgThrottle` (`org_throttle=None`) is not modelled.
pub mod Permits
use openhound_okta.Base.{
  ℕ, zero, suc, ◌+◌, ◌-◌, ◌≤◌, Bool, true, false, Option, none, some, List, [], ◌∷◌, leb, ltb,
  if◌then◌else◌, get_elem?, set, total, ◌==◌, nat_eq,
}
use openhound_okta.Http.Semaphore.{Semaphore, take_one, give_back}
use openhound_okta.Http.Org
use openhound_okta.Http.Org.{OrgThrottle}
use openhound_okta.Http.Throttle.{Throttle, try_book}
use openhound_okta.Http.Throttle.Calls.{Call, call}

pub data Phase : Type 0 where
  -- not in `acquire`, or past `release`
  outside : Phase
  -- holds a family slot and waits for the deadlines and the permit
  parked : Phase
  -- holds a slot and a permit, before `_try_book`
  gated : Phase
  -- past `acquire`, with a slot and a permit
  in_flight : Phase

pub record System : Type 0 where
  pub slots : Semaphore
  pub org : OrgThrottle
  pub throttle : Throttle
  pub requests : List Phase
  -- permits that the other families hold
  pub others : ℕ

pub data Event : Type 0 where
  -- `self._semaphore.acquire()`
  take_slot : ℕ → Event
  -- both waits are over, and `self._org_throttle.acquire()`
  take_permit : ℕ → Event
  -- `_try_book` with a clock reading; on failure the permit is returned
  book : ℕ → ℕ → Event
  -- an exception inside `acquire`
  abort : ℕ → Event
  -- `release`
  finish : ℕ → Event
  -- a call that leaves the semaphores alone
  other_call : Call → Event
  other_takes other_gives : Event
  -- `OrgThrottle.defer`, by any family, with a clock reading and a delay
  org_defers : ℕ → ℕ → Event

-- An action on the semaphores; `none` if it blocks or raises.
infixl 5 ◌>>=◌
abbrev pub ◌>>=◌ {ℓ κ} : {A : Type ℓ} {B : Type κ} → Option A → (A → Option B) → Option B
none >>= f = none
some a >>= f = f a

unfoldable pub take_slot_of : System → Option System
unfolding take_one
take_slot_of s = do slots ← take_one s.slots; some (record s { slots = slots })

unfoldable pub give_slot_of : System → Option System
unfolding give_back
give_slot_of s = do slots ← give_back s.slots; some (record s { slots = slots })

unfoldable pub take_permit_of : System → Option System
unfolding Org.acquire
take_permit_of s = do org ← Org.acquire s.org; some (record s { org = org })

unfoldable pub give_permit_of : System → Option System
unfolding Org.release
give_permit_of s = do org ← Org.release s.org; some (record s { org = org })

abbrev pub moved : ℕ → Phase → System → System
moved i p s = record s { requests = set s.requests i p }

-- `book` for a gated request.
unfoldable pub book_gated : ℕ → ℕ → System → Option System
unfolding give_permit_of
book_gated i now s =
    let (booked, throttle) = try_book now (Org.allows now s.org) s.throttle in
    if booked
    then some (moved i in_flight (record s { throttle = throttle }))
    else do s' ← give_permit_of s; some (moved i parked s')

-- The event for the request's phase; `none` where the request is not there for it.
unfoldable pub step_at : Event → Phase → System → Option System
unfolding take_slot_of give_slot_of take_permit_of give_permit_of book_gated
step_at (take_slot i) outside s = do s' ← take_slot_of s; some (moved i parked s')
step_at (take_permit i) parked s = do s' ← take_permit_of s; some (moved i gated s')
step_at (book i now) gated s = book_gated i now s
step_at (abort i) parked s = do s' ← give_slot_of s; some (moved i outside s')
step_at (abort i) gated s = do
  s' ← give_permit_of s
  s'' ← give_slot_of s'
  some (moved i outside s'')
step_at (finish i) in_flight s = do
  s' ← give_permit_of s
  s'' ← give_slot_of s'
  some (moved i outside s'')
step_at _ _ s = none

unfoldable pub request_of : Event → ℕ
request_of (take_slot i) = i
request_of (take_permit i) = i
request_of (book i _) = i
request_of (abort i) = i
request_of (finish i) = i
request_of _ = 0

unfoldable pub step : Event → System → Option System
unfolding step_at request_of take_permit_of give_permit_of
step (other_call c) s = some (record s { throttle = call c s.throttle })
step (org_defers now delay) s = some (record s { org = (Org.defer now delay s.org).1 })
step other_takes s = do s' ← take_permit_of s; some (record s' { others = s'.others + 1 })
step other_gives s =
    if s.others == 0
    then none
    else do s' ← give_permit_of s; some (record s' { others = s'.others - 1 })
step e s = do p ← get_elem? s.requests (request_of e); step_at e p s

unfoldable pub run : List Event → System → Option System
unfolding step
run [] s = some s
run (e ∷ es) s = do s' ← step e s; run es s'
