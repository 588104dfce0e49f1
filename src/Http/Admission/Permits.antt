-- ===== src/Http/Admission/Permits.antt =====
-- Slots and permits are conserved by every event, aborted waits included, so none leaks and none is
-- returned twice.
use openhound_okta.Base.{
  ℕ, zero, suc, ◌+◌, ◌≤◌, ◌≡◌, refl, inl, inr, Bool, true, false, some, List, [], ◌∷◌, arith,
  get_elem?, set, total, total-set, Bool-cases, Option-cases, nat_eq, if◌then◌else◌,
}
use openhound_okta.Http.Org
use openhound_okta.Http.Throttle.{try_book}
use openhound_okta.Http.Admission.{
  Phase, outside, parked, gated, in_flight, System, Event, take_slot, take_permit, book, abort,
  finish, other_call, other_takes, other_gives, org_defers, ◌>>=◌, moved, step_at, request_of, step,
  run,
}

abbrev pub holds_slot : Phase → ℕ
holds_slot outside = 0
holds_slot parked = 1
holds_slot gated = 1
holds_slot in_flight = 1

abbrev pub holds_permit : Phase → ℕ
holds_permit outside = 0
holds_permit parked = 0
holds_permit gated = 1
holds_permit in_flight = 1

-- What is left of each semaphore and what is held make up its limit.
pub record IsConserved (s : System) : Type 0 where
  pub slots : s.slots.value + total holds_slot s.requests ≡ s.slots.limit
  pub permits : s.org.gate.value + total holds_permit s.requests + s.others ≡ s.org.gate.limit

-- The same semaphores, of the same size.
pub record SameLimits (s t : System) : Type 0 where
  pub slots : t.slots.limit ≡ s.slots.limit
  pub permits : t.org.gate.limit ≡ s.org.gate.limit

abbrev Keeps : System → System → Type 0
Keeps s t = IsConserved t × SameLimits s t

step_at-Keeps :
    (e : Event) (p : Phase) (s t : System)
    → get_elem? s.requests (request_of e) ≡ some p
    → step_at e p s ≡ some t
    → IsConserved s
    → Keeps s t
unfolding step_at request_of
step_at-Keeps (take_slot i) outside s t q h c = ground (
  arith,
  total-set holds_slot s.requests i parked q,
  total-set holds_permit s.requests i parked q,
)
step_at-Keeps (take_permit i) parked s t q h c =
    ground (
      arith,
      total-set holds_slot s.requests i gated q,
      total-set holds_permit s.requests i gated q,
    )
step_at-Keeps (book i now) gated s t q h c = ground (
  arith,
  total-set holds_slot s.requests i in_flight q,
  total-set holds_permit s.requests i in_flight q,
  total-set holds_slot s.requests i parked q,
  total-set holds_permit s.requests i parked q,
)
step_at-Keeps (abort i) parked s t q h c = ground (
  arith,
  total-set holds_slot s.requests i outside q,
  total-set holds_permit s.requests i outside q,
)
step_at-Keeps (abort i) gated s t q h c = ground (
  arith,
  total-set holds_slot s.requests i outside q,
  total-set holds_permit s.requests i outside q,
)
step_at-Keeps (finish i) in_flight s t q h c = ground (
  arith,
  total-set holds_slot s.requests i outside q,
  total-set holds_permit s.requests i outside q,
)
step_at-Keeps _ _ s t q h c = cc

request-Keeps :
    (e : Event) (s t : System)
    → (get_elem? s.requests (request_of e) >>= λ p. step_at e p s) ≡ some t
    → IsConserved s
    → Keeps s t
request-Keeps e s t h c = elim (Option-cases (get_elem? s.requests (request_of e))) [
  | inl q ↦ cc
  | inr (p, q) ↦ step_at-Keeps e p s t q (rw q at h) c
]

-- A pause leaves the permits alone.
defer-gate : (now delay : ℕ) (o : Org.OrgThrottle) → (Org.defer now delay o).1.gate ≡ o.gate
unfolding Org.defer
defer-gate now delay o = ground arith

step-Keeps : (e : Event) (s t : System) → step e s ≡ some t → IsConserved s → Keeps s t
unfolding step
step-Keeps (other_call x) s t h c = ground arith
step-Keeps (org_defers now delay) s t h c = ground (arith, defer-gate now delay s.org)
step-Keeps other_takes s t h c = ground arith
step-Keeps other_gives s t h c = ground arith
step-Keeps (take_slot i) s t h c = request-Keeps (take_slot i) s t h c
step-Keeps (take_permit i) s t h c = request-Keeps (take_permit i) s t h c
step-Keeps (book i now) s t h c = request-Keeps (book i now) s t h c
step-Keeps (abort i) s t h c = request-Keeps (abort i) s t h c
step-Keeps (finish i) s t h c = request-Keeps (finish i) s t h c

-- From conserved semaphores, any run of events, waits that were aborted by an exception included, ends
-- with each semaphore adding up to its size, which is unchanged: what is left and what the requests
-- (and, of the org gate, the other families) hold.
pub run-IsConserved :
    (es : List Event) (s t : System)
    → run es s ≡ some t
    → IsConserved s
    → IsConserved t × SameLimits s t
unfolding run
run-IsConserved [] s t h c = ground arith
run-IsConserved (e ∷ es) s t h c = elim (Option-cases (step e s)) [
  | inl q ↦ absurd (cc (rw (q, run) at h))
  | inr (u, q) ↦
      let (c', l) = step-Keeps e s u q c in
      let (c'', l') = run-IsConserved es u t (rw q at h) c' in (c'', ground arith)
]

total-weight-le :
    (w v : Phase → ℕ) → ((p : Phase) → w p ≤ v p) → (ps : List Phase) → total w ps ≤ total v ps
total-weight-le w v h [] = omega arith
total-weight-le w v h (p ∷ ps) = omega (arith, h p, total-weight-le w v h ps)

abbrev pub flies : Phase → ℕ
flies in_flight = 1
flies _ = 0

flies-le-holds_slot : (p : Phase) → flies p ≤ holds_slot p
flies-le-holds_slot outside = omega arith
flies-le-holds_slot _ = omega arith

flies-le-holds_permit : (p : Phase) → flies p ≤ holds_permit p
flies-le-holds_permit outside = omega arith
flies-le-holds_permit _ = omega arith

-- After any run from conserved semaphores, the requests of the family in flight never outnumber its slots,
-- nor, with the permits that other families hold, the permits of the org.
pub in_flight_bounded :
    (es : List Event) (s t : System)
    → run es s ≡ some t
    → IsConserved s
    → (total flies t.requests ≤ s.slots.limit)
      × (total flies t.requests + t.others ≤ s.org.gate.limit)
in_flight_bounded es s t h c =
    let (c', l) = run-IsConserved es s t h c in
    (
      omega (arith, total-weight-le flies holds_slot flies-le-holds_slot t.requests),
      omega (arith, total-weight-le flies holds_permit flies-le-holds_permit t.requests),
    )

total-pos :
    (w : Phase → ℕ) (ps : List Phase) (i : ℕ) (p : Phase)
    → get_elem? ps i ≡ some p
    → w p ≤ total w ps
total-pos w [] i p h = cc
total-pos w (q ∷ ps) zero p h = ground arith
total-pos w (q ∷ ps) (suc i) p h = omega (arith, total-pos w ps i p h)

get_elem?-set-some :
    (ps : List Phase) (i : ℕ) (p q : Phase)
    → get_elem? ps i ≡ some p
    → get_elem? (set ps i q) i ≡ some q
get_elem?-set-some [] i p q h = cc
get_elem?-set-some (x ∷ ps) zero p q h = refl
get_elem?-set-some (x ∷ ps) (suc i) p q h = get_elem?-set-some ps i p q h

-- The system after a request has left, and what it held was returned.
abbrev pub with_slot : System → System
with_slot s = record s { slots = record s.slots { value = s.slots.value + 1 } }

abbrev pub with_permit : System → System
with_permit s = record s {
  org = record s.org { gate = record s.org.gate { value = s.org.gate.value + 1 } };
}

-- Where the semaphores are conserved, `release` of a request in flight never raises: both take back the
-- slot and the permit.
pub finish_succeeds :
    (i : ℕ) (s : System)
    → IsConserved s
    → get_elem? s.requests i ≡ some in_flight
    → step (finish i) s ≡ some (moved i outside (with_slot (with_permit s)))
unfolding step
finish_succeeds i s c h = ground (
  arith,
  total-pos holds_slot s.requests i in_flight h,
  total-pos holds_permit s.requests i in_flight h,
)

-- The phases inside `acquire`, and what the handler of an exception returns there.
abbrev pub waits : Phase → Bool
waits parked = true
waits gated = true
waits _ = false

abbrev pub after_abort : Phase → System → System
after_abort gated s = with_slot (with_permit s)
after_abort _ s = with_slot s

-- Where the semaphores are conserved, the handler of an exception inside `acquire` never raises: a parked
-- request returns its slot, a gated one its permit too.
pub abort_succeeds :
    (i : ℕ) (p : Phase) (s : System)
    → IsConserved s
    → get_elem? s.requests i ≡ some p
    → waits p ≡ true
    → step (abort i) s ≡ some (moved i outside (after_abort p s))
unfolding step
abort_succeeds i parked s c h w = ground (arith, total-pos holds_slot s.requests i parked h)
abort_succeeds i gated s c h w =
    ground (
      arith,
      total-pos holds_slot s.requests i gated h,
      total-pos holds_permit s.requests i gated h,
    )
abort_succeeds i outside s c h w = cc
abort_succeeds i in_flight s c h w = cc

-- Where the semaphores are conserved, the booking of a gated request never raises: the request is in
-- flight afterwards if `_try_book` succeeded, and parked again if it did not.
pub book_succeeds :
    (i now : ℕ) (s : System)
    → IsConserved s
    → get_elem? s.requests i ≡ some gated
    → (t : System) × (step (book i now) s ≡ some t)
      × (get_elem? t.requests i
          ≡ some (if (try_book now (Org.allows now s.org) s.throttle).0 then in_flight else parked))
unfolding step
book_succeeds i now s c h = elim (Bool-cases (try_book now (Org.allows now s.org) s.throttle).0) [
  | inl yes' ↦ (
    moved i in_flight (record s { throttle = (try_book now (Org.allows now s.org) s.throttle).1 }),
    ground arith,
    ground (arith, get_elem?-set-some s.requests i gated in_flight h),
  )
  | inr no' ↦ (
    moved i parked (with_permit s),
    ground (arith, total-pos holds_permit s.requests i gated h),
    ground (arith, get_elem?-set-some s.requests i gated parked h),
  )
]
