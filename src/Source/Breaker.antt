-- ===== src/Source/Breaker.antt =====
-- `ConsecutiveAccessDeniedBreaker` of source.py. Each method holds the lock, so the threads' calls are a list.
use openhound_okta.Base.{
  ℕ, zero, suc, ◌+◌, ◌≤◌, ◌<◌, ◌≡◌, ◌⊎◌, refl, ap, Bool, true, false, String, List, [], ◌∷◌, ◌++◌,
  arith, leb, if◌then◌else◌, inl, inr, subst,
}
use openhound_okta.Base.Int.{ℤ, at_most, excess}
use openhound_okta.Base.Results.{Result, ok, err}

pub record Breaker : Type 0 where
  pub limit : ℕ
  pub consecutive_denials : ℕ
  pub tripped : Bool

unfoldable pub init : ℤ → Result String Breaker
init limit =
    if at_most limit 0
    then err "limit must be at least 1"
    else ok (record { limit = excess limit 0; consecutive_denials = 0; tripped = false })

unfoldable pub record_success : Breaker → Breaker
record_success b = record b { consecutive_denials = 0 }

unfoldable pub record_access_denied : Breaker → Bool × Breaker
record_access_denied b =
    if b.tripped
    then (false, b)
    else (let counted = record b { consecutive_denials = suc b.consecutive_denials } in
        if leb b.limit (suc b.consecutive_denials)
        then (true, record counted { tripped = true })
        else (false, counted))

-- What the callers record.
pub data Outcome : Type 0 where
  success access_denied : Outcome

-- The calls in order, and how many of them returned `True`.
unfoldable pub records : List Outcome → Breaker → ℕ × Breaker
unfolding record_success record_access_denied
records [] b = (0, b)
records (success ∷ os) b = records os (record_success b)
records (access_denied ∷ os) b =
    let (trips, b') = record_access_denied b in
    let (n, b'') = records os b' in ((if trips then 1 else 0) + n, b'')

abbrev pub denials : ℕ → List Outcome
denials zero = []
denials (suc n) = access_denied ∷ denials n

tripped_stays :
    (os : List Outcome) (b : Breaker)
    → b.tripped ≡ true
    → ((records os b).0 ≡ 0) × ((records os b).1.tripped ≡ true)
unfolding records
tripped_stays [] b h = (refl, h)
tripped_stays (success ∷ os) b h = tripped_stays os (record_success b) (ground arith)
tripped_stays (access_denied ∷ os) b h = ground (arith, tripped_stays os b h)

-- However the calls of the threads fall, exactly one of them is told that it trips the breaker if the breaker
-- ends tripped, and none is if it does not.
pub trips_once :
    (os : List Outcome) (b : Breaker)
    → b.tripped ≡ false
    → (records os b).0 ≡ (if (records os b).1.tripped then 1 else 0)
unfolding records
trips_once [] b h = ground arith
trips_once (success ∷ os) b h = trips_once os (record_success b) h
trips_once (access_denied ∷ os) b h =
    ground
      (arith, tripped_stays os (record_access_denied b).1, trips_once os (record_access_denied b).1)

counts :
    (b : Breaker)
    → b.tripped ≡ false
    → suc b.consecutive_denials < b.limit
    → (record_access_denied b).1 ≡ record b { consecutive_denials = suc b.consecutive_denials }
unfolding record_access_denied
counts b h l = ground arith

-- The outcomes hold a run of `limit` denials, or begin with what is left of one.
abbrev pub HasRun : ℕ → List Outcome → Type 0
HasRun limit os =
    (before : List Outcome) × (after : List Outcome) × (os ≡ before ++ (denials limit ++ after))

run_left :
    (os : List Outcome) (b : Breaker) (left : ℕ)
    → b.tripped ≡ false
    → b.consecutive_denials + left ≡ b.limit
    → 0 < left
    → (records os b).1.tripped ≡ true
    → ((after : List Outcome) × (os ≡ denials left ++ after)) ⊎ HasRun b.limit os
unfolding records
run_left [] b left h e p t = cc
run_left (success ∷ os) b left h e p t =
    elim (run_left os (record_success b) b.limit h (omega arith) (omega arith) t) [
      | inl r ↦ inr (success ∷ [], r.0, ap (λ rest. success ∷ rest) r.1)
      | inr r ↦ inr (success ∷ r.0, r.1, ap (λ rest. success ∷ rest) r.2)
    ]
run_left (access_denied ∷ os) b zero h e p t = absurd (omega arith)
run_left (access_denied ∷ os) b (suc zero) h e p t = inl (os, refl)
run_left (access_denied ∷ os) b (suc (suc n)) h e p t =
    elim (run_left os (record b { consecutive_denials = suc b.consecutive_denials }) (suc n) h
      (omega arith) (omega arith)
      (subst (λ c. (records os c).1.tripped ≡ true) (counts b h (omega arith)) t)) [
        | inl r ↦ inl (r.0, ap (λ rest. access_denied ∷ rest) r.1)
        | inr r ↦ inr (access_denied ∷ r.0, r.1, ap (λ rest. access_denied ∷ rest) r.2)
      ]

-- A new breaker is tripped only by a run of `limit` denials with no success between them.
pub trips_after_run :
    (limit : ℤ) (b : Breaker) (os : List Outcome)
    → init limit ≡ ok b
    → (records os b).1.tripped ≡ true
    → HasRun b.limit os
unfolding init
trips_after_run limit b os e t =
    elim (run_left os b b.limit (ground arith) (ground arith) (ground arith) t) [
      | inl r ↦ ([], r.0, r.1)
      | inr r ↦ r
    ]

denials_trip :
    (n : ℕ) (after : List Outcome) (b : Breaker)
    → b.limit ≤ b.consecutive_denials + n
    → 0 < n
    → (records (denials n ++ after) b).1.tripped ≡ true
unfolding records
denials_trip zero after b l p = absurd (omega arith)
denials_trip (suc n) after b l p =
    let b' = (record_access_denied b).1 in
    ground (arith, tripped_stays (denials n ++ after) b', denials_trip n after b')

same_limit : (b : Breaker) → (record_access_denied b).1.limit ≡ b.limit
unfolding record_access_denied
same_limit b = ground arith

-- A run of `limit` denials, at least one, trips the breaker for good, whatever comes before and after it.
pub run_trips :
    (before after : List Outcome) (b : Breaker)
    → 0 < b.limit
    → (records (before ++ (denials b.limit ++ after)) b).1.tripped ≡ true
unfolding records
run_trips [] after b p = denials_trip b.limit after b (omega arith) p
run_trips (success ∷ before) after b p = run_trips before after (record_success b) p
run_trips (access_denied ∷ before) after b p =
    let b' = (record_access_denied b).1 in
    subst (λ n. (records (before ++ (denials n ++ after)) b').1.tripped ≡ true) (same_limit b)
      (run_trips before after b' (ground (arith, same_limit b)))
