-- ===== src/Telemetry/Latency/Quantiles.antt =====
-- `LatencyDistribution._quantile_upper_bound` of telemetry.py, and what it says of the durations.
use openhound_okta.Base.{
  ℕ, ◌+◌, ◌*◌, ◌/◌, ◌≤◌, ◌<◌, ◌≡◌, refl, subst, Bool, true, false, ◌&&◌, Option, none, some, List,
  [], ◌∷◌, arith, leb, ltb, ◌==◌, nat_eq, contains, if◌then◌else◌, Bool-cases, inl, inr, length,
}
use openhound_okta.Base.Int.{ℤ, excess}
use openhound_okta.Telemetry.Latency.{
  LatencyDistribution, latency_buckets_ms, empty, zeros, bump, bump_last, observe, observe_all,
}

-- The loop over the bounds and the buckets; `none` is "+Inf".
unfoldable pub bound_at : ℕ → ℕ → List ℕ → List ℕ → Option ℕ
bound_at target cumulative [] ns = none
bound_at target cumulative (bound ∷ bounds) [] = none
bound_at target cumulative (bound ∷ bounds) (n ∷ ns) =
    let later = bound_at target (cumulative + n) bounds ns in
    if leb target (cumulative + n) then some bound else later

-- `math.ceil(count * quantile)`, with the quantile in percent.
unfoldable pub target_of : ℕ → ℕ → ℕ
target_of count percent = (count * percent + 99) / 100

-- `_quantile_upper_bound`
unfoldable pub quantile_upper_bound : ℕ → LatencyDistribution → Option (Option ℕ)
unfolding bound_at target_of
quantile_upper_bound percent d =
    if d.count == 0
    then none
    else some (bound_at (target_of d.count percent) 0 latency_buckets_ms d.buckets)

abbrev all_above : ℕ → List ℕ → Bool
all_above b [] = true
all_above b (c ∷ cs) = ltb b c && all_above b cs

abbrev is_sorted : List ℕ → Bool
is_sorted [] = true
is_sorted (c ∷ cs) = all_above c cs && is_sorted cs

-- The items in the buckets up to a bound.
abbrev upto : ℕ → List ℕ → List ℕ → ℕ
upto b [] ns = 0
upto b (c ∷ cs) [] = 0
upto b (c ∷ cs) (n ∷ ns) = (if leb c b then n else 0) + upto b cs ns

-- The durations, in microseconds, that are no longer than a bound in milliseconds.
abbrev pub within : ℕ → List ℤ → ℕ
within b [] = 0
within b (seconds ∷ rest) = (if leb (excess seconds 0) (b * 1000) then 1 else 0) + within b rest

-- A bucket for each bound and one more.
abbrev fits : List ℕ → List ℕ → Bool
fits [] [] = false
fits [] (n ∷ []) = true
fits [] (n ∷ m ∷ ns) = false
fits (c ∷ cs) [] = false
fits (c ∷ cs) (n ∷ ns) = fits cs ns

above-contains : (b c : ℕ) (cs : List ℕ) → all_above c cs ≡ true → contains cs b ≡ true → c < b
above-contains b c [] h m = cc
above-contains b c (d ∷ ds) h m = ground (arith, above-contains b c ds)

upto-above : (b : ℕ) (cs ns : List ℕ) → all_above b cs ≡ true → upto b cs ns ≡ 0
upto-above b [] ns h = refl
upto-above b (c ∷ cs) [] h = refl
upto-above b (c ∷ cs) (n ∷ ns) h = ground (arith, upto-above b cs ns)

bump-fits :
    (bounds : List ℕ) (duration : ℕ) (ns : List ℕ)
    → fits bounds ns ≡ true
    → fits bounds (bump bounds duration ns) ≡ true
unfolding bump bump_last
bump-fits [] duration [] h = cc
bump-fits [] duration (n ∷ []) h = refl
bump-fits [] duration (n ∷ m ∷ ns) h = cc
bump-fits (c ∷ cs) duration [] h = cc
bump-fits (c ∷ cs) duration (n ∷ ns) h = ground (arith, bump-fits cs duration ns)

upto-bump :
    (b : ℕ) (bounds : List ℕ) (duration : ℕ) (ns : List ℕ)
    → is_sorted bounds ≡ true
    → contains bounds b ≡ true
    → fits bounds ns ≡ true
    → upto b bounds (bump bounds duration ns)
      ≡ upto b bounds ns + (if leb duration (b * 1000) then 1 else 0)
unfolding bump
upto-bump b [] duration ns s m f = cc
upto-bump b (c ∷ cs) duration [] s m f = cc
upto-bump b (c ∷ cs) duration (n ∷ ns) s m f = ground (
  arith,
  above-contains b c cs,
  upto-above b cs ns,
  upto-above b cs (bump cs duration ns),
  upto-bump b cs duration ns,
)

bound_at_lem :
    (target cumulative : ℕ) (bounds ns : List ℕ) (b : ℕ)
    → is_sorted bounds ≡ true
    → bound_at target cumulative bounds ns ≡ some b
    → (contains bounds b ≡ true) × (target ≤ cumulative + upto b bounds ns)
unfolding bound_at
bound_at_lem target cumulative [] ns b s h = cc
bound_at_lem target cumulative (c ∷ cs) [] b s h = cc
bound_at_lem target cumulative (c ∷ cs) (n ∷ ns) b s h =
    ground (arith, bound_at_lem target (cumulative + n) cs ns b, above-contains b c cs)

-- The buckets after a list of durations.
abbrev bumps : List ℕ → List ℤ → List ℕ → List ℕ
bumps bounds [] ns = ns
bumps bounds (seconds ∷ rest) ns = bumps bounds rest (bump bounds (excess seconds 0) ns)

upto-bumps :
    (b : ℕ) (bounds : List ℕ) (samples : List ℤ) (ns : List ℕ)
    → is_sorted bounds ≡ true
    → contains bounds b ≡ true
    → fits bounds ns ≡ true
    → upto b bounds (bumps bounds samples ns) ≡ upto b bounds ns + within b samples
upto-bumps b bounds [] ns s m f = omega arith
upto-bumps b bounds (seconds ∷ rest) ns s m f =
    let next = bump bounds (excess seconds 0) ns in
    ground (
      arith,
      upto-bumps b bounds rest next s m (bump-fits bounds (excess seconds 0) ns f),
      upto-bump b bounds (excess seconds 0) ns s m f,
    )

observe_all-buckets :
    (samples : List ℤ) (d : LatencyDistribution)
    → ((observe_all samples d).buckets ≡ bumps latency_buckets_ms samples d.buckets)
      × ((observe_all samples d).count ≡ d.count + length samples)
unfolding observe_all observe
observe_all-buckets [] d = (refl, omega arith)
observe_all-buckets (seconds ∷ rest) d =
    let (same, counted) = observe_all-buckets rest (observe seconds d) in
    (same, omega (arith, counted))

upto-zeros : (b : ℕ) (bounds : List ℕ) → upto b bounds (zeros bounds) ≡ 0
upto-zeros b [] = refl
upto-zeros b (c ∷ cs) = ground (arith, upto-zeros b cs)

fits-zeros : (bounds : List ℕ) → fits bounds (zeros bounds) ≡ true
fits-zeros [] = refl
fits-zeros (c ∷ cs) = fits-zeros cs

-- The same for any sorted bounds.
bound_holds :
    (bounds : List ℕ) (target b : ℕ) (samples : List ℤ)
    → is_sorted bounds ≡ true
    → bound_at target 0 bounds (bumps bounds samples (zeros bounds)) ≡ some b
    → (contains bounds b ≡ true) × (target ≤ within b samples)
bound_holds bounds target b samples s h =
    let (inside, reached) =
      bound_at_lem target 0 bounds (bumps bounds samples (zeros bounds)) b s h in
    let counted = upto-bumps b bounds samples (zeros bounds) s inside (fits-zeros bounds) in
    (inside, omega (arith, reached, counted, upto-zeros b bounds))

quantile_reached :
    (percent b : ℕ) (d : LatencyDistribution)
    → quantile_upper_bound percent d ≡ some (some b)
    → bound_at (target_of d.count percent) 0 latency_buckets_ms d.buckets ≡ some b
unfolding quantile_upper_bound
quantile_reached percent b d h = elim (Bool-cases (d.count == 0)) [
  | inl zero_count ↦ absurd (cc (rw (quantile_upper_bound, zero_count) at h))
  | inr counted ↦ cc (rw (quantile_upper_bound, counted) at h)
]

-- The bound that is told for a percentage is one of the histogram's, and at least that share of the durations observed,
-- rounded up, are no longer than it.
pub quantile_upper_bound_lem :
    (percent b : ℕ) (samples : List ℤ)
    → quantile_upper_bound percent (observe_all samples empty) ≡ some (some b)
    → (contains latency_buckets_ms b ≡ true)
      × (target_of (length samples) percent ≤ within b samples)
quantile_upper_bound_lem percent b samples h =
    let (buckets, counted) = observe_all-buckets samples empty in
    let count : (observe_all samples empty).count ≡ length samples = omega (arith, counted) in
    bound_holds latency_buckets_ms (target_of (length samples) percent) b samples refl (
      subst (λ ns. bound_at (target_of (length samples) percent) 0 latency_buckets_ms ns ≡ some b)
        buckets
        (subst
          (λ n.
            bound_at (target_of n percent) 0 latency_buckets_ms (observe_all samples empty).buckets
            ≡ some b)
          count (quantile_reached percent b (observe_all samples empty) h)))
