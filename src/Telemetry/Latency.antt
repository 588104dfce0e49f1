-- ===== src/Telemetry/Latency.antt =====
-- `LatencyDistribution` of telemetry.py. Durations are whole microseconds, and their sum is exact: the
-- rounding of the source's floating-point seconds is not modelled.
pub mod Merge
pub mod Quantiles
use openhound_okta.Base.{
  ℕ, zero, suc, ◌+◌, ◌*◌, min, max, ◌≡◌, Bool, Option, none, some, List, [], ◌∷◌, map, leb, ◌==◌,
  nat_eq, if◌then◌else◌,
}
use openhound_okta.Base.Int.{ℤ, excess}

-- `_LATENCY_BUCKETS_MS`
abbrev pub latency_buckets_ms : List ℕ
latency_buckets_ms =
    1 ∷ 5 ∷ 10 ∷ 25 ∷ 50 ∷ 100 ∷ 250 ∷ 500 ∷ 1000 ∷ 2500 ∷ 5000 ∷ 10000 ∷ 30000 ∷ []

pub record LatencyDistribution : Type 0 where
  pub count : ℕ
  pub total : ℕ
  pub minimum : Option ℕ
  pub maximum : Option ℕ
  pub buckets : List ℕ

-- One bucket for each bound and one above them.
abbrev pub zeros : List ℕ → List ℕ
zeros [] = 0 ∷ []
zeros (_ ∷ bounds) = 0 ∷ zeros bounds

abbrev pub empty : LatencyDistribution
empty = record {
  count = 0;
  total = 0;
  minimum = none;
  maximum = none;
  buckets = zeros latency_buckets_ms;
}

abbrev pub join : (ℕ → ℕ → ℕ) → Option ℕ → Option ℕ → Option ℕ
join f o none = o
join f none (some b) = some b
join f (some a) (some b) = some (f a b)

-- `buckets[-1] += 1`
unfoldable pub bump_last : List ℕ → List ℕ
bump_last [] = []
bump_last (n ∷ []) = suc n ∷ []
bump_last (n ∷ m ∷ ns) = n ∷ bump_last (m ∷ ns)

-- The loop over the bounds, with the buckets that are left.
unfoldable pub bump : List ℕ → ℕ → List ℕ → List ℕ
unfolding bump_last
bump [] duration ns = bump_last ns
bump (bound ∷ bounds) duration [] = []
bump (bound ∷ bounds) duration (n ∷ ns) =
    let rest = bump bounds duration ns in
    if leb duration (bound * 1000) then suc n ∷ ns else n ∷ rest

-- A negative duration counts as 0.
unfoldable pub observe : ℤ → LatencyDistribution → LatencyDistribution
unfolding bump
observe seconds d =
    let duration = excess seconds 0 in
    record {
      count = d.count + 1;
      total = d.total + duration;
      minimum = join min d.minimum (some duration);
      maximum = join max d.maximum (some duration);
      buckets = bump latency_buckets_ms duration d.buckets;
    }

-- `[left + right for left, right in zip(xs, ys)]`
unfoldable pub zip_add : List ℕ → List ℕ → List ℕ
zip_add (x ∷ xs) (y ∷ ys) = (x + y) ∷ zip_add xs ys
zip_add _ _ = []

-- `d.merge(other)`
unfoldable pub merge : LatencyDistribution → LatencyDistribution → LatencyDistribution
unfolding zip_add
merge d other = if other.count == 0 then d else record {
  count = d.count + other.count;
  total = d.total + other.total;
  minimum = join min d.minimum other.minimum;
  maximum = join max d.maximum other.maximum;
  buckets = zip_add d.buckets other.buckets;
}

-- The distribution of a list of durations.
unfoldable pub observe_all : List ℤ → LatencyDistribution → LatencyDistribution
unfolding observe
observe_all [] d = d
observe_all (seconds ∷ rest) d = observe_all rest (observe seconds d)
