-- ===== src/Telemetry/Latency/Merge.antt =====
-- Merging distributions, against observing all their durations in one.
use openhound_okta.Base.{
  ℕ, suc, ◌+◌, min, max, ◌≡◌, refl, ap, sym, ◌∙◌, Option, none, some, List, [], ◌∷◌, ◌++◌, arith,
  ◌==◌, nat_eq, length, sum, Bool-cases, inl, inr,
}
use openhound_okta.Base.Int.{ℤ, excess}
use openhound_okta.Telemetry.Latency.{
  LatencyDistribution, latency_buckets_ms, zeros, empty, join, bump_last, bump, observe, zip_add,
  merge, observe_all,
}

-- There is a bucket for each bound and one above them, and the buckets add up to the count.
pub record IsCounted (d : LatencyDistribution) : Type 0 where
  pub many : length d.buckets ≡ suc (length latency_buckets_ms)
  pub adds_up : sum d.buckets ≡ d.count

bump_last_lem :
    (n : ℕ) (ns : List ℕ)
    → (length (bump_last (n ∷ ns)) ≡ suc (length ns))
      × (sum (bump_last (n ∷ ns)) ≡ suc (n + sum ns))
unfolding bump_last
bump_last_lem n [] = ground arith
bump_last_lem n (m ∷ ns) = ground (arith, bump_last_lem m ns)

bump_lem :
    (bounds : List ℕ) (duration : ℕ) (ns : List ℕ)
    → length ns ≡ suc (length bounds)
    → (length (bump bounds duration ns) ≡ length ns)
      × (sum (bump bounds duration ns) ≡ suc (sum ns))
unfolding bump
bump_lem [] duration (n ∷ ns) h = ground (arith, bump_last_lem n ns)
bump_lem bounds duration [] h = absurd (omega (arith, h))
bump_lem (bound ∷ bounds) duration (n ∷ ns) h = ground (arith, bump_lem bounds duration ns)

observe-IsCounted : (s : ℤ) (d : LatencyDistribution) → IsCounted d → IsCounted (observe s d)
unfolding observe
observe-IsCounted s d c =
    let (same, more) = bump_lem latency_buckets_ms (excess s 0) d.buckets c.many in
    record { many = same ∙ c.many; adds_up = omega (arith, more, c.adds_up) }

zip_add-bump_last :
    (xs ys : List ℕ) → length xs ≡ length ys → zip_add xs (bump_last ys) ≡ bump_last (zip_add xs ys)
unfolding zip_add bump_last
zip_add-bump_last [] [] h = refl
zip_add-bump_last [] (y ∷ ys) h = refl
zip_add-bump_last (x ∷ xs) [] h = refl
zip_add-bump_last (x ∷ []) (y ∷ []) h = ground arith
zip_add-bump_last (x ∷ x' ∷ xs) (y ∷ y' ∷ ys) h =
    ap (λ ns. (x + y) ∷ ns) (zip_add-bump_last (x' ∷ xs) (y' ∷ ys) (omega (arith, h)))
zip_add-bump_last (x ∷ x' ∷ xs) (y ∷ []) h = absurd (omega (arith, h))
zip_add-bump_last (x ∷ []) (y ∷ y' ∷ ys) h = absurd (omega (arith, h))

zip_add-bump :
    (bounds : List ℕ) (duration : ℕ) (xs ys : List ℕ)
    → length xs ≡ length ys
    → zip_add xs (bump bounds duration ys) ≡ bump bounds duration (zip_add xs ys)
unfolding zip_add bump
zip_add-bump [] duration xs ys h = zip_add-bump_last xs ys h
zip_add-bump (bound ∷ bounds) duration [] [] h = refl
zip_add-bump (bound ∷ bounds) duration (x ∷ xs) (y ∷ ys) h =
    ground (arith, zip_add-bump bounds duration xs ys)
zip_add-bump (bound ∷ bounds) duration [] (y ∷ ys) h = cc
zip_add-bump (bound ∷ bounds) duration (x ∷ xs) [] h = cc

zip_add-zeros :
    (bounds xs : List ℕ) → length xs ≡ suc (length bounds) → zip_add xs (zeros bounds) ≡ xs
unfolding zip_add
zip_add-zeros [] (x ∷ []) h = ground arith
zip_add-zeros [] (x ∷ y ∷ xs) h = absurd (omega (arith, h))
zip_add-zeros bounds [] h = absurd (omega (arith, h))
zip_add-zeros (bound ∷ bounds) (x ∷ xs) h = ground (arith, zip_add-zeros bounds xs)

length-zip_add : (xs ys : List ℕ) → length xs ≡ length ys → length (zip_add xs ys) ≡ length xs
unfolding zip_add
length-zip_add [] ys h = refl
length-zip_add (x ∷ xs) [] h = absurd (omega (arith, h))
length-zip_add (x ∷ xs) (y ∷ ys) h = omega (arith, length-zip_add xs ys (omega (arith, h)))

join_assoc :
    (f : ℕ → ℕ → ℕ)
    → ((a b c : ℕ) → f a (f b c) ≡ f (f a b) c)
    → (o p : Option ℕ) (n : ℕ) → join f o (join f p (some n)) ≡ join f (join f o p) (some n)
join_assoc f assoc none none n = refl
join_assoc f assoc none (some b) n = refl
join_assoc f assoc (some a) none n = refl
join_assoc f assoc (some a) (some b) n = ap some (assoc a b n)

same_fields :
    (d e : LatencyDistribution)
    → d.count ≡ e.count
    → d.total ≡ e.total
    → d.minimum ≡ e.minimum
    → d.maximum ≡ e.maximum
    → d.buckets ≡ e.buckets
    → d ≡ e
same_fields d e c t m n b =
    λ i. record { count = c i; total = t i; minimum = m i; maximum = n i; buckets = b i }

-- A distribution of no durations is the empty one.
record IsClean (d : LatencyDistribution) : Type 0 where
  many : length d.buckets ≡ suc (length latency_buckets_ms)
  fresh : d.count ≡ 0 → d ≡ empty

observe-IsClean : (s : ℤ) (d : LatencyDistribution) → IsClean d → IsClean (observe s d)
unfolding observe
observe-IsClean s d c = record {
  many = (bump_lem latency_buckets_ms (excess s 0) d.buckets c.many).0 ∙ c.many;
  fresh = λ h. absurd (omega (arith, h));
}

-- The merge of a distribution that has durations.
abbrev added : LatencyDistribution → LatencyDistribution → LatencyDistribution
added d e = record {
  count = d.count + e.count;
  total = d.total + e.total;
  minimum = join min d.minimum e.minimum;
  maximum = join max d.maximum e.maximum;
  buckets = zip_add d.buckets e.buckets;
}

module _ (d : LatencyDistribution) (many : length d.buckets ≡ suc (length latency_buckets_ms)) where
  added-empty : added d empty ≡ d
  added-empty =
      same_fields (added d empty) d (omega arith) (omega arith) refl refl
        (zip_add-zeros latency_buckets_ms d.buckets many)

  merge-added : (e : LatencyDistribution) → IsClean e → merge d e ≡ added d e
  unfolding merge
  merge-added e c = elim (Bool-cases (e.count == 0)) [
    | inl zeroed ↦ rw zeroed (sym (ap (added d) (c.fresh (ground (arith, zeroed))) ∙ added-empty))
    | inr positive ↦ rw positive refl
  ]

  added-observe :
      (s : ℤ) (e : LatencyDistribution) → IsClean e → added d (observe s e) ≡ observe s (added d e)
  unfolding observe
  added-observe s e c =
      same_fields (added d (observe s e)) (observe s (added d e)) (omega arith) (omega arith)
        (join_assoc min (λ x y z. omega arith) d.minimum e.minimum (excess s 0))
        (join_assoc max (λ x y z. omega arith) d.maximum e.maximum (excess s 0))
        (zip_add-bump latency_buckets_ms (excess s 0) d.buckets e.buckets (many ∙ sym c.many))

  merge-observe_all :
      (s : List ℤ) (e : LatencyDistribution)
      → IsClean e
      → merge d (observe_all s e) ≡ observe_all s (merge d e)
  unfolding observe_all
  merge-observe_all [] e c = refl
  merge-observe_all (s ∷ rest) e c =
      merge-observe_all rest (observe s e) (observe-IsClean s e c)
      ∙ ap (observe_all rest) (
          merge-added (observe s e) (observe-IsClean s e c)
          ∙ added-observe s e c
          ∙ ap (observe s) (sym (merge-added e c)))

observe_all-append :
    (xs ys : List ℤ) (d : LatencyDistribution)
    → observe_all (xs ++ ys) d ≡ observe_all ys (observe_all xs d)
unfolding observe_all
observe_all-append [] ys d = refl
observe_all-append (x ∷ xs) ys d = observe_all-append xs ys (observe x d)

-- However many durations were observed, each is in one bucket, and there is a bucket for each bound and one
-- above them.
pub observe_all-IsCounted :
    (xs : List ℤ) (d : LatencyDistribution) → IsCounted d → IsCounted (observe_all xs d)
unfolding observe_all
observe_all-IsCounted [] d c = c
observe_all-IsCounted (x ∷ xs) d c =
    observe_all-IsCounted xs (observe x d) (observe-IsCounted x d c)

-- Merging the distributions of two lists of durations gives the distribution of both lists together.
pub merge_lem :
    (xs ys : List ℤ)
    → merge (observe_all xs empty) (observe_all ys empty) ≡ observe_all (xs ++ ys) empty
unfolding merge nat_eq
merge_lem xs ys =
    merge-observe_all (observe_all xs empty)
      (observe_all-IsCounted xs empty (record { many = refl; adds_up = refl })).many ys empty
      (record { many = refl; fresh = λ h. refl })
    ∙ sym (observe_all-append xs ys empty)
