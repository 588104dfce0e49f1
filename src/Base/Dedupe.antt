-- ===== src/Base/Dedupe.antt =====
-- Keeping the first item of each key: a loop with a set of the keys seen, and what it keeps.
use openhound_okta.Base.{
  ◌≡◌, refl, true, false, Option, none, some, List, [], ◌∷◌, arith, Eq, ◌==◌, contains,
  if◌then◌else◌, map, Bool-cases, inl, inr, All, All,
}

module _ {ℓ κ} {A : Type ℓ} {K : Type κ} ⦃e : Eq K⦄ (key : A → K) where
  -- `for x in xs: if key(x) not in seen: seen.add(key(x)); out.append(x)`
  unfoldable pub first_by_loop : List K → List A → List A
  first_by_loop seen [] = []
  first_by_loop seen (x ∷ xs) =
      let skipped = first_by_loop seen xs in
      let kept = first_by_loop (key x ∷ seen) xs in
      if contains seen (key x) then skipped else x ∷ kept

  unfoldable pub first_by : List A → List A
  unfolding first_by_loop
  first_by xs = first_by_loop [] xs

  -- The first item of a key.
  abbrev pub find_key : K → List A → Option A
  find_key k [] = none
  find_key k (x ∷ xs) = if k == key x then some x else find_key k xs

  -- No key occurs twice.
  abbrev pub Distinct : List A → Type 0
  Distinct [] = Unit
  Distinct (x ∷ xs) = (contains (map key xs) (key x) ≡ false) × Distinct xs

  find_key-first_by_loop :
      (k : K) (seen : List K) (xs : List A)
      → find_key k (first_by_loop seen xs) ≡ (if contains seen k then none else find_key k xs)
  unfolding first_by_loop
  find_key-first_by_loop k seen [] = ground arith
  find_key-first_by_loop k seen (x ∷ xs) =
      ground (arith, find_key-first_by_loop k seen xs, find_key-first_by_loop k (key x ∷ seen) xs)

  -- For every key the first item with it is kept.
  pub find_key-first_by : (k : K) (xs : List A) → find_key k (first_by xs) ≡ find_key k xs
  unfolding first_by
  find_key-first_by k xs = find_key-first_by_loop k [] xs

  fresh_in_loop :
      (k : K) (seen : List K) (xs : List A)
      → contains seen k ≡ true
      → contains (map key (first_by_loop seen xs)) k ≡ false
  unfolding first_by_loop
  fresh_in_loop k seen [] h = refl
  fresh_in_loop k seen (x ∷ xs) h =
      ground (arith, fresh_in_loop k seen xs h, fresh_in_loop k (key x ∷ seen) xs)

  first_by_loop-Distinct : (seen : List K) (xs : List A) → Distinct (first_by_loop seen xs)
  unfolding first_by_loop
  first_by_loop-Distinct seen [] = tt
  first_by_loop-Distinct seen (x ∷ xs) = elim (Bool-cases (contains seen (key x))) [
    | inl old ↦ rw old (first_by_loop-Distinct seen xs)
    | inr new ↦ rw new (
      fresh_in_loop (key x) (key x ∷ seen) xs (ground arith),
      first_by_loop-Distinct (key x ∷ seen) xs,
    )
  ]

  pub first_by-Distinct : (xs : List A) → Distinct (first_by xs)
  unfolding first_by
  first_by-Distinct xs = first_by_loop-Distinct [] xs

  -- Something is kept of a list that has items.
  pub first_by-nil : (xs : List A) → first_by xs ≡ [] → xs ≡ []
  unfolding first_by
  first_by-nil [] h = refl
  first_by-nil (x ∷ xs) h = cc

  All-first_by_loop {μ} :
      (P : A → Type μ) (seen : List K) (xs : List A) → All P xs → All P (first_by_loop seen xs)
  unfolding first_by_loop
  All-first_by_loop P seen [] h = tt
  All-first_by_loop P seen (x ∷ xs) (p, ps) = elim (Bool-cases (contains seen (key x))) [
    | inl old ↦ rw old (All-first_by_loop P seen xs ps)
    | inr new ↦ rw new (p, All-first_by_loop P (key x ∷ seen) xs ps)
  ]

  -- What holds of all items holds of those that are kept.
  pub All-first_by {μ} : (P : A → Type μ) (xs : List A) → All P xs → All P (first_by xs)
  unfolding first_by
  All-first_by P xs h = All-first_by_loop P [] xs h

  contains-first_by_loop :
      (k : K) (seen : List K) (xs : List A)
      → contains (map key (first_by_loop seen xs)) k
        ≡ (if contains seen k then false else contains (map key xs) k)
  unfolding first_by_loop
  contains-first_by_loop k seen [] = ground arith
  contains-first_by_loop k seen (x ∷ xs) =
      ground (arith, contains-first_by_loop k seen xs, contains-first_by_loop k (key x ∷ seen) xs)

  -- The keys that are kept are the keys there were.
  pub contains-first_by :
      (k : K) (xs : List A) → contains (map key (first_by xs)) k ≡ contains (map key xs) k
  unfolding first_by
  contains-first_by k xs = contains-first_by_loop k [] xs
