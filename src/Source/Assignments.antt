-- ===== src/Source/Assignments.antt =====
-- `application_group_assignment_rows` of source.py: the groups of an application, duplicates dropped.
use openhound_okta.Base.{
  ◌≡◌, ◌⊎◌, refl, sym, subst, Bool, true, false, ◌||◌, Option, none, some, String, List, [], ◌∷◌,
  map, arith, ◌==◌, string_eq, contains, if◌then◌else◌, Option-cases, Bool-cases, inl, inr, All,
  All-mono,
}
use openhound_okta.Base.Dict.{Dict, lookup, insert, lookup-insert}
use openhound_okta.Base.Dedupe.{Distinct}
use openhound_okta.Oin.Validators.{Setting, null, text, other, Strip}
use openhound_okta.Source.Listings.{invalid, Stream}

-- One item of a page: a mapping with what stands under `id`, its fingerprint, and what a row takes of it, or something
-- else. The fingerprint is `none` where `_application_group_assignment_fingerprint` raises.
pub data Item {ℓ} (A : Type ℓ) : Type ℓ where
  no_mapping : Item A
  assignment : Setting → Option String → A → Item A

pub record Row {ℓ} (A : Type ℓ) : Type ℓ where
  pub group_id : String
  pub evidence : A

abbrev known : Dict String String → String → Bool
known fingerprints id = elim (lookup id fingerprints) [ none ↦ false | some _ ↦ true ]

known-insert :
    (id group_id fingerprint : String) (fingerprints : Dict String String)
    → known (insert group_id fingerprint fingerprints) id
      ≡ (id == group_id || known fingerprints id)
known-insert id group_id fingerprint fingerprints =
    ground (arith, lookup-insert id group_id fingerprint fingerprints)

module _ {ℓ} {A : Type ℓ} where
  -- The fingerprint of an item and what a row takes of it.
  unfoldable pub fingerprint_of : Item A → Option (String × A)
  fingerprint_of no_mapping = none
  fingerprint_of (assignment id none evidence) = none
  fingerprint_of (assignment id (some fingerprint) evidence) = some (fingerprint, evidence)

  abbrev pub fails : String → Stream (Row A)
  fails reason = record { items = []; failure = some (invalid reason) }

  abbrev pub yields : Row A → Stream (Row A) → Stream (Row A)
  yields row later = record { items = row ∷ later.items; failure = later.failure }

  -- One item, when the fingerprint of its group so far is known, and the two ways on.
  unfoldable pub judge :
      String → String → A → Option String → Stream (Row A) → Stream (Row A) → Stream (Row A)
  judge group_id fingerprint evidence none fresh old =
      yields (record { group_id = group_id; evidence = evidence }) fresh
  judge group_id fingerprint evidence (some previous) fresh old =
      if previous == fingerprint then old else fails "conflicting"

  abbrev pub id_of_row : Row A → String
  id_of_row row = row.group_id

  -- The rows of groups that are not known yet, each group once.
  abbrev AreFresh : Dict String String → List (Row A) → Type 0
  AreFresh fingerprints rows =
      Distinct id_of_row rows
      × ((id : String) → known fingerprints id ≡ true → contains (map id_of_row rows) id ≡ false)

  judge-AreFresh :
      (group_id fingerprint : String) (evidence : A) (fingerprints : Dict String String)
      (fresh old : Stream (Row A))
      → AreFresh (insert group_id fingerprint fingerprints) fresh.items
      → AreFresh fingerprints old.items
      → AreFresh fingerprints
          (judge group_id fingerprint evidence (lookup group_id fingerprints) fresh old).items
  unfolding judge
  judge-AreFresh group_id fingerprint evidence fingerprints fresh old (distinct, apart) h =
      elim (Option-cases (lookup group_id fingerprints)) [
        | inl e ↦ rw e (
          (
            apart group_id
                (ground (arith, known-insert group_id group_id fingerprint fingerprints)),
            distinct,
          ),
          λ id there.
              ground (arith, e, known-insert id group_id fingerprint fingerprints, apart id),
        )
        | inr (previous, e) ↦ elim (Bool-cases (previous == fingerprint)) [
          | inl same ↦ rw (e, same) h
          | inr differ ↦ rw (e, differ) (tt, λ id there. refl)
        ]
      ]

  -- A stream that goes on after an item yields its row, or drops it as an equal duplicate.
  judge_lem :
      (group_id fingerprint : String) (evidence : A) (o : Option String)
      (fresh old : Stream (Row A))
      → (judge group_id fingerprint evidence o fresh old).failure ≡ none
      → ((fresh.failure ≡ none)
          × (judge group_id fingerprint evidence o fresh old
              ≡ yields (record { group_id = group_id; evidence = evidence }) fresh))
        ⊎ ((o ≡ some fingerprint)
            × (old.failure ≡ none)
            × (judge group_id fingerprint evidence o fresh old ≡ old))
  unfolding judge
  judge_lem group_id fingerprint evidence none fresh old h = inl (h, refl)
  judge_lem group_id fingerprint evidence (some previous) fresh old h =
      elim (Bool-cases (previous == fingerprint)) [
        | inl same ↦ inr (ground arith, rw (same, judge) at h, rw (same, judge) refl)
        | inr differ ↦ absurd (cc (rw (differ, judge) at h))
      ]

module _ {ℓ} {A : Type ℓ} (strip : Strip) where
  -- The group of an item, if it is usable.
  unfoldable pub usable_group_id : Item A → Option String
  usable_group_id no_mapping = none
  usable_group_id (assignment (text s) fingerprint evidence) =
      if strip s == "" then none else some (strip s)
  usable_group_id (assignment null fingerprint evidence) = none
  usable_group_id (assignment (other _ _) fingerprint evidence) = none

  -- The loop over the items of all pages, with `assignment_fingerprints`.
  unfoldable pub rows_of : Dict String String → List (Item A) → Stream (Row A)
  unfolding usable_group_id fingerprint_of judge lookup insert
  rows_of fingerprints [] = record { items = []; failure = none }
  rows_of fingerprints (item ∷ items) = elim (usable_group_id item) [
    | none ↦ fails "unusable"
    | some group_id ↦ elim (fingerprint_of item) [
      | none ↦ fails "non-JSON"
      | some (fingerprint, evidence) ↦
          judge group_id fingerprint evidence (lookup group_id fingerprints)
            (rows_of (insert group_id fingerprint fingerprints) items) (rows_of fingerprints items)
    ]
  ]

  -- `application_group_assignment_rows`
  unfoldable pub application_group_assignment_rows : List (Item A) → Stream (Row A)
  unfolding rows_of
  application_group_assignment_rows items = rows_of [] items

  rows_of-AreFresh :
      (fingerprints : Dict String String) (items : List (Item A))
      → AreFresh fingerprints (rows_of fingerprints items).items
  unfolding rows_of
  rows_of-AreFresh fingerprints [] = (tt, λ id h. refl)
  rows_of-AreFresh fingerprints (item ∷ items) = elim (Option-cases (usable_group_id item)) [
    | inl e ↦ rw (rows_of, e) (tt, λ id h. refl)
    | inr (group_id, e) ↦ elim (Option-cases (fingerprint_of item)) [
      | inl f ↦ rw (rows_of, e, f) (tt, λ id h. refl)
      | inr ((fingerprint, evidence), f) ↦
          rw (rows_of, e, f)
            (judge-AreFresh group_id fingerprint evidence fingerprints
              (rows_of (insert group_id fingerprint fingerprints) items)
              (rows_of fingerprints items)
              (rows_of-AreFresh (insert group_id fingerprint fingerprints) items)
              (rows_of-AreFresh fingerprints items))
    ]
  ]

  -- A usable item whose group is known or has a row.
  abbrev IsCovered : Dict String String → List (Row A) → Item A → Type 0
  IsCovered fingerprints rows item =
      (group_id : String) × (usable_group_id item ≡ some group_id)
      × ((known fingerprints group_id || contains (map id_of_row rows) group_id) ≡ true)

  judge-IsCovered :
      (group_id fingerprint : String) (evidence : A) (fingerprints : Dict String String)
      (fresh old : Stream (Row A)) (item : Item A) (items : List (Item A))
      → usable_group_id item ≡ some group_id
      → (fresh.failure ≡ none
          → All (IsCovered (insert group_id fingerprint fingerprints) fresh.items) items)
      → (old.failure ≡ none → All (IsCovered fingerprints old.items) items)
      → (judge group_id fingerprint evidence (lookup group_id fingerprints) fresh old).failure
        ≡ none
      → All
          (IsCovered fingerprints
            (judge group_id fingerprint evidence (lookup group_id fingerprints) fresh old).items)
          (item ∷ items)
  judge-IsCovered group_id fingerprint evidence fingerprints fresh old item items e new again h =
      let row : Row A = record { group_id = group_id; evidence = evidence } in
      elim (judge_lem group_id fingerprint evidence (lookup group_id fingerprints) fresh old h) [
        | inl (ended, same) ↦
            subst (λ s. All (IsCovered fingerprints s.items) (item ∷ items)) (sym same)
              (
                (group_id, e, ground arith),
                All-mono (IsCovered fingerprints (yields row fresh).items)
                    (λ later (id, usable, covered). (
                      id,
                      usable,
                      ground (arith, known-insert id group_id fingerprint fingerprints),
                    ))
                    items (new ended),
              )
        | inr (there, ended, same) ↦
            subst (λ s. All (IsCovered fingerprints s.items) (item ∷ items)) (sym same)
              ((group_id, e, ground (arith, there)), again ended)
      ]

  rows_of-IsCovered :
      (fingerprints : Dict String String) (items : List (Item A))
      → (rows_of fingerprints items).failure ≡ none
      → All (IsCovered fingerprints (rows_of fingerprints items).items) items
  unfolding rows_of
  rows_of-IsCovered fingerprints [] h = tt
  rows_of-IsCovered fingerprints (item ∷ items) h = elim (Option-cases (usable_group_id item)) [
    | inl e ↦ absurd (cc (rw (e, rows_of) at h))
    | inr (group_id, e) ↦ elim (Option-cases (fingerprint_of item)) [
      | inl f ↦ absurd (cc (rw (f, rows_of) at (rw (e, rows_of) at h)))
      | inr ((fingerprint, evidence), f) ↦
          let fresh = rows_of (insert group_id fingerprint fingerprints) items in
          let old = rows_of fingerprints items in
          let step : rows_of fingerprints (item ∷ items)
              ≡ judge group_id fingerprint evidence (lookup group_id fingerprints) fresh old =
            rw (rows_of, e, f) refl in
          subst (λ s. All (IsCovered fingerprints s.items) (item ∷ items)) (sym step)
            (judge-IsCovered group_id fingerprint evidence fingerprints fresh old item items e
              (rows_of-IsCovered (insert group_id fingerprint fingerprints) items)
              (rows_of-IsCovered fingerprints items) (subst (λ s. s.failure ≡ none) step h))
    ]
  ]

  -- If the stream of an application's groups ends without an exception, every item had a usable group, each group of
  -- an item has a row, and no group has two.
  pub application_group_assignment_rows_lem :
      (items : List (Item A))
      → (application_group_assignment_rows items).failure ≡ none
      → Distinct id_of_row (application_group_assignment_rows items).items
        × All
            (λ item.
              (group_id : String) × (usable_group_id item ≡ some group_id)
              × (contains (map id_of_row (application_group_assignment_rows items).items) group_id
                  ≡ true))
            items
  unfolding application_group_assignment_rows
  application_group_assignment_rows_lem items h =
      ((rows_of-AreFresh [] items).0, rows_of-IsCovered [] items h)
