-- ===== src/Source/Listings.antt =====
-- Streams of source.py: the groups with smaller pages after read timeouts, the factors of users, the groups of an
-- application.
use openhound_okta.Base.{
  ℕ, ◌≡◌, ◌⊎◌, refl, ap, Bool, true, false, Option, none, some, String, List, [], ◌∷◌, ◌++◌, map,
  string_eq, nat_eq, if◌then◌else◌, Bool-cases, inl, inr, All,
}
use openhound_okta.Oin.Declarative.{is_empty}
use openhound_okta.Source.Claims.{claim}

-- An exception: retries that are exhausted, with the status and whether a read timeout caused it, or any other.
pub data Failure : Type 0 where
  exhausted : Option ℕ → Bool → Failure
  invalid : String → Failure

-- What a generator yields, and the exception that ends it, if any.
pub record Stream {ℓ} (A : Type ℓ) : Type ℓ where
  pub items : List A
  pub failure : Option Failure

-- What a listing answers: it has no page, its first page fails, or pages come until it ends or fails.
pub data Listing {ℓ} (A : Type ℓ) : Type ℓ where
  no_pages : Listing A
  fails_first : Failure → Listing A
  pages : List A → List (List A) → Option Failure → Listing A

-- `_is_read_timeout_retry_exhaustion`
unfoldable pub is_read_timeout_retry_exhaustion : Failure → Bool
is_read_timeout_retry_exhaustion (exhausted none read_timeout) = read_timeout
is_read_timeout_retry_exhaustion (exhausted (some status) read_timeout) = false
is_read_timeout_retry_exhaustion (invalid reason) = false

module _ {ℓ} {A : Type ℓ} where
  unfoldable pub concat : List (List A) → List A
  concat [] = []
  concat (page ∷ rest) = page ++ concat rest

  -- The stream of one listing.
  unfoldable pub stream_of : Listing A → Stream A
  unfolding concat
  stream_of no_pages = record { items = []; failure = none }
  stream_of (fails_first failure) = record { items = []; failure = some failure }
  stream_of (pages first rest failure) = record { items = first ++ concat rest; failure = failure }

  -- The first page timed out.
  unfoldable pub timed_out : Listing A → Bool
  unfolding is_read_timeout_retry_exhaustion
  timed_out no_pages = false
  timed_out (fails_first failure) = is_read_timeout_retry_exhaustion failure
  timed_out (pages first rest failure) = false

  -- `groups`: the loop over the page sizes, with the listing of each.
  unfoldable pub groups : (ℕ → Listing A) → List ℕ → Stream A
  unfolding stream_of timed_out
  groups listing [] = record { items = []; failure = none }
  groups listing (size ∷ []) = stream_of (listing size)
  groups listing (size ∷ next ∷ sizes) =
      let smaller = groups listing (next ∷ sizes) in
      if timed_out (listing size) then smaller else stream_of (listing size)

  -- The groups come from one listing alone, so no group is read twice over; the listings with larger pages all timed
  -- out on their first page, and this one did not, unless no smaller page size is left.
  pub groups_lem :
      (listing : ℕ → Listing A) (size : ℕ) (sizes : List ℕ)
      → (before after : List ℕ) × (used : ℕ) × (size ∷ sizes ≡ before ++ (used ∷ after))
        × All (λ s. timed_out (listing s) ≡ true) before
        × (groups listing (size ∷ sizes) ≡ stream_of (listing used))
        × ((timed_out (listing used) ≡ false) ⊎ (after ≡ []))
  unfolding groups
  groups_lem listing size [] = ([], [], size, refl, tt, refl, inr refl)
  groups_lem listing size (next ∷ sizes) = elim (Bool-cases (timed_out (listing size))) [
    | inr fine ↦ ([], next ∷ sizes, size, refl, tt, rw (groups, fine) refl, inl fine)
    | inl late ↦
        let (before, after, used, split, all_late, same, last) = groups_lem listing next sizes in
        (
          size ∷ before,
          after,
          used,
          ap (λ xs. size ∷ xs) split,
          (late, all_late),
          rw (groups, late) same,
          last,
        )
  ]

abbrev pub has_failed : Option Failure → Bool
has_failed none = false
has_failed (some failure) = true

-- A row of a user's factors: a factor, or the marker of a user that has none.
pub record FactorRow {ℓ} (A : Type ℓ) : Type ℓ where
  pub user_id : String
  pub factor : Option A

module _ {ℓ} {A : Type ℓ} where
  abbrev row_of : String → A → FactorRow A
  row_of user_id factor = record { user_id = user_id; factor = some factor }

  -- `rows or [{"user_id": user_id}]`
  unfoldable pub rows_or_marker : String → List A → List (FactorRow A)
  rows_or_marker user_id [] = record { user_id = user_id; factor = none } ∷ []
  rows_or_marker user_id (factor ∷ factors) = map (row_of user_id) (factor ∷ factors)

  -- The rows, once the listing is read to its end.
  unfoldable pub factor_rows : String → List A → Option Failure → Stream (FactorRow A)
  unfolding rows_or_marker
  factor_rows user_id factors none = record {
    items = rows_or_marker user_id factors;
    failure = none;
  }
  factor_rows user_id factors (some (exhausted status read_timeout)) = record {
    items = [];
    failure = some (exhausted status read_timeout);
  }
  factor_rows user_id factors (some (invalid reason)) = record { items = []; failure = none }

  -- `user_factor_rows`: a list of rows is built before any is yielded.
  unfoldable pub user_factor_rows : String → Listing A → Stream (FactorRow A)
  unfolding stream_of factor_rows
  user_factor_rows user_id listing =
      factor_rows user_id (stream_of listing).items (stream_of listing).failure

  -- `user_factors`: only the stream that claims a user fetches its factors.
  unfoldable pub user_factors :
      String → Listing A → List String → Stream (FactorRow A) × List String
  unfolding user_factor_rows claim
  user_factors user_id listing claimed =
      let (granted, claimed') = claim user_id claimed in
      (
        if granted then user_factor_rows user_id listing else record { items = []; failure = none },
        claimed',
      )

  -- The factors among the rows.
  abbrev pub factors_of : List (FactorRow A) → List A
  factors_of [] = []
  factors_of (row ∷ rows) = elim row.factor [
    | none ↦ factors_of rows
    | some factor ↦ factor ∷ factors_of rows
  ]

  factors_of-map :
      (user_id : String) (factors : List A) → factors_of (map (row_of user_id) factors) ≡ factors
  factors_of-map user_id [] = refl
  factors_of-map user_id (factor ∷ factors) =
      ap (λ xs. factor ∷ xs) (factors_of-map user_id factors)

  factors_of-rows :
      (user_id : String) (factors : List A) → factors_of (rows_or_marker user_id factors) ≡ factors
  unfolding rows_or_marker
  factors_of-rows user_id [] = refl
  factors_of-rows user_id (factor ∷ factors) = factors_of-map user_id (factor ∷ factors)

  rows_or_marker-some :
      (user_id : String) (factors : List A) → is_empty (rows_or_marker user_id factors) ≡ false
  unfolding rows_or_marker
  rows_or_marker-some user_id [] = refl
  rows_or_marker-some user_id (factor ∷ factors) = refl

  rows_lem :
      (user_id : String) (factors : List A) (failure : Option Failure)
      → (is_empty (factor_rows user_id factors failure).items ≡ has_failed failure)
        × (factors_of (factor_rows user_id factors failure).items
            ≡ (if has_failed failure then [] else factors))
  unfolding factor_rows
  rows_lem user_id factors none =
      (rows_or_marker-some user_id factors, factors_of-rows user_id factors)
  rows_lem user_id factors (some (exhausted status read_timeout)) = (refl, refl)
  rows_lem user_id factors (some (invalid reason)) = (refl, refl)

  -- The rows of a user never understate the factors: they hold all factors of the listing if it ended well, and there
  -- is then at least one row; if the listing failed, on whichever page, there is no row at all.
  pub user_factor_rows_lem :
      (user_id : String) (listing : Listing A)
      → (is_empty (user_factor_rows user_id listing).items ≡ has_failed (stream_of listing).failure)
        × (factors_of (user_factor_rows user_id listing).items
            ≡ (if has_failed (stream_of listing).failure then [] else (stream_of listing).items))
  unfolding user_factor_rows
  user_factor_rows_lem user_id listing =
      rows_lem user_id (stream_of listing).items (stream_of listing).failure
