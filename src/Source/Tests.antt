-- ===== src/Source/Tests.antt =====
-- The breaker and the page sizes at concrete inputs.
use openhound_okta.Base.{
  ◌≡◌, refl, true, false, String, List, [], ◌∷◌, ◌++◌, contains, string_eq, nat_eq, if◌then◌else◌,
  ℕ, ◌⊎◌, none, some, map, All, ◌==◌,
}
use openhound_okta.Base.Int.{ℤ}
use openhound_okta.Base.Results.{ok}
use openhound_okta.Telemetry.Templates.{normalize_limiter_group}
use openhound_okta.Source.Families.{
  api_rate_limit_endpoints, fnmatch, endpoint_family, endpoint_family_lem,
}
use openhound_okta.Source.Breaker.{
  Breaker, Outcome, success, access_denied, init, record_success, record_access_denied, records,
}
use openhound_okta.Base.Dedupe.{Distinct}
use openhound_okta.Oin.Declarative.{is_empty}
use openhound_okta.Oin.Validators.{text}
use openhound_okta.Source.Listings.{
  Listing, fails_first, pages, exhausted, invalid, stream_of, timed_out, groups, groups_lem,
  user_factor_rows, user_factor_rows_lem, factors_of, has_failed,
}
use openhound_okta.Source.Assignments.{
  Item, assignment, usable_group_id, application_group_assignment_rows,
  application_group_assignment_rows_lem, id_of_row,
}

abbrev of_two : Breaker
of_two = record { limit = 2; consecutive_denials = 0; tripped = false }

abbrev some_outcomes : List Outcome
some_outcomes = access_denied ∷ success ∷ access_denied ∷ access_denied ∷ access_denied ∷ []

two_is_accepted : init (ℤ.pos 2) ≡ ok of_two
unfolding init
two_is_accepted = refl

it_trips : (records some_outcomes of_two).1.tripped ≡ true
unfolding records record_success record_access_denied
it_trips = refl

-- The largest pages time out.
abbrev slow : ℕ → Listing String
slow page_size =
    if page_size == 200
    then fails_first (exhausted none true)
    else pages ("g1" ∷ []) (("g2" ∷ []) ∷ []) none

smaller_pages_serve : (groups slow (200 ∷ 100 ∷ 50 ∷ [])).items ≡ "g1" ∷ "g2" ∷ []
unfolding groups nat_eq
smaller_pages_serve = refl

groups_lem_example :
    (before after : List ℕ) × (used : ℕ) × (200 ∷ 100 ∷ 50 ∷ [] ≡ before ++ (used ∷ after))
    × All (λ s. timed_out (slow s) ≡ true) before
    × (groups slow (200 ∷ 100 ∷ 50 ∷ []) ≡ stream_of (slow used))
    × ((timed_out (slow used) ≡ false) ⊎ (after ≡ []))
groups_lem_example = groups_lem slow 200 (100 ∷ 50 ∷ [])

-- The second page fails.
abbrev broken : Listing String
broken = pages ("sms" ∷ []) [] (some (invalid "no JSON"))

user_factor_rows_lem_example :
    (is_empty (user_factor_rows "u" broken).items ≡ has_failed (stream_of broken).failure)
    × (factors_of (user_factor_rows "u" broken).items
        ≡ (if has_failed (stream_of broken).failure then [] else (stream_of broken).items))
user_factor_rows_lem_example = user_factor_rows_lem "u" broken

abbrev twice : List (Item String)
twice = assignment (text "g1") (some "f") "p" ∷ assignment (text "g1") (some "f") "p" ∷ []

duplicates_end_well : (application_group_assignment_rows (λ s. s) twice).failure ≡ none
unfolding application_group_assignment_rows string_eq
duplicates_end_well = refl

conflicts_are_raised :
    (application_group_assignment_rows {A = String}
      (λ s. s)
      (assignment (text "g1") (some "f") "p" ∷ assignment (text "g1") (some "h") "p" ∷ [])).failure
    ≡ some (invalid "conflicting")
unfolding application_group_assignment_rows string_eq
conflicts_are_raised = refl

application_group_assignment_rows_lem_example :
    Distinct id_of_row (application_group_assignment_rows (λ s. s) twice).items
    × All
        (λ item.
          (group_id : String) × (usable_group_id (λ s. s) item ≡ some group_id)
          × (contains
                (map id_of_row (application_group_assignment_rows (λ s. s) twice).items)
                group_id
              ≡ true))
        twice
application_group_assignment_rows_lem_example =
    application_group_assignment_rows_lem (λ s. s) twice duplicates_end_well

factors_family : endpoint_family "/api/v1/users/00u1/factors" ≡ "/api/v1/users/*"
unfolding endpoint_family string_eq nat_eq
factors_family = refl

endpoint_family_lem_example :
    (contains api_rate_limit_endpoints (endpoint_family "/api/v1/users/00u1/factors") ≡ true)
    × (fnmatch (endpoint_family "/api/v1/users/00u1/factors") "/api/v1/users/00u1/factors" ≡ true)
    × (normalize_limiter_group (some (endpoint_family "/api/v1/users/00u1/factors"))
        ≡ endpoint_family "/api/v1/users/00u1/factors")
endpoint_family_lem_example = endpoint_family_lem "/api/v1/users/00u1/factors"
