-- ===== src/Saml/AcsRows.antt =====
-- `_saml_acs_rows` of models/saml.py: a row for each route, under an id of its own.
use openhound_okta.Base.{
  ℕ, zero, suc, ◌+◌, ◌≡◌, ◌≢◌, ◌≤◌, refl, ap, true, false, Option, none, some, String, List, [],
  ◌∷◌, map, arith, ◌<>◌, nat_eq, leb, contains, if◌then◌else◌, Option-cases, inl, inr, length,
}
use openhound_okta.Base.Dedupe.{Distinct}
use openhound_okta.Oin.Contract.{SamlRouteEvidence}

-- The id of a row, by its index, the index that is shown, and the route.
pub record Row : Type 0 where
  pub id_index : ℕ
  pub index : ℕ
  pub route : SamlRouteEvidence

abbrev pub index_of_row : Row → ℕ
index_of_row row = row.id_index

-- `while id_index in used_id_indexes: id_index += 1`, `none` where the fuel is spent.
unfoldable pub next_free : ℕ → List ℕ → ℕ → Option ℕ
next_free zero used id_index = none
next_free (suc fuel) used id_index =
    let later = next_free fuel used (suc id_index) in
    if contains used id_index then later else some id_index

-- `preferred_id_index`
unfoldable pub preferred : Option ℕ → ℕ → ℕ
preferred none rows = rows
preferred (some index) rows = index

-- The loop over the routes, with the indexes used and the number of rows.
unfoldable pub rows_from : List ℕ → ℕ → List SamlRouteEvidence → Option (List Row)
unfolding next_free preferred
rows_from used rows [] = some []
rows_from used rows (route ∷ routes) =
    elim (next_free (suc (length used)) used (preferred route.index rows)) [
      | none ↦ none
      | some id_index ↦ elim (rows_from (id_index ∷ used) (suc rows) routes) [
        | none ↦ none
        | some rest ↦ some (
            record { id_index = id_index; index = preferred route.index id_index; route = route }
            ∷ rest)
      ]
    ]

unfoldable pub saml_acs_rows : List SamlRouteEvidence → Option (List Row)
unfolding rows_from
saml_acs_rows routes = rows_from [] 0 routes

-- `saml_acs_id`
unfoldable pub saml_acs_id : (ℕ → String) → String → ℕ → String
saml_acs_id str app_id index = "okta:saml:acs:" <> (app_id <> (":" <> str index))

next_free-unused :
    (fuel : ℕ) (used : List ℕ) (i j : ℕ) → next_free fuel used i ≡ some j → contains used j ≡ false
unfolding next_free
next_free-unused zero used i j h = cc
next_free-unused (suc fuel) used i j h = ground (arith, next_free-unused fuel used (suc i) j)

-- The used indexes that the loop may still meet.
abbrev remaining : ℕ → List ℕ → ℕ
remaining i [] = 0
remaining i (u ∷ us) = (if leb i u then 1 else 0) + remaining i us

remaining_bound : (i : ℕ) (us : List ℕ) → remaining i us ≤ length us
remaining_bound i [] = omega arith
remaining_bound i (u ∷ us) = ground (arith, remaining_bound i us)

remaining_suc : (i : ℕ) (us : List ℕ) → remaining (suc i) us ≤ remaining i us
remaining_suc i [] = omega arith
remaining_suc i (u ∷ us) = ground (arith, remaining_suc i us)

remaining_met :
    (i : ℕ) (us : List ℕ) → contains us i ≡ true → suc (remaining (suc i) us) ≤ remaining i us
remaining_met i [] h = cc
remaining_met i (u ∷ us) h = ground (arith, remaining_met i us, remaining_suc i us)

next_free_total :
    (fuel : ℕ) (used : List ℕ) (i : ℕ)
    → suc (remaining i used) ≤ fuel
    → next_free fuel used i ≢ none
unfolding next_free
next_free_total zero used i h = ground arith
next_free_total (suc fuel) used i h =
    ground (arith, next_free_total fuel used (suc i), remaining_met i used)

-- One step more than there are used indexes is enough.
next_free_found :
    (used : List ℕ) (i : ℕ)
    → (j : ℕ) × (next_free (suc (length used)) used i ≡ some j) × (contains used j ≡ false)
next_free_found used i = elim (Option-cases (next_free (suc (length used)) used i)) [
  | inl e ↦
      absurd (next_free_total (suc (length used)) used i (omega (arith, remaining_bound i used)) e)
  | inr (j, e) ↦ (j, e, next_free-unused (suc (length used)) used i j e)
]

abbrev pub route_of_row : Row → SamlRouteEvidence
route_of_row row = row.route

-- The rows of these routes, under ids that differ from each other and from those used.
abbrev AreRows : List ℕ → List SamlRouteEvidence → List Row → Type 0
AreRows used routes out =
    (map route_of_row out ≡ routes)
    × Distinct index_of_row out
    × ((k : ℕ) → contains used k ≡ true → contains (map index_of_row out) k ≡ false)

rows_from_lem :
    (used : List ℕ) (rows : ℕ) (routes : List SamlRouteEvidence)
    → (out : List Row) × (rows_from used rows routes ≡ some out) × AreRows used routes out
unfolding rows_from
rows_from_lem used rows [] = ([], refl, (refl, tt, λ k h. refl))
rows_from_lem used rows (route ∷ routes) =
    let (j, free, unused) = next_free_found used (preferred route.index rows) in
    let (rest, e, (same, distinct, apart)) = rows_from_lem (j ∷ used) (suc rows) routes in
    (
      record { id_index = j; index = preferred route.index j; route = route } ∷ rest,
      rw (rows_from, free, e) refl,
      (
        ap (λ rs. route ∷ rs) same,
        (apart j (ground arith), distinct),
        λ k h. ground (arith, apart k),
      ),
    )

-- For every list of routes the search for an unused index ends; the rows are those of the routes, in their order, and
-- no two of them have the same id, whatever indexes the routes prefer.
pub saml_acs_rows_lem :
    (routes : List SamlRouteEvidence)
    → (rows : List Row) × (saml_acs_rows routes ≡ some rows)
      × (map route_of_row rows ≡ routes)
      × Distinct index_of_row rows
unfolding saml_acs_rows
saml_acs_rows_lem routes =
    let (rows, e, (same, distinct, _)) = rows_from_lem [] 0 routes in (rows, e, same, distinct)
