-- ===== src/Saml/Inbound/Unique.antt =====
-- The rows of an inbound identity provider: no two of them share an id or a URL.
use openhound_okta.Base.{
  ℕ, suc, ◌+◌, ◌≡◌, ◌≤◌, ◌<◌, refl, subst, false, Option, none, some, String, List, [], ◌∷◌, ◌++◌,
  map, arith, ◌==◌, ◌||◌, Eq, string_eq, nat_eq, contains, Option-cases, Bool-cases, inl, inr,
  length,
}
use openhound_okta.Base.Results.{ok, bind-ok}
use openhound_okta.Base.Dedupe.{first_by, Distinct, first_by-Distinct}
use openhound_okta.Oin.Declarative.{is_empty}
use openhound_okta.Saml.Values.{clean}
use openhound_okta.Saml.Accounts.{is_saml_identity_provider}
use openhound_okta.Saml.Inbound.{
  Links, InboundProvider, MetadataRoute, SpRow, url_of_route, url_of_row, number_of_row, numbered,
  with_urls, single_row, base_rows, with_alias, okta_org_trust_specific_acs_url, rows_of_entity,
  saml_sp_acs_rows, idp_sp_entity_id,
}

module _ {ℓ κ} {A : Type ℓ} {K : Type κ} ⦃e : Eq K⦄ (key : A → K) where
  contains-snoc :
      (xs : List A) (x : A) (k : K)
      → contains (map key (xs ++ (x ∷ []))) k ≡ (contains (map key xs) k || k == key x)
  contains-snoc [] x k = ground arith
  contains-snoc (y ∷ xs) x k = ground (arith, contains-snoc xs x k)

  Distinct-snoc :
      (xs : List A) (x : A)
      → Distinct key xs
      → contains (map key xs) (key x) ≡ false
      → Distinct key (xs ++ (x ∷ []))
  Distinct-snoc [] x d fresh = (refl, tt)
  Distinct-snoc (y ∷ xs) x (d, ds) fresh =
      (ground (arith, contains-snoc xs x (key y)), Distinct-snoc xs x ds (ground arith))

numbered-urls :
    (e : String) (k : ℕ) (routes : List MetadataRoute)
    → map url_of_row (numbered e k routes) ≡ map url_of_route routes
unfolding numbered
numbered-urls e k [] = refl
numbered-urls e k (route ∷ routes) = rw (numbered-urls e (suc k) routes) refl

numbered-Distinct_urls :
    (e : String) (k : ℕ) (routes : List MetadataRoute)
    → Distinct url_of_route routes
    → Distinct url_of_row (numbered e k routes)
unfolding numbered
numbered-Distinct_urls e k [] d = tt
numbered-Distinct_urls e k (route ∷ routes) (d, ds) =
    (rw (numbered-urls e (suc k) routes) d, numbered-Distinct_urls e (suc k) routes ds)

-- The numbers count up from `k`.
numbers_before :
    (e : String) (k : ℕ) (routes : List MetadataRoute) (j : ℕ)
    → j < k
    → contains (map number_of_row (numbered e k routes)) j ≡ false
unfolding numbered
numbers_before e k [] j h = refl
numbers_before e k (route ∷ routes) j h = ground (arith, numbers_before e (suc k) routes j)

numbers_after :
    (e : String) (k : ℕ) (routes : List MetadataRoute) (j : ℕ)
    → k + length (numbered e k routes) ≤ j
    → contains (map number_of_row (numbered e k routes)) j ≡ false
unfolding numbered
numbers_after e k [] j h = refl
numbers_after e k (route ∷ routes) j h = ground (arith, numbers_after e (suc k) routes j)

numbered-Distinct_numbers :
    (e : String) (k : ℕ) (routes : List MetadataRoute)
    → Distinct number_of_row (numbered e k routes)
unfolding numbered
numbered-Distinct_numbers e k [] = tt
numbered-Distinct_numbers e k (route ∷ routes) =
    (numbers_before e (suc k) routes k (omega arith), numbered-Distinct_numbers e (suc k) routes)

-- No id and no URL twice, and the number of the next row is free.
abbrev IsUnique : List SpRow → Type 0
IsUnique rows =
    Distinct url_of_row rows
    × Distinct number_of_row rows
    × (contains (map number_of_row rows) (length rows) ≡ false)

no_rows-Distinct :
    (rows : List SpRow) → rows ≡ [] → Distinct url_of_row rows × Distinct number_of_row rows
no_rows-Distinct [] h = (tt, tt)
no_rows-Distinct (row ∷ rows) h = cc

module _ (l : Links) (p : InboundProvider) where
  single_row-IsUnique : (e : String) → IsUnique (single_row l p e)
  unfolding single_row nat_eq
  single_row-IsUnique e = elim (Option-cases (clean l.strip p.acs_href)) [
    | inl absent ↦ rw (single_row, absent) (tt, tt, refl)
    | inr (url, there) ↦ rw (single_row, there) ((refl, tt), (refl, tt), refl)
  ]

  base_rows-IsUnique :
      (e : String) (routes : List MetadataRoute)
      → Distinct url_of_route routes
      → IsUnique (base_rows l p e routes)
  unfolding base_rows
  base_rows-IsUnique e [] d = single_row-IsUnique e
  base_rows-IsUnique e (route ∷ routes) d = (
    numbered-Distinct_urls e 0 (route ∷ routes) d,
    numbered-Distinct_numbers e 0 (route ∷ routes),
    numbers_after e 0 (route ∷ routes) _ (omega arith),
  )

  with_alias-Distinct :
      (e : String) (rows : List SpRow) (url : Option String)
      → IsUnique rows
      → Distinct url_of_row (with_alias l p e rows url)
        × Distinct number_of_row (with_alias l p e rows url)
  unfolding with_alias
  with_alias-Distinct e rows none (urls, numbers, next) = (urls, numbers)
  with_alias-Distinct e rows (some url) (urls, numbers, next) =
      elim (Bool-cases (url == "" || contains (map url_of_row rows) url)) [
        | inl old ↦ rw old (urls, numbers)
        | inr new ↦ rw new (
          Distinct-snoc url_of_row rows _ urls (ground arith),
          Distinct-snoc number_of_row rows _ numbers next,
        )
      ]

  rows_of_entity-Distinct :
      (e : String) (rows : List SpRow)
      → rows_of_entity l p e ≡ ok rows
      → Distinct url_of_row rows × Distinct number_of_row rows
  unfolding rows_of_entity
  rows_of_entity-Distinct e rows h =
      let routes = first_by url_of_route (with_urls l p.saml_metadata_acs_endpoints) in
      let base = base_rows l p e routes in
      elim (Bool-cases (is_empty base)) [
        | inl empty ↦ no_rows-Distinct rows (ground arith)
        | inr some_rows ↦
            let (url, _, same) =
              bind-ok (okta_org_trust_specific_acs_url l p (map url_of_row base))
                (λ url. ok (with_alias l p e base url)) {b = rows} (ground arith) in
            let added : with_alias l p e base url ≡ rows = ground arith in
            subst (λ rs. Distinct url_of_row rs × Distinct number_of_row rs) added
              (with_alias-Distinct e base url
                (base_rows-IsUnique e routes (first_by-Distinct url_of_route _)))
      ]

  -- No two rows of an identity provider have the same URL or the same id, whatever its metadata repeats and
  -- whether or not the route of the trust is added.
  pub saml_sp_acs_rows_lem :
      (rows : List SpRow)
      → saml_sp_acs_rows l p ≡ ok rows
      → Distinct url_of_row rows × Distinct number_of_row rows
  unfolding saml_sp_acs_rows
  saml_sp_acs_rows_lem rows h = elim (Bool-cases (is_saml_identity_provider p.provider)) [
    | inl saml ↦ elim (Option-cases (idp_sp_entity_id l p)) [
      | inl absent ↦ no_rows-Distinct rows (ground arith)
      | inr (e, there) ↦ rows_of_entity-Distinct e rows (ground arith)
    ]
    | inr other ↦ no_rows-Distinct rows (ground arith)
  ]
