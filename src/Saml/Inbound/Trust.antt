-- ===== src/Saml/Inbound/Trust.antt =====
-- `_okta_org_trust_specific_acs_url`: what a route of a trust rests on.
use openhound_okta.Base.{
  ℕ, suc, ◌≡◌, ◌⊎◌, refl, sym, subst, ◌∙◌, All, All-mono, map, ◌++◌, true, false, ◌&&◌, Option,
  none, some, String, List, [], ◌∷◌, arith, ◌==◌, ◌<>◌, ◌||◌, string_eq, option_eq, contains,
  Option-cases, Bool-cases, inl, inr,
}
use openhound_okta.Base.Results.{ok, bind-ok}
use openhound_okta.Oin.Validators.Urls.{SplitUrl}
use openhound_okta.Oin.Declarative.{is_empty}
use openhound_okta.Saml.Values.{clean}
use openhound_okta.Base.Dedupe.{first_by, first_by-nil, contains-first_by}
use openhound_okta.Saml.Accounts.{is_saml_identity_provider}
use openhound_okta.Saml.Inbound.{
  MetadataRoute, SpRow, url_of_route, url_of_row, numbered, with_urls, idp_sp_entity_id, single_row,
  base_rows, with_alias, rows_of_entity, saml_sp_acs_rows, Links, InboundProvider, is_shared_route,
  trust_route, shared_url, okta_org_trust_specific_acs_url,
}

-- The facts behind a route of a trust: the shared URL that it comes from, and the provider's id.
abbrev pub IsTrusted : Links → InboundProvider → String → String → Type 0
IsTrusted l p shared url =
    (parsed : SplitUrl) × (idp_id : String) × (p.status ≡ some "ACTIVE")
    × (clean l.strip p.acs_type ≡ some "ORG")
    × (clean l.strip p.acs_href ≡ some shared)
    × (l.urlsplit shared ≡ some parsed)
    × (is_shared_route l parsed ≡ true)
    × (clean l.strip p.id ≡ some idp_id)
    × (l.quote idp_id ≡ idp_id)
    × (l.urlunsplit parsed.scheme parsed.netloc (parsed.path <> ("/" <> idp_id)) ≡ url)

-- A URL of the metadata or, if the metadata has none, the provider's own.
abbrev pub Stated : Links → InboundProvider → String → Type 0
Stated l p url =
    (contains (map url_of_route (with_urls l p.saml_metadata_acs_endpoints)) url ≡ true)
    ⊎ ((with_urls l p.saml_metadata_acs_endpoints ≡ []) × (clean l.strip p.acs_href ≡ some url))

-- A row has the provider's entity id, and its URL is stated or derived from a stated one.
abbrev pub HasSource : Links → InboundProvider → SpRow → Type 0
HasSource l p row =
    (idp_sp_entity_id l p ≡ some row.sp_entity_id)
    × (Stated l p row.acs_url
        ⊎ ((shared : String) × Stated l p shared × IsTrusted l p shared row.acs_url))

module _ (l : Links) where
  trust_route_lem :
      (parsed : SplitUrl) (id : Option String) (url : String)
      → trust_route l parsed id ≡ some url
      → (idp_id : String) × (id ≡ some idp_id)
        × (is_shared_route l parsed ≡ true)
        × (l.quote idp_id ≡ idp_id)
        × (l.urlunsplit parsed.scheme parsed.netloc (parsed.path <> ("/" <> idp_id)) ≡ url)
  unfolding trust_route
  trust_route_lem parsed none url h = cc
  trust_route_lem parsed (some idp_id) url h =
      elim (Bool-cases (is_shared_route l parsed && l.quote idp_id == idp_id)) [
        | inl holds ↦ (idp_id, refl, ground arith, ground arith, ground arith)
        | inr fails ↦ ground arith
      ]

  shared_url_lem :
      (p : InboundProvider) (metadata_urls : List String) (shared : String)
      → shared_url l p metadata_urls ≡ some shared
      → (p.status ≡ some "ACTIVE")
        × (clean l.strip p.acs_type ≡ some "ORG")
        × (clean l.strip p.acs_href ≡ some shared)
        × ((is_empty metadata_urls || contains metadata_urls shared) ≡ true)
  unfolding shared_url
  shared_url_lem p metadata_urls shared h =
      elim (Bool-cases (p.status == some "ACTIVE" && clean l.strip p.acs_type == some "ORG")) [
        | inl active ↦ elim (Option-cases (clean l.strip p.acs_href)) [
          | inl absent ↦ ground arith
          | inr (url, there) ↦ (ground arith, ground arith, ground arith, ground arith)
        ]
        | inr inactive ↦ ground arith
      ]

  okta_org_trust_specific_acs_url-IsTrusted :
      (p : InboundProvider) (metadata_urls : List String) (url : String)
      → okta_org_trust_specific_acs_url l p metadata_urls ≡ ok (some url)
      → (shared : String) × ((is_empty metadata_urls || contains metadata_urls shared) ≡ true)
        × IsTrusted l p shared url
  unfolding okta_org_trust_specific_acs_url
  okta_org_trust_specific_acs_url-IsTrusted p metadata_urls url h =
      elim (Option-cases (shared_url l p metadata_urls)) [
        | inl none_shared ↦ ground arith
        | inr (shared, found) ↦ elim (Option-cases (l.urlsplit shared)) [
          | inl unparsed ↦ ground arith
          | inr (parsed, splits) ↦
              let (active, org, href, known) = shared_url_lem p metadata_urls shared found in
              let (idp_id, has_id, is_shared, quoted, same) =
                trust_route_lem parsed (clean l.strip p.id) url (ground arith) in
              (
                shared,
                known,
                (parsed, idp_id, active, org, href, splits, is_shared, has_id, quoted, same),
              )
        ]
      ]

-- What is kept of the base rows.
abbrev FromRoute : String → (String → Type 0) → SpRow → Type 0
FromRoute e P row = (row.sp_entity_id ≡ e) × P row.acs_url

numbered-FromRoute :
    (P : String → Type 0) (e : String) (k : ℕ) (routes : List MetadataRoute)
    → ((url : String) → contains (map url_of_route routes) url ≡ true → P url)
    → All (FromRoute e P) (numbered e k routes)
unfolding numbered
numbered-FromRoute P e k [] h = tt
numbered-FromRoute P e k (route ∷ routes) h = (
  (refl, h route.acs_url (ground arith)),
  numbered-FromRoute P e (suc k) routes (λ url known. h url (ground arith)),
)

url_of_rows :
    (P : String → Type 0) (e url : String) (rows : List SpRow)
    → All (FromRoute e P) rows
    → contains (map url_of_row rows) url ≡ true
    → P url
url_of_rows P e url [] all h = cc
url_of_rows P e url (row ∷ rows) ((_, here), later) h = elim (Bool-cases (url == row.acs_url)) [
  | inl same ↦ let eq : row.acs_url ≡ url = ground arith in subst P eq here
  | inr other ↦ url_of_rows P e url rows later (ground arith)
]

All-snoc {ℓ κ} :
    {A : Type ℓ} (P : A → Type κ) (xs : List A) (x : A) → All P xs → P x → All P (xs ++ (x ∷ []))
All-snoc P [] x all p = (p, tt)
All-snoc P (y ∷ xs) x (q, all) p = (q, All-snoc P xs x all p)

no_rows-All : (P : SpRow → Type 0) (rows : List SpRow) → rows ≡ [] → All P rows
no_rows-All P [] h = tt
no_rows-All P (row ∷ rows) h = cc

module _ (l : Links) (p : InboundProvider) where
  base_rows-FromRoute :
      (e : String) (routes : List MetadataRoute)
      → first_by url_of_route (with_urls l p.saml_metadata_acs_endpoints) ≡ routes
      → All (FromRoute e (Stated l p)) (base_rows l p e routes)
  unfolding base_rows single_row
  base_rows-FromRoute e [] h = elim (Option-cases (clean l.strip p.acs_href)) [
    | inl absent ↦ rw (base_rows, single_row, absent) tt
    | inr (url, there) ↦
        rw (base_rows, single_row, there) ((refl, inr (first_by-nil url_of_route _ h, there)), tt)
  ]
  base_rows-FromRoute e (route ∷ routes) h =
      numbered-FromRoute (Stated l p) e 0 (route ∷ routes) (λ url known. inl (
        sym (contains-first_by url_of_route url (with_urls l p.saml_metadata_acs_endpoints))
        ∙ (rw h known)))

  FromRoute-HasSource :
      (e : String) (rows : List SpRow)
      → idp_sp_entity_id l p ≡ some e
      → All (FromRoute e (Stated l p)) rows
      → All (HasSource l p) rows
  FromRoute-HasSource e rows h all =
      All-mono (HasSource l p)
        (λ row (same, stated).
          (subst (λ x. idp_sp_entity_id l p ≡ some x) (sym same) h, inl stated))
        rows all

  with_alias-HasSource :
      (e : String) (rows : List SpRow) (url : Option String)
      → idp_sp_entity_id l p ≡ some e
      → is_empty rows ≡ false
      → All (FromRoute e (Stated l p)) rows
      → okta_org_trust_specific_acs_url l p (map url_of_row rows) ≡ ok url
      → All (HasSource l p) (with_alias l p e rows url)
  unfolding with_alias
  with_alias-HasSource e rows none h some_rows all derived = FromRoute-HasSource e rows h all
  with_alias-HasSource e [] (some url) h some_rows all derived = cc
  with_alias-HasSource e (row ∷ rows) (some url) h some_rows all derived =
      let base = row ∷ rows in
      elim (Bool-cases (url == "" || contains (map url_of_row base) url)) [
        | inl old ↦ rw old (FromRoute-HasSource e base h all)
        | inr new ↦
            let (shared, known, trusted) =
              okta_org_trust_specific_acs_url-IsTrusted l p (map url_of_row base) url derived in
            rw new (
              All-snoc (HasSource l p) base _ (FromRoute-HasSource e base h all)
                (h, inr (shared, url_of_rows (Stated l p) e shared base all known, trusted)))
      ]

  rows_of_entity-HasSource :
      (e : String) (rows : List SpRow)
      → idp_sp_entity_id l p ≡ some e
      → rows_of_entity l p e ≡ ok rows
      → All (HasSource l p) rows
  unfolding rows_of_entity
  rows_of_entity-HasSource e rows h out =
      let routes = first_by url_of_route (with_urls l p.saml_metadata_acs_endpoints) in
      let base = base_rows l p e routes in
      elim (Bool-cases (is_empty base)) [
        | inl empty ↦ no_rows-All (HasSource l p) rows (ground arith)
        | inr some_rows ↦
            let (url, derived, same) =
              bind-ok (okta_org_trust_specific_acs_url l p (map url_of_row base))
                (λ url. ok (with_alias l p e base url)) {b = rows} (ground arith) in
            let added : with_alias l p e base url ≡ rows = ground arith in
            subst (All (HasSource l p)) added (
              with_alias-HasSource e base url h some_rows (base_rows-FromRoute e routes refl)
                derived)
      ]

  -- Every row has the provider's entity id. Its URL is one that the metadata states or, without any there, the
  -- provider's own; or it is the route of the trust, which is only derived for an active provider with an endpoint of
  -- the organisation, from such a stated URL that is the HTTPS route `/sso/saml2` of a host without credentials, query
  -- or fragment, by adding the provider's id, which quoting leaves as it is.
  pub saml_sp_acs_rows-HasSource :
      (rows : List SpRow) → saml_sp_acs_rows l p ≡ ok rows → All (HasSource l p) rows
  unfolding saml_sp_acs_rows
  saml_sp_acs_rows-HasSource rows h = elim (Bool-cases (is_saml_identity_provider p.provider)) [
    | inl saml ↦ elim (Option-cases (idp_sp_entity_id l p)) [
      | inl absent ↦ no_rows-All (HasSource l p) rows (ground arith)
      | inr (e, there) ↦ rows_of_entity-HasSource e rows there (ground arith)
    ]
    | inr other ↦ no_rows-All (HasSource l p) rows (ground arith)
  ]
