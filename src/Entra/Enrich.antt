-- ===== src/Entra/Enrich.antt =====
-- `EntraTenantIdResolver.enrich` of utils/entra_tenant.py: the tenant id of an Office 365 application.
use openhound_okta.Base.{
  ◌≡◌, refl, ap, Bool, false, ◌&&◌, Option, none, some, String, arith, ◌==◌, string_eq, sym, subst,
  ◌∙◌, if◌then◌else◌, Option-cases, Bool-cases, inl, inr,
}
use openhound_okta.Base.Dict.{Dict, lookup, insert, lookup-insert, insert_idem}
use openhound_okta.Oin.Validators.{is_text, Setting, null, text, other}
use openhound_okta.Oin.Resolvers.{is_set}
use openhound_okta.Entra.Urls.{Texts}
use openhound_okta.Entra.Resolver.{Answer, TenantIds, resolve, resolve_known}

-- An application as collected: `settings` and `settings.app` are `none` where they are no mappings. Its other fields
-- are passed on as they are.
pub record RawApplication : Type 0 where
  pub name : Setting
  pub sign_on_mode : Setting
  pub settings : Option (Option (Dict String Setting))

-- `mapping.get(key)`
unfoldable pub get : String → Dict String Setting → Setting
unfolding lookup
get key mapping = elim (lookup key mapping) [ none ↦ null | some v ↦ v ]

-- The application with these fields under `settings.app`.
abbrev pub with_app : RawApplication → Dict String Setting → RawApplication
with_app application app_settings = record {
  name = application.name;
  sign_on_mode = application.sign_on_mode;
  settings = some (some app_settings);
}

keys_apart : ◌==◌ {A = String} "msftTenant" "microsoftTenantId" ≡ false
unfolding string_eq
keys_apart = refl

id_read :
    (v : Setting) (app_settings : Dict String Setting)
    → get "microsoftTenantId" (insert "microsoftTenantId" v app_settings) ≡ v
unfolding get
id_read v app_settings =
    ground (arith, lookup-insert "microsoftTenantId" "microsoftTenantId" v app_settings)

tenant_read :
    (v : Setting) (app_settings : Dict String Setting)
    → get "msftTenant" (insert "microsoftTenantId" v app_settings) ≡ get "msftTenant" app_settings
unfolding get
tenant_read v app_settings =
    rw (lookup-insert "msftTenant" "microsoftTenantId" v app_settings, keys_apart, get) refl

module _ (t : Texts) where
  -- The tenant name under `settings.app`, unless an id is there or the name is blank.
  unfoldable pub named_tenant : Dict String Setting → Option String
  unfolding get is_set
  named_tenant app_settings =
      if is_set (get "microsoftTenantId" app_settings)
      then none
      else elim (get "msftTenant" app_settings) [
        | null ↦ none
        | text msft_tenant ↦ if t.strip msft_tenant == "" then none else some msft_tenant
        | other _ _ ↦ none
      ]

  -- `settings.app` of an Office 365 application with WS-Federation.
  unfoldable pub office365_settings : RawApplication → Option (Dict String Setting)
  unfolding is_text
  office365_settings application =
      if is_text "office365" application.name && is_text "SAML_1_1" application.sign_on_mode
      then elim application.settings [ none ↦ none | some app_settings ↦ app_settings ]
      else none

  -- The settings and the tenant that are resolved, if any.
  unfoldable pub target : RawApplication → Option (Dict String Setting × String)
  unfolding office365_settings named_tenant
  target application = elim (office365_settings application) [
    | none ↦ none
    | some app_settings ↦ elim (named_tenant app_settings) [
      | none ↦ none
      | some msft_tenant ↦ some (app_settings, msft_tenant)
    ]
  ]

  -- The application with what its tenant resolved to.
  unfoldable pub fill : RawApplication → Dict String Setting → Option String → RawApplication
  unfolding insert
  fill application app_settings none = application
  fill application app_settings (some tenant_id) =
      with_app application (insert "microsoftTenantId" (text tenant_id) app_settings)

  -- The application, the cache, and whether Microsoft was asked.
  unfoldable pub enrich : RawApplication → Answer → TenantIds → RawApplication × TenantIds × Bool
  unfolding target fill resolve
  enrich application answer ids = elim (target application) [
    | none ↦ (application, ids, false)
    | some (app_settings, msft_tenant) ↦
        let (tenant_id, ids', asked) = resolve t msft_tenant answer ids in
        (fill application app_settings tenant_id, ids', asked)
  ]

  untouched :
      (application : RawApplication) (answer : Answer) (ids : TenantIds)
      → target application ≡ none
      → enrich application answer ids ≡ (application, ids, false)
  unfolding enrich
  untouched application answer ids e = rw (enrich, e) refl

  touched :
      (application : RawApplication) (answer : Answer) (ids : TenantIds)
      (app_settings : Dict String Setting) (msft_tenant : String)
      → target application ≡ some (app_settings, msft_tenant)
      → (let (tenant_id, ids', asked) = resolve t msft_tenant answer ids in
          enrich application answer ids ≡ (fill application app_settings tenant_id, ids', asked))
  unfolding enrich
  touched application answer ids app_settings msft_tenant e = rw (enrich, e) refl

  named_tenant-insert :
      (app_settings : Dict String Setting) (msft_tenant id : String)
      → named_tenant app_settings ≡ some msft_tenant
      → named_tenant (insert "microsoftTenantId" (text id) app_settings)
        ≡ (if id == "" then some msft_tenant else none)
  unfolding named_tenant is_set
  named_tenant-insert app_settings msft_tenant id e =
      ground (arith, id_read (text id) app_settings, tenant_read (text id) app_settings)

  office365_settings-with_app :
      (application : RawApplication) (app_settings filled : Dict String Setting)
      → office365_settings application ≡ some app_settings
      → office365_settings (with_app application filled) ≡ some filled
  unfolding office365_settings
  office365_settings-with_app application app_settings filled e = ground arith

  target-with_app :
      (application : RawApplication) (app_settings : Dict String Setting) (msft_tenant id : String)
      → target application ≡ some (app_settings, msft_tenant)
      → (let filled = insert "microsoftTenantId" (text id) app_settings in
          target (with_app application filled)
          ≡ (if id == "" then some (filled, msft_tenant) else none))
  unfolding target
  target-with_app application app_settings msft_tenant id e =
      let filled = insert "microsoftTenantId" (text id) app_settings in
      ground (
        arith,
        office365_settings-with_app application app_settings filled,
        named_tenant-insert app_settings msft_tenant id,
      )

  -- What was filled in is left alone, as is an application whose tenant is known not to resolve.
  enrich_filled :
      (application : RawApplication) (answer : Answer) (app_settings : Dict String Setting)
      (msft_tenant : String) (outcome : Option String) (ids : TenantIds)
      → target application ≡ some (app_settings, msft_tenant)
      → resolve t msft_tenant answer ids ≡ (outcome, ids, false)
      → (let filled = fill application app_settings outcome in
          enrich filled answer ids ≡ (filled, ids, false))
  unfolding fill
  enrich_filled application answer app_settings msft_tenant none ids e known =
      touched application answer ids app_settings msft_tenant e
      ∙ ap (λ r. (fill application app_settings r.0, r.1, r.2)) known
  enrich_filled application answer app_settings msft_tenant (some id) ids e known =
      let filled = insert "microsoftTenantId" (text id) app_settings in
      let again = target-with_app application app_settings msft_tenant id e in
      elim (Bool-cases (id == "")) [
        | inl blank ↦
            touched (with_app application filled) answer ids filled msft_tenant (rw blank at again)
            ∙ ap (λ r. (fill (with_app application filled) filled r.0, r.1, r.2)) known
            ∙ ap (λ d. (with_app application d, ids, false))
                (insert_idem "microsoftTenantId" (text id) app_settings)
        | inr full ↦ untouched (with_app application filled) answer ids (rw full at again)
      ]

  -- Enriched again, an application and the cache stay as they are, and Microsoft is not asked, whatever it would
  -- answer now: also where the first attempt failed.
  pub enrich_idem :
      (application : RawApplication) (answer answer2 : Answer) (ids : TenantIds)
      → (let (enriched, ids', asked) = enrich application answer ids in
          enrich enriched answer2 ids' ≡ (enriched, ids', false))
  enrich_idem application answer answer2 ids = elim (Option-cases (target application)) [
    | inl e ↦
        subst (λ r. enrich r.0 answer2 r.1 ≡ (r.0, r.1, false))
          (sym (untouched application answer ids e)) (untouched application answer2 ids e)
    | inr ((app_settings, msft_tenant), e) ↦
        subst (λ r. enrich r.0 answer2 r.1 ≡ (r.0, r.1, false))
          (sym (touched application answer ids app_settings msft_tenant e))
          (enrich_filled application answer2 app_settings msft_tenant
            (resolve t msft_tenant answer ids).0 (resolve t msft_tenant answer ids).1 e
            (resolve_known t msft_tenant answer answer2 ids))
  ]
