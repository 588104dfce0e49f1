-- ===== src/Entra/Resolver.antt =====
-- `EntraTenantIdResolver.resolve` of utils/entra_tenant.py: one lookup for each tenant of a run.
use openhound_okta.Base.{
  ◌≡◌, refl, ap₂, sym, subst, Bool, true, false, Option, none, some, String, List, [], ◌∷◌, arith,
  ◌==◌, string_eq, if◌then◌else◌, ℕ, ◌+◌, ◌≤◌,
}
use openhound_okta.Base.Dict.{Dict, lookup, insert, lookup-insert}
use openhound_okta.Oin.Validators.{Setting, null, text, other}
use openhound_okta.Entra.Urls.{Texts, domain_name, tenant_id_from_url}

-- What the OpenID configuration endpoint answers: a failure, or a document with what stands under
-- `token_endpoint`; a document that is no mapping has nothing there.
pub data Answer : Type 0 where
  failed : Answer
  document : Setting → Answer

-- `_tenant_ids`
abbrev pub TenantIds : Type 0
TenantIds = Dict String (Option String)

module _ (t : Texts) where
  -- `_tenant_id_from_openid_configuration`
  unfoldable pub tenant_id_of : Answer → Option String
  unfolding tenant_id_from_url
  tenant_id_of failed = none
  tenant_id_of (document (text token_endpoint)) = tenant_id_from_url t token_endpoint
  tenant_id_of (document null) = none
  tenant_id_of (document (other _ _)) = none

  -- The outcome, the cache, and whether the endpoint was asked.
  unfoldable pub look_up : String → Answer → TenantIds → Option String × TenantIds × Bool
  unfolding lookup insert tenant_id_of
  look_up name answer ids = elim (lookup name ids) [
    | some known ↦ (known, ids, false)
    | none ↦ (tenant_id_of answer, insert name (tenant_id_of answer) ids, true)
  ]

  unfoldable pub resolve : String → Answer → TenantIds → Option String × TenantIds × Bool
  resolve msft_tenant answer ids = look_up (domain_name t msft_tenant) answer ids

  -- How often one step asks about a name.
  abbrev asked_about : String → String → Bool → ℕ
  asked_about name other_name asked = if asked then (if name == other_name then 1 else 0) else 0

  -- Resolutions in order, each with what the endpoint would answer: the cache, and how often it was asked about
  -- one name.
  unfoldable pub resolutions : String → List (String × Answer) → TenantIds → TenantIds × ℕ
  resolutions name [] ids = (ids, 0)
  resolutions name ((msft_tenant, answer) ∷ rest) ids =
      let (outcome, ids', asked) = resolve msft_tenant answer ids in
      let (ids'', count) = resolutions name rest ids' in
      (ids'', asked_about name (domain_name t msft_tenant) asked + count)

  looked_up :
      (name : String) (answer : Answer) (ids : TenantIds)
      → lookup name (look_up name answer ids).1 ≡ some (look_up name answer ids).0
  unfolding look_up
  looked_up name answer ids = ground (arith, lookup-insert name name (tenant_id_of answer) ids)

  look_up_kept :
      (name other_name : String) (answer : Answer) (ids : TenantIds) (known : Option String)
      → lookup name ids ≡ some known
      → lookup name (look_up other_name answer ids).1 ≡ some known
  unfolding look_up
  look_up_kept name other_name answer ids known h =
      ground (arith, lookup-insert name other_name (tenant_id_of answer) ids)

  -- A name that is known is not asked about.
  look_up_known :
      (name : String) (answer : Answer) (ids : TenantIds) (known : Option String)
      → lookup name ids ≡ some known
      → look_up name answer ids ≡ (known, ids, false)
  unfolding look_up
  look_up_known name answer ids known h = rw (look_up, h) refl

  asked_elsewhere :
      (name other_name : String) (answer : Answer) (ids : TenantIds) (known : Option String)
      → lookup name ids ≡ some known
      → asked_about name other_name (look_up other_name answer ids).2 ≡ 0
  unfolding look_up
  asked_elsewhere name other_name answer ids known h = ground arith

  known_kept :
      (name : String) (qs : List (String × Answer)) (ids : TenantIds) (known : Option String)
      → lookup name ids ≡ some known
      → (lookup name (resolutions name qs ids).0 ≡ some known) × ((resolutions name qs ids).1 ≡ 0)
  unfolding resolutions resolve
  known_kept name [] ids known h = ground arith
  known_kept name ((m, answer) ∷ qs) ids known h =
      let looked = look_up (domain_name t m) answer ids in
      let (kept, none_asked) =
        known_kept name qs looked.1 known
          (look_up_kept name (domain_name t m) answer ids known h) in
      let elsewhere = asked_elsewhere name (domain_name t m) answer ids known h in
      (kept, ap₂ ◌+◌ elsewhere none_asked)

  -- One step asks once at most, and about its own name only.
  asked_about_lem :
      (name other_name : String) (asked : Bool) (later : ℕ)
      → later ≤ 1
      → (name ≡ other_name → later ≡ 0)
      → asked_about name other_name asked + later ≤ 1
  asked_about_lem name other_name asked later few here = ground arith

  -- However the applications of a run spell their tenants, Microsoft is asked about each normalised name once at
  -- most.
  pub asked_once :
      (name : String) (qs : List (String × Answer)) (ids : TenantIds)
      → (resolutions name qs ids).1 ≤ 1
  unfolding resolutions resolve
  asked_once name [] ids = omega arith
  asked_once name ((m, answer) ∷ qs) ids =
      let looked = look_up (domain_name t m) answer ids in
      asked_about_lem name (domain_name t m) looked.2 (resolutions name qs looked.1).1
        (asked_once name qs looked.1)
        (λ same.
          (known_kept name qs looked.1 looked.0 (
            subst (λ n. lookup n looked.1 ≡ some looked.0) (sym same)
              (looked_up (domain_name t m) answer ids))).1)

  -- Once a tenant was resolved, with success or not, every later spelling of it gives the same outcome without a
  -- lookup, whatever was resolved in between and whatever Microsoft would answer now.
  pub resolve_again :
      (first later : String) (answer answer2 : Answer) (qs : List (String × Answer))
      (ids : TenantIds)
      → domain_name t first ≡ domain_name t later
      → (let after = (resolutions (domain_name t first) qs (resolve first answer ids).1).0 in
          resolve later answer2 after ≡ ((resolve first answer ids).0, after, false))
  unfolding resolve
  resolve_again first later answer answer2 qs ids same =
      let name = domain_name t first in
      let (kept, _) =
        known_kept name qs (look_up name answer ids).1 (look_up name answer ids).0
          (looked_up name answer ids) in
      look_up_known (domain_name t later) answer2
        (resolutions name qs (look_up name answer ids).1).0 (look_up name answer ids).0
        (subst
          (λ n.
            lookup n (resolutions name qs (look_up name answer ids).1).0
            ≡ some (look_up name answer ids).0)
          same kept)

  -- What a resolution gave is known to the next one.
  pub resolve_known :
      (msft_tenant : String) (answer answer2 : Answer) (ids : TenantIds)
      → (let (outcome, ids', asked) = resolve msft_tenant answer ids in
          resolve msft_tenant answer2 ids' ≡ (outcome, ids', false))
  unfolding resolve resolutions
  resolve_known msft_tenant answer answer2 ids =
      resolve_again msft_tenant msft_tenant answer answer2 [] ids refl
