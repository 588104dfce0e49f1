-- ===== src/Roles/Scope.antt =====
-- What the scope of a role assignment does to its edges.
use openhound_okta.Base.{
  ℕ, suc, ◌≡◌, ◌⊎◌, inl, inr, refl, sym, subst, Bool, true, false, none, some, String, List, [],
  ◌∷◌, ◌++◌, arith, ◌==◌, string_eq, option_eq, contains, get_elem?, if◌then◌else◌, All,
  Option-cases, Bool-cases,
}
use openhound_okta.Roles.Lookup.{Lookup, among}
use openhound_okta.Roles.Assignment.{
  RoleAssignment, AppTarget, has_value, target_ids, all_target_ids, scoped_group_ids,
  scoped_app_ids, permission_group_ids, permission_app_ids, permission_user_ids, has_no_scope_apps,
}
use openhound_okta.Roles.Edges.{
  Edge, EdgeKind, app_admin, reaches, ids_or_empty, app_admin_edges, helpdesk_admin_edges,
  group_membership_admin_edges, user_admin_edges, scoped_to_group_edges, scoped_to_org_edge,
  is_scoped_elsewhere, scopes, is_group_targeted,
}
use openhound_okta.Roles.Within.{Within, AddsNothing, contains-append}

-- The edge ends at an id for which this holds.
abbrev pub EndsAt {ℓ} : (String → Type ℓ) → Edge → Type ℓ
EndsAt P e = (id : String) × (e.end_id ≡ some id) × P id

-- The target stands for this id: it is active, and names an application of the graph by its id, or,
-- without an id, an application or an API service by its name.
abbrev pub StandsFor : Lookup → AppTarget → String → Type 0
StandsFor lookup target id =
    (target.status ≡ some "ACTIVE")
    × (((target.id ≡ some id) × (lookup.application_by_id id ≡ true))
        ⊎ ((has_value target.id ≡ false)
            × ((contains (lookup.application_ids_by_name target.name) id ≡ true)
                ⊎ (contains (lookup.api_service_ids_by_name target.name) id ≡ true))))

-- One of the targets stands for this id.
abbrev pub IsTarget : Lookup → List AppTarget → String → Type 0
IsTarget lookup targets id =
    (i : ℕ) × (target : AppTarget) × (get_elem? targets i ≡ some target)
    × StandsFor lookup target id

among-kept : (xs allowed : List String) → Within (among xs allowed) xs
unfolding among
among-kept [] allowed x h = cc
among-kept (y ∷ ys) allowed x h = ground (arith, among-kept ys allowed x)

reaches-EndsAt {ℓ} :
    (P : String → Type ℓ) (kind : EdgeKind) (a : RoleAssignment) (ids : List String)
    → ((x : String) → contains ids x ≡ true → P x)
    → All (EndsAt P) (reaches kind a ids)
unfolding reaches
reaches-EndsAt P kind a [] h = tt
reaches-EndsAt P kind a (x ∷ xs) h =
    ((x, refl, h x (ground arith)), reaches-EndsAt P kind a xs (λ y e. h y (ground arith)))

under {ℓ} :
    (P : Edge → Type ℓ) (test : Bool) (es : List Edge) → All P es → All P (if test then es else [])
under P true es p = p
under P false es p = tt

same_if : (test : Bool) → ◌≡◌ {A = List Edge} (if test then [] else []) []
same_if true = refl
same_if false = refl

module _ (lookup : Lookup) where
  target_ids-StandsFor :
      (target : AppTarget) (id : String)
      → contains (target_ids lookup target) id ≡ true
      → StandsFor lookup target id
  unfolding target_ids
  target_ids-StandsFor target id h =
      let by_name =
        contains-append (lookup.application_ids_by_name target.name)
          (lookup.api_service_ids_by_name target.name) id in
      elim (Option-cases target.id) [
        | inl none' ↦ ground (arith, by_name)
        | inr (own, e) ↦ ground (arith, by_name)
      ]

  all_target_ids-IsTarget :
      (targets : List AppTarget) (id : String)
      → contains (all_target_ids lookup targets) id ≡ true
      → IsTarget lookup targets id
  unfolding all_target_ids
  all_target_ids-IsTarget [] id h = cc
  all_target_ids-IsTarget (target ∷ targets) id h =
      elim (Bool-cases (contains (target_ids lookup target) id)) [
        | inl here' ↦ (0, target, refl, target_ids-StandsFor target id here')
        | inr gone ↦
            let (i, found, at, stands) = all_target_ids-IsTarget targets id (
              ground (
                arith,
                contains-append (target_ids lookup target) (all_target_ids lookup targets) id,
              )) in
            (suc i, found, at, stands)
      ]

  permission_app_ids_scoped :
      (a : RoleAssignment) (target : AppTarget) (targets : List AppTarget)
      → a.scope_apps ≡ some (target ∷ targets)
      → permission_app_ids lookup a
        ≡ some (
            among
              (lookup.sorted (all_target_ids lookup (target ∷ targets)))
              (lookup.non_admin_apps ++ lookup.all_api_services))
  unfolding permission_app_ids scoped_app_ids has_no_scope_apps
  permission_app_ids_scoped a target targets h =
      let has : has_no_scope_apps a ≡ false = rw (has_no_scope_apps, h) refl in
      let scoped : scoped_app_ids lookup a
          ≡ some (lookup.sorted (all_target_ids lookup (target ∷ targets))) =
        rw (scoped_app_ids, h) refl in
      rw (permission_app_ids, scoped, has) refl

  -- Where `sorted` adds no id and some application targets of a role were collected: every edge to
  -- administer an application ends at an id for which one of these targets stands. That target is
  -- active; if it has an id, it is this id, and an application of the graph; if it has none, the id is
  -- that of an application or an API service of the target's name. So where no target is active or
  -- known, the role gets no such edge.
  pub app_admin_edges-EndsAt :
      AddsNothing lookup
      → (a : RoleAssignment) (target : AppTarget) (targets : List AppTarget)
      → a.scope_apps ≡ some (target ∷ targets)
      → All (EndsAt (IsTarget lookup (target ∷ targets))) (app_admin_edges lookup a)
  unfolding app_admin_edges
  app_admin_edges-EndsAt adds a target targets h =
      let known = all_target_ids lookup (target ∷ targets) in
      let allowed = lookup.non_admin_apps ++ lookup.all_api_services in
      let within : Within (ids_or_empty (permission_app_ids lookup a)) known =
        subst (λ o. Within (ids_or_empty o) known)
          (sym (permission_app_ids_scoped a target targets h))
          (λ x e. adds known x (among-kept (lookup.sorted known) allowed x e)) in
      under (EndsAt (IsTarget lookup (target ∷ targets))) (a.type == "APP_ADMIN") _ (
        reaches-EndsAt (IsTarget lookup (target ∷ targets)) app_admin a
          (ids_or_empty (permission_app_ids lookup a))
          (λ x e. all_target_ids-IsTarget (target ∷ targets) x (within x e)))

  unknown_ids :
      (a : RoleAssignment)
      → a.scope_groups ≡ none
      → (scoped_group_ids lookup a ≡ none)
        × (permission_group_ids lookup a ≡ none)
        × (permission_user_ids lookup a ≡ none)
  unfolding scoped_group_ids permission_group_ids permission_user_ids
  unknown_ids a h =
      let scoped : scoped_group_ids lookup a ≡ none = rw (scoped_group_ids, h) refl in
      (scoped, rw (permission_group_ids, scoped) refl, rw (permission_user_ids, scoped) refl)

  targeted_elsewhere :
      (a : RoleAssignment)
      → is_group_targeted a.type ≡ true
      → scoped_group_ids lookup a ≡ none
      → is_scoped_elsewhere lookup a ≡ true
  unfolding is_scoped_elsewhere
  targeted_elsewhere a targeted unknown = ground arith

  -- Where the targets of a role that is limited to groups were not collected, nothing is assumed: it gets no edge to
  -- groups or users, and none to the organisation.
  pub unknown_scope_grants_nothing :
      (a : RoleAssignment)
      → is_group_targeted a.type ≡ true
      → a.scope_groups ≡ none
      → (group_membership_admin_edges lookup a ≡ [])
        × (helpdesk_admin_edges lookup a ≡ [])
        × (user_admin_edges lookup a ≡ [])
        × (scoped_to_group_edges lookup a ≡ [])
        × (scoped_to_org_edge lookup a ≡ [])
  unfolding group_membership_admin_edges helpdesk_admin_edges user_admin_edges scoped_to_group_edges
      scoped_to_org_edge reaches scopes
  unknown_scope_grants_nothing a targeted unknown =
      let (scoped, groups, users) = unknown_ids a unknown in
      (
        rw (group_membership_admin_edges, groups) (same_if (a.type == "GROUP_MEMBERSHIP_ADMIN")),
        rw (helpdesk_admin_edges, users) (same_if (a.type == "HELP_DESK_ADMIN")),
        rw (user_admin_edges, groups) (same_if (a.type == "USER_ADMIN")),
        rw (scoped_to_group_edges, scoped) refl,
        rw (scoped_to_org_edge, targeted_elsewhere a targeted scoped) refl,
      )
