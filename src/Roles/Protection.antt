-- ===== src/Roles/Protection.antt =====
-- Where the edges of a role assignment end: administrators are out of reach of every role but the highest.
use openhound_okta.Base.{
  ◌≡◌, refl, Bool, true, false, Option, none, some, String, List, [], ◌∷◌, ◌++◌, arith, ◌==◌,
  string_eq, option_eq, contains, if◌then◌else◌, Bool-cases, inl, inr, All,
}
use openhound_okta.Roles.Lookup.{Lookup}
use openhound_okta.Roles.Assignment.{
  RoleAssignment, permission_group_ids, permission_app_ids, permission_user_ids,
  is_direct_active_assignment,
}
use openhound_okta.Roles.Edges.{
  EdgeKind, contains_node, has_role_assignment, has_role, scoped_to, app_admin,
  group_membership_admin, helpdesk_admin, group_admin, org_admin, mobile_admin, super_admin,
  manage_app, reset_factors, reset_password, add_member, read_client_secret, Edge, reaches, scopes,
  is_scoped_elsewhere, edges, role_edges, wide_edges, custom_edges, scope_edges, joined,
  contains_edge, has_role_assignment_edges, has_role_edges, manage_app_edges, reset_factors_edges,
  reset_password_edges, scoped_to_org_edge, scoped_to_group_edges, scoped_to_app_edges,
  group_membership_admin_edges, app_admin_edges, helpdesk_admin_edges, org_admin_edges,
  user_admin_edges, mobile_admin_edges, super_admin_edge, add_member_edges,
  read_client_secret_edges,
}
use openhound_okta.Roles.Within.{
  Within, AddsNothing, left-Within, right-Within, ids_or_empty-Within, itself-Within,
  permission_group_ids-Within, permission_user_ids-Within, permission_app_ids-Within,
  bound_users-Within, bound_groups-Within, bound_apps-Within,
}

module _ (lookup : Lookup) where
  -- The ids where an edge of a kind may end, for the kinds whose roles must not reach administrators.
  abbrev pub reachable : EdgeKind → Option (List String)
  reachable app_admin = some (lookup.non_admin_apps ++ lookup.all_api_services)
  reachable manage_app = some lookup.non_admin_apps
  reachable group_membership_admin = some lookup.non_admin_groups
  reachable add_member = some lookup.non_admin_groups
  reachable helpdesk_admin = some lookup.non_admin_users
  reachable reset_factors = some lookup.non_admin_users
  reachable reset_password = some lookup.non_admin_users
  reachable group_admin = some (lookup.non_admin_groups ++ lookup.non_admin_users)
  reachable org_admin =
      some (lookup.non_admin_users ++ (lookup.non_admin_groups ++ lookup.all_devices))
  reachable mobile_admin = some lookup.all_devices
  reachable contains_node = none
  reachable has_role_assignment = none
  reachable has_role = none
  reachable scoped_to = none
  reachable super_admin = none
  reachable read_client_secret = none

  abbrev ends_within : Option (List String) → Option String → Bool
  ends_within none end_id = true
  ends_within (some ids) none = false
  ends_within (some ids) (some id) = contains ids id

  abbrev pub IsProtected : Edge → Type 0
  IsProtected e = ends_within (reachable e.kind) e.end_id ≡ true

  abbrev AreProtected : List Edge → Type 0
  AreProtected es = All IsProtected es

  All-append : (es fs : List Edge) → AreProtected es → AreProtected fs → AreProtected (es ++ fs)
  All-append [] fs p q = q
  All-append (e ∷ es) fs (p, ps) q = (p, All-append es fs ps q)

  joined-AreProtected : (ess : List (List Edge)) → All AreProtected ess → AreProtected (joined ess)
  unfolding joined
  joined-AreProtected [] h = tt
  joined-AreProtected (es ∷ ess) (p, ps) = All-append es (joined ess) p (joined-AreProtected ess ps)

  reaches-AreProtected :
      (kind : EdgeKind) (a : RoleAssignment) (ids allowed : List String)
      → reachable kind ≡ some allowed
      → Within ids allowed
      → AreProtected (reaches kind a ids)
  unfolding reaches
  reaches-AreProtected kind a [] allowed k h = tt
  reaches-AreProtected kind a (x ∷ xs) allowed k h = (
    rw k (h x (ground arith)),
    reaches-AreProtected kind a xs allowed k (λ y e. h y (ground arith)),
  )

  reaches_free :
      (kind : EdgeKind) (a : RoleAssignment) (ids : List String)
      → reachable kind ≡ none
      → AreProtected (reaches kind a ids)
  unfolding reaches
  reaches_free kind a [] k = tt
  reaches_free kind a (x ∷ xs) k = (rw k refl, reaches_free kind a xs k)

  scopes_free : (a : RoleAssignment) (ids : List String) → AreProtected (scopes a ids)
  unfolding scopes
  scopes_free a [] = tt
  scopes_free a (x ∷ xs) = (refl, scopes_free a xs)

  under : (test : Bool) (es : List Edge) → AreProtected es → AreProtected (if test then es else [])
  under true es p = p
  under false es p = tt

  -- A role with the ids that it may reach.
  role-AreProtected :
      (test : Bool) (kind : EdgeKind) (a : RoleAssignment) (ids allowed : List String)
      → reachable kind ≡ some allowed
      → Within ids allowed
      → AreProtected (if test then reaches kind a ids else [])
  role-AreProtected test kind a ids allowed k h =
      under test (reaches kind a ids) (reaches-AreProtected kind a ids allowed k h)

  scoped_to_org_edge-AreProtected :
      (a : RoleAssignment) → AreProtected (scoped_to_org_edge lookup a)
  unfolding scoped_to_org_edge
  scoped_to_org_edge-AreProtected a = elim (Bool-cases (is_scoped_elsewhere lookup a)) [
    | inl e ↦ rw (scoped_to_org_edge, e) tt
    | inr e ↦ rw (scoped_to_org_edge, e) (scopes_free a (lookup.org_id ∷ []))
  ]

  group_admin-AreProtected :
      (a : RoleAssignment) (groups users : Option (List String))
      → ((ids : List String) → groups ≡ some ids → Within ids lookup.non_admin_groups)
      → ((ids : List String) → users ≡ some ids → Within ids lookup.non_admin_users)
      → AreProtected (elim groups [
        | none ↦ []
        | some gs ↦ elim users [
          | none ↦ []
          | some us ↦ reaches group_admin a gs ++ reaches group_admin a us
        ]
      ])
  group_admin-AreProtected a none users g u = tt
  group_admin-AreProtected a (some gs) none g u = tt
  group_admin-AreProtected a (some gs) (some us) g u =
      let both = lookup.non_admin_groups ++ lookup.non_admin_users in
      All-append (reaches group_admin a gs) (reaches group_admin a us)
        (reaches-AreProtected group_admin a gs both refl
          (λ x e. left-Within lookup.non_admin_groups lookup.non_admin_users x (g gs refl x e)))
        (reaches-AreProtected group_admin a us both refl
          (λ x e. right-Within lookup.non_admin_groups lookup.non_admin_users x (u us refl x e)))

  user_admin_edges-AreProtected : (a : RoleAssignment) → AreProtected (user_admin_edges lookup a)
  unfolding user_admin_edges
  user_admin_edges-AreProtected a = under (a.type == "USER_ADMIN") _ (
      group_admin-AreProtected a (permission_group_ids lookup a) (permission_user_ids lookup a)
        (permission_group_ids-Within lookup a) (permission_user_ids-Within lookup a))

  role_edges-AreProtected :
      AddsNothing lookup → (a : RoleAssignment) → All AreProtected (role_edges lookup a)
  unfolding contains_edge has_role_assignment_edges has_role_edges manage_app_edges
      reset_factors_edges reset_password_edges scoped_to_org_edge scoped_to_group_edges
      scoped_to_app_edges group_membership_admin_edges app_admin_edges helpdesk_admin_edges
      org_admin_edges mobile_admin_edges super_admin_edge add_member_edges read_client_secret_edges
  role_edges-AreProtected adds a =
      let apps = role-AreProtected _ app_admin a _ _ refl (
        ids_or_empty-Within lookup (permission_app_ids lookup a) _
          (permission_app_ids-Within lookup a)) in
      let members = role-AreProtected _ group_membership_admin a _ _ refl (
        ids_or_empty-Within lookup (permission_group_ids lookup a) _
          (permission_group_ids-Within lookup a)) in
      let helpdesk = role-AreProtected _ helpdesk_admin a _ _ refl (
        ids_or_empty-Within lookup (permission_user_ids lookup a) _
          (permission_user_ids-Within lookup a)) in
      let mobile =
        role-AreProtected _ mobile_admin a _ _ refl (itself-Within lookup lookup.all_devices) in
      let super =
        under (a.type == "SUPER_ADMIN") (reaches super_admin a (lookup.org_id ∷ []))
          (reaches_free super_admin a (lookup.org_id ∷ []) refl) in
      let org = role-AreProtected _ org_admin a _ _ refl (itself-Within lookup _) in
      let manage = role-AreProtected _ manage_app a _ _ refl (bound_apps-Within lookup adds a) in
      let factors =
        role-AreProtected _ reset_factors a _ _ refl (bound_users-Within lookup adds a) in
      let password =
        role-AreProtected _ reset_password a _ _ refl (bound_users-Within lookup adds a) in
      let secrets = reaches_free read_client_secret a _ refl in
      let member = role-AreProtected _ add_member a _ _ refl (bound_groups-Within lookup adds a) in
      let scoped : All AreProtected (scope_edges lookup a) = (
        scopes_free a _,
        (scopes_free a _, (scoped_to_org_edge-AreProtected a, (secrets, (member, tt)))),
      ) in
      let custom : All AreProtected (custom_edges lookup a) =
        (manage, (factors, (password, scoped))) in
      let wide : All AreProtected (wide_edges lookup a) =
        (mobile, (super, (org, (user_admin_edges-AreProtected a, custom)))) in
      ((refl, tt), ((refl, tt), ((refl, tt), (apps, (members, (helpdesk, wide))))))

  -- Whatever role an assignment gives, its traversable edges to administer something end only at users, groups and
  -- applications that are no administrators, at API services and at devices; the super administrator's edge to the
  -- organisation and the edges to secrets, roles and scopes are the others.
  pub edges-AreProtected :
      AddsNothing lookup → (a : RoleAssignment) → All IsProtected (edges lookup a)
  unfolding edges
  edges-AreProtected adds a =
      under (is_direct_active_assignment a) (joined (role_edges lookup a))
        (joined-AreProtected (role_edges lookup a) (role_edges-AreProtected adds a))
