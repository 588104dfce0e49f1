-- ===== src/Lookup/Resolve/Members.antt =====
-- A member of a resource set that stands for the members of a group: `resource_member_group_id` and the resolution agree.
use openhound_okta.Base.{
  ◌≡◌, refl, subst, ◌∙◌, true, false, Option, none, some, String, List, [], ◌∷◌, ◌==◌, string_eq,
  nat_eq, arith, length, Bool-cases, Option-cases, inl, inr,
}
use openhound_okta.Base.Paths.{
  parts_at, last_or, at_or, but_last, rstrip, begins_with, ends_with_text, begins_with_both,
  are_comparable,
}
use openhound_okta.Base.Results.{Result, ok}
use openhound_okta.Lookup.Tables.{Database, Resource, LookupError, group_user_ids}
use openhound_okta.Lookup.Resolve.{
  UrlReader, is_given, or_slash, second_last, group_of_path, group_of_orn, resource_member_group_id,
  resolve_directory, resolve_resource_url, resolve_resource_orn, resolve_resource,
}

-- Of six parts the fifth is the last but one.
fifth_of_six : (parts : List String) → length parts ≡ 6 → second_last parts ≡ at_or "" 4 parts
unfolding second_last last_or but_last at_or
fifth_of_six [] h = ground arith
fifth_of_six (a ∷ []) h = ground arith
fifth_of_six (a ∷ b ∷ []) h = ground arith
fifth_of_six (a ∷ b ∷ c ∷ []) h = ground arith
fifth_of_six (a ∷ b ∷ c ∷ d ∷ []) h = ground arith
fifth_of_six (a ∷ b ∷ c ∷ d ∷ e ∷ []) h = ground arith
fifth_of_six (a ∷ b ∷ c ∷ d ∷ e ∷ f ∷ []) h = refl
fifth_of_six (a ∷ b ∷ c ∷ d ∷ e ∷ f ∷ g ∷ gs) h = ground arith

groups_apart_users : are_comparable "/api/v1/groups/" "/api/v1/users/" ≡ false
unfolding are_comparable nat_eq
groups_apart_users = refl

no_users_in_groups : begins_with "/api/v1/groups/" "/api/v1/users" ≡ false
unfolding begins_with nat_eq
no_users_in_groups = refl

no_groups_in_groups : begins_with "/api/v1/groups/" "/api/v1/groups" ≡ false
unfolding begins_with nat_eq
no_groups_in_groups = refl

no_empty_in_groups : begins_with "/api/v1/groups/" "" ≡ false
unfolding begins_with
no_empty_in_groups = refl

-- A path below `/api/v1/groups/` is no other text and is not below `/api/v1/users/`.
not_path :
    (path other : String)
    → begins_with "/api/v1/groups/" path ≡ true
    → begins_with "/api/v1/groups/" other ≡ false
    → (path == other) ≡ false
not_path path other h k = elim (Bool-cases (path == other)) [
  | inl same ↦
      let e : path ≡ other = ground arith in
      absurd (cc (subst (λ s. begins_with "/api/v1/groups/" s ≡ true) e h, k))
  | inr e ↦ e
]

not_users :
    (path : String)
    → begins_with "/api/v1/groups/" path ≡ true
    → begins_with "/api/v1/users/" path ≡ false
not_users path h = elim (Bool-cases (begins_with "/api/v1/users/" path)) [
  | inl other ↦
      absurd
        (cc (begins_with_both "/api/v1/groups/" "/api/v1/users/" path h other, groups_apart_users))
  | inr e ↦ e
]

group_of_path_lem :
    (path group_id : String)
    → group_of_path path ≡ some group_id
    → (begins_with "/api/v1/groups/" path ≡ true)
      × (ends_with_text "/users" path ≡ true)
      × (second_last (parts_at b'/' path) ≡ group_id)
unfolding group_of_path
group_of_path_lem path group_id h =
    (ground arith, ground arith, fifth_of_six (parts_at b'/' path) (ground arith) ∙ ground arith)

module _ (u : UrlReader) (db : Database) where
  resolve_directory_members :
      (path group_id : String) (other : Result LookupError (List String))
      → group_of_path path ≡ some group_id
      → resolve_directory u db path other ≡ group_user_ids db (group_id ∷ [])
  unfolding resolve_directory
  resolve_directory_members path group_id other h =
      let (below, ends, same) = group_of_path_lem path group_id h in
      rw
        (
          not_path path "/api/v1/users" below no_users_in_groups,
          not_users path below,
          not_path path "/api/v1/groups" below no_groups_in_groups,
          below,
          ends,
          same,
        )
        refl

  url_members :
      (url orn : Option String) (group_id : String)
      → is_given url ≡ true
      → resource_member_group_id u url orn ≡ ok (some group_id)
      → resolve_resource_url u db url ≡ group_user_ids db (group_id ∷ [])
  unfolding resource_member_group_id resolve_resource_url
  url_members none orn group_id given_url h = cc
  url_members (some url) orn group_id given_url h = elim (Bool-cases (url == "")) [
    | inl empty ↦ ground arith
    | inr there ↦ elim (Option-cases (u.urlparse url)) [
      | inl unread ↦ ground arith
      | inr (parsed, read) ↦
          let path = rstrip b'/' parsed.path in
          let found : group_of_path path ≡ some group_id = ground arith in
          let whole : or_slash path ≡ path =
            rw (not_path path "" (group_of_path_lem path group_id found).0 no_empty_in_groups)
              refl in
          rw (there, read, whole) (resolve_directory_members path group_id _ found)
    ]
  ]

  orn_members :
      (url orn : Option String) (group_id : String)
      → is_given url ≡ false
      → resource_member_group_id u url orn ≡ ok (some group_id)
      → resolve_resource_orn db orn ≡ group_user_ids db (group_id ∷ [])
  unfolding resource_member_group_id resolve_resource_orn
  orn_members url none group_id no_url h = ground arith
  orn_members url (some orn) group_id no_url h = elim (Bool-cases (orn == "")) [
    | inl empty ↦ ground arith
    | inr there ↦
        let found : group_of_orn (parts_at b':' orn) ≡ some group_id = ground arith in
        rw (there, found) refl
  ]

  -- A member of a resource set that `resource_member_group_id` reads as the members of a group, by its URL or its ORN, is
  -- resolved to the members of that very group.
  pub member_group_resolves :
      (resource : Resource) (group_id : String)
      → resource_member_group_id u resource.self_href resource.orn ≡ ok (some group_id)
      → resolve_resource u db resource ≡ group_user_ids db (group_id ∷ [])
  unfolding resource_member_group_id resolve_resource
  member_group_resolves resource group_id h = elim (Bool-cases (is_given resource.self_href)) [
    | inl url ↦ rw url (url_members resource.self_href resource.orn group_id url h)
    | inr no_url ↦ rw no_url (orn_members resource.self_href resource.orn group_id no_url h)
  ]
