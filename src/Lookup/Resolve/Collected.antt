-- ===== src/Lookup/Resolve/Collected.antt =====
-- What the members of resource sets are resolved to: collected ids, in ascending order, and all of them.
use openhound_okta.Base.{
  if_keeps, ◌≡◌, refl, sym, subst, ◌∙◌, true, Option, none, some, String, List, [], ◌∷◌, ◌==◌,
  string_eq, nat_eq, arith, contains, Bool-cases, Option-cases, inl, inr,
}
use openhound_okta.Base.Paths.{parts_at, last_or, at_or, but_last, last_part, rstrip}
use openhound_okta.Base.Results.{Result, ok}
use openhound_okta.Base.Sorting.{sorted_set, contains-sorted_set, sorted_set-IsAscending}
use openhound_okta.Lookup.Tables.{
  Table, users, groups, applications, api_services, authorization_servers, identity_providers,
  policies, devices, Database, Resource, LookupError, existing_ids, group_user_ids,
}
use openhound_okta.Lookup.Tables.Answers.{
  IsAnswer, IsCollected, contains-append, empty-IsAnswer, union-IsAnswer, all_ids-IsAnswer,
  existing_ids-IsAnswer, ids_by_value-IsAnswer, all_apps_and_integrations-IsAnswer,
  apps_and_integrations_by_type-IsAnswer, group_user_ids-IsAnswer,
}
use openhound_okta.Lookup.Resolve.{
  UrlReader, is_given, or_slash, second_last, group_of_orn, app_type_from_filter, resolve_directory,
  resolve_apps, resolve_policies, resolve_object, resolve_resource_url, resource_collection,
  existing_in, resolve_target, resource_types, resolve_parts, resolve_resource_orn,
  resolve_resource,
}

-- What is returned, if anything is, is an answer.
pub record Answers (db : Database) (r : Result LookupError (List String)) : Type 0 where
  pub answer : (ids : List String) → r ≡ ok ids → IsAnswer db ids

-- What is there is an answer.
record Optional (db : Database) (o : Option (List String)) : Type 0 where
  answer : (ids : List String) → o ≡ some ids → IsAnswer db ids

none-Optional : (db : Database) → Optional db none
none-Optional db = record {
  answer = λ ids h. (let no : Path (Option (List String)) none (some ids) = h in cc);
}

some-Optional : (db : Database) (ids : List String) → IsAnswer db ids → Optional db (some ids)
some-Optional db ids answer = record {
  answer = λ out h. (let same : ids ≡ out = ground arith in subst (IsAnswer db) same answer);
}

ok-Answers : (db : Database) (ids : List String) → IsAnswer db ids → Answers db (ok ids)
ok-Answers db ids answer = record {
  answer = λ out h. (let same : ids ≡ out = ground arith in subst (IsAnswer db) same answer);
}

members-Answers :
    (db : Database) (group_ids : List String) → Answers db (group_user_ids db group_ids)
members-Answers db group_ids = record { answer = group_user_ids-IsAnswer db group_ids }

module _ (u : UrlReader) (db : Database) where
  resolve_apps-IsAnswer : (query : String) → IsAnswer db (resolve_apps u db query)
  unfolding resolve_apps
  resolve_apps-IsAnswer query =
      if_keeps (IsAnswer db) (query == "") (all_apps_and_integrations-IsAnswer db)
        (elim (Option-cases (app_type_from_filter u query)) [
          | inl other ↦ rw other (empty-IsAnswer db)
          | inr (app_type, is) ↦ rw is (apps_and_integrations_by_type-IsAnswer db app_type)
        ])

  resolve_policies-IsAnswer : (query : String) → IsAnswer db (resolve_policies u db query)
  unfolding resolve_policies
  resolve_policies-IsAnswer query = elim (Option-cases (u.first_value query "type")) [
    | inl all ↦ rw (resolve_policies, all) (all_ids-IsAnswer db policies)
    | inr (policy_type, is) ↦
        rw (resolve_policies, is)
          (if_keeps (IsAnswer db) (policy_type == "") (all_ids-IsAnswer db policies)
            (ids_by_value-IsAnswer db policies policy_type refl))
  ]

  resolve_object-IsAnswer : (path query : String) → IsAnswer db (resolve_object u db path query)
  unfolding resolve_object
  resolve_object-IsAnswer path query =
      let id = last_part b'/' path in
      if_keeps (IsAnswer db) _ (resolve_apps-IsAnswer query) (
        if_keeps (IsAnswer db) _
          (union-IsAnswer db (existing_ids db applications id) (existing_ids db api_services id)
            (existing_ids-IsAnswer db applications id) (existing_ids-IsAnswer db api_services id))
          (if_keeps (IsAnswer db) _ (all_ids-IsAnswer db authorization_servers) (
            if_keeps (IsAnswer db) _ (existing_ids-IsAnswer db authorization_servers id) (
              if_keeps (IsAnswer db) _ (all_ids-IsAnswer db devices) (
                if_keeps (IsAnswer db) _ (existing_ids-IsAnswer db devices id) (
                  if_keeps (IsAnswer db) _ (all_ids-IsAnswer db identity_providers) (
                    if_keeps (IsAnswer db) _ (existing_ids-IsAnswer db identity_providers id) (
                      if_keeps (IsAnswer db) _ (resolve_policies-IsAnswer query) (
                        if_keeps (IsAnswer db) _ (ids_by_value-IsAnswer db policies id refl)
                          (empty-IsAnswer db))))))))))

  resolve_directory-Answers :
      (path : String) (other : Result LookupError (List String))
      → Answers db other
      → Answers db (resolve_directory u db path other)
  unfolding resolve_directory
  resolve_directory-Answers path other h =
      let id = last_part b'/' path in
      if_keeps (Answers db) _ (ok-Answers db _ (all_ids-IsAnswer db users)) (
        if_keeps (Answers db) _ (ok-Answers db _ (existing_ids-IsAnswer db users id)) (
          if_keeps (Answers db) _ (ok-Answers db _ (all_ids-IsAnswer db groups)) (
            if_keeps (Answers db) _ (members-Answers db (second_last (parts_at b'/' path) ∷ []))
              (if_keeps (Answers db) _ (ok-Answers db _ (existing_ids-IsAnswer db groups id)) h))))

  resolve_resource_url-Answers : (url : Option String) → Answers db (resolve_resource_url u db url)
  unfolding resolve_resource_url
  resolve_resource_url-Answers none = ok-Answers db [] (empty-IsAnswer db)
  resolve_resource_url-Answers (some url) =
      if_keeps (Answers db) (url == "") (ok-Answers db [] (empty-IsAnswer db))
        (elim (Option-cases (u.urlparse url)) [
          | inl unread ↦ rw unread (record { answer = λ ids h. cc })
          | inr (parsed, read) ↦
              let path = or_slash (rstrip b'/' parsed.path) in
              rw read (
                resolve_directory-Answers path (ok (resolve_object u db path parsed.query))
                  (ok-Answers db _ (resolve_object-IsAnswer path parsed.query)))
        ])

module _ (db : Database) where
  existing_in-IsCollected :
      (tables : List Table) (target_id k : String)
      → contains (existing_in db tables target_id) k ≡ true
      → IsCollected db k
  unfolding existing_in
  existing_in-IsCollected [] target_id k h = cc
  existing_in-IsCollected (t ∷ ts) target_id k h =
      elim (Bool-cases (contains (existing_ids db t target_id) k)) [
        | inl here ↦ (existing_ids-IsAnswer db t target_id).collected k here
        | inr later ↦ existing_in-IsCollected ts target_id k (
            ground (
              arith,
              contains-append (existing_ids db t target_id) (existing_in db ts target_id) k,
            ))
      ]

  existing_in-IsAnswer :
      (tables : List Table) (target_id : String)
      → IsAnswer db (sorted_set (existing_in db tables target_id))
  existing_in-IsAnswer tables target_id = record {
    ascending = sorted_set-IsAscending (existing_in db tables target_id);
    collected = λ k h.
        existing_in-IsCollected tables target_id k
          (sym (contains-sorted_set (existing_in db tables target_id) k) ∙ h);
  }

  resolve_target-IsAnswer :
      (types : List (String × List Table)) (names : List String) (target_id : String)
      → IsAnswer db (resolve_target db types names target_id)
  unfolding resolve_target
  resolve_target-IsAnswer [] names target_id = empty-IsAnswer db
  resolve_target-IsAnswer ((resource_type, tables) ∷ types) names target_id =
      if_keeps (IsAnswer db) (contains names resource_type) (existing_in-IsAnswer tables target_id)
        (resolve_target-IsAnswer types names target_id)

  resource_collection-Optional : (name : String) → Optional db (resource_collection db name)
  unfolding resource_collection
  resource_collection-Optional name =
      if_keeps (Optional db) _ (some-Optional db _ (all_ids-IsAnswer db users)) (
        if_keeps (Optional db) _ (some-Optional db _ (all_ids-IsAnswer db groups)) (
          if_keeps (Optional db) _ (some-Optional db _ (all_apps_and_integrations-IsAnswer db)) (
            if_keeps (Optional db) _ (some-Optional db _ (all_ids-IsAnswer db devices)) (
              if_keeps (Optional db) _
                (some-Optional db _ (all_ids-IsAnswer db authorization_servers))
                (if_keeps (Optional db) _
                  (some-Optional db _ (all_ids-IsAnswer db identity_providers))
                  (if_keeps (Optional db) _ (some-Optional db _ (all_ids-IsAnswer db policies))
                    (none-Optional db)))))))

  resolve_parts-IsAnswer : (parts : List String) → IsAnswer db (resolve_parts db parts)
  unfolding resolve_parts
  resolve_parts-IsAnswer parts = elim (Option-cases (resource_collection db (last_or "" parts))) [
    | inl single ↦
        rw (resolve_parts, single)
          (if_keeps (IsAnswer db) _ (apps_and_integrations_by_type-IsAnswer db (at_or "" 5 parts)) (
            if_keeps (IsAnswer db) _ (ids_by_value-IsAnswer db policies (at_or "" 5 parts) refl)
              (resolve_target-IsAnswer resource_types (but_last parts) (last_or "" parts))))
    | inr (ids, whole) ↦
        rw (resolve_parts, whole)
          ((resource_collection-Optional (last_or "" parts)).answer ids whole)
  ]

  resolve_resource_orn-Answers : (orn : Option String) → Answers db (resolve_resource_orn db orn)
  unfolding resolve_resource_orn
  resolve_resource_orn-Answers none = ok-Answers db [] (empty-IsAnswer db)
  resolve_resource_orn-Answers (some orn) =
      if_keeps (Answers db) (orn == "") (ok-Answers db [] (empty-IsAnswer db))
        (elim (Option-cases (group_of_orn (parts_at b':' orn))) [
          | inl single ↦ rw single (ok-Answers db _ (resolve_parts-IsAnswer (parts_at b':' orn)))
          | inr (group_id, members) ↦ rw members (members-Answers db (group_id ∷ []))
        ])

module _ (u : UrlReader) (db : Database) where
  pub resolve_resource-Answers : (resource : Resource) → Answers db (resolve_resource u db resource)
  unfolding resolve_resource
  resolve_resource-Answers resource =
      if_keeps (Answers db) (is_given resource.self_href)
        (resolve_resource_url-Answers u db resource.self_href)
        (resolve_resource_orn-Answers db resource.orn)
