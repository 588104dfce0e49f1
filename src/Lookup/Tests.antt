-- ===== src/Lookup/Tests.antt =====
-- Runs of lookup.py on a concrete database.
use openhound_okta.Base.{
  ◌≡◌, ◌↔◌, refl, true, false, none, some, String, List, [], ◌∷◌, contains, string_eq, nat_eq,
  option_eq,
}
use openhound_okta.Base.Results.{ok}
use openhound_okta.Base.Sorting.{IsAscending}
use openhound_okta.Lookup.Tables.{
  Database, Resource, users, groups, applications, all_ids, group_user_ids,
}
use openhound_okta.Lookup.Tables.Answers.{IsCollected}
use openhound_okta.Lookup.Resolve.{
  UrlReader, app_type_of, resource_member_group_id, resolve_resource, resource_set_member_ids,
  resource_set_ids_in_table,
}
use openhound_okta.Lookup.Resolve.Members.{member_group_resolves}
use openhound_okta.Lookup.Resolve.Sets.{IsMemberId, resource_set_member_ids_lem}

-- URLs without a host.
abbrev plain_urls : UrlReader
plain_urls = record {
  urlparse = λ s. some (record { path = s; query = "" });
  first_value = λ query key. none;
}

abbrev member_of_set : String → Resource
member_of_set href = record { resource_set_id = "iam1"; self_href = some href; orn = none }

abbrev by_orn : Resource
by_orn = record {
  resource_set_id = "iam1";
  self_href = none;
  orn = some "orn:okta:idp:00o1:apps:githubcloud:0oa2";
}

abbrev set_rows : List Resource
set_rows =
    member_of_set "/api/v1/groups/00g1/users"
    ∷ by_orn
    ∷ record { resource_set_id = "iam2"; self_href = some "/api/v1/users/00u3"; orn = none }
    ∷ member_of_set "/api/v1/users/00u1/"
    ∷ []

abbrev collected : Database
collected = record {
  tenant_domain = some "acme.okta.com";
  table = λ t. elim t [
    | users ↦ some (
        record { id = "00u3"; value = none }
        ∷ record { id = "00u1"; value = none }
        ∷ record { id = "00u2"; value = none }
        ∷ [])
    | groups ↦ some (record { id = "00g1"; value = none } ∷ [])
    | applications ↦ some (record { id = "0oa2"; value = some "githubcloud" } ∷ [])
    | _ ↦ none
  ];
  devices_have_profiles = false;
  group_memberships = some (("00g1", "00u2") ∷ ("00g2", "00u3") ∷ ("00g1", "00u1") ∷ []);
  resources = some set_rows;
  resource_set_role_assignments = none;
}

users_are_sorted : all_ids collected users ≡ "00u1" ∷ "00u2" ∷ "00u3" ∷ []
unfolding all_ids string_eq nat_eq
users_are_sorted = refl

filter_is_read : app_type_of "name eq \"githubcloud\"" ≡ some "githubcloud"
unfolding app_type_of string_eq nat_eq
filter_is_read = refl

filter_has_one_name : app_type_of "name eq \"a\" or name eq \"b\"" ≡ none
unfolding app_type_of string_eq nat_eq
filter_has_one_name = refl

set_members :
    resource_set_member_ids plain_urls collected "iam1" ≡ ok ("00u1" ∷ "00u2" ∷ "0oa2" ∷ [])
unfolding resource_set_member_ids string_eq nat_eq option_eq
set_members = refl

set_users : resource_set_ids_in_table plain_urls collected "iam1" users ≡ ok ("00u1" ∷ "00u2" ∷ [])
unfolding resource_set_ids_in_table string_eq nat_eq option_eq
set_users = refl

group_is_read :
    resource_member_group_id plain_urls (some "/api/v1/groups/00g1/users") none ≡ ok (some "00g1")
unfolding resource_member_group_id string_eq nat_eq
group_is_read = refl

member_group_resolves_example :
    resolve_resource plain_urls collected (member_of_set "/api/v1/groups/00g1/users")
    ≡ group_user_ids collected ("00g1" ∷ [])
member_group_resolves_example =
    member_group_resolves plain_urls collected (member_of_set "/api/v1/groups/00g1/users") "00g1"
      group_is_read

resource_set_member_ids_lem_example :
    IsAscending ("00u1" ∷ "00u2" ∷ "0oa2" ∷ [])
    × ((k : String)
        → (contains ("00u1" ∷ "00u2" ∷ "0oa2" ∷ []) k ≡ true)
          ↔ IsMemberId plain_urls collected "iam1" k set_rows)
    × ((k : String) → contains ("00u1" ∷ "00u2" ∷ "0oa2" ∷ []) k ≡ true → IsCollected collected k)
resource_set_member_ids_lem_example =
    resource_set_member_ids_lem plain_urls collected "iam1" set_rows ("00u1" ∷ "00u2" ∷ "0oa2" ∷ [])
      refl set_members
