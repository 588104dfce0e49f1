-- ===== src/Lookup/Tables/Answers.antt =====
-- The queries answer in ascending order, each id once, with ids that were collected.
use openhound_okta.Base.{
  ◌≡◌, ◌⊎◌, refl, sym, subst, ◌∙◌, true, false, ◌||◌, some, String, List, [], ◌∷◌, ◌++◌, map, ◌==◌,
  string_eq, option_eq, arith, contains, Bool-cases, Option-cases, inl, inr,
}
use openhound_okta.Base.Results.{Result, ok}
use openhound_okta.Base.Sorting.{
  sorted_set, contains-sorted_set, IsAscending, sorted_set-IsAscending,
}
use openhound_okta.Lookup.Tables.{
  Table, applications, api_services, devices, Entry, Database, LookupError, is_devices, with_id,
  with_value, id_of, members_of, members_of_all, graph_id, all_ids, first_device, existing_ids,
  ids_by_value, all_apps_and_integrations, apps_and_integrations_by_type, group_user_ids,
}

pub contains-append :
    (xs ys : List String) (k : String) → contains (xs ++ ys) k ≡ (contains xs k || contains ys k)
contains-append [] ys k = refl
contains-append (x ∷ xs) ys k = ground (arith, contains-append xs ys k)

-- The member of some group.
abbrev IsMember : List (String × String) → String → Type 0
IsMember rows k = (group_id : String) × (contains (members_of group_id rows) k ≡ true)

-- The id of an object that was collected, or of a member of a group.
abbrev pub IsCollected : Database → String → Type 0
IsCollected db k =
    ((t : Table) × (contains (all_ids db t) k ≡ true))
    ⊎ ((rows : List (String × String)) × (db.group_memberships ≡ some rows) × IsMember rows k)

-- Ids in ascending order, each once, all of them collected.
pub record IsAnswer (db : Database) (ids : List String) : Type 0 where
  pub ascending : IsAscending ids
  pub collected : (k : String) → contains ids k ≡ true → IsCollected db k

members_of_all-IsMember :
    (group_ids : List String) (rows : List (String × String)) (k : String)
    → contains (members_of_all group_ids rows) k ≡ true
    → IsMember rows k
unfolding members_of_all
members_of_all-IsMember [] rows k h = cc
members_of_all-IsMember (group_id ∷ group_ids) rows k h =
    elim (Bool-cases (contains (members_of group_id rows) k)) [
      | inl here ↦ (group_id, here)
      | inr later ↦ members_of_all-IsMember group_ids rows k (
          ground
            (arith, contains-append (members_of group_id rows) (members_of_all group_ids rows) k))
    ]

with_id-contains :
    (x k : String) (rows : List Entry)
    → contains (map id_of (with_id x rows)) k ≡ true
    → contains (map id_of rows) k ≡ true
unfolding with_id
with_id-contains x k [] h = h
with_id-contains x k (row ∷ rows) h = ground (arith, with_id-contains x k rows)

with_value-contains :
    (x k : String) (rows : List Entry)
    → contains (map id_of (with_value x rows)) k ≡ true
    → contains (map id_of rows) k ≡ true
unfolding with_value
with_value-contains x k [] h = h
with_value-contains x k (row ∷ rows) h = ground (arith, with_value-contains x k rows)

ok_path : {xs ys : List String} → Path (Result LookupError (List String)) (ok xs) (ok ys) → xs ≡ ys
ok_path h = ground arith

devices_only : (t : Table) → is_devices t ≡ true → t ≡ devices
devices_only devices h = refl
devices_only _ h = cc

module _ (db : Database) where
  pub empty-IsAnswer : IsAnswer db []
  empty-IsAnswer = record { ascending = tt; collected = λ k h. cc }

  -- A sorted set of ids that stand in two answers.
  pub union-IsAnswer :
      (xs ys : List String) → IsAnswer db xs → IsAnswer db ys → IsAnswer db (sorted_set (xs ++ ys))
  union-IsAnswer xs ys from_xs from_ys = record {
    ascending = sorted_set-IsAscending (xs ++ ys);
    collected = λ k h. elim (Bool-cases (contains xs k)) [
      | inl here ↦ from_xs.collected k here
      | inr later ↦
          from_ys.collected k
            (ground (arith, contains-sorted_set (xs ++ ys) k, contains-append xs ys k))
    ];
  }

  pub sorted_set-IsAnswer : (xs : List String) → IsAnswer db xs → IsAnswer db (sorted_set xs)
  sorted_set-IsAnswer xs from_xs = record {
    ascending = sorted_set-IsAscending xs;
    collected = λ k h. from_xs.collected k (sym (contains-sorted_set xs k) ∙ h);
  }

  all_ids-IsAscending : (t : Table) → IsAscending (all_ids db t)
  unfolding all_ids
  all_ids-IsAscending t = elim (Option-cases (db.table t)) [
    | inl absent ↦ rw (all_ids, absent) tt
    | inr (rows, there) ↦ rw (all_ids, there) (sorted_set-IsAscending (map (graph_id db t) rows))
  ]

  pub all_ids-IsAnswer : (t : Table) → IsAnswer db (all_ids db t)
  all_ids-IsAnswer t = record { ascending = all_ids-IsAscending t; collected = λ k h. inl (t, h) }

  -- The ids of other tables than that of devices are those of the graph.
  same_ids :
      (t : Table) (rows : List Entry)
      → is_devices t ≡ false
      → map (graph_id db t) rows ≡ map id_of rows
  unfolding graph_id
  same_ids t [] h = refl
  same_ids t (row ∷ rows) h = rw (h, same_ids t rows h) refl

  collected_in :
      (t : Table) (rows : List Entry) (k : String)
      → db.table t ≡ some rows
      → contains (map (graph_id db t) rows) k ≡ true
      → IsCollected db k
  unfolding all_ids
  collected_in t rows k there h =
      inl (t, rw (all_ids, there) (contains-sorted_set (map (graph_id db t) rows) k ∙ h))

  first_device-is :
      (k : String) (row : Entry) (rows : List Entry)
      → contains (first_device db (row ∷ rows)) k ≡ true
      → (k == graph_id db devices row) ≡ true
  unfolding first_device
  first_device-is k row rows h = elim (Bool-cases (graph_id db devices row == "")) [
    | inl empty ↦ ground arith
    | inr there ↦ ground arith
  ]

  one_at_most : (rows : List Entry) → IsAscending (first_device db rows)
  unfolding first_device
  one_at_most [] = tt
  one_at_most (row ∷ rows) = elim (Bool-cases (graph_id db devices row == "")) [
    | inl empty ↦ rw (first_device, empty) tt
    | inr there ↦ rw (first_device, there) (tt, tt)
  ]

  first_device-contains :
      (x k : String) (rows : List Entry)
      → contains (first_device db (with_id x rows)) k ≡ true
      → contains (map (graph_id db devices) rows) k ≡ true
  unfolding with_id first_device
  first_device-contains x k [] h = cc
  first_device-contains x k (row ∷ rows) h = elim (Bool-cases (row.id == x)) [
    | inl found ↦ ground (arith, first_device-is k row (with_id x rows))
    | inr other ↦ ground (arith, first_device-contains x k rows)
  ]

  first_device-IsAnswer :
      (x : String) (rows : List Entry)
      → db.table devices ≡ some rows
      → IsAnswer db (first_device db (with_id x rows))
  first_device-IsAnswer x rows there = record {
    ascending = one_at_most (with_id x rows);
    collected = λ k h. collected_in devices rows k there (first_device-contains x k rows h);
  }

  pub existing_ids-IsAnswer : (t : Table) (x : String) → IsAnswer db (existing_ids db t x)
  unfolding existing_ids
  existing_ids-IsAnswer t x = elim (Option-cases (db.table t)) [
    | inl absent ↦ rw (existing_ids, absent) empty-IsAnswer
    | inr (rows, there) ↦ elim (Bool-cases (is_devices t)) [
      | inl is ↦
          rw (existing_ids, there, is)
            (first_device-IsAnswer x rows
              (subst (λ s. db.table s ≡ some rows) (devices_only t is) there))
      | inr not ↦
          rw (existing_ids, there, not)
            (record {
              ascending = sorted_set-IsAscending (map id_of (with_id x rows));
              collected = λ k h. collected_in t rows k there (
                  subst (λ ids. contains ids k ≡ true) (sym (same_ids t rows not))
                    (with_id-contains x k rows
                      (sym (contains-sorted_set (map id_of (with_id x rows)) k) ∙ h)));
            })
    ]
  ]

  pub ids_by_value-IsAnswer :
      (t : Table) (value : String) → is_devices t ≡ false → IsAnswer db (ids_by_value db t value)
  unfolding ids_by_value
  ids_by_value-IsAnswer t value other = elim (Option-cases (db.table t)) [
    | inl absent ↦ rw (ids_by_value, absent) empty-IsAnswer
    | inr (rows, there) ↦
        rw (ids_by_value, there)
          (record {
            ascending = sorted_set-IsAscending (map id_of (with_value value rows));
            collected = λ k h. collected_in t rows k there (
                subst (λ ids. contains ids k ≡ true) (sym (same_ids t rows other))
                  (with_value-contains value k rows
                    (sym (contains-sorted_set (map id_of (with_value value rows)) k) ∙ h)));
          })
  ]

  pub all_apps_and_integrations-IsAnswer : IsAnswer db (all_apps_and_integrations db)
  unfolding all_apps_and_integrations
  all_apps_and_integrations-IsAnswer =
      union-IsAnswer (all_ids db applications) (all_ids db api_services)
        (all_ids-IsAnswer applications) (all_ids-IsAnswer api_services)

  pub apps_and_integrations_by_type-IsAnswer :
      (app_type : String) → IsAnswer db (apps_and_integrations_by_type db app_type)
  unfolding apps_and_integrations_by_type
  apps_and_integrations_by_type-IsAnswer app_type =
      union-IsAnswer (ids_by_value db applications app_type) (ids_by_value db api_services app_type)
        (ids_by_value-IsAnswer applications app_type refl)
        (ids_by_value-IsAnswer api_services app_type refl)

  pub group_user_ids-IsAnswer :
      (group_ids ids : List String) → group_user_ids db group_ids ≡ ok ids → IsAnswer db ids
  unfolding group_user_ids
  group_user_ids-IsAnswer [] ids h = subst (IsAnswer db) (ok_path h) empty-IsAnswer
  group_user_ids-IsAnswer (group_id ∷ group_ids) ids h = elim (Option-cases db.group_memberships) [
    | inl absent ↦ ground arith
    | inr (rows, there) ↦
        let all = members_of_all (group_id ∷ group_ids) rows in
        let same : sorted_set all ≡ ids = ground arith in
        subst (IsAnswer db) same (record {
          ascending = sorted_set-IsAscending all;
          collected = λ k h. inr (
            rows,
            there,
            members_of_all-IsMember (group_id ∷ group_ids) rows k
                (sym (contains-sorted_set all k) ∙ h),
          );
        })
  ]
