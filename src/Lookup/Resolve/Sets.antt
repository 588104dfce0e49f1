-- ===== src/Lookup/Resolve/Sets.antt =====
-- `resource_set_member_ids`: what the rows of a resource set are resolved to.
use openhound_okta.Base.{
  ◌≡◌, ◌⊎◌, ◌↔◌, sym, ap, subst, ◌∙◌, true, ◌||◌, some, String, List, [], ◌∷◌, ◌++◌, ◌==◌,
  string_eq, arith, contains, Bool-cases, inl, inr, ==_iff,
}
use openhound_okta.Base.Results.{ok, ◌>>=◌, bind-ok}
use openhound_okta.Base.Sorting.{
  sorted_set, contains-sorted_set, IsAscending, sorted_set-IsAscending,
}
use openhound_okta.Lookup.Tables.{Database, Resource}
use openhound_okta.Lookup.Tables.Answers.{IsCollected, contains-append}
use openhound_okta.Lookup.Resolve.{
  UrlReader, resolve_resource, resolve_all, resource_set_member_ids,
}
use openhound_okta.Lookup.Resolve.Collected.{resolve_resource-Answers}

contains_either :
    (xs ys zs : List String) (k : String)
    → xs ++ ys ≡ zs
    → (contains xs k || contains ys k) ≡ contains zs k
contains_either xs ys zs k h = sym (contains-append xs ys k) ∙ ap (λ ids. contains ids k) h

module _ (u : UrlReader) (db : Database) where
  -- The id is one that this row is resolved to.
  abbrev pub IsResolved : String → Resource → Type 0
  IsResolved k resource =
      (ids : List String) × (resolve_resource u db resource ≡ ok ids) × (contains ids k ≡ true)

  -- The id is one that a row of the resource set is resolved to.
  abbrev pub IsMemberId : String → String → List Resource → Type 0
  IsMemberId resource_set_id k [] = ⊥
  IsMemberId resource_set_id k (resource ∷ resources) =
      ((resource.resource_set_id ≡ resource_set_id) × IsResolved k resource)
      ⊎ IsMemberId resource_set_id k resources

  same_row :
      (row : Resource) (xs : List String) (k : String)
      → resolve_resource u db row ≡ ok xs
      → IsResolved k row
      → contains xs k ≡ true
  same_row row xs k is (ys, other, here) =
      let same : ys ≡ xs = cc in subst (λ ids. contains ids k ≡ true) same here

  resolve_all_lem :
      (resource_set_id : String) (rows : List Resource) (ids : List String)
      → resolve_all u db resource_set_id rows ≡ ok ids
      → (k : String) → (contains ids k ≡ true) ↔ IsMemberId resource_set_id k rows
  unfolding resolve_all
  resolve_all_lem resource_set_id [] ids h k = (λ there. ground arith, λ m. absurd m)
  resolve_all_lem resource_set_id (row ∷ rows) ids h k =
      elim (Bool-cases (row.resource_set_id == resource_set_id)) [
        | inl of_set ↦
            let (xs, resolved, h1) =
              bind-ok (resolve_resource u db row)
                (λ xs. (resolve_all u db resource_set_id rows >>= λ more. ok (xs ++ more)))
                {b = ids} (ground arith) in
            let (more, rest, h2) =
              bind-ok (resolve_all u db resource_set_id rows) (λ more. ok (xs ++ more)) {b = ids}
                h1 in
            let (to, from) = resolve_all_lem resource_set_id rows more rest k in
            let same = contains_either xs more ids k (ground arith) in
            (
              λ there. elim (Bool-cases (contains xs k)) [
                | inl here ↦
                    inl
                      ((==_iff row.resource_set_id resource_set_id).0 of_set, (xs, resolved, here))
                | inr later ↦ inr (to (ground arith))
              ],
              λ m. elim m [
                | inl (_, is) ↦ (let here = same_row row xs k resolved is in ground arith)
                | inr later ↦ (let there = from later in ground arith)
              ],
            )
        | inr of_other ↦
            let rest : resolve_all u db resource_set_id rows ≡ ok ids = ground arith in
            let (to, from) = resolve_all_lem resource_set_id rows ids rest k in
            (
              λ there. inr (to there),
              λ m. elim m [ inl (equal, _) ↦ ground arith | inr later ↦ from later ],
            )
      ]

  IsMemberId-IsCollected :
      (resource_set_id k : String) (rows : List Resource)
      → IsMemberId resource_set_id k rows
      → IsCollected db k
  IsMemberId-IsCollected resource_set_id k [] m = absurd m
  IsMemberId-IsCollected resource_set_id k (row ∷ rows) (inl (_, (ids, resolved, here))) =
      ((resolve_resource-Answers u db row).answer ids resolved).collected k here
  IsMemberId-IsCollected resource_set_id k (row ∷ rows) (inr later) =
      IsMemberId-IsCollected resource_set_id k rows later

  -- The members of a resource set, if nothing raises: in ascending order and each once, they are exactly the ids that the
  -- rows of the set are resolved to, and all of them were collected.
  pub resource_set_member_ids_lem :
      (resource_set_id : String) (rows : List Resource) (ids : List String)
      → db.resources ≡ some rows
      → resource_set_member_ids u db resource_set_id ≡ ok ids
      → IsAscending ids
        × ((k : String) → (contains ids k ≡ true) ↔ IsMemberId resource_set_id k rows)
        × ((k : String) → contains ids k ≡ true → IsCollected db k)
  unfolding resource_set_member_ids
  resource_set_member_ids_lem resource_set_id rows ids there h =
      let (all, resolved, h1) =
        bind-ok (resolve_all u db resource_set_id rows) (λ ids. ok (sorted_set ids)) {b = ids}
          (ground arith) in
      let same : sorted_set all ≡ ids = ground arith in
      let members = resolve_all_lem resource_set_id rows all resolved in
      subst
        (λ ids.
          IsAscending ids
          × ((k : String) → (contains ids k ≡ true) ↔ IsMemberId resource_set_id k rows)
          × ((k : String) → contains ids k ≡ true → IsCollected db k))
        same
        (
          sorted_set-IsAscending all,
          λ k. (
            λ here. (members k).0 (sym (contains-sorted_set all k) ∙ here),
            λ m. contains-sorted_set all k ∙ (members k).1 m,
          ),
          λ k here.
              IsMemberId-IsCollected resource_set_id k rows
                ((members k).0 (sym (contains-sorted_set all k) ∙ here)),
        )
