-- ===== src/Source/Claims.antt =====
-- `UserFactorClaims` and `_group_page_sizes` of source.py.
use openhound_okta.Base.{
  ℕ, suc, ◌/◌, ◌≤◌, ◌≡◌, ap, max, Bool, true, false, String, List, [], ◌∷◌, map, arith, ◌==◌,
  string_eq, nat_eq, contains, if◌then◌else◌, All,
}
use openhound_okta.Base.Dedupe.{first_by, first_by-Distinct, Distinct}

-- `claim`: the ids claimed before and after.
unfoldable pub claim : String → List String → Bool × List String
claim user_id claimed =
    if contains claimed user_id then (false, claimed) else (true, user_id ∷ claimed)

-- The claims of the streams in order, and how many of them for one user are granted.
unfoldable pub grants : String → List String → List String → ℕ
unfolding claim
grants user [] claimed = 0
grants user (user_id ∷ ids) claimed =
    let (granted, claimed') = claim user_id claimed in
    let rest = grants user ids claimed' in
    if granted then (if user == user_id then suc rest else rest) else rest

grants_from :
    (user : String) (ids claimed : List String)
    → grants user ids claimed
      ≡ (if contains claimed user then 0 else if contains ids user then 1 else 0)
unfolding grants
grants_from user [] claimed = ground arith
grants_from user (user_id ∷ ids) claimed =
    ground (arith, grants_from user ids claimed, grants_from user ids (user_id ∷ claimed))

-- Whatever the order in which the streams claim users, each user that is claimed at all is granted to exactly
-- one claim.
pub granted_once :
    (user : String) (ids : List String) → grants user ids [] ≡ (if contains ids user then 1 else 0)
granted_once user ids = grants_from user ids []

-- `GROUPS_PAGE_SIZE_FALLBACK_DIVISORS`
abbrev pub fallback_divisors : List ℕ
fallback_divisors = 1 ∷ 2 ∷ 4 ∷ []

abbrev pub size : ℕ → ℕ
size n = n

-- `dict.fromkeys` keeps the first of equal sizes.
unfoldable pub group_page_sizes : ℕ → List ℕ
unfolding first_by
group_page_sizes initial =
    first_by size (map (λ divisor. max (initial / divisor) 1) fallback_divisors)

same_head : (a b : ℕ) (xs : List ℕ) → a ≡ b → a ∷ xs ≡ b ∷ xs
same_head a b xs e = ap (λ x. x ∷ xs) e

abbrev pub IsPageSize : ℕ → ℕ → Type 0
IsPageSize initial n = (1 ≤ n) × (n ≤ initial)

-- The page sizes that the groups listing falls back on start with the initial size, if that is positive, never
-- repeat, and lie between 1 and the initial size.
pub group_page_sizes_lem :
    (initial : ℕ)
    → 1 ≤ initial
    → (rest : List ℕ) × (group_page_sizes initial ≡ initial ∷ rest)
      × Distinct size (group_page_sizes initial)
      × All (IsPageSize initial) (group_page_sizes initial)
unfolding group_page_sizes
group_page_sizes_lem initial p = (
  _,
  same_head (max (initial / 1) 1) initial _ (omega arith),
  first_by-Distinct size (map (λ divisor. max (initial / divisor) 1) fallback_divisors),
  ground arith,
)
