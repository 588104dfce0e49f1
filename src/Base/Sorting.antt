-- ===== src/Base/Sorting.antt =====
-- Python's `sorted(set(xs))` of texts, which compares them by code points.
use Prim.Native.Char.{code}
use text.Mathlib.TextEquality.{Char-path}
use openhound_okta.Base.{
  ◌≡◌, ◌⊎◌, refl, ap, ap₂, ◌∙◌, Bool, true, false, ◌||◌, List, [], ◌∷◌, String, arith, ltb, ◌==◌,
  string_eq, nat_eq, contains, if◌then◌else◌, inl, inr, Bool-cases,
}

-- `s < t`
unfoldable pub before : String → String → Bool
before String.[] String.[] = false
before String.[] (String.◌∷◌ d t) = true
before (String.◌∷◌ c s) String.[] = false
before (String.◌∷◌ c s) (String.◌∷◌ d t) =
    let rest = before s t in if code c == code d then rest else ltb (code c) (code d)

before_total : (s t : String) → (s ≡ t) ⊎ ((before s t ≡ true) ⊎ (before t s ≡ true))
unfolding before
before_total String.[] String.[] = inl refl
before_total String.[] (String.◌∷◌ d t) = inr (inl refl)
before_total (String.◌∷◌ c s) String.[] = inr (inr refl)
before_total (String.◌∷◌ c s) (String.◌∷◌ d t) = elim (Bool-cases (code c == code d)) [
  | inl one ↦ elim (before_total s t) [
    | inl same ↦ inl (ap₂ String.◌∷◌ (Char-path c d (ground arith)) same)
    | inr (inl less) ↦ inr (inl (ground arith))
    | inr (inr more) ↦ inr (inr (ground arith))
  ]
  | inr two ↦ inr (ground arith)
]

unfoldable pub insert_sorted : String → List String → List String
unfolding before
insert_sorted x [] = x ∷ []
insert_sorted x (y ∷ ys) =
    let rest = insert_sorted x ys in
    if x == y then y ∷ ys else if before x y then x ∷ y ∷ ys else y ∷ rest

-- `sorted(set(xs))`
unfoldable pub sorted_set : List String → List String
unfolding insert_sorted
sorted_set [] = []
sorted_set (x ∷ xs) = insert_sorted x (sorted_set xs)

contains-insert_sorted :
    (x : String) (ys : List String) (k : String)
    → contains (insert_sorted x ys) k ≡ (k == x || contains ys k)
unfolding insert_sorted
contains-insert_sorted x [] k = refl
contains-insert_sorted x (y ∷ ys) k = ground (arith, contains-insert_sorted x ys k)

-- The items are those of the list.
pub contains-sorted_set :
    (xs : List String) (k : String) → contains (sorted_set xs) k ≡ contains xs k
unfolding sorted_set
contains-sorted_set [] k = refl
contains-sorted_set (x ∷ xs) k =
    contains-insert_sorted x (sorted_set xs) k ∙ ap (λ b. k == x || b) (contains-sorted_set xs k)

abbrev pub StartsAfter : String → List String → Type 0
StartsAfter x [] = Unit
StartsAfter x (y ∷ ys) = before x y ≡ true

-- Each item is less than the next one.
abbrev pub IsAscending : List String → Type 0
IsAscending [] = Unit
IsAscending (x ∷ xs) = StartsAfter x xs × IsAscending xs

after-insert_sorted :
    (y x : String) (ys : List String)
    → before y x ≡ true
    → StartsAfter y ys
    → StartsAfter y (insert_sorted x ys)
unfolding insert_sorted
after-insert_sorted y x [] less h = less
after-insert_sorted y x (z ∷ zs) less h = ground arith

insert_sorted-IsAscending :
    (x : String) (ys : List String) → IsAscending ys → IsAscending (insert_sorted x ys)
unfolding insert_sorted
insert_sorted-IsAscending x [] h = (tt, tt)
insert_sorted-IsAscending x (y ∷ ys) (next, later) = elim (Bool-cases (x == y)) [
  | inl same ↦ rw same (next, later)
  | inr differ ↦ elim (Bool-cases (before x y)) [
    | inl less ↦ rw (differ, less) (less, (next, later))
    | inr more ↦
        rw (differ, more)
          (
            after-insert_sorted y x ys
                (elim (before_total x y) [
                  | inl same ↦ ground arith
                  | inr (inl less) ↦ cc
                  | inr (inr less) ↦ less
                ])
                next,
            insert_sorted-IsAscending x ys later,
          )
  ]
]

pub sorted_set-IsAscending : (xs : List String) → IsAscending (sorted_set xs)
unfolding sorted_set
sorted_set-IsAscending [] = tt
sorted_set-IsAscending (x ∷ xs) =
    insert_sorted-IsAscending x (sorted_set xs) (sorted_set-IsAscending xs)
