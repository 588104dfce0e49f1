-- ===== src/Base/Paths.antt =====
-- Texts cut at a character, as `str.split`, `str.rsplit` and `str.rstrip` cut them, and their ends.
use Prim.Native.Char.{Char, code}
use openhound_okta.Base.{
  ℕ, ◌≡◌, refl, Bool, true, false, ◌&&◌, ◌||◌, List, [], ◌∷◌, String, arith, ◌==◌, string_eq,
  nat_eq, if◌then◌else◌,
}

abbrev cons_first : Char → List String → List String
cons_first c [] = String.◌∷◌ c "" ∷ []
cons_first c (part ∷ parts) = String.◌∷◌ c part ∷ parts

-- `text.split(sep)` at one character.
unfoldable pub parts_at : ℕ → String → List String
parts_at sep String.[] = "" ∷ []
parts_at sep (String.◌∷◌ c s) =
    let parts = parts_at sep s in if code c == sep then "" ∷ parts else cons_first c parts

-- `xs[-1]`, where there are items.
unfoldable pub last_or : String → List String → String
last_or d [] = d
last_or d (x ∷ xs) = last_or x xs

-- `xs[i]`
unfoldable pub at_or : String → ℕ → List String → String
at_or d i [] = d
at_or d ℕ.zero (x ∷ xs) = x
at_or d (ℕ.suc i) (x ∷ xs) = at_or d i xs

-- The items but the last.
unfoldable pub but_last : List String → List String
but_last [] = []
but_last (x ∷ []) = []
but_last (x ∷ y ∷ ys) = x ∷ but_last (y ∷ ys)

-- `text.rsplit(sep, 1)[-1]`
unfoldable pub last_part : ℕ → String → String
unfolding parts_at last_or
last_part sep s = last_or "" (parts_at sep s)

-- `text.rstrip(c)` for one character.
unfoldable pub rstrip : ℕ → String → String
rstrip c String.[] = ""
rstrip c (String.◌∷◌ d s) =
    let rest = rstrip c s in if code d == c && rest == "" then "" else String.◌∷◌ d rest

-- `text.startswith(prefix)`, the prefix first.
unfoldable pub begins_with : String → String → Bool
begins_with String.[] s = true
begins_with (String.◌∷◌ c p) String.[] = false
begins_with (String.◌∷◌ c p) (String.◌∷◌ d s) = code c == code d && begins_with p s

-- `text.endswith(suffix)`, the suffix first.
unfoldable pub ends_with_text : String → String → Bool
ends_with_text suffix String.[] = suffix == ""
ends_with_text suffix (String.◌∷◌ d s) = suffix == String.◌∷◌ d s || ends_with_text suffix s

-- Two texts, one of which begins the other.
unfoldable pub are_comparable : String → String → Bool
are_comparable String.[] t = true
are_comparable (String.◌∷◌ c s) String.[] = true
are_comparable (String.◌∷◌ c s) (String.◌∷◌ d t) = code c == code d && are_comparable s t

-- Texts that begin the same text.
pub begins_with_both :
    (p q s : String) → begins_with p s ≡ true → begins_with q s ≡ true → are_comparable p q ≡ true
unfolding begins_with are_comparable
begins_with_both String.[] q s h k = refl
begins_with_both (String.◌∷◌ c p) String.[] s h k = refl
begins_with_both (String.◌∷◌ c p) (String.◌∷◌ e q) String.[] h k = cc
begins_with_both (String.◌∷◌ c p) (String.◌∷◌ e q) (String.◌∷◌ d s) h k =
    ground (arith, begins_with_both p q s)
