-- ===== src/Base/Text.antt =====
-- Texts as lists of code points, where the source walks them.
use Prim.Native.Char.{code}
use Prim.Native.String.{String}
use openhound_okta.Base.{
  ℕ, ◌≡◌, Bool, true, false, ◌&&◌, ◌||◌, List, [], ◌∷◌, ◌==◌, nat_eq, arith, if◌then◌else◌, refl,
}

abbrev pub codes : String → List ℕ
codes String.[] = []
codes (String.◌∷◌ c s) = code c ∷ codes s

abbrev pub every : (ℕ → Bool) → List ℕ → Bool
every p [] = true
every p (c ∷ cs) = p c && every p cs

abbrev pub starts : (ℕ → Bool) → List ℕ → Bool
starts p [] = false
starts p (c ∷ cs) = p c

abbrev pub ends : (ℕ → Bool) → List ℕ → Bool
ends p [] = false
ends p (c ∷ []) = p c
ends p (c ∷ d ∷ ds) = ends p (d ∷ ds)

abbrev cons_first : ℕ → List (List ℕ) → List (List ℕ)
cons_first c [] = (c ∷ []) ∷ []
cons_first c (part ∷ parts) = (c ∷ part) ∷ parts

-- `text.split(sep)` at one character.
unfoldable pub split : ℕ → List ℕ → List (List ℕ)
split sep [] = [] ∷ []
split sep (c ∷ cs) = let parts = split sep cs in if c == sep then [] ∷ parts else cons_first c parts

-- `sep in text`
abbrev pub has : ℕ → List ℕ → Bool
has sep [] = false
has sep (c ∷ cs) = c == sep || has sep cs

abbrev pub every_part : (List ℕ → Bool) → List (List ℕ) → Bool
every_part p [] = true
every_part p (x ∷ xs) = p x && every_part p xs

every_part-cons_first :
    (q : ℕ → Bool) (c : ℕ) (parts : List (List ℕ))
    → every_part (every q) (cons_first c parts) ≡ (q c && every_part (every q) parts)
every_part-cons_first q c [] = ground arith
every_part-cons_first q c (part ∷ parts) = ground arith

-- What holds of each part and of the separator holds of the whole.
pub every-split :
    (q : ℕ → Bool) (sep : ℕ) (cs : List ℕ)
    → q sep ≡ true
    → every_part (every q) (split sep cs) ≡ every q cs
unfolding split
every-split q sep [] s = refl
every-split q sep (c ∷ cs) s =
    ground (arith, every-split q sep cs s, every_part-cons_first q c (split sep cs))

pub every_part_mono :
    (p q : List ℕ → Bool) (parts : List (List ℕ))
    → ((part : List ℕ) → p part ≡ true → q part ≡ true)
    → every_part p parts ≡ true
    → every_part q parts ≡ true
every_part_mono p q [] h e = refl
every_part_mono p q (part ∷ parts) h e = ground (arith, h part, every_part_mono p q parts h)
