-- ===== src/Base/Int.antt =====
-- Python's integers where the source reads or checks a number that may be negative.
use Prim.Native.Nat.{ℕ, ◌-◌, min, max}
use mathlib.Core.Path.{◌≡◌, refl}
use openhound_okta.Base.{Bool, true, leb, arith}

-- `negsuc n` is -(n + 1).
pub data ℤ : Type 0 where
  pos : ℕ → ℤ
  negsuc : ℕ → ℤ

-- `a <= n`, for an integer and a natural number.
abbrev pub at_most : ℤ → ℕ → Bool
at_most (pos a) n = leb a n
at_most (negsuc a) n = true

-- `a - n` where `n < a`, and 0 elsewhere.
abbrev pub excess : ℤ → ℕ → ℕ
excess (pos a) n = a - n
excess (negsuc a) n = 0

-- `min(a, b)`
unfoldable pub min_ℤ : ℤ → ℤ → ℤ
min_ℤ (pos a) (pos b) = pos (min a b)
min_ℤ (pos a) (negsuc b) = negsuc b
min_ℤ (negsuc a) (pos b) = negsuc a
min_ℤ (negsuc a) (negsuc b) = negsuc (max a b)

pub min_ℤ_comm : (a b : ℤ) → min_ℤ a b ≡ min_ℤ b a
unfolding min_ℤ
min_ℤ_comm (pos a) (pos b) = ground arith
min_ℤ_comm (pos a) (negsuc b) = refl
min_ℤ_comm (negsuc a) (pos b) = refl
min_ℤ_comm (negsuc a) (negsuc b) = ground arith

pub min_ℤ_assoc : (a b c : ℤ) → min_ℤ (min_ℤ a b) c ≡ min_ℤ a (min_ℤ b c)
unfolding min_ℤ
min_ℤ_assoc (pos a) (pos b) (pos c) = ground arith
min_ℤ_assoc (negsuc a) (negsuc b) (negsuc c) = ground arith
min_ℤ_assoc (pos a) (pos b) (negsuc c) = refl
min_ℤ_assoc (pos a) (negsuc b) (pos c) = refl
min_ℤ_assoc (pos a) (negsuc b) (negsuc c) = refl
min_ℤ_assoc (negsuc a) (pos b) (pos c) = refl
min_ℤ_assoc (negsuc a) (pos b) (negsuc c) = refl
min_ℤ_assoc (negsuc a) (negsuc b) (pos c) = refl

pub min_ℤ_idem : (a : ℤ) → min_ℤ a a ≡ a
unfolding min_ℤ
min_ℤ_idem (pos a) = ground arith
min_ℤ_idem (negsuc a) = ground arith
