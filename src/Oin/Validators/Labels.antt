-- ===== src/Oin/Validators/Labels.antt =====
-- The labels and host names that oin_routes/validators.py accepts.
use openhound_okta.Base.{
  ℕ, zero, suc, ◌≤◌, ◌<◌, ◌≡◌, refl, ap, sym, ◌∙◌, Bool, true, false, ◌&&◌, ◌||◌, some, String,
  List, [], ◌∷◌, arith, ◌==◌, nat_eq, string_eq, list_eq, leb, length,
}
use openhound_okta.Base.Text.{codes, split, has, every, starts, ends, every-split, every_part_mono}
use openhound_okta.Oin.Validators.{
  Setting, Strip, null, text, other, is_alnum, is_label_char, matches_tail, matches, is_host_label,
  is_host_scope, host_scope,
}

-- A label of at most `n + 2` characters: letters, digits and inner dashes.
abbrev pub is_label : ℕ → List ℕ → Bool
is_label n cs =
    leb (length cs) (suc (suc n))
    && starts is_alnum cs
    && ends is_alnum cs
    && every is_label_char cs

-- The characters of a host name.
abbrev pub is_host_char : ℕ → Bool
is_host_char c = is_label_char c || c == b'.'

alnum-label : (c : ℕ) → is_alnum c ≡ true → is_label_char c ≡ true
unfolding is_label_char
alnum-label c h = ground arith

leb-suc : (a b : ℕ) → leb a b ≡ leb (suc a) (suc b)
leb-suc a b = ground arith

leb-true : (a b : ℕ) → a ≤ b → leb a b ≡ true
leb-true a b h = ground arith

leb-false : (a b : ℕ) → b < a → leb a b ≡ false
leb-false a b h = ground arith

tail_step : (b b2 a e v : Bool) → b ≡ b2 → (a && (b && e && v)) ≡ (b2 && e && (a && v))
tail_step b b2 a e v h = ground arith

two_step : (a v : Bool) → (a ≡ true → v ≡ true) → a ≡ (a && a && (v && true))
two_step a v h = ground arith

many_step :
    (b b2 a l e v : Bool)
    → b ≡ b2
    → (a ≡ true → l ≡ true)
    → (a && (b && e && v)) ≡ (b2 && a && e && (l && v))
many_step b b2 a l e v h k = ground arith

one_step : (a v : Bool) → (a ≡ true → v ≡ true) → a ≡ (a && (v && true))
one_step a v h = ground arith

matches_tail_lem :
    (n : ℕ) (cs : List ℕ)
    → matches_tail n cs ≡ (leb (length cs) (suc n) && ends is_alnum cs && every is_label_char cs)
unfolding matches_tail
matches_tail_lem n [] = rw (leb-true 0 (suc n) (omega arith)) refl
matches_tail_lem n (c ∷ []) =
    rw (leb-true 1 (suc n) (omega arith)) (one_step (is_alnum c) (is_label_char c) (alnum-label c))
matches_tail_lem zero (c ∷ d ∷ ds) = rw (leb-false (suc (suc (length ds))) 1 (omega arith)) refl
matches_tail_lem (suc n) (c ∷ d ∷ ds) =
    ap (λ r. is_label_char c && r) (matches_tail_lem n (d ∷ ds))
    ∙ tail_step (leb (suc (length ds)) (suc n)) (leb (suc (suc (length ds))) (suc (suc n)))
        (is_label_char c) (ends is_alnum (d ∷ ds)) (every is_label_char (d ∷ ds))
        (leb-suc (suc (length ds)) (suc n))

-- The patterns of the labels accept a text exactly when it has at most `n + 2` characters, begins and
-- ends with a letter or digit, and consists of letters, digits and dashes.
pub matches_lem : (n : ℕ) (cs : List ℕ) → matches n cs ≡ is_label n cs
unfolding matches
matches_lem n [] = rw (leb-true 0 (suc (suc n)) (omega arith)) refl
matches_lem n (c ∷ []) =
    rw (leb-true 1 (suc (suc n)) (omega arith))
      (two_step (is_alnum c) (is_label_char c) (alnum-label c))
matches_lem n (c ∷ d ∷ ds) =
    ap (λ r. is_alnum c && r) (matches_tail_lem n (d ∷ ds))
    ∙ many_step (leb (suc (length ds)) (suc n)) (leb (suc (suc (length ds))) (suc (suc n)))
        (is_alnum c) (is_label_char c) (ends is_alnum (d ∷ ds)) (every is_label_char (d ∷ ds))
        (leb-suc (suc (length ds)) (suc n)) (alnum-label c)

every_mono : (cs : List ℕ) → every is_label_char cs ≡ true → every is_host_char cs ≡ true
every_mono [] h = refl
every_mono (c ∷ cs) h = ground (arith, every_mono cs)

host_label-every : (cs : List ℕ) → is_host_label cs ≡ true → every is_host_char cs ≡ true
unfolding is_host_label
host_label-every cs h = ground (arith, matches_lem 61 cs, every_mono cs)

host_scope-every : (cs : List ℕ) → is_host_scope cs ≡ true → every is_host_char cs ≡ true
unfolding is_host_scope nat_eq
host_scope-every cs h =
    sym (every-split is_host_char b'.' cs refl)
    ∙ every_part_mono is_host_label (every is_host_char) (split b'.' cs) host_label-every
        (ground arith)

-- A text that `host_scope` returns is the text it was given, with no blanks around it; it has at most
-- 253 characters, each a letter, a digit, a dash or a dot, with a dot among them.
pub host_scope-IsHost :
    (strip : Strip) (v : Setting) (s : String)
    → host_scope strip v ≡ some s
    → (v ≡ text s)
      × (strip s ≡ s)
      × (length (codes s) ≤ 253)
      × (every is_host_char (codes s) ≡ true)
      × (has b'.' (codes s) ≡ true)
unfolding host_scope
host_scope-IsHost strip null s h = cc
host_scope-IsHost strip (text t) s h = ground (arith, host_scope-every (codes s))
host_scope-IsHost strip (other b t) s h = cc
