-- ===== src/Saml/Values.antt =====
-- The values of models/saml.py: cleaned texts, issuers, account states.
use openhound_okta.Base.{
  ℕ, ◌≡◌, ◌⊎◌, Bool, false, ◌&&◌, ◌||◌, Option, none, some, String, List, [], ◌∷◌, arith, ◌==◌,
  string_eq, nat_eq, if◌then◌else◌,
}
use openhound_okta.Base.Text.{codes}
use openhound_okta.Base.Dedupe.{first_by}
use openhound_okta.Oin.Contract.{itself}
use openhound_okta.Oin.Validators.{Setting, null, text, other, Strip}

-- `text or None` of a stripped text.
unfoldable pub or_none : String → Option String
or_none s = if s == "" then none else some s

-- `_clean`
unfoldable pub clean : Strip → Setting → Option String
unfolding or_none
clean strip null = none
clean strip (text s) = or_none (strip s)
clean strip (other _ s) = or_none (strip s)

-- The values that are no `none`.
unfoldable pub given : List (Option String) → List String
given [] = []
given (none ∷ xs) = given xs
given (some x ∷ xs) = x ∷ given xs

abbrev cleaned : Strip → List Setting → List (Option String)
cleaned strip [] = []
cleaned strip (v ∷ vs) = clean strip v ∷ cleaned strip vs

-- `_dedupe`
unfoldable pub dedupe : Strip → List Setting → List String
unfolding clean given first_by
dedupe strip values = first_by itself (given (cleaned strip values))

-- `"${" in text`
unfoldable pub has_expression : List ℕ → Bool
has_expression [] = false
has_expression (c ∷ []) = false
has_expression (c ∷ d ∷ cs) = (c == b'$' && d == b'{') || has_expression (d ∷ cs)

-- `_concrete_issuer`
unfoldable pub concrete_issuer : Strip → Setting → Option String
unfolding clean has_expression
concrete_issuer strip value = elim (clean strip value) [
  | none ↦ none
  | some issuer ↦ if has_expression (codes issuer) then none else some issuer
]

-- The concrete issuer of the metadata, that of the settings, and what the settings have.
unfoldable pub choose_issuer :
    Option String → Option String → Option String → Option String × List String
choose_issuer (some m) (some c) _ =
    if m == c then (some m, []) else (none, "conflicting_concrete_issuer_evidence" ∷ [])
choose_issuer (some m) none (some _) = (some m, "configured_issuer_superseded_by_metadata" ∷ [])
choose_issuer (some m) none none = (some m, [])
choose_issuer none (some c) _ = (some c, [])
choose_issuer none none (some _) = (none, "unresolved_idp_issuer_expression" ∷ [])
choose_issuer none none none = (none, "missing_issuer_evidence" ∷ [])

-- `_idp_issuer_resolution` of `saml_metadata_entity_id` and `idp_issuer`: the issuer and the diagnostics.
unfoldable pub idp_issuer_resolution : Strip → Setting → Setting → Option String × List String
unfolding choose_issuer concrete_issuer
idp_issuer_resolution strip metadata configured =
    choose_issuer (concrete_issuer strip metadata) (concrete_issuer strip configured)
      (clean strip configured)

-- `normalize_okta_account_state`
unfoldable pub normalize_okta_account_state : Strip → Setting → String
unfolding clean
normalize_okta_account_state strip status = elim (clean strip status) [
  | none ↦ "unknown"
  | some s ↦
      if s == "ACTIVE"
      then "enabled"
      else if s == "SUSPENDED"
      then "suspended"
      else if s == "DEPROVISIONED"
      then "deprovisioned"
      else if s == "LOCKED_OUT"
      then "login_blocked"
      else "unknown"
]

concrete_issuer_lem :
    (strip : Strip) (v : Setting) (issuer : String)
    → concrete_issuer strip v ≡ some issuer
    → (clean strip v ≡ some issuer) × (has_expression (codes issuer) ≡ false)
unfolding concrete_issuer
concrete_issuer_lem strip v issuer h = ground arith

-- An option has nothing else than this value.
abbrev pub Agrees : String → Option String → Type 0
Agrees x o = (o ≡ none) ⊎ (o ≡ some x)

choose_issuer_lem :
    (m c configured : Option String) (issuer : String)
    → (choose_issuer m c configured).0 ≡ some issuer
    → ((m ≡ some issuer) ⊎ (c ≡ some issuer)) × Agrees issuer m × Agrees issuer c
unfolding choose_issuer
choose_issuer_lem (some m) (some c) configured issuer h = ground arith
choose_issuer_lem (some m) none (some _) issuer h = ground arith
choose_issuer_lem (some m) none none issuer h = ground arith
choose_issuer_lem none (some c) configured issuer h = ground arith
choose_issuer_lem none none (some _) issuer h = cc
choose_issuer_lem none none none issuer h = cc

-- An issuer that is resolved holds no expression, is the concrete issuer of the metadata or of the settings, and
-- neither of them has a concrete issuer that differs.
pub idp_issuer_resolution-IsProven :
    (strip : Strip) (metadata configured : Setting) (issuer : String)
    → (idp_issuer_resolution strip metadata configured).0 ≡ some issuer
    → (has_expression (codes issuer) ≡ false)
      × ((concrete_issuer strip metadata ≡ some issuer)
          ⊎ (concrete_issuer strip configured ≡ some issuer))
      × Agrees issuer (concrete_issuer strip metadata)
      × Agrees issuer (concrete_issuer strip configured)
unfolding idp_issuer_resolution
idp_issuer_resolution-IsProven strip metadata configured issuer h =
    let chosen =
      choose_issuer_lem (concrete_issuer strip metadata) (concrete_issuer strip configured)
        (clean strip configured) issuer h in
    ground (
      arith,
      chosen,
      concrete_issuer_lem strip metadata issuer,
      concrete_issuer_lem strip configured issuer,
    )
