-- ===== src/Oin/Validators.antt =====
-- oin_routes/validators.py: which values of settings a route may be built from.
pub mod Labels
pub mod Urls
use openhound_okta.Base.{
  ℕ, zero, suc, ◌+◌, Bool, true, false, ◌&&◌, ◌||◌, not, Option, none, some, String, List, [], ◌∷◌,
  leb, ltb, ◌==◌, nat_eq, string_eq, list_eq, if◌then◌else◌, length,
}
use openhound_okta.Base.Text.{codes, split, has, every_part}

-- A JSON value of the settings: nothing, a text, or any other with its truth and its `str`.
pub data Setting : Type 0 where
  null : Setting
  text : String → Setting
  other : Bool → String → Setting

-- `value == text`
unfoldable pub is_text : String → Setting → Bool
is_text s null = false
is_text s (text v) = v == s
is_text s (other _ _) = false

-- `str.strip` of Python.
abbrev pub Strip : Type 0
Strip = String → String

unfoldable pub present_string : Strip → Setting → Option String
present_string strip null = none
present_string strip (text s) = if strip s == "" then none else some (strip s)
present_string strip (other _ s) = if strip s == "" then none else some (strip s)

-- A text with no blanks around it.
unfoldable pub stripped : Strip → Setting → Option String
stripped strip (text s) = if s == strip s then some s else none
stripped strip _ = none

-- `[A-Za-z0-9]`
unfoldable pub is_alnum : ℕ → Bool
is_alnum c = (leb b'A' c && leb c b'Z') || (leb b'a' c && leb c b'z') || (leb b'0' c && leb c b'9')

-- `[A-Za-z0-9-]`
unfoldable pub is_label_char : ℕ → Bool
unfolding is_alnum
is_label_char c = is_alnum c || c == b'-'

-- `[A-Za-z0-9-]{0,n}[A-Za-z0-9]` on the whole text
unfoldable pub matches_tail : ℕ → List ℕ → Bool
unfolding is_alnum is_label_char
matches_tail n [] = false
matches_tail n (c ∷ []) = is_alnum c
matches_tail zero (c ∷ d ∷ ds) = false
matches_tail (suc n) (c ∷ d ∷ ds) = let rest = matches_tail n (d ∷ ds) in is_label_char c && rest

-- `[A-Za-z0-9](?:[A-Za-z0-9-]{0,n}[A-Za-z0-9])?` on the whole text
unfoldable pub matches : ℕ → List ℕ → Bool
unfolding is_alnum matches_tail
matches n [] = false
matches n (c ∷ []) = is_alnum c
matches n (c ∷ d ∷ ds) = is_alnum c && matches_tail n (d ∷ ds)

-- `_HOST_LABEL`
unfoldable pub is_host_label : List ℕ → Bool
unfolding matches
is_host_label cs = matches 61 cs

-- `_GITHUB_SLUG`
unfoldable pub is_github_slug : List ℕ → Bool
unfolding matches
is_github_slug cs = matches 98 cs

unfoldable pub is_host_scope : List ℕ → Bool
unfolding is_host_label
is_host_scope cs =
    not (ltb 253 (length cs)) && has b'.' cs && every_part is_host_label (split b'.' cs)

-- `"enterprise"`
abbrev pub is_enterprise : List ℕ → Bool
is_enterprise cs = cs == codes "enterprise"

unfoldable pub is_slack_labels : List (List ℕ) → Bool
unfolding is_host_label
is_slack_labels (label ∷ []) = is_host_label label
is_slack_labels (label ∷ second ∷ []) = is_enterprise second && is_host_label label
is_slack_labels _ = false

-- A stripped text that passes a test.
abbrev pub only_if : (List ℕ → Bool) → Option String → Option String
only_if test none = none
only_if test (some s) = if test (codes s) then some s else none

unfoldable pub host_scope : Strip → Setting → Option String
unfolding stripped is_host_scope
host_scope strip v = only_if is_host_scope (stripped strip v)

unfoldable pub github_slug : Strip → Setting → Option String
unfolding stripped is_github_slug
github_slug strip v = only_if is_github_slug (stripped strip v)

unfoldable pub host_label : Strip → Setting → Option String
unfolding stripped is_host_label
host_label strip v = only_if is_host_label (stripped strip v)

unfoldable pub slack_domain : Strip → Setting → Option String
unfolding stripped is_slack_labels
slack_domain strip v = only_if (λ cs. is_slack_labels (split b'.' cs)) (stripped strip v)
