-- ===== src/Entra/Urls.antt =====
-- The names and URLs of utils/entra_tenant.py: tenant ids, Microsoft's hosts, normalised domain names.
use Prim.Native.Char.{code}
use text.Mathlib.TextLemmas.{nil-append, cons-append}
use openhound_okta.Base.{
  ℕ, zero, suc, ◌+◌, ◌≡◌, refl, Bool, true, false, ◌&&◌, ◌||◌, not, Option, none, some, String,
  ◌<>◌, List, [], ◌∷◌, arith, leb, ◌==◌, nat_eq, string_eq, contains, if◌then◌else◌, length,
  Option-cases, Bool-cases, inl, inr, sym, subst,
}
use openhound_okta.Base.Text.{codes, every, has}

-- `urllib.parse.SplitResult`
pub record SplitResult : Type 0 where
  pub hostname : Option String
  pub path : String

-- Python's texts and `urlsplit`, `none` where it raises `ValueError`.
pub record Texts : Type 0 where
  pub strip : String → String
  pub lower : String → String
  pub urlsplit : String → Option SplitResult

-- `[0-9a-f]`
unfoldable pub is_hex : ℕ → Bool
is_hex c = (leb b'0' c && leb c b'9') || (leb b'a' c && leb c b'f')

-- `[0-9a-f]{n}` at the front of a text: what is behind it.
unfoldable pub take_hex : ℕ → List ℕ → Option (List ℕ)
unfolding is_hex
take_hex zero cs = some cs
take_hex (suc n) [] = none
take_hex (suc n) (c ∷ cs) = let rest = take_hex n cs in if is_hex c then rest else none

-- `-` at the front of a text.
unfoldable pub take_dash : List ℕ → Option (List ℕ)
take_dash [] = none
take_dash (c ∷ cs) = if c == b'-' then some cs else none

-- Groups of hexadecimal digits of these lengths with a dash between them, and nothing else.
unfoldable pub is_grouped : ℕ → List ℕ → List ℕ → Bool
unfolding take_hex take_dash
is_grouped n [] cs = elim (take_hex n cs) [ some [] ↦ true | some (_ ∷ _) ↦ false | none ↦ false ]
is_grouped n (m ∷ ms) cs = elim (take_hex n cs) [
  | none ↦ false
  | some rest ↦ elim (take_dash rest) [ none ↦ false | some rest' ↦ is_grouped m ms rest' ]
]

-- `TENANT_ID_PATTERN.fullmatch`
unfoldable pub is_tenant_id : String → Bool
unfolding is_grouped
is_tenant_id s = is_grouped 8 (4 ∷ 4 ∷ 4 ∷ 12 ∷ []) (codes s)

-- `MICROSOFT_LOGIN_HOSTS`
abbrev pub microsoft_login_hosts : List String
microsoft_login_hosts =
    "login.microsoftonline.com" ∷ "login.microsoft.com" ∷ "login.windows.net" ∷ "sts.windows.net"
    ∷ "login.microsoftonline.us" ∷ []

-- The segments of `path.split("/")` that are not empty.
abbrev add_segment : String → List String → List String
add_segment String.[] segments = segments
add_segment (String.◌∷◌ c s) segments = (String.◌∷◌ c s) ∷ segments

-- The segment that is read and the segments behind it.
unfoldable pub segments_from : String → String × List String
segments_from String.[] = ("", [])
segments_from (String.◌∷◌ c s) =
    let (segment, rest) = segments_from s in
    if code c == b'/' then ("", add_segment segment rest) else (String.◌∷◌ c segment, rest)

unfoldable pub path_segments : String → List String
unfolding segments_from
path_segments path = let (segment, rest) = segments_from path in add_segment segment rest

module _ (t : Texts) where
  unfoldable pub split_microsoft_login_url : String → Option SplitResult
  split_microsoft_login_url url = elim (t.urlsplit url) [
    | none ↦ none
    | some parts ↦ elim parts.hostname [
      | none ↦ none
      | some hostname ↦
          if not (hostname == "") && contains microsoft_login_hosts (t.lower hostname)
          then some parts
          else none
    ]
  ]

  unfoldable pub is_microsoft_login_url : String → Bool
  unfolding split_microsoft_login_url
  is_microsoft_login_url url = elim (split_microsoft_login_url url) [ none ↦ false | some _ ↦ true ]

  -- The first segment of the path, in lower case, if it is a tenant id.
  unfoldable pub tenant_segment : List String → Option String
  unfolding is_tenant_id
  tenant_segment [] = none
  tenant_segment (segment ∷ _) =
      if is_tenant_id (t.lower segment) then some (t.lower segment) else none

  unfoldable pub tenant_id_from_url : String → Option String
  unfolding split_microsoft_login_url tenant_segment path_segments
  tenant_id_from_url url = elim (split_microsoft_login_url url) [
    | none ↦ none
    | some parts ↦ tenant_segment (path_segments parts.path)
  ]

  -- `_domain_name`
  unfoldable pub domain_name : String → String
  unfolding is_tenant_id
  domain_name msft_tenant =
      let tenant = t.lower (t.strip msft_tenant) in
      if has b'.' (codes tenant) || is_tenant_id tenant
      then tenant
      else tenant <> ".onmicrosoft.com"

-- The characters of a tenant id.
abbrev pub is_id_char : ℕ → Bool
is_id_char c = is_hex c || c == b'-'

-- A text whose rest has `n` characters fewer, and only characters of tenant ids before it.
abbrev Takes : ℕ → List ℕ → List ℕ → Type 0
Takes n cs rest =
    (length cs ≡ n + length rest) × (every is_id_char rest ≡ true → every is_id_char cs ≡ true)

take_hex-Takes : (n : ℕ) (cs rest : List ℕ) → take_hex n cs ≡ some rest → Takes n cs rest
unfolding take_hex
take_hex-Takes zero cs rest h = ground arith
take_hex-Takes (suc n) [] rest h = cc
take_hex-Takes (suc n) (c ∷ cs) rest h = ground (arith, take_hex-Takes n cs rest)

take_dash-Takes : (cs rest : List ℕ) → take_dash cs ≡ some rest → Takes 1 cs rest
unfolding take_dash
take_dash-Takes [] rest h = cc
take_dash-Takes (c ∷ cs) rest h = ground arith

total_with_dashes : ℕ → List ℕ → ℕ
total_with_dashes n [] = n
total_with_dashes n (m ∷ ms) = n + 1 + total_with_dashes m ms

is_grouped_lem :
    (n : ℕ) (ms cs : List ℕ)
    → is_grouped n ms cs ≡ true
    → (length cs ≡ total_with_dashes n ms) × (every is_id_char cs ≡ true)
unfolding is_grouped total_with_dashes
is_grouped_lem n [] cs h = elim (Option-cases (take_hex n cs)) [
  | inl e ↦ absurd (cc (rw (e, is_grouped) at h))
  | inr ([], e) ↦ ground (arith, take_hex-Takes n cs [] e)
  | inr (c ∷ rest, e) ↦ absurd (cc (rw (e, is_grouped) at h))
]
is_grouped_lem n (m ∷ ms) cs h = elim (Option-cases (take_hex n cs)) [
  | inl e ↦ absurd (cc (rw (e, is_grouped) at h))
  | inr (rest, e) ↦ elim (Option-cases (take_dash rest)) [
    | inl f ↦ absurd (cc (rw (f, is_grouped) at (rw (e, is_grouped) at h)))
    | inr (rest', f) ↦ ground (
      arith,
      take_hex-Takes n cs rest e,
      take_dash-Takes rest rest' f,
      is_grouped_lem m ms rest' (rw (f, is_grouped) at (rw (e, is_grouped) at h)),
    )
  ]
]

-- A tenant id has 36 characters, each a dash or a hexadecimal digit in lower case.
pub tenant_id_shape :
    (s : String)
    → is_tenant_id s ≡ true
    → (length (codes s) ≡ 36) × (every is_id_char (codes s) ≡ true)
unfolding is_tenant_id total_with_dashes
tenant_id_shape s h = is_grouped_lem 8 (4 ∷ 4 ∷ 4 ∷ 12 ∷ []) (codes s) h

has-append : (sep : ℕ) (s r : String) → has sep (codes r) ≡ true → has sep (codes (s <> r)) ≡ true
has-append sep String.[] r h = rw (nil-append r) h
has-append sep (String.◌∷◌ c s) r h = rw (cons-append c s r) (ground (arith, has-append sep s r h))

module _ (t : Texts) where
  tenant_segment-is_tenant_id :
      (segments : List String) (id : String)
      → tenant_segment t segments ≡ some id
      → is_tenant_id id ≡ true
  unfolding tenant_segment
  tenant_segment-is_tenant_id [] id h = cc
  tenant_segment-is_tenant_id (segment ∷ _) id h = ground arith

  -- A tenant id is taken from a URL only if its host is one of Microsoft's, in any case; it has 36 characters, each
  -- a dash or a hexadecimal digit in lower case.
  pub tenant_id_from_url-shape :
      (url id : String)
      → tenant_id_from_url t url ≡ some id
      → (parts : SplitResult) × (hostname : String) × (t.urlsplit url ≡ some parts)
        × (parts.hostname ≡ some hostname)
        × (contains microsoft_login_hosts (t.lower hostname) ≡ true)
        × (length (codes id) ≡ 36)
        × (every is_id_char (codes id) ≡ true)
  unfolding tenant_id_from_url split_microsoft_login_url
  tenant_id_from_url-shape url id h = elim (Option-cases (t.urlsplit url)) [
    | inl e ↦ absurd (cc (rw (e, split_microsoft_login_url, tenant_id_from_url) at h))
    | inr (parts, e) ↦ elim (Option-cases parts.hostname) [
      | inl f ↦ ground arith
      | inr (hostname, f) ↦
          let guid : is_tenant_id id ≡ true =
            ground (arith, tenant_segment-is_tenant_id (path_segments parts.path) id) in
          let (long, characters) = tenant_id_shape id guid in
          (parts, hostname, e, f, ground arith, long, characters)
    ]
  ]

  -- A text without blanks around it, in lower case.
  abbrev pub normal : String → String
  normal s = t.lower (t.strip s)

  dot_inside : has b'.' (codes ".onmicrosoft.com") ≡ true
  unfolding nat_eq
  dot_inside = refl

  fixed :
      (x : String)
      → normal x ≡ x
      → (has b'.' (codes x) || is_tenant_id x) ≡ true
      → domain_name t x ≡ x
  unfolding domain_name
  fixed x e full = rw e (rw full refl)

  -- A name that was normalised is looked up as it is, if the text functions leave normalised names alone.
  pub domain_name_idem :
      (msft_tenant : String)
      → ((s : String) → normal (normal s) ≡ normal s)
      → ((s : String) → normal (normal s <> ".onmicrosoft.com") ≡ normal s <> ".onmicrosoft.com")
      → domain_name t (domain_name t msft_tenant) ≡ domain_name t msft_tenant
  unfolding domain_name
  domain_name_idem msft_tenant again suffixed =
      let tenant = normal msft_tenant in
      elim (Bool-cases (has b'.' (codes tenant) || is_tenant_id tenant)) [
        | inl full ↦
            subst (λ y. domain_name t y ≡ y) (sym (rw full refl))
              (fixed tenant (again msft_tenant) full)
        | inr bare ↦
            subst (λ y. domain_name t y ≡ y) (sym (rw bare refl))
              (fixed (tenant <> ".onmicrosoft.com") (suffixed msft_tenant)
                (rw (has-append b'.' tenant ".onmicrosoft.com" (dot_inside)) refl))
      ]
