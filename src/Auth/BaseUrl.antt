-- ===== src/Auth/BaseUrl.antt =====
-- `_base_url_hostname` of utils/auth.py, and `tenant_domain`, which scopes the ids of graph nodes.
use openhound_okta.Base.{
  ◌≡◌, ◌≢◌, ◌↔◌, Bool, false, ◌||◌, not, Option, none, some, String, arith, ◌==◌, string_eq,
  if◌then◌else◌, Option-cases, inl, inr,
}
use openhound_okta.Base.Results.{Result, ok, err, ◌>>=◌}

-- `urllib.parse.ParseResult`, its port read.
pub record ParsedUrl : Type 0 where
  pub scheme : String
  pub hostname : Option String
  pub username : Option String
  pub password : Option String
  pub path : String
  pub params : String
  pub query : String
  pub fragment : String

-- Python's texts and `urlparse`, `none` where it or `port` raises `ValueError`.
pub record UrlOps : Type 0 where
  pub strip : String → String
  pub casefold : String → String
  pub urlparse : String → Option ParsedUrl

pub data Refusal : Type 0 where
  unavailable no_scheme_or_hostname not_https user_info not_an_origin : Refusal

-- Python's truth of an optional text.
abbrev pub truthy : Option String → Bool
truthy none = false
truthy (some s) = not (s == "")

abbrev pub or_empty : Option String → String
or_empty none = ""
or_empty (some s) = s

module _ (ops : UrlOps) where
  -- The checks on a URL that was parsed.
  unfoldable pub check_origin : ParsedUrl → Result Refusal String
  check_origin p =
      if (p.scheme == "") || not (truthy p.hostname)
      then err no_scheme_or_hostname
      else if not (ops.casefold p.scheme == "https")
      then err not_https
      else if truthy p.username || truthy p.password
      then err user_info
      else if not (p.path == "")
          || not (p.params == "")
          || not (p.query == "")
          || not (p.fragment == "")
      then err not_an_origin
      else ok (or_empty p.hostname)

  -- `none` is a base URL that is no text.
  unfoldable pub base_url_hostname : Option String → Result Refusal String
  unfolding check_origin
  base_url_hostname none = err unavailable
  base_url_hostname (some base_url) =
      let text = ops.strip base_url in
      if text == ""
      then err unavailable
      else elim (ops.urlparse text) [ none ↦ err no_scheme_or_hostname | some p ↦ check_origin p ]

  unfoldable pub tenant_domain : Option String → Result Refusal String
  unfolding base_url_hostname
  tenant_domain base_url = do hostname ← base_url_hostname base_url; ok (ops.casefold hostname)

  -- An HTTPS origin: a scheme, a hostname and perhaps a port, and nothing else.
  pub record IsOrigin (p : ParsedUrl) (hostname : String) : Type 0 where
    pub scheme : p.scheme ≢ ""
    pub https : ops.casefold p.scheme ≡ "https"
    pub host : p.hostname ≡ some hostname
    pub host_given : hostname ≢ ""
    pub no_username : truthy p.username ≡ false
    pub no_password : truthy p.password ≡ false
    pub no_path : p.path ≡ ""
    pub no_params : p.params ≡ ""
    pub no_query : p.query ≡ ""
    pub no_fragment : p.fragment ≡ ""

  check_origin-IsOrigin :
      (p : ParsedUrl) (hostname : String) → check_origin p ≡ ok hostname → IsOrigin p hostname
  unfolding check_origin
  check_origin-IsOrigin p hostname h = ground arith

  IsOrigin-check_origin :
      (p : ParsedUrl) (hostname : String) → IsOrigin p hostname → check_origin p ≡ ok hostname
  unfolding check_origin
  IsOrigin-check_origin p hostname h = ground arith

  -- A base URL is accepted exactly if, without the blanks around it, it is given and parses as an HTTPS
  -- origin; the result is its hostname.
  pub base_url_accepted :
      (base_url hostname : String)
      → (base_url_hostname (some base_url) ≡ ok hostname) ↔ (
          (ops.strip base_url ≢ "")
          × ((p : ParsedUrl) × (ops.urlparse (ops.strip base_url) ≡ some p) × IsOrigin p hostname))
  unfolding base_url_hostname
  base_url_accepted base_url hostname = (
    λ h. elim (Option-cases (ops.urlparse (ops.strip base_url))) [
      | inl e ↦ absurd (ground arith)
      | inr (p, e) ↦
          (λ blank. ground arith, (p, e, check_origin-IsOrigin p hostname (ground arith)))
    ],
    λ (given, (p, e, o)). ground (arith, IsOrigin-check_origin p hostname o),
  )
