-- ===== src/Oin/Validators/Urls.antt =====
-- `https_origin` and `https_url` of oin_routes/validators.py.
use openhound_okta.Base.{
  ◌≡◌, Bool, true, false, ◌&&◌, ◌||◌, not, Option, none, some, String, arith, ◌==◌, nat_eq,
  string_eq, if◌then◌else◌,
}
use openhound_okta.Oin.Validators.{Setting, Strip, text, stripped, host_scope}

-- `urllib.parse.SplitResult`
pub record SplitUrl : Type 0 where
  pub scheme : String
  pub netloc : String
  pub hostname : Option String
  pub username : Option String
  pub password : Option String
  pub path : String
  pub query : String
  pub fragment : String

-- Python's texts and URLs: `urlsplit` is `none` where it or `port` raises `ValueError`, `is_unprintable`
-- says whether a text has a blank or a character of a category C, `is_ip_address` whether `ip_address`
-- takes a text.
pub record Urls : Type 0 where
  pub strip : Strip
  pub is_unprintable : String → Bool
  pub urlsplit : String → Option SplitUrl
  pub ends_with_colon : String → Bool
  pub is_ip_address : String → Bool
  pub urlunsplit : String → String → String → String

abbrev pub truthy : Option String → Bool
truthy none = false
truthy (some s) = not (s == "")

abbrev pub is_some {ℓ} : {A : Type ℓ} → Option A → Bool
is_some none = false
is_some (some a) = true

abbrev pub or_empty : Option String → String
or_empty none = ""
or_empty (some s) = s

module _ (u : Urls) where
  -- The value as a URL, if it can be split.
  unfoldable pub split_value : Setting → Option SplitUrl
  unfolding stripped
  split_value v = elim (stripped u.strip v) [
    | none ↦ none
    | some s ↦ if u.is_unprintable s then none else u.urlsplit s
  ]

  -- `ip_address(hostname)` or else `host_scope(hostname)`
  unfoldable pub is_host : String → Bool
  unfolding host_scope
  is_host h = u.is_ip_address h || truthy (host_scope u.strip (text h))

  -- What both functions refuse.
  unfoldable pub is_refused : SplitUrl → Bool
  is_refused p =
      not (p.scheme == "https")
      || p.netloc == ""
      || u.ends_with_colon p.netloc
      || not (truthy p.hostname)
      || is_some p.username
      || is_some p.password
      || not (p.query == "")
      || not (p.fragment == "")

  unfoldable pub https_origin : Setting → Option String
  unfolding split_value is_host is_refused
  https_origin v = elim (split_value v) [
    | none ↦ none
    | some p ↦
        if is_refused p || not (p.path == "" || p.path == "/")
        then none
        else if not (is_host (or_empty p.hostname))
        then none
        else some (u.urlunsplit p.scheme p.netloc "")
  ]

  unfoldable pub https_url : Setting → Option String
  unfolding split_value is_host is_refused
  https_url v = elim (split_value v) [
    | none ↦ none
    | some p ↦
        if is_refused p
        then none
        else if not (is_host (or_empty p.hostname))
        then none
        else some (u.urlunsplit p.scheme p.netloc p.path)
  ]

  -- `https_origin` accepts a value exactly when `https_url` does and the path is empty or `/`.
  pub https_origin-https_url :
      (v : Setting) (p : SplitUrl)
      → split_value v ≡ some p
      → is_some (https_origin v) ≡ (is_some (https_url v) && (p.path == "" || p.path == "/"))
  unfolding https_origin https_url
  https_origin-https_url v p h = ground arith
