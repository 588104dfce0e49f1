-- ===== src/Entra/Tests.antt =====
-- Runs of utils/entra_tenant.py on concrete applications.
use openhound_okta.Base.{
  ◌≡◌, refl, none, some, String, [], ◌∷◌, ◌==◌, string_eq, nat_eq, if◌then◌else◌,
}
use openhound_okta.Oin.Validators.{text}
use openhound_okta.Entra.Urls.{Texts, tenant_id_from_url, domain_name}
use openhound_okta.Entra.Resolver.{document, look_up}
use openhound_okta.Entra.Enrich.{RawApplication, enrich}

abbrev guid : String
guid = "01234567-89ab-cdef-0123-456789abcdef"

-- Texts that are normal already, and one URL that can be split.
abbrev texts : Texts
texts = record {
  strip = λ s. s;
  lower = λ s. if s == "Contoso" then "contoso" else s;
  urlsplit = λ url.
      if url == "token"
      then some (record {
        hostname = some "login.microsoftonline.com";
        path = "/01234567-89ab-cdef-0123-456789abcdef/oauth2";
      })
      else none;
}

abbrev office365 : RawApplication
office365 = record {
  name = text "office365";
  sign_on_mode = text "SAML_1_1";
  settings = some (some (("msftTenant", text "contoso") ∷ []));
}

found : tenant_id_from_url texts "token" ≡ some guid
unfolding tenant_id_from_url string_eq nat_eq
found = refl

appended : domain_name texts "Contoso" ≡ "contoso.onmicrosoft.com"
unfolding domain_name string_eq nat_eq
appended = refl

filled_in :
    (enrich texts office365 (document (text "token")) []).0.settings
    ≡ some (some (("msftTenant", text "contoso") ∷ ("microsoftTenantId", text guid) ∷ []))
unfolding enrich look_up string_eq nat_eq
filled_in = refl

same_name : domain_name texts "contoso" ≡ domain_name texts "Contoso"
unfolding domain_name string_eq
same_name = refl
