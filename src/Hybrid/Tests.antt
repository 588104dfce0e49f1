-- ===== src/Hybrid/Tests.antt =====
-- Runs of models/hybrid_auth.py on concrete settings.
use openhound_okta.Base.{◌≡◌, refl, true, none, some, [], ◌∷◌, ◌==◌, string_eq, if◌then◌else◌}
use openhound_okta.Hybrid.Targets.{
  Texts, Settings, outbound_trust_target, hybrid_user_target, hybrid_group_target,
  hybrid_user_sign_on_edge_kind, property,
}
use openhound_okta.Hybrid.Complete.{is_complete, is_complete_result, targets_complete}

abbrev texts : Texts
texts = record { strip = λ s. s; upper = λ s. s; urlparse = λ s. none }

abbrev github : Settings
github key = if key == "githubOrg" then some "contoso" else none

user_is_matched :
    hybrid_user_target texts "githubcloud" github (some "ada") none
    ≡ some (record {
      kind = "GH_User";
      match_by = property;
      value = none;
      property_matchers = ("login", "ada") ∷ ("environment_name", "contoso") ∷ [];
    })
unfolding hybrid_user_target string_eq
user_is_matched = refl

swa_is_told : hybrid_user_sign_on_edge_kind (some "AUTO_LOGIN") ≡ some "Okta_SWA"
unfolding hybrid_user_sign_on_edge_kind string_eq
swa_is_told = refl

targets_complete_example :
    (is_complete texts (outbound_trust_target texts "githubcloud" github) ≡ true)
    × (is_complete texts (hybrid_user_target texts "githubcloud" github (some "ada") none) ≡ true)
    × (is_complete_result texts (hybrid_group_target texts "githubcloud" github (some "team"))
        ≡ true)
targets_complete_example =
    targets_complete texts "githubcloud" github (some "ada") none (some "team")
