-- ===== src/Tests/OtherCases.antt =====
-- The theorems on the configuration, keys, deliveries and subjects, at the small world.
use mathlib.Core.List.{Memᴰ}
use idcat.Common.{
  Result, ◌≡◌, ◌↔◌, ◌⊎◌, refl, true, false, some, none, List, ◌∷◌, [], Text, codes, text_eq, nat_eq,
  ok, ◌++◌, All, split, trim_end_matches, is_absolute, contains_text, starts_with,
}
use native.Mathlib.Decide.{ℕ_discrete}
use idcat.Config.{local, RawInstallationPolicyConfig, is_valid_repo_pattern}
use idcat.Config.Validate.{validate, validate_iff, IsValid}
use idcat.Config.Patterns.{is_valid_repo_pattern_iff, IsRepoPattern}
use idcat.KmsSignJwt.{pem}
use idcat.KmsSignJwt.Pem.{flatten, ended, AreLines, pem-lines}
use idcat.Config.Tables.{installation_policy_of, installation_policy_of_iff, IsOneForm}
use idcat.Secret.{path_for_key, validate-path_for_key, IsInside, join_path, private_key_pem}
use idcat.Signer.{signer, signer_local, local_sign, from_rsa_pem}
use idcat.Webhook.{validate_delivery, validate_delivery_iff, IsGenuine}
use idcat.Nats.{
  IsToken, subject_segments, header_or_unknown, repository_name, subject_for_github_webhook,
  split-subject_for_github_webhook,
}
use idcat.Tests.Zoo.{zoo}
use idcat.Tests.World.{a_config, an_app, a_policy, crypto, macs, maps, broker}
use idcat.Tests.Accepted.{a_config_accepted}

validate_iff_example :
    (validate zoo false false a_config ≡ ok tt) ↔ IsValid zoo false false a_config
validate_iff_example = validate_iff zoo false false a_config

is_valid_repo_pattern_iff_example :
    (is_valid_repo_pattern (codes "alfa/*") ≡ true) ↔ IsRepoPattern (codes "alfa/*")
is_valid_repo_pattern_iff_example = is_valid_repo_pattern_iff (codes "alfa/*")

abbrev raw_policy : RawInstallationPolicyConfig zoo
raw_policy = record {
  github_app = codes "app";
  repository = some (codes "o/r");
  repositories = none;
  role = codes "reader";
  required_claims = (codes "repository", codes "o/r") ∷ [];
  allow_self_access = false;
  permissions = (codes "contents", codes "read") ∷ [];
}

installation_policy_of_iff_example : (installation_policy_of zoo raw_policy ≡ ok a_policy) ↔ (
    IsOneForm (some (codes "o/r")) none (codes "o/r" ∷ [])
    × (raw_policy.github_app ≡ a_policy.github_app)
    × (raw_policy.role ≡ a_policy.role)
    × (raw_policy.required_claims ≡ a_policy.required_claims)
    × (raw_policy.allow_self_access ≡ a_policy.allow_self_access)
    × (raw_policy.permissions ≡ a_policy.permissions))
installation_policy_of_iff_example = installation_policy_of_iff zoo raw_policy a_policy

key_path : path_for_key (codes "/keys") (codes "key") ≡ ok (codes "/keys/key")
unfolding path_for_key join_path codes is_absolute contains_text starts_with ℕ_discrete
key_path = refl

validate-path_for_key_example :
    (path : Text) × (path_for_key (codes "/keys") (codes "key") ≡ ok path)
    × IsInside (codes "/keys") (codes "key") path
validate-path_for_key_example =
    validate-path_for_key zoo false false a_config an_app a_config_accepted refl (Memᴰ.head refl)

a_signer :
    signer crypto false false local (codes "/keys") (codes "key")
    ≡ ok (local_sign crypto (codes "/keys/key"))
unfolding signer private_key_pem from_rsa_pem path_for_key join_path codes is_absolute contains_text
    starts_with ℕ_discrete
a_signer = refl

signer_local_example :
    (path pem key : Text) × IsInside (codes "/keys") (codes "key") path
    × (◌≡◌ {A = Result Text Text} (ok path) (ok pem))
    × ((some pem ≡ some key) ⊎ ((some pem ≡ none) × (none ≡ some key)))
    × (local_sign crypto (codes "/keys/key") ≡ local_sign crypto key)
signer_local_example =
    signer_local crypto false false (codes "/keys") (codes "key")
      (local_sign crypto (codes "/keys/key")) a_signer

abbrev signed : List (Text × Text)
signed = (codes "x-hub-signature-256", codes "sha256=secret") ∷ []

validate_delivery_iff_example :
    (validate_delivery macs maps (codes "secret") signed [] ≡ ok tt)
    ↔ IsGenuine macs maps (codes "secret") signed []
validate_delivery_iff_example = validate_delivery_iff macs maps (codes "secret") signed []

split-subject_for_github_webhook_example :
    (split (subject_for_github_webhook broker maps (codes "idcat.") [] []) b'.'
      ≡ split (trim_end_matches (codes "idcat.") b'.') b'.'
        ++ subject_segments
            (header_or_unknown maps [] (codes "x-github-event"))
            (repository_name broker []))
    × All IsToken (
        subject_segments
          (header_or_unknown maps [] (codes "x-github-event"))
          (repository_name broker []))
split-subject_for_github_webhook_example =
    split-subject_for_github_webhook broker maps (codes "idcat.") [] []

-- The text of a key that fits on one line
pem-lines_example :
    (lines : List Text) × (flatten lines ≡ codes "AQAB")
    × AreLines 64 lines
    × (pem (codes "PUBLIC KEY") (codes "AQAB")
        ≡ (codes "-----BEGIN " ++ (codes "PUBLIC KEY" ++ codes "-----\n"))
          ++ ended lines
          ++ (codes "-----END " ++ (codes "PUBLIC KEY" ++ codes "-----")))
pem-lines_example = pem-lines (codes "PUBLIC KEY") (codes "AQAB")
