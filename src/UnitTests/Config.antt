-- ===== src/UnitTests/Config.antt =====
-- src/config.rs, the module `tests`: the tests of the listener, of NATS, of the apps and of the roles.
use native.Mathlib.Decide.{dec_le, ℕ_discrete}
use idcat.Common.{
  ◌≡◌, refl, Bool, true, false, not, ◌&&◌, ◌||◌, Option, some, none, [], ◌∷◌, Text, codes, text_eq,
  text_dec, ◌==◌, is_nil, lookup, insert, contains, any, find?, split, split_once, join,
  strip_prefix, starts_with, contains_text, is_absolute, contains_char, is_whitespace, for_each,
  contains_key,
}
use idcat.Config.{
  Config, kms, nats, NatsConfig, default_bind_address, default_private_key_directory,
  is_valid_repo_pattern, is_valid_owner_pattern,
}
use idcat.Config.Messages.{to_string, table_message}
use idcat.Config.Server.{
  validate_listener, validate_key_source, validate_nats, any_nats_webhook_target,
  validate_nats_block,
}
use idcat.Config.Apps.{validate_apps}
use idcat.Config.Claims.{index_role, check_claims, check_self_access}
use idcat.Config.InstallationPolicies.{validate_installation_policy, repositories_label}
use idcat.Config.OwnerPolicies.{validate_owner_policy, owners_label}
use idcat.Config.Tables.{
  installation_policy_of, owner_policy_of, choose_repositories, choose_owners,
}
use idcat.Config.Validate.{
  validate, validate_server, validate_with, validate_access, check_reachable,
  has_installation_policy, has_owner_policy,
}
use idcat.Config.Permissions.{known_github_permissions}
use idcat.UnitTests.{unwrapped, unwrapped_err, pass}
use idcat.UnitTests.StubAuthzoo.{Role, equals, stub_authzoo, by_name, ensure}
use idcat.UnitTests.ConfigFiles.{
  an_app, default_app, config_with, accepts, refuses, with_installation_policy, with_owner_policy,
}

abbrev tls_config : Text → Text → Config stub_authzoo
tls_config certificate_file private_key_file = record (config_with [] (default_app ∷ [])) {
  tls = some (record { certificate_file = certificate_file; private_key_file = private_key_file });
}

abbrev nats_config : Option NatsConfig → Config stub_authzoo
nats_config block =
    record (config_with [] (record default_app { webhook_target = some nats } ∷ [])) {
      nats = block;
    }

abbrev nats_block : Text → NatsConfig
nats_block token_path = record {
  endpoint = codes "nats://nats.example.com:4222";
  subject_base = codes "idcat.github.webhook";
  token_path = some token_path;
}

abbrev secret_file_config : Text → Config stub_authzoo
secret_file_config file =
    config_with [] (record default_app { webhook_validation_secret_file = some file } ∷ [])

abbrev kms_config : Config stub_authzoo
kms_config = record (config_with [] (record default_app { secret_key = codes "default" } ∷ [])) {
  key_source = kms;
}

abbrev kubernetes_role : Text → Role
kubernetes_role name = record {
  name = name;
  audience = codes "idcat";
  issuer = codes "https://kubernetes.default.svc";
  claims = [];
}

abbrev parses_minimal_config : Bool
parses_minimal_config =
    let config =
      config_with
        (record {
          name = codes "kubernetes-default";
          audience = codes "idcat";
          issuer = codes "https://kubernetes.default.svc";
          claims = (codes "sub", equals (codes "system:serviceaccount:idelephant:default")) ∷ [];
        }
          ∷ [])
        (an_app (codes "default") (codes "kubernetes-default" ∷ []) ∷ []) in
    accepts false config
    && config.bind_address == codes "0.0.0.0:8080"
    && config.private_key_directory == codes "/var/run/secrets/idcat"

abbrev parses_tls_config : Bool
parses_tls_config =
    accepts true
      (tls_config (codes "/var/run/secrets/idcat/tls.crt") (codes "/var/run/secrets/idcat/tls.key"))

abbrev rejects_empty_tls_file_paths : Bool
rejects_empty_tls_file_paths =
    refuses true (tls_config [] (codes "/var/run/secrets/idcat/tls.key"))
      (λ error. error == codes "tls certificate-file must not be empty")
    && refuses true (tls_config (codes "/var/run/secrets/idcat/tls.crt") [])
        (λ error. error == codes "tls private-key-file must not be empty")

abbrev parses_nats_webhook_target_config : Bool
parses_nats_webhook_target_config =
    accepts true (nats_config (some (nats_block (codes "/var/run/secrets/idcat/nats-token"))))

abbrev rejects_nats_webhook_target_without_nats_config : Bool
rejects_nats_webhook_target_without_nats_config =
    refuses true (nats_config none)
      (λ error. error == codes "webhook-target 'nats' requires a [nats] config block")

abbrev rejects_empty_nats_token_path : Bool
rejects_empty_nats_token_path =
    refuses true (nats_config (some (nats_block [])))
      (λ error. error == codes "nats token-path must not be empty when set")

abbrev parses_webhook_validation_secret_file : Bool
parses_webhook_validation_secret_file =
    accepts true (secret_file_config (codes "/var/run/secrets/idcat/webhook-secret"))

abbrev rejects_empty_webhook_validation_secret_file : Bool
rejects_empty_webhook_validation_secret_file = refuses true (secret_file_config []) (λ error.
    error == codes "github-app 'default' webhook-validation-secret-file must not be empty when set")

abbrev accepts_kms_key_source_when_kms_feature_is_enabled : Bool
accepts_kms_key_source_when_kms_feature_is_enabled =
    unwrapped (validate stub_authzoo true true kms_config) (λ done. true)

abbrev rejects_kms_key_source_when_kms_feature_is_disabled : Bool
rejects_kms_key_source_when_kms_feature_is_disabled =
    unwrapped_err (validate stub_authzoo false true kms_config) (λ error.
      to_string error == codes "key-source 'kms' requires idcat to be built with the 'kms' feature")

abbrev accepts_multiple_allowed_roles_for_github_app : Bool
accepts_multiple_allowed_roles_for_github_app = accepts false (
    config_with
      (kubernetes_role (codes "kubernetes-default")
        ∷ record {
          name = codes "buildkite-deploy";
          audience = codes "idcat";
          issuer = codes "https://agent.buildkite.com";
          claims = [];
        }
        ∷ [])
      (an_app (codes "default") (codes "kubernetes-default" ∷ codes "buildkite-deploy" ∷ []) ∷ []))

abbrev rejects_github_app_with_unknown_allowed_role : Bool
rejects_github_app_with_unknown_allowed_role =
    refuses false
      (config_with (kubernetes_role (codes "kubernetes") ∷ [])
        (an_app (codes "default") (codes "buildkite" ∷ []) ∷ []))
      (λ error. error == codes "unknown role 'buildkite'")

abbrev rejects_github_app_without_allowed_roles : Bool
rejects_github_app_without_allowed_roles =
    refuses false (config_with (kubernetes_role (codes "kubernetes") ∷ []) (default_app ∷ []))
      (λ error.
        error
        == codes
            "github-app 'default' must define at least one allowed-role, installation-policy or owner-policy")

abbrev disable_auth_skips_authentication : Bool
disable_auth_skips_authentication = accepts true (config_with [] (default_app ∷ []))

abbrev known_github_permissions_parses_data_file : Bool
known_github_permissions_parses_data_file =
    contains known_github_permissions (codes "contents")
    && contains known_github_permissions (codes "pull_requests")
    && contains known_github_permissions (codes "organization_administration")
    && not (contains known_github_permissions (codes "definitely_not_a_real_permission"))
    && not (any (λ p. is_nil p || starts_with p (codes "#")) known_github_permissions)

tests_pass :
    pass (
      parses_minimal_config ∷ parses_tls_config ∷ rejects_empty_tls_file_paths
      ∷ parses_nats_webhook_target_config ∷ rejects_nats_webhook_target_without_nats_config
      ∷ rejects_empty_nats_token_path ∷ parses_webhook_validation_secret_file
      ∷ rejects_empty_webhook_validation_secret_file
      ∷ accepts_kms_key_source_when_kms_feature_is_enabled
      ∷ rejects_kms_key_source_when_kms_feature_is_disabled
      ∷ accepts_multiple_allowed_roles_for_github_app ∷ rejects_github_app_with_unknown_allowed_role
      ∷ rejects_github_app_without_allowed_roles ∷ disable_auth_skips_authentication
      ∷ known_github_permissions_parses_data_file ∷ [])
    ≡ true
unfolding codes text_dec ℕ_discrete dec_le lookup insert contains any find? split split_once join
    strip_prefix starts_with contains_text is_absolute contains_char is_whitespace for_each
    contains_key unwrapped unwrapped_err pass validate validate_server validate_with validate_access
    validate_listener validate_key_source validate_nats any_nats_webhook_target validate_nats_block
    validate_apps validate_installation_policy validate_owner_policy check_reachable
    has_installation_policy has_owner_policy repositories_label owners_label index_role check_claims
    check_self_access is_valid_repo_pattern is_valid_owner_pattern to_string table_message by_name
    ensure accepts refuses with_installation_policy with_owner_policy installation_policy_of
    owner_policy_of choose_repositories choose_owners default_bind_address
    default_private_key_directory known_github_permissions
tests_pass = refl
