-- ===== src/UnitTests/ConfigFiles.antt =====
-- src/config.rs, the module `tests`: the configurations of its tests, as the TOML parser gives them, and
-- the assertions on their validation. What a text leaves out has its default.
use idcat.Common.{Bool, true, false, Option, none, List, [], ◌∷◌, Text, codes, text_eq, Map}
use idcat.Config.{
  Config, GithubAppConfig, InstallationPolicyConfig, RawInstallationPolicyConfig,
  RawOwnerPolicyConfig, local, default_bind_address, default_private_key_directory,
}
use idcat.Config.Messages.{to_string}
use idcat.Config.Tables.{installation_policy_of, owner_policy_of}
use idcat.Config.Validate.{validate}
use idcat.UnitTests.{unwrapped, unwrapped_err}
use idcat.UnitTests.StubAuthzoo.{Role, Requirement, stub_authzoo, github_workflow_role}

-- a `[[github-app]]` of this name, with these roles
abbrev pub an_app : Text → List Text → GithubAppConfig
an_app name allowed_roles = record {
  name = name;
  app_id = 42;
  secret_key = codes "private-key.pem";
  webhook_target = none;
  webhook_validation_secret_file = none;
  allowed_roles = allowed_roles;
}

abbrev pub default_app : GithubAppConfig
default_app = an_app (codes "default") []

-- a text with roles and apps, and nothing else
abbrev pub config_with : List Role → List GithubAppConfig → Config stub_authzoo
config_with roles github_apps = record {
  bind_address = default_bind_address;
  tls = none;
  key_source = local;
  private_key_directory = default_private_key_directory;
  nats = none;
  roles = roles;
  github_apps = github_apps;
  installation_policies = [];
  owner_policies = [];
}

-- the role and the app that the texts with policies have
abbrev pub deployments : Config stub_authzoo
deployments = config_with (github_workflow_role ∷ []) (an_app (codes "deployments") [] ∷ [])

abbrev pub contents_read : Map Text Text
contents_read = (codes "contents", codes "read") ∷ []

-- an `[[installation-policy]]` of the app and the role
abbrev pub installation_table :
    Option Text
    → Option (List Text)
    → Map Text Requirement
    → Bool
    → Map Text Text
    → RawInstallationPolicyConfig stub_authzoo
installation_table repository repositories required_claims allow_self_access permissions = record {
  github_app = codes "deployments";
  repository = repository;
  repositories = repositories;
  role = codes "github-workflow";
  required_claims = required_claims;
  allow_self_access = allow_self_access;
  permissions = permissions;
}

-- an `[[owner-policy]]` of the role, which has self access in all the tests but one
abbrev pub owner_table :
    Option Text
    → Option (List Text)
    → Map Text Requirement
    → Bool
    → Map Text Text
    → RawOwnerPolicyConfig stub_authzoo
owner_table owner owners required_claims allow_self_access permissions = record {
  github_app = codes "deployments";
  owner = owner;
  owners = owners;
  role = codes "github-workflow";
  required_claims = required_claims;
  allow_self_access = allow_self_access;
  permissions = permissions;
}

-- `config.validate(disable_auth).unwrap()`
unfoldable pub accepts : Bool → Config stub_authzoo → Bool
unfolding unwrapped validate
accepts disable_auth config =
    unwrapped (validate stub_authzoo false disable_auth config) (λ done. true)

-- `config.validate(disable_auth).unwrap_err().to_string()`, and the assertion on it
unfoldable pub refuses : Bool → Config stub_authzoo → (Text → Bool) → Bool
unfolding unwrapped_err validate
refuses disable_auth config holds =
    unwrapped_err (validate stub_authzoo false disable_auth config)
      (λ error. holds (to_string error))

-- The configuration with this one policy, if its table is one.
unfoldable pub with_installation_policy :
    RawInstallationPolicyConfig stub_authzoo
    → (InstallationPolicyConfig stub_authzoo → Config stub_authzoo → Bool)
    → Bool
unfolding unwrapped installation_policy_of
with_installation_policy table holds =
    unwrapped (installation_policy_of stub_authzoo table)
      (λ policy. holds policy (record deployments { installation_policies = policy ∷ [] }))

unfoldable pub with_owner_policy :
    RawOwnerPolicyConfig stub_authzoo → (Config stub_authzoo → Bool) → Bool
unfolding unwrapped owner_policy_of
with_owner_policy table holds =
    unwrapped (owner_policy_of stub_authzoo table)
      (λ policy. holds (record deployments { owner_policies = policy ∷ [] }))
