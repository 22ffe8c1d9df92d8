-- ===== src/UnitTests/ServiceStates.antt =====
-- src/service.rs, the module `tests`: the states of its tests, and the assertions on a decision.
use idcat.Common.{
  Bool, true, false, Option, some, none, List, [], ◌∷◌, Text, codes, text_eq, text_dec, ◌==◌, Eq,
  Map, Result, ok, err,
}
use idcat.Config.{GithubAppConfig, InstallationPolicyConfig, OwnerPolicyConfig, local}
use idcat.AppError.{AppError, unauthorized}
use idcat.Service.{RepoScope, TokenScope, AppState, github_app}
use idcat.Service.Authorize.{authorize_github_app, authorize_owner}
use idcat.UnitTests.{unwrapped, unwrapped_err}
use idcat.UnitTests.StubAuthzoo.{
  Role, equals, contains, stub_authzoo, wild_match, github_workflow_role, array_roles_role,
}

-- `GithubAppConfig` as each test writes it, with these roles
abbrev pub app_with : List Text → GithubAppConfig
app_with allowed_roles = record {
  name = codes "default";
  app_id = 42;
  secret_key = codes "private-key.pem";
  webhook_target = none;
  webhook_validation_secret_file = none;
  allowed_roles = allowed_roles;
}

-- `default_github_app`
abbrev pub default_github_app : GithubAppConfig
default_github_app = app_with []

-- `test_state_with_policies`, with the validator that the test puts in its place
abbrev pub test_state :
    List GithubAppConfig
    → List (InstallationPolicyConfig stub_authzoo)
    → List (OwnerPolicyConfig stub_authzoo)
    → Option (List Role)
    → AppState stub_authzoo
test_state github_apps installation_policies owner_policies inner = record {
  github_apps = github_apps;
  installation_policies = installation_policies;
  owner_policies = owner_policies;
  token_validator = record { inner = inner };
  webhook_publisher = none;
  key_source = local;
  private_key_directory = codes "/var/run/secrets/idcat";
  kms_signers = false;
}

-- The state of most tests: the app, the role of workflows, and one policy.
abbrev pub state_with_installation_policy :
    InstallationPolicyConfig stub_authzoo → AppState stub_authzoo
state_with_installation_policy policy =
    test_state (default_github_app ∷ []) (policy ∷ []) [] (some (github_workflow_role ∷ []))

-- `state_with_owner_policy`
abbrev pub state_with_owner_policy : OwnerPolicyConfig stub_authzoo → AppState stub_authzoo
state_with_owner_policy policy =
    test_state (default_github_app ∷ []) [] (policy ∷ []) (some (github_workflow_role ∷ []))

-- The policy that two tests write: a workflow of `myorg/gamma` may have a token for `myorg/alfa`.
abbrev pub gamma_policy : InstallationPolicyConfig stub_authzoo
gamma_policy = record {
  github_app = codes "default";
  repositories = codes "myorg/alfa" ∷ [];
  role = codes "github-workflow";
  required_claims = (codes "repository", equals (codes "myorg/gamma")) ∷ [];
  allow_self_access = false;
  permissions = [];
}

-- `workflow_self_scoping_policy`
abbrev pub workflow_self_scoping_policy : InstallationPolicyConfig stub_authzoo
workflow_self_scoping_policy = record {
  github_app = codes "default";
  repositories = codes "myorg/*" ∷ [];
  role = codes "github-workflow";
  required_claims = [];
  allow_self_access = true;
  permissions = [];
}

-- `packages_owner_policy`
abbrev pub packages_owner_policy : OwnerPolicyConfig stub_authzoo
packages_owner_policy = record {
  github_app = codes "default";
  owners = codes "myorg" ∷ [];
  role = codes "github-workflow";
  required_claims = [];
  allow_self_access = true;
  permissions = (codes "packages", codes "read") ∷ [];
}

-- `array_roles_state`
abbrev pub array_roles_state : AppState stub_authzoo
array_roles_state =
    test_state (default_github_app ∷ [])
      (record {
        github_app = codes "default";
        repositories = codes "myorg/alfa" ∷ [];
        role = codes "teleport";
        required_claims = (codes "roles", contains (codes "alfa-readers")) ∷ [];
        allow_self_access = false;
        permissions = (codes "contents", codes "read") ∷ [];
      }
        ∷ [])
      [] (some (array_roles_role ∷ []))

-- `state.github_app("default").unwrap()`, and then what the app is asked for a repository
unfoldable pub ask : AppState stub_authzoo → Text → Option Text → Result AppError TokenScope
unfolding github_app
ask state repo token = elim (github_app stub_authzoo state (codes "default")) [
  | err e ↦ err e
  | ok app ↦ authorize_github_app stub_authzoo wild_match state app repo token
]

-- the same for an owner
unfoldable pub ask_owner : AppState stub_authzoo → Text → Option Text → Result AppError TokenScope
unfolding github_app
ask_owner state owner token = elim (github_app stub_authzoo state (codes "default")) [
  | err e ↦ err e
  | ok app ↦ authorize_owner stub_authzoo wild_match state app owner token
]

unfoldable pub scope_dec : Discrete TokenScope
scope_dec = hlevel text_dec

instance abbrev pub scope_eq : Eq TokenScope
scope_eq = record { dec = scope_dec }

-- `matches!(error, AppError::Unauthorized(_))`
unfoldable pub is_unauthorized : AppError → Bool
is_unauthorized (unauthorized message) = true
is_unauthorized _ = false

unfoldable pub is_granted : Result AppError TokenScope → RepoScope → Map Text Text → Bool
unfolding unwrapped
is_granted result repositories permissions =
    unwrapped result
      (λ scope. scope == record { repositories = repositories; permissions = permissions })

unfoldable pub is_refused : Result AppError TokenScope → Bool
unfolding unwrapped_err is_unauthorized
is_refused result = unwrapped_err result is_unauthorized

-- `.unwrap()` alone, and `.is_err()`
unfoldable pub is_ok : Result AppError TokenScope → Bool
unfolding unwrapped
is_ok result = unwrapped result (λ scope. true)

unfoldable pub is_err : Result AppError TokenScope → Bool
unfolding unwrapped_err
is_err result = unwrapped_err result (λ error. true)
