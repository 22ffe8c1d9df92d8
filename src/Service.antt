-- ===== src/Service.antt =====
-- src/service.rs: the scopes of tokens, the state of the service, and the validator of bearer
-- tokens. The children decide requests.
pub mod Authorize
pub mod Grants
pub mod Decisions
pub mod Fences
pub mod Policies
pub mod Built
pub mod Safety
use idcat.Common.{
  Bool, true, false, if◌then◌else◌, Option, none, some, List, [], ◌∷◌, ◌++◌, Text, codes, text_eq,
  ◌==◌, Map, lookup, insert, extend, Result, ok, err, ◌>>=◌, any, find?,
}
use idcat.Authzoo.{Authzoo}
use idcat.Config.{
  KeySource, local, kms, GithubAppConfig, InstallationPolicyConfig, OwnerPolicyConfig, Config,
  self_access_owner_claim, NatsConfig,
}
use idcat.Config.Server.{any_nats_webhook_target}
use idcat.AppError.{AppError, not_found}

pub data RepoScope : Type 0 where
  only_requested all : RepoScope

pub record TokenScope : Type 0 where
  pub repositories : RepoScope
  pub permissions : Map Text Text

abbrev pub broad : TokenScope
broad = record { repositories = all; permissions = [] }

-- What src/nats.rs keeps of its connection.
pub record WebhookPublisher : Type 0 where
  pub subject_base : Text

module _ (Z : Authzoo) where
  -- `service::TokenValidator`: no inner validator where authorization is off
  pub record TokenValidator : Type 0 where
    pub inner : Option Z.TokenValidator

  -- The client of GitHub, which is shared and changes, is the state of the `Github` modules.
  pub record AppState : Type 0 where
    pub github_apps : List GithubAppConfig
    pub installation_policies : List (InstallationPolicyConfig Z)
    pub owner_policies : List (OwnerPolicyConfig Z)
    pub token_validator : TokenValidator
    pub webhook_publisher : Option WebhookPublisher
    pub key_source : KeySource
    pub private_key_directory : Text
    -- there is a factory of signers; the field is read only in a build with the feature `kms`
    pub kms_signers : Bool

  -- `TokenValidator::new`
  unfoldable pub new_validator : List Z.RoleConfig → Bool → Result Text TokenValidator
  new_validator roles true = ok (record { inner = none })
  new_validator roles false = do validator ← Z.new roles; ok (record { inner = some validator })

  unfoldable pub auth_enabled : TokenValidator → Bool
  auth_enabled v = elim v.inner [ none ↦ false | some _ ↦ true ]

  unfoldable pub validate : TokenValidator → Text → List Text
  validate v bearer_token = elim v.inner [
    | none ↦ []
    | some validator ↦ Z.validate validator bearer_token
  ]

  -- A validator of the one role, asked for the token.
  role_matches : Result Text Z.TokenValidator → Text → Text → Bool
  role_matches (err _) role_name bearer_token = false
  role_matches (ok validator) role_name bearer_token =
      any (λ role. role == role_name) (Z.validate validator bearer_token)

  with_required : Option Z.RoleConfig → Text → Map Text Z.ClaimRequirement → Text → Bool
  with_required none role_name required bearer_token = false
  with_required (some role) role_name required bearer_token =
      role_matches (Z.new (Z.with_claims role (extend (Z.claims role) required) ∷ [])) role_name
        bearer_token

  unfoldable pub validate_role_with_claims :
      TokenValidator → Text → Map Text Z.ClaimRequirement → Text → Bool
  unfolding with_required role_matches any
  validate_role_with_claims v role_name required bearer_token = elim v.inner [
    | none ↦ false
    | some validator ↦
        with_required (lookup role_name (Z.roles validator)) role_name required bearer_token
  ]

  unfoldable pub claims_for_request :
      InstallationPolicyConfig Z → Text → Map Text Z.ClaimRequirement
  claims_for_request p request_repo =
      if p.allow_self_access
      then insert (codes "repository") (Z.equals request_repo) p.required_claims
      else p.required_claims

  unfoldable pub claims_for_owner_request : OwnerPolicyConfig Z → Text → Map Text Z.ClaimRequirement
  claims_for_owner_request p request_owner =
      if p.allow_self_access
      then insert self_access_owner_claim (Z.equals request_owner) p.required_claims
      else p.required_claims

  -- `AppState::github_app`
  unfoldable pub github_app : AppState → Text → Result AppError GithubAppConfig
  unfolding find?
  github_app state name = elim (find? (λ app. app.name == name) state.github_apps) [
    | none ↦ err (not_found (codes "unknown github_app '" ++ (name ++ codes "'")))
    | some app ↦ ok app
  ]

  -- `match (any_nats_webhook_target, &config.nats)`
  connect_publisher :
      (NatsConfig → Result Text WebhookPublisher)
      → Bool
      → Option NatsConfig
      → Result Text (Option WebhookPublisher)
  connect_publisher connect true (some n) = do publisher ← connect n; ok (some publisher)
  connect_publisher connect _ _ = ok none

  -- `match config.key_source`
  has_kms_signers : KeySource → Bool
  has_kms_signers local = false
  has_kms_signers kms = true

  -- `connect` is `WebhookPublisher::connect`, and `client` the outcome of `GithubClient::new`.
  unfoldable pub build_app_state :
      (NatsConfig → Result Text WebhookPublisher)
      → Result Text (Unit {0})
      → Config Z
      → Bool
      → Result Text AppState
  unfolding connect_publisher has_kms_signers new_validator any_nats_webhook_target
  build_app_state connect client c disable_auth = do
    publisher ← connect_publisher connect (any_nats_webhook_target c.github_apps) c.nats
    validator ← new_validator c.roles disable_auth
    _ ← client
    ok (record {
      github_apps = c.github_apps;
      installation_policies = c.installation_policies;
      owner_policies = c.owner_policies;
      token_validator = validator;
      webhook_publisher = publisher;
      key_source = c.key_source;
      private_key_directory = c.private_key_directory;
      kms_signers = has_kms_signers c.key_source;
    })
