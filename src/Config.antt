-- ===== src/Config.antt =====
-- src/config.rs: the configuration file's types, the patterns of policies, and how the two raw
-- policy tables become policies. The children check a configuration.
pub mod Errors
pub mod Messages
pub mod Server
pub mod Apps
pub mod Claims
pub mod Patterns
pub mod InstallationPolicies
pub mod OwnerPolicies
pub mod Validate
pub mod Tables
pub mod Permissions
pub mod Warnings
pub mod Load
use idcat.Common.{
  ℕ, Bool, true, false, not, ◌&&◌, if◌then◌else◌, Option, none, some, List, [], ◌∷◌, Text, codes,
  text_eq, ◌==◌, Map, is_nil, contains_char, split_once,
}
use idcat.Authzoo.{Authzoo}

-- `KNOWN_PERMISSION_VALUES`
abbrev pub known_permission_values : List Text
known_permission_values = codes "read" ∷ codes "write" ∷ codes "admin" ∷ []

-- `SELF_ACCESS_OWNER_CLAIM`
abbrev pub self_access_owner_claim : Text
self_access_owner_claim = codes "repository_owner"

pub record TlsConfig : Type 0 where
  pub certificate_file : Text
  pub private_key_file : Text

pub data KeySource : Type 0 where
  local kms : KeySource

pub data WebhookTarget : Type 0 where
  nats : WebhookTarget

pub record NatsConfig : Type 0 where
  pub endpoint : Text
  pub subject_base : Text
  pub token_path : Option Text

pub record GithubAppConfig : Type 0 where
  pub name : Text
  pub app_id : ℕ
  pub secret_key : Text
  pub webhook_target : Option WebhookTarget
  pub webhook_validation_secret_file : Option Text
  pub allowed_roles : List Text

unfoldable pub default_bind_address : Text
default_bind_address = codes "0.0.0.0:8080"

unfoldable pub default_private_key_directory : Text
default_private_key_directory = codes "/var/run/secrets/idcat"

unfoldable pub is_valid_owner_pattern : Text → Bool
is_valid_owner_pattern pattern = not (is_nil pattern) && not (contains_char pattern b'/')

-- The two halves of a pattern that has a slash.
valid_halves : Text × Text → Bool
valid_halves (owner, name) =
    not (contains_char name b'/') && (not (is_nil owner) && not (is_nil name))

unfoldable pub is_valid_repo_pattern : Text → Bool
unfolding valid_halves
is_valid_repo_pattern [] = false
is_valid_repo_pattern (c ∷ s) =
    if (c ∷ s) == codes "*"
    then true
    else elim (split_once (c ∷ s) b'/') [ none ↦ false | some halves ↦ valid_halves halves ]

module _ (Z : Authzoo) where
  pub record InstallationPolicyConfig : Type 0 where
    pub github_app : Text
    pub repositories : List Text
    pub role : Text
    pub required_claims : Map Text Z.ClaimRequirement
    pub allow_self_access : Bool
    pub permissions : Map Text Text

  pub record RawInstallationPolicyConfig : Type 0 where
    pub github_app : Text
    pub repository : Option Text
    pub repositories : Option (List Text)
    pub role : Text
    pub required_claims : Map Text Z.ClaimRequirement
    pub allow_self_access : Bool
    pub permissions : Map Text Text

  pub record OwnerPolicyConfig : Type 0 where
    pub github_app : Text
    pub owners : List Text
    pub role : Text
    pub required_claims : Map Text Z.ClaimRequirement
    pub allow_self_access : Bool
    pub permissions : Map Text Text

  pub record RawOwnerPolicyConfig : Type 0 where
    pub github_app : Text
    pub owner : Option Text
    pub owners : Option (List Text)
    pub role : Text
    pub required_claims : Map Text Z.ClaimRequirement
    pub allow_self_access : Bool
    pub permissions : Map Text Text

  pub record Config : Type 0 where
    pub bind_address : Text
    pub tls : Option TlsConfig
    pub key_source : KeySource
    pub private_key_directory : Text
    pub nats : Option NatsConfig
    pub roles : List Z.RoleConfig
    pub github_apps : List GithubAppConfig
    pub installation_policies : List (InstallationPolicyConfig)
    pub owner_policies : List (OwnerPolicyConfig)
