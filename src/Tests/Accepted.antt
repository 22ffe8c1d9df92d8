-- ===== src/Tests/Accepted.antt =====
-- The small world's configuration is accepted, its service is built, and a request is answered.
use idcat.Common.{
  false, none, ◌==◌, text_eq, extend, insert, find?, codes, ok, some, ◌∷◌, [], ◌≡◌, refl,
  contains_char, is_absolute, contains_text, contains, for_each, text_dec, any, contains_key,
  lookup, split_once, starts_with, is_whitespace, join,
}
use idcat.Nats.{connect}
use idcat.Service.{
  AppState, build_app_state, TokenScope, only_requested, all, new_validator, auth_enabled,
  validate as validate_token, validate_role_with_claims, claims_for_request,
  claims_for_owner_request,
}
use idcat.Service.Authorize.{
  allowed_role_match, installation_policy_admits, owner_policy_admits, authorize_repo_token,
  authorize_github_app, authorize_owner_token, authorize_owner,
}
use idcat.Config.{local, is_valid_repo_pattern, is_valid_owner_pattern}
use idcat.Tests.Zoo.{zoo}
use idcat.Tests.World.{broker, reader, a_policy, an_owner_policy, an_app, a_config}
use idcat.Config.Validate.{
  validate, validate_server, validate_with, validate_access, check_reachable,
  has_installation_policy, has_owner_policy,
}
use idcat.Config.Server.{
  validate_listener, validate_key_source, validate_nats, any_nats_webhook_target,
  validate_nats_block,
}
use idcat.Config.Apps.{validate_apps}
use idcat.Config.InstallationPolicies.{validate_installation_policy, repositories_label}
use idcat.Config.OwnerPolicies.{validate_owner_policy, owners_label}
use idcat.Config.Claims.{check_claims, check_self_access, index_role}
use native.Mathlib.Decide.{ℕ_discrete, dec_le}

pub a_config_accepted : validate zoo false false a_config ≡ ok tt
unfolding codes contains_char is_absolute contains_text contains for_each text_dec any contains_key
    lookup split_once starts_with is_whitespace join validate validate_server validate_with
    validate_access check_reachable has_installation_policy has_owner_policy validate_listener
    validate_key_source validate_nats any_nats_webhook_target validate_nats_block validate_apps
    validate_installation_policy repositories_label validate_owner_policy owners_label check_claims
    check_self_access index_role is_valid_repo_pattern is_valid_owner_pattern ℕ_discrete dec_le
a_config_accepted = refl

abbrev pub a_state : AppState zoo
a_state = record {
  github_apps = an_app ∷ [];
  installation_policies = a_policy ∷ [];
  owner_policies = an_owner_policy ∷ [];
  token_validator = record { inner = some (reader ∷ []) };
  webhook_publisher = none;
  key_source = local;
  private_key_directory = codes "/keys";
  kms_signers = false;
}

pub a_state_built : build_app_state zoo (connect broker) (ok tt) a_config false ≡ ok a_state
unfolding build_app_state new_validator any_nats_webhook_target any
a_state_built = refl

abbrev pub repo_scope : TokenScope
repo_scope = record {
  repositories = only_requested;
  permissions = (codes "contents", codes "read") ∷ [];
}

abbrev pub owner_scope : TokenScope
owner_scope = record { repositories = all; permissions = (codes "contents", codes "read") ∷ [] }

pub repo_granted :
    authorize_github_app zoo
      (λ pattern text. pattern == text)
      a_state
      an_app
      (codes "o/r")
      (some (codes "o/r"))
    ≡ ok repo_scope
unfolding codes authorize_github_app auth_enabled authorize_repo_token text_dec ℕ_discrete any find?
    lookup extend insert allowed_role_match installation_policy_admits owner_policy_admits
    validate_token validate_role_with_claims claims_for_request claims_for_owner_request
repo_granted = refl

pub owner_granted :
    authorize_owner zoo
      (λ pattern text. pattern == text)
      a_state
      an_app
      (codes "o")
      (some (codes "o/r"))
    ≡ ok owner_scope
unfolding codes authorize_owner auth_enabled authorize_owner_token text_dec ℕ_discrete any find?
    lookup extend insert allowed_role_match installation_policy_admits owner_policy_admits
    validate_token validate_role_with_claims claims_for_request claims_for_owner_request
owner_granted = refl
