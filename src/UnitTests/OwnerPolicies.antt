-- ===== src/UnitTests/OwnerPolicies.antt =====
-- src/config.rs, the module `tests`: the tests of the policies for owners.
use native.Mathlib.Decide.{dec_le, ℕ_discrete}
use idcat.Common.{
  ◌≡◌, refl, Bool, true, false, some, none, [], ◌∷◌, Text, codes, text_eq, text_dec, ◌==◌, Map,
  lookup, insert, contains, any, find?, split, split_once, join, strip_prefix, starts_with,
  contains_text, is_absolute, contains_char, is_whitespace, for_each, contains_key,
}
use idcat.Config.{
  default_bind_address, default_private_key_directory, is_valid_repo_pattern,
  is_valid_owner_pattern,
}
use idcat.Config.Errors
use idcat.Config.Messages.{to_string, table_message}
use idcat.Config.Server.{
  validate_listener, validate_key_source, validate_nats, any_nats_webhook_target,
  validate_nats_block,
}
use idcat.Config.Apps.{validate_apps}
use idcat.Config.Claims.{index_role, check_claims, check_self_access}
use idcat.Config.InstallationPolicies.{validate_installation_policy, repositories_label}
use idcat.Config.OwnerPolicies.{validate_owner_policy, owners_label}
use idcat.Config.Tables.{
  installation_policy_of, owner_policy_of, choose_repositories, choose_owners,
}
use idcat.Config.Validate.{
  validate, validate_server, validate_with, validate_access, check_reachable,
  has_installation_policy, has_owner_policy,
}
use idcat.UnitTests.{unwrapped, unwrapped_err, pass}
use idcat.UnitTests.StubAuthzoo.{equals, stub_authzoo, by_name, ensure}
use idcat.UnitTests.ConfigFiles.{
  owner_table, accepts, refuses, with_installation_policy, with_owner_policy,
}

abbrev packages_read : Map Text Text
packages_read = (codes "packages", codes "read") ∷ []

abbrev accepts_owner_policy_as_the_only_grant_for_a_github_app : Bool
accepts_owner_policy_as_the_only_grant_for_a_github_app =
    with_owner_policy (owner_table (some (codes "myorg")) none [] true packages_read)
      (λ config. accepts false config)

abbrev rejects_owner_policy_without_permissions : Bool
rejects_owner_policy_without_permissions =
    with_owner_policy (owner_table (some (codes "myorg")) none [] true []) (λ config.
      refuses false config (λ error.
        error
        == codes
            "owner-policy for github-app 'deployments' owner 'myorg' role 'github-workflow' must define at least one permission under [owner-policy.permissions]; an owner-wide token without narrowed permissions is what allowed-roles already grants"))

abbrev rejects_owner_policy_without_required_claims_or_self_access : Bool
rejects_owner_policy_without_required_claims_or_self_access =
    with_owner_policy (owner_table (some (codes "myorg")) none [] false packages_read) (λ config.
      refuses false config (λ error.
        error
        == codes
            "owner-policy for github-app 'deployments' owner 'myorg' role 'github-workflow' must define at least one required-claim (or set allow-self-access)"))

abbrev rejects_owner_policy_with_a_repository_shaped_owner : Bool
rejects_owner_policy_with_a_repository_shaped_owner =
    with_owner_policy (owner_table (some (codes "myorg/alfa")) none [] true packages_read)
      (λ config. refuses false config (λ error.
        error
        == codes
            "owner-policy for github-app 'deployments' must define owner as an account name or a glob like 'myorg-*' or '*', without a '/'"))

abbrev rejects_owner_policy_that_redefines_the_self_access_claim : Bool
rejects_owner_policy_that_redefines_the_self_access_claim =
    with_owner_policy
      (owner_table (some (codes "myorg")) none
        ((codes "repository_owner", equals (codes "otherorg")) ∷ []) true packages_read)
      (λ config. refuses false config (λ error.
        error
        == codes
            "owner-policy for github-app 'deployments' owner 'myorg' role 'github-workflow' sets allow-self-access; required-claims must not also define 'repository_owner' (allow-self-access already constrains it to the requested owner)"))

abbrev rejects_owner_policy_that_sets_both_owner_and_owners : Bool
rejects_owner_policy_that_sets_both_owner_and_owners =
    unwrapped_err
      (owner_policy_of stub_authzoo (
        owner_table (some (codes "myorg")) (some (codes "myorg" ∷ codes "otherorg" ∷ [])) [] true
          packages_read))
      (λ error.
        contains_text (table_message Errors.owner error)
          (codes "owner-policy must specify either owner or owners, not both"))

abbrev rejects_owner_policy_referencing_an_unknown_github_app : Bool
rejects_owner_policy_referencing_an_unknown_github_app =
    with_owner_policy
      (record (owner_table (some (codes "myorg")) none [] true packages_read) {
        github_app = codes "missing";
      })
      (λ config.
        refuses false config
          (λ error. error == codes "owner-policy references unknown github-app 'missing'"))

tests_pass :
    pass (
      accepts_owner_policy_as_the_only_grant_for_a_github_app
      ∷ rejects_owner_policy_without_permissions
      ∷ rejects_owner_policy_without_required_claims_or_self_access
      ∷ rejects_owner_policy_with_a_repository_shaped_owner
      ∷ rejects_owner_policy_that_redefines_the_self_access_claim
      ∷ rejects_owner_policy_that_sets_both_owner_and_owners
      ∷ rejects_owner_policy_referencing_an_unknown_github_app ∷ [])
    ≡ true
unfolding codes text_dec ℕ_discrete dec_le lookup insert contains any find? split split_once join
    strip_prefix starts_with contains_text is_absolute contains_char is_whitespace for_each
    contains_key unwrapped unwrapped_err pass validate validate_server validate_with validate_access
    validate_listener validate_key_source validate_nats any_nats_webhook_target validate_nats_block
    validate_apps validate_installation_policy validate_owner_policy check_reachable
    has_installation_policy has_owner_policy repositories_label owners_label index_role check_claims
    check_self_access is_valid_repo_pattern is_valid_owner_pattern to_string table_message by_name
    ensure accepts refuses with_installation_policy with_owner_policy installation_policy_of
    owner_policy_of choose_repositories choose_owners default_bind_address
    default_private_key_directory
tests_pass = refl
