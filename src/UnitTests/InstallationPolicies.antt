-- ===== src/UnitTests/InstallationPolicies.antt =====
-- src/config.rs, the module `tests`: the tests of the policies for repositories.
use native.Mathlib.Decide.{dec_le, ℕ_discrete}
use idcat.Common.{
  ◌≡◌, refl, Bool, true, false, ◌&&◌, Option, some, none, List, [], ◌∷◌, Text, codes, text_eq,
  text_dec, ◌==◌, Eq, is_nil, lookup, insert, contains, any, find?, split, split_once, join,
  strip_prefix, starts_with, contains_text, is_absolute, contains_char, is_whitespace, for_each,
  contains_key,
}
use idcat.Config.{
  InstallationPolicyConfig, default_bind_address, default_private_key_directory,
  is_valid_repo_pattern, is_valid_owner_pattern,
}
use idcat.Config.Errors
use idcat.Config.Messages.{to_string, table_message}
use idcat.Config.Server.{
  validate_listener, validate_key_source, validate_nats, any_nats_webhook_target,
  validate_nats_block,
}
use idcat.Config.Apps.{validate_apps}
use idcat.Config.Claims.{index_role, check_claims, check_self_access}
use idcat.Config.InstallationPolicies.{validate_installation_policy, repositories_label}
use idcat.Config.OwnerPolicies.{validate_owner_policy, owners_label}
use idcat.Config.Tables.{
  installation_policy_of, owner_policy_of, choose_repositories, choose_owners,
}
use idcat.Config.Validate.{
  validate, validate_server, validate_with, validate_access, check_reachable,
  has_installation_policy, has_owner_policy,
}
use idcat.UnitTests.{unwrapped, unwrapped_err, pass}
use idcat.UnitTests.StubAuthzoo.{
  Requirement, equals, contains as has_element, any_of, stub_authzoo, by_name, ensure,
}
use idcat.UnitTests.ConfigFiles.{
  contents_read, installation_table, accepts, refuses, with_installation_policy, with_owner_policy,
}

unfoldable requirement_dec : Discrete (Option Requirement)
requirement_dec = hlevel text_dec

instance abbrev requirement_eq : Eq (Option Requirement)
requirement_eq = record { dec = requirement_dec }

unfoldable names_dec : Discrete (List Text)
names_dec = hlevel text_dec

instance abbrev names_eq : Eq (List Text)
names_eq = record { dec = names_dec }

unfoldable value_dec : Discrete (Option Text)
value_dec = hlevel text_dec

instance abbrev value_eq : Eq (Option Text)
value_eq = record { dec = value_dec }

abbrev requires : InstallationPolicyConfig stub_authzoo → Text → Requirement → Bool
requires policy claim requirement = lookup claim policy.required_claims == some requirement

abbrev alfa_or_bravo : Requirement
alfa_or_bravo = any_of (codes "myorg/alfa" ∷ codes "myorg/bravo" ∷ [])

abbrev accepts_wildcard_repository_without_allow_self_access : Bool
accepts_wildcard_repository_without_allow_self_access =
    with_installation_policy
      (installation_table (some (codes "myorg/*")) none
        ((codes "environment", equals (codes "production")) ∷ []) false contents_read)
      (λ policy config. accepts false config)

abbrev accepts_an_installation_policy_requiring_membership_of_an_array_claim : Bool
accepts_an_installation_policy_requiring_membership_of_an_array_claim =
    with_installation_policy
      (installation_table (some (codes "myorg/alfa")) none
        ((codes "roles", has_element (codes "alfa-readers")) ∷ []) false contents_read)
      (λ policy config.
        accepts false config
        && requires policy (codes "roles") (has_element (codes "alfa-readers")))

abbrev accepts_wildcard_repository_with_allow_self_access : Bool
accepts_wildcard_repository_with_allow_self_access =
    with_installation_policy
      (installation_table (some (codes "myorg/*")) none [] true contents_read)
      (λ policy config. accepts false config)

abbrev accepts_bare_star_wildcard_with_allow_self_access : Bool
accepts_bare_star_wildcard_with_allow_self_access =
    with_installation_policy (installation_table (some (codes "*")) none [] true contents_read)
      (λ policy config. accepts false config)

abbrev parses_installation_policy_with_allow_self_access : Bool
parses_installation_policy_with_allow_self_access =
    with_installation_policy
      (installation_table (some (codes "myorg/alfa")) none [] true contents_read)
      (λ policy config.
        policy.repositories == codes "myorg/alfa" ∷ []
        && policy.allow_self_access
        && is_nil policy.required_claims)

abbrev parses_installation_policy_with_repositories : Bool
parses_installation_policy_with_repositories =
    with_installation_policy
      (installation_table none (some (codes "myorg/alfa" ∷ codes "myorg/bravo" ∷ []))
        ((codes "repository", equals (codes "myorg/gamma")) ∷ []) false contents_read)
      (λ policy config.
        accepts false config
        && policy.repositories == codes "myorg/alfa" ∷ codes "myorg/bravo" ∷ [])

abbrev rejects_installation_policy_with_both_repository_forms : Bool
rejects_installation_policy_with_both_repository_forms =
    unwrapped_err
      (installation_policy_of stub_authzoo (
        installation_table (some (codes "myorg/alfa")) (some (codes "myorg/bravo" ∷ []))
          ((codes "repository", equals (codes "myorg/gamma")) ∷ []) false contents_read))
      (λ error.
        contains_text (table_message Errors.installation error)
          (codes "either repository or repositories, not both"))

abbrev rejects_installation_policy_without_repository_form : Bool
rejects_installation_policy_without_repository_form =
    unwrapped_err
      (installation_policy_of stub_authzoo (
        installation_table none none ((codes "repository", equals (codes "myorg/gamma")) ∷ []) false
          contents_read))
      (λ error.
        contains_text (table_message Errors.installation error)
          (codes "either repository or repositories"))

abbrev rejects_installation_policy_with_empty_repositories : Bool
rejects_installation_policy_with_empty_repositories =
    with_installation_policy
      (installation_table none (some []) ((codes "repository", equals (codes "myorg/gamma")) ∷ [])
        false contents_read)
      (λ policy config.
        refuses false config (λ error. contains_text error (codes "at least one repository")))

abbrev rejects_allow_self_access_with_explicit_repository_required_claim : Bool
rejects_allow_self_access_with_explicit_repository_required_claim =
    with_installation_policy
      (installation_table (some (codes "myorg/*")) none
        ((codes "repository", equals (codes "myorg/alfa")) ∷ []) true contents_read)
      (λ policy config.
        refuses false config (λ error. contains_text error (codes "allow-self-access")))

abbrev required_claims_accepts_any_of_list_form : Bool
required_claims_accepts_any_of_list_form =
    with_installation_policy
      (installation_table (some (codes "myorg/alfa")) none
        ((codes "repository", alfa_or_bravo) ∷ []) false contents_read)
      (λ policy config. accepts false config && requires policy (codes "repository") alfa_or_bravo)

abbrev rejects_installation_policy_with_malformed_repository_pattern : Bool
rejects_installation_policy_with_malformed_repository_pattern =
    with_installation_policy
      (installation_table (some (codes "owner-only-no-slash")) none
        ((codes "repository", equals (codes "myorg/gamma")) ∷ []) false contents_read)
      (λ policy config. refuses false config (λ error. contains_text error (codes "owner/name")))

abbrev validate_accepts_unknown_permission_name_and_value_without_error : Bool
validate_accepts_unknown_permission_name_and_value_without_error =
    with_installation_policy
      (installation_table (some (codes "myorg/alfa")) none
        ((codes "repository", equals (codes "myorg/gamma")) ∷ []) false
        ((codes "made_up_permission", codes "sideways") ∷ []))
      (λ policy config. accepts false config)

abbrev parses_installation_policy_with_permissions : Bool
parses_installation_policy_with_permissions =
    with_installation_policy
      (installation_table (some (codes "myorg/*")) none
        ((codes "repository", equals (codes "myorg/gamma")) ∷ []) false
        ((codes "contents", codes "read") ∷ (codes "pull_requests", codes "write") ∷ []))
      (λ policy config.
        accepts false config
        && lookup (codes "contents") policy.permissions == some (codes "read")
        && lookup (codes "pull_requests") policy.permissions == some (codes "write"))

abbrev rejects_installation_policy_with_empty_permissions : Bool
rejects_installation_policy_with_empty_permissions =
    with_installation_policy
      (installation_table (some (codes "myorg/alfa")) none
        ((codes "repository", equals (codes "myorg/gamma")) ∷ []) false [])
      (λ policy config. refuses false config (λ error.
        error
        == codes
            "installation-policy for github-app 'deployments' repository 'myorg/alfa' role 'github-workflow' must define at least one permission"))

abbrev accepts_installation_policy_with_required_claims : Bool
accepts_installation_policy_with_required_claims =
    with_installation_policy
      (installation_table (some (codes "myorg/alfa")) none
        ((codes "repository", equals (codes "myorg/gamma")) ∷ []) false contents_read)
      (λ policy config. accepts false config)

abbrev rejects_installation_policy_without_required_claims : Bool
rejects_installation_policy_without_required_claims =
    with_installation_policy
      (installation_table (some (codes "myorg/alfa")) none [] false contents_read)
      (λ policy config. refuses false config (λ error.
        error
        == codes
            "installation-policy for github-app 'deployments' repository 'myorg/alfa' role 'github-workflow' must define at least one required-claim (or set allow-self-access)"))

tests_pass :
    pass (
      accepts_wildcard_repository_without_allow_self_access
      ∷ accepts_an_installation_policy_requiring_membership_of_an_array_claim
      ∷ accepts_wildcard_repository_with_allow_self_access
      ∷ accepts_bare_star_wildcard_with_allow_self_access
      ∷ parses_installation_policy_with_allow_self_access
      ∷ parses_installation_policy_with_repositories
      ∷ rejects_installation_policy_with_both_repository_forms
      ∷ rejects_installation_policy_without_repository_form
      ∷ rejects_installation_policy_with_empty_repositories
      ∷ rejects_allow_self_access_with_explicit_repository_required_claim
      ∷ required_claims_accepts_any_of_list_form
      ∷ rejects_installation_policy_with_malformed_repository_pattern
      ∷ validate_accepts_unknown_permission_name_and_value_without_error
      ∷ parses_installation_policy_with_permissions
      ∷ rejects_installation_policy_with_empty_permissions
      ∷ accepts_installation_policy_with_required_claims
      ∷ rejects_installation_policy_without_required_claims ∷ [])
    ≡ true
unfolding codes text_dec ℕ_discrete dec_le lookup insert contains any find? split split_once join
    strip_prefix starts_with contains_text is_absolute contains_char is_whitespace for_each
    contains_key unwrapped unwrapped_err pass validate validate_server validate_with validate_access
    validate_listener validate_key_source validate_nats any_nats_webhook_target validate_nats_block
    validate_apps validate_installation_policy validate_owner_policy check_reachable
    has_installation_policy has_owner_policy repositories_label owners_label index_role check_claims
    check_self_access is_valid_repo_pattern is_valid_owner_pattern to_string table_message by_name
    ensure accepts refuses with_installation_policy with_owner_policy installation_policy_of
    owner_policy_of choose_repositories choose_owners requirement_dec names_dec value_dec
    default_bind_address default_private_key_directory
tests_pass = refl
