-- ===== src/UnitTests/Service.antt =====
-- src/service.rs, the module `tests`: who gets a token, and of what scope.
use native.Mathlib.Decide.{dec_le, ℕ_discrete}
use idcat.Common.{
  ◌≡◌, refl, Bool, true, some, none, List, [], ◌∷◌, Text, codes, text_eq, text_dec, ◌==◌, Eq,
  lookup, insert, extend, any, find?, split, join, split_once,
}
use idcat.Service.{
  only_requested, all, github_app, auth_enabled, validate, validate_role_with_claims,
  claims_for_request, claims_for_owner_request,
}
use idcat.Service.Authorize.{
  authorize_github_app, authorize_owner, allowed_role_match, installation_policy_admits,
  owner_policy_admits, authorize_repo_token, authorize_owner_token, no_match_message,
}
use idcat.UnitTests.{unwrapped, unwrapped_err, pass}
use idcat.UnitTests.StubAuthzoo.{
  stub_authzoo, line_of, element_of, has_line, meets, meets_all, has_role, role_names, by_name,
  from_here, wild_match, github_workflow_role, owner_part, github_workflow_token, array_roles_token,
}
use idcat.UnitTests.ServiceStates.{
  app_with, default_github_app, test_state, state_with_installation_policy, state_with_owner_policy,
  gamma_policy, workflow_self_scoping_policy, packages_owner_policy, array_roles_state, ask,
  ask_owner, scope_dec, scope_eq, is_unauthorized, is_granted, is_refused, is_ok, is_err,
}

unfoldable names_dec : Discrete (List Text)
names_dec = hlevel text_dec

instance abbrev names_eq : Eq (List Text)
names_eq = record { dec = names_dec }

abbrev github_app_returns_matching_config : Bool
github_app_returns_matching_config =
    unwrapped
      (github_app stub_authzoo
        (test_state (app_with (codes "buildkite-deploy" ∷ []) ∷ []) [] [] none) (codes "default"))
      (λ app. app.allowed_roles == codes "buildkite-deploy" ∷ [])

abbrev authorize_github_app_passes_when_auth_disabled : Bool
authorize_github_app_passes_when_auth_disabled =
    is_ok (ask (test_state (default_github_app ∷ []) [] [] none) (codes "myorg/alfa") none)

abbrev authorize_github_app_requires_bearer_token_when_auth_enabled : Bool
authorize_github_app_requires_bearer_token_when_auth_enabled = is_refused (
    ask (test_state (app_with (codes "kubernetes-default" ∷ []) ∷ []) [] [] (some []))
      (codes "myorg/alfa") none)

abbrev accepts_installation_policy_with_required_claims : Bool
accepts_installation_policy_with_required_claims = is_ok (
    ask (state_with_installation_policy gamma_policy) (codes "myorg/alfa")
      (some (github_workflow_token (codes "myorg/gamma"))))

abbrev matches_a_role_held_in_an_array_claim : Bool
matches_a_role_held_in_an_array_claim =
    is_granted
      (ask array_roles_state (codes "myorg/alfa") (
        some (
          array_roles_token (
            element_of (codes "roles") (codes "some-other-role")
            ∷ element_of (codes "roles") (codes "alfa-readers")
            ∷ []))))
      only_requested ((codes "contents", codes "read") ∷ [])

abbrev rejects_an_array_claim_without_the_role : Bool
rejects_an_array_claim_without_the_role = is_err (
    ask array_roles_state (codes "myorg/alfa")
      (some (array_roles_token (element_of (codes "roles") (codes "alfa-readers-pending") ∷ []))))

abbrev rejects_a_string_claim_spelling_the_role : Bool
rejects_a_string_claim_spelling_the_role = is_err (
    ask array_roles_state (codes "myorg/alfa")
      (some (array_roles_token (line_of (codes "roles") (codes "alfa-readers") ∷ []))))

abbrev does_not_extend_an_array_role_match_to_another_repository : Bool
does_not_extend_an_array_role_match_to_another_repository = is_err (
    ask array_roles_state (codes "myorg/beta")
      (some (array_roles_token (element_of (codes "roles") (codes "alfa-readers") ∷ []))))

abbrev rejects_installation_policy_when_required_claims_do_not_match : Bool
rejects_installation_policy_when_required_claims_do_not_match = is_refused (
    ask (state_with_installation_policy gamma_policy) (codes "myorg/alfa")
      (some (github_workflow_token (codes "myorg/epsilon"))))

abbrev returns_broad_when_matched_via_allowed_roles : Bool
returns_broad_when_matched_via_allowed_roles =
    is_granted
      (ask
        (test_state (app_with (codes "github-workflow" ∷ []) ∷ []) [] []
          (some (github_workflow_role ∷ [])))
        (codes "myorg/alfa") (some (github_workflow_token (codes "myorg/anything"))))
      all []

abbrev returns_narrow_when_matched_via_installation_policy : Bool
returns_narrow_when_matched_via_installation_policy =
    is_granted
      (ask (state_with_installation_policy workflow_self_scoping_policy) (codes "myorg/alfa")
        (some (github_workflow_token (codes "myorg/alfa"))))
      only_requested []

abbrev matches_any_repository_in_installation_policy : Bool
matches_any_repository_in_installation_policy =
    is_granted
      (ask
        (state_with_installation_policy (record workflow_self_scoping_policy {
          repositories = codes "myorg/bravo" ∷ codes "myorg/alfa" ∷ [];
        }))
        (codes "myorg/alfa") (some (github_workflow_token (codes "myorg/alfa"))))
      only_requested []

abbrev threads_permissions_from_installation_policy : Bool
threads_permissions_from_installation_policy =
    is_granted
      (ask
        (state_with_installation_policy (record workflow_self_scoping_policy {
          permissions = (codes "contents", codes "read") ∷ [];
        }))
        (codes "myorg/alfa") (some (github_workflow_token (codes "myorg/alfa"))))
      only_requested ((codes "contents", codes "read") ∷ [])

abbrev authorize_owner_returns_all_repos_with_the_policy_permissions : Bool
authorize_owner_returns_all_repos_with_the_policy_permissions =
    is_granted
      (ask_owner (state_with_owner_policy packages_owner_policy) (codes "myorg")
        (some (github_workflow_token (codes "myorg/alfa"))))
      all ((codes "packages", codes "read") ∷ [])

abbrev authorize_owner_rejects_a_workflow_from_another_owner : Bool
authorize_owner_rejects_a_workflow_from_another_owner = is_refused (
    ask_owner (state_with_owner_policy (record packages_owner_policy { owners = codes "*" ∷ [] }))
      (codes "myorg") (some (github_workflow_token (codes "otherorg/alfa"))))

abbrev authorize_owner_rejects_an_owner_outside_the_policy : Bool
authorize_owner_rejects_an_owner_outside_the_policy = is_refused (
    ask_owner (state_with_owner_policy packages_owner_policy) (codes "otherorg")
      (some (github_workflow_token (codes "otherorg/alfa"))))

abbrev authorize_owner_ignores_installation_policies : Bool
authorize_owner_ignores_installation_policies = is_refused (
    ask_owner (state_with_installation_policy workflow_self_scoping_policy) (codes "myorg")
      (some (github_workflow_token (codes "myorg/alfa"))))

abbrev authorize_owner_requires_bearer_token_when_auth_enabled : Bool
authorize_owner_requires_bearer_token_when_auth_enabled =
    is_refused (ask_owner (state_with_owner_policy packages_owner_policy) (codes "myorg") none)

abbrev accepts_self_scoping_when_claim_matches_request_repo : Bool
accepts_self_scoping_when_claim_matches_request_repo = is_ok (
    ask (state_with_installation_policy workflow_self_scoping_policy) (codes "myorg/alfa")
      (some (github_workflow_token (codes "myorg/alfa"))))

abbrev rejects_self_scoping_when_claim_disagrees_with_request_repo : Bool
rejects_self_scoping_when_claim_disagrees_with_request_repo = is_refused (
    ask (state_with_installation_policy workflow_self_scoping_policy) (codes "myorg/alfa")
      (some (github_workflow_token (codes "myorg/beta"))))

abbrev rejects_self_scoping_when_request_repo_does_not_match_pattern : Bool
rejects_self_scoping_when_request_repo_does_not_match_pattern = is_refused (
    ask (state_with_installation_policy workflow_self_scoping_policy) (codes "evilorg/alfa")
      (some (github_workflow_token (codes "evilorg/alfa"))))

tests_pass :
    pass (
      github_app_returns_matching_config ∷ authorize_github_app_passes_when_auth_disabled
      ∷ authorize_github_app_requires_bearer_token_when_auth_enabled
      ∷ accepts_installation_policy_with_required_claims ∷ matches_a_role_held_in_an_array_claim
      ∷ rejects_an_array_claim_without_the_role ∷ rejects_a_string_claim_spelling_the_role
      ∷ does_not_extend_an_array_role_match_to_another_repository
      ∷ rejects_installation_policy_when_required_claims_do_not_match
      ∷ returns_broad_when_matched_via_allowed_roles
      ∷ returns_narrow_when_matched_via_installation_policy
      ∷ matches_any_repository_in_installation_policy ∷ threads_permissions_from_installation_policy
      ∷ authorize_owner_returns_all_repos_with_the_policy_permissions
      ∷ authorize_owner_rejects_a_workflow_from_another_owner
      ∷ authorize_owner_rejects_an_owner_outside_the_policy
      ∷ authorize_owner_ignores_installation_policies
      ∷ authorize_owner_requires_bearer_token_when_auth_enabled
      ∷ accepts_self_scoping_when_claim_matches_request_repo
      ∷ rejects_self_scoping_when_claim_disagrees_with_request_repo
      ∷ rejects_self_scoping_when_request_repo_does_not_match_pattern ∷ [])
    ≡ true
unfolding pass names_dec ask ask_owner scope_dec is_unauthorized is_granted is_refused is_ok is_err
    line_of element_of has_line meets meets_all has_role role_names by_name from_here wild_match
    owner_part github_workflow_token array_roles_token unwrapped unwrapped_err authorize_github_app
    authorize_owner allowed_role_match installation_policy_admits owner_policy_admits
    authorize_repo_token authorize_owner_token no_match_message github_app auth_enabled validate
    validate_role_with_claims claims_for_request claims_for_owner_request codes text_dec ℕ_discrete
    dec_le lookup insert extend any find? split join split_once
tests_pass = refl
