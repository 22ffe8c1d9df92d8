-- ===== src/Service/Authorize.antt =====
-- src/service.rs, `authorize_github_app` and `authorize_owner`: who gets a token, and of what scope.
-- Patterns are matched by the crate `wildmatch`, the parameter `matches` (a pattern, a text).
use idcat.Common.{
  Bool, not, ◌&&◌, if◌then◌else◌, Option, none, some, List, ◌++◌, Text, codes, text_eq, ◌==◌,
  Result, ok, err, ◌>>=◌, any, find?, ok_or,
}
use idcat.Authzoo.{Authzoo}
use idcat.Config.{GithubAppConfig, InstallationPolicyConfig, OwnerPolicyConfig}
use idcat.AppError.{AppError, unauthorized}
use idcat.Service.{
  only_requested, all, TokenScope, broad, AppState, TokenValidator, auth_enabled, validate,
  validate_role_with_claims, claims_for_request, claims_for_owner_request,
}

abbrev pub missing_authorization : Text
missing_authorization = codes "missing Authorization header"

-- `format!("source token did not match any allowed role for github-app '{}' and repository '{}'")`,
-- or the same of an owner
unfoldable pub no_match_message : Text → Text → Text → Text
no_match_message app kind target =
    codes "source token did not match any allowed role for github-app '"
    ++ (app ++ (codes "' and " ++ (kind ++ (codes " '" ++ (target ++ codes "'")))))

module _ (Z : Authzoo) (matches : Text → Text → Bool) where
  -- some role of the token is among the allowed ones
  unfoldable pub allowed_role_match : List Text → List Text → Bool
  unfolding any
  allowed_role_match matching_roles allowed_roles =
      any (λ role. any (λ allowed. allowed == role) allowed_roles) matching_roles

  unfoldable pub installation_policy_admits :
      TokenValidator Z → Text → Text → Text → InstallationPolicyConfig Z → Bool
  unfolding any
  installation_policy_admits v app repo bearer_token p =
      p.github_app == app
      && any (λ repository. matches repository repo) p.repositories
      && validate_role_with_claims Z v p.role (claims_for_request Z p repo) bearer_token

  unfoldable pub owner_policy_admits :
      TokenValidator Z → Text → Text → Text → OwnerPolicyConfig Z → Bool
  unfolding any
  owner_policy_admits v app owner bearer_token p =
      p.github_app == app
      && any (λ pattern. matches pattern owner) p.owners
      && validate_role_with_claims Z v p.role (claims_for_owner_request Z p owner) bearer_token

  -- `authorize_github_app` once the token is at hand
  unfoldable pub authorize_repo_token :
      AppState Z → GithubAppConfig → Text → Text → Result AppError TokenScope
  authorize_repo_token state app repo bearer_token =
      if allowed_role_match (validate Z state.token_validator bearer_token) app.allowed_roles
      then ok broad
      else elim (find? (installation_policy_admits state.token_validator app.name repo bearer_token)
          state.installation_policies) [
            | none ↦ err (unauthorized (no_match_message app.name (codes "repository") repo))
            | some p ↦ ok (record { repositories = only_requested; permissions = p.permissions })
          ]

  unfoldable pub authorize_github_app :
      AppState Z → GithubAppConfig → Text → Option Text → Result AppError TokenScope
  authorize_github_app state app repo bearer_token =
      if not (auth_enabled Z state.token_validator)
      then ok broad
      else (ok_or bearer_token (unauthorized missing_authorization)
          >>= authorize_repo_token state app repo)

  -- `authorize_owner` once the token is at hand
  unfoldable pub authorize_owner_token :
      AppState Z → GithubAppConfig → Text → Text → Result AppError TokenScope
  authorize_owner_token state app owner bearer_token =
      if allowed_role_match (validate Z state.token_validator bearer_token) app.allowed_roles
      then ok broad
      else elim (find? (owner_policy_admits state.token_validator app.name owner bearer_token)
          state.owner_policies) [
            | none ↦ err (unauthorized (no_match_message app.name (codes "owner") owner))
            | some p ↦ ok (record { repositories = all; permissions = p.permissions })
          ]

  unfoldable pub authorize_owner :
      AppState Z → GithubAppConfig → Text → Option Text → Result AppError TokenScope
  authorize_owner state app owner bearer_token =
      if not (auth_enabled Z state.token_validator)
      then ok broad
      else (ok_or bearer_token (unauthorized missing_authorization)
          >>= authorize_owner_token state app owner)
