-- ===== src/Tests/ServiceCases.antt =====
-- The theorems on decisions, at the small world.
use idcat.Common.{
  ◌≡◌, ◌↔◌, refl, true, false, Option, some, none, Text, codes, text_eq, ◌==◌, ok, err, Bool, All,
  IsMap,
}
use idcat.AppError.{unauthorized}
use idcat.Service.{AppState, TokenScope, auth_enabled}
use idcat.Service.Authorize.{authorize_github_app, authorize_owner, missing_authorization}
use idcat.Service.Grants.{GrantsRepo, GrantsOwner}
use idcat.Service.Decisions.{
  authorize_github_app_iff, authorize_owner_iff, authorize_github_app_refused,
  authorize_owner_refused,
}
use idcat.Tests.Zoo.{zoo}
use idcat.Tests.World.{a_config, an_app}
use idcat.Tests.Accepted.{a_state, repo_scope, owner_scope}

abbrev same : Text → Text → Bool
same pattern text = pattern == text

abbrev open_state : AppState zoo
open_state = record a_state { token_validator = record { inner = none } }

policy_maps : All (λ p. IsMap p.required_claims) a_config.installation_policies
policy_maps = ((tt, tt), tt)

owner_policy_maps : All (λ p. IsMap p.required_claims) a_config.owner_policies
owner_policy_maps = ((tt, tt), tt)

enabled : auth_enabled zoo a_state.token_validator ≡ true
unfolding auth_enabled
enabled = refl

disabled : auth_enabled zoo open_state.token_validator ≡ false
unfolding auth_enabled
disabled = refl

authorize_github_app_iff_example :
    (authorize_github_app zoo same a_state an_app (codes "o/r") (some (codes "o/r"))
      ≡ ok repo_scope)
    ↔ ((token : Text) × (some (codes "o/r") ≡ some token)
        × GrantsRepo zoo same a_state an_app (codes "o/r") token repo_scope)
authorize_github_app_iff_example =
    authorize_github_app_iff zoo same a_state an_app (codes "o/r") (some (codes "o/r")) repo_scope
      enabled

authorize_owner_iff_example :
    (authorize_owner zoo same a_state an_app (codes "o") (some (codes "o/r")) ≡ ok owner_scope) ↔ (
      (token : Text) × (some (codes "o/r") ≡ some token)
      × GrantsOwner zoo same a_state an_app (codes "o") token owner_scope)
authorize_owner_iff_example =
    authorize_owner_iff zoo same a_state an_app (codes "o") (some (codes "o/r")) owner_scope enabled

authorize_github_app_refused_example :
    authorize_github_app zoo same a_state an_app (codes "o/r") none
    ≡ err (unauthorized missing_authorization)
authorize_github_app_refused_example =
    authorize_github_app_refused zoo same a_state an_app (codes "o/r") none enabled no_token
  where
    no_token :
        (scope : TokenScope) (token : Text)
        → ◌≡◌ {A = Option Text} none (some token)
        → ¬ GrantsRepo zoo same a_state an_app (codes "o/r") token scope
    no_token scope token e = absurd (cc)

authorize_owner_refused_example :
    authorize_owner zoo same a_state an_app (codes "o") none
    ≡ err (unauthorized missing_authorization)
authorize_owner_refused_example =
    authorize_owner_refused zoo same a_state an_app (codes "o") none enabled no_token
  where
    no_token :
        (scope : TokenScope) (token : Text)
        → ◌≡◌ {A = Option Text} none (some token)
        → ¬ GrantsOwner zoo same a_state an_app (codes "o") token scope
    no_token scope token e = absurd (cc)
