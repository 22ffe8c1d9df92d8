-- ===== src/Handlers/Tokens.antt =====
-- src/main.rs: how a request gets an installation token.
use idcat.Common.{Option, ◌++◌, Text, codes, text_eq, Result, map_err}
use idcat.Common.Exec.{Exec, pure, lift, ◌>>=◌}
use idcat.Config.{GithubAppConfig}
use idcat.AppError.{AppError, from_anyhow}
use idcat.Service.{TokenScope, AppState, auth_enabled, github_app}
use idcat.Service.Authorize.{authorize_github_app, authorize_owner}
use idcat.Signer.{Signer, signer}
use idcat.Github.{InstallationTarget, repository, owner, InstallationTokenResponse}
use idcat.Github.Shared.{Shared}
use idcat.Github.Client.{github_api_url, create_installation_token as client_token}
use idcat.Platform.{Platform}
use idcat.Handlers.Bearer.{extract_bearer_token, bearer_token}

module _ (W : Platform) where
  -- An error of the layers below becomes one of the request.
  unfoldable pub converted : {A : Type 0} → Exec Shared Text A → Exec Shared AppError A
  converted m s = (map_err from_anyhow (m s).0, (m s).1)

  -- `state.signer(&github_app.secret_key)?`
  unfoldable pub signer_of : AppState W.authzoo → GithubAppConfig → Result Text Signer
  signer_of state app =
      signer W.crypto W.kms_built state.kms_signers state.key_source state.private_key_directory
        app.secret_key

  unfoldable pub create_installation_token :
      Text
      → InstallationTarget
      → AppState W.authzoo
      → W.http.HeaderMap
      → (GithubAppConfig → Option Text → Result AppError TokenScope)
      → Exec Shared AppError InstallationTokenResponse
  unfolding converted signer_of
  create_installation_token github_app_name target state headers authorize = do
    bearer ← lift (
        bearer_token W.http (auth_enabled W.authzoo state.token_validator)
          (extract_bearer_token W.http headers))
    app ← lift (github_app W.authzoo state github_app_name)
    scope ← lift (authorize app bearer)
    sign ← lift (map_err from_anyhow (signer_of state app))
    converted (client_token W.env github_api_url sign app target scope)

  unfoldable pub create_installation_token_for_repo :
      Text
      → Text
      → AppState W.authzoo
      → W.http.HeaderMap
      → Exec Shared AppError InstallationTokenResponse
  create_installation_token_for_repo github_app_name repo state headers =
      create_installation_token github_app_name (repository repo) state headers
        (λ app bearer. authorize_github_app W.authzoo W.matches state app repo bearer)

  unfoldable pub create_installation_token_for_owner :
      Text
      → Text
      → AppState W.authzoo
      → W.http.HeaderMap
      → Exec Shared AppError InstallationTokenResponse
  create_installation_token_for_owner github_app_name owner_name state headers =
      create_installation_token github_app_name (owner owner_name) state headers
        (λ app bearer. authorize_owner W.authzoo W.matches state app owner_name bearer)

  unfoldable pub installation_token :
      Text → Text → Text → AppState W.authzoo → W.http.HeaderMap → Exec Shared AppError Text
  unfolding create_installation_token_for_repo
  installation_token github_app_name owner_name repo_name state headers = do
    token ←
        create_installation_token_for_repo github_app_name (owner_name ++ (codes "/" ++ repo_name))
          state headers
    pure token.token

  unfoldable pub owner_installation_token :
      Text → Text → AppState W.authzoo → W.http.HeaderMap → Exec Shared AppError Text
  unfolding create_installation_token_for_owner
  owner_installation_token github_app_name owner_name state headers = do
    token ← create_installation_token_for_owner github_app_name owner_name state headers
    pure token.token
