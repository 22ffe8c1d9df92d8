-- ===== src/Handlers/Refusals.antt =====
-- src/main.rs: the refusals of the two token handlers.
use idcat.Common.{
  arith, Option-cases, none, inl, inr, find?, ◌==◌, ◌++◌, Text, codes, text_eq, ok, err, ◌≡◌, refl,
  true, some,
}
use idcat.Config.{GithubAppConfig}
use idcat.AppError.{AppError, unauthorized, not_found}
use idcat.Service.{TokenScope, AppState, auth_enabled, github_app}
use idcat.Service.Authorize.{no_match_message}
use idcat.Service.Grants.{GrantsRepo, GrantsOwner}
use idcat.Service.Decisions.{authorize_github_app_refused, authorize_owner_refused}
use idcat.Github.Shared.{Shared}
use idcat.Platform.{Platform}
use idcat.Handlers.Bearer.{extract_bearer_token, bearer_token}
use idcat.Handlers.Tokens.{
  create_installation_token, create_installation_token_for_repo,
  create_installation_token_for_owner, installation_token, owner_installation_token,
}

module _ (W : Platform) (state : AppState W.authzoo)
    (on : auth_enabled W.authzoo state.token_validator ≡ true) where
  -- With authorization on, a request without a usable bearer token is refused by both handlers with
  -- the error of its extraction, and the shared state, with the record of what was sent, stays as it was.
  pub tokens_without_bearer :
      (name owner_name repo_name : Text) (headers : W.http.HeaderMap) (s : Shared)
      (error : AppError)
      → extract_bearer_token W.http headers ≡ err error
      → (installation_token W name owner_name repo_name state headers s ≡ (err error, s))
        × (owner_installation_token W name owner_name state headers s ≡ (err error, s))
  unfolding installation_token create_installation_token_for_repo owner_installation_token
      create_installation_token_for_owner create_installation_token bearer_token
  tokens_without_bearer name owner_name repo_name headers s error e =
      (rw (on, e) refl, rw (on, e) refl)

  github_app_unknown :
      (name : Text)
      → find? (λ app. app.name == name) state.github_apps ≡ none
      → github_app W.authzoo state name
        ≡ err (not_found (codes "unknown github_app '" ++ (name ++ codes "'")))
  unfolding github_app
  github_app_unknown name h = ground arith

  github_app_known :
      (name : Text) (app : GithubAppConfig)
      → find? (λ app. app.name == name) state.github_apps ≡ some app
      → github_app W.authzoo state name ≡ ok app
  unfolding github_app
  github_app_known name app h = ground arith

  -- With authorization on, both token handlers refuse a request whose bearer token is granted nothing,
  -- by the app that has the name, for the repository or for the owner: as not found where no app has
  -- the name, and else as unauthorized with the message that nothing matched. The shared state, with the
  -- record of what was sent, stays as it was.
  pub tokens_refused :
      (name owner_name repo_name : Text) (headers : W.http.HeaderMap) (s : Shared) (bearer : Text)
      → extract_bearer_token W.http headers ≡ ok bearer
      → ((app : GithubAppConfig) (scope : TokenScope) (token : Text)
          → find? (λ app. app.name == name) state.github_apps ≡ some app
          → some bearer ≡ some token
          → ¬ GrantsRepo W.authzoo W.matches state app
              (owner_name ++ (codes "/" ++ repo_name))
              token
              scope)
      → ((app : GithubAppConfig) (scope : TokenScope) (token : Text)
          → find? (λ app. app.name == name) state.github_apps ≡ some app
          → some bearer ≡ some token
          → ¬ GrantsOwner W.authzoo W.matches state app owner_name token scope)
      → (installation_token W name owner_name repo_name state headers s ≡ (
        err (elim (find? (λ app. app.name == name) state.github_apps) [
          | none ↦ not_found (codes "unknown github_app '" ++ (name ++ codes "'"))
          | some app ↦ unauthorized (
              no_match_message app.name
                (codes "repository")
                (owner_name ++ (codes "/" ++ repo_name)))
        ]),
        s,
      ))
        × (owner_installation_token W name owner_name state headers s ≡ (
          err (elim (find? (λ app. app.name == name) state.github_apps) [
            | none ↦ not_found (codes "unknown github_app '" ++ (name ++ codes "'"))
            | some app ↦ unauthorized (no_match_message app.name (codes "owner") owner_name)
          ]),
          s,
        ))
  unfolding installation_token create_installation_token_for_repo create_installation_token
      owner_installation_token create_installation_token_for_owner bearer_token
  tokens_refused name owner_name repo_name headers s bearer e no_repo no_owner =
      elim (Option-cases (find? (λ app. app.name == name) state.github_apps)) [
        | inl unknown ↦
            let missing = github_app_unknown name unknown in
            (rw (e, missing, unknown) refl, rw (e, missing, unknown) refl)
        | inr (app, found) ↦
            let repo_refused =
              authorize_github_app_refused W.authzoo W.matches state app
                (owner_name ++ (codes "/" ++ repo_name)) (some bearer) on
                (λ scope token. no_repo app scope token found) in
            let owner_refused =
              authorize_owner_refused W.authzoo W.matches state app owner_name (some bearer) on
                (λ scope token. no_owner app scope token found) in
            let known = github_app_known name app found in
            (rw (e, known, repo_refused, found) refl, rw (e, known, owner_refused, found) refl)
      ]
