-- ===== src/Handlers/Issue.antt =====
-- src/main.rs: the steps that a successful `create_installation_token` went through.
use idcat.Common.{
  ℕ, ◌≡◌, refl, if◌then◌else◌, ap, sym, subst, Option, none, List, Text, text_eq, Result, ok, err,
  map_err_ok,
}
use idcat.Common.Exec.{Exec, continue-eq-ok}
use idcat.Config.{GithubAppConfig}
use idcat.AppError.{AppError}
use idcat.Service.{TokenScope, AppState, auth_enabled, github_app}
use idcat.Signer.{Signer}
use idcat.Github.{InstallationTarget, InstallationTokenResponse}
use idcat.Github.Shared.{Shared}
use idcat.Github.Client.{github_api_url, create_installation_token as client_token}
use idcat.Platform.{Platform}
use idcat.Handlers.Bearer.{extract_bearer_token, bearer_token}
use idcat.Handlers.Configured.{is_configured, found-is_configured}
use idcat.Handlers.Tokens.{converted, signer_of, create_installation_token}

module _ (W : Platform) (state : AppState W.authzoo) where
  abbrev pub or_mute : Result Text Signer → Text → Option (List ℕ)
  or_mute (ok sign) message = sign message
  or_mute (err e) message = none

  -- The signer of each app that the service is configured with. Nothing is signed for any other app: for
  -- one that differs from the configured one of its name, in its id or its key, or where there is no
  -- signer.
  unfoldable pub sign_of : GithubAppConfig → Text → Option (List ℕ)
  sign_of app =
      if is_configured W state app then or_mute (signer_of W state app) else (λ message. none)

  pub sign_of_signer :
      (name : Text) (app : GithubAppConfig) (sign : Signer)
      → github_app W.authzoo state name ≡ ok app
      → signer_of W state app ≡ ok sign
      → sign_of app ≡ sign
  unfolding sign_of
  sign_of_signer name app sign found e = rw (found-is_configured W state name app found, e) refl

  pub converted_ok :
      {A : Type 0} (m : Exec Shared Text A) (s t : Shared) (a : A)
      → converted W m s ≡ (ok a, t)
      → ((m s).0 ≡ ok a) × ((m s).1 ≡ t)
  unfolding converted
  converted_ok m s t a e = (
    map_err_ok (m s).0 _ a (ap (λ (p : Result AppError _ × Shared). p.0) e),
    ap (λ (p : Result AppError _ × Shared). p.1) e,
  )

  -- What a successful run of `create_installation_token` went through.
  pub record Passed (name : Text) (target : InstallationTarget) (headers : W.http.HeaderMap)
      (authorize : GithubAppConfig → Option Text → Result AppError TokenScope) (s t : Shared)
      (token : InstallationTokenResponse) : Type 0 where
    pub bearer : Option Text
    pub carried :
        bearer_token W.http
          (auth_enabled W.authzoo state.token_validator)
          (extract_bearer_token W.http headers)
        ≡ ok bearer
    pub app : GithubAppConfig
    pub found : github_app W.authzoo state name ≡ ok app
    pub scope : TokenScope
    pub authorized : authorize app bearer ≡ ok scope
    pub minted : (client_token W.env github_api_url (sign_of app) app target scope s).0 ≡ ok token
    pub after : (client_token W.env github_api_url (sign_of app) app target scope s).1 ≡ t

  pub create_installation_token-Passed :
      (name : Text) (target : InstallationTarget) (headers : W.http.HeaderMap)
      (authorize : GithubAppConfig → Option Text → Result AppError TokenScope) (s t : Shared)
      (token : InstallationTokenResponse)
      → create_installation_token W name target state headers authorize s ≡ (ok token, t)
      → Passed name target headers authorize s t token
  unfolding create_installation_token
  create_installation_token-Passed name target headers authorize s t token e =
      let (bearer, carried, e1) = continue-eq-ok _ _ s t token e in
      let (app, found, e2) = continue-eq-ok _ _ s t token e1 in
      let (scope, authorized, e3) = continue-eq-ok _ _ s t token e2 in
      let (sign, signs, e4) = continue-eq-ok _ _ s t token e3 in
      let same =
        sign_of_signer name app sign found (map_err_ok (signer_of W state app) _ sign signs) in
      let (minted, after) =
        converted_ok (client_token W.env github_api_url (sign_of app) app target scope) s t token (
          subst
            (λ f.
              converted W (client_token W.env github_api_url f app target scope) s ≡ (ok token, t))
            (sym same) e4) in
      record {
        bearer = bearer;
        carried = carried;
        app = app;
        found = found;
        scope = scope;
        authorized = authorized;
        minted = minted;
        after = after;
      }
