-- ===== src/Handlers/Safety.antt =====
-- src/main.rs with the layers below: what a caller has shown, and what GitHub has done, when a handler
-- answers with an installation token.
use mathlib.Core.List.{Memᴰ}
use idcat.Common.{
  ◌≡◌, refl, sym, subst, Bool, true, false, Option, some, ◌++◌, Text, codes, text_eq, All_member,
  Result, ok, err, arith,
}
use idcat.Http.{header_text}
use idcat.Config.{GithubAppConfig, Config}
use idcat.Config.Validate.{validate, validate_iff}
use idcat.AppError.{AppError}
use idcat.Service.{TokenScope, AppState, build_app_state, github_app}
use idcat.Service.Built.{build_app_state-IsBuilt, enabled}
use idcat.Nats.{connect}
use idcat.Github.{InstallationTarget, InstallationTokenResponse}
use idcat.Github.Shared.{Shared}
use idcat.Github.Client.{github_api_url}
use idcat.Github.Sound.{IsSound, Speaks}
use idcat.Github.Rules.{IsRely}
use idcat.Github.Tokens.{Issued}
use idcat.Github.Issue.{create_installation_token_issued}
use idcat.Github.Proxy.{authorization}
use idcat.Platform.{Platform}
use idcat.Handlers.Bearer.{extract_bearer_token, extract_bearer_token_iff, bearer_token}
use idcat.Handlers.Configured.{github_app_member}
use idcat.Handlers.Issue.{sign_of, Passed}
use idcat.Handlers.Speaking.{IsJwtOf, Speaks-IsJwtOf}

module _ (W : Platform) where
  -- With authorization on, a token that is passed on was carried by the request.
  pub carried_of :
      (headers : W.http.HeaderMap) (bearer : Option Text) (token : Text)
      → bearer_token W.http true (extract_bearer_token W.http headers) ≡ ok bearer
      → bearer ≡ some token
      → header_text W.http headers authorization ≡ some (codes "Bearer " ++ token)
  unfolding bearer_token
  carried_of headers bearer token e same =
      ((extract_bearer_token_iff W.http headers token).0
        (of_result (extract_bearer_token W.http headers) e)).0
    where
      of_result : (r : Result AppError Text) → bearer_token W.http true r ≡ ok bearer → r ≡ ok token
      of_result (ok t) h =
          let both : ◌≡◌ {A = Option Text} (some t) (some token) = ground arith in ground arith
      of_result (err x) h = absurd (ground arith)

  -- What stands behind a token that a handler answers with: the request carried a bearer token; the
  -- app is configured under the name in the request's path, and GitHub was spoken to in its name only
  -- with JWTs of its id, signed with its key; `Granted` holds of the app, the token
  -- and a scope; and the client issued a token for the app, the target and that scope.
  pub record IsAnswered (c : Config W.authzoo) (state : AppState W.authzoo) (name : Text)
      (target : InstallationTarget) (headers : W.http.HeaderMap)
      (Granted : GithubAppConfig → Option Text → TokenScope → Type 0) (s t : Shared) (token : Text)
      : Type 0 where
    pub bearer : Text
    pub carried : header_text W.http headers authorization ≡ some (codes "Bearer " ++ bearer)
    pub app : GithubAppConfig
    pub configured : Memᴰ app c.github_apps
    pub named : app.name ≡ name
    -- whoever speaks to GitHub in the app's name has a JWT with its id, signed with its key
    pub own_jwt :
        (jwt : Text)
        → Speaks W.env github_api_url (sign_of W state) app.name jwt
        → IsJwtOf W state app jwt
    pub scope : TokenScope
    pub granted : Granted app (some bearer) scope
    pub response : InstallationTokenResponse
    pub issued :
        Issued W.env github_api_url
          (sign_of W state)
          s.readings
          t
          (record { github_app = app.name; target = target; scope = scope })
          response
    pub answer : response.token ≡ token

  module _ (client : Result Text (Unit {0})) (c : Config W.authzoo) (kms_built : Bool)
      (valid : validate W.authzoo kms_built false c ≡ ok tt) (state : AppState W.authzoo)
      (made : build_app_state W.authzoo (connect W.broker) client c false ≡ ok state)
      (rely : IsRely W.env github_api_url (sign_of W state)) (s : Shared)
      (sound : IsSound W.env github_api_url (sign_of W state) s) where
    pub answered :
        (name : Text) (target : InstallationTarget) (headers : W.http.HeaderMap)
        (authorize : GithubAppConfig → Option Text → Result AppError TokenScope)
        (Granted : GithubAppConfig → Option Text → TokenScope → Type 0)
        → ((app : GithubAppConfig) (bearer : Option Text) (scope : TokenScope)
            → authorize app bearer ≡ ok scope
            → ((token : Text) × (bearer ≡ some token)) × Granted app bearer scope)
        → (t : Shared) (token : InstallationTokenResponse)
        → Passed W state name target headers authorize s t token
        → IsAnswered c state name target headers Granted s t token.token
    answered name target headers authorize Granted grants t token p =
        let built = build_app_state-IsBuilt W.authzoo (connect W.broker) client c state made in
        let on = enabled W.authzoo state.token_validator built.validator built.inner in
        let ((bearer, same), granted) = grants p.app p.bearer p.scope p.authorized in
        let (member, named) = github_app_member W state name p.app p.found in
        let configured = subst (λ apps. Memᴰ p.app apps) built.github_apps member in
        let accepted = (validate_iff W.authzoo kms_built false c).0 valid in
        let well_formed = All_member _ accepted.apps configured in
        record {
          bearer = bearer;
          carried =
              carried_of headers p.bearer bearer
                (subst
                  (λ b. bearer_token W.http b (extract_bearer_token W.http headers) ≡ ok p.bearer)
                  on p.carried)
                same;
          app = p.app;
          configured = configured;
          named = named;
          own_jwt = λ jwt speaks.
              Speaks-IsJwtOf W state p.app jwt
                (subst (λ n. github_app W.authzoo state n ≡ ok p.app) (sym named) p.found) speaks;
          scope = p.scope;
          granted = subst (λ b. Granted p.app b p.scope) same granted;
          response = token;
          issued =
              subst
                (λ u.
                  Issued W.env github_api_url (sign_of W state) s.readings u
                    (record { github_app = p.app.name; target = target; scope = p.scope }) token)
                p.after
                (create_installation_token_issued W.env github_api_url (sign_of W state) rely p.app
                  well_formed.no_slash target p.scope s sound token p.minted);
          answer = refl;
        }
