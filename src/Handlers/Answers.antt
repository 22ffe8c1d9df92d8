-- ===== src/Handlers/Answers.antt =====
-- src/main.rs: the answers of the two token handlers.
use idcat.Service.Safety.{
  IsGrantForOwner, authorize_owner_safe, IsGrantForRepo, authorize_github_app_safe,
}
use idcat.Github.{owner, repository}
use idcat.Handlers.Tokens.{
  create_installation_token_for_owner, owner_installation_token, create_installation_token_for_repo,
  installation_token,
}
use idcat.Common.{◌≡◌, ap, subst, Bool, false, ◌++◌, Text, codes, text_eq, All, IsMap, Result, ok}
use idcat.Common.Exec.{run-eq-ok}
use idcat.Authzoo.{IsLawful}
use idcat.Config.{Config}
use idcat.Config.Validate.{validate}
use idcat.AppError.{AppError}
use idcat.Service.{AppState, build_app_state}
use idcat.Nats.{connect}
use idcat.Github.Shared.{Shared}
use idcat.Github.Client.{github_api_url}
use idcat.Github.Sound.{IsSound}
use idcat.Github.Rules.{IsRely}
use idcat.Platform.{Platform}
use idcat.Handlers.Issue.{sign_of, create_installation_token-Passed}
use idcat.Handlers.Safety.{IsAnswered, answered}

module _ (W : Platform) (L : IsLawful W.authzoo) (client : Result Text (Unit {0}))
    (c : Config W.authzoo) (kms_built : Bool) (valid : validate W.authzoo kms_built false c ≡ ok tt)
    (state : AppState W.authzoo)
    (made : build_app_state W.authzoo (connect W.broker) client c false ≡ ok state)
    (rely : IsRely W.env github_api_url (sign_of W state)) (s : Shared)
    (sound : IsSound W.env github_api_url (sign_of W state) s) where
  relabel :
      (P : Shared → Text → Type 0) (u t : Shared) (a b : Text)
      → ◌≡◌ {A = Result AppError Text × Shared} (ok a, u) (ok b, t)
      → P u a
      → P t b
  relabel P u t a b e h =
      subst (λ x. P x b) (ap (λ (p : Result AppError Text × Shared). p.1) e)
        (subst (λ x. P u x) (ok_inj (ap (λ (p : Result AppError Text × Shared). p.0) e)) h)
    where
      ok_inj : ◌≡◌ {A = Result AppError Text} (ok a) (ok b) → a ≡ b
      ok_inj e = cc

  -- With authorization on and a configuration that was accepted, and whose maps have no key twice, the
  -- handler answers with a token only to a request that carried a bearer token in its header for
  -- authorization. That token is granted a scope for the app of the given name and for the repository
  -- in the path, by a role that the app allows or by a policy of the configuration. GitHub made the
  -- answered token for exactly that app, repository and scope, and it is not out of date. The further
  -- conditions: the caches were sound before, and the other requests keep them sound.
  pub installation_token_safe :
      (maps : All (λ p. IsMap p.required_claims) c.installation_policies)
      (name owner_name repo_name : Text) (headers : W.http.HeaderMap) (t : Shared) (token : Text)
      → installation_token W name owner_name repo_name state headers s ≡ (ok token, t)
      → IsAnswered W c state name
          (repository (owner_name ++ (codes "/" ++ repo_name)))
          headers
          (λ app bearer scope.
            IsGrantForRepo W.authzoo L W.matches
              (connect W.broker)
              client
              c
              kms_built
              app
              (owner_name ++ (codes "/" ++ repo_name))
              bearer
              scope)
          s
          t
          token
  unfolding installation_token create_installation_token_for_repo
  installation_token_safe maps name owner_name repo_name headers t token e =
      let (response, u, run, same) =
        run-eq-ok
          (create_installation_token_for_repo W name (owner_name ++ (codes "/" ++ repo_name)) state
            headers)
          _ s t token e in
      let passed =
        create_installation_token-Passed W state name
          (repository (owner_name ++ (codes "/" ++ repo_name))) headers _ s u response run in
      let answer =
        answered W client c kms_built valid state made rely s sound name
          (repository (owner_name ++ (codes "/" ++ repo_name))) headers _
          (λ app bearer scope.
            IsGrantForRepo W.authzoo L W.matches (connect W.broker) client c kms_built app
              (owner_name ++ (codes "/" ++ repo_name)) bearer scope)
          (λ app bearer scope authorized.
            let granted =
              authorize_github_app_safe W.authzoo L W.matches (connect W.broker) client c kms_built
                state app (owner_name ++ (codes "/" ++ repo_name)) bearer scope valid made maps
                authorized in
            ((granted.2, granted.3), granted))
          u response passed in
      relabel
        (λ v text.
          IsAnswered W c state name (repository (owner_name ++ (codes "/" ++ repo_name))) headers
            (λ app bearer scope.
              IsGrantForRepo W.authzoo L W.matches (connect W.broker) client c kms_built app
                (owner_name ++ (codes "/" ++ repo_name)) bearer scope)
            s v text)
        u t response.token token same answer

  -- With authorization on and a configuration that was accepted, and whose maps have no key twice, the
  -- handler answers with a token only to a request that carried a bearer token in its header for
  -- authorization. That token is granted a scope for the app of the given name and for the owner
  -- in the path, by a role that the app allows or by a policy of the configuration. GitHub made the
  -- answered token for exactly that app, owner and scope, and it is not out of date. The further
  -- conditions: the caches were sound before, and the other requests keep them sound.
  pub owner_installation_token_safe :
      (maps : All (λ p. IsMap p.required_claims) c.owner_policies) (name owner_name : Text)
      (headers : W.http.HeaderMap) (t : Shared) (token : Text)
      → owner_installation_token W name owner_name state headers s ≡ (ok token, t)
      → IsAnswered W c state name
          (owner owner_name)
          headers
          (λ app bearer scope.
            IsGrantForOwner W.authzoo L W.matches
              (connect W.broker)
              client
              c
              kms_built
              app
              owner_name
              bearer
              scope)
          s
          t
          token
  unfolding owner_installation_token create_installation_token_for_owner
  owner_installation_token_safe maps name owner_name headers t token e =
      let (response, u, run, same) =
        run-eq-ok (create_installation_token_for_owner W name owner_name state headers) _ s t token
          e in
      let passed =
        create_installation_token-Passed W state name (owner owner_name) headers _ s u response
          run in
      let answer =
        answered W client c kms_built valid state made rely s sound name (owner owner_name) headers
          _
          (λ app bearer scope.
            IsGrantForOwner W.authzoo L W.matches (connect W.broker) client c kms_built app
              owner_name bearer scope)
          (λ app bearer scope authorized.
            let granted =
              authorize_owner_safe W.authzoo L W.matches (connect W.broker) client c kms_built state
                app owner_name bearer scope valid made maps authorized in
            ((granted.2, granted.3), granted))
          u response passed in
      relabel
        (λ v text.
          IsAnswered W c state name (owner owner_name) headers
            (λ app bearer scope.
              IsGrantForOwner W.authzoo L W.matches (connect W.broker) client c kms_built app
                owner_name bearer scope)
            s v text)
        u t response.token token same answer
