-- ===== src/Handlers/Kept.antt =====
-- src/main.rs: whatever a handler answers, the state that all requests share is sound afterwards.
use mathlib.Core.List.{Memᴰ}
use idcat.Signer.{Signer}
use idcat.Common.{
  refl, inl, inr, Option-cases, arith, [], ◌∷◌, Free, ◌≡◌, subst, ◌++◌, Option, Text, codes,
  text_eq, Result, ok, map_err, map_err_ok,
}
use idcat.Common.Exec.{continue_kept}
use idcat.Config.{GithubAppConfig}
use idcat.AppError.{AppError, from_anyhow}
use idcat.Service.{TokenScope, AppState, github_app, auth_enabled}
use idcat.Github.{InstallationTarget, InstallationTokenResponse, repository, owner}
use idcat.Github.Shared.{Shared, Exchange}
use idcat.Github.Client.{github_api_url, create_installation_token as client_token}
use idcat.Github.Sound.{IsSound, IsSound-Grows, Grows, Grows-refl, Grows-trans}
use idcat.Github.Rules.{IsRely}
use idcat.Github.Issue.{create_installation_token_kept}
use idcat.Platform.{Platform, UpstreamRequest}
use idcat.Handlers.Tokens.{
  converted, signer_of, create_installation_token, create_installation_token_for_repo,
  create_installation_token_for_owner, installation_token, owner_installation_token,
}
use idcat.Handlers.Issue.{sign_of, sign_of_signer}
use idcat.Handlers.Configured.{github_app_member}
use idcat.Handlers.Proxy.{
  ProxyRepoRequest, proxy_request, send_on, forward, upstream_request, method_error,
  proxy_repo_request,
}
use idcat.Service.Authorize.{authorize_github_app, authorize_owner}
use idcat.Handlers.Bearer.{extract_bearer_token, bearer_token}

module _ (W : Platform) (state : AppState W.authzoo)
    (plain : (app : GithubAppConfig) → Memᴰ app state.github_apps → Free b'/' app.name)
    (rely : IsRely W.env github_api_url (sign_of W state)) where
  -- The state is sound, and nothing was forgotten since `s`.
  pub record Kept (s t : Shared) : Type 0 where
    pub sound : IsSound W.env github_api_url (sign_of W state) t
    pub grows : Grows s t

  client-Kept :
      (name : Text) (app : GithubAppConfig) (sign : Signer) (target : InstallationTarget)
      (scope : TokenScope) (s : Shared)
      → github_app W.authzoo state name ≡ ok app
      → signer_of W state app ≡ ok sign
      → IsSound W.env github_api_url (sign_of W state) s
      → Kept s (client_token W.env github_api_url sign app target scope s).1
  client-Kept name app sign target scope s found signs sound =
      let (member, _) = github_app_member W state name app found in
      subst (λ f. Kept s (client_token W.env github_api_url f app target scope s).1)
        (sign_of_signer W state name app sign found signs)
        (let (sound', grows) =
            create_installation_token_kept W.env github_api_url (sign_of W state) rely app
              (plain app member) target scope s sound in
          record { sound = sound'; grows = grows })

  module _ (s : Shared) (sound : IsSound W.env github_api_url (sign_of W state) s) where
    unchanged : Kept s s
    unchanged = record { sound = sound; grows = Grows-refl s }

    create_installation_token-Kept :
        (name : Text) (target : InstallationTarget) (headers : W.http.HeaderMap)
        (authorize : GithubAppConfig → Option Text → Result AppError TokenScope)
        → Kept s (create_installation_token W name target state headers authorize s).1
    unfolding create_installation_token converted
    create_installation_token-Kept name target headers authorize =
        continue_kept (Kept s)
          (bearer_token W.http (auth_enabled W.authzoo state.token_validator)
            (extract_bearer_token W.http headers))
          _ s unchanged
          λ bearer carried.
            continue_kept (Kept s) (github_app W.authzoo state name) _ s unchanged λ app found.
              continue_kept (Kept s) (authorize app bearer) _ s unchanged λ scope authorized.
                continue_kept (Kept s) (map_err from_anyhow (signer_of W state app)) _ s unchanged
                  λ sign signs.
                    client-Kept name app sign target scope s found
                      (map_err_ok (signer_of W state app) _ sign signs) sound

    Grows-logged : {t : Shared} {e : Exchange} → Grows t (record t { log = e ∷ t.log })
    Grows-logged {t} {e} = record { since = e ∷ []; extends = refl; read = omega arith }

    -- The state after a request was sent on.
    sent_on :
        (request : UpstreamRequest W.http) (t : Shared)
        → Kept s t
        → Kept s (proxy_request W request t).1
    unfolding proxy_request send_on
    sent_on request t h = elim (Option-cases (W.parse_url request.url)) [
      | inl unparsed ↦ rw (unparsed, proxy_request) h
      | inr (address, parsed) ↦
          rw (parsed, proxy_request)
            (record {
              sound =
                  IsSound-Grows W.env github_api_url (sign_of W state) Grows-logged refl
                    (rely.sound t h.sound);
              grows = Grows-trans h.grows (Grows-trans (rely.grows t h.sound) Grows-logged);
            })
    ]

    forward-Kept :
        (request : ProxyRepoRequest W) (repo : Text) (token : InstallationTokenResponse)
        (t : Shared)
        → Kept s t
        → Kept s (forward W request repo token t).1
    unfolding forward converted
    forward-Kept request repo token t h =
        continue_kept (Kept s) (map_err (method_error W) (W.check_method request.method)) _ t h
          λ _ fine.
            continue_kept (Kept s) (upstream_request W request repo token) _ t h λ upstream made.
              continue_kept (Kept s) (map_err from_anyhow (proxy_request W upstream t).0) _ _
                (sent_on upstream t h) λ response answered. sent_on upstream t h

    for_repo-Kept :
        (name repo : Text) (headers : W.http.HeaderMap)
        → Kept s (create_installation_token_for_repo W name repo state headers s).1
    unfolding create_installation_token_for_repo
    for_repo-Kept name repo headers =
        create_installation_token-Kept name (repository repo) headers
          (λ app bearer. authorize_github_app W.authzoo W.matches state app repo bearer)

    for_owner-Kept :
        (name owner_name : Text) (headers : W.http.HeaderMap)
        → Kept s (create_installation_token_for_owner W name owner_name state headers s).1
    unfolding create_installation_token_for_owner
    for_owner-Kept name owner_name headers =
        create_installation_token-Kept name (owner owner_name) headers
          (λ app bearer. authorize_owner W.authzoo W.matches state app owner_name bearer)

    pub installation_token-Kept :
        (name owner_name repo_name : Text) (headers : W.http.HeaderMap)
        → Kept s (installation_token W name owner_name repo_name state headers s).1
    unfolding installation_token
    installation_token-Kept name owner_name repo_name headers =
        let repo = owner_name ++ (codes "/" ++ repo_name) in
        let kept = for_repo-Kept name repo headers in
        continue_kept (Kept s) (create_installation_token_for_repo W name repo state headers s).0 _
          _ kept λ token e. kept

    pub owner_installation_token-Kept :
        (name owner_name : Text) (headers : W.http.HeaderMap)
        → Kept s (owner_installation_token W name owner_name state headers s).1
    unfolding owner_installation_token
    owner_installation_token-Kept name owner_name headers =
        let kept = for_owner-Kept name owner_name headers in
        continue_kept (Kept s)
          (create_installation_token_for_owner W name owner_name state headers s).0 _ _ kept
          λ token e. kept

    pub proxy_repo_request-Kept :
        (request : ProxyRepoRequest W) → Kept s (proxy_repo_request W state request s).1
    unfolding proxy_repo_request
    proxy_repo_request-Kept request =
        let repo = request.owner ++ (codes "/" ++ request.repo_name) in
        let kept = for_repo-Kept request.github_app repo request.headers in
        continue_kept (Kept s)
          (create_installation_token_for_repo W request.github_app repo state request.headers s).0 _
          _ kept λ token e. forward-Kept request repo token _ kept
