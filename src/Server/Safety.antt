-- ===== src/Server/Safety.antt =====
-- src/main.rs with the layers below: what stands behind each reply of the service, whatever it answered
-- before and answers meanwhile.
use idcat.Common.Exec.{pure, continue}
use idcat.Common.{
  ap, Option, ◌≡◌, refl, Bool, false, ◌++◌, Text, codes, text_eq, All, IsMap, Result, ok, err, ℕ,
  none, some,
}
use idcat.Http.{IsHeaderMaps}
use idcat.Authzoo.{IsLawful}
use idcat.AppError.{AppError, ErrorResponse}
use idcat.Config.{Config}
use idcat.Config.Validate.{validate}
use idcat.Service.{AppState, build_app_state}
use idcat.Service.Safety.{IsGrantForOwner, IsGrantForRepo}
use idcat.Nats.{connect}
use idcat.Github.{owner, repository, InstallationTokenResponse}
use idcat.Github.Shared.{Shared}
use idcat.Github.Client.{github_api_url}
use idcat.Github.Sound.{IsSound}
use idcat.Github.Rules.{IsRely}
use idcat.Platform.{Platform}
use idcat.Handlers.Issue.{sign_of}
use idcat.Handlers.Tokens.{
  create_installation_token_for_repo, installation_token, owner_installation_token,
}
use idcat.Handlers.Proxy.{
  ProxyRepoRequest, ProxyResponse, proxy_repo_request, proxy_repo_root, proxy_repo_path,
}
use idcat.Handlers.Proxied.{IsProxied, proxy_repo_request-IsProxied}
use idcat.Handlers.Safety.{IsAnswered}
use idcat.Handlers.Answers.{installation_token_safe, owner_installation_token_safe}
use idcat.Server.{
  Call, ServerRequest, ServerState, Reply, json_status, status, text, proxied, error, reply_of,
  handle,
}

module _ (W : Platform) (L : IsLawful W.authzoo) (client : Result Text (Unit {0}))
    (c : Config W.authzoo) (kms_built : Bool) (state : AppState W.authzoo) where
  -- A token for the repository was answered to, or sent on for, a request with these headers.
  abbrev pub AnsweredRepo :
      W.http.HeaderMap → (name repo : Text) (s t : Shared) (token : Text) → Type 0
  AnsweredRepo headers name repo s t token =
      IsAnswered W c state name (repository repo) headers
        (λ app bearer scope.
          IsGrantForRepo W.authzoo L W.matches (connect W.broker) client c kms_built app repo bearer
            scope)
        s t token

  abbrev pub AnsweredOwner :
      W.http.HeaderMap → (name owner_name : Text) (s t : Shared) (token : Text) → Type 0
  AnsweredOwner headers name owner_name s t token =
      IsAnswered W c state name (owner owner_name) headers
        (λ app bearer scope.
          IsGrantForOwner W.authzoo L W.matches (connect W.broker) client c kms_built app owner_name
            bearer scope)
        s t token

  abbrev pub proxy_call : (name owner_name repo_name : Text) → Option Text → Call
  proxy_call name owner_name repo_name none = Call.proxy_repo_root name owner_name repo_name
  proxy_call name owner_name repo_name (some path) =
      Call.proxy_repo_path name owner_name repo_name path

  abbrev pub proxy_request :
      (name owner_name repo_name : Text) → Option Text → ServerRequest W.http → ProxyRepoRequest W
  proxy_request name owner_name repo_name path request = record {
    github_app = name;
    owner = owner_name;
    repo_name = repo_name;
    repo_path = path;
    query = request.query;
    method = request.method;
    headers = request.headers;
    body = request.body;
  }

  -- What a reply discloses of GitHub was granted to the request: a token as a text, by the call that the
  -- table of routes makes of the request; or an answer of GitHub, to what was sent on with a token.
  pub data IsJustified (call : Call) (request : ServerRequest W.http) (s t : Shared)
      : Reply W → Type 0 where
    repo_token :
        (name owner_name repo_name token : Text)
        → call ≡ Call.installation_token name owner_name repo_name
        → AnsweredRepo request.headers name (owner_name ++ (codes "/" ++ repo_name)) s t token
        → IsJustified call request s t (text token)
    owner_token :
        (name owner_name token : Text)
        → call ≡ Call.owner_installation_token name owner_name
        → AnsweredOwner request.headers name owner_name s t token
        → IsJustified call request s t (text token)
    sent_on :
        (name owner_name repo_name : Text) (path : Option Text) (response : ProxyResponse W)
        → call ≡ proxy_call name owner_name repo_name path
        → (p : IsProxied W state
            (proxy_request name owner_name repo_name path request)
            s
            t
            response)
        → AnsweredRepo request.headers name
            (owner_name ++ (codes "/" ++ repo_name))
            s
            p.before
            p.token.token
        → IsJustified call request s t (proxied response)
    healthy : (report : Text) → IsJustified call request s t (json_status report)
    alone : (code : ℕ) → IsJustified call request s t (status code)
    failed : (e : ErrorResponse) → IsJustified call request s t (error e)

  module _ (valid : validate W.authzoo kms_built false c ≡ ok tt)
      (made : build_app_state W.authzoo (connect W.broker) client c false ≡ ok state)
      (laws : IsHeaderMaps W.http)
      (repo_maps : All (λ p. IsMap p.required_claims) c.installation_policies)
      (owner_maps : All (λ p. IsMap p.required_claims) c.owner_policies)
      (rely : IsRely W.env github_api_url (sign_of W state)) (s : ServerState)
      (sound : IsSound W.env github_api_url (sign_of W state) s.shared) where
    token_answered :
        (name owner_name repo_name : Text) (headers : W.http.HeaderMap) (t : Shared) (token : Text)
        → installation_token W name owner_name repo_name state headers s.shared ≡ (ok token, t)
        → AnsweredRepo headers name (owner_name ++ (codes "/" ++ repo_name)) s.shared t token
    token_answered name owner_name repo_name headers t token e =
        installation_token_safe W L client c kms_built valid state made rely s.shared sound
          repo_maps name owner_name repo_name headers t token e

    created_answered :
        (name owner_name repo_name : Text) (headers : W.http.HeaderMap) (t : Shared)
        (token : InstallationTokenResponse)
        → create_installation_token_for_repo W name
            (owner_name ++ (codes "/" ++ repo_name))
            state
            headers
            s.shared
          ≡ (ok token, t)
        → AnsweredRepo headers name (owner_name ++ (codes "/" ++ repo_name)) s.shared t token.token
    unfolding installation_token
    created_answered name owner_name repo_name headers t token e =
        token_answered name owner_name repo_name headers t token.token (
          ap
            (λ (r : Result AppError InstallationTokenResponse × Shared).
              continue {B = Text} r.0 (λ (x : InstallationTokenResponse). pure x.token) r.1)
            e)

    proxy-IsJustified :
        (name owner_name repo_name : Text) (path : Option Text) (request : ServerRequest W.http)
        (r : Result AppError (ProxyResponse W)) (t : Shared)
        → proxy_repo_request W state (proxy_request name owner_name repo_name path request) s.shared
          ≡ (r, t)
        → IsJustified
            (proxy_call name owner_name repo_name path)
            request
            s.shared
            t
            (reply_of W proxied r)
    unfolding reply_of
    proxy-IsJustified name owner_name repo_name path request (err e) t run = failed _
    proxy-IsJustified name owner_name repo_name path request (ok response) t run =
        let p =
          proxy_repo_request-IsProxied W laws state
            (proxy_request name owner_name repo_name path request) s.shared t response run in
        sent_on name owner_name repo_name path response refl p
          (created_answered name owner_name repo_name request.headers p.before p.token p.created)

    token-IsJustified :
        (name owner_name repo_name : Text) (request : ServerRequest W.http)
        (r : Result AppError Text) (t : Shared)
        → installation_token W name owner_name repo_name state request.headers s.shared ≡ (r, t)
        → IsJustified
            (Call.installation_token name owner_name repo_name)
            request
            s.shared
            t
            (reply_of W text r)
    unfolding reply_of
    token-IsJustified name owner_name repo_name request (err e) t run = failed _
    token-IsJustified name owner_name repo_name request (ok token) t run =
        repo_token name owner_name repo_name token refl
          (token_answered name owner_name repo_name request.headers t token run)

    owner-IsJustified :
        (name owner_name : Text) (request : ServerRequest W.http) (r : Result AppError Text)
        (t : Shared)
        → owner_installation_token W name owner_name state request.headers s.shared ≡ (r, t)
        → IsJustified
            (Call.owner_installation_token name owner_name)
            request
            s.shared
            t
            (reply_of W text r)
    unfolding reply_of
    owner-IsJustified name owner_name request (err e) t run = failed _
    owner-IsJustified name owner_name request (ok token) t run =
        owner_token name owner_name token refl (
          owner_installation_token_safe W L client c kms_built valid state made rely s.shared sound
            owner_maps name owner_name request.headers t token run)

    webhook-IsJustified :
        (call : Call) (request : ServerRequest W.http) (r : Result AppError ℕ)
        → IsJustified call request s.shared s.shared (reply_of W status r)
    unfolding reply_of
    webhook-IsJustified call request (ok code) = alone code
    webhook-IsJustified call request (err e) = failed _

    pub handle-IsJustified :
        (call : Call) (request : ServerRequest W.http)
        → IsJustified call request s.shared
            (handle W state call request s).1.shared
            (handle W state call request s).0
    unfolding handle proxy_repo_root proxy_repo_path
    handle-IsJustified Call.healthz request = healthy _
    handle-IsJustified (Call.webhook app) request = webhook-IsJustified _ request _
    handle-IsJustified (Call.owner_installation_token app owner_name) request =
        owner-IsJustified app owner_name request _ _ refl
    handle-IsJustified (Call.installation_token app owner_name repo) request =
        token-IsJustified app owner_name repo request _ _ refl
    handle-IsJustified (Call.proxy_repo_root app owner_name repo) request =
        proxy-IsJustified app owner_name repo none request _ _ refl
    handle-IsJustified (Call.proxy_repo_path app owner_name repo path) request =
        proxy-IsJustified app owner_name repo (some path) request _ _ refl
