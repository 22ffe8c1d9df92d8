-- ===== src/Handlers/Proxy.antt =====
-- src/main.rs, the proxy: a request for a repository is sent on to GitHub with an installation token.
use idcat.Common.{
  map_err, if◌then◌else◌, Option, some, none, List, [], ◌∷◌, ◌++◌, Text, codes, text_eq, ℕ, Result,
  ok, err, ok_or,
}
use idcat.Common.Exec.{Exec, lift, ◌>>=◌, ◌>>◌}
use idcat.AppError.{AppError, internal, from_anyhow}
use idcat.Service.{AppState}
use idcat.Github.{InstallationTokenResponse}
use idcat.Github.Shared.{Shared, ApiRequest, ApiResponse}
use idcat.Github.Client.{github_api_url}
use idcat.Github.Proxy.{proxy_url, proxy_headers, should_return_proxy_header}
use idcat.Platform.{Platform, UpstreamRequest, UpstreamResponse}
use idcat.Handlers.Tokens.{converted, create_installation_token_for_repo}

module _ (W : Platform) where
  pub record ProxyRepoRequest : Type 0 where
    pub github_app : Text
    pub owner : Text
    pub repo_name : Text
    pub repo_path : Option Text
    pub query : Option Text
    pub method : Text
    pub headers : W.http.HeaderMap
    pub body : List ℕ

  -- The response of the proxy
  pub record ProxyResponse : Type 0 where
    pub status : ℕ
    pub headers : List (Text × W.http.HeaderValue)
    pub body : List ℕ

  unfoldable pub github_path : Text → Option Text → Text
  github_path repo none = codes "repos/" ++ repo
  github_path repo (some repo_path) = codes "repos/" ++ (repo ++ (codes "/" ++ repo_path))

  -- what the record of the exchanges keeps of an answer; of a body that cannot be read, nothing
  unfoldable pub recorded : Option (UpstreamResponse W.http) → Option ApiResponse
  recorded none = none
  recorded (some response) = some (record {
    status = response.status;
    body = elim response.body [ err error ↦ [] | ok body ↦ body ];
  })

  -- `send().await`, to an address that is parsed; other requests may run while it waits
  unfoldable pub send_on : UpstreamRequest W.http → Exec Shared Text (UpstreamResponse W.http)
  unfolding recorded
  send_on request s =
      let s' = W.env.others s in
      let response = W.upstream s' request in
      (
        ok_or response (codes "failed to forward proxied GitHub API request"),
        record s' {
          log =
              record {
                request = ApiRequest.forward request.method request.url request.body;
                response = recorded response;
              }
              ∷ s'.log;
        },
      )

  -- `proxy_request` of src/github.rs. To a text that is no address nothing is sent.
  unfoldable pub proxy_request : UpstreamRequest W.http → Exec Shared Text (UpstreamResponse W.http)
  unfolding send_on
  proxy_request request s = elim (W.parse_url request.url) [
    | none ↦ (err (codes "failed to forward proxied GitHub API request"), s)
    | some address ↦ send_on (record request { url = address }) s
  ]

  -- the headers of GitHub's answer that are returned, in their order
  unfoldable pub returned_headers :
      List (Text × W.http.HeaderValue) → List (Text × W.http.HeaderValue)
  returned_headers [] = []
  returned_headers ((name, value) ∷ rest) =
      let others = returned_headers rest in
      if should_return_proxy_header name then (name, value) ∷ others else others

  unfoldable pub upstream_request :
      ProxyRepoRequest → Text → InstallationTokenResponse → Result AppError (UpstreamRequest W.http)
  upstream_request request repo token = elim (proxy_headers W.http request.headers token.token) [
    | err e ↦ err (from_anyhow e)
    | ok headers ↦ ok (record {
      method = request.method;
      url = proxy_url github_api_url (github_path repo request.repo_path) request.query;
      headers = headers;
      body = request.body;
    })
  ]

  unfoldable pub respond : UpstreamResponse W.http → Result AppError ProxyResponse
  unfolding returned_headers
  respond response = elim response.body [
    | err error ↦ err (internal (codes "failed to read proxied response: " ++ error))
    | ok body ↦ ok (record {
      status = response.status;
      headers = returned_headers response.headers;
      body = body;
    })
  ]

  abbrev pub method_error : Text → AppError
  method_error error = internal (codes "failed to convert HTTP method: " ++ error)

  -- `proxy_repo_request` once the token is there
  unfoldable pub forward :
      ProxyRepoRequest → Text → InstallationTokenResponse → Exec Shared AppError ProxyResponse
  forward request repo token = do
    lift (map_err method_error (W.check_method request.method))
    upstream ← lift (upstream_request request repo token)
    response ← converted W (proxy_request upstream)
    lift (respond response)

  unfoldable pub proxy_repo_request :
      AppState W.authzoo → ProxyRepoRequest → Exec Shared AppError ProxyResponse
  unfolding forward
  proxy_repo_request state request = do
    token ←
        create_installation_token_for_repo W request.github_app
          (request.owner ++ (codes "/" ++ request.repo_name)) state request.headers
    forward request (request.owner ++ (codes "/" ++ request.repo_name)) token

  -- `Path((github_app, owner, repo))`, and the rest of what a handler extracts
  unfoldable pub proxy_repo_root :
      Text
      → Text
      → Text
      → AppState W.authzoo
      → Option Text
      → Text
      → W.http.HeaderMap
      → List ℕ
      → Exec Shared AppError ProxyResponse
  proxy_repo_root github_app owner repo state query method headers body =
      proxy_repo_request state (record {
        github_app = github_app;
        owner = owner;
        repo_name = repo;
        repo_path = none;
        query = query;
        method = method;
        headers = headers;
        body = body;
      })

  unfoldable pub proxy_repo_path :
      Text
      → Text
      → Text
      → Text
      → AppState W.authzoo
      → Option Text
      → Text
      → W.http.HeaderMap
      → List ℕ
      → Exec Shared AppError ProxyResponse
  proxy_repo_path github_app owner repo repo_path state query method headers body =
      proxy_repo_request state (record {
        github_app = github_app;
        owner = owner;
        repo_name = repo;
        repo_path = some repo_path;
        query = query;
        method = method;
        headers = headers;
        body = body;
      })
