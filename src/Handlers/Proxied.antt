-- ===== src/Handlers/Proxied.antt =====
-- src/main.rs, the proxy: what stands behind an answer of it.
use idcat.Common.{
  Option, ◌∷◌, none, contains, ◌==◌, if◌then◌else◌, map_err, ◌≡◌, ap, sym, ◌∙◌, some, ◌++◌, Text,
  codes, text_eq, Result, ok,
}
use idcat.Common.Exec.{continue-eq-ok, run-eq-ok}
use idcat.AppError.{AppError}
use idcat.Service.{AppState}
use idcat.Github.{InstallationTokenResponse}
use idcat.Github.Shared.{Shared, ApiRequest, ApiResponse}
use idcat.Github.Proxy.{kept_back, last_value}
use idcat.Http.{IsHeaderMaps}
use idcat.Platform.{Platform, UpstreamRequest, UpstreamResponse}
use idcat.Handlers.Tokens.{converted, create_installation_token_for_repo}
use idcat.Handlers.Issue.{converted_ok}
use idcat.Handlers.Addresses.{rest_of, query_of, IsWithout, for_one_connection, proxy_url_parts}
use idcat.Handlers.Forwarded.{upstream_request_made, headers_sent, respond_made, proxy_request_made}
use idcat.Handlers.Proxy.{
  ProxyRepoRequest, ProxyResponse, proxy_request, upstream_request, method_error, forward,
  proxy_repo_request,
}

module _ (W : Platform) where
  -- What stands behind an answer of the proxy: a token was created for the repository in the path; one
  -- request was sent on, with the method and the body of the caller, to what the text of the address
  -- is parsed as, with the token and the headers of the caller that are not kept back, and that is
  -- what was recorded; and the answer is GitHub's, less the headers that are for one connection.
  pub record IsProxied (state : AppState W.authzoo) (request : ProxyRepoRequest W) (s t : Shared)
      (response : ProxyResponse W) : Type 0 where
    pub token : InstallationTokenResponse
    pub before : Shared
    pub created :
        create_installation_token_for_repo W request.github_app
          (request.owner ++ (codes "/" ++ request.repo_name))
          state
          request.headers
          s
        ≡ (ok token, before)
    pub sent : UpstreamRequest W.http
    pub method : sent.method ≡ request.method
    pub body : sent.body ≡ request.body
    pub url :
        sent.url
        ≡ codes "https://api.github.com/repos/"
          ++ ((request.owner ++ (codes "/" ++ request.repo_name))
              ++ (rest_of request.repo_path ++ query_of request.query))
    pub value : W.http.HeaderValue
    pub bears_token : W.http.from_str (codes "Bearer " ++ token.token) ≡ some value
    pub sent_headers :
        (name : Text)
        → W.http.get sent.headers name ≡ (
            if codes "authorization" == name
            then some value
            else (if contains kept_back name
                then none
                else last_value W.http name (W.http.entries request.headers)))
    pub address : Text
    pub parsed : W.parse_url sent.url ≡ some address
    pub answer : UpstreamResponse W.http
    pub answered : W.upstream (W.env.others before) (record sent { url = address }) ≡ some answer
    pub status : response.status ≡ answer.status
    pub headers : IsWithout for_one_connection answer.headers response.headers
    pub returned : answer.body ≡ ok response.body
    pub after : t ≡ record (W.env.others before) {
      log =
          record {
            request = ApiRequest.forward request.method address request.body;
            response = some (record { status = response.status; body = response.body });
          }
          ∷ (W.env.others before).log;
    }

  logged :
      (s : Shared) {a b : ApiRequest} {x y : Option ApiResponse}
      → a ≡ b
      → x ≡ y
      → (record s { log = record { request = a; response = x } ∷ s.log })
        ≡ record s { log = record { request = b; response = y } ∷ s.log }
  logged s e e' = λ i. record s { log = record { request = e i; response = e' i } ∷ s.log }

  -- Whenever the proxy answers, a token was created for the repository in the path, and then one request
  -- was sent on and recorded: the method and the body are the caller's; the text of the address is
  -- https://api.github.com/repos/, the repository, the rest of the caller's path as it came, and the
  -- query where it is not empty, and the request went to what that text is parsed as, which says
  -- nothing of dot segments; the header for authorization holds the token, and the other headers are
  -- the caller's, but for the ten names that are kept back. The answer has GitHub's status and body,
  -- and its headers, in their order, less those that are for one connection. The condition: `insert`
  -- of a header map replaces what a name has.
  pub proxy_repo_request-IsProxied :
      (laws : IsHeaderMaps W.http) (state : AppState W.authzoo) (request : ProxyRepoRequest W)
      (s t : Shared) (response : ProxyResponse W)
      → proxy_repo_request W state request s ≡ (ok response, t)
      → IsProxied state request s t response
  unfolding proxy_repo_request forward
  proxy_repo_request-IsProxied laws state request s t response e =
      let repo = request.owner ++ (codes "/" ++ request.repo_name) in
      let (token, before, created, e1) =
        run-eq-ok
          (create_installation_token_for_repo W request.github_app repo state request.headers)
          (forward W request repo) s t response e in
      let (_, fine, e2) =
        continue-eq-ok (map_err (method_error W) (W.check_method request.method)) _ before t
          response e1 in
      let (sent, made, e3) =
        continue-eq-ok (upstream_request W request repo token) _ before t response e2 in
      let (answer, u, went, e4) =
        run-eq-ok (converted W (proxy_request W sent)) _ before t response e3 in
      let (method, body, url, built) = upstream_request_made W request repo token sent made in
      let (value, bears, held) =
        headers_sent W laws request.headers sent.headers token.token built in
      let (address, parsed, answered, after) =
        proxy_request_made W sent before u answer
          (converted_ok W state (proxy_request W sent) before u answer went) in
      let (status, headers, returned, noted) =
        respond_made W answer response
          (ap (λ (p : Result AppError (ProxyResponse W) × Shared). p.0) e4) in
      let same = ap (λ (p : Result AppError (ProxyResponse W) × Shared). p.1) e4 in
      record {
        token = token;
        before = before;
        created = created;
        sent = sent;
        method = method;
        body = body;
        url = url ∙ proxy_url_parts W repo request.repo_path request.query;
        value = value;
        bears_token = bears;
        sent_headers = held;
        address = address;
        parsed = parsed;
        answer = answer;
        answered = answered;
        status = status;
        headers = headers;
        returned = returned;
        after =
            sym same
            ∙ after
            ∙ logged (W.env.others before) (λ i. ApiRequest.forward (method i) address (body i))
                noted;
      }
