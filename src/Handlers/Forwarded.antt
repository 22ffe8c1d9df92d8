-- ===== src/Handlers/Forwarded.antt =====
-- src/main.rs, the proxy: what its steps did, where they succeeded.
use idcat.Common.{
  refl, subst, Option-cases, ◌∷◌, none, contains, ◌==◌, if◌then◌else◌, ◌≡◌, sym, ◌∙◌, Result-cases,
  inl, inr, arith, some, ◌++◌, Text, codes, text_eq, Result, ok,
}
use idcat.AppError.{AppError}
use idcat.Github.{InstallationTokenResponse}
use idcat.Github.Shared.{Shared, ApiRequest}
use idcat.Github.Client.{github_api_url}
use idcat.Github.Proxy.{
  proxy_url, proxy_headers, authorization, get-proxy_headers, kept_back, last_value,
}
use idcat.Http.{IsHeaderMaps}
use idcat.Platform.{Platform, UpstreamRequest, UpstreamResponse}
use idcat.Handlers.Addresses.{IsWithout, for_one_connection, returned_headers-IsWithout}
use idcat.Handlers.Proxy.{
  ProxyRepoRequest, ProxyResponse, github_path, proxy_request, returned_headers, upstream_request,
  respond, send_on, recorded,
}

module _ (W : Platform) where
  pub upstream_request_made :
      (request : ProxyRepoRequest W) (repo : Text) (token : InstallationTokenResponse)
      (sent : UpstreamRequest W.http)
      → upstream_request W request repo token ≡ ok sent
      → (sent.method ≡ request.method)
        × (sent.body ≡ request.body)
        × (sent.url ≡ proxy_url github_api_url (github_path W repo request.repo_path) request.query)
        × (proxy_headers W.http request.headers token.token ≡ ok sent.headers)
  unfolding upstream_request
  upstream_request_made request repo token sent e =
      elim (Result-cases (proxy_headers W.http request.headers token.token)) [
        | inl (x, bad) ↦ absurd (ground arith)
        | inr (headers, good) ↦ (ground arith, ground arith, ground arith, ground arith)
      ]

  -- One value of the header for authorization serves for all names.
  pub headers_sent :
      (laws : IsHeaderMaps W.http) (given out : W.http.HeaderMap) (token : Text)
      → proxy_headers W.http given token ≡ ok out
      → (value : W.http.HeaderValue) × (W.http.from_str (codes "Bearer " ++ token) ≡ some value)
        × ((name : Text)
            → W.http.get out name ≡ (
                if codes "authorization" == name
                then some value
                else (if contains kept_back name
                    then none
                    else last_value W.http name (W.http.entries given))))
  headers_sent laws given out token e =
      let (value, bears, _) = get-proxy_headers W.http laws given out token authorization e in
      (value, bears, λ name. held value bears name)
    where
      some_inj : {v w : W.http.HeaderValue} → some v ≡ some w → v ≡ w
      some_inj h = cc

      held :
          (value : W.http.HeaderValue)
          → W.http.from_str (codes "Bearer " ++ token) ≡ some value
          → (name : Text)
          → W.http.get out name ≡ (
              if codes "authorization" == name
              then some value
              else (if contains kept_back name
                  then none
                  else last_value W.http name (W.http.entries given)))
      held value bears name =
          let (value', bears', holds) = get-proxy_headers W.http laws given out token name e in
          let same : value' ≡ value = some_inj (sym bears' ∙ bears) in
          subst
            (λ v. W.http.get out name ≡ (
              if codes "authorization" == name
              then some v
              else (if contains kept_back name
                  then none
                  else last_value W.http name (W.http.entries given))))
            same holds

  pub respond_made :
      (answer : UpstreamResponse W.http) (response : ProxyResponse W)
      → respond W answer ≡ ok response
      → (response.status ≡ answer.status)
        × IsWithout for_one_connection answer.headers response.headers
        × (answer.body ≡ ok response.body)
        × (recorded W (some answer)
            ≡ some (record { status = response.status; body = response.body }))
  unfolding respond recorded
  respond_made answer response e = elim (Result-cases answer.body) [
    | inl (x, unread) ↦ absurd (ground arith)
    | inr (body, there) ↦
        let same : response ≡ record {
          status = answer.status;
          headers = returned_headers W answer.headers;
          body = body;
        } =
          answer_of (rw there at e) in
        subst
          (λ (r : ProxyResponse W).
            (r.status ≡ answer.status)
            × IsWithout for_one_connection answer.headers r.headers
            × (answer.body ≡ ok r.body)
            × (recorded W (some answer) ≡ some (record { status = r.status; body = r.body })))
          (sym same) (refl, returned_headers-IsWithout W answer.headers, there, rw there refl)
  ]
    where
      answer_of :
          {a b : ProxyResponse W}
          → ◌≡◌ {A = Result AppError (ProxyResponse W)} (ok a) (ok b)
          → b ≡ a
      answer_of h = cc

  pub proxy_request_made :
      (sent : UpstreamRequest W.http) (s t : Shared) (answer : UpstreamResponse W.http)
      → ((proxy_request W sent s).0 ≡ ok answer) × ((proxy_request W sent s).1 ≡ t)
      → (address : Text) × (W.parse_url sent.url ≡ some address)
        × (W.upstream (W.env.others s) (record sent { url = address }) ≡ some answer)
        × (t ≡ record (W.env.others s) {
          log =
              record {
                request = ApiRequest.forward sent.method address sent.body;
                response = recorded W (some answer);
              }
              ∷ (W.env.others s).log;
        })
  unfolding proxy_request send_on
  proxy_request_made sent s t answer (e, e') = elim (Option-cases (W.parse_url sent.url)) [
    | inl unparsed ↦ absurd (ground arith)
    | inr (address, parsed) ↦
        let answered : W.upstream (W.env.others s) (record sent { url = address }) ≡ some answer =
          ground arith in
        let ends = rw (parsed, proxy_request, answered) at e' in
        (address, parsed, answered, sym ends)
  ]
