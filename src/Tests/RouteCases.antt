-- ===== src/Tests/RouteCases.antt =====
-- The theorems on refusals, the proxy and webhooks, at the small world.
use idcat.Common.{
  Option, subst, ◌≡◌, ◌≢◌, sym, ◌∙◌, ◌↔◌, ◌==◌, refl, true, some, none, List, ◌∷◌, [], Text, codes,
  text_eq, text_dec, ok, err, ◌++◌, lookup, insert, extend, contains, contains_text, split_once,
  find?, any, is_absolute, starts_with, strip_prefix, Result,
}
use native.Mathlib.Decide.{ℕ_discrete, dec_le}
use idcat.Jwt.{
  build_github_app_jwt, build_github_app_jwt_at, encode_jwt_part, signing_input, claims_at,
}
use idcat.Http.{header_text}
use idcat.AppError.{AppError, unauthorized, not_found}
use idcat.Secret.{join_path, path_for_key, private_key_pem}
use idcat.Signer.{from_rsa_pem, local_sign, signer}
use idcat.Service.{
  TokenScope, auth_enabled, github_app, validate as validate_token, validate_role_with_claims,
  claims_for_request, claims_for_owner_request,
}
use idcat.Service.Authorize.{
  allowed_role_match, installation_policy_admits, authorize_repo_token, authorize_github_app,
  no_match_message, owner_policy_admits, authorize_owner_token, authorize_owner,
}
use idcat.Github.{build_create_installation_token_request, key_eq}
use idcat.Github.Shared.{
  find_token, store_token, find_id, store_id, read_clock, lock, put_cache, send, respond_with,
  cached_installation_token, cache_installation_token,
}
use idcat.Github.Answers.{error_for_status, read_repository, read_token}
use idcat.Github.Client.{
  lookup_repository, repository_installation_id, installation_id, or_lookup_id,
  cached_installation_id, mint_installation_token, or_mint,
  create_installation_token as client_token,
}
use idcat.Github.Proxy.{authorization, proxy_headers, forward_all, should_forward_header}
use idcat.Config.{GithubAppConfig}
use idcat.Handlers.Bearer.{extract_bearer_token, bearer_token, extract_bearer_token_iff}
use idcat.Handlers.Tokens.{
  converted, signer_of, create_installation_token, create_installation_token_for_repo,
  installation_token, owner_installation_token,
}
use idcat.Handlers.Refusals.{tokens_without_bearer, tokens_refused}
use idcat.Handlers.Proxy.{
  ProxyRepoRequest, proxy_repo_request, forward, upstream_request, respond, proxy_request, send_on,
  recorded, returned_headers,
}
use idcat.Handlers.Proxied.{IsProxied, proxy_repo_request-IsProxied}
use idcat.Handlers.Webhook.{webhook, webhook_iff, IsTrusted, published}
use idcat.Tests.Zoo.{zoo}
use idcat.Tests.World.{world, start, an_app, maps-IsHeaderMaps}
use idcat.Tests.Accepted.{a_state}
use idcat.Service.Grants.{GrantsRepo, GrantsOwner}
use idcat.Service.Decisions.{authorize_github_app_iff, authorize_owner_iff}

abbrev headers : List (Text × Text)
headers = (codes "authorization", codes "Bearer o/r") ∷ []

abbrev weak_headers : List (Text × Text)
weak_headers = (codes "authorization", codes "Bearer x") ∷ []

enabled : auth_enabled zoo a_state.token_validator ≡ true
unfolding auth_enabled
enabled = refl

no_bearer :
    extract_bearer_token world.http [] ≡ err (unauthorized (codes "missing Authorization header"))
unfolding extract_bearer_token lookup
no_bearer = refl

tokens_without_bearer_example :
    (installation_token world (codes "app") (codes "o") (codes "r") a_state [] start
      ≡ (err (unauthorized (codes "missing Authorization header")), start))
    × (owner_installation_token world (codes "app") (codes "o") a_state [] start
        ≡ (err (unauthorized (codes "missing Authorization header")), start))
tokens_without_bearer_example =
    tokens_without_bearer world a_state enabled (codes "app") (codes "o") (codes "r") [] start
      (unauthorized (codes "missing Authorization header")) no_bearer

weak_bearer : extract_bearer_token world.http weak_headers ≡ ok (codes "x")
unfolding extract_bearer_token lookup codes text_dec ℕ_discrete strip_prefix
weak_bearer = refl

weak_refused :
    authorize_github_app zoo
      (λ pattern text. pattern == text)
      a_state
      an_app
      (codes "o" ++ (codes "/" ++ codes "r"))
      (some (codes "x"))
    ≡ err (
        unauthorized (
          no_match_message
            (codes "app")
            (codes "repository")
            (codes "o" ++ (codes "/" ++ codes "r"))))
unfolding codes authorize_github_app auth_enabled authorize_repo_token text_dec ℕ_discrete any find?
    lookup extend insert allowed_role_match installation_policy_admits validate_token
    validate_role_with_claims claims_for_request
weak_refused = refl

nothing_granted :
    (scope : TokenScope) (token : Text)
    → some (codes "x") ≡ some token
    → ¬ GrantsRepo zoo
        (λ pattern text. pattern == text)
        a_state
        an_app
        (codes "o" ++ (codes "/" ++ codes "r"))
        token
        scope
nothing_granted scope token e g =
    let granted =
      (authorize_github_app_iff zoo (λ pattern text. pattern == text) a_state an_app
          (codes "o" ++ (codes "/" ++ codes "r")) (some (codes "x")) scope enabled).1
        (token, e, g) in
    absurd (clash (sym granted ∙ weak_refused))
  where
    clash : {error : AppError} → ◌≡◌ {A = Result AppError TokenScope} (ok scope) (err error) → ⊥
    clash h = absurd (cc)

weak_owner_refused :
    authorize_owner zoo
      (λ pattern text. pattern == text)
      a_state
      an_app
      (codes "o")
      (some (codes "x"))
    ≡ err (unauthorized (no_match_message (codes "app") (codes "owner") (codes "o")))
unfolding codes authorize_owner auth_enabled authorize_owner_token text_dec ℕ_discrete any find?
    lookup extend insert allowed_role_match owner_policy_admits validate_token
    validate_role_with_claims claims_for_owner_request
weak_owner_refused = refl

nothing_for_owner :
    (scope : TokenScope) (token : Text)
    → some (codes "x") ≡ some token
    → ¬ GrantsOwner zoo (λ pattern text. pattern == text) a_state an_app (codes "o") token scope
nothing_for_owner scope token e g =
    let granted =
      (authorize_owner_iff zoo (λ pattern text. pattern == text) a_state an_app (codes "o")
          (some (codes "x")) scope enabled).1
        (token, e, g) in
    absurd (clash (sym granted ∙ weak_owner_refused))
  where
    clash : {error : AppError} → ◌≡◌ {A = Result AppError TokenScope} (ok scope) (err error) → ⊥
    clash h = absurd (cc)

only_app :
    (app : GithubAppConfig)
    → find? (λ a. a.name == codes "app") a_state.github_apps ≡ some app
    → an_app ≡ app
unfolding find? codes text_dec ℕ_discrete
only_app app h = some_inj h
  where
    some_inj : ◌≡◌ {A = Option GithubAppConfig} (some an_app) (some app) → an_app ≡ app
    some_inj e = cc

tokens_refused_example :
    (installation_token world (codes "app") (codes "o") (codes "r") a_state weak_headers start ≡ (
      err (elim (find? (λ a. a.name == codes "app") a_state.github_apps) [
        | none ↦ not_found (codes "unknown github_app '" ++ (codes "app" ++ codes "'"))
        | some app ↦
            unauthorized (
              no_match_message app.name
                (codes "repository")
                (codes "o" ++ (codes "/" ++ codes "r")))
      ]),
      start,
    ))
    × (owner_installation_token world (codes "app") (codes "o") a_state weak_headers start ≡ (
      err (elim (find? (λ a. a.name == codes "app") a_state.github_apps) [
        | none ↦ not_found (codes "unknown github_app '" ++ (codes "app" ++ codes "'"))
        | some app ↦ unauthorized (no_match_message app.name (codes "owner") (codes "o"))
      ]),
      start,
    ))
tokens_refused_example =
    tokens_refused world a_state enabled (codes "app") (codes "o") (codes "r") weak_headers start
      (codes "x") weak_bearer
      (λ app scope token found.
        subst
          (λ a.
            some (codes "x") ≡ some token
            → ¬ GrantsRepo zoo (λ pattern text. pattern == text) a_state a
                (codes "o" ++ (codes "/" ++ codes "r")) token scope)
          (only_app app found) (nothing_granted scope token))
      (λ app scope token found.
        subst
          (λ a.
            some (codes "x") ≡ some token
            → ¬ GrantsOwner zoo (λ pattern text. pattern == text) a_state a (codes "o") token scope)
          (only_app app found) (nothing_for_owner scope token))

extract_bearer_token_iff_example :
    (extract_bearer_token world.http weak_headers ≡ ok (codes "x")) ↔ (
      (header_text world.http weak_headers authorization ≡ some (codes "Bearer " ++ codes "x"))
      × (codes "x" ≢ []))
extract_bearer_token_iff_example = extract_bearer_token_iff world.http weak_headers (codes "x")

webhook_iff_example : (webhook world a_state (codes "app") [] [] [] ≡ (ok 202, [])) ↔ (
    (app : GithubAppConfig) × (github_app zoo a_state (codes "app") ≡ ok app)
    × IsTrusted world app.webhook_validation_secret_file [] []
    × (published world app.webhook_target none [] [] ++ [] ≡ []))
webhook_iff_example = webhook_iff world a_state (codes "app") [] [] [] []

unknown_app :
    (webhook world a_state (codes "other") [] [] []).0
    ≡ err (not_found (codes "unknown github_app 'other'"))
unfolding webhook github_app find? codes text_dec ℕ_discrete
unknown_app = refl

abbrev a_proxy_request : ProxyRepoRequest world
a_proxy_request = record {
  github_app = codes "app";
  owner = codes "o";
  repo_name = codes "r";
  repo_path = some (codes "issues");
  query = none;
  method = codes "GET";
  headers = headers;
  body = [];
}

proxied : proxy_repo_request world a_state a_proxy_request start ≡ (
  ok (record { status = 200; headers = []; body = [] }),
  (proxy_repo_request world a_state a_proxy_request start).1,
)
unfolding codes lookup insert extend split_once text_dec ℕ_discrete dec_le contains contains_text
    find? any is_absolute starts_with strip_prefix build_github_app_jwt build_github_app_jwt_at
    encode_jwt_part signing_input claims_at cached_installation_token cache_installation_token
    find_token store_token find_id store_id read_clock lock put_cache send respond_with
    error_for_status read_token installation_id or_lookup_id cached_installation_id
    mint_installation_token or_mint build_create_installation_token_request client_token join_path
    path_for_key private_key_pem from_rsa_pem local_sign signer auth_enabled github_app
    validate_token validate_role_with_claims allowed_role_match extract_bearer_token bearer_token
    converted signer_of create_installation_token lookup_repository read_repository
    repository_installation_id claims_for_request installation_policy_admits authorize_repo_token
    authorize_github_app create_installation_token_for_repo proxy_repo_request forward
    upstream_request respond proxy_request send_on recorded returned_headers proxy_headers
    forward_all should_forward_header
proxied = refl

proxy_repo_request-IsProxied_example :
    IsProxied world a_state a_proxy_request start
      (proxy_repo_request world a_state a_proxy_request start).1
      (record { status = 200; headers = []; body = [] })
proxy_repo_request-IsProxied_example =
    proxy_repo_request-IsProxied world maps-IsHeaderMaps a_state a_proxy_request start
      (proxy_repo_request world a_state a_proxy_request start).1
      (record { status = 200; headers = []; body = [] }) proxied
