-- ===== src/Tests/GithubCases.antt =====
-- The theorems on the client of GitHub, at the small world.
use idcat.Common.{
  insert, split_once, contains, ◌≡◌, ◌↔◌, ℕ, ◌<◌, ◌+◌, ltb, split, if◌then◌else◌, ◌==◌, refl,
  Option, some, none, List, ◌∷◌, [], Text, codes, text_eq, text_dec, ok, ◌++◌, lookup, Free, arith,
}
use native.Mathlib.Decide.{dec_le, ℕ_discrete}
use idcat.Jwt.{
  build_github_app_jwt, build_github_app_jwt_at, encode_jwt_part, signing_input, claims_at,
  claims_at_window, build_github_app_jwt_at-parts,
}
use idcat.Github.Shared.{
  find_id, store_id, read_clock, lock, put_cache, send, respond_with, cached_installation_token,
  cache_installation_token, find_token, store_token,
}
use idcat.Github.Answers.{error_for_status, read_repository, read_token}
use idcat.Github.Client.{
  lookup_repository, repository_installation_id, installation_id, or_lookup_id,
  cached_installation_id, mint_installation_token, or_mint, github_api_url,
  create_installation_token,
}
use idcat.Config.{GithubAppConfig}
use idcat.Service.{only_requested}
use idcat.Github.{
  installation_token_cache_ttl, repository, owner, InstallationTokenCacheKey,
  CreateInstallationTokenRequest, build_create_installation_token_request, key_eq,
}
use idcat.Github.Tokens.{Issued}
use idcat.Github.Issue.{create_installation_token_issued}
use idcat.Github.Again.{key, create, at_lock, create_installation_token_again}
use idcat.Github.Keys.{id_cache_key-injective}
use idcat.Github.New.{default_cache}
use idcat.Github.View.{view, nothing, with_token, with_id, cache_refines}
use idcat.Github.Requests.{
  build_create_installation_token_request_iff, AsksForRepositories, AsksForPermissions,
}
use idcat.Github.Proxy.{
  get-proxy_headers, kept_back, proxy_headers, forward_all, should_forward_header, last_value,
  authorization,
}
use idcat.Tests.World.{
  env, start, an_app, a_token, alone, start-IsSound, maps, maps-IsHeaderMaps, encoding,
}
use idcat.Tests.Accepted.{repo_scope}

abbrev sign_all : GithubAppConfig → Text → Option (List ℕ)
sign_all app message = some message

no_slash : Free b'/' (codes "app")
unfolding codes
no_slash = (λ e. omega arith, (λ e. omega arith, (λ e. omega arith, tt)))

a_target_minted :
    (create_installation_token env github_api_url
      (sign_all an_app)
      an_app
      (repository (codes "o/r"))
      repo_scope
      start).0
    ≡ ok a_token
unfolding codes lookup insert split_once text_dec ℕ_discrete dec_le build_github_app_jwt
    build_github_app_jwt_at encode_jwt_part signing_input claims_at cached_installation_token
    cache_installation_token find_token store_token find_id store_id read_clock lock put_cache send
    respond_with error_for_status read_repository read_token lookup_repository
    repository_installation_id installation_id or_lookup_id cached_installation_id
    mint_installation_token or_mint build_create_installation_token_request
    create_installation_token
a_target_minted = refl

create_installation_token_issued_example :
    Issued env github_api_url sign_all start.readings
      (create_installation_token env github_api_url
        (sign_all an_app)
        an_app
        (repository (codes "o/r"))
        repo_scope
        start).1
      (record { github_app = codes "app"; target = repository (codes "o/r"); scope = repo_scope })
      a_token
create_installation_token_issued_example =
    create_installation_token_issued env github_api_url sign_all (alone sign_all) an_app no_slash
      (repository (codes "o/r")) repo_scope start (start-IsSound sign_all) a_token a_target_minted

id_cache_key-injective_example :
    (codes "app" ≡ codes "app") × (repository (codes "o/r") ≡ repository (codes "o/r"))
id_cache_key-injective_example =
    id_cache_key-injective (codes "app") (codes "app") (repository (codes "o/r"))
      (repository (codes "o/r")) no_slash no_slash refl

abbrev a_key : InstallationTokenCacheKey
a_key = record { github_app = codes "app"; target = owner (codes "o"); scope = repo_scope }

cache_refines_example :
    (view default_cache ≡ nothing)
    × (view (store_token start.cache a_key a_token 10)
        ≡ with_token (view start.cache) a_key a_token 10)
    × (view (store_id start.cache (codes "app/owner:o") 7)
        ≡ with_id (view start.cache) (codes "app/owner:o") 7)
cache_refines_example = cache_refines start.cache a_key a_token 10 (codes "app/owner:o") 7

abbrev a_request : CreateInstallationTokenRequest
a_request = record {
  repositories = some (codes "r" ∷ []);
  permissions = some repo_scope.permissions;
}

build_create_installation_token_request_iff_example :
    (build_create_installation_token_request repo_scope (repository (codes "o/r")) ≡ ok a_request)
    ↔ (AsksForRepositories only_requested (repository (codes "o/r")) (some (codes "r" ∷ []))
        × AsksForPermissions repo_scope.permissions (some repo_scope.permissions))
build_create_installation_token_request_iff_example =
    build_create_installation_token_request_iff repo_scope (repository (codes "o/r")) a_request

abbrev sent_headers : List (Text × Text)
sent_headers = (codes "authorization", codes "Bearer secret") ∷ (codes "accept", codes "json") ∷ []

forwarded :
    proxy_headers maps sent_headers (codes "ghs")
    ≡ ok (
        (codes "authorization", codes "Bearer " ++ codes "ghs")
        ∷ (codes "accept", codes "json")
        ∷ [])
unfolding proxy_headers forward_all should_forward_header codes text_dec ℕ_discrete contains
forwarded = refl

get-proxy_headers_example :
    (value : Text) × (some (codes "Bearer " ++ codes "ghs") ≡ some value)
    × (lookup (codes "authorization") (
          (codes "authorization", codes "Bearer " ++ codes "ghs")
          ∷ (codes "accept", codes "json")
          ∷ [])
        ≡ (if authorization == codes "authorization"
            then some value
            else (if contains kept_back (codes "authorization")
                then none
                else last_value maps (codes "authorization") sent_headers)))
get-proxy_headers_example =
    get-proxy_headers maps maps-IsHeaderMaps sent_headers
      ((codes "authorization", codes "Bearer " ++ codes "ghs")
        ∷ (codes "accept", codes "json")
        ∷ [])
      (codes "ghs") (codes "authorization") forwarded

claims_at_window_example : (940 < 1000) × (1000 < 1480) × (1480 ≡ 940 + 540) × (1480 < 1600)
unfolding claims_at
claims_at_window_example = claims_at_window 1 1000 (omega arith) (omega arith)

undotted : (bytes : List ℕ) → Free b'.' (codes "x")
unfolding codes
undotted bytes = (λ e. omega arith, tt)

a_jwt : build_github_app_jwt_at encoding 1 (λ m. some m) 1000 ≡ ok (codes "x.x.x")
unfolding codes build_github_app_jwt_at encode_jwt_part signing_input claims_at
a_jwt = refl

build_github_app_jwt_at-parts_example :
    (header claims signature : List ℕ) × (some (1 ∷ []) ≡ some header)
    × (encoding.claims_json (claims_at 1 1000) ≡ some claims)
    × (some (codes "x" ++ b'.' ∷ codes "x") ≡ some signature)
    × (split (codes "x.x.x") b'.' ≡ codes "x" ∷ codes "x" ∷ codes "x" ∷ [])
build_github_app_jwt_at-parts_example =
    build_github_app_jwt_at-parts encoding undotted 1 (λ m. some m) 1000 (codes "x.x.x") a_jwt

-- Nobody else uses the client, so the cache has the token still.
create_installation_token_again_example :
    (stored : ℕ) × (stored
      < (create env github_api_url sign_all an_app
          (repository (codes "o/r"))
          repo_scope
          start).1.readings)
    × (create env github_api_url sign_all an_app
          (repository (codes "o/r"))
          repo_scope
          (create env github_api_url sign_all an_app (repository (codes "o/r")) repo_scope start).1
        ≡ (if ltb
              (env.clock
                (create env github_api_url sign_all an_app
                  (repository (codes "o/r"))
                  repo_scope
                  start).1.readings)
              (env.clock stored + installation_token_cache_ttl)
            then (
              ok a_token,
              at_lock env github_api_url sign_all an_app
                  (repository (codes "o/r"))
                  repo_scope
                  (create env github_api_url sign_all an_app
                    (repository (codes "o/r"))
                    repo_scope
                    start).1,
            )
            else mint_installation_token env github_api_url
                (sign_all an_app)
                an_app
                (key env github_api_url sign_all an_app (repository (codes "o/r")) repo_scope)
                (at_lock env github_api_url sign_all an_app
                  (repository (codes "o/r"))
                  repo_scope
                  (create env github_api_url sign_all an_app
                    (repository (codes "o/r"))
                    repo_scope
                    start).1)))
create_installation_token_again_example =
    create_installation_token_again env github_api_url sign_all an_app (repository (codes "o/r"))
      repo_scope (alone sign_all) no_slash start (start-IsSound sign_all) a_token a_target_minted
      refl
