-- ===== src/Github/Client.antt =====
-- src/github.rs: how the client finds an installation and makes a token for it.
use idcat.Common.{
  ℕ, Option, none, some, List, ◌++◌, Text, text_eq, nat_eq, codes, ok_or, split_once, to_decimal,
}
use idcat.Common.Exec.{Exec, pure, lift, ◌>>=◌, ◌>>◌}
use idcat.Config.{GithubAppConfig}
use idcat.Service.{TokenScope}
use idcat.Github.Answers.{quoted, about, read_repository, read_lookup, read_token}
use idcat.Jwt.{build_github_app_jwt}
use idcat.Github.{
  InstallationTarget, repository, owner, InstallationTokenCacheKey, InstallationTokenResponse,
  build_create_installation_token_request,
}
use idcat.Github.Shared.{
  get, post_token, Shared, Env, send, lock, put_cache, id_cache_key, find_id, store_id,
  cached_installation_token, cache_installation_token,
}

-- `GITHUB_API_URL`
abbrev pub github_api_url : Text
github_api_url = codes "https://api.github.com"

module _ (E : Env) (api_url : Text) where
  unfoldable pub repository_url : Text → Text → Text
  repository_url owner_name repo_name =
      api_url
      ++ (codes "/repos/" ++ (owner_name ++ (codes "/" ++ (repo_name ++ codes "/installation"))))

  unfoldable pub path_url : Text → Text
  path_url path = api_url ++ (codes "/" ++ path)

  unfoldable pub access_tokens_url : ℕ → Text
  access_tokens_url id =
      api_url ++ (codes "/app/installations/" ++ (to_decimal id ++ codes "/access_tokens"))

  unfoldable pub lookup_repository : Text → Text → Text × Text → Exec Shared Text ℕ
  lookup_repository jwt repo (owner_name, repo_name) = do
    response ←
        send E (get (repository_url owner_name repo_name) jwt)
          (codes "failed to resolve GitHub App installation for " ++ quoted repo)
    lift (read_repository E repo response)

  unfoldable pub repository_installation_id : Text → Text → Exec Shared Text ℕ
  unfolding lookup_repository
  repository_installation_id jwt repo = do
    parts ← lift (
        ok_or (split_once repo b'/')
          (codes "repo " ++ (quoted repo ++ codes " must use owner/repo format")))
    lookup_repository jwt repo parts

  unfoldable pub installation_id_from_path : Text → Text → Exec Shared Text (Option ℕ)
  installation_id_from_path jwt path = do
    response ←
        send E (get (path_url path) jwt)
          (codes "failed to resolve GitHub App installation via " ++ quoted path)
    lift (read_lookup E path response)

  unfoldable pub org_path : Text → Text
  org_path name = codes "orgs/" ++ (name ++ codes "/installation")

  unfoldable pub user_path : Text → Text
  user_path name = codes "users/" ++ (name ++ codes "/installation")

  -- the second half of `owner_installation_id`, given what the organization gave
  unfoldable pub or_user_installation : Text → Text → Option ℕ → Exec Shared Text ℕ
  or_user_installation jwt name (some id) = pure id
  or_user_installation jwt name none = do
    found ← installation_id_from_path jwt (user_path name)
    lift (
        ok_or found (
          codes "no GitHub App installation found for owner "
          ++ (quoted name ++ codes " as an organization or a user")))

  unfoldable pub owner_installation_id : Text → Text → Exec Shared Text ℕ
  unfolding or_user_installation
  owner_installation_id jwt name = do
    found ← installation_id_from_path jwt (org_path name)
    or_user_installation jwt name found

  unfoldable pub installation_id : Text → InstallationTarget → Exec Shared Text ℕ
  installation_id jwt (repository repo) = repository_installation_id jwt repo
  installation_id jwt (owner name) = owner_installation_id jwt name

  -- the second half of `cached_installation_id`, given what the cache had
  unfoldable pub or_lookup_id : Text → Text → InstallationTarget → Option ℕ → Exec Shared Text ℕ
  or_lookup_id jwt cache_key target (some id) = pure id
  or_lookup_id jwt cache_key target none = do
    id ← installation_id jwt target
    cache ← lock E
    put_cache E (store_id cache cache_key id)
    pure id

  unfoldable pub cached_installation_id : Text → Text → InstallationTarget → Exec Shared Text ℕ
  unfolding or_lookup_id
  cached_installation_id jwt github_app_name target = do
    cache ← lock E
    or_lookup_id jwt (id_cache_key github_app_name target) target
        (find_id cache (id_cache_key github_app_name target))

  -- the signer: a signature of a message, if it can sign
  module _ (sign : Text → Option (List ℕ)) where
    -- `create_installation_token` after a miss of the token cache
    unfoldable pub mint_installation_token :
        GithubAppConfig → InstallationTokenCacheKey → Exec Shared Text InstallationTokenResponse
    mint_installation_token app key = do
      jwt ← λ s. (build_github_app_jwt E.encoding app.app_id sign (E.system_time s.log), s)
      id ← cached_installation_id jwt app.name key.target
      request ← lift (build_create_installation_token_request key.scope key.target)
      response ←
          send E (post_token (access_tokens_url id) jwt request)
            (codes "failed to request installation access token for " ++ about key.target app.name)
      token ← lift (read_token E app.name key.target response)
      cache_installation_token E key token
      pure token

    unfoldable pub or_mint :
        GithubAppConfig
        → InstallationTokenCacheKey
        → Option InstallationTokenResponse
        → Exec Shared Text InstallationTokenResponse
    or_mint app key (some token) = pure token
    or_mint app key none = mint_installation_token app key

    unfoldable pub create_installation_token :
        GithubAppConfig
        → InstallationTarget
        → TokenScope
        → Exec Shared Text InstallationTokenResponse
    unfolding or_mint
    create_installation_token app target scope = do
      let key : InstallationTokenCacheKey = record {
        github_app = app.name;
        target = target;
        scope = scope;
      }
      cached ← cached_installation_token E key
      or_mint app key cached
