-- ===== src/Github/Swap.antt =====
-- src/github.rs: what the caches stand for does not depend on what the other requests do.
use idcat.Common.{ℕ, inl, inr, Option, List, Text, text_eq, All-map}
use idcat.Config.{GithubAppConfig}
use idcat.Github.{
  InstallationTarget, repository, owner, InstallationTokenCacheKey, InstallationTokenResponse,
  CachedInstallationToken,
}
use idcat.Github.Shared.{Exchange, Shared, Env}
use idcat.Github.Client.{repository_url, path_url, org_path, user_path, access_tokens_url}
use idcat.Github.Sound.{Speaks, Found, NotFound, Resolved, Minted, IsIdEntry, IsTokenEntry, IsSound}

-- The world in which the other requests do this.
abbrev pub amid : Env → (Shared → Shared) → Env
amid E others = record E { others = others }

module _ (E : Env) (o o' : Shared → Shared) (api_url : Text)
    (sign_of : GithubAppConfig → Text → Option (List ℕ)) where
  Speaks-swap :
      (app jwt : Text)
      → Speaks (amid E o) api_url sign_of app jwt
      → Speaks (amid E o') api_url sign_of app jwt
  Speaks-swap app jwt h = record {
    config = h.config;
    named = h.named;
    seconds = h.seconds;
    made = h.made;
  }

  Found-swap :
      (log : List Exchange) (app url : Text) (id : ℕ)
      → Found (amid E o) api_url sign_of log app url id
      → Found (amid E o') api_url sign_of log app url id
  Found-swap log app url id h = record {
    jwt = h.jwt;
    speaks = Speaks-swap app h.jwt h.speaks;
    response = h.response;
    answered = h.answered;
    succeeded = h.succeeded;
    parsed = h.parsed;
  }

  NotFound-swap :
      (log : List Exchange) (app url : Text)
      → NotFound (amid E o) api_url sign_of log app url
      → NotFound (amid E o') api_url sign_of log app url
  NotFound-swap log app url h = record {
    jwt = h.jwt;
    speaks = Speaks-swap app h.jwt h.speaks;
    response = h.response;
    answered = h.answered;
    missing = h.missing;
  }

  Resolved-swap :
      (log : List Exchange) (app : Text) (target : InstallationTarget) (id : ℕ)
      → Resolved (amid E o) api_url sign_of log app target id
      → Resolved (amid E o') api_url sign_of log app target id
  unfolding repository_url path_url org_path user_path
  Resolved-swap log app (repository repo) id (parts, cut, f) =
      (parts, cut, Found-swap log app _ id f)
  Resolved-swap log app (owner name) id (inl f) = inl (Found-swap log app _ id f)
  Resolved-swap log app (owner name) id (inr (n, f)) =
      inr (NotFound-swap log app _ n, Found-swap log app _ id f)

  Minted-swap :
      (log : List Exchange) (key : InstallationTokenCacheKey) (token : InstallationTokenResponse)
      → Minted (amid E o) api_url sign_of log key token
      → Minted (amid E o') api_url sign_of log key token
  unfolding access_tokens_url
  Minted-swap log key token m = record {
    request = m.request;
    built = m.built;
    id = m.id;
    resolved = Resolved-swap log key.github_app key.target m.id m.resolved;
    jwt = m.jwt;
    speaks = Speaks-swap key.github_app m.jwt m.speaks;
    response = m.response;
    answered = m.answered;
    succeeded = m.succeeded;
    parsed = m.parsed;
  }

  IsIdEntry-swap :
      (log : List Exchange) (entry : Text × ℕ)
      → IsIdEntry (amid E o) api_url sign_of log entry
      → IsIdEntry (amid E o') api_url sign_of log entry
  IsIdEntry-swap log entry h = record {
    app = h.app;
    no_slash = h.no_slash;
    target = h.target;
    keyed = h.keyed;
    resolved = Resolved-swap log h.app h.target entry.1 h.resolved;
  }

  IsTokenEntry-swap :
      (s : Shared) (entry : InstallationTokenCacheKey × CachedInstallationToken)
      → IsTokenEntry (amid E o) api_url sign_of s entry
      → IsTokenEntry (amid E o') api_url sign_of s entry
  IsTokenEntry-swap s entry h = record {
    minted = Minted-swap s.log entry.0 entry.1.token h.minted;
    reading = h.reading;
    read = h.read;
    expires = h.expires;
  }

  pub IsSound-swap :
      (s : Shared) → IsSound (amid E o) api_url sign_of s → IsSound (amid E o') api_url sign_of s
  IsSound-swap s h = record {
    ids = All-map s.cache.installation_ids (IsIdEntry-swap s.log) h.ids;
    tokens = All-map s.cache.installation_tokens (IsTokenEntry-swap s) h.tokens;
  }
