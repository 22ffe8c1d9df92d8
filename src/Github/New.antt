-- ===== src/Github/New.antt =====
-- src/github.rs, `GithubClient::new`: the headers that every request of the client has, and its caches
-- at the start. reqwest's builder is a parameter.
use idcat.Common.{[], Text, codes, Result, ok, ◌>>=◌, map_err}
use idcat.Http.{HeaderMaps}
use idcat.Github.{GithubCache}
use idcat.Github.Client.{github_api_url}

-- `GithubCache::default()`
abbrev pub default_cache : GithubCache
default_cache = record { installation_ids = []; installation_tokens = [] }

-- `GITHUB_API_VERSION_HEADER` and `GITHUB_API_VERSION`, the header's name in lower case as `http` keeps
-- it
abbrev pub github_api_version_header : Text
github_api_version_header = codes "x-github-api-version"

abbrev pub github_api_version : Text
github_api_version = codes "2022-11-28"

module _ (H : HeaderMaps) where
  pub record Reqwest : Type 1 where
    pub Client : Type 0
    -- `HeaderValue::from_static`
    pub from_static : Text → H.HeaderValue
    -- a builder with these default headers
    pub build : H.HeaderMap → Result Text Client

  pub record GithubClient (R : Reqwest) : Type 0 where
    pub client : R.Client
    pub api_url : Text
    pub cache : GithubCache

  unfoldable pub default_headers : Reqwest → H.HeaderMap
  default_headers R =
      H.insert
        (H.insert (H.insert H.empty (codes "user-agent") (R.from_static (codes "idcat")))
          (codes "accept") (R.from_static (codes "application/vnd.github+json")))
        github_api_version_header (R.from_static github_api_version)

  unfoldable pub new_client : (R : Reqwest) → Result Text (GithubClient R)
  unfolding default_headers
  new_client R = do
    client ← map_err (λ e. codes "failed to build GitHub API client") (R.build (default_headers R))
    ok (record { client = client; api_url = github_api_url; cache = default_cache })
