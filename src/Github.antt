-- ===== src/Github.antt =====
-- src/github.rs: what a token request aims at, the caches of the client, and the requests that it
-- sends. The children are its operations.
pub mod Shared
pub mod Answers
pub mod Client
pub mod New
pub mod Sound
pub mod Swap
pub mod Keys
pub mod Rules
pub mod Steps
pub mod Lookups
pub mod CachedIds
pub mod Tokens
pub mod Minting
pub mod Issue
pub mod Again
pub mod Requests
pub mod Caches
pub mod View
pub mod Proxy
use idcat.Common.{
  ℕ, ◌*◌, not, if◌then◌else◌, Option, none, some, List, [], ◌∷◌, ◌++◌, Text, text_eq, text_dec,
  codes, Eq, Map, Result, ok, err, ◌>>=◌, is_nil, split_once,
}
use idcat.Service.{RepoScope, only_requested, all, TokenScope}

-- `INSTALLATION_TOKEN_CACHE_TTL`, in nanoseconds, the unit of the model's instants
abbrev pub installation_token_cache_ttl : ℕ
installation_token_cache_ttl = 50 * 60 * 1_000_000_000

pub data InstallationTarget : Type 0 where
  repository : Text → InstallationTarget
  owner : Text → InstallationTarget

-- `InstallationTarget::cache_key`
unfoldable pub target_cache_key : InstallationTarget → Text
target_cache_key (repository repo) = codes "repo:" ++ repo
target_cache_key (owner name) = codes "owner:" ++ name

-- `Display`
unfoldable pub display_target : InstallationTarget → Text
display_target (repository repo) = codes "repository '" ++ (repo ++ codes "'")
display_target (owner name) = codes "owner '" ++ (name ++ codes "'")

pub record InstallationTokenCacheKey : Type 0 where
  pub github_app : Text
  pub target : InstallationTarget
  pub scope : TokenScope

pub record InstallationTokenResponse : Type 0 where
  pub token : Text
  pub expires_at : Text
  pub permissions : Map Text Text
  pub repository_selection : Option Text

pub record CachedInstallationToken : Type 0 where
  pub token : InstallationTokenResponse
  pub refresh_after : ℕ

pub record GithubCache : Type 0 where
  pub installation_ids : Map Text ℕ
  pub installation_tokens : Map InstallationTokenCacheKey CachedInstallationToken

pub record CreateInstallationTokenRequest : Type 0 where
  pub repositories : Option (List Text)
  pub permissions : Option (Map Text Text)

unfoldable pub key_dec : Discrete InstallationTokenCacheKey
key_dec = hlevel text_dec

instance abbrev pub key_eq : Eq InstallationTokenCacheKey
key_eq = record { dec = key_dec }

-- `match (scope.repositories, target)`
requested_repositories : RepoScope → InstallationTarget → Result Text (Option (List Text))
requested_repositories all target = ok none
requested_repositories only_requested (repository repo) = elim (split_once repo b'/') [
  | none ↦ ok (some (repo ∷ []))
  | some (_, name) ↦ ok (some (name ∷ []))
]
requested_repositories only_requested (owner name) = err (
    codes "cannot mint a repository-scoped token for owner '"
    ++ (name ++ codes "': no repository was requested"))

unfoldable pub build_create_installation_token_request :
    TokenScope → InstallationTarget → Result Text CreateInstallationTokenRequest
unfolding requested_repositories
build_create_installation_token_request scope target = do
  repositories ← requested_repositories scope.repositories target
  ok (record {
    repositories = repositories;
    permissions = if not (is_nil scope.permissions) then some scope.permissions else none;
  })
