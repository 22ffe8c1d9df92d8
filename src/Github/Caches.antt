-- ===== src/Github/Caches.antt =====
-- src/github.rs: the token cache, read after it is written.
use idcat.Common.{ℕ, ◌≡◌, if◌then◌else◌, none, some, lookup-insert, arith, ltb, ◌==◌}
use idcat.Github.{InstallationTokenCacheKey, key_eq, InstallationTokenResponse, GithubCache}
use idcat.Github.Shared.{find_token, store_token}

-- After a token is stored, its key finds it before the end of its time and nothing afterwards;
-- every other key finds what it found before.
pub find_token-store_token :
    (cache : GithubCache) (key other : InstallationTokenCacheKey)
    (token : InstallationTokenResponse) (refresh_after now : ℕ)
    → find_token (store_token cache key token refresh_after) other now ≡ (
        if key == other
        then (if ltb now refresh_after then some token else none)
        else find_token cache other now)
unfolding find_token store_token
find_token-store_token cache key other token refresh_after now = ground (
  arith,
  lookup-insert other key (record { token = token; refresh_after = refresh_after })
      cache.installation_tokens,
)
