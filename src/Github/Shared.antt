-- ===== src/Github/Shared.antt =====
-- src/github.rs: the state that all requests share, its caches under one lock, and the network. The
-- lock is released between a lookup and an insertion, so whatever the other requests do meanwhile
-- is the parameter `others`, applied wherever the code awaits.
use idcat.Common.{
  ℕ, ◌+◌, Bool, Option, none, some, List, ◌∷◌, ◌++◌, Text, text_eq, lookup, insert, Result, ok, err,
  ltb, if◌then◌else◌,
}
use idcat.Common.Exec.{Exec, pure, ◌>>=◌}
use idcat.Jwt.{Encoding}
use idcat.Github.{
  InstallationTarget, target_cache_key, InstallationTokenCacheKey, key_eq,
  InstallationTokenResponse, GithubCache, CreateInstallationTokenRequest,
  installation_token_cache_ttl,
}

-- Each request of the client's own has the header `Authorization: Bearer {jwt}`. That for a token has also the header
-- `X-GitHub-Stateless-S2S-Token: enabled`, and the body as JSON. A request
-- that is sent on for a caller is recorded by its method, its address and its body.
pub data ApiRequest : Type 0 where
  get : (url jwt : Text) → ApiRequest
  post_token : (url jwt : Text) → CreateInstallationTokenRequest → ApiRequest
  forward : (method url : Text) → (body : List ℕ) → ApiRequest

pub record ApiResponse : Type 0 where
  pub status : ℕ
  pub body : List ℕ

-- A request and its answer; there is none where the connection failed.
pub record Exchange : Type 0 where
  pub request : ApiRequest
  pub response : Option ApiResponse

pub record Shared : Type 0 where
  pub cache : GithubCache
  -- what was sent and answered, the latest first
  pub log : List Exchange
  -- how often the clock was read
  pub readings : ℕ

pub record Env : Type 0 where
  -- GitHub's answer, given all that went before
  pub respond : List Exchange → ApiRequest → Option ApiResponse
  -- the instant of each reading of `Instant::now()`
  pub clock : ℕ → ℕ
  -- the system time in seconds, or why there is none
  pub system_time : List Exchange → Result Text ℕ
  -- what the other requests do to the shared state while this one waits
  pub others : Shared → Shared
  -- `error_for_status` fails
  pub is_error_status : ℕ → Bool
  -- `response.json()`, of an installation (its id) and of a token
  pub parse_installation : List ℕ → Option ℕ
  pub parse_token : List ℕ → Option InstallationTokenResponse
  pub encoding : Encoding

-- `GithubCache`, as `cached_installation_token` reads it at an instant
unfoldable pub find_token :
    GithubCache → InstallationTokenCacheKey → ℕ → Option InstallationTokenResponse
find_token cache key now = elim (lookup key cache.installation_tokens) [
  | none ↦ none
  | some cached ↦ if ltb now cached.refresh_after then some cached.token else none
]

unfoldable pub store_token :
    GithubCache → InstallationTokenCacheKey → InstallationTokenResponse → ℕ → GithubCache
store_token cache key token refresh_after = record cache {
  installation_tokens =
      insert key (record { token = token; refresh_after = refresh_after })
        cache.installation_tokens;
}

-- `format!("{github_app_name}/{}", target.cache_key())`
unfoldable pub id_cache_key : Text → InstallationTarget → Text
id_cache_key github_app target = github_app ++ b'/' ∷ target_cache_key target

unfoldable pub find_id : GithubCache → Text → Option ℕ
find_id cache key = lookup key cache.installation_ids

unfoldable pub store_id : GithubCache → Text → ℕ → GithubCache
store_id cache key id = record cache { installation_ids = insert key id cache.installation_ids }

module _ (E : Env) where
  -- `Instant::now()`
  unfoldable pub read_clock : Exec Shared Text ℕ
  read_clock s = (ok (E.clock s.readings), record s { readings = s.readings + 1 })

  -- `self.cache.lock().await`: the cache as it is once the lock is held
  unfoldable pub lock : Exec Shared Text GithubCache
  lock s = let s' = E.others s in (ok s'.cache, s')

  unfoldable pub put_cache : GithubCache → Exec Shared Text (Unit {0})
  put_cache cache s = (ok tt, record s { cache = cache })

  unfoldable pub respond_with : Option ApiResponse → Text → Result Text ApiResponse
  respond_with none context = err context
  respond_with (some response) context = ok response

  -- `request.send().await.with_context(context)`
  unfoldable pub send : ApiRequest → Text → Exec Shared Text ApiResponse
  unfolding respond_with
  send request context s =
      let s' = E.others s in
      let response = E.respond s'.log request in
      (
        respond_with response context,
        record s' { log = record { request = request; response = response } ∷ s'.log },
      )

  -- `cached_installation_token`
  unfoldable pub cached_installation_token :
      InstallationTokenCacheKey → Exec Shared Text (Option InstallationTokenResponse)
  unfolding read_clock lock find_token
  cached_installation_token key = do now ← read_clock; cache ← lock; pure (find_token cache key now)

  -- `cache_installation_token`
  unfoldable pub cache_installation_token :
      InstallationTokenCacheKey → InstallationTokenResponse → Exec Shared Text (Unit {0})
  unfolding read_clock lock put_cache store_token
  cache_installation_token key token = do
    now ← read_clock
    cache ← lock
    put_cache (store_token cache key token (now + installation_token_cache_ttl))
