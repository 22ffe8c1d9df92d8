-- ===== src/Github/Again.antt =====
-- src/github.rs: `create_installation_token` twice, for one key.
use idcat.Common.{
  ℕ, ◌+◌, ◌<◌, ◌≡◌, Bool, true, false, if◌then◌else◌, ltb, Option, some, none, List, Text, Result,
  ok, Free, text_eq, lookup, refl, ◌∙◌, arith,
}
use idcat.Config.{GithubAppConfig}
use idcat.Service.{TokenScope}
use idcat.Github.{
  InstallationTarget, InstallationTokenCacheKey, InstallationTokenResponse, GithubCache, key_eq,
  installation_token_cache_ttl,
}
use idcat.Github.Shared.{Shared, Env, find_token, read_clock, lock, cached_installation_token}
use idcat.Github.Client.{or_mint, mint_installation_token, create_installation_token}
use idcat.Github.Sound.{IsSound}
use idcat.Github.Rules.{IsRely}
use idcat.Github.Issue.{create_installation_token_issued}

find_token_kept :
    (cache : GithubCache) (key : InstallationTokenCacheKey) (token : InstallationTokenResponse)
    (ends now : ℕ)
    → lookup key cache.installation_tokens ≡ some (record { token = token; refresh_after = ends })
    → find_token cache key now ≡ (if ltb now ends then some token else none)
unfolding find_token
find_token_kept cache key token ends now held = ground arith

module _ (E : Env) (api_url : Text) (sign_of : GithubAppConfig → Text → Option (List ℕ))
    (app : GithubAppConfig) (target : InstallationTarget) (scope : TokenScope) where
  abbrev pub key : InstallationTokenCacheKey
  key = record { github_app = app.name; target = target; scope = scope }

  abbrev pub create : Shared → Result Text InstallationTokenResponse × Shared
  create = create_installation_token E api_url (sign_of app) app target scope

  -- The shared state when a request that starts in `t` has looked at the clock and has the lock.
  abbrev pub at_lock : Shared → Shared
  at_lock t = E.others (record t { readings = t.readings + 1 })

  create_with :
      (t : Shared) (found : Option InstallationTokenResponse)
      → find_token (at_lock t).cache key (E.clock t.readings) ≡ found
      → create t ≡ or_mint E api_url (sign_of app) app key found (at_lock t)
  unfolding create_installation_token cached_installation_token read_clock lock
  create_with t found e = rw e refl

  or_mint_if :
      (fresh : Bool) (token : InstallationTokenResponse) (u : Shared)
      → or_mint E api_url (sign_of app) app key (if fresh then some token else none) u ≡ (
          if fresh
          then (ok token, u)
          else mint_installation_token E api_url (sign_of app) app key u)
  unfolding or_mint
  or_mint_if true token u = refl
  or_mint_if false token u = refl

  -- A request gets a token, and when the next one for the same app, target and scope has the lock, the
  -- cache still has under its key what it had at the end of the first. Then there is an earlier reading
  -- of the clock such that the next request gets the same token and does no more, so sends nothing, if
  -- its own reading comes before that one and the time for which a token is kept; and else it makes a
  -- new token. The conditions: the app has no slash in its name, the caches were sound before the first
  -- request, and the other requests keep them sound.
  pub create_installation_token_again :
      (rely : IsRely E api_url sign_of) (plain : Free b'/' app.name) (s : Shared)
      (sound : IsSound E api_url sign_of s) (token : InstallationTokenResponse)
      (first : (create s).0 ≡ ok token)
      (kept : lookup key (at_lock (create s).1).cache.installation_tokens
        ≡ lookup key (create s).1.cache.installation_tokens)
      → (stored : ℕ) × (stored < (create s).1.readings)
        × (create (create s).1 ≡ (
            if ltb (E.clock (create s).1.readings) (E.clock stored + installation_token_cache_ttl)
            then (ok token, at_lock (create s).1)
            else mint_installation_token E api_url (sign_of app) app key (at_lock (create s).1)))
  create_installation_token_again rely plain s sound token first kept =
      let held =
        (create_installation_token_issued E api_url sign_of rely app plain target scope s sound
          token first).1 in
      let ends = E.clock held.stored + installation_token_cache_ttl in
      let now = E.clock (create s).1.readings in
      (
        held.stored,
        held.stored_read,
        create_with (create s).1 (if ltb now ends then some token else none)
              (find_token_kept (at_lock (create s).1).cache key token ends now (kept ∙ held.held))
            ∙ or_mint_if (ltb now ends) token (at_lock (create s).1),
      )
