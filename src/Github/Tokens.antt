-- ===== src/Github/Tokens.antt =====
-- src/github.rs: what is known of a token that comes from the cache, that was just put there, or that
-- GitHub's answer holds.
use idcat.Common.{
  ℕ, ◌+◌, ◌≤◌, ◌<◌, ◌≡◌, false, [], Option, some, List, Text, Result, ok, err, arith, subst, sym,
  refl, ap, ◌∙◌, text_eq, All, All-map, lookup, lookup_All, insert_All, lookup-insert_self,
  Option-cases, inl, inr,
}
use idcat.Config.{GithubAppConfig}
use idcat.Jwt.{build_github_app_jwt}
use idcat.Github.{
  InstallationTarget, InstallationTokenCacheKey, InstallationTokenResponse, CachedInstallationToken,
  GithubCache, key_eq, installation_token_cache_ttl,
}
use idcat.Github.Shared.{ApiResponse, Shared, Env, find_token, store_token}
use idcat.Github.Answers.{error_for_status, read_token}
use idcat.Github.Sound.{
  Grows, Speaks, Minted, Minted-Grows, IsIdEntry, IsTokenEntry, IsTokenEntry-Grows, IsSound,
}
use idcat.Github.Rules.{IsStable}

module _ (E : Env) (api_url : Text) (sign_of : GithubAppConfig → Text → Option (List ℕ)) where
  -- The cache holds the token under the key, and a reading of the clock, the `from`-th or a later
  -- one, came before the end of the time for which a token is kept.
  pub record Held (from : ℕ) (s : Shared) (key : InstallationTokenCacheKey)
      (token : InstallationTokenResponse) : Type 0 where
    pub stored : ℕ
    pub stored_read : stored < s.readings
    pub held :
        lookup key s.cache.installation_tokens
        ≡ some (record {
          token = token;
          refresh_after = E.clock stored + installation_token_cache_ttl;
        })
    pub now : ℕ
    pub since : from ≤ now
    pub now_read : now < s.readings
    pub fresh : E.clock now < E.clock stored + installation_token_cache_ttl

  -- What a request gets.
  abbrev pub Issued : ℕ → Shared → InstallationTokenCacheKey → InstallationTokenResponse → Type 0
  Issued from s key token = Minted E api_url sign_of s.log key token × Held from s key token

  pub since_stable : (from : ℕ) → IsStable E api_url sign_of (λ s. from ≤ s.readings)
  since_stable from s t g h = let more = g.read in omega arith

  -- A reading of the clock by this request.
  unfoldable pub Reading : ℕ → Shared → ℕ → Type 0
  Reading from s now = (n : ℕ) × (from ≤ n) × (n < s.readings) × (now ≡ E.clock n)

  pub Reading-stable : (from now : ℕ) → IsStable E api_url sign_of (λ s. Reading from s now)
  unfolding Reading
  Reading-stable from now s t g (n, h, h', e) = let more = g.read in (n, h, omega arith, e)

  cached_ext :
      (cached : CachedInstallationToken) (token : InstallationTokenResponse) (ends : ℕ)
      → cached.token ≡ token
      → cached.refresh_after ≡ ends
      → cached ≡ record { token = token; refresh_after = ends }
  cached_ext cached token ends e e' = cc

  pub find_token_held :
      (s : Shared) (from : ℕ) (key : InstallationTokenCacheKey) (now : ℕ)
      (token : InstallationTokenResponse)
      → IsSound E api_url sign_of s
      → Reading from s now
      → find_token s.cache key now ≡ some token
      → Issued from s key token
  unfolding find_token Reading
  find_token_held s from key now token sound (n, since, read, e) hit =
      elim (Option-cases (lookup key s.cache.installation_tokens)) [
        | inl missing ↦ absurd (ground arith)
        | inr (cached, found) ↦
            let entry =
              lookup_All (IsTokenEntry E api_url sign_of s) key cached s.cache.installation_tokens
                sound.tokens found in
            let same : cached.token ≡ token = ground arith in
            let before : now < cached.refresh_after = ground arith in
            let ends = entry.expires in
            (
              subst (λ t. Minted E api_url sign_of s.log key t) same entry.minted,
              record {
                stored = entry.reading;
                stored_read = entry.read;
                held = found ∙ ap (λ c. some c) (cached_ext cached token _ same ends);
                now = n;
                since = since;
                now_read = read;
                fresh = omega arith;
              },
            )
      ]

  store_token-IsSound :
      (s : Shared) (cache : GithubCache) (key : InstallationTokenCacheKey)
      (token : InstallationTokenResponse) (n : ℕ)
      → IsSound E api_url sign_of s
      → cache ≡ s.cache
      → n < s.readings
      → Minted E api_url sign_of s.log key token
      → IsSound E api_url sign_of (record s {
        cache = store_token cache key token (E.clock n + installation_token_cache_ttl);
      })
  unfolding store_token
  store_token-IsSound s cache key token n sound same read m =
      let ids =
        subst (λ c. All (IsIdEntry E api_url sign_of s.log) c.installation_ids) (sym same)
          sound.ids in
      let tokens =
        subst (λ c. All (IsTokenEntry E api_url sign_of s) c.installation_tokens) (sym same)
          sound.tokens in
      let g : Grows s (record s {
        cache = store_token cache key token (E.clock n + installation_token_cache_ttl);
      }) =
        record { since = []; extends = refl; read = omega arith } in
      record {
        ids = ids;
        tokens = All-map _ (IsTokenEntry-Grows E api_url sign_of g) (
            insert_All (IsTokenEntry E api_url sign_of s) key
              (record { token = token; refresh_after = E.clock n + installation_token_cache_ttl })
              cache.installation_tokens
              (record { minted = m; reading = n; read = read; expires = refl }) tokens);
      }

  store_token-Held :
      (s : Shared) (from : ℕ) (cache : GithubCache) (key : InstallationTokenCacheKey)
      (token : InstallationTokenResponse) (n : ℕ)
      → from ≤ n
      → n < s.readings
      → Held from
          (record s {
            cache = store_token cache key token (E.clock n + installation_token_cache_ttl);
          })
          key
          token
  unfolding store_token
  store_token-Held s from cache key token n since read = record {
    stored = n;
    stored_read = read;
    held = lookup-insert_self key _ cache.installation_tokens;
    now = n;
    since = since;
    now_read = read;
    fresh = omega arith;
  }

  -- A JWT that was made is one of the app.
  pub made :
      (app : GithubAppConfig) (now : Result Text ℕ) (jwt : Text)
      → build_github_app_jwt E.encoding app.app_id (sign_of app) now ≡ ok jwt
      → Speaks E api_url sign_of app.name jwt
  unfolding build_github_app_jwt
  made app (ok seconds) jwt e = record { config = app; named = refl; seconds = seconds; made = e }
  made app (err error) jwt e = absurd (cc)

  pub read_token_parsed :
      (app : Text) (target : InstallationTarget) (response : ApiResponse)
      (token : InstallationTokenResponse)
      → read_token E app target response ≡ ok token
      → (E.is_error_status response.status ≡ false) × (E.parse_token response.body ≡ some token)
  unfolding read_token error_for_status
  read_token_parsed app target response token e = (ground arith, ground arith)

  pub store_token_issued :
      (s : Shared) (from : ℕ) (cache : GithubCache) (key : InstallationTokenCacheKey)
      (token : InstallationTokenResponse) (now : ℕ)
      → IsSound E api_url sign_of s
      → cache ≡ s.cache
      → Reading from s now
      → Minted E api_url sign_of s.log key token
      → IsSound E api_url sign_of
          (record s { cache = store_token cache key token (now + installation_token_cache_ttl) })
        × Issued from
            (record s { cache = store_token cache key token (now + installation_token_cache_ttl) })
            key
            token
  unfolding Reading
  store_token_issued s from cache key token now sound same (n, since, read, e) m =
      subst
        (λ x.
          IsSound E api_url sign_of
            (record s { cache = store_token cache key token (x + installation_token_cache_ttl) })
          × Issued from
              (record s { cache = store_token cache key token (x + installation_token_cache_ttl) })
              key token)
        (sym e)
        (
          store_token-IsSound s cache key token n sound same read m,
          (m, store_token-Held s from cache key token n since read),
        )

  pub Minted-stable :
      (key : InstallationTokenCacheKey) (token : InstallationTokenResponse)
      → IsStable E api_url sign_of (λ s. Minted E api_url sign_of s.log key token)
  Minted-stable key token s t g m = Minted-Grows E api_url sign_of g key token m
