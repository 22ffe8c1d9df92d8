-- ===== src/Github/Minting.antt =====
-- src/github.rs: what is known after each step of `create_installation_token`.
use idcat.Common.{ℕ, ◌≤◌, ◌≡◌, Option, none, some, List, Text, ok, arith, sym, ap, text_eq, Free}
use idcat.Config.{GithubAppConfig}
use idcat.Service.{TokenScope}
use idcat.Github.{
  InstallationTarget, InstallationTokenCacheKey, InstallationTokenResponse, key_eq,
  build_create_installation_token_request, CreateInstallationTokenRequest,
}
use idcat.Github.Shared.{
  post_token, ApiResponse, Shared, Env, find_token, read_clock, cached_installation_token,
  cache_installation_token,
}
use idcat.Github.Answers.{read_token}
use idcat.Github.Client.{
  access_tokens_url, mint_installation_token, or_mint, create_installation_token,
}
use idcat.Github.Sound.{Answered, Speaks, Resolved, Minted, IsSound}
use idcat.Github.Rules.{
  IsRely, IsStable, Triple, Triple-bind, Triple-bind-lift, Triple-pure, Triple-read, Triple-frame,
  Triple-assume, Triple-strengthen,
}
use idcat.Github.Steps.{Triple-lock, Triple-put, Triple-clock, Triple-send}
use idcat.Github.CachedIds.{cached_installation_id_found, Resolved-stable}
use idcat.Github.Tokens.{
  Issued, Reading, Reading-stable, since_stable, find_token_held, store_token_issued, Minted-stable,
  made, read_token_parsed,
}

module _ (E : Env) (api_url : Text) (sign_of : GithubAppConfig → Text → Option (List ℕ)) where
  IsAnswer : ℕ → InstallationTokenCacheKey → Shared → Option InstallationTokenResponse → Type 0
  IsAnswer from key s none = from ≤ s.readings
  IsAnswer from key s (some token) = Issued E api_url sign_of from s key token

  IsAnswer-of :
      (s : Shared) (from : ℕ) (key : InstallationTokenCacheKey) (now : ℕ)
      (r : Option InstallationTokenResponse)
      → IsSound E api_url sign_of s
      → Reading E api_url sign_of from s now
      → find_token s.cache key now ≡ r
      → IsAnswer from key s r
  unfolding IsAnswer Reading
  IsAnswer-of s from key now none sound (n, since, read, e) hit = omega arith
  IsAnswer-of s from key now (some token) sound reading hit =
      find_token_held E api_url sign_of s from key now token sound reading hit

  module _ (rely : IsRely E api_url sign_of) (from : ℕ) where
    Reading-Minted-stable :
        (now : ℕ) (key : InstallationTokenCacheKey) (token : InstallationTokenResponse)
        → IsStable E api_url sign_of
            (λ s. Reading E api_url sign_of from s now × Minted E api_url sign_of s.log key token)
    Reading-Minted-stable now key token s t g h = (
      Reading-stable E api_url sign_of from now s t g h.0,
      Minted-stable E api_url sign_of key token s t g h.1,
    )

    clock_read :
        Triple E api_url sign_of
          (λ s. from ≤ s.readings)
          (read_clock E)
          (λ s now. Reading E api_url sign_of from s now)
    unfolding read_clock Reading
    clock_read = record {
      at = λ s h p.
          let post =
            (Triple-clock E api_url sign_of rely (since_stable E api_url sign_of from)).at s h p in
          record {
            sound = post.sound;
            grows = post.grows;
            result = λ now e. (s.readings, p, omega arith, ground arith);
          };
    }

    cached_installation_token_found :
        (key : InstallationTokenCacheKey)
        → Triple E api_url sign_of
            (λ s. from ≤ s.readings)
            (cached_installation_token E key)
            (IsAnswer from key)
    unfolding cached_installation_token
    cached_installation_token_found key = Triple-bind E api_url sign_of _ _ clock_read λ now.
        Triple-bind E api_url sign_of _ _
          (Triple-lock E api_url sign_of rely (Reading-stable E api_url sign_of from now))
          λ cache. Triple-pure E api_url sign_of _ λ s sound h.
            IsAnswer-of s from key now _ sound h.1 (ap (λ c. find_token c key now) (sym h.0))

    cache_installation_token_held :
        (key : InstallationTokenCacheKey) (token : InstallationTokenResponse)
        → Triple E api_url sign_of
            (λ s. (from ≤ s.readings) × Minted E api_url sign_of s.log key token)
            (cache_installation_token E key token)
            (λ s _. Issued E api_url sign_of from s key token)
    unfolding cache_installation_token
    cache_installation_token_held key token =
        Triple-bind E api_url sign_of _ _
          (Triple-frame E api_url sign_of (Minted-stable E api_url sign_of key token) clock_read)
          λ now.
            Triple-bind E api_url sign_of _ _
              (Triple-lock E api_url sign_of rely (Reading-Minted-stable now key token))
              λ cache.
                Triple-put E api_url sign_of {Q = λ s _. Issued E api_url sign_of from s key token}
                  _
                  (λ s sound h.
                    store_token_issued E api_url sign_of s from cache key token now sound h.0 h.1.0
                      h.1.1)

    module _ (app : GithubAppConfig) (plain : Free b'/' app.name) (target : InstallationTarget)
        (scope : TokenScope) where
      abbrev pub the_key : InstallationTokenCacheKey
      the_key = record { github_app = app.name; target = target; scope = scope }

      -- What is known once the request for a token was answered.
      request-Minted :
          (jwt : Text) (id : ℕ) (request : CreateInstallationTokenRequest) (response : ApiResponse)
          (token : InstallationTokenResponse) (s : Shared)
          → Speaks E api_url sign_of app.name jwt
          → Resolved E api_url sign_of s.log app.name target id
          → build_create_installation_token_request scope target ≡ ok request
          → Answered s.log (post_token (access_tokens_url E api_url id) jwt request) response
          → read_token E app.name target response ≡ ok token
          → Minted E api_url sign_of s.log the_key token
      request-Minted jwt id request response token s speaks resolved built answered e =
          let (fine, parsed) =
            read_token_parsed E api_url sign_of app.name target response token e in
          record {
            request = request;
            built = built;
            id = id;
            resolved = resolved;
            jwt = jwt;
            speaks = speaks;
            response = response;
            answered = answered;
            succeeded = fine;
            parsed = parsed;
          }

      IsKnown : Text → ℕ → Shared → Type 0
      IsKnown jwt id s = Resolved E api_url sign_of s.log app.name target id × (from ≤ s.readings)

      IsKnown-stable : (jwt : Text) (id : ℕ) → IsStable E api_url sign_of (IsKnown jwt id)
      unfolding IsKnown
      IsKnown-stable jwt id s t g h = (
        Resolved-stable E api_url sign_of app.name target id s t g h.0,
        since_stable E api_url sign_of from s t g h.1,
      )

      mint_found :
          Triple E api_url sign_of
            (λ s. from ≤ s.readings)
            (mint_installation_token E api_url (sign_of app) app the_key)
            (λ s token. Issued E api_url sign_of from s the_key token)
      unfolding mint_installation_token IsKnown
      mint_found =
          Triple-bind E api_url sign_of _ _
            (Triple-read E api_url sign_of
              {Q = λ s jwt.
                Speaks E api_url sign_of app.name jwt × (Unit {0} × (from ≤ s.readings))}
              _ (λ s jwt e h. (made E api_url sign_of app (E.system_time s.log) jwt e, (tt, h))))
            λ jwt. Triple-assume E api_url sign_of λ speaks.
              Triple-bind E api_url sign_of _ _
                (Triple-frame E api_url sign_of (since_stable E api_url sign_of from) (
                  cached_installation_id_found E api_url sign_of rely app.name jwt speaks plain
                    target))
                λ id. Triple-bind-lift E api_url sign_of _ _ λ request built.
                  Triple-bind E api_url sign_of _ _
                    (Triple-send E api_url sign_of rely (IsKnown-stable jwt id) _ _)
                    λ response. Triple-bind-lift E api_url sign_of _ _ λ token e.
                      Triple-bind E api_url sign_of _ _
                        (Triple-strengthen E api_url sign_of
                          (cache_installation_token_held the_key token)
                          (λ s h. (
                            h.1.1,
                            request-Minted jwt id request response token s speaks h.1.0 built h.0 e,
                          )))
                        λ _. Triple-pure E api_url sign_of token (λ s _ h. h)

      or_mint_found :
          (r : Option InstallationTokenResponse)
          → Triple E api_url sign_of
              (λ s. IsAnswer from the_key s r)
              (or_mint E api_url (sign_of app) app the_key r)
              (λ s token. Issued E api_url sign_of from s the_key token)
      unfolding or_mint IsAnswer
      or_mint_found none = mint_found
      or_mint_found (some token) = Triple-pure E api_url sign_of token (λ s _ h. h)

      pub token_found :
          Triple E api_url sign_of
            (λ s. from ≤ s.readings)
            (create_installation_token E api_url (sign_of app) app target scope)
            (λ s token. Issued E api_url sign_of from s the_key token)
      unfolding create_installation_token
      token_found =
          Triple-bind E api_url sign_of _ _ (cached_installation_token_found the_key) or_mint_found
