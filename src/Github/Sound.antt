-- ===== src/Github/Sound.antt =====
-- src/github.rs: what the entries of the two caches stand for, and how the shared state grows.
use mathlib.Core.List.{Memᴰ, append_assoc}
use mathlib.Core.List.Memᴰ
use idcat.Common.{
  ℕ, ◌+◌, ◌≤◌, ◌<◌, ◌≡◌, ◌⊎◌, inl, inr, refl, false, Option, some, List, [], ◌++◌, Text, ok,
  split_once, Free, All, All-map, arith, subst, sym, ◌∙◌, ap,
}
use idcat.Config.{GithubAppConfig}
use idcat.Jwt.{build_github_app_jwt_at}
use idcat.Github.{
  InstallationTarget, repository, owner, InstallationTokenCacheKey, InstallationTokenResponse,
  CachedInstallationToken, CreateInstallationTokenRequest, build_create_installation_token_request,
  installation_token_cache_ttl,
}
use idcat.Github.Shared.{
  ApiRequest, get, post_token, ApiResponse, Exchange, Shared, Env, id_cache_key,
}
use idcat.Github.Client.{repository_url, path_url, org_path, user_path, access_tokens_url}

-- The request was sent, and this was the answer.
abbrev pub Answered : List Exchange → ApiRequest → ApiResponse → Type 0
Answered log request response = Memᴰ (record { request = request; response = some response }) log

-- The log has only got longer, and the clock was only read more often.
pub record Grows (s t : Shared) : Type 0 where
  pub since : List Exchange
  pub extends : t.log ≡ since ++ s.log
  pub read : s.readings ≤ t.readings

pub Grows-refl : (s : Shared) → Grows s s
Grows-refl s = record { since = []; extends = refl; read = omega arith }

pub Grows-trans : {s t u : Shared} → Grows s t → Grows t u → Grows s u
Grows-trans {s} g h = record {
  since = h.since ++ g.since;
  extends = h.extends ∙ ap (λ l. h.since ++ l) g.extends ∙ sym (append_assoc h.since g.since s.log);
  read = omega arith;
}

pub Answered-Grows :
    {s t : Shared} (request : ApiRequest) (response : ApiResponse)
    → Grows s t
    → Answered s.log request response
    → Answered t.log request response
Answered-Grows {s} request response g m =
    subst (λ l. Answered l request response) (sym g.extends) (Memᴰ.append_right g.since m)

module _ (E : Env) (api_url : Text) (sign_of : GithubAppConfig → Text → Option (List ℕ)) where
  -- The JWT is one of the app, made at some time by the app's signer.
  pub record Speaks (app : Text) (jwt : Text) : Type 0 where
    pub config : GithubAppConfig
    pub named : config.name ≡ app
    pub seconds : ℕ
    pub made : build_github_app_jwt_at E.encoding config.app_id (sign_of config) seconds ≡ ok jwt

  -- GitHub answered a lookup that the app made with this installation.
  pub record Found (log : List Exchange) (app url : Text) (id : ℕ) : Type 0 where
    pub jwt : Text
    pub speaks : Speaks app jwt
    pub response : ApiResponse
    pub answered : Answered log (get url jwt) response
    pub succeeded : E.is_error_status response.status ≡ false
    pub parsed : E.parse_installation response.body ≡ some id

  -- GitHub answered a lookup that the app made with 404.
  pub record NotFound (log : List Exchange) (app url : Text) : Type 0 where
    pub jwt : Text
    pub speaks : Speaks app jwt
    pub response : ApiResponse
    pub answered : Answered log (get url jwt) response
    pub missing : response.status ≡ 404

  -- GitHub resolved the target to this installation of the app: a repository through its path; an
  -- owner as an organization, or as a user when there is no such organization.
  abbrev pub Resolved : List Exchange → Text → InstallationTarget → ℕ → Type 0
  Resolved log app (repository repo) id =
      (parts : Text × Text) × (split_once repo b'/' ≡ some parts)
      × Found log app (repository_url E api_url parts.0 parts.1) id
  Resolved log app (owner name) id =
      Found log app (path_url E api_url (org_path E api_url name)) id
      ⊎ (NotFound log app (path_url E api_url (org_path E api_url name))
          × Found log app (path_url E api_url (user_path E api_url name)) id)

  -- GitHub answered a request of the app with this token, and the request was the one for the
  -- key's scope, on the installation to which the key's target was resolved.
  pub record Minted (log : List Exchange) (key : InstallationTokenCacheKey)
      (token : InstallationTokenResponse) : Type 0 where
    pub request : CreateInstallationTokenRequest
    pub built : build_create_installation_token_request key.scope key.target ≡ ok request
    pub id : ℕ
    pub resolved : Resolved log key.github_app key.target id
    pub jwt : Text
    pub speaks : Speaks key.github_app jwt
    pub response : ApiResponse
    pub answered : Answered log (post_token (access_tokens_url E api_url id) jwt request) response
    pub succeeded : E.is_error_status response.status ≡ false
    pub parsed : E.parse_token response.body ≡ some token

  pub record IsIdEntry (log : List Exchange) (entry : Text × ℕ) : Type 0 where
    pub app : Text
    pub no_slash : Free b'/' app
    pub target : InstallationTarget
    pub keyed : entry.0 ≡ id_cache_key app target
    pub resolved : Resolved log app target entry.1

  pub record IsTokenEntry (s : Shared) (entry : InstallationTokenCacheKey × CachedInstallationToken)
      : Type 0 where
    pub minted : Minted s.log entry.0 entry.1.token
    pub reading : ℕ
    pub read : reading < s.readings
    pub expires : entry.1.refresh_after ≡ E.clock reading + installation_token_cache_ttl

  -- The invariant of the shared state.
  pub record IsSound (s : Shared) : Type 0 where
    pub ids : All (IsIdEntry s.log) s.cache.installation_ids
    pub tokens : All (IsTokenEntry s) s.cache.installation_tokens

  module _ {s t : Shared} (g : Grows s t) where
    Found-Grows : (app url : Text) (id : ℕ) → Found s.log app url id → Found t.log app url id
    Found-Grows app url id f = record {
      jwt = f.jwt;
      speaks = f.speaks;
      response = f.response;
      answered = Answered-Grows _ _ g f.answered;
      succeeded = f.succeeded;
      parsed = f.parsed;
    }

    pub NotFound-Grows : (app url : Text) → NotFound s.log app url → NotFound t.log app url
    NotFound-Grows app url f = record {
      jwt = f.jwt;
      speaks = f.speaks;
      response = f.response;
      answered = Answered-Grows _ _ g f.answered;
      missing = f.missing;
    }

    pub Resolved-Grows :
        (app : Text) (target : InstallationTarget) (id : ℕ)
        → Resolved s.log app target id
        → Resolved t.log app target id
    Resolved-Grows app (repository repo) id (parts, cut, f) = (parts, cut, Found-Grows app _ id f)
    Resolved-Grows app (owner name) id (inl f) = inl (Found-Grows app _ id f)
    Resolved-Grows app (owner name) id (inr (n, f)) =
        inr (NotFound-Grows app _ n, Found-Grows app _ id f)

    pub Minted-Grows :
        (key : InstallationTokenCacheKey) (token : InstallationTokenResponse)
        → Minted s.log key token
        → Minted t.log key token
    Minted-Grows key token m = record {
      request = m.request;
      built = m.built;
      id = m.id;
      resolved = Resolved-Grows key.github_app key.target m.id m.resolved;
      jwt = m.jwt;
      speaks = m.speaks;
      response = m.response;
      answered = Answered-Grows _ _ g m.answered;
      succeeded = m.succeeded;
      parsed = m.parsed;
    }

    pub IsIdEntry-Grows : (entry : Text × ℕ) → IsIdEntry s.log entry → IsIdEntry t.log entry
    IsIdEntry-Grows entry h = record {
      app = h.app;
      no_slash = h.no_slash;
      target = h.target;
      keyed = h.keyed;
      resolved = Resolved-Grows h.app h.target entry.1 h.resolved;
    }

    pub IsTokenEntry-Grows :
        (entry : InstallationTokenCacheKey × CachedInstallationToken)
        → IsTokenEntry s entry
        → IsTokenEntry t entry
    IsTokenEntry-Grows entry h = record {
      minted = Minted-Grows entry.0 entry.1.token h.minted;
      reading = h.reading;
      read = omega arith;
      expires = h.expires;
    }

    -- A step that leaves the caches alone keeps the invariant.
    pub IsSound-Grows : t.cache ≡ s.cache → IsSound s → IsSound t
    IsSound-Grows same h =
        let ids = All-map s.cache.installation_ids IsIdEntry-Grows h.ids in
        let tokens = All-map s.cache.installation_tokens IsTokenEntry-Grows h.tokens in
        record {
          ids = subst (λ c. All (IsIdEntry t.log) c.installation_ids) (sym same) ids;
          tokens = subst (λ c. All (IsTokenEntry t) c.installation_tokens) (sym same) tokens;
        }
