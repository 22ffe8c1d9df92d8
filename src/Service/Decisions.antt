-- ===== src/Service/Decisions.antt =====
-- src/service.rs: what `authorize_github_app` and `authorize_owner` decide, on every branch.
use idcat.Common.{
  ◌≡◌, ◌↔◌, refl, ap, Bool, true, false, Option, none, some, Text, codes, text_eq, Result, ok, err,
  arith, subst,
}
use idcat.Authzoo.{Authzoo}
use idcat.Config.{GithubAppConfig}
use idcat.AppError.{AppError, unauthorized}
use idcat.Service.{TokenScope, broad, AppState, auth_enabled}
use idcat.Service.Authorize.{
  missing_authorization, no_match_message, authorize_repo_token, authorize_github_app,
  authorize_owner_token, authorize_owner,
}
use idcat.Service.Grants.{
  GrantsRepo, GrantsOwner, authorize_repo_token_iff, authorize_owner_token_iff,
}

module _ (Z : Authzoo) (matches : Text → Text → Bool) (state : AppState Z)
    (app : GithubAppConfig) where
  -- The message of a refusal: there is no token, or the token is not good enough.
  abbrev pub refusal : Text → Text → Option Text → Text
  refusal kind target none = missing_authorization
  refusal kind target (some token) = no_match_message app.name kind target

  authorize_github_app_token_refused :
      (repo token : Text) (e : AppError)
      → authorize_repo_token Z matches state app repo token ≡ err e
      → e ≡ unauthorized (no_match_message app.name (codes "repository") repo)
  unfolding authorize_repo_token
  authorize_github_app_token_refused repo token e h = ground arith

  -- With authorization on, authorize_github_app returns a scope exactly when there is a bearer token
  -- and that token is granted the scope for the repository: by a role that the app allows, or else by
  -- the first policy that admits the request.
  pub authorize_github_app_iff :
      (repo : Text) (bearer : Option Text) (scope : TokenScope)
      → auth_enabled Z state.token_validator ≡ true
      → (authorize_github_app Z matches state app repo bearer ≡ ok scope)
        ↔ ((token : Text) × (bearer ≡ some token) × GrantsRepo Z matches state app repo token scope)
  unfolding authorize_github_app
  authorize_github_app_iff repo none scope on = (λ h. cc (rw on at h), λ (t, e, g). cc)
  authorize_github_app_iff repo (some token) scope on =
      let (to, from) = authorize_repo_token_iff Z matches state app repo token scope in
      (
        λ h. (token, refl, to (ground arith)),
        λ (t, e, g).
            let same : t ≡ token = cc in
            let granted = from (subst (λ s. GrantsRepo Z matches state app repo s scope) same g) in
            ground arith,
      )

  -- With authorization on, whatever authorize_github_app does not grant it refuses as unauthorized, with the
  -- message for a missing token or for one that matches nothing.
  pub authorize_github_app_refused :
      (repo : Text) (bearer : Option Text)
      → auth_enabled Z state.token_validator ≡ true
      → ((scope : TokenScope) (token : Text)
          → bearer ≡ some token
          → ¬ GrantsRepo Z matches state app repo token scope)
      → authorize_github_app Z matches state app repo bearer
        ≡ err (unauthorized (refusal (codes "repository") repo bearer))
  unfolding authorize_github_app
  authorize_github_app_refused repo none on refused = ground arith
  authorize_github_app_refused repo (some token) on refused =
      rw on (decided (authorize_repo_token Z matches state app repo token) refl refused)
    where
      decided :
          (r : Result AppError TokenScope)
          → authorize_repo_token Z matches state app repo token ≡ r
          → ((scope : TokenScope) (s : Text)
              → some token ≡ some s
              → ¬ GrantsRepo Z matches state app repo s scope)
          → r ≡ err (unauthorized (no_match_message app.name (codes "repository") repo))
      decided (ok scope) e refused = absurd (
          refused scope token refl
            ((authorize_repo_token_iff Z matches state app repo token scope).0 e))
      decided (err x) e refused = ap err (authorize_github_app_token_refused repo token x e)

  authorize_owner_token_refused :
      (owner token : Text) (e : AppError)
      → authorize_owner_token Z matches state app owner token ≡ err e
      → e ≡ unauthorized (no_match_message app.name (codes "owner") owner)
  unfolding authorize_owner_token
  authorize_owner_token_refused owner token e h = ground arith

  -- With authorization on, authorize_owner returns a scope exactly when there is a bearer token
  -- and that token is granted the scope for the owner: by a role that the app allows, which gives the
  -- broad scope without any policy, or else by the first owner policy that admits the request.
  pub authorize_owner_iff :
      (owner : Text) (bearer : Option Text) (scope : TokenScope)
      → auth_enabled Z state.token_validator ≡ true
      → (authorize_owner Z matches state app owner bearer ≡ ok scope) ↔ (
          (token : Text) × (bearer ≡ some token)
          × GrantsOwner Z matches state app owner token scope)
  unfolding authorize_owner
  authorize_owner_iff owner none scope on = (λ h. cc (rw on at h), λ (t, e, g). cc)
  authorize_owner_iff owner (some token) scope on =
      let (to, from) = authorize_owner_token_iff Z matches state app owner token scope in
      (
        λ h. (token, refl, to (ground arith)),
        λ (t, e, g).
            let same : t ≡ token = cc in
            let granted =
              from (subst (λ s. GrantsOwner Z matches state app owner s scope) same g) in
            ground arith,
      )

  -- With authorization on, whatever authorize_owner does not grant it refuses as unauthorized, with the
  -- message for a missing token or for one that matches nothing.
  pub authorize_owner_refused :
      (owner : Text) (bearer : Option Text)
      → auth_enabled Z state.token_validator ≡ true
      → ((scope : TokenScope) (token : Text)
          → bearer ≡ some token
          → ¬ GrantsOwner Z matches state app owner token scope)
      → authorize_owner Z matches state app owner bearer
        ≡ err (unauthorized (refusal (codes "owner") owner bearer))
  unfolding authorize_owner
  authorize_owner_refused owner none on refused = ground arith
  authorize_owner_refused owner (some token) on refused =
      rw on (decided (authorize_owner_token Z matches state app owner token) refl refused)
    where
      decided :
          (r : Result AppError TokenScope)
          → authorize_owner_token Z matches state app owner token ≡ r
          → ((scope : TokenScope) (s : Text)
              → some token ≡ some s
              → ¬ GrantsOwner Z matches state app owner s scope)
          → r ≡ err (unauthorized (no_match_message app.name (codes "owner") owner))
      decided (ok scope) e refused = absurd (
          refused scope token refl
            ((authorize_owner_token_iff Z matches state app owner token scope).0 e))
      decided (err x) e refused = ap err (authorize_owner_token_refused owner token x e)

  -- With authorization off, both endpoints grant the whole of the app to everybody, with or without
  -- a bearer token.
  pub authorize_disabled :
      (repo owner : Text) (bearer : Option Text)
      → auth_enabled Z state.token_validator ≡ false
      → (authorize_github_app Z matches state app repo bearer ≡ ok broad)
        × (authorize_owner Z matches state app owner bearer ≡ ok broad)
  unfolding authorize_github_app authorize_owner
  authorize_disabled repo owner bearer off = (ground arith, ground arith)
