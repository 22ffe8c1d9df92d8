-- ===== src/Service/Safety.antt =====
-- src/service.rs with src/config.rs: a service that was built from an accepted configuration.
use mathlib.Core.List.{Memᴰ}
use idcat.Common.{
  ◌≡◌, ◌≢◌, ◌⊎◌, inl, inr, refl, sym, Bool, true, false, Option, some, [], ◌∷◌, ◌++◌, Text, codes,
  text_eq, IsMap, Result, ok, All, All_member, arith, subst, reverse,
}
use idcat.Authzoo.{Authzoo, IsLawful}
use idcat.Config.{
  GithubAppConfig, InstallationPolicyConfig, OwnerPolicyConfig, Config, NatsConfig,
  self_access_owner_claim,
}
use idcat.Config.InstallationPolicies.{IsInstallationPolicy}
use idcat.Config.OwnerPolicies.{IsOwnerPolicy}
use idcat.Config.Validate.{validate, validate_iff, IsValid, app_names}
use idcat.Service.{
  only_requested, all, TokenScope, broad, WebhookPublisher, AppState, build_app_state,
}
use idcat.Service.Authorize.{authorize_github_app, authorize_owner}
use idcat.Service.Grants.{HasAllowedRole, GrantsRepo, GrantsOwner}
use idcat.Service.Decisions.{authorize_github_app_iff, authorize_owner_iff}
use idcat.Service.Built.{member_of_split, IsBuilt, build_app_state-IsBuilt, enabled, validate_inner}
use idcat.Service.Policies.{IsFenced, installation_policy-IsFenced, owner_policy-IsFenced}

module _ (Z : Authzoo) (L : IsLawful Z) (matches : Text → Text → Bool)
    (connect : NatsConfig → Result Text WebhookPublisher) (client : Result Text (Unit {0}))
    (c : Config Z) (kms_built : Bool) where
  -- A policy of the configuration that is for the app, has a pattern that matches, fences the
  -- token, and narrows the scope to its own, non-empty, permissions.
  pub record IsPolicyForRepo (w : Z.TokenValidator) (app : GithubAppConfig) (repo token : Text)
      (scope : TokenScope) : Type 0 where
    pub policy : InstallationPolicyConfig Z
    pub configured : Memᴰ policy c.installation_policies
    pub for_app : policy.github_app ≡ app.name
    pub pattern : (s : Text) × Memᴰ s policy.repositories × (matches s repo ≡ true)
    pub fenced :
        IsFenced Z L w token policy.role policy.required_claims policy.allow_self_access
          (codes "repository")
          repo
    pub narrowed :
        scope ≡ record { repositories = only_requested; permissions = policy.permissions }
    pub permissions : scope.permissions ≢ []

  abbrev pub IsGrantForRepo : GithubAppConfig → Text → Option Text → TokenScope → Type 0
  IsGrantForRepo app repo bearer scope =
      (w : Z.TokenValidator) × (Z.new c.roles ≡ ok w)
      × (token : Text) × (bearer ≡ some token)
      × ((HasAllowedRole (Z.validate w token) app.allowed_roles × (scope ≡ broad))
          ⊎ IsPolicyForRepo w app repo token scope)

  -- A policy of the configuration that is for the app, has a pattern that matches, fences the
  -- token, and narrows the scope to its own, non-empty, permissions.
  pub record IsPolicyForOwner (w : Z.TokenValidator) (app : GithubAppConfig) (owner token : Text)
      (scope : TokenScope) : Type 0 where
    pub policy : OwnerPolicyConfig Z
    pub configured : Memᴰ policy c.owner_policies
    pub for_app : policy.github_app ≡ app.name
    pub pattern : (s : Text) × Memᴰ s policy.owners × (matches s owner ≡ true)
    pub fenced :
        IsFenced Z L w token policy.role policy.required_claims policy.allow_self_access
          self_access_owner_claim owner
    pub narrowed : scope ≡ record { repositories = all; permissions = policy.permissions }
    pub permissions : scope.permissions ≢ []

  abbrev pub IsGrantForOwner : GithubAppConfig → Text → Option Text → TokenScope → Type 0
  IsGrantForOwner app owner bearer scope =
      (w : Z.TokenValidator) × (Z.new c.roles ≡ ok w)
      × (token : Text) × (bearer ≡ some token)
      × ((HasAllowedRole (Z.validate w token) app.allowed_roles × (scope ≡ broad))
          ⊎ IsPolicyForOwner w app owner token scope)

  authorize_github_app_granted :
      (state : AppState Z) (app : GithubAppConfig) (repo token : Text) (scope : TokenScope)
      → IsValid Z kms_built false c
      → IsBuilt Z connect client c state
      → All (λ p. IsMap p.required_claims) c.installation_policies
      → GrantsRepo Z matches state app repo token scope
      → IsGrantForRepo app repo (some token) scope
  authorize_github_app_granted state app repo token scope valid built maps
        (inl ((role, m, allowed), e)) =
      let m' =
        subst (λ names. Memᴰ role names)
          (validate_inner Z state.token_validator built.validator token built.inner) m in
      (built.validator, built.made, token, refl, inl ((role, m', allowed), e))
  authorize_github_app_granted state app repo token scope valid built maps
        (inr (_, p, (before, after, split, _, admits), e)) =
      let split' : c.installation_policies ≡ before ++ p ∷ after = cc in
      let same : valid.validator ≡ built.validator = cc in
      let member = member_of_split _ before after p split' in
      let well_formed =
        subst (λ w. IsInstallationPolicy Z w (reverse (app_names c.github_apps)) p) same
          (All_member _ valid.authorized.1.installation_policies member) in
      let fenced =
        installation_policy-IsFenced Z L built.validator state.token_validator built.inner token
          (reverse (app_names c.github_apps)) p repo well_formed (All_member _ maps member)
          admits.holds in
      (
        built.validator,
        built.made,
        token,
        refl,
        inr (record {
          policy = p;
          configured = member;
          for_app = admits.for_app;
          pattern = admits.pattern;
          fenced = fenced;
          narrowed = e;
          permissions = λ empty. well_formed.grant.narrowed (ground arith);
        }),
      )

  authorize_owner_granted :
      (state : AppState Z) (app : GithubAppConfig) (owner token : Text) (scope : TokenScope)
      → IsValid Z kms_built false c
      → IsBuilt Z connect client c state
      → All (λ p. IsMap p.required_claims) c.owner_policies
      → GrantsOwner Z matches state app owner token scope
      → IsGrantForOwner app owner (some token) scope
  authorize_owner_granted state app owner token scope valid built maps
        (inl ((role, m, allowed), e)) =
      let m' =
        subst (λ names. Memᴰ role names)
          (validate_inner Z state.token_validator built.validator token built.inner) m in
      (built.validator, built.made, token, refl, inl ((role, m', allowed), e))
  authorize_owner_granted state app owner token scope valid built maps
        (inr (_, p, (before, after, split, _, admits), e)) =
      let split' : c.owner_policies ≡ before ++ p ∷ after = cc in
      let same : valid.validator ≡ built.validator = cc in
      let member = member_of_split _ before after p split' in
      let well_formed =
        subst (λ w. IsOwnerPolicy Z w (reverse (app_names c.github_apps)) p) same
          (All_member _ valid.authorized.1.owner_policies member) in
      let fenced =
        owner_policy-IsFenced Z L built.validator state.token_validator built.inner token
          (reverse (app_names c.github_apps)) p owner well_formed (All_member _ maps member)
          admits.holds in
      (
        built.validator,
        built.made,
        token,
        refl,
        inr (record {
          policy = p;
          configured = member;
          for_app = admits.for_app;
          pattern = admits.pattern;
          fenced = fenced;
          narrowed = e;
          permissions = λ empty. well_formed.grant.narrowed (ground arith);
        }),
      )

  -- A service built, with authorization on, from a configuration that was accepted and whose maps
  -- have no key twice, gives a scope for a repository only to a bearer token. Either the token has
  -- a role that the app allows, and the scope is the whole of the app; or a configured policy for
  -- the app has a pattern that matches, the token meets every claim of the policy's role and of the
  -- policy and, under self access, its claim `repository` is the requested repo, and the scope
  -- is that repository alone with the policy's permissions, of which there is at least one.
  pub authorize_github_app_safe :
      (state : AppState Z) (app : GithubAppConfig) (repo : Text) (bearer : Option Text)
      (scope : TokenScope)
      → validate Z kms_built false c ≡ ok tt
      → build_app_state Z connect client c false ≡ ok state
      → All (λ p. IsMap p.required_claims) c.installation_policies
      → authorize_github_app Z matches state app repo bearer ≡ ok scope
      → IsGrantForRepo app repo bearer scope
  authorize_github_app_safe state app repo bearer scope valid made maps granted =
      let built = build_app_state-IsBuilt Z connect client c state made in
      let on = enabled Z state.token_validator built.validator built.inner in
      let (token, e, grant) =
        (authorize_github_app_iff Z matches state app repo bearer scope on).0 granted in
      subst (λ b. IsGrantForRepo app repo b scope) (sym e)
        (authorize_github_app_granted state app repo token scope
          ((validate_iff Z kms_built false c).0 valid) built maps grant)

  -- A service built, with authorization on, from a configuration that was accepted and whose maps
  -- have no key twice, gives a scope for an owner only to a bearer token. Either the token has
  -- a role that the app allows, and the scope is the whole of the app; or a configured policy for
  -- the app has a pattern that matches, the token meets every claim of the policy's role and of the
  -- policy and, under self access, its claim `repository_owner` is the requested owner, and the scope
  -- is the owner's installation with the policy's permissions, of which there is at least one.
  pub authorize_owner_safe :
      (state : AppState Z) (app : GithubAppConfig) (owner : Text) (bearer : Option Text)
      (scope : TokenScope)
      → validate Z kms_built false c ≡ ok tt
      → build_app_state Z connect client c false ≡ ok state
      → All (λ p. IsMap p.required_claims) c.owner_policies
      → authorize_owner Z matches state app owner bearer ≡ ok scope
      → IsGrantForOwner app owner bearer scope
  authorize_owner_safe state app owner bearer scope valid made maps granted =
      let built = build_app_state-IsBuilt Z connect client c state made in
      let on = enabled Z state.token_validator built.validator built.inner in
      let (token, e, grant) =
        (authorize_owner_iff Z matches state app owner bearer scope on).0 granted in
      subst (λ b. IsGrantForOwner app owner b scope) (sym e)
        (authorize_owner_granted state app owner token scope
          ((validate_iff Z kms_built false c).0 valid) built maps grant)
