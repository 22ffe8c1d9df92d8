-- ===== src/Config/InstallationPolicies.antt =====
-- src/config.rs, `Config::validate`: the checks of the `installation-policy` entries.
use idcat.Common.{
  ◌≡◌, ◌≢◌, ◌↔◌, ◌⊎◌, inl, inr, true, not, ◌&&◌, some, List, [], ◌∷◌, Text, codes, text_eq, lookup,
  Result, ok, ◌>>=◌, ◌>>◌, bail_if, map_err, for_each, >>_iff, for_each_iff, is_nil, All, All-map,
  join, contains, arith, Option-cases,
}
use idcat.Authzoo.{Authzoo}
use idcat.Config.{InstallationPolicyConfig, is_valid_repo_pattern}
use idcat.Config.Errors.{
  installation, empty_app, unknown_app, no_pattern, bad_pattern, no_role, no_claims, no_permissions,
  ConfigError, policy, authzoo,
}
use idcat.Config.Claims.{
  index_role, map_err_iff, check_claims, check_self_access, IsClaim, IsSelfAccess, check_claims_iff,
  check_self_access_iff,
}
use idcat.Config.Patterns.{IsRepoPattern, is_valid_repo_pattern_iff}

-- `repositories_label`
unfoldable pub repositories_label : {Z : Authzoo} → InstallationPolicyConfig Z → Text
repositories_label p = join p.repositories (codes ", ")

module _ (Z : Authzoo) (v : Z.TokenValidator) (names : List Text) where
  check_repository : Text → Text → Result ConfigError (Unit {0})
  check_repository app repository =
      bail_if (not (is_valid_repo_pattern repository)) (policy installation (bad_pattern app))

  -- The app, the patterns and the role of a policy.
  check_installation_target : InstallationPolicyConfig Z → Result ConfigError (Unit {0})
  check_installation_target p = do
    bail_if (is_nil p.github_app) (policy installation empty_app)
    bail_if (not (contains names p.github_app)) (policy installation (unknown_app p.github_app))
    bail_if (is_nil p.repositories) (policy installation (no_pattern p.github_app))
    for_each (check_repository p.github_app) p.repositories
    bail_if (is_nil p.role) (policy installation (no_role p.github_app (repositories_label p)))
    map_err authzoo (Z.ensure_roles_exist v (p.role ∷ []))

  -- What the policy requires of a token beyond its role, and the permissions that it grants.
  check_installation_grant : InstallationPolicyConfig Z → Result ConfigError (Unit {0})
  check_installation_grant p = do
    bail_if (is_nil p.required_claims && not p.allow_self_access)
        (policy installation (no_claims p.github_app (repositories_label p) p.role))
    role_config ← index_role p.role (Z.roles v)
    check_claims Z installation p.github_app (repositories_label p) p.role (Z.claims role_config)
        p.required_claims
    check_self_access Z installation p.github_app (repositories_label p) p.role (codes "repository")
        p.allow_self_access (Z.claims role_config) p.required_claims
    bail_if (is_nil p.permissions)
        (policy installation (no_permissions p.github_app (repositories_label p) p.role))

  unfoldable pub validate_installation_policy :
      InstallationPolicyConfig Z → Result ConfigError (Unit {0})
  unfolding check_installation_target check_installation_grant check_repository for_each index_role
      check_claims check_self_access
  validate_installation_policy p = check_installation_target p >> check_installation_grant p

  pub record IsInstallationTarget (p : InstallationPolicyConfig Z) : Type 0 where
    pub names_app : p.github_app ≢ []
    pub app_exists : contains names p.github_app ≡ true
    pub has_pattern : p.repositories ≢ []
    pub patterns : All IsRepoPattern p.repositories
    pub names_role : p.role ≢ []
    pub role_exists : Z.ensure_roles_exist v (p.role ∷ []) ≡ ok tt

  pub record IsInstallationGrant (p : InstallationPolicyConfig Z) : Type 0 where
    pub fenced : (p.required_claims ≢ []) ⊎ (p.allow_self_access ≡ true)
    pub role_config : Z.RoleConfig
    pub role_found : lookup p.role (Z.roles v) ≡ some role_config
    pub claims : All (IsClaim Z p.role (Z.claims role_config)) p.required_claims
    pub self_access :
        IsSelfAccess Z p.role
          (Z.claims role_config)
          (codes "repository")
          p.allow_self_access
          p.required_claims
    pub narrowed : p.permissions ≢ []

  pub record IsInstallationPolicy (p : InstallationPolicyConfig Z) : Type 0 where
    pub target : IsInstallationTarget p
    pub grant : IsInstallationGrant p

  check_repository_iff :
      (app repository : Text) → (check_repository app repository ≡ ok tt) ↔ IsRepoPattern repository
  unfolding check_repository
  check_repository_iff app s =
      let (to, from) = is_valid_repo_pattern_iff s in
      (λ h. to (ground arith), λ h. let e = from h in ground arith)

  check_installation_target_iff :
      (p : InstallationPolicyConfig Z)
      → (check_installation_target p ≡ ok tt) ↔ IsInstallationTarget p
  unfolding check_installation_target
  check_installation_target_iff p =
      let (to, from) = for_each_iff (check_repository p.github_app) p.repositories in
      let (plain, mapped) = map_err_iff (Z.ensure_roles_exist v (p.role ∷ [])) in
      (
        λ h. record {
          names_app = ground arith;
          app_exists = ground arith;
          has_pattern = ground arith;
          patterns = All-map _ (λ s. (check_repository_iff p.github_app s).0) (to (ground arith));
          names_role = ground arith;
          role_exists = plain (ground arith);
        },
        λ h.
            let each = from (All-map _ (λ s. (check_repository_iff p.github_app s).1) h.patterns) in
            let exists = mapped h.role_exists in ground arith,
      )

  check_installation_grant_iff :
      (p : InstallationPolicyConfig Z)
      → (check_installation_grant p ≡ ok tt) ↔ IsInstallationGrant p
  unfolding check_installation_grant index_role
  check_installation_grant_iff p = (
    λ h. elim (Option-cases (lookup p.role (Z.roles v))) [
      | inl missing ↦ absurd (ground arith)
      | inr (r, found) ↦
          let claims =
            check_claims_iff Z p.role (Z.claims r) installation p.github_app (repositories_label p)
              p.required_claims in
          let self =
            check_self_access_iff Z p.role (Z.claims r) installation p.github_app
              (repositories_label p) (codes "repository") p.allow_self_access p.required_claims in
          record {
            fenced = ground arith;
            role_config = r;
            role_found = found;
            claims = claims.0 (ground arith);
            self_access = self.0 (ground arith);
            narrowed = ground arith;
          }
    ],
    λ h.
        let claims =
          (check_claims_iff Z p.role (Z.claims h.role_config) installation p.github_app
              (repositories_label p) p.required_claims).1
            h.claims in
        let self =
          (check_self_access_iff Z p.role (Z.claims h.role_config) installation p.github_app
              (repositories_label p) (codes "repository") p.allow_self_access p.required_claims).1
            h.self_access in
        ground arith,
  )

  -- A policy is accepted exactly when it is well formed.
  pub validate_installation_policy_iff :
      (p : InstallationPolicyConfig Z)
      → (validate_installation_policy p ≡ ok tt) ↔ IsInstallationPolicy p
  unfolding validate_installation_policy
  validate_installation_policy_iff p =
      let (to, from) = >>_iff (check_installation_target p) (check_installation_grant p) tt in
      let target = check_installation_target_iff p in
      let grant = check_installation_grant_iff p in
      (
        λ h. record { target = target.0 (to h).0; grant = grant.0 (to h).1 },
        λ h. from (target.1 h.target, grant.1 h.grant),
      )
