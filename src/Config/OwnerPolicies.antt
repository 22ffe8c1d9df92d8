-- ===== src/Config/OwnerPolicies.antt =====
-- src/config.rs, `Config::validate`: the checks of the `owner-policy` entries.
use idcat.Common.{
  ◌≡◌, ◌≢◌, ◌↔◌, ◌⊎◌, inl, inr, true, not, ◌&&◌, some, List, [], ◌∷◌, Text, codes, text_eq, lookup,
  Result, ok, ◌>>=◌, ◌>>◌, bail_if, map_err, for_each, >>_iff, for_each_iff, is_nil, All, All-map,
  join, contains, arith, Option-cases,
}
use idcat.Authzoo.{Authzoo}
use idcat.Config.{OwnerPolicyConfig, is_valid_owner_pattern, self_access_owner_claim}
use idcat.Config.Errors.{
  owner, empty_app, unknown_app, no_pattern, bad_pattern, no_role, no_claims, no_permissions,
  ConfigError, policy, authzoo,
}
use idcat.Config.Claims.{
  index_role, map_err_iff, check_claims, check_self_access, IsClaim, IsSelfAccess, check_claims_iff,
  check_self_access_iff,
}
use idcat.Config.Patterns.{IsOwnerPattern, is_valid_owner_pattern_iff}

-- `owners_label`
unfoldable pub owners_label : {Z : Authzoo} → OwnerPolicyConfig Z → Text
owners_label p = join p.owners (codes ", ")

module _ (Z : Authzoo) (v : Z.TokenValidator) (names : List Text) where
  check_owner_pattern : Text → Text → Result ConfigError (Unit {0})
  check_owner_pattern app owner_pattern =
      bail_if (not (is_valid_owner_pattern owner_pattern)) (policy owner (bad_pattern app))

  -- The app, the patterns and the role of a policy.
  check_owner_target : OwnerPolicyConfig Z → Result ConfigError (Unit {0})
  check_owner_target p = do
    bail_if (is_nil p.github_app) (policy owner empty_app)
    bail_if (not (contains names p.github_app)) (policy owner (unknown_app p.github_app))
    bail_if (is_nil p.owners) (policy owner (no_pattern p.github_app))
    for_each (check_owner_pattern p.github_app) p.owners
    bail_if (is_nil p.role) (policy owner (no_role p.github_app (owners_label p)))
    map_err authzoo (Z.ensure_roles_exist v (p.role ∷ []))

  -- What the policy requires of a token beyond its role, and the permissions that it grants.
  check_owner_grant : OwnerPolicyConfig Z → Result ConfigError (Unit {0})
  check_owner_grant p = do
    bail_if (is_nil p.permissions)
        (policy owner (no_permissions p.github_app (owners_label p) p.role))
    bail_if (is_nil p.required_claims && not p.allow_self_access)
        (policy owner (no_claims p.github_app (owners_label p) p.role))
    role_config ← index_role p.role (Z.roles v)
    check_claims Z owner p.github_app (owners_label p) p.role (Z.claims role_config)
        p.required_claims
    check_self_access Z owner p.github_app (owners_label p) p.role self_access_owner_claim
        p.allow_self_access (Z.claims role_config) p.required_claims

  unfoldable pub validate_owner_policy : OwnerPolicyConfig Z → Result ConfigError (Unit {0})
  unfolding check_owner_target check_owner_grant check_owner_pattern for_each index_role
      check_claims check_self_access
  validate_owner_policy p = check_owner_target p >> check_owner_grant p

  pub record IsOwnerTarget (p : OwnerPolicyConfig Z) : Type 0 where
    pub names_app : p.github_app ≢ []
    pub app_exists : contains names p.github_app ≡ true
    pub has_pattern : p.owners ≢ []
    pub patterns : All IsOwnerPattern p.owners
    pub names_role : p.role ≢ []
    pub role_exists : Z.ensure_roles_exist v (p.role ∷ []) ≡ ok tt

  pub record IsOwnerGrant (p : OwnerPolicyConfig Z) : Type 0 where
    pub fenced : (p.required_claims ≢ []) ⊎ (p.allow_self_access ≡ true)
    pub role_config : Z.RoleConfig
    pub role_found : lookup p.role (Z.roles v) ≡ some role_config
    pub claims : All (IsClaim Z p.role (Z.claims role_config)) p.required_claims
    pub self_access :
        IsSelfAccess Z p.role
          (Z.claims role_config)
          self_access_owner_claim
          p.allow_self_access
          p.required_claims
    pub narrowed : p.permissions ≢ []

  pub record IsOwnerPolicy (p : OwnerPolicyConfig Z) : Type 0 where
    pub target : IsOwnerTarget p
    pub grant : IsOwnerGrant p

  check_owner_pattern_iff :
      (app owner_pattern : Text)
      → (check_owner_pattern app owner_pattern ≡ ok tt) ↔ IsOwnerPattern owner_pattern
  unfolding check_owner_pattern
  check_owner_pattern_iff app s =
      let (to, from) = is_valid_owner_pattern_iff s in
      (λ h. to (ground arith), λ h. let e = from h in ground arith)

  check_owner_target_iff :
      (p : OwnerPolicyConfig Z) → (check_owner_target p ≡ ok tt) ↔ IsOwnerTarget p
  unfolding check_owner_target
  check_owner_target_iff p =
      let (to, from) = for_each_iff (check_owner_pattern p.github_app) p.owners in
      let (plain, mapped) = map_err_iff (Z.ensure_roles_exist v (p.role ∷ [])) in
      (
        λ h. record {
          names_app = ground arith;
          app_exists = ground arith;
          has_pattern = ground arith;
          patterns =
              All-map _ (λ s. (check_owner_pattern_iff p.github_app s).0) (to (ground arith));
          names_role = ground arith;
          role_exists = plain (ground arith);
        },
        λ h.
            let each =
              from (All-map _ (λ s. (check_owner_pattern_iff p.github_app s).1) h.patterns) in
            let exists = mapped h.role_exists in ground arith,
      )

  check_owner_grant_iff : (p : OwnerPolicyConfig Z) → (check_owner_grant p ≡ ok tt) ↔ IsOwnerGrant p
  unfolding check_owner_grant index_role
  check_owner_grant_iff p = (
    λ h. elim (Option-cases (lookup p.role (Z.roles v))) [
      | inl missing ↦ absurd (ground arith)
      | inr (r, found) ↦
          let claims =
            check_claims_iff Z p.role (Z.claims r) owner p.github_app (owners_label p)
              p.required_claims in
          let self =
            check_self_access_iff Z p.role (Z.claims r) owner p.github_app (owners_label p)
              self_access_owner_claim p.allow_self_access p.required_claims in
          record {
            fenced = ground arith;
            role_config = r;
            role_found = found;
            claims = claims.0 (ground arith);
            self_access = self.0 (ground arith);
            narrowed = ground arith;
          }
    ],
    λ h.
        let claims =
          (check_claims_iff Z p.role (Z.claims h.role_config) owner p.github_app (owners_label p)
              p.required_claims).1
            h.claims in
        let self =
          (check_self_access_iff Z p.role (Z.claims h.role_config) owner p.github_app
              (owners_label p) self_access_owner_claim p.allow_self_access p.required_claims).1
            h.self_access in
        ground arith,
  )

  -- A policy is accepted exactly when it is well formed.
  pub validate_owner_policy_iff :
      (p : OwnerPolicyConfig Z) → (validate_owner_policy p ≡ ok tt) ↔ IsOwnerPolicy p
  unfolding validate_owner_policy
  validate_owner_policy_iff p =
      let (to, from) = >>_iff (check_owner_target p) (check_owner_grant p) tt in
      let target = check_owner_target_iff p in
      let grant = check_owner_grant_iff p in
      (
        λ h. record { target = target.0 (to h).0; grant = grant.0 (to h).1 },
        λ h. from (target.1 h.target, grant.1 h.grant),
      )
