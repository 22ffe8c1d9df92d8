-- ===== src/Service/Grants.antt =====
-- src/service.rs: when a request is granted, stated without the code's loops.
use mathlib.Core.List.{Memᴰ}
use idcat.Common.{
  ◌≡◌, ◌↔◌, ◌⊎◌, inl, inr, Bool, true, false, List, ◌∷◌, ◌++◌, Text, text_eq, ◌==◌, ok, any, find?,
  any_some_iff, any_member, any_of_member, find?_iff, Bool-cases, Option-cases, All, arith,
  eq_of_test, test_self, subst,
}
use idcat.Authzoo.{Authzoo}
use idcat.Config.{GithubAppConfig, InstallationPolicyConfig, OwnerPolicyConfig}
use idcat.Service.{
  only_requested, all, TokenScope, broad, AppState, validate, validate_role_with_claims,
  claims_for_request, claims_for_owner_request,
}
use idcat.Service.Authorize.{
  allowed_role_match, installation_policy_admits, owner_policy_admits, authorize_repo_token,
  authorize_owner_token,
}

test_iff : (a b : Text) → ((a == b) ≡ true) ↔ (a ≡ b)
test_iff a b = (eq_of_test a b, λ e. ground arith)

member_iff : (a : Text) (xs : List Text) → (any (λ x. x == a) xs ≡ true) ↔ Memᴰ a xs
member_iff a xs = (
  λ h. let (x, m, e) = any_member _ xs h in subst (λ y. Memᴰ y xs) (eq_of_test x a e) m,
  λ m. any_of_member _ m (test_self a),
)

-- The token has a role that the app allows.
abbrev pub HasAllowedRole : List Text → List Text → Type 0
HasAllowedRole matching allowed = (role : Text) × Memᴰ role matching × Memᴰ role allowed

module _ (Z : Authzoo) (matches : Text → Text → Bool) (state : AppState Z)
    (app : GithubAppConfig) where
  -- The policy is for the app, one of its patterns matches, and the token has its role with the
  -- claims that it requires for this request.
  pub record AdmitsRepo (repo token : Text) (p : InstallationPolicyConfig Z) : Type 0 where
    pub for_app : p.github_app ≡ app.name
    pub pattern : (s : Text) × Memᴰ s p.repositories × (matches s repo ≡ true)
    pub holds :
        validate_role_with_claims Z state.token_validator p.role (claims_for_request Z p repo) token
        ≡ true

  pub record AdmitsOwner (owner token : Text) (p : OwnerPolicyConfig Z) : Type 0 where
    pub for_app : p.github_app ≡ app.name
    pub pattern : (s : Text) × Memᴰ s p.owners × (matches s owner ≡ true)
    pub holds :
        validate_role_with_claims Z state.token_validator p.role
          (claims_for_owner_request Z p owner)
          token
        ≡ true

  -- The first policy of the list that admits, with those before it.
  abbrev pub IsFirst {κ} : {P : Type 0} → (P → Type κ) → List P → P → Type κ
  IsFirst {P} Admits ps p =
      (before : List P) × (after : List P) × (ps ≡ before ++ p ∷ after)
      × All (λ q. ¬ Admits q) before
      × Admits p

  -- The whole of the app's installation, to a token with an allowed role; else the requested
  -- repository, with the permissions of the first policy that admits the request.
  abbrev pub GrantsRepo : Text → Text → TokenScope → Type 0
  GrantsRepo repo token scope =
      (HasAllowedRole (validate Z state.token_validator token) app.allowed_roles × (scope ≡ broad))
      ⊎ ((¬ HasAllowedRole (validate Z state.token_validator token) app.allowed_roles)
          × (p : InstallationPolicyConfig Z) × IsFirst (AdmitsRepo repo token)
              state.installation_policies p
          × (scope ≡ record { repositories = only_requested; permissions = p.permissions }))

  abbrev pub GrantsOwner : Text → Text → TokenScope → Type 0
  GrantsOwner owner token scope =
      (HasAllowedRole (validate Z state.token_validator token) app.allowed_roles × (scope ≡ broad))
      ⊎ ((¬ HasAllowedRole (validate Z state.token_validator token) app.allowed_roles)
          × (p : OwnerPolicyConfig Z) × IsFirst (AdmitsOwner owner token) state.owner_policies p
          × (scope ≡ record { repositories = all; permissions = p.permissions }))

  allowed_role_match_iff :
      (matching allowed : List Text)
      → (allowed_role_match Z matches matching allowed ≡ true) ↔ HasAllowedRole matching allowed
  unfolding allowed_role_match
  allowed_role_match_iff matching allowed =
      any_some_iff _ (λ role. Memᴰ role allowed) (λ role. member_iff role allowed) matching

  installation_policy_admits_iff :
      (repo token : Text) (p : InstallationPolicyConfig Z)
      → (installation_policy_admits Z matches state.token_validator app.name repo token p ≡ true)
        ↔ AdmitsRepo repo token p
  unfolding installation_policy_admits
  installation_policy_admits_iff repo token p =
      let (to, from) =
        any_some_iff (λ s. matches s repo) (λ s. matches s repo ≡ true) (λ s. (λ h. h, λ h. h))
          p.repositories in
      (
        λ h. record { for_app = ground arith; pattern = to (ground arith); holds = ground arith },
        λ h. let m = from h.pattern in ground arith,
      )

  owner_policy_admits_iff :
      (owner token : Text) (p : OwnerPolicyConfig Z)
      → (owner_policy_admits Z matches state.token_validator app.name owner token p ≡ true)
        ↔ AdmitsOwner owner token p
  unfolding owner_policy_admits
  owner_policy_admits_iff owner token p =
      let (to, from) =
        any_some_iff (λ s. matches s owner) (λ s. matches s owner ≡ true) (λ s. (λ h. h, λ h. h))
          p.owners in
      (
        λ h. record { for_app = ground arith; pattern = to (ground arith); holds = ground arith },
        λ h. let m = from h.pattern in ground arith,
      )

  pub authorize_repo_token_iff :
      (repo token : Text) (scope : TokenScope)
      → (authorize_repo_token Z matches state app repo token ≡ ok scope)
        ↔ GrantsRepo repo token scope
  unfolding authorize_repo_token
  authorize_repo_token_iff repo token scope =
      let admits = installation_policy_admits Z matches state.token_validator app.name repo token in
      let (role, role') =
        allowed_role_match_iff (validate Z state.token_validator token) app.allowed_roles in
      let first =
        find?_iff admits (AdmitsRepo repo token) (installation_policy_admits_iff repo token)
          state.installation_policies in
      (
        λ h.
            elim (Bool-cases (
              allowed_role_match Z matches (validate Z state.token_validator token)
                app.allowed_roles)) [
                  | inl allowed ↦ inl (role allowed, ground arith)
                  | inr refused ↦ elim (Option-cases (find? admits state.installation_policies)) [
                    | inl missing ↦ absurd (ground arith)
                    | inr (p, found) ↦
                        inr (λ m. let e = role' m in cc, p, (first p).0 found, ground arith)
                  ]
                ],
        λ h. elim h [
          | inl (m, e) ↦ let allowed = role' m in ground arith
          | inr (none', p, f, e) ↦
              let refused : allowed_role_match Z matches (validate Z state.token_validator token)
                    app.allowed_roles
                  ≡ false =
                elim (Bool-cases (
                  allowed_role_match Z matches (validate Z state.token_validator token)
                    app.allowed_roles)) [
                      | inl allowed ↦ absurd (none' (role allowed))
                      | inr refused ↦ refused
                    ] in
              let found = (first p).1 f in ground arith
        ],
      )

  pub authorize_owner_token_iff :
      (owner token : Text) (scope : TokenScope)
      → (authorize_owner_token Z matches state app owner token ≡ ok scope)
        ↔ GrantsOwner owner token scope
  unfolding authorize_owner_token
  authorize_owner_token_iff owner token scope =
      let admits = owner_policy_admits Z matches state.token_validator app.name owner token in
      let (role, role') =
        allowed_role_match_iff (validate Z state.token_validator token) app.allowed_roles in
      let first =
        find?_iff admits (AdmitsOwner owner token) (owner_policy_admits_iff owner token)
          state.owner_policies in
      (
        λ h.
            elim (Bool-cases (
              allowed_role_match Z matches (validate Z state.token_validator token)
                app.allowed_roles)) [
                  | inl allowed ↦ inl (role allowed, ground arith)
                  | inr refused ↦ elim (Option-cases (find? admits state.owner_policies)) [
                    | inl missing ↦ absurd (ground arith)
                    | inr (p, found) ↦
                        inr (λ m. let e = role' m in cc, p, (first p).0 found, ground arith)
                  ]
                ],
        λ h. elim h [
          | inl (m, e) ↦ let allowed = role' m in ground arith
          | inr (none', p, f, e) ↦
              let refused : allowed_role_match Z matches (validate Z state.token_validator token)
                    app.allowed_roles
                  ≡ false =
                elim (Bool-cases (
                  allowed_role_match Z matches (validate Z state.token_validator token)
                    app.allowed_roles)) [
                      | inl allowed ↦ absurd (none' (role allowed))
                      | inr refused ↦ refused
                    ] in
              let found = (first p).1 f in ground arith
        ],
      )
