-- ===== src/Config/Tables.antt =====
-- src/config.rs: how the raw `installation-policy` and `owner-policy` tables become policies.
-- TOML itself is read by a crate.
use idcat.Common.{
  ◌≡◌, ◌↔◌, ◌⊎◌, refl, Option, none, some, List, [], ◌∷◌, Text, Result, ok, err, ◌>>=◌, arith,
  >>=-eq-ok, subst, inl, inr,
}
use idcat.Authzoo.{Authzoo}
use idcat.Config.{
  InstallationPolicyConfig, RawInstallationPolicyConfig, OwnerPolicyConfig, RawOwnerPolicyConfig,
}

-- The two messages of `de::Error::custom`, for repositories and owners alike.
pub data TableError : Type 0 where
  both_forms neither_form : TableError

-- `match (raw.repository, raw.repositories)`
unfoldable pub choose_repositories :
    Option Text → Option (List Text) → Result TableError (List Text)
choose_repositories (some repository) (some repositories) = err both_forms
choose_repositories (some repository) none = ok (repository ∷ [])
choose_repositories none (some repositories) = ok repositories
choose_repositories none none = err neither_form

-- `match (raw.owner, raw.owners)`
unfoldable pub choose_owners : Option Text → Option (List Text) → Result TableError (List Text)
choose_owners (some owner) (some owners) = err both_forms
choose_owners (some owner) none = ok (owner ∷ [])
choose_owners none (some owners) = ok owners
choose_owners none none = err neither_form

-- One form is used, alone: a single pattern, or a list of patterns.
abbrev pub IsOneForm : Option Text → Option (List Text) → List Text → Type 0
IsOneForm one several patterns =
    ((s : Text) × (one ≡ some s) × (several ≡ none) × (patterns ≡ s ∷ []))
    ⊎ ((one ≡ none) × (several ≡ some patterns))

choose_repositories_iff :
    (one : Option Text) (several : Option (List Text)) (xs : List Text)
    → (choose_repositories one several ≡ ok xs) ↔ IsOneForm one several xs
unfolding choose_repositories
choose_repositories_iff (some s) (some ss) xs = (λ h. cc, ground arith)
choose_repositories_iff (some s) none xs = (λ h. inl (s, refl, refl, ground arith), ground arith)
choose_repositories_iff none (some ss) xs = (λ h. inr (refl, ground arith), ground arith)
choose_repositories_iff none none xs = (λ h. cc, ground arith)

choose_owners_iff :
    (one : Option Text) (several : Option (List Text)) (xs : List Text)
    → (choose_owners one several ≡ ok xs) ↔ IsOneForm one several xs
unfolding choose_owners
choose_owners_iff (some s) (some ss) xs = (λ h. cc, ground arith)
choose_owners_iff (some s) none xs = (λ h. inl (s, refl, refl, ground arith), ground arith)
choose_owners_iff none (some ss) xs = (λ h. inr (refl, ground arith), ground arith)
choose_owners_iff none none xs = (λ h. cc, ground arith)

module _ (Z : Authzoo) where
  -- `InstallationPolicyConfig::deserialize`, after the raw table is read
  unfoldable pub installation_policy_of :
      RawInstallationPolicyConfig Z → Result TableError (InstallationPolicyConfig Z)
  installation_policy_of raw = do
    repositories ← choose_repositories raw.repository raw.repositories
    ok (record {
      github_app = raw.github_app;
      repositories = repositories;
      role = raw.role;
      required_claims = raw.required_claims;
      allow_self_access = raw.allow_self_access;
      permissions = raw.permissions;
    })

  -- `OwnerPolicyConfig::deserialize`, after the raw table is read
  unfoldable pub owner_policy_of : RawOwnerPolicyConfig Z → Result TableError (OwnerPolicyConfig Z)
  owner_policy_of raw = do
    owners ← choose_owners raw.owner raw.owners
    ok (record {
      github_app = raw.github_app;
      owners = owners;
      role = raw.role;
      required_claims = raw.required_claims;
      allow_self_access = raw.allow_self_access;
      permissions = raw.permissions;
    })

  -- A raw `installation-policy` table gives a policy exactly when one of its two forms for repositories is
  -- used, alone, and the policy then has those repositories and the table's other fields.
  pub installation_policy_of_iff :
      (raw : RawInstallationPolicyConfig Z) (p : InstallationPolicyConfig Z)
      → (installation_policy_of raw ≡ ok p) ↔ (
          IsOneForm raw.repository raw.repositories p.repositories
          × (raw.github_app ≡ p.github_app)
          × (raw.role ≡ p.role)
          × (raw.required_claims ≡ p.required_claims)
          × (raw.allow_self_access ≡ p.allow_self_access)
          × (raw.permissions ≡ p.permissions))
  unfolding installation_policy_of
  installation_policy_of_iff raw p = (
    λ h.
        let (xs, chosen, made) =
          >>=-eq-ok (choose_repositories raw.repository raw.repositories) _ h in
        let form = (choose_repositories_iff _ _ xs).0 chosen in
        let same : xs ≡ p.repositories = ground arith in
        (
          subst (IsOneForm raw.repository raw.repositories) same form,
          ground arith,
          ground arith,
          ground arith,
          ground arith,
          ground arith,
        ),
    λ h. let chosen = (choose_repositories_iff _ _ p.repositories).1 h.0 in ground arith,
  )

  -- A raw `owner-policy` table gives a policy exactly when one of its two forms for owners is
  -- used, alone, and the policy then has those owners and the table's other fields.
  owner_policy_of_iff :
      (raw : RawOwnerPolicyConfig Z) (p : OwnerPolicyConfig Z)
      → (owner_policy_of raw ≡ ok p) ↔ (
          IsOneForm raw.owner raw.owners p.owners
          × (raw.github_app ≡ p.github_app)
          × (raw.role ≡ p.role)
          × (raw.required_claims ≡ p.required_claims)
          × (raw.allow_self_access ≡ p.allow_self_access)
          × (raw.permissions ≡ p.permissions))
  unfolding owner_policy_of
  owner_policy_of_iff raw p = (
    λ h.
        let (xs, chosen, made) = >>=-eq-ok (choose_owners raw.owner raw.owners) _ h in
        let form = (choose_owners_iff _ _ xs).0 chosen in
        let same : xs ≡ p.owners = ground arith in
        (
          subst (IsOneForm raw.owner raw.owners) same form,
          ground arith,
          ground arith,
          ground arith,
          ground arith,
          ground arith,
        ),
    λ h. let chosen = (choose_owners_iff _ _ p.owners).1 h.0 in ground arith,
  )
