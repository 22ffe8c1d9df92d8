-- ===== src/Config/Validate.antt =====
-- src/config.rs, `Config::validate`: the whole check, in the order of the source. Its warnings are in
-- `Config.Warnings`.
use mathlib.Core.List.{Memᴰ}
use idcat.Common.{
  any_member, any_of_member, eq_of_test, test_self, Bool-cases, inl, inr, ◌≡◌, ◌≢◌, ◌↔◌, ◌⊎◌, refl,
  Bool, true, false, not, ◌&&◌, if◌then◌else◌, List, [], Text, text_eq, ◌==◌, Result, ok, err,
  ◌>>=◌, ◌>>◌, bail_if, map_err, for_each, >>_iff, >>=-eq-ok, for_each_iff, is_nil, All, All-map,
  All-of, Distinct, any, contains, map, reverse, arith, sym, subst,
}
use idcat.Authzoo.{Authzoo}
use idcat.Config.{GithubAppConfig, InstallationPolicyConfig, OwnerPolicyConfig, Config}
use idcat.Config.Errors.{no_roles, no_github_apps, unreachable_app, ConfigError, authzoo}
use idcat.Config.Server.{
  validate_listener, validate_key_source, validate_nats, any_nats_webhook_target, IsListener,
  IsKeySource, IsNats, validate_listener_iff, validate_key_source_iff, validate_nats_iff,
}
use idcat.Config.Apps.{validate_apps, validate_apps_iff, IsApp}
use idcat.Config.InstallationPolicies.{
  validate_installation_policy, validate_installation_policy_iff, IsInstallationPolicy,
}
use idcat.Config.OwnerPolicies.{validate_owner_policy, validate_owner_policy_iff, IsOwnerPolicy}

abbrev pub app_names : List GithubAppConfig → List Text
app_names = map (λ app. app.name)

module _ (Z : Authzoo) where
  -- Some policy is for the app.
  unfoldable pub has_installation_policy : List (InstallationPolicyConfig Z) → Text → Bool
  unfolding any
  has_installation_policy ps name = any (λ p. p.github_app == name) ps

  unfoldable pub has_owner_policy : List (OwnerPolicyConfig Z) → Text → Bool
  unfolding any
  has_owner_policy ps name = any (λ p. p.github_app == name) ps

  unfoldable pub check_reachable : Config Z → GithubAppConfig → Result ConfigError (Unit {0})
  check_reachable c app =
      bail_if
        (is_nil app.allowed_roles
          && not (has_installation_policy c.installation_policies app.name)
          && not (has_owner_policy c.owner_policies app.name))
        (unreachable_app app.name)

  -- `if !disable_auth { … }`
  unfoldable pub validate_access :
      Config Z → Z.TokenValidator → List Text → Result ConfigError (Unit {0})
  validate_access c v names = do
    for_each (validate_installation_policy Z v names) c.installation_policies
    for_each (validate_owner_policy Z v names) c.owner_policies
    for_each (check_reachable c) c.github_apps

  unfoldable pub validate_with : Bool → Config Z → Z.TokenValidator → Result ConfigError (Unit {0})
  validate_with disable_auth c v = do
    bail_if (not disable_auth && is_nil c.roles) no_roles
    bail_if (is_nil c.github_apps) no_github_apps
    names ← validate_apps Z v disable_auth c.key_source [] c.github_apps
    if disable_auth then ok tt else validate_access c v names

  unfoldable pub validate_server : Bool → Config Z → Result ConfigError (Unit {0})
  validate_server kms_built c = do
    validate_listener c.bind_address c.tls
    validate_key_source kms_built c.key_source c.private_key_directory
    validate_nats (any_nats_webhook_target c.github_apps) c.nats

  unfoldable pub validate : Bool → Bool → Config Z → Result ConfigError (Unit {0})
  validate kms_built disable_auth c = do
    validate_server kms_built c
    v ← map_err authzoo (Z.new c.roles)
    validate_with disable_auth c v

  -- The app can be used by somebody: it allows a role, or a policy is for it.
  abbrev pub IsReachable : Config Z → GithubAppConfig → Type 0
  IsReachable c app =
      (app.allowed_roles ≢ [])
      ⊎ (((policy : InstallationPolicyConfig Z) × Memᴰ policy c.installation_policies
            × (policy.github_app ≡ app.name))
          ⊎ ((policy : OwnerPolicyConfig Z) × Memᴰ policy c.owner_policies
              × (policy.github_app ≡ app.name)))

  pub record IsAccess (c : Config Z) (v : Z.TokenValidator) (names : List Text) : Type 0 where
    pub installation_policies : All (IsInstallationPolicy Z v names) c.installation_policies
    pub owner_policies : All (IsOwnerPolicy Z v names) c.owner_policies
    pub reachable : All (IsReachable c) c.github_apps

  -- What is asked of the policies, if authorization is on.
  abbrev pub IsAuthorized : Bool → Config Z → Z.TokenValidator → Type 0
  IsAuthorized true c v = Unit
  IsAuthorized false c v = (c.roles ≢ []) × IsAccess c v (reverse (app_names c.github_apps))

  pub record IsValid (kms_built disable_auth : Bool) (c : Config Z) : Type 0 where
    pub listener : IsListener c.bind_address c.tls
    pub key_source : IsKeySource kms_built c.key_source c.private_key_directory
    pub nats : IsNats c.github_apps c.nats
    pub validator : Z.TokenValidator
    pub built : Z.new c.roles ≡ ok validator
    pub has_apps : c.github_apps ≢ []
    pub apps : All (IsApp Z validator disable_auth c.key_source) c.github_apps
    pub distinct : Distinct (app_names c.github_apps)
    pub authorized : IsAuthorized disable_auth c validator

  has_installation_policy_iff :
      (ps : List (InstallationPolicyConfig Z)) (name : Text)
      → (has_installation_policy ps name ≡ true)
        ↔ ((policy : InstallationPolicyConfig Z) × Memᴰ policy ps × (policy.github_app ≡ name))
  unfolding has_installation_policy
  has_installation_policy_iff ps name = (
    (λ h. let (p, m, e) = any_member _ ps h in (p, m, eq_of_test p.github_app name e)),
    (λ (p, m, e).
        any_of_member (λ (p : InstallationPolicyConfig Z). p.github_app == name) m
          (subst (λ n. (p.github_app == n) ≡ true) e (test_self p.github_app))),
  )

  has_owner_policy_iff :
      (ps : List (OwnerPolicyConfig Z)) (name : Text)
      → (has_owner_policy ps name ≡ true)
        ↔ ((policy : OwnerPolicyConfig Z) × Memᴰ policy ps × (policy.github_app ≡ name))
  unfolding has_owner_policy
  has_owner_policy_iff ps name = (
    (λ h. let (p, m, e) = any_member _ ps h in (p, m, eq_of_test p.github_app name e)),
    (λ (p, m, e).
        any_of_member (λ (p : OwnerPolicyConfig Z). p.github_app == name) m
          (subst (λ n. (p.github_app == n) ≡ true) e (test_self p.github_app))),
  )

  check_reachable_iff :
      (c : Config Z) (app : GithubAppConfig) → (check_reachable c app ≡ ok tt) ↔ IsReachable c app
  unfolding check_reachable
  check_reachable_iff c app =
      let (to, from) = has_installation_policy_iff c.installation_policies app.name in
      let (to', from') = has_owner_policy_iff c.owner_policies app.name in
      (
        (λ h. elim (Bool-cases (has_installation_policy c.installation_policies app.name)) [
          | inl there ↦ inr (inl (to there))
          | inr missing ↦ elim (Bool-cases (has_owner_policy c.owner_policies app.name)) [
            | inl there ↦ inr (inr (to' there))
            | inr missing' ↦ inl (ground arith)
          ]
        ]),
        (λ h. elim h [
          | inl some_role ↦ ground arith
          | inr (inl policy) ↦ let there = from policy in ground arith
          | inr (inr policy) ↦ let there = from' policy in ground arith
        ]),
      )

  validate_access_iff :
      (c : Config Z) (v : Z.TokenValidator) (names : List Text)
      → (validate_access c v names ≡ ok tt) ↔ IsAccess c v names
  unfolding validate_access
  validate_access_iff c v names =
      let inst = for_each_iff (validate_installation_policy Z v names) c.installation_policies in
      let own = for_each_iff (validate_owner_policy Z v names) c.owner_policies in
      let reach = for_each_iff (check_reachable c) c.github_apps in
      (
        λ h. record {
          installation_policies =
              All-map _ (λ p. (validate_installation_policy_iff Z v names p).0)
                (inst.0 (ground arith));
          owner_policies =
              All-map _ (λ p. (validate_owner_policy_iff Z v names p).0) (own.0 (ground arith));
          reachable = All-map _ (λ a. (check_reachable_iff c a).0) (reach.0 (ground arith));
        },
        λ h.
            let a = inst.1 (
              All-map _ (λ p. (validate_installation_policy_iff Z v names p).1)
                h.installation_policies) in
            let b =
              own.1 (All-map _ (λ p. (validate_owner_policy_iff Z v names p).1) h.owner_policies) in
            let d = reach.1 (All-map _ (λ x. (check_reachable_iff c x).1) h.reachable) in
            ground arith,
      )

  -- What `validate_with` establishes.
  abbrev IsChecked : Bool → Config Z → Z.TokenValidator → Type 0
  IsChecked d c v =
      (c.github_apps ≢ [])
      × All (IsApp Z v d c.key_source) c.github_apps
      × Distinct (app_names c.github_apps)
      × IsAuthorized d c v

  IsAuthorized-iff :
      (d : Bool) (c : Config Z) (v : Z.TokenValidator)
      → ((bail_if (not d && is_nil c.roles) no_roles ≡ ok tt)
          × ((if d then ok tt else validate_access c v (reverse (app_names c.github_apps)))
              ≡ ok tt))
        ↔ IsAuthorized d c v
  IsAuthorized-iff true c v = ground arith
  IsAuthorized-iff false c v =
      let (to, from) = validate_access_iff c v (reverse (app_names c.github_apps)) in
      (λ h. (ground arith, to h.1), λ h. (ground arith, from h.1))

  validate_with_iff :
      (d : Bool) (c : Config Z) (v : Z.TokenValidator)
      → (validate_with d c v ≡ ok tt) ↔ IsChecked d c v
  unfolding validate_with contains
  validate_with_iff d c v =
      let names = reverse (app_names c.github_apps) in
      let (to, from) = validate_apps_iff Z v d c.key_source [] c.github_apps names in
      let (seen, unseen) = IsAuthorized-iff d c v in
      let (first, first') = >>_iff (bail_if (not d && is_nil c.roles) no_roles) _ tt in
      let (second, second') = >>_iff (bail_if (is_nil c.github_apps) no_github_apps) _ tt in
      (
        λ h.
            let (roles, h') = first h in
            let (apps, h'') = second h' in
            let (found, e, rest) =
              >>=-eq-ok (validate_apps Z v d c.key_source [] c.github_apps) _ h'' in
            let (well_formed, _, distinct, end) =
              (validate_apps_iff Z v d c.key_source [] c.github_apps found).0 e in
            (
              ground arith,
              well_formed,
              distinct,
              seen (
                roles,
                subst (λ n. (if d then ok tt else validate_access c v n) ≡ ok tt) (sym end) rest,
              ),
            ),
        λ h.
            let (roles, rest) = unseen h.3 in
            let apps = from (h.1, All-of (λ n. contains [] n ≡ false) _ fresh, h.2, refl) in
            first' (roles, second' (ground arith, rw apps rest)),
      )
    where
      fresh : (n : Text) → contains [] n ≡ false
      fresh n = refl

  validate_server_iff :
      (k : Bool) (c : Config Z)
      → (validate_server k c ≡ ok tt) ↔ (
          IsListener c.bind_address c.tls
          × IsKeySource k c.key_source c.private_key_directory
          × IsNats c.github_apps c.nats)
  unfolding validate_server
  validate_server_iff k c =
      let a = validate_listener_iff c.bind_address c.tls in
      let b = validate_key_source_iff k c.key_source c.private_key_directory in
      let n = validate_nats_iff c.github_apps c.nats in
      (
        λ h. (a.0 (ground arith), b.0 (ground arith), n.0 (ground arith)),
        λ h. let x = a.1 h.0 in let y = b.1 h.1 in let z = n.1 h.2 in ground arith,
      )

  -- A configuration is accepted exactly when it is valid: every check of the source holds, and
  -- conversely no valid configuration is refused.
  pub validate_iff :
      (kms_built disable_auth : Bool) (c : Config Z)
      → (validate kms_built disable_auth c ≡ ok tt) ↔ IsValid kms_built disable_auth c
  unfolding validate
  validate_iff k d c =
      let (to, from) = >>_iff (validate_server k c) _ tt in
      let server = validate_server_iff k c in
      (
        λ h.
            let (listener, keys, nats) = server.0 (to h).0 in
            let (v, made, rest) = >>=-eq-ok (map_err authzoo (Z.new c.roles)) _ (to h).1 in
            let (has_apps, apps, distinct, authorized) = (validate_with_iff d c v).0 rest in
            record {
              listener = listener;
              key_source = keys;
              nats = nats;
              validator = v;
              built = new_of_mapped (Z.new c.roles) v made;
              has_apps = has_apps;
              apps = apps;
              distinct = distinct;
              authorized = authorized;
            },
        λ h. from (
          server.1 (h.listener, h.key_source, h.nats),
          rw h.built (
              (validate_with_iff d c h.validator).1 (h.has_apps, h.apps, h.distinct, h.authorized)),
        ),
      )
    where
      new_of_mapped :
          (r : Result Text Z.TokenValidator) (v : Z.TokenValidator)
          → map_err authzoo r ≡ ok v
          → r ≡ ok v
      new_of_mapped (ok w) v e = ground arith
      new_of_mapped (err m) v e = cc
