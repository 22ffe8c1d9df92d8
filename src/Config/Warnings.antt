-- ===== src/Config/Warnings.antt =====
-- src/config.rs, `Config::validate`: the warnings that a validation logs when it accepts.
use idcat.Common.{
  ◌≡◌, ◌↔◌, refl, Bool, true, false, not, Option, none, some, List, [], ◌∷◌, ◌++◌, Text, text_eq,
  Map, contains, All, arith,
}
use idcat.Authzoo.{Authzoo}
use idcat.Config.{
  NatsConfig, InstallationPolicyConfig, OwnerPolicyConfig, Config, known_permission_values,
}
use idcat.Config.Permissions.{known_github_permissions}
use idcat.Config.Server.{any_nats_webhook_target}
use idcat.Config.InstallationPolicies.{repositories_label}
use idcat.Config.OwnerPolicies.{owners_label}

-- The policy of a warning: its app, its `repositories_label` or `owners_label`, and its role.
pub record PolicyRef : Type 0 where
  pub github_app : Text
  pub target : Text
  pub role : Text

pub data Warning : Type 0 where
  nats_unused : Warning
  unrecognised_permission : (policy : PolicyRef) (permission : Text) → Warning
  unrecognised_level : (policy : PolicyRef) (permission value : Text) → Warning

warn_if : Bool → Warning → List Warning
warn_if true warning = warning ∷ []
warn_if false warning = []

-- `for (name, value) in &policy.permissions`
unfoldable pub permission_warnings : PolicyRef → Map Text Text → List Warning
unfolding warn_if
permission_warnings policy [] = []
permission_warnings policy ((name, value) ∷ permissions) =
    warn_if (not (contains known_github_permissions name)) (unrecognised_permission policy name)
    ++ (warn_if (not (contains known_permission_values value))
          (unrecognised_level policy name value)
        ++ permission_warnings policy permissions)

unfoldable pub nats_warnings : Bool → Option NatsConfig → List Warning
unfolding warn_if
nats_warnings any_target none = []
nats_warnings any_target (some n) = warn_if (not any_target) nats_unused

module _ (Z : Authzoo) where
  unfoldable pub installation_warnings : List (InstallationPolicyConfig Z) → List Warning
  installation_warnings [] = []
  installation_warnings (p ∷ policies) =
      permission_warnings
        (record { github_app = p.github_app; target = repositories_label p; role = p.role })
        p.permissions
      ++ installation_warnings policies

  unfoldable pub owner_warnings : List (OwnerPolicyConfig Z) → List Warning
  owner_warnings [] = []
  owner_warnings (p ∷ policies) =
      permission_warnings
        (record { github_app = p.github_app; target = owners_label p; role = p.role }) p.permissions
      ++ owner_warnings policies

  -- the `if !disable_auth` around the policies
  policy_warnings : Bool → Config Z → List Warning
  policy_warnings true c = []
  policy_warnings false c =
      installation_warnings c.installation_policies ++ owner_warnings c.owner_policies

  unfoldable pub warnings : Bool → Config Z → List Warning
  unfolding policy_warnings
  warnings disable_auth c =
      nats_warnings (any_nats_webhook_target c.github_apps) c.nats ++ policy_warnings disable_auth c

  -- A permission that GitHub is known to have, with a level that it is known to take.
  abbrev pub IsRecognised : Text × Text → Type 0
  IsRecognised (name, value) =
      (contains known_github_permissions name ≡ true)
      × (contains known_permission_values value ≡ true)

  abbrev pub RecognisedPolicies : Bool → Config Z → Type 0
  RecognisedPolicies true c = Unit
  RecognisedPolicies false c =
      All (λ p. All IsRecognised p.permissions) c.installation_policies
      × All (λ p. All IsRecognised p.permissions) c.owner_policies

  abbrev pub IsNatsUsed : Bool → Option NatsConfig → Type 0
  IsNatsUsed any_target none = Unit
  IsNatsUsed any_target (some n) = any_target ≡ true

  append-nil_iff : (xs ys : List Warning) → (xs ++ ys ≡ []) ↔ ((xs ≡ []) × (ys ≡ []))
  append-nil_iff [] ys = ground arith
  append-nil_iff (x ∷ xs) ys = (λ e. absurd (ground arith), λ (p, q). absurd (ground arith))

  warn_if-nil_iff : (b : Bool) (w : Warning) → (warn_if (not b) w ≡ []) ↔ (b ≡ true)
  unfolding warn_if
  warn_if-nil_iff true w = ground arith
  warn_if-nil_iff false w = ground arith

  permission_warnings-nil_iff :
      (policy : PolicyRef) (permissions : Map Text Text)
      → (permission_warnings policy permissions ≡ []) ↔ All IsRecognised permissions
  unfolding permission_warnings
  permission_warnings-nil_iff policy [] = (λ _. tt, λ _. refl)
  permission_warnings-nil_iff policy ((name, value) ∷ permissions) =
      let known =
        warn_if-nil_iff (contains known_github_permissions name)
          (unrecognised_permission policy name) in
      let level =
        warn_if-nil_iff (contains known_permission_values value)
          (unrecognised_level policy name value) in
      let rest = permission_warnings-nil_iff policy permissions in
      let outer =
        append-nil_iff
          (warn_if (not (contains known_github_permissions name))
            (unrecognised_permission policy name))
          _ in
      let inner =
        append-nil_iff
          (warn_if (not (contains known_permission_values value))
            (unrecognised_level policy name value))
          _ in
      (
        λ e. let (a, b) = outer.0 e in let (c, d) = inner.0 b in ((known.0 a, level.0 c), rest.0 d),
        λ ((a, c), d). outer.1 (known.1 a, inner.1 (level.1 c, rest.1 d)),
      )

  installation_warnings-nil_iff :
      (policies : List (InstallationPolicyConfig Z))
      → (installation_warnings policies ≡ []) ↔ All (λ p. All IsRecognised p.permissions) policies
  unfolding installation_warnings
  installation_warnings-nil_iff [] = (λ _. tt, λ _. refl)
  installation_warnings-nil_iff (p ∷ policies) =
      let one =
        permission_warnings-nil_iff
          (record { github_app = p.github_app; target = repositories_label p; role = p.role })
          p.permissions in
      let rest = installation_warnings-nil_iff policies in
      let both = append-nil_iff _ (installation_warnings policies) in
      (λ e. let (a, b) = both.0 e in (one.0 a, rest.0 b), λ (a, b). both.1 (one.1 a, rest.1 b))

  owner_warnings-nil_iff :
      (policies : List (OwnerPolicyConfig Z))
      → (owner_warnings policies ≡ []) ↔ All (λ p. All IsRecognised p.permissions) policies
  unfolding owner_warnings
  owner_warnings-nil_iff [] = (λ _. tt, λ _. refl)
  owner_warnings-nil_iff (p ∷ policies) =
      let one =
        permission_warnings-nil_iff
          (record { github_app = p.github_app; target = owners_label p; role = p.role })
          p.permissions in
      let rest = owner_warnings-nil_iff policies in
      let both = append-nil_iff _ (owner_warnings policies) in
      (λ e. let (a, b) = both.0 e in (one.0 a, rest.0 b), λ (a, b). both.1 (one.1 a, rest.1 b))

  nats_warnings-nil_iff :
      (any_target : Bool) (n : Option NatsConfig)
      → (nats_warnings any_target n ≡ []) ↔ IsNatsUsed any_target n
  unfolding nats_warnings
  nats_warnings-nil_iff any_target none = (λ _. tt, λ _. refl)
  nats_warnings-nil_iff any_target (some n) = warn_if-nil_iff any_target nats_unused

  policy_warnings-nil_iff :
      (disable_auth : Bool) (c : Config Z)
      → (policy_warnings disable_auth c ≡ []) ↔ RecognisedPolicies disable_auth c
  unfolding policy_warnings
  policy_warnings-nil_iff true c = (λ _. tt, λ _. refl)
  policy_warnings-nil_iff false c =
      let first = installation_warnings-nil_iff c.installation_policies in
      let second = owner_warnings-nil_iff c.owner_policies in
      let both =
        append-nil_iff (installation_warnings c.installation_policies)
          (owner_warnings c.owner_policies) in
      (
        λ e. let (a, b) = both.0 e in (first.0 a, second.0 b),
        λ (a, b). both.1 (first.1 a, second.1 b),
      )

  -- A validation that accepts logs no warning exactly when a NATS block is there only with an app whose
  -- webhooks go to NATS and, unless authorization is off, every policy grants only permissions that are
  -- on the list of GitHub's, each with one of the three levels. With authorization off the policies are
  -- not looked at.
  pub warnings-nil_iff :
      (disable_auth : Bool) (c : Config Z)
      → (warnings disable_auth c ≡ []) ↔ (
          IsNatsUsed (any_nats_webhook_target c.github_apps) c.nats
          × RecognisedPolicies disable_auth c)
  unfolding warnings
  warnings-nil_iff disable_auth c =
      let nats = nats_warnings-nil_iff (any_nats_webhook_target c.github_apps) c.nats in
      let policies = policy_warnings-nil_iff disable_auth c in
      let both =
        append-nil_iff (nats_warnings (any_nats_webhook_target c.github_apps) c.nats)
          (policy_warnings disable_auth c) in
      (
        λ e. let (a, b) = both.0 e in (nats.0 a, policies.0 b),
        λ (a, b). both.1 (nats.1 a, policies.1 b),
      )
