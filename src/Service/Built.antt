-- ===== src/Service/Built.antt =====
-- src/service.rs: what `build_app_state` takes over from a configuration.
use mathlib.Core.List.Memᴰ
use mathlib.Core.List.{Memᴰ}
use idcat.Common.{
  Bool, Free, All_member, subst, ◌≡◌, refl, true, false, some, List, ◌∷◌, ◌++◌, Text, text_eq,
  Result, ok, >>=-eq-ok, arith,
}
use idcat.Authzoo.{Authzoo}
use idcat.Config.{GithubAppConfig, Config, NatsConfig}
use idcat.Config.Validate.{validate, validate_iff}
use idcat.Config.Server.{any_nats_webhook_target}
use idcat.Service.{
  WebhookPublisher, AppState, TokenValidator, build_app_state, new_validator, connect_publisher,
  auth_enabled, validate as validate_token,
}

pub member_of_split {ℓ} :
    {A : Type ℓ} (xs before after : List A) (x : A) → xs ≡ before ++ x ∷ after → Memᴰ x xs
member_of_split xs before after x e = rw e (Memᴰ.append_right before (Memᴰ.head refl))

module _ (Z : Authzoo) (connect : NatsConfig → Result Text WebhookPublisher)
    (client : Result Text (Unit {0})) (c : Config Z) where
  -- What a service takes over from its configuration, with authorization on.
  pub record IsBuilt (state : AppState Z) : Type 0 where
    pub github_apps : state.github_apps ≡ c.github_apps
    pub installation_policies : state.installation_policies ≡ c.installation_policies
    pub owner_policies : state.owner_policies ≡ c.owner_policies
    pub validator : Z.TokenValidator
    pub made : Z.new c.roles ≡ ok validator
    pub inner : state.token_validator.inner ≡ some validator

  pub build_app_state-IsBuilt :
      (state : AppState Z) → build_app_state Z connect client c false ≡ ok state → IsBuilt state
  unfolding build_app_state
  build_app_state-IsBuilt state h =
      let (publisher, connected, h') =
        >>=-eq-ok (connect_publisher Z connect (any_nats_webhook_target c.github_apps) c.nats) _
          h in
      let (outer, found, h'') = >>=-eq-ok (new_validator Z c.roles false) _ h' in
      let (w, made, same) = >>=-eq-ok (Z.new c.roles) _ found in
      record {
        github_apps = ground arith;
        installation_policies = ground arith;
        owner_policies = ground arith;
        validator = w;
        made = made;
        inner = ground arith;
      }

pub validate_inner :
    (Z : Authzoo) (v : TokenValidator Z) (w : Z.TokenValidator) (token : Text)
    → v.inner ≡ some w
    → validate_token Z v token ≡ Z.validate w token
unfolding validate_token
validate_inner Z v w token e = ground arith

pub enabled :
    (Z : Authzoo) (v : TokenValidator Z) (w : Z.TokenValidator)
    → v.inner ≡ some w
    → auth_enabled Z v ≡ true
unfolding auth_enabled
enabled Z v w e = ground arith

-- The apps of a service are those of its configuration, and in none that was accepted has an app a slash
-- in its name.
pub plain_names :
    (Z : Authzoo) (connect : NatsConfig → Result Text WebhookPublisher)
    (client : Result Text (Unit {0})) (c : Config Z) (kms_built disable_auth : Bool)
    (state : AppState Z)
    → validate Z kms_built disable_auth c ≡ ok tt
    → build_app_state Z connect client c disable_auth ≡ ok state
    → (app : GithubAppConfig) → Memᴰ app state.github_apps
    → Free b'/' app.name
unfolding build_app_state
plain_names Z connect client c kms_built disable_auth state valid h app member =
    let (publisher, connected, h') =
      >>=-eq-ok (connect_publisher Z connect (any_nats_webhook_target c.github_apps) c.nats) _ h in
    let (outer, found, h'') = >>=-eq-ok (new_validator Z c.roles disable_auth) _ h' in
    let (_, _, same) = >>=-eq-ok client _ h'' in
    let apps : state.github_apps ≡ c.github_apps = ground arith in
    let accepted = (validate_iff Z kms_built disable_auth c).0 valid in
    (All_member _ accepted.apps (subst (λ l. Memᴰ app l) apps member)).no_slash
