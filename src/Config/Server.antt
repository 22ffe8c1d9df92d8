-- ===== src/Config/Server.antt =====
-- src/config.rs, `Config::validate`: the checks of the listener, of the key source and of NATS.
use idcat.Common.{
  any-false_iff, All, All-map, refl, ◌≡◌, ◌≢◌, ◌↔◌, Bool, true, false, not, Option, none, some,
  List, [], Text, text_eq, Result, ok, ◌>>◌, bail_if, is_nil, any, is_whitespace, arith,
}
use idcat.Config.{
  TlsConfig, KeySource, local, kms, WebhookTarget, nats, NatsConfig, GithubAppConfig,
}
use idcat.Config.Errors.{
  ConfigError, empty_bind_address, empty_certificate_file, empty_private_key_file,
  empty_private_key_directory, kms_not_built, no_nats_block, empty_endpoint, empty_subject_base,
  subject_base_whitespace, empty_token_path,
}

validate_tls : Option TlsConfig → Result ConfigError (Unit {0})
validate_tls none = ok tt
validate_tls (some tls) = do
  bail_if (is_nil tls.certificate_file) empty_certificate_file
  bail_if (is_nil tls.private_key_file) empty_private_key_file

unfoldable pub validate_listener : Text → Option TlsConfig → Result ConfigError (Unit {0})
unfolding validate_tls
validate_listener bind_address tls = do
  bail_if (is_nil bind_address) empty_bind_address
  validate_tls tls

-- `kms_built` is `cfg!(feature = "kms")`.
unfoldable pub validate_key_source : Bool → KeySource → Text → Result ConfigError (Unit {0})
validate_key_source kms_built local directory =
    bail_if (is_nil directory) empty_private_key_directory
validate_key_source kms_built kms directory = bail_if (not kms_built) kms_not_built

abbrev is_nats : Option WebhookTarget → Bool
is_nats none = false
is_nats (some nats) = true

-- `any_nats_webhook_target`
unfoldable pub any_nats_webhook_target : List GithubAppConfig → Bool
unfolding any
any_nats_webhook_target apps = any (λ app. is_nats app.webhook_target) apps

-- `matches!(o.as_deref(), Some(""))`
abbrev pub is_empty_some : Option Text → Bool
is_empty_some none = false
is_empty_some (some s) = is_nil s

unfoldable pub validate_nats_block : NatsConfig → Result ConfigError (Unit {0})
validate_nats_block n = do
  bail_if (is_nil n.endpoint) empty_endpoint
  bail_if (is_nil n.subject_base) empty_subject_base
  bail_if (any is_whitespace n.subject_base) subject_base_whitespace
  bail_if (is_empty_some n.token_path) empty_token_path

unfoldable pub validate_nats : Bool → Option NatsConfig → Result ConfigError (Unit {0})
unfolding validate_nats_block
validate_nats any_target none = bail_if any_target no_nats_block
validate_nats any_target (some n) = validate_nats_block n

abbrev pub IsTls : Option TlsConfig → Type 0
IsTls none = Unit
IsTls (some tls) = (tls.certificate_file ≢ []) × (tls.private_key_file ≢ [])

pub record IsListener (bind_address : Text) (tls : Option TlsConfig) : Type 0 where
  pub bound : bind_address ≢ []
  pub tls_files : IsTls tls

abbrev pub IsKeySource : Bool → KeySource → Text → Type 0
IsKeySource kms_built local directory = directory ≢ []
IsKeySource kms_built kms directory = kms_built ≡ true

pub record IsNatsBlock (n : NatsConfig) : Type 0 where
  pub endpoint : n.endpoint ≢ []
  pub subject_base : n.subject_base ≢ []
  pub no_whitespace : any is_whitespace n.subject_base ≡ false
  pub token_path : n.token_path ≢ some []

-- Without NATS no app has a target for its webhooks.
abbrev pub IsNats : List GithubAppConfig → Option NatsConfig → Type 0
IsNats apps none = All (λ app. app.webhook_target ≡ none) apps
IsNats apps (some n) = IsNatsBlock n

pub validate_listener_iff :
    (a : Text) (tls : Option TlsConfig) → (validate_listener a tls ≡ ok tt) ↔ IsListener a tls
unfolding validate_listener
validate_listener_iff a none = ground arith
validate_listener_iff a (some tls) = ground arith

pub validate_key_source_iff :
    (b : Bool) (k : KeySource) (d : Text) → (validate_key_source b k d ≡ ok tt) ↔ IsKeySource b k d
unfolding validate_key_source
validate_key_source_iff b local d = ground arith
validate_key_source_iff b kms d = ground arith

is_nats-false_iff : (target : Option WebhookTarget) → (is_nats target ≡ false) ↔ (target ≡ none)
is_nats-false_iff none = ((λ h. refl), (λ h. refl))
is_nats-false_iff (some nats) = ((λ h. absurd (cc)), (λ h. absurd (cc)))

no_target_iff :
    (apps : List GithubAppConfig)
    → (any_nats_webhook_target apps ≡ false) ↔ All (λ app. app.webhook_target ≡ none) apps
unfolding any_nats_webhook_target
no_target_iff apps =
    let (to, from) = any-false_iff (λ (app : GithubAppConfig). is_nats app.webhook_target) apps in
    (
      (λ h. All-map apps (λ app. (is_nats-false_iff app.webhook_target).0) (to h)),
      (λ h. from (All-map apps (λ app. (is_nats-false_iff app.webhook_target).1) h)),
    )

pub validate_nats_iff :
    (apps : List GithubAppConfig) (n : Option NatsConfig)
    → (validate_nats (any_nats_webhook_target apps) n ≡ ok tt) ↔ IsNats apps n
unfolding validate_nats
validate_nats_iff apps none =
    let (to, from) = no_target_iff apps in
    ((λ h. to (ground arith)), (λ h. let none_there = from h in ground arith))
validate_nats_iff apps (some n) = ground arith
