-- ===== src/Config/Errors.antt =====
-- src/config.rs: the reasons for which a configuration is refused, one constructor for each
-- message, with the values that the message shows.
use idcat.Common.{Text}

pub data PolicyKind : Type 0 where
  installation owner : PolicyKind

-- Each message names the app; most name the label (the patterns, joined) and the role as well.
pub data PolicyError : Type 0 where
  empty_app : PolicyError
  unknown_app no_pattern bad_pattern : (app : Text) → PolicyError
  no_role : (app label : Text) → PolicyError
  no_claims empty_claim self_access_claim role_has_self_access_claim no_permissions :
      (app label role : Text) → PolicyError
  duplicate_claim : (app label role claim : Text) → PolicyError

pub data ConfigError : Type 0 where
  empty_bind_address empty_certificate_file empty_private_key_file : ConfigError
  empty_private_key_directory kms_not_built : ConfigError
  no_nats_block empty_endpoint empty_subject_base : ConfigError
  subject_base_whitespace empty_token_path : ConfigError
  no_roles no_github_apps empty_app_name : ConfigError
  slash_in_app_name zero_app_id no_secret_key secret_key_not_relative : (app : Text) → ConfigError
  empty_webhook_secret_file duplicate_app empty_allowed_role : (app : Text) → ConfigError
  policy : PolicyKind → PolicyError → ConfigError
  -- nothing in the configuration reaches the app
  unreachable_app : (app : Text) → ConfigError
  -- an error of the crate `authzoo`, passed on with its message
  authzoo : (message : Text) → ConfigError
  -- the index of a map with a key that it lacks: the process panics
  panicked : ConfigError
